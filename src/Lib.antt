-- ===== src/Lib.antt =====
-- DeBeOS-RDP, a client for the Haiku remote desktop: the wire protocol and the policies around it.
--
-- A server draws by sending messages, `uint16` code, `uint32` size and payload, over a byte stream.
-- The stream reaches the client over TCP or in WebSocket frames (src/websocket.cpp), where a broker
-- first asks for a token (src/broker_handshake.cpp) and shows a certificate (src/known_brokers.cpp).
-- Once compression is negotiated the stream is wrapped in segments (src/wire_decoder.cpp). The
-- Framer cuts it into messages, a Reader takes their payloads apart, and a Writer makes the client's
-- own messages (src/protocol.cpp), among them those for input (src/input_encoder.cpp). The session
-- (src/session.cpp) feeds these with the bytes of the connection, handles the messages one by one,
-- and answers those that want an answer. When a connection ends, src/reconnect.cpp decides whether
-- and when the client connects again. Settings are kept as JSON texts (src/json.cpp).
--
-- Files and code:
--   Prelude.antt and Prelude/: Boolean tests, lists, results, fixed-width integers, bit operations
--     and decimal texts that all parts share.
--   Protocol/Bytes.antt: read_u16_le, read_u32_le, read_u64_le and the bytes that they read.
--   Protocol/Opcode.antt: HAIKU_REMOTE_OP_TABLE of include/haiku_remote/protocol.hpp as the type Op,
--     with op_name, all_ops and is_session_level.
--   Protocol/Reader.antt, Reader/Records.antt, Reader/Gradient.antt: class Reader. A read is a
--     function from a Reader to an error or a value and the Reader after it; `require` throws.
--     Reader/Bounds.antt, Reader/Layout.antt and Reader/RoundTrip.antt are about them.
--   Protocol/Writer.antt: class Writer; `start` is its constructor.
--   Protocol/Framer.antt, Framer/Segment.antt: class Framer and segment_start. Its buffer from the
--     scan's offset on is a list of its own; `scan` is the loop of Framer::feed. The other files of
--     Framer/ are about feed: Steps, Taken and Stream on single rounds, Runs on the loop, Lossless,
--     Chunks, Switch, RoundTrip, Until and Ends on what it returns.
--   WireDecoder.antt: class SegmentDecoder. The sink is a function on a state of its own that may
--     throw; Varint, Segments, Stream, Delivery, Pieces, Fuel
--     and Stops are about its feed.
--   WebSocket.antt: the frames of class WebSocketTransport, out (send_frame, send_all) and in
--     (drain_frames, receive), and close. WebSocket/Frames.antt, Peer.antt (the frames of the
--     other side, by RFC 6455), Drain.antt and Fuel.antt are about them.
--   Broker.antt: broker_authenticate_message, broker_auth_result and decode_certificate_pin, with
--     Broker/Authentication.antt and Broker/Pins.antt.
--   KnownBrokers.antt: the store of class KnownBrokers in memory and resolve_broker_trust of
--     src/known_brokers.cpp; KnownBrokers/File.antt: its text; KnownBrokers/Trust.antt: load, save,
--     record_broker_trust, seed_known_broker, terminal_trust_prompt, and verify_broker_certificate of
--     src/broker_handshake.cpp. Store, Lines, Words, Keys, Reload, Stored and Continuity are about the
--     store and its text, Decision, Acceptance and FirstUse about trust; Connect.antt is
--     connect_with_broker_trust of src/transport.cpp, and Consent is about it.
--   Transport.antt: parse_url of src/transport.cpp; Transport/Url.antt is about it.
--   Input.antt: class InputEncoder and first_utf8_scalar, with Input/Utf8.antt and
--     Input/Messages.antt.
--   Reconnect.antt: classify_connection, outcome_is_retriable, ReconnectPolicy and
--     ReconnectSchedule; Reconnect/Arguments.antt: the options. Outcome, Backoff and Schedule are
--     about them.
--   Session.antt: class Session as a Desk (what a message changes) and, in Session/Ingest.antt, the
--     framer, the segment decoder and the flags around it. Session/Messages.antt is handle, Generation
--     is about the font files, Replies and Start about what is sent, Plain and Handshake about ingest,
--     and History about every run of start, ingest and disconnect.
--   Json.antt: the Json values, their texts and the members of an object; Json/Parser.antt: class
--     Parser. Numbers, Strings, Steps, Kept, Endings, RoundTrip, Fuel and Lookup are about them.
--   Examples.antt and Examples/: the theorems at concrete inputs.
--
-- Bytes and characters are natural numbers, a buffer is a list of them, and a fixed-width integer
-- keeps its wrap-around (`% 2 ^ w`). A float is its bit pattern. An error message is a constructor
-- with the numbers that the text shows. A clock reading is a number of milliseconds.
--
-- Loops are recursion on the bytes, or on fuel. The Framer's loop has a round for each buffered byte
-- and one more, that of SegmentDecoder::feed likewise, and so has drain_frames: each round takes a
-- header at least. The rounds of the decompressor are bounded by a limit that the codec states. The
-- JSON parser's mutual calls share a fuel of four for each character of the text and one more: a
-- value takes a character, and at most four calls stand between two characters.
--
-- Parameters: libzstd is a `Codec` (WireDecoder.antt), one call of ZSTD_decompressStream being a
-- function of the stream's state, the input left and the room, of which the theorems ask that a
-- round that reads or writes something lowers the codec's limit. The socket under a WebSocket, with
-- TLS and RAND_bytes, is a `Port`. EVP_DecodeBlock is a function that the pin's decoder is given.
-- What draws is a `Drawing` (Session.antt), an arbitrary step on a state of its own for each drawing
-- message; the contents of the font files are `FontFiles`, and the transport's send is its result.
-- The file of known brokers is a `Disk`: its contents, and whether atomic_write_file succeeds. A
-- transport's connect is a parameter of connect_with_broker_trust: the interface Transport of
-- include/haiku_remote/transport.hpp, with no assumption on what it does. A segment decoder's error
-- is taken to have a text, as all of the program's have. The texts of numbers are `Doubles`
-- (Json.antt), with strtod and snprintf's documented behaviour as `DoubleLaws`, for normal numbers
-- and the positive zero in the "C" locale. The JSON parser's call stack is taken to be deep enough.
--
-- Not modelled: drawing (src/painter.cpp, src/agg_port.cpp, src/text_engine.cpp, src/surface.cpp),
-- the arms of Session::handle_token that decode for it, read_bitmap, the cursor's picture and the
-- logs of src/session.cpp, the threads (src/desktop_session.cpp), the front ends, the rest of the
-- transports and profiles, and of the modelled files the HTTP upgrade and TLS set-up of
-- src/websocket.cpp, the names of the known brokers' file, and texts for the user. The vendored
-- FreeType and zstd in third_party/ are other projects' code.
pub mod Prelude
pub mod Protocol
pub mod Reconnect
pub mod Input
pub mod WireDecoder
pub mod Transport
pub mod WebSocket
pub mod Broker
pub mod KnownBrokers
pub mod Json
pub mod Session
mod Examples
