-- ===== src/WebSocket.antt =====
-- class WebSocketTransport of websocket.cpp after the upgrade: masked frames out, frames of the
-- server in, control frames answered. The socket below (plain or TLS) and the random numbers are
-- the parameter `port`.
pub mod Frames
pub mod Peer
pub mod Drain
pub mod Fuel
use de_be_os_rdp.Prelude.{
  ℕ, zero, suc, ◌+◌, ◌-◌, ◌*◌, ◌/◌, ◌%◌, ◌^◌, List, [], ◌∷◌, ◌++◌, Bool, true, false, not, ◌||◌,
  ◌&&◌, Option, none, some, Result, ok, err, ltb, leb, ◌==◌, if◌then◌else◌, length, get_or, take,
  drop, min, bit_and, bit_or, bit_xor, u8, u64,
}

abbrev pub opcode_continuation : ℕ
opcode_continuation = 0x0

abbrev pub opcode_text : ℕ
opcode_text = 0x1

abbrev pub opcode_binary : ℕ
opcode_binary = 0x2

abbrev pub opcode_close : ℕ
opcode_close = 0x8

abbrev pub opcode_ping : ℕ
opcode_ping = 0x9

abbrev pub opcode_pong : ℕ
opcode_pong = 0xa

abbrev pub max_frame_payload : ℕ
max_frame_payload = 67_108_864

abbrev pub max_buffered_bytes : ℕ
max_buffered_bytes = 268_435_456

pub data SocketError : Type 0 where
  no_mask send_failed receive_failed oversized_frame buffer_overflow closed_by_peer : SocketError
  unsupported_opcode : (opcode : ℕ) → SocketError
  not_connected : SocketError

-- What the transport calls: `RAND_bytes` for four bytes, raw_send, one read of raw_receive, which
-- gives an empty list where the wait timed out, and the shutdown of TLS and socket.
pub record Port (N : Type 0) : Type 0 where
  pub random_mask : N → N × Option (List ℕ)
  pub raw_send : N → List ℕ → N × Bool
  pub raw_read : N → N × Option (List ℕ)
  pub shut_down : N → N

pub record WebSocket (N : Type 0) : Type 0 where
  pub network : N
  pub frame_buffer : List ℕ
  pub incoming : List ℕ
  pub is_open : Bool
  pub peer_closed : Bool

-- `for (shift = 56; shift >= 0; shift -= 8)`, from the byte above `left` others on.
unfoldable pub length_loop : ℕ → ℕ → List ℕ
length_loop zero n = []
length_loop (suc left) n = u8 (n / 2 ^ (8 * left)) ∷ length_loop left n

-- The second byte, and the extended length.
unfoldable pub length_bytes : ℕ → List ℕ
unfolding length_loop
length_bytes n =
    if ltb n 126
    then bit_or 0x80 n ∷ []
    else if leb n 0xffff
    then bit_or 0x80 126 ∷ u8 (n / 2 ^ 8) ∷ u8 n ∷ []
    else bit_or 0x80 127 ∷ length_loop 8 n

-- Each byte under its byte of the mask, from the index `i` on.
unfoldable pub apply_mask : List ℕ → ℕ → List ℕ → List ℕ
apply_mask mask i [] = []
apply_mask mask i (b ∷ bytes) = bit_xor b (get_or mask (i % 4) 0) ∷ apply_mask mask (i + 1) bytes

unfoldable pub frame_bytes : ℕ → List ℕ → List ℕ → List ℕ
unfolding length_bytes apply_mask
frame_bytes opcode mask payload =
    bit_or 0x80 opcode ∷ (length_bytes (length payload) ++ (mask ++ apply_mask mask 0 payload))

-- `length = length << 8 | byte`, with `left` bytes to go.
unfoldable pub read_length : ℕ → ℕ → List ℕ → ℕ
read_length zero value bytes = value
read_length (suc left) value [] = value
read_length (suc left) value (b ∷ bytes) = read_length left (bit_or (u64 (value * 2 ^ 8)) b) bytes

pub data FrameStep : Type 0 where
  wait : FrameStep
  oversized : FrameStep
  frame : (opcode : ℕ) (payload : List ℕ) (total : ℕ) → FrameStep

-- The header's size and the payload's length, or none where more bytes are needed for them.
unfoldable pub read_header : List ℕ → Option (ℕ × ℕ)
unfolding read_length
read_header rest =
    let available = length rest in
    let short = bit_and (get_or rest 1 0) 0x7f in
    if short == 126
    then (if ltb available 4
        then none
        else some (4, bit_or (get_or rest 2 0 * 2 ^ 8) (get_or rest 3 0)))
    else if short == 127
    then (if ltb available 10 then none else some (10, read_length 8 0 (drop 2 rest)))
    else some (2, short)

-- One round of drain_frames, up to the switch over the opcode.
unfoldable pub drain_step : List ℕ → FrameStep
unfolding read_header apply_mask
drain_step rest =
    let opcode = bit_and (get_or rest 0 0) 0x0f in
    let masked = not (bit_and (get_or rest 1 0) 0x80 == 0) in
    if ltb (length rest) 2 then wait else elim (read_header rest) [
      | none ↦ wait
      | some (size, payload_length) ↦
          let header_size = if masked then size + 4 else size in
          let payload = take payload_length (drop header_size rest) in
          let mask = drop (header_size - 4) rest in
          if ltb max_frame_payload payload_length
          then oversized
          else if ltb (length rest) (header_size + payload_length)
          then wait
          else frame opcode (if masked then apply_mask mask 0 payload else payload)
              (header_size + payload_length)
    ]

module _ {N : Type 0} (port : Port N) where
  unfoldable pub send_frame : ℕ → List ℕ → WebSocket N → WebSocket N × Option SocketError
  unfolding frame_bytes
  send_frame opcode payload w =
      let (n, drawn) = port.random_mask w.network in
      elim drawn [
        | none ↦ (record w { network = n }, some no_mask)
        | some mask ↦
            let (n', sent) = port.raw_send n (frame_bytes opcode mask payload) in
            (record w { network = n' }, if sent then none else some send_failed)
      ]

  unfoldable pub send_all : List ℕ → WebSocket N → WebSocket N × Option SocketError
  unfolding send_frame
  send_all bytes w =
      if not w.is_open then (w, some not_connected) else send_frame opcode_binary bytes w

  -- The switch over a frame's opcode.
  unfoldable pub handle_frame : ℕ → List ℕ → WebSocket N → WebSocket N × Option SocketError
  unfolding send_frame
  handle_frame opcode payload w =
      let incoming = w.incoming ++ payload in
      if opcode == opcode_continuation || (opcode == opcode_text || opcode == opcode_binary)
      then (
        record w { incoming = incoming },
        if ltb max_buffered_bytes (length incoming) then some buffer_overflow else none,
      )
      else if opcode == opcode_ping
      then send_frame opcode_pong payload w
      else if opcode == opcode_pong
      then (w, none)
      else if opcode == opcode_close
      then (record (send_frame opcode_close [] w).0 { peer_closed = true }, some closed_by_peer)
      else (w, some (unsupported_opcode opcode))

  -- The loop, where `rest` is the buffer from the offset on; a frame takes two bytes at least. The
  -- buffer is only cut when the loop ends without an error.
  unfoldable pub drain_loop : ℕ → List ℕ → WebSocket N → WebSocket N × Option SocketError
  unfolding drain_step
  drain_loop zero rest w = (w, none)
  drain_loop (suc fuel) rest w = elim (drain_step rest) [
    | wait ↦ (record w { frame_buffer = rest }, none)
    | oversized ↦ (w, some oversized_frame)
    | frame opcode payload total ↦
        let (w', failed) = handle_frame opcode payload w in
        let more = drain_loop fuel (drop total rest) w' in
        elim failed [ none ↦ more | some e ↦ (w', some e) ]
  ]

  unfoldable pub drain_frames : WebSocket N → WebSocket N × Option SocketError
  drain_frames w = drain_loop (suc (length w.frame_buffer)) w.frame_buffer w

  -- The bytes that go into `destination`, which has room for `room`.
  unfoldable pub hand_out : ℕ → WebSocket N → WebSocket N × List ℕ
  hand_out room w =
      let count = min room (length w.incoming) in
      (record w { incoming = drop count w.incoming }, take count w.incoming)

  -- One read, and the frames that are complete then. `some []` is the return value 0.
  unfoldable pub refill : WebSocket N → WebSocket N × Option SocketError
  unfolding drain_frames
  refill w =
      let (n, count) = port.raw_read w.network in
      elim count [
        | none ↦ (record w { network = n }, some receive_failed)
        | some bytes ↦
            drain_frames (record w { network = n; frame_buffer = w.frame_buffer ++ bytes })
      ]

  unfoldable pub receive : ℕ → WebSocket N → WebSocket N × Result SocketError (List ℕ)
  unfolding refill hand_out
  receive room w =
      let (w', failed) = refill w in
      if not w.is_open || w.peer_closed
      then (w, err not_connected)
      else if length w.incoming == 0
      then elim failed [
        | some e ↦ (w', err e)
        | none ↦ let (w2, bytes) = hand_out room w' in (w2, ok bytes)
      ]
      else (let (w2, bytes) = hand_out room w in (w2, ok bytes))

  unfoldable pub close : WebSocket N → WebSocket N
  unfolding send_frame
  close w =
      let w' = if w.is_open && not w.peer_closed then (send_frame opcode_close [] w).0 else w in
      record {
        network = port.shut_down w'.network;
        frame_buffer = [];
        incoming = [];
        is_open = false;
        peer_closed = false;
      }
