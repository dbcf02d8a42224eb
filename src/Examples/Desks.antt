-- ===== src/Examples/Desks.antt =====
-- A session whose drawing counts operations, with a codec that refuses everything.
use de_be_os_rdp.Prelude.{
  ℕ, ◌+◌, ◌≤◌, ◌≡◌, ◌≢◌, ◌↔◌, ◌⊎◌, refl, List, [], ◌∷◌, ◌++◌, Bool, true, false, ◌&&◌, none, some,
  arith, length, pos,
}
use de_be_os_rdp.Protocol.Bytes.{le16, le32, read_u16_le, read_u32_le}
use de_be_os_rdp.Protocol.Opcode.{
  value, of_value, value-lt, hello_ack, draw_string, draw_string_result, read_bitmap_result,
  is_session_level,
}
use de_be_os_rdp.Protocol.Writer
use de_be_os_rdp.Protocol.Framer.{
  Message, Framer, feed, scan, next_step, switch_test, header_step, max_message_size,
}
use de_be_os_rdp.Protocol.Framer.Stream.{encode}
use de_be_os_rdp.Protocol.Framer.RoundTrip.{IsPlain, All-encode}
use de_be_os_rdp.Protocol.Reader.{read_i32, read_u32}
use de_be_os_rdp.WireDecoder.{Codec, failed}
use de_be_os_rdp.Session.{Desk, Drawing, FontFiles, count, start_desk}
use de_be_os_rdp.Session.Messages.{decode, handle, handle_all, handle_session, answer_after_failure}
use de_be_os_rdp.Session.Ingest.{Session, new_framer, ingest, start, plain_bytes, ingest_plain}
use de_be_os_rdp.Session.Generation.{observe_all, Reconnects, observe_all_iff}
use de_be_os_rdp.Session.Replies.{IsReply, string_waits, handle-answers}
use de_be_os_rdp.Session.Start.{Greets, start_desk-Greets}
use de_be_os_rdp.Session.Plain.{ingest-append}
use de_be_os_rdp.Session.Handshake.{ingest-acknowledged, ingest-uncompressed, answered, follow}
use de_be_os_rdp.Session.History.{unchanged, then_step, starts, Reachable-Settled}

abbrev counting : Drawing ℕ ℕ ℕ
counting = record {
  fresh_state = 0;
  fresh_cursor = 0;
  resize = λ p width height. p;
  token_op = λ op token palette capabilities state canvas cursor r. record {
    state = state + 1;
    canvas = canvas + 1;
    replies = [];
    font = none;
    unhandled = false;
    thrown = false;
  };
  canvas_op = λ op palette canvas cursor r. ((canvas + 1, cursor), false);
  readback = λ canvas token. 186 ∷ 0 ∷ 6 ∷ 0 ∷ 0 ∷ 0 ∷ [];
}

abbrev refusing : Codec (Unit {0})
refusing = record {
  decompress_stream = λ z input room. failed [];
  reset_session = λ z. z;
  round_limit = λ z input. 0;
}

abbrev new_desk : Desk ℕ ℕ ℕ
new_desk = record {
  requested_width = pos 1024;
  requested_height = pos 768;
  surface = 0;
  states = [];
  palette = [];
  cursor = 0;
  message_count = 0;
  sync_replies = 0;
  draw_string_replies = 0;
  string_width_replies = 0;
  negotiated_version = 0;
  negotiated_capabilities = 0;
  server_rasterizer = none;
  session_id = 7;
  generation = 1;
  generation_changed = false;
  server_closed = false;
  unhandled = [];
  fonts_checked = [];
  fonts_wanted = [];
  font_generation_seen = 0;
  sent = [];
}

abbrev new_session : Bool → Session ℕ ℕ ℕ (Unit {0})
new_session waiting = record {
  desk = new_desk;
  framer = new_framer;
  segments = record {
    buffer = [];
    stream = some tt;
    failure = none;
    wire_bytes = 0;
    plain_bytes = 0;
    segments = 0;
  };
  offer_compression = waiting;
  awaiting_hello_ack = waiting;
  compressed = false;
}

abbrev no_fonts : FontFiles
no_fonts = record { files_generation = 0; has_identical_face = λ f. false }

observe_all_iff_example :
    ((observe_all new_desk ((3, 5) ∷ (7, 1) ∷ (7, 2) ∷ [])).generation_changed ≡ true)
    ↔ ((false ≡ true) ⊎ Reconnects 7 1 ((3, 5) ∷ (7, 1) ∷ (7, 2) ∷ []))
observe_all_iff_example = observe_all_iff new_desk ((3, 5) ∷ (7, 1) ∷ (7, 2) ∷ [])

-- RP_DRAW_STRING with nothing in it.
abbrev empty_string : Message
empty_string = record { op = 180; payload = [] }

abbrev counted_desk : Desk ℕ ℕ ℕ
counted_desk = record new_desk { message_count = 1 }

readback_replies : IsReply read_bitmap_result (186 ∷ 0 ∷ 6 ∷ 0 ∷ 0 ∷ 0 ∷ [])
unfolding value
readback_replies = (refl, refl)

is_string : of_value 180 ≡ some draw_string
unfolding of_value
is_string = refl

too_short : decode counting counted_desk empty_string ≡ (counted_desk, true)
unfolding decode read_i32 read_u32
too_short = refl

handle-answers_example :
    (bytes : List ℕ) × IsReply draw_string_result bytes
    × ((handle counting new_desk empty_string).sent ≡ [] ++ bytes ∷ [])
    × ((handle counting new_desk empty_string).sync_replies ≡ count 0)
handle-answers_example =
    handle-answers counting new_desk counted_desk empty_string draw_string draw_string_result
      (λ canvas token. readback_replies) is_string string_waits too_short

start_desk-Greets_example :
    Greets new_framer [] (start_desk true new_desk).sent (1, 247, 0, 0, pos 1024, pos 768)
start_desk-Greets_example =
    start_desk-Greets new_desk true new_framer refl refl (omega arith) (omega arith)

Reachable-Settled_example :
    ((start counting refusing (new_session true)).compressed
      && (start counting refusing (new_session true)).awaiting_hello_ack)
    ≡ false
Reachable-Settled_example =
    Reachable-Settled counting refusing (new_session true)
      (start counting refusing (new_session true)) refl (then_step unchanged starts)

-- Two messages that no table has, in two chunks.
abbrev chunk_a : List ℕ
chunk_a = 9 ∷ 0 ∷ 8 ∷ 0 ∷ 0 ∷ 0 ∷ 1 ∷ 2 ∷ 44 ∷ []

abbrev chunk_b : List ℕ
chunk_b = 1 ∷ 6 ∷ 0 ∷ 0 ∷ 0 ∷ []

abbrev with_desk : ℕ → Framer → Session ℕ ℕ ℕ (Unit {0})
with_desk n framer = record (new_session false) {
  desk = record new_desk { message_count = n };
  framer = framer;
}

abbrev between : Framer
between = record { buffer = 44 ∷ []; failure = none; stream_offset = 8; segment_start_seen = false }

abbrev at_end : Framer
at_end = record { buffer = []; failure = none; stream_offset = 14; segment_start_seen = false }

step_a : ingest counting refusing no_fonts chunk_a (new_session false) ≡ (with_desk 1 between, none)
unfolding ingest plain_bytes ingest_plain feed scan next_step switch_test header_step read_u16_le
    read_u32_le handle_all handle decode is_session_level of_value read_i32 read_u32
    answer_after_failure
step_a = refl

step_b :
    ingest counting refusing no_fonts chunk_b (with_desk 1 between) ≡ (with_desk 2 at_end, none)
unfolding ingest plain_bytes ingest_plain feed scan next_step switch_test header_step read_u16_le
    read_u32_le handle_all handle decode is_session_level of_value read_i32 read_u32
    answer_after_failure
step_b = refl

ingest-append_example :
    ingest counting refusing no_fonts (chunk_a ++ chunk_b) (new_session false)
    ≡ (with_desk 2 at_end, none)
ingest-append_example =
    ingest-append counting refusing no_fonts chunk_a chunk_b (new_session false)
      (with_desk 1 between) (with_desk 2 at_end) refl refl refl refl
      (record { bytes = tt; room = omega arith }) (omega arith) step_a step_b

-- A message that the desk does not know, and an acknowledgement.
abbrev nine : Message
nine = record { op = 9; payload = 1 ∷ 2 ∷ [] }

nine-IsPlain : IsPlain nine
nine-IsPlain = record { op_fits = omega arith; bytes = omega arith; size_fits = omega arith }

abbrev ack_payload : List ℕ
ack_payload = 1 ∷ 0 ∷ 0 ∷ 0 ∷ 5 ∷ 0 ∷ 0 ∷ 0 ∷ []

ack-IsPlain : IsPlain (record { op = value hello_ack; payload = ack_payload })
ack-IsPlain = record { op_fits = value-lt hello_ack; bytes = omega arith; size_fits = omega arith }

nine_other : 9 ≢ value hello_ack
unfolding value
nine_other = omega arith

fits :
    length
      (encode (nine ∷ []) ++ (Writer.frame (value hello_ack) ack_payload ++ encode (nine ∷ [])))
    ≤ max_message_size
unfolding le16 le32
fits = omega arith

ingest-acknowledged_example :
    ingest counting refusing no_fonts
      (encode (nine ∷ []) ++ (Writer.frame (value hello_ack) ack_payload ++ encode (nine ∷ [])))
      (new_session true)
    ≡ follow counting refusing
        (encode (nine ∷ []))
        (answered counting refusing (new_session true) (nine ∷ []) ack_payload (encode (nine ∷ [])))
ingest-acknowledged_example =
    ingest-acknowledged counting refusing no_fonts (new_session true) (nine ∷ []) ack_payload
      (encode (nine ∷ [])) refl refl refl refl refl (nine-IsPlain, tt) (nine_other, tt) ack-IsPlain
      (All-encode (nine ∷ []) (nine-IsPlain, tt)) fits

stays_plain :
    (answered counting refusing
      (new_session true)
      (nine ∷ [])
      ack_payload
      (encode (nine ∷ []))).compressed
    ≡ false
unfolding handle_all handle decode is_session_level of_value value read_i32 read_u32
    answer_after_failure handle_session read_u32_le
stays_plain = refl

ingest-uncompressed_example :
    ((ingest counting refusing no_fonts
        (encode (nine ∷ []) ++ (Writer.frame (value hello_ack) ack_payload ++ encode (nine ∷ [])))
        (new_session true)).1
      ≡ none)
    × ((ingest counting refusing no_fonts
          (encode (nine ∷ []) ++ (Writer.frame (value hello_ack) ack_payload ++ encode (nine ∷ [])))
          (new_session true)).0.desk
        ≡ handle_all counting new_desk
            (nine ∷ record { op = value hello_ack; payload = ack_payload } ∷ nine ∷ []))
ingest-uncompressed_example =
    ingest-uncompressed counting refusing no_fonts (new_session true) (nine ∷ []) (nine ∷ [])
      ack_payload refl refl refl refl refl (nine-IsPlain, tt) (nine-IsPlain, tt) (nine_other, tt)
      ack-IsPlain fits stays_plain
