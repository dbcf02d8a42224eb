-- ===== src/Protocol/Framer.antt =====
-- class Framer of protocol.cpp: the server's byte stream is cut into messages of `uint16 code`,
-- `uint32 size`, payload. The buffer from the scan's offset on is a list of its own here.
pub mod Segment
pub mod Steps
pub mod Taken
pub mod Stream
pub mod Lossless
pub mod Runs
pub mod Chunks
pub mod Switch
pub mod RoundTrip
pub mod Until
pub mod Ends
use Segment.{SegmentStart, no, yes, need_more, segment_start}
use de_be_os_rdp.Prelude.{
  ℕ, zero, suc, ◌+◌, ◌-◌, List, [], ◌∷◌, ◌++◌, Bool, true, false, ◌||◌, Option, none, some, Result,
  ok, err, ltb, ◌==◌, if◌then◌else◌, length, take, drop, min, u64,
}
use de_be_os_rdp.Protocol.Bytes.{read_u16_le, read_u32_le}

pub record Message : Type 0 where
  pub op : ℕ
  pub payload : List ℕ

abbrev pub message_header_size : ℕ
message_header_size = 6

abbrev pub max_message_size : ℕ
max_message_size = 67_108_864

-- What the text of `failure_` holds. `stuck` is no error of the source: the scan ran out of fuel.
pub data FrameError : Type 0 where
  pending_overflow : (buffered offered stream_offset : ℕ) → FrameError
  bad_size : (op total position : ℕ) → FrameError
  stuck : FrameError

-- An empty `failure_` is `none`.
pub record Framer : Type 0 where
  pub buffer : List ℕ
  pub failure : Option FrameError
  pub stream_offset : ℕ
  pub segment_start_seen : Bool

-- The buffer is released, and the error is kept.
abbrev pub fail : Framer → FrameError → Framer
fail f e = record f { buffer = []; failure = some e }

pub data Step : Type 0 where
  wait : (seen : Bool) → Step
  desync : FrameError → Step
  frame : (op : ℕ) (payload : List ℕ) (total : ℕ) → Step

-- The header at the front of `rest`, which is long enough for it.
unfoldable pub header_step : ℕ → List ℕ → Step
header_step position rest =
    let op = read_u16_le rest in
    let total = read_u32_le (drop 2 rest) in
    if ltb total message_header_size || ltb max_message_size total
    then desync (bad_size op total position)
    else if ltb (length rest) total
    then wait false
    else frame op (take (total - message_header_size) (drop message_header_size rest)) total

unfoldable pub switch_test : Bool → List ℕ → SegmentStart
switch_test stop_at_segment_start rest = if stop_at_segment_start then segment_start rest else no

-- One round of the loop, up to `messages.push_back`.
unfoldable pub next_step : Bool → ℕ → List ℕ → Step
unfolding switch_test
next_step stop_at_segment_start position rest =
    if ltb (length rest) message_header_size
    then wait false
    else elim (switch_test stop_at_segment_start rest) [
      | yes ↦ wait true
      | need_more ↦ wait false
      | no ↦ header_step position rest
    ]

pub data Scan : Type 0 where
  done : (messages : List Message) (rest : List ℕ) (offset : ℕ) (seen : Bool) → Scan
  broken : FrameError → Scan

abbrev pub stops : Option ℕ → ℕ → Bool
stops none op = false
stops (some o) op = op == o

-- The loop, with fuel; `base` is `stream_offset_`.
unfoldable pub scan : ℕ → Option ℕ → Bool → ℕ → List ℕ → ℕ → List Message → Scan
scan zero stop_after at_segment base rest offset messages = broken stuck
scan (suc fuel) stop_after at_segment base rest offset messages =
    elim (next_step at_segment (u64 (base + offset)) rest) [
      | wait seen ↦ done messages rest offset seen
      | desync e ↦ broken e
      | frame op payload total ↦
          let messages' = messages ++ record { op = op; payload = payload } ∷ [] in
          let rest' = drop total rest in
          let offset' = offset + total in
          let more = scan fuel stop_after at_segment base rest' offset' messages' in
          if stops stop_after op then done messages' rest' offset' false else more
    ]

abbrev pub absorb : Framer → Scan → Framer × Result FrameError (List Message)
absorb f (done messages rest offset seen) = (
  record f {
    buffer = rest;
    stream_offset = u64 (f.stream_offset + offset);
    segment_start_seen = f.segment_start_seen || seen;
  },
  ok messages,
)
absorb f (broken e) = (fail f e, err e)

-- Each round takes a header at least, so a round for each byte and one more are enough.
abbrev pub rounds : List ℕ → ℕ
rounds buffer = suc (length buffer)

unfoldable pub feed : Framer → List ℕ → Option ℕ → Bool → Framer × Result FrameError (List Message)
feed f bytes stop_after at_segment =
    let offered = length bytes in
    let overflow = pending_overflow (length f.buffer) offered f.stream_offset in
    let buffer = f.buffer ++ bytes in
    elim f.failure [
      | some e ↦ (f, err e)
      | none ↦
          if ltb (max_message_size - min (length f.buffer) max_message_size) offered
          then (fail f overflow, err overflow)
          else absorb f (scan (rounds buffer) stop_after at_segment f.stream_offset buffer 0 [])
    ]

-- The buffered bytes leave the framer unframed.
unfoldable pub take_pending : Framer → Framer × List ℕ
take_pending f =
    (record f { buffer = []; stream_offset = u64 (f.stream_offset + length f.buffer) }, f.buffer)
