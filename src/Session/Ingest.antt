-- ===== src/Session/Ingest.antt =====
-- session.cpp: the server's byte stream through the Framer and, once compression is agreed on, the
-- SegmentDecoder: ingest, ingest_plain, start and reset. `codec` is libzstd.
use de_be_os_rdp.Prelude.{
  ℕ, List, [], ◌∷◌, Bool, true, false, not, ◌&&◌, Option, none, some, Result, ok, err, ◌==◌,
  if◌then◌else◌, bit_and,
}
use de_be_os_rdp.Protocol.Opcode.{value, hello_ack}
use de_be_os_rdp.Protocol.Framer
use de_be_os_rdp.Protocol.Framer.{Message, FrameError, take_pending}
use de_be_os_rdp.WireDecoder
use de_be_os_rdp.WireDecoder.{SegmentDecoder, WireError, Codec, usable}
use de_be_os_rdp.Session.{
  Desk, Drawing, FontFiles, cap_compress_zstd, reset_desk, start_desk, refresh_fonts,
}
use de_be_os_rdp.Session.Messages.{handle_all}

-- What `ingest` throws.
pub data StreamError : Type 0 where
  framing : FrameError → StreamError
  segments_failed : WireError FrameError → StreamError

pub record Session (P S K Z : Type 0) : Type 0 where
  pub desk : Desk P S K
  pub framer : Framer.Framer
  pub segments : SegmentDecoder Z FrameError
  pub offer_compression : Bool
  pub awaiting_hello_ack : Bool
  pub compressed : Bool

-- `Framer {}`
abbrev pub new_framer : Framer.Framer
new_framer = record { buffer = []; failure = none; stream_offset = 0; segment_start_seen = false }

-- `!messages.empty() && messages.back().op == op`
unfoldable pub last_is : ℕ → List Message → Bool
last_is op [] = false
last_is op (m ∷ []) = m.op == op
last_is op (m ∷ n ∷ messages) = last_is op (n ∷ messages)

module _ {P S K Z : Type 0} (drawing : Drawing P S K) (codec : Codec Z) where
  -- What `framer_.feed` returned or threw.
  abbrev pub absorb_plain :
      Session P S K Z
      → Framer.Framer × Result FrameError (List Message)
      → Session P S K Z × Option FrameError
  absorb_plain s (framer, ok messages) =
      (record s { framer = framer; desk = handle_all drawing s.desk messages }, none)
  absorb_plain s (framer, err e) = (record s { framer = framer }, some e)

  unfoldable pub ingest_plain : List ℕ → Session P S K Z → Session P S K Z × Option FrameError
  unfolding handle_all
  ingest_plain bytes s = absorb_plain s (Framer.feed s.framer bytes none false)

  abbrev pub as_framing : Session P S K Z × Option FrameError → Session P S K Z × Option StreamError
  as_framing (s, none) = (s, none)
  as_framing (s, some e) = (s, some (framing e))

  abbrev pub segments_error : Option (WireError FrameError) → Option StreamError
  segments_error none = none
  segments_error (some e) = some (segments_failed e)

  -- `segments_.feed(bytes, to_framer)`
  unfoldable pub feed_segments : List ℕ → Session P S K Z → Session P S K Z × Option StreamError
  unfolding ingest_plain
  feed_segments bytes s =
      let fed = WireDecoder.feed ingest_plain codec bytes (s.segments, s) in
      (record fed.0.1 { segments = fed.0.0 }, segments_error fed.1)

  unfoldable pub plain_bytes : List ℕ → Session P S K Z → Session P S K Z × Option StreamError
  unfolding ingest_plain
  plain_bytes bytes s = as_framing (ingest_plain bytes s)

  abbrev pub agrees_compression : Session P S K Z → Bool
  agrees_compression s = not (bit_and s.desk.negotiated_capabilities cap_compress_zstd == 0)

  -- The bytes behind the acknowledgement go where it says.
  abbrev pub after_ack : Session P S K Z → Session P S K Z × Option StreamError
  after_ack s =
      let agreed = agrees_compression s in
      let taken = take_pending s.framer in
      let s' : Session P S K Z = record s {
        awaiting_hello_ack = false;
        compressed = agreed;
        framer = taken.0;
      } in
      if agreed then feed_segments taken.1 s' else plain_bytes taken.1 s'

  -- The server switched to segments before its acknowledgement.
  abbrev pub after_switch : Session P S K Z → Session P S K Z × Option StreamError
  after_switch s =
      let taken = take_pending s.framer in
      feed_segments taken.1
        (record s { awaiting_hello_ack = false; compressed = true; framer = taken.0 })

  abbrev pub after_frames : Bool → Session P S K Z → Session P S K Z × Option StreamError
  after_frames acked s =
      if s.framer.segment_start_seen && not acked
      then after_switch s
      else if acked
      then after_ack s
      else (s, none)

  abbrev pub absorb_awaiting :
      Session P S K Z
      → Framer.Framer × Result FrameError (List Message)
      → Session P S K Z × Option StreamError
  absorb_awaiting s (framer, ok messages) =
      after_frames (last_is (value hello_ack) messages)
        (record s { framer = framer; desk = handle_all drawing s.desk messages })
  absorb_awaiting s (framer, err e) = (record s { framer = framer }, some (framing e))

  -- `ingest` while the acknowledgement is awaited.
  unfoldable pub ingest_awaiting : List ℕ → Session P S K Z → Session P S K Z × Option StreamError
  unfolding feed_segments plain_bytes last_is take_pending
  ingest_awaiting bytes s =
      absorb_awaiting s (Framer.feed s.framer bytes (some (value hello_ack)) true)

  abbrev pub route : List ℕ → Session P S K Z → Session P S K Z × Option StreamError
  route bytes s =
      if s.compressed
      then feed_segments bytes s
      else if s.awaiting_hello_ack
      then ingest_awaiting bytes s
      else plain_bytes bytes s

  -- The fonts are looked at first.
  abbrev pub with_fonts : FontFiles → Session P S K Z → Session P S K Z
  with_fonts files s =
      if files.files_generation == s.desk.font_generation_seen
      then s
      else record s { desk = (refresh_fonts files s.desk).0 }

  unfoldable pub ingest :
      FontFiles → List ℕ → Session P S K Z → Session P S K Z × Option StreamError
  unfolding ingest_awaiting refresh_fonts
  ingest files bytes s = route bytes (with_fonts files s)

  unfoldable pub start : Session P S K Z → Session P S K Z
  unfolding start_desk
  start s = record s {
    desk = start_desk s.offer_compression s.desk;
    awaiting_hello_ack = s.offer_compression;
    compressed = false;
  }

  unfoldable pub reset : Session P S K Z → Session P S K Z
  unfolding reset_desk
  reset s = record s {
    desk = reset_desk drawing s.desk;
    framer = new_framer;
    segments = WireDecoder.reset codec s.segments;
    awaiting_hello_ack = false;
    compressed = false;
  }

  -- `available` is `zstd_decoder_available()`.
  unfoldable pub set_compression_offered : Bool → Bool → Session P S K Z → Session P S K Z
  set_compression_offered available offered s = record s {
    offer_compression = offered && (available && usable s.segments);
  }
