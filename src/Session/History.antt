-- ===== src/Session/History.antt =====
-- session.cpp: what holds of a session over every history of its operations.
use de_be_os_rdp.Prelude.{
  ℕ, ◌≡◌, refl, List, Bool, true, false, not, ◌&&◌, Bool-cases, inl, inr, Option, none, some,
  Result, ok, err, if◌then◌else◌, ◌==◌, ℤ,
}
use de_be_os_rdp.Protocol.Framer
use de_be_os_rdp.Protocol.Framer.{Message, FrameError, take_pending}
use de_be_os_rdp.Protocol.Opcode.{value, hello_ack}
use de_be_os_rdp.WireDecoder.{Codec}
use de_be_os_rdp.WireDecoder.Pieces.{feed-pieces}
use de_be_os_rdp.Session.{Drawing, FontFiles, change_display_mode, request_resync}
use de_be_os_rdp.Session.Messages.{handle_all}
use de_be_os_rdp.Session.Ingest.{
  Session, StreamError, last_is, ingest_plain, absorb_plain, plain_bytes, as_framing, feed_segments,
  agrees_compression, after_ack, after_switch, after_frames, absorb_awaiting, ingest_awaiting,
  route, with_fonts, ingest, start, reset, set_compression_offered,
}

module _ {P S K Z : Type 0} (drawing : Drawing P S K) (codec : Codec Z) where
  -- One operation. A throw leaves the session as it is at that point.
  pub data Step (s : Session P S K Z) : Session P S K Z → Type 0 where
    offers :
        (available offered : Bool)
        → Step s (set_compression_offered drawing codec available offered s)
    starts : Step s (start drawing codec s)
    ingests : (files : FontFiles) (bytes : List ℕ) → Step s (ingest drawing codec files bytes s).0
    resets : Step s (reset drawing codec s)
    resizes :
        (link : List (List ℕ) → Bool) (width height : ℤ)
        → Step s (record s { desk = (change_display_mode drawing link s.desk width height).0 })
    asks_resync :
        (link : List (List ℕ) → Bool) → Step s (record s { desk = (request_resync link s.desk).0 })

  pub data Reachable (s : Session P S K Z) : Session P S K Z → Type 0 where
    unchanged : Reachable s s
    then_step : {s' s'' : Session P S K Z} → Reachable s s' → Step s' s'' → Reachable s s''

  -- A compressed session does not wait for the acknowledgement.
  abbrev Settled : Session P S K Z → Type 0
  Settled s = (s.compressed && s.awaiting_hello_ack) ≡ false

  absorb_plain-flags :
      (s : Session P S K Z) (r : Framer.Framer × Result FrameError (List Message))
      → Settled s
      → Settled (absorb_plain drawing codec s r).0
  absorb_plain-flags s (g, ok ms) h = h
  absorb_plain-flags s (g, err e) h = h

  ingest_plain-Settled :
      (bytes : List ℕ) (s : Session P S K Z)
      → Settled s
      → Settled (ingest_plain drawing codec bytes s).0
  unfolding ingest_plain
  ingest_plain-Settled bytes s h = absorb_plain-flags s (Framer.feed s.framer bytes none false) h

  as_framing-Settled :
      (r : Session P S K Z × Option FrameError)
      → Settled r.0
      → Settled (as_framing drawing codec r).0
  as_framing-Settled (s, none) h = h
  as_framing-Settled (s, some e) h = h

  plain_bytes-Settled :
      (bytes : List ℕ) (s : Session P S K Z)
      → Settled s
      → Settled (plain_bytes drawing codec bytes s).0
  unfolding plain_bytes
  plain_bytes-Settled bytes s h =
      as_framing-Settled (ingest_plain drawing codec bytes s) (ingest_plain-Settled bytes s h)

  feed_segments-Settled :
      (bytes : List ℕ) (s : Session P S K Z)
      → Settled s
      → Settled (feed_segments drawing codec bytes s).0
  unfolding feed_segments
  feed_segments-Settled bytes s h =
      feed-pieces (ingest_plain drawing codec) codec Settled
        (λ piece s' some_byte small h'. ingest_plain-Settled piece s' h') bytes s.segments s h

  Settled-if :
      (b : Bool) (x y : Session P S K Z × Option StreamError)
      → Settled x.0
      → Settled y.0
      → Settled (if b then x else y).0
  Settled-if true x y hx hy = hx
  Settled-if false x y hx hy = hy

  -- Both flags after the acknowledgement, and after a switch that came before it.
  off_settled : (b : Bool) → (b && false) ≡ false
  off_settled true = refl
  off_settled false = refl

  after_ack-Settled : (s : Session P S K Z) → Settled (after_ack drawing codec s).0
  after_ack-Settled s =
      let agreed = agrees_compression drawing codec s in
      let taken = take_pending s.framer in
      let s' : Session P S K Z = record s {
        awaiting_hello_ack = false;
        compressed = agreed;
        framer = taken.0;
      } in
      Settled-if agreed (feed_segments drawing codec taken.1 s')
        (plain_bytes drawing codec taken.1 s')
        (feed_segments-Settled taken.1 s' (off_settled agreed))
        (plain_bytes-Settled taken.1 s' (off_settled agreed))

  after_frames-Settled :
      (acked : Bool) (s : Session P S K Z)
      → Settled s
      → Settled (after_frames drawing codec acked s).0
  after_frames-Settled acked s h =
      let taken = take_pending s.framer in
      let s' : Session P S K Z = record s {
        awaiting_hello_ack = false;
        compressed = true;
        framer = taken.0;
      } in
      Settled-if (s.framer.segment_start_seen && not acked) (after_switch drawing codec s)
        (if acked then after_ack drawing codec s else (s, none))
        (feed_segments-Settled taken.1 s' refl)
        (Settled-if acked (after_ack drawing codec s) (s, none) (after_ack-Settled s) h)

  absorb_awaiting-Settled :
      (s : Session P S K Z) (r : Framer.Framer × Result FrameError (List Message))
      → Settled s
      → Settled (absorb_awaiting drawing codec s r).0
  absorb_awaiting-Settled s (g, ok ms) h =
      after_frames-Settled (last_is (value hello_ack) ms)
        (record s { framer = g; desk = handle_all drawing s.desk ms }) h
  absorb_awaiting-Settled s (g, err e) h = h

  ingest_awaiting-Settled :
      (bytes : List ℕ) (s : Session P S K Z)
      → Settled s
      → Settled (ingest_awaiting drawing codec bytes s).0
  unfolding ingest_awaiting
  ingest_awaiting-Settled bytes s h =
      absorb_awaiting-Settled s (Framer.feed s.framer bytes (some (value hello_ack)) true) h

  route-Settled :
      (bytes : List ℕ) (s : Session P S K Z) → Settled s → Settled (route drawing codec bytes s).0
  route-Settled bytes s h =
      Settled-if s.compressed (feed_segments drawing codec bytes s)
        (if s.awaiting_hello_ack
          then ingest_awaiting drawing codec bytes s
          else plain_bytes drawing codec bytes s)
        (feed_segments-Settled bytes s h)
        (Settled-if s.awaiting_hello_ack (ingest_awaiting drawing codec bytes s)
          (plain_bytes drawing codec bytes s) (ingest_awaiting-Settled bytes s h)
          (plain_bytes-Settled bytes s h))

  with_fonts-Settled :
      (files : FontFiles) (s : Session P S K Z)
      → Settled s
      → Settled (with_fonts drawing codec files s)
  with_fonts-Settled files s h =
      elim (Bool-cases (files.files_generation == s.desk.font_generation_seen)) [
        | inl e ↦ simp e h
        | inr e ↦ simp e h
      ]

  Step-Settled : (s : Session P S K Z) {s' : Session P S K Z} → Step s s' → Settled s → Settled s'
  unfolding set_compression_offered start reset ingest
  Step-Settled s (offers available offered) h = h
  Step-Settled s starts h = refl
  Step-Settled s (ingests files bytes) h =
      route-Settled bytes (with_fonts drawing codec files s) (with_fonts-Settled files s h)
  Step-Settled s resets h = refl
  Step-Settled s (resizes link width height) h = h
  Step-Settled s (asks_resync link) h = h

  -- In every session that is reached from one where it holds, by any operations and with any bytes
  -- from the server, a compressed stream is not waiting for the acknowledgement, also after throws.
  pub Reachable-Settled :
      (s s' : Session P S K Z)
      → (s.compressed && s.awaiting_hello_ack) ≡ false
      → Reachable s s'
      → (s'.compressed && s'.awaiting_hello_ack) ≡ false
  Reachable-Settled s s' h unchanged = h
  Reachable-Settled s s'' h (then_step {s' = s'} r step) =
      Step-Settled s' step (Reachable-Settled s s' h r)
