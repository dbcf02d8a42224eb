-- ===== src/Protocol/Framer/RoundTrip.antt =====
-- Messages that are written to the wire come back from feed, with and without the watch for the
-- switch to compressed segments.
use de_be_os_rdp.Prelude.{
  All-append, ℕ, ◌+◌, ◌≤◌, ◌<◌, ◌≡◌, refl, sym, ap, subst, ◌∙◌, List, [], ◌∷◌, ◌++◌, append_assoc,
  append-nil, Bool, true, false, ◌||◌, none, ok, arith, length, length-append, drop,
  drop-length_append, All, IsByte, u64,
}
use de_be_os_rdp.Protocol.Bytes.{le16, le32, All-le16, All-le32}
use de_be_os_rdp.Protocol.Writer
use de_be_os_rdp.Protocol.Framer.Segment.{no}
use de_be_os_rdp.Protocol.Framer.Taken.{next_step-frame, code_at, size_at, length-framed}
use de_be_os_rdp.Protocol.Framer.Stream.{encode, run, run-resume, shown, length-frame}
use de_be_os_rdp.Protocol.Framer.Switch.{segment_start-frame}
use de_be_os_rdp.Protocol.Framer.Lossless.{feed-open}
use de_be_os_rdp.Protocol.Framer.{
  Message, wait, frame, Framer, switch_test, next_step, done, absorb, rounds, feed,
  message_header_size, max_message_size,
}

-- A message with an opcode below 0x2808, as all that the protocol defines are, and bytes for a
-- payload within the limit.
pub record IsPlain (m : Message) : Type 0 where
  pub op_fits : m.op < 0x2808
  pub bytes : All IsByte m.payload
  pub size_fits : length m.payload + message_header_size ≤ max_message_size

pub All-frame :
    (op : ℕ) (payload : List ℕ) → All IsByte payload → All IsByte (Writer.frame op payload)
All-frame op payload h =
    All-append IsByte (le16 op) _ (All-le16 op) (All-append IsByte (le32 _) payload (All-le32 _) h)

pub All-encode : (ms : List Message) → All IsPlain ms → All IsByte (encode ms)
All-encode [] h = tt
All-encode (m ∷ ms) h =
    All-append IsByte (Writer.frame m.op m.payload) (encode ms) (All-frame m.op m.payload h.0.bytes)
      (All-encode ms h.1)

pub switch_test-frame :
    (at_segment : Bool) (m : Message) (rest : List ℕ)
    → IsPlain m
    → All IsByte rest
    → switch_test at_segment (Writer.frame m.op m.payload ++ rest) ≡ no
unfolding switch_test
switch_test-frame false m rest v h = refl
switch_test-frame true m rest v h =
    segment_start-frame (Writer.frame m.op m.payload ++ rest)
      (All-append IsByte (Writer.frame m.op m.payload) rest (All-frame m.op m.payload v.bytes) h)
      (omega (arith, length-framed m.op m.payload rest))
      (omega (arith, code_at m.op m.payload rest (omega (arith, v.op_fits)), v.op_fits))
      (omega (arith, size_at m.op m.payload rest, v.size_fits))

run-encode :
    (at_segment : Bool) (base : ℕ) (ms : List Message) (fuel offset : ℕ) (before : List Message)
    → All IsPlain ms
    → length (encode ms) < fuel
    → run none at_segment base fuel (encode ms) offset before
      ≡ done (before ++ ms) [] (offset + length (encode ms)) false
run-encode at_segment base [] fuel offset before v h =
    let (left, n, r) =
      run-resume none at_segment base fuel [] offset before (wait false) h
        (unfold next_step in refl) in
    let z : offset + 0 ≡ offset = omega arith in r ∙ rw (z, append-nil before) refl
run-encode at_segment base (m ∷ ms) fuel offset before v h =
    let size = length m.payload + message_header_size in
    let taken =
      next_step-frame m.op m.payload (encode ms) at_segment (u64 (base + offset))
        (omega (arith, v.0.op_fits)) v.0.size_fits
        (switch_test-frame at_segment m (encode ms) v.0 (All-encode ms v.1)) in
    let (left, n, r) =
      run-resume none at_segment base fuel (encode (m ∷ ms)) offset before
        (frame m.op m.payload size) h taken in
    let cut : drop size (encode (m ∷ ms)) ≡ encode ms =
      ap (λ (n : ℕ). drop n (encode (m ∷ ms))) (sym (length-frame m.op m.payload))
      ∙ drop-length_append (Writer.frame m.op m.payload) (encode ms) in
    let len = length-append (Writer.frame m.op m.payload) (encode ms) in
    let len1 = length-frame m.op m.payload in
    let total : offset + size + length (encode ms) ≡ offset + length (encode (m ∷ ms)) =
      omega (arith, len, len1) in
    r
    ∙ ap
        (λ (b : List ℕ).
          run none at_segment base left b (offset + size) (before ++ shown m.op m.payload ∷ []))
        cut
    ∙ run-encode at_segment base ms left (offset + size) (before ++ shown m.op m.payload ∷ []) v.1
        (omega (arith, len, len1))
    ∙ rw (total, append_assoc before) refl

-- A framer that has not failed and has nothing buffered, and is fed the frames of messages with
-- opcodes below 0x2808, 64 MiB in all at most, with no opcode to stop after, returns just these messages, whether or not it watches for the segment switch, and keeps nothing.
pub feed-encode :
    (f : Framer) (ms : List Message) (at_segment : Bool)
    → f.failure ≡ none
    → f.buffer ≡ []
    → All IsPlain ms
    → length (encode ms) ≤ max_message_size
    → feed f (encode ms) none at_segment ≡ (
      record f {
        buffer = [];
        stream_offset = u64 (f.stream_offset + length (encode ms));
        segment_start_seen = f.segment_start_seen || false;
      },
      ok ms,
    )
feed-encode f ms at_segment live empty v n =
    feed-open f (encode ms) none at_segment live (rw empty (omega arith))
    ∙ ap (absorb f) (subst Reached (sym empty) (rw zero_add at whole))
  where
    Reached : List ℕ → Type 0
    Reached b =
        run none at_segment f.stream_offset (rounds (b ++ encode ms)) (b ++ encode ms) 0 []
        ≡ done ms [] (length (encode ms)) false

    zero_add : 0 + length (encode ms) ≡ length (encode ms)
    zero_add = omega arith

    whole :
        run none at_segment f.stream_offset (rounds (encode ms)) (encode ms) 0 []
        ≡ done ms [] (0 + length (encode ms)) false
    whole = run-encode at_segment f.stream_offset ms (rounds (encode ms)) 0 [] v (omega arith)
