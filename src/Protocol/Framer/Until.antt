-- ===== src/Protocol/Framer/Until.antt =====
-- feed that frames no further than a message of one opcode, as ingest does up to the server's
-- acknowledgement.
use de_be_os_rdp.Prelude.{
  All-append, ℕ, ◌+◌, ◌≤◌, ◌<◌, ◌≡◌, ◌≢◌, refl, sym, ap, subst, ◌∙◌, List, [], ◌∷◌, ◌++◌,
  append_assoc, Bool, true, false, ◌||◌, Option, none, some, ok, arith, length, length-append, drop,
  drop-length_append, All, IsByte, u64, if◌then◌else◌, ◌==◌,
}
use de_be_os_rdp.Protocol.Writer
use de_be_os_rdp.Protocol.Framer.Taken.{next_step-frame}
use de_be_os_rdp.Protocol.Framer.Stream.{encode, run, run-resume, shown, length-frame}
use de_be_os_rdp.Protocol.Framer.Lossless.{feed-open}
use de_be_os_rdp.Protocol.Framer.RoundTrip.{IsPlain, switch_test-frame, All-encode, All-frame}
use de_be_os_rdp.Protocol.Framer.{
  Message, frame, Framer, Scan, done, stops, absorb, rounds, feed, message_header_size,
  max_message_size,
}

module _ (stop : Option ℕ) (at_segment : Bool) (base : ℕ) where
  -- The loop behind a frame.
  abbrev behind_frame : ℕ → List ℕ → ℕ → List Message → ℕ → Scan
  behind_frame left rest offset messages op =
      if stops stop op
      then done messages rest offset false
      else run stop at_segment base left rest offset messages

  run-frame :
      (m : Message) (rest : List ℕ) (fuel offset : ℕ) (before : List Message)
      → IsPlain m
      → All IsByte rest
      → length (Writer.frame m.op m.payload ++ rest) < fuel
      → (left : ℕ) × (length rest < left)
        × (run stop at_segment base fuel (Writer.frame m.op m.payload ++ rest) offset before
            ≡ behind_frame left rest
                (offset + (length m.payload + message_header_size))
                (before ++ shown m.op m.payload ∷ [])
                m.op)
  run-frame m rest fuel offset before v bytes h =
      let size = length m.payload + message_header_size in
      let whole = Writer.frame m.op m.payload ++ rest in
      let taken =
        next_step-frame m.op m.payload rest at_segment (u64 (base + offset))
          (omega (arith, v.op_fits)) v.size_fits (switch_test-frame at_segment m rest v bytes) in
      let (left, n, r) =
        run-resume stop at_segment base fuel whole offset before (frame m.op m.payload size) h
          taken in
      let cut : drop size whole ≡ rest =
        ap (λ (n : ℕ). drop n whole) (sym (length-frame m.op m.payload))
        ∙ drop-length_append (Writer.frame m.op m.payload) rest in
      (
        left,
        omega (
          arith,
          n,
          length-append (Writer.frame m.op m.payload) rest,
          length-frame m.op m.payload,
        ),
        r
            ∙ ap
                (λ (b : List ℕ).
                  behind_frame left b (offset + size) (before ++ shown m.op m.payload ∷ []) m.op)
                cut,
      )

==_ne : (a b : ℕ) → a ≢ b → a == b ≡ false
==_ne a b n = ground arith

run-until :
    (at_segment : Bool) (base : ℕ) (ms : List Message) (last : Message) (rest : List ℕ)
    (fuel offset : ℕ) (before : List Message)
    → All IsPlain ms
    → All (λ m. m.op ≢ last.op) ms
    → IsPlain last
    → All IsByte rest
    → length (encode ms ++ (Writer.frame last.op last.payload ++ rest)) < fuel
    → run
        (some last.op)
        at_segment
        base
        fuel
        (encode ms ++ (Writer.frame last.op last.payload ++ rest))
        offset
        before
      ≡ done
          (before ++ (ms ++ last ∷ []))
          rest
          (offset + (length (encode ms) + (length last.payload + message_header_size)))
          false
run-until at_segment base [] last rest fuel offset before v others w bytes h =
    let (left, n, r) =
      run-frame (some last.op) at_segment base last rest fuel offset before w bytes h in
    let stopped : stops (some last.op) last.op ≡ true = ground arith in
    let e : offset + (length last.payload + message_header_size)
        ≡ offset + (0 + (length last.payload + message_header_size)) =
      omega arith in
    r ∙ rw stopped (ap (λ (o : ℕ). done (before ++ last ∷ []) rest o false) e)
run-until at_segment base (m ∷ ms) last rest fuel offset before v others w bytes h =
    let tail = encode ms ++ (Writer.frame last.op last.payload ++ rest) in
    let tail_bytes =
      All-append IsByte (encode ms) (Writer.frame last.op last.payload ++ rest) (All-encode ms v.1)
        (All-append IsByte (Writer.frame last.op last.payload) rest
          (All-frame last.op last.payload w.bytes) bytes) in
    let joined : encode (m ∷ ms) ++ (Writer.frame last.op last.payload ++ rest)
        ≡ Writer.frame m.op m.payload ++ tail =
      append_assoc (Writer.frame m.op m.payload) (encode ms) _ in
    let (left, n, r) =
      run-frame (some last.op) at_segment base m tail fuel offset before v.0 tail_bytes
        (subst (λ (b : List ℕ). length b < fuel) joined h) in
    let going : stops (some last.op) m.op ≡ false = ==_ne m.op last.op others.0 in
    let len = length-append (Writer.frame m.op m.payload) (encode ms) in
    let total : offset
          + (length m.payload + message_header_size)
          + (length (encode ms) + (length last.payload + message_header_size))
        ≡ offset + (length (encode (m ∷ ms)) + (length last.payload + message_header_size)) =
      omega (arith, len, length-frame m.op m.payload) in
    ap (λ (b : List ℕ). run (some last.op) at_segment base fuel b offset before) joined
    ∙ r
    ∙ rw going (
        run-until at_segment base ms last rest left
          (offset + (length m.payload + message_header_size)) (before ++ shown m.op m.payload ∷ [])
          v.1 others.1 w bytes n
        ∙ rw (total, append_assoc before (shown m.op m.payload ∷ []) (ms ++ last ∷ [])) refl)

-- A framer with nothing buffered that is fed the frames of messages, of which the last alone has
-- the opcode to stop at, and bytes behind them, returns just these messages and keeps those bytes
-- unframed, whether or not it watches for the segment switch.
pub feed-until :
    (f : Framer) (ms : List Message) (last : Message) (rest : List ℕ) (at_segment : Bool)
    → f.failure ≡ none
    → f.buffer ≡ []
    → All IsPlain ms
    → All (λ m. m.op ≢ last.op) ms
    → IsPlain last
    → All IsByte rest
    → length (encode ms ++ (Writer.frame last.op last.payload ++ rest)) ≤ max_message_size
    → feed f (encode ms ++ (Writer.frame last.op last.payload ++ rest)) (some last.op) at_segment
      ≡ (
        record f {
          buffer = rest;
          stream_offset = u64 (
              f.stream_offset + (length (encode ms) + (length last.payload + message_header_size)));
          segment_start_seen = f.segment_start_seen || false;
        },
        ok (ms ++ last ∷ []),
      )
feed-until f ms last rest at_segment live empty v others w bytes n =
    feed-open f sent (some last.op) at_segment live (rw empty (omega arith))
    ∙ ap (absorb f) (subst Reached (sym empty) (rw zero_add at whole))
  where
    sent : List ℕ
    sent = encode ms ++ (Writer.frame last.op last.payload ++ rest)

    size : ℕ
    size = length (encode ms) + (length last.payload + message_header_size)

    Reached : List ℕ → Type 0
    Reached b =
        run (some last.op) at_segment f.stream_offset (rounds (b ++ sent)) (b ++ sent) 0 []
        ≡ done (ms ++ last ∷ []) rest size false

    zero_add : 0 + size ≡ size
    zero_add = omega arith

    whole :
        run (some last.op) at_segment f.stream_offset (rounds sent) sent 0 []
        ≡ done (ms ++ last ∷ []) rest (0 + size) false
    whole =
        run-until at_segment f.stream_offset ms last rest (rounds sent) 0 [] v others w bytes
          (omega arith)
