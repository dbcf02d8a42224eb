-- ===== src/WireDecoder/Delivery.antt =====
-- feed on a whole stream of segments, raw and compressed ones in any order.
use de_be_os_rdp.Prelude.{
  ℕ, zero, suc, ◌+◌, ◌≤◌, ◌<◌, ◌≡◌, refl, ap, ◌∙◌, List, [], ◌∷◌, ◌++◌, append_assoc, append-nil,
  Bool, true, false, Bool-cases, inl, inr, if◌then◌else◌, ltb, Option, none, some, arith, length,
  length-append, drop, drop-length_append, u64,
}
use de_be_os_rdp.WireDecoder.{
  SegmentDecoder, WireError, Codec, Run, max_payload, emit, decompress, segment_step, segment_loop,
  feed, after_body, varint_loop,
}
use de_be_os_rdp.WireDecoder.Varint.{varint}
use de_be_os_rdp.WireDecoder.Segments.{header_value, encode_segment, segment_step-encode}
use de_be_os_rdp.WireDecoder.Stream.{
  collect, Rounds, IsLawful, Adds, emit-Adds, decompress_loop-Adds,
}

-- A segment is its flag and its payload.
abbrev pub encode : List (Bool × List ℕ) → List ℕ
encode [] = []
encode (p ∷ segments) = encode_segment p.0 p.1 ++ encode segments

-- The plain bytes of a stream of segments, and what becomes of the codec's stream. Only the
-- compressed payloads enter the codec, each in one run of rounds.
pub data Carries {Z : Type 0} (codec : Codec Z)
    : Option Z → List (Bool × List ℕ) → Option Z → List ℕ → Type 0 where
  over : {o : Option Z} → Carries codec o [] o []
  verbatim :
      {o o' : Option Z} {payload plain : List ℕ} {rest : List (Bool × List ℕ)}
      → length payload ≤ max_payload
      → Carries codec o rest o' plain
      → Carries codec o ((true, payload) ∷ rest) o' (payload ++ plain)
  packed :
      {z z' : Z} {o' : Option Z} {payload output plain : List ℕ} {rest : List (Bool × List ℕ)}
      → length payload ≤ max_payload
      → Rounds codec z payload z' output
      → Carries codec (some z') rest o' plain
      → Carries codec (some z) ((false, payload) ∷ rest) o' (output ++ plain)

length-varint : (left n : ℕ) → 0 < length (varint (suc left) n)
unfolding varint
length-varint left n = elim (Bool-cases (ltb n 128)) [
  | inl e ↦ rw e (omega arith)
  | inr e ↦ rw e (omega arith)
]

shorter :
    (fuel : ℕ) (flag : Bool) (payload : List ℕ) (segments : List (Bool × List ℕ))
    → length (encode_segment flag payload ++ encode segments) < suc fuel
    → length (encode segments) < fuel
shorter fuel flag payload segments h =
    let head = varint 5 (header_value flag payload) in
    omega (
      arith,
      length-append (head ++ payload) (encode segments),
      length-append head payload,
      length-varint 4 (header_value flag payload),
    )

module _ {Z E : Type 0} (codec : Codec Z) (law : IsLawful codec) where
  -- The loop ends with nothing left, and the sink has also got `plain`.
  record Drains (d : SegmentDecoder Z E) (s plain : List ℕ) (o : Option Z)
      (r : (List ℕ × (SegmentDecoder Z E × List ℕ)) × Option (WireError E)) : Type 0 where
    after : SegmentDecoder Z E
    ran : r ≡ (([], (after, s ++ plain)), none)
    stream : after.stream ≡ o
    failure : after.failure ≡ d.failure

  decompress-Adds :
      (z : Z) (payload : List ℕ) (d : SegmentDecoder Z E) (s : List ℕ) {z' : Z} {output : List ℕ}
      → Rounds codec z payload z' output
      → d.stream ≡ some z
      → Adds d s output (some z') (decompress collect codec payload (d, s))
  unfolding decompress
  decompress-Adds z payload d s rounds e = simp e (
      decompress_loop-Adds codec law (suc (codec.round_limit z payload)) z payload d s rounds
        (omega arith))

  after_body-ok :
      (rest : List ℕ) (r : (SegmentDecoder Z E × List ℕ) × Option (WireError E))
      (k : SegmentDecoder Z E × List ℕ
        → (List ℕ × (SegmentDecoder Z E × List ℕ)) × Option (WireError E))
      {st : SegmentDecoder Z E × List ℕ}
      → r ≡ (st, none)
      → after_body rest r k ≡ k st
  after_body-ok rest r k e = rw e refl

  abbrev run_body : Bool → List ℕ → Run (List ℕ) Z E
  run_body flag payload (d, s) =
      (if flag then emit collect payload else decompress collect codec payload)
        (record d { segments = u64 (suc d.segments) }, s)

  segment_loop-opened :
      (fuel : ℕ) (flag : Bool) (payload rest : List ℕ) (d : SegmentDecoder Z E) (s : List ℕ)
      → length payload ≤ max_payload
      → segment_loop collect codec (suc fuel) (encode_segment flag payload ++ rest) (d, s)
        ≡ after_body
            (drop (length (encode_segment flag payload)) (encode_segment flag payload ++ rest))
            (run_body flag payload (d, s))
            (segment_loop collect codec fuel
              (drop (length (encode_segment flag payload)) (encode_segment flag payload ++ rest)))
  unfolding segment_loop
  segment_loop-opened fuel flag payload rest d s n =
      rw (segment_step-encode flag payload rest n, segment_loop) refl

  segment_loop-encode :
      (fuel : ℕ) (flag : Bool) (payload rest : List ℕ) (d after : SegmentDecoder Z E)
      (s seen : List ℕ)
      → length payload ≤ max_payload
      → run_body flag payload (d, s) ≡ ((after, seen), none)
      → segment_loop collect codec (suc fuel) (encode_segment flag payload ++ rest) (d, s)
        ≡ segment_loop collect codec fuel rest (after, seen)
  segment_loop-encode fuel flag payload rest d after s seen n body =
      let ran = run_body flag payload (d, s) in
      segment_loop-opened fuel flag payload rest d s n
      ∙ ap (λ (r : List ℕ). after_body r ran (segment_loop collect codec fuel r))
          (drop-length_append (encode_segment flag payload) rest)
      ∙ after_body-ok rest ran (segment_loop collect codec fuel rest) body

  segment_loop-end :
      (fuel : ℕ) (d : SegmentDecoder Z E) (s : List ℕ)
      → segment_loop collect codec (suc fuel) [] (d, s) ≡ (([], (d, s)), none)
  unfolding segment_loop segment_step varint_loop
  segment_loop-end fuel d s = refl

  Drains-then :
      (p : List ℕ) {d d1 : SegmentDecoder Z E} {s q : List ℕ} {o : Option Z}
      {r r1 : (List ℕ × (SegmentDecoder Z E × List ℕ)) × Option (WireError E)}
      → d1.failure ≡ d.failure
      → r ≡ r1
      → Drains d1 (s ++ p) q o r1
      → Drains d s (p ++ q) o r
  Drains-then p {s = s} {q = q} same e a = record {
    after = a.after;
    ran = e ∙ a.ran ∙ rw (append_assoc s p q) refl;
    stream = a.stream;
    failure = a.failure ∙ same;
  }

  segment_loop-Drains :
      (fuel : ℕ) (segments : List (Bool × List ℕ)) (d : SegmentDecoder Z E) (s : List ℕ)
      {o o' : Option Z} {plain : List ℕ}
      → Carries codec o segments o' plain
      → d.stream ≡ o
      → length (encode segments) < fuel
      → Drains d s plain o' (segment_loop collect codec fuel (encode segments) (d, s))
  segment_loop-Drains zero segments d s c e h = absurd (omega arith)
  segment_loop-Drains (suc fuel) [] d s over e h = record {
    after = d;
    ran = segment_loop-end fuel d s ∙ rw (append-nil s) refl;
    stream = e;
    failure = refl;
  }
  segment_loop-Drains (suc fuel) (p ∷ segments) d s (verbatim {payload = payload} n c) e h =
      let a = emit-Adds payload (record d { segments = u64 (suc d.segments) }) s in
      Drains-then payload {d1 = a.after} a.failure
        (segment_loop-encode fuel true payload (encode segments) d a.after s (s ++ payload) n a.ran)
        (segment_loop-Drains fuel segments a.after (s ++ payload) c (a.stream ∙ e)
          (shorter fuel true payload segments h))
  segment_loop-Drains (suc fuel) (p ∷ segments) d s
        (packed {z = z} {payload = payload} {output = output} n rounds c) e h =
      let d' : SegmentDecoder Z E = record d { segments = u64 (suc d.segments) } in
      let a = decompress-Adds z payload d' s rounds e in
      Drains-then output {d1 = a.after} a.failure
        (segment_loop-encode fuel false payload (encode segments) d a.after s (s ++ output) n a.ran)
        (segment_loop-Drains fuel segments a.after (s ++ output) c a.stream
          (shorter fuel false payload segments h))

-- What feed leaves behind: no bytes, no failure, and the codec's stream after the segments.
pub record Delivers {Z E : Type 0} (r : (SegmentDecoder Z E × List ℕ) × Option (WireError E))
    (o : Option Z) (seen : List ℕ) : Type 0 where
  pub thrown : r.1 ≡ none
  pub sink : r.0.1 ≡ seen
  pub buffer : r.0.0.buffer ≡ []
  pub failure : r.0.0.failure ≡ none
  pub stream : r.0.0.stream ≡ o

-- A decoder that has not failed and has nothing buffered is fed the encoding of segments within
-- the payload limit, where each compressed payload decodes by a run of the codec's rounds, and the
-- rounds that make progress lower the codec's limit: the sink gets exactly the plain bytes of all
-- segments in order, nothing is thrown, and nothing stays buffered.
pub feed-encode_segments :
    {Z E : Type 0} (codec : Codec Z)
    → IsLawful codec
    → (segments : List (Bool × List ℕ)) (d : SegmentDecoder Z E) (s : List ℕ) (o : Option Z)
      (plain : List ℕ)
    → Carries codec d.stream segments o plain
    → d.failure ≡ none
    → d.buffer ≡ []
    → Delivers (feed collect codec (encode segments) (d, s)) o (s ++ plain)
unfolding feed
feed-encode_segments {Z} {E} codec law segments d s o plain c live empty =
    let bytes = encode segments in
    let d' : SegmentDecoder Z E = record d {
      wire_bytes = u64 (d.wire_bytes + length bytes);
      buffer = bytes;
      failure = none;
    } in
    let a = segment_loop-Drains codec law (suc (length bytes)) segments d' s c refl (omega arith) in
    simp (live, empty, a.ran)
      (record { thrown = refl; sink = refl; buffer = refl; failure = a.failure; stream = a.stream })
