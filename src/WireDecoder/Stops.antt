-- ===== src/WireDecoder/Stops.antt =====
-- How feed ends: a failure is latched, and no segment keeps the codec's loop going for ever.
use de_be_os_rdp.Prelude.{
  ℕ, zero, suc, ◌+◌, ◌<◌, ◌≡◌, ◌≢◌, ◌⊎◌, inl, inr, refl, List, ◌++◌, true, false, ◌&&◌, Bool-cases,
  ltb, ◌==◌, Option, none, some, Option-cases, arith, length, take, drop, u64,
}
use de_be_os_rdp.WireDecoder.{
  SegmentDecoder, WireError, stuck, sink_failed, Codec, max_chunk, unless_thrown, after_body,
  hand_over, emit_loop, emit, decompress_loop, decompress, segment_step, segment_loop, settle, feed,
}
use de_be_os_rdp.WireDecoder.Pieces.{Round-cases, SegmentStep-cases}
use de_be_os_rdp.WireDecoder.Stream.{IsLawful}

module _ {S Z E : Type 0} (sink : List ℕ → S → S × Option E) (codec : Codec Z) where
  settle-failure :
      (r : (List ℕ × (SegmentDecoder Z E × S)) × Option (WireError E)) (e : WireError E)
      → (settle sink codec r).1 ≡ some e
      → (settle sink codec r).0.0.failure ≡ some e
  settle-failure (x, none) e h = cc
  settle-failure (x, some e') e h = h

  feed-failure :
      (bytes : List ℕ) (d : SegmentDecoder Z E) (s : S) (e : WireError E)
      → (feed sink codec bytes (d, s)).1 ≡ some e
      → (feed sink codec bytes (d, s)).0.0.failure ≡ some e
  unfolding feed
  feed-failure bytes d s e h = elim (Option-cases d.failure) [
    | inl live ↦
        let buffer = d.buffer ++ bytes in
        let d' : SegmentDecoder Z E = record d {
          wire_bytes = u64 (d.wire_bytes + length bytes);
          buffer = buffer;
          failure = none;
        } in
        simp live (
          settle-failure (segment_loop sink codec (suc (length buffer)) buffer (d', s)) e
            (simp live at h))
    | inr (e', old) ↦ simp old (simp old at h)
  ]

  feed-failed :
      (more : List ℕ) (d : SegmentDecoder Z E) (t : S) (e : WireError E)
      → d.failure ≡ some e
      → feed sink codec more (d, t) ≡ ((d, t), some e)
  unfolding feed
  feed-failed more d t e h = simp h refl

  -- After a feed that throws, every later feed throws the same, leaves the decoder as it is, and
  -- does not call the sink.
  pub feed-rethrows :
      (bytes : List ℕ) (d : SegmentDecoder Z E) (s : S) (e : WireError E) (more : List ℕ) (t : S)
      → (feed sink codec bytes (d, s)).1 ≡ some e
      → feed sink codec more ((feed sink codec bytes (d, s)).0.0, t)
        ≡ (((feed sink codec bytes (d, s)).0.0, t), some e)
  feed-rethrows bytes d s e more t h = feed-failed more _ t e (feed-failure bytes d s e h)

progress : (n room : ℕ) → ((n == 0) && (room == 0)) ≡ false → (0 < n) ⊎ (0 < room)
progress zero room h = inr (ground arith)
progress (suc n) room h = inl (omega arith)

module _ {S Z E : Type 0} (sink : List ℕ → S → S × Option E) (codec : Codec Z)
    (law : IsLawful codec) where
  NotStuck : {X : Type 0} → X × Option (WireError E) → Type 0
  NotStuck r = r.1 ≢ some stuck

  unless_thrown-NotStuck :
      {X : Type 0} (r : X × Option (WireError E)) (k : X → X × Option (WireError E))
      → NotStuck r
      → ((x : X) → NotStuck (k x))
      → NotStuck (unless_thrown r k)
  unless_thrown-NotStuck (x, none) k h rest = rest x
  unless_thrown-NotStuck (x, some e) k h rest = h

  thrown-NotStuck :
      {X : Type 0} (x : X) (thrown : Option E)
      → NotStuck (
        x,
        elim thrown as (λ t. Option (WireError E)) [ none ↦ none | some e ↦ some (sink_failed e) ],
      )
  unfolding NotStuck
  thrown-NotStuck x none = λ e. cc
  thrown-NotStuck x (some e') = λ e. cc

  hand_over-NotStuck :
      (piece : List ℕ) (st : SegmentDecoder Z E × S) → NotStuck (hand_over sink piece st)
  unfolding NotStuck
  hand_over-NotStuck piece (d, s) =
      thrown-NotStuck {X = SegmentDecoder Z E × S}
        (record d { plain_bytes = u64 (d.plain_bytes + length piece) }, (sink piece s).0)
        (sink piece s).1

  emit_loop-NotStuck :
      (fuel : ℕ) (bytes : List ℕ) (st : SegmentDecoder Z E × S)
      → NotStuck (emit_loop sink fuel bytes st)
  unfolding emit_loop NotStuck
  emit_loop-NotStuck zero bytes st = λ e. cc
  emit_loop-NotStuck (suc fuel) bytes st = elim (Bool-cases (length bytes == 0)) [
    | inl empty ↦ rw (empty, emit_loop) (λ e. cc)
    | inr full ↦
        rw (full, emit_loop)
          (unless_thrown-NotStuck (hand_over sink (take max_chunk bytes) st)
            (emit_loop sink fuel (drop max_chunk bytes))
            (hand_over-NotStuck (take max_chunk bytes) st)
            (emit_loop-NotStuck fuel (drop max_chunk bytes)))
  ]

  emit-NotStuck : (bytes : List ℕ) (st : SegmentDecoder Z E × S) → NotStuck (emit sink bytes st)
  unfolding emit
  emit-NotStuck bytes st = emit_loop-NotStuck (length bytes) bytes st

  decompress_loop-NotStuck :
      (fuel : ℕ) (z : Z) (input : List ℕ) (st : SegmentDecoder Z E × S)
      → codec.round_limit z input < fuel
      → NotStuck (decompress_loop sink codec fuel z input st)
  unfolding decompress_loop NotStuck
  decompress_loop-NotStuck zero z input st h = absurd (omega arith)
  decompress_loop-NotStuck (suc fuel) z input (d, s) h =
      elim (Round-cases (codec.decompress_stream z input max_chunk)) [
        | inl (name, e) ↦ rw (e, decompress_loop) (λ x. cc)
        | inr (z', n, output, e) ↦
            let d' : SegmentDecoder Z E = record d { stream = some z' } in
            let rest = drop n input in
            rw (e, decompress_loop)
              (unless_thrown-NotStuck (emit sink output (d', s)) _ (emit-NotStuck output (d', s))
                (λ st'. elim (Bool-cases (length rest == 0 && ltb (length output) max_chunk)) [
                  | inl all ↦ rw all (λ x. cc)
                  | inr not_all ↦ elim (Bool-cases (n == 0 && length output == 0)) [
                    | inl still ↦ rw (not_all, still) (λ x. cc)
                    | inr moving ↦
                        rw (not_all, moving)
                          (decompress_loop-NotStuck fuel z' rest st' (
                            omega (
                              arith,
                              law.lower z z' input output n e (progress n (length output) moving),
                            )))
                  ]
                ]))
      ]

  decompress-NotStuck :
      (payload : List ℕ) (st : SegmentDecoder Z E × S) → NotStuck (decompress sink codec payload st)
  unfolding decompress NotStuck
  decompress-NotStuck payload (d, s) = elim (Option-cases d.stream) [
    | inl e ↦ simp (e, decompress) (λ x. cc)
    | inr (z, e) ↦
        simp (e, decompress)
          (decompress_loop-NotStuck (suc (codec.round_limit z payload)) z payload (d, s)
            (omega arith))
  ]

  after_body-NotStuck :
      (rest : List ℕ) (r : (SegmentDecoder Z E × S) × Option (WireError E))
      (k : SegmentDecoder Z E × S → (List ℕ × (SegmentDecoder Z E × S)) × Option (WireError E))
      → NotStuck r
      → ((st : SegmentDecoder Z E × S) → NotStuck (k st))
      → NotStuck (after_body rest r k)
  unfolding NotStuck
  after_body-NotStuck rest (st, none) k h all = all st
  after_body-NotStuck rest (st, some e) k h all = h

  segment_loop-NotStuck :
      (fuel : ℕ) (rest : List ℕ) (st : SegmentDecoder Z E × S)
      → NotStuck (segment_loop sink codec fuel rest st)
  unfolding segment_loop NotStuck
  segment_loop-NotStuck zero rest st = λ x. cc
  segment_loop-NotStuck (suc fuel) rest (d, s) = elim (SegmentStep-cases (segment_step rest)) [
    | inl e ↦ rw (e, segment_loop) (λ x. cc)
    | inr (inl e) ↦ rw (e, segment_loop) (λ x. cc)
    | inr (inr (inl (n, e))) ↦ rw (e, segment_loop) (λ x. cc)
    | inr (inr (inr (true, payload, total, e))) ↦
        let d' : SegmentDecoder Z E = record d { segments = u64 (suc d.segments) } in
        rw (e, segment_loop)
          (after_body-NotStuck (drop total rest) (emit sink payload (d', s))
            (segment_loop sink codec fuel (drop total rest)) (emit-NotStuck payload (d', s))
            (segment_loop-NotStuck fuel (drop total rest)))
    | inr (inr (inr (false, payload, total, e))) ↦
        let d' : SegmentDecoder Z E = record d { segments = u64 (suc d.segments) } in
        rw (e, segment_loop)
          (after_body-NotStuck (drop total rest) (decompress sink codec payload (d', s))
            (segment_loop sink codec fuel (drop total rest)) (decompress-NotStuck payload (d', s))
            (segment_loop-NotStuck fuel (drop total rest)))
  ]

  settle-NotStuck :
      (r : (List ℕ × (SegmentDecoder Z E × S)) × Option (WireError E))
      → NotStuck r
      → NotStuck (settle sink codec r)
  unfolding NotStuck
  settle-NotStuck (x, none) h = λ e. cc
  settle-NotStuck (x, some e) h = h

  -- Where every round of the codec that reads or writes something lowers the codec's limit, feed on
  -- any bytes ends without running out of fuel, so the source's loop over the rounds ends.
  pub feed-ends :
      (bytes : List ℕ) (d : SegmentDecoder Z E) (s : S)
      → d.failure ≢ some stuck
      → (feed sink codec bytes (d, s)).1 ≢ some stuck
  unfolding feed NotStuck
  feed-ends bytes d s h = elim (Option-cases d.failure) [
    | inl live ↦
        let buffer = d.buffer ++ bytes in
        let d' : SegmentDecoder Z E = record d {
          wire_bytes = u64 (d.wire_bytes + length bytes);
          buffer = buffer;
          failure = none;
        } in
        simp live (
          settle-NotStuck (segment_loop sink codec (suc (length buffer)) buffer (d', s))
            (segment_loop-NotStuck (suc (length buffer)) buffer (d', s)))
    | inr (e, old) ↦ simp old (simp old at h)
  ]
