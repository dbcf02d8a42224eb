-- ===== src/WireDecoder/Fuel.antt =====
-- The loop of SegmentDecoder::feed over the segments: fuel above the buffer's length is never used
-- up.
use de_be_os_rdp.Prelude.{
  ℕ, zero, suc, ◌+◌, ◌<◌, ◌≡◌, refl, inl, inr, List, [], ◌∷◌, Bool, Bool-cases, Option, none, some,
  Option-cases, arith, length, length-drop, drop, bit_and, ◌==◌, u64, if◌then◌else◌,
}
use de_be_os_rdp.WireDecoder.{
  Codec, SegmentDecoder, WireError, segment, segment_step, varint_loop, max_varint_size, emit,
  decompress, after_body, segment_loop,
}
use de_be_os_rdp.WireDecoder.Pieces.{SegmentStep-cases}

varint_loop_takes :
    (left i value : ℕ) (bytes : List ℕ) {v h : ℕ}
    → varint_loop left i value bytes ≡ some (v, h)
    → (i < h) × (0 < length bytes)
unfolding varint_loop
varint_loop_takes zero i value bytes e = cc
varint_loop_takes (suc left) i value [] e = cc
varint_loop_takes (suc left) i value (b ∷ bytes) e = elim (Bool-cases (bit_and b 0x80 == 0)) [
  | inl done ↦ ground (arith, rw (done, varint_loop) at e)
  | inr more ↦
      let later = varint_loop_takes left (i + 1) _ bytes (rw (more, varint_loop) at e) in
      (omega (arith, later.0), omega arith)
]

segment_step_takes :
    (rest : List ℕ) {raw : Bool} {payload : List ℕ} {total : ℕ}
    → segment_step rest ≡ segment raw payload total
    → (0 < total) × (0 < length rest)
unfolding segment_step
segment_step_takes rest e = elim (Option-cases (varint_loop max_varint_size 0 0 rest)) [
  | inl none_yet ↦ ground arith
  | inr ((v, h), found) ↦
      let takes = varint_loop_takes max_varint_size 0 0 rest found in ground (arith, takes)
]

module _ {S Z E : Type 0} (sink : List ℕ → S → S × Option E) (codec : Codec Z) where
  after_body_same :
      (rest : List ℕ) (r : (SegmentDecoder Z E × S) × Option (WireError E))
      (k l : SegmentDecoder Z E × S → (List ℕ × (SegmentDecoder Z E × S)) × Option (WireError E))
      → ((st : SegmentDecoder Z E × S) → k st ≡ l st)
      → after_body rest r k ≡ after_body rest r l
  after_body_same rest (st, none) k l same = same st
  after_body_same rest (st, some e) k l same = refl

  -- Whatever the buffer holds, the loop gives the same result with every fuel above the buffer's
  -- length: it never runs out, so it gives what the source's loop over the segments gives.
  pub segment_loop_fuel :
      (m n : ℕ) (rest : List ℕ) (st : SegmentDecoder Z E × S)
      → length rest < m
      → length rest < n
      → segment_loop sink codec m rest st ≡ segment_loop sink codec n rest st
  unfolding segment_loop
  segment_loop_fuel zero n rest st h k = absurd (omega arith)
  segment_loop_fuel (suc m) zero rest st h k = absurd (omega arith)
  segment_loop_fuel (suc m) (suc n) rest (d, s) h k = elim (SegmentStep-cases (segment_step rest)) [
    | inl e ↦ rw (e, segment_loop) refl
    | inr (inl e) ↦ rw (e, segment_loop) refl
    | inr (inr (inl (declared, e))) ↦ rw (e, segment_loop) refl
    | inr (inr (inr (raw, payload, total, e))) ↦
        let d' : SegmentDecoder Z E = record d { segments = u64 (suc d.segments) } in
        let left = drop total rest in
        let (some_total, some_rest) = segment_step_takes rest e in
        let shorter = length-drop total rest in
        rw (e, segment_loop)
          (after_body_same left
            ((if raw then emit sink payload else decompress sink codec payload) (d', s))
            (segment_loop sink codec m left) (segment_loop sink codec n left)
            (λ st.
              segment_loop_fuel m n left st (omega (arith, shorter, some_total))
                (omega (arith, shorter, some_total))))
  ]
