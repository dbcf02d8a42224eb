-- ===== src/WireDecoder/Pieces.antt =====
-- What a sink is called with: pieces of one byte to max_chunk bytes, whatever the codec returns.
use de_be_os_rdp.Prelude.{
  ℕ, zero, suc, ◌+◌, ◌≤◌, ◌<◌, ◌≡◌, refl, List, [], ◌∷◌, ◌++◌, Bool, true, false, Bool-cases,
  Option-cases, u64, ◌⊎◌, inl, inr, Option, none, some, arith, length, length-take, take, drop,
  if◌then◌else◌, ◌==◌, ◌&&◌, ltb,
}
use de_be_os_rdp.WireDecoder.{
  SegmentDecoder, WireError, Codec, Round, failed, moved, max_chunk, Run, unless_thrown, after_body,
  hand_over, emit_loop, emit, decompress_loop, decompress, SegmentStep, wait, header_overrun,
  oversized, segment, segment_step, segment_loop, settle, feed,
}

piece_bounds :
    (n : ℕ) (bytes : List ℕ)
    → (length bytes == 0) ≡ false
    → 0 < n
    → (0 < length (take n bytes)) × (length (take n bytes) ≤ n)
piece_bounds n [] e h = cc
piece_bounds n (b ∷ bytes) e h =
    (omega (arith, length-take n (b ∷ bytes)), omega (arith, length-take n (b ∷ bytes)))

pub Round-cases :
    {Z : Type 0} (r : Round Z)
    → ((name : List ℕ) × (r ≡ failed name))
      ⊎ ((z : Z) × (n : ℕ) × (output : List ℕ) × (r ≡ moved z n output))
Round-cases (failed name) = inl (name, refl)
Round-cases (moved z n output) = inr (z, n, output, refl)

pub SegmentStep-cases :
    (s : SegmentStep)
    → (s ≡ wait)
      ⊎ ((s ≡ header_overrun)
          ⊎ (((n : ℕ) × (s ≡ oversized n))
              ⊎ ((raw : Bool) × (payload : List ℕ) × (total : ℕ) × (s
                    ≡ segment raw payload total))))
SegmentStep-cases wait = inl refl
SegmentStep-cases header_overrun = inr (inl refl)
SegmentStep-cases (oversized n) = inr (inr (inl (n, refl)))
SegmentStep-cases (segment raw payload total) = inr (inr (inr (raw, payload, total, refl)))

module _ {S Z E : Type 0} (sink : List ℕ → S → S × Option E) (P : S → Type 0)
    (kept : (piece : List ℕ) (s : S)
      → 0 < length piece
      → length piece ≤ max_chunk
      → P s
      → P (sink piece s).0) where
  -- The sink's state after a run.
  Keeps : (SegmentDecoder Z E × S) × Option (WireError E) → Type 0
  Keeps r = P r.0.1

  unless_thrown-Keeps :
      (r : (SegmentDecoder Z E × S) × Option (WireError E)) (k : Run S Z E)
      → Keeps r
      → ((d : SegmentDecoder Z E) (s : S) → P s → Keeps (k (d, s)))
      → Keeps (unless_thrown r k)
  unfolding Keeps
  unless_thrown-Keeps ((d, s), none) k h rest = rest d s h
  unless_thrown-Keeps ((d, s), some e) k h rest = h

  if-Keeps :
      (b : Bool) (x y : (SegmentDecoder Z E × S) × Option (WireError E))
      → Keeps x
      → Keeps y
      → Keeps (if b then x else y)
  if-Keeps true x y h k = h
  if-Keeps false x y h k = k

  emit_loop-Keeps :
      (fuel : ℕ) (bytes : List ℕ) (d : SegmentDecoder Z E) (s : S)
      → P s
      → Keeps (emit_loop sink fuel bytes (d, s))
  unfolding emit_loop Keeps
  emit_loop-Keeps zero bytes d s h = h
  emit_loop-Keeps (suc fuel) bytes d s h = elim (Bool-cases (length bytes == 0)) [
    | inl empty ↦ rw empty h
    | inr full ↦ rw full (
        unless_thrown-Keeps (hand_over sink (take max_chunk bytes) (d, s))
          (emit_loop sink fuel (drop max_chunk bytes))
          (let (some_byte, small) = piece_bounds max_chunk bytes full (omega arith) in
            kept (take max_chunk bytes) s some_byte small h)
          (emit_loop-Keeps fuel (drop max_chunk bytes)))
  ]

  emit-Keeps :
      (bytes : List ℕ) (d : SegmentDecoder Z E) (s : S) → P s → Keeps (emit sink bytes (d, s))
  unfolding emit
  emit-Keeps bytes = emit_loop-Keeps (length bytes) bytes

  module _ (codec : Codec Z) where
    decompress_loop-Keeps :
        (fuel : ℕ) (z : Z) (input : List ℕ) (d : SegmentDecoder Z E) (s : S)
        → P s
        → Keeps (decompress_loop sink codec fuel z input (d, s))
    unfolding Keeps decompress_loop
    decompress_loop-Keeps zero z input d s h = h
    decompress_loop-Keeps (suc fuel) z input d s h =
        elim (Round-cases (codec.decompress_stream z input max_chunk)) [
          | inl (name, e) ↦ rw (e, decompress_loop) h
          | inr (z', consumed, output, e) ↦
              rw (e, decompress_loop)
                (unless_thrown-Keeps (emit sink output (record d { stream = some z' }, s)) _
                  (emit-Keeps output (record d { stream = some z' }) s h)
                  (λ d' s' h'.
                    if-Keeps (length (drop consumed input) == 0 && ltb (length output) max_chunk) _
                      _ h'
                      (if-Keeps (consumed == 0 && length output == 0) _ _ h'
                        (decompress_loop-Keeps fuel z' (drop consumed input) d' s' h'))))
        ]

    decompress-Keeps :
        (payload : List ℕ) (d : SegmentDecoder Z E) (s : S)
        → P s
        → Keeps (decompress sink codec payload (d, s))
    unfolding decompress Keeps
    decompress-Keeps payload d s h = elim (Option-cases d.stream) [
      | inl e ↦ simp (e, decompress) h
      | inr (z, e) ↦
          simp (e, decompress)
            (decompress_loop-Keeps (suc (codec.round_limit z payload)) z payload d s h)
    ]

    after_body-Keeps :
        (fuel : ℕ) (rest : List ℕ) (r : (SegmentDecoder Z E × S) × Option (WireError E))
        → Keeps r
        → ((d : SegmentDecoder Z E) (s : S)
            → P s
            → P (segment_loop sink codec fuel rest (d, s)).0.1.1)
        → P (after_body rest r (segment_loop sink codec fuel rest)).0.1.1
    unfolding Keeps
    after_body-Keeps fuel rest ((d, s), none) h ih = ih d s h
    after_body-Keeps fuel rest ((d, s), some e) h ih = h

    segment_loop-Keeps :
        (fuel : ℕ) (rest : List ℕ) (d : SegmentDecoder Z E) (s : S)
        → P s
        → P (segment_loop sink codec fuel rest (d, s)).0.1.1
    unfolding segment_loop
    segment_loop-Keeps zero rest d s h = h
    segment_loop-Keeps (suc fuel) rest d s h = elim (SegmentStep-cases (segment_step rest)) [
      | inl e ↦ rw (e, segment_loop) h
      | inr (inl e) ↦ rw (e, segment_loop) h
      | inr (inr (inl (n, e))) ↦ rw (e, segment_loop) h
      | inr (inr (inr (true, payload, total, e))) ↦
          let d' = record d { segments = u64 (suc d.segments) } in
          rw (e, segment_loop)
            (after_body-Keeps fuel (drop total rest) (emit sink payload (d', s))
              (emit-Keeps payload d' s h) (segment_loop-Keeps fuel (drop total rest)))
      | inr (inr (inr (false, payload, total, e))) ↦
          let d' = record d { segments = u64 (suc d.segments) } in
          rw (e, segment_loop)
            (after_body-Keeps fuel (drop total rest) (decompress sink codec payload (d', s))
              (decompress-Keeps payload d' s h) (segment_loop-Keeps fuel (drop total rest)))
    ]

    settle-Keeps :
        (r : (List ℕ × (SegmentDecoder Z E × S)) × Option (WireError E))
        → P r.0.1.1
        → P (settle sink codec r).0.1
    settle-Keeps ((rest, (d, s)), none) h = h
    settle-Keeps ((rest, (d, s)), some e) h = h

-- Whatever a sink's state satisfies, and keeps satisfying when the sink is called with a piece of
-- one byte to 128 KiB, still holds after feed: feed calls the sink with such pieces only, on every
-- input, with every codec, and also when it throws.
pub feed-pieces :
    {S Z E : Type 0} (sink : List ℕ → S → S × Option E) (codec : Codec Z) (P : S → Type 0)
    → ((piece : List ℕ) (s : S)
        → 0 < length piece
        → length piece ≤ max_chunk
        → P s
        → P (sink piece s).0)
    → (bytes : List ℕ) (d : SegmentDecoder Z E) (s : S) → P s
    → P (feed sink codec bytes (d, s)).0.1
unfolding feed
feed-pieces sink codec P kept bytes d s h = elim (Option-cases d.failure) [
  | inr (e, latched) ↦ simp latched h
  | inl live ↦
      let buffer = d.buffer ++ bytes in
      let d' = record d {
        wire_bytes = u64 (d.wire_bytes + length bytes);
        buffer = buffer;
        failure = none;
      } in
      let fuel = suc (length buffer) in
      simp live (
        settle-Keeps sink P kept codec (segment_loop sink codec fuel buffer (d', s))
          (segment_loop-Keeps sink P kept codec fuel buffer d' s h))
]
