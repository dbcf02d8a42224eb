-- ===== src/WireDecoder/Stream.antt =====
-- The stream that segments carry: feed hands their plain bytes to the sink, in order and complete,
-- where the compressed ones decode by a run of the codec's rounds.
use de_be_os_rdp.Prelude.{
  ℕ, zero, suc, ◌+◌, ◌≤◌, ◌<◌, ◌≡◌, ◌⊎◌, inl, inr, refl, subst, ◌∙◌, List, [], ◌∷◌, ◌++◌,
  append_assoc, append-nil, true, false, ◌&&◌, ltb, lt→ltb, le→ltb, ◌==◌, Bool-cases, Option, none,
  some, arith, length, take, drop, length-drop, take-append-drop, u64,
}
use de_be_os_rdp.WireDecoder.{
  SegmentDecoder, WireError, Codec, moved, max_chunk, emit_loop, emit, decompress_loop,
}

-- A sink that keeps every byte and never throws.
abbrev pub collect : {E : Type 0} → List ℕ → List ℕ → List ℕ × Option E
collect piece seen = (seen ++ piece, none)

-- The rounds that turn a payload into plain bytes, as the loop tests for the last one.
pub data Rounds {Z : Type 0} (codec : Codec Z) : Z → List ℕ → Z → List ℕ → Type 0 where
  last :
      {z z' : Z} {input output : List ℕ} (n : ℕ)
      → codec.decompress_stream z input max_chunk ≡ moved z' n output
      → length (drop n input) ≡ 0
      → length output < max_chunk
      → Rounds codec z input z' output
  more :
      {z z' z2 : Z} {input output rest : List ℕ} (n : ℕ)
      → codec.decompress_stream z input max_chunk ≡ moved z' n output
      → (0 < length (drop n input)) ⊎ (max_chunk ≤ length output)
      → (0 < n) ⊎ (0 < length output)
      → Rounds codec z' (drop n input) z2 rest
      → Rounds codec z input z2 (output ++ rest)

-- A round that makes progress lowers the limit.
pub record IsLawful {Z : Type 0} (codec : Codec Z) : Type 0 where
  pub lower :
      (z z' : Z) (input output : List ℕ) (n : ℕ)
      → codec.decompress_stream z input max_chunk ≡ moved z' n output
      → (0 < n) ⊎ (0 < length output)
      → codec.round_limit z' (drop n input) < codec.round_limit z input

nil_of_length : (bytes : List ℕ) → (length bytes == 0) ≡ true → bytes ≡ []
nil_of_length [] e = refl
nil_of_length (b ∷ bytes) e = absurd (ground arith)

more_left :
    (left room : ℕ) → (0 < left) ⊎ (max_chunk ≤ room) → ((left == 0) && ltb room max_chunk) ≡ false
more_left left room (inl h) = ground arith
more_left left room (inr h) = elim (Bool-cases (left == 0)) [
  | inl e ↦ rw (e, le→ltb room max_chunk h) refl
  | inr e ↦ rw e refl
]

some_progress : (n room : ℕ) → (0 < n) ⊎ (0 < room) → ((n == 0) && (room == 0)) ≡ false
some_progress n room (inl h) = ground arith
some_progress n room (inr h) = ground arith

module _ {Z E : Type 0} where
  -- A run returns, its sink has also got `plain`, and the stream is now `z`.
  pub record Adds (d : SegmentDecoder Z E) (s plain : List ℕ) (z : Option Z)
      (r : (SegmentDecoder Z E × List ℕ) × Option (WireError E)) : Type 0 where
    pub after : SegmentDecoder Z E
    pub ran : r ≡ ((after, s ++ plain), none)
    pub stream : after.stream ≡ z
    pub failure : after.failure ≡ d.failure

  pub Adds-none : (d : SegmentDecoder Z E) (s : List ℕ) → Adds d s [] d.stream ((d, s), none)
  Adds-none d s = record { after = d; ran = rw (append-nil s) refl; stream = refl; failure = refl }

  -- One run after another.
  pub Adds-then :
      (p : List ℕ) {d d1 : SegmentDecoder Z E} {s q : List ℕ} {z : Option Z}
      {r : (SegmentDecoder Z E × List ℕ) × Option (WireError E)}
      → d1.failure ≡ d.failure
      → Adds d1 (s ++ p) q z r
      → Adds d s (p ++ q) z r
  Adds-then p {s = s} {q = q} same a = record {
    after = a.after;
    ran = a.ran ∙ rw (append_assoc s p q) refl;
    stream = a.stream;
    failure = a.failure ∙ same;
  }

  emit_loop-Adds :
      (fuel : ℕ) (bytes : List ℕ) (d : SegmentDecoder Z E) (s : List ℕ)
      → length bytes ≤ fuel
      → Adds d s bytes d.stream (emit_loop collect fuel bytes (d, s))
  unfolding emit_loop
  emit_loop-Adds zero [] d s h = Adds-none d s
  emit_loop-Adds zero (b ∷ bytes) d s h = absurd (omega arith)
  emit_loop-Adds (suc fuel) bytes d s h = elim (Bool-cases (length bytes == 0)) [
    | inl empty ↦ rw (empty, emit_loop, nil_of_length bytes empty) (Adds-none d s)
    | inr full ↦
        let piece = take max_chunk bytes in
        let d1 : SegmentDecoder Z E = record d {
          plain_bytes = u64 (d.plain_bytes + length piece);
        } in
        let left : length (drop max_chunk bytes) ≤ fuel =
          omega (arith, length-drop max_chunk bytes) in
        rw (full, emit_loop)
          (subst
            (λ (p : List ℕ).
              Adds d s p d.stream (emit_loop collect fuel (drop max_chunk bytes) (d1, s ++ piece)))
            (take-append-drop max_chunk bytes)
            (Adds-then piece {d1 = d1} refl
              (emit_loop-Adds fuel (drop max_chunk bytes) d1 (s ++ piece) left)))
  ]

  pub emit-Adds :
      (bytes : List ℕ) (d : SegmentDecoder Z E) (s : List ℕ)
      → Adds d s bytes d.stream (emit collect bytes (d, s))
  unfolding emit
  emit-Adds bytes d s = emit_loop-Adds (length bytes) bytes d s (omega arith)

module _ {Z E : Type 0} (codec : Codec Z) (law : IsLawful codec) where
  pub decompress_loop-Adds :
      (fuel : ℕ) (z : Z) (input : List ℕ) (d : SegmentDecoder Z E) (s : List ℕ) {z' : Z}
      {plain : List ℕ}
      → Rounds codec z input z' plain
      → codec.round_limit z input < fuel
      → Adds d s plain (some z') (decompress_loop collect codec fuel z input (d, s))
  unfolding decompress_loop
  decompress_loop-Adds zero z input d s rounds h = absurd (omega arith)
  decompress_loop-Adds (suc fuel) z input d s {z'} {plain} (last n e all room) h =
      let d' : SegmentDecoder Z E = record d { stream = some z' } in
      let a = emit-Adds plain d' s in
      rw (e, decompress_loop, a.ran, all, lt→ltb (length plain) max_chunk room)
        (record { after = a.after; ran = refl; stream = a.stream; failure = a.failure })
  decompress_loop-Adds (suc fuel) z input d s {z'}
        (more {z' = z1} {output = output} n e left moving rounds) h =
      let d' : SegmentDecoder Z E = record d { stream = some z1 } in
      let a = emit-Adds output d' s in
      let rest = drop n input in
      rw
        (
          e,
          decompress_loop,
          a.ran,
          more_left (length rest) (length output) left,
          some_progress n (length output) moving,
        )
        (Adds-then output {d1 = a.after} a.failure (
          decompress_loop-Adds fuel z1 rest a.after (s ++ output) rounds
            (omega (arith, law.lower z z1 input output n e moving))))
