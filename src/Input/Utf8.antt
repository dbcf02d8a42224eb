-- ===== src/Input/Utf8.antt =====
-- first_utf8_scalar against the UTF-8 encoding.
use de_be_os_rdp.Prelude.{
  ℕ, ◌⊎◌, get_or, Bool-cases, inl, inr, ltb→lt, suc, ◌+◌, ◌*◌, ◌/◌, ◌%◌, ◌^◌, ◌≤◌, ◌<◌, ◌≡◌, refl,
  ◌∙◌, List, [], ◌∷◌, ◌++◌, if◌then◌else◌, ltb, arith, bit_and, bit_or, bit_or_join_high,
  agree_below, eq_of_agree_below, length,
}
use de_be_os_rdp.Input.{utf8_loop, utf8_tail, first_utf8_scalar}

-- The masks on one byte, checked over all bytes.
low6 : (b : ℕ) → b < 256 → bit_and b 0x3f ≡ b % 64
unfolding agree_below
low6 = eq_of_agree_below _ _ 256 refl

low5 : (b : ℕ) → b < 256 → bit_and b 0x1f ≡ b % 32
unfolding agree_below
low5 = eq_of_agree_below _ _ 256 refl

low4 : (b : ℕ) → b < 256 → bit_and b 0x0f ≡ b % 16
unfolding agree_below
low4 = eq_of_agree_below _ _ 256 refl

low3 : (b : ℕ) → b < 256 → bit_and b 0x07 ≡ b % 8
unfolding agree_below
low3 = eq_of_agree_below _ _ 256 refl

top2 : (b : ℕ) → b < 256 → bit_and b 0xc0 ≡ b / 64 * 64
unfolding agree_below
top2 = eq_of_agree_below _ _ 256 refl

top3 : (b : ℕ) → b < 256 → bit_and b 0xe0 ≡ b / 32 * 32
unfolding agree_below
top3 = eq_of_agree_below _ _ 256 refl

top4 : (b : ℕ) → b < 256 → bit_and b 0xf0 ≡ b / 16 * 16
unfolding agree_below
top4 = eq_of_agree_below _ _ 256 refl

top5 : (b : ℕ) → b < 256 → bit_and b 0xf8 ≡ b / 8 * 8
unfolding agree_below
top5 = eq_of_agree_below _ _ 256 refl

-- RFC 3629: the bytes of a scalar.
abbrev pub utf8 : ℕ → List ℕ
utf8 c =
    if ltb c 0x80
    then c ∷ []
    else if ltb c 0x800
    then (0xc0 + c / 64) ∷ (0x80 + c % 64) ∷ []
    else if ltb c 0x10000
    then (0xe0 + c / 4096) ∷ (0x80 + c / 64 % 64) ∷ (0x80 + c % 64) ∷ []
    else (0xf0 + c / 262144) ∷ (0x80 + c / 4096 % 64) ∷ (0x80 + c / 64 % 64) ∷ (0x80 + c % 64) ∷ []

-- One continuation byte adds six bits.
continue : (v x : ℕ) → x < 64 → bit_or (v * 2 ^ 6) (bit_and (0x80 + x) 0x3f) ≡ v * 64 + x
continue v x h =
    let m : bit_and (0x80 + x) 0x3f ≡ x = omega (arith, low6 (0x80 + x) (omega arith)) in
    rw m (bit_or_join_high 6 v x h)

is_continuation : (x : ℕ) → x < 64 → bit_and (0x80 + x) 0xc0 ≡ 0x80
is_continuation x h = omega (arith, top2 (0x80 + x) (omega arith))

module _ (left i v x : ℕ) (text : List ℕ) (at_i : get_or text i 0 ≡ 0x80 + x) (small : x < 64) where
  utf8_loop-continue : utf8_loop (suc left) i v text ≡ utf8_loop left (i + 1) (v * 64 + x) text
  unfolding utf8_loop
  utf8_loop-continue = simp (at_i, is_continuation x small, continue v x small) refl

utf8_tail-enough :
    (count v : ℕ)
    → (text : List ℕ) → count < length text
    → utf8_tail count v text ≡ utf8_loop count 1 v text
unfolding utf8_tail
utf8_tail-enough count v text h = ground arith

module _ (rest : List ℕ) where
  -- The lead byte chooses the number of continuation bytes; each of those adds six bits.
  lead_two :
      (x : ℕ) → x < 32 → first_utf8_scalar ((0xc0 + x) ∷ rest) ≡ utf8_tail 1 x ((0xc0 + x) ∷ rest)
  unfolding first_utf8_scalar
  lead_two x h =
      let e : bit_and (0xc0 + x) 0xe0 ≡ 0xc0 = omega (arith, top3 (0xc0 + x) (omega arith)) in
      let m : bit_and (0xc0 + x) 0x1f ≡ x = omega (arith, low5 (0xc0 + x) (omega arith)) in
      simp (e, m) (ground arith)

  lead_three :
      (x : ℕ) → x < 16 → first_utf8_scalar ((0xe0 + x) ∷ rest) ≡ utf8_tail 2 x ((0xe0 + x) ∷ rest)
  unfolding first_utf8_scalar
  lead_three x h =
      let n : 0xe0 ≤ bit_and (0xe0 + x) 0xe0 = omega (arith, top3 (0xe0 + x) (omega arith)) in
      let e : bit_and (0xe0 + x) 0xf0 ≡ 0xe0 = omega (arith, top4 (0xe0 + x) (omega arith)) in
      let m : bit_and (0xe0 + x) 0x0f ≡ x = omega (arith, low4 (0xe0 + x) (omega arith)) in
      simp (e, m) (ground arith)

  lead_four :
      (x : ℕ) → x < 8 → first_utf8_scalar ((0xf0 + x) ∷ rest) ≡ utf8_tail 3 x ((0xf0 + x) ∷ rest)
  unfolding first_utf8_scalar
  lead_four x h =
      let n : 0xe0 ≤ bit_and (0xf0 + x) 0xe0 = omega (arith, top3 (0xf0 + x) (omega arith)) in
      let o : 0xf0 ≤ bit_and (0xf0 + x) 0xf0 = omega (arith, top4 (0xf0 + x) (omega arith)) in
      let e : bit_and (0xf0 + x) 0xf8 ≡ 0xf0 = omega (arith, top5 (0xf0 + x) (omega arith)) in
      let m : bit_and (0xf0 + x) 0x07 ≡ x = omega (arith, low3 (0xf0 + x) (omega arith)) in
      simp (e, m) (ground arith)

module _ (rest : List ℕ) where
  one_byte : (x : ℕ) → x < 128 → first_utf8_scalar (x ∷ rest) ≡ x
  unfolding first_utf8_scalar
  one_byte x h = ground arith

  two_bytes :
      (x y : ℕ) → x < 32 → y < 64 → first_utf8_scalar ((0xc0 + x) ∷ (0x80 + y) ∷ rest) ≡ x * 64 + y
  unfolding utf8_loop
  two_bytes x y hx hy =
      lead_two ((0x80 + y) ∷ rest) x hx
      ∙ utf8_tail-enough 1 x _ (omega arith)
      ∙ utf8_loop-continue 0 1 x y ((0xc0 + x) ∷ (0x80 + y) ∷ rest) refl hy

  three_bytes :
      (x y z : ℕ)
      → x < 16
      → y < 64
      → z < 64
      → first_utf8_scalar ((0xe0 + x) ∷ (0x80 + y) ∷ (0x80 + z) ∷ rest) ≡ (x * 64 + y) * 64 + z
  unfolding utf8_loop
  three_bytes x y z hx hy hz =
      let text = (0xe0 + x) ∷ (0x80 + y) ∷ (0x80 + z) ∷ rest in
      lead_three ((0x80 + y) ∷ (0x80 + z) ∷ rest) x hx
      ∙ utf8_tail-enough 2 x text (omega arith)
      ∙ utf8_loop-continue 1 1 x y text refl hy
      ∙ utf8_loop-continue 0 2 (x * 64 + y) z text refl hz

  four_bytes :
      (w x y z : ℕ)
      → w < 8
      → x < 64
      → y < 64
      → z < 64
      → first_utf8_scalar ((0xf0 + w) ∷ (0x80 + x) ∷ (0x80 + y) ∷ (0x80 + z) ∷ rest)
        ≡ ((w * 64 + x) * 64 + y) * 64 + z
  unfolding utf8_loop
  four_bytes w x y z hw hx hy hz =
      let text = (0xf0 + w) ∷ (0x80 + x) ∷ (0x80 + y) ∷ (0x80 + z) ∷ rest in
      lead_four ((0x80 + x) ∷ (0x80 + y) ∷ (0x80 + z) ∷ rest) w hw
      ∙ utf8_tail-enough 3 w text (omega arith)
      ∙ utf8_loop-continue 2 1 w x text refl hx
      ∙ utf8_loop-continue 1 2 (w * 64 + x) y text refl hy
      ∙ utf8_loop-continue 0 3 ((w * 64 + x) * 64 + y) z text refl hz

-- The bits of a code point below 0x110000 are put together, those of a surrogate too.
pub first_utf8_scalar-bits :
    (c : ℕ) → (rest : List ℕ) → c < 0x110000 → first_utf8_scalar (utf8 c ++ rest) ≡ c
first_utf8_scalar-bits c rest h = elim (Bool-cases (ltb c 0x80)) [
  | inl one ↦ simp (one) (one_byte rest c (ltb→lt c 0x80 one))
  | inr n1 ↦ elim (Bool-cases (ltb c 0x800)) [
    | inl two ↦
        simp (n1, two)
          (omega (
            arith,
            ltb→lt c 0x800 two,
            two_bytes rest (c / 64) (c % 64) (omega (arith, ltb→lt c 0x800 two)) (omega arith),
          ))
    | inr n2 ↦ elim (Bool-cases (ltb c 0x10000)) [
      | inl three ↦
          simp (n1, n2, three)
            (three_bytes rest (c / 4096) (c / 64 % 64) (c % 64)
                (omega (arith, ltb→lt c 0x10000 three)) (omega arith) (omega arith)
              ∙ omega arith)
      | inr n3 ↦
          simp (n1, n2, n3)
            (four_bytes rest (c / 262144) (c / 4096 % 64) (c / 64 % 64) (c % 64) (omega arith)
                (omega arith) (omega arith) (omega arith)
              ∙ omega arith)
    ]
  ]
]

-- The Unicode scalars: the code points but the surrogates.
abbrev pub IsScalar : ℕ → Type 0
IsScalar c = (c < 0xd800) ⊎ ((0xe000 ≤ c) × (c < 0x110000))

IsScalar-lt : (c : ℕ) → IsScalar c → c < 0x110000
IsScalar-lt c (inl low) = omega (arith, low)
IsScalar-lt c (inr high) = high.1

-- A text that begins with the UTF-8 bytes of a Unicode scalar, that is a code point below 0x110000
-- that is no surrogate, gives that scalar, whatever follows.
pub first_utf8_scalar-utf8 :
    (c : ℕ) → (rest : List ℕ) → IsScalar c → first_utf8_scalar (utf8 c ++ rest) ≡ c
first_utf8_scalar-utf8 c rest h = first_utf8_scalar-bits c rest (IsScalar-lt c h)

-- A character below 0x80 written in two bytes, which RFC 3629 forbids, is decoded all the same.
pub first_utf8_scalar_overlong :
    (c : ℕ)
    → (rest : List ℕ) → c < 0x80
    → first_utf8_scalar ((0xc0 + c / 64) ∷ (0x80 + c % 64) ∷ rest) ≡ c
first_utf8_scalar_overlong c rest h =
    omega (arith, two_bytes rest (c / 64) (c % 64) (omega arith) (omega arith))
