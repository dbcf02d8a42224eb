-- ===== src/WireDecoder/Varint.antt =====
-- The header's varint: what the loop reads back from seven-bit groups, lowest first.
use native.Mathlib.Nat.{pow-suc, mul_assoc, add-mul, mul-le-mul_right}
use de_be_os_rdp.Prelude.{
  ℕ, zero, suc, ◌+◌, ◌*◌, ◌/◌, ◌%◌, ◌^◌, ◌≤◌, ◌<◌, ◌≡◌, refl, ◌∙◌, List, [], ◌∷◌, ◌++◌,
  if◌then◌else◌, Bool-cases, inl, inr, ltb, ltb→lt, le→ltb, lt→ltb, ltb→le, some, arith, bit_and,
  bit_or_join, bit_and-top, bit_and-low, length,
}
use de_be_os_rdp.WireDecoder.{varint_loop}

-- `n` in at most `left` groups of seven bits, each but the last with its top bit set.
unfoldable pub varint : ℕ → ℕ → List ℕ
varint zero n = []
varint (suc left) n =
    let rest = varint left (n / 128) in if ltb n 128 then n ∷ [] else (0x80 + n % 128) ∷ rest

pow_groups : (i : ℕ) → 2 ^ (7 * (i + 1)) ≡ 128 * 2 ^ (7 * i)
pow_groups i =
    let e : 7 * (i + 1) ≡ suc (suc (suc (suc (suc (suc (suc (7 * i))))))) = omega arith in
    rw e (
      omega (
        arith,
        pow-suc 2 (7 * i),
        pow-suc 2 (suc (7 * i)),
        pow-suc 2 (suc (suc (7 * i))),
        pow-suc 2 (suc (suc (suc (7 * i)))),
        pow-suc 2 (suc (suc (suc (suc (7 * i))))),
        pow-suc 2 (suc (suc (suc (suc (suc (7 * i)))))),
        pow-suc 2 (suc (suc (suc (suc (suc (suc (7 * i))))))),
      ))

split_group : (n p : ℕ) → n % 128 * p + n / 128 * (128 * p) ≡ n * p
split_group n p =
    let e : n % 128 + n / 128 * 128 ≡ n = omega arith in
    rw (← mul_assoc (n / 128) 128 p, ← add-mul (n % 128) (n / 128 * 128) p, e) refl

varint_last : (left n : ℕ) → n < 128 → varint (suc left) n ≡ n ∷ []
unfolding varint
varint_last left n h = rw (lt→ltb n 128 h) refl

varint_more :
    (left n : ℕ) → 128 ≤ n → varint (suc left) n ≡ (0x80 + n % 128) ∷ varint left (n / 128)
unfolding varint
varint_more left n h = rw (le→ltb n 128 h) refl

module _ (left i value x : ℕ) (bytes : List ℕ) (small : x < 128) (fits : value < 2 ^ (7 * i)) where
  loop_last : varint_loop (suc left) i value (x ∷ bytes) ≡ some (value + x * 2 ^ (7 * i), i + 1)
  unfolding varint_loop
  loop_last =
      let low : bit_and x 0x7f ≡ x = omega (arith, bit_and-low x (omega arith)) in
      let top : bit_and x 0x80 ≡ 0 = omega (arith, bit_and-top x (omega arith)) in
      rw (top, low, bit_or_join (7 * i) value x fits) refl

  loop_more :
      varint_loop (suc left) i value ((0x80 + x) ∷ bytes)
      ≡ varint_loop left (i + 1) (value + x * 2 ^ (7 * i)) bytes
  unfolding varint_loop
  loop_more =
      let low : bit_and (0x80 + x) 0x7f ≡ x = omega (arith, bit_and-low (0x80 + x) (omega arith)) in
      let top : bit_and (0x80 + x) 0x80 ≡ 0x80 =
        omega (arith, bit_and-top (0x80 + x) (omega arith)) in
      rw (top, low, bit_or_join (7 * i) value x fits) refl

  still_fits : value + x * 2 ^ (7 * i) < 2 ^ (7 * (i + 1))
  still_fits =
      let le : x ≤ 127 = omega arith in
      rw (pow_groups i) (omega (arith, mul-le-mul_right (2 ^ (7 * i)) le))

-- The groups of a number that fits in them are read back: the number, added above what the groups
-- before had given, and the count of bytes.
pub varint_loop-varint :
    (left i value n : ℕ) (tail : List ℕ)
    → n < 2 ^ (7 * suc left)
    → value < 2 ^ (7 * i)
    → varint_loop (suc left) i value (varint (suc left) n ++ tail)
      ≡ some (value + n * 2 ^ (7 * i), i + length (varint (suc left) n))
varint_loop-varint zero i value n tail h v = rw (varint_last 0 n h) (loop_last 0 i value n tail h v)
varint_loop-varint (suc left) i value n tail h v = elim (Bool-cases (ltb n 128)) [
  | inl last ↦
      rw (varint_last (suc left) n (ltb→lt n 128 last))
        (loop_last (suc left) i value n tail (ltb→lt n 128 last) v)
  | inr more ↦
      let x = n % 128 in
      let p = 2 ^ (7 * i) in
      let groups = varint (suc left) (n / 128) in
      let e : 7 * suc (suc left) ≡ 7 * (suc left + 1) = omega arith in
      let rest : n / 128 < 2 ^ (7 * suc left) = omega (arith, pow_groups (suc left), rw e at h) in
      let sum : value + x * p + n / 128 * 2 ^ (7 * (i + 1)) ≡ value + n * p =
        rw (pow_groups i) (omega (arith, split_group n p)) in
      let size : i + 1 + length groups ≡ i + suc (length groups) = omega arith in
      rw (varint_more (suc left) n (ltb→le n 128 more)) (
        loop_more (suc left) i value x (groups ++ tail) (omega arith) v
        ∙ varint_loop-varint left (i + 1) (value + x * p) (n / 128) tail rest
            (still_fits (suc left) i value x (groups ++ tail) (omega arith) v)
        ∙ rw (sum, size) refl)
]
