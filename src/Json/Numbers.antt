-- ===== src/Json/Numbers.antt =====
-- json.cpp: the numbers of a document. What `double` and the C library are relied on for, and that
-- `parse_number` reads back what `append_number` writes.
use de_be_os_rdp.Prelude.{
  ℕ, Bool, ◌⊎◌, zero, suc, ◌+◌, ◌/◌, ◌%◌, ◌<◌, ◌≡◌, refl, ap, List, [], ◌∷◌, ◌++◌, true, false,
  ◌&&◌, Bool-cases, inl, inr, some, ok, arith, All, length, decimal, to_string, pos, negsuc, ℤ, ltb,
  ◌==◌,
}
use de_be_os_rdp.Json.{Doubles, number, append_number, print_lld}
use de_be_os_rdp.Json.Parser.{
  is_number_char, number_prefix, number_suffix, number_token, token_value, parse_number, start_of,
  number_start, is_whitespace,
}

abbrev pub IsNumberChar : ℕ → Type 0
IsNumberChar c = is_number_char c ≡ true

-- A text that `parse_number` takes as one token.
abbrev pub IsNumeral : List ℕ → Type 0
IsNumeral text = (0 < length text) × All IsNumberChar text

-- The text ends, or goes on with a character that no number has.
abbrev pub Stops : List ℕ → Type 0
Stops [] = Unit
Stops (c ∷ rest) = is_number_char c ≡ false

-- The numbers that survive: the positive zero and the normal ones, by `std::isnormal`, which are
-- neither zero nor subnormal, infinite or NaN. The negative zero is printed as 0 by "%lld", and
-- `std::stod` throws `out_of_range` on a subnormal number.
abbrev pub IsKept : {N : Type 0} → Doubles N → (N → Bool) → N → Type 0
IsKept doubles is_normal n = (is_normal n ≡ true) ⊎ (n ≡ doubles.zero_double)

-- For such numbers, in the "C" locale, the text of "%.17g", and that of "%lld" for an integral value
-- below 1e15, determine the number, and `std::stod` reads it back from all of the text.
pub record DoubleLaws {N : Type 0} (doubles : Doubles N) : Type 0 where
  pub is_normal : N → Bool
  pub kept-is_finite : (n : N) → IsKept doubles is_normal n → doubles.is_finite n ≡ true
  pub print_17g-IsNumeral : (n : N) → IsKept doubles is_normal n → IsNumeral (doubles.print_17g n)
  pub stod-print_17g :
      (n : N)
      → IsKept doubles is_normal n
      → doubles.stod (doubles.print_17g n) ≡ some (n, length (doubles.print_17g n))
  pub stod-print_lld :
      (n : N)
      → IsKept doubles is_normal n
      → doubles.is_floor n && doubles.below_1e15 n ≡ true
      → doubles.stod (print_lld (doubles.long_long n))
        ≡ some (n, length (print_lld (doubles.long_long n)))

decimal-IsNumberChar :
    (fuel n : ℕ) (out : List ℕ) → All IsNumberChar out → All IsNumberChar (decimal fuel n out)
unfolding decimal
decimal-IsNumberChar zero n out h = h
decimal-IsNumberChar (suc fuel) n out h =
    let digit : IsNumberChar (b'0' + n % 10) = ground arith in
    elim (Bool-cases (ltb n 10)) [
      | inl last ↦ rw last (digit, h)
      | inr go ↦ rw go (decimal-IsNumberChar fuel (n / 10) ((b'0' + n % 10) ∷ out) (digit, h))
    ]

length-decimal : (fuel n : ℕ) (out : List ℕ) → length out < length (decimal (suc fuel) n out)
unfolding decimal
length-decimal zero n out = elim (Bool-cases (ltb n 10)) [
  | inl last ↦ rw last (omega arith)
  | inr go ↦ rw go (omega arith)
]
length-decimal (suc fuel) n out = elim (Bool-cases (ltb n 10)) [
  | inl last ↦ rw last (omega arith)
  | inr go ↦ rw go (omega (arith, length-decimal fuel (n / 10) ((b'0' + n % 10) ∷ out)))
]

to_string-IsNumeral : (n : ℕ) → IsNumeral (to_string n)
unfolding to_string
to_string-IsNumeral n = (length-decimal n n [], decimal-IsNumberChar (suc n) n [] tt)

pub print_lld-IsNumeral : (z : ℤ) → IsNumeral (print_lld z)
unfolding print_lld
print_lld-IsNumeral (pos n) = to_string-IsNumeral n
print_lld-IsNumeral (negsuc n) = (omega arith, (refl, (to_string-IsNumeral (suc n)).1))

number_prefix-append :
    (text rest : List ℕ) → All IsNumberChar text → Stops rest → number_prefix (text ++ rest) ≡ text
unfolding number_prefix
number_prefix-append [] [] h s = refl
number_prefix-append [] (c ∷ rest) h s = rw s refl
number_prefix-append (c ∷ text) rest (e, h) s =
    rw e (ap (◌∷◌ c) (number_prefix-append text rest h s))

number_suffix-append :
    (text rest : List ℕ) → All IsNumberChar text → Stops rest → number_suffix (text ++ rest) ≡ rest
unfolding number_suffix
number_suffix-append [] [] h s = refl
number_suffix-append [] (c ∷ rest) h s = rw s refl
number_suffix-append (c ∷ text) rest (e, h) s = rw e (number_suffix-append text rest h s)

-- The token of a numeral is all of it.
number_token-append :
    (text rest : List ℕ) → IsNumeral text → Stops rest → number_token (text ++ rest) ≡ (text, rest)
unfolding number_token
number_token-append [] rest (len, h) s = absurd (omega arith)
number_token-append (c ∷ text) rest (len, (e, h)) s = elim (Bool-cases (c == b'-')) [
  | inl minus ↦
      rw (minus, number_prefix-append text rest h s, number_suffix-append text rest h s) refl
  | inr digit ↦
      rw (e, digit, number_prefix-append text rest h s, number_suffix-append text rest h s) refl
]

pub start_of-number : (c : ℕ) → IsNumberChar c → start_of c ≡ number_start
start_of-number c h = ground arith

pub is_whitespace-number : (c : ℕ) → IsNumberChar c → is_whitespace c ≡ false
is_whitespace-number c h = ground arith

module _ {N : Type 0} (doubles : Doubles N) (laws : DoubleLaws doubles) where
  pub append_number-IsNumeral :
      (n : N) → IsKept doubles laws.is_normal n → IsNumeral (append_number doubles n)
  unfolding append_number
  append_number-IsNumeral n k =
      let finite = laws.kept-is_finite n k in
      elim (Bool-cases (doubles.is_floor n && doubles.below_1e15 n)) [
        | inl integral ↦ rw (finite, integral) (print_lld-IsNumeral (doubles.long_long n))
        | inr other ↦ rw (finite, other) (laws.print_17g-IsNumeral n k)
      ]

  stod-append_number :
      (n : N)
      → IsKept doubles laws.is_normal n
      → doubles.stod (append_number doubles n) ≡ some (n, length (append_number doubles n))
  unfolding append_number
  stod-append_number n k =
      let finite = laws.kept-is_finite n k in
      elim (Bool-cases (doubles.is_floor n && doubles.below_1e15 n)) [
        | inl integral ↦ rw (finite, integral) (laws.stod-print_lld n k integral)
        | inr other ↦ rw (finite, other) (laws.stod-print_17g n k)
      ]

  parse_number_token :
      (n : N) (token text rest : List ℕ)
      → 0 < length token
      → number_token text ≡ (token, rest)
      → doubles.stod token ≡ some (n, length token)
      → parse_number doubles text ≡ ok (number n, rest)
  unfolding parse_number token_value
  parse_number_token n [] text rest len e value = absurd (omega arith)
  parse_number_token n (c ∷ token) text rest len e value =
      let all : length (c ∷ token) == length (c ∷ token) ≡ true = ground arith in
      rw (e, parse_number, token_value, value, all) refl

  -- A number is read back, and the text behind it is left.
  pub parse_number-append_number :
      (n : N) (rest : List ℕ)
      → IsKept doubles laws.is_normal n
      → Stops rest
      → parse_number doubles (append_number doubles n ++ rest) ≡ ok (number n, rest)
  parse_number-append_number n rest k s =
      let numeral = append_number-IsNumeral n k in
      parse_number_token n (append_number doubles n) (append_number doubles n ++ rest) rest
        numeral.0 (number_token-append (append_number doubles n) rest numeral s)
        (stod-append_number n k)
