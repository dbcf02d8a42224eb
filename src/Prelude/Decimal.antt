-- ===== src/Prelude/Decimal.antt =====
-- Decimal numbers: `std::to_string` and `std::from_chars` over a whole text, and that the second
-- reads back what the first writes.
use Prim.Native.Nat.{ℕ, zero, suc, ◌+◌, ◌-◌, ◌*◌, ◌/◌, ◌%◌, ◌^◌, ◌≤◌, ◌<◌}
use mathlib.Core.List.{List, [], ◌∷◌}
use mathlib.Core.Path.{◌≡◌, refl, ap, ◌∙◌}
use mathlib.Core.Bool.{Bool, ◌&&◌}
use mathlib.Core.Option.{Option, none, some}
use native.Mathlib.Omega.{arith}
use de_be_os_rdp.Prelude.Tests.{ltb, leb, if◌then◌else◌, ◌==◌, Bool-cases}
use de_be_os_rdp.Prelude.Words.{ℤ, pos, negsuc}
use mathlib.Core.Logic.{inl, inr}

-- `out` holds the digits below those of `n`.
unfoldable pub decimal : ℕ → ℕ → List ℕ → List ℕ
decimal zero n out = out
decimal (suc fuel) n out =
    let out' = (b'0' + n % 10) ∷ out in
    let rest = decimal fuel (n / 10) out' in if ltb n 10 then out' else rest

-- A number has fewer decimal digits than it counts, and one more.
unfoldable pub to_string : ℕ → List ℕ
unfolding decimal
to_string n = decimal (suc n) n []

abbrev pub is_digit : ℕ → Bool
is_digit c = leb b'0' c && leb c b'9'

-- The value of a run of digits behind those of `acc`; any other byte refuses the text.
unfoldable pub digits_value : ℕ → List ℕ → Option ℕ
digits_value acc [] = some acc
digits_value acc (c ∷ cs) =
    let more = digits_value (acc * 10 + (c - b'0')) cs in if is_digit c then more else none

abbrev pub in_range : ℕ → Option ℕ → Option ℕ
in_range limit none = none
in_range limit (some n) = if ltb n limit then some n else none

-- `from_chars` into an unsigned type that ends below `limit`, over the whole text.
unfoldable pub parse_unsigned : ℕ → List ℕ → Option ℕ
unfolding digits_value
parse_unsigned limit [] = none
parse_unsigned limit (c ∷ cs) = in_range limit (digits_value 0 (c ∷ cs))

abbrev pub negated : Option ℕ → Option ℤ
negated none = none
negated (some zero) = some (pos zero)
negated (some (suc n)) = some (negsuc n)

abbrev pub as_pos : Option ℕ → Option ℤ
as_pos none = none
as_pos (some n) = some (pos n)

-- `from_chars` into an `int`, over the whole text.
unfoldable pub parse_int : List ℕ → Option ℤ
unfolding parse_unsigned
parse_int [] = none
parse_int (c ∷ cs) =
    if c == b'-'
    then negated (parse_unsigned (2 ^ 31 + 1) cs)
    else as_pos (parse_unsigned (2 ^ 31) (c ∷ cs))

digits_value-decimal :
    (fuel n : ℕ) (out : List ℕ)
    → n < fuel
    → digits_value 0 (decimal fuel n out) ≡ digits_value n out
unfolding decimal
digits_value-decimal zero n out h = absurd (omega arith)
digits_value-decimal (suc fuel) n out h = elim (Bool-cases (ltb n 10)) [
  | inl small ↦ rw small (unfold digits_value in ground arith)
  | inr large ↦ rw large (
      digits_value-decimal fuel (n / 10) ((b'0' + n % 10) ∷ out) (ground arith)
      ∙ unfold digits_value in ground arith)
]

-- A number that is written is read back.
pub digits_value-to_string : (n : ℕ) → digits_value 0 (to_string n) ≡ some n
unfolding to_string
digits_value-to_string n =
    digits_value-decimal (suc n) n [] (omega arith) ∙ (unfold digits_value in refl)

-- What is written starts with a digit.
decimal_head :
    (fuel n : ℕ) (out : List ℕ)
    → n < fuel
    → (c : ℕ) × (cs : List ℕ) × (decimal fuel n out ≡ c ∷ cs) × (b'0' ≤ c) × (c ≤ b'9')
unfolding decimal
decimal_head zero n out h = absurd (omega arith)
decimal_head (suc fuel) n out h = elim (Bool-cases (ltb n 10)) [
  | inl small ↦ (b'0' + n % 10, out, rw small refl, omega arith, omega arith)
  | inr large ↦
      let (c, cs, e, lo, hi) = decimal_head fuel (n / 10) ((b'0' + n % 10) ∷ out) (ground arith) in
      (c, cs, rw large e, lo, hi)
]

pub to_string_head :
    (n : ℕ) → (c : ℕ) × (cs : List ℕ) × (to_string n ≡ c ∷ cs) × (b'0' ≤ c) × (c ≤ b'9')
unfolding to_string
to_string_head n = decimal_head (suc n) n [] (omega arith)

pub parse_unsigned-to_string :
    (limit n : ℕ) → n < limit → parse_unsigned limit (to_string n) ≡ some n
unfolding parse_unsigned
parse_unsigned-to_string limit n h =
    let (c, cs, e, lo, hi) = to_string_head n in
    let value : digits_value 0 (c ∷ cs) ≡ some n = rw e at (digits_value-to_string n) in
    rw e (ap (in_range limit) value ∙ ground arith)

pub parse_int-to_string : (n : ℕ) → n < 2 ^ 31 → parse_int (to_string n) ≡ some (pos n)
unfolding parse_int
parse_int-to_string n h =
    let (c, cs, e, lo, hi) = to_string_head n in
    let value : parse_unsigned (2 ^ 31) (c ∷ cs) ≡ some n =
      rw e at (parse_unsigned-to_string (2 ^ 31) n h) in
    rw e (ground (arith, value))
