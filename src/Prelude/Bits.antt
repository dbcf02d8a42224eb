-- ===== src/Prelude/Bits.antt =====
-- Laws of the bit operations at variables, from the digit recursion that they abbreviate.
use Prim.Native.Nat.{ℕ, zero, suc, ◌+◌, ◌*◌, ◌/◌, ◌%◌, ◌^◌, ◌≤◌, ◌<◌, ◌-◌, min, max, digits}
use Prim.Native.Nat.{bit_and, bit_or, bit_xor, bit_and-bitwise, bit_or-bitwise, bit_xor-bitwise}
use Prim.Native.Nat.{bitwise, differ}
use mathlib.Core.Path.{◌≡◌, refl, ap}
use native.Mathlib.Nat.{pow-suc, one-le-pow}
use native.Mathlib.Omega.{arith}
use mathlib.Core.Bool.{Bool, true, ◌&&◌}
use de_be_os_rdp.Prelude.Tests.{◌==◌}

module _ (z : ℕ → ℕ) (f : ℕ → ℕ → ℕ) where
  digits_enough : (n m a b : ℕ) → a ≤ n → a ≤ m → digits z f n a b ≡ digits z f m a b
  digits_enough zero zero a b p q = refl
  digits_enough zero (suc m) zero b p q = refl
  digits_enough zero (suc m) (suc a) b p q = absurd (omega arith)
  digits_enough (suc n) zero zero b p q = refl
  digits_enough (suc n) zero (suc a) b p q = absurd (omega arith)
  digits_enough (suc n) (suc m) zero b p q = refl
  digits_enough (suc n) (suc m) (suc a) b p q =
      rw (digits_enough n m (suc a / 2) (b / 2) (omega arith) (omega arith))

  bitwise_halves :
      (a b : ℕ)
      → bitwise z f (suc a) b ≡ bitwise z f (suc a / 2) (b / 2) * 2 + f (suc a % 2) (b % 2)
  bitwise_halves a b =
      omega (arith, digits_enough a (suc a / 2) (suc a / 2) (b / 2) (omega arith) (omega arith))

-- Each operation on the lowest bit and on the rest.
pub bit_or_halves : (a b : ℕ) → bit_or a b ≡ bit_or (a / 2) (b / 2) * 2 + max (a % 2) (b % 2)
bit_or_halves zero b = simp bit_or-bitwise (omega arith)
bit_or_halves (suc a) b = simp bit_or-bitwise (bitwise_halves (λ y. y) max a b)

pub bit_and_halves : (a b : ℕ) → bit_and a b ≡ bit_and (a / 2) (b / 2) * 2 + min (a % 2) (b % 2)
bit_and_halves zero b = simp bit_and-bitwise (omega arith)
bit_and_halves (suc a) b = simp bit_and-bitwise (bitwise_halves (λ y. 0) min a b)

pub bit_xor_halves : (a b : ℕ) → bit_xor a b ≡ bit_xor (a / 2) (b / 2) * 2 + differ (a % 2) (b % 2)
bit_xor_halves zero b = simp bit_xor-bitwise (omega arith)
bit_xor_halves (suc a) b = simp bit_xor-bitwise (bitwise_halves (λ y. y) differ a b)

-- Over a small range two functions are compared by evaluation.
module _ (f g : ℕ → ℕ) where
  unfoldable pub agree_below : ℕ → Bool
  agree_below zero = true
  agree_below (suc n) = (f n == g n) && agree_below n

  pub eq_of_agree_below : (n : ℕ) → agree_below n ≡ true → (i : ℕ) → i < n → f i ≡ g i
  unfolding agree_below
  eq_of_agree_below zero e i h = absurd (omega arith)
  eq_of_agree_below (suc n) e i h = ground (arith, eq_of_agree_below n (ground arith) i)

-- `b & 0x80`, `b & 0x7f` and `0x80 | b` on one byte.
pub bit_and-top : (b : ℕ) → b < 256 → bit_and b 0x80 ≡ b / 128 * 128
unfolding agree_below
bit_and-top = eq_of_agree_below _ _ 256 refl

pub bit_and-low : (b : ℕ) → b < 256 → bit_and b 0x7f ≡ b % 128
unfolding agree_below
bit_and-low = eq_of_agree_below _ _ 256 refl

pub bit_or-top : (b : ℕ) → b < 128 → bit_or 0x80 b ≡ 128 + b
unfolding agree_below
bit_or-top = eq_of_agree_below _ _ 128 refl

-- The low nibble of a byte.
pub bit_and-nibble : (b : ℕ) → b < 256 → bit_and b 0x0f ≡ b % 16
unfolding agree_below
bit_and-nibble = eq_of_agree_below _ _ 256 refl

mul-pow-suc : (q k : ℕ) → q * 2 ^ suc k ≡ 2 * (q * 2 ^ k)
mul-pow-suc q k = omega (arith, ap (λ (t : ℕ). q * t) (pow-suc 2 k))

pub zero-bit_or : (a : ℕ) → bit_or 0 a ≡ a
zero-bit_or a = bit_or-bitwise 0 a

-- `lo | hi << k` joins two fields that do not overlap.
pub bit_or_join : (k lo hi : ℕ) → lo < 2 ^ k → bit_or lo (hi * 2 ^ k) ≡ lo + hi * 2 ^ k
bit_or_join zero lo hi h = ground (arith, zero-bit_or (hi * 1))
bit_or_join (suc k) lo hi h = ground (
  arith,
  bit_or_halves lo (hi * 2 ^ suc k),
  mul-pow-suc hi k,
  pow-suc 2 k,
  bit_or_join k (lo / 2) hi (omega (arith, pow-suc 2 k)),
)

bit_or-zero_below : (n a : ℕ) → a ≤ n → bit_or a 0 ≡ a
bit_or-zero_below n zero h = refl
bit_or-zero_below zero (suc a) h = absurd (omega arith)
bit_or-zero_below (suc n) (suc a) h =
    omega (arith, bit_or_halves (suc a) 0, bit_or-zero_below n (suc a / 2) (omega arith))

-- The same with the high field on the left, `hi << k | lo`.
pub bit_or_join_high : (k hi lo : ℕ) → lo < 2 ^ k → bit_or (hi * 2 ^ k) lo ≡ hi * 2 ^ k + lo
bit_or_join_high zero hi lo h =
    let e : lo ≡ 0 = omega arith in rw e (omega (arith, bit_or-zero_below (hi * 1) (hi * 1)))
bit_or_join_high (suc k) hi lo h = ground (
  arith,
  bit_or_halves (hi * 2 ^ suc k) lo,
  mul-pow-suc hi k,
  pow-suc 2 k,
  bit_or_join_high k hi (lo / 2) (omega (arith, pow-suc 2 k)),
)

bit_and-zero_below : (n a : ℕ) → a ≤ n → bit_and a 0 ≡ 0
bit_and-zero_below n zero h = refl
bit_and-zero_below zero (suc a) h = absurd (omega arith)
bit_and-zero_below (suc n) (suc a) h =
    omega (arith, bit_and_halves (suc a) 0, bit_and-zero_below n (suc a / 2) (omega arith))

bit_and_fields : (k hi lo : ℕ) → lo < 2 ^ k → bit_and (hi * 2 ^ k + lo) (2 ^ k - 1) ≡ lo
bit_and_fields zero hi lo h = omega (arith, bit_and-zero_below (hi * 1 + lo) (hi * 1 + lo))
bit_and_fields (suc k) hi lo h = ground (
  arith,
  bit_and_halves (hi * 2 ^ suc k + lo) (2 ^ suc k - 1),
  mul-pow-suc hi k,
  pow-suc 2 k,
  one-le-pow k 2,
  bit_and_fields k hi (lo / 2) (omega (arith, pow-suc 2 k)),
)

-- `a & 1`
pub bit_and-one : (hi lo : ℕ) → lo < 2 → bit_and (hi * 2 + lo) 1 ≡ lo
bit_and-one hi lo h = bit_and_fields 1 hi lo h

-- `a & 0xffff`
pub bit_and-u16 : (a : ℕ) → bit_and a 0xffff ≡ a % 65536
bit_and-u16 a =
    let e : a / 65536 * 2 ^ 16 + a % 65536 ≡ a = omega arith in
    rw e at (bit_and_fields 16 (a / 65536) (a % 65536) (omega arith))

-- `a & 0x3f`
pub bit_and-low6 : (a : ℕ) → bit_and a 0x3f ≡ a % 64
bit_and-low6 a =
    let e : a / 64 * 2 ^ 6 + a % 64 ≡ a = omega arith in
    rw e at (bit_and_fields 6 (a / 64) (a % 64) (omega arith))

differ_bits : (x y : ℕ) → x < 2 → y < 2 → differ x y ≡ (x + y) % 2
differ_bits zero y p q = omega arith
differ_bits (suc zero) zero p q = refl
differ_bits (suc zero) (suc zero) p q = refl
differ_bits (suc zero) (suc (suc y)) p q = absurd (omega arith)
differ_bits (suc (suc x)) y p q = absurd (omega arith)

bit_xor_lowest : (a b : ℕ) → bit_xor a b ≡ bit_xor (a / 2) (b / 2) * 2 + (a % 2 + b % 2) % 2
bit_xor_lowest a b =
    omega (arith, bit_xor_halves a b, differ_bits (a % 2) (b % 2) (omega arith) (omega arith))

bit_xor_cancel_below : (n a b : ℕ) → a ≤ n → b ≤ n → bit_xor (bit_xor a b) b ≡ a
bit_xor_cancel_below zero zero zero p q = refl
bit_xor_cancel_below zero zero (suc b) p q = absurd (omega arith)
bit_xor_cancel_below zero (suc a) b p q = absurd (omega arith)
bit_xor_cancel_below (suc n) a b p q =
    let e : bit_xor a b / 2 ≡ bit_xor (a / 2) (b / 2) = omega (arith, bit_xor_lowest a b) in
    let ih = bit_xor_cancel_below n (a / 2) (b / 2) (omega arith) (omega arith) in
    let step = bit_xor_lowest (bit_xor a b) b in
    let step' : bit_xor (bit_xor a b) b ≡ a / 2 * 2 + (bit_xor a b % 2 + b % 2) % 2 =
      rw (← ih) (rw (← e) step) in
    omega (arith, bit_xor_lowest a b, step')

-- Applying a mask twice gives the byte back.
pub bit_xor_cancel : (a b : ℕ) → bit_xor (bit_xor a b) b ≡ a
bit_xor_cancel a b = bit_xor_cancel_below (max a b) a b (omega arith) (omega arith)

pub bit_xor_lt : (k a b : ℕ) → a < 2 ^ k → b < 2 ^ k → bit_xor a b < 2 ^ k
bit_xor_lt zero zero zero p q = omega arith
bit_xor_lt zero zero (suc b) p q = absurd (omega arith)
bit_xor_lt zero (suc a) b p q = absurd (omega arith)
bit_xor_lt (suc k) a b p q = omega (
  arith,
  pow-suc 2 k,
  bit_xor_lowest a b,
  bit_xor_lt k (a / 2) (b / 2) (omega (arith, pow-suc 2 k)) (omega (arith, pow-suc 2 k)),
)
