-- ===== src/Reconnect/Backoff.antt =====
-- The backoff in closed form.
use native.Mathlib.Nat.{pow-suc}
use de_be_os_rdp.Prelude.{ℕ, zero, suc, ◌*◌, ◌^◌, ◌≤◌, ◌≡◌, ap, arith, min, pos}
use de_be_os_rdp.Reconnect.{ReconnectConfig, backoff_loop, backoff_for}

doubled : (d n : ℕ) → d * 2 ^ suc n ≡ d * 2 * 2 ^ n
doubled d n = omega (arith, ap (λ (t : ℕ). d * t) (pow-suc 2 n))

grown : (d n : ℕ) → d ≤ d * 2 ^ n
grown d zero = omega arith
grown d (suc n) = omega (arith, doubled d n, grown (d * 2) n)

backoff_loop-min : (n d m : ℕ) → backoff_loop n d m ≡ min (d * 2 ^ n) m
unfolding backoff_loop
backoff_loop-min zero d m = omega arith
backoff_loop-min (suc n) d m =
    ground (arith, backoff_loop-min n (d * 2) m, doubled d n, grown d (suc n))

-- The delay before attempt n is the base doubled n times, cut at the maximum.
pub backoff_for-min :
    (c : ReconnectConfig) (n : ℕ)
    → backoff_for c (pos n) ≡ min (c.base_backoff * 2 ^ n) c.max_backoff
unfolding backoff_for
backoff_for-min c n = backoff_loop-min n c.base_backoff c.max_backoff
