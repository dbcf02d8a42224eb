-- ===== src/Reconnect/Arguments.antt =====
-- The command-line options of reconnecting. The value of an option is fetched by a callback of the
-- caller, which may fail.
use Prim.Native.String.{String}
use de_be_os_rdp.Prelude.{
  ℕ, ◌≤◌, ◌<◌, ◌^◌, ◌≡◌, refl, List, Bool, true, false, Option, none, some, Result, ok, err, ◌>>=◌,
  ltb, le→ltb, if◌then◌else◌, ℤ, pos, negsuc, arith, to_string, parse_int, parse_int-to_string,
}
use text.Mathlib.Text.{◌==◌ as str_eq}
use de_be_os_rdp.Reconnect.{ReconnectConfig}

pub data ArgumentError : Type 0 where
  invalid : (name : String) (text : List ℕ) → ArgumentError
  -- What the callback throws.
  no_value : ArgumentError

abbrev at_least : ℕ → ℤ → Bool
at_least minimum (pos n) = if ltb n minimum then false else true
at_least minimum (negsuc n) = false

checked : String → ℕ → List ℕ → Option ℤ → Result ArgumentError ℤ
checked name minimum text none = err (invalid name text)
checked name minimum text (some v) = if at_least minimum v then ok v else err (invalid name text)

unfoldable pub parse_positive : List ℕ → String → ℕ → Result ArgumentError ℤ
unfolding checked
parse_positive text name minimum = checked name minimum text (parse_int text)

abbrev pub magnitude : ℤ → ℕ
magnitude (pos n) = n
magnitude (negsuc n) = 0

-- The flag is the return value: whether the argument was one of these.
unfoldable pub parse_reconnect_argument :
    ReconnectConfig
    → String
    → Result ArgumentError (List ℕ)
    → Result ArgumentError (ReconnectConfig × Bool)
parse_reconnect_argument config argument value =
    if str_eq argument "--reconnect"
    then ok (record config { enabled = true }, true)
    else if str_eq argument "--reconnect-max-attempts"
    then (do
      text ← value
      n ← parse_positive text "--reconnect-max-attempts" 0
      ok (record config { max_attempts = n }, true))
    else if str_eq argument "--reconnect-backoff-ms"
    then (do
      text ← value
      n ← parse_positive text "--reconnect-backoff-ms" 1
      ok (record config { base_backoff = magnitude n }, true))
    else ok (config, false)

parse_positive-to_string :
    (name : String) (minimum n : ℕ)
    → minimum ≤ n
    → n < 2 ^ 31
    → parse_positive (to_string n) name minimum ≡ ok (pos n)
unfolding parse_positive
parse_positive-to_string name minimum n lo hi = rw (parse_int-to_string n hi, le→ltb n minimum lo)

-- A backoff that is written in decimal, from 1 to the largest int, becomes the base backoff, and
-- nothing else of the configuration changes.
pub backoff_argument :
    (c : ReconnectConfig) (n : ℕ)
    → 1 ≤ n
    → n < 2 ^ 31
    → parse_reconnect_argument c "--reconnect-backoff-ms" (ok (to_string n))
      ≡ ok (record c { base_backoff = n }, true)
unfolding parse_reconnect_argument
backoff_argument c n lo hi = rw (parse_positive-to_string "--reconnect-backoff-ms" 1 n lo hi)

checked-magnitude :
    (name : String) (text : List ℕ) (o : Option ℤ) {z : ℤ}
    → checked name 1 text o ≡ ok z
    → 1 ≤ magnitude z
unfolding checked
checked-magnitude name text none e = cc
checked-magnitude name text (some (pos n)) e = ground arith
checked-magnitude name text (some (negsuc n)) e = cc

with_backoff : ReconnectConfig → ℤ → Result ArgumentError (ReconnectConfig × Bool)
with_backoff c z = ok (record c { base_backoff = magnitude z }, true)

checked-backoff :
    (c c' : ReconnectConfig) (r : Result ArgumentError ℤ)
    → ((z : ℤ) → r ≡ ok z → 1 ≤ magnitude z)
    → (r >>= with_backoff c) ≡ ok (c', true)
    → 1 ≤ c'.base_backoff
unfolding with_backoff
checked-backoff c c' (ok z) h e = let low = h z refl in ground arith
checked-backoff c c' (err x) h e = cc

-- Whatever the text, a backoff that the option sets is at least one millisecond.
pub backoff_positive :
    (c c' : ReconnectConfig) (text : List ℕ)
    → parse_reconnect_argument c "--reconnect-backoff-ms" (ok text) ≡ ok (c', true)
    → 1 ≤ c'.base_backoff
unfolding parse_reconnect_argument parse_positive with_backoff
backoff_positive c c' text e =
    checked-backoff c c' (parse_positive text "--reconnect-backoff-ms" 1)
      (λ z h. checked-magnitude "--reconnect-backoff-ms" text (parse_int text) h) e
