-- ===== src/Protocol/Reader.antt =====
-- class Reader of protocol.cpp: typed reads at an offset into a message's payload. A `float` or a
-- `double` is its bit pattern, and a `string` is the list of its bytes.
pub mod Records
pub mod Gradient
pub mod Bounds
pub mod Layout
pub mod RoundTrip
use de_be_os_rdp.Prelude.{
  ℕ, zero, suc, ◌+◌, ◌-◌, ◌*◌, ◌/◌, ◌%◌, ◌^◌, List, [], ◌∷◌, ◌++◌, Bool, true, false, not, ◌||◌,
  Option, none, some, Result, ok, err, ltb, leb, ◌==◌, if◌then◌else◌, length, get_or, drop, take, ℤ,
  pos, negsuc, signed32, bit_and,
}
use de_be_os_rdp.Protocol.Bytes.{read_u16_le, read_u32_le, read_u64_le}

pub record Reader : Type 0 where
  pub bytes : List ℕ
  pub offset : ℕ

-- The texts of the ProtocolErrors that a reader throws.
pub data ReadError : Type 0 where
  truncated bad_stop_count bad_rect_count : ReadError

abbrev pub R : Type 0 → Type 0
R A = Reader → Result ReadError (A × Reader)

infixl 5 ◌>>=◌ ◌>>◌
abbrev pub ◌>>=◌ : {A B : Type 0} → R A → (A → R B) → R B
◌>>=◌ m f r = elim (m r) [ ok (a, r') ↦ f a r' | err e ↦ err e ]

abbrev pub ◌>>◌ : {B : Type 0} → R (Unit {0}) → R B → R B
m >> k = m >>= λ _. k

abbrev pub return : {A : Type 0} → A → R A
return a r = ok (a, r)

abbrev pub throw : {A : Type 0} → ReadError → R A
throw e r = err e

abbrev pub advance : Reader → ℕ → Reader
advance r n = record r { offset = r.offset + n }

unfoldable pub remaining : Reader → ℕ
remaining r = length r.bytes - r.offset

unfoldable pub require : ℕ → R (Unit {0})
unfolding remaining
require count r = if ltb (remaining r) count then err truncated else ok (tt, r)

-- The bytes from the offset on.
abbrev pub here : Reader → List ℕ
here r = drop r.offset r.bytes

-- What a fixed-width read does after `require`: a value from the bytes, and the offset moves.
abbrev pub fetch : ℕ → (List ℕ → ℕ) → R ℕ
fetch n read r = ok (read (here r), advance r n)

unfoldable pub read_u8 : R ℕ
unfolding require
read_u8 = do require 1; fetch 1 (λ p. get_or p 0 0)

unfoldable pub read_boolean : R Bool
read_boolean = do v ← read_u8; return (not (v == 0))

unfoldable pub read_u16 : R ℕ
unfolding require
read_u16 = do require 2; fetch 2 read_u16_le

unfoldable pub read_u32 : R ℕ
unfolding require
read_u32 = do require 4; fetch 4 read_u32_le

unfoldable pub read_i32 : R ℤ
read_i32 = do v ← read_u32; return (signed32 v)

unfoldable pub read_f32 : R ℕ
read_f32 = read_u32

unfoldable pub read_f64 : R ℕ
unfolding require
read_f64 = do require 8; fetch 8 read_u64_le

unfoldable pub read_raw : ℕ → R (List ℕ)
unfolding require
read_raw count = do require count; λ r. ok (take count (here r), advance r count)

unfoldable pub read_string : R (List ℕ)
read_string = do count ← read_u32; read_raw count

-- `for (i = 0; i < count; ++i) result.push_back(read());`
unfoldable pub read_times : {A : Type 0} → ℕ → R A → R (List A)
read_times zero read = return []
read_times (suc n) read = do a ← read; rest ← read_times n read; return (a ∷ rest)

-- `if (count < 0 || count > limit) throw`, then the loop.
unfoldable pub read_counted : {A : Type 0} → ℤ → ℕ → ReadError → R A → R (List A)
read_counted (negsuc n) limit e read = throw e
read_counted (pos n) limit e read =
    let all = read_times n read in if ltb limit n then throw e else all
