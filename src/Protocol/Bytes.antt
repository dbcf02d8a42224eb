-- ===== src/Protocol/Bytes.antt =====
-- Little-endian integers: the readers of protocol.cpp, and the bytes that its writer pushes.
-- A pointer into a buffer is the list of the bytes from there on.
use de_be_os_rdp.Prelude.{
  ℕ, zero, suc, ◌+◌, ◌*◌, ◌/◌, ◌^◌, ◌≡◌, refl, List, [], ◌∷◌, ◌++◌, arith, bit_or, bit_or_join,
  get_or, All, IsByte, IsU16, IsU32, u8, u16, u32, u64, length,
}

-- `p[0] | p[1] << 8`
unfoldable pub read_u16_le : List ℕ → ℕ
read_u16_le p = u16 (bit_or (get_or p 0 0) (get_or p 1 0 * 2 ^ 8))

unfoldable pub read_u32_le : List ℕ → ℕ
read_u32_le p = u32 (
    bit_or (bit_or (bit_or (get_or p 0 0) (get_or p 1 0 * 2 ^ 8)) (get_or p 2 0 * 2 ^ 16))
      (get_or p 3 0 * 2 ^ 24))

-- `for (i = 0; i < 8; ++i) value |= p[i] << (i * 8);`, with `left` rounds to go.
unfoldable pub u64_loop : ℕ → ℕ → ℕ → List ℕ → ℕ
u64_loop zero i value p = value
u64_loop (suc left) i value p =
    u64_loop left (i + 1) (bit_or value (u64 (get_or p i 0 * 2 ^ (i * 8)))) p

unfoldable pub read_u64_le : List ℕ → ℕ
unfolding u64_loop
read_u64_le p = u64_loop 8 0 0 p

-- The bytes of a value, lowest first.
unfoldable pub le16 : ℕ → List ℕ
le16 v = u8 v ∷ u8 (v / 2 ^ 8) ∷ []

unfoldable pub le32 : ℕ → List ℕ
le32 v = u8 v ∷ u8 (v / 2 ^ 8) ∷ u8 (v / 2 ^ 16) ∷ u8 (v / 2 ^ 24) ∷ []

pub length-le32 : (v : ℕ) → length (le32 v) ≡ 4
unfolding le32
length-le32 v = refl

pub length-le16 : (v : ℕ) → length (le16 v) ≡ 2
unfolding le16
length-le16 v = refl

pub All-le16 : (v : ℕ) → All IsByte (le16 v)
unfolding le16
All-le16 v = omega arith

pub All-le32 : (v : ℕ) → All IsByte (le32 v)
unfolding le32
All-le32 v = omega arith

-- Both readers in plain arithmetic.
pub read_u16_le-sum :
    (a b : ℕ) (rest : List ℕ) → IsByte a → IsByte b → read_u16_le (a ∷ b ∷ rest) ≡ a + b * 256
unfolding read_u16_le
read_u16_le-sum a b rest ha hb = omega (arith, bit_or_join 8 a b ha)

pub read_u32_le-sum :
    (a b c d : ℕ) (rest : List ℕ)
    → IsByte a
    → IsByte b
    → IsByte c
    → IsByte d
    → read_u32_le (a ∷ b ∷ c ∷ d ∷ rest) ≡ a + b * 256 + c * 65536 + d * 16777216
unfolding read_u32_le
read_u32_le-sum a b c d rest ha hb hc hd =
    let ab = bit_or_join 8 a b ha in
    let abc = bit_or_join 16 (a + b * 2 ^ 8) c (omega arith) in
    let abcd = bit_or_join 24 (a + b * 2 ^ 8 + c * 2 ^ 16) d (omega arith) in
    rw (ab, abc, abcd) (omega arith)

pub read_u16_le-le16 : (v : ℕ) (rest : List ℕ) → IsU16 v → read_u16_le (le16 v ++ rest) ≡ v
unfolding le16
read_u16_le-le16 v rest h =
    omega (arith, read_u16_le-sum (u8 v) (u8 (v / 2 ^ 8)) rest (omega arith) (omega arith))

pub read_u32_le-le32 : (v : ℕ) (rest : List ℕ) → IsU32 v → read_u32_le (le32 v ++ rest) ≡ v
unfolding le32
read_u32_le-le32 v rest h = omega (
  arith,
  read_u32_le-sum (u8 v) (u8 (v / 2 ^ 8)) (u8 (v / 2 ^ 16)) (u8 (v / 2 ^ 24)) rest (omega arith)
      (omega arith) (omega arith) (omega arith),
)

-- Two bytes are the little-endian form of the number that they are read as; so are four.
pub le16-read_u16_le :
    (a b : ℕ) (rest : List ℕ) → IsByte a → IsByte b → le16 (read_u16_le (a ∷ b ∷ rest)) ≡ a ∷ b ∷ []
unfolding le16
le16-read_u16_le a b rest ha hb = ground (arith, read_u16_le-sum a b rest ha hb)

pub le32-read_u32_le :
    (a b c d : ℕ) (rest : List ℕ)
    → IsByte a
    → IsByte b
    → IsByte c
    → IsByte d
    → le32 (read_u32_le (a ∷ b ∷ c ∷ d ∷ rest)) ≡ a ∷ b ∷ c ∷ d ∷ []
unfolding le32
le32-read_u32_le a b c d rest ha hb hc hd = ground (arith, read_u32_le-sum a b c d rest ha hb hc hd)

pub read_u16_le-IsU16 : (p : List ℕ) → IsU16 (read_u16_le p)
unfolding read_u16_le
read_u16_le-IsU16 p = omega arith

pub read_u32_le-IsU32 : (p : List ℕ) → IsU32 (read_u32_le p)
unfolding read_u32_le
read_u32_le-IsU32 p = omega arith
