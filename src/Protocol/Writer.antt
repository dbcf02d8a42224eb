-- ===== src/Protocol/Writer.antt =====
-- class Writer of protocol.cpp: a message grows at the end of `bytes_`, and `finish` puts its size
-- into the header. A float is its 32-bit pattern, which is what `bit_cast` makes of it.
use de_be_os_rdp.Prelude.{
  ℕ, zero, suc, ◌+◌, ◌*◌, ◌/◌, ◌^◌, ◌≡◌, refl, List, [], ◌∷◌, ◌++◌, arith, Bool, if◌then◌else◌, u8,
  u32, length, set, ℤ, pattern32, append_assoc,
}
use native.Mathlib.Nat.{div-one}
use de_be_os_rdp.Protocol.Bytes.{le16, le32}

pub record Writer : Type 0 where
  pub bytes : List ℕ

abbrev pub push_back : Writer → ℕ → Writer
push_back w b = record { bytes = w.bytes ++ b ∷ [] }

unfoldable pub write_u8 : Writer → ℕ → Writer
write_u8 w value = push_back w value

unfoldable pub write_boolean : Writer → Bool → Writer
unfolding write_u8
write_boolean w value = write_u8 w (if value then 1 else 0)

unfoldable pub write_u16 : Writer → ℕ → Writer
write_u16 w value = push_back (push_back w (u8 value)) (u8 (value / 2 ^ 8))

-- `for (i = 0; i < 4; ++i)`, with `left` rounds to go.
unfoldable pub write_u32_loop : ℕ → ℕ → Writer → ℕ → Writer
write_u32_loop zero i w value = w
write_u32_loop (suc left) i w value =
    write_u32_loop left (i + 1) (push_back w (u8 (value / 2 ^ (i * 8)))) value

unfoldable pub write_u32 : Writer → ℕ → Writer
unfolding write_u32_loop
write_u32 w value = write_u32_loop 4 0 w value

unfoldable pub write_i32 : Writer → ℤ → Writer
unfolding write_u32 pattern32
write_i32 w value = write_u32 w (pattern32 value)

unfoldable pub write_f32 : Writer → ℕ → Writer
unfolding write_u32
write_f32 w value = write_u32 w value

unfoldable pub write_point : Writer → ℕ → ℕ → Writer
unfolding write_f32
write_point w x y = write_f32 (write_f32 w x) y

unfoldable pub write_raw : Writer → List ℕ → Writer
write_raw w value = record { bytes = w.bytes ++ value }

unfoldable pub write_string : Writer → List ℕ → Writer
unfolding write_u32 write_raw
write_string w value = write_raw (write_u32 w (u32 (length value))) value

-- `Writer(op)`: the opcode, and room for the size.
unfoldable pub start : ℕ → Writer
unfolding write_u16 write_u32
start op = write_u32 (write_u16 (record { bytes = [] }) op) 0

-- `for (i = 0; i < 4; ++i) bytes_[2 + i] = size >> (i * 8);`
unfoldable pub patch_loop : ℕ → ℕ → List ℕ → ℕ → List ℕ
patch_loop zero i bytes size = bytes
patch_loop (suc left) i bytes size =
    patch_loop left (i + 1) (set bytes (2 + i) (u8 (size / 2 ^ (i * 8)))) size

unfoldable pub finish : Writer → List ℕ
unfolding patch_loop
finish w = patch_loop 4 0 w.bytes (u32 (length w.bytes))

-- What each operation appends.
module _ (w : Writer) where
  pub write_u16-bytes : (v : ℕ) → (write_u16 w v).bytes ≡ w.bytes ++ le16 v
  unfolding write_u16 le16
  write_u16-bytes v = append_assoc w.bytes _ _

  pub write_u32-bytes : (v : ℕ) → (write_u32 w v).bytes ≡ w.bytes ++ le32 v
  unfolding write_u32 le32
  write_u32-bytes v = simp (append_assoc, div-one)

  pub write_i32-bytes : (z : ℤ) → (write_i32 w z).bytes ≡ w.bytes ++ le32 (pattern32 z)
  unfolding write_i32
  write_i32-bytes z = write_u32-bytes (pattern32 z)

  pub write_f32-bytes : (v : ℕ) → (write_f32 w v).bytes ≡ w.bytes ++ le32 v
  unfolding write_f32
  write_f32-bytes v = write_u32-bytes v

  pub write_string-bytes :
      (s : List ℕ) → (write_string w s).bytes ≡ w.bytes ++ (le32 (u32 (length s)) ++ s)
  unfolding write_string
  write_string-bytes s =
      rw (write_u32-bytes (u32 (length s))) (append_assoc w.bytes (le32 (u32 (length s))) s)

-- A finished message: opcode, total size, payload.
abbrev pub frame : ℕ → List ℕ → List ℕ
frame op payload = le16 op ++ (le32 (u32 (length payload + 6)) ++ payload)

pub start-bytes : (op : ℕ) → (start op).bytes ≡ le16 op ++ le32 0
unfolding start le16 le32
start-bytes op = refl

-- `finish` turns the opcode, the room for the size and the payload into a frame.
pub finish-frame :
    (w : Writer) (op : ℕ) (payload : List ℕ)
    → w.bytes ≡ (le16 op ++ le32 0) ++ payload
    → finish w ≡ frame op payload
unfolding finish le16 le32
finish-frame w op payload e =
    let n : length w.bytes ≡ length payload + 6 = rw e (omega arith) in rw (n, e) (simp div-one)
