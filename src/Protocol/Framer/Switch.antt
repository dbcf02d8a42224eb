-- ===== src/Protocol/Framer/Switch.antt =====
-- The switch to compressed segments against plain frames: the claims that the comment above
-- segment_start makes for its safety.
use de_be_os_rdp.Prelude.{
  ℕ, zero, suc, ◌+◌, ◌*◌, ◌/◌, ◌%◌, ◌^◌, ◌≤◌, ◌<◌, ◌≡◌, refl, List, [], ◌∷◌, ◌⊎◌, inl, inr, arith,
  length, drop, get_or, get_or-drop, zero-bit_or, All, IsByte, bit_and, bit_or, bit_and-low,
  bit_and-top,
}
use de_be_os_rdp.Protocol.Bytes.{read_u16_le, read_u32_le, read_u16_le-sum, read_u32_le-sum}
use de_be_os_rdp.Protocol.Framer.Segment.{
  SegmentStart, no, yes, need_more, magic, match_magic, segment_loop, segment_start,
}
use de_be_os_rdp.Protocol.Framer.{max_message_size, message_header_size}

record IsMagic (i : ℕ) (p : List ℕ) : Type 0 where
  first : get_or p i 0 ≡ 0x28
  second : get_or p (i + 1) 0 ≡ 0xb5
  third : get_or p (i + 2) 0 ≡ 0x2f

match_magic-yes :
    (i : ℕ) (p : List ℕ) → match_magic magic i p ≡ yes → IsMagic i p × (get_or p (i + 3) 0 ≡ 0xfd)
unfolding match_magic
match_magic-yes i p h = ground (arith, at2, at3)
  where
    at2 : get_or p (i + 1 + 1) 0 ≡ get_or p (i + 2) 0
    at2 = let e : i + 1 + 1 ≡ i + 2 = omega arith in rw e

    at3 : get_or p (i + 1 + 1 + 1) 0 ≡ get_or p (i + 3) 0
    at3 = let e : i + 1 + 1 + 1 ≡ i + 3 = omega arith in rw e

match_magic-need_more :
    (i : ℕ) (p : List ℕ)
    → match_magic magic i p ≡ need_more
    → (length p ≤ i + 3) × (i + 3 ≤ length p → IsMagic i p)
unfolding match_magic
match_magic-need_more i p h = ground (arith, at2)
  where
    at2 : get_or p (i + 1 + 1) 0 ≡ get_or p (i + 2) 0
    at2 = let e : i + 1 + 1 ≡ i + 2 = omega arith in rw e

-- One round of the varint loop that decides for the segment, or goes on.
varint : ℕ → ℕ → List ℕ → ℕ
varint i value p = bit_or value (bit_and (get_or p i 0) 0x7f * 2 ^ (7 * i))

segment_loop-yes :
    (left i value : ℕ) (p : List ℕ)
    → segment_loop (suc left) i value p ≡ yes
    → ((match_magic magic (i + 1) p ≡ yes)
        × (bit_and (get_or p i 0) 0x80 ≡ 0)
        × (varint i value p % 2 ≡ 0)
        × (4 ≤ varint i value p / 2))
      ⊎ (segment_loop left (i + 1) (varint i value p) p ≡ yes)
unfolding segment_loop varint
segment_loop-yes left i value p h = ground arith

segment_loop-need_more :
    (left i value : ℕ) (p : List ℕ)
    → i < length p
    → segment_loop (suc left) i value p ≡ need_more
    → (match_magic magic (i + 1) p ≡ need_more)
      ⊎ (segment_loop left (i + 1) (varint i value p) p ≡ need_more)
unfolding segment_loop varint
segment_loop-need_more left i value p n h = ground arith

All-get_or : (p : List ℕ) (i : ℕ) → All IsByte p → IsByte (get_or p i 0)
All-get_or [] i h = omega arith
All-get_or (x ∷ p) zero h = h.0
All-get_or (x ∷ p) (suc i) h = All-get_or p i h.1

module _ (p : List ℕ) (bytes : All IsByte p) where
  abbrev at : ℕ → ℕ
  at i = get_or p i 0

  opcode_bytes : read_u16_le p ≡ at 0 + at 1 * 256
  unfolding read_u16_le
  opcode_bytes = read_u16_le-sum (at 0) (at 1) [] (All-get_or p 0 bytes) (All-get_or p 1 bytes)

  size_bytes : read_u32_le (drop 2 p) ≡ at 2 + at 3 * 256 + at 4 * 65536 + at 5 * 16777216
  unfolding read_u32_le
  size_bytes =
      rw (get_or-drop 2 p 0 0, get_or-drop 2 p 1 0, get_or-drop 2 p 2 0, get_or-drop 2 p 3 0)
        (read_u32_le-sum (at 2) (at 3) (at 4) (at 5) [] (All-get_or p 2 bytes)
          (All-get_or p 3 bytes) (All-get_or p 4 bytes) (All-get_or p 5 bytes))

  IsMagic-size :
      (i : ℕ)
      → (i ≡ 2) ⊎ (i ≡ 3)
      → IsMagic i p
      → (get_or p (i + 3) 0 ≡ 0xfd) ⊎ (i ≡ 3)
      → max_message_size < read_u32_le (drop 2 p)
  IsMagic-size i (inl two) m last =
      ground (arith, size_bytes, rw two at m.first, rw two at m.second, rw two at m.third, last)
  IsMagic-size i (inr three) m last =
      ground (arith, size_bytes, rw three at m.first, rw three at m.second, rw three at m.third)

  -- A one-byte length: the magic starts where a frame has the high byte of its opcode.
  one_byte :
      (match_magic magic 1 p ≡ yes)
        × (bit_and (at 0) 0x80 ≡ 0)
        × (varint 0 0 p % 2 ≡ 0)
        × (4 ≤ varint 0 0 p / 2)
      → (0x2808 ≤ read_u16_le p) × (read_u16_le p ≤ 0x287e)
  unfolding varint
  one_byte (m, last, even, long) =
      let a = All-get_or p 0 bytes in
      let (found, end) = match_magic-yes 1 p m in
      omega (
        arith,
        opcode_bytes,
        bit_and-top (at 0) a,
        bit_and-low (at 0) a,
        zero-bit_or (bit_and (at 0) 0x7f * 2 ^ (7 * 0)),
        found.first,
      )

  three_bytes :
      segment_loop 1 2 (varint 1 (varint 0 0 p) p) p ≡ yes
      → max_message_size < read_u32_le (drop 2 p)
  three_bytes h = elim (segment_loop-yes 0 2 _ p h) [
    | inl (m, c, v, l) ↦
        let (found, end) = match_magic-yes 3 p m in IsMagic-size 3 (inr refl) found (inr refl)
    | inr none_left ↦ absurd (unfold segment_loop in cc)
  ]

  -- Bytes that are taken for the start of a segment stream, read as a frame header, have an opcode
  -- from 0x2808 to 0x287e or declare a size above the limit of 64 MiB.
  pub segment_start-yes :
      segment_start p ≡ yes
      → ((0x2808 ≤ read_u16_le p) × (read_u16_le p ≤ 0x287e))
        ⊎ (max_message_size < read_u32_le (drop 2 p))
  unfolding segment_start
  segment_start-yes h = elim (segment_loop-yes 2 0 0 p h) [
    | inl one ↦ inl (one_byte one)
    | inr h1 ↦ elim (segment_loop-yes 1 1 (varint 0 0 p) p h1) [
      | inl (m, c, v, l) ↦
          let (found, end) = match_magic-yes 2 p m in
          inr (IsMagic-size 2 (inl refl) found (inl end))
      | inr h2 ↦ inr (three_bytes h2)
    ]
  ]

  -- Where a whole frame header is there and the test is still undecided, the header read as a
  -- frame's declares a size above the limit.
  pub segment_start-need_more :
      message_header_size ≤ length p
      → segment_start p ≡ need_more
      → max_message_size < read_u32_le (drop 2 p)
  unfolding segment_start
  segment_start-need_more n h = elim (segment_loop-need_more 2 0 0 p (omega arith) h) [
    | inl m ↦ absurd (omega (arith, (match_magic-need_more 1 p m).0))
    | inr h1 ↦ elim (segment_loop-need_more 1 1 (varint 0 0 p) p (omega arith) h1) [
      | inl m ↦ absurd (omega (arith, (match_magic-need_more 2 p m).0))
      | inr h2 ↦ undecided h2
    ]
  ]
    where
      undecided :
          segment_loop 1 2 (varint 1 (varint 0 0 p) p) p ≡ need_more
          → max_message_size < read_u32_le (drop 2 p)
      undecided h2 = elim (segment_loop-need_more 0 2 _ p (omega arith) h2) [
        | inl m ↦
            IsMagic-size 3 (inr refl) ((match_magic-need_more 3 p m).1 (omega arith)) (inr refl)
        | inr none_left ↦ absurd (unfold segment_loop in cc)
      ]

  -- So a header with an opcode below 0x2808 and a size within the limit is never taken for it.
  pub segment_start-frame :
      message_header_size ≤ length p
      → read_u16_le p < 0x2808
      → read_u32_le (drop 2 p) ≤ max_message_size
      → segment_start p ≡ no
  segment_start-frame n code size = settle (segment_start p) refl
    where
      settle : (s : SegmentStart) → segment_start p ≡ s → s ≡ no
      settle no e = refl
      settle yes e = absurd (omega (arith, segment_start-yes e))
      settle need_more e = absurd (omega (arith, segment_start-need_more n e))
