-- ===== src/Protocol/Framer/Segment.antt =====
-- segment_start of protocol.cpp: whether bytes open a compressed segment stream, that is a varint
-- length with its raw bit clear and the magic of a zstd frame.
use de_be_os_rdp.Prelude.{
  ℕ, zero, suc, ◌+◌, ◌*◌, ◌/◌, ◌%◌, ◌^◌, List, [], ◌∷◌, not, ◌||◌, ltb, leb, ◌==◌, if◌then◌else◌,
  length, get_or, bit_and, bit_or,
}

pub data SegmentStart : Type 0 where
  no yes need_more : SegmentStart

abbrev pub magic : List ℕ
magic = 0x28 ∷ 0xb5 ∷ 0x2f ∷ 0xfd ∷ []

-- The inner loop over the magic, from the byte at `at` on.
unfoldable pub match_magic : List ℕ → ℕ → List ℕ → SegmentStart
match_magic [] position bytes = yes
match_magic (m ∷ ms) position bytes =
    let rest = match_magic ms (position + 1) bytes in
    if leb (length bytes) position
    then need_more
    else if get_or bytes position 0 == m
    then rest
    else no

-- `for (k = 1; k <= 3; ++k)`, with `left` rounds to go and `i` for `k - 1`.
unfoldable pub segment_loop : ℕ → ℕ → ℕ → List ℕ → SegmentStart
segment_loop zero i value bytes = no
segment_loop (suc left) i value bytes =
    let byte = get_or bytes i 0 in
    let value' = bit_or value (bit_and byte 0x7f * 2 ^ (7 * i)) in
    let more = segment_loop left (i + 1) value' bytes in
    let len = value' / 2 in
    if ltb (length bytes) (i + 1)
    then need_more
    else if not (bit_and byte 0x80 == 0)
    then more
    else if not (value' % 2 == 0) || (ltb len 4 || ltb (64 * 1024 + 8) len)
    then no
    else match_magic magic (i + 1) bytes

unfoldable pub segment_start : List ℕ → SegmentStart
unfolding segment_loop match_magic
segment_start bytes = segment_loop 3 0 0 bytes
