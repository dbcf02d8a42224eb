-- ===== src/Examples/Streams.antt =====
-- The Framer on short streams.
use de_be_os_rdp.Prelude.{
  ℕ, ◌+◌, ◌<◌, ◌≤◌, ◌≡◌, ◌≢◌, ◌⊎◌, refl, List, [], ◌∷◌, ◌++◌, true, false, ◌||◌, none, some, ok,
  err, arith, length, drop, All, u64,
}
use de_be_os_rdp.Protocol.Bytes.{read_u16_le, read_u32_le, le16, le32}
use de_be_os_rdp.Protocol.Framer.{
  Message, bad_size, stuck, Framer, header_step, switch_test, next_step, scan, feed,
  max_message_size,
}
use de_be_os_rdp.Protocol.Framer.Segment.{yes, need_more, segment_start, segment_loop, match_magic}
use de_be_os_rdp.Protocol.Framer.Stream.{encode, IsMessage}
use de_be_os_rdp.Protocol.Framer.Lossless.{IsFramer, feed_lossless}
use de_be_os_rdp.Protocol.Framer.Chunks.{feed-append, feed-append_broken}
use de_be_os_rdp.Protocol.Framer.Switch.{segment_start-yes}
use de_be_os_rdp.Protocol.Framer.RoundTrip.{IsPlain, feed-encode}
use de_be_os_rdp.Protocol.Framer.Ends.{feed-total}

-- A new connection, RP_SET_OFFSETS-like messages, and the same stream in two chunks.
abbrev fresh : Framer
fresh = record { buffer = []; failure = none; stream_offset = 0; segment_start_seen = false }

abbrev first : Message
first = record { op = 9; payload = 1 ∷ 2 ∷ [] }

abbrev second : Message
second = record { op = 300; payload = [] }

abbrev chunk_a : List ℕ
chunk_a = 9 ∷ 0 ∷ 8 ∷ 0 ∷ 0 ∷ 0 ∷ 1 ∷ 2 ∷ 44 ∷ []

abbrev chunk_b : List ℕ
chunk_b = 1 ∷ 6 ∷ 0 ∷ 0 ∷ 0 ∷ []

-- A size of five, below the header's.
abbrev chunk_bad : List ℕ
chunk_bad = 1 ∷ 5 ∷ 0 ∷ 0 ∷ 0 ∷ []

abbrev between : Framer
between = record { buffer = 44 ∷ []; failure = none; stream_offset = 8; segment_start_seen = false }

abbrev after : Framer
after = record { buffer = []; failure = none; stream_offset = 14; segment_start_seen = false }

fresh-IsFramer : IsFramer fresh
fresh-IsFramer = record { bytes = tt; room = omega arith }

feed_a : feed fresh chunk_a none true ≡ (between, ok (first ∷ []))
unfolding feed scan next_step switch_test header_step segment_start segment_loop match_magic
    read_u16_le read_u32_le
feed_a = refl

feed_b : feed between chunk_b none true ≡ (after, ok (second ∷ []))
unfolding feed scan next_step switch_test header_step segment_start segment_loop match_magic
    read_u16_le read_u32_le
feed_b = refl

abbrev broken_framer : Framer
broken_framer = record {
  buffer = [];
  failure = some (bad_size 300 5 8);
  stream_offset = 8;
  segment_start_seen = false;
}

feed_bad : feed between chunk_bad none true ≡ (broken_framer, err (bad_size 300 5 8))
unfolding feed scan next_step switch_test header_step segment_start segment_loop match_magic
    read_u16_le read_u32_le
feed_bad = refl

feed-append_example :
    feed fresh (chunk_a ++ chunk_b) none true ≡ (after, ok ((first ∷ []) ++ (second ∷ [])))
feed-append_example =
    feed-append fresh between after chunk_a chunk_b true (first ∷ []) (second ∷ []) fresh-IsFramer
      (omega arith) feed_a feed_b

feed-append_broken_example :
    ((feed fresh (chunk_a ++ chunk_bad) none true).1 ≡ err (bad_size 300 5 8))
    × ((feed fresh (chunk_a ++ chunk_bad) none true).0.buffer ≡ [])
    × ((feed fresh (chunk_a ++ chunk_bad) none true).0.failure ≡ some (bad_size 300 5 8))
feed-append_broken_example =
    feed-append_broken fresh between broken_framer chunk_a chunk_bad true (first ∷ [])
      (bad_size 300 5 8) fresh-IsFramer (omega arith) feed_a feed_bad

feed_lossless_example :
    (fresh.buffer ++ chunk_a ≡ encode (first ∷ []) ++ between.buffer)
    × (between.stream_offset ≡ u64 (fresh.stream_offset + length (encode (first ∷ []))))
    × All IsMessage (first ∷ [])
feed_lossless_example =
    feed_lossless fresh between chunk_a none true (first ∷ []) fresh-IsFramer (omega arith) feed_a

first-IsPlain : IsPlain first
first-IsPlain = record { op_fits = omega arith; bytes = omega arith; size_fits = omega arith }

second-IsPlain : IsPlain second
second-IsPlain = record { op_fits = omega arith; bytes = tt; size_fits = omega arith }

feed-encode_example : feed fresh (encode (first ∷ second ∷ [])) none true ≡ (
  record fresh {
    buffer = [];
    stream_offset = u64 (fresh.stream_offset + length (encode (first ∷ second ∷ [])));
    segment_start_seen = fresh.segment_start_seen || false;
  },
  ok (first ∷ second ∷ []),
)
unfolding le16 le32
feed-encode_example =
    feed-encode fresh (first ∷ second ∷ []) true refl refl (first-IsPlain, (second-IsPlain, tt))
      (omega arith)

feed-total_example : (feed between chunk_bad none true).1 ≢ err stuck
feed-total_example = feed-total between chunk_bad none true (λ e. cc)

-- The zstd magic behind the varint of a compressed segment of 20 bytes.
abbrev switch : List ℕ
switch = 40 ∷ 40 ∷ 181 ∷ 47 ∷ 253 ∷ 0 ∷ 0 ∷ []

switch-yes : segment_start switch ≡ yes
unfolding segment_start segment_loop match_magic
switch-yes = refl

segment_start-yes_example :
    ((0x2808 ≤ read_u16_le switch) × (read_u16_le switch ≤ 0x287e))
    ⊎ (max_message_size < read_u32_le (drop 2 switch))
segment_start-yes_example = segment_start-yes switch (omega arith) switch-yes

-- Six bytes of a segment whose magic is not complete.
abbrev undecided : List ℕ
undecided = 0x88 ∷ 0x80 ∷ 1 ∷ 40 ∷ 181 ∷ 47 ∷ []

undecided-need_more : segment_start undecided ≡ need_more
unfolding segment_start segment_loop match_magic
undecided-need_more = refl
