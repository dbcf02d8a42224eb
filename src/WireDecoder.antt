-- ===== src/WireDecoder.antt =====
-- class SegmentDecoder of wire_decoder.cpp: the transport records below the RP framing. Bytes leave
-- through a sink, which has a state of its own and may throw; libzstd is the parameter `codec`.
pub mod Varint
pub mod Pieces
pub mod Segments
pub mod Stream
pub mod Delivery
pub mod Stops
pub mod Fuel
use de_be_os_rdp.Prelude.{
  ℕ, zero, suc, ◌+◌, ◌-◌, ◌*◌, ◌/◌, ◌^◌, List, [], ◌∷◌, ◌++◌, Bool, true, false, not, ◌&&◌, Option,
  none, some, ltb, leb, ◌==◌, if◌then◌else◌, length, take, drop, bit_and, bit_or, u64,
}

abbrev pub max_varint_size : ℕ
max_varint_size = 5

abbrev pub max_payload : ℕ
max_payload = 67_108_864

abbrev pub max_chunk : ℕ
max_chunk = 131_072

-- What `failure_` and the thrown text hold. `E` is what a sink throws, `stuck` no error of the
-- source: the loop over the codec's rounds ran out of fuel.
pub data WireError (E : Type 0) : Type 0 where
  header_too_long : WireError E
  too_long : (declared : ℕ) → WireError E
  no_context : WireError E
  codec_failed : (name : List ℕ) → WireError E
  no_progress : WireError E
  sink_failed : E → WireError E
  stuck : WireError E

-- One call of `ZSTD_decompressStream`: an error, or the stream's new state, the number of input
-- bytes that it took, and the bytes that it wrote.
pub data Round (Z : Type 0) : Type 0 where
  failed : (name : List ℕ) → Round Z
  moved : (stream : Z) (consumed : ℕ) (output : List ℕ) → Round Z

-- The call's arguments: the stream, the input from `pos` on, and the room for the output.
-- `round_limit` is the model's fuel for one segment.
pub record Codec (Z : Type 0) : Type 0 where
  pub decompress_stream : Z → List ℕ → ℕ → Round Z
  pub reset_session : Z → Z
  pub round_limit : Z → List ℕ → ℕ

-- A null `stream_` and an empty `failure_` are `none`.
pub record SegmentDecoder (Z E : Type 0) : Type 0 where
  pub buffer : List ℕ
  pub stream : Option Z
  pub failure : Option (WireError E)
  pub wire_bytes : ℕ
  pub plain_bytes : ℕ
  pub segments : ℕ

abbrev pub usable : {Z E : Type 0} → SegmentDecoder Z E → Bool
usable d = elim d.stream [ some z ↦ true | none ↦ false ]

-- The loop over a varint's bytes, with `left` of them to go: the value and the header's size.
unfoldable pub varint_loop : ℕ → ℕ → ℕ → List ℕ → Option (ℕ × ℕ)
varint_loop zero i value bytes = none
varint_loop (suc left) i value [] = none
varint_loop (suc left) i value (byte ∷ bytes) =
    let value' = bit_or value (bit_and byte 0x7f * 2 ^ (7 * i)) in
    let more = varint_loop left (i + 1) value' bytes in
    if bit_and byte 0x80 == 0 then some (value', i + 1) else more

pub data SegmentStep : Type 0 where
  wait : SegmentStep
  header_overrun : SegmentStep
  oversized : (declared : ℕ) → SegmentStep
  segment : (raw : Bool) (payload : List ℕ) (total : ℕ) → SegmentStep

-- One round of feed's loop, up to the payload.
unfoldable pub segment_step : List ℕ → SegmentStep
segment_step rest = elim (varint_loop max_varint_size 0 0 rest) [
  | none ↦ if leb max_varint_size (length rest) then header_overrun else wait
  | some (value, header) ↦
      let declared = value / 2 ^ 1 in
      let raw = not (bit_and value 1 == 0) in
      if ltb max_payload declared
      then oversized declared
      else if ltb (length rest - header) declared
      then wait
      else segment raw (take declared (drop header rest)) (header + declared)
]

-- The decoder beside the sink's state, and what a call throws.
abbrev pub Run : Type 0 → Type 0 → Type 0 → Type 0
Run S Z E = SegmentDecoder Z E × S → (SegmentDecoder Z E × S) × Option (WireError E)

-- The rest of a body, unless what came before it threw.
abbrev pub unless_thrown : {X E : Type 0} → X × Option E → (X → X × Option E) → X × Option E
unless_thrown (x, none) k = k x
unless_thrown (x, some e) k = (x, some e)

-- The loop goes on with `rest`, unless the segment's body threw.
abbrev pub after_body :
    {X E : Type 0} → List ℕ → X × Option E → (X → (List ℕ × X) × Option E) → (List ℕ × X) × Option E
after_body rest (x, none) k = k x
after_body rest (x, some e) k = ((rest, x), some e)

module _ {S Z E : Type 0} (sink : List ℕ → S → S × Option E) where
  -- `plain_bytes_` counts a piece before the sink sees it.
  abbrev pub hand_over : List ℕ → Run S Z E
  hand_over piece (d, s) =
      let d' = record d { plain_bytes = u64 (d.plain_bytes + length piece) } in
      let (s', thrown) = sink piece s in
      ((d', s'), elim thrown [ none ↦ none | some e ↦ some (sink_failed e) ])

  -- The loop; a round takes a byte at least.
  unfoldable pub emit_loop : ℕ → List ℕ → Run S Z E
  emit_loop zero bytes st = (st, none)
  emit_loop (suc fuel) bytes st =
      let more = emit_loop fuel (drop max_chunk bytes) in
      if length bytes == 0
      then (st, none)
      else unless_thrown (hand_over (take max_chunk bytes) st) more

  unfoldable pub emit : List ℕ → Run S Z E
  emit bytes st = emit_loop (length bytes) bytes st

  module _ (codec : Codec Z) where
    -- The `while (true)` of decompress, with fuel.
    unfoldable pub decompress_loop : ℕ → Z → List ℕ → Run S Z E
    decompress_loop zero z input st = (st, some stuck)
    decompress_loop (suc fuel) z input (d, s) = elim (codec.decompress_stream z input max_chunk) [
      | failed name ↦ ((d, s), some (codec_failed name))
      | moved z' consumed output ↦
          let d' : SegmentDecoder Z E = record d { stream = some z' } in
          let rest = drop consumed input in
          let more = decompress_loop fuel z' rest in
          let all = length rest == 0 && ltb (length output) max_chunk in
          let still = consumed == 0 && length output == 0 in
          unless_thrown (emit output (d', s))
            (λ st. if all then (st, none) else if still then (st, some no_progress) else more st)
    ]

    unfoldable pub decompress : List ℕ → Run S Z E
    decompress payload (d, s) = elim d.stream [
      | none ↦ ((d, s), some no_context)
      | some z ↦ decompress_loop (suc (codec.round_limit z payload)) z payload (d, s)
    ]

    -- feed's loop over the segments, where `rest` is the buffer from the offset on; a segment
    -- takes a byte at least. It returns what is left of the buffer.
    unfoldable pub segment_loop :
        ℕ
        → List ℕ
        → SegmentDecoder Z E × S
        → (List ℕ × (SegmentDecoder Z E × S)) × Option (WireError E)
    segment_loop zero rest st = ((rest, st), none)
    segment_loop (suc fuel) rest (d, s) = elim (segment_step rest) [
      | wait ↦ ((rest, (d, s)), none)
      | header_overrun ↦ ((rest, (d, s)), some header_too_long)
      | oversized declared ↦ ((rest, (d, s)), some (too_long declared))
      | segment raw payload total ↦
          let d' = record d { segments = u64 (suc d.segments) } in
          let body = if raw then emit payload else decompress payload in
          let rest' = drop total rest in after_body rest' (body (d', s)) (segment_loop fuel rest')
    ]

    -- The catch block: the first error is kept, and the buffer released. The source keeps the text
    -- of the error, and a text that is empty would not count as a failure; no exception of the
    -- program has an empty one.
    abbrev pub settle :
        (List ℕ × (SegmentDecoder Z E × S)) × Option (WireError E)
        → (SegmentDecoder Z E × S) × Option (WireError E)
    settle ((rest, (d, s)), none) = ((record d { buffer = rest }, s), none)
    settle ((rest, (d, s)), some e) = ((record d { buffer = []; failure = some e }, s), some e)

    unfoldable pub feed : List ℕ → Run S Z E
    feed bytes (d, s) =
        let buffer = d.buffer ++ bytes in
        let d' = record d { wire_bytes = u64 (d.wire_bytes + length bytes); buffer = buffer } in
        elim d.failure [
          | some e ↦ ((d, s), some e)
          | none ↦ settle (segment_loop (suc (length buffer)) buffer (d', s))
        ]

-- A new connection.
unfoldable pub reset : {Z E : Type 0} → Codec Z → SegmentDecoder Z E → SegmentDecoder Z E
reset codec d = record {
  buffer = [];
  stream = elim d.stream [ some z ↦ some (codec.reset_session z) | none ↦ none ];
  failure = none;
  wire_bytes = 0;
  plain_bytes = 0;
  segments = 0;
}
