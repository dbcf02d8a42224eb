-- ===== src/Examples/Segments.antt =====
-- The segment decoder with a codec that stores bytes as they are.
use de_be_os_rdp.Prelude.{
  ℕ, ◌≡◌, ◌≢◌, ◌<◌, ◌≤◌, ◌⊎◌, inl, inr, refl, ap, max, List, [], ◌∷◌, ◌++◌, Bool, true, false,
  Option, none, some, arith, length, length-drop, length-take, take, drop,
}
use de_be_os_rdp.WireDecoder.{
  Codec, moved, SegmentDecoder, header_too_long, stuck, segment_step, max_chunk, feed, segment_loop,
  varint_loop,
}
use de_be_os_rdp.WireDecoder.Pieces.{feed-pieces}
use de_be_os_rdp.WireDecoder.Stream.{collect, last, IsLawful}
use de_be_os_rdp.WireDecoder.Delivery.{
  encode, Carries, over, verbatim, packed, Delivers, feed-encode_segments,
}
use de_be_os_rdp.WireDecoder.Fuel.{segment_loop_fuel}
use de_be_os_rdp.WireDecoder.Stops.{feed-rethrows, feed-ends}

-- Each round copies what fits.
abbrev store : Codec (Unit {0})
store = record {
  decompress_stream = λ z input room. moved tt (length (take room input)) (take room input);
  reset_session = λ z. z;
  round_limit = λ z input. length input;
}

store_lower :
    (room : ℕ) (input output : List ℕ) (n : ℕ)
    → n ≡ length (take room input)
    → output ≡ take room input
    → (0 < n) ⊎ (0 < length output)
    → length (drop n input) < length input
store_lower room input output n e f (inl h) =
    omega (arith, length-drop n input, length-take room input)
store_lower room input output n e f (inr h) =
    let m : length output ≡ length (take room input) = ap length f in
    omega (arith, length-drop n input, length-take room input)

store-IsLawful : IsLawful store
store-IsLawful = record {
  lower = λ z z' input output n e moving. store_lower max_chunk input output n (cc) (cc) moving;
}

-- A raw segment of three bytes, then a stored one of two.
abbrev both : List (Bool × List ℕ)
both = (true, 7 ∷ 8 ∷ 9 ∷ []) ∷ (false, 5 ∷ 6 ∷ []) ∷ []

abbrev plain : List ℕ
plain = (7 ∷ 8 ∷ 9 ∷ []) ++ ((5 ∷ 6 ∷ []) ++ [])

both-Carries : Carries store (some tt) both (some tt) plain
both-Carries = verbatim (omega arith) (
    packed (omega arith)
      (last {z = tt} {z' = tt} {input = 5 ∷ 6 ∷ []} {output = 5 ∷ 6 ∷ []} 2 refl refl (omega arith))
      over)

abbrev new_decoder : SegmentDecoder (Unit {0}) (Unit {0})
new_decoder = record {
  buffer = [];
  stream = some tt;
  failure = none;
  wire_bytes = 0;
  plain_bytes = 0;
  segments = 0;
}

feed-encode_segments_example :
    Delivers (feed collect store (encode both) (new_decoder, [])) (some tt) ([] ++ plain)
feed-encode_segments_example =
    feed-encode_segments store store-IsLawful both new_decoder [] (some tt) plain both-Carries refl
      refl

-- A sink that keeps the lengths of its pieces below the limit.
abbrev longest : List ℕ → ℕ → ℕ × Option (Unit {0})
longest piece s = (max s (length piece), none)

feed-pieces_example : (feed longest store (encode both) (new_decoder, 0)).0.1 ≤ max_chunk
feed-pieces_example =
    feed-pieces longest store (λ s. s ≤ max_chunk)
      (λ piece s some_byte small h. omega (arith, small, h)) (encode both) new_decoder 0
      (omega arith)

-- Five bytes with their top bits set.
abbrev overrun : List ℕ
overrun = 128 ∷ 128 ∷ 128 ∷ 128 ∷ 128 ∷ []

overrun-thrown : (feed collect store overrun (new_decoder, [])).1 ≡ some header_too_long
unfolding feed segment_loop segment_step varint_loop
overrun-thrown = refl

feed-rethrows_example :
    feed collect store (7 ∷ []) ((feed collect store overrun (new_decoder, [])).0.0, [])
    ≡ (((feed collect store overrun (new_decoder, [])).0.0, []), some header_too_long)
feed-rethrows_example =
    feed-rethrows collect store overrun new_decoder [] header_too_long (7 ∷ []) [] overrun-thrown

feed-ends_example : (feed collect store (encode both) (new_decoder, [])).1 ≢ some stuck
feed-ends_example = feed-ends collect store store-IsLawful (encode both) new_decoder [] (λ e. cc)

segment_loop_fuel_example :
    segment_loop longest store 9 overrun (new_decoder, 0)
    ≡ segment_loop longest store 6 overrun (new_decoder, 0)
segment_loop_fuel_example =
    segment_loop_fuel longest store 9 6 overrun (new_decoder, 0) (omega arith) (omega arith)
