-- ===== src/Broker/Pins.antt =====
-- Pins in hexadecimal: what decode_certificate_pin makes of a digest's digits.
use de_be_os_rdp.Prelude.{
  ℕ, ◌+◌, ◌*◌, ◌/◌, ◌%◌, ◌^◌, ◌≤◌, ◌<◌, ◌≡◌, refl, ap, ◌∙◌, List, [], ◌∷◌, ◌++◌, false,
  if◌then◌else◌, ltb, ◌==◌, Option, some, arith, length, All, IsByte, bit_or, bit_or_join_high, u8,
}
use de_be_os_rdp.Broker.{
  starts_with, curl_prefix, plain_prefix, strip_prefix, strip_colons, nibble, hex_loop,
  decode_certificate_pin,
}

-- The digits that `broker.fingerprint` and a mismatch message show, in lower case.
abbrev digit : ℕ → ℕ
digit n = if ltb n 10 then 48 + n else 87 + n

abbrev pub hex : List ℕ → List ℕ
hex [] = []
hex (b ∷ bytes) = digit (b / 16) ∷ digit (b % 16) ∷ hex bytes

-- The same with a colon before each byte but the first.
abbrev colons_tail : List ℕ → List ℕ
colons_tail [] = []
colons_tail (b ∷ bytes) = 58 ∷ digit (b / 16) ∷ digit (b % 16) ∷ colons_tail bytes

abbrev pub colons : List ℕ → List ℕ
colons [] = []
colons (b ∷ bytes) = digit (b / 16) ∷ digit (b % 16) ∷ colons_tail bytes

nibble-digit : (n : ℕ) → n < 16 → nibble (digit n) ≡ some n
unfolding nibble
nibble-digit n h = ground arith

digit_range : (n : ℕ) → n < 16 → (48 ≤ digit n) × (digit n ≤ 102)
digit_range n h = ground arith

digit-ne-colon : (n : ℕ) → n < 16 → (digit n == 58) ≡ false
digit-ne-colon n h = ground arith

pub length-hex : (bytes : List ℕ) → length (hex bytes) ≡ 2 * length bytes
length-hex [] = refl
length-hex (b ∷ bytes) = omega (arith, length-hex bytes)

pub hex_loop-hex :
    (bytes : List ℕ) → All IsByte bytes → hex_loop (length bytes) (hex bytes) ≡ some bytes
unfolding hex_loop
hex_loop-hex [] h = refl
hex_loop-hex (b ∷ bytes) h =
    let join : u8 (bit_or (b / 16 * 2 ^ 4) (b % 16)) ≡ b =
      omega (arith, h.0, bit_or_join_high 4 (b / 16) (b % 16) (omega arith)) in
    rw
      (
        nibble-digit (b / 16) (omega (arith, h.0)),
        nibble-digit (b % 16) (omega arith),
        hex_loop-hex bytes h.1,
        join,
      )
      refl

pub strip_colons-hex : (bytes : List ℕ) → All IsByte bytes → strip_colons (hex bytes) ≡ hex bytes
unfolding strip_colons
strip_colons-hex [] h = refl
strip_colons-hex (b ∷ bytes) h =
    rw
      (
        digit-ne-colon (b / 16) (omega (arith, h.0)),
        digit-ne-colon (b % 16) (omega arith),
        strip_colons-hex bytes h.1,
      )
      refl

strip_colons-tail :
    (bytes : List ℕ) → All IsByte bytes → strip_colons (colons_tail bytes) ≡ hex bytes
unfolding strip_colons
strip_colons-tail [] h = refl
strip_colons-tail (b ∷ bytes) h =
    rw
      (
        digit-ne-colon (b / 16) (omega (arith, h.0)),
        digit-ne-colon (b % 16) (omega arith),
        strip_colons-tail bytes h.1,
      )
      refl

strip_colons-colons : (bytes : List ℕ) → All IsByte bytes → strip_colons (colons bytes) ≡ hex bytes
unfolding strip_colons
strip_colons-colons [] h = refl
strip_colons-colons (b ∷ bytes) h =
    rw
      (
        digit-ne-colon (b / 16) (omega (arith, h.0)),
        digit-ne-colon (b % 16) (omega arith),
        strip_colons-tail bytes h.1,
      )
      refl

-- Digits are below the `s` of both prefixes.
strip_prefix-digit : (n : ℕ) (pin : List ℕ) → n < 16 → strip_prefix (digit n ∷ pin) ≡ digit n ∷ pin
unfolding strip_prefix starts_with
strip_prefix-digit n pin h =
    let other : (115 == digit n) ≡ false = ground (arith, digit_range n h) in rw other refl

strip_prefix-hex : (bytes : List ℕ) → All IsByte bytes → strip_prefix (hex bytes) ≡ hex bytes
unfolding strip_prefix starts_with
strip_prefix-hex [] h = refl
strip_prefix-hex (b ∷ bytes) h = strip_prefix-digit (b / 16) _ (omega (arith, h.0))

strip_prefix-colons :
    (bytes : List ℕ) → All IsByte bytes → strip_prefix (colons bytes) ≡ colons bytes
unfolding strip_prefix starts_with
strip_prefix-colons [] h = refl
strip_prefix-colons (b ∷ bytes) h = strip_prefix-digit (b / 16) _ (omega (arith, h.0))

strip_prefix-curl : (pin : List ℕ) → strip_prefix (curl_prefix ++ pin) ≡ pin
unfolding strip_prefix starts_with
strip_prefix-curl pin = refl

strip_prefix-plain : (pin : List ℕ) → strip_prefix (plain_prefix ++ pin) ≡ pin
unfolding strip_prefix starts_with
strip_prefix-plain pin = refl

module _ (decode : List ℕ → Option (List ℕ)) (digest : List ℕ) (bytes : All IsByte digest)
    (size : length digest ≡ 32) where
  decoded :
      (text : List ℕ)
      → strip_colons (strip_prefix text) ≡ hex digest
      → decode_certificate_pin decode text ≡ some digest
  unfolding decode_certificate_pin
  decoded text e =
      let long : length (hex digest) ≡ 64 = omega (arith, length-hex digest) in
      let read : hex_loop 32 (hex digest) ≡ some digest = rw size at (hex_loop-hex digest bytes) in
      rw (e, decode_certificate_pin, long, read) refl

  -- The pin of a 32-byte digest in lower-case hexadecimal is decoded to that digest: bare, behind
  -- either prefix, with colons between the bytes, and so behind either prefix, whatever the base64
  -- decoder does.
  pub decode_certificate_pin-hex :
      (decode_certificate_pin decode (hex digest) ≡ some digest)
      × (decode_certificate_pin decode (curl_prefix ++ hex digest) ≡ some digest)
      × (decode_certificate_pin decode (plain_prefix ++ hex digest) ≡ some digest)
      × (decode_certificate_pin decode (colons digest) ≡ some digest)
      × (decode_certificate_pin decode (curl_prefix ++ colons digest) ≡ some digest)
      × (decode_certificate_pin decode (plain_prefix ++ colons digest) ≡ some digest)
  decode_certificate_pin-hex =
      let plain = strip_colons-hex digest bytes in
      let spaced = strip_colons-colons digest bytes in
      (
        decoded (hex digest) (ap strip_colons (strip_prefix-hex digest bytes) ∙ plain),
        decoded (curl_prefix ++ hex digest)
            (ap strip_colons (strip_prefix-curl (hex digest)) ∙ plain),
        decoded (plain_prefix ++ hex digest)
            (ap strip_colons (strip_prefix-plain (hex digest)) ∙ plain),
        decoded (colons digest) (ap strip_colons (strip_prefix-colons digest bytes) ∙ spaced),
        decoded (curl_prefix ++ colons digest)
            (ap strip_colons (strip_prefix-curl (colons digest)) ∙ spaced),
        decoded (plain_prefix ++ colons digest)
            (ap strip_colons (strip_prefix-plain (colons digest)) ∙ spaced),
      )
