-- ===== src/Broker.antt =====
-- broker_handshake.cpp: the RP_AUTHENTICATE message, the meaning of RP_AUTH_RESULT, and the pin of
-- a certificate. Texts are lists of character codes; `EVP_DecodeBlock` is a parameter.
pub mod Authentication
pub mod Pins
use de_be_os_rdp.Prelude.{
  ℕ, zero, suc, ◌+◌, ◌-◌, ◌*◌, ◌/◌, ◌%◌, ◌^◌, List, [], ◌∷◌, ◌++◌, Bool, true, false, not, ◌||◌,
  ◌&&◌, Option, none, some, ltb, leb, ◌==◌, if◌then◌else◌, length, get_or, take, drop, bit_or, u8,
  u16, u32,
}

abbrev pub rp_authenticate : ℕ
rp_authenticate = 10

abbrev pub rp_auth_result : ℕ
rp_auth_result = 11

abbrev pub rp_auth_result_size : ℕ
rp_auth_result_size = 10

abbrev add_u16 : List ℕ → ℕ → List ℕ
add_u16 message value = (message ++ u8 value ∷ []) ++ u8 (value / 2 ^ 8) ∷ []

-- `for (shift = 0; shift < 32; shift += 8)`, with `left` rounds to go.
unfoldable pub add_u32_loop : ℕ → ℕ → List ℕ → ℕ → List ℕ
add_u32_loop zero shift message value = message
add_u32_loop (suc left) shift message value =
    add_u32_loop left (shift + 8) (message ++ u8 (value / 2 ^ shift) ∷ []) value

abbrev add_u32 : List ℕ → ℕ → List ℕ
add_u32 message value = add_u32_loop 4 0 message value

unfoldable pub broker_authenticate_message : List ℕ → List ℕ
unfolding add_u32_loop
broker_authenticate_message token =
    let total = u32 (6 + 8 + u32 (length token)) in
    add_u32 (add_u32 (add_u32 (add_u16 [] rp_authenticate) total) 1) (u32 (length token)) ++ token

-- What `error` says about a reply.
pub data AuthError : Type 0 where
  unexpected_reply denied no_session no_cookie : AuthError
  other_status : (status : ℕ) → AuthError

abbrev u16_at : List ℕ → ℕ → ℕ
u16_at reply offset = u16 (bit_or (get_or reply offset 0) (get_or reply (offset + 1) 0 * 2 ^ 8))

abbrev u32_at : List ℕ → ℕ → ℕ
u32_at reply offset = u32 (
    bit_or
      (bit_or (bit_or (get_or reply offset 0) (get_or reply (offset + 1) 0 * 2 ^ 8))
        (get_or reply (offset + 2) 0 * 2 ^ 16))
      (get_or reply (offset + 3) 0 * 2 ^ 24))

-- The switch over the status; no error is acceptance.
unfoldable pub auth_status : ℕ → Option AuthError
auth_status status =
    if status == 0
    then none
    else if status == 1
    then some denied
    else if status == 2
    then some no_session
    else if status == 3
    then some no_cookie
    else some (other_status status)

unfoldable pub broker_auth_result : List ℕ → Option AuthError
unfolding auth_status
broker_auth_result reply =
    if ltb (length reply) rp_auth_result_size
      || (not (u16_at reply 0 == rp_auth_result) || not (u32_at reply 2 == rp_auth_result_size))
    then some unexpected_reply
    else auth_status (u32_at reply 6)

-- `text.rfind(prefix, 0) == 0`
unfoldable pub starts_with : List ℕ → List ℕ → Bool
starts_with [] text = true
starts_with (p ∷ ps) [] = false
starts_with (p ∷ ps) (c ∷ text) = p == c && starts_with ps text

-- "sha256//" and "sha256:"
abbrev pub curl_prefix : List ℕ
curl_prefix = 115 ∷ 104 ∷ 97 ∷ 50 ∷ 53 ∷ 54 ∷ 47 ∷ 47 ∷ []

abbrev pub plain_prefix : List ℕ
plain_prefix = 115 ∷ 104 ∷ 97 ∷ 50 ∷ 53 ∷ 54 ∷ 58 ∷ []

unfoldable pub strip_prefix : List ℕ → List ℕ
unfolding starts_with
strip_prefix pin =
    if starts_with curl_prefix pin
    then drop 8 pin
    else if starts_with plain_prefix pin
    then drop 7 pin
    else pin

-- The loop that drops the colons; without one it changes nothing.
unfoldable pub strip_colons : List ℕ → List ℕ
strip_colons [] = []
strip_colons (c ∷ pin) = let rest = strip_colons pin in if c == 58 then rest else c ∷ rest

unfoldable pub nibble : ℕ → Option ℕ
nibble c =
    if leb 48 c && leb c 57
    then some (c - 48)
    else if leb 97 c && leb c 102
    then some (c - 97 + 10)
    else if leb 65 c && leb c 70
    then some (c - 65 + 10)
    else none

abbrev pub pair_byte : Option ℕ → Option ℕ → Option ℕ
pair_byte (some high) (some low) = some (u8 (bit_or (high * 2 ^ 4) low))
pair_byte (some high) none = none
pair_byte none low = none

abbrev pub cons_some : Option ℕ → Option (List ℕ) → Option (List ℕ)
cons_some (some b) (some bytes) = some (b ∷ bytes)
cons_some (some b) none = none
cons_some none bytes = none

-- The loop over the pairs of digits, with `left` to go.
unfoldable pub hex_loop : ℕ → List ℕ → Option (List ℕ)
unfolding nibble
hex_loop zero pin = some []
hex_loop (suc left) pin =
    let rest = hex_loop left (drop 2 pin) in
    cons_some (pair_byte (nibble (get_or pin 0 0)) (nibble (get_or pin 1 0))) rest

abbrev pub hex_pin : List ℕ → Option (List ℕ)
hex_pin pin = if length pin == 64 then hex_loop 32 pin else none

-- `decode` is `EVP_DecodeBlock`: the bytes, whose number it returns, or none for an error.
abbrev pub base64_pin : (List ℕ → Option (List ℕ)) → List ℕ → Option (List ℕ)
base64_pin decode pin =
    let decoded : Option (List ℕ) = elim (decode pin) [
      | some bytes ↦ if length bytes == 33 then some (take 32 bytes) else none
      | none ↦ none
    ] in
    if length pin == 44 && get_or pin 43 0 == 61 then decoded else none

unfoldable pub decode_certificate_pin : (List ℕ → Option (List ℕ)) → List ℕ → Option (List ℕ)
unfolding strip_prefix strip_colons hex_loop
decode_certificate_pin decode text =
    let pin = strip_colons (strip_prefix text) in
    elim (hex_pin pin) [ some digest ↦ some digest | none ↦ base64_pin decode pin ]
