-- ===== src/WireDecoder/Segments.antt =====
-- Segments as a server writes them, and what one round of feed's loop reads back.
use de_be_os_rdp.Prelude.{
  ℕ, ◌+◌, ◌-◌, ◌*◌, ◌/◌, ◌^◌, ◌≤◌, ◌<◌, ◌≡◌, refl, sym, ap, ◌∙◌, List, ◌++◌, append_assoc, Bool,
  true, false, not, le→ltb, ◌==◌, some, arith, bit_and, bit_and-one, length, length-append,
  take-length_append, drop-length_append,
}
use de_be_os_rdp.WireDecoder.{max_payload, varint_loop, segment, segment_step}
use de_be_os_rdp.WireDecoder.Varint.{varint, varint_loop-varint}

-- The header's value: the payload's length, and the flag below it.
abbrev pub header_value : Bool → List ℕ → ℕ
header_value true payload = length payload * 2 + 1
header_value false payload = length payload * 2

abbrev pub encode_segment : Bool → List ℕ → List ℕ
encode_segment raw payload = varint 5 (header_value raw payload) ++ payload

flag : (raw : Bool) (payload : List ℕ) → not (bit_and (header_value raw payload) 1 == 0) ≡ raw
flag true payload = rw (bit_and-one (length payload) 1 (omega arith)) refl
flag false payload =
    let z : length payload * 2 + 0 ≡ length payload * 2 = omega arith in
    rw (← z, bit_and-one (length payload) 0 (omega arith)) refl

half : (raw : Bool) (payload : List ℕ) → header_value raw payload / 2 ≡ length payload
half true payload = omega arith
half false payload = omega arith

header_fits :
    (raw : Bool) (payload : List ℕ)
    → length payload ≤ max_payload
    → header_value raw payload < 2 ^ 35
header_fits true payload h = omega arith
header_fits false payload h = omega arith

step_found :
    (raw : Bool) (payload rest head : List ℕ)
    → length payload ≤ max_payload
    → varint_loop 5 0 0 (head ++ (payload ++ rest)) ≡ some (header_value raw payload, length head)
    → segment_step (head ++ (payload ++ rest)) ≡ segment raw payload (length head + length payload)
unfolding segment_step
step_found raw payload rest head h r =
    let body = head ++ (payload ++ rest) in
    let room : length payload ≤ length body - length head =
      omega (arith, length-append head (payload ++ rest), length-append payload rest) in
    rw
      (
        r,
        segment_step,
        flag raw payload,
        half raw payload,
        le→ltb max_payload (length payload) h,
        le→ltb (length body - length head) (length payload) room,
        drop-length_append head (payload ++ rest),
        take-length_append payload rest,
      )
      refl

-- A segment whose payload is within the limit is read back from the front of the buffer.
pub segment_step-encode :
    (raw : Bool) (payload rest : List ℕ)
    → length payload ≤ max_payload
    → segment_step (encode_segment raw payload ++ rest)
      ≡ segment raw payload (length (encode_segment raw payload))
segment_step-encode raw payload rest h =
    let n = header_value raw payload in
    let head = varint 5 n in
    let z : 0 + n * 2 ^ (7 * 0) ≡ n = omega arith in
    let z' : 0 + length head ≡ length head = omega arith in
    let r : varint_loop 5 0 0 (head ++ (payload ++ rest)) ≡ some (n, length head) =
      varint_loop-varint 4 0 0 n (payload ++ rest) (header_fits raw payload h) (omega arith)
      ∙ rw (z, z') refl in
    ap segment_step (append_assoc head payload rest)
    ∙ step_found raw payload rest head h r
    ∙ ap (segment raw payload) (sym (length-append head payload))
