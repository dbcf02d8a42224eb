-- ===== src/WebSocket/Peer.antt =====
-- The frames of the other side, by RFC 6455, against the parser of drain_frames: with a mask or
-- without one, and with any bits above the opcode.
use de_be_os_rdp.Prelude.{
  ℕ, suc, ◌+◌, ◌*◌, ◌/◌, ◌^◌, ◌≤◌, ◌<◌, ◌≡◌, refl, ap, ◌∙◌, List, [], ◌∷◌, ◌++◌, append_assoc,
  Bool-cases, inl, inr, ltb, leb, ltb→lt, le→ltb, leb→le, Option, none, some, arith, length,
  length-append, get_or, take, drop, take-length_append, bit_and, bit_or, bit_and-low, bit_and-top,
  bit_or_join_high, u8, if◌then◌else◌,
}
use de_be_os_rdp.WebSocket.{
  length_loop, length_bytes, apply_mask, read_header, frame, drain_step, max_frame_payload,
}
use de_be_os_rdp.WebSocket.Frames.{read_length-loop, drop-suc_append, drain_step-masked_bytes}

-- The second byte without the mask bit, and the extended length.
unfoldable pub length_field : ℕ → List ℕ
unfolding length_loop
length_field n =
    if ltb n 126
    then n ∷ []
    else if leb n 0xffff
    then 126 ∷ u8 (n / 2 ^ 8) ∷ u8 n ∷ []
    else 127 ∷ length_loop 8 n

unfoldable pub peer_bytes : ℕ → Option (List ℕ) → List ℕ → List ℕ
unfolding length_field length_bytes apply_mask
peer_bytes first none payload = first ∷ (length_field (length payload) ++ payload)
peer_bytes first (some mask) payload =
    first ∷ (length_bytes (length payload) ++ (mask ++ apply_mask mask 0 payload))

abbrev pub IsMask : Option (List ℕ) → Type 0
IsMask none = Unit
IsMask (some mask) = length mask ≡ 4

plain_second_byte :
    (b0 n : ℕ) (tail : List ℕ) → bit_and (get_or (b0 ∷ (length_field n ++ tail)) 1 0) 0x80 ≡ 0
unfolding length_field
plain_second_byte b0 n tail = elim (Bool-cases (ltb n 126)) [
  | inl short ↦
      let small = ltb→lt n 126 short in rw short (omega (arith, bit_and-top n (omega arith)))
  | inr long ↦ elim (Bool-cases (leb n 0xffff)) [
    | inl two ↦ rw (long, two) refl
    | inr eight ↦ rw (long, eight) refl
  ]
]

read_header-field :
    (b0 n : ℕ) (tail : List ℕ)
    → n < 2 ^ 64
    → read_header (b0 ∷ (length_field n ++ tail)) ≡ some (suc (length (length_field n)), n)
unfolding length_field read_header
read_header-field b0 n tail h = elim (Bool-cases (ltb n 126)) [
  | inl short ↦
      let small = ltb→lt n 126 short in
      let low : bit_and n 0x7f ≡ n = omega (arith, bit_and-low n (omega arith)) in
      rw (short, low) (ground arith)
  | inr long ↦ elim (Bool-cases (leb n 0xffff)) [
    | inl two ↦
        let small = leb→le n 0xffff two in
        let join : bit_or (u8 (n / 2 ^ 8) * 2 ^ 8) (u8 n) ≡ n =
          omega (arith, bit_or_join_high 8 (u8 (n / 2 ^ 8)) (u8 n) (omega arith)) in
        rw (long, two, join, le→ltb (suc (suc (suc (suc (length tail))))) 4 (omega arith)) refl
    | inr eight ↦
        let top : n / 2 ^ (8 * 8) ≡ 0 = omega arith in
        let value = rw top at (read_length-loop 8 n tail h) in
        let room =
          le→ltb (suc (suc (suc (suc (suc (suc (suc (suc (suc (suc (length tail))))))))))) 10
            (omega arith) in
        rw (long, eight, room, value) refl
  ]
]

drain_step-plain :
    (size n : ℕ) (rest : List ℕ)
    → bit_and (get_or rest 1 0) 0x80 ≡ 0
    → read_header rest ≡ some (size, n)
    → n ≤ max_frame_payload
    → 2 ≤ size
    → size + n ≤ length rest
    → drain_step rest ≡ frame (bit_and (get_or rest 0 0) 0x0f) (take n (drop size rest)) (size + n)
unfolding drain_step
drain_step-plain size n rest mask header small two room =
    rw
      (
        le→ltb (length rest) 2 (omega arith),
        drain_step,
        header,
        mask,
        le→ltb max_frame_payload n small,
        le→ltb (length rest) (size + n) room,
      )
      refl

length-field : (n : ℕ) → 1 ≤ length (length_field n)
unfolding length_field
length-field n = elim (Bool-cases (ltb n 126)) [
  | inl short ↦ rw short (omega arith)
  | inr long ↦ elim (Bool-cases (leb n 0xffff)) [
    | inl two ↦ rw (long, two) (omega arith)
    | inr eight ↦ rw (long, eight) (omega arith)
  ]
]

-- A frame of the other side is read by drain_frames, whatever follows it.
pub drain_step-peer_bytes :
    (first : ℕ) (mask : Option (List ℕ)) (payload rest : List ℕ)
    → IsMask mask
    → length payload ≤ max_frame_payload
    → drain_step (peer_bytes first mask payload ++ rest)
      ≡ frame (bit_and first 0x0f) payload (length (peer_bytes first mask payload))
unfolding peer_bytes
drain_step-peer_bytes first (some mask) payload rest m small =
    drain_step-masked_bytes first mask payload rest m small
drain_step-peer_bytes first none payload rest m small =
    let n = length payload in
    let head = length_field n in
    let whole = first ∷ (head ++ (payload ++ rest)) in
    let size = suc (length head) in
    let at_payload : drop size whole ≡ payload ++ rest =
      drop-suc_append first head (payload ++ rest) in
    let room : size + n ≤ length whole =
      omega (arith, length-append head (payload ++ rest), length-append payload rest) in
    let total : size + n ≡ suc (length (head ++ payload)) =
      omega (arith, length-append head payload) in
    ap (λ (t : List ℕ). drain_step (first ∷ t)) (append_assoc head payload rest)
    ∙ drain_step-plain size n whole (plain_second_byte first n (payload ++ rest))
        (read_header-field first n (payload ++ rest) (omega arith)) small
        (omega (arith, length-field n)) room
    ∙ rw (at_payload, take-length_append payload rest, total) refl
