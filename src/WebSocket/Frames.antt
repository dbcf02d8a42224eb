-- ===== src/WebSocket/Frames.antt =====
-- The frames that send_frame builds, against the parser of drain_frames.
use native.Mathlib.Nat.{pow-suc, div-div-eq-div-mul, div-le_self, div-one}
use de_be_os_rdp.Prelude.{
  ℕ, zero, suc, ◌+◌, ◌-◌, ◌*◌, ◌/◌, ◌%◌, ◌^◌, ◌≤◌, ◌<◌, ◌≡◌, refl, sym, ap, ◌∙◌, List, [], ◌∷◌,
  ◌++◌, append_assoc, Bool-cases, inl, inr, ltb, leb, ltb→lt, le→ltb, leb→le, some, arith, length,
  length-append, get_or, get_or-append_lt, take, drop, take-length_append, drop-length_append,
  drop-drop, bit_and, bit_or, bit_xor_cancel, bit_and-low, bit_and-top, bit_and-nibble, bit_or-top,
  bit_or_join_high, u8, u64,
}
use de_be_os_rdp.WebSocket.{
  length_loop, length_bytes, apply_mask, frame_bytes, read_length, read_header, frame, drain_step,
  max_frame_payload,
}

-- Masking twice with the same mask gives the bytes back.
pub apply_mask-apply_mask :
    (mask : List ℕ) (i : ℕ) (bytes : List ℕ) → apply_mask mask i (apply_mask mask i bytes) ≡ bytes
unfolding apply_mask
apply_mask-apply_mask mask i [] = refl
apply_mask-apply_mask mask i (b ∷ bytes) =
    rw (bit_xor_cancel b (get_or mask (i % 4) 0), apply_mask-apply_mask mask (i + 1) bytes) refl

length-apply_mask :
    (mask : List ℕ) (i : ℕ) (bytes : List ℕ) → length (apply_mask mask i bytes) ≡ length bytes
unfolding apply_mask
length-apply_mask mask i [] = refl
length-apply_mask mask i (b ∷ bytes) = ap suc (length-apply_mask mask (i + 1) bytes)

pow_bytes : (k : ℕ) → 2 ^ (8 * suc k) ≡ 2 ^ (8 * k) * 256
pow_bytes k =
    let e : 8 * suc k ≡ suc (suc (suc (suc (suc (suc (suc (suc (8 * k)))))))) = omega arith in
    rw e (simp pow-suc (omega arith))

next_byte : (q : ℕ) → q < 2 ^ 64 → bit_or (u64 (q / 256 * 2 ^ 8)) (u8 q) ≡ q
next_byte q h =
    let e : u64 (q / 256 * 2 ^ 8) ≡ q / 256 * 2 ^ 8 = omega arith in
    rw e (omega (arith, bit_or_join_high 8 (q / 256) (u8 q) (omega arith)))

pub read_length-loop :
    (left n : ℕ) (tail : List ℕ)
    → n < 2 ^ 64
    → read_length left (n / 2 ^ (8 * left)) (length_loop left n ++ tail) ≡ n
unfolding read_length length_loop
read_length-loop zero n tail h = div-one n
read_length-loop (suc left) n tail h =
    let q = n / 2 ^ (8 * left) in
    let e : n / 2 ^ (8 * suc left) ≡ q / 256 =
      ap (λ (d : ℕ). n / d) (pow_bytes left) ∙ sym (div-div-eq-div-mul n (2 ^ (8 * left)) 256) in
    let small : q < 2 ^ 64 = omega (arith, div-le_self n (2 ^ (8 * left))) in
    rw (e, next_byte q small) (read_length-loop left n tail h)

-- The second byte marks the frame as masked.
second_byte :
    (b0 n : ℕ) (tail : List ℕ) → bit_and (get_or (b0 ∷ (length_bytes n ++ tail)) 1 0) 0x80 ≡ 0x80
unfolding length_bytes
second_byte b0 n tail = elim (Bool-cases (ltb n 126)) [
  | inl short ↦
      let small = ltb→lt n 126 short in
      rw (short, bit_or-top n (omega arith)) (omega (arith, bit_and-top (128 + n) (omega arith)))
  | inr long ↦ elim (Bool-cases (leb n 0xffff)) [
    | inl two ↦ rw (long, two) refl
    | inr eight ↦ rw (long, eight) refl
  ]
]

-- The size of the header without the mask, and the length that it declares.
read_header-length :
    (b0 n : ℕ) (tail : List ℕ)
    → n < 2 ^ 64
    → read_header (b0 ∷ (length_bytes n ++ tail)) ≡ some (suc (length (length_bytes n)), n)
unfolding length_bytes read_header
read_header-length b0 n tail h = elim (Bool-cases (ltb n 126)) [
  | inl short ↦
      let small = ltb→lt n 126 short in
      let low : bit_and (128 + n) 0x7f ≡ n = omega (arith, bit_and-low (128 + n) (omega arith)) in
      rw (short, bit_or-top n (omega arith), low) (ground arith)
  | inr long ↦ elim (Bool-cases (leb n 0xffff)) [
    | inl two ↦
        let small = leb→le n 0xffff two in
        let join : bit_or (u8 (n / 2 ^ 8) * 2 ^ 8) (u8 n) ≡ n =
          omega (arith, bit_or_join_high 8 (u8 (n / 2 ^ 8)) (u8 n) (omega arith)) in
        rw (long, two, join, le→ltb (suc (suc (suc (suc (length tail))))) 4 (omega arith)) refl
    | inr eight ↦
        let top : n / 2 ^ (8 * 8) ≡ 0 = omega arith in
        let value : read_length 8 0 (length_loop 8 n ++ tail) ≡ n =
          rw top at (read_length-loop 8 n tail h) in
        let room =
          le→ltb (suc (suc (suc (suc (suc (suc (suc (suc (suc (suc (length tail))))))))))) 10
            (omega arith) in
        rw (long, eight, room, value) refl
  ]
]

drain_step-masked :
    (opcode size n : ℕ) (rest : List ℕ)
    → bit_and (get_or rest 0 0) 0x0f ≡ opcode
    → bit_and (get_or rest 1 0) 0x80 ≡ 0x80
    → read_header rest ≡ some (size, n)
    → n ≤ max_frame_payload
    → size + 4 + n ≤ length rest
    → drain_step rest
      ≡ frame opcode (apply_mask (drop size rest) 0 (take n (drop (size + 4) rest))) (size + 4 + n)
unfolding drain_step
drain_step-masked opcode size n rest op mask header small room =
    let there : size + 4 - 4 ≡ size = omega arith in
    rw
      (
        le→ltb (length rest) 2 (omega arith),
        drain_step,
        header,
        op,
        mask,
        le→ltb max_frame_payload n small,
        le→ltb (length rest) (size + 4 + n) room,
        there,
      )
      refl

apply_mask-append :
    (mask more : List ℕ) (i : ℕ) (bytes : List ℕ)
    → length mask ≡ 4
    → apply_mask (mask ++ more) i bytes ≡ apply_mask mask i bytes
unfolding apply_mask
apply_mask-append mask more i [] m = refl
apply_mask-append mask more i (b ∷ bytes) m =
    rw
      (
        get_or-append_lt mask more (i % 4) 0 (omega arith),
        apply_mask-append mask more (i + 1) bytes m,
      )
      refl

pub drop-suc_append : (x : ℕ) (xs ys : List ℕ) → drop (suc (length xs)) (x ∷ (xs ++ ys)) ≡ ys
drop-suc_append x xs ys = drop-length_append xs ys

first_byte : (opcode : ℕ) → opcode < 16 → bit_and (bit_or 0x80 opcode) 0x0f ≡ opcode
first_byte opcode h =
    rw (bit_or-top opcode (omega arith))
      (omega (arith, bit_and-nibble (128 + opcode) (omega arith)))

-- A masked frame with any first byte.
pub drain_step-masked_bytes :
    (first : ℕ) (mask payload rest : List ℕ)
    → length mask ≡ 4
    → length payload ≤ max_frame_payload
    → drain_step
        ((first ∷ (length_bytes (length payload) ++ (mask ++ apply_mask mask 0 payload))) ++ rest)
      ≡ frame
          (bit_and first 0x0f)
          payload
          (length (first ∷ (length_bytes (length payload) ++ (mask ++ apply_mask mask 0 payload))))
drain_step-masked_bytes first mask payload rest m small =
    let n = length payload in
    let head = length_bytes n in
    let covered = apply_mask mask 0 payload in
    let tail = mask ++ (covered ++ rest) in
    let whole = first ∷ (head ++ tail) in
    let size = suc (length head) in
    let shape : (head ++ (mask ++ covered)) ++ rest ≡ head ++ tail =
      append_assoc head (mask ++ covered) rest
      ∙ ap (λ (t : List ℕ). head ++ t) (append_assoc mask covered rest) in
    let as_long : length covered ≡ n = length-apply_mask mask 0 payload in
    let at_mask : drop size whole ≡ tail = drop-suc_append first head tail in
    let at_payload : drop (size + 4) whole ≡ covered ++ rest =
      sym (drop-drop size 4 whole)
      ∙ ap (drop 4) at_mask
      ∙ (rw m at (drop-length_append mask (covered ++ rest))) in
    let cut : take n (covered ++ rest) ≡ covered =
      rw as_long at (take-length_append covered rest) in
    let room : size + 4 + n ≤ length whole = omega (
      arith,
      length-append head tail,
      length-append mask (covered ++ rest),
      length-append covered rest,
      m,
      as_long,
    ) in
    let total : size + 4 + n ≡ suc (length (head ++ (mask ++ covered))) =
      omega (arith, length-append head (mask ++ covered), length-append mask covered, m, as_long) in
    ap (λ (t : List ℕ). drain_step (first ∷ t)) shape
    ∙ drain_step-masked (bit_and first 0x0f) size n whole refl (second_byte first n tail)
        (read_header-length first n tail (omega arith)) small room
    ∙ rw
        (
          at_mask,
          at_payload,
          cut,
          apply_mask-append mask (covered ++ rest) 0 covered m,
          apply_mask-apply_mask mask 0 payload,
          total,
        )
        refl

-- A frame that send_frame builds for an opcode below 16, a mask of four bytes and a payload within
-- the limit is read by drain_frames, whatever follows it: the same opcode and payload, and the
-- frame's length to step over.
pub drain_step-frame_bytes :
    (opcode : ℕ) (mask payload rest : List ℕ)
    → opcode < 16
    → length mask ≡ 4
    → length payload ≤ max_frame_payload
    → drain_step (frame_bytes opcode mask payload ++ rest)
      ≡ frame opcode payload (length (frame_bytes opcode mask payload))
unfolding frame_bytes
drain_step-frame_bytes opcode mask payload rest op m small =
    drain_step-masked_bytes (bit_or 0x80 opcode) mask payload rest m small
    ∙ ap (λ (o : ℕ). frame o payload (length (frame_bytes opcode mask payload)))
        (first_byte opcode op)
