-- ===== src/Protocol/Framer/Taken.antt =====
-- The frame that a step takes is the front of the bytes, its header included; and a frame that
-- stands at the front is taken.
use de_be_os_rdp.Prelude.{
  ℕ, suc, ◌+◌, ◌-◌, ◌≤◌, ◌≡◌, refl, sym, ap, ◌∙◌, List, [], ◌∷◌, ◌++◌, Bool, arith, le→ltb, length,
  length-append, take, drop, length-take, take-append-drop, take-length_append, All, IsByte, IsU16,
  u32, append_assoc,
}
use de_be_os_rdp.Protocol.Bytes.{
  le16, le32, read_u16_le, read_u32_le, le16-read_u16_le, le32-read_u32_le, read_u16_le-IsU16,
  read_u16_le-le16, read_u32_le-le32,
}
use de_be_os_rdp.Protocol.Writer
use de_be_os_rdp.Protocol.Framer.Segment.{no}
use de_be_os_rdp.Protocol.Framer.Steps.{next_step_long}
use de_be_os_rdp.Protocol.Framer.{
  frame, header_step, switch_test, next_step, message_header_size, max_message_size,
}

-- A frame that a step takes: a size within the limits, and its bytes at the front.
pub record IsTaken (p : List ℕ) (op : ℕ) (payload : List ℕ) (total : ℕ) : Type 0 where
  pub op_fits : IsU16 op
  pub total_is : total ≡ length payload + message_header_size
  pub total_fits : total ≤ max_message_size
  pub fits : total ≤ length p
  pub front : p ≡ Writer.frame op payload ++ drop total p

record IsHeader (p : List ℕ) (op : ℕ) (payload : List ℕ) (total : ℕ) : Type 0 where
  op_is : op ≡ read_u16_le p
  total_is : total ≡ read_u32_le (drop 2 p)
  payload_is : payload ≡ take (total - message_header_size) (drop message_header_size p)
  low : message_header_size ≤ total
  high : total ≤ max_message_size
  fits : total ≤ length p

header_step-IsHeader :
    (position : ℕ) (p : List ℕ) (op : ℕ) (payload : List ℕ) (total : ℕ)
    → header_step position p ≡ frame op payload total
    → IsHeader p op payload total
unfolding header_step
header_step-IsHeader position p op payload total e = ground arith

IsHeader-IsTaken :
    (p : List ℕ) (op : ℕ) (payload : List ℕ) (total : ℕ)
    → All IsByte p
    → IsHeader p op payload total
    → IsTaken p op payload total
IsHeader-IsTaken [] op payload total h k = absurd (omega (arith, k.low, k.fits))
IsHeader-IsTaken (a ∷ []) op payload total h k = absurd (omega (arith, k.low, k.fits))
IsHeader-IsTaken (a ∷ b ∷ []) op payload total h k = absurd (omega (arith, k.low, k.fits))
IsHeader-IsTaken (a ∷ b ∷ c ∷ []) op payload total h k = absurd (omega (arith, k.low, k.fits))
IsHeader-IsTaken (a ∷ b ∷ c ∷ d ∷ []) op payload total h k = absurd (omega (arith, k.low, k.fits))
IsHeader-IsTaken (a ∷ b ∷ c ∷ d ∷ e ∷ []) op payload total h k =
    absurd (omega (arith, k.low, k.fits))
IsHeader-IsTaken (a ∷ b ∷ c ∷ d ∷ e ∷ f ∷ t) op payload total (ha, (hb, (hc, (hd, (he, (hf, ht))))))
      k =
    let len : length payload ≡ total - 6 =
      rw k.payload_is (omega (arith, length-take (total - 6) t, k.fits, k.low)) in
    let size : u32 (length payload + 6) ≡ total = omega (arith, k.high, k.low) in
    let code : le16 op ≡ a ∷ b ∷ [] =
      ap le16 k.op_is ∙ le16-read_u16_le a b (c ∷ d ∷ e ∷ f ∷ t) ha hb in
    let count : le32 (u32 (length payload + 6)) ≡ c ∷ d ∷ e ∷ f ∷ [] =
      ap le32 (size ∙ k.total_is) ∙ le32-read_u32_le c d e f t hc hd he hf in
    record {
      op_fits = rw k.op_is (read_u16_le-IsU16 _);
      total_is = omega (arith, k.low);
      total_fits = k.high;
      fits = k.fits;
      front = rw (code, count) (ap (λ (x : List ℕ). a ∷ b ∷ c ∷ d ∷ e ∷ f ∷ x) (sym (body k)));
    }
  where
    body :
        IsHeader (a ∷ b ∷ c ∷ d ∷ e ∷ f ∷ t) op payload total
        → payload ++ drop total (a ∷ b ∷ c ∷ d ∷ e ∷ f ∷ t) ≡ t
    body v =
        let six : total ≡ suc (suc (suc (suc (suc (suc (total - 6)))))) = omega (arith, v.low) in
        rw v.payload_is (
          rw (ap (λ (n : ℕ). drop n (a ∷ b ∷ c ∷ d ∷ e ∷ f ∷ t)) six)
            (take-append-drop (total - 6) t))

-- A step takes only what IsTaken says.
pub next_step-IsTaken :
    (at_segment : Bool) (position : ℕ) (p : List ℕ) (op : ℕ) (payload : List ℕ) (total : ℕ)
    → All IsByte p
    → next_step at_segment position p ≡ frame op payload total
    → IsTaken p op payload total
unfolding next_step
next_step-IsTaken at_segment position p op payload total h e =
    IsHeader-IsTaken p op payload total h
      (header_step-IsHeader position p op payload total (ground arith))

module _ (op : ℕ) (payload rest : List ℕ) where
  abbrev pub framed : List ℕ
  framed = Writer.frame op payload ++ rest

  abbrev pub size_field : ℕ
  size_field = u32 (length payload + message_header_size)

  pub code_at : IsU16 op → read_u16_le framed ≡ op
  code_at h = rw append_assoc (read_u16_le-le16 op _ h)

  pub size_at : read_u32_le (drop 2 framed) ≡ size_field
  unfolding le16
  size_at = rw append_assoc (read_u32_le-le32 _ (payload ++ rest) (omega arith))

  payload_at : drop message_header_size framed ≡ payload ++ rest
  unfolding le16 le32
  payload_at = refl

  pub length-framed : length framed ≡ length payload + message_header_size + length rest
  unfolding le16 le32
  length-framed = omega (arith, length-append payload rest)

  header_step-frame :
      (position : ℕ)
      → IsU16 op
      → length payload + message_header_size ≤ max_message_size
      → header_step position framed ≡ frame op payload (length payload + message_header_size)
  unfolding header_step
  header_step-frame position ho hl =
      let size : read_u32_le (drop 2 framed) ≡ length payload + 6 = size_at ∙ (omega arith) in
      let less : length payload + 6 - 6 ≡ length payload = omega arith in
      rw (size, code_at ho, payload_at)
        (rw
          (
            le→ltb (length payload + 6) 6 (omega arith),
            le→ltb max_message_size (length payload + 6) hl,
            le→ltb (length framed) (length payload + 6) (omega (arith, length-framed)),
            less,
            take-length_append payload rest,
          )
          refl)

  -- A frame within the limits at the front is taken, if it is not taken for the stream switch.
  pub next_step-frame :
      (at_segment : Bool) (position : ℕ)
      → IsU16 op
      → length payload + message_header_size ≤ max_message_size
      → switch_test at_segment (Writer.frame op payload ++ rest) ≡ no
      → next_step at_segment position (Writer.frame op payload ++ rest)
        ≡ frame op payload (length payload + message_header_size)
  next_step-frame at_segment position ho hl hs =
      next_step_long at_segment position framed no (omega (arith, length-framed)) hs
      ∙ header_step-frame position ho hl
