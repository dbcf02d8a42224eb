-- ===== src/Protocol/Framer/Steps.antt =====
-- One round of the framer's loop: what a step takes off the front, and that bytes behind it do
-- not change what it decides.
use de_be_os_rdp.Prelude.{
  ℕ, zero, suc, ◌+◌, ◌-◌, ◌*◌, ◌^◌, ◌≤◌, ◌<◌, ◌≡◌, ◌≢◌, refl, sym, subst, ◌∙◌, List, [], ◌∷◌, ◌++◌,
  Bool, true, false, arith, ltb, ltb→le, lt→ltb, le→ltb, ltb→lt, length, length-append, drop,
  take-append_le, drop-append_le, length-drop, get_or, get_or-append_lt, bit_or, bit_and,
  Bool-cases, inl, inr, ◌⊎◌,
}
use de_be_os_rdp.Protocol.Bytes.{read_u16_le, read_u32_le}
use de_be_os_rdp.Protocol.Framer.Segment.{
  SegmentStart, no, yes, need_more, magic, match_magic, segment_loop, segment_start,
}
use de_be_os_rdp.Protocol.Framer.{
  Step, wait, desync, frame, header_step, switch_test, next_step, message_header_size,
}

read_u16_le-append : (p more : List ℕ) → 2 ≤ length p → read_u16_le (p ++ more) ≡ read_u16_le p
unfolding read_u16_le
read_u16_le-append p more h =
    rw (get_or-append_lt p more 0 0 (omega arith), get_or-append_lt p more 1 0 (omega arith)) refl

read_u32_le-append : (p more : List ℕ) → 4 ≤ length p → read_u32_le (p ++ more) ≡ read_u32_le p
unfolding read_u32_le
read_u32_le-append p more h =
    rw
      (
        get_or-append_lt p more 0 0 (omega arith),
        get_or-append_lt p more 1 0 (omega arith),
        get_or-append_lt p more 2 0 (omega arith),
        get_or-append_lt p more 3 0 (omega arith),
      )
      refl

-- A test that has decided stays decided when more bytes arrive.
match_magic-append :
    (ms : List ℕ) (i : ℕ) (p more : List ℕ)
    → match_magic ms i p ≢ need_more
    → match_magic ms i (p ++ more) ≡ match_magic ms i p
unfolding match_magic
match_magic-append [] i p more h = refl
match_magic-append (m ∷ ms) i p more h =
    ground (
      arith,
      length-append p more,
      get_or-append_lt p more i 0,
      match_magic-append ms (i + 1) p more,
    )

segment_loop-append :
    (left i v : ℕ) (p more : List ℕ)
    → segment_loop left i v p ≢ need_more
    → segment_loop left i v (p ++ more) ≡ segment_loop left i v p
unfolding segment_loop
segment_loop-append zero i v p more h = refl
segment_loop-append (suc left) i v p more h = elim (Bool-cases (ltb (length p) (i + 1))) [
  | inl short ↦ absurd (h (rw short))
  | inr long ↦
      let byte = get_or p i 0 in
      rw (get_or-append_lt p more i 0 (omega (arith, ltb→le (length p) (i + 1) long))) (
        ground (
          arith,
          length-append p more,
          segment_loop-append left (i + 1) (bit_or v (bit_and byte 0x7f * 2 ^ (7 * i))) p more,
          match_magic-append magic (i + 1) p more,
        ))
]

segment_start-append :
    (p more : List ℕ) → segment_start p ≢ need_more → segment_start (p ++ more) ≡ segment_start p
unfolding segment_start
segment_start-append p more h = unfold segment_loop in segment_loop-append 3 0 0 p more h

-- What a step decided on the bytes at hand.
abbrev pub IsFinal : Step → Type 0
IsFinal (wait true) = Unit
IsFinal (wait false) = ⊥
IsFinal (desync e) = Unit
IsFinal (frame op payload total) = Unit

header_step-append :
    (position : ℕ) (p more : List ℕ)
    → message_header_size ≤ length p
    → IsFinal (header_step position p)
    → header_step position (p ++ more) ≡ header_step position p
unfolding header_step
header_step-append position p more h d =
    rw
      (
        drop-append_le 2 p more (omega arith),
        drop-append_le 6 p more (omega arith),
        read_u16_le-append p more (omega arith),
        read_u32_le-append (drop 2 p) more (omega (arith, length-drop 2 p)),
      )
      (ground (
        arith,
        length-append p more,
        length-drop 6 p,
        take-append_le (read_u32_le (drop 2 p) - 6) (drop 6 p) more,
      ))

SegmentStart-cases : (s : SegmentStart) → (s ≡ no) ⊎ ((s ≡ yes) ⊎ (s ≡ need_more))
SegmentStart-cases no = inl refl
SegmentStart-cases yes = inr (inl refl)
SegmentStart-cases need_more = inr (inr refl)

switch_test-append :
    (at_segment : Bool) (p more : List ℕ)
    → switch_test at_segment p ≢ need_more
    → switch_test at_segment (p ++ more) ≡ switch_test at_segment p
unfolding switch_test
switch_test-append true p more h = segment_start-append p more h
switch_test-append false p more h = refl

pub next_step_long :
    (at_segment : Bool) (position : ℕ) (p : List ℕ) (s : SegmentStart)
    → message_header_size ≤ length p
    → switch_test at_segment p ≡ s
    → next_step at_segment position p
      ≡ elim s [ yes ↦ wait true | need_more ↦ wait false | no ↦ header_step position p ]
unfolding next_step
next_step_long at_segment position p s h e = rw (le→ltb (length p) 6 h, ← e) refl

next_step_short :
    (at_segment : Bool) (position : ℕ) (p : List ℕ)
    → length p < message_header_size
    → next_step at_segment position p ≡ wait false
unfolding next_step
next_step_short at_segment position p h = rw (lt→ltb (length p) 6 h)

-- A final step takes no notice of the bytes that arrive later.
pub next_step-append :
    (at_segment : Bool) (position : ℕ) (p more : List ℕ)
    → IsFinal (next_step at_segment position p)
    → next_step at_segment position (p ++ more) ≡ next_step at_segment position p
next_step-append at_segment position p more d = elim (Bool-cases (ltb (length p) 6)) [
  | inl short ↦
      absurd (subst IsFinal (next_step_short at_segment position p (ltb→lt (length p) 6 short)) d)
  | inr long ↦ decide (ltb→le (length p) 6 long) (SegmentStart-cases (switch_test at_segment p))
]
  where
    joined :
        (h : 6 ≤ length p) (s : SegmentStart)
        → switch_test at_segment p ≡ s
        → s ≢ need_more
        → next_step at_segment position (p ++ more) ≡ elim s [
          | yes ↦ wait true
          | need_more ↦ wait false
          | no ↦ header_step position (p ++ more)
        ]
    joined h s e n =
        next_step_long at_segment position (p ++ more) s (omega (arith, length-append p more))
          (switch_test-append at_segment p more (λ x. n (sym e ∙ x)) ∙ e)

    decide :
        6 ≤ length p
        → (switch_test at_segment p ≡ no)
          ⊎ ((switch_test at_segment p ≡ yes) ⊎ (switch_test at_segment p ≡ need_more))
        → next_step at_segment position (p ++ more) ≡ next_step at_segment position p
    decide h (inl e) =
        joined h no e (λ x. cc)
        ∙ header_step-append position p more h
            (subst IsFinal (next_step_long at_segment position p no h e) d)
        ∙ sym (next_step_long at_segment position p no h e)
    decide h (inr (inl e)) =
        joined h yes e (λ x. cc) ∙ sym (next_step_long at_segment position p yes h e)
    decide h (inr (inr e)) =
        absurd (subst IsFinal (next_step_long at_segment position p need_more h e) d)
