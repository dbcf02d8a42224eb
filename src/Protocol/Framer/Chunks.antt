-- ===== src/Protocol/Framer/Chunks.antt =====
-- How the transport cuts the stream does not matter: feeding two chunks one after the other is
-- feeding them as one.
use de_be_os_rdp.Prelude.{
  ℕ, ◌+◌, ◌≤◌, ◌<◌, ◌≡◌, refl, sym, ap, subst, ◌∙◌, List, [], ◌++◌, append_assoc, append-nil, Bool,
  true, ◌||◌, Option, none, some, Result, ok, err, arith, length, length-append, length-drop, drop,
  u64,
}
use de_be_os_rdp.Protocol.Framer.Stream.{run, run_rule}
use de_be_os_rdp.Protocol.Framer.Runs.{
  shift, run-shift, run-Extends, run-Waits, run-switch, Extends, Waits,
}
use de_be_os_rdp.Protocol.Framer.Lossless.{IsFramer, feed-ok, feed-open, scanned}
use de_be_os_rdp.Protocol.Framer.{
  Message, FrameError, Framer, Scan, done, broken, absorb, rounds, feed, max_message_size,
}

-- A run keeps no more than it was given.
abbrev Shrinks : List ℕ → Scan → Type 0
Shrinks rest (done messages rest' offset seen) = length rest' ≤ length rest
Shrinks rest (broken e) = Unit

Shrinks-drop : (n : ℕ) (rest : List ℕ) (s : Scan) → Shrinks (drop n rest) s → Shrinks rest s
Shrinks-drop n rest (done m r o k) h = omega (arith, length-drop n rest)
Shrinks-drop n rest (broken e) h = tt

pub run-Shrinks :
    (stop_after : Option ℕ) (at_segment : Bool) (base fuel : ℕ) (rest : List ℕ) (offset : ℕ)
    (messages : List Message)
    → length rest < fuel
    → Shrinks rest (run stop_after at_segment base fuel rest offset messages)
run-Shrinks stop_after at_segment base =
    run_rule stop_after at_segment base (λ rest offset messages s. Shrinks rest s)
      (λ rest offset messages seen e. omega arith) (λ rest offset messages x e. tt)
      (λ rest offset messages op payload total e stop. omega (arith, length-drop total rest))
      (λ rest offset messages op payload total s e go ih. Shrinks-drop total rest s ih)

-- The framer after a run that did not break.
abbrev after_run : Framer → List ℕ → ℕ → Bool → Framer
after_run f rest offset seen = record f {
  buffer = rest;
  stream_offset = u64 (f.stream_offset + offset);
  segment_start_seen = f.segment_start_seen || seen;
}

module _ (f : Framer) (a b : List ℕ) (at_segment : Bool) (ms : List Message) (rest : List ℕ)
    (offset : ℕ) (seen : Bool)
    (first : scanned f a none at_segment ≡ done ms rest offset seen) where
  abbrev g : Framer
  g = after_run f rest offset seen

  abbrev joined : List ℕ
  joined = f.buffer ++ (a ++ b)

  scanned-append :
      scanned f (a ++ b) none at_segment
      ≡ run none at_segment f.stream_offset (rounds (rest ++ b)) (rest ++ b) offset ms
  scanned-append =
      let e =
        run-Extends at_segment f.stream_offset b (rounds (f.buffer ++ a)) (f.buffer ++ a) 0 []
          (omega arith) in
      let e' = subst (Extends at_segment f.stream_offset b (f.buffer ++ a) 0 []) first e in
      rw (← append_assoc f.buffer a b)
        (e' (rounds ((f.buffer ++ a) ++ b)) (rounds (rest ++ b)) (omega arith) (omega arith))

  scanned-shift : scanned f (a ++ b) none at_segment ≡ shift offset ms (scanned g b none at_segment)
  scanned-shift =
      let z : offset + 0 ≡ offset = omega arith in
      let s =
        run-shift none at_segment f.stream_offset offset ms (rounds (rest ++ b)) (rest ++ b) 0 []
          (omega arith) (rounds (rest ++ b)) (omega arith) in
      scanned-append ∙ (rw (z, append-nil ms) at s)

  -- A run that stopped at the switch stays there.
  seen-stays :
      (m : List Message) (r : List ℕ) (o : ℕ) (k : Bool)
      → scanned g b none at_segment ≡ done m r o k
      → seen ≡ true
      → k ≡ true
  seen-stays m r o k second t =
      let w = subst (Waits at_segment f.stream_offset) first (
        run-Waits at_segment f.stream_offset (rounds (f.buffer ++ a)) (f.buffer ++ a) 0 []
          (omega arith)) in
      let s =
        run-switch at_segment f.stream_offset rest b offset ms (rounds (rest ++ b)) (rw t at w)
          (omega arith) in
      flag (sym s ∙ sym scanned-append ∙ scanned-shift ∙ ap (shift offset ms) second)
    where
      flag : done ms (rest ++ b) offset true ≡ done (ms ++ m) r (offset + o) k → k ≡ true
      flag e = cc

  absorb-shift :
      (m : List Message) (r : List ℕ) (o : ℕ) (k : Bool)
      → (seen ≡ true → k ≡ true)
      → absorb f (shift offset ms (done m r o k)) ≡ (after_run g r o k, ok (ms ++ m))
  absorb-shift m r o k h =
      let so : u64 (f.stream_offset + (offset + o)) ≡ u64 (u64 (f.stream_offset + offset) + o) =
        omega arith in
      let flags : (f.segment_start_seen || k) ≡ ((f.segment_start_seen || seen) || k) =
        ground arith in
      rw (so, flags) refl

  kept : length rest ≤ length f.buffer + length a
  kept =
      let w = subst (Shrinks (f.buffer ++ a)) first (
        run-Shrinks none at_segment f.stream_offset (rounds (f.buffer ++ a)) (f.buffer ++ a) 0 []
          (omega arith)) in
      omega (arith, length-append f.buffer a)

  module _ (live : f.failure ≡ none)
      (room : length f.buffer + length a + length b ≤ max_message_size) where
    feed-joined :
        feed f (a ++ b) none at_segment ≡ absorb f (shift offset ms (scanned g b none at_segment))
    feed-joined =
        feed-open f (a ++ b) none at_segment live (omega (arith, length-append a b))
        ∙ ap (absorb f) scanned-shift

    feed-second : feed g b none at_segment ≡ absorb g (scanned g b none at_segment)
    feed-second = feed-open g b none at_segment live (omega (arith, kept))

    joined_ok :
        (s : Scan) (h : Framer) (ns : List Message)
        → scanned g b none at_segment ≡ s
        → absorb g s ≡ (h, ok ns)
        → absorb f (shift offset ms s) ≡ (h, ok (ms ++ ns))
    joined_ok (broken e) h ns eq k = absurd (cc)
    joined_ok (done m r o q) h ns eq k =
        let same : ns ≡ m = cc in
        let state : h ≡ after_run g r o q =
          ap (λ (x : Framer × Result FrameError (List Message)). x.0) (sym k) in
        absorb-shift m r o q (seen-stays m r o q eq) ∙ rw (state, same) refl

broken_state :
    (f g h : Framer) (ms : List Message) (offset : ℕ) (e : FrameError) (s : Scan)
    → absorb g s ≡ (h, err e)
    → ((absorb f (shift offset ms s)).1 ≡ err e)
      × ((absorb f (shift offset ms s)).0.buffer ≡ [])
      × ((absorb f (shift offset ms s)).0.failure ≡ some e)
broken_state f g h ms offset e (done m r o q) k = absurd (cc)
broken_state f g h ms offset e (broken x) k =
    let same : x ≡ e = cc in (rw same refl, refl, rw same refl)

-- What a feed that returns messages did.
IsRun : Framer → List ℕ → Bool → List Message → Framer → Type 0
IsRun f a at_segment ms g =
    (rest : List ℕ) × (offset : ℕ) × (seen : Bool) × (scanned f a none at_segment
      ≡ done ms rest offset seen)
    × (g ≡ after_run f rest offset seen)

absorb-IsRun :
    (f g : Framer) (a : List ℕ) (at_segment : Bool) (ms : List Message) (s : Scan)
    → scanned f a none at_segment ≡ s
    → absorb f s ≡ (g, ok ms)
    → IsRun f a at_segment ms g
unfolding IsRun
absorb-IsRun f g a at_segment ms (broken e) h k = absurd (cc)
absorb-IsRun f g a at_segment ms (done m r o q) h k =
    let same : m ≡ ms = cc in
    (
      r,
      o,
      q,
      h ∙ ap (λ (x : List Message). done x r o q) same,
      ap (λ (x : Framer × Result FrameError (List Message)). x.0) (sym k),
    )

-- Without an opcode to stop after, and with the buffered bytes and both chunks within 64 MiB, feeding
-- `a` and then `b` is feeding them together. When both chunks give messages, the one feed returns those of the first and then those of the second, and leaves the same framer.
pub feed-append :
    (f g h : Framer) (a b : List ℕ) (at_segment : Bool) (ms ns : List Message)
    → IsFramer f
    → length f.buffer + length a + length b ≤ max_message_size
    → feed f a none at_segment ≡ (g, ok ms)
    → feed g b none at_segment ≡ (h, ok ns)
    → feed f (a ++ b) none at_segment ≡ (h, ok (ms ++ ns))
unfolding IsRun
feed-append f g h a b at_segment ms ns v n first second =
    let (live, fits, k) = feed-ok f g a none at_segment ms v first in
    let (rest, offset, seen, run1, state) = absorb-IsRun f g a at_segment ms _ refl k in
    let second' = subst (λ (x : Framer). feed x b none at_segment ≡ (h, ok ns)) state second in
    feed-joined f a b at_segment ms rest offset seen run1 live n
    ∙ joined_ok f a b at_segment ms rest offset seen run1 live n _ h ns refl
        (sym (feed-second f a b at_segment ms rest offset seen run1 live n) ∙ second')

-- Without an opcode to stop after, and with the buffered bytes and both chunks within 64 MiB: when
-- the first chunk gives messages and the second one breaks the stream, so does the one feed, with the same error: the messages
-- of the first chunk are then not returned, and nothing stays buffered.
pub feed-append_broken :
    (f g h : Framer) (a b : List ℕ) (at_segment : Bool) (ms : List Message) (e : FrameError)
    → IsFramer f
    → length f.buffer + length a + length b ≤ max_message_size
    → feed f a none at_segment ≡ (g, ok ms)
    → feed g b none at_segment ≡ (h, err e)
    → ((feed f (a ++ b) none at_segment).1 ≡ err e)
      × ((feed f (a ++ b) none at_segment).0.buffer ≡ [])
      × ((feed f (a ++ b) none at_segment).0.failure ≡ some e)
unfolding IsRun
feed-append_broken f g h a b at_segment ms e v n first second =
    let (live, fits, k) = feed-ok f g a none at_segment ms v first in
    let (rest, offset, seen, run1, state) = absorb-IsRun f g a at_segment ms _ refl k in
    let second' = subst (λ (x : Framer). feed x b none at_segment ≡ (h, err e)) state second in
    let both = feed-joined f a b at_segment ms rest offset seen run1 live n in
    rw both (
      broken_state f (after_run f rest offset seen) h ms offset e _
        (sym (feed-second f a b at_segment ms rest offset seen run1 live n) ∙ second'))
