-- ===== src/Protocol/Framer/Runs.antt =====
-- How runs of the framer's loop compare: with more fuel, from another offset, and on more bytes.
use native.Mathlib.Nat.{add_assoc}
use de_be_os_rdp.Prelude.{
  ℕ, ◌+◌, ◌≤◌, ◌<◌, ◌≡◌, ◌≢◌, refl, sym, ap, subst, ◌∙◌, List, [], ◌∷◌, ◌++◌, append_assoc, Bool,
  true, Option, none, arith, length, length-append, drop, length-drop, drop-append_le, u64,
}
use de_be_os_rdp.Protocol.Framer.Steps.{IsFinal, next_step-append}
use de_be_os_rdp.Protocol.Framer.Stream.{
  run, resume, run_rule, run-resume, shown, step_at, next_step_takes, next_step-ne-stuck,
}
use de_be_os_rdp.Protocol.Framer.{
  Message, Step, wait, desync, frame, stuck, Scan, done, broken, next_step,
}

-- The outcome of a run behind messages and bytes that are already dealt with.
abbrev pub shift : ℕ → List Message → Scan → Scan
shift o ms (done messages rest offset seen) = done (ms ++ messages) rest (o + offset) seen
shift o ms (broken e) = broken e

module _ (stop_after : Option ℕ) (at_segment : Bool) (base : ℕ) where
  pub run-ne-stuck :
      (fuel : ℕ) (rest : List ℕ) (offset : ℕ) (messages : List Message)
      → length rest < fuel
      → run stop_after at_segment base fuel rest offset messages ≢ broken stuck
  run-ne-stuck =
      run_rule stop_after at_segment base (λ rest offset messages s. s ≢ broken stuck)
        (λ rest offset messages seen e x. cc)
        (λ rest offset messages y e x.
          next_step-ne-stuck at_segment (u64 (base + offset)) rest
            (e ∙ ap (λ (s : Scan). elim s [ done m r o k ↦ wait k | broken z ↦ desync z ]) x))
        (λ rest offset messages op payload total e stop x. cc)
        (λ rest offset messages op payload total s e go h. h)

  -- A run reaches `s` whatever its fuel, and so does one that starts `o` bytes and the messages
  -- `ms` later, at the same place of the stream.
  abbrev Shifts : ℕ → List Message → List ℕ → ℕ → List Message → Scan → Type 0
  Shifts o ms rest offset messages s =
      (fuel : ℕ)
      → length rest < fuel
      → run stop_after at_segment base fuel rest (o + offset) (ms ++ messages) ≡ shift o ms s

module _ (stop_after : Option ℕ) (at_segment : Bool) (base o : ℕ) (ms : List Message) where
  abbrev later : ℕ
  later = u64 (base + o)

  step_at-later :
      (offset : ℕ) (rest : List ℕ)
      → step_at stop_after at_segment base (o + offset) rest
        ≡ step_at stop_after at_segment later offset rest
  step_at-later offset rest =
      let e : u64 (base + (o + offset)) ≡ u64 (u64 (base + o) + offset) = omega arith in
      ap (λ (n : ℕ). next_step at_segment n rest) e

  pub run-shift :
      (fuel : ℕ) (rest : List ℕ) (offset : ℕ) (messages : List Message)
      → length rest < fuel
      → Shifts stop_after at_segment base o ms rest offset messages
          (run stop_after at_segment later fuel rest offset messages)
  run-shift =
      run_rule stop_after at_segment later (Shifts stop_after at_segment base o ms)
        (λ rest offset messages seen e fuel h.
          let (left, n, r) =
            run-resume stop_after at_segment base fuel rest (o + offset) (ms ++ messages)
              (wait seen) h (step_at-later offset rest ∙ e) in
          r)
        (λ rest offset messages x e fuel h.
          let (left, n, r) =
            run-resume stop_after at_segment base fuel rest (o + offset) (ms ++ messages) (desync x)
              h (step_at-later offset rest ∙ e) in
          r)
        (λ rest offset messages op payload total e stop fuel h.
          let (left, n, r) =
            run-resume stop_after at_segment base fuel rest (o + offset) (ms ++ messages)
              (frame op payload total) h (step_at-later offset rest ∙ e) in
          r ∙ rw stop (rw (append_assoc ms messages, add_assoc o offset total) refl))
        (λ rest offset messages op payload total s e go ih fuel h.
          let (left, n, r) =
            run-resume stop_after at_segment base fuel rest (o + offset) (ms ++ messages)
              (frame op payload total) h (step_at-later offset rest ∙ e) in
          let t = next_step_takes at_segment (u64 (later + offset)) rest e in
          r
          ∙ rw go (
              rw (append_assoc ms messages, add_assoc o offset total)
                (ih left (omega (arith, length-drop total rest)))))

pub run-fuel :
    (stop_after : Option ℕ) (at_segment : Bool) (base fuel : ℕ) (rest : List ℕ) (offset : ℕ)
    (messages : List Message)
    → length rest < fuel
    → (other : ℕ) → length rest < other
    → run stop_after at_segment base other rest offset messages
      ≡ run stop_after at_segment base fuel rest offset messages
run-fuel stop_after at_segment base =
    run_rule stop_after at_segment base
      (λ rest offset messages s.
        (other : ℕ)
        → length rest < other
        → run stop_after at_segment base other rest offset messages ≡ s)
      (λ rest offset messages seen e other h. (reached rest offset messages e other h).2)
      (λ rest offset messages x e other h. (reached rest offset messages e other h).2)
      (λ rest offset messages op payload total e stop other h.
        (reached rest offset messages e other h).2 ∙ rw stop refl)
      (λ rest offset messages op payload total s e go ih other h.
        let (left, n, r) = reached rest offset messages e other h in
        let t = next_step_takes at_segment (u64 (base + offset)) rest e in
        r ∙ rw go (ih left (omega (arith, length-drop total rest))))
  where
    reached :
        (rest : List ℕ) (offset : ℕ) (messages : List Message) {s : Step}
        → step_at stop_after at_segment base offset rest ≡ s
        → (other : ℕ) → length rest < other
        → (left : ℕ) × (length rest ≤ left)
          × (run stop_after at_segment base other rest offset messages
              ≡ resume stop_after at_segment base left rest offset messages s)
    reached rest offset messages {s} e other h =
        run-resume stop_after at_segment base other rest offset messages s h e

module _ (at_segment : Bool) (base : ℕ) where
  -- A run on more bytes goes on from where the run on the first ones stopped.
  abbrev pub Extends : List ℕ → List ℕ → ℕ → List Message → Scan → Type 0
  Extends more rest offset messages (done messages' rest' offset' seen) =
      (fuel left : ℕ)
      → length (rest ++ more) < fuel
      → length (rest' ++ more) < left
      → run none at_segment base fuel (rest ++ more) offset messages
        ≡ run none at_segment base left (rest' ++ more) offset' messages'
  Extends more rest offset messages (broken e) =
      (fuel : ℕ)
      → length (rest ++ more) < fuel
      → run none at_segment base fuel (rest ++ more) offset messages ≡ broken e

  module _ (more : List ℕ) where
    step_at-append :
        (offset : ℕ) (rest : List ℕ) {s : Step}
        → step_at none at_segment base offset rest ≡ s
        → IsFinal s
        → step_at none at_segment base offset (rest ++ more) ≡ s
    step_at-append offset rest e d =
        next_step-append at_segment (u64 (base + offset)) rest more (subst IsFinal (sym e) d) ∙ e

    -- One round on the longer bytes takes the same frame.
    takes-append :
        (rest : List ℕ) (offset : ℕ) (messages : List Message) (op : ℕ) (payload : List ℕ)
        (total : ℕ)
        → step_at none at_segment base offset rest ≡ frame op payload total
        → (fuel : ℕ) → length (rest ++ more) < fuel
        → (left : ℕ) × (length (drop total rest ++ more) < left)
          × (run none at_segment base fuel (rest ++ more) offset messages
              ≡ run none at_segment base left
                  (drop total rest ++ more)
                  (offset + total)
                  (messages ++ shown op payload ∷ []))
    takes-append rest offset messages op payload total e fuel h =
        let (left, n, r) =
          run-resume none at_segment base fuel (rest ++ more) offset messages
            (frame op payload total) h (step_at-append offset rest e tt) in
        let t = next_step_takes at_segment (u64 (base + offset)) rest e in
        (
          left,
          omega (
            arith,
            length-append rest more,
            length-append (drop total rest) more,
            length-drop total rest,
          ),
          r ∙ rw (drop-append_le total rest more t.1) refl,
        )

    takes-Extends :
        (rest : List ℕ) (offset : ℕ) (messages : List Message) (op : ℕ) (payload : List ℕ)
        (total : ℕ) (s : Scan)
        → step_at none at_segment base offset rest ≡ frame op payload total
        → Extends more (drop total rest) (offset + total) (messages ++ shown op payload ∷ []) s
        → Extends more rest offset messages s
    takes-Extends rest offset messages op payload total (done m r o seen) e ih = λ fuel left h k.
        let (mid, n, step) = takes-append rest offset messages op payload total e fuel h in
        step ∙ ih mid left n k
    takes-Extends rest offset messages op payload total (broken x) e ih = λ fuel h.
        let (mid, n, step) = takes-append rest offset messages op payload total e fuel h in
        step ∙ ih mid n

    pub run-Extends :
        (fuel : ℕ) (rest : List ℕ) (offset : ℕ) (messages : List Message)
        → length rest < fuel
        → Extends more rest offset messages (run none at_segment base fuel rest offset messages)
    run-Extends =
        run_rule none at_segment base (Extends more)
          (λ rest offset messages seen e fuel left h k.
            run-fuel none at_segment base left (rest ++ more) offset messages k fuel h)
          (λ rest offset messages x e fuel h.
            (run-resume none at_segment base fuel (rest ++ more) offset messages (desync x) h
              (step_at-append offset rest e tt)).2)
          (λ rest offset messages op payload total e stop. absurd (cc))
          (λ rest offset messages op payload total s e go ih.
            takes-Extends rest offset messages op payload total s e ih)

  -- Where a run stopped, the step waits; if it stopped at the switch, more bytes do not matter.
  abbrev pub Waits : Scan → Type 0
  Waits (done messages rest offset seen) = step_at none at_segment base offset rest ≡ wait seen
  Waits (broken e) = Unit

  pub run-Waits :
      (fuel : ℕ) (rest : List ℕ) (offset : ℕ) (messages : List Message)
      → length rest < fuel
      → Waits (run none at_segment base fuel rest offset messages)
  run-Waits =
      run_rule none at_segment base (λ rest offset messages s. Waits s)
        (λ rest offset messages seen e. e) (λ rest offset messages x e. tt)
        (λ rest offset messages op payload total e stop. absurd (cc))
        (λ rest offset messages op payload total s e go ih. ih)

  pub run-switch :
      (rest more : List ℕ) (offset : ℕ) (messages : List Message) (fuel : ℕ)
      → step_at none at_segment base offset rest ≡ wait true
      → length (rest ++ more) < fuel
      → run none at_segment base fuel (rest ++ more) offset messages
        ≡ done messages (rest ++ more) offset true
  run-switch rest more offset messages fuel e h =
      (run-resume none at_segment base fuel (rest ++ more) offset messages (wait true) h
        (step_at-append more offset rest e tt)).2
