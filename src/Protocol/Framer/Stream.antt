-- ===== src/Protocol/Framer/Stream.antt =====
-- The framer's loop as a whole: it ends within its fuel, and it splits the bytes into the messages
-- that it returns and the rest that it keeps.
use de_be_os_rdp.Prelude.{
  ℕ, zero, suc, ◌+◌, ◌≤◌, ◌<◌, ◌≡◌, ◌≢◌, refl, sym, subst, List, [], ◌∷◌, ◌++◌, Bool, true, false,
  Option, arith, length, drop, length-drop, All, IsByte, IsU16, inl, inr, u64, if◌then◌else◌,
  Bool-cases,
}
use de_be_os_rdp.Protocol.Bytes.{le16, le32}
use de_be_os_rdp.Protocol.Writer
use de_be_os_rdp.Protocol.Framer.{
  Message, Step, wait, desync, frame, FrameError, stuck, header_step, next_step, Scan, done, broken,
  scan, stops, message_header_size, max_message_size,
}

-- The bytes of messages on the wire, one behind the other.
abbrev pub encode : List Message → List ℕ
encode [] = []
encode (m ∷ ms) = Writer.frame m.op m.payload ++ encode ms

abbrev pub shown : ℕ → List ℕ → Message
shown op payload = record { op = op; payload = payload }

pub length-frame :
    (op : ℕ) (payload : List ℕ)
    → length (Writer.frame op payload) ≡ length payload + message_header_size
unfolding le16 le32
length-frame op payload = omega arith

-- A message that fits the wire: a 16-bit opcode, and a size within the limit.
pub record IsMessage (m : Message) : Type 0 where
  pub op_fits : IsU16 m.op
  pub size_fits : length m.payload + message_header_size ≤ max_message_size

pub All-drop : (n : ℕ) (xs : List ℕ) → All IsByte xs → All IsByte (drop n xs)
All-drop zero xs h = h
All-drop (suc n) [] h = h
All-drop (suc n) (x ∷ xs) h = All-drop n xs h.1

-- A frame takes up its header at least.
pub next_step_takes :
    (at_segment : Bool) (position : ℕ) (p : List ℕ) {op : ℕ} {payload : List ℕ} {total : ℕ}
    → next_step at_segment position p ≡ frame op payload total
    → (message_header_size ≤ total) × (total ≤ length p)
unfolding next_step header_step
next_step_takes at_segment position p e = ground arith

pub next_step-ne-stuck :
    (at_segment : Bool) (position : ℕ) (p : List ℕ) → next_step at_segment position p ≢ desync stuck
unfolding next_step header_step
next_step-ne-stuck at_segment position p e = ground arith

module _ (stop_after : Option ℕ) (at_segment : Bool) (base : ℕ) where
  abbrev pub run : ℕ → List ℕ → ℕ → List Message → Scan
  run fuel rest offset messages = scan fuel stop_after at_segment base rest offset messages

  -- The loop on a result of its step.
  abbrev pub resume : ℕ → List ℕ → ℕ → List Message → Step → Scan
  resume fuel rest offset messages (wait seen) = done messages rest offset seen
  resume fuel rest offset messages (desync e) = broken e
  resume fuel rest offset messages (frame op payload total) =
      let messages' = messages ++ record { op = op; payload = payload } ∷ [] in
      let rest' = drop total rest in
      let offset' = offset + total in
      if stops stop_after op
      then done messages' rest' offset' false
      else run fuel rest' offset' messages'

  abbrev pub step_at : ℕ → List ℕ → Step
  step_at offset rest = next_step at_segment (u64 (base + offset)) rest

  pub scan-resume :
      (fuel : ℕ) (rest : List ℕ) (offset : ℕ) (messages : List Message) (s : Step)
      → step_at offset rest ≡ s
      → run (suc fuel) rest offset messages ≡ resume fuel rest offset messages s
  unfolding scan
  scan-resume fuel rest offset messages (wait seen) e = rw (e, scan)
  scan-resume fuel rest offset messages (desync x) e = rw (e, scan)
  scan-resume fuel rest offset messages (frame op payload total) e = rw (e, scan)

  -- The same for any fuel that exceeds the bytes.
  pub run-resume :
      (fuel : ℕ) (rest : List ℕ) (offset : ℕ) (messages : List Message) (s : Step)
      → length rest < fuel
      → step_at offset rest ≡ s
      → (left : ℕ) × (length rest ≤ left)
        × (run fuel rest offset messages ≡ resume left rest offset messages s)
  run-resume zero rest offset messages s h e = absurd (omega arith)
  run-resume (suc left) rest offset messages s h e =
      (left, omega arith, scan-resume left rest offset messages s e)

  -- The induction rule of the loop: what holds where a round ends it, and carries over a round
  -- that takes a frame, holds of the result. `run` is told by its result alone.
  module _ (P : List ℕ → ℕ → List Message → Scan → Type 0)
      (waits : (rest : List ℕ) (offset : ℕ) (messages : List Message) (seen : Bool)
        → step_at offset rest ≡ wait seen
        → P rest offset messages (done messages rest offset seen))
      (fails : (rest : List ℕ) (offset : ℕ) (messages : List Message) (x : FrameError)
        → step_at offset rest ≡ desync x
        → P rest offset messages (broken x))
      (halts : (rest : List ℕ) (offset : ℕ) (messages : List Message) (op : ℕ) (payload : List ℕ)
          (total : ℕ)
        → step_at offset rest ≡ frame op payload total
        → stops stop_after op ≡ true
        → P rest offset messages
            (done (messages ++ shown op payload ∷ []) (drop total rest) (offset + total) false))
      (takes : (rest : List ℕ) (offset : ℕ) (messages : List Message) (op : ℕ) (payload : List ℕ)
          (total : ℕ) (s : Scan)
        → step_at offset rest ≡ frame op payload total
        → stops stop_after op ≡ false
        → P (drop total rest) (offset + total) (messages ++ shown op payload ∷ []) s
        → P rest offset messages s) where
    round_rule :
        (fuel : ℕ) (rest : List ℕ) (offset : ℕ) (messages : List Message) (s : Step)
        → length rest < suc fuel
        → step_at offset rest ≡ s
        → ((r : List ℕ) (o : ℕ) (m : List Message) → length r < fuel → P r o m (run fuel r o m))
        → P rest offset messages (resume fuel rest offset messages s)
    round_rule fuel rest offset messages (wait seen) h e ih = waits rest offset messages seen e
    round_rule fuel rest offset messages (desync x) h e ih = fails rest offset messages x e
    round_rule fuel rest offset messages (frame op payload total) h e ih =
        elim (Bool-cases (stops stop_after op)) [
          | inl stop ↦ rw stop (halts rest offset messages op payload total e stop)
          | inr go ↦
              let t = next_step_takes at_segment (u64 (base + offset)) rest e in
              rw go (
                takes rest offset messages op payload total _ e go (
                  ih (drop total rest) (offset + total) (messages ++ shown op payload ∷ [])
                    (omega (arith, length-drop total rest))))
        ]

    pub run_rule :
        (fuel : ℕ) (rest : List ℕ) (offset : ℕ) (messages : List Message)
        → length rest < fuel
        → P rest offset messages (run fuel rest offset messages)
    run_rule zero rest offset messages h = absurd (omega arith)
    run_rule (suc fuel) rest offset messages h =
        subst (P rest offset messages)
          (sym (scan-resume fuel rest offset messages (step_at offset rest) refl))
          (round_rule fuel rest offset messages (step_at offset rest) h refl (run_rule fuel))
