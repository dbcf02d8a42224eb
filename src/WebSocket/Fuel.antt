-- ===== src/WebSocket/Fuel.antt =====
-- The loop of drain_frames ends: fuel above the buffer's length is never used up.
use de_be_os_rdp.Prelude.{
  ℕ, zero, suc, ◌≤◌, ◌<◌, ◌≡◌, refl, ◌⊎◌, inl, inr, List, Option, none, some, Option-cases, arith,
  length, length-drop, drop,
}
use de_be_os_rdp.WebSocket.{
  Port, WebSocket, SocketError, FrameStep, wait, oversized, frame, read_header, drain_step,
  handle_frame, drain_loop,
}

header_size : (rest : List ℕ) {size n : ℕ} → read_header rest ≡ some (size, n) → 2 ≤ size
unfolding read_header
header_size rest e = ground arith

drain_step_takes :
    (rest : List ℕ) {opcode : ℕ} {payload : List ℕ} {total : ℕ}
    → drain_step rest ≡ frame opcode payload total
    → (2 ≤ total) × (total ≤ length rest)
unfolding drain_step
drain_step_takes rest e = elim (Option-cases (read_header rest)) [
  | inl none_yet ↦ ground arith
  | inr ((size, n), found) ↦ let two = header_size rest found in ground arith
]

FrameStep-cases :
    (s : FrameStep)
    → (s ≡ wait)
      ⊎ ((s ≡ oversized)
          ⊎ ((opcode : ℕ) × (payload : List ℕ) × (total : ℕ) × (s ≡ frame opcode payload total)))
FrameStep-cases wait = inl refl
FrameStep-cases oversized = inr (inl refl)
FrameStep-cases (frame opcode payload total) = inr (inr (opcode, payload, total, refl))

module _ {N : Type 0} (port : Port N) where
  after_frame :
      (x y : WebSocket N × Option SocketError) (w : WebSocket N) (failed : Option SocketError)
      → x ≡ y
      → (elim failed as (λ f. WebSocket N × Option SocketError) [ none ↦ x | some e ↦ (w, some e) ])
        ≡ (elim failed as (λ f. WebSocket N × Option SocketError) [
          | none ↦ y
          | some e ↦ (w, some e)
        ])
  after_frame x y w none h = h
  after_frame x y w (some e) h = refl

  -- Whatever the buffer holds, the loop gives the same result with every fuel above the buffer's
  -- length: it never runs out, so drain_frames ends, and gives what the source's loop gives.
  pub drain_loop_fuel :
      (m n : ℕ) (rest : List ℕ) (w : WebSocket N)
      → length rest < m
      → length rest < n
      → drain_loop port m rest w ≡ drain_loop port n rest w
  unfolding drain_loop
  drain_loop_fuel zero n rest w h k = absurd (omega arith)
  drain_loop_fuel (suc m) zero rest w h k = absurd (omega arith)
  drain_loop_fuel (suc m) (suc n) rest w h k = elim (FrameStep-cases (drain_step rest)) [
    | inl e ↦ rw (e, drain_loop) refl
    | inr (inl e) ↦ rw (e, drain_loop) refl
    | inr (inr (opcode, payload, total, e)) ↦
        let (two, there) = drain_step_takes rest e in
        let handled = handle_frame port opcode payload w in
        let shorter = length-drop total rest in
        rw (e, drain_loop)
          (after_frame (drain_loop port m (drop total rest) handled.0)
            (drain_loop port n (drop total rest) handled.0) handled.0 handled.1
            (drain_loop_fuel m n (drop total rest) handled.0 (omega (arith, shorter))
              (omega (arith, shorter))))
  ]
