-- ===== src/Protocol/Framer/Lossless.antt =====
-- Framer::feed loses and makes up no byte: what it was given is the frames of the messages that it
-- returns, and the bytes that it keeps.
use de_be_os_rdp.Prelude.{
  All-append, ℕ, ◌+◌, ◌-◌, ◌≤◌, ◌<◌, ◌≡◌, refl, sym, ap, ◌∙◌, List, [], ◌∷◌, ◌++◌, append_assoc,
  append-nil, Bool, true, false, Option, none, some, Result, ok, err, arith, length, length-append,
  drop, All, IsByte, min, u64, ltb, le→ltb, lt→ltb, Bool-cases, Option-cases, inl, inr, ltb→le,
  ltb→lt,
}
use de_be_os_rdp.Protocol.Writer
use de_be_os_rdp.Protocol.Framer.Taken.{next_step-IsTaken}
use de_be_os_rdp.Protocol.Framer.Stream.{
  encode, IsMessage, All-drop, run, run_rule, shown, step_at, length-frame,
}
use de_be_os_rdp.Protocol.Framer.{
  Message, frame, FrameError, pending_overflow, Framer, fail, Scan, done, broken, absorb, rounds,
  feed, max_message_size,
}

-- The bytes are the frames of the new messages, and what is left.
abbrev Splits : List ℕ → ℕ → List Message → Scan → Type 0
Splits rest offset messages (done messages' rest' offset' seen) =
    All IsByte rest
    → (new : List Message) × (messages' ≡ messages ++ new)
      × (rest ≡ encode new ++ rest')
      × (offset' ≡ offset + length (encode new))
      × All IsMessage new
Splits rest offset messages (broken e) = Unit

module _ (stop_after : Option ℕ) (at_segment : Bool) (base : ℕ) where
  Splits-takes :
      (rest : List ℕ) (offset : ℕ) (messages : List Message) (op : ℕ) (payload : List ℕ) (total : ℕ)
      (s : Scan)
      → step_at stop_after at_segment base offset rest ≡ frame op payload total
      → Splits (drop total rest) (offset + total) (messages ++ shown op payload ∷ []) s
      → Splits rest offset messages s
  Splits-takes rest offset messages op payload total (broken x) e h = tt
  Splits-takes rest offset messages op payload total (done messages' rest' offset' seen) e h =
      λ bytes.
        let t = next_step-IsTaken at_segment (u64 (base + offset)) rest op payload total bytes e in
        let (new, joined, split, moved, valid) = h (All-drop total rest bytes) in
        (
          shown op payload ∷ new,
          joined ∙ append_assoc messages (shown op payload ∷ []) new,
          t.front
              ∙ ap (◌++◌ (Writer.frame op payload)) split
              ∙ sym (append_assoc (Writer.frame op payload) (encode new) rest'),
          omega (
            arith,
            length-append (Writer.frame op payload) (encode new),
            length-frame op payload,
            t.total_is,
          ),
          (
            record { op_fits = t.op_fits; size_fits = omega (arith, t.total_is, t.total_fits) },
            valid,
          ),
        )

  run-Splits :
      (fuel : ℕ) (rest : List ℕ) (offset : ℕ) (messages : List Message)
      → length rest < fuel
      → Splits rest offset messages (run stop_after at_segment base fuel rest offset messages)
  run-Splits =
      run_rule stop_after at_segment base Splits
        (λ rest offset messages seen e. nothing_new rest offset messages seen)
        (λ rest offset messages x e. tt)
        (λ rest offset messages op payload total e stop.
          Splits-takes rest offset messages op payload total
            (done (messages ++ shown op payload ∷ []) (drop total rest) (offset + total) false) e
            (nothing_new (drop total rest) (offset + total) (messages ++ shown op payload ∷ [])
              false))
        (λ rest offset messages op payload total s e go h.
          Splits-takes rest offset messages op payload total s e h)
    where
      nothing_new :
          (rest : List ℕ) (offset : ℕ) (messages : List Message) (seen : Bool)
          → Splits rest offset messages (done messages rest offset seen)
      nothing_new rest offset messages seen bytes =
          ([], sym (append-nil messages), refl, omega arith, tt)

-- What feed does on each kind of state and input.
module _ (f : Framer) (bytes : List ℕ) (stop_after : Option ℕ) (at_segment : Bool) where
  pub feed-latched :
      {e : FrameError} → f.failure ≡ some e → feed f bytes stop_after at_segment ≡ (f, err e)
  unfolding feed
  feed-latched h = simp (h, feed)

  abbrev pub scanned : Scan
  scanned =
      run stop_after at_segment f.stream_offset (rounds (f.buffer ++ bytes)) (f.buffer ++ bytes) 0
        []

  pub feed-open :
      f.failure ≡ none
      → length f.buffer + length bytes ≤ max_message_size
      → feed f bytes stop_after at_segment ≡ absorb f scanned
  unfolding feed
  feed-open h n =
      let room : ltb (max_message_size - min (length f.buffer) max_message_size) (length bytes)
          ≡ false =
        le→ltb _ (length bytes) (omega arith) in
      simp (h, feed, room)

  pub feed-overflow :
      f.failure ≡ none
      → length f.buffer ≤ max_message_size
      → max_message_size < length f.buffer + length bytes
      → let e = pending_overflow (length f.buffer) (length bytes) f.stream_offset in
        feed f bytes stop_after at_segment ≡ (fail f e, err e)
  unfolding feed
  feed-overflow h b n =
      let full : ltb (max_message_size - min (length f.buffer) max_message_size) (length bytes)
          ≡ true =
        lt→ltb _ (length bytes) (omega arith) in
      simp (h, feed, full)

-- What holds of every framer: its buffer holds bytes, within the limit.
pub record IsFramer (f : Framer) : Type 0 where
  pub bytes : All IsByte f.buffer
  pub room : length f.buffer ≤ max_message_size

-- A feed that returns messages met no earlier failure and had room for its input.
pub feed-ok :
    (f f' : Framer) (bytes : List ℕ) (stop_after : Option ℕ) (at_segment : Bool) (ms : List Message)
    → IsFramer f
    → feed f bytes stop_after at_segment ≡ (f', ok ms)
    → (f.failure ≡ none)
      × (length f.buffer + length bytes ≤ max_message_size)
      × (absorb f (scanned f bytes stop_after at_segment) ≡ (f', ok ms))
feed-ok f f' bytes stop_after at_segment ms v h = elim (Option-cases f.failure) [
  | inr (e, failed) ↦ absurd (cc (feed-latched f bytes stop_after at_segment failed))
  | inl live ↦ elim (Bool-cases (ltb max_message_size (length f.buffer + length bytes))) [
    | inl full ↦ absurd (
        cc (
          feed-overflow f bytes stop_after at_segment live v.room
            (ltb→lt max_message_size (length f.buffer + length bytes) full)))
    | inr fits ↦
        let n = ltb→le max_message_size (length f.buffer + length bytes) fits in
        (live, n, sym (feed-open f bytes stop_after at_segment live n) ∙ h)
  ]
]

absorb-lossless :
    (f f' : Framer) (buffer : List ℕ) (s : Scan) (ms : List Message)
    → Splits buffer 0 [] s
    → All IsByte buffer
    → absorb f s ≡ (f', ok ms)
    → (buffer ≡ encode ms ++ f'.buffer)
      × (f'.stream_offset ≡ u64 (f.stream_offset + length (encode ms)))
      × All IsMessage ms
absorb-lossless f f' buffer (broken e) ms h bytes k = absurd (cc)
absorb-lossless f f' buffer (done messages rest offset seen) ms h bytes k =
    let (new, joined, split, moved, valid) = h bytes in
    let same : ms ≡ new = cc in
    let kept : f'.buffer ≡ rest =
      ap (λ (r : Framer × Result FrameError (List Message)). r.0.buffer) (sym k) in
    let at : f'.stream_offset ≡ u64 (f.stream_offset + offset) =
      ap (λ (r : Framer × Result FrameError (List Message)). r.0.stream_offset) (sym k) in
    let moved' : offset ≡ length (encode new) = omega (arith, moved) in
    (rw (same, kept) split, rw (same, at, moved') refl, rw same valid)

-- When feed returns messages, the bytes buffered before and those offered are exactly the frames
-- of these messages followed by the bytes that stay buffered; the stream offset grows by the
-- frames' length (as a uint64), and every message has a 16-bit opcode and a size in the limit.
pub feed_lossless :
    (f f' : Framer) (bytes : List ℕ) (stop_after : Option ℕ) (at_segment : Bool) (ms : List Message)
    → IsFramer f
    → All IsByte bytes
    → feed f bytes stop_after at_segment ≡ (f', ok ms)
    → (f.buffer ++ bytes ≡ encode ms ++ f'.buffer)
      × (f'.stream_offset ≡ u64 (f.stream_offset + length (encode ms)))
      × All IsMessage ms
feed_lossless f f' bytes stop_after at_segment ms v b h =
    let (live, fits, k) = feed-ok f f' bytes stop_after at_segment ms v h in
    let buffer = f.buffer ++ bytes in
    absorb-lossless f f' buffer (scanned f bytes stop_after at_segment) ms
      (run-Splits stop_after at_segment f.stream_offset (rounds buffer) buffer 0 [] (omega arith))
      (All-append IsByte f.buffer bytes v.bytes b) k
