-- ===== src/Protocol/Framer/Ends.antt =====
-- The loop of feed ends within its fuel.
use de_be_os_rdp.Prelude.{
  ℕ, ◌≡◌, ◌≢◌, List, [], ◌++◌, Bool, Bool-cases, inl, inr, Option, some, Option-cases, err, ltb,
  ◌-◌, min, length, ap, ◌∙◌, arith,
}
use de_be_os_rdp.Protocol.Framer.{
  stuck, Framer, Scan, done, broken, absorb, rounds, feed, max_message_size,
}
use de_be_os_rdp.Protocol.Framer.Stream.{run}
use de_be_os_rdp.Protocol.Framer.Runs.{run-ne-stuck}

absorb-ends : (f : Framer) (s : Scan) → s ≢ broken stuck → (absorb f s).1 ≢ err stuck
absorb-ends f (done messages rest offset seen) h e = cc
absorb-ends f (broken x) h e = let same : x ≡ stuck = cc in h (ap broken same)

-- A feed of any bytes to a framer ends without running out of fuel: a round for each buffered byte
-- and one more are enough.
pub feed-total :
    (f : Framer) (bytes : List ℕ) (stop_after : Option ℕ) (at_segment : Bool)
    → f.failure ≢ some stuck
    → (feed f bytes stop_after at_segment).1 ≢ err stuck
unfolding feed
feed-total f bytes stop_after at_segment h = elim (Option-cases f.failure) [
  | inr (e, old) ↦ simp (old, feed) (λ x. h (old ∙ (let same : e ≡ stuck = cc in ap some same)))
  | inl live ↦
      elim (Bool-cases
        (ltb (max_message_size - min (length f.buffer) max_message_size) (length bytes))) [
          | inl full ↦ simp (live, feed, full) (λ x. cc)
          | inr room ↦
              let buffer = f.buffer ++ bytes in
              simp (live, feed, room)
                (absorb-ends f
                  (run stop_after at_segment f.stream_offset (rounds buffer) buffer 0 [])
                  (run-ne-stuck stop_after at_segment f.stream_offset (rounds buffer) buffer 0 []
                    (omega arith)))
        ]
]
