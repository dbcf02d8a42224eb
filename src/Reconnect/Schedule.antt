-- ===== src/Reconnect/Schedule.antt =====
-- The schedule over time: its histories as a step relation, the budget that no history exceeds,
-- and the outage that ends in giving up.
use de_be_os_rdp.Prelude.{
  ℕ, ◌+◌, ◌*◌, ◌^◌, ◌≤◌, ◌<◌, ◌≡◌, refl, Bool, true, false, arith, min, max, pos, List, [], ◌∷◌,
  length,
}
use de_be_os_rdp.Reconnect.{
  ConnectionOutcome, ReconnectConfig, ReconnectSchedule, outcome_is_retriable, should_retry,
  new_schedule, connection_ended, request_now, cancel, due, attempt_started, established, geb_ℤ,
  not_below_zero,
}
use de_be_os_rdp.Reconnect.Backoff.{backoff_for-min}

-- What a front end does with a schedule. An attempt starts only when one is due.
pub data Step (s : ReconnectSchedule) : ReconnectSchedule → Type 0 where
  ended : (outcome : ConnectionOutcome) (now : ℕ) → Step s (connection_ended s outcome now).0
  requested : (now : ℕ) → Step s (request_now s now)
  cancelled : Step s (cancel s)
  started : (now : ℕ) → due s now ≡ true → Step s (attempt_started s)
  connected : Step s (established s)

pub data Reach (s : ReconnectSchedule) : ReconnectSchedule → Type 0 where
  here : Reach s s
  next : {t u : ReconnectSchedule} → Reach s t → Step t u → Reach s u

-- The attempts of an outage: the configured bound, or one that the user asked for.
abbrev pub budget : ReconnectConfig → ℕ
budget c = max 1 (not_below_zero c.max_attempts)

pub record IsScheduled (c : ReconnectConfig) (s : ReconnectSchedule) : Type 0 where
  pub same_config : s.config ≡ c
  pub within : s.attempts_made ≤ budget c
  pub room : s.pending ≡ true → s.attempts_made < budget c
  pub settled : s.pending ≡ true → s.gave_up ≡ false
  pub reason : s.exhausted ≡ true → s.gave_up ≡ true

module _ (c : ReconnectConfig) where
  new_schedule-IsScheduled : IsScheduled c (new_schedule c)
  unfolding new_schedule
  new_schedule-IsScheduled = record {
    same_config = refl;
    within = omega arith;
    room = λ e. cc;
    settled = λ e. cc;
    reason = λ e. cc;
  }

  -- A retry is allowed only below the bound.
  should_retry-lt :
      (outcome : ConnectionOutcome) (n : ℕ)
      → should_retry c outcome n ≡ true
      → n < not_below_zero c.max_attempts
  unfolding should_retry
  should_retry-lt outcome n e = ground arith

module _ (c : ReconnectConfig) (s : ReconnectSchedule) (v : IsScheduled c s) where
  ended-IsScheduled :
      (outcome : ConnectionOutcome) (now : ℕ) → IsScheduled c (connection_ended s outcome now).0
  unfolding connection_ended
  ended-IsScheduled outcome now =
      let lt = should_retry-lt s.config outcome s.attempts_made in
      ground (arith, v.same_config, v.within, lt)

  step-IsScheduled : {t : ReconnectSchedule} → Step s t → IsScheduled c t
  unfolding request_now cancel attempt_started established
  step-IsScheduled (ended outcome now) = ended-IsScheduled outcome now
  step-IsScheduled (requested now) = record {
    same_config = v.same_config;
    within = omega arith;
    room = λ e. omega arith;
    settled = λ e. refl;
    reason = λ e. cc;
  }
  step-IsScheduled cancelled = record {
    same_config = v.same_config;
    within = v.within;
    room = λ e. cc;
    settled = λ e. cc;
    reason = v.reason;
  }
  step-IsScheduled (started now d) = record {
    same_config = v.same_config;
    within = omega (arith, v.room (unfold due in ground arith));
    room = λ e. cc;
    settled = λ e. cc;
    reason = v.reason;
  }
  step-IsScheduled connected = record {
    same_config = v.same_config;
    within = omega arith;
    room = λ e. omega arith;
    settled = λ e. refl;
    reason = λ e. cc;
  }

Reach-IsScheduled :
    (c : ReconnectConfig) (s t : ReconnectSchedule) → IsScheduled c s → Reach s t → IsScheduled c t
Reach-IsScheduled c s t v here = v
Reach-IsScheduled c s u v (next {t} r st) = step-IsScheduled c t (Reach-IsScheduled c s t v r) st

-- Whatever endings, requests, cancellations, due attempts and successes follow one another from a
-- new schedule: the attempts of an outage never exceed the configured bound (or one, for a request
-- by the user), a pending attempt is within it and excludes having given up, and exhaustion is a
-- way of giving up.
pub schedule_invariant :
    (c : ReconnectConfig) (t : ReconnectSchedule) → Reach (new_schedule c) t → IsScheduled c t
schedule_invariant c t r = Reach-IsScheduled c (new_schedule c) t (new_schedule-IsScheduled c) r

-- An outage: each attempt fails with the same outcome at the next of the given times.
unfoldable pub outage : ReconnectSchedule → ConnectionOutcome → List ℕ → ReconnectSchedule
outage s outcome [] = s
outage s outcome (now ∷ times) =
    outage (attempt_started (connection_ended s outcome now).0) outcome times

module _ (c : ReconnectConfig) (m : ℕ) (outcome : ConnectionOutcome) (on : c.enabled ≡ true)
    (bound : c.max_attempts ≡ pos m) (retriable : outcome_is_retriable outcome ≡ true) where
  should_retry-true : (n : ℕ) → n < m → should_retry c outcome n ≡ true
  unfolding should_retry
  should_retry-true n h = ground arith

  should_retry-false : (n : ℕ) → m ≤ n → should_retry c outcome n ≡ false
  unfolding should_retry
  should_retry-false n h = ground arith

  outage-attempts :
      (times : List ℕ) (s : ReconnectSchedule)
      → s.config ≡ c
      → s.attempts_made + length times ≤ m
      → ((outage s outcome times).config ≡ c)
        × ((outage s outcome times).attempts_made ≡ s.attempts_made + length times)
  unfolding outage
  outage-attempts [] s e h = (e, omega arith)
  outage-attempts (now ∷ times) s e h =
      let s' = attempt_started (connection_ended s outcome now).0 in
      let kept : (s'.config ≡ c) × (s'.attempts_made ≡ s.attempts_made + 1) =
        unfold attempt_started connection_ended in ground arith in
      let ih = outage-attempts times s' kept.0 (omega (arith, kept.1)) in
      (ih.0, omega (arith, ih.1, kept.1))

  module _ (times : List ℕ) (now : ℕ) where
    abbrev pub last : ReconnectSchedule × Bool
    last = connection_ended (outage (new_schedule c) outcome times) outcome now

    fresh-attempts :
        length times ≤ m
        → ((outage (new_schedule c) outcome times).config ≡ c)
          × ((outage (new_schedule c) outcome times).attempts_made ≡ length times)
    unfolding new_schedule
    fresh-attempts h =
        let a = outage-attempts times (new_schedule c) refl (omega arith) in
        (a.0, omega (arith, a.1))

    -- While fewer attempts than the bound have failed, a retriable ending schedules the next one,
    -- after the base delay doubled once for each failed attempt and cut at the maximum.
    pub outage_retries :
        length times < m
        → (last.1 ≡ true)
          × (last.0.pending ≡ true)
          × (last.0.due_at ≡ now + min (c.base_backoff * 2 ^ length times) c.max_backoff)
    unfolding connection_ended
    outage_retries h =
        let (same, count) = fresh-attempts (omega arith) in
        let again = should_retry-true (length times) h in
        rw (same, count, again, backoff_for-min c (length times)) (refl, refl, refl)

    -- Once the bound is reached, the same ending schedules nothing and reports exhaustion.
    pub outage_exhausted :
        length times ≡ m → (last.1 ≡ false) × (last.0.pending ≡ false) × (last.0.exhausted ≡ true)
    unfolding connection_ended
    outage_exhausted h =
        let (same, count) = fresh-attempts (omega arith) in
        let over = should_retry-false (length times) (omega arith) in
        let all_used : geb_ℤ (length times) c.max_attempts ≡ true = rw bound (ground arith) in
        rw (same, count, over, on, retriable, all_used) (refl, refl, refl)
