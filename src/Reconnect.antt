-- ===== src/Reconnect.antt =====
-- reconnect.hpp and reconnect.cpp: how a finished connection is classified, when the client may
-- come back, how long it waits, and the schedule of a long-lived session. Durations are in
-- milliseconds, and time points count from an arbitrary start.
pub mod Outcome
pub mod Backoff
pub mod Schedule
pub mod Arguments
use de_be_os_rdp.Prelude.{
  ℕ, zero, suc, ◌+◌, ◌*◌, Bool, true, false, not, ◌&&◌, ◌||◌, if◌then◌else◌, ltb, leb, ◌==◌, min, ℤ,
  pos, negsuc,
}

-- transport.hpp
pub data ConnectFailure : Type 0 where
  no_failure missing_credential_failure other broker_unknown broker_changed : ConnectFailure
  quic_no_answer quic_handshake_timeout quic_alpn_refused : ConnectFailure

pub data ConnectionOutcome : Type 0 where
  server_closed evicted refused missing_credential : ConnectionOutcome
  transport_dropped connect_failed completed : ConnectionOutcome

pub record ConnectionResult : Type 0 where
  pub connected : Bool
  pub connect_failure : ConnectFailure
  pub message_count : ℕ
  pub server_said_close : Bool
  pub peer_closed : Bool
  pub connection_reset : Bool
  pub reached_deadline : Bool
  pub through_forward : Bool

classify_failure : ConnectFailure → ConnectionOutcome
classify_failure missing_credential_failure = missing_credential
classify_failure quic_alpn_refused = refused
classify_failure _ = connect_failed

unfoldable pub classify_connection : ConnectionResult → ConnectionOutcome
unfolding classify_failure
classify_connection r =
    if not r.connected
    then classify_failure r.connect_failure
    else if r.server_said_close
    then server_closed
    else if r.connection_reset
    then (if r.through_forward && r.message_count == 0 then connect_failed else evicted)
    else if r.reached_deadline
    then completed
    else if r.message_count == 0
    then refused
    else transport_dropped

unfoldable pub outcome_is_retriable : ConnectionOutcome → Bool
outcome_is_retriable transport_dropped = true
outcome_is_retriable connect_failed = true
outcome_is_retriable _ = false

pub record ReconnectConfig : Type 0 where
  pub enabled : Bool
  pub max_attempts : ℤ
  pub base_backoff : ℕ
  pub max_backoff : ℕ

-- `ReconnectConfig {}`
abbrev pub default_config : ReconnectConfig
default_config = record {
  enabled = false;
  max_attempts = pos 5;
  base_backoff = 200;
  max_backoff = 5000;
}

-- `a >= b` between an `int` and a count that is never negative.
abbrev pub geb_ℤ : ℕ → ℤ → Bool
geb_ℤ a (pos b) = leb b a
geb_ℤ a (negsuc b) = true

abbrev pub is_positive : ℤ → Bool
is_positive (pos n) = ltb 0 n
is_positive (negsuc n) = false

unfoldable pub should_retry : ReconnectConfig → ConnectionOutcome → ℕ → Bool
unfolding outcome_is_retriable
should_retry c outcome attempts_made =
    if not c.enabled
    then false
    else if not (is_positive c.max_attempts)
    then false
    else if geb_ℤ attempts_made c.max_attempts
    then false
    else outcome_is_retriable outcome

-- The loop, with `left` rounds to go.
unfoldable pub backoff_loop : ℕ → ℕ → ℕ → ℕ
backoff_loop zero delay max_backoff = min delay max_backoff
backoff_loop (suc left) delay max_backoff =
    let more = backoff_loop left (delay * 2) max_backoff in
    if leb max_backoff delay then max_backoff else more

-- A negative count is taken for none.
abbrev pub not_below_zero : ℤ → ℕ
not_below_zero (pos n) = n
not_below_zero (negsuc n) = 0

unfoldable pub backoff_for : ReconnectConfig → ℤ → ℕ
unfolding backoff_loop
backoff_for c attempts_made =
    backoff_loop (not_below_zero attempts_made) c.base_backoff c.max_backoff

pub record ReconnectSchedule : Type 0 where
  pub config : ReconnectConfig
  pub attempts_made : ℕ
  pub pending : Bool
  pub gave_up : Bool
  pub exhausted : Bool
  pub last_outcome : ConnectionOutcome
  pub due_at : ℕ

unfoldable pub new_schedule : ReconnectConfig → ReconnectSchedule
new_schedule c = record {
  config = c;
  attempts_made = 0;
  pending = false;
  gave_up = false;
  exhausted = false;
  last_outcome = completed;
  due_at = 0;
}

unfoldable pub connection_ended :
    ReconnectSchedule → ConnectionOutcome → ℕ → ReconnectSchedule × Bool
connection_ended s outcome now =
    if should_retry s.config outcome s.attempts_made
    then (
      record s {
        last_outcome = outcome;
        due_at = now + backoff_for s.config (pos s.attempts_made);
        pending = true;
        gave_up = false;
        exhausted = false;
      },
      true,
    )
    else (
      record s {
        last_outcome = outcome;
        pending = false;
        gave_up = true;
        exhausted =
            s.config.enabled
            && (outcome_is_retriable outcome && geb_ℤ s.attempts_made s.config.max_attempts);
      },
      false,
    )

unfoldable pub request_now : ReconnectSchedule → ℕ → ReconnectSchedule
request_now s now = record s {
  attempts_made = 0;
  due_at = now;
  pending = true;
  gave_up = false;
  exhausted = false;
}

unfoldable pub cancel : ReconnectSchedule → ReconnectSchedule
cancel s = record s { pending = false }

unfoldable pub due : ReconnectSchedule → ℕ → Bool
due s now = s.pending && leb s.due_at now

unfoldable pub attempt_started : ReconnectSchedule → ReconnectSchedule
attempt_started s = record s { pending = false; attempts_made = s.attempts_made + 1 }

unfoldable pub established : ReconnectSchedule → ReconnectSchedule
established s = record s { attempts_made = 0; gave_up = false; exhausted = false }
