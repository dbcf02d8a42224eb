-- ===== src/Reconnect/Outcome.antt =====
-- Which endings lead to a retry.
use de_be_os_rdp.Prelude.{◌≡◌, ◌≢◌, ◌⊎◌, ◌↔◌, ◌<◌, true, false, arith}
use de_be_os_rdp.Reconnect.{
  ConnectFailure, no_failure, missing_credential_failure, quic_alpn_refused, ConnectionResult,
  classify_failure, classify_connection, outcome_is_retriable,
}

-- A failed connect that may pass: neither the credential nor the protocol was at fault.
abbrev pub MayPass : ConnectionResult → Type 0
MayPass r =
    (r.connected ≡ false)
    × (r.connect_failure ≢ missing_credential_failure)
    × (r.connect_failure ≢ quic_alpn_refused)

-- A forwarded connection that was reset before a session began.
abbrev pub NeverReached : ConnectionResult → Type 0
NeverReached r =
    (r.connected ≡ true)
    × (r.server_said_close ≡ false)
    × (r.connection_reset ≡ true)
    × (r.through_forward ≡ true)
    × (r.message_count ≡ 0)

-- A running session that ended with no word, no reset and no deadline.
abbrev pub Dropped : ConnectionResult → Type 0
Dropped r =
    (r.connected ≡ true)
    × (r.server_said_close ≡ false)
    × (r.connection_reset ≡ false)
    × (r.reached_deadline ≡ false)
    × (0 < r.message_count)

failure_retriable :
    (f : ConnectFailure)
    → (outcome_is_retriable (classify_failure f) ≡ true)
      ↔ ((f ≢ missing_credential_failure) × (f ≢ quic_alpn_refused))
unfolding outcome_is_retriable classify_failure
failure_retriable no_failure = ground arith
failure_retriable missing_credential_failure = ground arith
failure_retriable _ = ground arith

-- The client comes back in exactly three cases: a connect that may pass, a forwarded connection
-- that was reset before any message, and a running session that dropped without a close message,
-- a reset or the deadline.
pub retriable_iff :
    (r : ConnectionResult)
    → (outcome_is_retriable (classify_connection r) ≡ true)
      ↔ (MayPass r ⊎ (NeverReached r ⊎ Dropped r))
unfolding classify_connection outcome_is_retriable
retriable_iff r = ground (arith, failure_retriable r.connect_failure)
