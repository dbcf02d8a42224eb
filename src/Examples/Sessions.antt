-- ===== src/Examples/Sessions.antt =====
-- The reconnect policy and its schedule on small configurations.
use de_be_os_rdp.Prelude.{◌+◌, ◌*◌, ◌^◌, ◌≡◌, refl, [], ◌∷◌, Bool, true, false, arith, min, pos}
use de_be_os_rdp.Reconnect.{
  no_failure, request_now, ConnectionResult, transport_dropped, outcome_is_retriable,
  ReconnectConfig, ReconnectSchedule, new_schedule, connection_ended,
}
use de_be_os_rdp.Reconnect.Schedule.{
  Reach, here, next, ended, requested, IsScheduled, schedule_invariant, last, outage_retries,
}

abbrev twice : ReconnectConfig
twice = record { enabled = true; max_attempts = pos 2; base_backoff = 200; max_backoff = 300 }

abbrev dropped : ConnectionResult
dropped = record {
  connected = true;
  connect_failure = no_failure;
  message_count = 12;
  server_said_close = false;
  peer_closed = true;
  connection_reset = false;
  reached_deadline = false;
  through_forward = true;
}

-- A session drops, and the attempt is then asked for at once.
abbrev asked : ReconnectSchedule
asked = request_now (connection_ended (new_schedule twice) transport_dropped 1000).0 1100

asked-Reach : Reach (new_schedule twice) asked
asked-Reach = next (next here (ended transport_dropped 1000)) (requested 1100)

schedule_invariant_example : IsScheduled twice asked
schedule_invariant_example = schedule_invariant twice asked asked-Reach

retriable_drop : outcome_is_retriable transport_dropped ≡ true
unfolding outcome_is_retriable
retriable_drop = refl

abbrev one_failed : ReconnectSchedule × Bool
one_failed = last twice 2 transport_dropped refl refl retriable_drop (1000 ∷ []) 2000

abbrev two_failed : ReconnectSchedule × Bool
two_failed = last twice 2 transport_dropped refl refl retriable_drop (1000 ∷ 2000 ∷ []) 3000

outage_retries_example :
    (one_failed.1 ≡ true)
    × (one_failed.0.pending ≡ true)
    × (one_failed.0.due_at ≡ 2000 + min (twice.base_backoff * 2 ^ 1) twice.max_backoff)
outage_retries_example =
    outage_retries twice 2 transport_dropped refl refl retriable_drop (1000 ∷ []) 2000 (omega arith)

abbrev slower : ReconnectConfig
slower = record twice { base_backoff = 750 }
