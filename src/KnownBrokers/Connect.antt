-- ===== src/KnownBrokers/Connect.antt =====
-- transport.cpp: connect_with_broker_trust, a connection with the question about an unknown or
-- changed certificate. A transport is what its connect does to its own state and to the file,
-- whatever that is.
use de_be_os_rdp.Prelude.{Bool, true, false, if◌then◌else◌}
use de_be_os_rdp.Reconnect.{ConnectFailure, broker_unknown, broker_changed}
use de_be_os_rdp.KnownBrokers.{TrustPolicy, TrustAction, refuse, resolve_broker_trust}
use de_be_os_rdp.KnownBrokers.Trust.{Disk, BrokerCheck, record_broker_trust}

-- What `connect` came to: where it failed, connect_failure() and broker_check().
pub data Attempt : Type 0 where
  connected : Attempt
  failed : ConnectFailure → BrokerCheck → Attempt

pub record Transport (T : Type 0) : Type 0 where
  pub connect : T → Disk → (T × Disk) × Attempt

pub data Connection : Type 0 where
  established not_connected trust_refused not_recorded : Connection

abbrev pub is_trust_failure : ConnectFailure → Bool
is_trust_failure broker_unknown = true
is_trust_failure broker_changed = true
is_trust_failure _ = false

module _ {T : Type 0} (transport : Transport T) where
  -- The second connection, on which nothing is asked.
  abbrev pub reconnected : (T × Disk) × Attempt → (T × Disk) × Connection
  reconnected (s, connected) = (s, established)
  reconnected (s, failed kind check) = (s, not_connected)

  abbrev pub after_record : T → Disk × Bool → (T × Disk) × Connection
  after_record t (disk, true) = reconnected (transport.connect t disk)
  after_record t (disk, false) = ((t, disk), not_recorded)

  abbrev pub apply_action : TrustAction → BrokerCheck → T × Disk → (T × Disk) × Connection
  apply_action refuse check s = (s, trust_refused)
  apply_action action check (t, disk) = after_record t (record_broker_trust check action disk)

  abbrev pub after_attempt : TrustPolicy → (T × Disk) × Attempt → (T × Disk) × Connection
  after_attempt policy (s, connected) = (s, established)
  after_attempt policy (s, failed kind check) =
      if is_trust_failure kind
      then apply_action (resolve_broker_trust check.state policy) check s
      else (s, not_connected)

  unfoldable pub connect_with_broker_trust : TrustPolicy → T → Disk → (T × Disk) × Connection
  unfolding record_broker_trust resolve_broker_trust
  connect_with_broker_trust policy t disk = after_attempt policy (transport.connect t disk)
