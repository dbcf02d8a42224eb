-- ===== src/KnownBrokers/Decision.antt =====
-- When a connection may go on.
use de_be_os_rdp.Prelude.{◌≡◌, ◌⊎◌, ◌↔◌, true, some, arith}
use de_be_os_rdp.KnownBrokers.{
  BrokerTrust, known, unknown, changed, trust, replace_it, proceed, store_new, replace_stored,
  TrustPolicy, resolve_broker_trust,
}

-- A connection goes on in exactly these cases: the certificate is known; it is unknown and
-- either new ones are accepted or the user answered "trust"; or it changed and the user answered
-- "replace". A new certificate is recorded only in the second case, and a stored one replaced only
-- in the third.
pub resolve_broker_trust_iff :
    (state : BrokerTrust) (policy : TrustPolicy)
    → ((resolve_broker_trust state policy ≡ proceed) ↔ (state ≡ known))
      × ((resolve_broker_trust state policy ≡ store_new)
          ↔ ((state ≡ unknown) × ((policy.accept_new ≡ true) ⊎ (policy.prompt ≡ some trust))))
      × ((resolve_broker_trust state policy ≡ replace_stored)
          ↔ ((state ≡ changed) × (policy.prompt ≡ some replace_it)))
unfolding resolve_broker_trust
resolve_broker_trust_iff known policy = ground arith
resolve_broker_trust_iff unknown policy = ground arith
resolve_broker_trust_iff changed policy = ground arith
