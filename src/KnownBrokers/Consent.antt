-- ===== src/KnownBrokers/Consent.antt =====
-- transport.cpp: what connect_with_broker_trust does after the first attempt, for every transport.
use de_be_os_rdp.Prelude.{
  ℕ, ◌≡◌, ◌≢◌, ◌≤◌, ◌⊎◌, refl, ap, ◌∙◌, inl, inr, List, Bool, true, false, Bool-cases, Option, none,
  some, All, IsByte, length,
}
use de_be_os_rdp.Reconnect.{ConnectFailure}
use de_be_os_rdp.KnownBrokers.{
  BrokerTrust, known, unknown, changed, TrustPolicy, TrustAction, trust, replace_it, proceed,
  store_new, replace_stored, refuse, Line, resolve_broker_trust, has_entry,
}
use de_be_os_rdp.KnownBrokers.Decision.{resolve_broker_trust_iff}
use de_be_os_rdp.KnownBrokers.Keys.{IsHost}
use de_be_os_rdp.KnownBrokers.Trust.{
  Disk, load, BrokerCheck, record_broker_trust, BrokerIdentity, accepted, broker_changed, check_of,
  verify_broker_certificate,
}
use de_be_os_rdp.KnownBrokers.FirstUse.{IsUndecided, IsClean, Trusts, store_new-Trusts}
use de_be_os_rdp.KnownBrokers.Connect.{
  Transport, Attempt, connected, failed, is_trust_failure, reconnected, after_record, apply_action,
  after_attempt, connect_with_broker_trust,
}

-- What the user or the switch allows: an unknown certificate that new ones are accepted for or
-- that the answer "trust" was given to, or a changed one with the answer "replace".
abbrev pub Allows : TrustPolicy → BrokerTrust → Type 0
Allows policy state =
    ((state ≡ unknown) × ((policy.accept_new ≡ true) ⊎ (policy.prompt ≡ some trust)))
    ⊎ ((state ≡ changed) × (policy.prompt ≡ some replace_it))

-- The first attempt failed on trust, and its check is of a known certificate or is allowed.
pub data Consents (policy : TrustPolicy) : Attempt → Type 0 where
  consents :
      (kind : ConnectFailure) (check : BrokerCheck)
      → is_trust_failure kind ≡ true
      → ((check.state ≡ known) ⊎ Allows policy check.state)
      → Consents policy (failed kind check)

action_cases :
    (action : TrustAction)
    → (action ≡ proceed) ⊎ (action ≡ store_new) ⊎ (action ≡ replace_stored) ⊎ (action ≡ refuse)
action_cases proceed = inl refl
action_cases store_new = inr (inl refl)
action_cases replace_stored = inr (inr (inl refl))
action_cases refuse = inr (inr (inr refl))

module _ {T : Type 0} (transport : Transport T) where
  abbrev StopsOr : TrustPolicy → (T × Disk) × Attempt → Type 0
  StopsOr policy first =
      ((after_attempt transport policy first).0 ≡ first.0) ⊎ Consents policy first.1

  trust_failure :
      (policy : TrustPolicy) (s : T × Disk) (kind : ConnectFailure) (check : BrokerCheck)
      → is_trust_failure kind ≡ true
      → ((apply_action transport (resolve_broker_trust check.state policy) check s).0 ≡ s)
        ⊎ Consents policy (failed kind check)
  trust_failure policy s kind check e =
      let allowed = resolve_broker_trust_iff check.state policy in
      elim (action_cases (resolve_broker_trust check.state policy)) [
        | inl p ↦ inr (consents kind check e (inl (allowed.0.0 p)))
        | inr (inl p) ↦ inr (consents kind check e (inr (inl (allowed.1.0 p))))
        | inr (inr (inl p)) ↦ inr (consents kind check e (inr (inr (allowed.2.0 p))))
        | inr (inr (inr p)) ↦ inl (rw p refl)
      ]

  after_attempt-StopsOr :
      (policy : TrustPolicy) (first : (T × Disk) × Attempt) → StopsOr policy first
  after_attempt-StopsOr policy (s, connected) = inl refl
  after_attempt-StopsOr policy (s, failed kind check) = elim (Bool-cases (is_trust_failure kind)) [
    | inl e ↦ rw e (trust_failure policy s kind check e)
    | inr e ↦ inl (rw e refl)
  ]

  -- For every transport, connect_with_broker_trust leaves the transport and the file as the first
  -- attempt left them, unless that attempt failed because the certificate is unknown or changed,
  -- and its check is of a known certificate, of an unknown one where new ones are accepted or the
  -- answer is "trust", or of a changed one where the answer is "replace".
  pub connect_with_broker_trust-Consents :
      (policy : TrustPolicy) (t : T) (disk : Disk)
      → ((connect_with_broker_trust transport policy t disk).0 ≡ (transport.connect t disk).0)
        ⊎ Consents policy (transport.connect t disk).1
  unfolding connect_with_broker_trust
  connect_with_broker_trust-Consents policy t disk =
      after_attempt-StopsOr policy (transport.connect t disk)

  after_record-true :
      (t : T) (after : Disk × Bool)
      → after.1 ≡ true
      → after_record transport t after ≡ reconnected transport (transport.connect t after.0)
  after_record-true t (disk, true) e = refl
  after_record-true t (disk, false) e = absurd (cc)

  module _ (decode : List ℕ → Option (List ℕ)) (identity : BrokerIdentity)
      (undecided : IsUndecided identity) (presented : List ℕ) (policy : TrustPolicy) (t t1 : T)
      (before disk : Disk) (kind : ConnectFailure) (seed stored : Option (List ℕ))
      (lines : List Line) where
    abbrev asked : BrokerCheck
    asked = check_of identity presented seed (unknown, stored)

    -- For every transport whose first attempt fails on trust with a check of an unknown certificate:
    -- where the policy records what is unknown and the readable, writable file that the attempt
    -- leaves has no entry for the endpoint, connect_with_broker_trust comes to what one more attempt
    -- comes to, from the state that the first one left and on a file by which
    -- verify_broker_certificate accepts the certificate that was asked about and refuses every other
    -- one as changed. Nothing but the file decides on the identity, the file has no carriage returns,
    -- the host has no spaces and no brackets and does not start with '#', the port is a positive
    -- 16-bit number, and the fingerprint has 32 bytes.
    pub connect_with_broker_trust-consented :
        (other : List ℕ)
        → presented ≢ other
        → transport.connect t before ≡ ((t1, disk), failed kind asked)
        → is_trust_failure kind ≡ true
        → resolve_broker_trust unknown policy ≡ store_new
        → disk.writable ≡ true
        → IsClean disk.content
        → load disk ≡ some lines
        → has_entry lines identity.host identity.port ≡ false
        → IsHost identity.host
        → 1 ≤ identity.port
        → identity.port ≤ 65535
        → All IsByte presented
        → length presented ≡ 32
        → (after : Disk) × (connect_with_broker_trust transport policy t before
            ≡ reconnected transport (transport.connect t1 after))
          × (verify_broker_certificate decode identity presented after ≡ (after, accepted))
          × (verify_broker_certificate decode identity other after
              ≡ (after, broker_changed (check_of identity other none (changed, some presented))))
    unfolding connect_with_broker_trust
    connect_with_broker_trust-consented other apart first trusted consent writable clean loaded
          missing valid low high bytes size =
        let recorded = record_broker_trust asked store_new disk in
        let trusts : Trusts decode identity undecided presented other recorded =
          store_new-Trusts decode identity undecided presented other apart disk writable lines clean
            loaded valid low high bytes size seed (unknown, stored) missing in
        (
          recorded.0,
          ap (after_attempt transport policy) first
              ∙ rw trusted (
                  ap (λ (action : TrustAction). apply_action transport action asked (t1, disk))
                    consent)
              ∙ after_record-true t1 recorded trusts.recorded,
          trusts.accepts,
          trusts.refuses,
        )
