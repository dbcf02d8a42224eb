-- ===== src/Examples/Trusted.antt =====
-- Trust on first use of a broker on host "a".
use de_be_os_rdp.Prelude.{
  ℕ, ◌≡◌, ◌≢◌, ◌⊎◌, ◌||◌, refl, ap, List, [], ◌∷◌, true, false, Option, none, some, arith, length,
  All, IsByte, suc, zero,
}
use de_be_os_rdp.Broker.{decode_certificate_pin}
use de_be_os_rdp.KnownBrokers.{
  BrokerTrust, unknown, changed, store_new, replace_stored, TrustPolicy, resolve_broker_trust,
  has_entry, any_for,
}
use de_be_os_rdp.KnownBrokers.File.{any_bad, is_empty, zeros}
use de_be_os_rdp.KnownBrokers.Keys.{IsHost}
use de_be_os_rdp.KnownBrokers.Trust.{
  Disk, missing, load, broker_changed, BrokerIdentity, accepted, check_of, record_broker_trust,
  verify_broker_certificate,
}
use de_be_os_rdp.KnownBrokers.FirstUse.{
  IsUndecided, Trusts, store_new-Trusts, replace_stored-Trusts,
}
use de_be_os_rdp.KnownBrokers.Connect.{Transport, failed, reconnected, connect_with_broker_trust}
use de_be_os_rdp.Reconnect
use de_be_os_rdp.KnownBrokers.Consent.{
  Consents, connect_with_broker_trust-Consents, connect_with_broker_trust-consented,
}
use de_be_os_rdp.KnownBrokers.Acceptance.{knows, verify_broker_certificate-accepted}

abbrev identity : BrokerIdentity
identity = record {
  host = 97 ∷ [];
  port = 10902;
  pin_sha256 = [];
  insecure = false;
  chain_verified = false;
  known_broker_fingerprint = [];
}

abbrev no_base64 : List ℕ → Option (List ℕ)
no_base64 text = none

abbrev new_disk : Disk
new_disk = record { content = missing; writable = true }

abbrev all_zero : List ℕ
all_zero = zeros 32

abbrev found : BrokerTrust × Option (List ℕ)
found = (unknown, none)

zeros-bytes : (n : ℕ) → All IsByte (zeros n)
unfolding zeros
zeros-bytes zero = tt
zeros-bytes (suc n) = (omega arith, zeros-bytes n)

length-zeros : length all_zero ≡ 32
unfolding zeros
length-zeros = refl

all_zero-ne-nil : all_zero ≢ []
unfolding zeros
all_zero-ne-nil e = omega (arith, ap length e)

identity-IsUndecided : IsUndecided identity
identity-IsUndecided = record { no_pin = refl; secure = refl; no_chain = refl; no_seed = refl }

identity-IsHost : IsHost identity.host
identity-IsHost = record {
  named = refl;
  clean = unfold any_bad in refl;
  no_comment = (λ (e : 97 ≡ 35). omega (arith, e));
}

nothing_stored : has_entry [] identity.host identity.port ≡ false
unfolding has_entry
nothing_stored = unfold any_for in refl

store_new-Trusts_example :
    Trusts no_base64 identity identity-IsUndecided all_zero []
      (record_broker_trust (check_of identity all_zero none found) store_new new_disk)
store_new-Trusts_example =
    store_new-Trusts no_base64 identity identity-IsUndecided all_zero [] all_zero-ne-nil new_disk
      refl [] tt refl identity-IsHost (omega arith) (omega arith) (zeros-bytes 32) length-zeros none
      found nothing_stored

replace_stored-Trusts_example :
    Trusts no_base64 identity identity-IsUndecided all_zero []
      (record_broker_trust (check_of identity all_zero none found) replace_stored new_disk)
replace_stored-Trusts_example =
    replace_stored-Trusts no_base64 identity identity-IsUndecided all_zero [] all_zero-ne-nil
      new_disk refl [] tt refl identity-IsHost (omega arith) (omega arith) (zeros-bytes 32)
      length-zeros none found

abbrev insecure_identity : BrokerIdentity
insecure_identity = record identity { insecure = true }

insecure_accepted :
    (verify_broker_certificate no_base64 insecure_identity all_zero new_disk).1 ≡ accepted
unfolding verify_broker_certificate
insecure_accepted = refl

verify_broker_certificate-accepted_example :
    (decode_certificate_pin no_base64 [] ≡ some all_zero)
    ⊎ ((is_empty [] ≡ true) × ((true || false) ≡ true))
    ⊎ ((is_empty [] ≡ true)
        × (knows insecure_identity all_zero
              (load (verify_broker_certificate no_base64 insecure_identity all_zero new_disk).0)
            ≡ true))
verify_broker_certificate-accepted_example =
    verify_broker_certificate-accepted insecure_identity all_zero no_base64 new_disk
      insecure_accepted

abbrev accepting_new : TrustPolicy
accepting_new = record { accept_new = true; prompt = none }

-- No switch and no one to ask.
abbrev silent : TrustPolicy
silent = record { accept_new = false; prompt = none }

accepting_stores : resolve_broker_trust unknown accepting_new ≡ store_new
unfolding resolve_broker_trust
accepting_stores = refl

-- A transport whose every attempt fails on the certificate of all zeros, and counts the attempts.
abbrev doubting : Transport ℕ
doubting = record {
  connect = λ (n : ℕ) (disk : Disk).
      ((suc n, disk), failed Reconnect.broker_unknown (check_of identity all_zero none found));
}

connect_with_broker_trust-Consents_example :
    ((connect_with_broker_trust doubting silent 0 new_disk).0 ≡ (doubting.connect 0 new_disk).0)
    ⊎ Consents silent (doubting.connect 0 new_disk).1
connect_with_broker_trust-Consents_example =
    connect_with_broker_trust-Consents doubting silent 0 new_disk

connect_with_broker_trust-consented_example :
    (after : Disk) × (connect_with_broker_trust doubting accepting_new 0 new_disk
      ≡ reconnected doubting (doubting.connect 1 after))
    × (verify_broker_certificate no_base64 identity all_zero after ≡ (after, accepted))
    × (verify_broker_certificate no_base64 identity [] after
        ≡ (after, broker_changed (check_of identity [] none (changed, some all_zero))))
connect_with_broker_trust-consented_example =
    connect_with_broker_trust-consented doubting no_base64 identity identity-IsUndecided all_zero
      accepting_new 0 1 new_disk new_disk Reconnect.broker_unknown none none [] [] all_zero-ne-nil
      refl refl accepting_stores refl tt refl nothing_stored identity-IsHost (omega arith)
      (omega arith) (zeros-bytes 32) length-zeros
