-- ===== src/KnownBrokers/Acceptance.antt =====
-- Why verify_broker_certificate accepts a certificate.
use de_be_os_rdp.Prelude.{
  ℕ, ◌≡◌, ◌⊎◌, refl, sym, ap, inl, inr, List, Bool, true, false, Bool-cases, ◌||◌, Option, none,
  some,
}
use de_be_os_rdp.Broker.{decode_certificate_pin}
use de_be_os_rdp.KnownBrokers.{same_text, Line, BrokerTrust, known, unknown, changed, lookup}
use de_be_os_rdp.KnownBrokers.Store.{same_text_eq}
use de_be_os_rdp.KnownBrokers.File.{is_empty, parse_fingerprint}
use de_be_os_rdp.KnownBrokers.Trust.{
  Disk, load, BrokerCheck, is_known, seed_known_broker, BrokerIdentity, Verdict, accepted,
  pin_verdict, check_of, verdict_of, judge_loaded, judge_seeded, seed_and_judge,
  verify_broker_certificate,
}

pin_verdict-accepted :
    (expected : Option (List ℕ)) (presented : List ℕ)
    → pin_verdict expected presented ≡ accepted
    → expected ≡ some presented
pin_verdict-accepted none presented e = absurd (cc)
pin_verdict-accepted (some expected) presented e =
    elim (Bool-cases (same_text presented expected)) [
      | inl same ↦ ap some (sym (same_text_eq presented expected same))
      | inr other ↦ absurd (let f = rw other at e in cc)
    ]

verdict_of-accepted :
    (state : BrokerTrust) (check : BrokerCheck)
    → verdict_of state check ≡ accepted
    → is_known state ≡ true
verdict_of-accepted known check e = refl
verdict_of-accepted unknown check e = absurd (cc)
verdict_of-accepted changed check e = absurd (cc)

module _ (identity : BrokerIdentity) (presented : List ℕ) where
  -- Whether the store, where it can be read, has the certificate for the endpoint.
  abbrev pub knows : Option (List Line) → Bool
  knows none = false
  knows (some lines) = is_known (lookup lines identity.host identity.port presented).0

  judge_loaded-accepted :
      (seed : Option (List ℕ)) (loaded : Option (List Line))
      → judge_loaded identity presented seed loaded ≡ accepted
      → knows loaded ≡ true
  judge_loaded-accepted seed none e = absurd (cc)
  judge_loaded-accepted seed (some lines) e =
      let found = lookup lines identity.host identity.port presented in
      verdict_of-accepted found.0 (check_of identity presented seed found) e

  judge_seeded-accepted :
      (seed : List ℕ) (seeded : Disk × Bool)
      → (judge_seeded identity presented seed seeded).1 ≡ accepted
      → knows (load (judge_seeded identity presented seed seeded).0) ≡ true
  judge_seeded-accepted seed (disk, true) e = judge_loaded-accepted (some seed) (load disk) e
  judge_seeded-accepted seed (disk, false) e = absurd (cc)

  seed_and_judge-accepted :
      (seed : Option (List ℕ)) (disk : Disk)
      → (seed_and_judge identity presented seed disk).1 ≡ accepted
      → knows (load (seed_and_judge identity presented seed disk).0) ≡ true
  seed_and_judge-accepted none disk e = absurd (cc)
  seed_and_judge-accepted (some seed) disk e =
      judge_seeded-accepted seed (seed_known_broker identity.host identity.port seed disk) e

  module _ (decode : List ℕ → Option (List ℕ)) where
    -- The pin, the switches, or the file as it is afterwards.
    abbrev Reasons : Disk × Verdict → Type 0
    Reasons r =
        (decode_certificate_pin decode identity.pin_sha256 ≡ some presented)
        ⊎ ((is_empty identity.pin_sha256 ≡ true)
            × ((identity.insecure || identity.chain_verified) ≡ true))
        ⊎ ((is_empty identity.pin_sha256 ≡ true) × (knows (load r.0) ≡ true))

    abbrev Justified : Disk × Verdict → Type 0
    Justified r = r.1 ≡ accepted → Reasons r

    unpinned-Justified :
        (disk : Disk)
        → is_empty identity.pin_sha256 ≡ true
        → Justified (verify_broker_certificate decode identity presented disk)
    unpinned-Justified disk unpinned =
        unfold verify_broker_certificate in
        elim (Bool-cases (identity.insecure || identity.chain_verified)) [
          | inl switched ↦
              simp (unpinned, switched) (λ (e : accepted ≡ accepted). inr (inl (refl, refl)))
          | inr undecided ↦ elim (Bool-cases (is_empty identity.known_broker_fingerprint)) [
            | inl unseeded ↦
                simp (unpinned, undecided, unseeded)
                  (λ (e : judge_loaded identity presented none (load disk) ≡ accepted).
                    inr (inr (refl, judge_loaded-accepted none (load disk) e)))
            | inr seeded ↦
                simp (unpinned, undecided, seeded)
                  (λ (e : (seed_and_judge identity presented
                        (parse_fingerprint identity.known_broker_fingerprint) disk).1
                      ≡ accepted).
                    inr (
                      inr (
                        refl,
                        seed_and_judge-accepted
                            (parse_fingerprint identity.known_broker_fingerprint) disk e,
                      )))
          ]
        ]

    verified-Justified :
        (disk : Disk) → Justified (verify_broker_certificate decode identity presented disk)
    verified-Justified disk = elim (Bool-cases (is_empty identity.pin_sha256)) [
      | inr pinned ↦
          unfold verify_broker_certificate in
          simp pinned
            (λ (e : pin_verdict (decode_certificate_pin decode identity.pin_sha256) presented
                ≡ accepted).
              inl (
                pin_verdict-accepted (decode_certificate_pin decode identity.pin_sha256) presented
                  e))
      | inl unpinned ↦ unpinned-Justified disk unpinned
    ]

    -- A certificate is accepted only for one of these reasons: the pin decodes to its fingerprint;
    -- there is no pin and either the insecure switch is set or the chain was verified; or there is
    -- no pin and the file of known brokers, as verify_broker_certificate leaves it, can be read and
    -- has the certificate for the endpoint.
    pub verify_broker_certificate-accepted :
        (disk : Disk)
        → (verify_broker_certificate decode identity presented disk).1 ≡ accepted
        → (decode_certificate_pin decode identity.pin_sha256 ≡ some presented)
          ⊎ ((is_empty identity.pin_sha256 ≡ true)
              × ((identity.insecure || identity.chain_verified) ≡ true))
          ⊎ ((is_empty identity.pin_sha256 ≡ true)
              × (knows (load (verify_broker_certificate decode identity presented disk).0) ≡ true))
    verify_broker_certificate-accepted disk e = verified-Justified disk e
