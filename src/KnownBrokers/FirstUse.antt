-- ===== src/KnownBrokers/FirstUse.antt =====
-- Trust on first use: what verify_broker_certificate says after record_broker_trust.
use de_be_os_rdp.Prelude.{
  ℕ, ◌≤◌, ◌≡◌, ◌≢◌, refl, sym, ap, subst, ◌∙◌, List, [], ◌∷◌, ◌++◌, Bool, true, false, Option, none,
  some, All, length, IsByte,
}
use de_be_os_rdp.KnownBrokers.{
  broker_key, Line, BrokerTrust, known, changed, store_new, replace_stored, lookup, has_entry,
  fresh_line, replace,
}
use de_be_os_rdp.KnownBrokers.File.{parse_lines, serialize_lines}
use de_be_os_rdp.KnownBrokers.Lines.{
  NotReturn, IsWritten, parse_lines-IsWritten, parse_lines-serialize_lines,
}
use de_be_os_rdp.KnownBrokers.Keys.{IsHost}
use de_be_os_rdp.KnownBrokers.Stored.{add-IsWritten, replace-IsWritten}
use de_be_os_rdp.KnownBrokers.Trust.{
  Content, missing, unreadable, text, Disk, load_content, load, save, BrokerCheck,
  record_broker_trust, BrokerIdentity, accepted, broker_changed, record_loaded, save_added,
  check_of, verdict_of, judge_loaded, verify_broker_certificate,
}
use de_be_os_rdp.KnownBrokers.Continuity.{
  lookup-replace_same, lookup-replace_changed, add-fresh, lookup-add_same, lookup-add_changed,
}

-- Nothing but the file of known brokers decides.
pub record IsUndecided (identity : BrokerIdentity) : Type 0 where
  pub no_pin : identity.pin_sha256 ≡ []
  pub secure : identity.insecure ≡ false
  pub no_chain : identity.chain_verified ≡ false
  pub no_seed : identity.known_broker_fingerprint ≡ []

abbrev pub IsClean : Content → Type 0
IsClean missing = Unit
IsClean unreadable = Unit
IsClean (text bytes) = All NotReturn bytes

load_content-IsWritten :
    (content : Content) (lines : List Line)
    → IsClean content
    → load_content content ≡ some lines
    → All IsWritten lines
load_content-IsWritten missing lines h e =
    let same : [] ≡ lines = ap (λ (o : Option (List Line)). or_none o) e in
    subst (All IsWritten) same tt
  where
    or_none : Option (List Line) → List Line
    or_none none = []
    or_none (some ls) = ls
load_content-IsWritten unreadable lines h e = absurd (cc)
load_content-IsWritten (text bytes) lines h e =
    let same : parse_lines bytes ≡ lines = ap (λ (o : Option (List Line)). or_nothing o) e in
    subst (All IsWritten) same (parse_lines-IsWritten bytes h)
  where
    or_nothing : Option (List Line) → List Line
    or_nothing none = []
    or_nothing (some ls) = ls

record-store_new :
    (check : BrokerCheck) (disk : Disk)
    → record_broker_trust check store_new disk ≡ record_loaded (load disk) check store_new disk
unfolding record_broker_trust
record-store_new check disk = refl

record-replace_stored :
    (check : BrokerCheck) (disk : Disk)
    → record_broker_trust check replace_stored disk
      ≡ record_loaded (load disk) check replace_stored disk
unfolding record_broker_trust
record-replace_stored check disk = refl

module _ (decode : List ℕ → Option (List ℕ)) (identity : BrokerIdentity)
    (undecided : IsUndecided identity) where
  verify-judges :
      (presented : List ℕ) (disk : Disk)
      → verify_broker_certificate decode identity presented disk
        ≡ (disk, judge_loaded identity presented none (load disk))
  verify-judges presented disk =
      unfold verify_broker_certificate in
      simp (undecided.no_pin, undecided.secure, undecided.no_chain, undecided.no_seed) refl

  pub verify-found :
      (presented : List ℕ) (disk : Disk) (lines : List Line) (state : BrokerTrust)
      (stored : Option (List ℕ))
      → load disk ≡ some lines
      → lookup lines identity.host identity.port presented ≡ (state, stored)
      → verify_broker_certificate decode identity presented disk
        ≡ (disk, verdict_of state (check_of identity presented none (state, stored)))
  verify-found presented disk lines state stored e f =
      verify-judges presented disk
      ∙ ap (λ (l : Option (List Line)). (disk, judge_loaded identity presented none l)) e
      ∙ ap
          (λ (found : BrokerTrust × Option (List ℕ)).
            (disk, verdict_of found.0 (check_of identity presented none found)))
          f

  -- After it, the certificate is accepted and the other one is refused as changed.
  pub record Trusts (presented other : List ℕ) (after : Disk × Bool) : Type 0 where
    pub recorded : after.1 ≡ true
    pub accepts : verify_broker_certificate decode identity presented after.0 ≡ (after.0, accepted)
    pub refuses :
        verify_broker_certificate decode identity other after.0
        ≡ (after.0, broker_changed (check_of identity other none (changed, some presented)))

  module _ (presented other : List ℕ) (apart : presented ≢ other) (disk : Disk)
      (writable : disk.writable ≡ true) where
    abbrev saved : List Line → Disk
    saved lines = record disk { content = text (serialize_lines lines) }

    saves : (lines : List Line) → save lines disk ≡ (saved lines, true)
    unfolding save
    saves lines = simp writable refl

    saved-Trusts :
        (lines : List Line)
        → All IsWritten lines
        → lookup lines identity.host identity.port presented ≡ (known, some presented)
        → lookup lines identity.host identity.port other ≡ (changed, some presented)
        → Trusts presented other (saved lines, true)
    saved-Trusts lines h same differs =
        let loaded : load (saved lines) ≡ some lines =
          ap some (parse_lines-serialize_lines lines h) in
        record {
          recorded = refl;
          accepts = verify-found presented (saved lines) lines known (some presented) loaded same;
          refuses = verify-found other (saved lines) lines changed (some presented) loaded differs;
        }

    module _ (lines : List Line) (clean : IsClean disk.content) (loaded : load disk ≡ some lines)
        (valid : IsHost identity.host) (port_low : 1 ≤ identity.port)
        (port_high : identity.port ≤ 65535) (bytes : All IsByte presented)
        (size : length presented ≡ 32) (seed : Option (List ℕ))
        (found : BrokerTrust × Option (List ℕ)) where
      written : All IsWritten lines
      written = load_content-IsWritten disk.content lines clean loaded

      -- Where the readable, writable file has no entry for the endpoint, recording a new
      -- certificate succeeds; verify_broker_certificate then accepts that certificate and refuses
      -- every other one as changed. The file has no carriage returns, nothing but the file
      -- decides on the identity, its host has no spaces and no brackets and does not start with
      -- '#', its port is a positive 16-bit number, and the fingerprint has 32 bytes.
      pub store_new-Trusts :
          has_entry lines identity.host identity.port ≡ false
          → Trusts presented other
              (record_broker_trust (check_of identity presented seed found) store_new disk)
      store_new-Trusts e =
          let check = check_of identity presented seed found in
          let after = lines ++ fresh_line (broker_key identity.host identity.port) presented ∷ [] in
          let added = add-fresh lines identity.host identity.port presented e in
          let recorded : record_broker_trust check store_new disk ≡ (saved after, true) =
            record-store_new check disk
            ∙ ap (λ (l : Option (List Line)). record_loaded l check store_new disk) loaded
            ∙ ap (λ (r : List Line × Bool). save_added lines check r disk) added
            ∙ saves after in
          let kept : All IsWritten after =
            subst (λ (r : List Line × Bool). All IsWritten r.0) added
              (add-IsWritten identity.host identity.port presented valid port_low port_high bytes
                size lines written) in
          subst (Trusts presented other) (sym recorded) (
            saved-Trusts after kept (lookup-add_same lines identity.host identity.port presented e)
              (lookup-add_changed lines identity.host identity.port presented other apart e))

      -- Where the file is readable and writable, replacing the stored certificate succeeds;
      -- verify_broker_certificate then accepts the new one and refuses every other one, the
      -- replaced ones too, as changed. The conditions on the file, the identity and the fingerprint
      -- are that the file has no carriage returns, nothing but the file decides, the host has no
      -- spaces and no brackets and does not start with '#', the port is a positive 16-bit number,
      -- and the fingerprint has 32 bytes.
      pub replace_stored-Trusts :
          Trusts presented other
            (record_broker_trust (check_of identity presented seed found) replace_stored disk)
      replace_stored-Trusts =
          let check = check_of identity presented seed found in
          let after = replace lines identity.host identity.port presented in
          let recorded : record_broker_trust check replace_stored disk ≡ (saved after, true) =
            record-replace_stored check disk
            ∙ ap (λ (l : Option (List Line)). record_loaded l check replace_stored disk) loaded
            ∙ saves after in
          subst (Trusts presented other) (sym recorded) (
            saved-Trusts after
              (replace-IsWritten identity.host identity.port presented valid port_low port_high
                bytes size lines written)
              (lookup-replace_same lines identity.host identity.port presented)
              (lookup-replace_changed lines identity.host identity.port presented other apart))
