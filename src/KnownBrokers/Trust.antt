-- ===== src/KnownBrokers/Trust.antt =====
-- The file of known brokers in use: load, save, record_broker_trust, seed_known_broker and
-- terminal_trust_prompt of known_brokers.cpp, and verify_broker_certificate of
-- broker_handshake.cpp. `Disk` is the one file that they read and write.
use de_be_os_rdp.Prelude.{
  ℕ, List, [], ◌∷◌, Bool, true, false, not, ◌||◌, Option, none, some, if◌then◌else◌, codes,
}
use de_be_os_rdp.Broker.{decode_certificate_pin}
use de_be_os_rdp.KnownBrokers.{
  same_text, Line, BrokerTrust, known, unknown, changed, TrustChoice, reject, trust, replace_it,
  TrustAction, proceed, store_new, replace_stored, refuse, lookup, add, replace,
}
use de_be_os_rdp.KnownBrokers.File.{trim, is_empty, parse_fingerprint, parse_lines, serialize_lines}

pub data Content : Type 0 where
  missing unreadable : Content
  text : List ℕ → Content

-- `writable` is whether atomic_write_file succeeds; where it does not, the file is as before.
pub record Disk : Type 0 where
  pub content : Content
  pub writable : Bool

-- The store, or none for an error.
abbrev pub load_content : Content → Option (List Line)
load_content missing = some []
load_content unreadable = none
load_content (text bytes) = some (parse_lines bytes)

abbrev pub load : Disk → Option (List Line)
load disk = load_content disk.content

unfoldable pub save : List Line → Disk → Disk × Bool
unfolding serialize_lines
save lines disk =
    if disk.writable
    then (record disk { content = text (serialize_lines lines) }, true)
    else (disk, false)

-- What the check of a certificate knows.
pub record BrokerCheck : Type 0 where
  pub state : BrokerTrust
  pub host : List ℕ
  pub port : ℕ
  pub presented : List ℕ
  pub stored : Option (List ℕ)
  pub vouched : Bool

abbrev pub is_known : BrokerTrust → Bool
is_known known = true
is_known unknown = false
is_known changed = false

-- Where add refuses, an entry appeared since the check; it is not overwritten.
abbrev pub save_added : List Line → BrokerCheck → List Line × Bool → Disk → Disk × Bool
save_added lines check (lines', true) disk = save lines' disk
save_added lines check (lines', false) disk =
    (disk, is_known (lookup lines check.host check.port check.presented).0)

abbrev pub record_loaded : Option (List Line) → BrokerCheck → TrustAction → Disk → Disk × Bool
record_loaded none check action disk = (disk, false)
record_loaded (some lines) check store_new disk =
    save_added lines check (add lines check.host check.port check.presented) disk
record_loaded (some lines) check replace_stored disk =
    save (replace lines check.host check.port check.presented) disk
record_loaded (some lines) check _ disk = (disk, false)

-- The file after it, and whether it succeeded.
unfoldable pub record_broker_trust : BrokerCheck → TrustAction → Disk → Disk × Bool
unfolding save lookup add replace parse_lines
record_broker_trust check proceed disk = (disk, true)
record_broker_trust check refuse disk = (disk, false)
record_broker_trust check action disk = record_loaded (load disk) check action disk

abbrev pub save_seed : List Line × Bool → Disk → Disk × Bool
save_seed (lines, true) disk = save lines disk
save_seed (lines, false) disk = (disk, true)

-- The file after it, and whether it succeeded.
unfoldable pub seed_known_broker : List ℕ → ℕ → List ℕ → Disk → Disk × Bool
unfolding save add parse_lines
seed_known_broker host port fingerprint disk = elim (load disk) [
  | none ↦ (disk, false)
  | some lines ↦ save_seed (add lines host port fingerprint) disk
]

pub record BrokerIdentity : Type 0 where
  pub host : List ℕ
  pub port : ℕ
  pub pin_sha256 : List ℕ
  pub insecure : Bool
  pub chain_verified : Bool
  pub known_broker_fingerprint : List ℕ

pub data Verdict : Type 0 where
  accepted bad_pin pin_mismatch bad_fingerprint not_seeded unreadable_store : Verdict
  broker_unknown broker_changed : BrokerCheck → Verdict

abbrev pub pin_verdict : Option (List ℕ) → List ℕ → Verdict
pin_verdict none presented = bad_pin
pin_verdict (some expected) presented =
    if same_text presented expected then accepted else pin_mismatch

abbrev pub vouches : Option (List ℕ) → List ℕ → Bool
vouches none presented = false
vouches (some seed) presented = same_text seed presented

abbrev pub check_of :
    BrokerIdentity → List ℕ → Option (List ℕ) → BrokerTrust × Option (List ℕ) → BrokerCheck
check_of identity presented seed found = record {
  state = found.0;
  host = identity.host;
  port = identity.port;
  presented = presented;
  stored = found.1;
  vouched = vouches seed presented;
}

abbrev pub verdict_of : BrokerTrust → BrokerCheck → Verdict
verdict_of known check = accepted
verdict_of unknown check = broker_unknown check
verdict_of changed check = broker_changed check

abbrev pub judge_loaded : BrokerIdentity → List ℕ → Option (List ℕ) → Option (List Line) → Verdict
judge_loaded identity presented seed none = unreadable_store
judge_loaded identity presented seed (some lines) =
    let found = lookup lines identity.host identity.port presented in
    verdict_of found.0 (check_of identity presented seed found)

abbrev pub judge_seeded : BrokerIdentity → List ℕ → List ℕ → Disk × Bool → Disk × Verdict
judge_seeded identity presented seed (disk, true) =
    (disk, judge_loaded identity presented (some seed) (load disk))
judge_seeded identity presented seed (disk, false) = (disk, not_seeded)

abbrev pub seed_and_judge : BrokerIdentity → List ℕ → Option (List ℕ) → Disk → Disk × Verdict
seed_and_judge identity presented none disk = (disk, bad_fingerprint)
seed_and_judge identity presented (some seed) disk =
    judge_seeded identity presented seed (seed_known_broker identity.host identity.port seed disk)

-- `decode` is EVP_DecodeBlock. The file after it, and the verdict.
unfoldable pub verify_broker_certificate :
    (List ℕ → Option (List ℕ)) → BrokerIdentity → List ℕ → Disk → Disk × Verdict
unfolding decode_certificate_pin parse_fingerprint seed_known_broker lookup parse_lines
verify_broker_certificate decode identity presented disk =
    if not (is_empty identity.pin_sha256)
    then (disk, pin_verdict (decode_certificate_pin decode identity.pin_sha256) presented)
    else if identity.insecure || identity.chain_verified
    then (disk, accepted)
    else if not (is_empty identity.known_broker_fingerprint)
    then seed_and_judge identity presented (parse_fingerprint identity.known_broker_fingerprint)
        disk
    else (disk, judge_loaded identity presented none (load disk))

-- The answers that std::getline gives; behind the last one the stream has failed.
unfoldable pub ask_unknown : List (List ℕ) → TrustChoice
unfolding trim same_text
ask_unknown [] = reject
ask_unknown (line ∷ lines) =
    let again = ask_unknown lines in
    if same_text (trim line) (codes "yes")
    then trust
    else if same_text (trim line) (codes "no")
    then reject
    else again

unfoldable pub ask_changed : List (List ℕ) → TrustChoice
unfolding trim same_text
ask_changed [] = reject
ask_changed (line ∷ lines) = if same_text (trim line) (codes "replace") then replace_it else reject

unfoldable pub terminal_trust_prompt : BrokerTrust → List (List ℕ) → TrustChoice
unfolding ask_unknown ask_changed
terminal_trust_prompt known lines = reject
terminal_trust_prompt unknown lines = ask_unknown lines
terminal_trust_prompt changed lines = ask_changed lines
