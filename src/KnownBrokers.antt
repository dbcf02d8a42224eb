-- ===== src/KnownBrokers.antt =====
-- known_brokers.cpp: the store of broker certificates in memory, and the decision on a certificate.
-- Texts and fingerprints are lists of codes.
pub mod File
pub mod Lines
pub mod Words
pub mod Keys
pub mod Reload
pub mod Stored
pub mod Trust
pub mod Continuity
pub mod Acceptance
pub mod FirstUse
pub mod Connect
pub mod Consent
pub mod Store
pub mod Decision
use de_be_os_rdp.Prelude.{
  ℕ, zero, suc, ◌+◌, ◌/◌, ◌%◌, List, [], ◌∷◌, ◌++◌, Bool, true, false, not, ◌&&◌, Option, none,
  some, leb, ◌==◌, if◌then◌else◌, to_string,
}

unfoldable pub same_text : List ℕ → List ℕ → Bool
same_text [] [] = true
same_text [] (c ∷ ys) = false
same_text (c ∷ xs) [] = false
same_text (c ∷ xs) (d ∷ ys) = c == d && same_text xs ys

-- `std::tolower` of the C locale.
unfoldable pub lowered : List ℕ → List ℕ
lowered [] = []
lowered (c ∷ text) = (if leb 65 c && leb c 90 then c + 32 else c) ∷ lowered text

unfoldable pub has_colon : List ℕ → Bool
has_colon [] = false
has_colon (c ∷ text) = let rest = has_colon text in if c == 58 then true else rest

unfoldable pub broker_key : List ℕ → ℕ → List ℕ
unfolding lowered has_colon
broker_key host port =
    let low = lowered host in
    (if has_colon low then 91 ∷ (low ++ 93 ∷ []) else low) ++ (58 ∷ to_string port)

-- The digits of a fingerprint.
abbrev pub hex_digit : ℕ → ℕ
hex_digit n = if leb n 9 then 48 + n else 87 + n

unfoldable pub format_digits : List ℕ → List ℕ
format_digits [] = []
format_digits (b ∷ bytes) = hex_digit (b / 16) ∷ hex_digit (b % 16) ∷ format_digits bytes

-- "sha256:" and the digits.
unfoldable pub format_fingerprint : List ℕ → List ℕ
unfolding format_digits
format_fingerprint fingerprint = 115 ∷ 104 ∷ 97 ∷ 50 ∷ 53 ∷ 54 ∷ 58 ∷ format_digits fingerprint

pub record Line : Type 0 where
  pub raw : List ℕ
  pub is_entry : Bool
  pub malformed : Bool
  pub key : List ℕ
  pub fingerprint : List ℕ

pub data BrokerTrust : Type 0 where
  known unknown changed : BrokerTrust

abbrev pub is_for : List ℕ → Line → Bool
is_for key line = line.is_entry && same_text line.key key

-- The loop of lookup, with the first other fingerprint found so far.
unfoldable pub lookup_loop :
    List ℕ → List ℕ → Option (List ℕ) → List Line → BrokerTrust × Option (List ℕ)
lookup_loop key presented none [] = (unknown, none)
lookup_loop key presented (some first) [] = (changed, some first)
lookup_loop key presented first (line ∷ lines) =
    let skip = lookup_loop key presented first lines in
    let other =
      lookup_loop key presented (elim first [ none ↦ some line.fingerprint | some f ↦ some f ])
        lines in
    if not (is_for key line)
    then skip
    else if same_text line.fingerprint presented
    then (known, some line.fingerprint)
    else other

-- What lookup returns, and what it writes to `stored`.
unfoldable pub lookup : List Line → List ℕ → ℕ → List ℕ → BrokerTrust × Option (List ℕ)
unfolding lookup_loop broker_key
lookup lines host port presented = lookup_loop (broker_key host port) presented none lines

unfoldable pub any_for : List ℕ → List Line → Bool
any_for key [] = false
any_for key (line ∷ lines) = let rest = any_for key lines in if is_for key line then true else rest

unfoldable pub has_entry : List Line → List ℕ → ℕ → Bool
unfolding any_for broker_key
has_entry lines host port = any_for (broker_key host port) lines

abbrev pub fresh_line : List ℕ → List ℕ → Line
fresh_line key fingerprint = record {
  raw = key ++ (32 ∷ format_fingerprint fingerprint);
  is_entry = true;
  malformed = false;
  key = key;
  fingerprint = fingerprint;
}

unfoldable pub add : List Line → List ℕ → ℕ → List ℕ → List Line × Bool
unfolding has_entry
add lines host port fingerprint =
    if has_entry lines host port
    then (lines, false)
    else (lines ++ fresh_line (broker_key host port) fingerprint ∷ [], true)

-- The loop of replace.
unfoldable pub replace_loop : List ℕ → Line → Bool → List Line → List Line
replace_loop key fresh placed [] = if placed then [] else fresh ∷ []
replace_loop key fresh placed (line ∷ lines) =
    let after = replace_loop key fresh true lines in
    let kept = replace_loop key fresh placed lines in
    if is_for key line then (if placed then after else fresh ∷ after) else line ∷ kept

unfoldable pub replace : List Line → List ℕ → ℕ → List ℕ → List Line
unfolding replace_loop
replace lines host port fingerprint =
    let key = broker_key host port in replace_loop key (fresh_line key fingerprint) false lines

pub data TrustChoice : Type 0 where
  reject trust replace_it : TrustChoice

pub data TrustAction : Type 0 where
  proceed store_new replace_stored refuse : TrustAction

-- A null prompt is `none`; the answer is that to the one question of the check at hand.
pub record TrustPolicy : Type 0 where
  pub accept_new : Bool
  pub prompt : Option TrustChoice

-- The action; the texts of the refusals are not modelled.
unfoldable pub resolve_broker_trust : BrokerTrust → TrustPolicy → TrustAction
resolve_broker_trust known policy = proceed
resolve_broker_trust unknown policy =
    if policy.accept_new
    then store_new
    else elim policy.prompt [ some trust ↦ store_new | _ ↦ refuse ]
resolve_broker_trust changed policy = elim policy.prompt [
  | some replace_it ↦ replace_stored
  | _ ↦ refuse
]
