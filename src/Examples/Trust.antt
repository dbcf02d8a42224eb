-- ===== src/Examples/Trust.antt =====
-- A store with one broker.
use de_be_os_rdp.Prelude.{
  ℕ, ◌≡◌, ◌≢◌, ◌⊎◌, ◌↔◌, refl, ap, get_or, List, [], ◌∷◌, true, false, none, some, arith, ◌++◌,
  codes, zero, suc, Bool, ◌||◌, ◌==◌, parse_unsigned, All, IsByte, length,
}
use de_be_os_rdp.KnownBrokers.{
  broker_key, Line, format_digits, known, unknown, changed, fresh_line, has_entry, any_for,
  same_text, lowered, has_colon, add, replace, TrustPolicy, trust, replace_it, proceed, store_new,
  replace_stored, resolve_broker_trust,
}
use de_be_os_rdp.KnownBrokers.File.{
  parse_key, parse_fingerprint, bare_host, any_bad, zeros, parse_lines, serialize_lines,
  entry_count, malformed_count,
}
use de_be_os_rdp.KnownBrokers.Lines.{NotReturn, serialize_lines-parse_lines}
use de_be_os_rdp.KnownBrokers.Keys.{IsHost}
use de_be_os_rdp.KnownBrokers.Stored.{parse_lines-updates}
use de_be_os_rdp.KnownBrokers.Decision.{resolve_broker_trust_iff}

-- Hosts "a" and "b".
abbrev host_a : List ℕ
host_a = 97 ∷ []

abbrev host_b : List ℕ
host_b = 98 ∷ []

abbrev one_broker : List Line
one_broker = fresh_line (broker_key host_a 10902) (1 ∷ 2 ∷ []) ∷ []

keys_differ : broker_key host_a 10902 ≢ broker_key host_b 10902
unfolding broker_key lowered has_colon
keys_differ e = let h : 97 ≡ 98 = ap (λ (t : List ℕ). get_or t 0 0) e in omega (arith, h)

keys_differ_back : broker_key host_b 10902 ≢ broker_key host_a 10902
unfolding broker_key lowered has_colon
keys_differ_back e = let h : 98 ≡ 97 = ap (λ (t : List ℕ). get_or t 0 0) e in omega (arith, h)

no_entry_b : has_entry one_broker host_b 10902 ≡ false
unfolding has_entry broker_key any_for same_text
no_entry_b = refl

abbrev accepting : TrustPolicy
accepting = record { accept_new = true; prompt = none }

resolve_broker_trust_iff_example :
    ((resolve_broker_trust changed accepting ≡ proceed) ↔ (changed ≡ known))
    × ((resolve_broker_trust changed accepting ≡ store_new)
        ↔ ((changed ≡ unknown) × ((accepting.accept_new ≡ true) ⊎ (accepting.prompt ≡ some trust))))
    × ((resolve_broker_trust changed accepting ≡ replace_stored)
        ↔ ((changed ≡ changed) × (accepting.prompt ≡ some replace_it)))
resolve_broker_trust_iff_example = resolve_broker_trust_iff changed accepting

-- A file with a comment, a line that is no entry, and an entry in capitals.
abbrev file_text : List ℕ
file_text = codes "# mine\nnonsense\n[::1]:443 SHA256:" ++ (format_digits (zeros 32) ++ 10 ∷ [])

abbrev has_return : List ℕ → Bool
has_return [] = false
has_return (c ∷ text) = c == 13 || has_return text

has_return-NotReturn : (text : List ℕ) → has_return text ≡ false → All NotReturn text
has_return-NotReturn [] e = tt
has_return-NotReturn (c ∷ text) e =
    ((λ (f : c ≡ 13). ground (arith, e, f)), has_return-NotReturn text (ground (arith, e)))

file_text-NotReturn : All NotReturn file_text
unfolding format_digits zeros
file_text-NotReturn = has_return-NotReturn file_text refl

abbrev digest : List ℕ
digest = zeros 32

zeros-IsByte : (n : ℕ) → All IsByte (zeros n)
unfolding zeros
zeros-IsByte zero = tt
zeros-IsByte (suc n) = (omega arith, zeros-IsByte n)

length-digest : length digest ≡ 32
unfolding zeros
length-digest = refl

host_a-IsHost : IsHost host_a
host_a-IsHost = record {
  named = refl;
  clean = unfold any_bad in refl;
  no_comment = (λ (e : 97 ≡ 35). omega (arith, e));
}

file_text-entries :
    (entry_count (parse_lines file_text) ≡ 1) × (malformed_count (parse_lines file_text) ≡ 1)
unfolding entry_count malformed_count parse_lines zeros format_digits parse_key parse_unsigned
    bare_host any_bad parse_fingerprint
file_text-entries = (refl, refl)

parse_lines-updates_example :
    (parse_lines (serialize_lines (add (parse_lines file_text) host_a 10902 digest).0)
      ≡ (add (parse_lines file_text) host_a 10902 digest).0)
    × (parse_lines (serialize_lines (replace (parse_lines file_text) host_a 10902 digest))
        ≡ replace (parse_lines file_text) host_a 10902 digest)
parse_lines-updates_example =
    parse_lines-updates host_a 10902 digest host_a-IsHost (omega arith) (omega arith)
      (zeros-IsByte 32) length-digest file_text file_text-NotReturn

serialize_lines-parse_lines_example :
    serialize_lines (parse_lines (file_text ++ 10 ∷ [])) ≡ file_text ++ 10 ∷ []
serialize_lines-parse_lines_example = serialize_lines-parse_lines file_text file_text-NotReturn
