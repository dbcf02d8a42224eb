-- ===== src/KnownBrokers/File.antt =====
-- known_brokers.cpp: the text of the file of known brokers, read (parse_key, parse_fingerprint,
-- KnownBrokers::parse) and written (serialize), and the counts of its lines.
use de_be_os_rdp.Prelude.{
  ℕ, zero, suc, ◌-◌, ◌^◌, List, [], ◌∷◌, ◌++◌, Bool, true, false, not, ◌&&◌, ◌||◌, Option, none,
  some, ltb, leb, ◌==◌, if◌then◌else◌, length, take, drop, get_or, parse_unsigned,
}
use de_be_os_rdp.Broker.{strip_colons, hex_loop}
use de_be_os_rdp.KnownBrokers.{same_text, lowered, has_colon, broker_key, Line}

-- `std::isspace` of the C locale.
abbrev pub is_space : ℕ → Bool
is_space c = c == 32 || (leb 9 c && leb c 13)

unfoldable pub skip_space : List ℕ → List ℕ
skip_space [] = []
skip_space (c ∷ text) = let rest = skip_space text in if is_space c then rest else c ∷ text

-- A character in front of a text that does not end in a space.
abbrev pub before_end : ℕ → List ℕ → List ℕ
before_end c [] = if is_space c then [] else c ∷ []
before_end c (d ∷ text) = c ∷ d ∷ text

unfoldable pub trim_end : List ℕ → List ℕ
trim_end [] = []
trim_end (c ∷ text) = before_end c (trim_end text)

unfoldable pub trim : List ℕ → List ℕ
unfolding skip_space trim_end
trim text = trim_end (skip_space text)

abbrev pub split_at : ℕ → List ℕ → Option (List ℕ × List ℕ) → Option (List ℕ × List ℕ)
split_at c text (some (before, behind)) = some (c ∷ before, behind)
split_at c text none = if c == 58 then some ([], text) else none

-- What is before and behind `rfind(':')`.
unfoldable pub split_last : List ℕ → Option (List ℕ × List ℕ)
split_last [] = none
split_last (c ∷ text) = split_at c text (split_last text)

abbrev pub last_of : List ℕ → ℕ
last_of host = get_or host (length host - 1) 0

-- The host without brackets.
unfoldable pub bare_host : List ℕ → Option (List ℕ)
unfolding has_colon
bare_host host =
    if get_or host 0 0 == 91
    then if ltb (length host) 3 || not (last_of host == 93)
      then none
      else some (take (length host - 2) (drop 1 host))
    else if has_colon host
    then none
    else some host

unfoldable pub any_bad : List ℕ → Bool
any_bad [] = false
any_bad (c ∷ host) =
    let rest = any_bad host in if is_space c || (c == 91 || c == 93) then true else rest

abbrev pub key_of : Option (List ℕ) → ℕ → Option (List ℕ)
key_of none port = none
key_of (some host) port = if any_bad host then none else some (broker_key host port)

abbrev pub with_port : List ℕ → Option ℕ → Option (List ℕ)
with_port host none = none
with_port host (some port) =
    if port == 0 || ltb 65535 port then none else key_of (bare_host host) port

abbrev pub at_colon : Option (List ℕ × List ℕ) → Option (List ℕ)
at_colon none = none
at_colon (some ([], port_text)) = none
at_colon (some (c ∷ host, [])) = none
at_colon (some (c ∷ host, d ∷ digits)) = with_port (c ∷ host) (parse_unsigned (2 ^ 32) (d ∷ digits))

unfoldable pub parse_key : List ℕ → Option (List ℕ)
unfolding split_last
parse_key text = at_colon (split_last text)

-- "sha256:"
abbrev pub digest_prefix : List ℕ
digest_prefix = 115 ∷ 104 ∷ 97 ∷ 50 ∷ 53 ∷ 54 ∷ 58 ∷ []

unfoldable pub drop_prefix : List ℕ → List ℕ
unfolding same_text lowered
drop_prefix text =
    if leb 7 (length text) && same_text (lowered (take 7 text)) digest_prefix
    then drop 7 text
    else text

-- The loops over the colons and the pairs of digits are those of decode_certificate_pin.
unfoldable pub parse_fingerprint : List ℕ → Option (List ℕ)
unfolding trim drop_prefix strip_colons hex_loop
parse_fingerprint text =
    let digits = strip_colons (drop_prefix (trim text)) in
    if length digits == 64 then hex_loop 32 digits else none

-- `>>` of a stream into a string: the word at the front, and what is behind it.
unfoldable pub word : List ℕ → List ℕ × List ℕ
word [] = ([], [])
word (c ∷ text) =
    let rest : List ℕ × List ℕ = word text in
    if is_space c then ([], c ∷ text) else (c ∷ rest.0, rest.1)

unfoldable pub next_word : List ℕ → List ℕ × List ℕ
unfolding skip_space word
next_word text = word (skip_space text)

abbrev pub is_empty : List ℕ → Bool
is_empty [] = true
is_empty (c ∷ text) = false

abbrev pub both : Option (List ℕ) → Option (List ℕ) → Option (List ℕ × List ℕ)
both (some key) (some fingerprint) = some (key, fingerprint)
both (some key) none = none
both none fingerprint = none

abbrev pub two_fields : List ℕ → List ℕ → List ℕ → Option (List ℕ × List ℕ)
two_fields key_text fingerprint_text extra =
    if is_empty key_text || (is_empty fingerprint_text || not (is_empty extra))
    then none
    else both (parse_key key_text) (parse_fingerprint fingerprint_text)

-- The key and the fingerprint of exactly two fields.
unfoldable pub fields : List ℕ → Option (List ℕ × List ℕ)
unfolding next_word
fields body =
    let first = next_word body in
    let second = next_word first.1 in
    let extra = next_word second.1 in two_fields first.0 second.0 extra.0

unfoldable pub zeros : ℕ → List ℕ
zeros zero = []
zeros (suc n) = 0 ∷ zeros n

-- A line that holds nothing for a lookup.
abbrev pub inert_line : Bool → List ℕ → Line
inert_line malformed raw = record {
  raw = raw;
  is_entry = false;
  malformed = malformed;
  key = [];
  fingerprint = zeros 32;
}

abbrev pub line_of : List ℕ → Option (List ℕ × List ℕ) → Line
line_of raw none = inert_line true raw
line_of raw (some (key, fingerprint)) = record {
  raw = raw;
  is_entry = true;
  malformed = false;
  key = key;
  fingerprint = fingerprint;
}

unfoldable pub parse_line : List ℕ → Line
unfolding trim fields zeros
parse_line raw =
    let body = trim raw in
    if is_empty body || get_or body 0 0 == 35
    then inert_line false raw
    else line_of raw (fields body)

unfoldable pub strip_return : List ℕ → List ℕ
strip_return [] = []
strip_return (c ∷ []) = if c == 13 then [] else c ∷ []
strip_return (c ∷ d ∷ text) = c ∷ strip_return (d ∷ text)

abbrev pub onto_first : ℕ → List (List ℕ) → List (List ℕ)
onto_first c [] = (c ∷ []) ∷ []
onto_first c (line ∷ lines) = (c ∷ line) ∷ lines

-- The lines between the newlines; a newline at the end does not start another one.
unfoldable pub lines_of : List ℕ → List (List ℕ)
lines_of [] = []
lines_of (c ∷ text) = let rest = lines_of text in if c == 10 then [] ∷ rest else onto_first c rest

unfoldable pub parse_each : List (List ℕ) → List Line
unfolding parse_line strip_return
parse_each [] = []
parse_each (raw ∷ raws) = parse_line (strip_return raw) ∷ parse_each raws

unfoldable pub parse_lines : List ℕ → List Line
unfolding parse_each lines_of
parse_lines text = parse_each (lines_of text)

unfoldable pub serialize_lines : List Line → List ℕ
serialize_lines [] = []
serialize_lines (line ∷ lines) = line.raw ++ (10 ∷ serialize_lines lines)

unfoldable pub entry_count : List Line → ℕ
entry_count [] = 0
entry_count (line ∷ lines) =
    let rest = entry_count lines in if line.is_entry then suc rest else rest

unfoldable pub malformed_count : List Line → ℕ
malformed_count [] = 0
malformed_count (line ∷ lines) =
    let rest = malformed_count lines in if line.malformed then suc rest else rest
