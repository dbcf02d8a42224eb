-- ===== src/Transport.antt =====
-- transport.cpp: parse_url.
pub mod Url
use de_be_os_rdp.Prelude.{
  ℕ, ◌^◌, List, [], ◌∷◌, Bool, true, false, ◌||◌, Option, none, some, Result, ok, err, ltb, ◌==◌,
  if◌then◌else◌, drop, parse_unsigned,
}
use de_be_os_rdp.Broker.{starts_with}
use de_be_os_rdp.KnownBrokers.{lowered}
use de_be_os_rdp.KnownBrokers.File.{split_last}

-- `port` is 0 where the URL has none.
pub record ParsedUrl : Type 0 where
  pub scheme : List ℕ
  pub host : List ℕ
  pub port : ℕ
  pub target : List ℕ

pub data UrlError : Type 0 where
  no_scheme unterminated_literal malformed_authority no_host bad_port : UrlError

abbrev pub onto : ℕ → Option (List ℕ × List ℕ) → Option (List ℕ × List ℕ)
onto c none = none
onto c (some (before, behind)) = some (c ∷ before, behind)

-- What is before and behind `find("://")`.
unfoldable pub split_scheme : List ℕ → Option (List ℕ × List ℕ)
unfolding starts_with
split_scheme [] = none
split_scheme (c ∷ text) =
    let rest = split_scheme text in
    if starts_with (58 ∷ 47 ∷ 47 ∷ []) (c ∷ text) then some ([], drop 2 text) else onto c rest

-- What is before the first '/' or '?', and the text from there on.
unfoldable pub split_authority : List ℕ → List ℕ × List ℕ
split_authority [] = ([], [])
split_authority (c ∷ text) =
    let rest : List ℕ × List ℕ = split_authority text in
    if c == 47 || c == 63 then ([], c ∷ text) else (c ∷ rest.0, rest.1)

abbrev pub target_of : List ℕ → List ℕ
target_of [] = 47 ∷ []
target_of (c ∷ text) = if c == 63 then 47 ∷ c ∷ text else c ∷ text

-- What is before and behind the first ']'.
unfoldable pub split_bracket : List ℕ → Option (List ℕ × List ℕ)
split_bracket [] = none
split_bracket (c ∷ text) =
    let rest = split_bracket text in if c == 93 then some ([], text) else onto c rest

-- The host and the text of the port.
abbrev pub behind_bracket : Option (List ℕ × List ℕ) → Result UrlError (List ℕ × List ℕ)
behind_bracket none = err unterminated_literal
behind_bracket (some (host, [])) = ok (host, [])
behind_bracket (some (host, c ∷ port_text)) =
    if c == 58 then ok (host, port_text) else err malformed_authority

abbrev pub at_last_colon : List ℕ → Option (List ℕ × List ℕ) → List ℕ × List ℕ
at_last_colon authority none = (authority, [])
at_last_colon authority (some found) = found

unfoldable pub host_and_port : List ℕ → Result UrlError (List ℕ × List ℕ)
unfolding split_bracket split_last
host_and_port [] = ok ([], [])
host_and_port (c ∷ authority) =
    if c == 91
    then behind_bracket (split_bracket authority)
    else ok (at_last_colon (c ∷ authority) (split_last (c ∷ authority)))

abbrev pub checked_port : Option ℕ → Result UrlError ℕ
checked_port none = err bad_port
checked_port (some port) = if port == 0 || ltb 65535 port then err bad_port else ok port

abbrev pub port_of : List ℕ → Result UrlError ℕ
port_of [] = ok 0
port_of (c ∷ digits) = checked_port (parse_unsigned (2 ^ 32) (c ∷ digits))

abbrev pub with_target : List ℕ → List ℕ → List ℕ → Result UrlError ℕ → Result UrlError ParsedUrl
with_target scheme target host (err e) = err e
with_target scheme target host (ok port) =
    ok (record { scheme = lowered scheme; host = host; port = port; target = target })

abbrev pub parsed_url :
    List ℕ → List ℕ → Result UrlError (List ℕ × List ℕ) → Result UrlError ParsedUrl
parsed_url scheme target (err e) = err e
parsed_url scheme target (ok ([], port_text)) = err no_host
parsed_url scheme target (ok (c ∷ host, port_text)) =
    with_target scheme target (c ∷ host) (port_of port_text)

abbrev pub behind_scheme : Option (List ℕ × List ℕ) → Result UrlError ParsedUrl
behind_scheme none = err no_scheme
behind_scheme (some (scheme, text)) =
    let parts = split_authority text in
    parsed_url scheme (target_of parts.1) (host_and_port parts.0)

unfoldable pub parse_url : List ℕ → Result UrlError ParsedUrl
unfolding split_scheme split_authority host_and_port lowered parse_unsigned
parse_url url = behind_scheme (split_scheme url)
