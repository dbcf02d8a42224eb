-- ===== src/Transport/Url.antt =====
-- transport.cpp: what parse_url makes of a URL with a host, a port and a path.
use de_be_os_rdp.Prelude.{
  ℕ, ◌^◌, ◌≤◌, ◌≡◌, refl, ap, ◌∙◌, List, [], ◌∷◌, ◌++◌, true, false, ◌||◌, Option, some, ok, arith,
  ltb, ◌==◌, All, All-append, to_string, parse_unsigned, parse_unsigned-to_string,
}
use de_be_os_rdp.Broker.{starts_with}
use de_be_os_rdp.KnownBrokers.{lowered}
use de_be_os_rdp.KnownBrokers.File.{is_empty}
use de_be_os_rdp.KnownBrokers.Keys.{
  split_last-none, split_last-append, to_string-digits, to_string-some,
}
use de_be_os_rdp.Transport.{
  split_scheme, split_authority, target_of, at_last_colon, host_and_port, checked_port, port_of,
  with_target, parsed_url, behind_scheme, parse_url,
}

abbrev pub NotColon : ℕ → Type 0
NotColon c = (c == 58) ≡ false

abbrev pub InAuthority : ℕ → Type 0
InAuthority c = (c == 47 || c == 63) ≡ false

split_scheme-append :
    (scheme text : List ℕ)
    → All NotColon scheme
    → split_scheme (scheme ++ 58 ∷ 47 ∷ 47 ∷ text) ≡ some (scheme, text)
unfolding split_scheme starts_with
split_scheme-append [] text h = refl
split_scheme-append (c ∷ scheme) text h =
    let other : (58 == c) ≡ false = ground (arith, h.0) in
    rw (other, split_scheme-append scheme text h.1) refl

split_authority-append :
    (authority path : List ℕ)
    → All InAuthority authority
    → split_authority (authority ++ 47 ∷ path) ≡ (authority, 47 ∷ path)
unfolding split_authority
split_authority-append [] path h = refl
split_authority-append (c ∷ authority) path h =
    rw (h.0, split_authority-append authority path h.1) refl

digits-InAuthority :
    (digits : List ℕ) → All (λ (c : ℕ). 48 ≤ c × c ≤ 57) digits → All InAuthority digits
digits-InAuthority [] h = tt
digits-InAuthority (c ∷ digits) h = (ground (arith, h.0), digits-InAuthority digits h.1)

port_of-some :
    (digits : List ℕ)
    → is_empty digits ≡ false
    → port_of digits ≡ checked_port (parse_unsigned (2 ^ 32) digits)
port_of-some [] h = absurd (let f : true ≡ false = h in cc)
port_of-some (c ∷ digits) h = refl

port_of-to_string : (port : ℕ) → 1 ≤ port → port ≤ 65535 → port_of (to_string port) ≡ ok port
port_of-to_string port low high =
    let fits : (port == 0 || ltb 65535 port) ≡ false = ground arith in
    port_of-some (to_string port) (to_string-some port)
    ∙ ap checked_port (parse_unsigned-to_string (2 ^ 32) port (omega arith))
    ∙ rw fits refl

host_and_port-append :
    (c : ℕ) (host : List ℕ) (port : ℕ)
    → (c == 91) ≡ false
    → host_and_port ((c ∷ host) ++ 58 ∷ to_string port) ≡ ok (c ∷ host, to_string port)
unfolding host_and_port
host_and_port-append c host port h = rw h (
    ap
      (λ (found : Option (List ℕ × List ℕ)).
        ok (at_last_colon ((c ∷ host) ++ 58 ∷ to_string port) found))
      (split_last-append (c ∷ host) (to_string port)
        (split_last-none (to_string port) (to_string-digits port))))

-- A URL made of a scheme without colons, a host that has a character, no '/' and no '?' and does
-- not start with '[', a positive 16-bit port and a path is parsed to these, with the scheme in
-- lower case.
pub parse_url-parts :
    (scheme : List ℕ) (c : ℕ) (host : List ℕ) (port : ℕ) (path : List ℕ)
    → All NotColon scheme
    → All InAuthority (c ∷ host)
    → (c == 91) ≡ false
    → 1 ≤ port
    → port ≤ 65535
    → parse_url (scheme ++ 58 ∷ 47 ∷ 47 ∷ (((c ∷ host) ++ 58 ∷ to_string port) ++ 47 ∷ path))
      ≡ ok (record { scheme = lowered scheme; host = c ∷ host; port = port; target = 47 ∷ path })
parse_url-parts scheme c host port path s h front low high =
    let authority = (c ∷ host) ++ 58 ∷ to_string port in
    let inside : All InAuthority authority =
      All-append InAuthority (c ∷ host) (58 ∷ to_string port) h
        (refl, digits-InAuthority (to_string port) (to_string-digits port)) in
    unfold parse_url in
    ap behind_scheme (split_scheme-append scheme (authority ++ 47 ∷ path) s)
    ∙ ap
        (λ (parts : List ℕ × List ℕ). parsed_url scheme (target_of parts.1) (host_and_port parts.0))
        (split_authority-append authority path inside)
    ∙ ap (parsed_url scheme (47 ∷ path)) (host_and_port-append c host port front)
    ∙ ap (with_target scheme (47 ∷ path) (c ∷ host)) (port_of-to_string port low high)
