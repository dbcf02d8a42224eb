-- ===== src/KnownBrokers/Reload.antt =====
-- known_brokers.cpp: a line that add and replace make is read back as that line.
use de_be_os_rdp.Prelude.{
  ℕ, ◌+◌, ◌/◌, ◌%◌, ◌≤◌, ◌≡◌, refl, sym, ap, subst, ◌∙◌, List, [], ◌∷◌, ◌++◌, true, Option, none,
  some, arith, ◌==◌, if◌then◌else◌, All, length, ltb, leb, IsByte,
}
use de_be_os_rdp.Broker.{strip_colons, hex_loop}
use de_be_os_rdp.Broker.Pins.{hex, length-hex, hex_loop-hex, strip_colons-hex}
use de_be_os_rdp.KnownBrokers.{
  same_text, lowered, broker_key, format_digits, format_fingerprint, Line, fresh_line,
}
use de_be_os_rdp.KnownBrokers.File.{
  trim_end, trim, parse_key, drop_prefix, parse_fingerprint, both, line_of, parse_line,
}
use de_be_os_rdp.KnownBrokers.Words.{IsInk, skip_space-ink, trim_end-ink, parse_line-two}
use de_be_os_rdp.KnownBrokers.Keys.{IsHost, broker_key-IsInk, broker_key_cons, parse_key-broker_key}

-- The digits of a fingerprint are those that decode_certificate_pin reads.
format_digits-hex : (bytes : List ℕ) → format_digits bytes ≡ hex bytes
unfolding format_digits
format_digits-hex [] = refl
format_digits-hex (b ∷ bytes) =
    let high : (if leb (b / 16) 9 then 48 + b / 16 else 87 + b / 16)
        ≡ (if ltb (b / 16) 10 then 48 + b / 16 else 87 + b / 16) =
      ground arith in
    let low : (if leb (b % 16) 9 then 48 + b % 16 else 87 + b % 16)
        ≡ (if ltb (b % 16) 10 then 48 + b % 16 else 87 + b % 16) =
      ground arith in
    rw (high, low, format_digits-hex bytes) refl

hex-IsInk : (bytes : List ℕ) → All IsByte bytes → All IsInk (hex bytes)
hex-IsInk [] h = tt
hex-IsInk (b ∷ bytes) h = (ground (arith, h.0), (ground (arith, h.0), hex-IsInk bytes h.1))

abbrev pub prefix : List ℕ → List ℕ
prefix digits = 115 ∷ 104 ∷ 97 ∷ 50 ∷ 53 ∷ 54 ∷ 58 ∷ digits

pub prefix-IsInk : (bytes : List ℕ) → All IsByte bytes → All IsInk (prefix (hex bytes))
prefix-IsInk bytes h = (refl, (refl, (refl, (refl, (refl, (refl, (refl, hex-IsInk bytes h)))))))

drop_prefix-prefix : (digits : List ℕ) → drop_prefix (prefix digits) ≡ digits
unfolding drop_prefix same_text lowered
drop_prefix-prefix digits =
    let long : leb 7 (length (prefix digits)) ≡ true = ground arith in rw long refl

fingerprint_of :
    (text : List ℕ)
    → parse_fingerprint text ≡ (
        if length (strip_colons (drop_prefix (trim text))) == 64
        then hex_loop 32 (strip_colons (drop_prefix (trim text)))
        else none)
unfolding parse_fingerprint
fingerprint_of text = refl

parse_fingerprint-prefix :
    (bytes : List ℕ)
    → All IsByte bytes
    → length bytes ≡ 32
    → parse_fingerprint (prefix (hex bytes)) ≡ some bytes
parse_fingerprint-prefix bytes h size =
    let trimmed : trim (prefix (hex bytes)) ≡ prefix (hex bytes) =
      unfold trim in
      ap trim_end (skip_space-ink 115 (104 ∷ 97 ∷ 50 ∷ 53 ∷ 54 ∷ 58 ∷ hex bytes) refl)
      ∙ trim_end-ink (prefix (hex bytes)) (prefix-IsInk bytes h) in
    let digits : strip_colons (drop_prefix (trim (prefix (hex bytes)))) ≡ hex bytes =
      ap (λ (text : List ℕ). strip_colons (drop_prefix text)) trimmed
      ∙ ap strip_colons (drop_prefix-prefix (hex bytes))
      ∙ strip_colons-hex bytes h in
    let long : length (hex bytes) ≡ 64 = omega (arith, length-hex bytes) in
    let loop : hex_loop 32 (hex bytes) ≡ some bytes = rw size at (hex_loop-hex bytes h) in
    let whole : (if length (hex bytes) == 64 then hex_loop 32 (hex bytes) else none) ≡ some bytes =
      rw long loop in
    fingerprint_of (prefix (hex bytes))
    ∙ ap (λ (text : List ℕ). if length text == 64 then hex_loop 32 text else none) digits
    ∙ whole

module _ (host : List ℕ) (port : ℕ) (fingerprint : List ℕ) (valid : IsHost host)
    (port_low : 1 ≤ port) (port_high : port ≤ 65535) (bytes : All IsByte fingerprint)
    (size : length fingerprint ≡ 32) where
  abbrev fresh : Line
  fresh = fresh_line (broker_key host port) fingerprint

  pub raw_of : fresh.raw ≡ broker_key host port ++ 32 ∷ prefix (hex fingerprint)
  raw_of =
      ap (λ (digits : List ℕ). broker_key host port ++ 32 ∷ digits)
        (unfold format_fingerprint in ap prefix (format_digits-hex fingerprint))

  parse_line-raw_of :
      parse_line (broker_key host port ++ 32 ∷ prefix (hex fingerprint))
      ≡ line_of
          (broker_key host port ++ 32 ∷ prefix (hex fingerprint))
          (both (parse_key (broker_key host port)) (parse_fingerprint (prefix (hex fingerprint))))
  parse_line-raw_of =
      let (c, behind, e, apart) = broker_key_cons host port valid in
      let inks : All IsInk (c ∷ behind) = subst (All IsInk) e (broker_key-IsInk host port valid) in
      rw e (
        parse_line-two c behind 115 (104 ∷ 97 ∷ 50 ∷ 53 ∷ 54 ∷ 58 ∷ hex fingerprint) inks
          (prefix-IsInk fingerprint bytes) apart)

  -- A line that add or replace makes for a host without spaces and brackets, a port and 32 bytes
  -- is what parse reads from its text.
  pub parse_line-fresh_line : parse_line fresh.raw ≡ fresh
  parse_line-fresh_line =
      ap parse_line raw_of
      ∙ parse_line-raw_of
      ∙ ap
          (λ (raw : List ℕ). line_of raw (
            both (parse_key (broker_key host port)) (parse_fingerprint (prefix (hex fingerprint)))))
          (sym raw_of)
      ∙ ap
          (λ (key : Option (List ℕ)).
            line_of fresh.raw (both key (parse_fingerprint (prefix (hex fingerprint)))))
          (parse_key-broker_key host port valid port_low port_high)
      ∙ ap (λ (read : Option (List ℕ)). line_of fresh.raw (both (some (broker_key host port)) read))
          (parse_fingerprint-prefix fingerprint bytes size)
