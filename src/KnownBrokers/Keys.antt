-- ===== src/KnownBrokers/Keys.antt =====
-- known_brokers.cpp: parse_key reads the key that broker_key makes.
use de_be_os_rdp.Prelude.{
  ℕ, zero, suc, ◌+◌, ◌-◌, ◌/◌, ◌%◌, ◌^◌, ◌≤◌, ◌≡◌, ◌≢◌, refl, sym, ap, ◌∙◌, inl, inr, List, [], ◌∷◌,
  ◌++◌, true, false, Bool-cases, Option, none, some, arith, ◌==◌, ==_iff, if◌then◌else◌, get_or,
  ◌||◌, All, All-append, length, length-append, take-length_append, ltb, decimal, to_string,
  to_string_head, parse_unsigned, parse_unsigned-to_string,
}
use de_be_os_rdp.KnownBrokers.{lowered, has_colon, broker_key}
use de_be_os_rdp.KnownBrokers.File.{
  split_last, last_of, bare_host, any_bad, key_of, with_port, at_colon, parse_key, is_empty,
}
use de_be_os_rdp.KnownBrokers.Words.{IsInk}

-- A host that the file can hold: it has a character, none is a space or a bracket, and the first
-- does not start a comment.
pub record IsHost (host : List ℕ) : Type 0 where
  pub named : is_empty host ≡ false
  pub clean : any_bad host ≡ false
  pub no_comment : get_or host 0 0 ≢ 35

-- What a host is made of.
any_bad-IsInk : (host : List ℕ) → any_bad host ≡ false → All IsInk host
unfolding any_bad
any_bad-IsInk [] h = tt
any_bad-IsInk (c ∷ host) h = (ground arith, any_bad-IsInk host (ground arith))

any_bad-lowered : (host : List ℕ) → any_bad host ≡ false → any_bad (lowered host) ≡ false
unfolding any_bad lowered
any_bad-lowered [] h = refl
any_bad-lowered (c ∷ host) h = let rest = any_bad-lowered host (ground arith) in ground arith

lowered-lowered : (host : List ℕ) → lowered (lowered host) ≡ lowered host
unfolding lowered
lowered-lowered [] = refl
lowered-lowered (c ∷ host) =
    rw (lowered-lowered host) (ap (λ (d : ℕ). d ∷ lowered host) (ground arith))

pub split_last-none :
    (text : List ℕ) → All (λ (c : ℕ). 48 ≤ c × c ≤ 57) text → split_last text ≡ none
unfolding split_last
split_last-none [] h = refl
split_last-none (c ∷ text) h =
    let other : (c == 58) ≡ false = ground (arith, h.0.1) in
    rw (split_last-none text h.1, other) refl

pub split_last-append :
    (before digits : List ℕ)
    → split_last digits ≡ none
    → split_last (before ++ 58 ∷ digits) ≡ some (before, digits)
unfolding split_last
split_last-append [] digits h = rw h refl
split_last-append (c ∷ before) digits h = rw (split_last-append before digits h) refl

decimal-digits :
    (fuel n : ℕ) (out : List ℕ)
    → All (λ (c : ℕ). 48 ≤ c × c ≤ 57) out
    → All (λ (c : ℕ). 48 ≤ c × c ≤ 57) (decimal fuel n out)
unfolding decimal
decimal-digits zero n out h = h
decimal-digits (suc fuel) n out h = elim (Bool-cases (ltb n 10)) [
  | inl small ↦ rw small ((omega arith, omega arith), h)
  | inr large ↦
      rw large (decimal-digits fuel (n / 10) ((48 + n % 10) ∷ out) ((omega arith, omega arith), h))
]

-- The host as the key shows it.
abbrev shown : List ℕ → List ℕ
shown low = if has_colon low then 91 ∷ (low ++ 93 ∷ []) else low

length-snoc : (low : List ℕ) → length (low ++ 93 ∷ []) ≡ length low + 1
length-snoc low = length-append low (93 ∷ [])

get_or-snoc : (low : List ℕ) → get_or (low ++ 93 ∷ []) (length low) 0 ≡ 93
get_or-snoc [] = refl
get_or-snoc (d ∷ low) = get_or-snoc low

last_of-snoc : (c : ℕ) (low : List ℕ) → last_of (c ∷ (low ++ 93 ∷ [])) ≡ 93
last_of-snoc c low =
    let index : length (c ∷ (low ++ 93 ∷ [])) - 1 ≡ suc (length low) =
      omega (arith, length-snoc low) in
    ap (λ (i : ℕ). get_or (c ∷ (low ++ 93 ∷ [])) i 0) index ∙ get_or-snoc low

bare_host-bracketed :
    (d : ℕ) (low : List ℕ) → bare_host (91 ∷ ((d ∷ low) ++ 93 ∷ [])) ≡ some (d ∷ low)
bare_host-bracketed d low =
    let size = length-snoc low in
    let long : ltb (length (91 ∷ ((d ∷ low) ++ 93 ∷ []))) 3 ≡ false = ground (arith, size) in
    let closed : (last_of (91 ∷ ((d ∷ low) ++ 93 ∷ [])) == 93) ≡ true =
      (==_iff _ 93).1 (last_of-snoc 91 (d ∷ low)) in
    let inner : length (91 ∷ ((d ∷ low) ++ 93 ∷ [])) - 2 ≡ length (d ∷ low) = omega (arith, size) in
    unfold bare_host in rw (long, closed, inner, take-length_append (d ∷ low) (93 ∷ [])) refl

bare_host-plain :
    (d : ℕ) (low : List ℕ)
    → d ≢ 91
    → has_colon (d ∷ low) ≡ false
    → bare_host (d ∷ low) ≡ some (d ∷ low)
bare_host-plain d low other plain =
    let apart : (d == 91) ≡ false = ground (arith, other) in
    unfold bare_host in rw (apart, plain) refl

any_bad-ne-bracket : (d : ℕ) (low : List ℕ) → any_bad (d ∷ low) ≡ false → d ≢ 91
unfolding any_bad
any_bad-ne-bracket d low clean = ground arith

bare_host-shown :
    (d : ℕ) (low : List ℕ)
    → any_bad (d ∷ low) ≡ false
    → bare_host (shown (d ∷ low)) ≡ some (d ∷ low)
bare_host-shown d low clean = elim (Bool-cases (has_colon (d ∷ low))) [
  | inl colons ↦ rw colons (bare_host-bracketed d low)
  | inr plain ↦ rw plain (bare_host-plain d low (any_bad-ne-bracket d low clean) plain)
]

shown-some : (low : List ℕ) → is_empty low ≡ false → is_empty (shown low) ≡ false
shown-some low h = elim (Bool-cases (has_colon low)) [
  | inl colons ↦ rw colons refl
  | inr plain ↦ rw plain h
]

lowered-some : (host : List ℕ) → is_empty host ≡ false → is_empty (lowered host) ≡ false
unfolding lowered
lowered-some [] h = h
lowered-some (c ∷ host) h = refl

bare_host-shown-some :
    (low : List ℕ) → is_empty low ≡ false → any_bad low ≡ false → bare_host (shown low) ≡ some low
bare_host-shown-some [] h clean = absurd (let f : true ≡ false = h in cc)
bare_host-shown-some (d ∷ low) h clean = bare_host-shown d low clean

at_colon-some :
    (before digits : List ℕ)
    → is_empty before ≡ false
    → is_empty digits ≡ false
    → at_colon (some (before, digits)) ≡ with_port before (parse_unsigned (2 ^ 32) digits)
at_colon-some [] digits h k = absurd (let f : true ≡ false = h in cc)
at_colon-some (c ∷ before) [] h k = absurd (let f : true ≡ false = k in cc)
at_colon-some (c ∷ before) (d ∷ digits) h k = refl

pub to_string-some : (n : ℕ) → is_empty (to_string n) ≡ false
to_string-some n = let (c, cs, e, lo, hi) = to_string_head n in ap is_empty e

pub to_string-digits : (n : ℕ) → All (λ (c : ℕ). 48 ≤ c × c ≤ 57) (to_string n)
to_string-digits n = unfold to_string in decimal-digits (suc n) n [] tt

broker_key-shown :
    (host : List ℕ) (port : ℕ) → broker_key host port ≡ shown (lowered host) ++ 58 ∷ to_string port
unfolding broker_key
broker_key-shown host port = refl

with_port-some :
    (before : List ℕ) (port : ℕ)
    → 1 ≤ port
    → port ≤ 65535
    → with_port before (some port) ≡ key_of (bare_host before) port
with_port-some before port low high =
    let fits : (port == 0 || ltb 65535 port) ≡ false = ground arith in rw fits refl

key_of-clean :
    (host : List ℕ) (port : ℕ)
    → any_bad host ≡ false
    → key_of (some host) port ≡ some (broker_key host port)
key_of-clean host port clean = rw clean refl

pub parse_key-broker_key :
    (host : List ℕ) (port : ℕ)
    → IsHost host
    → 1 ≤ port
    → port ≤ 65535
    → parse_key (broker_key host port) ≡ some (broker_key host port)
parse_key-broker_key host port h low high =
    let clean = any_bad-lowered host h.clean in
    let named = lowered-some host h.named in
    let same : broker_key (lowered host) port ≡ broker_key host port =
      broker_key-shown (lowered host) port
      ∙ ap (λ (l : List ℕ). shown l ++ 58 ∷ to_string port) (lowered-lowered host)
      ∙ sym (broker_key-shown host port) in
    unfold parse_key in
    ap at_colon (
      ap split_last (broker_key-shown host port)
      ∙ split_last-append (shown (lowered host)) (to_string port)
          (split_last-none (to_string port) (to_string-digits port)))
    ∙ at_colon-some (shown (lowered host)) (to_string port) (shown-some (lowered host) named)
        (to_string-some port)
    ∙ ap (with_port (shown (lowered host))) (parse_unsigned-to_string (2 ^ 32) port (omega arith))
    ∙ with_port-some (shown (lowered host)) port low high
    ∙ ap (λ (b : Option (List ℕ)). key_of b port) (bare_host-shown-some (lowered host) named clean)
    ∙ key_of-clean (lowered host) port clean
    ∙ ap some same

-- The key is one word that starts no comment.
shown-IsInk : (low : List ℕ) → All IsInk low → All IsInk (shown low)
shown-IsInk low h = elim (Bool-cases (has_colon low)) [
  | inl colons ↦ rw colons (refl, All-append IsInk low (93 ∷ []) h (refl, tt))
  | inr plain ↦ rw plain h
]

digits-IsInk : (text : List ℕ) → All (λ (c : ℕ). 48 ≤ c × c ≤ 57) text → All IsInk text
digits-IsInk [] h = tt
digits-IsInk (c ∷ text) h = (ground (arith, h.0.0), digits-IsInk text h.1)

pub broker_key-IsInk : (host : List ℕ) (port : ℕ) → IsHost host → All IsInk (broker_key host port)
broker_key-IsInk host port h = rw (broker_key-shown host port) (
    All-append IsInk (shown (lowered host)) (58 ∷ to_string port)
      (shown-IsInk (lowered host) (any_bad-IsInk (lowered host) (any_bad-lowered host h.clean)))
      (refl, digits-IsInk (to_string port) (to_string-digits port)))

shown-ne-comment : (low : List ℕ) → get_or low 0 0 ≢ 35 → get_or (shown low) 0 0 ≢ 35
shown-ne-comment low h = elim (Bool-cases (has_colon low)) [
  | inl colons ↦ rw colons (λ (e : 91 ≡ 35). omega (arith, e))
  | inr plain ↦ rw plain h
]

lowered-ne-comment : (host : List ℕ) → get_or host 0 0 ≢ 35 → get_or (lowered host) 0 0 ≢ 35
unfolding lowered
lowered-ne-comment [] h e = h e
lowered-ne-comment (c ∷ host) h e = h (ground (arith, e))

shown_cons :
    (text rest : List ℕ)
    → is_empty text ≡ false
    → (c : ℕ) × (behind : List ℕ) × (text ++ rest ≡ c ∷ behind) × (get_or text 0 0 ≡ c)
shown_cons [] rest h = absurd (let f : true ≡ false = h in cc)
shown_cons (c ∷ text) rest h = (c, text ++ rest, refl, refl)

-- The key's first character, and that it starts no comment.
pub broker_key_cons :
    (host : List ℕ) (port : ℕ)
    → IsHost host
    → (c : ℕ) × (behind : List ℕ) × (broker_key host port ≡ c ∷ behind) × (c ≢ 35)
broker_key_cons host port h =
    let (c, behind, e, head) =
      shown_cons (shown (lowered host)) (58 ∷ to_string port)
        (shown-some (lowered host) (lowered-some host h.named)) in
    let apart = shown-ne-comment (lowered host) (lowered-ne-comment host h.no_comment) in
    (c, behind, broker_key-shown host port ∙ e, λ (f : c ≡ 35). apart (head ∙ f))
