-- ===== src/KnownBrokers/Words.antt =====
-- known_brokers.cpp: a line of two words is read as two fields.
use de_be_os_rdp.Prelude.{
  ℕ, ◌≡◌, ◌≢◌, refl, sym, ap, ◌∙◌, List, [], ◌∷◌, ◌++◌, append_assoc, false, Option, arith, ◌==◌,
  All,
}
use de_be_os_rdp.KnownBrokers.File.{
  is_space, skip_space, before_end, trim_end, trim, parse_key, parse_fingerprint, word, next_word,
  both, two_fields, fields, line_of, parse_line,
}

abbrev pub IsInk : ℕ → Type 0
IsInk c = is_space c ≡ false

pub skip_space-ink : (c : ℕ) (text : List ℕ) → IsInk c → skip_space (c ∷ text) ≡ c ∷ text
unfolding skip_space
skip_space-ink c text h = rw h refl

before_end-append :
    (c d : ℕ) (text rest : List ℕ) → before_end c (text ++ d ∷ rest) ≡ c ∷ (text ++ d ∷ rest)
before_end-append c d [] rest = refl
before_end-append c d (x ∷ text) rest = refl

pub trim_end-ink : (text : List ℕ) → All IsInk text → trim_end text ≡ text
unfolding trim_end
trim_end-ink [] h = refl
trim_end-ink (c ∷ []) h = rw h.0 refl
trim_end-ink (c ∷ d ∷ text) h = ap (before_end c) (trim_end-ink (d ∷ text) h.1)

trim_end-cons : (c : ℕ) (text : List ℕ) → trim_end (c ∷ text) ≡ before_end c (trim_end text)
unfolding trim_end
trim_end-cons c text = refl

-- A text that ends in ink ends where it ends.
trim_end-append :
    (text : List ℕ) (d : ℕ) (rest : List ℕ)
    → All IsInk (d ∷ rest)
    → trim_end (text ++ d ∷ rest) ≡ text ++ d ∷ rest
trim_end-append [] d rest h = trim_end-ink (d ∷ rest) h
trim_end-append (c ∷ text) d rest h =
    trim_end-cons c (text ++ d ∷ rest)
    ∙ ap (before_end c) (trim_end-append text d rest h)
    ∙ before_end-append c d text rest

word-append : (text rest : List ℕ) → All IsInk text → word (text ++ 32 ∷ rest) ≡ (text, 32 ∷ rest)
unfolding word
word-append [] rest h = refl
word-append (c ∷ text) rest h = rw (h.0, word-append text rest h.1) refl

word-ink : (text : List ℕ) → All IsInk text → word text ≡ (text, [])
unfolding word
word-ink [] h = refl
word-ink (c ∷ text) h = rw (h.0, word-ink text h.1) refl

abbrev behind_first : List ℕ × List ℕ → Option (List ℕ × List ℕ)
behind_first w = two_fields w.0 (next_word w.1).0 (next_word (next_word w.1).1).0

fields-words : (body : List ℕ) → fields body ≡ behind_first (next_word body)
unfolding fields
fields-words body = refl

-- Two words with a space between them are two fields.
fields-two :
    (c : ℕ) (key : List ℕ) (d : ℕ) (digits : List ℕ)
    → All IsInk (c ∷ key)
    → All IsInk (d ∷ digits)
    → fields ((c ∷ key) ++ 32 ∷ d ∷ digits)
      ≡ both (parse_key (c ∷ key)) (parse_fingerprint (d ∷ digits))
fields-two c key d digits h k =
    let first : next_word ((c ∷ key) ++ 32 ∷ d ∷ digits) ≡ (c ∷ key, 32 ∷ d ∷ digits) =
      unfold next_word in
      ap word (skip_space-ink c (key ++ 32 ∷ d ∷ digits) h.0)
      ∙ word-append (c ∷ key) (d ∷ digits) h in
    let second : next_word (32 ∷ d ∷ digits) ≡ (d ∷ digits, []) =
      unfold next_word in
      ap word (unfold skip_space in skip_space-ink d digits k.0) ∙ word-ink (d ∷ digits) k in
    let extra : next_word [] ≡ ([], []) = unfold next_word skip_space word in refl in
    fields-words _
    ∙ ap (λ (w : List ℕ × List ℕ). behind_first w) first
    ∙ ap (λ (w : List ℕ × List ℕ). two_fields (c ∷ key) w.0 (next_word w.1).0) second
    ∙ ap (λ (w : List ℕ × List ℕ). two_fields (c ∷ key) (d ∷ digits) w.0) extra

pub parse_line-two :
    (c : ℕ) (key : List ℕ) (d : ℕ) (digits : List ℕ)
    → All IsInk (c ∷ key)
    → All IsInk (d ∷ digits)
    → c ≢ 35
    → parse_line ((c ∷ key) ++ 32 ∷ d ∷ digits)
      ≡ line_of
          ((c ∷ key) ++ 32 ∷ d ∷ digits)
          (both (parse_key (c ∷ key)) (parse_fingerprint (d ∷ digits)))
parse_line-two c key d digits h k other =
    let raw = (c ∷ key) ++ 32 ∷ d ∷ digits in
    let spaced : All IsInk (d ∷ digits) = k in
    let body : trim raw ≡ raw =
      unfold trim in
      ap trim_end (skip_space-ink c (key ++ 32 ∷ d ∷ digits) h.0)
      ∙ ap trim_end (sym (append_assoc (c ∷ key) (32 ∷ []) (d ∷ digits)))
      ∙ trim_end-append ((c ∷ key) ++ 32 ∷ []) d digits k
      ∙ append_assoc (c ∷ key) (32 ∷ []) (d ∷ digits) in
    let apart : (c == 35) ≡ false = ground (arith, other) in
    unfold parse_line in rw (body, apart) (ap (line_of raw) (fields-two c key d digits h k))
