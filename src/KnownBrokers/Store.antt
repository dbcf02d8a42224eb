-- ===== src/KnownBrokers/Store.antt =====
-- What add and replace do to later lookups.
use de_be_os_rdp.Prelude.{
  ℕ, ◌≡◌, ◌≢◌, refl, sym, ◌∙◌, inl, inr, List, [], ◌∷◌, ◌++◌, Bool, true, false, Bool-cases, Option,
  none, some, arith, ◌==◌, ==_iff, if◌then◌else◌,
}
use de_be_os_rdp.KnownBrokers.{
  same_text, broker_key, Line, known, is_for, lookup_loop, lookup, any_for, has_entry, fresh_line,
  add, replace_loop, replace,
}

pub same_text_refl : (xs : List ℕ) → same_text xs xs ≡ true
unfolding same_text
same_text_refl [] = refl
same_text_refl (c ∷ xs) = let e = (==_iff c c).1 refl in rw (e, same_text_refl xs) refl

pub same_text_eq : (xs ys : List ℕ) → same_text xs ys ≡ true → xs ≡ ys
unfolding same_text
same_text_eq [] [] e = refl
same_text_eq [] (c ∷ ys) e = cc
same_text_eq (c ∷ xs) [] e = cc
same_text_eq (c ∷ xs) (d ∷ ys) e = elim (Bool-cases (c == d)) [
  | inl same ↦
      let head = (==_iff c d).0 same in
      let tail = same_text_eq xs ys (rw same at e) in rw (head, tail) refl
  | inr other ↦ absurd (let f : false ≡ true = rw other at e in cc)
]

is_for_key : (key : List ℕ) (line : Line) → is_for key line ≡ true → line.key ≡ key
is_for_key key line e = same_text_eq line.key key (ground arith)

is_for_other :
    (key other : List ℕ) (line : Line)
    → key ≢ other
    → is_for key line ≡ true
    → is_for other line ≡ false
is_for_other key other line apart e = elim (Bool-cases (is_for other line)) [
  | inl both ↦ absurd (apart (sym (is_for_key key line e) ∙ is_for_key other line both))
  | inr apart_too ↦ apart_too
]

module _ (key presented : List ℕ) where
  pub lookup_skip :
      (line : Line) (lines : List Line) (first : Option (List ℕ))
      → is_for key line ≡ false
      → lookup_loop key presented first (line ∷ lines) ≡ lookup_loop key presented first lines
  unfolding lookup_loop
  lookup_skip line lines none e = rw e refl
  lookup_skip line lines (some f) e = rw e refl

  lookup_hit :
      (line : Line) (lines : List Line) (first : Option (List ℕ))
      → is_for key line ≡ true
      → same_text line.fingerprint presented ≡ true
      → lookup_loop key presented first (line ∷ lines) ≡ (known, some line.fingerprint)
  unfolding lookup_loop
  lookup_hit line lines none e h = rw (e, h) refl
  lookup_hit line lines (some f) e h = rw (e, h) refl

  lookup_cons :
      (line : Line) (xs ys : List Line) (first : Option (List ℕ))
      → ((first : Option (List ℕ))
          → lookup_loop key presented first xs ≡ lookup_loop key presented first ys)
      → lookup_loop key presented first (line ∷ xs) ≡ lookup_loop key presented first (line ∷ ys)
  unfolding lookup_loop
  lookup_cons line xs ys none same = rw (same none, same (some line.fingerprint)) refl
  lookup_cons line xs ys (some f) same = rw (same (some f)) refl

pub replaced :
    (key : List ℕ) (fresh line : Line) (placed : Bool) (lines : List Line)
    → is_for key line ≡ true
    → replace_loop key fresh placed (line ∷ lines) ≡ (
        if placed
        then replace_loop key fresh true lines
        else fresh ∷ replace_loop key fresh true lines)
unfolding replace_loop
replaced key fresh line placed lines e = rw e refl

pub left_alone :
    (key : List ℕ) (fresh line : Line) (placed : Bool) (lines : List Line)
    → is_for key line ≡ false
    → replace_loop key fresh placed (line ∷ lines) ≡ line ∷ replace_loop key fresh placed lines
unfolding replace_loop
left_alone key fresh line placed lines e = rw e refl

module _ (key : List ℕ) (fresh : Line) (entry : is_for key fresh ≡ true) where
  pub replace_loop-known :
      (lines : List Line) (first : Option (List ℕ))
      → lookup_loop key fresh.fingerprint first (replace_loop key fresh false lines)
        ≡ (known, some fresh.fingerprint)
  replace_loop-known [] first =
      unfold replace_loop in
      lookup_hit key fresh.fingerprint fresh [] first entry (same_text_refl fresh.fingerprint)
  replace_loop-known (line ∷ lines) first = elim (Bool-cases (is_for key line)) [
    | inl match ↦ rw (replaced key fresh line false lines match) (
        lookup_hit key fresh.fingerprint fresh (replace_loop key fresh true lines) first entry
          (same_text_refl fresh.fingerprint))
    | inr other ↦ rw (left_alone key fresh line false lines other) (
        lookup_skip key fresh.fingerprint line (replace_loop key fresh false lines) first other
        ∙ replace_loop-known lines first)
  ]

  module _ (other presented : List ℕ) (apart : key ≢ other) where
    fresh_or_not :
        (placed : Bool) (xs ys : List Line) (first : Option (List ℕ))
        → lookup_loop other presented first xs ≡ lookup_loop other presented first ys
        → lookup_loop other presented first (if placed then xs else fresh ∷ xs)
          ≡ lookup_loop other presented first ys
    fresh_or_not true xs ys first e = e
    fresh_or_not false xs ys first e =
        lookup_skip other presented fresh xs first (is_for_other key other fresh apart entry) ∙ e

    replace_loop-other :
        (placed : Bool) (lines : List Line) (first : Option (List ℕ))
        → lookup_loop other presented first (replace_loop key fresh placed lines)
          ≡ lookup_loop other presented first lines
    replace_loop-other true [] first = unfold replace_loop in refl
    replace_loop-other false [] first =
        unfold replace_loop in
        lookup_skip other presented fresh [] first (is_for_other key other fresh apart entry)
    replace_loop-other placed (line ∷ lines) first = elim (Bool-cases (is_for key line)) [
      | inl match ↦
          let skip =
            lookup_skip other presented line lines first
              (is_for_other key other line apart match) in
          rw (replaced key fresh line placed lines match, skip)
            (fresh_or_not placed (replace_loop key fresh true lines) lines first
              (replace_loop-other true lines first))
      | inr unmatched ↦ rw (left_alone key fresh line placed lines unmatched) (
          lookup_cons other presented line (replace_loop key fresh placed lines) lines first
            (replace_loop-other placed lines))
    ]

pub fresh_line-is_for : (key fingerprint : List ℕ) → is_for key (fresh_line key fingerprint) ≡ true
fresh_line-is_for key fingerprint = same_text_refl key

pub any_for_head :
    (key : List ℕ) (line : Line) (lines : List Line)
    → any_for key (line ∷ lines) ≡ false
    → (is_for key line ≡ false) × (any_for key lines ≡ false)
unfolding any_for
any_for_head key line lines e = ground arith

module _ (key : List ℕ) (fresh : Line) (entry : is_for key fresh ≡ true) where
  pub appended-known :
      (lines : List Line) (first : Option (List ℕ))
      → any_for key lines ≡ false
      → lookup_loop key fresh.fingerprint first (lines ++ fresh ∷ [])
        ≡ (known, some fresh.fingerprint)
  appended-known [] first e =
      lookup_hit key fresh.fingerprint fresh [] first entry (same_text_refl fresh.fingerprint)
  appended-known (line ∷ lines) first e =
      let (skipped, rest) = any_for_head key line lines e in
      lookup_skip key fresh.fingerprint line (lines ++ fresh ∷ []) first skipped
      ∙ appended-known lines first rest

  appended-other :
      (other presented : List ℕ) (lines : List Line) (first : Option (List ℕ))
      → key ≢ other
      → lookup_loop other presented first (lines ++ fresh ∷ [])
        ≡ lookup_loop other presented first lines
  appended-other other presented [] first apart =
      lookup_skip other presented fresh [] first (is_for_other key other fresh apart entry)
  appended-other other presented (line ∷ lines) first apart =
      lookup_cons other presented line (lines ++ fresh ∷ []) lines first
        (λ f. appended-other other presented lines f apart)

module _ (lines : List Line) (host host2 : List ℕ) (port port2 : ℕ) (fingerprint presented : List ℕ)
    (apart : broker_key host port ≢ broker_key host2 port2) where
  -- After replace, the endpoint's fingerprint is known and is the one given, and a lookup for an
  -- endpoint with another key answers as before.
  pub lookup-replace :
      (lookup (replace lines host port fingerprint) host port fingerprint
        ≡ (known, some fingerprint))
      × (lookup (replace lines host port fingerprint) host2 port2 presented
          ≡ lookup lines host2 port2 presented)
  unfolding lookup replace
  lookup-replace =
      let key = broker_key host port in
      let fresh = fresh_line key fingerprint in
      let entry = fresh_line-is_for key fingerprint in
      (
        replace_loop-known key fresh entry lines none,
        replace_loop-other key fresh entry (broker_key host2 port2) presented apart false lines
            none,
      )

  -- Where the endpoint has no entry, add succeeds; its fingerprint is then known and is the one
  -- given, and a lookup for an endpoint with another key answers as before.
  pub lookup-add :
      has_entry lines host port ≡ false
      → ((add lines host port fingerprint).1 ≡ true)
        × (lookup (add lines host port fingerprint).0 host port fingerprint
            ≡ (known, some fingerprint))
        × (lookup (add lines host port fingerprint).0 host2 port2 presented
            ≡ lookup lines host2 port2 presented)
  unfolding lookup add has_entry
  lookup-add e =
      let key = broker_key host port in
      let fresh = fresh_line key fingerprint in
      let entry = fresh_line-is_for key fingerprint in
      rw e (
        refl,
        appended-known key fresh entry lines none e,
        appended-other key fresh entry (broker_key host2 port2) presented lines none apart,
      )
