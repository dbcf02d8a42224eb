-- ===== src/Json/Steps.antt =====
-- json.cpp: the layout that the parser skips, and its steps, each from what its parts read.
use de_be_os_rdp.Prelude.{
  ℕ, zero, suc, ◌+◌, ◌*◌, ◌≤◌, ◌<◌, ◌≡◌, refl, ◌∙◌, sym, ap, List, [], ◌∷◌, ◌++◌, append_assoc,
  append-nil, Bool, true, false, Bool-cases, inl, inr, Option, some, none, ok, ◌>>=◌, ap₂, arith,
  length, length-append, ◌==◌, if◌then◌else◌,
}
use de_be_os_rdp.Json.{
  Doubles, Value, Items, Members, number, string, array, object, no_items, item, no_members, member,
  append_escaped, escape_all, indent, spaces, newline, space,
}
use de_be_os_rdp.Json.Parser.{
  is_whitespace, is_number_char, skip_whitespace, parse_string, parse_number, parse_key,
  parse_colon, closed_at_once, follow, parse_value, parse_array, parse_items, parse_object,
  parse_members, value_at, array_of, object_of, after_item, after_member,
}
use de_be_os_rdp.Json.Strings.{parse_string-append_escaped}
use de_be_os_rdp.Json.Numbers.{IsNumeral, Stops, start_of-number, is_whitespace-number}

pub skip_whitespace-spaces :
    (n : ℕ) (t : List ℕ) → skip_whitespace (spaces n ++ t) ≡ skip_whitespace t
unfolding skip_whitespace spaces
skip_whitespace-spaces zero t = refl
skip_whitespace-spaces (suc n) t = skip_whitespace-spaces n t

pub skip_whitespace-indent :
    (pretty : Bool) (depth : ℕ) (t : List ℕ)
    → skip_whitespace (indent pretty depth ++ t) ≡ skip_whitespace t
unfolding indent
skip_whitespace-indent true depth t = skip_whitespace-spaces (2 * depth) t
skip_whitespace-indent false depth t = refl

pub skip_whitespace-newline :
    (pretty : Bool) (t : List ℕ) → skip_whitespace (newline pretty ++ t) ≡ skip_whitespace t
unfolding skip_whitespace
skip_whitespace-newline true t = refl
skip_whitespace-newline false t = refl

pub skip_whitespace-space :
    (pretty : Bool) (t : List ℕ) → skip_whitespace (space pretty ++ t) ≡ skip_whitespace t
unfolding skip_whitespace
skip_whitespace-space true t = refl
skip_whitespace-space false t = refl

pub ruleset layout =
    (skip_whitespace-indent, skip_whitespace-newline, skip_whitespace-space, append_assoc)

pub skip_whitespace_at :
    (c : ℕ) (t : List ℕ) → is_whitespace c ≡ false → skip_whitespace (c ∷ t) ≡ c ∷ t
unfolding skip_whitespace
skip_whitespace_at c t h = rw h refl

-- Whitespace and punctuation stop a number.
pub Stops-skip_whitespace :
    (t : List ℕ) (c : ℕ) (rest : List ℕ)
    → skip_whitespace t ≡ c ∷ rest
    → is_number_char c ≡ false
    → Stops t
unfolding skip_whitespace
Stops-skip_whitespace [] c rest e h = tt
Stops-skip_whitespace (d ∷ t) c rest e h = elim (Bool-cases (is_whitespace d)) [
  | inl white ↦ ground arith
  | inr dark ↦ let same : d ≡ c = cc (rw dark at e) in rw same h
]

pub Stops-newline : (pretty : Bool) (t : List ℕ) → Stops t → Stops (newline pretty ++ t)
Stops-newline true t h = refl
Stops-newline false t h = h

module _ {N : Type 0} (doubles : Doubles N) where
  pub parse_value-string :
      (f : ℕ) (t u s rest : List ℕ)
      → skip_whitespace t ≡ 0x22 ∷ u
      → parse_string (0x22 ∷ u) ≡ ok (s, rest)
      → parse_value doubles (suc f) t ≡ ok (string s, rest)
  unfolding parse_value value_at
  parse_value-string f t u s rest e r =
      ap (value_at doubles (parse_object doubles f) (parse_array doubles f)) e
      ∙ ap (λ m. m >>= λ (s', after). ok (string s', after)) r

  pub parse_value-number :
      (f : ℕ) (t text : List ℕ) (n : N) (rest : List ℕ)
      → IsNumeral text
      → skip_whitespace t ≡ skip_whitespace (text ++ rest)
      → parse_number doubles (text ++ rest) ≡ ok (number n, rest)
      → parse_value doubles (suc f) t ≡ ok (number n, rest)
  unfolding parse_value value_at
  parse_value-number f t [] n rest (len, h) e r = absurd (omega arith)
  parse_value-number f t (c ∷ u) n rest (len, (h, hs)) e r =
      ap (value_at doubles (parse_object doubles f) (parse_array doubles f))
        (e ∙ skip_whitespace_at c (u ++ rest) (is_whitespace-number c h))
      ∙ rw (start_of-number c h, value_at) r

  pub parse_value-array :
      (f : ℕ) (t u : List ℕ) (items : Items N) (rest : List ℕ)
      → skip_whitespace t ≡ b'[' ∷ u
      → closed_at_once b']' (skip_whitespace u) ≡ none
      → parse_items doubles f (skip_whitespace u) ≡ ok (items, rest)
      → parse_value doubles (suc (suc f)) t ≡ ok (array items, rest)
  unfolding parse_value
  parse_value-array f t u items rest e filled r =
      ap (value_at doubles (parse_object doubles (suc f)) (parse_array doubles (suc f))) e
      ∙ ap₂ (array_of doubles) r filled

  pub parse_value-object :
      (f : ℕ) (t u : List ℕ) (ms : Members N) (rest : List ℕ)
      → skip_whitespace t ≡ b'{' ∷ u
      → closed_at_once b'}' (skip_whitespace u) ≡ none
      → parse_members doubles f (skip_whitespace u) ≡ ok (ms, rest)
      → parse_value doubles (suc (suc f)) t ≡ ok (object ms, rest)
  unfolding parse_value
  parse_value-object f t u ms rest e filled r =
      ap (value_at doubles (parse_object doubles (suc f)) (parse_array doubles (suc f))) e
      ∙ ap₂ (object_of doubles) r filled

  pub parse_items-last :
      (f : ℕ) (t : List ℕ) (v : Value N) (after rest : List ℕ)
      → parse_value doubles f t ≡ ok (v, after)
      → skip_whitespace after ≡ b']' ∷ rest
      → parse_items doubles (suc f) t ≡ ok (item v no_items, rest)
  unfolding parse_items follow
  parse_items-last f t v after rest e close =
      rw e (ap (after_item doubles (parse_items doubles f) v) (ap (follow b']') close))

  pub parse_items-more :
      (f : ℕ) (t : List ℕ) (v : Value N) (after mid : List ℕ) (vs : Items N) (rest : List ℕ)
      → parse_value doubles f t ≡ ok (v, after)
      → skip_whitespace after ≡ b',' ∷ mid
      → parse_items doubles f mid ≡ ok (vs, rest)
      → parse_items doubles (suc f) t ≡ ok (item v vs, rest)
  unfolding parse_items follow
  parse_items-more f t v after mid vs rest e sep r =
      rw e (ap (after_item doubles (parse_items doubles f) v) (ap (follow b']') sep) ∙ rw r refl)

  pub parse_members-last :
      (f : ℕ) (t : List ℕ) (k at_value : List ℕ) (v : Value N) (after rest : List ℕ)
      → parse_key (skip_whitespace t) ≡ ok (k, at_value)
      → parse_value doubles f at_value ≡ ok (v, after)
      → skip_whitespace after ≡ b'}' ∷ rest
      → parse_members doubles (suc f) t ≡ ok (member k v no_members, rest)
  unfolding parse_members follow
  parse_members-last f t k at_value v after rest key e close =
      rw key
        (rw e (ap (after_member doubles (parse_members doubles f) k v) (ap (follow b'}') close)))

  pub parse_members-more :
      (f : ℕ) (t : List ℕ) (k at_value : List ℕ) (v : Value N) (after mid : List ℕ) (ms : Members N)
      (rest : List ℕ)
      → parse_key (skip_whitespace t) ≡ ok (k, at_value)
      → parse_value doubles f at_value ≡ ok (v, after)
      → skip_whitespace after ≡ b',' ∷ mid
      → parse_members doubles f mid ≡ ok (ms, rest)
      → parse_members doubles (suc f) t ≡ ok (member k v ms, rest)
  unfolding parse_members follow
  parse_members-more f t k at_value v after mid ms rest key e sep r = rw key (
      rw e (
        ap (after_member doubles (parse_members doubles f) k v) (ap (follow b'}') sep) ∙ rw r refl))

parse_key_step :
    (u k rest after : List ℕ)
    → parse_string (0x22 ∷ u) ≡ ok (k, rest)
    → skip_whitespace rest ≡ 0x3a ∷ after
    → parse_key (0x22 ∷ u) ≡ ok (k, after)
unfolding parse_key parse_colon
parse_key_step u k rest after e colon =
    ap (λ m. m >>= λ (key, left). parse_colon (skip_whitespace left) >>= λ v. ok (key, v)) e
    ∙ ap (λ left. parse_colon left >>= λ v. ok (k, v)) colon

-- A member's name is read with the colon behind it.
pub parse_key-append_escaped :
    (k after : List ℕ)
    → parse_key (skip_whitespace (append_escaped k ++ 0x3a ∷ after)) ≡ ok (k, after)
unfolding append_escaped skip_whitespace
parse_key-append_escaped k after =
    parse_key_step ((escape_all k ++ 0x22 ∷ []) ++ 0x3a ∷ after) k (0x3a ∷ after) after
      (parse_string-append_escaped k (0x3a ∷ after)) refl
