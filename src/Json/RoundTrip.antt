-- ===== src/Json/RoundTrip.antt =====
-- json.cpp: `parse` reads back what `serialize` writes, pretty or compact.
use de_be_os_rdp.Prelude.{
  ℕ, zero, suc, ◌+◌, ◌*◌, ◌≤◌, ◌≡◌, refl, ◌∙◌, ap, List, [], ◌∷◌, ◌++◌, Bool, true, false,
  Bool-cases, inl, inr, none, ok, arith, length, length-append,
}
use de_be_os_rdp.Json.{
  Doubles, Value, Items, Members, null, boolean, number, string, array, object, no_items, item,
  no_members, member, append_escaped, indent, newline, space, comma_before, escape_all,
  comma_before_member, serialize_into, serialize_items, serialize_members, serialize, append_number,
}
use de_be_os_rdp.Json.Parser.{
  skip_whitespace, closed_at_once, parse_value, parse_array, parse_items, parse_object,
  parse_members, parse_key, finish, parse, value_at, is_whitespace,
}
use de_be_os_rdp.Json.Strings.{parse_string-append_escaped}
use de_be_os_rdp.Json.Numbers.{
  Stops, DoubleLaws, append_number-IsNumeral, parse_number-append_number, is_whitespace-number,
  IsNumeral,
}
use de_be_os_rdp.Json.Kept.{
  cost, cost_items, cost_members, cost_pos, cost_enough, KeptValue, KeptItems, KeptMembers,
}
use de_be_os_rdp.Json.Steps.{
  layout, skip_whitespace-indent, skip_whitespace-newline, skip_whitespace-space,
  skip_whitespace_at, Stops-skip_whitespace, parse_value-string, parse_value-number,
  parse_value-array, parse_value-object, parse_items-last, parse_items-more, parse_members-last,
  parse_members-more, parse_key-append_escaped,
}

skip_whitespace_twice : (t : List ℕ) → skip_whitespace (skip_whitespace t) ≡ skip_whitespace t
unfolding skip_whitespace
skip_whitespace_twice [] = refl
skip_whitespace_twice (c ∷ t) = elim (Bool-cases (is_whitespace c)) [
  | inl white ↦ rw white (skip_whitespace_twice t)
  | inr dark ↦ rw dark (rw dark refl)
]

Stops-end : (pretty : Bool) → Stops (newline pretty)
Stops-end true = refl
Stops-end false = tt

module _ {N : Type 0} (doubles : Doubles N) (laws : DoubleLaws doubles) where
  -- A value's text does not look like the end of an array.
  closed_at_once-numeral :
      (text rest : List ℕ)
      → IsNumeral text
      → closed_at_once b']' (skip_whitespace (text ++ rest)) ≡ none
  unfolding closed_at_once
  closed_at_once-numeral [] rest (len, h) = absurd (omega arith)
  closed_at_once-numeral (c ∷ text) rest (len, (h, hs)) =
      rw (skip_whitespace_at c (text ++ rest) (is_whitespace-number c h)) (ground arith)

  closed_at_once-serialize_into :
      (v : Value N) (pretty : Bool) (depth : ℕ) (rest : List ℕ)
      → KeptValue doubles laws v
      → closed_at_once b']' (skip_whitespace (serialize_into doubles v pretty depth ++ rest)) ≡ none
  unfolding closed_at_once skip_whitespace serialize_into KeptValue
  closed_at_once-serialize_into null pretty depth rest k = refl
  closed_at_once-serialize_into (boolean true) pretty depth rest k = refl
  closed_at_once-serialize_into (boolean false) pretty depth rest k = refl
  closed_at_once-serialize_into (number n) pretty depth rest k =
      closed_at_once-numeral (append_number doubles n) rest
        (append_number-IsNumeral doubles laws n k)
  closed_at_once-serialize_into (string s) pretty depth rest k = refl
  closed_at_once-serialize_into (array no_items) pretty depth rest k = refl
  closed_at_once-serialize_into (array (item v vs)) pretty depth rest k = refl
  closed_at_once-serialize_into (object no_members) pretty depth rest k = refl
  closed_at_once-serialize_into (object (member key v ms)) pretty depth rest k = refl

  -- The text of an array and of an object behind the bracket, and of a round of their loops.
  array_layout :
      (v : Value N) (vs : Items N) (pretty : Bool) (depth : ℕ) (rest : List ℕ)
      → skip_whitespace (
          (newline pretty
            ++ (serialize_items doubles (item v vs) pretty depth
                ++ (indent pretty depth ++ b']' ∷ [])))
          ++ rest)
        ≡ skip_whitespace (
            serialize_items doubles (item v vs) pretty depth
            ++ (indent pretty depth ++ b']' ∷ rest))
  array_layout v vs pretty depth rest = simp layout refl

  item_layout :
      (v : Value N) (vs : Items N) (pretty : Bool) (depth : ℕ) (rest : List ℕ)
      → skip_whitespace (serialize_items doubles (item v vs) pretty depth ++ rest)
        ≡ skip_whitespace (
            serialize_into doubles v pretty (depth + 1)
            ++ (comma_before vs
                ++ (newline pretty ++ (serialize_items doubles vs pretty depth ++ rest))))
  unfolding serialize_items
  item_layout v vs pretty depth rest = simp layout refl

  object_layout :
      (key : List ℕ) (v : Value N) (ms : Members N) (pretty : Bool) (depth : ℕ) (rest : List ℕ)
      → skip_whitespace (
          (newline pretty
            ++ (serialize_members doubles (member key v ms) pretty depth
                ++ (indent pretty depth ++ b'}' ∷ [])))
          ++ rest)
        ≡ skip_whitespace (
            serialize_members doubles (member key v ms) pretty depth
            ++ (indent pretty depth ++ b'}' ∷ rest))
  object_layout key v ms pretty depth rest = simp layout refl

  abbrev member_text : Value N → Members N → Bool → ℕ → List ℕ → List ℕ
  member_text v ms pretty depth rest =
      serialize_into doubles v pretty (depth + 1)
      ++ (comma_before_member ms
          ++ (newline pretty ++ (serialize_members doubles ms pretty depth ++ rest)))

  member_layout :
      (key : List ℕ) (v : Value N) (ms : Members N) (pretty : Bool) (depth : ℕ) (rest : List ℕ)
      → skip_whitespace (serialize_members doubles (member key v ms) pretty depth ++ rest)
        ≡ skip_whitespace
            (append_escaped key ++ 0x3a ∷ (space pretty ++ member_text v ms pretty depth rest))
  unfolding serialize_members
  member_layout key v ms pretty depth rest = simp layout refl

  mutual
    unfolding cost KeptValue serialize_into skip_whitespace value_at parse_value closed_at_once

    reads_value :
        (v : Value N) (pretty : Bool) (depth f : ℕ) (t rest : List ℕ)
        → KeptValue doubles laws v
        → cost v ≤ f
        → Stops rest
        → skip_whitespace t ≡ skip_whitespace (serialize_into doubles v pretty depth ++ rest)
        → parse_value doubles f t ≡ ok (v, rest)
    reads_value v pretty depth zero t rest k h s e = absurd (omega (arith, cost_pos v))
    reads_value null pretty depth (suc f) t rest k h s e =
        ap (value_at doubles (parse_object doubles f) (parse_array doubles f)) e
    reads_value (boolean true) pretty depth (suc f) t rest k h s e =
        ap (value_at doubles (parse_object doubles f) (parse_array doubles f)) e
    reads_value (boolean false) pretty depth (suc f) t rest k h s e =
        ap (value_at doubles (parse_object doubles f) (parse_array doubles f)) e
    reads_value (number n) pretty depth (suc f) t rest k h s e =
        parse_value-number doubles f t (append_number doubles n) n rest
          (append_number-IsNumeral doubles laws n k) e
          (parse_number-append_number doubles laws n rest k s)
    reads_value (string text) pretty depth (suc f) t rest k h s e =
        parse_value-string doubles f t ((escape_all text ++ 0x22 ∷ []) ++ rest) text rest e
          (parse_string-append_escaped text rest)
    reads_value (array no_items) pretty depth (suc zero) t rest k h s e = absurd (omega arith)
    reads_value (array no_items) pretty depth (suc (suc f)) t rest k h s e =
        ap (value_at doubles (parse_object doubles (suc f)) (parse_array doubles (suc f))) e
    reads_value (array (item v vs)) pretty depth (suc zero) t rest k h s e = absurd (omega arith)
    reads_value (array (item v vs)) pretty depth (suc (suc f)) t rest k h s e =
        let u =
          (newline pretty
            ++ (serialize_items doubles (item v vs) pretty depth
                ++ (indent pretty depth ++ b']' ∷ [])))
          ++ rest in
        let tail = indent pretty depth ++ b']' ∷ rest in
        let inside = array_layout v vs pretty depth rest in
        parse_value-array doubles f t u (item v vs) rest e
          (ap (closed_at_once b']') (inside ∙ item_layout v vs pretty depth tail)
            ∙ closed_at_once-serialize_into v pretty (depth + 1) _ k.0)
          (reads_items v vs pretty depth f (skip_whitespace u) tail rest k.0 k.1 (omega arith)
            (skip_whitespace-indent pretty depth (b']' ∷ rest)) (skip_whitespace_twice u ∙ inside))
    reads_value (object no_members) pretty depth (suc zero) t rest k h s e = absurd (omega arith)
    reads_value (object no_members) pretty depth (suc (suc f)) t rest k h s e =
        ap (value_at doubles (parse_object doubles (suc f)) (parse_array doubles (suc f))) e
    reads_value (object (member key v ms)) pretty depth (suc zero) t rest k h s e =
        absurd (omega arith)
    reads_value (object (member key v ms)) pretty depth (suc (suc f)) t rest k h s e =
        let u =
          (newline pretty
            ++ (serialize_members doubles (member key v ms) pretty depth
                ++ (indent pretty depth ++ b'}' ∷ [])))
          ++ rest in
        let tail = indent pretty depth ++ b'}' ∷ rest in
        let inside = object_layout key v ms pretty depth rest in
        parse_value-object doubles f t u (member key v ms) rest e
          (ap (closed_at_once b'}') (inside ∙ member_layout key v ms pretty depth tail))
          (reads_members key v ms pretty depth f (skip_whitespace u) tail rest k.0 k.1 (omega arith)
            (skip_whitespace-indent pretty depth (b'}' ∷ rest)) (skip_whitespace_twice u ∙ inside))

    reads_items :
        (v : Value N) (vs : Items N) (pretty : Bool) (depth f : ℕ) (t tail rest : List ℕ)
        → KeptValue doubles laws v
        → KeptItems doubles laws vs
        → cost_items (item v vs) ≤ f
        → skip_whitespace tail ≡ b']' ∷ rest
        → skip_whitespace t
          ≡ skip_whitespace (serialize_items doubles (item v vs) pretty depth ++ tail)
        → parse_items doubles f t ≡ ok (item v vs, rest)
    reads_items v vs pretty depth zero t tail rest kv ks h close e = absurd (omega arith)
    reads_items v no_items pretty depth (suc f) t tail rest kv ks h close e =
        let after = newline pretty ++ tail in
        let close' : skip_whitespace after ≡ b']' ∷ rest =
          skip_whitespace-newline pretty tail ∙ close in
        parse_items-last doubles f t v after rest
          (reads_value v pretty (depth + 1) f t after kv (omega arith)
            (Stops-skip_whitespace after b']' rest close' refl)
            (e ∙ item_layout v no_items pretty depth tail))
          close'
    reads_items v (item w ws) pretty depth (suc f) t tail rest kv ks h close e =
        let mid = newline pretty ++ (serialize_items doubles (item w ws) pretty depth ++ tail) in
        parse_items-more doubles f t v (b',' ∷ mid) mid (item w ws) rest
          (reads_value v pretty (depth + 1) f t (b',' ∷ mid) kv (omega arith) refl
            (e ∙ item_layout v (item w ws) pretty depth tail))
          refl
          (reads_items w ws pretty depth f mid tail rest ks.0 ks.1 (omega arith) close
            (skip_whitespace-newline pretty _))

    reads_members :
        (key : List ℕ) (v : Value N) (ms : Members N) (pretty : Bool) (depth f : ℕ)
        (t tail rest : List ℕ)
        → KeptValue doubles laws v
        → KeptMembers doubles laws ms
        → cost_members (member key v ms) ≤ f
        → skip_whitespace tail ≡ b'}' ∷ rest
        → skip_whitespace t
          ≡ skip_whitespace (serialize_members doubles (member key v ms) pretty depth ++ tail)
        → parse_members doubles f t ≡ ok (member key v ms, rest)
    reads_members key v ms pretty depth zero t tail rest kv ks h close e = absurd (omega arith)
    reads_members key v no_members pretty depth (suc f) t tail rest kv ks h close e =
        let after = newline pretty ++ tail in
        let at_value = space pretty ++ member_text v no_members pretty depth tail in
        let close' : skip_whitespace after ≡ b'}' ∷ rest =
          skip_whitespace-newline pretty tail ∙ close in
        parse_members-last doubles f t key at_value v after rest
          (ap parse_key (e ∙ member_layout key v no_members pretty depth tail)
            ∙ parse_key-append_escaped key at_value)
          (reads_value v pretty (depth + 1) f at_value after kv (omega arith)
            (Stops-skip_whitespace after b'}' rest close' refl) (skip_whitespace-space pretty _))
          close'
    reads_members key v (member k w ws) pretty depth (suc f) t tail rest kv ks h close e =
        let mid =
          newline pretty ++ (serialize_members doubles (member k w ws) pretty depth ++ tail) in
        let at_value = space pretty ++ member_text v (member k w ws) pretty depth tail in
        parse_members-more doubles f t key at_value v (b',' ∷ mid) mid (member k w ws) rest
          (ap parse_key (e ∙ member_layout key v (member k w ws) pretty depth tail)
            ∙ parse_key-append_escaped key at_value)
          (reads_value v pretty (depth + 1) f at_value (b',' ∷ mid) kv (omega arith) refl
            (skip_whitespace-space pretty _))
          refl
          (reads_members k w ws pretty depth f mid tail rest ks.0 ks.1 (omega arith) close
            (skip_whitespace-newline pretty _))

  pub parse_value-serialize_into :
      (v : Value N) (pretty : Bool) (depth f : ℕ) (rest : List ℕ)
      → KeptValue doubles laws v
      → cost v ≤ f
      → Stops rest
      → parse_value doubles f (skip_whitespace (serialize_into doubles v pretty depth ++ rest))
        ≡ ok (v, rest)
  parse_value-serialize_into v pretty depth f rest k h s =
      reads_value v pretty depth f _ rest k h s (skip_whitespace_twice _)

  finish_end :
      (pretty : Bool) (text : List ℕ) (v : Value N)
      → finish doubles text (ok (v, newline pretty)) ≡ ok v
  unfolding finish
  finish_end true text v = refl
  finish_end false text v = refl

  -- Every value whose numbers are normal doubles or the positive zero (not subnormal, infinite, NaN
  -- or the negative zero) is read back from its text, whatever its strings hold, in the pretty
  -- layout and in the compact one, where the C library reads such numbers back from the texts that
  -- it prints for them, and the call stack holds the depth of the value.
  pub parse-serialize :
      (v : Value N) (pretty : Bool)
      → KeptValue doubles laws v
      → parse doubles (serialize doubles v pretty) ≡ ok v
  unfolding parse serialize
  parse-serialize v pretty k =
      let text = serialize_into doubles v pretty 0 ++ newline pretty in
      ap (finish doubles text) (
        parse_value-serialize_into v pretty 0 (suc (4 * length text)) (newline pretty) k
          (omega (
            arith,
            cost_enough doubles laws v pretty 0 k,
            length-append (serialize_into doubles v pretty 0) (newline pretty),
          ))
          (Stops-end pretty))
      ∙ finish_end pretty text v
