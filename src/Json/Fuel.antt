-- ===== src/Json/Fuel.antt =====
-- json.cpp: the parser ends. Its fuel is enough for every text, and no character is read twice.
use de_be_os_rdp.Prelude.{
  ℕ, zero, suc, ◌+◌, ◌*◌, ◌≤◌, ◌<◌, ◌≢◌, List, [], ◌∷◌, Bool, true, false, some, none, ok, err,
  ◌>>=◌, arith, length, ◌==◌, if◌then◌else◌,
}
use de_be_os_rdp.Json.{Doubles, Value, Items, Members}
use de_be_os_rdp.Json.Parser.{
  Parsed, out_of_fuel, skip_whitespace, parse_string, parse_bool, parse_null, parse_number,
  object_start, array_start, string_start, bool_start, null_start, number_start, start_of, value_at,
  array_of, object_of, after_item, after_member, follow, closes, comma, other, closed_at_once,
  at_end, parse_value, parse_array, parse_items, parse_object, parse_members, finish, parse, Start,
}
use de_be_os_rdp.Json.Endings.{
  Leaves, leaves, refused, Leaves-le, Leaves-bind, length-skip_whitespace, parse_string-Leaves,
  parse_key-Leaves, parse_bool-Leaves, parse_null-Leaves, parse_number-Leaves,
}

module _ {N : Type 0} (doubles : Doubles N) where
  -- The switch, for each kind of start.
  start-Leaves :
      (s : Start) (n c : ℕ) (rest : List ℕ) (object_at array_at : List ℕ → Parsed (Value N))
      → length (c ∷ rest) ≤ n
      → Leaves n (object_at rest)
      → Leaves n (array_at rest)
      → Leaves n (elim s [
        | object_start ↦ object_at rest
        | array_start ↦ array_at rest
        | string_start ↦ parse_string (c ∷ rest) >>= λ (s', after). ok (Value.string s', after)
        | bool_start ↦ parse_bool doubles (c ∷ rest)
        | null_start ↦ parse_null doubles (c ∷ rest)
        | number_start ↦ parse_number doubles (c ∷ rest)
      ])
  start-Leaves object_start n c rest o a le ho ha = ho
  start-Leaves array_start n c rest o a le ho ha = ha
  start-Leaves string_start n c rest o a le ho ha =
      Leaves-bind _ (Leaves-le (parse_string-Leaves (c ∷ rest)) le) λ s after h. leaves h
  start-Leaves bool_start n c rest o a le ho ha =
      Leaves-le (parse_bool-Leaves doubles (c ∷ rest)) le
  start-Leaves null_start n c rest o a le ho ha =
      Leaves-le (parse_null-Leaves doubles (c ∷ rest)) le
  start-Leaves number_start n c rest o a le ho ha =
      Leaves-le (parse_number-Leaves doubles (c ∷ rest)) le

  value_at-Leaves :
      (text : List ℕ) (n : ℕ) (object_at array_at : List ℕ → Parsed (Value N))
      → length text ≤ n
      → ((rest : List ℕ) → length rest < n → Leaves n (object_at rest))
      → ((rest : List ℕ) → length rest < n → Leaves n (array_at rest))
      → Leaves n (value_at doubles object_at array_at text)
  unfolding value_at
  value_at-Leaves [] n o a le ho ha = refused (cc)
  value_at-Leaves (c ∷ rest) n o a le ho ha =
      start-Leaves (start_of c) n c rest o a le (ho rest (omega arith)) (ha rest (omega arith))

  -- Behind an element the bracket, the comma and anything else.
  after_item_if :
      (closing again : Bool) (n : ℕ) (t : List ℕ) (v : Value N) (loop : List ℕ → Parsed (Items N))
      → length t ≤ n
      → Leaves n (loop t)
      → Leaves n (
          after_item doubles loop v
            (if closing then closes t else if again then comma t else other t))
  after_item_if true again n t v loop le h = leaves le
  after_item_if false true n t v loop le h = Leaves-bind _ h λ vs rest le'. leaves le'
  after_item_if false false n t v loop le h = refused (cc)

  after_item-Leaves :
      (t : List ℕ) (n : ℕ) (v : Value N) (loop : List ℕ → Parsed (Items N))
      → length t ≤ n
      → ((rest : List ℕ) → length rest < n → Leaves n (loop rest))
      → Leaves n (after_item doubles loop v (follow b']' t))
  unfolding follow
  after_item-Leaves [] n v loop le h = refused (cc)
  after_item-Leaves (c ∷ t) n v loop le h =
      after_item_if (c == b']') (c == b',') n t v loop (omega arith) (h t (omega arith))

  after_member_if :
      (closing again : Bool) (n : ℕ) (t k : List ℕ) (v : Value N)
      (loop : List ℕ → Parsed (Members N))
      → length t ≤ n
      → Leaves n (loop t)
      → Leaves n (
          after_member doubles loop k v
            (if closing then closes t else if again then comma t else other t))
  after_member_if true again n t k v loop le h = leaves le
  after_member_if false true n t k v loop le h = Leaves-bind _ h λ ms rest le'. leaves le'
  after_member_if false false n t k v loop le h = refused (cc)

  after_member-Leaves :
      (t : List ℕ) (n : ℕ) (k : List ℕ) (v : Value N) (loop : List ℕ → Parsed (Members N))
      → length t ≤ n
      → ((rest : List ℕ) → length rest < n → Leaves n (loop rest))
      → Leaves n (after_member doubles loop k v (follow b'}' t))
  unfolding follow
  after_member-Leaves [] n k v loop le h = refused (cc)
  after_member-Leaves (c ∷ t) n k v loop le h =
      after_member_if (c == b'}') (c == b',') n t k v loop (omega arith) (h t (omega arith))

  array_of_if :
      (closing : Bool) (n : ℕ) (t : List ℕ) (loop : Parsed (Items N))
      → length t ≤ n
      → Leaves n loop
      → Leaves n (array_of doubles loop (if closing then some t else none))
  array_of_if true n t loop le h = leaves le
  array_of_if false n t loop le h = Leaves-bind _ h λ vs rest le'. leaves le'

  array_of-Leaves :
      (t : List ℕ) (n : ℕ) (loop : Parsed (Items N))
      → length t ≤ n
      → Leaves n loop
      → Leaves n (array_of doubles loop (closed_at_once b']' t))
  unfolding closed_at_once
  array_of-Leaves [] n loop le h = Leaves-bind _ h λ vs rest le'. leaves le'
  array_of-Leaves (c ∷ t) n loop le h = array_of_if (c == b']') n t loop (omega arith) h

  object_of_if :
      (closing : Bool) (n : ℕ) (t : List ℕ) (loop : Parsed (Members N))
      → length t ≤ n
      → Leaves n loop
      → Leaves n (object_of doubles loop (if closing then some t else none))
  object_of_if true n t loop le h = leaves le
  object_of_if false n t loop le h = Leaves-bind _ h λ ms rest le'. leaves le'

  object_of-Leaves :
      (t : List ℕ) (n : ℕ) (loop : Parsed (Members N))
      → length t ≤ n
      → Leaves n loop
      → Leaves n (object_of doubles loop (closed_at_once b'}' t))
  unfolding closed_at_once
  object_of-Leaves [] n loop le h = Leaves-bind _ h λ ms rest le'. leaves le'
  object_of-Leaves (c ∷ t) n loop le h = object_of_if (c == b'}') n t loop (omega arith) h

  mutual
    unfolding parse_value

    value_Leaves :
        (f : ℕ) (text : List ℕ)
        → 4 * length text < f
        → Leaves (length text) (parse_value doubles f text)
    value_Leaves zero text h = absurd (omega arith)
    value_Leaves (suc f) text h =
        value_at-Leaves (skip_whitespace text) (length text) (parse_object doubles f)
          (parse_array doubles f) (length-skip_whitespace text)
          (λ rest le. Leaves-le (object_Leaves f rest (omega arith)) (omega arith))
          λ rest le. Leaves-le (array_Leaves f rest (omega arith)) (omega arith)

    array_Leaves :
        (f : ℕ) (text : List ℕ)
        → 4 * length text + 2 < f
        → Leaves (length text) (parse_array doubles f text)
    array_Leaves zero text h = absurd (omega arith)
    array_Leaves (suc f) text h =
        let le = length-skip_whitespace text in
        array_of-Leaves (skip_whitespace text) (length text)
          (parse_items doubles f (skip_whitespace text)) le
          (Leaves-le (items_Leaves f (skip_whitespace text) (omega arith)) le)

    items_Leaves :
        (f : ℕ) (text : List ℕ)
        → 4 * length text + 1 < f
        → Leaves (length text) (parse_items doubles f text)
    items_Leaves zero text h = absurd (omega arith)
    items_Leaves (suc f) text h = Leaves-bind _ (value_Leaves f text (omega arith)) λ v after le.
        after_item-Leaves (skip_whitespace after) (length text) v (parse_items doubles f)
          (omega (arith, length-skip_whitespace after))
          λ rest lt. Leaves-le (items_Leaves f rest (omega arith)) (omega arith)

    object_Leaves :
        (f : ℕ) (text : List ℕ)
        → 4 * length text + 2 < f
        → Leaves (length text) (parse_object doubles f text)
    object_Leaves zero text h = absurd (omega arith)
    object_Leaves (suc f) text h =
        let le = length-skip_whitespace text in
        object_of-Leaves (skip_whitespace text) (length text)
          (parse_members doubles f (skip_whitespace text)) le
          (Leaves-le (members_Leaves f (skip_whitespace text) (omega arith)) le)

    members_Leaves :
        (f : ℕ) (text : List ℕ)
        → 4 * length text + 1 < f
        → Leaves (length text) (parse_members doubles f text)
    members_Leaves zero text h = absurd (omega arith)
    members_Leaves (suc f) text h =
        Leaves-bind _
          (Leaves-le (parse_key-Leaves (skip_whitespace text)) (length-skip_whitespace text))
          λ k at_value le.
            Leaves-bind _ (Leaves-le (value_Leaves f at_value (omega arith)) le) λ v after le'.
              after_member-Leaves (skip_whitespace after) (length text) k v
                (parse_members doubles f) (omega (arith, length-skip_whitespace after))
                λ rest lt. Leaves-le (members_Leaves f rest (omega arith)) (omega arith)

  -- What stands behind the document.
  trailing-ne-out_of_fuel :
      (behind : List ℕ) (n p : ℕ) (v : Value N) → at_end doubles n v behind ≢ err (out_of_fuel, p)
  trailing-ne-out_of_fuel [] n p v = cc
  trailing-ne-out_of_fuel (c ∷ more) n p v = cc

  finish-ne-out_of_fuel :
      (text : List ℕ) (n p : ℕ) (r : Parsed (Value N))
      → Leaves n r
      → finish doubles text r ≢ err (out_of_fuel, p)
  unfolding finish
  finish-ne-out_of_fuel text n p (ok (v, rest)) (leaves h) e =
      trailing-ne-out_of_fuel (skip_whitespace rest) (length text) p v e
  finish-ne-out_of_fuel text n p (err f) (refused h) e = h (cc)

  -- The fuel that `parse` hands out is enough for every text: the model gives the value or one of
  -- the messages of the source, and never stops early.
  pub parse-ne-out_of_fuel :
      (text : List ℕ) (position : ℕ) → parse doubles text ≢ err (out_of_fuel, position)
  unfolding parse
  parse-ne-out_of_fuel text position =
      let le = length-skip_whitespace text in
      finish-ne-out_of_fuel text (length (skip_whitespace text)) position
        (parse_value doubles (suc (4 * length text)) (skip_whitespace text))
        (value_Leaves (suc (4 * length text)) (skip_whitespace text) (omega arith))
