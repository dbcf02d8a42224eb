-- ===== src/Json/Kept.antt =====
-- json.cpp: the values whose numbers survive, and the fuel that the parser takes for a value.
use de_be_os_rdp.Prelude.{
  ℕ, ◌+◌, ◌*◌, ◌≤◌, List, [], ◌∷◌, ◌++◌, Bool, true, false, arith, length, length-append,
}
use de_be_os_rdp.Json.{
  Doubles, Value, Items, Members, null, boolean, number, string, array, object, no_items, item,
  no_members, member, append_escaped, indent, newline, space, comma_before_member, serialize_into,
  serialize_items, serialize_members,
}
use de_be_os_rdp.Json.Numbers.{DoubleLaws, IsKept, append_number-IsNumeral}

module _ {N : Type 0} where
  -- The fuel that a value takes.
  unfoldable mutual
    pub cost : Value N → ℕ
    cost (array vs) = 2 + cost_items vs
    cost (object ms) = 2 + cost_members ms
    cost _ = 1

    pub cost_items : Items N → ℕ
    cost_items no_items = 0
    cost_items (item v vs) = 1 + (cost v + cost_items vs)

    pub cost_members : Members N → ℕ
    cost_members no_members = 0
    cost_members (member k v ms) = 1 + (cost v + cost_members ms)

pub cost_pos : {N : Type 0} (v : Value N) → 1 ≤ cost v
unfolding cost
cost_pos null = omega arith
cost_pos (boolean b) = omega arith
cost_pos (number n) = omega arith
cost_pos (string s) = omega arith
cost_pos (array vs) = omega arith
cost_pos (object ms) = omega arith

length-append_escaped : (s : List ℕ) → 1 ≤ length (append_escaped s)
unfolding append_escaped
length-append_escaped s = omega arith

module _ {N : Type 0} (doubles : Doubles N) (laws : DoubleLaws doubles) where
  -- Every number in the value survives.
  unfoldable mutual
    pub KeptValue : Value N → Type 0
    KeptValue (number n) = IsKept doubles laws.is_normal n
    KeptValue (array vs) = KeptItems vs
    KeptValue (object ms) = KeptMembers ms
    KeptValue _ = Unit

    pub KeptItems : Items N → Type 0
    KeptItems no_items = Unit
    KeptItems (item v vs) = KeptValue v × KeptItems vs

    pub KeptMembers : Members N → Type 0
    KeptMembers no_members = Unit
    KeptMembers (member k v ms) = KeptValue v × KeptMembers ms

  -- The text is long enough for the fuel.
  mutual
    unfolding cost KeptValue serialize_into

    cost-le-length :
        (v : Value N) (pretty : Bool) (depth : ℕ)
        → KeptValue v
        → cost v ≤ 4 * length (serialize_into doubles v pretty depth)
    cost-le-length null pretty depth k = omega arith
    cost-le-length (boolean true) pretty depth k = omega arith
    cost-le-length (boolean false) pretty depth k = omega arith
    cost-le-length (number n) pretty depth k =
        omega (arith, (append_number-IsNumeral doubles laws n k).0)
    cost-le-length (string s) pretty depth k = omega (arith, length-append_escaped s)
    cost-le-length (array no_items) pretty depth k = omega arith
    cost-le-length (array (item v vs)) pretty depth k = omega (
      arith,
      length-append (newline pretty)
          (serialize_items doubles (item v vs) pretty depth ++ (indent pretty depth ++ 0x5d ∷ [])),
      length-append (serialize_items doubles (item v vs) pretty depth)
          (indent pretty depth ++ 0x5d ∷ []),
      length-append (indent pretty depth) (0x5d ∷ []),
      cost_items-le (item v vs) pretty depth k,
    )
    cost-le-length (object no_members) pretty depth k = omega arith
    cost-le-length (object (member key v ms)) pretty depth k = omega (
      arith,
      length-append (newline pretty) (
          serialize_members doubles (member key v ms) pretty depth
          ++ (indent pretty depth ++ 0x7d ∷ [])),
      length-append (serialize_members doubles (member key v ms) pretty depth)
          (indent pretty depth ++ 0x7d ∷ []),
      length-append (indent pretty depth) (0x7d ∷ []),
      cost_members-le (member key v ms) pretty depth k,
    )

    cost_items-le :
        (vs : Items N) (pretty : Bool) (depth : ℕ)
        → KeptItems vs
        → cost_items vs ≤ 4 * length (serialize_items doubles vs pretty depth) + 1
    cost_items-le no_items pretty depth k = omega arith
    cost_items-le (item v no_items) pretty depth k =
        let behind = [] ++ (newline pretty ++ []) in
        omega (
          arith,
          length-append (indent pretty (depth + 1))
              (serialize_into doubles v pretty (depth + 1) ++ behind),
          length-append (serialize_into doubles v pretty (depth + 1)) behind,
          cost-le-length v pretty (depth + 1) k.0,
        )
    cost_items-le (item v (item w ws)) pretty depth k =
        let more = serialize_items doubles (item w ws) pretty depth in
        let behind = 0x2c ∷ (newline pretty ++ more) in
        omega (
          arith,
          length-append (indent pretty (depth + 1))
              (serialize_into doubles v pretty (depth + 1) ++ behind),
          length-append (serialize_into doubles v pretty (depth + 1)) behind,
          length-append (newline pretty) more,
          cost-le-length v pretty (depth + 1) k.0,
          cost_items-le (item w ws) pretty depth k.1,
        )

    cost_members-le :
        (ms : Members N) (pretty : Bool) (depth : ℕ)
        → KeptMembers ms
        → cost_members ms ≤ 4 * length (serialize_members doubles ms pretty depth) + 1
    cost_members-le no_members pretty depth k = omega arith
    cost_members-le (member key v ms) pretty depth k =
        let more = serialize_members doubles ms pretty depth in
        let behind = comma_before_member ms ++ (newline pretty ++ more) in
        let value = serialize_into doubles v pretty (depth + 1) in
        omega (
          arith,
          length-append (indent pretty (depth + 1))
              (append_escaped key ++ 0x3a ∷ (space pretty ++ (value ++ behind))),
          length-append (append_escaped key) (0x3a ∷ (space pretty ++ (value ++ behind))),
          length-append (space pretty) (value ++ behind),
          length-append value behind,
          length-append (comma_before_member ms) (newline pretty ++ more),
          length-append (newline pretty) more,
          cost-le-length v pretty (depth + 1) k.0,
          cost_members-le ms pretty depth k.1,
        )

  pub cost_enough :
      (v : Value N) (pretty : Bool) (depth : ℕ)
      → KeptValue v
      → cost v ≤ 4 * length (serialize_into doubles v pretty depth)
  cost_enough = cost-le-length
