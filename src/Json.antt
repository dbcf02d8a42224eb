-- ===== src/Json.antt =====
-- json.cpp and json.hpp: the document values, their members, and the text that `serialize` writes.
-- A text is a list of bytes. `double`, `std::snprintf` of a double and `std::stod` are parameters.
pub mod Parser
pub mod Strings
pub mod Lookup
pub mod Numbers
pub mod Steps
pub mod Kept
pub mod RoundTrip
pub mod Endings
pub mod Fuel
use de_be_os_rdp.Prelude.{
  ℕ, suc, ◌+◌, ◌*◌, ◌/◌, ◌%◌, List, [], ◌∷◌, ◌++◌, Bool, true, false, ◌&&◌, Option, none, some, ltb,
  ◌==◌, if◌then◌else◌, to_string, ℤ, pos, negsuc, codes,
}
use de_be_os_rdp.KnownBrokers.{same_text, hex_digit}

-- What the source asks of `double` and of the C library: `number == std::floor(number)`,
-- `std::abs(number) < 1e15`, `static_cast<long long>(number)`, the text of "%.17g", and
-- `std::stod` with the count of bytes it consumed, none where it throws.
pub record Doubles (N : Type 0) : Type 0 where
  pub is_finite : N → Bool
  pub is_floor : N → Bool
  pub below_1e15 : N → Bool
  pub long_long : N → ℤ
  pub print_17g : N → List ℕ
  pub zero_double : N
  pub stod : List ℕ → Option (N × ℕ)

mutual
  pub data Value (N : Type 0) : Type 0 where
    null : Value N
    boolean : Bool → Value N
    number : N → Value N
    string : List ℕ → Value N
    array : Items N → Value N
    object : Members N → Value N

  pub data Items (N : Type 0) : Type 0 where
    no_items : Items N
    item : Value N → Items N → Items N

  pub data Members (N : Type 0) : Type 0 where
    no_members : Members N
    member : List ℕ → Value N → Members N → Members N

pub data Kind : Type 0 where
  null_kind boolean_kind number_kind string_kind array_kind object_kind : Kind

-- A Value as it is built: its kind and all of its fields. The fields of other kinds keep what
-- they had; the values put into it are taken without theirs, which nothing reads.
pub record Slots (N : Type 0) : Type 0 where
  pub kind : Kind
  pub bool_slot : Bool
  pub number_slot : N
  pub string_slot : List ℕ
  pub items : Items N
  pub members : Members N

module _ {N : Type 0} where
  -- The loop of `find` over the members.
  unfoldable pub find_member : List ℕ → Members N → Option (Value N)
  find_member key no_members = none
  find_member key (member k v ms) =
      let rest = find_member key ms in if same_text k key then some v else rest

  unfoldable pub find : Value N → List ℕ → Option (Value N)
  unfolding find_member
  find (object ms) key = find_member key ms
  find _ key = none

  -- The loop of `set`: the first member of that name takes the value, or a new one stands last.
  unfoldable pub set_member : List ℕ → Value N → Members N → Members N
  set_member key value no_members = member key value no_members
  set_member key value (member k v ms) =
      let rest = set_member key value ms in
      if same_text k key then member k value ms else member k v rest

  unfoldable pub append_item : Items N → Value N → Items N
  append_item no_items value = item value no_items
  append_item (item v vs) value = item v (append_item vs value)

  -- The value that the accessors show.
  abbrev pub shown_as : Kind → Slots N → Value N
  shown_as null_kind s = null
  shown_as boolean_kind s = boolean s.bool_slot
  shown_as number_kind s = number s.number_slot
  shown_as string_kind s = string s.string_slot
  shown_as array_kind s = array s.items
  shown_as object_kind s = object s.members

  abbrev pub shown : Slots N → Value N
  shown s = shown_as s.kind s

  unfoldable pub set : Slots N → List ℕ → Value N → Slots N
  unfolding set_member
  set s key value = record s { kind = object_kind; members = set_member key value s.members }

  unfoldable pub push_back : Slots N → Value N → Slots N
  unfolding append_item
  push_back s value = record s { kind = array_kind; items = append_item s.items value }

  abbrev pub comma_before : Items N → List ℕ
  comma_before no_items = []
  comma_before (item v vs) = 0x2c ∷ []

  abbrev pub comma_before_member : Members N → List ℕ
  comma_before_member no_members = []
  comma_before_member (member k v ms) = 0x2c ∷ []

-- The bytes that one byte of a text becomes.
unfoldable pub escape : ℕ → List ℕ
escape c =
    if c == 0x22
    then 0x5c ∷ 0x22 ∷ []
    else if c == 0x5c
    then 0x5c ∷ 0x5c ∷ []
    else if c == 8
    then 0x5c ∷ b'b' ∷ []
    else if c == 12
    then 0x5c ∷ b'f' ∷ []
    else if c == 10
    then 0x5c ∷ b'n' ∷ []
    else if c == 13
    then 0x5c ∷ b'r' ∷ []
    else if c == 9
    then 0x5c ∷ b't' ∷ []
    else if ltb c 0x20
    then 0x5c ∷ b'u' ∷ b'0' ∷ b'0' ∷ hex_digit (c / 16) ∷ hex_digit (c % 16) ∷ []
    else c ∷ []

unfoldable pub escape_all : List ℕ → List ℕ
unfolding escape
escape_all [] = []
escape_all (c ∷ text) = escape c ++ escape_all text

-- What `append_escaped` appends.
unfoldable pub append_escaped : List ℕ → List ℕ
unfolding escape_all
append_escaped text = 0x22 ∷ (escape_all text ++ 0x22 ∷ [])

-- "%lld"
unfoldable pub print_lld : ℤ → List ℕ
print_lld (pos n) = to_string n
print_lld (negsuc n) = b'-' ∷ to_string (suc n)

abbrev pub newline : Bool → List ℕ
newline pretty = if pretty then 10 ∷ [] else []

abbrev pub space : Bool → List ℕ
space pretty = if pretty then 32 ∷ [] else []

unfoldable pub spaces : ℕ → List ℕ
spaces ℕ.zero = []
spaces (suc n) = 32 ∷ spaces n

unfoldable pub indent : Bool → ℕ → List ℕ
unfolding spaces
indent pretty depth = if pretty then spaces (2 * depth) else []

module _ {N : Type 0} (doubles : Doubles N) where
  unfoldable pub append_number : N → List ℕ
  unfolding print_lld
  append_number n =
      if doubles.is_finite n && (doubles.is_floor n && doubles.below_1e15 n)
      then print_lld (doubles.long_long n)
      else doubles.print_17g (if doubles.is_finite n then n else doubles.zero_double)

  -- What `serialize_into` appends, and the rounds of its two loops.
  unfoldable mutual
    unfolding append_number append_escaped indent

    pub serialize_into : Value N → Bool → ℕ → List ℕ
    serialize_into null pretty depth = codes "null"
    serialize_into (boolean true) pretty depth = codes "true"
    serialize_into (boolean false) pretty depth = codes "false"
    serialize_into (number n) pretty depth = append_number n
    serialize_into (string s) pretty depth = append_escaped s
    serialize_into (array no_items) pretty depth = 0x5b ∷ 0x5d ∷ []
    serialize_into (array (item v vs)) pretty depth =
        0x5b
        ∷ (newline pretty
            ++ (serialize_items (item v vs) pretty depth ++ (indent pretty depth ++ 0x5d ∷ [])))
    serialize_into (object no_members) pretty depth = 0x7b ∷ 0x7d ∷ []
    serialize_into (object (member k v ms)) pretty depth =
        0x7b
        ∷ (newline pretty
            ++ (serialize_members (member k v ms) pretty depth
                ++ (indent pretty depth ++ 0x7d ∷ [])))

    pub serialize_items : Items N → Bool → ℕ → List ℕ
    serialize_items no_items pretty depth = []
    serialize_items (item v vs) pretty depth =
        indent pretty (depth + 1)
        ++ (serialize_into v pretty (depth + 1)
            ++ (comma_before vs ++ (newline pretty ++ serialize_items vs pretty depth)))

    pub serialize_members : Members N → Bool → ℕ → List ℕ
    serialize_members no_members pretty depth = []
    serialize_members (member k v ms) pretty depth =
        indent pretty (depth + 1)
        ++ (append_escaped k
            ++ (0x3a
                ∷ (space pretty
                    ++ (serialize_into v pretty (depth + 1)
                        ++ (comma_before_member ms
                            ++ (newline pretty ++ serialize_members ms pretty depth))))))

  unfoldable pub serialize : Value N → Bool → List ℕ
  unfolding serialize_into
  serialize value pretty = serialize_into value pretty 0 ++ newline pretty
