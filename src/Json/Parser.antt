-- ===== src/Json/Parser.antt =====
-- json.cpp: the parser. Its state is the text from `pos_` on; an error keeps that text, from which
-- the position in the document follows. The recursion and the loops run on fuel.
use de_be_os_rdp.Prelude.{
  ℕ, zero, suc, ◌+◌, ◌-◌, ◌*◌, ◌/◌, ◌^◌, List, [], ◌∷◌, ◌++◌, Bool, true, false, ◌&&◌, ◌||◌, Option,
  none, some, ltb, leb, ◌==◌, if◌then◌else◌, codes, length, take, drop, bit_and, bit_or, u8, u32,
  Result, ok, err, ◌>>=◌,
}
use de_be_os_rdp.KnownBrokers.{same_text}
use de_be_os_rdp.Json.{
  Doubles, Value, Items, Members, null, boolean, number, string, array, object, no_items, item,
  no_members, member,
}

pub data JsonError : Type 0 where
  unexpected_end invalid_literal expected_value malformed_number : JsonError
  expected_string unterminated_escape invalid_escape unterminated_string : JsonError
  truncated_unicode invalid_unicode unpaired_surrogate invalid_low_surrogate : JsonError
  unterminated_array expected_comma_or_bracket : JsonError
  expected_member_name expected_colon unterminated_object expected_comma_or_brace : JsonError
  trailing_data out_of_fuel : JsonError

-- The message and the text from `error_pos_` on.
pub record Failure : Type 0 where
  pub error : JsonError
  pub rest : List ℕ

abbrev pub fail_at : JsonError → List ℕ → Failure
fail_at error rest = record { error = error; rest = rest }

abbrev pub Parsed : Type 0 → Type 0
Parsed A = Result Failure (A × List ℕ)

abbrev pub is_whitespace : ℕ → Bool
is_whitespace c = c == 32 || (c == 9 || (c == 10 || c == 13))

unfoldable pub skip_whitespace : List ℕ → List ℕ
skip_whitespace [] = []
skip_whitespace (c ∷ text) =
    let rest = skip_whitespace text in if is_whitespace c then rest else c ∷ text

-- `text_.substr(pos_, word.size()) != word`
unfoldable pub parse_literal : List ℕ → List ℕ → Result Failure (List ℕ)
unfolding same_text
parse_literal word text =
    if same_text (take (length word) text) word
    then ok (drop (length word) text)
    else err (fail_at invalid_literal text)

abbrev pub is_number_char : ℕ → Bool
is_number_char c =
    (leb b'0' c && leb c b'9')
    || (c == b'.' || (c == b'e' || (c == b'E' || (c == b'+' || c == b'-'))))

-- The loop over the characters of a number: what it passes, and what it leaves.
unfoldable pub number_prefix : List ℕ → List ℕ
number_prefix [] = []
number_prefix (c ∷ text) =
    let more = number_prefix text in if is_number_char c then c ∷ more else []

unfoldable pub number_suffix : List ℕ → List ℕ
number_suffix [] = []
number_suffix (c ∷ text) =
    let more = number_suffix text in if is_number_char c then more else c ∷ text

-- The same with the sign in front.
unfoldable pub number_token : List ℕ → List ℕ × List ℕ
unfolding number_prefix number_suffix
number_token [] = ([], [])
number_token (c ∷ text) =
    if c == b'-'
    then (c ∷ number_prefix text, number_suffix text)
    else (number_prefix (c ∷ text), number_suffix (c ∷ text))

-- The digits of a `\u` escape.
abbrev pub hex4_digit : ℕ → Option ℕ
hex4_digit c =
    if leb b'0' c && leb c b'9'
    then some (c - b'0')
    else if leb b'a' c && leb c b'f'
    then some (c - b'a' + 10)
    else if leb b'A' c && leb c b'F'
    then some (c - b'A' + 10)
    else none

-- `left` rounds to go; the count of bytes was tested before.
unfoldable pub hex4_loop : ℕ → ℕ → List ℕ → Parsed ℕ
hex4_loop zero out text = ok (out, text)
hex4_loop (suc left) out [] = err (fail_at truncated_unicode [])
hex4_loop (suc left) out (c ∷ text) = elim (hex4_digit c) [
  | some d ↦ hex4_loop left (bit_or (u32 (out * 2 ^ 4)) d) text
  | none ↦ err (fail_at invalid_unicode text)
]

unfoldable pub parse_hex4 : List ℕ → Parsed ℕ
unfolding hex4_loop
parse_hex4 text =
    if ltb (length text) 4 then err (fail_at truncated_unicode text) else hex4_loop 4 0 text

-- What `append_utf8` appends.
unfoldable pub append_utf8 : ℕ → List ℕ
append_utf8 codepoint =
    if leb codepoint 0x7f
    then u8 codepoint ∷ []
    else if leb codepoint 0x7ff
    then u8 (bit_or 0xc0 (codepoint / 2 ^ 6)) ∷ u8 (bit_or 0x80 (bit_and codepoint 0x3f)) ∷ []
    else if leb codepoint 0xffff
    then u8 (bit_or 0xe0 (codepoint / 2 ^ 12))
      ∷ u8 (bit_or 0x80 (bit_and (codepoint / 2 ^ 6) 0x3f))
      ∷ u8 (bit_or 0x80 (bit_and codepoint 0x3f))
      ∷ []
    else u8 (bit_or 0xf0 (codepoint / 2 ^ 18))
      ∷ u8 (bit_or 0x80 (bit_and (codepoint / 2 ^ 12) 0x3f))
      ∷ u8 (bit_or 0x80 (bit_and (codepoint / 2 ^ 6) 0x3f))
      ∷ u8 (bit_or 0x80 (bit_and codepoint 0x3f))
      ∷ []

-- The low surrogate that must follow the high one.
unfoldable pub low_surrogate : ℕ → List ℕ → Parsed (List ℕ)
unfolding parse_hex4 append_utf8
low_surrogate code (c ∷ d ∷ text) =
    if c == 0x5c && d == b'u'
    then (parse_hex4 text >>= λ (low, rest).
        if ltb low 0xdc00 || ltb 0xdfff low
        then err (fail_at invalid_low_surrogate rest)
        else ok (append_utf8 (0x10000 + (code - 0xd800) * 2 ^ 10 + (low - 0xdc00)), rest))
    else err (fail_at unpaired_surrogate (c ∷ d ∷ text))
low_surrogate code text = err (fail_at unpaired_surrogate text)

-- What `parse_unicode_escape` appends, and the text behind the escape.
unfoldable pub parse_unicode_escape : List ℕ → Parsed (List ℕ)
unfolding low_surrogate parse_hex4
parse_unicode_escape text = parse_hex4 text >>= λ (code, rest).
    if leb 0xd800 code && leb code 0xdbff
    then low_surrogate code rest
    else ok (append_utf8 code, rest)

unfoldable pub parse_escape : List ℕ → Parsed (List ℕ)
unfolding parse_unicode_escape
parse_escape [] = err (fail_at unterminated_escape [])
parse_escape (c ∷ text) =
    if c == 0x22 || (c == 0x5c || c == 0x2f)
    then ok (c ∷ [], text)
    else if c == b'b'
    then ok (8 ∷ [], text)
    else if c == b'f'
    then ok (12 ∷ [], text)
    else if c == b'n'
    then ok (10 ∷ [], text)
    else if c == b'r'
    then ok (13 ∷ [], text)
    else if c == b't'
    then ok (9 ∷ [], text)
    else if c == b'u'
    then parse_unicode_escape text
    else err (fail_at invalid_escape text)

-- One round of the loop of `parse_string`: the closing quote, or bytes for `out`.
pub data Piece : Type 0 where
  closed : Piece
  bytes : List ℕ → Piece

abbrev as_bytes : List ℕ × List ℕ → Piece × List ℕ
as_bytes (added, rest) = (bytes added, rest)

unfoldable pub string_piece : List ℕ → Parsed Piece
unfolding parse_escape
string_piece [] = err (fail_at unterminated_string [])
string_piece (c ∷ text) =
    if c == 0x22
    then ok (closed, text)
    else if c == 0x5c
    then (parse_escape text >>= λ r. ok (as_bytes r))
    else ok (bytes (c ∷ []), text)

unfoldable pub string_loop : ℕ → List ℕ → List ℕ → Parsed (List ℕ)
unfolding string_piece
string_loop zero out text = err (fail_at out_of_fuel text)
string_loop (suc fuel) out text = elim (string_piece text) [
  | ok (closed, rest) ↦ ok (out, rest)
  | ok (bytes added, rest) ↦ string_loop fuel (out ++ added) rest
  | err e ↦ err e
]

unfoldable pub parse_string : List ℕ → Parsed (List ℕ)
unfolding string_loop
parse_string [] = err (fail_at expected_string [])
parse_string (c ∷ text) =
    if c == 0x22
    then string_loop (suc (length text)) [] text
    else err (fail_at expected_string (c ∷ text))

-- The switch of `parse_value` over the next character.
pub data Start : Type 0 where
  object_start array_start string_start bool_start null_start number_start : Start

abbrev pub start_of : ℕ → Start
start_of c =
    if c == b'{'
    then object_start
    else if c == b'['
    then array_start
    else if c == 0x22
    then string_start
    else if c == b't' || c == b'f'
    then bool_start
    else if c == b'n'
    then null_start
    else number_start

-- What stands behind an element or a member: the closing character, a comma, another character, or
-- the end of the text.
pub data Follow : Type 0 where
  closes comma other : List ℕ → Follow
  ended : Follow

unfoldable pub follow : ℕ → List ℕ → Follow
follow close [] = ended
follow close (c ∷ text) =
    if c == close then closes text else if c == b',' then comma text else other text

-- The test for an empty array or object.
unfoldable pub closed_at_once : ℕ → List ℕ → Option (List ℕ)
closed_at_once close [] = none
closed_at_once close (c ∷ text) = if c == close then some text else none

-- The name and the colon of a member.
unfoldable pub parse_colon : List ℕ → Result Failure (List ℕ)
parse_colon [] = err (fail_at expected_colon [])
parse_colon (c ∷ text) = if c == b':' then ok text else err (fail_at expected_colon text)

unfoldable pub parse_key : List ℕ → Parsed (List ℕ)
unfolding parse_string parse_colon skip_whitespace
parse_key [] = err (fail_at expected_member_name [])
parse_key (c ∷ text) =
    if c == 0x22
    then (parse_string (c ∷ text) >>= λ (key, rest).
        parse_colon (skip_whitespace rest) >>= λ after. ok (key, after))
    else err (fail_at expected_member_name (c ∷ text))

module _ {N : Type 0} (doubles : Doubles N) where
  unfoldable pub parse_bool : List ℕ → Parsed (Value N)
  unfolding parse_literal
  parse_bool [] = err (fail_at invalid_literal [])
  parse_bool (c ∷ text) =
      if c == b't'
      then (parse_literal (codes "true") (c ∷ text) >>= λ rest. ok (boolean true, rest))
      else parse_literal (codes "false") (c ∷ text) >>= λ rest. ok (boolean false, rest)

  unfoldable pub parse_null : List ℕ → Parsed (Value N)
  unfolding parse_literal
  parse_null text = parse_literal (codes "null") text >>= λ rest. ok (null, rest)

  -- The value of a token, where `std::stod` takes all of it.
  unfoldable pub token_value : List ℕ → List ℕ → Parsed (Value N)
  token_value token rest = elim (doubles.stod token) [
    | some (n, consumed) ↦
        if consumed == length token
        then ok (number n, rest)
        else err (fail_at malformed_number rest)
    | none ↦ err (fail_at malformed_number rest)
  ]

  abbrev pub unless_empty : List ℕ × List ℕ → Parsed (Value N)
  unless_empty ([], rest) = err (fail_at expected_value rest)
  unless_empty (c ∷ token, rest) = token_value (c ∷ token) rest

  unfoldable pub parse_number : List ℕ → Parsed (Value N)
  unfolding number_token token_value
  parse_number text = unless_empty (number_token text)

  -- The switch of `parse_value`, with what it calls for an object and an array.
  unfoldable pub value_at :
      (List ℕ → Parsed (Value N)) → (List ℕ → Parsed (Value N)) → List ℕ → Parsed (Value N)
  unfolding parse_string parse_bool parse_null parse_number
  value_at object_at array_at [] = err (fail_at unexpected_end [])
  value_at object_at array_at (c ∷ rest) = elim (start_of c) [
    | object_start ↦ object_at rest
    | array_start ↦ array_at rest
    | string_start ↦ parse_string (c ∷ rest) >>= λ (s, after). ok (string s, after)
    | bool_start ↦ parse_bool (c ∷ rest)
    | null_start ↦ parse_null (c ∷ rest)
    | number_start ↦ parse_number (c ∷ rest)
  ]

  -- The empty array, or the elements that the loop reads.
  abbrev pub array_of : Parsed (Items N) → Option (List ℕ) → Parsed (Value N)
  array_of loop (some rest) = ok (array no_items, rest)
  array_of loop none = loop >>= λ (items, rest). ok (array items, rest)

  abbrev pub object_of : Parsed (Members N) → Option (List ℕ) → Parsed (Value N)
  object_of loop (some rest) = ok (object no_members, rest)
  object_of loop none = loop >>= λ (members, rest). ok (object members, rest)

  -- The rest of a round, behind an element or a member; `again` is the next round.
  abbrev pub after_item : (List ℕ → Parsed (Items N)) → Value N → Follow → Parsed (Items N)
  after_item again v (closes rest) = ok (item v no_items, rest)
  after_item again v (comma rest) = again rest >>= λ (vs, last). ok (item v vs, last)
  after_item again v (other rest) = err (fail_at expected_comma_or_bracket rest)
  after_item again v ended = err (fail_at unterminated_array [])

  abbrev pub after_member :
      (List ℕ → Parsed (Members N)) → List ℕ → Value N → Follow → Parsed (Members N)
  after_member again k v (closes rest) = ok (member k v no_members, rest)
  after_member again k v (comma rest) = again rest >>= λ (ms, last). ok (member k v ms, last)
  after_member again k v (other rest) = err (fail_at expected_comma_or_brace rest)
  after_member again k v ended = err (fail_at unterminated_object [])

  unfoldable mutual
    unfolding skip_whitespace value_at closed_at_once follow parse_key

    pub parse_value : ℕ → List ℕ → Parsed (Value N)
    parse_value zero text = err (fail_at out_of_fuel text)
    parse_value (suc fuel) text =
        value_at (parse_object fuel) (parse_array fuel) (skip_whitespace text)

    -- Behind the opening bracket.
    pub parse_array : ℕ → List ℕ → Parsed (Value N)
    parse_array zero text = err (fail_at out_of_fuel text)
    parse_array (suc fuel) text =
        array_of (parse_items fuel (skip_whitespace text))
          (closed_at_once b']' (skip_whitespace text))

    -- The loop of `parse_array`.
    pub parse_items : ℕ → List ℕ → Parsed (Items N)
    parse_items zero text = err (fail_at out_of_fuel text)
    parse_items (suc fuel) text = parse_value fuel text >>= λ (v, after).
        after_item (parse_items fuel) v (follow b']' (skip_whitespace after))

    -- Behind the opening brace.
    pub parse_object : ℕ → List ℕ → Parsed (Value N)
    parse_object zero text = err (fail_at out_of_fuel text)
    parse_object (suc fuel) text =
        object_of (parse_members fuel (skip_whitespace text))
          (closed_at_once b'}' (skip_whitespace text))

    -- The loop of `parse_object`.
    pub parse_members : ℕ → List ℕ → Parsed (Members N)
    parse_members zero text = err (fail_at out_of_fuel text)
    parse_members (suc fuel) text = parse_key (skip_whitespace text) >>= λ (k, at_value).
        parse_value fuel at_value >>= λ (v, after).
        after_member (parse_members fuel) k v (follow b'}' (skip_whitespace after))

  -- Whether all of the text has been read, behind the value.
  abbrev pub at_end : ℕ → Value N → List ℕ → Result (JsonError × ℕ) (Value N)
  at_end size v [] = ok v
  at_end size v (c ∷ rest) = err (trailing_data, size - length (c ∷ rest))

  -- The result of `run`: the value, or the message and the position in the document.
  unfoldable pub finish : List ℕ → Parsed (Value N) → Result (JsonError × ℕ) (Value N)
  unfolding skip_whitespace
  finish text (ok (v, rest)) = at_end (length text) v (skip_whitespace rest)
  finish text (err e) = err (e.error, length text - length e.rest)

  unfoldable pub parse : List ℕ → Result (JsonError × ℕ) (Value N)
  unfolding parse_value finish
  parse text = finish text (parse_value (suc (4 * length text)) (skip_whitespace text))
