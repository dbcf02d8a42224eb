-- ===== src/Json/Endings.antt =====
-- json.cpp: the strings, numbers and literals end: each reading leaves no more than it was given.
use de_be_os_rdp.Prelude.{
  ℕ, zero, suc, ◌*◌, ◌≤◌, ◌<◌, ◌≢◌, List, [], ◌∷◌, ◌++◌, Bool, true, false, Bool-cases,
  Option-cases, inl, inr, Option, some, none, Result, ok, err, ◌>>=◌, codes, bit_or, u32, ltb, leb,
  ◌&&◌, ◌||◌, ◌^◌, take, arith, length, length-drop, ◌==◌, if◌then◌else◌,
}
use de_be_os_rdp.KnownBrokers.{same_text}
use de_be_os_rdp.Json.{Doubles}
use de_be_os_rdp.Json.Parser.{
  Failure, Parsed, out_of_fuel, fail_at, skip_whitespace, is_whitespace, invalid_unicode,
  unterminated_string, parse_literal, hex4_loop, hex4_digit, parse_hex4, low_surrogate,
  parse_unicode_escape, parse_escape, string_piece, string_loop, parse_string, is_number_char,
  number_suffix, number_prefix, unless_empty, number_token, token_value, parse_number, parse_bool,
  parse_null, parse_colon, parse_key, Piece, closed, bytes,
}

-- At most `n` characters are left, and the fuel did not run out.
pub data Leaves {A : Type 0} (n : ℕ) : Parsed A → Type 0 where
  leaves : {a : A} {rest : List ℕ} → length rest ≤ n → Leaves n (ok (a, rest))
  refused : {e : Failure} → e.error ≢ out_of_fuel → Leaves n (err e)

pub data LeavesText (n : ℕ) : Result Failure (List ℕ) → Type 0 where
  leaves_text : {rest : List ℕ} → length rest ≤ n → LeavesText n (ok rest)
  refused_text : {e : Failure} → e.error ≢ out_of_fuel → LeavesText n (err e)

module _ {A : Type 0} where
  pub Leaves-le : {m n : ℕ} {r : Parsed A} → Leaves m r → m ≤ n → Leaves n r
  Leaves-le (leaves h) le = leaves (omega arith)
  Leaves-le (refused h) le = refused h

  pub Leaves-bind :
      {B : Type 0} {n : ℕ} {r : Parsed A} (f : A × List ℕ → Parsed B)
      → Leaves n r
      → ((a : A) (rest : List ℕ) → length rest ≤ n → Leaves n (f (a, rest)))
      → Leaves n (r >>= f)
  Leaves-bind f (leaves {a} {rest} h) k = k a rest h
  Leaves-bind f (refused h) k = refused h

  pub Leaves-bind_text :
      {n : ℕ} {r : Result Failure (List ℕ)} (f : List ℕ → Parsed A)
      → LeavesText n r
      → ((rest : List ℕ) → length rest ≤ n → Leaves n (f rest))
      → Leaves n (r >>= f)
  Leaves-bind_text f (leaves_text {rest} h) k = k rest h
  Leaves-bind_text f (refused_text h) k = refused h

  pub Leaves-if :
      (b : Bool) {n : ℕ} {x y : Parsed A} → Leaves n x → Leaves n y → Leaves n (if b then x else y)
  Leaves-if true hx hy = hx
  Leaves-if false hx hy = hy

pub length-skip_whitespace : (t : List ℕ) → length (skip_whitespace t) ≤ length t
unfolding skip_whitespace
length-skip_whitespace [] = omega arith
length-skip_whitespace (c ∷ t) = elim (Bool-cases (is_whitespace c)) [
  | inl white ↦ rw white (omega (arith, length-skip_whitespace t))
  | inr dark ↦ rw dark (omega arith)
]

pub LeavesText-if :
    (b : Bool) {n : ℕ} {x y : Result Failure (List ℕ)}
    → LeavesText n x
    → LeavesText n y
    → LeavesText n (if b then x else y)
LeavesText-if true hx hy = hx
LeavesText-if false hx hy = hy

pub parse_literal-LeavesText :
    (word text : List ℕ) → LeavesText (length text) (parse_literal word text)
unfolding parse_literal
parse_literal-LeavesText word text =
    LeavesText-if (same_text (take (length word) text) word)
      (leaves_text (omega (arith, length-drop (length word) text))) (refused_text (cc))

-- One digit, once it is known to be one.
hex4_step-Leaves :
    (d : Option ℕ) (n : ℕ) (text : List ℕ) (again : ℕ → Parsed ℕ)
    → ((v : ℕ) → Leaves n (again v))
    → Leaves n (elim d [ some v ↦ again v | none ↦ err (fail_at invalid_unicode text) ])
hex4_step-Leaves (some v) n text again h = h v
hex4_step-Leaves none n text again h = refused (cc)

hex4_loop-Leaves : (left out : ℕ) (text : List ℕ) → Leaves (length text) (hex4_loop left out text)
unfolding hex4_loop
hex4_loop-Leaves zero out text = leaves (omega arith)
hex4_loop-Leaves (suc left) out [] = refused (cc)
hex4_loop-Leaves (suc left) out (c ∷ text) =
    hex4_step-Leaves (hex4_digit c) (length (c ∷ text)) text
      (λ d. hex4_loop left (bit_or (u32 (out * 2 ^ 4)) d) text)
      λ d. Leaves-le (hex4_loop-Leaves left (bit_or (u32 (out * 2 ^ 4)) d) text) (omega arith)

pub parse_hex4-Leaves : (text : List ℕ) → Leaves (length text) (parse_hex4 text)
unfolding parse_hex4
parse_hex4-Leaves text = Leaves-if (ltb (length text) 4) (refused (cc)) (hex4_loop-Leaves 4 0 text)

low_surrogate-Leaves : (code : ℕ) (text : List ℕ) → Leaves (length text) (low_surrogate code text)
unfolding low_surrogate
low_surrogate-Leaves code [] = refused (cc)
low_surrogate-Leaves code (c ∷ []) = refused (cc)
low_surrogate-Leaves code (c ∷ d ∷ text) =
    Leaves-if (c == 0x5c && d == b'u')
      (Leaves-bind _ (Leaves-le (parse_hex4-Leaves text) (omega arith))
        λ low rest h. Leaves-if (ltb low 0xdc00 || ltb 0xdfff low) (refused (cc)) (leaves h))
      (refused (cc))

pub parse_unicode_escape-Leaves : (text : List ℕ) → Leaves (length text) (parse_unicode_escape text)
unfolding parse_unicode_escape
parse_unicode_escape-Leaves text = Leaves-bind _ (parse_hex4-Leaves text) λ code rest h.
    Leaves-if (leb 0xd800 code && leb code 0xdbff) (Leaves-le (low_surrogate-Leaves code rest) h)
      (leaves h)

pub parse_escape-Leaves : (text : List ℕ) → Leaves (length text) (parse_escape text)
unfolding parse_escape
parse_escape-Leaves [] = refused (cc)
parse_escape-Leaves (c ∷ text) =
    let one : (b : ℕ) → Leaves (suc (length text)) (ok (b ∷ [], text)) =
      λ b. leaves (omega arith) in
    Leaves-if (c == 0x22 || (c == 0x5c || c == 0x2f)) (one c) (
      Leaves-if (c == b'b') (one 8) (
        Leaves-if (c == b'f') (one 12) (
          Leaves-if (c == b'n') (one 10) (
            Leaves-if (c == b'r') (one 13) (
              Leaves-if (c == b't') (one 9) (
                Leaves-if (c == b'u') (Leaves-le (parse_unicode_escape-Leaves text) (omega arith))
                  (refused (cc))))))))

-- A round of the loop takes at least one character.
string_piece-Leaves : (c : ℕ) (text : List ℕ) → Leaves (length text) (string_piece (c ∷ text))
unfolding string_piece
string_piece-Leaves c text = Leaves-if (c == 0x22) (leaves (omega arith)) (
    Leaves-if (c == 0x5c) (Leaves-bind _ (parse_escape-Leaves text) λ a rest h. leaves h)
      (leaves (omega arith)))

-- One round of `string_loop`, from what it read.
string_round-Leaves :
    {n : ℕ} {r : Parsed Piece} (fuel : ℕ) (out : List ℕ)
    → Leaves n r
    → ((added rest : List ℕ) → length rest ≤ n → Leaves n (string_loop fuel (out ++ added) rest))
    → Leaves n (elim r [
      | ok (closed, rest) ↦ ok (out, rest)
      | ok (bytes added, rest) ↦ string_loop fuel (out ++ added) rest
      | err e ↦ err e
    ])
string_round-Leaves fuel out (leaves {a = closed} h) k = leaves h
string_round-Leaves fuel out (leaves {a = bytes added} {rest = rest} h) k = k added rest h
string_round-Leaves fuel out (refused h) k = refused h

string_loop-Leaves :
    (fuel : ℕ) (out text : List ℕ)
    → length text < fuel
    → Leaves (length text) (string_loop fuel out text)
unfolding string_loop
string_loop-Leaves zero out text h = absurd (omega arith)
string_loop-Leaves (suc fuel) out [] h = refused {e = fail_at unterminated_string []} (cc)
string_loop-Leaves (suc fuel) out (c ∷ text) h =
    Leaves-le
      (string_round-Leaves fuel out (string_piece-Leaves c text)
        λ added rest le. Leaves-le (string_loop-Leaves fuel (out ++ added) rest (omega arith)) le)
      (omega arith)

pub parse_string-Leaves : (text : List ℕ) → Leaves (length text) (parse_string text)
unfolding parse_string
parse_string-Leaves [] = refused (cc)
parse_string-Leaves (c ∷ text) =
    Leaves-if (c == 0x22)
      (Leaves-le (string_loop-Leaves (suc (length text)) [] text (omega arith)) (omega arith))
      (refused (cc))

number_suffix-le : (text : List ℕ) → length (number_suffix text) ≤ length text
unfolding number_suffix
number_suffix-le [] = omega arith
number_suffix-le (c ∷ text) = elim (Bool-cases (is_number_char c)) [
  | inl e ↦ rw e (omega (arith, number_suffix-le text))
  | inr e ↦ rw e (omega arith)
]

length-if_le :
    (b : Bool) (n : ℕ) (p q : List ℕ × List ℕ)
    → length (p.1) ≤ n
    → length (q.1) ≤ n
    → length ((if b then p else q).1) ≤ n
length-if_le true n p q hp hq = hp
length-if_le false n p q hp hq = hq

pub number_token-le : (text : List ℕ) → length ((number_token text).1) ≤ length text
unfolding number_token
number_token-le [] = omega arith
number_token-le (c ∷ text) =
    let signed : length (number_suffix text) ≤ length (c ∷ text) =
      omega (arith, number_suffix-le text) in
    length-if_le (c == b'-') _ (c ∷ number_prefix text, number_suffix text)
      (number_prefix (c ∷ text), number_suffix (c ∷ text)) signed (number_suffix-le (c ∷ text))

pub parse_colon-LeavesText : (text : List ℕ) → LeavesText (length text) (parse_colon text)
unfolding parse_colon
parse_colon-LeavesText [] = refused_text (cc)
parse_colon-LeavesText (c ∷ text) =
    LeavesText-if (c == b':') (leaves_text (omega arith)) (refused_text (cc))

pub LeavesText-le :
    {m n : ℕ} {r : Result Failure (List ℕ)} → LeavesText m r → m ≤ n → LeavesText n r
LeavesText-le (leaves_text h) le = leaves_text (omega arith)
LeavesText-le (refused_text h) le = refused_text h

pub parse_key-Leaves : (text : List ℕ) → Leaves (length text) (parse_key text)
unfolding parse_key
parse_key-Leaves [] = refused (cc)
parse_key-Leaves (c ∷ text) =
    Leaves-if (c == 0x22)
      (Leaves-bind _ (parse_string-Leaves (c ∷ text)) λ key rest h.
        Leaves-bind_text _
          (LeavesText-le (parse_colon-LeavesText (skip_whitespace rest))
            (omega (arith, length-skip_whitespace rest)))
          λ after le. leaves le)
      (refused (cc))

module _ {N : Type 0} (doubles : Doubles N) where
  pub parse_bool-Leaves : (text : List ℕ) → Leaves (length text) (parse_bool doubles text)
  unfolding parse_bool
  parse_bool-Leaves [] = refused (cc)
  parse_bool-Leaves (c ∷ text) =
      Leaves-if (c == b't')
        (Leaves-bind_text _ (parse_literal-LeavesText (codes "true") (c ∷ text)) λ rest h. leaves h)
        (Leaves-bind_text _ (parse_literal-LeavesText (codes "false") (c ∷ text))
          λ rest h. leaves h)

  pub parse_null-Leaves : (text : List ℕ) → Leaves (length text) (parse_null doubles text)
  unfolding parse_null
  parse_null-Leaves text =
      Leaves-bind_text _ (parse_literal-LeavesText (codes "null") text) λ rest h. leaves h

  token_value-Leaves :
      (token rest : List ℕ) (n : ℕ) → length rest ≤ n → Leaves n (token_value doubles token rest)
  unfolding token_value
  token_value-Leaves token rest n h = elim (Option-cases (doubles.stod token)) [
    | inl e ↦ rw (e, token_value) (refused (cc))
    | inr (r, e) ↦ rw (e, token_value) (Leaves-if (r.1 == length token) (leaves h) (refused (cc)))
  ]

  unless_empty-Leaves :
      (token rest : List ℕ) (n : ℕ)
      → length rest ≤ n
      → Leaves n (unless_empty doubles (token, rest))
  unless_empty-Leaves [] rest n h = refused (cc)
  unless_empty-Leaves (c ∷ token) rest n h = token_value-Leaves (c ∷ token) rest n h

  pub parse_number-Leaves : (text : List ℕ) → Leaves (length text) (parse_number doubles text)
  unfolding parse_number
  parse_number-Leaves text =
      unless_empty-Leaves (number_token text).0 (number_token text).1 (length text)
        (number_token-le text)
