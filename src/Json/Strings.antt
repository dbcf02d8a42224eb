-- ===== src/Json/Strings.antt =====
-- json.cpp: what `append_escaped` writes `parse_string` reads, and the `\u` escapes are UTF-8.
use de_be_os_rdp.Prelude.{
  ℕ, zero, suc, ◌+◌, ◌-◌, ◌*◌, ◌/◌, ◌%◌, ◌^◌, ◌≤◌, ◌<◌, ◌≡◌, refl, ap, ◌∙◌, List, [], ◌∷◌, ◌++◌,
  append_assoc, append-nil, Bool-cases, inl, inr, leb, arith, bit_or, bit_and, bit_or_join_high,
  bit_and-low6, length, length-append, u8, u32, some, ok, true, false, ltb, ltb→lt, ◌&&◌, ◌||◌,
  Bool, ◌==◌,
}
use de_be_os_rdp.KnownBrokers.{hex_digit}
use de_be_os_rdp.Input.Utf8.{utf8}
use de_be_os_rdp.Json.{escape, escape_all, append_escaped}
use de_be_os_rdp.Json.Parser.{
  hex4_digit, hex4_loop, parse_hex4, append_utf8, parse_unicode_escape, low_surrogate, parse_escape,
  string_piece, string_loop, parse_string, bytes,
}

hex4_digit-hex_digit : (d : ℕ) → d < 16 → hex4_digit (hex_digit d) ≡ some d
hex4_digit-hex_digit d h = ground arith

-- One more digit.
hex4_loop-digit :
    (left out d : ℕ) (text : List ℕ)
    → d < 16
    → out < 2 ^ 28
    → hex4_loop (suc left) out (hex_digit d ∷ text) ≡ hex4_loop left (out * 16 + d) text
unfolding hex4_loop
hex4_loop-digit left out d text h small =
    let e : u32 (out * 2 ^ 4) ≡ out * 2 ^ 4 = omega arith in
    let digit : hex4_digit (hex_digit d) ≡ some d = hex4_digit-hex_digit d h in
    rw (digit, hex4_loop, e, bit_or_join_high 4 out d h) refl

abbrev pub hex4 : ℕ → List ℕ
hex4 n =
    hex_digit (n / 4096)
    ∷ hex_digit (n / 256 % 16)
    ∷ hex_digit (n / 16 % 16)
    ∷ hex_digit (n % 16)
    ∷ []

-- Four digits are read as the number they spell.
pub parse_hex4-hex4 :
    (n : ℕ) (rest : List ℕ) → n < 65536 → parse_hex4 (hex4 n ++ rest) ≡ ok (n, rest)
unfolding parse_hex4
parse_hex4-hex4 n rest h =
    let a = n / 4096 in
    let long : ltb (length (hex4 n ++ rest)) 4 ≡ false = ground arith in
    let b = n / 256 % 16 in
    let c = n / 16 % 16 in
    let d = n % 16 in
    rw (long, parse_hex4)
      (hex4_loop-digit 3 0 a (hex_digit b ∷ hex_digit c ∷ hex_digit d ∷ rest) (omega arith)
          (omega arith)
        ∙ hex4_loop-digit 2 (0 * 16 + a) b (hex_digit c ∷ hex_digit d ∷ rest) (omega arith)
            (omega arith)
        ∙ hex4_loop-digit 1 ((0 * 16 + a) * 16 + b) c (hex_digit d ∷ rest) (omega arith)
            (omega arith)
        ∙ hex4_loop-digit 0 (((0 * 16 + a) * 16 + b) * 16 + c) d rest (omega arith) (omega arith)
        ∙ ap (λ m. ok (m, rest)) (omega arith))

-- The lead bytes and the continuation byte.
lead2 : (x : ℕ) → x < 32 → u8 (bit_or 0xc0 x) ≡ 0xc0 + x
lead2 x h = omega (arith, bit_or_join_high 6 3 x (omega arith))

lead3 : (x : ℕ) → x < 16 → u8 (bit_or 0xe0 x) ≡ 0xe0 + x
lead3 x h = omega (arith, bit_or_join_high 5 7 x (omega arith))

lead4 : (x : ℕ) → x < 8 → u8 (bit_or 0xf0 x) ≡ 0xf0 + x
lead4 x h = omega (arith, bit_or_join_high 4 15 x (omega arith))

trail : (x : ℕ) → u8 (bit_or 0x80 (bit_and x 0x3f)) ≡ 0x80 + x % 64
trail x = rw (bit_and-low6 x) (omega (arith, bit_or_join_high 6 2 (x % 64) (omega arith)))

ruleset masks = (lead2, lead3, lead4, trail)

-- `append_utf8` writes the UTF-8 bytes of RFC 3629, for every code point.
pub append_utf8-utf8 : (c : ℕ) → c < 0x110000 → append_utf8 c ≡ utf8 c
unfolding append_utf8
append_utf8-utf8 c h = elim (Bool-cases (ltb c 0x80)) [
  | inl one ↦ let o : leb c 0x7f ≡ true = ground arith in simp (one, o) (ground (arith))
  | inr n1 ↦
      let m1 : leb c 0x7f ≡ false = ground arith in
      elim (Bool-cases (ltb c 0x800)) [
        | inl two ↦
            let o : leb c 0x7ff ≡ true = ground arith in
            simp (n1, two, m1, o, lead2 (c / 2 ^ 6) (ground arith), trail c) refl
        | inr n2 ↦
            let m2 : leb c 0x7ff ≡ false = ground arith in
            elim (Bool-cases (ltb c 0x10000)) [
              | inl three ↦
                  let o : leb c 0xffff ≡ true = ground arith in
                  simp
                    (
                      n1,
                      n2,
                      three,
                      m1,
                      m2,
                      o,
                      lead3 (c / 2 ^ 12) (ground arith),
                      trail c,
                      trail (c / 2 ^ 6),
                    )
                    refl
              | inr n3 ↦
                  let m3 : leb c 0xffff ≡ false = ground arith in
                  simp
                    (
                      n1,
                      n2,
                      n3,
                      m1,
                      m2,
                      m3,
                      lead4 (c / 2 ^ 18) (omega arith),
                      trail c,
                      trail (c / 2 ^ 6),
                      trail (c / 2 ^ 12),
                    )
                    refl
            ]
      ]
]

-- A `\u` escape below the surrogates gives the UTF-8 bytes of its number.
pub parse_unicode_escape-hex4 :
    (n : ℕ) (rest : List ℕ) → n < 0xd800 → parse_unicode_escape (hex4 n ++ rest) ≡ ok (utf8 n, rest)
unfolding parse_unicode_escape
parse_unicode_escape-hex4 n rest h =
    let low : leb 0xd800 n ≡ false = ground arith in
    rw (parse_hex4-hex4 n rest (omega arith), low)
      (ap (λ t. ok (t, rest)) (append_utf8-utf8 n (omega arith)))

abbrev pub surrogates : ℕ → List ℕ
surrogates c =
    hex4 (0xd800 + (c - 0x10000) / 1024) ++ (0x5c ∷ b'u' ∷ hex4 (0xdc00 + (c - 0x10000) % 1024))

-- What the two halves of a pair add up to.
low_surrogate-hex4 :
    (high low : ℕ) (rest : List ℕ)
    → high < 1024
    → low < 1024
    → low_surrogate (0xd800 + high) (0x5c ∷ b'u' ∷ (hex4 (0xdc00 + low) ++ rest))
      ≡ ok (utf8 (0x10000 + high * 1024 + low), rest)
unfolding low_surrogate
low_surrogate-hex4 high low rest hi lo =
    let in_range : ltb (0xdc00 + low) 0xdc00 || ltb 0xdfff (0xdc00 + low) ≡ false = ground arith in
    let e : 0x10000 + (0xd800 + high - 0xd800) * 2 ^ 10 + (0xdc00 + low - 0xdc00)
        ≡ 0x10000 + high * 1024 + low =
      omega arith in
    rw (parse_hex4-hex4 (0xdc00 + low) rest (omega arith), in_range, e)
      (ap (λ t. ok (t, rest)) (append_utf8-utf8 (0x10000 + high * 1024 + low) (omega arith)))

-- A code point above 0xffff, written as a pair of surrogates, gives its UTF-8 bytes.
pub parse_unicode_escape-surrogates :
    (c : ℕ) (rest : List ℕ)
    → 0x10000 ≤ c
    → c < 0x110000
    → parse_unicode_escape (surrogates c ++ rest) ≡ ok (utf8 c, rest)
unfolding parse_unicode_escape
parse_unicode_escape-surrogates c rest lo hi =
    let high = (c - 0x10000) / 1024 in
    let low = (c - 0x10000) % 1024 in
    let paired : leb 0xd800 (0xd800 + high) && leb (0xd800 + high) 0xdbff ≡ true = ground arith in
    let e : 0x10000 + high * 1024 + low ≡ c = omega arith in
    rw
      (
        parse_hex4-hex4 (0xd800 + high) (0x5c ∷ b'u' ∷ (hex4 (0xdc00 + low) ++ rest)) (omega arith),
        paired,
      )
      (low_surrogate-hex4 high low rest (omega arith) (omega arith) ∙ ap (λ n. ok (utf8 n, rest)) e)

control :
    (c : ℕ) (rest : List ℕ)
    → c < 32
    → string_piece (0x5c ∷ b'u' ∷ b'0' ∷ b'0' ∷ hex_digit (c / 16) ∷ hex_digit (c % 16) ∷ rest)
      ≡ ok (bytes (c ∷ []), rest)
unfolding string_piece parse_escape
control c rest h =
    let a : c / 4096 ≡ 0 = omega arith in
    let b : c / 256 % 16 ≡ 0 = omega arith in
    let d : c / 16 % 16 ≡ c / 16 = omega arith in
    let small : ltb c 0x80 ≡ true = ground arith in
    let read : parse_unicode_escape (hex4 c ++ rest) ≡ ok (utf8 c, rest) =
      parse_unicode_escape-hex4 c rest (omega arith) in
    rw (rw (a, b, d, small) at read) refl

abbrev is_short : ℕ → Bool
is_short c = c == 0x22 || (c == 0x5c || (c == 8 || (c == 12 || (c == 10 || (c == 13 || c == 9)))))

-- One byte of a text, escaped and read.
string_piece-escape :
    (c : ℕ) (rest : List ℕ) → string_piece (escape c ++ rest) ≡ ok (bytes (c ∷ []), rest)
unfolding string_piece escape
string_piece-escape c rest = elim (Bool-cases (is_short c)) [
  | inl short ↦ ground arith
  | inr long ↦ elim (Bool-cases (ltb c 0x20)) [
    | inl low ↦
        let e : escape c
            ≡ 0x5c ∷ b'u' ∷ b'0' ∷ b'0' ∷ hex_digit (c / 16) ∷ hex_digit (c % 16) ∷ [] =
          ground arith in
        rw e (control c rest (ltb→lt c 0x20 low))
    | inr high ↦ ground arith
  ]
]

string_loop-piece :
    (fuel : ℕ) (out text added rest : List ℕ)
    → string_piece text ≡ ok (bytes added, rest)
    → string_loop (suc fuel) out text ≡ string_loop fuel (out ++ added) rest
unfolding string_loop
string_loop-piece fuel out text added rest e = rw (e, string_loop) refl

string_loop-escape_all :
    (s : List ℕ) (fuel : ℕ) (out rest : List ℕ)
    → length s < fuel
    → string_loop fuel out (escape_all s ++ 0x22 ∷ rest) ≡ ok (out ++ s, rest)
unfolding string_loop escape_all
string_loop-escape_all s zero out rest h = absurd (omega arith)
string_loop-escape_all [] (suc fuel) out rest h = rw (append-nil out) refl
string_loop-escape_all (c ∷ s) (suc fuel) out rest h =
    rw (append_assoc (escape c) (escape_all s) (0x22 ∷ rest)) (
      string_loop-piece fuel out (escape c ++ (escape_all s ++ 0x22 ∷ rest)) (c ∷ []) _
        (string_piece-escape c (escape_all s ++ 0x22 ∷ rest))
      ∙ string_loop-escape_all s fuel (out ++ c ∷ []) rest (omega arith)
      ∙ ap (λ t. ok (t, rest)) (append_assoc out (c ∷ []) s))

length-escape : (c : ℕ) → 1 ≤ length (escape c)
unfolding escape
length-escape c = ground arith

pub length-escape_all : (s : List ℕ) → length s ≤ length (escape_all s)
unfolding escape_all
length-escape_all [] = omega arith
length-escape_all (c ∷ s) =
    omega (arith, length-append (escape c) (escape_all s), length-escape c, length-escape_all s)

-- Every text is read back as it was, whatever its bytes, and the text behind it is left.
pub parse_string-append_escaped :
    (s rest : List ℕ) → parse_string (append_escaped s ++ rest) ≡ ok (s, rest)
unfolding parse_string append_escaped
parse_string-append_escaped s rest =
    let e : (escape_all s ++ 0x22 ∷ []) ++ rest ≡ escape_all s ++ 0x22 ∷ rest =
      append_assoc (escape_all s) (0x22 ∷ []) rest in
    rw e (
      string_loop-escape_all s (suc (length (escape_all s ++ 0x22 ∷ rest))) [] rest
        (omega (arith, length-append (escape_all s) (0x22 ∷ rest), length-escape_all s)))
