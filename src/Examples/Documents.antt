-- ===== src/Examples/Documents.antt =====
-- A JSON document, over the doubles that are natural numbers below 2 ^ 53.
use de_be_os_rdp.Prelude.{
  ℕ, inl, ◌&&◌, ◌^◌, ◌≡◌, ◌≢◌, refl, ap, [], ◌∷◌, ◌++◌, true, Option, some, none, ok, err, arith,
  length, ltb, to_string, digits_value, digits_value-to_string, pos, codes,
}
use de_be_os_rdp.Input.Utf8.{utf8}
use de_be_os_rdp.Json.{
  Doubles, Value, boolean, number, string, array, object, no_items, item, no_members, member,
  print_lld, append_escaped, serialize,
}
use de_be_os_rdp.Json.Parser.{parse, parse_string, parse_unicode_escape, out_of_fuel}
use de_be_os_rdp.Json.Numbers.{DoubleLaws, IsNumeral, print_lld-IsNumeral}
use de_be_os_rdp.Json.Kept.{KeptValue}
use de_be_os_rdp.Json.Strings.{
  surrogates, parse_string-append_escaped, parse_unicode_escape-surrogates,
}
use de_be_os_rdp.Json.RoundTrip.{parse-serialize}
use de_be_os_rdp.Json.Fuel.{parse-ne-out_of_fuel}

abbrev with_length : ℕ → Option ℕ → Option (ℕ × ℕ)
with_length size none = none
with_length size (some n) = some (n, size)

abbrev naturals : Doubles ℕ
naturals = record {
  is_finite = λ n. true;
  is_floor = λ n. true;
  below_1e15 = λ n. ltb n 1000000000000000;
  long_long = pos;
  print_17g = to_string;
  zero_double = 0;
  stod = λ text. with_length (length text) (digits_value 0 text);
}

stod-to_string :
    (n : ℕ)
    → with_length (length (to_string n)) (digits_value 0 (to_string n))
      ≡ some (n, length (to_string n))
stod-to_string n = ap (with_length (length (to_string n))) (digits_value-to_string n)

to_string-IsNumeral : (n : ℕ) → IsNumeral (to_string n)
to_string-IsNumeral n = unfold print_lld in print_lld-IsNumeral (pos n)

abbrev naturals_laws : DoubleLaws naturals
naturals_laws = record {
  is_normal = λ n. ltb 0 n && ltb n (2 ^ 53);
  kept-is_finite = λ n k. refl;
  print_17g-IsNumeral = λ n k. to_string-IsNumeral n;
  stod-print_17g = λ n k. stod-to_string n;
  stod-print_lld = λ n k e. unfold print_lld in stod-to_string n;
}

-- {"port": 10902, "tags": ["a\n", [], true]}
abbrev profile : Value ℕ
profile = object (
    member (codes "port") (number 10902) (
      member (codes "tags")
        (array
          (item (string (b'a' ∷ 10 ∷ [])) (item (array no_items) (item (boolean true) no_items))))
        no_members))

profile_kept : KeptValue naturals naturals_laws profile
unfolding KeptValue
profile_kept = (inl refl, ((tt, (tt, (tt, tt))), tt))

parse-serialize_example : parse naturals (serialize naturals profile true) ≡ ok profile
parse-serialize_example = parse-serialize naturals naturals_laws profile true profile_kept

parse-ne-out_of_fuel_example : parse naturals (codes "[[1, 2") ≢ err (out_of_fuel, 6)
parse-ne-out_of_fuel_example = parse-ne-out_of_fuel naturals (codes "[[1, 2") 6

parse_string-append_escaped_example :
    parse_string (append_escaped (34 ∷ 92 ∷ 1 ∷ 200 ∷ []) ++ codes ": 1")
    ≡ ok (34 ∷ 92 ∷ 1 ∷ 200 ∷ [], codes ": 1")
parse_string-append_escaped_example =
    parse_string-append_escaped (34 ∷ 92 ∷ 1 ∷ 200 ∷ []) (codes ": 1")

parse_unicode_escape-surrogates_example :
    parse_unicode_escape (surrogates 0x1f600 ++ codes "!") ≡ ok (utf8 0x1f600, codes "!")
parse_unicode_escape-surrogates_example =
    parse_unicode_escape-surrogates 0x1f600 (codes "!") (omega arith) (omega arith)
