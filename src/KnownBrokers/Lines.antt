-- ===== src/KnownBrokers/Lines.antt =====
-- known_brokers.cpp: the lines of the file: what serialize writes is read back by parse, and a file
-- that is read and written keeps its text.
use de_be_os_rdp.Prelude.{
  ℕ, ◌≡◌, ◌≢◌, refl, sym, ap, ◌∙◌, inl, inr, List, [], ◌∷◌, ◌++◌, true, false, Bool-cases, Option,
  none, some, arith, ◌==◌, ==_iff, get_or, ◌||◌, All,
}
use de_be_os_rdp.KnownBrokers.{Line}
use de_be_os_rdp.KnownBrokers.File.{
  trim, is_empty, fields, line_of, parse_line, strip_return, onto_first, lines_of, parse_each,
  parse_lines, serialize_lines,
}

abbrev pub NotReturn : ℕ → Type 0
NotReturn c = c ≢ 13

abbrev pub NotNewline : ℕ → Type 0
NotNewline c = c ≢ 10

-- A line that reading its text gives, and whose text is one line.
pub record IsWritten (line : Line) : Type 0 where
  pub reads : parse_line line.raw ≡ line
  pub no_return : strip_return line.raw ≡ line.raw
  pub one_line : All NotNewline line.raw

not_equal : (c d : ℕ) → c ≢ d → (c == d) ≡ false
not_equal c d h = elim (Bool-cases (c == d)) [
  | inl same ↦ absurd (h ((==_iff c d).0 same))
  | inr other ↦ other
]

lines_of-append :
    (raw text : List ℕ) → All NotNewline raw → lines_of (raw ++ (10 ∷ text)) ≡ raw ∷ lines_of text
unfolding lines_of
lines_of-append [] text h = refl
lines_of-append (c ∷ raw) text h = rw (not_equal c 10 h.0, lines_of-append raw text h.1) refl

-- A store all of whose lines are as parse reads them, each from one line of text, is the store that
-- parse makes of the text that serialize makes of it.
pub parse_lines-serialize_lines :
    (lines : List Line) → All IsWritten lines → parse_lines (serialize_lines lines) ≡ lines
unfolding parse_lines parse_each serialize_lines
parse_lines-serialize_lines [] h = unfold lines_of in refl
parse_lines-serialize_lines (line ∷ lines) h =
    rw (lines_of-append line.raw (serialize_lines lines) h.0.one_line, h.0.no_return, h.0.reads)
      (ap (◌∷◌ line) (unfold parse_lines in parse_lines-serialize_lines lines h.1))

line_of-raw : (raw : List ℕ) (found : Option (List ℕ × List ℕ)) → (line_of raw found).raw ≡ raw
line_of-raw raw none = refl
line_of-raw raw (some (key, fingerprint)) = refl

pub parse_line-raw : (raw : List ℕ) → (parse_line raw).raw ≡ raw
unfolding parse_line
parse_line-raw raw = elim (Bool-cases (is_empty (trim raw) || get_or (trim raw) 0 0 == 35)) [
  | inl inert ↦ rw inert refl
  | inr entry ↦ rw entry (line_of-raw raw (fields (trim raw)))
]

pub strip_return-same : (raw : List ℕ) → All NotReturn raw → strip_return raw ≡ raw
unfolding strip_return
strip_return-same [] h = refl
strip_return-same (c ∷ []) h = rw (not_equal c 13 h.0) refl
strip_return-same (c ∷ d ∷ raw) h = ap (◌∷◌ c) (strip_return-same (d ∷ raw) h.1)

abbrev OneLine : List ℕ → Type 0
OneLine raw = All NotReturn raw × All NotNewline raw

onto_first-OneLine :
    (c : ℕ) (lines : List (List ℕ))
    → c ≢ 13
    → c ≢ 10
    → All OneLine lines
    → All OneLine (onto_first c lines)
onto_first-OneLine c [] r n h = (((r, tt), (n, tt)), tt)
onto_first-OneLine c (line ∷ lines) r n h = (((r, h.0.0), (n, h.0.1)), h.1)

lines_of-OneLine : (text : List ℕ) → All NotReturn text → All OneLine (lines_of text)
unfolding lines_of
lines_of-OneLine [] h = tt
lines_of-OneLine (c ∷ text) h = elim (Bool-cases (c == 10)) [
  | inl newline ↦ rw newline ((tt, tt), lines_of-OneLine text h.1)
  | inr other ↦ rw other (
      onto_first-OneLine c (lines_of text) h.0
        (λ e. let f : false ≡ true = sym other ∙ (==_iff c 10).1 e in absurd (cc))
        (lines_of-OneLine text h.1))
]

parse_line-IsWritten : (raw : List ℕ) → OneLine raw → IsWritten (parse_line (strip_return raw))
parse_line-IsWritten raw h =
    let kept = parse_line-raw raw in
    let stripped = strip_return-same raw h.0 in
    rw stripped
      (record { reads = ap parse_line kept; no_return = rw kept stripped; one_line = rw kept h.1 })

parse_each-IsWritten : (raws : List (List ℕ)) → All OneLine raws → All IsWritten (parse_each raws)
unfolding parse_each
parse_each-IsWritten [] h = tt
parse_each-IsWritten (raw ∷ raws) h = (parse_line-IsWritten raw h.0, parse_each-IsWritten raws h.1)

pub parse_lines-IsWritten : (text : List ℕ) → All NotReturn text → All IsWritten (parse_lines text)
unfolding parse_lines
parse_lines-IsWritten text h = parse_each-IsWritten (lines_of text) (lines_of-OneLine text h)

-- The lines, each with a newline behind it.
unfoldable joined : List (List ℕ) → List ℕ
joined [] = []
joined (raw ∷ raws) = raw ++ (10 ∷ joined raws)

joined-onto_first :
    (c : ℕ) (text : List ℕ) (raws : List (List ℕ))
    → joined raws ≡ text ++ 10 ∷ []
    → joined (onto_first c raws) ≡ c ∷ (text ++ 10 ∷ [])
unfolding joined
joined-onto_first c [] [] e = cc
joined-onto_first c (d ∷ text) [] e = cc
joined-onto_first c text (raw ∷ raws) e = ap (◌∷◌ c) e

joined-newline :
    (text : List ℕ) (raws : List (List ℕ))
    → joined raws ≡ text ++ 10 ∷ []
    → joined ([] ∷ raws) ≡ 10 ∷ (text ++ 10 ∷ [])
unfolding joined
joined-newline text raws e = ap (◌∷◌ 10) e

joined-lines_of : (text : List ℕ) → joined (lines_of (text ++ 10 ∷ [])) ≡ text ++ 10 ∷ []
unfolding lines_of
joined-lines_of [] = unfold joined in refl
joined-lines_of (c ∷ text) = elim (Bool-cases (c == 10)) [
  | inl newline ↦
      let same = (==_iff c 10).0 newline in
      rw (newline, same) (joined-newline text (lines_of (text ++ 10 ∷ [])) (joined-lines_of text))
  | inr other ↦
      rw other (joined-onto_first c text (lines_of (text ++ 10 ∷ [])) (joined-lines_of text))
]

serialize_lines-parse_each :
    (raws : List (List ℕ)) → All OneLine raws → serialize_lines (parse_each raws) ≡ joined raws
unfolding serialize_lines parse_each joined
serialize_lines-parse_each [] h = refl
serialize_lines-parse_each (raw ∷ raws) h =
    rw (strip_return-same raw h.0.0, parse_line-raw raw, serialize_lines-parse_each raws h.1) refl

All-snoc : (text : List ℕ) → All NotReturn text → All NotReturn (text ++ 10 ∷ [])
All-snoc [] h = ((λ e. omega (arith, e)), tt)
All-snoc (c ∷ text) h = (h.0, All-snoc text h.1)

-- A file without carriage returns whose last line ends in a newline keeps its text, comments and
-- malformed lines included, when it is parsed and serialized.
pub serialize_lines-parse_lines :
    (text : List ℕ)
    → All NotReturn text
    → serialize_lines (parse_lines (text ++ 10 ∷ [])) ≡ text ++ 10 ∷ []
unfolding parse_lines
serialize_lines-parse_lines text h =
    serialize_lines-parse_each (lines_of (text ++ 10 ∷ []))
      (lines_of-OneLine (text ++ 10 ∷ []) (All-snoc text h))
    ∙ joined-lines_of text
