-- ===== src/KnownBrokers/Stored.antt =====
-- known_brokers.cpp: what add and replace do to a store survives the file.
use de_be_os_rdp.Prelude.{
  ℕ, ◌≤◌, ◌≡◌, sym, subst, inl, inr, List, [], ◌∷◌, ◌++◌, Bool, true, false, Bool-cases, arith,
  if◌then◌else◌, All, All-append, length, IsByte,
}
use de_be_os_rdp.Broker.Pins.{hex}
use de_be_os_rdp.KnownBrokers.{
  Line, broker_key, is_for, fresh_line, has_entry, add, replace_loop, replace,
}
use de_be_os_rdp.KnownBrokers.File.{parse_lines, serialize_lines}
use de_be_os_rdp.KnownBrokers.Lines.{
  NotReturn, NotNewline, IsWritten, strip_return-same, parse_lines-IsWritten,
  parse_lines-serialize_lines,
}
use de_be_os_rdp.KnownBrokers.Words.{IsInk}
use de_be_os_rdp.KnownBrokers.Keys.{IsHost, broker_key-IsInk}
use de_be_os_rdp.KnownBrokers.Reload.{prefix, prefix-IsInk, raw_of, parse_line-fresh_line}

ink-NotReturn : (text : List ℕ) → All IsInk text → All NotReturn text
ink-NotReturn [] h = tt
ink-NotReturn (c ∷ text) h = ((λ (e : c ≡ 13). ground (arith, e, h.0)), ink-NotReturn text h.1)

ink-NotNewline : (text : List ℕ) → All IsInk text → All NotNewline text
ink-NotNewline [] h = tt
ink-NotNewline (c ∷ text) h = ((λ (e : c ≡ 10). ground (arith, e, h.0)), ink-NotNewline text h.1)

replace_loop-IsWritten :
    (key : List ℕ) (fresh : Line) (placed : Bool) (lines : List Line)
    → IsWritten fresh
    → All IsWritten lines
    → All IsWritten (replace_loop key fresh placed lines)
unfolding replace_loop
replace_loop-IsWritten key fresh true [] f h = tt
replace_loop-IsWritten key fresh false [] f h = (f, tt)
replace_loop-IsWritten key fresh placed (line ∷ lines) f h = elim (Bool-cases (is_for key line)) [
  | inl same ↦ rw same (placed_or_not placed (replace_loop-IsWritten key fresh true lines f h.1))
  | inr other ↦ rw other (h.0, replace_loop-IsWritten key fresh placed lines f h.1)
]
  where
    placed_or_not :
        (p : Bool)
        → All IsWritten (replace_loop key fresh true lines)
        → All IsWritten (
            if p
            then replace_loop key fresh true lines
            else fresh ∷ replace_loop key fresh true lines)
    placed_or_not true after = after
    placed_or_not false after = (f, after)

module _ (host : List ℕ) (port : ℕ) (fingerprint : List ℕ) (valid : IsHost host)
    (port_low : 1 ≤ port) (port_high : port ≤ 65535) (bytes : All IsByte fingerprint)
    (size : length fingerprint ≡ 32) where
  fresh_line-IsWritten : IsWritten (fresh_line (broker_key host port) fingerprint)
  fresh_line-IsWritten =
      let raw = raw_of host port fingerprint valid port_low port_high bytes size in
      let key = broker_key-IsInk host port valid in
      let value = prefix-IsInk fingerprint bytes in
      let returns : All NotReturn (broker_key host port ++ 32 ∷ prefix (hex fingerprint)) =
        All-append NotReturn (broker_key host port) (32 ∷ prefix (hex fingerprint))
          (ink-NotReturn (broker_key host port) key)
          ((λ (e : 32 ≡ 13). omega (arith, e)), ink-NotReturn (prefix (hex fingerprint)) value) in
      let newlines : All NotNewline (broker_key host port ++ 32 ∷ prefix (hex fingerprint)) =
        All-append NotNewline (broker_key host port) (32 ∷ prefix (hex fingerprint))
          (ink-NotNewline (broker_key host port) key)
          ((λ (e : 32 ≡ 10). omega (arith, e)), ink-NotNewline (prefix (hex fingerprint)) value) in
      record {
        reads = parse_line-fresh_line host port fingerprint valid port_low port_high bytes size;
        no_return = strip_return-same _ (subst (All NotReturn) (sym raw) returns);
        one_line = subst (All NotNewline) (sym raw) newlines;
      }

  pub add-IsWritten :
      (lines : List Line) → All IsWritten lines → All IsWritten (add lines host port fingerprint).0
  unfolding add
  add-IsWritten lines h = elim (Bool-cases (has_entry lines host port)) [
    | inl present ↦ rw present h
    | inr missing ↦ rw missing (
        All-append IsWritten lines (fresh_line (broker_key host port) fingerprint ∷ []) h
          (fresh_line-IsWritten, tt))
  ]

  pub replace-IsWritten :
      (lines : List Line)
      → All IsWritten lines
      → All IsWritten (replace lines host port fingerprint)
  unfolding replace
  replace-IsWritten lines h =
      replace_loop-IsWritten (broker_key host port) (fresh_line (broker_key host port) fingerprint)
        false lines fresh_line-IsWritten h

  -- A store that was parsed from a text without carriage returns, and then given a broker by add or
  -- by replace, is the store that parse makes of its serialized text. The broker's host has no
  -- spaces and no brackets and does not start with '#', its port is a positive 16-bit number and
  -- its fingerprint has 32 bytes.
  pub parse_lines-updates :
      (text : List ℕ)
      → All NotReturn text
      → (parse_lines (serialize_lines (add (parse_lines text) host port fingerprint).0)
          ≡ (add (parse_lines text) host port fingerprint).0)
        × (parse_lines (serialize_lines (replace (parse_lines text) host port fingerprint))
            ≡ replace (parse_lines text) host port fingerprint)
  parse_lines-updates text h =
      let before = parse_lines-IsWritten text h in
      (
        parse_lines-serialize_lines _ (add-IsWritten (parse_lines text) before),
        parse_lines-serialize_lines _ (replace-IsWritten (parse_lines text) before),
      )
