-- ===== src/KnownBrokers/Continuity.antt =====
-- known_brokers.cpp: lookups after replace and add, for the fingerprint given and for others.
use de_be_os_rdp.Prelude.{
  ℕ, ◌≡◌, ◌≢◌, refl, ◌∙◌, inl, inr, List, [], ◌∷◌, ◌++◌, true, false, Bool-cases, none, some,
}
use de_be_os_rdp.KnownBrokers.{
  same_text, broker_key, Line, known, changed, is_for, lookup_loop, lookup, any_for, has_entry,
  fresh_line, add, replace_loop, replace,
}
use de_be_os_rdp.KnownBrokers.Store.{
  same_text_eq, lookup_skip, replaced, left_alone, replace_loop-known, appended-known,
  fresh_line-is_for, any_for_head,
}

same_text-ne : (xs ys : List ℕ) → xs ≢ ys → same_text xs ys ≡ false
same_text-ne xs ys h = elim (Bool-cases (same_text xs ys)) [
  | inl same ↦ absurd (h (same_text_eq xs ys same))
  | inr other ↦ other
]

module _ (key other : List ℕ) (fresh : Line) (entry : is_for key fresh ≡ true)
    (apart : same_text fresh.fingerprint other ≡ false) where
  lookup_miss :
      (lines : List Line)
      → lookup_loop key other none (fresh ∷ lines)
        ≡ lookup_loop key other (some fresh.fingerprint) lines
  unfolding lookup_loop
  lookup_miss lines = rw (entry, apart) refl

  -- Behind the first entry replace leaves none for the key.
  replace_loop-others :
      (first : List ℕ) (lines : List Line)
      → lookup_loop key other (some first) (replace_loop key fresh true lines)
        ≡ (changed, some first)
  replace_loop-others first [] = unfold replace_loop lookup_loop in refl
  replace_loop-others first (line ∷ lines) = elim (Bool-cases (is_for key line)) [
    | inl match ↦ rw (replaced key fresh line true lines match) (replace_loop-others first lines)
    | inr unmatched ↦ rw (left_alone key fresh line true lines unmatched) (
        lookup_skip key other line (replace_loop key fresh true lines) (some first) unmatched
        ∙ replace_loop-others first lines)
  ]

  replace_loop-changed :
      (lines : List Line)
      → lookup_loop key other none (replace_loop key fresh false lines)
        ≡ (changed, some fresh.fingerprint)
  replace_loop-changed [] = unfold replace_loop in lookup_miss [] ∙ (unfold lookup_loop in refl)
  replace_loop-changed (line ∷ lines) = elim (Bool-cases (is_for key line)) [
    | inl match ↦ rw (replaced key fresh line false lines match) (
        lookup_miss (replace_loop key fresh true lines)
        ∙ replace_loop-others fresh.fingerprint lines)
    | inr unmatched ↦ rw (left_alone key fresh line false lines unmatched) (
        lookup_skip key other line (replace_loop key fresh false lines) none unmatched
        ∙ replace_loop-changed lines)
  ]

  appended-changed :
      (lines : List Line)
      → any_for key lines ≡ false
      → lookup_loop key other none (lines ++ fresh ∷ []) ≡ (changed, some fresh.fingerprint)
  appended-changed [] e = lookup_miss [] ∙ (unfold lookup_loop in refl)
  appended-changed (line ∷ lines) e =
      let (skipped, rest) = any_for_head key line lines e in
      lookup_skip key other line (lines ++ fresh ∷ []) none skipped ∙ appended-changed lines rest

module _ (lines : List Line) (host : List ℕ) (port : ℕ) (fingerprint : List ℕ) where
  pub lookup-replace_same :
      lookup (replace lines host port fingerprint) host port fingerprint ≡ (known, some fingerprint)
  unfolding lookup replace
  lookup-replace_same =
      replace_loop-known (broker_key host port) (fresh_line (broker_key host port) fingerprint)
        (fresh_line-is_for (broker_key host port) fingerprint) lines none

  pub lookup-replace_changed :
      (other : List ℕ)
      → fingerprint ≢ other
      → lookup (replace lines host port fingerprint) host port other ≡ (changed, some fingerprint)
  unfolding lookup replace
  lookup-replace_changed other apart =
      replace_loop-changed (broker_key host port) other
        (fresh_line (broker_key host port) fingerprint)
        (fresh_line-is_for (broker_key host port) fingerprint)
        (same_text-ne fingerprint other apart) lines

  pub add-fresh :
      has_entry lines host port ≡ false
      → add lines host port fingerprint
        ≡ (lines ++ fresh_line (broker_key host port) fingerprint ∷ [], true)
  unfolding add
  add-fresh e = rw e refl

  pub lookup-add_same :
      has_entry lines host port ≡ false
      → lookup (lines ++ fresh_line (broker_key host port) fingerprint ∷ []) host port fingerprint
        ≡ (known, some fingerprint)
  unfolding lookup has_entry
  lookup-add_same e =
      appended-known (broker_key host port) (fresh_line (broker_key host port) fingerprint)
        (fresh_line-is_for (broker_key host port) fingerprint) lines none e

  pub lookup-add_changed :
      (other : List ℕ)
      → fingerprint ≢ other
      → has_entry lines host port ≡ false
      → lookup (lines ++ fresh_line (broker_key host port) fingerprint ∷ []) host port other
        ≡ (changed, some fingerprint)
  unfolding lookup has_entry
  lookup-add_changed other apart e =
      appended-changed (broker_key host port) other (fresh_line (broker_key host port) fingerprint)
        (fresh_line-is_for (broker_key host port) fingerprint)
        (same_text-ne fingerprint other apart) lines e
