-- ===== src/Session/Generation.antt =====
-- session.cpp: observe_generation over a history of acknowledgements and barriers.
use de_be_os_rdp.Prelude.{
  ℕ, ◌<◌, ◌≡◌, ◌≢◌, ◌↔◌, ◌⊎◌, inl, inr, refl, List, [], ◌∷◌, Bool, true, false, not, ◌&&◌,
  Bool-cases, ltb, ◌==◌, if◌then◌else◌, arith, sym, ◌∙◌, ap,
}
use de_be_os_rdp.Session.{Desk, observe_generation}

-- One after the other, a session id with its generation.
unfoldable pub observe_all : {P S K : Type 0} → Desk P S K → List (ℕ × ℕ) → Desk P S K
unfolding observe_generation
observe_all d [] = d
observe_all d (o ∷ observed) = observe_all (observe_generation d o.0 o.1) observed

-- Somewhere the same session, which has an id other than 0, shows up with a higher generation than
-- just before.
pub data Reconnects : ℕ → ℕ → List (ℕ × ℕ) → Type 0 where
  here :
      {session_id before after : ℕ} {observed : List (ℕ × ℕ)}
      → session_id ≢ 0
      → before < after
      → Reconnects session_id before ((session_id, after) ∷ observed)
  later :
      {session_id generation : ℕ} {o : ℕ × ℕ} {observed : List (ℕ × ℕ)}
      → Reconnects o.0 o.1 observed
      → Reconnects session_id generation (o ∷ observed)

abbrev raises : ℕ → ℕ → ℕ × ℕ → Bool
raises session_id generation o = not (session_id == 0) && (o.0 == session_id && ltb generation o.1)

raises-true : (i g j h : ℕ) → raises i g (j, h) ≡ true → (i ≢ 0) × (j ≡ i) × (g < h)
raises-true i g j h e = (λ z. ground arith, ground arith, ground arith)

true-raises : (i g h : ℕ) → i ≢ 0 → g < h → raises i g (i, h) ≡ true
true-raises i g h n l = ground arith

-- The flag by itself.
flag_all : ℕ → ℕ → Bool → List (ℕ × ℕ) → Bool
flag_all i g changed [] = changed
flag_all i g changed (o ∷ observed) =
    flag_all o.0 o.1 (if raises i g o then true else changed) observed

flag_all-set : (i g : ℕ) (observed : List (ℕ × ℕ)) → flag_all i g true observed ≡ true
unfolding flag_all
flag_all-set i g [] = refl
flag_all-set i g (o ∷ observed) = elim (Bool-cases (raises i g o)) [
  | inl e ↦ rw e (flag_all-set o.0 o.1 observed)
  | inr e ↦ rw e (flag_all-set o.0 o.1 observed)
]

flag_all-Reconnects :
    (i g : ℕ) (changed : Bool) (observed : List (ℕ × ℕ))
    → flag_all i g changed observed ≡ true
    → (changed ≡ true) ⊎ Reconnects i g observed
unfolding flag_all
flag_all-Reconnects i g changed [] h = inl h
flag_all-Reconnects i g true (o ∷ observed) h = inl refl
flag_all-Reconnects i g false ((j, k) ∷ observed) h = elim (Bool-cases (raises i g (j, k))) [
  | inl e ↦ let (set, same, higher) = raises-true i g j k e in inr (rw same (here set higher))
  | inr e ↦ elim (flag_all-Reconnects j k false observed (rw e at h)) [
    | inl no_flag ↦ absurd (cc)
    | inr r ↦ inr (later r)
  ]
]

Reconnects-flag_all :
    (i g : ℕ) (changed : Bool) (observed : List (ℕ × ℕ))
    → Reconnects i g observed
    → flag_all i g changed observed ≡ true
unfolding flag_all
Reconnects-flag_all i g changed [] r = elim r [ ]
Reconnects-flag_all i g changed (o ∷ observed) (here {after = h} set higher) =
    rw (true-raises i g h set higher) (flag_all-set i h observed)
Reconnects-flag_all i g changed (o ∷ observed) (later r) =
    Reconnects-flag_all o.0 o.1 (if raises i g o then true else changed) observed r

module _ {P S K : Type 0} where
  observe_all-flag :
      (d : Desk P S K) (observed : List (ℕ × ℕ))
      → (observe_all d observed).generation_changed
        ≡ flag_all d.session_id d.generation d.generation_changed observed
  unfolding observe_all flag_all
  observe_all-flag d [] = refl
  observe_all-flag d (o ∷ observed) = observe_all-flag (observe_generation d o.0 o.1) observed

  -- Over a history of acknowledgements and barriers, the flag for a changed generation is set
  -- exactly when it was set before or some observation raised the generation of the session with
  -- the same id, not 0, that was observed just before it.
  pub observe_all_iff :
      (d : Desk P S K) (observed : List (ℕ × ℕ))
      → ((observe_all d observed).generation_changed ≡ true)
        ↔ ((d.generation_changed ≡ true) ⊎ Reconnects d.session_id d.generation observed)
  observe_all_iff d observed = (
    λ e.
        flag_all-Reconnects d.session_id d.generation d.generation_changed observed
          (sym (observe_all-flag d observed) ∙ e),
    λ h. elim h [
      | inl e ↦
          observe_all-flag d observed
          ∙ ap (λ c. flag_all d.session_id d.generation c observed) e
          ∙ flag_all-set d.session_id d.generation observed
      | inr r ↦
          observe_all-flag d observed
          ∙ Reconnects-flag_all d.session_id d.generation d.generation_changed observed r
    ],
  )
