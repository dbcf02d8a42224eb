-- ===== src/Json/Lookup.antt =====
-- json.cpp: the members of an object as a map.
use de_be_os_rdp.Prelude.{
  ℕ, ◌≡◌, refl, some, List, false, Bool-cases, inl, inr, if◌then◌else◌, ◌∙◌, sym,
}
use de_be_os_rdp.KnownBrokers.{same_text}
use de_be_os_rdp.KnownBrokers.Store.{same_text_refl, same_text_eq}
use de_be_os_rdp.Json.{
  Value, Members, no_members, member, find, find_member, set, set_member, Slots, shown,
}

module _ {N : Type 0} where
  find_member-set_member :
      (k : List ℕ) (v : Value N) (other : List ℕ) (ms : Members N)
      → find_member other (set_member k v ms)
        ≡ (if same_text k other then some v else find_member other ms)
  unfolding find_member set_member
  find_member-set_member k v other no_members = refl
  find_member-set_member k v other (member k' w ms) = elim (Bool-cases (same_text k' k)) [
    | inl here ↦
        rw (here, same_text_eq k' k here)
          (elim (Bool-cases (same_text k other)) [ inl e ↦ rw e refl | inr e ↦ rw e refl ])
    | inr e ↦ elim (Bool-cases (same_text k' other)) [
      | inl at_other ↦
          let far : same_text k other ≡ false = elim (Bool-cases (same_text k other)) [
            | inl t ↦
                let q : k' ≡ k = same_text_eq k' other at_other ∙ sym (same_text_eq k other t) in
                absurd (cc (rw q at e, same_text_refl k))
            | inr f ↦ f
          ] in
          rw (e, at_other, far) refl
      | inr past ↦ rw (e, past) (find_member-set_member k v other ms)
    ]
  ]

  -- After `set` the name has the value, and every other name what the object_ field has for it.
  pub find-set :
      (s : Slots N) (key : List ℕ) (v : Value N) (other : List ℕ)
      → find (shown (set s key v)) other
        ≡ (if same_text key other then some v else find_member other s.members)
  unfolding find set
  find-set s key v other = find_member-set_member key v other s.members
