-- ===== src/HomeAssistant/News.antt =====
-- services/homeassistant-kafka/service/service.go: isEcobeeEntity and stateChanged, as propositions.
use roach.Base.{
  ◌≡◌, ◌≢◌, ◌⊎◌, refl, Bool, true, false, ◌||◌, not, List, [], ◌∷◌, Option, none, some, Text,
  text_beq, text_beq_iff, text_eq, arith, Bool-cases, inl, inr, if◌then◌else◌,
}
use roach.Base.Assoc.{contains}
use roach.Base.Strings.{codes, contains_text, to_lower}
use roach.HomeAssistant.{HaState, Service, is_ecobee_entity, is_empty, is_news, state_changed}

abbrev pub IsListed : Text → List Text → Type 0
IsListed k [] = ⊥
IsListed k (x ∷ xs) = (x ≡ k) ⊎ IsListed k xs

contains-IsListed :
    (k : Text) (xs : List Text)
    → (contains k xs ≡ true → IsListed k xs) × (IsListed k xs → contains k xs ≡ true)
contains-IsListed k [] = (λ e. absurd (ground arith), λ h. absurd h)
contains-IsListed k (x ∷ xs) =
    let (to, from) = contains-IsListed k xs in
    (
      λ e. elim (Bool-cases (text_beq x k)) [
        | inl same ↦ inl ((text_beq_iff x k).0 same)
        | inr differs ↦ inr (to (ground (arith, differs, e)))
      ],
      λ h. elim h [
        | inl same ↦ rw ((text_beq_iff x k).1 same) refl
        | inr further ↦ ground (arith, from further)
      ],
    )

-- An entity of the filter, where there is one; else one that was discovered, where there is any; else
-- one with `ecobee` in its id.
abbrev pub IsEcobee : List Text → List Text → Text → Type 0
IsEcobee (f ∷ filter) discovered k = IsListed k (f ∷ filter)
IsEcobee [] (d ∷ discovered) k = IsListed k (d ∷ discovered)
IsEcobee [] [] k = contains_text (to_lower k) (codes "ecobee") ≡ true

-- The entity was not there, or one of the three texts is another.
abbrev pub IsNews : Option HaState → HaState → Type 0
IsNews none new = Unit
IsNews (some old) new =
    (old.state ≢ new.state)
    ⊎ ((old.last_changed ≢ new.last_changed) ⊎ (old.last_updated ≢ new.last_updated))

pub is_ecobee_entity-IsEcobee :
    (s : Service) (k : Text)
    → (is_ecobee_entity s k ≡ true → IsEcobee s.entity_filter s.discovered_entities k)
      × (IsEcobee s.entity_filter s.discovered_entities k → is_ecobee_entity s k ≡ true)
unfolding is_ecobee_entity
is_ecobee_entity-IsEcobee s k = by_lists s.entity_filter s.discovered_entities
  where
    by_lists :
        (filter discovered : List Text)
        → let found : Bool =
            if not (is_empty filter)
            then contains k filter
            else if not (is_empty discovered)
            then contains k discovered
            else contains_text (to_lower k) (codes "ecobee") in
          (found ≡ true → IsEcobee filter discovered k)
          × (IsEcobee filter discovered k → found ≡ true)
    by_lists (f ∷ filter) discovered = contains-IsListed k (f ∷ filter)
    by_lists [] (d ∷ discovered) = contains-IsListed k (d ∷ discovered)
    by_lists [] [] = (λ e. e, λ e. e)

differs_iff :
    (a b : Text) → (not (text_beq a b) ≡ true → a ≢ b) × (a ≢ b → not (text_beq a b) ≡ true)
differs_iff a b = (
  λ e same. absurd (ground (arith, e, (text_beq_iff a b).1 same)),
  λ h. elim (Bool-cases (text_beq a b)) [
    | inl same ↦ absurd (h ((text_beq_iff a b).0 same))
    | inr differs ↦ rw differs refl
  ],
)

or_iff :
    (a b : Bool) (A B : Type 0)
    → (a ≡ true → A) × (A → a ≡ true)
    → (b ≡ true → B) × (B → b ≡ true)
    → ((a || b) ≡ true → A ⊎ B) × (A ⊎ B → (a || b) ≡ true)
or_iff true b A B (to, from) (to', from') = (λ e. inl (to refl), λ h. refl)
or_iff false b A B (to, from) (to', from') =
    (λ e. inr (to' e), λ h. elim h [ inl x ↦ absurd (ground (arith, from x)) | inr y ↦ from' y ])

pub is_news-IsNews :
    (old : Option HaState) (new : HaState)
    → (is_news old new ≡ true → IsNews old new) × (IsNews old new → is_news old new ≡ true)
unfolding state_changed
is_news-IsNews none new = (λ e. tt, λ h. refl)
is_news-IsNews (some old) new =
    or_iff (not (text_beq old.state new.state))
      (not (text_beq old.last_changed new.last_changed)
        || not (text_beq old.last_updated new.last_updated))
      (old.state ≢ new.state)
      ((old.last_changed ≢ new.last_changed) ⊎ (old.last_updated ≢ new.last_updated))
      (differs_iff old.state new.state)
      (or_iff (not (text_beq old.last_changed new.last_changed))
        (not (text_beq old.last_updated new.last_updated)) (old.last_changed ≢ new.last_changed)
        (old.last_updated ≢ new.last_updated) (differs_iff old.last_changed new.last_changed)
        (differs_iff old.last_updated new.last_updated))
