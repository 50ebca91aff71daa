-- ===== src/HomeAssistant/Topics.antt =====
-- services/homeassistant-kafka/service/service.go: topicForEvent and entityKey.
use roach.Base.{
  ℕ, ◌≡◌, refl, ap, false, ==_iff, [], ◌∷◌, ◌++◌, some, Text, text_beq, text_beq_iff, text_eq,
  nat_eq, arith, Bool-cases, inl, inr, length, length-append,
}
use roach.Base.Assoc.{lookup, contains}
use roach.Base.Strings.{split_at, cut_suffix}
use roach.HomeAssistant.{suffixes, trim_suffix, entity_key, entity_domain}

split_at-append :
    (b : ℕ) (s t : Text) → contains b s ≡ false → split_at b (s ++ b ∷ t) ≡ some (s, t)
unfolding split_at
split_at-append b [] t h = ground (arith, ==_iff b b)
split_at-append b (c ∷ s) t h =
    rw (split_at-append b s t (ground arith)) (ground (arith, ==_iff c b))

not_itself : (c : ℕ) (s t : Text) → text_beq (c ∷ s ++ t) t ≡ false
not_itself c s t = elim (Bool-cases (text_beq (c ∷ s ++ t) t)) [
  | inr h ↦ h
  | inl h ↦
      let same : c ∷ s ++ t ≡ t = ground (arith, text_beq_iff (c ∷ s ++ t) t) in
      absurd (omega (arith, ap (length {A = ℕ}) same, length-append s t))
]

cut_suffix_itself : (t : Text) → cut_suffix t t ≡ some []
unfolding cut_suffix
cut_suffix_itself [] = refl
cut_suffix_itself (c ∷ t) = ground (arith, text_beq_iff (c ∷ t) (c ∷ t))

cut_suffix-append : (s t : Text) → cut_suffix (s ++ t) t ≡ some s
unfolding cut_suffix
cut_suffix-append [] t = cut_suffix_itself t
cut_suffix-append (c ∷ s) t = rw (not_itself c s t, cut_suffix-append s t) refl

-- entityKey takes off the domain, and the suffix that goes with the topic: of an entity whose
-- domain has no dot, named by a name and that suffix, the key on that topic is the name.
pub entity_key-append :
    (domain name suffix topic : Text)
    → contains b'.' domain ≡ false
    → lookup topic suffixes ≡ some suffix
    → (entity_domain (domain ++ b'.' ∷ (name ++ suffix)) ≡ domain)
      × (entity_key (domain ++ b'.' ∷ (name ++ suffix)) topic ≡ name)
unfolding entity_key entity_domain
entity_key-append domain name suffix topic h k =
    let parts = split_at-append b'.' domain (name ++ suffix) h in
    let trimmed : trim_suffix (name ++ suffix) suffix ≡ name =
      ground (arith, cut_suffix-append name suffix) in
    (rw (parts, entity_domain) refl, rw (k, entity_key, parts) trimmed)
