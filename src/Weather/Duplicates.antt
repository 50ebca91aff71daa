-- ===== src/Weather/Duplicates.antt =====
-- services/weatherlink-kafka/service: no record is published twice.
use roach.Base.{
  ℕ, ◌≡◌, Bool, true, false, List, [], ◌∷◌, Text, text_beq, text_beq_iff, text_eq, nat_eq, arith,
  Bool-cases, inl, inr, All,
}
use roach.Base.Assoc.{contains}
use roach.Weather.Records.{
  SensorReading, Message, Service, process_historic_data, fetch_current_conditions,
}

abbrev pub keys_of : List Message → List Text
keys_of [] = []
keys_of (m ∷ ms) = m.key ∷ keys_of ms

abbrev pub NoRepeats : List Text → Type 0
NoRepeats [] = Unit
NoRepeats (k ∷ ks) = (contains k ks ≡ false) × NoRepeats ks

-- No key is published twice, and the service knows the keys that it has published.
pub record IsDeduplicated (s : Service) : Type 0 where
  pub no_repeats : NoRepeats (keys_of s.published)
  pub known : All (λ k. contains k s.existing_record_keys ≡ true) (keys_of s.published)

pub contains-All :
    (k : Text) (ks known : List Text)
    → All (λ j. contains j known ≡ true) ks
    → contains k ks ≡ true
    → contains k known ≡ true
contains-All k [] known a h = absurd (ground arith)
contains-All k (j ∷ ks) known a h = elim (Bool-cases (text_beq j k)) [
  | inl b ↦ ground (arith, a.0, text_beq_iff j k)
  | inr b ↦ contains-All k ks known a.1 (ground arith)
]

pub All-more :
    (k : Text) (ks known : List Text)
    → All (λ j. contains j known ≡ true) ks
    → All (λ j. contains j (k ∷ known) ≡ true) ks
All-more k [] known a = tt
All-more k (j ∷ ks) known a = (ground (arith, a.0), All-more k ks known a.1)

-- The answers that the service publishes, current and historic, one after the other.
pub data Fetch : Type 0 where
  current : List SensorReading → Fetch
  historic : List SensorReading → Fetch

unfoldable pub publish_all : (ℕ → Bool) → List Fetch → Service → Service
publish_all fails [] s = s
publish_all fails (current rs ∷ fs) s = publish_all fails fs (fetch_current_conditions fails rs s).0
publish_all fails (historic rs ∷ fs) s = publish_all fails fs (process_historic_data fails rs s).0
