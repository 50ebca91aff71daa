-- ===== src/Weather/Complete.antt =====
-- services/weatherlink-kafka/service/backfill.go: processHistoricDataAsync leaves no record out.
use roach.Base.{
  ℕ, ◌≡◌, refl, sym, subst, ◌∙◌, Bool, true, false, ◌||◌, not, List, [], ◌∷◌, none, some, Text,
  text_beq_iff, text_eq, nat_eq, arith, Option-cases, inl, inr, All,
}
use roach.Base.Assoc.{lookup, contains}
use roach.Weather.Records.{
  DataPoint, SensorReading, Service, Counts, get_topic_for_category, record_key, publish,
  historic_point, historic_points, historic_sensors, no_counts, process_historic_data,
}

-- Keys that are known stay known, and the sensors are the same.
record Grows (s t : Service) : Type 0 where
  categories : t.categories ≡ s.categories
  keys :
      (k : Text)
      → contains k s.existing_record_keys ≡ true
      → contains k t.existing_record_keys ≡ true

Grows-refl : (s : Service) → Grows s s
Grows-refl s = record { categories = refl; keys = λ k h. h }

Grows-trans : (s t u : Service) → Grows s t → Grows t u → Grows s u
Grows-trans s t u g h = record {
  categories = h.categories ∙ g.categories;
  keys = λ k e. h.keys k (g.keys k e);
}

historic_point-Grows :
    (fails : ℕ → Bool) (r : SensorReading) (topic : Text) (p : DataPoint) (s : Service × Counts)
    → Grows s.0 (historic_point fails r topic p s).0
unfolding historic_point publish
historic_point-Grows fails r topic p (s, c) = record {
  categories = ground arith;
  keys = λ k h. ground arith;
}

historic_points-Grows :
    (fails : ℕ → Bool) (r : SensorReading) (topic : Text) (ps : List DataPoint)
    (s : Service × Counts)
    → Grows s.0 (historic_points fails r topic ps s).0
unfolding historic_points
historic_points-Grows fails r topic [] s = Grows-refl s.0
historic_points-Grows fails r topic (p ∷ ps) s =
    let t = historic_point fails r topic p s in
    Grows-trans s.0 t.0 _ (historic_point-Grows fails r topic p s)
      (historic_points-Grows fails r topic ps t)

historic_sensors-Grows :
    (fails : ℕ → Bool) (rs : List SensorReading) (s : Service × Counts)
    → Grows s.0 (historic_sensors fails rs s).0
unfolding historic_sensors
historic_sensors-Grows fails [] s = Grows-refl s.0
historic_sensors-Grows fails (r ∷ rs) (s, c) = elim (Option-cases (lookup r.lsid s.categories)) [
  | inl h ↦ rw (h, historic_sensors) (historic_sensors-Grows fails rs (s, c))
  | inr (category, h) ↦
      let t = historic_points fails r (get_topic_for_category category) r.points (s, c) in
      rw (h, historic_sensors)
        (Grows-trans s t.0 (historic_sensors fails rs t).0
          (historic_points-Grows fails r (get_topic_for_category category) r.points (s, c))
          (historic_sensors-Grows fails rs t))
]

-- A point that parses has its key known.
abbrev pub IsKnown : Service → SensorReading → DataPoint → Type 0
IsKnown s r p = (not p.parses || contains (record_key r.lsid p.ts) s.existing_record_keys) ≡ true

historic_point-IsKnown :
    (fails : ℕ → Bool) (r : SensorReading) (topic : Text) (p : DataPoint) (s : Service × Counts)
    → ((n : ℕ) → fails n ≡ false)
    → IsKnown (historic_point fails r topic p s).0 r p
unfolding historic_point publish
historic_point-IsKnown fails r topic p (s, c) f =
    ground (arith, f s.attempts, text_beq_iff (record_key r.lsid p.ts) (record_key r.lsid p.ts))

All-Grows :
    (r : SensorReading) (ps : List DataPoint) (s t : Service)
    → Grows s t
    → All (IsKnown s r) ps
    → All (IsKnown t r) ps
All-Grows r [] s t g a = tt
All-Grows r (p ∷ ps) s t g a =
    (ground (arith, g.keys (record_key r.lsid p.ts)), All-Grows r ps s t g a.1)

historic_points-IsKnown :
    (fails : ℕ → Bool) (r : SensorReading) (topic : Text) (ps : List DataPoint)
    (s : Service × Counts)
    → ((n : ℕ) → fails n ≡ false)
    → All (IsKnown (historic_points fails r topic ps s).0 r) ps
unfolding historic_points
historic_points-IsKnown fails r topic [] s f = tt
historic_points-IsKnown fails r topic (p ∷ ps) s f =
    let t = historic_point fails r topic p s in
    (
      ground (
        arith,
        (historic_points-Grows fails r topic ps t).keys (record_key r.lsid p.ts),
        historic_point-IsKnown fails r topic p s f,
      ),
      historic_points-IsKnown fails r topic ps t f,
    )

-- The points of the sensors that the service has metadata of.
abbrev pub AreKnown : List (ℕ × Text) → Service → List SensorReading → Type 0
AreKnown categories s [] = Unit
AreKnown categories s (r ∷ rs) =
    elim (lookup r.lsid categories) [ none ↦ Unit | some category ↦ All (IsKnown s r) r.points ]
    × AreKnown categories s rs

historic_sensors_unknown :
    (fails : ℕ → Bool) (r : SensorReading) (rs : List SensorReading) (s : Service) (c : Counts)
    → lookup r.lsid s.categories ≡ none
    → historic_sensors fails (r ∷ rs) (s, c) ≡ historic_sensors fails rs (s, c)
unfolding historic_sensors
historic_sensors_unknown fails r rs s c h = rw (h, historic_sensors) refl

historic_sensors_known :
    (fails : ℕ → Bool) (r : SensorReading) (rs : List SensorReading) (s : Service) (c : Counts)
    (category : Text)
    → lookup r.lsid s.categories ≡ some category
    → historic_sensors fails (r ∷ rs) (s, c)
      ≡ historic_sensors fails rs
          (historic_points fails r (get_topic_for_category category) r.points (s, c))
unfolding historic_sensors
historic_sensors_known fails r rs s c category h = rw (h, historic_sensors) refl

historic_sensors-AreKnown :
    (fails : ℕ → Bool) (rs : List SensorReading) (s : Service × Counts)
    → ((n : ℕ) → fails n ≡ false)
    → AreKnown s.0.categories (historic_sensors fails rs s).0 rs
historic_sensors-AreKnown fails [] s f = tt
historic_sensors-AreKnown fails (r ∷ rs) (s, c) f =
    elim (Option-cases (lookup r.lsid s.categories)) [
      | inl h ↦
          subst (λ (x : Service × Counts). AreKnown s.categories x.0 (r ∷ rs))
            (sym (historic_sensors_unknown fails r rs s c h))
            (rw h (tt, historic_sensors-AreKnown fails rs (s, c) f))
      | inr (category, h) ↦
          let topic = get_topic_for_category category in
          let t = historic_points fails r topic r.points (s, c) in
          let same = (historic_points-Grows fails r topic r.points (s, c)).categories in
          subst (λ (x : Service × Counts). AreKnown s.categories x.0 (r ∷ rs))
            (sym (historic_sensors_known fails r rs s c category h))
            (rw h (
              All-Grows r r.points t.0 (historic_sensors fails rs t).0
                  (historic_sensors-Grows fails rs t)
                  (historic_points-IsKnown fails r topic r.points (s, c) f),
              subst (λ (cs : List (ℕ × Text)). AreKnown cs (historic_sensors fails rs t).0 rs) same
                  (historic_sensors-AreKnown fails rs t f),
            ))
    ]

-- If no attempt to publish fails, then after processHistoricDataAsync the key of every data point
-- that parses, of a sensor that the service has metadata of, is known: it was published, or known
-- before.
pub process_historic_data-AreKnown :
    (fails : ℕ → Bool) (rs : List SensorReading) (s : Service)
    → ((n : ℕ) → fails n ≡ false)
    → AreKnown s.categories (process_historic_data fails rs s).0 rs
unfolding process_historic_data
process_historic_data-AreKnown fails rs s f = historic_sensors-AreKnown fails rs (s, no_counts) f
