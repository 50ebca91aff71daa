-- ===== src/Weather/Records.antt =====
-- services/weatherlink-kafka/service/conditions.go (fetchCurrentConditions), the part of
-- service/backfill.go that publishes (processHistoricDataAsync), and GetTopicForCategory of
-- util/topic.go. A data point comes with what json.Unmarshal makes of it: whether it parses, and
-- the int64 of its "ts", 0 if it has none.
use roach.Base.{
  ℕ, suc, Bool, not, List, [], ◌∷◌, ◌++◌, none, some, if◌then◌else◌, Text, text_beq, text_eq,
  nat_eq,
}
use roach.Base.Assoc.{lookup, contains}
use roach.Base.Strings.{codes, format_int, to_upper}

pub record DataPoint : Type 0 where
  pub body : Text
  pub parses : Bool
  pub ts : ℕ

pub record SensorReading : Type 0 where
  pub lsid : ℕ
  pub sensor_type : ℕ
  pub data_structure_type : ℕ
  pub points : List DataPoint

pub record Message : Type 0 where
  pub topic : Text
  pub key : Text
  pub value : Text
  pub headers : List (Text × Text)

-- What the service keeps: the category of each sensor it knows, the keys known to be in Kafka, and,
-- to speak of them, the messages published, the last one first, and the attempts made.
pub record Service : Type 0 where
  pub categories : List (ℕ × Text)
  pub existing_record_keys : List Text
  pub published : List Message
  pub attempts : ℕ

-- The counters of one call.
pub record Counts : Type 0 where
  pub messages_published : ℕ
  pub messages_skipped : ℕ

-- GetTopicForCategory
unfoldable pub get_topic_for_category : Text → Text
get_topic_for_category category =
    let c = to_upper category in
    if text_beq c (codes "ISS")
    then codes "weather.iss"
    else if text_beq c (codes "BAROMETER")
    then codes "weather.barometer"
    else if text_beq c (codes "INSIDE TEMP/HUM")
    then codes "weather.indoor"
    else if text_beq c (codes "HEALTH")
    then codes "weather.health"
    else codes "weather.other"

unfoldable pub record_key : ℕ → ℕ → Text
record_key lsid timestamp = format_int lsid ++ b':' ∷ format_int timestamp

abbrev pub message_of : SensorReading → Text → DataPoint → Message
message_of r topic p = record {
  topic = topic;
  key = record_key r.lsid p.ts;
  value = p.body;
  headers =
      (codes "schema_version", codes "1")
      ∷ (codes "lsid", format_int r.lsid)
      ∷ (codes "timestamp", format_int p.ts)
      ∷ (codes "sensor_type", format_int r.sensor_type)
      ∷ (codes "data_structure_type", format_int r.data_structure_type)
      ∷ [];
}

-- Publish, and what is kept of it: by the number of the attempt it fails or not.
unfoldable pub publish : (ℕ → Bool) → Message → Service × Counts → Service × Counts
publish fails m (s, c) = if fails s.attempts then (record s { attempts = suc s.attempts }, c) else (
  record s {
    attempts = suc s.attempts;
    published = m ∷ s.published;
    existing_record_keys = m.key ∷ s.existing_record_keys;
  },
  record c { messages_published = suc c.messages_published },
)

abbrev pub skip : Service × Counts → Service × Counts
skip (s, c) = (s, record c { messages_skipped = suc c.messages_skipped })

-- One data point of processHistoricDataAsync.
unfoldable pub historic_point :
    (ℕ → Bool) → SensorReading → Text → DataPoint → Service × Counts → Service × Counts
historic_point fails r topic p s =
    if not p.parses
    then s
    else if contains (record_key r.lsid p.ts) s.0.existing_record_keys
    then skip s
    else publish fails (message_of r topic p) s

unfoldable pub historic_points :
    (ℕ → Bool) → SensorReading → Text → List DataPoint → Service × Counts → Service × Counts
historic_points fails r topic [] s = s
historic_points fails r topic (p ∷ ps) s =
    historic_points fails r topic ps (historic_point fails r topic p s)

unfoldable pub historic_sensors :
    (ℕ → Bool) → List SensorReading → Service × Counts → Service × Counts
historic_sensors fails [] s = s
historic_sensors fails (r ∷ rs) s = historic_sensors fails rs (elim (lookup r.lsid s.0.categories) [
  | none ↦ s
  | some category ↦ historic_points fails r (get_topic_for_category category) r.points s
])

abbrev pub no_counts : Counts
no_counts = record { messages_published = 0; messages_skipped = 0 }

-- processHistoricDataAsync
unfoldable pub process_historic_data : (ℕ → Bool) → List SensorReading → Service → Service × Counts
process_historic_data fails rs s = historic_sensors fails rs (s, no_counts)

-- One data point of fetchCurrentConditions, which also keeps the keys that it has seen.
unfoldable pub current_point :
    (ℕ → Bool)
    → SensorReading
    → Text
    → DataPoint
    → List Text × Service × Counts
    → List Text × Service × Counts
current_point fails r topic p (seen, s, c) =
    let key = record_key r.lsid p.ts in
    let (skipped, counted) = skip (s, c) in
    let (s', c') = publish fails (message_of r topic p) (s, c) in
    if not p.parses
    then (seen, s, c)
    else if contains key seen
    then (seen, skipped, counted)
    else if contains key s.existing_record_keys
    then (seen, skipped, counted)
    else (key ∷ seen, s', c')

unfoldable pub current_points :
    (ℕ → Bool)
    → SensorReading
    → Text
    → List DataPoint
    → List Text × Service × Counts
    → List Text × Service × Counts
current_points fails r topic [] s = s
current_points fails r topic (p ∷ ps) s =
    current_points fails r topic ps (current_point fails r topic p s)

unfoldable pub current_sensors :
    (ℕ → Bool) → List SensorReading → List Text × Service × Counts → List Text × Service × Counts
current_sensors fails [] s = s
current_sensors fails (r ∷ rs) s = current_sensors fails rs (elim (lookup r.lsid s.1.categories) [
  | none ↦ s
  | some category ↦ current_points fails r (get_topic_for_category category) r.points s
])

-- fetchCurrentConditions, once the API has answered.
unfoldable pub fetch_current_conditions :
    (ℕ → Bool) → List SensorReading → Service → Service × Counts
fetch_current_conditions fails rs s =
    let (seen, s', c) = current_sensors fails rs ([], s, no_counts) in (s', c)
