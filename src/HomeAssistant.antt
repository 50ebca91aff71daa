-- ===== src/HomeAssistant.antt =====
-- services/homeassistant-kafka/service/service.go: which states of Home Assistant are published, and
-- where. An attribute is a string or something else; the time an event fired comes as time.Parse
-- reads it, none where it is empty or does not parse. `now` is in Unix seconds.
pub mod Polling
pub mod News
pub mod Topics
use roach.Base.{
  ℕ, Bool, true, false, ◌||◌, ◌&&◌, not, List, [], ◌∷◌, ◌++◌, Option, none, some, if◌then◌else◌,
  Text, text_beq, text_eq,
}
use roach.Base.Assoc.{lookup, insert, contains}
use roach.Base.Strings.{codes, contains_text, to_lower, format_int, split_at, cut_suffix}

pub data Attribute : Type 0 where
  string : Text → Attribute
  other : Attribute

pub record HaState : Type 0 where
  pub entity_id : Text
  pub state : Text
  pub attributes : List (Text × Attribute)
  pub last_changed : Text
  pub last_updated : Text

pub record HaEvent : Type 0 where
  pub event_type : Text
  pub entity_id : Text
  pub old_state : Option HaState
  pub new_state : Option HaState
  pub time_fired : Option ℕ

-- EntityFilter of the configuration, and the entities discovered.
pub record Service : Type 0 where
  pub entity_filter : List Text
  pub discovered_entities : List Text

abbrev pub is_empty : {A : Type 0} → List A → Bool
is_empty [] = true
is_empty (x ∷ xs) = false

-- isEcobeeEntity
unfoldable pub is_ecobee_entity : Service → Text → Bool
is_ecobee_entity s entity_id =
    if not (is_empty s.entity_filter)
    then contains entity_id s.entity_filter
    else if not (is_empty s.discovered_entities)
    then contains entity_id s.discovered_entities
    else contains_text (to_lower entity_id) (codes "ecobee")

-- entityDomain: what stands before the first dot.
unfoldable pub entity_domain : Text → Text
entity_domain entity_id = elim (split_at b'.' entity_id) [
  | none ↦ []
  | some (domain, name) ↦ domain
]

-- deviceClass and unitOfMeasurement, by the attribute's name.
unfoldable pub string_attribute : Text → List (Text × Attribute) → Text
string_attribute name attributes = elim (lookup name attributes) [
  | none ↦ []
  | some a ↦ elim a [ string s ↦ to_lower s | other ↦ [] ]
]

abbrev pub device_class : List (Text × Attribute) → Text
device_class = string_attribute (codes "device_class")

abbrev pub unit_of_measurement : List (Text × Attribute) → Text
unit_of_measurement = string_attribute (codes "unit_of_measurement")

-- The degree sign in UTF-8.
abbrev pub degree : Text
degree = 0xC2 ∷ 0xB0 ∷ []

unfoldable pub is_temperature : List (Text × Attribute) → Bool
is_temperature attrs =
    let unit = unit_of_measurement attrs in
    text_beq (device_class attrs) (codes "temperature")
    || (contains_text unit degree
        || (text_beq unit (codes "f")
            || (text_beq unit (codes "c")
                || (text_beq unit (degree ++ codes "f") || text_beq unit (degree ++ codes "c")))))

unfoldable pub is_humidity : List (Text × Attribute) → Bool
is_humidity attrs =
    text_beq (device_class attrs) (codes "humidity")
    || text_beq (unit_of_measurement attrs) (codes "%")

unfoldable pub is_battery : List (Text × Attribute) → Text → Bool
is_battery attrs entity_id =
    text_beq (device_class attrs) (codes "battery")
    || contains_text (to_lower entity_id) (codes "battery")

unfoldable pub is_presence : List (Text × Attribute) → Text → Bool
is_presence attrs entity_id =
    let class = device_class attrs in
    text_beq class (codes "occupancy")
    || (text_beq class (codes "presence")
        || (text_beq class (codes "motion")
            || (contains_text (to_lower entity_id) (codes "occupancy")
                || contains_text (to_lower entity_id) (codes "presence"))))

-- topicForEvent, which never gives the empty topic.
unfoldable pub topic_for_event : Text → HaState → Text
topic_for_event entity_id state =
    let domain = entity_domain entity_id in
    let attrs = state.attributes in
    if text_beq domain (codes "climate")
    then codes "homeassistant.ecobee.thermostat.climate"
    else if text_beq domain (codes "weather")
    then codes "homeassistant.ecobee.weather"
    else if text_beq domain (codes "sensor")
    then (if is_battery attrs entity_id
        then codes "homeassistant.ecobee.sensor.battery"
        else if is_temperature attrs
        then codes "homeassistant.ecobee.sensor.temperature"
        else if is_humidity attrs
        then codes "homeassistant.ecobee.sensor.humidity"
        else codes "homeassistant.ecobee.other")
    else if text_beq domain (codes "binary_sensor") && is_presence attrs entity_id
    then codes "homeassistant.ecobee.sensor.presence"
    else codes "homeassistant.ecobee.other"

abbrev pub suffixes : List (Text × Text)
suffixes =
    (codes "homeassistant.ecobee.sensor.temperature", codes "_temperature")
    ∷ (codes "homeassistant.ecobee.sensor.humidity", codes "_humidity")
    ∷ (codes "homeassistant.ecobee.sensor.presence", codes "_occupancy")
    ∷ (codes "homeassistant.ecobee.sensor.battery", codes "_battery")
    ∷ []

-- strings.TrimSuffix
abbrev pub trim_suffix : Text → Text → Text
trim_suffix s suffix = elim (cut_suffix s suffix) [ none ↦ s | some before ↦ before ]

-- entityKey
unfoldable pub entity_key : Text → Text → Text
entity_key entity_id topic =
    let name = elim (split_at b'.' entity_id) as (λ _. Text) [
      | none ↦ entity_id
      | some (domain, name) ↦ name
    ] in
    elim (lookup topic suffixes) [ none ↦ name | some suffix ↦ trim_suffix name suffix ]

pub record Message : Type 0 where
  pub topic : Text
  pub key : Text
  pub headers : List (Text × Text)
  pub value : HaEvent

abbrev pub message_of : ℕ → HaEvent → Text → HaState → Message
message_of now event entity_id state =
    let topic = topic_for_event entity_id state in
    let timestamp = format_int (elim event.time_fired as (λ _. ℕ) [ none ↦ now | some t ↦ t ]) in
    record {
      topic = topic;
      key = entity_key entity_id topic ++ b':' ∷ timestamp;
      headers =
          (codes "schema_version", codes "1")
          ∷ (codes "entity_id", entity_id)
          ∷ (codes "domain", entity_domain entity_id)
          ∷ (codes "timestamp", timestamp)
          ∷ (codes "source", codes "homeassistant")
          ∷ (codes "event_type", event.event_type)
          ∷ [];
      value = event;
    }

-- The entity that an event is about.
abbrev pub entity_of : HaEvent → Text
entity_of event =
    if is_empty event.entity_id
    then elim event.new_state as (λ _. Text) [ none ↦ [] | some s ↦ s.entity_id ]
    else event.entity_id

-- handleEvent: what is handed to Publish, if anything.
unfoldable pub handle_event : Service → ℕ → HaEvent → Option Message
handle_event s now event =
    let entity_id = entity_of event in
    if is_empty entity_id || not (is_ecobee_entity s entity_id)
    then none
    else elim event.new_state [
      | none ↦ none
      | some state ↦ some (message_of now event entity_id state)
    ]

-- stateChanged
unfoldable pub state_changed : HaState → HaState → Bool
state_changed old new =
    not (text_beq old.state new.state)
    || (not (text_beq old.last_changed new.last_changed)
        || not (text_beq old.last_updated new.last_updated))

-- What an earlier answer has of an entity; there is no earlier answer at first.
abbrev pub previous_state : Option (List (Text × HaState)) → Text → Option HaState
previous_state none entity_id = none
previous_state (some states) entity_id = lookup entity_id states

abbrev pub polled_event : ℕ → Text → Option HaState → HaState → HaEvent
polled_event now entity_id old state = record {
  event_type = codes "state_changed";
  entity_id = entity_id;
  old_state = old;
  new_state = some state;
  time_fired = some now;
}

abbrev pub is_news : Option HaState → HaState → Bool
is_news none state = true
is_news (some old) state = state_changed old state

abbrev pub and_then : Option Message → List Message → List Message
and_then none ms = ms
and_then (some m) ms = m ∷ ms

-- emitStateChanges: the messages that are handed to Publish.
unfoldable pub emit_state_changes :
    Service → ℕ → Option (List (Text × HaState)) → List (Text × HaState) → List Message
emit_state_changes s now previous [] = []
emit_state_changes s now previous ((entity_id, state) ∷ current) =
    let rest = emit_state_changes s now previous current in
    let old = previous_state previous entity_id in
    if is_ecobee_entity s entity_id && is_news old state
    then and_then (handle_event s now (polled_event now entity_id old state)) rest
    else rest

-- The map of an answer by entity; of two states of one entity the later stays.
unfoldable pub by_entity : List HaState → List (Text × HaState) → List (Text × HaState)
by_entity [] m = m
by_entity (state ∷ states) m = by_entity states (insert state.entity_id state m)

-- One round of pollLoop, where FetchStates answers, or fails with none.
unfoldable pub poll :
    Service
    → ℕ
    → Option (List HaState)
    → Option (List (Text × HaState))
    → Option (List (Text × HaState)) × List Message
poll s now none previous = (previous, [])
poll s now (some states) previous =
    let current = by_entity states [] in (some current, emit_state_changes s now previous current)
