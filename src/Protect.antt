-- ===== src/Protect.antt =====
-- services/unifi-kafka/service/service.go: how an event of UniFi Protect becomes a Kafka message.
-- An event comes as json.Unmarshal reads it. A time is in milliseconds; one that is not above 0 is
-- 0 here. `now` is in Unix seconds.
pub mod Routes
use roach.Base.{
  ℕ, ◌/◌, Bool, true, false, ◌||◌, List, [], ◌∷◌, ◌++◌, Option, none, some, ltb, if◌then◌else◌,
  Text, text_beq, text_eq,
}
use roach.Base.Assoc.{lookup}
use roach.Base.Strings.{codes, contains_text, to_lower, replace_byte, format_int}

pub record ProtectEvent : Type 0 where
  pub id : Text
  pub model_key : Text
  pub type : Text
  pub start : ℕ
  pub end : ℕ
  pub smart_detect_types : List Text
  pub camera : Text
  pub device : Text

pub data EventCategory : Type 0 where
  smart audio motion : EventCategory

abbrev is_one_of : Text → List Text → Bool
is_one_of t [] = false
is_one_of t (u ∷ us) = text_beq t u || is_one_of t us

-- AudioDetectionTypes, VideoDetectionTypes
abbrev pub is_audio : Text → Bool
is_audio dt = is_one_of dt (codes "babyCry" ∷ codes "coAlarm" ∷ codes "smoke" ∷ codes "speak" ∷ [])

abbrev pub is_video : Text → Bool
is_video dt =
    is_one_of dt (codes "person" ∷ codes "vehicle" ∷ codes "animal" ∷ codes "package" ∷ [])

-- The loop of classifyEvent over the smart types.
unfoldable pub classify_types : List Text → Option (EventCategory × Text)
classify_types [] = none
classify_types (dt ∷ dts) =
    if is_audio dt
    then some (audio, dt)
    else if is_video dt
    then some (smart, dt)
    else classify_types dts

abbrev pub is_motion : Text → Bool
is_motion type =
    text_beq (to_lower type) (codes "motion") || contains_text (to_lower type) (codes "motion")

-- classifyEvent: none stands for the empty category.
unfoldable pub classify_event : ProtectEvent → Option (EventCategory × Text)
classify_event e = elim (classify_types e.smart_detect_types) [
  | some c ↦ some c
  | none ↦ if is_motion e.type then some (motion, codes "motion") else none
]

abbrev pub topic_for_category : EventCategory → Text
topic_for_category smart = codes "unifi.protect.smart"
topic_for_category audio = codes "unifi.protect.audio"
topic_for_category motion = codes "unifi.protect.motion"

abbrev pub category_name : EventCategory → Text
category_name smart = codes "smart"
category_name audio = codes "audio"
category_name motion = codes "motion"

-- DeviceID
abbrev pub device_id : ProtectEvent → Text
device_id e = if text_beq e.device [] then e.camera else e.device

-- sanitizeName
unfoldable pub sanitize_name : Text → Text
sanitize_name name = replace_byte b'-' b'_' (replace_byte b' ' b'_' (to_lower name))

-- cameraName, for the names of the cameras by their ids.
unfoldable pub camera_name : List (Text × Text) → Text → Text
camera_name cameras camera_id = elim (lookup camera_id cameras) [
  | some name ↦ sanitize_name name
  | none ↦ camera_id
]

-- eventTimestamp
unfoldable pub event_timestamp : ℕ → ProtectEvent → ℕ
event_timestamp now e =
    if ltb 0 e.start then e.start / 1000 else if ltb 0 e.end then e.end / 1000 else now

pub record KafkaMessage : Type 0 where
  pub topic : Text
  pub key : Text
  pub headers : List (Text × Text)
  pub value : ProtectEvent

abbrev pub message_for : List (Text × Text) → ℕ → ProtectEvent → EventCategory → Text → KafkaMessage
message_for cameras now e category detection_type =
    let name = camera_name cameras (device_id e) in
    let timestamp = format_int (event_timestamp now e) in
    record {
      topic = topic_for_category category;
      key = name ++ b':' ∷ timestamp;
      headers =
          (codes "schema_version", codes "1")
          ∷ (codes "camera_id", device_id e)
          ∷ (codes "camera_name", name)
          ∷ (codes "event_type", category_name category)
          ∷ (codes "detection_type", detection_type)
          ∷ (codes "timestamp", timestamp)
          ∷ (codes "source", codes "unifi-protect")
          ∷ [];
      value = e;
    }

unfoldable pub routed :
    List (Text × Text) → ℕ → ProtectEvent → Option (EventCategory × Text) → Option KafkaMessage
routed cameras now e none = none
routed cameras now e (some (category, detection_type)) =
    some (message_for cameras now e category detection_type)

-- handleEvent: what is handed to PublishRaw, if anything; none for a payload that does not parse.
unfoldable pub handle_event : List (Text × Text) → ℕ → Option ProtectEvent → Option KafkaMessage
handle_event cameras now none = none
handle_event cameras now (some e) =
    if text_beq e.model_key (codes "event") then routed cameras now e (classify_event e) else none
