-- ===== src/Examples/HomeAssistant.antt =====
-- services/homeassistant-kafka at concrete inputs.
use roach.Base.{[], ◌∷◌, text_eq}
use roach.Base.Strings.{codes}
use roach.HomeAssistant.{HaState, Service, string}

abbrev room : HaState
room = record {
  entity_id = codes "sensor.room_temperature";
  state = codes "71";
  attributes = (codes "device_class", string (codes "temperature")) ∷ [];
  last_changed = codes "10:00";
  last_updated = codes "10:00";
}

abbrev service : Service
service = record { entity_filter = []; discovered_entities = codes "sensor.room_temperature" ∷ [] }
