-- ===== src/Weather/Metadata.antt =====
-- services/weatherlink-kafka/service/metadata.go: what the service learns of the sensors, and what it
-- publishes of them, of the catalog and of the station. The texts of the messages are given; the
-- start of the week, StartOfWeekUnix, is an argument.
pub mod Keys
pub mod Clashes
use roach.Base.{
  ℕ, suc, ◌+◌, ◌%◌, ◌^◌, Bool, ◌||◌, not, ltb, List, [], ◌∷◌, ◌++◌, Option, none, some, select,
  if◌then◌else◌, Text, text_eq, nat_eq,
}
use roach.Base.Assoc.{insert, contains}
use roach.Base.Strings.{codes, format_int, parse_int, sign_bit}
use roach.Weather.Records.{Message}

pub record SensorMetadata : Type 0 where
  pub lsid : ℕ
  pub sensor_type : ℕ
  pub category : Text
  pub body : Text

-- An entry of the catalog, with the data_structure_type of each of its data structures.
pub record CatalogEntry : Type 0 where
  pub sensor_type : ℕ
  pub structure_types : List Text
  pub body : Text

-- The fields of Service that this file is about: the sensors by lsid, of which the category counts
-- elsewhere, their types, the keys known to be in Kafka, and what was published, the last one
-- first, with the number of attempts.
pub record MetadataService : Type 0 where
  pub categories : List (ℕ × Text)
  pub sensor_types : List ℕ
  pub existing_metadata_keys : List Text
  pub published : List Message
  pub attempts : ℕ

-- The format {id}:{number} of the keys.
abbrev pub metadata_key : Text → ℕ → Text
metadata_key id n = id ++ b':' ∷ format_int n

-- An int64 is less than another.
abbrev int_ltb : ℕ → ℕ → Bool
int_ltb a b = ltb ((a + sign_bit) % 2 ^ 64) ((b + sign_bit) % 2 ^ 64)

abbrev higher : ℕ → Option ℕ → Option ℕ
higher value none = some value
higher value (some best) = if int_ltb best value then some value else some best

-- maxDataStructureType, from the highest so far on.
unfoldable pub max_from : Option ℕ → List Text → Option ℕ
max_from best [] = best
max_from best (t ∷ ts) =
    let value = parse_int t in max_from (if value.failed then best else higher value.value best) ts

unfoldable pub max_data_structure_type : CatalogEntry → Option ℕ
max_data_structure_type entry = max_from none entry.structure_types

-- Publish, and the key that is kept then: by the number of the attempt it fails or not.
unfoldable pub publish_metadata : (ℕ → Bool) → Message → MetadataService → MetadataService
publish_metadata fails m s =
    if fails s.attempts then record s { attempts = suc s.attempts } else record s {
      attempts = suc s.attempts;
      published = m ∷ s.published;
      existing_metadata_keys = m.key ∷ s.existing_metadata_keys;
    }

unfoldable pub publish_new : (ℕ → Bool) → Message → MetadataService → MetadataService
publish_new fails m s =
    if contains m.key s.existing_metadata_keys then s else publish_metadata fails m s

abbrev pub version : Text × Text
version = (codes "schema_version", codes "1")

abbrev pub sensor_message : ℕ → SensorMetadata → Message
sensor_message week_start sensor = record {
  topic = codes "weather.metadata.sensors";
  key = metadata_key (format_int sensor.lsid) week_start;
  value = sensor.body;
  headers = version ∷ [];
}

abbrev pub learn : SensorMetadata → MetadataService → MetadataService
learn sensor s = record s {
  categories = insert sensor.lsid sensor.category s.categories;
  sensor_types =
      if contains sensor.sensor_type s.sensor_types
      then s.sensor_types
      else sensor.sensor_type ∷ s.sensor_types;
}

-- fetchSensorMetadata, with the sensors of the answer.
unfoldable pub fetch_sensor_metadata :
    (ℕ → Bool) → ℕ → List SensorMetadata → MetadataService → MetadataService
fetch_sensor_metadata fails week_start [] s = s
fetch_sensor_metadata fails week_start (sensor ∷ sensors) s =
    fetch_sensor_metadata fails week_start sensors
      (publish_new fails (sensor_message week_start sensor) (learn sensor s))

abbrev pub catalog_message : ℕ → CatalogEntry → ℕ → Message
catalog_message generated_at entry max_type = record {
  topic = codes "weather.metadata.catalog";
  key = metadata_key (format_int entry.sensor_type) max_type;
  value = entry.body;
  headers = version ∷ (codes "generated_at", format_int generated_at) ∷ [];
}

-- One entry; one without a valid data structure type is passed over.
abbrev pub publish_entry :
    (ℕ → Bool) → ℕ → CatalogEntry → Option ℕ → MetadataService → MetadataService
publish_entry fails generated_at entry none s = s
publish_entry fails generated_at entry (some max_type) s =
    publish_new fails (catalog_message generated_at entry max_type) s

unfoldable pub publish_entries :
    (ℕ → Bool) → ℕ → List CatalogEntry → MetadataService → MetadataService
publish_entries fails generated_at [] s = s
publish_entries fails generated_at (entry ∷ entries) s =
    publish_entries fails generated_at entries
      (publish_entry fails generated_at entry (max_data_structure_type entry) s)

-- fetchCatalogMetadata: of the entries those of the sensor types that are known, which are none
-- before the first answer about the sensors.
unfoldable pub fetch_catalog_metadata :
    (ℕ → Bool) → ℕ → List CatalogEntry → MetadataService → MetadataService
fetch_catalog_metadata fails generated_at entries s =
    publish_entries fails generated_at
      (select (λ (e : CatalogEntry). contains e.sensor_type s.sensor_types) entries) s

abbrev pub station_message : Text → ℕ → Text → Message
station_message station_id week_start body = record {
  topic = codes "weather.metadata.station";
  key = metadata_key station_id week_start;
  value = body;
  headers = version ∷ (codes "station_id", station_id) ∷ [];
}

-- fetchStationMetadata
unfoldable pub fetch_station_metadata :
    (ℕ → Bool) → Text → ℕ → Text → MetadataService → MetadataService
fetch_station_metadata fails station_id week_start body =
    publish_new fails (station_message station_id week_start body)

-- What the API answers in one round, none where it fails, and the weeks that the clock gives.
pub record Answers : Type 0 where
  pub sensors : Option (List SensorMetadata)
  pub sensors_week : ℕ
  pub catalog : Option (ℕ × List CatalogEntry)
  pub station : Option Text
  pub station_week : ℕ

abbrev pub with_sensors :
    (ℕ → Bool) → ℕ → Option (List SensorMetadata) → MetadataService → MetadataService
with_sensors fails week_start none s = s
with_sensors fails week_start (some sensors) s = fetch_sensor_metadata fails week_start sensors s

abbrev pub with_catalog :
    (ℕ → Bool) → Option (ℕ × List CatalogEntry) → MetadataService → MetadataService
with_catalog fails none s = s
with_catalog fails (some (generated_at, entries)) s =
    fetch_catalog_metadata fails generated_at entries s

abbrev pub with_station : (ℕ → Bool) → Text → ℕ → Option Text → MetadataService → MetadataService
with_station fails station_id week_start none s = s
with_station fails station_id week_start (some body) s =
    fetch_station_metadata fails station_id week_start body s

-- fetchAllMetadata
unfoldable pub fetch_all_metadata : (ℕ → Bool) → Text → Answers → MetadataService → MetadataService
fetch_all_metadata fails station_id a s =
    with_station fails station_id a.station_week a.station
      (with_catalog fails a.catalog (with_sensors fails a.sensors_week a.sensors s))

-- The rounds of metadataUpdateLoop.
unfoldable pub update_metadata :
    (ℕ → Bool) → Text → List Answers → MetadataService → MetadataService
update_metadata fails station_id [] s = s
update_metadata fails station_id (a ∷ rounds) s =
    update_metadata fails station_id rounds (fetch_all_metadata fails station_id a s)
