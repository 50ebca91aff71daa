-- ===== src/Examples/Registry.antt =====
-- services/weatherlink-sql: devices, stations, the catalog and the enrichment at concrete inputs.
use roach.Base.{
  ℕ, ◌≡◌, refl, true, false, Bool, [], ◌∷◌, List, none, some, arith, ◌==◌, ◌^◌, ◌%◌, ◌<◌,
  if◌then◌else◌, Text, text_beq, map,
}
use roach.Base.Strings.{codes}
use roach.Models.{Tag, Message, Object, Value, number, string, null, array, object}
use roach.Cache.{get_device, get_tag, set_tag}
use roach.Repository.{TagRow}
use roach.Registry.{Decoder, DeviceRow, Registry, CatalogRow}
use roach.Registry.DeviceRows.{find_device, DistinctLsids}
use roach.Metadata.{Calls, Station, station_of, process_stations, process_message, load}
use roach.Metadata.Cached.{refreshed, get_device-process_message}
use roach.Metadata.Stations.{station_at, first_station, process_stations_first_takes}
use roach.Catalog.{load_catalog}
use roach.Catalog.Agreement.{find_entry, catalog_at, as_row}
use roach.Catalog.Loading.{AreEntries}
use roach.Enrichment.{
  EnrichCalls, enrich_tags, listen, find_tags_needing_enrichment, info_of, device_by_id,
}
use roach.Enrichment.Recached.{recached, entry_among}
use roach.Enrichment.Rounds.{enriched}
use roach.Enrichment.Filled.{enrich_tags-enriched}
use roach.Enrichment.Listening.{listen-load_catalog-Agrees}

-- One station, and one sensor type with one data structure of one field.
abbrev entries : Text → Object ℕ
entries t =
    if text_beq t (codes "station")
    then (codes "station_id", number 3) ∷ (codes "station_name", string (codes "roof")) ∷ []
    else if text_beq t (codes "structure")
    then (codes "data_structure_type", string (codes "10"))
      ∷ (codes "description", string (codes "live"))
      ∷ (codes "data_structure", object (codes "fields"))
      ∷ []
    else if text_beq t (codes "fields")
    then (codes "temp", object (codes "field")) ∷ []
    else if text_beq t (codes "field")
    then (codes "type", string (codes "float")) ∷ (codes "units", string (codes "F")) ∷ []
    else []

abbrev elements : Text → List (Value ℕ)
elements t =
    if text_beq t (codes "stations")
    then null ∷ object (codes "station") ∷ []
    else object (codes "structure") ∷ []

abbrev decoder : Decoder ℕ
decoder = record {
  elements = elements;
  entries = entries;
  zero_float = 0;
  is_zero = λ x. x == 0;
  to_int = λ x. x % 2 ^ 64;
}

abbrev row : DeviceRow ℕ
row = record {
  id = 12;
  lsid = 5;
  sensor_type = 43;
  category = codes "ISS";
  manufacturer = codes "Davis";
  product_name = codes "Vantage";
  product_number = codes "6327";
  rain_collector_type = none;
  active = true;
  tx_id = none;
  port_number = none;
  parent_device_type = [];
  parent_device_name = [];
  parent_device_id = none;
  parent_device_id_hex = [];
  station_id = none;
  station_id_uuid = none;
  station_name = [];
  latitude = none;
  longitude = none;
  elevation = none;
  created_date = none;
  modified_date = none;
  metadata = [];
  rt_data_structure_type = some 10;
}

abbrev old_entry : CatalogRow
old_entry = record {
  sensor_type = 43;
  data_structure_type = codes "10";
  field_name = codes "temp";
  field_type = codes "float";
  units = codes "C";
  description = codes "outside";
}

abbrev temp_row : TagRow ℕ
temp_row = record {
  id = 7;
  device_id = 12;
  tag_name = codes "temp";
  data_type = codes "numeric";
  unit = none;
  description = none;
  metadata = none;
}

abbrev registry : Registry ℕ
registry = record {
  cache = record { devices = []; tags = []; catalog = [] };
  devices = row ∷ [];
  next_device_id = 13;
  sensor_catalog = old_entry ∷ [];
  tags = temp_row ∷ [];
  orphans = [];
}

abbrev device_body : Object ℕ
device_body = (codes "lsid", number 8) ∷ (codes "sensor_type", number 365) ∷ []

abbrev device_message : Message ℕ
device_message = record {
  topic = codes "weather.metadata.sensors";
  partition = 0;
  offset = 17;
  headers = [];
  body = some device_body;
}

abbrev calls : Calls
calls = record {
  parse_error = codes "eof";
  upsert_error = none;
  station_error = λ id. none;
  load_fails = false;
  save_fails = false;
}

registry-DistinctLsids : DistinctLsids registry.devices
unfolding find_device
registry-DistinctLsids = (refl, tt)

get_device-process_message_example :
    let (r', e) = process_message decoder calls device_message registry in
    DistinctLsids r'.devices
    × (get_device 8 r'.cache ≡ refreshed e (find_device 8 r'.devices) (get_device 8 registry.cache))
get_device-process_message_example =
    get_device-process_message decoder calls device_message registry 8 registry-DistinctLsids

abbrev roof : Station
roof = record { id = 3; name = codes "roof"; uuid = [] }

abbrev station_update : Message ℕ
station_update = record device_message {
  topic = codes "weather.metadata.station";
  body = some ((codes "stations", array (codes "stations")) ∷ []);
}

process_stations_first_takes_example :
    station_at (
      find_device 5
        (process_stations decoder calls
          (λ lsid m. load calls)
          (load calls)
          station_update
          (elements (codes "stations"))
          registry).0.devices)
    ≡ some 3
unfolding find_device first_station station_of
process_stations_first_takes_example =
    process_stations_first_takes decoder calls (λ lsid m. load calls) (load calls) station_update
      (elements (codes "stations")) registry 5 row roof refl refl refl refl

abbrev catalog_update : Message ℕ
catalog_update = record device_message {
  topic = codes "weather.metadata.catalog";
  body = some (
      (codes "sensor_type", number 43)
      ∷ (codes "data_structures", array (codes "structures"))
      ∷ []);
}

abbrev all_works : EnrichCalls
all_works = record { query_fails = false; enrich_fails = λ id. false }

abbrev taken : List (Message ℕ × (CatalogRow → Bool) × EnrichCalls)
taken = (catalog_update, (λ e. false), all_works) ∷ []

registry-AreEntries : AreEntries registry.sensor_catalog
unfolding find_entry
registry-AreEntries = (refl, omega arith, tt)

listen-load_catalog-Agrees_example :
    let r' = listen decoder taken (load_catalog false registry) in
    as_row (catalog_at 43 (codes "10") (codes "temp") r'.cache)
    ≡ find_entry 43 (codes "10") (codes "temp") r'.sensor_catalog
listen-load_catalog-Agrees_example =
    listen-load_catalog-Agrees 43 (codes "10") (codes "temp") (omega arith) decoder
      (λ x. omega arith) taken registry refl registry-AreEntries

-- The tag of the cache has a unit that its row lacks.
abbrev temp_tag : Tag
temp_tag = record {
  id = 7;
  device_id = 12;
  tag_name = codes "temp";
  data_type = codes "numeric";
  unit = some (codes "C");
  description = none;
}

abbrev loaded : Registry ℕ
loaded =
    load_catalog false
      (record registry { cache = set_tag 12 (codes "temp") temp_tag registry.cache })

enrich_tags-enriched_example :
    let r' = (enrich_tags all_works loaded).0 in
    (r'.tags ≡ map (enriched loaded.devices loaded.cache) loaded.tags)
    × ((enrich_tags all_works r').0.tags ≡ r'.tags)
    × ((device_id : ℕ) (name : Text)
        → device_id < 2 ^ 64
        → get_tag device_id name r'.cache
          ≡ recached
              (entry_among
                (find_tags_needing_enrichment loaded.devices loaded.tags)
                loaded.cache
                device_id
                name)
              (get_tag device_id name loaded.cache))
unfolding load_catalog find_tags_needing_enrichment info_of device_by_id
enrich_tags-enriched_example =
    enrich_tags-enriched all_works loaded (λ id. refl) refl (tt, tt) (omega arith, tt)
