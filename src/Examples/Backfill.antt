-- ===== src/Examples/Backfill.antt =====
-- services/weatherlink-sql and weatherlink-sql-backfill: the data processor, the listener and the
-- backfill at concrete inputs.
use roach.Base.{
  not, ℕ, ◌≡◌, refl, true, false, Bool, [], ◌∷◌, List, none, some, arith, ◌==◌, ◌^◌, ◌%◌, map,
  length,
}
use roach.Base.Strings.{codes}
use roach.Tables.{Stage}
use roach.BatchWriter.{new_batch_writer, BatchWriter}
use roach.Models.{Message, Device, Object, number, string, null}
use roach.Cache.{get_device}
use roach.Pool.Parts.{World, Outside}
use roach.Registry.{Decoder, Registry}
use roach.Registry.DeviceRows.{find_device}
use roach.Metadata.Cached.{held}
use roach.Backfill.{
  Config, Seek, seek_of, Round, fetched, finished, still_reading, reached_end, read_topic,
  new_progress, process_topic, StartCalls, TopicCalls, prepare, process_metadata_phase,
  process_metadata_topic, read_metadata,
}
use roach.Backfill.Topics.{
  deliveries, from, range_of, last_or, GrowFrom, process_topic_lem, read_topic_endless,
}
use roach.Backfill.Concurrent.{ErrorTexts, Event, handed_over, stepped}
use roach.Backfill.Finishing.{Topic}
use roach.Backfill.Starting.{prepare-get_device}

abbrev outside : Outside ℕ
outside = record {
  create_fails = λ name. false;
  save_fails = false;
  copy_fails = λ name st. false;
  now = 9;
  to_float = λ n. n;
}

abbrev blank : BatchWriter ℕ
blank = new_batch_writer 0 500

abbrev station : Device
station = record {
  id = 12;
  lsid = 5;
  sensor_type = 43;
  data_structure_type = none;
  category = codes "ISS";
  manufacturer = codes "Davis";
  product_name = codes "Vantage";
  created_date = none;
  modified_date = none;
}

-- The device is known, and no tag yet.
abbrev new_world : World ℕ
new_world = record {
  cache = record { devices = (5, station) ∷ []; tags = []; catalog = [] };
  writer = blank;
  database = record { records_numeric = []; records_text = []; records_null = [] };
  tags = [];
  next_tag_id = 1;
  orphans = [];
  messages_processed = 0;
  processing_errors = 0;
}

abbrev fields : Object ℕ
fields =
    (codes "ts", number 100)
    ∷ (codes "temp", number 71)
    ∷ (codes "note", string (codes "ok"))
    ∷ (codes "rain", null)
    ∷ []

abbrev message_at : ℕ → Message ℕ
message_at n = record {
  topic = codes "weather.iss";
  partition = 0;
  offset = n;
  headers = (codes "lsid", codes "5") ∷ (codes "timestamp", codes "100") ∷ [];
  body = some fields;
}

abbrev messages : List (Message ℕ)
messages = message_at 3 ∷ message_at 4 ∷ message_at 6 ∷ []

abbrev no_failure : Stage → Bool
no_failure st = false

-- While the first message is handled, no tag can be created.
abbrev broken : Outside ℕ
broken = record outside { create_fails = λ name. true }

abbrev texts : ErrorTexts
texts = record { create_error = λ name. codes "failed"; parse_error = codes "eof" }

-- From offset 3 to before offset 5.
abbrev cfg : Config
cfg = record { start_offset = 3; end_offset = 5; include_metadata = false }

abbrev log : List (Message ℕ)
log = message_at 2 ∷ message_at 3 ∷ message_at 4 ∷ message_at 6 ∷ []

abbrev reader : Seek → List (Round ℕ)
reader seek = deliveries (from seek log)

log-GrowFrom : GrowFrom 0 log
log-GrowFrom = (omega arith, (omega arith, (omega arith, (omega arith, tt))))

process_topic_lem_example :
    let (sent, progress, ended) = process_topic cfg false reader in
    (sent ≡ range_of cfg log)
    × (ended ≡ finished)
    × (progress.messages_processed ≡ length sent)
    × (progress.current_offset ≡ last_or 0 sent)
process_topic_lem_example = process_topic_lem cfg reader log (λ seek. refl) log-GrowFrom

abbrev latest : Config
latest = record { start_offset = 0; end_offset = 18446744073709551615; include_metadata = false }

read_topic_endless_example :
    let (sent, p', ended) =
      read_topic latest 0 (new_progress latest) (map (λ m. fetched m false) messages) in
    (sent ≡ messages) × (ended ≡ still_reading)
read_topic_endless_example =
    read_topic_endless latest 0 (new_progress latest) messages (omega arith)

abbrev topic : Topic ℕ
topic = record { seek_fails = false; reader = reader }

-- Two workers take one message each, the first before the second is handed over, and their steps
-- alternate; the tags cannot be created for the first.
abbrev events : List (Event ℕ)
events =
    handed_over (message_at 3)
    ∷ stepped 0 broken texts
    ∷ handed_over (message_at 4)
    ∷ stepped 1 outside texts
    ∷ stepped 0 broken texts
    ∷ stepped 1 outside texts
    ∷ stepped 0 broken texts
    ∷ stepped 1 outside texts
    ∷ stepped 0 broken texts
    ∷ stepped 1 outside texts
    ∷ stepped 1 outside texts
    ∷ stepped 1 outside texts
    ∷ []

abbrev decoder : Decoder ℕ
decoder = record {
  elements = λ t. [];
  entries = λ t. [];
  zero_float = 0;
  is_zero = λ x. x == 0;
  to_int = λ x. x % 2 ^ 64;
}

abbrev new_registry : Registry ℕ
new_registry = record {
  cache = record { devices = []; tags = []; catalog = [] };
  devices = [];
  next_device_id = 1;
  sensor_catalog = [];
  tags = [];
  orphans = [];
}

-- One message about the device 8 in the topic of the sensors, and none in the others.
abbrev sensors : List (Message ℕ)
sensors =
    record (message_at 0) {
      topic = codes "weather.metadata.sensors";
      body = some ((codes "lsid", number 8) ∷ (codes "sensor_type", number 365) ∷ []);
    }
    ∷ []

abbrev topic_calls : List (Message ℕ) → TopicCalls ℕ
topic_calls log = record {
  seek_fails = false;
  reader = λ seek. deliveries log;
  calls = λ n. record {
    parse_error = codes "eof";
    upsert_error = none;
    station_error = λ id. none;
    load_fails = false;
    save_fails = not (n == 0);
  };
  upsert_entry_fails = λ n e. not (n == 0);
}

abbrev start_calls : StartCalls ℕ
start_calls = record {
  devices_fail = false;
  tags_fail = false;
  catalog_fails = false;
  metadata = record {
    sensors = topic_calls sensors;
    catalog = topic_calls [];
    station = topic_calls [];
  };
  reload_devices_fail = false;
  reload_catalog_fails = false;
}

abbrev with_metadata : Config
with_metadata = record { start_offset = 0; end_offset = 5; include_metadata = true }

prepare_finishes : (prepare with_metadata decoder start_calls new_registry).1 ≡ none
unfolding prepare process_metadata_phase process_metadata_topic read_metadata seek_of reached_end
prepare_finishes = refl

prepare-get_device_example :
    let r' = (prepare with_metadata decoder start_calls new_registry).0 in
    get_device 8 r'.cache ≡ held (find_device 8 r'.devices) none
unfolding get_device
prepare-get_device_example =
    prepare-get_device 8 with_metadata decoder start_calls new_registry (λ x. omega arith) tt refl
      prepare_finishes
