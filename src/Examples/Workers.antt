-- ===== src/Examples/Workers.antt =====
-- services/weatherlink-sql: the workers at concrete inputs.
use roach.Base.{ℕ, ◌≡◌, refl, true, false, [], ◌∷◌, none, some, arith}
use roach.Base.Strings.{codes}
use roach.BatchWriter.{new_batch_writer}
use roach.Models.{Message, Device, Object, number, string, boolean, null}
use roach.Cache.{get_device, get_tag}
use roach.Pool.{process_field, work}
use roach.Pool.Parts.{World, Outside, Headers}
use roach.Pool.Routing.{process_field_boolean, process_field_after_null}
use roach.Pool.Growth.{IsConsistent}

abbrev outside : Outside ℕ
outside = record {
  create_fails = λ name. false;
  save_fails = false;
  copy_fails = λ name st. false;
  now = 9;
  to_float = λ n. n;
}

abbrev device : Device
device = record {
  id = 12;
  lsid = 5;
  sensor_type = 43;
  data_structure_type = none;
  category = codes "ISS";
  manufacturer = codes "Davis";
  product_name = codes "Vantage";
  created_date = none;
  modified_date = none;
}

-- Nothing is known yet.
abbrev new_world : World ℕ
new_world = record {
  cache = record { devices = []; tags = []; catalog = [] };
  writer = new_batch_writer 0 500;
  database = record { records_numeric = []; records_text = []; records_null = [] };
  tags = [];
  next_tag_id = 1;
  orphans = [];
  messages_processed = 0;
  processing_errors = 0;
}

abbrev headers : Headers
headers = record { lsid = 5; timestamp = 100; sensor_type = 43; data_structure_type = 0 }

abbrev fields : Object ℕ
fields =
    (codes "ts", number 100)
    ∷ (codes "temp", number 71)
    ∷ (codes "note", string (codes "ok"))
    ∷ (codes "rain", boolean true)
    ∷ []

abbrev message : Message ℕ
message = record {
  topic = codes "weather.iss";
  partition = 0;
  offset = 17;
  headers = (codes "lsid", codes "5") ∷ (codes "timestamp", codes "100") ∷ [];
  body = some fields;
}

process_field_boolean_example :
    let w' = process_field outside message headers device new_world (codes "rain") (boolean true) in
    (w'.writer ≡ new_world.writer) × (w'.database ≡ new_world.database)
process_field_boolean_example =
    process_field_boolean outside message headers device new_world (codes "rain") true

abbrev after_null : World ℕ
after_null = process_field outside message headers device new_world (codes "temp") null

new_world-IsConsistent : IsConsistent new_world
unfolding get_device get_tag
new_world-IsConsistent = record {
  device_ids = λ lsid d h. absurd (ground arith);
  tag_rows = λ d n t small h. absurd (ground arith);
}

process_field_after_null_example :
    let later = work after_null ((outside, message) ∷ []) in
    process_field outside message headers device later (codes "temp") (number 71) ≡ later
unfolding get_tag
process_field_after_null_example =
    process_field_after_null outside outside message message headers headers device new_world
      (codes "temp") (number 71) ((outside, message) ∷ []) new_world-IsConsistent (omega arith) refl
      refl refl refl
