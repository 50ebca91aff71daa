-- ===== src/Examples/Crew.antt =====
-- services/weatherlink-sql: the workers as goroutines, and the listener, at concrete inputs.
use mathlib.Core.List.{Sublist}
use roach.Base.{
  ℕ, ◌+◌, ◌*◌, ◌≤◌, ◌≡◌, refl, Bool, false, List, [], ◌∷◌, ◌++◌, none, some, arith, length,
}
use roach.Base.Strings.{codes, parse_int, parse_magnitude, parse_digits}
use roach.Tables.{Stage, insert_row}
use roach.BatchWriter.{new_batch_writer}
use roach.Models.{Value, Message, Device, Tag, number, null}
use roach.Cache.{get_device, get_tag, set_tag, tag_key}
use roach.Repository.{TagRow, find_row, upsert, update_row}
use roach.Pool.{note_structure, new_tag, created, field_metadata}
use roach.Processor.{insert_record, insert_null, insert_number, insert_numeric}
use roach.Pool.Parts.{World, Outside, read_headers, determine_data_type, is_numeric_type}
use roach.Pool.Crew.{Crew, step, run}
use roach.Pool.Crew
use roach.Pool.Crew.Race.{run_other_type}
use roach.Processor.Written.{handed, insert_handed}
use roach.Processor.Listening.{
  Listener, polling, submitted, Step, Reach, fetch, submit, commit, works, here, next, listening,
  Reach-listening,
}
use roach.Processor.Listening

abbrev outside : Outside ℕ
outside = record {
  create_fails = λ name. false;
  save_fails = false;
  copy_fails = λ name st. false;
  now = 9;
  to_float = λ n. n;
}

abbrev no_failure : Stage → Bool
no_failure st = false

abbrev station : Device
station = record {
  id = 12;
  lsid = 5;
  sensor_type = 43;
  data_structure_type = none;
  category = codes "ISS";
  manufacturer = codes "Davis";
  product_name = codes "Vantage";
  created_date = none;
  modified_date = none;
}

-- The device is known, and no tag yet.
abbrev new_world : World ℕ
new_world = record {
  cache = record { devices = (5, station) ∷ []; tags = []; catalog = [] };
  writer = new_batch_writer 0 500;
  database = record { records_numeric = []; records_text = []; records_null = [] };
  tags = [];
  next_tag_id = 1;
  orphans = [];
  messages_processed = 0;
  processing_errors = 0;
}

abbrev message : Value ℕ → Message ℕ
message v = record {
  topic = codes "weather.iss";
  partition = 0;
  offset = 17;
  headers = (codes "lsid", codes "5") ∷ (codes "timestamp", codes "100") ∷ [];
  body = some ((codes "rain", v) ∷ []);
}

abbrev two_wait : Crew ℕ
two_wait = record {
  world = new_world;
  waiting = message null ∷ message (number 2) ∷ [];
  hand = [];
  taken = [];
}

-- Each worker takes a message, and finds no tag for its field.
abbrev both_miss : List (ℕ × Outside ℕ)
both_miss = (0, outside) ∷ (1, outside) ∷ (0, outside) ∷ (1, outside) ∷ []

abbrev task : Value ℕ → Crew.Task ℕ
task v = record {
  message = message v;
  headers = record { lsid = 5; timestamp = 100; sensor_type = 0; data_structure_type = 0 };
  device = station;
  phase = Crew.missed (codes "rain") v [];
}

-- What both_miss leads to.
abbrev both_missed : Crew ℕ
both_missed = record {
  world = new_world;
  waiting = [];
  hand = (1, task (number 2)) ∷ (0, task null) ∷ [];
  taken = message null ∷ message (number 2) ∷ [];
}

run-both_miss : run two_wait both_miss ≡ both_missed
unfolding run step read_headers parse_int parse_magnitude parse_digits get_device get_tag
    note_structure
run-both_miss = refl

run_other_type_example :
    let s' = run both_missed ((0, outside) ∷ (1, outside) ∷ (1, outside) ∷ (0, outside) ∷ []) in
    (tag : Tag) × (row : TagRow ℕ) × (get_tag 12 (codes "rain") s'.world.cache ≡ some tag)
    × (find_row 12 (codes "rain") s'.world.tags ≡ some row)
    × (row.id ≡ tag.id)
    × (tag.data_type ≡ determine_data_type {F = ℕ} null)
    × (row.data_type ≡ determine_data_type {F = ℕ} (number 2))
run_other_type_example =
    run_other_type 0 1 outside outside outside outside (task null) (task (number 2)) (codes "rain")
      null (number 2) [] [] both_missed refl refl refl refl refl refl (omega arith) refl refl

-- Both create the tag, in turn, and both hand over their value.
abbrev both_add : List (ℕ × Outside ℕ)
both_add =
    (0, outside) ∷ (1, outside) ∷ (1, outside) ∷ (0, outside) ∷ (1, outside) ∷ (0, outside) ∷ []

-- Both values are stored, the null and the number, under the one id.
both_added : insert_handed (handed both_missed both_add) new_world.database ≡ record {
  records_numeric = record { tag_id = 1; value = 2; ts = 100 } ∷ [];
  records_text = [];
  records_null = record { tag_id = 1; value = tt; ts = 100 } ∷ [];
}
unfolding insert_handed handed step insert_record new_tag created insert_null insert_number
    insert_numeric insert_row upsert field_metadata determine_data_type is_numeric_type find_row
    update_row set_tag tag_key get_tag
both_added = refl

-- The first message is committed, and a worker has taken it.
abbrev first : Message ℕ
first = message null

abbrev committed_one : Listener ℕ
committed_one = record {
  phase = polling;
  committed = first ∷ [];
  crew = step outside 0 (record two_wait { waiting = first ∷ [] });
}

committed_one_reached : Reach 2 (listening 2 new_world) committed_one
committed_one_reached =
    let start : Listener ℕ = listening 2 new_world in
    let has : Listener ℕ = record start { phase = Listening.fetched first } in
    let sent : Listener ℕ = record start {
      phase = submitted first;
      crew = record start.crew { waiting = first ∷ [] };
    } in
    let kept : Listener ℕ = record sent { phase = polling; committed = first ∷ [] } in
    next
      (next (next (next here (fetch start first refl)) (submit has first refl (omega arith)))
        (commit sent first refl))
      (works kept 0 outside (omega arith))

Reach-listening_example :
    Sublist committed_one.committed (committed_one.crew.taken ++ committed_one.crew.waiting)
    × (length committed_one.crew.waiting ≤ 2 * 2)
    × (committed_one.crew.world.messages_processed
          + committed_one.crew.world.processing_errors
          + length committed_one.crew.hand
        ≡ 0 + 0 + length committed_one.crew.taken)
Reach-listening_example = Reach-listening 2 new_world committed_one_reached
