-- ===== src/Examples/Writer.antt =====
-- services/weatherlink-sql: the batch writer, the cache and the repositories at concrete inputs.
use roach.Base.{ℕ, ◌≡◌, ◌≢◌, refl, Bool, true, false, List, [], ◌∷◌, ◌++◌, none, some, arith, ok}
use roach.Base.Strings.{codes}
use roach.Tables.{Row, Stage, commit, copy_records, insert_all, insert_row}
use roach.BatchWriter.{Slot, BatchWriter, flush_locked}
use roach.BatchWriter.Schedule.{Event, adds, flushes, returns, run, start_of}
use roach.BatchWriter.Conservation.{IsSound, run-start_of-IsSound}
use roach.BatchWriter.Flushes.{flush_locked_drops}
use roach.BatchWriter.Direct
use roach.Models.{Tag, FieldMetadata}
use roach.Cache.{Cache, get_tag, set_tag}
use roach.Cache.Laws.{get_tag-set_tag}

abbrev row : ℕ → ℕ → ℕ → Row ℕ
row tag value ts = record { tag_id = tag; value = value; ts = ts }

abbrev never : Stage → Bool
never st = false

abbrev at_commit : Stage → Bool
at_commit commit = true
at_commit Stage.begin = false
at_commit Stage.create_temp = false
at_commit Stage.copy_from = false
at_commit Stage.insert_from_temp = false

abbrev schedule : List (Event ℕ)
schedule =
    adds (row 1 10 5)
    ∷ adds (row 1 11 6)
    ∷ adds (row 2 12 5)
    ∷ returns 0 never 9
    ∷ flushes
    ∷ returns 0 at_commit 12
    ∷ []

run-start_of-IsSound_example : IsSound [] (run (start_of 0 2 []) schedule)
run-start_of-IsSound_example = run-start_of-IsSound [] 0 2 schedule (omega arith)

abbrev two_rows : Slot ℕ
two_rows = record {
  batch = row 1 10 5 ∷ row 1 11 6 ∷ [];
  flush_size = 500;
  last_flush = 0;
  total_inserts = 0;
  total_flushes = 0;
}

two_rows_nonempty : two_rows.batch ≢ []
two_rows_nonempty h = ground arith

flush_locked_drops_example :
    let (s', table', error) = flush_locked at_commit 9 two_rows [] in
    (s'.batch ≡ [])
    × (table' ≡ [])
    × (error ≢ none)
    × (s'.total_inserts ≡ 0)
    × (s'.total_flushes ≡ 0)
flush_locked_drops_example =
    flush_locked_drops at_commit commit 9 two_rows [] refl two_rows_nonempty

abbrev old_table : List (Row ℕ)
old_table = row 1 7 5 ∷ []

abbrev new_table : List (Row ℕ)
new_table = row 1 7 5 ∷ row 1 11 6 ∷ []

copies : copy_records never two_rows.batch old_table ≡ ok new_table
unfolding copy_records insert_all insert_row
copies = refl

copies_again : copy_records never two_rows.batch new_table ≡ ok new_table
unfolding copy_records insert_all insert_row
copies_again = refl

abbrev writer : BatchWriter ℕ
writer = record {
  numeric_batch = two_rows.batch;
  text_batch = record { tag_id = 3; value = codes "ok"; ts = 5 } ∷ [];
  null_batch = [];
  flush_size = 500;
  last_flush = 0;
  total_numeric_inserts = 0;
  total_text_inserts = 0;
  total_null_inserts = 0;
  total_flushes = 0;
}

adds-flush-inserts_example :
    let (s', table') = Direct.adds never (λ st. refl) 9 (row 4 1 1 ∷ []) two_rows old_table in
    (flush_locked never 9 s' table').1
    ≡ Direct.inserts never (λ st. refl) old_table (two_rows.batch ++ row 4 1 1 ∷ [])
adds-flush-inserts_example =
    Direct.adds-flush-inserts never (λ st. refl) 9 (row 4 1 1 ∷ []) two_rows old_table

abbrev empty_cache : Cache ℕ
empty_cache = record { devices = []; tags = []; catalog = [] }

abbrev temp_tag : Tag
temp_tag = record {
  id = 7;
  device_id = 12;
  tag_name = codes "temp";
  data_type = codes "numeric";
  unit = none;
  description = none;
}

get_tag-set_tag_example :
    get_tag 12 (codes "temp") (set_tag 12 (codes "temp") temp_tag empty_cache) ≡ some temp_tag
get_tag-set_tag_example =
    get_tag-set_tag 12 12 (codes "temp") (codes "temp") temp_tag empty_cache (omega arith)
      (omega arith)

abbrev metadata : FieldMetadata ℕ
metadata = record {
  field_name = codes "temp";
  field_type = codes "float";
  units = codes "F";
  description = codes "air";
  data_structure_type = codes "10";
  sensor_type = 43;
  raw_metadata = [];
}
