-- ===== src/Processor.antt =====
-- services/weatherlink-sql/service/data.go and repository/records.go: the data processor, which
-- inserts each value at once, without the batch writer. How it finds or makes the tag of a field is
-- the code of worker_pool.go, in roach.Pool. Whether a statement fails is an argument.
pub mod Batched
pub mod Written
pub mod Listening
use roach.Base.{
  ℕ, Text, Bool, true, false, ◌==◌, List, [], ◌∷◌, Option, none, some, text_beq, if◌then◌else◌,
}
use roach.Base.Strings.{codes, has_prefix}
use roach.Tables.{Row, insert_row}
use roach.BatchWriter.{Database}
use roach.Models.{Value, Object, Message, Device, Tag}
use roach.Cache.{Cache, get_device, set_tag}
use roach.Repository.{TagRow, load_all}
use roach.Pool.{as_number, as_string, find_tag, keep_orphan, note_structure}
use roach.Pool.Parts.{
  World, Outside, Headers, Failure, missing_lsid, missing_device, save_failed, bad_body, is_null,
  is_numeric_type, is_text_type, read_headers, no_headers,
}

pub data InsertError : Type 0 where
  exec_failed not_a_number not_a_string unknown_type : InsertError

module _ {F : Type 0} where
  -- RecordRepository.InsertNumeric, InsertText and InsertNull
  unfoldable pub insert_numeric : Bool → ℕ → F → ℕ → Database F → Database F × Option InsertError
  insert_numeric fails tag value ts db = if fails then (db, some exec_failed) else (
    record db {
      records_numeric =
          insert_row db.records_numeric (record { tag_id = tag; value = value; ts = ts });
    },
    none,
  )

  unfoldable pub insert_text : Bool → ℕ → Text → ℕ → Database F → Database F × Option InsertError
  insert_text fails tag value ts db = if fails then (db, some exec_failed) else (
    record db {
      records_text = insert_row db.records_text (record { tag_id = tag; value = value; ts = ts });
    },
    none,
  )

  unfoldable pub insert_null : Bool → ℕ → ℕ → Database F → Database F × Option InsertError
  insert_null fails tag ts db = if fails then (db, some exec_failed) else (
    record db {
      records_null = insert_row db.records_null (record { tag_id = tag; value = tt; ts = ts });
    },
    none,
  )

  unfoldable pub insert_number :
      Bool → ℕ → Option F → ℕ → Database F → Database F × Option InsertError
  insert_number fails tag none ts db = (db, some not_a_number)
  insert_number fails tag (some x) ts db = insert_numeric fails tag x ts db

  unfoldable pub insert_string :
      Bool → ℕ → Option Text → ℕ → Database F → Database F × Option InsertError
  insert_string fails tag none ts db = (db, some not_a_string)
  insert_string fails tag (some s) ts db = insert_text fails tag s ts db

-- `insert_fails` says for which fields the INSERT fails.
module _ {F : Type 0} (o : Outside F) (insert_fails : Text → Bool) where
  -- RecordRepository.Insert
  unfoldable pub insert_record :
      Bool → Tag → Value F → ℕ → Database F → Database F × Option InsertError
  insert_record fails tag value ts db =
      if is_null value
      then insert_null fails tag.id ts db
      else if is_numeric_type tag.data_type
      then insert_number fails tag.id (as_number o value) ts db
      else if is_text_type tag.data_type
      then insert_string fails tag.id (as_string o value) ts db
      else (db, some unknown_type)

  -- One round of the loop over the fields; an error of Insert is only logged.
  unfoldable pub process_field : Message F → Headers → Device → World F → Text → Value F → World F
  process_field msg h device w name value =
      let (w', found) = find_tag o msg h device name value w in
      if text_beq name (codes "ts") then w else elim found [
        | none ↦ w'
        | some tag ↦ record w' {
          database = (insert_record (insert_fails name) tag value h.timestamp w'.database).0;
        }
      ]

  unfoldable pub process_fields : Message F → Headers → Device → World F → Object F → World F
  process_fields msg h device w [] = w
  process_fields msg h device w ((name, value) ∷ fields) =
      process_fields msg h device (process_field msg h device w name value) fields

  abbrev pub process_body :
      Message F → Headers → Device → Option (Object F) → World F → World F × Option Failure
  process_body msg h device none w = (w, some bad_body)
  process_body msg h device (some fields) w = (process_fields msg h device w fields, none)

  -- DataProcessor.ProcessMessage
  unfoldable pub process_message : Message F → World F → World F × Option Failure
  process_message msg w =
      let h = read_headers no_headers msg.headers in
      if h.lsid == 0 then (w, some missing_lsid) else elim (get_device h.lsid w.cache) [
        | none ↦ (
          keep_orphan o msg h [] (codes "missing_device") w,
          if o.save_fails then some save_failed else none,
        )
        | some device ↦ process_body msg h device msg.body (note_structure o h device w)
      ]

module _ {F : Type 0} where
  -- Listen on the messages that it fetches, each with what fails while it is handled: an error is
  -- logged, and the message committed anyway.
  unfoldable pub listen : World F → List (Outside F × (Text → Bool) × Message F) → World F
  listen w [] = w
  listen w ((o, insert_fails, msg) ∷ jobs) = listen (process_message o insert_fails msg w).0 jobs

  unfoldable pub put_tags : List Tag → Cache F → Cache F
  put_tags [] c = c
  put_tags (tag ∷ tags) c = put_tags tags (set_tag tag.device_id tag.tag_name tag c)

  -- LoadTags; the flag says whether the query fails.
  unfoldable pub load_tags : Bool → World F → World F × Bool
  load_tags fails w =
      if fails then (w, true) else (record w { cache = put_tags (load_all w.tags) w.cache }, false)

-- The topics that Listen and ListenWithWorkerPool subscribe to.
unfoldable pub is_data_topic : Text → Bool
is_data_topic topic =
    if has_prefix topic (codes "weather.")
    then if text_beq topic (codes "weather.")
      then false
      else if has_prefix topic (codes "weather.metadata.")
      then false
      else true
    else false
