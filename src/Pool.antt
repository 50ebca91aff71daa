-- ===== src/Pool.antt =====
-- services/weatherlink-sql/service/worker_pool.go, and determineDataType of data.go: how a worker
-- takes a data message apart. One message is handled from start to end here; the workers as goroutines,
-- whose steps come between each other, are in Pool/Crew.antt.
pub mod Parts
pub mod Routing
pub mod Messages
pub mod Growth
pub mod Tagging
pub mod Tagged
pub mod Crew
use roach.Base.{
  ℕ, suc, ◌+◌, Text, Bool, true, false, ◌&&◌, ◌==◌, not, List, [], ◌∷◌, Option, none, some,
  text_beq, text_eq, if◌then◌else◌, ◌≡◌, ◌≢◌, refl, arith, Bool-cases, inl, inr, ◌⊎◌,
}
use roach.Base.Assoc.{insert}
use roach.Base.Strings.{codes, parse_int, is_positive}
use roach.Tables.{Stage}
use roach.BatchWriter.{State, BatchWriter, Database, add_numeric, add_text, add_null}
use roach.Models.{
  Value, Object, Message, Device, Tag, FieldMetadata, null, number, integer, string, boolean, array,
  object,
}
use roach.Cache.{Cache, get_device, set_device, get_tag, set_tag, get_catalog_metadata}
use roach.Repository.{TagRow, Orphan, upsert, save}
use roach.Pool.Parts.{
  World, Outside, Failure, Headers, read_headers, no_headers, is_null, determine_data_type,
  is_numeric_type, is_text_type, RecordError, from_flush, put_state, missing_lsid, missing_device,
  save_failed, bad_body, unsupported_numeric, expected_string, unknown_data_type,
}

module _ {F : Type 0} where
  -- The complete metadata of a field: the three own entries, then the raw ones over them.
  abbrev merge_raw : Object F → Object F → Object F
  merge_raw m [] = m
  merge_raw m ((k, v) ∷ raw) = merge_raw (insert k v m) raw

  unfoldable pub metadata_of : FieldMetadata F → Object F
  metadata_of f =
      merge_raw
        ((codes "field_type", string f.field_type)
          ∷ (codes "data_structure_type", string f.data_structure_type)
          ∷ (codes "sensor_type", integer f.sensor_type)
          ∷ [])
        f.raw_metadata

module _ {F : Type 0} (o : Outside F) where
  -- The number that a value has in a numeric column, if it has one.
  abbrev pub as_number : Value F → Option F
  as_number null = none
  as_number (number x) = some x
  as_number (integer n) = some (o.to_float n)
  as_number (string s) = none
  as_number (boolean b) = none
  as_number (array s) = none
  as_number (object s) = none

  abbrev pub as_string : Value F → Option Text
  as_string null = none
  as_string (number x) = none
  as_string (integer n) = none
  as_string (string s) = some s
  as_string (boolean b) = none
  as_string (array s) = none
  as_string (object s) = none

  abbrev pub written_to : World F → State F × Option Stage → World F × Option RecordError
  written_to w (s, error) = (put_state w s, from_flush error)

  unfoldable pub put_number :
      (Stage → Bool) → ℕ → Option F → ℕ → World F → World F × Option RecordError
  put_number fails tag none ts w = (w, some unsupported_numeric)
  put_number fails tag (some x) ts w =
      written_to w (add_numeric fails o.now tag x ts (w.writer, w.database))

  unfoldable pub put_text :
      (Stage → Bool) → ℕ → Option Text → ℕ → World F → World F × Option RecordError
  put_text fails tag none ts w = (w, some expected_string)
  put_text fails tag (some s) ts w =
      written_to w (add_text fails o.now tag s ts (w.writer, w.database))

  unfoldable pub add_record_to_batch :
      (Stage → Bool) → Tag → Value F → ℕ → World F → World F × Option RecordError
  add_record_to_batch fails tag value ts w =
      if is_null value
      then written_to w (add_null fails o.now tag.id ts (w.writer, w.database))
      else if is_numeric_type tag.data_type
      then put_number fails tag.id (as_number value) ts w
      else if is_text_type tag.data_type
      then put_text fails tag.id (as_string value) ts w
      else (w, some unknown_data_type)

  -- The catalog entry of a field, looked up only where both types are known.
  unfoldable pub field_metadata : Headers → Text → Cache F → Option (FieldMetadata F)
  field_metadata h name c =
      if is_positive h.sensor_type && is_positive h.data_structure_type
      then get_catalog_metadata h.sensor_type h.data_structure_type name c
      else none

  abbrev unit_of : Option (FieldMetadata F) → Option Text
  unit_of none = none
  unit_of (some f) = some f.units

  abbrev description_of : Option (FieldMetadata F) → Option Text
  description_of none = none
  description_of (some f) = some f.description

  abbrev all_metadata : Option (FieldMetadata F) → Object F
  all_metadata none = []
  all_metadata (some f) = metadata_of f

  abbrev pub keep_orphan : Message F → Headers → Text → Text → World F → World F
  keep_orphan msg h name reason w =
      if o.save_fails
      then w
      else record w { orphans = save msg h.lsid h.timestamp name reason w.orphans }

  -- The call of tagRepo.Create, with the metadata of the catalog: the id, and the rows.
  unfoldable pub created : Headers → Device → Text → Value F → World F → ℕ × List (TagRow F)
  created h device name value w =
      let meta = field_metadata h name w.cache in
      upsert w.next_tag_id device.id name (determine_data_type value) (unit_of meta)
        (description_of meta) (all_metadata meta) w.tags

  unfoldable pub new_tag : Headers → Device → Text → Value F → World F → Tag
  new_tag h device name value w = record {
    id = (created h device name value w).0;
    device_id = device.id;
    tag_name = name;
    data_type = determine_data_type value;
    unit = unit_of (field_metadata h name w.cache);
    description = description_of (field_metadata h name w.cache);
  }

  -- A tag that the cache does not know is created; on an error the message is kept as an orphan.
  unfoldable pub create_tag :
      Message F → Headers → Device → Text → Value F → World F → World F × Option Tag
  create_tag msg h device name value w =
      let tag = new_tag h device name value w in
      if o.create_fails name
      then (keep_orphan msg h name (codes "failed_to_create_tag") w, none)
      else (
        record w {
          tags = (created h device name value w).1;
          next_tag_id = suc w.next_tag_id;
          cache = set_tag device.id name tag w.cache;
        },
        some tag,
      )

  -- The tag of a field: from the cache, or created.
  unfoldable pub find_tag :
      Message F → Headers → Device → Text → Value F → World F → World F × Option Tag
  find_tag msg h device name value w = elim (get_tag device.id name w.cache) [
    | some tag ↦ (w, some tag)
    | none ↦ create_tag msg h device name value w
  ]

  -- One round of the loop over the fields; an error of addRecordToBatch is only logged.
  unfoldable pub process_field : Message F → Headers → Device → World F → Text → Value F → World F
  process_field msg h device w name value =
      let (w', found) = find_tag msg h device name value w in
      if text_beq name (codes "ts") then w else elim found [
        | none ↦ w'
        | some tag ↦ (add_record_to_batch (o.copy_fails name) tag value h.timestamp w').0
      ]

  unfoldable pub process_fields : Message F → Headers → Device → World F → Object F → World F
  process_fields msg h device w [] = w
  process_fields msg h device w ((name, value) ∷ fields) =
      process_fields msg h device (process_field msg h device w name value) fields

  abbrev other_structure : Option ℕ → ℕ → Bool
  other_structure none n = true
  other_structure (some m) n = not (m == n)

  -- The device's data structure type follows the header, in the cached device itself.
  unfoldable pub note_structure : Headers → Device → World F → World F
  note_structure h device w =
      if is_positive h.data_structure_type
        && other_structure device.data_structure_type h.data_structure_type
      then record w {
        cache =
            set_device h.lsid (record device { data_structure_type = some h.data_structure_type })
              w.cache;
      }
      else w

  abbrev pub process_body :
      Message F → Headers → Device → Option (Object F) → World F → World F × Option Failure
  process_body msg h device none w = (w, some bad_body)
  process_body msg h device (some fields) w = (process_fields msg h device w fields, none)

  unfoldable pub process_message : Message F → World F → World F × Option Failure
  process_message msg w =
      let h = read_headers no_headers msg.headers in
      if h.lsid == 0 then (w, some missing_lsid) else elim (get_device h.lsid w.cache) [
        | none ↦ (
          keep_orphan msg h [] (codes "missing_device") w,
          if o.save_fails then some save_failed else none,
        )
        | some device ↦ process_body msg h device msg.body (note_structure h device w)
      ]

  abbrev pub counted : World F × Option Failure → World F
  counted (w, none) = record w { messages_processed = suc w.messages_processed }
  counted (w, some e) = record w { processing_errors = suc w.processing_errors }

  -- One round of a worker.
  unfoldable pub worker_step : World F → Message F → World F
  worker_step w msg = counted (process_message msg w)

  -- To prove something of processMessage, prove it where it returns.
  pub message_cases {ℓ} :
      (P : World F × Option Failure → Type ℓ) (msg : Message F) (w : World F)
      → ((read_headers no_headers msg.headers).lsid ≡ 0 → P (w, some missing_lsid))
      → ((read_headers no_headers msg.headers).lsid ≢ 0
          → get_device (read_headers no_headers msg.headers).lsid w.cache ≡ none
          → P (
            keep_orphan msg (read_headers no_headers msg.headers) [] (codes "missing_device") w,
            if o.save_fails then some save_failed else none,
          ))
      → ((device : Device)
          → (read_headers no_headers msg.headers).lsid ≢ 0
          → get_device (read_headers no_headers msg.headers).lsid w.cache ≡ some device
          → P (
              process_body msg
                (read_headers no_headers msg.headers)
                device
                msg.body
                (note_structure (read_headers no_headers msg.headers) device w)))
      → P (process_message msg w)
  unfolding process_message
  message_cases P msg w no_lsid no_device known = by_lsid (Bool-cases (lsid == 0))
    where
      lsid : ℕ
      lsid = (read_headers no_headers msg.headers).lsid

      by_device :
          lsid == 0 ≡ false
          → (d : Option Device) → get_device lsid w.cache ≡ d
          → P (process_message msg w)
      by_device f none e = rw (f, e, process_message) (no_device (ground arith) e)
      by_device f (some device) e = rw (f, e, process_message) (known device (ground arith) e)

      by_lsid : ((lsid == 0) ≡ true) ⊎ ((lsid == 0) ≡ false) → P (process_message msg w)
      by_lsid (inl t) = rw t (no_lsid (ground arith))
      by_lsid (inr f) = by_device f (get_device lsid w.cache) refl

module _ {F : Type 0} where
  -- One worker over the messages that it receives, each with what fails while it is handled.
  unfoldable pub work : World F → List (Outside F × Message F) → World F
  work w [] = w
  work w ((o, msg) ∷ jobs) = work (worker_step o w msg) jobs
