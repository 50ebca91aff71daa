-- ===== src/Pool/Parts.antt =====
-- services/weatherlink-sql/service/worker_pool.go: the state of the pool, the headers of a message, and the data types (with determineDataType of service/data.go).
use roach.Base.{
  ℕ, Text, Bool, true, false, List, [], ◌∷◌, Option, none, some, text_beq, text_eq, if◌then◌else◌,
}
use roach.Base.Strings.{codes, parse_int}
use roach.Tables.{Stage}
use roach.BatchWriter.{State, BatchWriter, Database}
use roach.Models.{Value, null, number, integer, string, boolean, array, object}
use roach.Cache.{Cache}
use roach.Repository.{TagRow, Orphan}

-- What the workers share: the cache, the writer with its tables, and the two other tables.
pub record World (F : Type 0) : Type 0 where
  pub cache : Cache F
  pub writer : BatchWriter F
  pub database : Database F
  pub tags : List (TagRow F)
  -- The next value of the id sequence of the tags table.
  pub next_tag_id : ℕ
  pub orphans : List (Orphan F)
  pub messages_processed : ℕ
  pub processing_errors : ℕ

-- What happens outside the code while one message is handled: which statements fail, by the field
-- they are for, and the time. `to_float` is Go's conversion of an integer to float64.
pub record Outside (F : Type 0) : Type 0 where
  pub create_fails : Text → Bool
  pub save_fails : Bool
  pub copy_fails : Text → Stage → Bool
  pub now : ℕ
  pub to_float : ℕ → F

pub data Failure : Type 0 where
  missing_lsid missing_device save_failed bad_body : Failure

pub record Headers : Type 0 where
  pub lsid : ℕ
  pub timestamp : ℕ
  pub sensor_type : ℕ
  pub data_structure_type : ℕ

abbrev read_header : Headers → Text → Text → Headers
read_header h key value =
    let n = (parse_int value).value in
    if text_beq key (codes "lsid")
    then record h { lsid = n }
    else if text_beq key (codes "timestamp")
    then record h { timestamp = n }
    else if text_beq key (codes "sensor_type")
    then record h { sensor_type = n }
    else if text_beq key (codes "data_structure_type")
    then record h { data_structure_type = n }
    else h

-- The loop over the headers; a later one replaces an earlier one.
unfoldable pub read_headers : Headers → List (Text × Text) → Headers
read_headers h [] = h
read_headers h ((key, value) ∷ rest) = read_headers (read_header h key value) rest

abbrev pub no_headers : Headers
no_headers = record { lsid = 0; timestamp = 0; sensor_type = 0; data_structure_type = 0 }

abbrev pub is_null : {F : Type 0} → Value F → Bool
is_null null = true
is_null (number x) = false
is_null (integer n) = false
is_null (string s) = false
is_null (boolean b) = false
is_null (array s) = false
is_null (object s) = false

unfoldable pub determine_data_type : {F : Type 0} → Value F → Text
determine_data_type null = codes "null"
determine_data_type (number x) = codes "numeric"
determine_data_type (integer n) = codes "numeric"
determine_data_type (string s) = codes "text"
determine_data_type (boolean b) = codes "numeric"
determine_data_type (array s) = codes "text"
determine_data_type (object s) = codes "text"

unfoldable pub is_numeric_type : Text → Bool
is_numeric_type t =
    if text_beq t (codes "numeric")
    then true
    else if text_beq t (codes "float")
    then true
    else text_beq t (codes "integer")

unfoldable pub is_text_type : Text → Bool
is_text_type t = if text_beq t (codes "text") then true else text_beq t (codes "string")

pub data RecordError : Type 0 where
  unsupported_numeric expected_string unknown_data_type : RecordError
  flush_failed : Stage → RecordError

abbrev pub from_flush : Option Stage → Option RecordError
from_flush none = none
from_flush (some e) = some (flush_failed e)

abbrev pub put_state : {F : Type 0} → World F → State F → World F
put_state w (writer, database) = record w { writer = writer; database = database }
