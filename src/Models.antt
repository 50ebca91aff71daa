-- ===== src/Models.antt =====
-- services/weatherlink-sql/models/types.go, and the Kafka message and JSON values that the
-- processors read. F is the type of float64.
use roach.Base.{ℕ, Text, Bool, List, Option}

-- What json.Unmarshal makes of a value, and the Go integers that the code also allows for. Of an
-- array or an object the code only sees that it is one; its text stands for it.
pub data Value (F : Type 0) : Type 0 where
  null : Value F
  number : F → Value F
  integer : ℕ → Value F
  string : Text → Value F
  boolean : Bool → Value F
  array : Text → Value F
  object : Text → Value F

abbrev pub Object : Type 0 → Type 0
Object F = List (Text × Value F)

-- The message body is what json.Unmarshal into a map returns: none where it returns an error.
pub record Message (F : Type 0) : Type 0 where
  pub topic : Text
  pub partition : ℕ
  pub offset : ℕ
  pub headers : List (Text × Text)
  pub body : Option (Object F)

pub record Device : Type 0 where
  pub id : ℕ
  pub lsid : ℕ
  pub sensor_type : ℕ
  pub data_structure_type : Option ℕ
  pub category : Text
  pub manufacturer : Text
  pub product_name : Text
  pub created_date : Option ℕ
  pub modified_date : Option ℕ

pub record Tag : Type 0 where
  pub id : ℕ
  pub device_id : ℕ
  pub tag_name : Text
  pub data_type : Text
  pub unit : Option Text
  pub description : Option Text

pub record FieldMetadata (F : Type 0) : Type 0 where
  pub field_name : Text
  pub field_type : Text
  pub units : Text
  pub description : Text
  pub data_structure_type : Text
  pub sensor_type : ℕ
  pub raw_metadata : Object F
