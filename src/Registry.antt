-- ===== src/Registry.antt =====
-- services/weatherlink-sql/repository/devices.go, which weatherlink-sql-backfill has too: the
-- statements on the table devices. Registry is the state of the processors of metadata messages:
-- the cache and the tables that they write. Columns that only say when a row was written are left
-- out.
pub mod DeviceRows
use roach.Base.{
  ℕ, Text, Bool, true, false, ◌||◌, ◌==◌, List, [], ◌∷◌, Option, none, some, if◌then◌else◌, map,
  text_eq, ◌≡◌,
}
use roach.Base.Assoc.{lookup}
use roach.Base.Strings.{codes}
use roach.Models.{
  Value, Object, Device, FieldMetadata, null, number, integer, string, boolean, array, object,
}
use roach.Cache.{Cache}
use roach.Repository.{TagRow, Orphan}

-- What the code uses of encoding/json and of float64: the elements of an array and the entries of
-- an object, Go's zero value, the test against it, and the conversion to an int.
pub record Decoder (F : Type 0) : Type 0 where
  pub elements : Text → List (Value F)
  pub entries : Text → Object F
  pub zero_float : F
  pub is_zero : F → Bool
  pub to_int : F → ℕ

-- A row of devices.
pub record DeviceRow (F : Type 0) : Type 0 where
  pub id : ℕ
  pub lsid : ℕ
  pub sensor_type : ℕ
  pub category : Text
  pub manufacturer : Text
  pub product_name : Text
  pub product_number : Text
  pub rain_collector_type : Option ℕ
  pub active : Bool
  pub tx_id : Option ℕ
  pub port_number : Option ℕ
  pub parent_device_type : Text
  pub parent_device_name : Text
  pub parent_device_id : Option ℕ
  pub parent_device_id_hex : Text
  pub station_id : Option ℕ
  pub station_id_uuid : Option Text
  pub station_name : Text
  pub latitude : Option F
  pub longitude : Option F
  pub elevation : Option F
  pub created_date : Option ℕ
  pub modified_date : Option ℕ
  pub metadata : Object F
  pub rt_data_structure_type : Option ℕ

-- A row of sensor_catalog.
pub record CatalogRow : Type 0 where
  pub sensor_type : ℕ
  pub data_structure_type : Text
  pub field_name : Text
  pub field_type : Text
  pub units : Text
  pub description : Text

pub record Registry (F : Type 0) : Type 0 where
  pub cache : Cache F
  pub devices : List (DeviceRow F)
  -- The next value of the id sequence of the devices table.
  pub next_device_id : ℕ
  pub sensor_catalog : List CatalogRow
  pub tags : List (TagRow F)
  pub orphans : List (Orphan F)

-- The type assertions v.(float64), v.(string), v.(bool), v.([]interface{}) and
-- v.(map[string]interface{}) on an entry of a map.
module _ {F : Type 0} where
  abbrev pub number_in : Option (Value F) → Option F
  number_in none = none
  number_in (some null) = none
  number_in (some (number x)) = some x
  number_in (some (integer n)) = none
  number_in (some (string s)) = none
  number_in (some (boolean b)) = none
  number_in (some (array s)) = none
  number_in (some (object s)) = none

  abbrev pub string_in : Option (Value F) → Option Text
  string_in none = none
  string_in (some null) = none
  string_in (some (number x)) = none
  string_in (some (integer n)) = none
  string_in (some (string s)) = some s
  string_in (some (boolean b)) = none
  string_in (some (array s)) = none
  string_in (some (object s)) = none

  abbrev pub boolean_in : Option (Value F) → Option Bool
  boolean_in none = none
  boolean_in (some null) = none
  boolean_in (some (number x)) = none
  boolean_in (some (integer n)) = none
  boolean_in (some (string s)) = none
  boolean_in (some (boolean b)) = some b
  boolean_in (some (array s)) = none
  boolean_in (some (object s)) = none

  abbrev pub array_in : Option (Value F) → Option Text
  array_in none = none
  array_in (some null) = none
  array_in (some (number x)) = none
  array_in (some (integer n)) = none
  array_in (some (string s)) = none
  array_in (some (boolean b)) = none
  array_in (some (array s)) = some s
  array_in (some (object s)) = none

  abbrev pub object_in : Option (Value F) → Option Text
  object_in none = none
  object_in (some null) = none
  object_in (some (number x)) = none
  object_in (some (integer n)) = none
  object_in (some (string s)) = none
  object_in (some (boolean b)) = none
  object_in (some (array s)) = none
  object_in (some (object s)) = some s

-- The value that `v, _ :=` leaves where there is none.
abbrev pub or_zero {ℓ} : {A : Type ℓ} → A → Option A → A
or_zero z none = z
or_zero z (some a) = a

-- stringOrNil
unfoldable pub string_or_nil : Text → Option Text
string_or_nil [] = none
string_or_nil (c ∷ s) = some (c ∷ s)

module _ {F : Type 0} (d : Decoder F) where
  open d use {zero_float, is_zero, to_int}

  -- intOrNil and int64OrNil
  unfoldable pub int_or_nil : F → Option ℕ
  int_or_nil x = if is_zero x then none else some (to_int x)

  unfoldable pub float_or_nil : F → Option F
  float_or_nil x = if is_zero x then none else some x

  abbrev pub float_at : Object F → Text → F
  float_at m key = or_zero zero_float (number_in (lookup key m))

  abbrev pub text_at : Object F → Text → Text
  text_at m key = or_zero [] (string_in (lookup key m))

  -- The row that Upsert writes, with the id and the real-time type of the row in its place.
  unfoldable pub device_row : ℕ → Option ℕ → F → Object F → DeviceRow F
  device_row id rt lsid m = record {
    id = id;
    lsid = to_int lsid;
    sensor_type = to_int (float_at m (codes "sensor_type"));
    category = text_at m (codes "category");
    manufacturer = text_at m (codes "manufacturer");
    product_name = text_at m (codes "product_name");
    product_number = text_at m (codes "product_number");
    rain_collector_type = int_or_nil (float_at m (codes "rain_collector_type"));
    active = or_zero false (boolean_in (lookup (codes "active") m));
    tx_id = int_or_nil (float_at m (codes "tx_id"));
    port_number = int_or_nil (float_at m (codes "port_number"));
    parent_device_type = text_at m (codes "parent_device_type");
    parent_device_name = text_at m (codes "parent_device_name");
    parent_device_id = int_or_nil (float_at m (codes "parent_device_id"));
    parent_device_id_hex = text_at m (codes "parent_device_id_hex");
    station_id = int_or_nil (float_at m (codes "station_id"));
    station_id_uuid = string_or_nil (text_at m (codes "station_id_uuid"));
    station_name = text_at m (codes "station_name");
    latitude = float_or_nil (float_at m (codes "latitude"));
    longitude = float_or_nil (float_at m (codes "longitude"));
    elevation = float_or_nil (float_at m (codes "elevation"));
    created_date = int_or_nil (float_at m (codes "created_date"));
    modified_date = int_or_nil (float_at m (codes "modified_date"));
    metadata = m;
    rt_data_structure_type = rt;
  }

  -- INSERT … ON CONFLICT (lsid) DO UPDATE SET …; `next` is the id that a new row gets.
  unfoldable pub upsert_device : ℕ → F → Object F → List (DeviceRow F) → List (DeviceRow F)
  upsert_device next lsid m [] = device_row next none lsid m ∷ []
  upsert_device next lsid m (row ∷ rows) =
      if row.lsid == to_int lsid
      then device_row row.id row.rt_data_structure_type lsid m ∷ rows
      else row ∷ upsert_device next lsid m rows

-- station_id = $1 OR station_id IS NULL
abbrev pub at_station : ℕ → Option ℕ → Bool
at_station station_id none = true
at_station station_id (some n) = n == station_id

module _ {F : Type 0} where
  -- UpdateDataStructureType
  unfoldable pub update_data_structure_type : ℕ → ℕ → List (DeviceRow F) → List (DeviceRow F)
  update_data_structure_type lsid data_structure_type = map λ row.
      if row.lsid == lsid
      then record row { rt_data_structure_type = some data_structure_type }
      else row

  -- UpdateStationInfo, for one row
  unfoldable pub update_station : ℕ → Text → Text → DeviceRow F → DeviceRow F
  update_station station_id name uuid row =
      if at_station station_id row.station_id
      then record row {
        station_id = some station_id;
        station_name = name;
        station_id_uuid = string_or_nil uuid;
      }
      else row

  unfoldable pub update_station_info : ℕ → Text → Text → List (DeviceRow F) → List (DeviceRow F)
  update_station_info station_id name uuid = map (update_station station_id name uuid)

  -- What LoadAll makes of a row.
  unfoldable pub device_of : DeviceRow F → Device
  device_of row = record {
    id = row.id;
    lsid = row.lsid;
    sensor_type = row.sensor_type;
    data_structure_type = row.rt_data_structure_type;
    category = row.category;
    manufacturer = row.manufacturer;
    product_name = row.product_name;
    created_date = none;
    modified_date = none;
  }

  unfoldable pub load_devices : List (DeviceRow F) → List Device
  load_devices = map device_of
