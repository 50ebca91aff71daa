-- ===== src/Cache.antt =====
-- services/weatherlink-sql/cache/cache.go. The lock makes each operation one step.
pub mod Keys
pub mod Laws
use roach.Base.{ℕ, Text, List, [], ◌∷◌, ◌++◌, Option, none, some, nat_eq, text_eq}
use roach.Base.Assoc.{lookup, insert}
use roach.Base.Strings.{format_int}
use roach.Models.{Device, Tag, FieldMetadata}

abbrev pub Fields : Type 0 → Type 0
Fields F = List (Text × FieldMetadata F)

pub record Cache (F : Type 0) : Type 0 where
  pub devices : List (ℕ × Device)
  pub tags : List (Text × Tag)
  -- [sensorType][dataStructureType][fieldName]
  pub catalog : List (Text × List (Text × Fields F))

-- fmt.Sprintf("%d:%s", deviceID, tagName)
unfoldable pub tag_key : ℕ → Text → Text
tag_key device_id tag_name = format_int device_id ++ b':' ∷ tag_name

abbrev pub or_empty {ℓ} : {A : Type ℓ} → Option (List A) → List A
or_empty none = []
or_empty (some xs) = xs

module _ {F : Type 0} where
  unfoldable pub get_device : ℕ → Cache F → Option Device
  get_device lsid c = lookup lsid c.devices

  unfoldable pub set_device : ℕ → Device → Cache F → Cache F
  set_device lsid device c = record c { devices = insert lsid device c.devices }

  unfoldable pub get_tag : ℕ → Text → Cache F → Option Tag
  get_tag device_id tag_name c = lookup (tag_key device_id tag_name) c.tags

  unfoldable pub set_tag : ℕ → Text → Tag → Cache F → Cache F
  set_tag device_id tag_name tag c = record c {
    tags = insert (tag_key device_id tag_name) tag c.tags;
  }

  -- A missing inner map reads as an empty one.
  unfoldable pub get_catalog_metadata : ℕ → ℕ → Text → Cache F → Option (FieldMetadata F)
  get_catalog_metadata sensor_type data_structure_type field_name c = lookup field_name (
      or_empty (
        lookup (format_int data_structure_type)
          (or_empty (lookup (format_int sensor_type) c.catalog))))

  -- The data structure type is a text here, and a number in the reading function.
  unfoldable pub set_catalog_metadata : ℕ → Text → Text → FieldMetadata F → Cache F → Cache F
  set_catalog_metadata sensor_type data_structure_type field_name metadata c =
      let structures = or_empty (lookup (format_int sensor_type) c.catalog) in
      let fields = or_empty (lookup data_structure_type structures) in
      record c {
        catalog =
            insert (format_int sensor_type)
              (insert data_structure_type (insert field_name metadata fields) structures) c.catalog;
      }
