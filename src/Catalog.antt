-- ===== src/Catalog.antt =====
-- services/weatherlink-sql/repository/catalog.go and service/catalog.go, and catalog_processor.go of
-- weatherlink-sql-backfill: the import of the sensor catalog into its table and into the cache.
pub mod Entries
pub mod Agreement
pub mod Loading
use roach.Base.{
  ℕ, Text, Bool, ◌&&◌, ◌==◌, List, [], ◌∷◌, ◌++◌, Option, none, some, text_beq, text_eq,
  if◌then◌else◌, map,
}
use roach.Base.Assoc.{lookup}
use roach.Base.Strings.{codes}
use roach.Models.{Value, Object, Message, FieldMetadata}
use roach.Cache.{Cache, set_catalog_metadata}
use roach.Registry.{
  Decoder, Registry, CatalogRow, number_in, string_in, array_in, object_in, or_zero, text_at,
}
use roach.Metadata.{Calls, keep_orphan}

pub data Failure : Type 0 where
  parse_failed missing_sensor_types missing_sensor_type missing_data_structures : Failure

abbrev pub same_entry : CatalogRow → CatalogRow → Bool
same_entry p q =
    p.sensor_type == q.sensor_type
    && (text_beq p.data_structure_type q.data_structure_type && text_beq p.field_name q.field_name)

-- CatalogRepository.Upsert: INSERT … ON CONFLICT (sensor_type, data_structure_type, field_name) DO
-- UPDATE SET …
unfoldable pub upsert_entry : CatalogRow → List CatalogRow → List CatalogRow
upsert_entry e [] = e ∷ []
upsert_entry e (row ∷ rows) = if same_entry row e then e ∷ rows else row ∷ upsert_entry e rows

module _ {F : Type 0} where
  -- The row of an entry; the table does not keep the raw definition.
  unfoldable pub row_of : FieldMetadata F → CatalogRow
  row_of e = record {
    sensor_type = e.sensor_type;
    data_structure_type = e.data_structure_type;
    field_name = e.field_name;
    field_type = e.field_type;
    units = e.units;
    description = e.description;
  }

  -- What LoadAll makes of a row.
  unfoldable pub entry_of : CatalogRow → FieldMetadata F
  entry_of row = record {
    field_name = row.field_name;
    field_type = row.field_type;
    units = row.units;
    description = row.description;
    data_structure_type = row.data_structure_type;
    sensor_type = row.sensor_type;
    raw_metadata = [];
  }

  abbrev pub put_entry : FieldMetadata F → Cache F → Cache F
  put_entry e = set_catalog_metadata e.sensor_type e.data_structure_type e.field_name e

  unfoldable pub put_entries : List (FieldMetadata F) → Cache F → Cache F
  put_entries [] c = c
  put_entries (e ∷ es) c = put_entries es (put_entry e c)

  -- LoadCatalog; where the query fails, LoadAll returns no entries and no error.
  unfoldable pub load_catalog : Bool → Registry F → Registry F
  load_catalog fails r =
      if fails then r else record r { cache = put_entries (map entry_of r.sensor_catalog) r.cache }

-- `fails` says for which entries the Upsert fails.
module _ {F : Type 0} (d : Decoder F) (fails : CatalogRow → Bool) where
  open d use {elements, entries, to_int}

  abbrev field_entry : ℕ → Text → Text → Text → Object F → FieldMetadata F
  field_entry sensor_type ds_type ds_description name def = record {
    field_name = name;
    field_type = text_at d def (codes "type");
    units = text_at d def (codes "units");
    description = ds_description;
    data_structure_type = ds_type;
    sensor_type = sensor_type;
    raw_metadata = def;
  }

  -- An entry goes into the table, and into the cache unless that fails.
  unfoldable pub store_entry : FieldMetadata F → Registry F → Registry F
  store_entry e r = if fails (row_of e) then r else record r {
    sensor_catalog = upsert_entry (row_of e) r.sensor_catalog;
    cache = put_entry e r.cache;
  }

  -- One field of a data structure; a definition that is not an object is passed over.
  unfoldable pub process_definition : ℕ → Text → Text → Text → Option Text → Registry F → Registry F
  process_definition sensor_type ds_type ds_description name none r = r
  process_definition sensor_type ds_type ds_description name (some def) r =
      store_entry (field_entry sensor_type ds_type ds_description name (entries def)) r

  unfoldable pub process_definitions : ℕ → Text → Text → Object F → Registry F → Registry F
  process_definitions sensor_type ds_type ds_description [] r = r
  process_definitions sensor_type ds_type ds_description ((name, def) ∷ defs) r =
      process_definitions sensor_type ds_type ds_description defs
        (process_definition sensor_type ds_type ds_description name (object_in (some def)) r)

  -- A data structure with both its type and its fields.
  unfoldable pub process_fields_of :
      ℕ → Object F → Option Text → Option Text → Registry F → Registry F
  process_fields_of sensor_type ds none fields r = r
  process_fields_of sensor_type ds (some ds_type) none r = r
  process_fields_of sensor_type ds (some ds_type) (some fields) r =
      process_definitions sensor_type ds_type (text_at d ds (codes "description")) (entries fields)
        r

  unfoldable pub process_structure : ℕ → Option Text → Registry F → Registry F
  process_structure sensor_type none r = r
  process_structure sensor_type (some t) r =
      let ds = entries t in
      process_fields_of sensor_type ds (string_in (lookup (codes "data_structure_type") ds))
        (object_in (lookup (codes "data_structure") ds)) r

  unfoldable pub process_structures : ℕ → List (Value F) → Registry F → Registry F
  process_structures sensor_type [] r = r
  process_structures sensor_type (v ∷ vs) r =
      process_structures sensor_type vs (process_structure sensor_type (object_in (some v)) r)

  unfoldable pub process_typed : Option F → Option Text → Registry F → Registry F × Option Failure
  process_typed none structures r = (r, some missing_sensor_type)
  process_typed (some sensor_type) none r = (r, some missing_data_structures)
  process_typed (some sensor_type) (some structures) r =
      (process_structures (to_int sensor_type) (elements structures) r, none)

  -- processSensorType
  unfoldable pub process_sensor_type : Object F → Registry F → Registry F × Option Failure
  process_sensor_type m =
      process_typed (number_in (lookup (codes "sensor_type") m))
        (array_in (lookup (codes "data_structures") m))

  abbrev process_if_object : Option Text → Registry F → Registry F
  process_if_object none r = r
  process_if_object (some t) r = (process_sensor_type (entries t) r).0

  -- The loop over sensor_types; an error is only logged.
  unfoldable pub process_sensor_types : List (Value F) → Registry F → Registry F
  process_sensor_types [] r = r
  process_sensor_types (v ∷ vs) r =
      process_sensor_types vs (process_if_object (object_in (some v)) r)

  abbrev pub process_single : Object F → Option (Value F) → Registry F → Registry F × Option Failure
  process_single m none r = (r, some missing_sensor_types)
  process_single m (some v) r = process_sensor_type m r

  abbrev pub process_catalog : Object F → Option Text → Registry F → Registry F × Option Failure
  process_catalog m none r = process_single m (lookup (codes "sensor_type") m) r
  process_catalog m (some types) r = (process_sensor_types (elements types) r, none)

  abbrev pub process_parsed : Option (Object F) → Registry F → Registry F × Option Failure
  process_parsed none r = (r, some parse_failed)
  process_parsed (some m) r = process_catalog m (array_in (lookup (codes "sensor_types") m)) r

  -- ProcessMessage of weatherlink-sql
  unfoldable pub process_message : Message F → Registry F → Registry F × Option Failure
  process_message msg = process_parsed msg.body

  -- ProcessMessage of weatherlink-sql-backfill takes one sensor type, and keeps what it cannot take
  -- apart as an orphan.
  abbrev orphaned : Calls → Message F → Registry F × Option Failure → Registry F × Option Failure
  orphaned c msg (r, none) = (r, none)
  orphaned c msg (r, some parse_failed) = (
    keep_orphan c msg 0 (codes "failed to parse catalog: " ++ c.parse_error) r,
    some parse_failed,
  )
  orphaned c msg (r, some missing_sensor_types) = (r, some missing_sensor_types)
  orphaned c msg (r, some missing_sensor_type) = (
    keep_orphan c msg 0 (codes "missing sensor_type in catalog message") r,
    some missing_sensor_type,
  )
  orphaned c msg (r, some missing_data_structures) = (
    keep_orphan c msg 0 (codes "missing data_structures in catalog message") r,
    some missing_data_structures,
  )

  abbrev backfill_parsed : Option (Object F) → Registry F → Registry F × Option Failure
  backfill_parsed none r = (r, some parse_failed)
  backfill_parsed (some m) r = process_sensor_type m r

  unfoldable pub backfill_message : Calls → Message F → Registry F → Registry F × Option Failure
  backfill_message c msg r = orphaned c msg (backfill_parsed msg.body r)
