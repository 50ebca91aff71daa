-- ===== src/Catalog/Entries.antt =====
-- To prove that catalog messages keep a property of the registry, prove it of one stored entry and
-- of one kept orphan.
use roach.Base.{ℕ, ◌<◌, ◌^◌, Text, List, [], ◌∷◌, Option, none, some}
use roach.Models.{Value, Object, Message, FieldMetadata}
use roach.Registry.{Decoder, Registry, CatalogRow, object_in}
use roach.Metadata.{Calls, keep_orphan}
use roach.Base.{Bool}
use roach.Catalog.{
  Failure, store_entry, process_definition, process_definitions, process_fields_of,
  process_structure, process_structures, process_typed, process_sensor_type, process_sensor_types,
  process_if_object, process_single, process_catalog, process_parsed, process_message,
  backfill_parsed, orphaned, backfill_message,
}

module _ {F : Type 0} (d : Decoder F) (fails : CatalogRow → Bool)
    (word : (x : F) → d.to_int x < 2 ^ 64) (P : Registry F → Type 0)
    (stored : (e : FieldMetadata F) (r : Registry F)
      → e.sensor_type < 2 ^ 64
      → P r
      → P (store_entry d fails e r))
    (kept : (c : Calls) (msg : Message F) (reason : Text) (r : Registry F)
      → P r
      → P (keep_orphan c msg 0 reason r)) where
  definition-P :
      (n : ℕ) (ds_type description name : Text) (def : Option Text) (r : Registry F)
      → n < 2 ^ 64
      → P r
      → P (process_definition d fails n ds_type description name def r)
  unfolding process_definition
  definition-P n ds_type description name none r h a = a
  definition-P n ds_type description name (some def) r h a = stored _ r h a

  definitions-P :
      (n : ℕ) (ds_type description : Text) (defs : Object F) (r : Registry F)
      → n < 2 ^ 64
      → P r
      → P (process_definitions d fails n ds_type description defs r)
  unfolding process_definitions
  definitions-P n ds_type description [] r h a = a
  definitions-P n ds_type description ((name, def) ∷ defs) r h a =
      definitions-P n ds_type description defs _ h
        (definition-P n ds_type description name (object_in (some def)) r h a)

  fields_of-P :
      (n : ℕ) (m : Object F) (ds_type fields : Option Text) (r : Registry F)
      → n < 2 ^ 64
      → P r
      → P (process_fields_of d fails n m ds_type fields r)
  unfolding process_fields_of
  fields_of-P n m none fields r h a = a
  fields_of-P n m (some t) none r h a = a
  fields_of-P n m (some t) (some fields) r h a = definitions-P n t _ (d.entries fields) r h a

  structure-P :
      (n : ℕ) (t : Option Text) (r : Registry F)
      → n < 2 ^ 64
      → P r
      → P (process_structure d fails n t r)
  unfolding process_structure
  structure-P n none r h a = a
  structure-P n (some t) r h a = fields_of-P n (d.entries t) _ _ r h a

  structures-P :
      (n : ℕ) (vs : List (Value F)) (r : Registry F)
      → n < 2 ^ 64
      → P r
      → P (process_structures d fails n vs r)
  unfolding process_structures
  structures-P n [] r h a = a
  structures-P n (v ∷ vs) r h a = structures-P n vs _ h (structure-P n (object_in (some v)) r h a)

  typed-P :
      (x : Option F) (t : Option Text) (r : Registry F) → P r → P (process_typed d fails x t r).0
  unfolding process_typed
  typed-P none t r a = a
  typed-P (some x) none r a = a
  typed-P (some x) (some t) r a = structures-P (d.to_int x) (d.elements t) r (word x) a

  sensor_type-P : (m : Object F) (r : Registry F) → P r → P (process_sensor_type d fails m r).0
  unfolding process_sensor_type
  sensor_type-P m r a = typed-P _ _ r a

  if_object-P : (t : Option Text) (r : Registry F) → P r → P (process_if_object d fails t r)
  if_object-P none r a = a
  if_object-P (some t) r a = sensor_type-P (d.entries t) r a

  sensor_types-P :
      (vs : List (Value F)) (r : Registry F) → P r → P (process_sensor_types d fails vs r)
  unfolding process_sensor_types
  sensor_types-P [] r a = a
  sensor_types-P (v ∷ vs) r a = sensor_types-P vs _ (if_object-P (object_in (some v)) r a)

  single-P :
      (m : Object F) (v : Option (Value F)) (r : Registry F)
      → P r
      → P (process_single d fails m v r).0
  single-P m none r a = a
  single-P m (some v) r a = sensor_type-P m r a

  catalog-P :
      (m : Object F) (t : Option Text) (r : Registry F) → P r → P (process_catalog d fails m t r).0
  catalog-P m none r a = single-P m _ r a
  catalog-P m (some t) r a = sensor_types-P (d.elements t) r a

  parsed-P : (body : Option (Object F)) (r : Registry F) → P r → P (process_parsed d fails body r).0
  parsed-P none r a = a
  parsed-P (some m) r a = catalog-P m _ r a

  orphaned-P :
      (c : Calls) (msg : Message F) (q : Registry F × Option Failure)
      → P q.0
      → P (orphaned d fails c msg q).0
  orphaned-P c msg (r, none) a = a
  orphaned-P c msg (r, some Failure.parse_failed) a = kept c msg _ r a
  orphaned-P c msg (r, some Failure.missing_sensor_types) a = a
  orphaned-P c msg (r, some Failure.missing_sensor_type) a = kept c msg _ r a
  orphaned-P c msg (r, some Failure.missing_data_structures) a = kept c msg _ r a

  backfill_parsed-P :
      (body : Option (Object F)) (r : Registry F) → P r → P (backfill_parsed d fails body r).0
  backfill_parsed-P none r a = a
  backfill_parsed-P (some m) r a = sensor_type-P m r a

  pub message-P : (msg : Message F) (r : Registry F) → P r → P (process_message d fails msg r).0
  unfolding process_message
  message-P msg r a = parsed-P msg.body r a

  pub backfill_message-P :
      (c : Calls) (msg : Message F) (r : Registry F) → P r → P (backfill_message d fails c msg r).0
  unfolding backfill_message
  backfill_message-P c msg r a =
      orphaned-P c msg (backfill_parsed d fails msg.body r) (backfill_parsed-P msg.body r a)
