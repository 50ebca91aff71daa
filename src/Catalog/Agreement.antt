-- ===== src/Catalog/Agreement.antt =====
-- The catalog in the cache against the table sensor_catalog.
use roach.Base.{
  ℕ, ◌≡◌, ◌==◌, ◌&&◌, ◌<◌, ◌^◌, refl, Text, Bool, List, [], ◌∷◌, Option, none, some, arith,
  if◌then◌else◌, Bool-cases, inl, inr, text_beq, text_beq_iff, text_eq,
}
use roach.Base.Assoc.{lookup, insert, lookup-insert}
use roach.Base.Strings.{format_int}
use roach.Models.{Message, FieldMetadata}
use roach.Cache.{Cache, or_empty, set_catalog_metadata}
use roach.Cache.Keys.{format_int-injective}
use roach.Registry.{Decoder, Registry, CatalogRow}
use roach.Metadata.{Calls, keep_orphan}
use roach.Catalog.Entries.{message-P, backfill_message-P}
use roach.Catalog.{upsert_entry, row_of, store_entry, process_message, backfill_message}

-- The entry of a table under a key.
unfoldable pub find_entry : ℕ → Text → Text → List CatalogRow → Option CatalogRow
find_entry st ds f [] = none
find_entry st ds f (row ∷ rows) =
    if row.sensor_type == st && (text_beq row.data_structure_type ds && text_beq row.field_name f)
    then some row
    else find_entry st ds f rows

-- The entry of the cache under the text of a data structure type, which is what
-- GetCatalogMetadata finds under its number.
abbrev pub catalog_at : {F : Type 0} → ℕ → Text → Text → Cache F → Option (FieldMetadata F)
catalog_at st ds f c = lookup f (or_empty (lookup ds (or_empty (lookup (format_int st) c.catalog))))

abbrev pub as_row : {F : Type 0} → Option (FieldMetadata F) → Option CatalogRow
as_row none = none
as_row (some e) = some (row_of e)

find_entry-upsert_entry :
    (e : CatalogRow) (st : ℕ) (ds f : Text) (rows : List CatalogRow)
    → find_entry st ds f (upsert_entry e rows) ≡ (
        if e.sensor_type == st && (text_beq e.data_structure_type ds && text_beq e.field_name f)
        then some e
        else find_entry st ds f rows)
unfolding find_entry upsert_entry
find_entry-upsert_entry e st ds f [] = refl
find_entry-upsert_entry e st ds f (row ∷ rows) = ground (
  arith,
  text_beq_iff row.data_structure_type ds,
  text_beq_iff row.field_name f,
  text_beq_iff row.data_structure_type e.data_structure_type,
  text_beq_iff row.field_name e.field_name,
  text_beq_iff e.data_structure_type ds,
  text_beq_iff e.field_name f,
  find_entry-upsert_entry e st ds f rows,
)

pub catalog_at-set :
    {F : Type 0} (st st' : ℕ) (ds ds' f f' : Text) (m : FieldMetadata F) (c : Cache F)
    → st < 2 ^ 64
    → st' < 2 ^ 64
    → catalog_at st' ds' f' (set_catalog_metadata st ds f m c) ≡ (
        if st == st' && (text_beq ds ds' && text_beq f f') then some m else catalog_at st' ds' f' c)
unfolding set_catalog_metadata
catalog_at-set st st' ds ds' f f' m c h h' =
    let structures = or_empty (lookup (format_int st) c.catalog) in
    let fields = or_empty (lookup ds structures) in
    let stored = insert ds (insert f m fields) structures in
    ground (
      arith,
      lookup-insert (format_int st) (format_int st') stored c.catalog,
      lookup-insert ds ds' (insert f m fields) structures,
      lookup-insert f f' m fields,
      text_beq_iff ds ds',
      text_beq_iff (format_int st) (format_int st'),
      format_int-injective st st' h h',
    )

module _ {F : Type 0} (st : ℕ) (ds f : Text) (bound : st < 2 ^ 64) where
  -- Under the key, the cache has what the table has, but for the raw definition.
  abbrev pub Agrees : Registry F → Type 0
  Agrees r = as_row (catalog_at st ds f r.cache) ≡ find_entry st ds f r.sensor_catalog

  module _ (d : Decoder F) (fails : CatalogRow → Bool) (word : (x : F) → d.to_int x < 2 ^ 64) where
    store_entry-Agrees :
        (e : FieldMetadata F) (r : Registry F)
        → e.sensor_type < 2 ^ 64
        → Agrees r
        → Agrees (store_entry d fails e r)
    unfolding store_entry row_of
    store_entry-Agrees e r h a = elim (Bool-cases (fails (row_of e))) [
      | inl b ↦ rw (b, store_entry) a
      | inr b ↦
          rw (b, store_entry)
            (ground (
              arith,
              catalog_at-set e.sensor_type st e.data_structure_type ds e.field_name f e r.cache h
                  bound,
              find_entry-upsert_entry (row_of e) st ds f r.sensor_catalog,
            ))
    ]

    keep_orphan-Agrees :
        (c : Calls) (msg : Message F) (reason : Text) (r : Registry F)
        → Agrees r
        → Agrees (keep_orphan c msg 0 reason r)
    unfolding keep_orphan
    keep_orphan-Agrees c msg reason r a = elim (Bool-cases c.save_fails) [
      | inl e ↦ rw e a
      | inr e ↦ rw e a
    ]

    pub message-Agrees :
        (msg : Message F) (r : Registry F) → Agrees r → Agrees (process_message d fails msg r).0
    message-Agrees = message-P d fails word Agrees store_entry-Agrees keep_orphan-Agrees

    -- Whatever a catalog message holds and whichever statements fail, in both services: if under
    -- a sensor type, data structure type and field name the cache has what sensor_catalog has, it
    -- has so after the message.
    pub process_message-Agrees :
        (c : Calls) (msg : Message F) (r : Registry F)
        → Agrees r
        → Agrees (process_message d fails msg r).0 × Agrees (backfill_message d fails c msg r).0
    process_message-Agrees c msg r a = (
      message-P d fails word Agrees store_entry-Agrees keep_orphan-Agrees msg r a,
      backfill_message-P d fails word Agrees store_entry-Agrees keep_orphan-Agrees c msg r a,
    )
