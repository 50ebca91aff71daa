-- ===== src/Catalog/Loading.antt =====
-- LoadCatalog on an empty cache.
use roach.Base.{
  ℕ, ◌≡◌, ◌<◌, ◌^◌, refl, ◌∙◌, ap, Text, false, List, [], ◌∷◌, Option, none, some, arith, text_eq,
  text_beq_iff, map,
}
use roach.Base.Assoc.{lookup}
use roach.Base.Strings.{format_int}
use roach.Cache.{Cache, or_empty}
use roach.Registry.{Registry, CatalogRow}
use roach.Catalog.{entry_of, row_of, put_entry, put_entries, load_catalog}
use roach.Catalog.Agreement.{find_entry, catalog_at, as_row, catalog_at-set, Agrees}

-- The columns of the key are a key of sensor_catalog, and the sensor types are 64-bit numbers.
abbrev pub AreEntries : List CatalogRow → Type 0
AreEntries [] = Unit
AreEntries (row ∷ rows) =
    (find_entry row.sensor_type row.data_structure_type row.field_name rows ≡ none)
    × (row.sensor_type < 2 ^ 64)
    × AreEntries rows

abbrev or_else : Option CatalogRow → Option CatalogRow → Option CatalogRow
or_else none o = o
or_else (some row) o = some row

or_else-none : (o : Option CatalogRow) → or_else o none ≡ o
or_else-none none = refl
or_else-none (some row) = refl

module _ {F : Type 0} (st : ℕ) (ds f : Text) (bound : st < 2 ^ 64) where
  put_entries_lem :
      (rows : List CatalogRow) (c : Cache F)
      → AreEntries rows
      → as_row (catalog_at st ds f (put_entries (map entry_of rows) c))
        ≡ or_else (find_entry st ds f rows) (as_row (catalog_at st ds f c))
  unfolding put_entries find_entry entry_of row_of
  put_entries_lem [] c h = refl
  put_entries_lem (row ∷ rows) c h =
      put_entries_lem rows (put_entry (entry_of row) c) h.2
      ∙ ground (
        arith,
        catalog_at-set row.sensor_type st row.data_structure_type ds row.field_name f (entry_of row)
            c h.1 bound,
        text_beq_iff row.data_structure_type ds,
        text_beq_iff row.field_name f,
        h.0,
      )

  nothing : (c : Cache F) → c.catalog ≡ [] → as_row (catalog_at st ds f c) ≡ none
  nothing c e =
      ap (λ m. as_row (lookup f (or_empty (lookup ds (or_empty (lookup (format_int st) m)))))) e

  -- LoadCatalog into a cache with no catalog: under every key the cache has what the table has.
  pub load_catalog-Agrees :
      (r : Registry F)
      → r.cache.catalog ≡ []
      → AreEntries r.sensor_catalog
      → Agrees st ds f bound (load_catalog false r)
  unfolding load_catalog
  load_catalog-Agrees r empty h =
      put_entries_lem r.sensor_catalog r.cache h
      ∙ ap (λ o. or_else (find_entry st ds f r.sensor_catalog) o) (nothing r.cache empty)
      ∙ or_else-none (find_entry st ds f r.sensor_catalog)
