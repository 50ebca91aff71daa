-- ===== src/Enrichment/Rounds.antt =====
-- The loop of EnrichTags as it acts on one row of tags after the other.
use roach.Base.{
  ℕ, ◌≡◌, ◌≢◌, ◌==◌, refl, sym, ◌∙◌, ap, Text, false, List, [], ◌∷◌, Option, none, some, arith,
  if◌then◌else◌, map,
}
use mathlib.Core.Path.{fun_ext}
use roach.Models.{Tag, FieldMetadata}
use roach.Cache.{Cache, get_tag, set_tag, get_catalog_metadata}
use roach.Repository.{TagRow, enrich, coalesce}
use roach.Pool.{metadata_of}
use roach.Registry.{DeviceRow, Registry}
use roach.Enrichment.{
  TagEnrichmentInfo, EnrichCalls, info_of, retag, enrich_with, entry_for, enrich_infos,
}

module _ {F : Type 0} where
  -- A row with what it lacks filled in from an entry of the catalog.
  abbrev pub filled : Option (FieldMetadata F) → TagRow F → TagRow F
  filled none row = row
  filled (some m) row = record row {
    unit = coalesce row.unit (some m.units);
    description = coalesce row.description (some m.description);
    metadata = coalesce row.metadata (some (metadata_of m));
  }

  abbrev pub entry_of_info : Cache F → Option TagEnrichmentInfo → Option (FieldMetadata F)
  entry_of_info c none = none
  entry_of_info c (some i) = entry_for i c

  -- The catalog entry of a tag: by the sensor type and the data structure type of its device.
  abbrev pub entry_of_tag : List (DeviceRow F) → Cache F → TagRow F → Option (FieldMetadata F)
  entry_of_tag devices c row = entry_of_info c (info_of devices row)

  abbrev pub enriched : List (DeviceRow F) → Cache F → TagRow F → TagRow F
  enriched devices c row = filled (entry_of_tag devices c row) row

  -- No two rows have one id.
  abbrev pub IsFresh : ℕ → List (TagRow F) → Type 0
  IsFresh id [] = Unit
  IsFresh id (row ∷ rows) = (id ≢ row.id) × IsFresh id rows

  abbrev pub DistinctIds : List (TagRow F) → Type 0
  DistinctIds [] = Unit
  DistinctIds (row ∷ rows) = IsFresh row.id rows × DistinctIds rows

  -- One round of the loop on one row.
  abbrev pub touch_with : Option (FieldMetadata F) → TagEnrichmentInfo → TagRow F → TagRow F
  touch_with e i row = if row.id == i.tag_id then filled e row else row

  abbrev pub touch_all : Cache F → List TagEnrichmentInfo → TagRow F → TagRow F
  touch_all c [] row = row
  touch_all c (i ∷ infos) row = touch_all c infos (touch_with (entry_for i c) i row)

  pub map-map :
      (g h : TagRow F → TagRow F) (rows : List (TagRow F))
      → map g (map h rows) ≡ map (λ row. g (h row)) rows
  map-map g h [] = refl
  map-map g h (row ∷ rows) = ap (λ rs. g (h row) ∷ rs) (map-map g h rows)

  map-same :
      (g : TagRow F → TagRow F) (rows : List (TagRow F))
      → ((row : TagRow F) → g row ≡ row)
      → map g rows ≡ rows
  map-same g [] h = refl
  map-same g (row ∷ rows) h = λ i. h row i ∷ map-same g rows h i

  retag-catalog :
      (m : FieldMetadata F) (id : ℕ) (name : Text) (t : Option Tag) (c : Cache F)
      → (retag m id name t c).catalog ≡ c.catalog
  unfolding set_tag
  retag-catalog m id name none c = refl
  retag-catalog m id name (some t) c = refl

  -- The catalog does not change while tags are enriched.
  pub entry_for-catalog :
      (i : TagEnrichmentInfo) (c c' : Cache F)
      → c'.catalog ≡ c.catalog
      → entry_for i c' ≡ entry_for i c
  unfolding get_catalog_metadata
  entry_for-catalog i c c' e = ground arith

  enrich_with-touch :
      (calls : EnrichCalls) (works : (id : ℕ) → calls.enrich_fails id ≡ false)
      (i : TagEnrichmentInfo) (e : Option (FieldMetadata F)) (r : Registry F)
      → let r' = enrich_with calls i e r in
        (r'.tags ≡ map (touch_with e i) r.tags)
        × (r'.cache.catalog ≡ r.cache.catalog)
        × (r'.devices ≡ r.devices)
  unfolding enrich_with enrich
  enrich_with-touch calls works i none r =
      (sym (map-same (touch_with none i) r.tags (λ row. ground arith)), refl, refl)
  enrich_with-touch calls works i (some m) r =
      rw (works i.tag_id, enrich_with)
        (
          refl,
          retag-catalog m i.device_id i.tag_name (get_tag i.device_id i.tag_name r.cache) r.cache,
          refl,
        )

  pub touch_all-catalog :
      (infos : List TagEnrichmentInfo) (c c' : Cache F) (row : TagRow F)
      → c'.catalog ≡ c.catalog
      → touch_all c' infos row ≡ touch_all c infos row
  touch_all-catalog [] c c' row e = refl
  touch_all-catalog (i ∷ infos) c c' row e =
      touch_all-catalog infos c c' _ e
      ∙ ap (λ m. touch_all c infos (touch_with m i row)) (entry_for-catalog i c c' e)

  pub enrich_infos-touch :
      (calls : EnrichCalls) (works : (id : ℕ) → calls.enrich_fails id ≡ false)
      (infos : List TagEnrichmentInfo) (r : Registry F)
      → let r' = enrich_infos calls infos r in
        (r'.tags ≡ map (touch_all r.cache infos) r.tags)
        × (r'.cache.catalog ≡ r.cache.catalog)
        × (r'.devices ≡ r.devices)
  unfolding enrich_infos
  enrich_infos-touch calls works [] r = (sym (map-same _ r.tags (λ row. refl)), refl, refl)
  enrich_infos-touch calls works (i ∷ infos) r =
      let r' = enrich_with calls i (entry_for i r.cache) r in
      let (tags, catalog, devices) = enrich_with-touch calls works i (entry_for i r.cache) r in
      let (tags', catalog', devices') = enrich_infos-touch calls works infos r' in
      (
        tags'
            ∙ ap (map (touch_all r'.cache infos)) tags
            ∙ map-map (touch_all r'.cache infos) (touch_with (entry_for i r.cache) i) r.tags
            ∙ ap (λ g. map g r.tags)
                (fun_ext (λ row. touch_all-catalog infos r.cache r'.cache _ catalog)),
        catalog' ∙ catalog,
        devices' ∙ devices,
      )
