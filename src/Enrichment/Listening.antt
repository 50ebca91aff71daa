-- ===== src/Enrichment/Listening.antt =====
-- The life of the catalog in weatherlink-sql: loaded at the start, then changed by messages, each
-- followed by the enrichment of the tags.
use roach.Base.{
  ℕ, ◌≡◌, ◌<◌, ◌^◌, refl, ◌∙◌, Text, Bool, true, false, List, [], ◌∷◌, Option, none, some,
  if◌then◌else◌, Bool-cases, inl, inr,
}
use roach.Models.{Message, Tag, FieldMetadata}
use roach.Cache.{Cache, set_tag, get_tag}
use roach.Registry.{Decoder, Registry, CatalogRow}
use roach.Catalog.{Failure, load_catalog, process_message}
use roach.Catalog.Agreement.{find_entry, catalog_at, as_row, Agrees, message-Agrees}
use roach.Catalog.Loading.{AreEntries, load_catalog-Agrees}
use roach.Enrichment.{
  TagEnrichmentInfo, EnrichCalls, find_tags_needing_enrichment, retag, enrich_with, entry_for,
  enrich_infos, enrich_tags, then_enrich, listen,
}

module _ {F : Type 0} (st : ℕ) (ds f : Text) (bound : st < 2 ^ 64) where
  retag-entry :
      (m : FieldMetadata F) (id : ℕ) (name : Text) (t : Option Tag) (c : Cache F)
      → as_row (catalog_at st ds f (retag m id name t c)) ≡ as_row (catalog_at st ds f c)
  unfolding set_tag
  retag-entry m id name none c = refl
  retag-entry m id name (some t) c = refl

  enrich_with-Agrees :
      (calls : EnrichCalls) (i : TagEnrichmentInfo) (e : Option (FieldMetadata F)) (r : Registry F)
      → Agrees st ds f bound r
      → Agrees st ds f bound (enrich_with calls i e r)
  unfolding enrich_with
  enrich_with-Agrees calls i none r a = a
  enrich_with-Agrees calls i (some m) r a = elim (Bool-cases (calls.enrich_fails i.tag_id)) [
    | inl b ↦ rw (b, enrich_with) a
    | inr b ↦
        rw (b, enrich_with)
          (retag-entry m i.device_id i.tag_name (get_tag i.device_id i.tag_name r.cache) r.cache
            ∙ a)
  ]

  enrich_infos-Agrees :
      (calls : EnrichCalls) (infos : List TagEnrichmentInfo) (r : Registry F)
      → Agrees st ds f bound r
      → Agrees st ds f bound (enrich_infos calls infos r)
  unfolding enrich_infos
  enrich_infos-Agrees calls [] r a = a
  enrich_infos-Agrees calls (i ∷ infos) r a =
      enrich_infos-Agrees calls infos _ (enrich_with-Agrees calls i (entry_for i r.cache) r a)

  enrich_tags-Agrees :
      (calls : EnrichCalls) (r : Registry F)
      → Agrees st ds f bound r
      → Agrees st ds f bound (enrich_tags calls r).0
  unfolding enrich_tags
  enrich_tags-Agrees calls r a = by_query calls.query_fails
    where
      all : Registry F
      all = enrich_infos calls (find_tags_needing_enrichment r.devices r.tags) r

      pick : Bool → Registry F × Bool
      pick b = if b then (r, true) else (all, false)

      by_query : (b : Bool) → Agrees st ds f bound (pick b).0
      by_query true = a
      by_query false = enrich_infos-Agrees calls (find_tags_needing_enrichment r.devices r.tags) r a

  module _ (d : Decoder F) (word : (x : F) → d.to_int x < 2 ^ 64) where
    then_enrich-Agrees :
        (calls : EnrichCalls) (q : Registry F × Option Failure)
        → Agrees st ds f bound q.0
        → Agrees st ds f bound (then_enrich d calls q)
    then_enrich-Agrees calls (r, none) a = enrich_tags-Agrees calls r a
    then_enrich-Agrees calls (r, some e) a = a

    listen-Agrees :
        (ms : List (Message F × (CatalogRow → Bool) × EnrichCalls)) (r : Registry F)
        → Agrees st ds f bound r
        → Agrees st ds f bound (listen d ms r)
    unfolding listen
    listen-Agrees [] r a = a
    listen-Agrees ((msg, fails, calls) ∷ rest) r a = listen-Agrees rest _ (
        then_enrich-Agrees calls (process_message d fails msg r)
          (message-Agrees st ds f bound d fails word msg r a))

    -- Once LoadCatalog has filled the empty cache, and after any catalog messages, each followed by
    -- EnrichTags, whichever statements fail meanwhile: under every sensor type, data structure
    -- type and field name the cache has the entry that sensor_catalog has, or none if it has none.
    pub listen-load_catalog-Agrees :
        (ms : List (Message F × (CatalogRow → Bool) × EnrichCalls)) (r : Registry F)
        → r.cache.catalog ≡ []
        → AreEntries r.sensor_catalog
        → let r' = listen d ms (load_catalog false r) in
          as_row (catalog_at st ds f r'.cache) ≡ find_entry st ds f r'.sensor_catalog
    listen-load_catalog-Agrees ms r empty rows =
        listen-Agrees ms (load_catalog false r) (load_catalog-Agrees st ds f bound r empty rows)
