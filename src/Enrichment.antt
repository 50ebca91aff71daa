-- ===== src/Enrichment.antt =====
-- services/weatherlink-sql/service/enrichment.go with FindTagsNeedingEnrichment, Enrich and Update of
-- repository/tags.go, and the listener of service/catalog.go: what the catalog adds to the tags.
-- Marshalling the metadata, which comes from JSON, does not fail.
pub mod Rounds
pub mod Recached
pub mod Filled
pub mod Listening
use roach.Base.{
  ℕ, Text, Bool, true, false, ◌||◌, ◌==◌, List, [], ◌∷◌, ◌++◌, Option, none, some, if◌then◌else◌,
}
use roach.Models.{Object, Message, Tag, FieldMetadata}
use roach.Cache.{Cache, get_tag, set_tag, get_catalog_metadata}
use roach.Repository.{TagRow, enrich}
use roach.Pool.{metadata_of}
use roach.Registry.{Decoder, DeviceRow, Registry, CatalogRow}
use roach.Catalog.{Failure, process_message}

pub record TagEnrichmentInfo : Type 0 where
  pub tag_id : ℕ
  pub device_id : ℕ
  pub tag_name : Text
  pub sensor_type : ℕ
  pub data_structure_type : ℕ

-- Which statements fail, the UPDATE by the id of its tag.
pub record EnrichCalls : Type 0 where
  pub query_fails : Bool
  pub enrich_fails : ℕ → Bool

abbrev is_none : {A : Type 0} → Option A → Bool
is_none none = true
is_none (some a) = false

abbrev pub add_info : Option TagEnrichmentInfo → List TagEnrichmentInfo → List TagEnrichmentInfo
add_info none infos = infos
add_info (some i) infos = i ∷ infos

module _ {F : Type 0} where
  -- The device of a tag, by its primary key.
  unfoldable pub device_by_id : ℕ → List (DeviceRow F) → Option (DeviceRow F)
  device_by_id id [] = none
  device_by_id id (row ∷ rows) = if row.id == id then some row else device_by_id id rows

  abbrev pub typed_info : TagRow F → DeviceRow F → Option ℕ → Option TagEnrichmentInfo
  typed_info tag device none = none
  typed_info tag device (some n) = some (record {
    tag_id = tag.id;
    device_id = tag.device_id;
    tag_name = tag.tag_name;
    sensor_type = device.sensor_type;
    data_structure_type = n;
  })

  abbrev pub joined_info : TagRow F → Option (DeviceRow F) → Option TagEnrichmentInfo
  joined_info tag none = none
  joined_info tag (some device) = typed_info tag device device.rt_data_structure_type

  -- t.unit IS NULL OR t.description IS NULL OR t.metadata IS NULL
  abbrev pub lacks : TagRow F → Bool
  lacks tag = is_none tag.unit || (is_none tag.description || is_none tag.metadata)

  -- The JOIN with the device, whose rt_data_structure_type is not null.
  unfoldable pub info_of : List (DeviceRow F) → TagRow F → Option TagEnrichmentInfo
  info_of devices tag = joined_info tag (device_by_id tag.device_id devices)

  unfoldable pub find_tags_needing_enrichment :
      List (DeviceRow F) → List (TagRow F) → List TagEnrichmentInfo
  find_tags_needing_enrichment devices [] = []
  find_tags_needing_enrichment devices (tag ∷ tags) =
      let rest = find_tags_needing_enrichment devices tags in
      if lacks tag then add_info (info_of devices tag) rest else rest

  -- The cached tag takes the unit and the description of the catalog.
  abbrev pub retag : FieldMetadata F → ℕ → Text → Option Tag → Cache F → Cache F
  retag m device_id name none c = c
  retag m device_id name (some tag) c =
      set_tag device_id name (record tag { unit = some m.units; description = some m.description })
        c

  -- Enrich and the cache, for a tag whose field is in the catalog.
  unfoldable pub enrich_with :
      EnrichCalls → TagEnrichmentInfo → Option (FieldMetadata F) → Registry F → Registry F
  enrich_with calls i none r = r
  enrich_with calls i (some m) r = if calls.enrich_fails i.tag_id then r else record r {
    tags = enrich i.tag_id m.units m.description (metadata_of m) r.tags;
    cache = retag m i.device_id i.tag_name (get_tag i.device_id i.tag_name r.cache) r.cache;
  }

  -- One round of the loop; an error is only logged.
  abbrev pub entry_for : TagEnrichmentInfo → Cache F → Option (FieldMetadata F)
  entry_for i c = get_catalog_metadata i.sensor_type i.data_structure_type i.tag_name c

  unfoldable pub enrich_infos : EnrichCalls → List TagEnrichmentInfo → Registry F → Registry F
  enrich_infos calls [] r = r
  enrich_infos calls (i ∷ infos) r =
      enrich_infos calls infos (enrich_with calls i (entry_for i r.cache) r)

  -- EnrichTags; the flag says whether it returns an error.
  unfoldable pub enrich_tags : EnrichCalls → Registry F → Registry F × Bool
  enrich_tags calls r =
      if calls.query_fails
      then (r, true)
      else (enrich_infos calls (find_tags_needing_enrichment r.devices r.tags) r, false)

  -- EnrichTag returns an error where the catalog has no entry or the UPDATE fails.
  unfoldable pub enrich_tag : EnrichCalls → TagEnrichmentInfo → Registry F → Registry F × Bool
  enrich_tag calls i r = (
    enrich_with calls i (entry_for i r.cache) r,
    is_none (entry_for i r.cache) || calls.enrich_fails i.tag_id,
  )

module _ {F : Type 0} (d : Decoder F) where
  abbrev then_enrich : EnrichCalls → Registry F × Option Failure → Registry F
  then_enrich calls (r, none) = (enrich_tags calls r).0
  then_enrich calls (r, some e) = r

  -- The listener of catalog.go on the messages that it fetches, each with what fails meanwhile. A
  -- message is committed in any case.
  unfoldable pub listen :
      List (Message F × (CatalogRow → Bool) × EnrichCalls) → Registry F → Registry F
  listen [] r = r
  listen ((msg, fails, calls) ∷ rest) r =
      listen rest (then_enrich calls (process_message d fails msg r))
