-- ===== src/Enrichment/Filled.antt =====
-- What EnrichTags makes of the tags: the rows and the cached tags one by one, each against a
-- description of it alone.
use roach.Base.{
  ℕ, Text, ◌<◌, ◌^◌, ◌≡◌, ◌≢◌, ◌==◌, refl, sym, ◌∙◌, ap, Bool, true, false, List, [], ◌∷◌, Option,
  none, some, arith, subst, if◌then◌else◌, Bool-cases, inl, inr, map,
}
use mathlib.Core.Path.{fun_ext}
use roach.Models.{FieldMetadata}
use roach.Cache.{Cache, get_tag}
use roach.Repository.{TagRow}
use roach.Registry.{DeviceRow, Registry}
use roach.Enrichment.{
  TagEnrichmentInfo, EnrichCalls, device_by_id, joined_info, typed_info, lacks, info_of, add_info,
  find_tags_needing_enrichment, enrich_infos, enrich_tags,
}
use roach.Enrichment.Rounds.{
  filled, entry_of_info, entry_of_tag, enriched, IsFresh, DistinctIds, touch_all, map-map,
  entry_for-catalog, enrich_infos-touch,
}
use roach.Enrichment.Recached.{AllSmall, recached, entry_among, get_tag-enrich_infos}

module _ {F : Type 0} where
  -- What the info of one tag does to a row.
  abbrev touch_own : List (DeviceRow F) → Cache F → TagRow F → TagRow F → TagRow F
  touch_own devices c t row =
      if lacks t
      then (if row.id == t.id then filled (entry_of_tag devices c t) row else row)
      else row

  touch_info :
      (devices : List (DeviceRow F)) (c : Cache F) (t row : TagRow F)
      (infos : List TagEnrichmentInfo)
      → touch_all c (add_info (info_of devices t) infos) row
        ≡ touch_all c infos (if row.id == t.id then filled (entry_of_tag devices c t) row else row)
  unfolding info_of
  touch_info devices c t row infos = by_device (device_by_id t.device_id devices)
    where
      by_type :
          (device : DeviceRow F) (n : Option ℕ)
          → touch_all c (add_info (typed_info t device n) infos) row
            ≡ touch_all c infos (
                if row.id == t.id
                then filled (entry_of_info c (typed_info t device n)) row
                else row)
      by_type device none = ap (touch_all c infos) (ground arith)
      by_type device (some n) = refl

      by_device :
          (o : Option (DeviceRow F))
          → touch_all c (add_info (joined_info t o) infos) row
            ≡ touch_all c infos
                (if row.id == t.id then filled (entry_of_info c (joined_info t o)) row else row)
      by_device none = ap (touch_all c infos) (ground arith)
      by_device (some device) = by_type device device.rt_data_structure_type

  touch_all-cons :
      (devices : List (DeviceRow F)) (c : Cache F) (t row : TagRow F) (ts : List (TagRow F))
      → touch_all c (find_tags_needing_enrichment devices (t ∷ ts)) row
        ≡ touch_all c (find_tags_needing_enrichment devices ts) (touch_own devices c t row)
  unfolding find_tags_needing_enrichment
  touch_all-cons devices c t row ts = elim (Bool-cases (lacks t)) [
    | inl e ↦
        rw (e, find_tags_needing_enrichment)
          (touch_info devices c t row (find_tags_needing_enrichment devices ts))
    | inr e ↦ rw (e, find_tags_needing_enrichment)
  ]

  filled-id : (e : Option (FieldMetadata F)) (row : TagRow F) → (filled e row).id ≡ row.id
  filled-id none row = refl
  filled-id (some m) row = refl

  -- The tags of other ids do not matter to a row.
  touch_all_fresh :
      (devices : List (DeviceRow F)) (c : Cache F) (row : TagRow F) (ts : List (TagRow F))
      → IsFresh row.id ts
      → touch_all c (find_tags_needing_enrichment devices ts) row ≡ row
  unfolding find_tags_needing_enrichment
  touch_all_fresh devices c row [] h = refl
  touch_all_fresh devices c row (t ∷ ts) h =
      touch_all-cons devices c t row ts
      ∙ ap (touch_all c (find_tags_needing_enrichment devices ts))
          (let e : touch_own devices c t row ≡ row = ground (arith, h.0) in e)
      ∙ touch_all_fresh devices c row ts h.1

  filled_complete :
      (e : Option (FieldMetadata F)) (row : TagRow F) → lacks row ≡ false → filled e row ≡ row
  filled_complete none row h = refl
  filled_complete (some m) row h = ground arith

  touch_own_self :
      (devices : List (DeviceRow F)) (c : Cache F) (t : TagRow F)
      → touch_own devices c t t ≡ enriched devices c t
  touch_own_self devices c t = ground (arith, filled_complete (entry_of_tag devices c t) t)

  -- The first tag does not matter to the rows after it.
  others_first :
      (devices : List (DeviceRow F)) (c : Cache F) (t : TagRow F) (ts rows : List (TagRow F))
      → IsFresh t.id rows
      → map (touch_all c (find_tags_needing_enrichment devices (t ∷ ts))) rows
        ≡ map (touch_all c (find_tags_needing_enrichment devices ts)) rows
  others_first devices c t ts [] h = refl
  others_first devices c t ts (row ∷ rows) h =
      let own : touch_own devices c t row ≡ row = ground (arith, h.0) in
      let first =
        touch_all-cons devices c t row ts
        ∙ ap (touch_all c (find_tags_needing_enrichment devices ts)) own in
      let others = others_first devices c t ts rows h.1 in λ i. first i ∷ others i

  -- Each row by itself.
  touch_all-enriched :
      (devices : List (DeviceRow F)) (c : Cache F) (rows : List (TagRow F))
      → DistinctIds rows
      → map (touch_all c (find_tags_needing_enrichment devices rows)) rows
        ≡ map (enriched devices c) rows
  touch_all-enriched devices c [] h = refl
  touch_all-enriched devices c (t ∷ ts) h =
      let own = enriched devices c t in
      let first =
        touch_all-cons devices c t t ts
        ∙ ap (touch_all c (find_tags_needing_enrichment devices ts)) (touch_own_self devices c t)
        ∙ touch_all_fresh devices c own ts
            (subst (λ id. IsFresh id ts) (sym (filled-id (entry_of_tag devices c t) t)) h.0) in
      let others = others_first devices c t ts ts h.0 ∙ touch_all-enriched devices c ts h.1 in
      λ i. first i ∷ others i

  abbrev Enriches : Registry F → Registry F → Type 0
  Enriches r r' =
      (r'.tags ≡ map (enriched r.devices r.cache) r.tags)
      × (r'.cache.catalog ≡ r.cache.catalog)
      × (r'.devices ≡ r.devices)

  enrich_tags_works :
      (calls : EnrichCalls) (r : Registry F)
      → calls.query_fails ≡ false
      → (enrich_tags calls r).0
        ≡ enrich_infos calls (find_tags_needing_enrichment r.devices r.tags) r
  unfolding enrich_tags
  enrich_tags_works calls r answers =
      let all = enrich_infos calls (find_tags_needing_enrichment r.devices r.tags) r in
      ap (λ b. let q : Registry F × Bool = if b then (r, true) else (all, false) in q.0) answers

  enrich_tags_once :
      (calls : EnrichCalls) (r : Registry F)
      → ((id : ℕ) → calls.enrich_fails id ≡ false)
      → calls.query_fails ≡ false
      → DistinctIds r.tags
      → Enriches r (enrich_tags calls r).0
  enrich_tags_once calls r works answers h =
      let infos = find_tags_needing_enrichment r.devices r.tags in
      let (tags, catalog, devices) = enrich_infos-touch calls works infos r in
      subst (Enriches r) (sym (enrich_tags_works calls r answers))
        (tags ∙ touch_all-enriched r.devices r.cache r.tags h, catalog, devices)

  IsFresh-enriched :
      (devices : List (DeviceRow F)) (c : Cache F) (id : ℕ) (rows : List (TagRow F))
      → IsFresh id rows
      → IsFresh id (map (enriched devices c) rows)
  IsFresh-enriched devices c id [] h = tt
  IsFresh-enriched devices c id (row ∷ rows) h = (
    subst (λ n. id ≢ n) (sym (filled-id (entry_of_tag devices c row) row)) h.0,
    IsFresh-enriched devices c id rows h.1,
  )

  DistinctIds-enriched :
      (devices : List (DeviceRow F)) (c : Cache F) (rows : List (TagRow F))
      → DistinctIds rows
      → DistinctIds (map (enriched devices c) rows)
  DistinctIds-enriched devices c [] h = tt
  DistinctIds-enriched devices c (row ∷ rows) h = (
    subst (λ n. IsFresh n (map (enriched devices c) rows))
        (sym (filled-id (entry_of_tag devices c row) row))
        (IsFresh-enriched devices c row.id rows h.0),
    DistinctIds-enriched devices c rows h.1,
  )

  entry_of_info-catalog :
      (i : Option TagEnrichmentInfo) (c c' : Cache F)
      → c'.catalog ≡ c.catalog
      → entry_of_info c' i ≡ entry_of_info c i
  entry_of_info-catalog none c c' e = refl
  entry_of_info-catalog (some i) c c' e = entry_for-catalog i c c' e

  info_of-filled :
      (devices : List (DeviceRow F)) (e : Option (FieldMetadata F)) (row : TagRow F)
      → info_of devices (filled e row) ≡ info_of devices row
  unfolding info_of
  info_of-filled devices none row = refl
  info_of-filled devices (some m) row = refl

  filled-filled :
      (e : Option (FieldMetadata F)) (row : TagRow F) → filled e (filled e row) ≡ filled e row
  filled-filled none row = refl
  filled-filled (some m) row = ground arith

  enriched-again :
      (devices : List (DeviceRow F)) (c c' : Cache F) (row : TagRow F)
      → c'.catalog ≡ c.catalog
      → enriched devices c' (enriched devices c row) ≡ enriched devices c row
  enriched-again devices c c' row e =
      let entry = entry_of_tag devices c row in
      ap (λ i. filled (entry_of_info c' i) (filled entry row)) (info_of-filled devices entry row)
      ∙ ap (λ m. filled m (filled entry row)) (entry_of_info-catalog (info_of devices row) c c' e)
      ∙ filled-filled entry row

  -- If its statements work, the ids of tags are distinct and those of devices below 2 ^ 64,
  -- EnrichTags makes each row of the tags what a description of the row alone says: where the
  -- device of the tag has a data structure type and the catalog an entry for its name, the missing
  -- unit, description and metadata are the entry's; all else of the row stays. A second EnrichTags
  -- leaves the rows as they are. A tag of the cache takes the unit and the description of the
  -- catalog's entry for it, also where it has its own, and keeps its id, name and type, where its
  -- tag is one of those found to lack something and the catalog has an entry; any other tag of the
  -- cache stays as it is.
  pub enrich_tags-enriched :
      (calls : EnrichCalls) (r : Registry F)
      → ((id : ℕ) → calls.enrich_fails id ≡ false)
      → calls.query_fails ≡ false
      → DistinctIds r.tags
      → AllSmall (find_tags_needing_enrichment r.devices r.tags)
      → let r' = (enrich_tags calls r).0 in
        (r'.tags ≡ map (enriched r.devices r.cache) r.tags)
        × ((enrich_tags calls r').0.tags ≡ r'.tags)
        × ((device_id : ℕ) (name : Text)
            → device_id < 2 ^ 64
            → get_tag device_id name r'.cache
              ≡ recached
                  (entry_among
                    (find_tags_needing_enrichment r.devices r.tags)
                    r.cache
                    device_id
                    name)
                  (get_tag device_id name r.cache))
  enrich_tags-enriched calls r works answers h small =
      let r' = (enrich_tags calls r).0 in
      let infos = find_tags_needing_enrichment r.devices r.tags in
      let first = enrich_tags_once calls r works answers h in
      let tags = first.0 in
      let again =
        enrich_tags_once calls r' works answers
          (subst DistinctIds (sym tags) (DistinctIds-enriched r.devices r.cache r.tags h)) in
      (
        tags,
        again.0
            ∙ ap (λ ds. map (enriched ds r'.cache) r'.tags) first.2
            ∙ ap (map (enriched r.devices r'.cache)) tags
            ∙ map-map (enriched r.devices r'.cache) (enriched r.devices r.cache) r.tags
            ∙ ap (λ g. map g r.tags)
                (fun_ext (λ row. enriched-again r.devices r.cache r'.cache row first.1))
            ∙ sym tags,
        λ d n s.
            ap (λ q. get_tag d n q.cache) (enrich_tags_works calls r answers)
            ∙ get_tag-enrich_infos calls infos r d n works small s,
      )
