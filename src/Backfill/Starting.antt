-- ===== src/Backfill/Starting.antt =====
-- The start of the backfill: what the cache holds of the devices when the workers start.
use roach.Base.{
  ℕ, ◌≡◌, ◌<◌, ◌^◌, refl, ◌∙◌, Bool, true, false, List, [], ◌∷◌, Option, none, some, arith,
  if◌then◌else◌, Bool-cases, inl, inr, map,
}
use roach.Models.{Device, FieldMetadata, Tag}
use roach.Cache.{Cache, get_device, set_tag, set_catalog_metadata}
use roach.Repository.{load_all}
use roach.Processor.{put_tags}
use roach.Registry.{Decoder, DeviceRow, Registry}
use roach.Registry.DeviceRows.{find_device, DistinctLsids}
use roach.Metadata.Cached.{held, put_devices-held}
use roach.Catalog.{load_catalog, entry_of, put_entries}
use roach.Backfill.{
  Config, Ending, StartCalls, StartError, devices_not_loaded, tags_not_loaded,
  process_metadata_phase, put_all_devices, put_all_tags, reload, after_phase, with_metadata,
  prepare,
}
use roach.Backfill.Phase.{IsCovered, Covered, phase-Covered}

module _ {F : Type 0} (k : ℕ) where
  -- The cache has the device as its row has it, and no device without a row.
  abbrev Exact : Registry F → Type 0
  Exact r = DistinctLsids r.devices × (get_device k r.cache ≡ held (find_device k r.devices) none)

  held-IsCovered :
      (row : Option (DeviceRow F)) (device : Option Device)
      → device ≡ held row none
      → IsCovered row device
  held-IsCovered none device e = e
  held-IsCovered (some row) device e = tt

  IsCovered-held :
      (row : Option (DeviceRow F)) (device : Option Device)
      → IsCovered row device
      → held row device ≡ held row none
  IsCovered-held none device e = e
  IsCovered-held (some row) device e = refl

  put_tags-devices : (ts : List Tag) (c : Cache F) → get_device k (put_tags ts c) ≡ get_device k c
  unfolding put_tags set_tag get_device
  put_tags-devices [] c = refl
  put_tags-devices (t ∷ ts) c = put_tags-devices ts (set_tag t.device_id t.tag_name t c)

  put_entries-devices :
      (es : List (FieldMetadata F)) (c : Cache F) → get_device k (put_entries es c) ≡ get_device k c
  unfolding put_entries set_catalog_metadata get_device
  put_entries-devices [] c = refl
  put_entries-devices (e ∷ es) c =
      put_entries-devices es
        (set_catalog_metadata e.sensor_type e.data_structure_type e.field_name e c)

  load_catalog-Exact : (fails : Bool) (r : Registry F) → Exact r → Exact (load_catalog fails r)
  unfolding load_catalog
  load_catalog-Exact true r a = a
  load_catalog-Exact false r a =
      (a.0, put_entries-devices (map entry_of r.sensor_catalog) r.cache ∙ a.1)

  module _ (cfg : Config) (d : Decoder F) (s : StartCalls F) where
    put_all_devices-Exact : (r : Registry F) → Covered k r → Exact (put_all_devices cfg d s r)
    put_all_devices-Exact r a = (
      a.0,
      put_devices-held r.devices k r.cache a.0
          ∙ IsCovered-held (find_device k r.devices) (get_device k r.cache) a.1,
    )

    -- What a successful start leaves.
    abbrev Prepared : Registry F × Option StartError → Type 0
    Prepared (r, none) = Exact r
    Prepared (r, some e) = Unit

    reload-Prepared : (r : Registry F) → Covered k r → Prepared (reload cfg d s r)
    reload-Prepared r a = elim (Bool-cases s.reload_devices_fail) [
      | inl e ↦ rw e tt
      | inr e ↦ rw e (load_catalog-Exact s.reload_catalog_fails _ (put_all_devices-Exact r a))
    ]

    after_phase-Prepared :
        (q : Registry F × Ending) → Covered k q.0 → Prepared (after_phase cfg d s q)
    after_phase-Prepared (r, Ending.finished) a = reload-Prepared r a
    after_phase-Prepared (r, Ending.still_reading) a = tt
    after_phase-Prepared (r, Ending.seek_error) a = tt
    after_phase-Prepared (r, Ending.fetch_error) a = tt
    after_phase-Prepared (r, Ending.context_error) a = tt

    with_metadata-Prepared :
        (word : (x : F) → d.to_int x < 2 ^ 64) (r : Registry F)
        → Exact r
        → Prepared (with_metadata cfg d s r)
    with_metadata-Prepared word r a =
        let c : Covered k r =
          (a.0, held-IsCovered (find_device k r.devices) (get_device k r.cache) a.1) in
        by_config cfg.include_metadata (
          after_phase-Prepared (process_metadata_phase cfg d s.metadata r)
            (phase-Covered k d cfg s.metadata word r c))
      where
        by_config :
            (b : Bool)
            → Prepared (after_phase cfg d s (process_metadata_phase cfg d s.metadata r))
            → Prepared (
                if b
                then after_phase cfg d s (process_metadata_phase cfg d s.metadata r)
                else (r, none))
        by_config true p = p
        by_config false p = a

    prepare-Prepared :
        (word : (x : F) → d.to_int x < 2 ^ 64) (r : Registry F)
        → DistinctLsids r.devices
        → get_device k r.cache ≡ none
        → Prepared (prepare cfg d s r)
    unfolding prepare
    prepare-Prepared word r h empty =
        let loaded =
          load_catalog s.catalog_fails (put_all_tags cfg d s (put_all_devices cfg d s r)) in
        let first =
          put_all_devices-Exact r
            (h, absent (find_device k r.devices) (get_device k r.cache) empty) in
        let tagged : Exact (put_all_tags cfg d s (put_all_devices cfg d s r)) = (
          first.0,
          put_tags-devices (load_all r.tags) (put_all_devices cfg d s r).cache ∙ first.1,
        ) in
        by_calls s.devices_fail s.tags_fail
          (with_metadata-Prepared word loaded (load_catalog-Exact s.catalog_fails _ tagged))
      where
        absent :
            (row : Option (DeviceRow F)) (device : Option Device)
            → device ≡ none
            → IsCovered row device
        absent none device e = e
        absent (some row) device e = tt

        by_calls :
            (a b : Bool)
            → Prepared (
                with_metadata cfg d s
                  (load_catalog s.catalog_fails (put_all_tags cfg d s (put_all_devices cfg d s r))))
            → Prepared (
                if a
                then (r, some devices_not_loaded)
                else if b
                then (put_all_devices cfg d s r, some tags_not_loaded)
                else with_metadata cfg d s (
                    load_catalog s.catalog_fails
                      (put_all_tags cfg d s (put_all_devices cfg d s r))))
        by_calls true b p = tt
        by_calls false true p = tt
        by_calls false false p = p

    Prepared-Exact : (q : Registry F × Option StartError) → q.1 ≡ none → Prepared q → Exact q.0
    Prepared-Exact (r, none) e p = p
    Prepared-Exact (r, some x) e p = absurd (ground arith)

    -- If Start gets as far as the workers, with or without the metadata topics and whichever calls
    -- failed on the way, each for itself, the cache holds each device of the table as its row has it, and no device that
    -- has no row: none of the ids left at 0 by the metadata processor.
    pub prepare-get_device :
        (r : Registry F)
        → ((x : F) → d.to_int x < 2 ^ 64)
        → DistinctLsids r.devices
        → get_device k r.cache ≡ none
        → (prepare cfg d s r).1 ≡ none
        → let r' = (prepare cfg d s r).0 in
          get_device k r'.cache ≡ held (find_device k r'.devices) none
    prepare-get_device r word h empty works =
        (Prepared-Exact (prepare cfg d s r) works (prepare-Prepared word r h empty)).1
