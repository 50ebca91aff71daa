-- ===== src/Backfill/Phase.antt =====
-- The phase of the metadata topics, and the devices that it puts into the cache.
use roach.Base.{
  ℕ, suc, ◌≡◌, ◌==◌, ◌<◌, ◌^◌, sym, subst, Text, Bool, true, false, List, [], ◌∷◌, Option, none,
  some, Bool-cases, inl, inr,
}
use roach.Models.{Object, Message, Device, FieldMetadata}
use roach.Cache.{get_device, set_catalog_metadata}
use roach.Registry.{Decoder, DeviceRow, Registry, CatalogRow, upsert_device, update_station_info}
use roach.Registry.DeviceRows.{
  find_device, DistinctLsids, on_row, find_device-upsert_device, find_device-update_station_info,
  upsert_device-DistinctLsids, update_station_info-DistinctLsids,
}
use roach.Metadata.{Calls, Station, keep_orphan, put_extracted, extract_device}
use roach.Metadata
use roach.Metadata.Steps.{with-P}
use roach.Metadata.Cached.{get_device-set_device}
use roach.Catalog.{store_entry, load_catalog, entry_of, put_entry, put_entries}
use roach.Catalog
use roach.Catalog.Entries.{backfill_message-P}
use roach.Backfill.{
  Config, Round, cancelled, timed_out, fetch_failed, fetched, Ending, Seek, seek_of, reached_end,
  read_metadata, process_metadata_topic, MetadataCalls, TopicCalls, handle_metadata, handle_catalog,
  and_then, sensors_topic, catalog_topic, station_topic, process_metadata_phase,
}

abbrev pub IsCovered : {F : Type 0} → Option (DeviceRow F) → Option Device → Type 0
IsCovered none device = device ≡ none
IsCovered (some row) device = Unit

module _ {F : Type 0} (k : ℕ) where
  -- A device that is not in the table is not in the cache.
  abbrev pub Covered : Registry F → Type 0
  Covered r = DistinctLsids r.devices × IsCovered (find_device k r.devices) (get_device k r.cache)

  Covered-kept :
      (c : Calls) (msg : Message F) (lsid : ℕ) (reason : Text) (r : Registry F)
      → Covered r
      → Covered (keep_orphan c msg lsid reason r)
  unfolding keep_orphan
  Covered-kept c msg lsid reason r a = elim (Bool-cases c.save_fails) [
    | inl e ↦ rw e a
    | inr e ↦ rw e a
  ]

  IsCovered-on_row :
      (f : DeviceRow F → DeviceRow F) (row : Option (DeviceRow F)) (device : Option Device)
      → IsCovered row device
      → IsCovered (on_row f row) device
  IsCovered-on_row f none device a = a
  IsCovered-on_row f (some row) device a = tt

  Covered-updated :
      (s : Station) (r : Registry F)
      → Covered r
      → Covered (record r { devices = update_station_info s.id s.name s.uuid r.devices })
  Covered-updated s r a = (
    update_station_info-DistinctLsids s.id s.name s.uuid r.devices a.0,
    subst (λ row. IsCovered row (get_device k r.cache))
        (sym (find_device-update_station_info s.id s.name s.uuid r.devices k))
        (IsCovered-on_row _ (find_device k r.devices) (get_device k r.cache) a.1),
  )

  module _ (d : Decoder F) where
    Covered-upserted :
        (c : Calls) (lsid : F) (m : Object F) (r : Registry F)
        → Covered r
        → Covered
            (put_extracted d c lsid m (record r {
              devices = upsert_device d r.next_device_id lsid m r.devices;
              next_device_id = suc r.next_device_id;
            })).0
    Covered-upserted c lsid m r a = (
      upsert_device-DistinctLsids d r.next_device_id lsid m r.devices a.0,
      elim (Bool-cases (d.to_int lsid == k)) [
        | inl e ↦ rw (find_device-upsert_device d r.next_device_id lsid m r.devices k, e) tt
        | inr e ↦
            rw
              (
                find_device-upsert_device d r.next_device_id lsid m r.devices k,
                get_device-set_device (d.to_int lsid) k (extract_device d c lsid m) r.cache,
                e,
              )
              a.1
      ],
    )

    handle_metadata-Covered :
        (c : Calls) (msg : Message F) (r : Registry F)
        → Covered r
        → Covered (Metadata.backfill_message d c msg r).0
    unfolding Metadata.backfill_message
    handle_metadata-Covered c msg r a =
        with-P d c (put_extracted d c) (λ r. (r, none)) Covered (Covered-kept c) Covered-updated
          (Covered-upserted c) (λ r a. a) msg msg.body r a

    Covered-stored :
        (fails : CatalogRow → Bool) (e : FieldMetadata F) (r : Registry F)
        → e.sensor_type < 2 ^ 64
        → Covered r
        → Covered (store_entry d fails e r)
    unfolding store_entry set_catalog_metadata get_device
    Covered-stored fails e r h a = elim (Bool-cases (fails (Catalog.row_of e))) [
      | inl b ↦ rw (b, store_entry) a
      | inr b ↦ rw (b, store_entry) a
    ]

    -- The loop over a metadata topic.
    read_metadata-Covered :
        (cfg : Config) (handle : ℕ → Message F → Registry F → Registry F)
        (keeps : (n : ℕ) (msg : Message F) (r : Registry F) → Covered r → Covered (handle n msg r))
        (n : ℕ) (rounds : List (Round F)) (r : Registry F)
        → Covered r
        → Covered (read_metadata cfg handle n rounds r).0
    unfolding read_metadata
    read_metadata-Covered cfg handle keeps n [] r a = a
    read_metadata-Covered cfg handle keeps n (cancelled ∷ rounds) r a = a
    read_metadata-Covered cfg handle keeps n (timed_out ∷ rounds) r a = a
    read_metadata-Covered cfg handle keeps n (fetch_failed ∷ rounds) r a = a
    read_metadata-Covered cfg handle keeps n (fetched msg b ∷ rounds) r a =
        elim (Bool-cases (reached_end cfg msg.offset)) [
          | inl e ↦ rw (e, read_metadata) a
          | inr e ↦
              rw (e, read_metadata)
                (read_metadata-Covered cfg handle keeps (suc n) rounds (handle n msg r)
                  (keeps n msg r a))
        ]

    topic-Covered :
        (cfg : Config) (handle : ℕ → Message F → Registry F → Registry F)
        (keeps : (n : ℕ) (msg : Message F) (r : Registry F) → Covered r → Covered (handle n msg r))
        (seek_fails : Bool) (reader : Seek → List (Round F)) (r : Registry F)
        → Covered r
        → Covered (process_metadata_topic cfg handle seek_fails reader r).0
    unfolding process_metadata_topic
    topic-Covered cfg handle keeps true reader r a = a
    topic-Covered cfg handle keeps false reader r a =
        read_metadata-Covered cfg handle keeps 0 (reader (seek_of cfg.start_offset)) r a

    and_then-Covered :
        (cfg : Config) (m : MetadataCalls F) (q : Registry F × Ending)
        (next : Registry F → Registry F × Ending)
        → ((r : Registry F) → Covered r → Covered (next r).0)
        → Covered q.0
        → Covered (and_then cfg d m q next).0
    and_then-Covered cfg m (r, Ending.finished) next keeps a = keeps r a
    and_then-Covered cfg m (r, Ending.still_reading) next keeps a = a
    and_then-Covered cfg m (r, Ending.seek_error) next keeps a = a
    and_then-Covered cfg m (r, Ending.fetch_error) next keeps a = a
    and_then-Covered cfg m (r, Ending.context_error) next keeps a = a

    pub phase-Covered :
        (cfg : Config) (m : MetadataCalls F) (word : (x : F) → d.to_int x < 2 ^ 64) (r : Registry F)
        → Covered r
        → Covered (process_metadata_phase cfg d m r).0
    unfolding process_metadata_phase
    phase-Covered cfg m word r a =
        let catalogs = λ (n : ℕ).
          backfill_message-P d (m.catalog.upsert_entry_fails n) word Covered
            (Covered-stored (m.catalog.upsert_entry_fails n)) (λ c msg. Covered-kept c msg 0)
            (m.catalog.calls n) in
        let topic = λ (t : TopicCalls F).
          topic-Covered cfg (handle_metadata cfg d m t) (λ n. handle_metadata-Covered (t.calls n))
            t.seek_fails t.reader in
        and_then-Covered cfg m (sensors_topic cfg d m r)
          (λ r1. and_then cfg d m (catalog_topic cfg d m r1) (station_topic cfg d m))
          (λ r1 a1.
            and_then-Covered cfg m (catalog_topic cfg d m r1) (station_topic cfg d m)
              (topic m.station)
              (topic-Covered cfg (handle_catalog cfg d m m.catalog) catalogs m.catalog.seek_fails
                m.catalog.reader r1 a1))
          (topic m.sensors r a)
