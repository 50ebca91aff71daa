-- ===== src/Weather/Metadata/Clashes.antt =====
-- services/weatherlink-kafka/service/metadata.go: a station and a sensor with the same number.
use roach.Base.{
  ℕ, ◌≡◌, ◌==◌, sym, refl, subst, Bool, true, false, List, [], ◌∷◌, Option, none, some, select, map,
  Text, text_beq_iff, text_eq, nat_eq, arith, Bool-cases, inl, inr,
}
use roach.Base.Assoc.{contains}
use roach.Base.Strings.{format_int}
use roach.Weather.Records.{Message}
use roach.Weather.Metadata.{
  SensorMetadata, CatalogEntry, MetadataService, metadata_key, max_data_structure_type,
  publish_metadata, publish_new, sensor_message, learn, fetch_sensor_metadata, catalog_message,
  publish_entry, publish_entries, fetch_catalog_metadata, fetch_station_metadata, Answers,
  with_sensors, with_catalog, with_station, fetch_all_metadata,
}

abbrev pub lsids : List SensorMetadata → List ℕ
lsids = map λ (x : SensorMetadata). x.lsid

module _ (fails : ℕ → Bool) where
  abbrev Knows : Text → MetadataService → Type 0
  Knows k s = contains k s.existing_metadata_keys ≡ true

  publish_new-keeps :
      (k : Text) (m : Message) (s : MetadataService) → Knows k s → Knows k (publish_new fails m s)
  unfolding publish_new publish_metadata
  publish_new-keeps k m s h = elim (Bool-cases (contains m.key s.existing_metadata_keys)) [
    | inl e ↦ rw e h
    | inr e ↦ elim (Bool-cases (fails s.attempts)) [
      | inl f ↦ rw (e, f) h
      | inr f ↦ rw (e, f) (ground (arith, h))
    ]
  ]

  publish_new-Knows :
      (m : Message) (s : MetadataService)
      → fails s.attempts ≡ false
      → Knows m.key (publish_new fails m s)
  unfolding publish_new publish_metadata
  publish_new-Knows m s f = elim (Bool-cases (contains m.key s.existing_metadata_keys)) [
    | inl e ↦ rw e e
    | inr e ↦ rw (e, f) (ground (arith, text_beq_iff m.key m.key))
  ]

  sensors-keeps :
      (k : Text) (week_start : ℕ) (sensors : List SensorMetadata) (s : MetadataService)
      → Knows k s
      → Knows k (fetch_sensor_metadata fails week_start sensors s)
  unfolding fetch_sensor_metadata
  sensors-keeps k week_start [] s h = h
  sensors-keeps k week_start (sensor ∷ sensors) s h =
      sensors-keeps k week_start sensors
        (publish_new fails (sensor_message week_start sensor) (learn sensor s))
        (publish_new-keeps k (sensor_message week_start sensor) (learn sensor s) h)

  sensors-Knows :
      (lsid week_start : ℕ) (sensors : List SensorMetadata) (s : MetadataService)
      → ((n : ℕ) → fails n ≡ false)
      → contains lsid (lsids sensors) ≡ true
      → Knows
          (metadata_key (format_int lsid) week_start)
          (fetch_sensor_metadata fails week_start sensors s)
  unfolding fetch_sensor_metadata
  sensors-Knows lsid week_start [] s works h = absurd (ground arith)
  sensors-Knows lsid week_start (sensor ∷ sensors) s works h =
      let s' = publish_new fails (sensor_message week_start sensor) (learn sensor s) in
      elim (Bool-cases (sensor.lsid == lsid)) [
        | inl e ↦
            let same : sensor.lsid ≡ lsid = ground arith in
            sensors-keeps (metadata_key (format_int lsid) week_start) week_start sensors s' (
              subst (λ k. Knows (metadata_key (format_int k) week_start) s') same
                (publish_new-Knows (sensor_message week_start sensor) (learn sensor s)
                  (works (learn sensor s).attempts)))
        | inr e ↦ sensors-Knows lsid week_start sensors s' works (ground (arith, h, e))
      ]

  publish_entries-keeps :
      (k : Text) (generated_at : ℕ) (entries : List CatalogEntry) (s : MetadataService)
      → Knows k s
      → Knows k (publish_entries fails generated_at entries s)
  unfolding publish_entries
  publish_entries-keeps k generated_at [] s h = h
  publish_entries-keeps k generated_at (entry ∷ entries) s h =
      publish_entries-keeps k generated_at entries
        (publish_entry fails generated_at entry (max_data_structure_type entry) s)
        (by_type (max_data_structure_type entry))
    where
      by_type : (n : Option ℕ) → Knows k (publish_entry fails generated_at entry n s)
      by_type none = h
      by_type (some n) = publish_new-keeps k (catalog_message generated_at entry n) s h

  catalog-keeps :
      (k : Text) (catalog : Option (ℕ × List CatalogEntry)) (s : MetadataService)
      → Knows k s
      → Knows k (with_catalog fails catalog s)
  unfolding fetch_catalog_metadata
  catalog-keeps k none s h = h
  catalog-keeps k (some (generated_at, entries)) s h =
      publish_entries-keeps k generated_at
        (select (λ (e : CatalogEntry). contains e.sensor_type s.sensor_types) entries) s h

  station_known :
      (station_id : Text) (week_start : ℕ) (station : Option Text) (s : MetadataService)
      → Knows (metadata_key station_id week_start) s
      → with_station fails station_id week_start station s ≡ s
  unfolding fetch_station_metadata publish_new
  station_known station_id week_start none s h = refl
  station_known station_id week_start (some body) s h = rw h

  -- If the id of the station is also the number of one of the sensors, a round in which all works and
  -- the week does not change is the round without the station: its message is not published.
  pub fetch_all_metadata_no_station :
      (station_id : Text) (a : Answers) (s : MetadataService) (sensors : List SensorMetadata)
      (lsid : ℕ)
      → ((n : ℕ) → fails n ≡ false)
      → a.sensors ≡ some sensors
      → a.station_week ≡ a.sensors_week
      → contains lsid (lsids sensors) ≡ true
      → station_id ≡ format_int lsid
      → fetch_all_metadata fails station_id a s
        ≡ fetch_all_metadata fails station_id (record a { station = none }) s
  unfolding fetch_all_metadata
  fetch_all_metadata_no_station station_id a s sensors lsid works answers week listed clash =
      let s1 = with_sensors fails a.sensors_week a.sensors s in
      let first : Knows (metadata_key (format_int lsid) a.sensors_week) s1 =
        subst
          (λ o.
            Knows (metadata_key (format_int lsid) a.sensors_week)
              (with_sensors fails a.sensors_week o s))
          (sym answers) (sensors-Knows lsid a.sensors_week sensors s works listed) in
      let key : metadata_key (format_int lsid) a.sensors_week
          ≡ metadata_key station_id a.station_week =
        λ i. metadata_key (sym clash i) (sym week i) in
      let s2 = with_catalog fails a.catalog s1 in
      station_known station_id a.station_week a.station s2 (
        catalog-keeps (metadata_key station_id a.station_week) a.catalog s1
          (subst (λ k. Knows k s1) key first))
