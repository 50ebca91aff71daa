-- ===== src/Weather/Metadata/Keys.antt =====
-- services/weatherlink-kafka/service/metadata.go: the keys of the messages, which sensors, catalog
-- and station share.
use roach.Base.{
  ℕ, ◌≡◌, Bool, true, List, [], ◌∷◌, Option, none, some, select, Text, text_beq_iff, text_eq,
  nat_eq, arith, Bool-cases, inl, inr, All,
}
use roach.Base.Assoc.{contains}
use roach.Weather.Records.{Message}
use roach.Weather.Duplicates.{keys_of, NoRepeats, contains-All, All-more}
use roach.Weather.Metadata.{
  SensorMetadata, CatalogEntry, MetadataService, max_data_structure_type, publish_metadata,
  publish_new, sensor_message, learn, fetch_sensor_metadata, catalog_message, publish_entry,
  publish_entries, fetch_catalog_metadata, station_message, fetch_station_metadata, Answers,
  with_sensors, with_catalog, with_station, fetch_all_metadata, update_metadata,
}

-- No key is published twice, and the service knows the keys that it has published.
pub record IsPublishedOnce (s : MetadataService) : Type 0 where
  pub no_repeats : NoRepeats (keys_of s.published)
  pub known : All (λ k. contains k s.existing_metadata_keys ≡ true) (keys_of s.published)

module _ (fails : ℕ → Bool) where
  publish_new-IsPublishedOnce :
      (m : Message) (s : MetadataService)
      → IsPublishedOnce s
      → IsPublishedOnce (publish_new fails m s)
  unfolding publish_new publish_metadata
  publish_new-IsPublishedOnce m s d = elim (Bool-cases (contains m.key s.existing_metadata_keys)) [
    | inl e ↦ rw e d
    | inr e ↦ elim (Bool-cases (fails s.attempts)) [
      | inl f ↦ rw (e, f) record { no_repeats = d.no_repeats; known = d.known }
      | inr f ↦
          rw (e, f)
            record {
              no_repeats = (
                ground (
                  arith,
                  e,
                  contains-All m.key (keys_of s.published) s.existing_metadata_keys d.known,
                ),
                d.no_repeats,
              );
              known = (
                ground (arith, text_beq_iff m.key m.key),
                All-more m.key (keys_of s.published) s.existing_metadata_keys d.known,
              );
            }
    ]
  ]

  sensors-IsPublishedOnce :
      (week_start : ℕ) (sensors : List SensorMetadata) (s : MetadataService)
      → IsPublishedOnce s
      → IsPublishedOnce (fetch_sensor_metadata fails week_start sensors s)
  unfolding fetch_sensor_metadata
  sensors-IsPublishedOnce week_start [] s d = d
  sensors-IsPublishedOnce week_start (sensor ∷ sensors) s d =
      sensors-IsPublishedOnce week_start sensors
        (publish_new fails (sensor_message week_start sensor) (learn sensor s))
        (publish_new-IsPublishedOnce (sensor_message week_start sensor) (learn sensor s)
          (record { no_repeats = d.no_repeats; known = d.known }))

  publish_entries-IsPublishedOnce :
      (generated_at : ℕ) (entries : List CatalogEntry) (s : MetadataService)
      → IsPublishedOnce s
      → IsPublishedOnce (publish_entries fails generated_at entries s)
  unfolding publish_entries
  publish_entries-IsPublishedOnce generated_at [] s d = d
  publish_entries-IsPublishedOnce generated_at (entry ∷ entries) s d =
      publish_entries-IsPublishedOnce generated_at entries
        (publish_entry fails generated_at entry (max_data_structure_type entry) s)
        (by_type (max_data_structure_type entry))
    where
      by_type :
          (max_type : Option ℕ)
          → IsPublishedOnce (publish_entry fails generated_at entry max_type s)
      by_type none = d
      by_type (some n) = publish_new-IsPublishedOnce (catalog_message generated_at entry n) s d

  -- Whatever the API answers, round after round, and whatever attempts to publish fail: no key is
  -- published twice, and the keys published are known afterwards, if both hold before.
  pub update_metadata-IsPublishedOnce :
      (station_id : Text) (rounds : List Answers) (s : MetadataService)
      → IsPublishedOnce s
      → IsPublishedOnce (update_metadata fails station_id rounds s)
  unfolding update_metadata fetch_all_metadata fetch_catalog_metadata fetch_station_metadata
  update_metadata-IsPublishedOnce station_id [] s d = d
  update_metadata-IsPublishedOnce station_id (a ∷ rounds) s d =
      let s1 = with_sensors fails a.sensors_week a.sensors s in
      let s2 = with_catalog fails a.catalog s1 in
      let s3 = with_station fails station_id a.station_week a.station s2 in
      update_metadata-IsPublishedOnce station_id rounds s3
        (by_station a.station s2 (by_catalog a.catalog s1 (by_sensors a.sensors)))
    where
      by_sensors :
          (sensors : Option (List SensorMetadata))
          → IsPublishedOnce (with_sensors fails a.sensors_week sensors s)
      by_sensors none = d
      by_sensors (some sensors) = sensors-IsPublishedOnce a.sensors_week sensors s d

      by_catalog :
          (catalog : Option (ℕ × List CatalogEntry)) (t : MetadataService)
          → IsPublishedOnce t
          → IsPublishedOnce (with_catalog fails catalog t)
      by_catalog none t h = h
      by_catalog (some (generated_at, entries)) t h =
          publish_entries-IsPublishedOnce generated_at
            (select (λ (e : CatalogEntry). contains e.sensor_type t.sensor_types) entries) t h

      by_station :
          (station : Option Text) (t : MetadataService)
          → IsPublishedOnce t
          → IsPublishedOnce (with_station fails station_id a.station_week station t)
      by_station none t h = h
      by_station (some body) t h =
          publish_new-IsPublishedOnce (station_message station_id a.station_week body) t h
