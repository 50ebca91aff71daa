-- ===== src/Metadata/Stations.antt =====
-- Which devices a station message claims.
use roach.Base.{
  ℕ, ◌≡◌, ◌∙◌, ap, Text, List, [], ◌∷◌, Option, none, some, arith, Option-cases, inl, inr,
}
use roach.Models.{Value, Object, Message}
use roach.Registry.{Decoder, DeviceRow, Registry, update_station, update_station_info}
use roach.Registry.DeviceRows.{find_device, on_row, find_device-update_station_info}
use roach.Metadata.{Calls, Failure, Station, keep_orphan, station_of, process_stations}

abbrev pub station_at : {F : Type 0} → Option (DeviceRow F) → Option ℕ
station_at none = none
station_at (some row) = row.station_id

module _ {F : Type 0} (d : Decoder F) where
  -- The first entry of the array that is a station.
  unfoldable pub first_station : List (Value F) → Option Station
  first_station [] = none
  first_station (v ∷ vs) = elim (station_of d v) [ none ↦ first_station vs | some s ↦ some s ]

module _ {F : Type 0} (d : Decoder F) (c : Calls)
    (after_device : F → Object F → Registry F → Registry F × Option Failure)
    (after_stations : Registry F → Registry F × Option Failure) where
  abbrev stations : Message F → List (Value F) → Registry F → Registry F × Option Failure
  stations = process_stations d c after_device after_stations

  abbrev written : Station → Registry F → Registry F
  written s r = record r { devices = update_station_info s.id s.name s.uuid r.devices }

  claimed :
      (s : Station) (row : Option (DeviceRow F)) (a : ℕ)
      → station_at row ≡ some a
      → station_at (on_row (update_station s.id s.name s.uuid) row) ≡ some a
  unfolding update_station
  claimed s none a h = h
  claimed s (some row) a h = ground arith

  keep_orphan-devices :
      (msg : Message F) (reason : Text) (r : Registry F)
      → (keep_orphan c msg 0 reason r).devices ≡ r.devices
  unfolding keep_orphan
  keep_orphan-devices msg reason r = ground arith

  -- A device keeps its station.
  station_kept :
      (msg : Message F) (vs : List (Value F)) (r : Registry F) (k a : ℕ)
      → station_at (find_device k r.devices) ≡ some a
      → station_at (find_device k (stations msg vs r).0.devices) ≡ some a
  unfolding process_stations
  station_kept msg [] r k a h = h
  station_kept msg (v ∷ vs) r k a h = elim (Option-cases (station_of d v)) [
    | inl e ↦ rw (e, process_stations) (station_kept msg vs r k a h)
    | inr (s, e) ↦ elim (Option-cases (c.station_error s.id)) [
      | inl f ↦
          rw (e, f, process_stations)
            (station_kept msg vs (written s r) k a (
              ap station_at (find_device-update_station_info s.id s.name s.uuid r.devices k)
              ∙ claimed s (find_device k r.devices) a h))
      | inr (x, f) ↦
          rw (e, f, process_stations)
            (ap (λ rows. station_at (find_device k rows)) (keep_orphan-devices msg _ r) ∙ h)
    ]
  ]

  taken_over :
      (s : Station) (row : DeviceRow F)
      → row.station_id ≡ none
      → station_at (on_row (update_station s.id s.name s.uuid) (some row)) ≡ some s.id
  unfolding update_station
  taken_over s row h = ground arith

  -- A device without a station is given to the first station of a message, unless the update for
  -- that station fails, whatever station it belongs to and whatever stations follow.
  pub process_stations_first_takes :
      (msg : Message F) (vs : List (Value F)) (r : Registry F) (k : ℕ) (row : DeviceRow F)
      (s : Station)
      → find_device k r.devices ≡ some row
      → row.station_id ≡ none
      → first_station d vs ≡ some s
      → c.station_error s.id ≡ none
      → station_at
          (find_device k (process_stations d c after_device after_stations msg vs r).0.devices)
        ≡ some s.id
  unfolding process_stations first_station
  process_stations_first_takes msg [] r k row s found free first works = absurd (ground arith)
  process_stations_first_takes msg (v ∷ vs) r k row s found free first works =
      elim (Option-cases (station_of d v)) [
        | inl e ↦
            rw (e, process_stations)
              (process_stations_first_takes msg vs r k row s found free (ground arith) works)
        | inr (t, e) ↦
            let same : t ≡ s = ground arith in
            let f : c.station_error t.id ≡ none =
              ap (λ (u : Station). c.station_error u.id) same ∙ works in
            rw (e, f, process_stations)
              (station_kept msg vs (written t r) k s.id (
                ap station_at (
                  find_device-update_station_info t.id t.name t.uuid r.devices k
                  ∙ ap (on_row (update_station t.id t.name t.uuid)) found)
                ∙ taken_over t row free
                ∙ ap (λ (u : Station). some u.id) same))
      ]
