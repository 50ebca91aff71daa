-- ===== src/Metadata/Cached.antt =====
-- What the metadata processor leaves in the cache, against the rows of devices.
use roach.Base.{
  ℕ, ◌≡◌, ◌==◌, refl, ◌∙◌, ap, Text, List, [], ◌∷◌, Option, none, some, arith, if◌then◌else◌,
  Bool-cases, Option-cases, inl, inr, nat_eq,
}
use roach.Base.Assoc.{lookup-insert}
use roach.Models.{Value, Object, Message, Device}
use roach.Cache.{Cache, get_device, set_device}
use roach.Registry.{Decoder, DeviceRow, Registry, device_of, load_devices, update_station_info}
use roach.Registry.DeviceRows.{
  find_device, DistinctLsids, upsert_device-DistinctLsids, update_station_info-DistinctLsids,
}
use roach.Metadata.{
  Calls, Failure, put_devices, load, keep_orphan, station_of, process_stations, then_stations,
  process_station_metadata, process_device, process_metadata, process_with, process_message,
}

-- What the cache holds of a device, from its row and from what was cached before.
abbrev pub held : {F : Type 0} → Option (DeviceRow F) → Option Device → Option Device
held none old = old
held (some row) old = some (device_of row)

module _ {F : Type 0} where
  pub get_device-set_device :
      (lsid k : ℕ) (device : Device) (c : Cache F)
      → get_device k (set_device lsid device c)
        ≡ (if lsid == k then some device else get_device k c)
  unfolding get_device set_device
  get_device-set_device lsid k device c = lookup-insert lsid k device c.devices

  device_of-lsid : (row : DeviceRow F) → (device_of row).lsid ≡ row.lsid
  unfolding device_of
  device_of-lsid row = refl

  pub put_devices-held :
      (rows : List (DeviceRow F)) (k : ℕ) (c : Cache F)
      → DistinctLsids rows
      → get_device k (put_devices (load_devices rows) c)
        ≡ held (find_device k rows) (get_device k c)
  unfolding put_devices load_devices find_device
  put_devices-held [] k c h = refl
  put_devices-held (row ∷ rows) k c h =
      let c' : Cache F = set_device (device_of row).lsid (device_of row) c in
      put_devices-held rows k c' h.1
      ∙ ground (
        arith,
        get_device-set_device (device_of row).lsid k (device_of row) c,
        device_of-lsid row,
        h.0,
      )

-- A handler that fails leaves the cached device as it was.
abbrev pub refreshed :
    {F : Type 0} → Option Failure → Option (DeviceRow F) → Option Device → Option Device
refreshed none row old = held row old
refreshed (some e) row old = old

module _ {F : Type 0} (d : Decoder F) (c : Calls) where
  abbrev Keeps : Registry F → Registry F → Type 0
  Keeps r r' = DistinctLsids r'.devices × (r'.cache ≡ r.cache)

  -- What ProcessMessage leaves: distinct keys, and the cached device k.
  abbrev Refreshes : ℕ → Registry F → Registry F × Option Failure → Type 0
  Refreshes k r (r', e) =
      DistinctLsids r'.devices
      × (get_device k r'.cache ≡ refreshed e (find_device k r'.devices) (get_device k r.cache))

  keep_orphan-Keeps :
      (msg : Message F) (lsid : ℕ) (reason : Text) (r : Registry F)
      → DistinctLsids r.devices
      → Keeps r (keep_orphan c msg lsid reason r)
  unfolding keep_orphan
  keep_orphan-Keeps msg lsid reason r h = elim (Bool-cases c.save_fails) [
    | inl e ↦ rw e (h, refl)
    | inr e ↦ rw e (h, refl)
  ]

  -- An error with the cache as it was.
  Refreshes-failed :
      (k : ℕ) (r r' : Registry F) (e : Failure) → Keeps r r' → Refreshes k r (r', some e)
  Refreshes-failed k r r' e h = (h.0, ap (get_device k) h.1)

  orphan-Refreshes :
      (k : ℕ) (msg : Message F) (lsid : ℕ) (reason : Text) (r : Registry F) (e : Failure)
      → DistinctLsids r.devices
      → Refreshes k r (keep_orphan c msg lsid reason r, some e)
  orphan-Refreshes k msg lsid reason r e h =
      Refreshes-failed k r (keep_orphan c msg lsid reason r) e
        (keep_orphan-Keeps msg lsid reason r h)

  load-Refreshes : (k : ℕ) (r r' : Registry F) → Keeps r r' → Refreshes k r (load c r')
  unfolding load
  load-Refreshes k r r' h = elim (Bool-cases c.load_fails) [
    | inl e ↦ rw e (Refreshes-failed k r r' Failure.load_failed h)
    | inr e ↦ rw e (
      h.0,
      put_devices-held r'.devices k r'.cache h.0
          ∙ ap (λ old. held (find_device k r'.devices) (get_device k old)) h.1,
    )
  ]

  abbrev reload : F → Object F → Registry F → Registry F × Option Failure
  reload lsid m = load c

  process_stations-Keeps :
      (msg : Message F) (vs : List (Value F)) (r : Registry F)
      → DistinctLsids r.devices
      → Keeps r (process_stations d c reload (load c) msg vs r).0
  unfolding process_stations
  process_stations-Keeps msg [] r h = (h, refl)
  process_stations-Keeps msg (v ∷ vs) r h = elim (Option-cases (station_of d v)) [
    | inl e ↦ rw (e, process_stations) (process_stations-Keeps msg vs r h)
    | inr (s, e) ↦ elim (Option-cases (c.station_error s.id)) [
      | inl f ↦
          rw (e, f, process_stations)
            (process_stations-Keeps msg vs
              (record r { devices = update_station_info s.id s.name s.uuid r.devices })
              (update_station_info-DistinctLsids s.id s.name s.uuid r.devices h))
      | inr (x, f) ↦ rw (e, f, process_stations) (keep_orphan-Keeps msg 0 _ r h)
    ]
  ]

  then_stations-Refreshes :
      (k : ℕ) (r : Registry F) (q : Registry F × Option Failure)
      → Keeps r q.0
      → Refreshes k r (then_stations d c reload (load c) q)
  then_stations-Refreshes k r (r', none) h = load-Refreshes k r r' h
  then_stations-Refreshes k r (r', some e) h = Refreshes-failed k r r' e h

  station_metadata-Refreshes :
      (k : ℕ) (msg : Message F) (vs : List (Value F)) (r : Registry F)
      → DistinctLsids r.devices
      → Refreshes k r (process_station_metadata d c reload (load c) msg vs r)
  unfolding process_station_metadata
  station_metadata-Refreshes k msg [] r h = Refreshes-failed k r r Failure.no_stations (h, refl)
  station_metadata-Refreshes k msg (v ∷ vs) r h =
      then_stations-Refreshes k r (process_stations d c reload (load c) msg (v ∷ vs) r)
        (process_stations-Keeps msg (v ∷ vs) r h)

  device-Refreshes :
      (k : ℕ) (msg : Message F) (m : Object F) (lsid : Option F) (r : Registry F)
      → DistinctLsids r.devices
      → Refreshes k r (process_device d c reload (load c) msg m lsid r)
  unfolding process_device
  device-Refreshes k msg m none r h = orphan-Refreshes k msg 0 _ r Failure.missing_lsid h
  device-Refreshes k msg m (some lsid) r h = elim (Option-cases c.upsert_error) [
    | inl e ↦
        rw (e, process_device)
          (load-Refreshes k r _
            (upsert_device-DistinctLsids d r.next_device_id lsid m r.devices h, refl))
    | inr (x, e) ↦
        rw (e, process_device) (orphan-Refreshes k msg (d.to_int lsid) _ r Failure.upsert_failed h)
  ]

  metadata-Refreshes :
      (k : ℕ) (msg : Message F) (m : Object F) (stations : Option Text) (r : Registry F)
      → DistinctLsids r.devices
      → Refreshes k r (process_metadata d c reload (load c) msg m stations r)
  unfolding process_metadata
  metadata-Refreshes k msg m (some s) r h = station_metadata-Refreshes k msg (d.elements s) r h
  metadata-Refreshes k msg m none r h = device-Refreshes k msg m _ r h

  with-Refreshes :
      (k : ℕ) (msg : Message F) (body : Option (Object F)) (r : Registry F)
      → DistinctLsids r.devices
      → Refreshes k r (process_with d c reload (load c) msg body r)
  unfolding process_with
  with-Refreshes k msg none r h = orphan-Refreshes k msg 0 _ r Failure.parse_failed h
  with-Refreshes k msg (some m) r h = metadata-Refreshes k msg m _ r h

  -- Whatever the message and whatever fails, lsid stays a key of devices, and ProcessMessage of
  -- weatherlink-sql leaves a cached device as it was if it returns an error; otherwise the cache
  -- has each device of the table as its row has it, and the others as before.
  pub get_device-process_message :
      (msg : Message F) (r : Registry F) (k : ℕ)
      → DistinctLsids r.devices
      → let (r', e) = process_message d c msg r in
        DistinctLsids r'.devices
        × (get_device k r'.cache ≡ refreshed e (find_device k r'.devices) (get_device k r.cache))
  unfolding process_message
  get_device-process_message msg r k h = with-Refreshes k msg msg.body r h
