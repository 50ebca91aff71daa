-- ===== src/Metadata/Steps.antt =====
-- To prove that metadata messages keep a property of the registry, prove it of one station, one
-- device, one kept orphan and the end.
use roach.Base.{ℕ, suc, Text, List, [], ◌∷◌, Option, none, some, Option-cases, inl, inr}
use roach.Models.{Value, Object, Message}
use roach.Registry.{Decoder, Registry, update_station_info, upsert_device}
use roach.Metadata.{
  Calls, Failure, Station, keep_orphan, station_of, process_stations, then_stations,
  process_station_metadata, process_device, process_metadata, process_with,
}

module _ {F : Type 0} (d : Decoder F) (c : Calls)
    (after_device : F → Object F → Registry F → Registry F × Option Failure)
    (after_stations : Registry F → Registry F × Option Failure) (P : Registry F → Type 0)
    (kept : (msg : Message F) (lsid : ℕ) (reason : Text) (r : Registry F)
      → P r
      → P (keep_orphan c msg lsid reason r))
    (updated : (s : Station) (r : Registry F)
      → P r
      → P (record r { devices = update_station_info s.id s.name s.uuid r.devices }))
    (upserted : (lsid : F) (m : Object F) (r : Registry F)
      → P r
      → P
          (after_device lsid m (record r {
            devices = upsert_device d r.next_device_id lsid m r.devices;
            next_device_id = suc r.next_device_id;
          })).0)
    (ended : (r : Registry F) → P r → P (after_stations r).0) where
  stations-P :
      (msg : Message F) (vs : List (Value F)) (r : Registry F)
      → P r
      → P (process_stations d c after_device after_stations msg vs r).0
  unfolding process_stations
  stations-P msg [] r a = a
  stations-P msg (v ∷ vs) r a = elim (Option-cases (station_of d v)) [
    | inl e ↦ rw (e, process_stations) (stations-P msg vs r a)
    | inr (s, e) ↦ elim (Option-cases (c.station_error s.id)) [
      | inl f ↦ rw (e, f, process_stations) (stations-P msg vs _ (updated s r a))
      | inr (x, f) ↦ rw (e, f, process_stations) (kept msg 0 _ r a)
    ]
  ]

  then_stations-P :
      (q : Registry F × Option Failure)
      → P q.0
      → P (then_stations d c after_device after_stations q).0
  then_stations-P (r, none) a = ended r a
  then_stations-P (r, some e) a = a

  station_metadata-P :
      (msg : Message F) (vs : List (Value F)) (r : Registry F)
      → P r
      → P (process_station_metadata d c after_device after_stations msg vs r).0
  unfolding process_station_metadata
  station_metadata-P msg [] r a = a
  station_metadata-P msg (v ∷ vs) r a = then_stations-P _ (stations-P msg (v ∷ vs) r a)

  device-P :
      (msg : Message F) (m : Object F) (lsid : Option F) (r : Registry F)
      → P r
      → P (process_device d c after_device after_stations msg m lsid r).0
  unfolding process_device
  device-P msg m none r a = kept msg 0 _ r a
  device-P msg m (some lsid) r a = elim (Option-cases c.upsert_error) [
    | inl e ↦ rw (e, process_device) (upserted lsid m r a)
    | inr (x, e) ↦ rw (e, process_device) (kept msg (d.to_int lsid) _ r a)
  ]

  metadata-P :
      (msg : Message F) (m : Object F) (stations : Option Text) (r : Registry F)
      → P r
      → P (process_metadata d c after_device after_stations msg m stations r).0
  unfolding process_metadata
  metadata-P msg m (some s) r a = station_metadata-P msg (d.elements s) r a
  metadata-P msg m none r a = device-P msg m _ r a

  pub with-P :
      (msg : Message F) (body : Option (Object F)) (r : Registry F)
      → P r
      → P (process_with d c after_device after_stations msg body r).0
  unfolding process_with
  with-P msg none r a = kept msg 0 _ r a
  with-P msg (some m) r a = metadata-P msg m _ r a
