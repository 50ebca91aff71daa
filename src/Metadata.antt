-- ===== src/Metadata.antt =====
-- services/weatherlink-sql/service/metadata.go and metadata_processor.go of weatherlink-sql-backfill:
-- messages about devices and stations. The two processors have one code but for what they do to
-- the cache at the end: the first loads all devices again, the second puts in the one device.
pub mod Steps
pub mod Cached
pub mod Stations
use roach.Base.{ℕ, suc, Text, Bool, List, [], ◌∷◌, ◌++◌, Option, none, some, if◌then◌else◌, text_eq}
use roach.Base.Assoc.{lookup}
use roach.Base.Strings.{codes, format_int}
use roach.Models.{Value, Object, Message, Device}
use roach.Cache.{Cache, set_device}
use roach.Repository.{save}
use roach.Registry.{
  Decoder, Registry, number_in, string_in, array_in, object_in, or_zero, float_at, text_at,
  upsert_device, update_station_info, load_devices,
}

-- What happens outside the code while one message is handled: the texts of the errors of the calls
-- that fail. The error of json.Unmarshal is given where there is no body.
pub record Calls : Type 0 where
  pub parse_error : Text
  pub upsert_error : Option Text
  pub station_error : ℕ → Option Text
  pub load_fails : Bool
  pub save_fails : Bool

pub data Failure : Type 0 where
  parse_failed missing_lsid upsert_failed no_stations station_failed load_failed : Failure

pub record Station : Type 0 where
  pub id : ℕ
  pub name : Text
  pub uuid : Text

module _ {F : Type 0} where
  unfoldable pub put_devices : List Device → Cache F → Cache F
  put_devices [] c = c
  put_devices (device ∷ devices) c = put_devices devices (set_device device.lsid device c)

module _ {F : Type 0} (c : Calls) where
  -- LoadDevices
  unfoldable pub load : Registry F → Registry F × Option Failure
  load r =
      if c.load_fails
      then (r, some load_failed)
      else (record r { cache = put_devices (load_devices r.devices) r.cache }, none)

  -- An error of Save is dropped.
  unfoldable pub keep_orphan : Message F → ℕ → Text → Registry F → Registry F
  keep_orphan msg lsid reason r =
      if c.save_fails then r else record r { orphans = save msg lsid 0 [] reason r.orphans }

module _ {F : Type 0} (d : Decoder F) where
  abbrev station_in : Object F → Option F → Option Station
  station_in m none = none
  station_in m (some id) = some (record {
    id = d.to_int id;
    name = text_at d m (codes "station_name");
    uuid = text_at d m (codes "station_id_uuid");
  })

  abbrev station_of_object : Option Text → Option Station
  station_of_object none = none
  station_of_object (some t) =
      let m = d.entries t in station_in m (number_in (lookup (codes "station_id") m))

  -- A station of the array; what is not an object or has no station_id is passed over.
  unfoldable pub station_of : Value F → Option Station
  station_of v = station_of_object (object_in (some v))

module _ {F : Type 0} (d : Decoder F) (c : Calls)
    (after_device : F → Object F → Registry F → Registry F × Option Failure)
    (after_stations : Registry F → Registry F × Option Failure) where
  -- The loop over the stations; the first one that cannot be written ends it.
  unfoldable pub process_stations :
      Message F → List (Value F) → Registry F → Registry F × Option Failure
  process_stations msg [] r = (r, none)
  process_stations msg (v ∷ stations) r = elim (station_of d v) [
    | none ↦ process_stations msg stations r
    | some s ↦ elim (c.station_error s.id) [
      | none ↦
          process_stations msg stations
            (record r { devices = update_station_info s.id s.name s.uuid r.devices })
      | some e ↦ (
        keep_orphan c msg 0
            (codes "failed to update station info for station_id "
              ++ format_int s.id
              ++ codes ": "
              ++ e)
            r,
        some station_failed,
      )
    ]
  ]

  abbrev pub then_stations : Registry F × Option Failure → Registry F × Option Failure
  then_stations (r, none) = after_stations r
  then_stations (r, some e) = (r, some e)

  unfoldable pub process_station_metadata :
      Message F → List (Value F) → Registry F → Registry F × Option Failure
  process_station_metadata msg [] r = (r, some no_stations)
  process_station_metadata msg (v ∷ stations) r =
      then_stations (process_stations msg (v ∷ stations) r)

  unfoldable pub process_device :
      Message F → Object F → Option F → Registry F → Registry F × Option Failure
  process_device msg m none r =
      (keep_orphan c msg 0 (codes "missing or invalid lsid in metadata") r, some missing_lsid)
  process_device msg m (some lsid) r = elim c.upsert_error [
    | none ↦ after_device lsid m (record r {
      devices = upsert_device d r.next_device_id lsid m r.devices;
      next_device_id = suc r.next_device_id;
    })
    | some e ↦ (
      keep_orphan c msg (d.to_int lsid) (codes "failed to upsert device: " ++ e) r,
      some upsert_failed,
    )
  ]

  unfoldable pub process_metadata :
      Message F → Object F → Option Text → Registry F → Registry F × Option Failure
  process_metadata msg m (some stations) r = process_station_metadata msg (d.elements stations) r
  process_metadata msg m none r = process_device msg m (number_in (lookup (codes "lsid") m)) r

  unfoldable pub process_with :
      Message F → Option (Object F) → Registry F → Registry F × Option Failure
  process_with msg none r = (
    keep_orphan c msg 0 (codes "failed to parse metadata: " ++ c.parse_error) r,
    some parse_failed,
  )
  process_with msg (some m) r = process_metadata msg m (array_in (lookup (codes "stations") m)) r

module _ {F : Type 0} (d : Decoder F) (c : Calls) where
  -- ProcessMessage of weatherlink-sql: LoadDevices at the end.
  unfoldable pub process_message : Message F → Registry F → Registry F × Option Failure
  process_message msg r = process_with d c (λ lsid m. load c) (load c) msg msg.body r

  -- extractDeviceFromMetadata: the id is not known, and stays 0.
  unfoldable pub extract_device : F → Object F → Device
  extract_device lsid m = record {
    id = 0;
    lsid = d.to_int lsid;
    sensor_type = or_zero 0 (elim (number_in (lookup (codes "sensor_type") m)) [
      | none ↦ none
      | some x ↦ some (d.to_int x)
    ]);
    data_structure_type = none;
    category = text_at d m (codes "category");
    manufacturer = text_at d m (codes "manufacturer");
    product_name = text_at d m (codes "product_name");
    created_date = none;
    modified_date = none;
  }

  abbrev pub put_extracted : F → Object F → Registry F → Registry F × Option Failure
  put_extracted lsid m r =
      (record r { cache = set_device (d.to_int lsid) (extract_device lsid m) r.cache }, none)

  -- ProcessMessage of weatherlink-sql-backfill.
  unfoldable pub backfill_message : Message F → Registry F → Registry F × Option Failure
  backfill_message msg r = process_with d c put_extracted (λ r. (r, none)) msg msg.body r
