-- ===== src/Registry/DeviceRows.antt =====
-- The rows of devices under Upsert and UpdateStationInfo.
use roach.Base.{
  ℕ, ◌==◌, ◌≡◌, refl, ◌∙◌, ap, Text, List, [], ◌∷◌, Option, none, some, arith, if◌then◌else◌,
  Bool-cases, inl, inr,
}
use roach.Models.{Object}
use roach.Registry.{
  Decoder, DeviceRow, device_row, upsert_device, update_station, update_station_info,
}

module _ {F : Type 0} where
  -- The row of a device.
  unfoldable pub find_device : ℕ → List (DeviceRow F) → Option (DeviceRow F)
  find_device lsid [] = none
  find_device lsid (row ∷ rows) = if row.lsid == lsid then some row else find_device lsid rows

  -- lsid is a key of the table.
  abbrev pub DistinctLsids : List (DeviceRow F) → Type 0
  DistinctLsids [] = Unit
  DistinctLsids (row ∷ rows) = (find_device row.lsid rows ≡ none) × DistinctLsids rows

module _ {F : Type 0} (d : Decoder F) where
  -- The row that Upsert leaves in place of the one that was there.
  abbrev pub upserted : ℕ → F → Object F → Option (DeviceRow F) → DeviceRow F
  upserted next lsid m none = device_row d next none lsid m
  upserted next lsid m (some row) = device_row d row.id row.rt_data_structure_type lsid m

  device_row-lsid :
      (id : ℕ) (rt : Option ℕ) (lsid : F) (m : Object F)
      → (device_row d id rt lsid m).lsid ≡ d.to_int lsid
  unfolding device_row
  device_row-lsid id rt lsid m = refl

  -- Upsert leaves one row for its device, which has the fields of the message, its old id and its
  -- real-time data structure type, or the next id if it is new. The rows of all other devices stay.
  pub find_device-upsert_device :
      (next : ℕ) (lsid : F) (m : Object F) (rows : List (DeviceRow F)) (k : ℕ)
      → find_device k (upsert_device d next lsid m rows) ≡ (
          if d.to_int lsid == k
          then some (upserted next lsid m (find_device (d.to_int lsid) rows))
          else find_device k rows)
  unfolding find_device upsert_device
  find_device-upsert_device next lsid m [] k = ground (arith, device_row-lsid next none lsid m)
  find_device-upsert_device next lsid m (row ∷ rows) k =
      elim (Bool-cases (row.lsid == d.to_int lsid)) [
        | inl e ↦
            rw (e, upsert_device, find_device)
              (ground (arith, device_row-lsid row.id row.rt_data_structure_type lsid m))
        | inr e ↦
            rw (e, upsert_device, find_device)
              (ground (arith, find_device-upsert_device next lsid m rows k))
      ]

  pub upsert_device-DistinctLsids :
      (next : ℕ) (lsid : F) (m : Object F) (rows : List (DeviceRow F))
      → DistinctLsids rows
      → DistinctLsids (upsert_device d next lsid m rows)
  unfolding upsert_device find_device
  upsert_device-DistinctLsids next lsid m [] h = (refl, tt)
  upsert_device-DistinctLsids next lsid m (row ∷ rows) h =
      elim (Bool-cases (row.lsid == d.to_int lsid)) [
        | inl e ↦
            rw e
              (ground (arith, device_row-lsid row.id row.rt_data_structure_type lsid m, h.0), h.1)
        | inr e ↦ rw e (
          ground (arith, find_device-upsert_device next lsid m rows row.lsid, h.0),
          upsert_device-DistinctLsids next lsid m rows h.1,
        )
      ]

module _ {F : Type 0} where
  update_station-lsid :
      (id : ℕ) (name uuid : Text) (row : DeviceRow F)
      → (update_station id name uuid row).lsid ≡ row.lsid
  unfolding update_station
  update_station-lsid id name uuid row = ground arith

  -- UpdateStationInfo on the row of a device.
  abbrev pub on_row : (DeviceRow F → DeviceRow F) → Option (DeviceRow F) → Option (DeviceRow F)
  on_row f none = none
  on_row f (some row) = some (f row)

  pub find_device-update_station_info :
      (id : ℕ) (name uuid : Text) (rows : List (DeviceRow F)) (k : ℕ)
      → find_device k (update_station_info id name uuid rows)
        ≡ on_row (update_station id name uuid) (find_device k rows)
  unfolding find_device update_station_info
  find_device-update_station_info id name uuid [] k = refl
  find_device-update_station_info id name uuid (row ∷ rows) k = ground (
    arith,
    update_station-lsid id name uuid row,
    find_device-update_station_info id name uuid rows k,
  )

  pub update_station_info-DistinctLsids :
      (id : ℕ) (name uuid : Text) (rows : List (DeviceRow F))
      → DistinctLsids rows
      → DistinctLsids (update_station_info id name uuid rows)
  unfolding update_station_info
  update_station_info-DistinctLsids id name uuid [] h = tt
  update_station_info-DistinctLsids id name uuid (row ∷ rows) h = (
    rw (update_station-lsid id name uuid row) (
        find_device-update_station_info id name uuid rows row.lsid
        ∙ ap (on_row (update_station id name uuid)) h.0),
    update_station_info-DistinctLsids id name uuid rows h.1,
  )
