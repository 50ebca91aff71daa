-- ===== src/Pool/Routing.antt =====
-- Where addRecordToBatch puts a value, and which values no table ever gets.
pub mod Recorded
use roach.Base.{
  ℕ, ◌+◌, ◌^◌, ◌<◌, ◌≡◌, ◌≢◌, refl, Text, Bool, true, false, Option, none, some, arith, length,
  if◌then◌else◌, Bool-cases, inl, inr, text_beq, text_beq_iff, ◌∙◌, List,
}
use roach.Base.Strings.{codes}
use roach.Tables.{Row, Stage}
use roach.BatchWriter.{numeric_slot, text_slot, null_slot, add_numeric, add_text, add_null}
use roach.Models.{
  Value, Message, Device, Tag, null, number, integer, string, boolean, array, object,
}
use roach.Cache.{get_tag}
use roach.BatchWriter.Direct.{Works, add_ok}
use roach.Cache.Laws.{get_tag-set_tag}
use roach.Pool.{
  as_number, as_string, put_number, put_text, add_record_to_batch, new_tag, create_tag, find_tag,
  process_field, work,
}
use roach.Pool.Parts.{
  World, Outside, put_state, Headers, is_null, determine_data_type, is_numeric_type, is_text_type,
}
use roach.Pool.Growth.{IsConsistent}
use roach.Pool.Tagging.{process_field-Grows, get_tag-work}
use roach.Pool.Routing.Recorded.{kind_of, add_record_to_batch_rejects, rejected}

module _ {F : Type 0} (o : Outside F) where
  find_tag_keeps :
      (msg : Message F) (h : Headers) (device : Device) (name : Text) (v : Value F) (w : World F)
      → ((find_tag o msg h device name v w).0.writer ≡ w.writer)
        × ((find_tag o msg h device name v w).0.database ≡ w.database)
  unfolding find_tag create_tag
  find_tag_keeps msg h device name v w = (ground arith, ground arith)

  -- A boolean value reaches no batch and no table, whether its tag is known or not and whatever the
  -- tag's data type is.
  pub process_field_boolean :
      (msg : Message F) (h : Headers) (device : Device) (w : World F) (name : Text) (b : Bool)
      → let w' = process_field o msg h device w name (boolean b) in
        (w'.writer ≡ w.writer) × (w'.database ≡ w.database)
  unfolding process_field
  process_field_boolean msg h device w name b =
      let (w', found) = find_tag o msg h device name (boolean b) w in
      let kept = find_tag_keeps msg h device name (boolean b) w in by_found found refl
    where
      Kept : World F → Type 0
      Kept w' = (w'.writer ≡ w.writer) × (w'.database ≡ w.database)

      by_found :
          (t : Option Tag)
          → (find_tag o msg h device name (boolean b) w).1 ≡ t
          → Kept (process_field o msg h device w name (boolean b))
      by_found none e = (
        ground (arith, find_tag_keeps msg h device name (boolean b) w),
        ground (arith, find_tag_keeps msg h device name (boolean b) w),
      )
      by_found (some tag) e =
          let rest =
            add_record_to_batch_rejects o (o.copy_fails name) tag (boolean b) h.timestamp
              (find_tag o msg h device name (boolean b) w).0 (ground arith) in
          (
            ground (arith, find_tag_keeps msg h device name (boolean b) w, rest.0),
            ground (arith, find_tag_keeps msg h device name (boolean b) w, rest.0),
          )

  find_tag_cached :
      (msg : Message F) (h : Headers) (device : Device) (name : Text) (v : Value F) (w : World F)
      (tag : Tag)
      → get_tag device.id name w.cache ≡ some tag
      → find_tag o msg h device name v w ≡ (w, some tag)
  unfolding find_tag
  find_tag_cached msg h device name v w tag e = ground arith

  kind_of_null_type : (v : Value F) → is_null v ≡ false → kind_of (codes "null") v ≡ rejected
  unfolding is_numeric_type is_text_type
  kind_of_null_type null h = cc
  kind_of_null_type v h = refl

  cache-add_record_to_batch :
      (fails : Stage → Bool) (tag : Tag) (v : Value F) (ts : ℕ) (w : World F)
      → (add_record_to_batch o fails tag v ts w).0.cache ≡ w.cache
  unfolding add_record_to_batch put_number put_text
  cache-add_record_to_batch fails tag null ts w = ground arith
  cache-add_record_to_batch fails tag v ts w = ground arith

  find_tag_created :
      (msg : Message F) (h : Headers) (device : Device) (name : Text) (v : Value F) (w : World F)
      → device.id < 2 ^ 64
      → get_tag device.id name w.cache ≡ none
      → o.create_fails name ≡ false
      → ((find_tag o msg h device name v w).1 ≡ some (new_tag o h device name v w))
        × (get_tag device.id name (find_tag o msg h device name v w).0.cache
            ≡ some (new_tag o h device name v w))
  unfolding find_tag create_tag
  find_tag_created msg h device name v w small unknown made =
      let stored =
        get_tag-set_tag device.id device.id name name (new_tag o h device name v w) w.cache small
          small in
      (ground arith, ground (arith, stored, text_beq_iff name name))

  data_type-new_tag :
      (h : Headers) (device : Device) (name : Text) (v : Value F) (w : World F)
      → (new_tag o h device name v w).data_type ≡ determine_data_type v
  unfolding new_tag
  data_type-new_tag h device name v w = refl

  cached_after_null :
      (msg : Message F) (h : Headers) (device : Device) (name : Text) (w : World F)
      → device.id < 2 ^ 64
      → get_tag device.id name w.cache ≡ none
      → o.create_fails name ≡ false
      → text_beq name (codes "ts") ≡ false
      → get_tag device.id name (process_field o msg h device w name null).cache
        ≡ some (new_tag o h device name null w)
  unfolding process_field
  cached_after_null msg h device name w small unknown made other =
      let tag = new_tag o h device name null w in
      let (found, stored) = find_tag_created msg h device name null w small unknown made in
      let kept =
        cache-add_record_to_batch (o.copy_fails name) tag null h.timestamp
          (find_tag o msg h device name null w).0 in
      ground (arith, found, stored, kept)

  -- A known tag of the data type `null` refuses every value but null.
  process_field_null_type :
      (msg : Message F) (h : Headers) (device : Device) (w : World F) (name : Text) (v : Value F)
      (tag : Tag)
      → get_tag device.id name w.cache ≡ some tag
      → tag.data_type ≡ codes "null"
      → is_null v ≡ false
      → process_field o msg h device w name v ≡ w
  unfolding process_field
  process_field_null_type msg h device w name v tag e t nonnull = ground (
    arith,
    find_tag_cached msg h device name v w tag e,
    add_record_to_batch_rejects o (o.copy_fails name) tag v h.timestamp w
        (rw t (kind_of_null_type v nonnull)),
  )

  data_type-cached_null :
      (msg : Message F) (h : Headers) (device : Device) (w : World F) (name : Text)
      → (new_tag o h device name null w).data_type ≡ codes "null"
  unfolding new_tag determine_data_type
  data_type-cached_null msg h device w name = refl

-- If creating the tag works for the first value of a field, a null, then after any messages that one
-- worker handles next, whatever fails, a value of that field that is not null changes nothing at all:
-- it is not stored.
pub process_field_after_null :
    {F : Type 0} (o o' : Outside F) (msg msg' : Message F) (h h' : Headers) (device : Device)
    (w : World F) (name : Text) (v : Value F) (jobs : List (Outside F × Message F))
    → IsConsistent w
    → device.id < 2 ^ 64
    → get_tag device.id name w.cache ≡ none
    → o.create_fails name ≡ false
    → text_beq name (codes "ts") ≡ false
    → is_null v ≡ false
    → let later = work (process_field o msg h device w name null) jobs in
      process_field o' msg' h' device later name v ≡ later
process_field_after_null o o' msg msg' h h' device w name v jobs c small unknown made other
      nonnull =
    let first = process_field o msg h device w name null in
    let tag = new_tag o h device name null w in
    let grown = (process_field-Grows o msg h device w name null small).consistent c in
    process_field_null_type o' msg' h' device (work first jobs) name v tag
      (get_tag-work first jobs device.id name tag grown small
        (cached_after_null o msg h device name w small unknown made other))
      (data_type-cached_null o msg h device w name) nonnull
