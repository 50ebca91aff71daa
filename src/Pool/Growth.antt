-- ===== src/Pool/Growth.antt =====
-- What handling a message does to the cache of tags and the tags table.
use roach.Base.{
  ℕ, suc, ◌^◌, ◌<◌, ◌==◌, ◌≡◌, ◌⊎◌, refl, ap, sym, ◌∙◌, Text, true, false, List, none, some, arith,
  text_beq, text_beq_iff, Bool-cases, Option-cases, inl, inr, nat_eq, ◌&&◌,
}
use roach.Models.{Value, Message, Device, Tag}
use roach.Cache.{Cache, get_device, get_tag, set_tag}
use roach.Cache.Laws.{get_tag-set_tag}
use roach.Repository.{TagRow, find_row}
use roach.Repository.TagRows.{find_row-upsert, data_type-after_upsert}
use roach.Pool.{
  field_metadata, unit_of, description_of, all_metadata, put_number, put_text, add_record_to_batch,
  created, new_tag, create_tag, find_tag,
}
use roach.Pool.Parts.{World, Outside, Headers, determine_data_type}

-- The row of a tag says what the cached tag says.
abbrev pub HasRow : {F : Type 0} → ℕ → Text → Tag → List (TagRow F) → Type 0
HasRow {F} d n t rows =
    (row : TagRow F) × (find_row d n rows ≡ some row)
    × (row.id ≡ t.id)
    × (row.data_type ≡ t.data_type)

pub record IsConsistent {F : Type 0} (w : World F) : Type 0 where
  -- Device ids are ids of the database.
  pub device_ids :
      (lsid : ℕ) (device : Device) → get_device lsid w.cache ≡ some device → device.id < 2 ^ 64
  -- Every cached tag is a row of the tags table, with the same id and data type.
  pub tag_rows :
      (d : ℕ) (n : Text) (t : Tag) → d < 2 ^ 64 → get_tag d n w.cache ≡ some t → HasRow d n t w.tags

-- What handling a message does to the tags: consistency is kept, and a cached tag stays what it is.
pub record Grows {F : Type 0} (w w' : World F) : Type 0 where
  pub consistent : IsConsistent w → IsConsistent w'
  pub stable :
      (d : ℕ) (n : Text) (t : Tag)
      → d < 2 ^ 64
      → get_tag d n w.cache ≡ some t
      → get_tag d n w'.cache ≡ some t

module _ {F : Type 0} where
  pub Grows-trans : (u v w : World F) → Grows u v → Grows v w → Grows u w
  Grows-trans u v w g h = record {
    consistent = λ c. h.consistent (g.consistent c);
    stable = λ d n t s e. h.stable d n t s (g.stable d n t s e);
  }

  pub Grows-same : (w w' : World F) → w'.cache ≡ w.cache → w'.tags ≡ w.tags → Grows w w'
  Grows-same w w' e f = record {
    consistent = λ c. record {
      device_ids = λ l d h. c.device_ids l d (sym (ap (get_device l) e) ∙ h);
      tag_rows = λ d n t s h. rw f (c.tag_rows d n t s (sym (ap (get_tag d n) e) ∙ h));
    };
    stable = λ d n t s h. ap (get_tag d n) e ∙ h;
  }

module _ {F : Type 0} (o : Outside F) where
  pub add_record-Grows :
      (fails : _) (tag : Tag) (v : Value F) (ts : ℕ) (w : World F)
      → Grows w (add_record_to_batch o fails tag v ts w).0
  unfolding add_record_to_batch put_number put_text
  add_record-Grows fails tag Value.null ts w = Grows-same w _ (ground arith) (ground arith)
  add_record-Grows fails tag v ts w = Grows-same w _ (ground arith) (ground arith)

  pub same_test : (d : ℕ) (n : Text) → (d == d && text_beq n n) ≡ true
  same_test d n = ground (arith, text_beq_iff n n)

  -- The rows after a creation, at the tag itself and at any other.
  created_row :
      (h : Headers) (device : Device) (n : Text) (v : Value F) (w : World F)
      → HasRow device.id n (new_tag o h device n v w) (created o h device n v w).1
  unfolding created new_tag
  created_row h device n v w =
      let meta = field_metadata o h n w.cache in
      let (found, same) =
        find_row-upsert w.next_tag_id device.id n (determine_data_type v) (unit_of o meta)
          (description_of o meta) (all_metadata o meta) w.tags device.id n in
      (
        _,
        rw (same_test device.id n) at found,
        sym same,
        data_type-after_upsert w.next_tag_id device.id n (determine_data_type v) (unit_of o meta)
            (description_of o meta) (all_metadata o meta) (find_row device.id n w.tags),
      )

  created_other :
      (h : Headers) (device : Device) (n : Text) (v : Value F) (w : World F) (d' : ℕ) (n' : Text)
      → (device.id == d' && text_beq n n') ≡ false
      → find_row d' n' (created o h device n v w).1 ≡ find_row d' n' w.tags
  unfolding created
  created_other h device n v w d' n' other =
      let meta = field_metadata o h n w.cache in
      (find_row-upsert w.next_tag_id device.id n (determine_data_type v) (unit_of o meta)
        (description_of o meta) (all_metadata o meta) w.tags d' n').0
      ∙ rw other refl

  -- The world after a creation.
  abbrev with_tag : Headers → Device → Text → Value F → World F → World F
  with_tag h device n v w = record w {
    tags = (created o h device n v w).1;
    next_tag_id = suc w.next_tag_id;
    cache = set_tag device.id n (new_tag o h device n v w) w.cache;
  }

  get_device-set_tag :
      (l d : ℕ) (n : Text) (t : Tag) (c : Cache F) → get_device l (set_tag d n t c) ≡ get_device l c
  unfolding get_device set_tag
  get_device-set_tag l d n t c = refl

  with_tag-Grows :
      (h : Headers) (device : Device) (n : Text) (v : Value F) (w : World F)
      → device.id < 2 ^ 64
      → get_tag device.id n w.cache ≡ none
      → Grows w (with_tag h device n v w)
  with_tag-Grows h device n v w small unknown = record {
    consistent = λ c. record {
      device_ids = λ l d e. c.device_ids l d (sym (get_device-set_tag l _ n _ w.cache) ∙ e);
      tag_rows = λ d m t s e. by_tag c d m t s e (Bool-cases (device.id == d && text_beq n m));
    };
    stable = λ d m t s e.
        ground (arith, get_tag-set_tag device.id d n m tag w.cache small s, text_beq_iff n m);
  }
    where
      tag : Tag
      tag = new_tag o h device n v w

      by_tag :
          IsConsistent w
          → (d : ℕ) (m : Text) (t : Tag) → d < 2 ^ 64
          → get_tag d m (set_tag device.id n tag w.cache) ≡ some t
          → ((device.id == d && text_beq n m) ≡ true) ⊎ ((device.id == d && text_beq n m) ≡ false)
          → HasRow d m t (created o h device n v w).1
      by_tag c d m t s e (inl same) =
          let (row, found, id, data_type) = created_row h device n v w in
          let stored = get_tag-set_tag device.id d n m tag w.cache small s in
          (
            row,
            ground (arith, found, same, text_beq_iff n m),
            ground (arith, id, same, stored),
            ground (arith, data_type, same, stored),
          )
      by_tag c d m t s e (inr other) =
          let stored = get_tag-set_tag device.id d n m tag w.cache small s in
          let (row, found, id, data_type) = c.tag_rows d m t s (ground (arith, other, stored)) in
          (row, created_other h device n v w d m other ∙ found, id, data_type)

  pub find_tag-Grows :
      (msg : Message F) (h : Headers) (device : Device) (n : Text) (v : Value F) (w : World F)
      → device.id < 2 ^ 64
      → Grows w (find_tag o msg h device n v w).0
  unfolding find_tag create_tag
  find_tag-Grows msg h device n v w small = elim (Option-cases (get_tag device.id n w.cache)) [
    | inr (t, e) ↦ rw (e, find_tag) (Grows-same w w refl refl)
    | inl unknown ↦ elim (Bool-cases (o.create_fails n)) [
      | inl fails ↦ rw (unknown, find_tag, fails) (Grows-same w _ (ground arith) (ground arith))
      | inr works ↦ rw (unknown, find_tag, works) (with_tag-Grows h device n v w small unknown)
    ]
  ]
