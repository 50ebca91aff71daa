-- ===== src/Pool/Crew/Backing.antt =====
-- services/weatherlink-sql/service/worker_pool.go: what it is for the tags of the cache and of the
-- workers to be backed by the tags table, and what the calls of the workers do to it.
use roach.Base.{
  ℕ, ◌^◌, ◌<◌, ◌==◌, ◌≡◌, ◌⊎◌, refl, ap, sym, ◌∙◌, Text, true, false, List, [], ◌∷◌, Option, none,
  some, arith, text_beq, text_beq_iff, Bool-cases, inl, inr, nat_eq, ◌&&◌,
}
use roach.Models.{Value, Device, Tag}
use roach.Cache.{Cache, get_device, get_tag, set_tag}
use roach.Cache.Laws.{get_tag-set_tag}
use roach.Repository.{TagRow, find_row, update_row}
use roach.Repository.TagRows.{find_row-upsert}
use roach.Pool.{
  field_metadata, unit_of, description_of, all_metadata, put_number, put_text, add_record_to_batch,
  created, new_tag, counted,
}
use roach.Pool.Parts.{World, Outside, Headers, Failure, determine_data_type}
use roach.Pool.Growth.{same_test}
use roach.Pool.Crew.{Phase, between, missed, made, found, Task, Crew, held_by, without, go_on}

-- The tag is a row of the table, by its device, its name and its id.
abbrev pub HasId : {F : Type 0} → ℕ → Text → Tag → List (TagRow F) → Type 0
HasId {F} d n t rows = (row : TagRow F) × (find_row d n rows ≡ some row) × (row.id ≡ t.id)

-- A worker with the tag of a field holds one that has its row.
abbrev pub PhaseIsBacked : {F : Type 0} → ℕ → Phase F → List (TagRow F) → Type 0
PhaseIsBacked d (between fields) rows = Unit
PhaseIsBacked d (missed n v rest) rows = Unit
PhaseIsBacked d (made t n v rest) rows = HasId d n t rows
PhaseIsBacked d (found t n v rest) rows = HasId d n t rows

abbrev pub TaskIsBacked : {F : Type 0} → Task F → List (TagRow F) → Type 0
TaskIsBacked task rows = (task.device.id < 2 ^ 64) × PhaseIsBacked task.device.id task.phase rows

abbrev pub AllBacked : {F : Type 0} → List (ℕ × Task F) → List (TagRow F) → Type 0
AllBacked [] rows = Unit
AllBacked ((i, task) ∷ hand) rows = TaskIsBacked task rows × AllBacked hand rows

pub record CacheIsBacked {F : Type 0} (w : World F) : Type 0 where
  pub device_ids :
      (lsid : ℕ) (device : Device) → get_device lsid w.cache ≡ some device → device.id < 2 ^ 64
  pub tag_rows :
      (d : ℕ) (n : Text) (t : Tag) → d < 2 ^ 64 → get_tag d n w.cache ≡ some t → HasId d n t w.tags

pub record IsBacked {F : Type 0} (s : Crew F) : Type 0 where
  pub cache : CacheIsBacked s.world
  pub hand : AllBacked s.hand s.world.tags

module _ {F : Type 0} where
  abbrev pub HeldIsBacked : Option (Task F) → List (TagRow F) → Type 0
  HeldIsBacked none rows = Unit
  HeldIsBacked (some task) rows = TaskIsBacked task rows

  pub held_by-HeldIsBacked :
      (i : ℕ) (hand : List (ℕ × Task F)) (rows : List (TagRow F))
      → AllBacked hand rows
      → HeldIsBacked (held_by i hand) rows
  held_by-HeldIsBacked i [] rows h = tt
  held_by-HeldIsBacked i ((j, task) ∷ hand) rows h = elim (Bool-cases (j == i)) [
    | inl same ↦ rw same h.0
    | inr differs ↦ rw differs (held_by-HeldIsBacked i hand rows h.1)
  ]

  pub without-AllBacked :
      (i : ℕ) (hand : List (ℕ × Task F)) (rows : List (TagRow F))
      → AllBacked hand rows
      → AllBacked (without i hand) rows
  without-AllBacked i [] rows h = tt
  without-AllBacked i ((j, task) ∷ hand) rows h = elim (Bool-cases (j == i)) [
    | inl same ↦ rw same h.1
    | inr differs ↦ rw differs (h.0, without-AllBacked i hand rows h.1)
  ]

  -- When ids stay, all that was backed is.
  abbrev pub Keeps : List (TagRow F) → List (TagRow F) → Type 0
  Keeps rows rows' = (d : ℕ) (n : Text) (t : Tag) → HasId d n t rows → HasId d n t rows'

  pub PhaseIsBacked-Keeps :
      (d : ℕ) (phase : Phase F) (rows rows' : List (TagRow F))
      → Keeps rows rows'
      → PhaseIsBacked d phase rows
      → PhaseIsBacked d phase rows'
  PhaseIsBacked-Keeps d (between fields) rows rows' k h = tt
  PhaseIsBacked-Keeps d (missed n v rest) rows rows' k h = tt
  PhaseIsBacked-Keeps d (made t n v rest) rows rows' k h = k d n t h
  PhaseIsBacked-Keeps d (found t n v rest) rows rows' k h = k d n t h

  pub AllBacked-Keeps :
      (hand : List (ℕ × Task F)) (rows rows' : List (TagRow F))
      → Keeps rows rows'
      → AllBacked hand rows
      → AllBacked hand rows'
  AllBacked-Keeps [] rows rows' k h = tt
  AllBacked-Keeps ((i, task) ∷ hand) rows rows' k h = (
    (h.0.0, PhaseIsBacked-Keeps task.device.id task.phase rows rows' k h.0.1),
    AllBacked-Keeps hand rows rows' k h.1,
  )

  -- A worker goes on, in a world in which what was backed still is.
  pub go_on-IsBacked :
      (i : ℕ) (task : Task F) (phase : Phase F) (w : World F) (s : Crew F)
      → IsBacked s
      → CacheIsBacked w
      → Keeps s.world.tags w.tags
      → task.device.id < 2 ^ 64
      → PhaseIsBacked task.device.id phase w.tags
      → IsBacked (go_on i task phase w s)
  go_on-IsBacked i task phase w s h c k small p = record {
    cache = c;
    hand = ((small, p), without-AllBacked i s.hand w.tags (AllBacked-Keeps s.hand _ _ k h.hand));
  }

  pub CacheIsBacked-same :
      (w w' : World F) → w'.cache ≡ w.cache → w'.tags ≡ w.tags → CacheIsBacked w → CacheIsBacked w'
  CacheIsBacked-same w w' e f c = record {
    device_ids = λ l d h. c.device_ids l d (sym (ap (get_device l) e) ∙ h);
    tag_rows = λ d n t s h. rw f (c.tag_rows d n t s (sym (ap (get_tag d n) e) ∙ h));
  }

  pub Keeps-same : (rows rows' : List (TagRow F)) → rows' ≡ rows → Keeps rows rows'
  Keeps-same rows rows' e d n t h = rw e h

module _ {F : Type 0} (o : Outside F) where
  -- Create, by whichever worker, gives the id of the row and changes no id.
  pub created-HasId :
      (h : Headers) (device : Device) (n : Text) (v : Value F) (w : World F)
      → HasId device.id n (new_tag o h device n v w) (created o h device n v w).1
  unfolding created new_tag
  created-HasId h device n v w =
      let meta = field_metadata o h n w.cache in
      let (stored, same) =
        find_row-upsert w.next_tag_id device.id n (determine_data_type v) (unit_of o meta)
          (description_of o meta) (all_metadata o meta) w.tags device.id n in
      (_, rw (same_test o device.id n) at stored, sym same)

  pub created-Keeps :
      (h : Headers) (device : Device) (n : Text) (v : Value F) (w : World F)
      → Keeps w.tags (created o h device n v w).1
  unfolding created update_row
  created-Keeps h device n v w d m t (row, e, id) =
      let meta = field_metadata o h n w.cache in
      let stored =
        (find_row-upsert w.next_tag_id device.id n (determine_data_type v) (unit_of o meta)
          (description_of o meta) (all_metadata o meta) w.tags d m).0 in
      elim (Bool-cases (device.id == d && text_beq n m)) [
        | inl same ↦
            let d_is : device.id ≡ d = ground (arith, same) in
            let n_is : n ≡ m = (text_beq_iff n m).0 (ground (arith, same)) in
            let here : find_row device.id n w.tags ≡ some row =
              (λ i. find_row (d_is i) (n_is i) w.tags) ∙ e in
            (
              update_row (determine_data_type v) (unit_of o meta) (description_of o meta)
                  (all_metadata o meta) row,
              stored ∙ rw (same, here) refl,
              id,
            )
        | inr differs ↦ (row, stored ∙ rw differs e, id)
      ]

  pub tags-add_record_to_batch :
      (fails : _) (tag : Tag) (v : Value F) (ts : ℕ) (w : World F)
      → ((add_record_to_batch o fails tag v ts w).0.cache ≡ w.cache)
        × ((add_record_to_batch o fails tag v ts w).0.tags ≡ w.tags)
  unfolding add_record_to_batch put_number put_text
  tags-add_record_to_batch fails tag Value.null ts w = (ground arith, ground arith)
  tags-add_record_to_batch fails tag v ts w = (ground arith, ground arith)

  pub get_device-set_tag :
      (l d : ℕ) (n : Text) (t : Tag) (c : Cache F) → get_device l (set_tag d n t c) ≡ get_device l c
  unfolding get_device set_tag
  get_device-set_tag l d n t c = refl

  pub set_tag-CacheIsBacked :
      (d : ℕ) (n : Text) (t : Tag) (w : World F)
      → d < 2 ^ 64
      → HasId d n t w.tags
      → CacheIsBacked w
      → CacheIsBacked (record w { cache = set_tag d n t w.cache })
  set_tag-CacheIsBacked d n t w small has c = record {
    device_ids = λ l device e. c.device_ids l device (sym (get_device-set_tag l d n t w.cache) ∙ e);
    tag_rows = λ d' m u s e. by_test d' m u s e (Bool-cases (d == d' && text_beq n m));
  }
    where
      by_test :
          (d' : ℕ) (m : Text) (u : Tag)
          → d' < 2 ^ 64
          → get_tag d' m (set_tag d n t w.cache) ≡ some u
          → ((d == d' && text_beq n m) ≡ true) ⊎ ((d == d' && text_beq n m) ≡ false)
          → HasId d' m u w.tags
      by_test d' m u s e (inr other) =
          c.tag_rows d' m u s (ground (arith, other, e, get_tag-set_tag d d' n m t w.cache small s))
      by_test d' m u s e (inl same) =
          let d_is : d ≡ d' = ground (arith, same) in
          let n_is : n ≡ m = (text_beq_iff n m).0 (ground (arith, same)) in
          let (row, here, id) = has in
          (
            row,
            sym (λ i. find_row (d_is i) (n_is i) w.tags) ∙ here,
            ground (arith, id, same, e, get_tag-set_tag d d' n m t w.cache small s),
          )

  pub counted-same :
      (w : World F) (q : World F × Option Failure)
      → (q.0.cache ≡ w.cache)
      → (q.0.tags ≡ w.tags)
      → ((counted o q).cache ≡ w.cache) × ((counted o q).tags ≡ w.tags)
  counted-same w (w', none) e f = (e, f)
  counted-same w (w', some x) e f = (e, f)
