-- ===== src/Pool/Crew/Race.antt =====
-- services/weatherlink-sql/service/worker_pool.go: two workers that both find no tag for a field.
use roach.Base.{
  ℕ, suc, ◌^◌, ◌<◌, ◌==◌, ◌≡◌, refl, ap, sym, ◌∙◌, Text, true, false, List, [], ◌∷◌, Option, none,
  some, arith, Bool-cases, inl, inr, nat_eq,
}
use roach.Models.{Value, Object, Device, Tag}
use roach.Cache.{get_tag, set_tag}
use roach.Cache.Laws.{get_tag-set_tag}
use roach.Repository.{TagRow, find_row}
use roach.Repository.TagRows.{find_row-upsert, data_type-after_upsert}
use roach.Pool.{field_metadata, unit_of, description_of, all_metadata, created, new_tag}
use roach.Pool.Parts.{World, Outside, Headers, determine_data_type}
use roach.Pool.Growth.{same_test}
use roach.Pool.Crew.{Phase, missed, made, found, Task, Crew, held_by, without, go_on, step, run}
use roach.Pool.Crew.Backing.{created-HasId, created-Keeps}

module _ {F : Type 0} where
  held_by-without :
      (i j : ℕ) (hand : List (ℕ × Task F))
      → i == j ≡ false
      → held_by j (without i hand) ≡ held_by j hand
  held_by-without i j [] e = refl
  held_by-without i j ((k, task) ∷ hand) e = elim (Bool-cases (k == i)) [
    | inl same ↦ ground (arith, same, e)
    | inr differs ↦ elim (Bool-cases (k == j)) [
      | inl same ↦ rw (differs, same)
      | inr other ↦ rw (differs, other) (held_by-without i j hand e)
    ]
  ]

  -- What worker `j` has in hand is not touched when worker `i` goes on.
  held_by-go_on :
      (i j : ℕ) (task : Task F) (phase : Phase F) (w : World F) (s : Crew F)
      → i == j ≡ false
      → held_by j (go_on i task phase w s).hand ≡ held_by j s.hand
  held_by-go_on i j task phase w s e = rw e (held_by-without i j s.hand e)

  held_by_same :
      (i : ℕ) (task : Task F) (hand : List (ℕ × Task F)) → held_by i ((i, task) ∷ hand) ≡ some task
  held_by_same i task hand = let same : (i == i) ≡ true = ground arith in rw same

module _ {F : Type 0} (o : Outside F) where
  abbrev after_create : Task F → Text → Value F → World F → World F
  after_create task n v w = record w {
    tags = (created o task.headers task.device n v w).1;
    next_tag_id = suc w.next_tag_id;
  }

  step_missed :
      (i : ℕ) (task : Task F) (n : Text) (v : Value F) (rest : Object F) (s : Crew F)
      → held_by i s.hand ≡ some task
      → task.phase ≡ missed n v rest
      → o.create_fails n ≡ false
      → step o i s
        ≡ go_on i task
            (made (new_tag o task.headers task.device n v s.world) n v rest)
            (after_create task n v s.world)
            s
  unfolding step
  step_missed i task n v rest s e p works = rw (e, p, works)

  step-made :
      (i : ℕ) (task : Task F) (t : Tag) (n : Text) (v : Value F) (rest : Object F) (s : Crew F)
      → held_by i s.hand ≡ some task
      → task.phase ≡ made t n v rest
      → step o i s
        ≡ go_on i task
            (found t n v rest)
            (record s.world { cache = set_tag task.device.id n t s.world.cache })
            s
  unfolding step
  step-made i task t n v rest s e p = rw (e, p)

  -- The row after a Create has the data type of the value that it was called for.
  created-data_type :
      (h : Headers) (device : Device) (n : Text) (v : Value F) (w : World F)
      → (row : TagRow F) × (find_row device.id n (created o h device n v w).1 ≡ some row)
        × (row.data_type ≡ determine_data_type v)
  unfolding created
  created-data_type h device n v w =
      let meta = field_metadata o h n w.cache in
      let stored =
        (find_row-upsert w.next_tag_id device.id n (determine_data_type v) (unit_of o meta)
          (description_of o meta) (all_metadata o meta) w.tags device.id n).0 in
      (
        _,
        rw (same_test o device.id n) at stored,
        data_type-after_upsert w.next_tag_id device.id n (determine_data_type v) (unit_of o meta)
            (description_of o meta) (all_metadata o meta) (find_row device.id n w.tags),
      )

  data_type-new_tag :
      (h : Headers) (device : Device) (n : Text) (v : Value F) (w : World F)
      → (new_tag o h device n v w).data_type ≡ determine_data_type v
  unfolding new_tag
  data_type-new_tag h device n v w = refl

abbrev id_or_zero : {F : Type 0} → Option (TagRow F) → ℕ
id_or_zero none = 0
id_or_zero (some row) = row.id

-- If two workers have both found no tag for the same field of a device, and the first creates it before
-- the second, but stores it in the cache after the second, then the cache has the tag with the data
-- type of the first value, and the row of the same id that of the second.
pub run_other_type :
    {F : Type 0} (i j : ℕ) (one other one' other' : Outside F) (ti tj : Task F) (n : Text)
    (v v' : Value F) (rest rest' : Object F) (s : Crew F)
    → i == j ≡ false
    → held_by i s.hand ≡ some ti
    → held_by j s.hand ≡ some tj
    → ti.phase ≡ missed n v rest
    → tj.phase ≡ missed n v' rest'
    → tj.device.id ≡ ti.device.id
    → ti.device.id < 2 ^ 64
    → one.create_fails n ≡ false
    → other.create_fails n ≡ false
    → let s' = run s ((i, one) ∷ (j, other) ∷ (j, other') ∷ (i, one') ∷ []) in
      (tag : Tag) × (row : TagRow F) × (get_tag ti.device.id n s'.world.cache ≡ some tag)
      × (find_row ti.device.id n s'.world.tags ≡ some row)
      × (row.id ≡ tag.id)
      × (tag.data_type ≡ determine_data_type v)
      × (row.data_type ≡ determine_data_type v')
unfolding run
run_other_type {F} i j one other one' other' ti tj n v v' rest rest' s apart hi hj pi pj same small
      f g =
    let t = new_tag one ti.headers ti.device n v s.world in
    let w1 = after_create one ti n v s.world in
    let s1 = go_on i ti (made t n v rest) w1 s in
    let t' = new_tag other tj.headers tj.device n v' w1 in
    let w2 = after_create other tj n v' w1 in
    let s2 = go_on j tj (made t' n v' rest') w2 s1 in
    let w3 : World F = record w2 { cache = set_tag tj.device.id n t' w2.cache } in
    let mj : Task F = record tj { phase = made t' n v' rest' } in
    let mi : Task F = record ti { phase = made t n v rest } in
    let s3 = go_on j mj (found t' n v' rest') w3 s2 in
    let e1 = step_missed one i ti n v rest s hi pi f in
    let e2 =
      step_missed other j tj n v' rest' s1 (held_by-go_on i j ti (made t n v rest) w1 s apart ∙ hj)
        pj g in
    let e3 = step-made other' j mj t' n v' rest' s2 (held_by_same j mj (without j s1.hand)) refl in
    let back : j == i ≡ false = ground (arith, apart) in
    let e4 =
      step-made one' i mi t n v rest s3
        (held_by-go_on j i mj (found t' n v' rest') w3 s2 back
          ∙ held_by-go_on j i tj (made t' n v' rest') w2 s1 back
          ∙ held_by_same i mi (without i s.hand))
        refl in
    let (kept, has, id) =
      created-Keeps other tj.headers tj.device n v' w1 ti.device.id n t
        (created-HasId one ti.headers ti.device n v s.world) in
    let (row, here, typed) = created-data_type other tj.headers tj.device n v' w1 in
    let there = ap (λ d. find_row d n w2.tags) (sym same) ∙ here in
    rw (e1, e2, e3, e4)
      (
        t,
        row,
        get_tag-set_tag ti.device.id ti.device.id n n t w3.cache small small
            ∙ rw (same_test one ti.device.id n) refl,
        there,
        ap id_or_zero (sym there ∙ has) ∙ id,
        data_type-new_tag one ti.headers ti.device n v s.world,
        typed,
      )
