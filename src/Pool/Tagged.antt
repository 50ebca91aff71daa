-- ===== src/Pool/Tagged.antt =====
-- The tags of the fields of a message, once they have been handled.
use roach.Base.{
  ◌^◌, ◌<◌, ◌≡◌, ◌⊎◌, refl, ◌∙◌, Text, true, [], ◌∷◌, Option, none, some, text_beq, Bool-cases,
  Option-cases, inl, inr, nat_eq,
}
use roach.Base.Strings.{codes}
use roach.Models.{Value, Object, Message, Device, Tag}
use roach.Cache.{get_tag}
use roach.Cache.Laws.{get_tag-set_tag}
use roach.Pool.{add_record_to_batch, new_tag, create_tag, find_tag, process_field, process_fields}
use roach.Pool.Parts.{World, Outside, Headers}
use roach.Pool.Growth.{Grows, add_record-Grows, same_test}
use roach.Pool.Tagging.{process_fields-Grows}

module _ {F : Type 0} (o : Outside F) where
  -- The tag of a field could not be created, or it is cached.
  abbrev pub IsFound : Device → World F → Text → Type 0
  IsFound device w n =
      (o.create_fails n ≡ true) ⊎ ((t : Tag) × (get_tag device.id n w.cache ≡ some t))

  -- A field is accounted for: it is the timestamp, its creation failed, or its tag is cached.
  abbrev pub IsTagged : Device → World F → Text → Type 0
  IsTagged device w n = (text_beq n (codes "ts") ≡ true) ⊎ IsFound device w n

  IsFound-Grows :
      (device : Device) (w w' : World F) (n : Text)
      → device.id < 2 ^ 64
      → Grows w w'
      → IsFound device w n
      → IsFound device w' n
  IsFound-Grows device w w' n small g (inl fails) = inl fails
  IsFound-Grows device w w' n small g (inr (t, e)) = inr (t, g.stable device.id n t small e)

  IsTagged-Grows :
      (device : Device) (w w' : World F) (n : Text)
      → device.id < 2 ^ 64
      → Grows w w'
      → IsTagged device w n
      → IsTagged device w' n
  IsTagged-Grows device w w' n small g (inl ts) = inl ts
  IsTagged-Grows device w w' n small g (inr f) = inr (IsFound-Grows device w w' n small g f)

  find_tag-IsFound :
      (msg : Message F) (h : Headers) (device : Device) (n : Text) (v : Value F) (w : World F)
      → device.id < 2 ^ 64
      → IsFound device (find_tag o msg h device n v w).0 n
  unfolding find_tag create_tag
  find_tag-IsFound msg h device n v w small = elim (Option-cases (get_tag device.id n w.cache)) [
    | inr (t, e) ↦ rw (e, find_tag) (inr (t, e))
    | inl unknown ↦ elim (Bool-cases (o.create_fails n)) [
      | inl fails ↦ inl fails
      | inr works ↦
          rw (unknown, find_tag, works)
            (inr (
              new_tag o h device n v w,
              get_tag-set_tag device.id device.id n n (new_tag o h device n v w) w.cache small small
                  ∙ rw (same_test o device.id n),
            ))
    ]
  ]

  process_field-IsTagged :
      (msg : Message F) (h : Headers) (device : Device) (w : World F) (n : Text) (v : Value F)
      → device.id < 2 ^ 64
      → IsTagged device (process_field o msg h device w n v) n
  unfolding process_field
  process_field-IsTagged msg h device w n v small = elim (Bool-cases (text_beq n (codes "ts"))) [
    | inl ts ↦ inl ts
    | inr other ↦ inr (rw other (by_found _ refl))
  ]
    where
      w' : World F
      w' = (find_tag o msg h device n v w).0

      by_found :
          (found : Option Tag)
          → (find_tag o msg h device n v w).1 ≡ found
          → IsFound device
              (elim (find_tag o msg h device n v w).1 [
                | none ↦ w'
                | some tag ↦ (add_record_to_batch o (o.copy_fails n) tag v h.timestamp w').0
              ])
              n
      by_found none e = rw e (find_tag-IsFound msg h device n v w small)
      by_found (some tag) e = rw e (
          IsFound-Grows device w' _ n small
            (add_record-Grows o (o.copy_fails n) tag v h.timestamp w')
            (find_tag-IsFound msg h device n v w small))

  abbrev pub AllTagged : Device → World F → Object F → Type 0
  AllTagged device w [] = Unit {0}
  AllTagged device w ((n, v) ∷ fields) = IsTagged device w n × AllTagged device w fields

  -- After the fields of a message have been handled, each of them is the timestamp, or its tag could
  -- not be created, or its tag is in the cache.
  pub process_fields-AllTagged :
      (msg : Message F) (h : Headers) (device : Device) (w : World F) (fields : Object F)
      → device.id < 2 ^ 64
      → AllTagged device (process_fields o msg h device w fields) fields
  unfolding process_fields
  process_fields-AllTagged msg h device w [] small = tt
  process_fields-AllTagged msg h device w ((n, v) ∷ fields) small =
      let w' = process_field o msg h device w n v in
      (
        IsTagged-Grows device w' _ n small (process_fields-Grows o msg h device w' fields small)
            (process_field-IsTagged msg h device w n v small),
        process_fields-AllTagged msg h device w' fields small,
      )
