-- ===== src/Pool/Tagging.antt =====
-- The cache of tags against the tags table, while messages are handled.
use roach.Base.{
  ℕ, ◌^◌, ◌<◌, ◌==◌, ◌≡◌, refl, sym, ◌∙◌, Text, Bool, true, false, List, [], ◌∷◌, Option, none,
  some, arith, text_beq, if◌then◌else◌, Bool-cases, inl, inr, nat_eq,
}
use roach.Base.Assoc.{lookup-insert}
use roach.Base.Strings.{codes}
use roach.Models.{Value, Object, Message, Device, Tag}
use roach.Cache.{Cache, get_device, set_device, get_tag}
use roach.Pool.{
  add_record_to_batch, find_tag, process_field, process_fields, note_structure, process_body,
  process_message, message_cases, worker_step, work, counted,
}
use roach.Pool.Parts.{World, Outside, Headers, read_headers, no_headers}
use roach.Pool.Growth.{
  IsConsistent, Grows, Grows-trans, Grows-same, add_record-Grows, find_tag-Grows,
}

module _ {F : Type 0} (o : Outside F) where
  pub process_field-Grows :
      (msg : Message F) (h : Headers) (device : Device) (w : World F) (n : Text) (v : Value F)
      → device.id < 2 ^ 64
      → Grows w (process_field o msg h device w n v)
  unfolding process_field
  process_field-Grows msg h device w n v small = elim (Bool-cases (text_beq n (codes "ts"))) [
    | inl ts ↦ rw ts (Grows-same w w refl refl)
    | inr other ↦ rw other (by_found _ refl)
  ]
    where
      w' : World F
      w' = (find_tag o msg h device n v w).0

      by_found :
          (found : Option Tag)
          → (find_tag o msg h device n v w).1 ≡ found
          → Grows w (elim (find_tag o msg h device n v w).1 [
            | none ↦ w'
            | some tag ↦ (add_record_to_batch o (o.copy_fails n) tag v h.timestamp w').0
          ])
      by_found none e = rw e (find_tag-Grows o msg h device n v w small)
      by_found (some tag) e = rw e (
          Grows-trans w w' _ (find_tag-Grows o msg h device n v w small)
            (add_record-Grows o (o.copy_fails n) tag v h.timestamp w'))

  pub process_fields-Grows :
      (msg : Message F) (h : Headers) (device : Device) (w : World F) (fields : Object F)
      → device.id < 2 ^ 64
      → Grows w (process_fields o msg h device w fields)
  unfolding process_fields
  process_fields-Grows msg h device w [] small = Grows-same w w refl refl
  process_fields-Grows msg h device w ((n, v) ∷ fields) small =
      Grows-trans w (process_field o msg h device w n v) _
        (process_field-Grows msg h device w n v small)
        (process_fields-Grows msg h device (process_field o msg h device w n v) fields small)

  pub get_device-set_device :
      (l k : ℕ) (d : Device) (c : Cache F)
      → get_device l (set_device k d c) ≡ (if k == l then some d else get_device l c)
  unfolding get_device set_device
  get_device-set_device l k d c = lookup-insert k l d c.devices

  pub get_tag-set_device :
      (l d : ℕ) (n : Text) (v : Device) (c : Cache F)
      → get_tag d n (set_device l v c) ≡ get_tag d n c
  unfolding get_tag set_device
  get_tag-set_device l d n v c = refl

  with_device-Grows :
      (l : ℕ) (device : Device) (w : World F)
      → device.id < 2 ^ 64
      → Grows w (record w { cache = set_device l device w.cache })
  with_device-Grows l device w small = record {
    consistent = λ c. record {
      device_ids = λ k d e.
          ground (arith, get_device-set_device k l device w.cache, c.device_ids k d, small);
      tag_rows =
          λ d n t s e. c.tag_rows d n t s (sym (get_tag-set_device l d n device w.cache) ∙ e);
    };
    stable = λ d n t s e. get_tag-set_device l d n device w.cache ∙ e;
  }

  note_structure-Grows :
      (h : Headers) (device : Device) (w : World F)
      → device.id < 2 ^ 64
      → Grows w (note_structure o h device w)
  unfolding note_structure
  note_structure-Grows h device w small = Grows_if _ _ w (with_device-Grows h.lsid _ w small)
    where
      Grows_if : (b : Bool) (x y : World F) → Grows y x → Grows y (if b then x else y)
      Grows_if true x y g = g
      Grows_if false x y g = Grows-same y y refl refl

  process_body-Grows :
      (msg : Message F) (h : Headers) (device : Device) (body : Option (Object F)) (w : World F)
      → device.id < 2 ^ 64
      → Grows w (process_body o msg h device body w).0
  process_body-Grows msg h device none w small = Grows-same w w refl refl
  process_body-Grows msg h device (some fields) w small =
      process_fields-Grows msg h device w fields small

  process_message-Grows :
      (msg : Message F) (w : World F) → IsConsistent w → Grows w (process_message o msg w).0
  process_message-Grows msg w c =
      let h = read_headers no_headers msg.headers in
      message_cases o (λ r. Grows w r.0) msg w (λ _. Grows-same w w refl refl)
        (λ _ _. Grows-same w _ (ground arith) (ground arith))
        λ device _ e.
          let small = c.device_ids h.lsid device e in
          Grows-trans w (note_structure o h device w) _ (note_structure-Grows h device w small)
            (process_body-Grows msg h device msg.body (note_structure o h device w) small)

  worker_step-Grows :
      (w : World F) (msg : Message F) → IsConsistent w → Grows w (worker_step o w msg)
  unfolding worker_step
  worker_step-Grows w msg c =
      Grows-trans w (process_message o msg w).0 _ (process_message-Grows msg w c)
        (counted-Grows (process_message o msg w))
    where
      counted-Grows : (r : World F × Option _) → Grows r.0 (counted o r)
      counted-Grows (w', none) = Grows-same w' _ refl refl
      counted-Grows (w', some e) = Grows-same w' _ refl refl

module _ {F : Type 0} where
  work-Grows :
      (w : World F) (jobs : List (Outside F × Message F)) → IsConsistent w → Grows w (work w jobs)
  unfolding work
  work-Grows w [] c = Grows-same w w refl refl
  work-Grows w ((o, msg) ∷ jobs) c =
      let g = worker_step-Grows o w msg c in
      Grows-trans w (worker_step o w msg) _ g
        (work-Grows (worker_step o w msg) jobs (g.consistent c))

  -- With one worker, handling any messages, whatever they hold and whichever statements fail, keeps the
  -- cache and the tags table consistent: every cached tag is a row with the same id and data type,
  -- and every cached device has an id below 2 ^ 64.
  pub work-IsConsistent :
      (w : World F) (jobs : List (Outside F × Message F))
      → IsConsistent w
      → IsConsistent (work w jobs)
  work-IsConsistent w jobs c = (work-Grows w jobs c).consistent c

  -- Nor do messages ever change a cached tag: its id, type, unit and description stay.
  pub get_tag-work :
      (w : World F) (jobs : List (Outside F × Message F)) (d : ℕ) (n : Text) (t : Tag)
      → IsConsistent w
      → d < 2 ^ 64
      → get_tag d n w.cache ≡ some t
      → get_tag d n (work w jobs).cache ≡ some t
  get_tag-work w jobs d n t c = (work-Grows w jobs c).stable d n t
