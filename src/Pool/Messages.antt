-- ===== src/Pool/Messages.antt =====
-- What a worker does with a whole message: the two counters, and the messages that are kept aside.
use roach.Base.{
  ℕ, ◌+◌, ◌≡◌, ◌≢◌, refl, ◌∙◌, Text, false, List, [], ◌∷◌, Option, none, some, arith, text_beq_iff,
  if◌then◌else◌,
}
use roach.Base.Strings.{codes}
use roach.Models.{Value, Object, Message, Device, Tag}
use roach.Cache.{get_device}
use roach.Repository.{Orphan, same_position, put_orphan, orphan_of, save}
use roach.Pool.{
  put_number, put_text, add_record_to_batch, create_tag, find_tag, process_field, process_fields,
  note_structure, process_body, message_cases, counted, process_message, worker_step,
}
use roach.Pool.Parts.{World, Outside, Headers, Failure, read_headers, no_headers}

module _ {F : Type 0} (o : Outside F) where
  -- Nothing below processMessage touches the two counters.
  abbrev pub SameCounters : World F → World F → Type 0
  SameCounters w w' =
      (w'.messages_processed ≡ w.messages_processed) × (w'.processing_errors ≡ w.processing_errors)

  pub add_record-counters :
      (fails : _) (tag : Tag) (v : Value F) (ts : ℕ) (w : World F)
      → SameCounters w (add_record_to_batch o fails tag v ts w).0
  unfolding add_record_to_batch put_number put_text
  add_record-counters fails tag Value.null ts w = (ground arith, ground arith)
  add_record-counters fails tag v ts w = (ground arith, ground arith)

  find_tag-counters :
      (msg : Message F) (h : Headers) (device : Device) (name : Text) (v : Value F) (w : World F)
      → SameCounters w (find_tag o msg h device name v w).0
  unfolding find_tag create_tag
  find_tag-counters msg h device name v w = (ground arith, ground arith)

  process_field-counters :
      (msg : Message F) (h : Headers) (device : Device) (w : World F) (name : Text) (v : Value F)
      → SameCounters w (process_field o msg h device w name v)
  unfolding process_field
  process_field-counters msg h device w name v = by_found _ refl
    where
      by_found :
          (t : Option Tag)
          → (find_tag o msg h device name v w).1 ≡ t
          → SameCounters w (process_field o msg h device w name v)
      by_found none e = (
        ground (arith, find_tag-counters msg h device name v w),
        ground (arith, find_tag-counters msg h device name v w),
      )
      by_found (some tag) e =
          let w' = (find_tag o msg h device name v w).0 in
          let rest = add_record-counters (o.copy_fails name) tag v h.timestamp w' in
          (
            ground (arith, find_tag-counters msg h device name v w, rest),
            ground (arith, find_tag-counters msg h device name v w, rest),
          )

  process_fields-counters :
      (msg : Message F) (h : Headers) (device : Device) (w : World F) (fields : Object F)
      → SameCounters w (process_fields o msg h device w fields)
  unfolding process_fields
  process_fields-counters msg h device w [] = (refl, refl)
  process_fields-counters msg h device w ((name, v) ∷ fields) =
      let a = process_field-counters msg h device w name v in
      let b = process_fields-counters msg h device (process_field o msg h device w name v) fields in
      (b.0 ∙ a.0, b.1 ∙ a.1)

  pub note_structure-counters :
      (h : Headers) (device : Device) (w : World F) → SameCounters w (note_structure o h device w)
  unfolding note_structure
  note_structure-counters h device w = (ground arith, ground arith)

  process_body-counters :
      (msg : Message F) (h : Headers) (device : Device) (body : Option (Object F)) (w : World F)
      → SameCounters w (process_body o msg h device body w).0
  process_body-counters msg h device none w = (refl, refl)
  process_body-counters msg h device (some fields) w = process_fields-counters msg h device w fields

  process_message-counters :
      (msg : Message F) (w : World F) → SameCounters w (process_message o msg w).0
  process_message-counters msg w =
      let h = read_headers no_headers msg.headers in
      message_cases o (λ r. SameCounters w r.0) msg w (λ _. (refl, refl))
        (λ _ _. (ground arith, ground arith))
        λ device _ _.
          let a = note_structure-counters h device w in
          let b = process_body-counters msg h device msg.body (note_structure o h device w) in
          (b.0 ∙ a.0, b.1 ∙ a.1)

  abbrev pub handled : World F → ℕ
  handled w = w.messages_processed + w.processing_errors

  handled-counted :
      (w : World F) (r : World F × Option Failure)
      → SameCounters w r.0
      → handled (counted o r) ≡ handled w + 1
  handled-counted w (w', none) (p, q) = omega (arith, p, q)
  handled-counted w (w', some e) (p, q) = omega (arith, p, q)

  worker_step-counted :
      (w : World F) (msg : Message F) → handled (worker_step o w msg) ≡ handled w + 1
  unfolding worker_step
  worker_step-counted w msg =
      handled-counted w (process_message o msg w) (process_message-counters msg w)

module _ {F : Type 0} where
  abbrev pub orphan_at : Orphan F → List (Orphan F) → Option (Orphan F)
  orphan_at p [] = none
  orphan_at p (q ∷ orphans) = if same_position q p then some q else orphan_at p orphans

  orphan_at-put_orphan :
      (p q : Orphan F) (orphans : List (Orphan F))
      → orphan_at p (put_orphan q orphans)
        ≡ (if same_position q p then some q else orphan_at p orphans)
  unfolding put_orphan
  orphan_at-put_orphan p q [] = refl
  orphan_at-put_orphan p q (r ∷ orphans) = ground (
    arith,
    text_beq_iff q.topic p.topic,
    text_beq_iff r.topic p.topic,
    text_beq_iff r.topic q.topic,
    orphan_at-put_orphan p q orphans,
  )

module _ {F : Type 0} (o : Outside F) where
  abbrev pub headers_of : Message F → Headers
  headers_of msg = read_headers no_headers msg.headers

  abbrev pub kept : Message F → Orphan F
  kept msg =
      orphan_of msg (headers_of msg).lsid (headers_of msg).timestamp [] (codes "missing_device")

  process_message_unknown :
      (msg : Message F) (w : World F)
      → (headers_of msg).lsid ≢ 0
      → get_device (headers_of msg).lsid w.cache ≡ none
      → o.save_fails ≡ false
      → process_message o msg w ≡ (record w { orphans = put_orphan (kept msg) w.orphans }, none)
  unfolding process_message save
  process_message_unknown msg w known unknown works = ground arith

  -- A message whose headers name a device that the cache does not know is, while the save works,
  -- kept under its position in Kafka with its headers, its body and the reason. What is kept under
  -- every other position, and the rest of the state, stays as it was.
  pub process_message_unknown_device :
      (msg : Message F) (w : World F) (p : Orphan F)
      → (headers_of msg).lsid ≢ 0
      → get_device (headers_of msg).lsid w.cache ≡ none
      → o.save_fails ≡ false
      → let (w', error) = process_message o msg w in
        (error ≡ none)
        × (orphan_at p w'.orphans
            ≡ (if same_position (kept msg) p then some (kept msg) else orphan_at p w.orphans))
        × (record w' { orphans = w.orphans } ≡ w)
  process_message_unknown_device msg w p known unknown works =
      rw (process_message_unknown msg w known unknown works)
        (refl, orphan_at-put_orphan p (kept msg) w.orphans, refl)
