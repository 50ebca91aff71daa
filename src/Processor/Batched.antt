-- ===== src/Processor/Batched.antt =====
-- The workers with their batch writer beside the data processor of data.go, which inserts each value
-- at once.
use roach.Base.{
  ℕ, ◌≡◌, refl, ap, sym, ◌∙◌, ◌≢◌, Text, text_beq, Bool, false, List, [], ◌∷◌, Option, none, some,
  arith, Bool-cases, Option-cases, inl, inr,
}
use roach.Base.Strings.{codes}
use roach.Tables.{Row, Stage, insert_all}
use roach.BatchWriter.{
  BatchWriter, Database, numeric_slot, text_slot, null_slot, add_numeric, add_text, add_null,
  flush_all, flush_numeric_locked, flush_text_locked, flush_null_locked,
}
use roach.BatchWriter.Direct.{Works, add_ok, flush_locked_ok}
use roach.Models.{Value, Object, Message, Device, Tag, null}
use roach.Cache.{get_device, get_tag}
use roach.Pool.{
  as_number, as_string, put_number, put_text, add_record_to_batch, find_tag, create_tag, created,
  new_tag, keep_orphan, note_structure, message_cases, work, written_to, worker_step, counted,
}
use roach.Pool.Parts.{
  World, Outside, Headers, Failure, read_headers, no_headers, is_numeric_type, is_text_type,
}
use roach.Pool
use roach.Processor.{
  InsertError, insert_numeric, insert_text, insert_null, insert_number, insert_string,
  insert_record,
}
use roach.Processor

-- No INSERT fails.
abbrev pub never : Text → Bool
never name = false

module _ {F : Type 0} where
  -- The record tables once the batches of the writer are in them.
  abbrev pub settled_tables : World F → Database F
  settled_tables w = record {
    records_numeric = insert_all w.database.records_numeric w.writer.numeric_batch;
    records_text = insert_all w.database.records_text w.writer.text_batch;
    records_null = insert_all w.database.records_null w.writer.null_batch;
  }

  -- A world as the data processor sees it: the batches are in their tables. It has neither a writer
  -- nor counters.
  abbrev settle : BatchWriter F → World F → World F
  settle blank w = record w {
    writer = blank;
    database = settled_tables w;
    messages_processed = 0;
    processing_errors = 0;
  }

module _ {F : Type 0} (o : Outside F) (blank : BatchWriter F) where
  create_tag-settle :
      (msg : Message F) (h : Headers) (device : Device) (name : Text) (v : Value F) (w : World F)
      → create_tag o msg h device name v (settle blank w) ≡ (
        settle blank (create_tag o msg h device name v w).0,
        (create_tag o msg h device name v w).1,
      )
  unfolding create_tag created new_tag
  create_tag-settle msg h device name v w = elim (Bool-cases (o.create_fails name)) [
    | inl e ↦ rw (e, create_tag) (elim (Bool-cases o.save_fails) [ inl d ↦ rw d | inr d ↦ rw d ])
    | inr e ↦ rw (e, create_tag)
  ]

  find_tag-settle :
      (msg : Message F) (h : Headers) (device : Device) (name : Text) (v : Value F) (w : World F)
      → find_tag o msg h device name v (settle blank w)
        ≡ (settle blank (find_tag o msg h device name v w).0, (find_tag o msg h device name v w).1)
  unfolding find_tag
  find_tag-settle msg h device name v w = elim (Option-cases (get_tag device.id name w.cache)) [
    | inl e ↦ rw (e, find_tag) (create_tag-settle msg h device name v w)
    | inr (tag, e) ↦ rw (e, find_tag)
  ]

  -- What a record tag of the data processor makes of the settled tables.
  abbrev inserted : World F → Database F × Option InsertError → World F
  inserted w (db, error) = record (settle blank w) { database = db }

  module _ (insert_fails : Text → Bool) (fails : Stage → Bool) (works : Works fails) where
    put_number-settle :
        (tag : ℕ) (x : Option F) (ts : ℕ) (w : World F)
        → settle blank (put_number o fails tag x ts w).0
          ≡ inserted w (insert_number false tag x ts (settled_tables w))
    unfolding put_number add_numeric insert_number insert_numeric
    put_number-settle tag none ts w = refl
    put_number-settle tag (some x) ts w =
        let r : Row F = record { tag_id = tag; value = x; ts = ts } in
        let done =
          (add_ok fails works o.now r (numeric_slot w.writer) w.database.records_numeric).2 in
        ap (λ t. inserted w (record (settled_tables w) { records_numeric = t }, none)) done

    put_text-settle :
        (tag : ℕ) (x : Option Text) (ts : ℕ) (w : World F)
        → settle blank (put_text o fails tag x ts w).0
          ≡ inserted w (insert_string false tag x ts (settled_tables w))
    unfolding put_text add_text insert_string insert_text
    put_text-settle tag none ts w = refl
    put_text-settle tag (some x) ts w =
        let r : Row Text = record { tag_id = tag; value = x; ts = ts } in
        let done = (add_ok fails works o.now r (text_slot w.writer) w.database.records_text).2 in
        ap (λ t. inserted w (record (settled_tables w) { records_text = t }, none)) done

    add_null-settle :
        (tag ts : ℕ) (w : World F)
        → settle blank (written_to o w (add_null fails o.now tag ts (w.writer, w.database))).0
          ≡ inserted w (insert_null false tag ts (settled_tables w))
    unfolding add_null insert_null
    add_null-settle tag ts w =
        let r : Row (Unit {0}) = record { tag_id = tag; value = tt; ts = ts } in
        let done = (add_ok fails works o.now r (null_slot w.writer) w.database.records_null).2 in
        ap (λ t. inserted w (record (settled_tables w) { records_null = t }, none)) done

    pub add_record-settle :
        (tag : Tag) (v : Value F) (ts : ℕ) (w : World F)
        → settle blank (add_record_to_batch o fails tag v ts w).0
          ≡ inserted w (insert_record o insert_fails false tag v ts (settled_tables w))
    unfolding add_record_to_batch insert_record
    add_record-settle tag null ts w = add_null-settle tag.id ts w
    add_record-settle tag v ts w = elim (Bool-cases (is_numeric_type tag.data_type)) [
      | inl e ↦
          rw (e, add_record_to_batch, insert_record) (put_number-settle tag.id (as_number o v) ts w)
      | inr e ↦ elim (Bool-cases (is_text_type tag.data_type)) [
        | inl d ↦
            rw (e, d, add_record_to_batch, insert_record)
              (put_text-settle tag.id (as_string o v) ts w)
        | inr d ↦ rw (e, d, add_record_to_batch, insert_record)
      ]
    ]

  module _ (copies : (name : Text) → Works (o.copy_fails name)) where
    -- What each does with a field other than the timestamp, once its tag is found.
    abbrev batches : Headers → Text → Value F → World F × Option Tag → World F
    batches h name v (w, none) = w
    batches h name v (w, some tag) =
        (add_record_to_batch o (o.copy_fails name) tag v h.timestamp w).0

    abbrev stores : Headers → Text → Value F → World F × Option Tag → World F
    stores h name v (w, none) = w
    stores h name v (w, some tag) = record w {
      database = (insert_record o never false tag v h.timestamp w.database).0;
    }

    batches-settle :
        (h : Headers) (name : Text) (v : Value F) (r : World F × Option Tag)
        → settle blank (batches h name v r) ≡ stores h name v (settle blank r.0, r.1)
    batches-settle h name v (w, none) = refl
    batches-settle h name v (w, some tag) =
        add_record-settle never (o.copy_fails name) (copies name) tag v h.timestamp w

    process_field-batches :
        (msg : Message F) (h : Headers) (device : Device) (w : World F) (name : Text) (v : Value F)
        → text_beq name (codes "ts") ≡ false
        → Pool.process_field o msg h device w name v
          ≡ batches h name v (find_tag o msg h device name v w)
    unfolding Pool.process_field
    process_field-batches msg h device w name v e = ground arith

    process_field-stores :
        (msg : Message F) (h : Headers) (device : Device) (w : World F) (name : Text) (v : Value F)
        → text_beq name (codes "ts") ≡ false
        → Processor.process_field o never msg h device w name v
          ≡ stores h name v (find_tag o msg h device name v w)
    unfolding Processor.process_field
    process_field-stores msg h device w name v e = ground arith

    process_field-settle :
        (msg : Message F) (h : Headers) (device : Device) (w : World F) (name : Text) (v : Value F)
        → settle blank (Pool.process_field o msg h device w name v)
          ≡ Processor.process_field o never msg h device (settle blank w) name v
    unfolding Pool.process_field Processor.process_field
    process_field-settle msg h device w name v = elim (Bool-cases (text_beq name (codes "ts"))) [
      | inl e ↦ rw (e, Pool.process_field, Processor.process_field)
      | inr e ↦
          ap (settle blank) (process_field-batches msg h device w name v e)
          ∙ batches-settle h name v (find_tag o msg h device name v w)
          ∙ sym (ap (stores h name v) (find_tag-settle msg h device name v w))
          ∙ sym (process_field-stores msg h device (settle blank w) name v e)
    ]

    process_fields-settle :
        (msg : Message F) (h : Headers) (device : Device) (w : World F) (fields : Object F)
        → settle blank (Pool.process_fields o msg h device w fields)
          ≡ Processor.process_fields o never msg h device (settle blank w) fields
    unfolding Pool.process_fields Processor.process_fields
    process_fields-settle msg h device w [] = refl
    process_fields-settle msg h device w ((name, v) ∷ fields) =
        process_fields-settle msg h device (Pool.process_field o msg h device w name v) fields
        ∙ ap (λ u. Processor.process_fields o never msg h device u fields)
            (process_field-settle msg h device w name v)

    note_structure-settle :
        (h : Headers) (device : Device) (w : World F)
        → note_structure o h device (settle blank w) ≡ settle blank (note_structure o h device w)
    unfolding note_structure
    note_structure-settle h device w = ground arith

    -- Handled by either, the message has the same result and leaves the same state, up to the
    -- records that wait in a batch.
    abbrev Agrees : Message F → World F → World F × Option Failure → Type 0
    Agrees msg w (w', error) =
        Processor.process_message o never msg (settle blank w) ≡ (settle blank w', error)

    process_body-settle :
        (msg : Message F) (h : Headers) (device : Device) (body : Option (Object F)) (w : World F)
        → Processor.process_body o never msg h device body (settle blank w) ≡ (
          settle blank (Pool.process_body o msg h device body w).0,
          (Pool.process_body o msg h device body w).1,
        )
    process_body-settle msg h device none w = refl
    process_body-settle msg h device (some fields) w =
        ap (λ u. (u, none)) (sym (process_fields-settle msg h device w fields))

    process_message_known :
        (msg : Message F) (w : World F) (device : Device)
        → (read_headers no_headers msg.headers).lsid ≢ 0
        → get_device (read_headers no_headers msg.headers).lsid w.cache ≡ some device
        → Processor.process_message o never msg (settle blank w)
          ≡ Processor.process_body o never msg
              (read_headers no_headers msg.headers)
              device
              msg.body
              (note_structure o (read_headers no_headers msg.headers) device (settle blank w))
    unfolding Processor.process_message
    process_message_known msg w device z e = ground arith

    settle-counted : (r : World F × Option Failure) → settle blank (counted o r) ≡ settle blank r.0
    settle-counted (w, none) = refl
    settle-counted (w, some e) = refl

    process_message-settle :
        (msg : Message F) (w : World F) → Agrees msg w (Pool.process_message o msg w)
    unfolding Processor.process_message
    process_message-settle msg w =
        let h = read_headers no_headers msg.headers in
        message_cases o (Agrees msg w) msg w (λ z. ground arith) (λ z e. ground arith)
          (λ device z e.
            let noted = note_structure-settle h device w in
            process_message_known msg w device z e
            ∙ ap (λ u. Processor.process_body o never msg h device msg.body u) noted
            ∙ process_body-settle msg h device msg.body (note_structure o h device w))

-- The same messages for the data processor, none of whose INSERTs fails.
abbrev direct :
    {F : Type 0} → List (Outside F × Message F) → List (Outside F × (Text → Bool) × Message F)
direct [] = []
direct ((o, msg) ∷ jobs) = (o, never, msg) ∷ direct jobs

-- No COPY of a flush fails, whichever message it happens at.
abbrev AllCopy : {F : Type 0} → List (Outside F × Message F) → Type 0
AllCopy [] = Unit
AllCopy ((o, msg) ∷ jobs) = ((name : Text) → Works (o.copy_fails name)) × AllCopy jobs

module _ {F : Type 0} (blank : BatchWriter F) where
  -- The data processor on messages, from the settled state, reaches the settled state of the worker
  -- on them.
  listen-work :
      (w : World F) (jobs : List (Outside F × Message F))
      → AllCopy jobs
      → Processor.listen (settle blank w) (direct jobs) ≡ settle blank (work w jobs)
  unfolding Processor.listen work worker_step
  listen-work w [] c = refl
  listen-work w ((o, msg) ∷ jobs) c =
      ap (λ r. Processor.listen r.0 (direct jobs)) (process_message-settle o blank c.0 msg w)
      ∙ ap (λ u. Processor.listen u (direct jobs))
          (sym (settle-counted o blank c.0 (Pool.process_message o msg w)))
      ∙ listen-work (worker_step o w msg) jobs c.1

  pub flush_all-settled :
      (fails : Stage → Bool) (works : Works fails) (now : ℕ) (w : World F)
      → (flush_all fails fails fails now (w.writer, w.database)).0.1 ≡ settled_tables w
  unfolding flush_all flush_numeric_locked flush_text_locked flush_null_locked
  flush_all-settled fails works now w =
      let a =
        (flush_locked_ok fails works now (numeric_slot w.writer) w.database.records_numeric).3 in
      let s1 = (flush_numeric_locked fails now (w.writer, w.database)).0 in
      let b = (flush_locked_ok fails works now (text_slot s1.0) w.database.records_text).3 in
      let s2 = (flush_text_locked fails now s1).0 in
      let c = (flush_locked_ok fails works now (null_slot s2.0) w.database.records_null).3 in
      λ i. record { records_numeric = a i; records_text = b i; records_null = c i }

  -- If the pool has one worker and no statement on the record tables fails, the worker followed by
  -- FlushAll leaves the record tables, the cache, the tags and the orphans that the data processor
  -- leaves, which inserts each value at once, from the same state with the waiting batches in their
  -- tables. Creating a tag and saving an orphan may fail, each time anew.
  flush_all-work-listen :
      (fails : Stage → Bool) (now : ℕ) (w : World F) (jobs : List (Outside F × Message F))
      → Works fails
      → AllCopy jobs
      → let w' = work w jobs in
        let v = Processor.listen (settle blank w) (direct jobs) in
        ((flush_all fails fails fails now (w'.writer, w'.database)).0.1 ≡ v.database)
        × (w'.cache ≡ v.cache)
        × (w'.tags ≡ v.tags)
        × (w'.orphans ≡ v.orphans)
  flush_all-work-listen fails now w jobs works copies =
      let same = listen-work w jobs copies in
      (
        flush_all-settled fails works now (work w jobs) ∙ sym (ap (λ u. u.database) same),
        sym (ap (λ u. u.cache) same),
        sym (ap (λ u. u.tags) same),
        sym (ap (λ u. u.orphans) same),
      )
