-- ===== src/Backfill/Concurrent/Writing.antt =====
-- services/weatherlink-sql-backfill/service/worker_pool.go: what becomes of the values that the
-- workers hand to the batch writer.
use roach.Base.{
  ℕ, ◌==◌, ◌≡◌, refl, ap, sym, ◌∙◌, Text, List, [], ◌∷◌, ◌++◌, Bool, Option, none, some, Bool-cases,
  inl, inr,
}
use roach.Base.Strings.{codes}
use roach.Tables.{Stage}
use roach.BatchWriter.{flush_all}
use roach.BatchWriter.Direct.{Works}
use roach.Models.{Object, Message, Device}
use roach.Cache.{get_device}
use roach.Pool.{note_structure}
use roach.Pool.Parts.{World, Outside, Headers, read_headers, no_headers}
use roach.Pool.Crew.{Phase, between, missed, made, found, Task, Crew, held_by}
use roach.Processor.Batched.{settled_tables, flush_all-settled}
use roach.Processor.Written.{
  Handed, handed_in, handed_by, insert_handed, insert_handed-append, insert_handed-nil,
  keep_orphan-Keeps, note_structure-Keeps, advance-settled,
}
use roach.Backfill.Concurrent.{
  ErrorTexts, begin_body, begin_device, begin, receive_from, advance, step_by, step, Event,
  handed_over, stepped, happen, run,
}

-- The COPY statements of the flushes do not fail.
abbrev pub EventsCopy : {F : Type 0} → List (Event F) → Type 0
EventsCopy [] = Unit
EventsCopy (handed_over msg ∷ events) = EventsCopy events
EventsCopy (stepped i o texts ∷ events) =
    ((name : Text) → Works (o.copy_fails name)) × EventsCopy events

module _ {F : Type 0} where
  abbrev handed_at : Event F → Crew F → List (Handed F)
  handed_at (handed_over msg) s = []
  handed_at (stepped i o texts) s = handed_by o (held_by i s.hand)

  -- What the workers hand to addRecordToBatch in a run, in the order of their calls.
  unfoldable pub handed : Crew F → List (Event F) → List (Handed F)
  handed s [] = []
  handed s (e ∷ events) = handed_at e s ++ handed (happen e s) events

module _ {F : Type 0} (o : Outside F) (texts : ErrorTexts) where
  begin_body-Keeps :
      (i : ℕ) (msg : Message F) (h : Headers) (device : Device) (body : Option (Object F))
      (w : World F) (s : Crew F)
      → settled_tables (begin_body o texts i msg h device body w s).world ≡ settled_tables w
  begin_body-Keeps i msg h device none w s =
      keep_orphan-Keeps o msg h [] (codes "failed to parse message body: " ++ texts.parse_error) w
  begin_body-Keeps i msg h device (some fields) w s = refl

  begin_device-Keeps :
      (i : ℕ) (msg : Message F) (h : Headers) (device : Option Device) (s : Crew F)
      → settled_tables (begin_device o texts i msg h device s).world ≡ settled_tables s.world
  begin_device-Keeps i msg h none s = keep_orphan-Keeps o msg h [] (codes "missing_device") s.world
  begin_device-Keeps i msg h (some device) s =
      begin_body-Keeps i msg h device msg.body (note_structure o h device s.world) s
      ∙ note_structure-Keeps o h device s.world

  begin-Keeps :
      (i : ℕ) (msg : Message F) (s : Crew F)
      → settled_tables (begin o texts i msg s).world ≡ settled_tables s.world
  begin-Keeps i msg s =
      let h = read_headers no_headers msg.headers in
      elim (Bool-cases (h.lsid == 0)) [
        | inl z ↦ rw z refl
        | inr z ↦ rw z (begin_device-Keeps i msg h (get_device h.lsid s.world.cache) s)
      ]

  receive_from-Keeps :
      (i : ℕ) (waiting : List (Message F)) (s : Crew F)
      → settled_tables (receive_from o texts i waiting s).world ≡ settled_tables s.world
  receive_from-Keeps i [] s = refl
  receive_from-Keeps i (msg ∷ rest) s = begin-Keeps i msg _

  module _ (copies : (name : Text) → Works (o.copy_fails name)) where
    advance_own-settled :
        (i : ℕ) (task : Task F) (phase : Phase F) (s : Crew F)
        → settled_tables (advance o texts i task phase s).world
          ≡ insert_handed (handed_in o task.headers.timestamp phase) (settled_tables s.world)
    advance_own-settled i task (between rest) s = advance-settled o copies i task (between rest) s
    advance_own-settled i task (missed n v rest) s =
        by_create ∙ sym (insert_handed-nil (settled_tables s.world))
      where
        by_create :
            settled_tables (advance o texts i task (missed n v rest) s).world
            ≡ settled_tables s.world
        by_create = elim (Bool-cases (o.create_fails n)) [
          | inl fails ↦ rw fails (
              keep_orphan-Keeps o task.message task.headers n
                (codes "failed_to_create_tag: " ++ texts.create_error n) s.world)
          | inr works ↦ rw works refl
        ]
    advance_own-settled i task (made t n v rest) s =
        advance-settled o copies i task (made t n v rest) s
    advance_own-settled i task (found t n v rest) s =
        advance-settled o copies i task (found t n v rest) s

    step_by-settled :
        (i : ℕ) (task : Option (Task F)) (s : Crew F)
        → settled_tables (step_by o texts i task s).world
          ≡ insert_handed (handed_by o task) (settled_tables s.world)
    step_by-settled i none s =
        receive_from-Keeps i s.waiting s ∙ sym (insert_handed-nil (settled_tables s.world))
    step_by-settled i (some task) s = advance_own-settled i task task.phase s

    step-settled :
        (i : ℕ) (s : Crew F)
        → settled_tables (step o texts i s).world
          ≡ insert_handed (handed_by o (held_by i s.hand)) (settled_tables s.world)
    unfolding step
    step-settled i s = step_by-settled i (held_by i s.hand) s

module _ {F : Type 0} where
  run-settled :
      (s : Crew F) (events : List (Event F))
      → EventsCopy events
      → settled_tables (run s events).world
        ≡ insert_handed (handed s events) (settled_tables s.world)
  unfolding run handed
  run-settled s [] c = sym (insert_handed-nil (settled_tables s.world))
  run-settled s (handed_over msg ∷ events) c = run-settled (happen (handed_over msg) s) events c
  run-settled s (stepped i o texts ∷ events) c =
      run-settled (step o texts i s) events c.1
      ∙ ap (insert_handed (handed (step o texts i s) events)) (step-settled o texts c.0 i s)
      ∙ sym (
          insert_handed-append (handed_by o (held_by i s.hand)) (handed (step o texts i s) events)
            (settled_tables s.world))

  pub flush_all-run :
      (fails : Stage → Bool) (now : ℕ) (s : Crew F) (events : List (Event F))
      → Works fails
      → EventsCopy events
      → let w = (run s events).world in
        (flush_all fails fails fails now (w.writer, w.database)).0.1
        ≡ insert_handed (handed s events) (settled_tables s.world)
  flush_all-run fails now s events works copies =
      let w = (run s events).world in
      flush_all-settled w.writer fails works now w ∙ run-settled s events copies
