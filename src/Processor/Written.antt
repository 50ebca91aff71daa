-- ===== src/Processor/Written.antt =====
-- The workers of services/weatherlink-sql/service/worker_pool.go as goroutines, with their batch
-- writer, beside the INSERTs of service/data.go.
use roach.Base.{
  ℕ, ◌≡◌, refl, ap, ◌++◌, Text, text_beq, false, List, [], ◌∷◌, Option, none, some, arith,
  Bool-cases, inl, inr,
}
use roach.Base.Strings.{codes}
use roach.BatchWriter.{Database}
use roach.BatchWriter.Direct.{Works}
use roach.Models.{Value, Message, Device, Tag}
use roach.Cache.{get_tag}
use roach.Pool.{keep_orphan, note_structure, counted}
use roach.Pool.Parts.{World, Outside, Headers, Failure}
use roach.Pool.Crew.{
  Phase, between, missed, made, found, Task, Crew, held_by, after_get_tag, advance, step,
}
use roach.Processor.{insert_record}
use roach.Processor.Batched.{never, settled_tables, add_record-settle}

-- A call of addRecordToBatch, with what happens outside the code at its time.
pub record Handed (F : Type 0) : Type 0 where
  pub outside : Outside F
  pub tag : Tag
  pub value : Value F
  pub timestamp : ℕ

-- The COPY statements of the flushes do not fail.
abbrev pub StepsCopy : {F : Type 0} → List (ℕ × Outside F) → Type 0
StepsCopy [] = Unit
StepsCopy ((i, o) ∷ steps) = ((name : Text) → Works (o.copy_fails name)) × StepsCopy steps

module _ {F : Type 0} where
  abbrev pub handed_in : Outside F → ℕ → Phase F → List (Handed F)
  handed_in o ts (between rest) = []
  handed_in o ts (missed name value rest) = []
  handed_in o ts (made tag name value rest) = []
  handed_in o ts (found tag name value rest) =
      record { outside = o; tag = tag; value = value; timestamp = ts } ∷ []

  abbrev pub handed_by : Outside F → Option (Task F) → List (Handed F)
  handed_by o none = []
  handed_by o (some task) = handed_in o task.headers.timestamp task.phase

  -- What the workers hand to addRecordToBatch in a run, in the order of their calls.
  unfoldable pub handed : Crew F → List (ℕ × Outside F) → List (Handed F)
  handed s [] = []
  handed s ((i, o) ∷ steps) = handed_by o (held_by i s.hand) ++ handed (step o i s) steps

  -- insertRecord of data.go with the same, one call after the other, where no INSERT fails.
  unfoldable pub insert_handed : List (Handed F) → Database F → Database F
  insert_handed [] db = db
  insert_handed (h ∷ hs) db =
      insert_handed hs (insert_record h.outside never false h.tag h.value h.timestamp db).0

  pub insert_handed-append :
      (hs ks : List (Handed F)) (db : Database F)
      → insert_handed (hs ++ ks) db ≡ insert_handed ks (insert_handed hs db)
  unfolding insert_handed
  insert_handed-append [] ks db = refl
  insert_handed-append (h ∷ hs) ks db = insert_handed-append hs ks _

  pub insert_handed-nil : (db : Database F) → insert_handed [] db ≡ db
  unfolding insert_handed
  insert_handed-nil db = refl

-- What is no call of addRecordToBatch leaves the settled tables.
module _ {F : Type 0} (o : Outside F) where
  pub counted-Keeps :
      (q : World F × Option Failure) → settled_tables (counted o q) ≡ settled_tables q.0
  counted-Keeps (w, none) = refl
  counted-Keeps (w, some e) = refl

  pub keep_orphan-Keeps :
      (msg : Message F) (h : Headers) (name reason : Text) (w : World F)
      → settled_tables (keep_orphan o msg h name reason w) ≡ settled_tables w
  keep_orphan-Keeps msg h name reason w = elim (Bool-cases o.save_fails) [
    | inl e ↦ rw e
    | inr e ↦ rw e
  ]

  pub note_structure-Keeps :
      (h : Headers) (device : Device) (w : World F)
      → settled_tables (note_structure o h device w) ≡ settled_tables w
  unfolding note_structure
  note_structure-Keeps h device w = ground arith

  module _ (copies : (name : Text) → Works (o.copy_fails name)) where
    pub advance-settled :
        (i : ℕ) (task : Task F) (phase : Phase F) (s : Crew F)
        → settled_tables (advance o i task phase s).world
          ≡ insert_handed (handed_in o task.headers.timestamp phase) (settled_tables s.world)
    unfolding insert_handed
    advance-settled i task (between []) s = refl
    advance-settled i task (between ((n, v) ∷ rest)) s =
        elim (Bool-cases (text_beq n (codes "ts"))) [
          | inl ts ↦ rw ts refl
          | inr other ↦ rw other (by_tag (get_tag task.device.id n s.world.cache))
        ]
      where
        by_tag :
            (t : Option Tag)
            → settled_tables (after_get_tag o i task n v rest t s).world ≡ settled_tables s.world
        by_tag none = refl
        by_tag (some t) = refl
    advance-settled i task (missed n v rest) s = elim (Bool-cases (o.create_fails n)) [
      | inl fails ↦
          rw fails
            (keep_orphan-Keeps task.message task.headers n (codes "failed_to_create_tag") s.world)
      | inr works ↦ rw works refl
    ]
    advance-settled i task (made t n v rest) s = refl
    advance-settled i task (found t n v rest) s =
        ap (λ u. u.database)
          (add_record-settle o s.world.writer never (o.copy_fails n) (copies n) t v
            task.headers.timestamp s.world)
