-- ===== src/Backfill/Concurrent/Handling.antt =====
-- services/weatherlink-sql-backfill/service/worker_pool.go: what becomes of the messages that are
-- handed over.
use mathlib.Core.List.{append_assoc, append-nil}
use roach.Base.{
  ℕ, suc, ◌+◌, ◌==◌, ◌≡◌, refl, ap, sym, ◌∙◌, List, [], ◌∷◌, ◌++◌, Option, none, some, arith,
  Bool-cases, inl, inr, length,
}
use roach.Base.Strings.{codes}
use roach.Models.{Object, Message, Device}
use roach.Cache.{get_device}
use roach.Pool.{created, new_tag, note_structure, keep_orphan}
use roach.Pool.Parts.{
  World, Outside, Headers, read_headers, no_headers, missing_lsid, missing_device, bad_body,
}
use roach.Pool.Messages.{note_structure-counters, SameCounters}
use roach.Pool.Crew.{Phase, between, missed, made, found, Task, Crew, held_by}
use roach.Pool.Crew.Taken.{
  in_work, Takes, Takes-refl, go_on-Takes, advance-Takes, Begins, at_once-Begins, Begins-Takes,
}
use roach.Backfill.Concurrent.{
  ErrorTexts, begin_body, begin_device, begin, receive_from, advance, step_by, step, Event,
  handed_over, stepped, happen, run, submissions,
}

module _ {F : Type 0} (o : Outside F) (texts : ErrorTexts) where
  advance_own-Takes :
      (i : ℕ) (task : Task F) (phase : Phase F) (s : Crew F)
      → held_by i s.hand ≡ some task
      → Takes s (advance o texts i task phase s)
  advance_own-Takes i task (between rest) s e = advance-Takes o i task (between rest) s e
  advance_own-Takes i task (missed n v rest) s e = elim (Bool-cases (o.create_fails n)) [
    | inl fails ↦ rw fails (
        go_on-Takes i task (between rest)
          (keep_orphan o task.message task.headers n
            (codes "failed_to_create_tag: " ++ texts.create_error n) s.world)
          s e (ground arith) (ground arith))
    | inr works ↦
        let w' : World F = record s.world {
          tags = (created o task.headers task.device n v s.world).1;
          next_tag_id = suc s.world.next_tag_id;
        } in
        rw works (
          go_on-Takes i task (made (new_tag o task.headers task.device n v s.world) n v rest) w' s e
            refl refl)
  ]
  advance_own-Takes i task (made t n v rest) s e = advance-Takes o i task (made t n v rest) s e
  advance_own-Takes i task (found t n v rest) s e = advance-Takes o i task (found t n v rest) s e

  begin_body-Begins :
      (i : ℕ) (msg : Message F) (g : Headers) (device : Device) (body : Option (Object F))
      (w : World F) (s : Crew F)
      → SameCounters o s.world w
      → Begins o s (begin_body o texts i msg g device body w s)
  begin_body-Begins i msg g device none w s (p, q) =
      at_once-Begins o
        (
          keep_orphan o msg g [] (codes "failed to parse message body: " ++ texts.parse_error) w,
          some bad_body,
        )
        s (ground (arith, p), ground (arith, q))
  begin_body-Begins i msg g device (some fields) w s (p, q) = record {
    taken = refl;
    waiting = refl;
    one_more = omega (arith, p, q);
  }

  begin_device-Begins :
      (i : ℕ) (msg : Message F) (g : Headers) (device : Option Device) (s : Crew F)
      → Begins o s (begin_device o texts i msg g device s)
  begin_device-Begins i msg g none s =
      at_once-Begins o
        (keep_orphan o msg g [] (codes "missing_device") s.world, some missing_device) s
        (ground arith, ground arith)
  begin_device-Begins i msg g (some device) s =
      begin_body-Begins i msg g device msg.body (note_structure o g device s.world) s
        (note_structure-counters o g device s.world)

  begin-Begins : (i : ℕ) (msg : Message F) (s : Crew F) → Begins o s (begin o texts i msg s)
  begin-Begins i msg s =
      let g = read_headers no_headers msg.headers in
      elim (Bool-cases (g.lsid == 0)) [
        | inl z ↦ rw z (at_once-Begins o (s.world, some missing_lsid) s (refl, refl))
        | inr z ↦ rw z (begin_device-Begins i msg g (get_device g.lsid s.world.cache) s)
      ]

  receive_from-Takes :
      (i : ℕ) (waiting : List (Message F)) (s : Crew F)
      → s.waiting ≡ waiting
      → Takes s (receive_from o texts i waiting s)
  receive_from-Takes i [] s e = Takes-refl s
  receive_from-Takes i (msg ∷ rest) s e = Begins-Takes o msg rest s _ e (begin-Begins i msg _)

  step_by-Takes :
      (i : ℕ) (task : Option (Task F)) (s : Crew F)
      → held_by i s.hand ≡ task
      → Takes s (step_by o texts i task s)
  step_by-Takes i none s e = receive_from-Takes i s.waiting s refl
  step_by-Takes i (some task) s e = advance_own-Takes i task task.phase s e

  step-Takes : (i : ℕ) (s : Crew F) → Takes s (step o texts i s)
  unfolding step
  step-Takes i s = step_by-Takes i (held_by i s.hand) s refl

module _ {F : Type 0} where
  -- What was handed over is taken, in its order, or waits, in its order.
  pub run-submissions :
      (s : Crew F) (events : List (Event F))
      → let t = run s events in
        (t.taken ++ t.waiting ≡ (s.taken ++ s.waiting) ++ submissions events)
        × (in_work t + length s.taken ≡ in_work s + length t.taken)
  unfolding run submissions
  run-submissions s [] = (sym (append-nil (s.taken ++ s.waiting)), refl)
  run-submissions s (handed_over msg ∷ events) =
      let (order, counts) = run-submissions (happen (handed_over msg) s) events in
      (
        order
            ∙ ap (λ ms. ms ++ submissions events) (sym (append_assoc s.taken s.waiting (msg ∷ [])))
            ∙ append_assoc (s.taken ++ s.waiting) (msg ∷ []) (submissions events),
        counts,
      )
  run-submissions s (stepped i o texts ∷ events) =
      let (order, counts) = run-submissions (step o texts i s) events in
      let takes = step-Takes o texts i s in
      (
        order ∙ ap (λ ms. ms ++ submissions events) takes.passed,
        omega (arith, counts, takes.counts),
      )
