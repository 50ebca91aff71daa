-- ===== src/Pool/Crew/Taken.antt =====
-- services/weatherlink-sql/service/worker_pool.go: what becomes of the messages that the workers take.
use mathlib.Core.List.{append_assoc}
use roach.Base.{
  ℕ, suc, ◌+◌, ◌≤◌, ◌==◌, ◌≡◌, refl, ap, sym, ◌∙◌, List, [], ◌∷◌, ◌++◌, Option, none, some, arith,
  text_beq, Bool-cases, inl, inr, length, length-append, if◌then◌else◌,
}
use roach.Base.Strings.{codes}
use roach.Models.{Object, Message, Device, Tag}
use roach.Cache.{get_device, get_tag, set_tag}
use roach.Pool.{add_record_to_batch, created, new_tag, note_structure, keep_orphan, counted}
use roach.Pool.Parts.{
  World, Outside, Headers, Failure, read_headers, no_headers, missing_lsid, bad_body, save_failed,
}
use roach.Pool.Messages.{SameCounters, add_record-counters, note_structure-counters}
use roach.Pool.Crew.{
  Phase, between, missed, made, found, Task, Crew, held_by, without, go_on, begin_body,
  begin_device, begin, receive_from, after_get_tag, advance, step_by, step,
}

module _ {F : Type 0} where
  -- The messages counted as processed or as an error, and those in hand.
  abbrev pub in_work : Crew F → ℕ
  in_work s = s.world.messages_processed + s.world.processing_errors + length s.hand

  length-without :
      (i : ℕ) (task : Task F) (hand : List (ℕ × Task F))
      → held_by i hand ≡ some task
      → suc (length (without i hand)) ≡ length hand
  length-without i task [] e = absurd (ground arith)
  length-without i task ((j, other) ∷ hand) e = elim (Bool-cases (j == i)) [
    | inl same ↦ rw same
    | inr differs ↦
        rw differs (omega (arith, length-without i task hand (ground (arith, differs, e))))
  ]

  -- A step loses no message, takes no more from the channel than there is, and each message that it
  -- takes is counted or in hand.
  pub record Takes (s t : Crew F) : Type 0 where
    pub passed : t.taken ++ t.waiting ≡ s.taken ++ s.waiting
    pub room : length t.waiting ≤ length s.waiting
    pub counts : in_work t + length s.taken ≡ in_work s + length t.taken

  pub Takes-refl : (s : Crew F) → Takes s s
  Takes-refl s = record { passed = refl; room = omega arith; counts = refl }

  pub Takes-trans : (s t u : Crew F) → Takes s t → Takes t u → Takes s u
  Takes-trans s t u h k = record {
    passed = k.passed ∙ h.passed;
    room = omega (arith, h.room, k.room);
    counts = omega (arith, h.counts, k.counts);
  }

  pub go_on-Takes :
      (i : ℕ) (task : Task F) (phase : Phase F) (w : World F) (s : Crew F)
      → held_by i s.hand ≡ some task
      → w.messages_processed ≡ s.world.messages_processed
      → w.processing_errors ≡ s.world.processing_errors
      → Takes s (go_on i task phase w s)
  go_on-Takes i task phase w s e p q = record {
    passed = refl;
    room = omega arith;
    counts = omega (arith, length-without i task s.hand e, p, q);
  }

module _ {F : Type 0} (o : Outside F) where
  pub advance-Takes :
      (i : ℕ) (task : Task F) (phase : Phase F) (s : Crew F)
      → held_by i s.hand ≡ some task
      → Takes s (advance o i task phase s)
  advance-Takes i task (between []) s e = record {
    passed = refl;
    room = omega arith;
    counts = omega (arith, length-without i task s.hand e);
  }
  advance-Takes i task (between ((n, v) ∷ rest)) s e = elim (Bool-cases (text_beq n (codes "ts"))) [
    | inl ts ↦ rw ts (go_on-Takes i task (between rest) s.world s e refl refl)
    | inr other ↦ rw other (by_tag (get_tag task.device.id n s.world.cache))
  ]
    where
      by_tag : (t : Option Tag) → Takes s (after_get_tag o i task n v rest t s)
      by_tag none = go_on-Takes i task (missed n v rest) s.world s e refl refl
      by_tag (some t) = go_on-Takes i task (found t n v rest) s.world s e refl refl
  advance-Takes i task (missed n v rest) s e = elim (Bool-cases (o.create_fails n)) [
    | inl fails ↦ rw fails (
        go_on-Takes i task (between rest)
          (keep_orphan o task.message task.headers n (codes "failed_to_create_tag") s.world) s e
          (ground arith) (ground arith))
    | inr works ↦
        let w' : World F = record s.world {
          tags = (created o task.headers task.device n v s.world).1;
          next_tag_id = suc s.world.next_tag_id;
        } in
        rw works (
          go_on-Takes i task (made (new_tag o task.headers task.device n v s.world) n v rest) w' s e
            refl refl)
  ]
  advance-Takes i task (made t n v rest) s e =
      go_on-Takes i task (found t n v rest)
        (record s.world { cache = set_tag task.device.id n t s.world.cache }) s e refl refl
  advance-Takes i task (found t n v rest) s e =
      let (p, q) = add_record-counters o (o.copy_fails n) t v task.headers.timestamp s.world in
      go_on-Takes i task (between rest)
        (add_record_to_batch o (o.copy_fails n) t v task.headers.timestamp s.world).0 s e p q

  -- A message is counted at once, or it is in hand.
  pub record Begins (s t : Crew F) : Type 0 where
    pub taken : t.taken ≡ s.taken
    pub waiting : t.waiting ≡ s.waiting
    pub one_more : in_work t ≡ suc (in_work s)

  pub at_once-Begins :
      (q : World F × Option Failure) (s : Crew F)
      → SameCounters o s.world q.0
      → Begins s (record s { world = counted o q })
  at_once-Begins (w, none) s (p, q) = record {
    taken = refl;
    waiting = refl;
    one_more = omega (arith, p, q);
  }
  at_once-Begins (w, some x) s (p, q) = record {
    taken = refl;
    waiting = refl;
    one_more = omega (arith, p, q);
  }

  begin_body-Begins :
      (i : ℕ) (msg : Message F) (g : Headers) (device : Device) (body : Option (Object F))
      (w : World F) (s : Crew F)
      → SameCounters o s.world w
      → Begins s (begin_body o i msg g device body w s)
  begin_body-Begins i msg g device none w s c = at_once-Begins (w, some bad_body) s c
  begin_body-Begins i msg g device (some fields) w s (p, q) = record {
    taken = refl;
    waiting = refl;
    one_more = omega (arith, p, q);
  }

  begin_device-Begins :
      (i : ℕ) (msg : Message F) (g : Headers) (device : Option Device) (s : Crew F)
      → Begins s (begin_device o i msg g device s)
  begin_device-Begins i msg g none s =
      at_once-Begins
        (
          keep_orphan o msg g [] (codes "missing_device") s.world,
          if o.save_fails then some save_failed else none,
        )
        s (ground arith, ground arith)
  begin_device-Begins i msg g (some device) s =
      begin_body-Begins i msg g device msg.body (note_structure o g device s.world) s
        (note_structure-counters o g device s.world)

  begin-Begins : (i : ℕ) (msg : Message F) (s : Crew F) → Begins s (begin o i msg s)
  begin-Begins i msg s =
      let g = read_headers no_headers msg.headers in
      elim (Bool-cases (g.lsid == 0)) [
        | inl z ↦ rw z (at_once-Begins (s.world, some missing_lsid) s (refl, refl))
        | inr z ↦ rw z (begin_device-Begins i msg g (get_device g.lsid s.world.cache) s)
      ]

  -- To take the first message of the channel and to begin with it.
  pub Begins-Takes :
      (msg : Message F) (rest : List (Message F)) (s t : Crew F)
      → s.waiting ≡ msg ∷ rest
      → Begins (record s { waiting = rest; taken = s.taken ++ msg ∷ [] }) t
      → Takes s t
  Begins-Takes msg rest s t e b = record {
    passed =
        (λ k. b.taken k ++ b.waiting k)
        ∙ append_assoc s.taken (msg ∷ []) rest
        ∙ ap (λ ms. s.taken ++ ms) (sym e);
    room = omega (arith, ap length b.waiting, ap length e);
    counts = omega (arith, b.one_more, ap length b.taken, length-append s.taken (msg ∷ []));
  }

  receive_from-Takes :
      (i : ℕ) (waiting : List (Message F)) (s : Crew F)
      → s.waiting ≡ waiting
      → Takes s (receive_from o i waiting s)
  receive_from-Takes i [] s e = Takes-refl s
  receive_from-Takes i (msg ∷ rest) s e = Begins-Takes msg rest s _ e (begin-Begins i msg _)

  step_by-Takes :
      (i : ℕ) (task : Option (Task F)) (s : Crew F)
      → held_by i s.hand ≡ task
      → Takes s (step_by o i task s)
  step_by-Takes i none s e = receive_from-Takes i s.waiting s refl
  step_by-Takes i (some task) s e = advance-Takes i task task.phase s e

  pub step-Takes : (i : ℕ) (s : Crew F) → Takes s (step o i s)
  unfolding step
  step-Takes i s = step_by-Takes i (held_by i s.hand) s refl
