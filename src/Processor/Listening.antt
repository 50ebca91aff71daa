-- ===== src/Processor/Listening.antt =====
-- ListenWithWorkerPool of services/weatherlink-sql/service/data.go with SubmitMessage and Shutdown of
-- worker_pool.go, and the workers of Pool/Crew: how messages go from Kafka through the channel to the
-- workers. The steps of the listener and of the workers come in any order. The context of the pool is
-- never cancelled, so SubmitMessage waits until there is room.
use mathlib.Core.List.{append_assoc, Sublist, sublist-append_left}
use mathlib.Core.List.Sublist
use roach.Base.{
  ℕ, ◌+◌, ◌*◌, ◌≤◌, ◌<◌, ◌≡◌, refl, sym, ap, ◌∙◌, subst, List, [], ◌∷◌, ◌++◌, arith, length,
  length-append,
}
use roach.Models.{Message}
use roach.Pool.Parts.{World, Outside}
use roach.Pool.Crew.{Crew}
use roach.Pool.Crew
use roach.Pool.Crew.Taken.{in_work, step-Takes}

-- Where the listener stands with a message: it has none, has fetched one, or has submitted one.
pub data Phase (F : Type 0) : Type 0 where
  polling : Phase F
  fetched : Message F → Phase F
  submitted : Message F → Phase F

pub record Listener (F : Type 0) : Type 0 where
  pub phase : Phase F
  pub committed : List (Message F)
  pub crew : Crew F

-- make(chan kafka.Message, workers*2)
abbrev pub capacity : ℕ → ℕ
capacity workers = workers * 2

module _ {F : Type 0} (workers : ℕ) where
  pub data Step : Listener F → Listener F → Type 0 where
    fetch :
        (s : Listener F) (msg : Message F)
        → s.phase ≡ polling
        → Step s (record s { phase = fetched msg })
    -- FetchMessage times out or fails: on to the next reader.
    skip : (s : Listener F) → s.phase ≡ polling → Step s s
    submit :
        (s : Listener F) (msg : Message F)
        → s.phase ≡ fetched msg
        → length s.crew.waiting < capacity workers
        → Step s (record s {
          phase = submitted msg;
          crew = record s.crew { waiting = s.crew.waiting ++ msg ∷ [] };
        })
    commit :
        (s : Listener F) (msg : Message F)
        → s.phase ≡ submitted msg
        → Step s (record s { phase = polling; committed = s.committed ++ msg ∷ [] })
    -- An error of CommitMessages is only logged.
    commit_failed :
        (s : Listener F) (msg : Message F)
        → s.phase ≡ submitted msg
        → Step s (record s { phase = polling })
    -- One of the workers takes a step, in which `o` says what fails.
    works :
        (s : Listener F) (i : ℕ) (o : Outside F)
        → i < workers
        → Step s (record s { crew = Crew.step o i s.crew })

  pub data Reach (s : Listener F) : Listener F → Type 0 where
    here : Reach s s
    next : {t u : Listener F} → Reach s t → Step t u → Reach s u

  -- Before the first message; `w` is what the pool starts with.
  abbrev pub listening : World F → Listener F
  listening w = record {
    phase = polling;
    committed = [];
    crew = record { world = w; waiting = []; hand = []; taken = [] };
  }

  abbrev passed : Listener F → List (Message F)
  passed s = s.crew.taken ++ s.crew.waiting

  -- The committed messages are, in their order, among those that have gone into the channel; one
  -- that is about to be committed is the last of these.
  abbrev InOrder : Phase F → List (Message F) → List (Message F) → Type 0
  InOrder polling cs ps = Sublist cs ps
  InOrder (fetched m) cs ps = Sublist cs ps
  InOrder (submitted m) cs ps =
      (front : List (Message F)) × (ps ≡ front ++ m ∷ []) × Sublist cs front

  pub record Holds (w : World F) (s : Listener F) : Type 0 where
    pub order : InOrder s.phase s.committed (passed s)
    pub room : length s.crew.waiting ≤ capacity workers
    pub counts : in_work s.crew ≡ w.messages_processed + w.processing_errors + length s.crew.taken

  listening-Holds : (w : World F) → Holds w (listening w)
  listening-Holds w = record { order = Sublist.refl []; room = omega arith; counts = omega arith }

  Step-Holds : (w : World F) {s t : Listener F} → Step s t → Holds w s → Holds w t
  Step-Holds w (fetch s msg e) h = record {
    order = subst (λ p. InOrder p s.committed (passed s)) e h.order;
    room = h.room;
    counts = h.counts;
  }
  Step-Holds w (skip s e) h = h
  Step-Holds w (submit s msg e r) h = record {
    order = (
      passed s,
      sym (append_assoc s.crew.taken s.crew.waiting (msg ∷ [])),
      subst (λ p. InOrder p s.committed (passed s)) e h.order,
    );
    room = omega (arith, length-append s.crew.waiting (msg ∷ []));
    counts = h.counts;
  }
  Step-Holds w (commit s msg e) h =
      let (front, split, sub) = subst (λ p. InOrder p s.committed (passed s)) e h.order in
      record {
        order =
            subst (Sublist (s.committed ++ msg ∷ [])) (sym split)
              (Sublist.append sub (Sublist.refl (msg ∷ [])));
        room = h.room;
        counts = h.counts;
      }
  Step-Holds w (commit_failed s msg e) h =
      let (front, split, sub) = subst (λ p. InOrder p s.committed (passed s)) e h.order in
      record {
        order =
            subst (Sublist s.committed) (sym split)
              (Sublist.trans sub (sublist-append_left front (msg ∷ [])));
        room = h.room;
        counts = h.counts;
      }
  Step-Holds w (works s i o few) h =
      let t = step-Takes o i s.crew in
      record {
        order = subst (InOrder s.phase s.committed) (sym t.passed) h.order;
        room = omega (arith, t.room, h.room);
        counts = omega (arith, t.counts, h.counts);
      }

  Reach-Holds : (w : World F) {s : Listener F} → Reach (listening w) s → Holds w s
  Reach-Holds w here = listening-Holds w
  Reach-Holds w (next r st) = Step-Holds w st (Reach-Holds w r)

  InOrder-Sublist : (p : Phase F) (cs ps : List (Message F)) → InOrder p cs ps → Sublist cs ps
  InOrder-Sublist polling cs ps h = h
  InOrder-Sublist (fetched m) cs ps h = h
  InOrder-Sublist (submitted m) cs ps (front, split, sub) =
      subst (Sublist cs) (sym split) (Sublist.trans sub (sublist-append_left front (m ∷ [])))

  -- In whatever order the listener and the workers take their steps, between the calls that share
  -- state, and whichever calls fail, each time anew: the messages committed to Kafka are, in their
  -- order, among those that a worker has taken or that wait in the channel; no more than two for each
  -- worker wait there; and each message that was taken is counted, as processed or as an error, or in
  -- the hands of a worker.
  pub Reach-listening :
      (w : World F) {s : Listener F}
      → Reach (listening w) s
      → Sublist s.committed (s.crew.taken ++ s.crew.waiting)
        × (length s.crew.waiting ≤ workers * 2)
        × (s.crew.world.messages_processed + s.crew.world.processing_errors + length s.crew.hand
            ≡ w.messages_processed + w.processing_errors + length s.crew.taken)
  Reach-listening w {s} r =
      let h = Reach-Holds w r in
      (InOrder-Sublist s.phase s.committed (passed s) h.order, h.room, h.counts)

  -- Shutdown returns when the closed channel is empty and no worker has a message in hand.
  pub record IsShutDown (s : Listener F) : Type 0 where
    pub drained : s.crew.waiting ≡ []
    pub idle : s.crew.hand ≡ []

  append_nothing : (ms : List (Message F)) → ms ++ [] ≡ ms
  append_nothing [] = refl
  append_nothing (m ∷ ms) = ap (λ xs. m ∷ xs) (append_nothing ms)

  -- Once Shutdown has returned, every committed message was taken, and every message that was taken
  -- is counted, as processed or as an error.
  pub shutdown-counted :
      (w : World F) {s : Listener F}
      → Reach (listening w) s
      → IsShutDown s
      → Sublist s.committed s.crew.taken
        × (s.crew.world.messages_processed + s.crew.world.processing_errors
            ≡ w.messages_processed + w.processing_errors + length s.crew.taken)
  shutdown-counted w {s} r d =
      let (order, room, counts) = Reach-listening w r in
      (
        subst (Sublist s.committed)
            (ap (λ ms. s.crew.taken ++ ms) d.drained ∙ append_nothing s.crew.taken) order,
        omega (arith, counts, ap length d.idle),
      )
