-- ===== src/Backfill/Concurrent.antt =====
-- services/weatherlink-sql-backfill/service/worker_pool.go: the workers as goroutines, and Submit.
-- They differ from those of weatherlink-sql, in roach.Pool.Crew, in what they keep as orphans and in
-- what they count as an error; the steps that are the same are taken from there.
pub mod Handling
pub mod Writing
use roach.Base.{ℕ, suc, ◌++◌, Text, ◌==◌, List, [], ◌∷◌, Option, none, some, if◌then◌else◌}
use roach.Base.Strings.{codes}
use roach.Models.{Value, Object, Message, Device}
use roach.Cache.{get_device}
use roach.Pool.{created, new_tag, keep_orphan, note_structure, counted}
use roach.Pool.Parts.{
  World, Outside, Headers, missing_lsid, missing_device, bad_body, read_headers, no_headers,
}
use roach.Pool.Crew.{Phase, between, missed, made, found, Task, Crew, held_by, go_on}
use roach.Pool.Crew

-- The texts of the errors of tagRepo.Create, by field, and of json.Unmarshal.
pub record ErrorTexts : Type 0 where
  pub create_error : Text → Text
  pub parse_error : Text

module _ {F : Type 0} (o : Outside F) (texts : ErrorTexts) where
  abbrev pub begin_body :
      ℕ → Message F → Headers → Device → Option (Object F) → World F → Crew F → Crew F
  begin_body i msg h device none w s = record s {
    world = counted o (
      keep_orphan o msg h [] (codes "failed to parse message body: " ++ texts.parse_error) w,
      some bad_body,
    );
  }
  begin_body i msg h device (some fields) w s = record s {
    world = w;
    hand =
        (i, record { message = msg; headers = h; device = device; phase = between fields })
        ∷ s.hand;
  }

  -- A message of an unknown device is kept, and is an error whether or not keeping it works.
  abbrev pub begin_device : ℕ → Message F → Headers → Option Device → Crew F → Crew F
  begin_device i msg h none s = record s {
    world =
        counted o (keep_orphan o msg h [] (codes "missing_device") s.world, some missing_device);
  }
  begin_device i msg h (some device) s =
      begin_body i msg h device msg.body (note_structure o h device s.world) s

  -- processMessage up to the loop over the fields.
  abbrev pub begin : ℕ → Message F → Crew F → Crew F
  begin i msg s =
      let h = read_headers no_headers msg.headers in
      if h.lsid == 0
      then record s { world = counted o (s.world, some missing_lsid) }
      else begin_device i msg h (get_device h.lsid s.world.cache) s

  abbrev pub receive_from : ℕ → List (Message F) → Crew F → Crew F
  receive_from i [] s = s
  receive_from i (msg ∷ rest) s =
      begin i msg (record s { waiting = rest; taken = s.taken ++ msg ∷ [] })

  -- One step of the loop over the fields. Only the orphan of a failed Create is another one.
  abbrev pub advance : ℕ → Task F → Phase F → Crew F → Crew F
  advance i task (between rest) s = Crew.advance o i task (between rest) s
  advance i task (missed name value rest) s =
      let w = s.world in
      if o.create_fails name
      then go_on i task (between rest)
          (keep_orphan o task.message task.headers name
            (codes "failed_to_create_tag: " ++ texts.create_error name) w)
          s
      else go_on i task (made (new_tag o task.headers task.device name value w) name value rest)
          (record w {
            tags = (created o task.headers task.device name value w).1;
            next_tag_id = suc w.next_tag_id;
          })
          s
  advance i task (made tag name value rest) s = Crew.advance o i task (made tag name value rest) s
  advance i task (found tag name value rest) s = Crew.advance o i task (found tag name value rest) s

  abbrev pub step_by : ℕ → Option (Task F) → Crew F → Crew F
  step_by i none s = receive_from i s.waiting s
  step_by i (some task) s = advance i task task.phase s

  unfoldable pub step : ℕ → Crew F → Crew F
  step i s = step_by i (held_by i s.hand) s

-- What happens to the pool: a topic hands over a message, or a worker takes a step.
pub data Event (F : Type 0) : Type 0 where
  handed_over : Message F → Event F
  stepped : ℕ → Outside F → ErrorTexts → Event F

module _ {F : Type 0} where
  abbrev pub happen : Event F → Crew F → Crew F
  happen (handed_over msg) s = record s { waiting = s.waiting ++ msg ∷ [] }
  happen (stepped i o texts) s = step o texts i s

  -- The events of a run of processTopics, in any order.
  unfoldable pub run : Crew F → List (Event F) → Crew F
  run s [] = s
  run s (e ∷ events) = run (happen e s) events

  -- What the topics hand over.
  unfoldable pub submissions : List (Event F) → List (Message F)
  submissions [] = []
  submissions (handed_over msg ∷ events) = msg ∷ submissions events
  submissions (stepped i o texts ∷ events) = submissions events

  -- The pool before the first message.
  abbrev pub idle : World F → Crew F
  idle w = record { world = w; waiting = []; hand = []; taken = [] }
