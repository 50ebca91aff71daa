-- ===== src/Pool/Crew.antt =====
-- services/weatherlink-sql/service/worker_pool.go: the workers as goroutines. A step is what one worker
-- does up to its next use of what they share: GetTag, Create, SetTag and addRecordToBatch are steps of
-- their own, and other workers may take steps in between. What fails during a step, and the time of
-- it, is given with the step.
pub mod Backing
pub mod Backed
pub mod Race
pub mod Taken
use roach.Base.{
  ℕ, suc, ◌++◌, Text, ◌==◌, ltb, List, [], ◌∷◌, Option, none, some, text_beq, if◌then◌else◌,
}
use roach.Base.Strings.{codes}
use roach.Models.{Value, Object, Message, Device, Tag}
use roach.Cache.{get_device, get_tag, set_tag}
use roach.Pool.{add_record_to_batch, created, new_tag, keep_orphan, note_structure, counted}
use roach.Pool.Parts.{
  World, Outside, Headers, Failure, missing_lsid, bad_body, save_failed, read_headers, no_headers,
}

-- Where a worker stands in the loop over the fields: before the next field; GetTag has given nil;
-- Create has given an id; or it has the tag of the field. The last argument are the fields after it.
pub data Phase (F : Type 0) : Type 0 where
  between : Object F → Phase F
  missed : Text → Value F → Object F → Phase F
  made : Tag → Text → Value F → Object F → Phase F
  found : Tag → Text → Value F → Object F → Phase F

pub record Task (F : Type 0) : Type 0 where
  pub message : Message F
  pub headers : Headers
  pub device : Device
  pub phase : Phase F

-- `waiting` is the channel, `hand` what the workers have in hand; `taken` are the messages that came
-- out of the channel, to speak of them.
pub record Crew (F : Type 0) : Type 0 where
  pub world : World F
  pub waiting : List (Message F)
  pub hand : List (ℕ × Task F)
  pub taken : List (Message F)

module _ {F : Type 0} where
  abbrev pub held_by : ℕ → List (ℕ × Task F) → Option (Task F)
  held_by i [] = none
  held_by i ((j, task) ∷ hand) = if j == i then some task else held_by i hand

  abbrev pub without : ℕ → List (ℕ × Task F) → List (ℕ × Task F)
  without i [] = []
  without i ((j, task) ∷ hand) = if j == i then hand else (j, task) ∷ without i hand

  -- The worker goes on with its task, in a world.
  abbrev pub go_on : ℕ → Task F → Phase F → World F → Crew F → Crew F
  go_on i task phase w s = record s {
    world = w;
    hand = (i, record task { phase = phase }) ∷ without i s.hand;
  }

  abbrev pub empty_handed : ℕ → World F → Crew F → Crew F
  empty_handed i w s = record s { world = w; hand = without i s.hand }

module _ {F : Type 0} (o : Outside F) where
  abbrev pub begin_body :
      ℕ → Message F → Headers → Device → Option (Object F) → World F → Crew F → Crew F
  begin_body i msg h device none w s = record s { world = counted o (w, some bad_body) }
  begin_body i msg h device (some fields) w s = record s {
    world = w;
    hand =
        (i, record { message = msg; headers = h; device = device; phase = between fields })
        ∷ s.hand;
  }

  abbrev pub begin_device : ℕ → Message F → Headers → Option Device → Crew F → Crew F
  begin_device i msg h none s = record s {
    world = counted o (
      keep_orphan o msg h [] (codes "missing_device") s.world,
      if o.save_fails then some save_failed else none,
    );
  }
  begin_device i msg h (some device) s =
      begin_body i msg h device msg.body (note_structure o h device s.world) s

  -- processMessage up to the loop over the fields.
  abbrev pub begin : ℕ → Message F → Crew F → Crew F
  begin i msg s =
      let h = read_headers no_headers msg.headers in
      if h.lsid == 0
      then record s { world = counted o (s.world, some missing_lsid) }
      else begin_device i msg h (get_device h.lsid s.world.cache) s

  abbrev pub receive_from : ℕ → List (Message F) → Crew F → Crew F
  receive_from i [] s = s
  receive_from i (msg ∷ rest) s =
      begin i msg (record s { waiting = rest; taken = s.taken ++ msg ∷ [] })

  abbrev pub after_get_tag : ℕ → Task F → Text → Value F → Object F → Option Tag → Crew F → Crew F
  after_get_tag i task name value rest none s = go_on i task (missed name value rest) s.world s
  after_get_tag i task name value rest (some tag) s =
      go_on i task (found tag name value rest) s.world s

  -- One step of the loop over the fields.
  abbrev pub advance : ℕ → Task F → Phase F → Crew F → Crew F
  advance i task (between []) s = empty_handed i (counted o (s.world, none)) s
  advance i task (between ((name, value) ∷ rest)) s =
      if text_beq name (codes "ts")
      then go_on i task (between rest) s.world s
      else after_get_tag i task name value rest (get_tag task.device.id name s.world.cache) s
  advance i task (missed name value rest) s =
      let w = s.world in
      if o.create_fails name
      then go_on i task (between rest)
          (keep_orphan o task.message task.headers name (codes "failed_to_create_tag") w) s
      else go_on i task (made (new_tag o task.headers task.device name value w) name value rest)
          (record w {
            tags = (created o task.headers task.device name value w).1;
            next_tag_id = suc w.next_tag_id;
          })
          s
  advance i task (made tag name value rest) s =
      go_on i task (found tag name value rest)
        (record s.world { cache = set_tag task.device.id name tag s.world.cache }) s
  advance i task (found tag name value rest) s =
      go_on i task (between rest)
        (add_record_to_batch o (o.copy_fails name) tag value task.headers.timestamp s.world).0 s

  abbrev pub step_by : ℕ → Option (Task F) → Crew F → Crew F
  step_by i none s = receive_from i s.waiting s
  step_by i (some task) s = advance i task task.phase s

  -- A step of worker `i`: it takes a message, or goes on with the one that it has.
  unfoldable pub step : ℕ → Crew F → Crew F
  step i s = step_by i (held_by i s.hand) s

module _ {F : Type 0} where
  -- Any steps of the workers.
  unfoldable pub run : Crew F → List (ℕ × Outside F) → Crew F
  run s [] = s
  run s ((i, o) ∷ steps) = run (step o i s) steps
