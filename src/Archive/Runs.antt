-- ===== src/Archive/Runs.antt =====
-- services/unifi-smart-archive/service/service.go: the consumer, the watcher and the worker as
-- steps under the mutex, in any order, and the streams along them.
use roach.Base.{
  ℕ, nat_eq, ◌≡◌, refl, Bool, false, ◌||◌, ◌==◌, List, [], ◌∷◌, Option, none, some, Text, text_beq,
  text_eq, arith, Bool-cases, Option-cases, inl, inr, ◌⊎◌, if◌then◌else◌,
}
use roach.Base.Assoc.{
  insert, lookup, remove, contains, Distinct, insert-Distinct, remove-Distinct, Every, insert-Every,
  remove-Every, lookup-Every,
}
use roach.Archive.{
  Config, StreamSession, Files, Service, Outside, catch_up, archive_base_of, offer_frame, offer_all,
  file_created, camera_key, sanitize_name,
}
use roach.Archive.Messages.{
  SmartEvent, Message, merge, has_end, ensure_watched, release_watched, new_session, open_stream,
  process_event, process_message, camera_of, detection_of,
}
use roach.Archive.Worker.{expire_waiting_for_end, close_completed_streams}
use roach.Archive.Streams.{
  IsStream, frameless, catch_up-IsStream, merge-IsStream, IsStream-frameless, offer_frame-frameless,
}

pub data Event : Type 0 where
  received : Outside → Message → Event
  created : Outside → Text → Text → Event
  expired : ℕ → Event
  closed : Outside → Event

unfoldable pub step : Config → Event → Service → Service
step cfg (received o m) s = process_message cfg o m s
step cfg (created o dir name) s = file_created cfg o dir name s
step cfg (expired now) s = expire_waiting_for_end cfg now s
step cfg (closed o) s = close_completed_streams cfg o s

unfoldable pub run : Config → List Event → Service → Service
run cfg [] s = s
run cfg (e ∷ es) s = run cfg es (step cfg e s)

-- New
unfoldable pub new_service : Bool → Service
new_service has_watcher = record {
  has_watcher = has_watcher;
  streams = [];
  watched_dirs = [];
  watching = [];
  waiting_for_end = [];
  done = [];
  archive = [];
}

pub streams-release_watched :
    (camera : Text) (s : Service) → (release_watched camera s).streams ≡ s.streams
unfolding release_watched
streams-release_watched camera s = ground arith

streams-ensure_watched :
    (o : Outside) (camera : Text) (s : Service) → (ensure_watched o camera s).streams ≡ s.streams
unfolding ensure_watched
streams-ensure_watched o camera s = ground arith

-- The streams of a service that is well formed.
abbrev pub AreStreams : Config → List (Text × StreamSession) → Type 0
AreStreams cfg m = Distinct m × Every (IsStream cfg) m

AreStreams-insert :
    (cfg : Config) (key : Text) (session : StreamSession) (m : List (Text × StreamSession))
    → IsStream cfg key session
    → AreStreams cfg m
    → AreStreams cfg (insert key session m)
AreStreams-insert cfg key session m i (d, e) =
    (insert-Distinct key session m d, insert-Every (IsStream cfg) key session m i e)

pub AreStreams-remove :
    (cfg : Config) (key : Text) (m : List (Text × StreamSession))
    → AreStreams cfg m
    → AreStreams cfg (remove key m)
AreStreams-remove cfg key m (d, e) = (remove-Distinct key m d, remove-Every (IsStream cfg) key m e)

open_stream-AreStreams :
    (cfg : Config) (o : Outside) (camera detection : Text) (e : SmartEvent) (s : Service)
    → AreStreams cfg s.streams
    → AreStreams cfg (open_stream cfg o camera detection e s).streams
unfolding open_stream
open_stream-AreStreams cfg o camera detection e s w =
    let session = new_session cfg camera detection e in
    AreStreams-insert cfg (camera_key camera detection) (catch_up cfg o (session, s.archive)).0
      s.streams
      (catch_up-IsStream cfg o (camera_key camera detection) (session, s.archive)
        record { some_event = λ h. ground arith; placed = (camera, detection, refl, refl) })
      w

process_event-AreStreams :
    (cfg : Config) (o : Outside) (camera detection : Text) (e : SmartEvent) (s : Service)
    → AreStreams cfg s.streams
    → AreStreams cfg (process_event cfg o camera detection e s).streams
unfolding process_event
process_event-AreStreams cfg o camera detection e s w = elim (Option-cases (lookup key s.streams)) [
  | inl h ↦ elim (Bool-cases (o.mkdir_fails (archive_base_of cfg camera detection e.start))) [
    | inl k ↦ rw (h, process_event, k) w
    | inr k ↦ rw (h, process_event, k) (open_stream-AreStreams cfg o camera detection e s' w)
  ]
  | inr (session, h) ↦
      rw (h, process_event)
        (AreStreams-insert cfg key (merge cfg o camera detection e session s.archive).0 s.streams
          (merge-IsStream cfg o camera detection e session s.archive
            (lookup-Every (IsStream cfg) key session s.streams w.1 h))
          w)
]
  where
    key : Text
    key = camera_key camera detection

    s' : Service
    s' = record s {
      waiting_for_end = if has_end e then remove e.id s.waiting_for_end else s.waiting_for_end;
    }

-- A message changes nothing, or is handled by process_event, for an event that is not done.
pub process_message_cases :
    (cfg : Config) (o : Outside) (m : Message) (s : Service)
    → (process_message cfg o m s ≡ s)
      ⊎ ((e : SmartEvent) × (m.value ≡ some e)
          × (contains e.id s.done ≡ false)
          × (process_message cfg o m s
              ≡ process_event cfg o (sanitize_name (camera_of m)) (detection_of m e) e s))
unfolding process_message camera_of detection_of
process_message_cases cfg o m s = elim (Option-cases m.value) [
  | inl h ↦ inl (rw (h, process_message) refl)
  | inr (e, h) ↦ elim (Bool-cases (text_beq e.id [] || e.start == 0)) [
    | inl a ↦ inl (rw (h, process_message, a) refl)
    | inr a ↦ elim (Bool-cases (text_beq (camera_of m) [])) [
      | inl b ↦ inl (rw (h, process_message, a, b) refl)
      | inr b ↦ elim (Bool-cases (contains e.id s.done)) [
        | inl c ↦ inl (rw (h, process_message, a, b, c) refl)
        | inr c ↦ inr (e, h, c, rw (h, process_message, a, b, c) refl)
      ]
    ]
  ]
]

pub process_message-AreStreams :
    (cfg : Config) (o : Outside) (m : Message) (s : Service)
    → AreStreams cfg s.streams
    → AreStreams cfg (process_message cfg o m s).streams
process_message-AreStreams cfg o m s w = elim (process_message_cases cfg o m s) [
  | inl h ↦ rw h w
  | inr (e, v, c, h) ↦
      rw h (process_event-AreStreams cfg o (sanitize_name (camera_of m)) (detection_of m e) e s w)
]

lookup-offer_all :
    (cfg : Config) (o : Outside) (camera name : Text) (ft : Option ℕ) (key : Text)
    (m : List (Text × StreamSession)) (a : Files)
    → lookup key m ≡ none
    → lookup key (offer_all cfg o camera name ft m a).0 ≡ none
unfolding offer_all
lookup-offer_all cfg o camera name ft key [] a h = refl
lookup-offer_all cfg o camera name ft key ((j, s) ∷ m) a h = elim (Bool-cases (text_beq j key)) [
  | inl b ↦ absurd (ground arith)
  | inr b ↦ rw b (lookup-offer_all cfg o camera name ft key m _ (ground arith))
]

pub offer_all-AreStreams :
    (cfg : Config) (o : Outside) (camera name : Text) (ft : Option ℕ)
    (m : List (Text × StreamSession)) (a : Files)
    → AreStreams cfg m
    → AreStreams cfg (offer_all cfg o camera name ft m a).0
unfolding offer_all
offer_all-AreStreams cfg o camera name ft [] a w = w
offer_all-AreStreams cfg o camera name ft ((key, s) ∷ m) a ((d, ds), (i, is)) =
    let (ds', is') = offer_all-AreStreams cfg o camera name ft m after.1 (ds, is) in
    (
      (lookup-offer_all cfg o camera name ft key m after.1 d, ds'),
      (IsStream-frameless cfg key after.0 s same i, is'),
    )
  where
    after : StreamSession × Files
    after = if text_beq s.camera_name camera then offer_frame cfg o 60 name ft (s, a) else (s, a)

    same : frameless after.0 ≡ frameless s
    same = elim (Bool-cases (text_beq s.camera_name camera)) [
      | inl b ↦ rw b (offer_frame-frameless cfg o 60 name ft (s, a))
      | inr b ↦ rw b refl
    ]
