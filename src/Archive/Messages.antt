-- ===== src/Archive/Messages.antt =====
-- services/unifi-smart-archive/service/service.go: processMessage, ensureWatchedLocked and
-- releaseWatchedLocked. A message comes with its value as json.Unmarshal reads it, none where it
-- does not parse.
use roach.Base.{
  ℕ, suc, ◌+◌, ◌-◌, ◌/◌, Bool, ◌||◌, List, [], ◌∷◌, ◌++◌, Option, none, some, ltb, ◌==◌,
  if◌then◌else◌, Text, text_beq, text_eq,
}
use roach.Base.Assoc.{insert, lookup, remove, contains}
use roach.Base.Strings.{codes, split_at}
use roach.Archive.Paths.{path_beq, remove_all}
use roach.Archive.{
  Config, StreamSession, WaitingEvent, Files, Service, Outside, sanitize_name, camera_key,
  archive_base_of, catch_up,
}

pub record SmartEvent : Type 0 where
  pub id : Text
  pub start : ℕ
  pub end : ℕ
  pub smart_detect_types : List Text

pub record Message : Type 0 where
  pub key : Text
  pub headers : List (Text × Text)
  pub value : Option SmartEvent

-- HasEnd
abbrev pub has_end : SmartEvent → Bool
has_end e = ltb 0 e.end

-- getHeader
unfoldable pub get_header : List (Text × Text) → Text → Text
get_header [] key = []
get_header ((k, value) ∷ headers) key = if text_beq k key then value else get_header headers key

-- The part of the key before its first colon, if that is not at its start.
abbrev pub camera_of_key : Text → Text
camera_of_key key = elim (split_at b':' key) [ none ↦ [] | some (before, after) ↦ before ]

abbrev pub or_else : Text → Text → Text
or_else [] d = d
or_else (c ∷ s) d = c ∷ s

-- The camera's name, sanitized by the caller once it is known not to be empty.
unfoldable pub camera_of : Message → Text
camera_of m = or_else (get_header m.headers (codes "camera_name")) (camera_of_key m.key)

abbrev first_type : List Text → Text
first_type [] = []
first_type (t ∷ ts) = t

unfoldable pub detection_of : Message → SmartEvent → Text
detection_of m e = sanitize_name (
    or_else (first_type e.smart_detect_types)
      (or_else (get_header m.headers (codes "detection_type")) (codes "unknown")))

abbrev pub count_of : Text → List (Text × ℕ) → ℕ
count_of dir dirs = elim (lookup dir dirs) [ none ↦ 0 | some n ↦ n ]

-- ensureWatchedLocked: the number of streams of the camera, and whether the watcher is to have its
-- directory.
unfoldable pub ensure_watched : Outside → Text → Service → Service
ensure_watched o camera_name s =
    let n = suc (count_of camera_name s.watched_dirs) in
    if s.has_watcher
    then (if ltb 1 n
        then record s { watched_dirs = insert camera_name n s.watched_dirs }
        else if o.add_fails camera_name
        then record s { watched_dirs = insert camera_name (n - 1) s.watched_dirs }
        else record s {
          watched_dirs = insert camera_name n s.watched_dirs;
          watching = camera_name ∷ s.watching;
        })
    else s

abbrev pub without : Text → List Text → List Text
without t [] = []
without t (u ∷ us) = if text_beq u t then without t us else u ∷ without t us

-- releaseWatchedLocked
unfoldable pub release_watched : Text → Service → Service
release_watched camera_name s =
    let n = count_of camera_name s.watched_dirs - 1 in
    if s.has_watcher
    then (if n == 0
        then record s {
          watched_dirs = remove camera_name s.watched_dirs;
          watching = without camera_name s.watching;
        }
        else record s { watched_dirs = insert camera_name n s.watched_dirs })
    else s

-- A start earlier than the stream's moves its archive.
unfoldable pub start_earlier :
    Config → Outside → Text → Text → ℕ → StreamSession × Files → StreamSession × Files
start_earlier cfg o camera_name detection_type start (session, archive) =
    let old_base = session.archive_base in
    let base = archive_base_of cfg camera_name detection_type start in
    let moved = record session { start_ms = start; archive_base = base } in
    let (session', archive') = catch_up cfg o (moved, archive) in
    if ltb start session.start_ms
    then (if path_beq old_base base
        then (moved, archive)
        else (session', remove_all old_base archive'))
    else (session, archive)

abbrev pub max_of : ℕ → ℕ → ℕ
max_of a b = if ltb b a then a else b

abbrev pub copy_after : Config → SmartEvent → ℕ
copy_after cfg e =
    if has_end e then e.end / 1000 + cfg.trail_seconds + cfg.copy_delay_seconds else 0

-- An end extends the stream.
unfoldable pub end_later :
    Config → Outside → SmartEvent → StreamSession × Files → StreamSession × Files
end_later cfg o e (session, archive) =
    let ended = record session {
      end_ms = max_of e.end session.end_ms;
      copy_after_unix = max_of (copy_after cfg e) session.copy_after_unix;
    } in
    let caught_up = catch_up cfg o (ended, archive) in
    if has_end e then caught_up else (session, archive)

-- The event joins a stream of its camera and type.
unfoldable pub merge :
    Config → Outside → Text → Text → SmartEvent → StreamSession → Files → StreamSession × Files
merge cfg o camera_name detection_type e session archive =
    let (session', archive') =
      end_later cfg o e
        (start_earlier cfg o camera_name detection_type e.start (session, archive)) in
    (record session' { event_ids = session'.event_ids ++ e.id ∷ [] }, archive')

abbrev pub new_session : Config → Text → Text → SmartEvent → StreamSession
new_session cfg camera_name detection_type e = record {
  camera_name = camera_name;
  detection_type = detection_type;
  start_ms = e.start;
  end_ms = e.end;
  copy_after_unix = copy_after cfg e;
  archive_base = archive_base_of cfg camera_name detection_type e.start;
  event_ids = e.id ∷ [];
  copied = [];
}

-- The event starts a stream.
unfoldable pub open_stream : Config → Outside → Text → Text → SmartEvent → Service → Service
open_stream cfg o camera_name detection_type e s =
    let (session, archive) =
      catch_up cfg o (new_session cfg camera_name detection_type e, s.archive) in
    let watched = ensure_watched o camera_name s in
    let waiting : WaitingEvent = record {
      camera_name = camera_name;
      detection_type = detection_type;
      start_ms = e.start;
      last_message_at = o.now;
    } in
    record watched {
      streams = insert (camera_key camera_name detection_type) session s.streams;
      waiting_for_end =
          if has_end e then s.waiting_for_end else insert e.id waiting s.waiting_for_end;
      archive = archive;
    }

-- What processMessage does under the mutex, for an event that is not done.
unfoldable pub process_event : Config → Outside → Text → Text → SmartEvent → Service → Service
process_event cfg o camera_name detection_type e s =
    let s' = record s {
      waiting_for_end = if has_end e then remove e.id s.waiting_for_end else s.waiting_for_end;
    } in
    let key = camera_key camera_name detection_type in
    elim (lookup key s'.streams) [
      | some existing ↦
          let (session, archive) = merge cfg o camera_name detection_type e existing s'.archive in
          record s' { streams = insert key session s'.streams; archive = archive }
      | none ↦
          if o.mkdir_fails (archive_base_of cfg camera_name detection_type e.start)
          then s'
          else open_stream cfg o camera_name detection_type e s'
    ]

-- processMessage
unfoldable pub process_message : Config → Outside → Message → Service → Service
process_message cfg o m s = elim m.value [
  | none ↦ s
  | some e ↦
      if text_beq e.id [] || e.start == 0
      then s
      else if text_beq (camera_of m) []
      then s
      else if contains e.id s.done
      then s
      else process_event cfg o (sanitize_name (camera_of m)) (detection_of m e) e s
]
