-- ===== src/Archive/Worker.antt =====
-- services/unifi-smart-archive/service/service.go: what runWorker does at a tick,
-- expireWaitingForEnd and closeCompletedStreams.
use roach.Base.{
  ℕ, ◌+◌, ◌/◌, Bool, true, false, ◌&&◌, ◌||◌, not, List, [], ◌∷◌, ◌++◌, none, some, ltb, ◌==◌,
  if◌then◌else◌, Text, text_beq, text_eq, nat_eq,
}
use roach.Base.Assoc.{lookup, remove, contains}
use roach.Base.Strings.{codes, format_int}
use roach.Archive.Paths.{remove_all}
use roach.Archive.{
  Config, StreamSession, WaitingEvent, Files, Service, Outside, unix, camera_key, catch_up,
}
use roach.Archive.Messages.{release_watched}

abbrev pub is_only : Text → List Text → Bool
is_only id [] = false
is_only id (i ∷ []) = text_beq i id
is_only id (i ∷ j ∷ ids) = false

-- The stream has no end, and this event alone.
abbrev pub is_alone : Text → StreamSession → Bool
is_alone id session = session.end_ms == 0 && is_only id session.event_ids

-- One round of the loop in expireWaitingForEnd.
unfoldable pub expire : Config → ℕ → Text → WaitingEvent → Service → Service
expire cfg now id ev s =
    let s' = record s { waiting_for_end = remove id s.waiting_for_end } in
    let key = camera_key ev.camera_name ev.detection_type in
    if ltb (ev.last_message_at + cfg.event_end_timeout) now
    then elim (lookup key s'.streams) [
      | none ↦ s'
      | some session ↦
          let s'' =
            release_watched ev.camera_name (record s' { streams = remove key s'.streams }) in
          if is_alone id session
          then record s'' { archive = remove_all session.archive_base s''.archive }
          else s'
    ]
    else s

unfoldable pub expire_all : Config → ℕ → List (Text × WaitingEvent) → Service → Service
expire_all cfg now [] s = s
expire_all cfg now ((id, ev) ∷ rest) s = expire_all cfg now rest (expire cfg now id ev s)

-- expireWaitingForEnd, which goes over the events that wait when it begins.
unfoldable pub expire_waiting_for_end : Config → ℕ → Service → Service
expire_waiting_for_end cfg now s = expire_all cfg now s.waiting_for_end s

abbrev pub last_frame : Config → StreamSession → ℕ
last_frame cfg session = session.end_ms / 1000 + cfg.trail_seconds

-- Whether a stream is to be closed, with what copying its last frames changed.
unfoldable pub complete : Config → Outside → StreamSession × Files → Bool × StreamSession × Files
complete cfg o (session, archive) =
    let last = last_frame cfg session in
    let (session', archive') = catch_up cfg o (session, archive) in
    if session.end_ms == 0
    then (false, session, archive)
    else if ltb (unix o.now) session.copy_after_unix
    then (false, session, archive)
    else if contains last session.copied
    then (true, session, archive)
    else (
      contains last session'.copied
          || not (o.has_source session'.camera_name (format_int last ++ codes ".jpg")),
      session',
      archive',
    )

-- The first loop of closeCompletedStreams: the keys to close, and the streams and files after it.
unfoldable pub complete_all :
    Config
    → Outside
    → List (Text × StreamSession)
    → Files
    → List Text × List (Text × StreamSession) × Files
complete_all cfg o [] archive = ([], [], archive)
complete_all cfg o ((key, session) ∷ rest) archive =
    let (closes, session', archive') = complete cfg o (session, archive) in
    let (keys, rest', archive'') = complete_all cfg o rest archive' in
    (if closes then key ∷ keys else keys, (key, session') ∷ rest', archive'')

unfoldable pub close_stream : Text → Service → Service
close_stream key s = elim (lookup key s.streams) [
  | none ↦ s
  | some session ↦
      let s' = release_watched session.camera_name (record s { streams = remove key s.streams }) in
      record s' { done = session.event_ids ++ s'.done }
]

unfoldable pub close_all : List Text → Service → Service
close_all [] s = s
close_all (key ∷ keys) s = close_all keys (close_stream key s)

-- closeCompletedStreams
unfoldable pub close_completed_streams : Config → Outside → Service → Service
close_completed_streams cfg o s =
    let (keys, streams, archive) = complete_all cfg o s.streams s.archive in
    close_all keys (record s { streams = streams; archive = archive })
