-- ===== src/Archive.antt =====
-- services/unifi-smart-archive/service/service.go: the state of the service, and how frames are
-- copied (catchUpLocked, runWatcher). A path is the list of its components; the names that are
-- joined have no separator. A time in an event is in milliseconds and not below 0, `now` is in
-- nanoseconds. What the file system answers while the mutex is held once is in `Outside`.
pub mod Paths
pub mod Messages
pub mod Worker
pub mod Moves
pub mod Streams
pub mod Runs
pub mod Closing
pub mod Endless
use roach.Base.{
  ℕ, ◌+◌, ◌*◌, ◌-◌, ◌/◌, ◌^◌, Bool, true, false, ◌&&◌, ◌||◌, not, List, [], ◌∷◌, ◌++◌, Option, none,
  some, ltb, leb, ◌==◌, if◌then◌else◌, Text, text_eq, nat_eq,
}
use roach.Base.Assoc.{insert, lookup, contains}
use roach.Base.Strings.{codes, cut_suffix, parse_int, sign_bit, to_lower, replace_byte, format_int}
use roach.Archive.Paths.{FilePath, path_eq}

pub record Config : Type 0 where
  pub event_end_timeout : ℕ
  pub archive_dir : Text
  pub lead_seconds : ℕ
  pub trail_seconds : ℕ
  pub copy_delay_seconds : ℕ

-- A frame is copied by its Unix time, an int64.
pub record StreamSession : Type 0 where
  pub camera_name : Text
  pub detection_type : Text
  pub start_ms : ℕ
  pub end_ms : ℕ
  pub copy_after_unix : ℕ
  pub archive_base : FilePath
  pub event_ids : List Text
  pub copied : List ℕ

pub record WaitingEvent : Type 0 where
  pub camera_name : Text
  pub detection_type : Text
  pub start_ms : ℕ
  pub last_message_at : ℕ

-- What is in the archive: the path of every file, and whether it is complete.
abbrev pub Files : Type 0
Files = List (FilePath × Bool)

pub record Service : Type 0 where
  pub has_watcher : Bool
  pub streams : List (Text × StreamSession)
  pub watched_dirs : List (Text × ℕ)
  -- The cameras whose directories the watcher watches.
  pub watching : List Text
  pub waiting_for_end : List (Text × WaitingEvent)
  pub done : List Text
  pub archive : Files

pub record Entry : Type 0 where
  pub is_dir : Bool
  pub name : Text

-- copyFile creates the file of the archive once the source is open, and may fail after that.
pub data Copy : Type 0 where
  whole partial nothing : Copy

pub record Outside : Type 0 where
  pub now : ℕ
  -- os.ReadDir of a camera's source directory, os.Stat of a frame in it, and copyFile.
  pub read_dir : Text → Option (List Entry)
  pub has_source : Text → Text → Bool
  pub copy_file : Text → Text → FilePath → Copy
  pub mkdir_fails : FilePath → Bool
  pub add_fails : Text → Bool

abbrev pub unix : ℕ → ℕ
unix now = now / 1_000_000_000

-- sanitizeName
unfoldable pub sanitize_name : Text → Text
sanitize_name name = replace_byte b'-' b'_' (replace_byte b' ' b'_' (to_lower name))

-- cameraKey
unfoldable pub camera_key : Text → Text → Text
camera_key camera_name detection_type = camera_name ++ b'|' ∷ detection_type

-- archiveBase
abbrev pub archive_base_of : Config → Text → Text → ℕ → FilePath
archive_base_of cfg camera_name detection_type start_ms =
    cfg.archive_dir
    ∷ codes "smart"
    ∷ detection_type
    ∷ camera_name
    ∷ format_int (start_ms / 1000)
    ∷ []

-- The time that the name of a frame stands for: its ".jpg" cut off, a number.
unfoldable pub frame_time : Text → Option ℕ
frame_time name = elim (cut_suffix name (codes ".jpg")) [
  | none ↦ none
  | some ts ↦ let parsed = parse_int ts in if parsed.failed then none else some parsed.value
]

-- fromSec <= ts && ts <= toSec, for fromSec = start - lead, where a time from 2 ^ 63 on is the
-- negative one with that bit pattern.
abbrev pub in_window : ℕ → ℕ → ℕ → ℕ → Bool
in_window start lead to_sec ts =
    if ltb ts sign_bit
    then leb start (ts + lead) && leb ts to_sec
    else leb (start + (2 ^ 64 - ts)) lead

-- toSec in catchUpLocked and in runWatcher, which look 5 and 60 seconds ahead of a stream without
-- an end.
abbrev pub to_sec_of : Config → ℕ → ℕ → StreamSession → ℕ
to_sec_of cfg ahead now session =
    if ltb 0 session.end_ms then session.end_ms / 1000 + cfg.trail_seconds else unix now + ahead

-- copyFile, and the frame noted as copied if it succeeds.
unfoldable pub copy_frame : Outside → Text → ℕ → StreamSession × Files → StreamSession × Files
copy_frame o name ts (session, archive) =
    let path = session.archive_base ++ name ∷ [] in
    elim (o.copy_file session.camera_name name path) [
      | whole ↦ (record session { copied = ts ∷ session.copied }, insert path true archive)
      | partial ↦ (session, insert path false archive)
      | nothing ↦ (session, archive)
    ]

-- One frame for one session, in catchUpLocked and in runWatcher: skipped outside the window or once
-- it is copied.
unfoldable pub offer_frame :
    Config → Outside → ℕ → Text → Option ℕ → StreamSession × Files → StreamSession × Files
offer_frame cfg o ahead name none (session, archive) = (session, archive)
offer_frame cfg o ahead name (some ts) (session, archive) =
    if in_window (session.start_ms / 1000) cfg.lead_seconds (to_sec_of cfg ahead o.now session) ts
      && not (contains ts session.copied)
    then copy_frame o name ts (session, archive)
    else (session, archive)

unfoldable pub copy_entries :
    Config → Outside → List Entry → StreamSession × Files → StreamSession × Files
copy_entries cfg o [] s = s
copy_entries cfg o (e ∷ es) s =
    copy_entries cfg o es (if e.is_dir then s else offer_frame cfg o 5 e.name (frame_time e.name) s)

-- catchUpLocked
unfoldable pub catch_up : Config → Outside → StreamSession × Files → StreamSession × Files
catch_up cfg o (session, archive) = elim (o.read_dir session.camera_name) [
  | none ↦ (session, archive)
  | some entries ↦ copy_entries cfg o entries (session, archive)
]

-- The loop of runWatcher over the streams, for a new file of a camera.
unfoldable pub offer_all :
    Config
    → Outside
    → Text
    → Text
    → Option ℕ
    → List (Text × StreamSession)
    → Files
    → List (Text × StreamSession) × Files
offer_all cfg o camera name ts [] archive = ([], archive)
offer_all cfg o camera name ts ((key, session) ∷ rest) archive =
    let (session', archive') =
      if text_eq.beq session.camera_name camera
      then offer_frame cfg o 60 name ts (session, archive)
      else (session, archive) in
    let (rest', archive'') = offer_all cfg o camera name ts rest archive' in
    ((key, session') ∷ rest', archive'')

-- runWatcher, on the creation of the file `name` in the directory `dir`.
unfoldable pub file_created : Config → Outside → Text → Text → Service → Service
file_created cfg o dir name s =
    let (streams, archive) =
      offer_all cfg o (sanitize_name dir) name (frame_time name) s.streams s.archive in
    record s { streams = streams; archive = archive }
