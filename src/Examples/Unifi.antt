-- ===== src/Examples/Unifi.antt =====
-- services/unifi-kafka, unifi-video-kafka, unifi-video-jpg and unifi-smart-archive at concrete
-- inputs.
use roach.Base.{◌≡◌, ◌≢◌, refl, true, false, List, [], ◌∷◌, ◌++◌, some, arith, All, Text, flatten}
use roach.Base.Strings.{
  codes, format_int, digits, digits_of, has_prefix, parse_int, parse_magnitude, parse_digits,
  cut_suffix,
}
use roach.Archive.{
  Config, StreamSession, Files, Service, Outside, Entry, whole, frame_time, archive_base_of,
  camera_key, sanitize_name,
}
use roach.Archive.Paths.{FilePath, path_beq, path_beq_iff}
use roach.Archive.Messages
use roach.Archive.Moves.{Lost, merge_loses_copied}
use roach.Archive.Streams.{IsWellFormed}
use roach.Archive.Runs
use roach.Archive.Endless.{run-new_service-IsWellFormed, run-keeps_endless, Remains}
use roach.Video.{Bytes, read_frames, frames_of, extract_all, extract_frame, index}
use roach.Video.Chunks.{Fits, read_frames-flatten}
use roach.Video.Images.{IsImage, read_frames-IsImage}
use roach.Cameras.{Camera, Round}
use roach.Protect
use roach.Protect.{ProtectEvent, EventCategory, KafkaMessage, classify_event, handle_event}
use roach.Protect.Routes.{camera_of-handle_event}

abbrev config : Config
config = record {
  event_end_timeout = 60_000_000_000;
  archive_dir = codes "archive";
  lead_seconds = 5;
  trail_seconds = 5;
  copy_delay_seconds = 5;
}

abbrev entry : Entry
entry = record { is_dir = false; name = codes "100.jpg" }

abbrev outside : Outside
outside = record {
  now = 110_000_000_000;
  read_dir = λ camera. some (entry ∷ []);
  has_source = λ camera name. true;
  copy_file = λ camera name path. whole;
  mkdir_fails = λ path. false;
  add_fails = λ camera. false;
}

-- A stream that has copied its first frame.
abbrev session : StreamSession
session = record {
  camera_name = codes "door";
  detection_type = codes "person";
  start_ms = 100_000;
  end_ms = 0;
  copy_after_unix = 0;
  archive_base = archive_base_of config (codes "door") (codes "person") 100_000;
  event_ids = codes "a" ∷ codes "b" ∷ [];
  copied = 100 ∷ [];
}

abbrev archive : Files
archive = (session.archive_base ++ codes "100.jpg" ∷ [], true) ∷ []

abbrev earlier : Messages.SmartEvent
earlier = record {
  id = codes "c";
  start = 98_000;
  end = 0;
  smart_detect_types = codes "person" ∷ [];
}

abbrev new_base : FilePath
new_base = archive_base_of config (codes "door") (codes "person") 98_000

differ : path_beq session.archive_base new_base ≡ false
unfolding format_int digits digits_of
differ = refl

moves : session.archive_base ≢ new_base
moves h = ground (arith, differ, path_beq_iff session.archive_base new_base)

frame_100 : frame_time (codes "100.jpg") ≡ some 100
unfolding frame_time parse_int parse_magnitude parse_digits cut_suffix
frame_100 = refl

merge_loses_copied_example :
    Lost
      (codes "100.jpg")
      100
      session.archive_base
      new_base
      archive
      (Messages.merge config outside (codes "door") (codes "person") earlier session archive)
merge_loses_copied_example =
    merge_loses_copied config outside (codes "door") (codes "person") (codes "100.jpg") earlier 100
      session archive (omega arith) refl moves frame_100 refl

abbrev message : Messages.Message
message = record { key = codes "door:100"; headers = []; value = some earlier }

abbrev history : List Runs.Event
history =
    Runs.received outside message
    ∷ Runs.created outside (codes "door") (codes "101.jpg")
    ∷ Runs.expired 200_000_000_000
    ∷ Runs.closed outside
    ∷ []

run-new_service-IsWellFormed_example :
    IsWellFormed config (Runs.run config history (Runs.new_service true))
run-new_service-IsWellFormed_example = run-new_service-IsWellFormed config true history

abbrev key : Text
key = camera_key (codes "door") (codes "person")

abbrev service : Service
service = record (Runs.new_service true) { streams = (key, session) ∷ [] }

service-IsWellFormed : IsWellFormed config service
service-IsWellFormed = record {
  distinct = (refl, tt);
  streams = (
    record { some_event = λ h. ground arith; placed = (codes "door", codes "person", refl, refl) },
    tt,
  );
}

abbrev quiet : List Runs.Event
quiet =
    Runs.expired 200_000_000_000
    ∷ Runs.closed outside
    ∷ Runs.created outside (codes "door") (codes "101.jpg")
    ∷ []

run-keeps_endless_example : Remains key session (Runs.run config quiet service).streams
unfolding camera_key
run-keeps_endless_example =
    run-keeps_endless config quiet key session service service-IsWellFormed (refl, omega arith) refl
      (tt, (tt, (tt, tt)))

abbrev chunks : List Bytes
chunks = (0 ∷ 0xFF ∷ []) ∷ (0xD8 ∷ 1 ∷ 0xFF ∷ []) ∷ (0xD9 ∷ 0xFF ∷ 0xD8 ∷ []) ∷ []

chunks_fit : Fits [] chunks
unfolding extract_all extract_frame index has_prefix
chunks_fit = (omega arith, (omega arith, (omega arith, tt)))

read_frames-flatten_example : read_frames [] chunks ≡ (frames_of (flatten chunks)).0
read_frames-flatten_example = read_frames-flatten chunks chunks_fit

read_frames-IsImage_example : All IsImage (read_frames [] chunks)
read_frames-IsImage_example = read_frames-IsImage [] chunks

abbrev failure : Round
failure = record { has_url = false; ran_for = 0; finds_connected = true }

abbrev online : Camera
online = record { connected = true; backoff_idx = 0 }

abbrev protect_event : ProtectEvent
protect_event = record {
  id = codes "e";
  model_key = codes "event";
  type = codes "smartDetect";
  start = 100_000;
  end = 0;
  smart_detect_types = codes "face" ∷ codes "person" ∷ [];
  camera = codes "c1";
  device = [];
}

abbrev cameras : List (Text × Text)
cameras = (codes "c1", codes "Front Door") ∷ []

abbrev made : KafkaMessage
made = Protect.message_for cameras 100 protect_event Protect.smart (codes "person")

made_of : handle_event cameras 100 (some protect_event) ≡ some made
unfolding handle_event Protect.routed classify_event Protect.classify_types
made_of = refl

abbrev received : Messages.Message
received = record { key = made.key; headers = made.headers; value = some earlier }

camera_of-handle_event_example :
    sanitize_name (Messages.camera_of received) ≡ Protect.sanitize_name (codes "Front Door")
camera_of-handle_event_example =
    camera_of-handle_event cameras 100 protect_event (codes "Front Door") made received made_of refl
      refl (λ h. ground arith)
