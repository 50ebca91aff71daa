-- ===== src/Backfill.antt =====
-- services/weatherlink-sql-backfill/service/backfill.go: how far a topic is read, what goes to the
-- workers, and the phase of the metadata topics. What the Kafka reader gives in each round of a
-- loop is an argument, and so is the context, which may be cancelled before a round.
pub mod Topics
pub mod Merging
pub mod Concurrent
pub mod Phase
pub mod Starting
pub mod Finishing
pub mod Draining
use roach.Base.{
  ℕ, suc, ◌+◌, ◌-◌, ◌^◌, Text, Bool, true, false, ◌&&◌, ◌||◌, ◌==◌, ltb, leb, List, [], ◌∷◌, ◌++◌,
  Option, none, some, if◌then◌else◌, length,
}
use roach.Base.Strings.{codes, format_int, sign_bit}
use roach.Models.{Message}
use roach.Metadata.{Calls, put_devices}
use roach.Metadata
use roach.Catalog.{load_catalog}
use roach.Catalog
use roach.Registry.{Decoder, Registry, CatalogRow, load_devices}
use roach.Repository.{load_all}
use roach.Processor.{put_tags}

-- Config; an offset is the bit pattern of its int64.
pub record Config : Type 0 where
  pub start_offset : ℕ
  pub end_offset : ℕ
  pub include_metadata : Bool

-- TopicProgress
pub record TopicProgress : Type 0 where
  pub start_offset : ℕ
  pub end_offset : ℕ
  pub current_offset : ℕ
  pub messages_processed : ℕ

-- The argument of reader.SetOffset
pub data Seek : Type 0 where
  first_offset last_offset : Seek
  at_offset : ℕ → Seek

abbrev pub minus : ℕ → ℕ
minus n = 2 ^ 64 - n

unfoldable pub seek_of : ℕ → Seek
seek_of start =
    if start == minus 2 || start == 0
    then first_offset
    else if start == minus 1
    then last_offset
    else at_offset start

-- formatOffsetForLog
unfoldable pub format_offset_for_log : ℕ → Text
format_offset_for_log n =
    if n == minus 2
    then codes "earliest"
    else if n == minus 1
    then codes "latest"
    else if n == 0
    then codes "earliest (0)"
    else format_int n

-- One round of a reading loop: the context is done, FetchMessage runs into its timeout or fails,
-- or it gives a message. The flag says whether SubmitMessage fails for it.
pub data Round (F : Type 0) : Type 0 where
  cancelled timed_out fetch_failed : Round F
  fetched : Message F → Bool → Round F

-- How a loop ends; `still_reading` where no more rounds are given.
pub data Ending : Type 0 where
  still_reading finished : Ending
  seek_error fetch_error context_error : Ending

-- s.config.EndOffset >= 0 && msg.Offset >= s.config.EndOffset
unfoldable pub reached_end : Config → ℕ → Bool
reached_end cfg o = ltb cfg.end_offset sign_bit && leb cfg.end_offset o

abbrev pub new_progress : Config → TopicProgress
new_progress cfg = record {
  start_offset = 0;
  end_offset = cfg.end_offset;
  current_offset = 0;
  messages_processed = 0;
}

module _ {F : Type 0} (cfg : Config) where
  abbrev pub first_seen : ℕ → Message F → TopicProgress → TopicProgress
  first_seen count msg p = if count == 0 then record p { start_offset = msg.offset } else p

  -- The loop of processTopic: the messages that it submits, and the progress.
  unfoldable pub read_topic :
      ℕ → TopicProgress → List (Round F) → List (Message F) × TopicProgress × Ending
  read_topic count p [] = ([], p, still_reading)
  read_topic count p (cancelled ∷ rounds) = ([], p, context_error)
  read_topic count p (timed_out ∷ rounds) = ([], p, finished)
  read_topic count p (fetch_failed ∷ rounds) = ([], p, fetch_error)
  read_topic count p (fetched msg submit_fails ∷ rounds) =
      let p' = first_seen count msg p in
      let skipped = read_topic count p' rounds in
      let (submitted, p'', ending) =
        read_topic (suc count)
          (record p' {
            current_offset = msg.offset + 1;
            messages_processed = p'.messages_processed + 1;
          })
          rounds in
      if reached_end cfg msg.offset
      then ([], p', finished)
      else if submit_fails
      then skipped
      else (msg ∷ submitted, p'', ending)

  -- processTopic; `reader` gives the rounds after a seek.
  unfoldable pub process_topic :
      Bool → (Seek → List (Round F)) → List (Message F) × TopicProgress × Ending
  process_topic seek_fails reader =
      if seek_fails
      then ([], new_progress cfg, seek_error)
      else read_topic 0 (new_progress cfg) (reader (seek_of cfg.start_offset))

  -- The loop of processMetadataTopic, which counts the messages; an error of the processor is only
  -- logged.
  unfoldable pub read_metadata :
      (ℕ → Message F → Registry F → Registry F)
      → ℕ
      → List (Round F)
      → Registry F
      → Registry F × Ending
  read_metadata handle count [] r = (r, still_reading)
  read_metadata handle count (cancelled ∷ rounds) r = (r, context_error)
  read_metadata handle count (timed_out ∷ rounds) r = (r, finished)
  read_metadata handle count (fetch_failed ∷ rounds) r = (r, fetch_error)
  read_metadata handle count (fetched msg submit_fails ∷ rounds) r =
      let rest = read_metadata handle (suc count) rounds (handle count msg r) in
      if reached_end cfg msg.offset then (r, finished) else rest

  unfoldable pub process_metadata_topic :
      (ℕ → Message F → Registry F → Registry F)
      → Bool
      → (Seek → List (Round F))
      → Registry F
      → Registry F × Ending
  process_metadata_topic handle seek_fails reader r =
      if seek_fails
      then (r, seek_error)
      else read_metadata handle 0 (reader (seek_of cfg.start_offset)) r

-- What happens outside the code while a metadata topic is read: whether the seek fails, what the
-- reader gives after it, and the calls for each message, by its number among those of the topic.
pub record TopicCalls (F : Type 0) : Type 0 where
  pub seek_fails : Bool
  pub reader : Seek → List (Round F)
  pub calls : ℕ → Calls
  pub upsert_entry_fails : ℕ → CatalogRow → Bool

-- What happens outside the code during the metadata phase.
pub record MetadataCalls (F : Type 0) : Type 0 where
  pub sensors : TopicCalls F
  pub catalog : TopicCalls F
  pub station : TopicCalls F

module _ {F : Type 0} (cfg : Config) (d : Decoder F) (m : MetadataCalls F) where
  abbrev pub handle_metadata : TopicCalls F → ℕ → Message F → Registry F → Registry F
  handle_metadata t n msg r = (Metadata.backfill_message d (t.calls n) msg r).0

  abbrev pub handle_catalog : TopicCalls F → ℕ → Message F → Registry F → Registry F
  handle_catalog t n msg r =
      (Catalog.backfill_message d (t.upsert_entry_fails n) (t.calls n) msg r).0

  -- A topic that does not finish ends the phase.
  abbrev pub and_then :
      Registry F × Ending → (Registry F → Registry F × Ending) → Registry F × Ending
  and_then (r, finished) next = next r
  and_then (r, still_reading) next = (r, still_reading)
  and_then (r, seek_error) next = (r, seek_error)
  and_then (r, fetch_error) next = (r, fetch_error)
  and_then (r, context_error) next = (r, context_error)

  abbrev pub sensors_topic : Registry F → Registry F × Ending
  sensors_topic =
      process_metadata_topic cfg (handle_metadata m.sensors) m.sensors.seek_fails m.sensors.reader

  abbrev pub catalog_topic : Registry F → Registry F × Ending
  catalog_topic =
      process_metadata_topic cfg (handle_catalog m.catalog) m.catalog.seek_fails m.catalog.reader

  abbrev pub station_topic : Registry F → Registry F × Ending
  station_topic =
      process_metadata_topic cfg (handle_metadata m.station) m.station.seek_fails m.station.reader

  -- processMetadataPhase: the topics in the order of their foreign keys.
  unfoldable pub process_metadata_phase : Registry F → Registry F × Ending
  process_metadata_phase r =
      and_then (sensors_topic r) λ r1. and_then (catalog_topic r1) station_topic

-- Which of the queries of Start fail.
pub record StartCalls (F : Type 0) : Type 0 where
  pub devices_fail : Bool
  pub tags_fail : Bool
  pub catalog_fails : Bool
  pub metadata : MetadataCalls F
  pub reload_devices_fail : Bool
  pub reload_catalog_fails : Bool

pub data StartError : Type 0 where
  devices_not_loaded tags_not_loaded metadata_failed devices_not_reloaded : StartError

module _ {F : Type 0} (cfg : Config) (d : Decoder F) (s : StartCalls F) where
  abbrev pub put_all_devices : Registry F → Registry F
  put_all_devices r = record r { cache = put_devices (load_devices r.devices) r.cache }

  abbrev pub put_all_tags : Registry F → Registry F
  put_all_tags r = record r { cache = put_tags (load_all r.tags) r.cache }

  -- A catalog that cannot be loaded again is only logged.
  abbrev pub reload : Registry F → Registry F × Option StartError
  reload r =
      if s.reload_devices_fail
      then (r, some devices_not_reloaded)
      else (load_catalog s.reload_catalog_fails (put_all_devices r), none)

  abbrev pub after_phase : Registry F × Ending → Registry F × Option StartError
  after_phase (r, finished) = reload r
  after_phase (r, still_reading) = (r, some metadata_failed)
  after_phase (r, seek_error) = (r, some metadata_failed)
  after_phase (r, fetch_error) = (r, some metadata_failed)
  after_phase (r, context_error) = (r, some metadata_failed)

  abbrev pub with_metadata : Registry F → Registry F × Option StartError
  with_metadata r =
      if cfg.include_metadata
      then after_phase (process_metadata_phase cfg d s.metadata r)
      else (r, none)

  -- Start up to the start of the workers.
  unfoldable pub prepare : Registry F → Registry F × Option StartError
  prepare r =
      let loaded = load_catalog s.catalog_fails (put_all_tags (put_all_devices r)) in
      if s.devices_fail
      then (r, some devices_not_loaded)
      else if s.tags_fail
      then (put_all_devices r, some tags_not_loaded)
      else with_metadata loaded
