-- ===== src/Lib.antt =====
-- ROACH: services that take readings from weather stations, cameras and Home Assistant into
-- Kafka, and from Kafka into PostgreSQL and an archive of frames.
--
-- The parts, with the files that model them:
--
-- * services/weatherlink-sql reads the weather topics into the database. Workers
--   (service/worker_pool.go, Pool, its state and data types in Pool/Parts) take a message apart,
--   find or make the tag of each field in the cache (cache/cache.go, Cache) and in the table of
--   tags (repository/tags.go and orphans.go, Repository), and hand each value to the batch writer
--   (repository/batch_writer.go, BatchWriter), which copies batches into the record tables
--   (Tables). Models has the types of models/types.go and the JSON values. BatchWriter/Schedule
--   has the writer under concurrency: a schedule is any list of the steps between two releases of
--   its mutex. Pool has how a worker handles one message from start to end, and Pool.work a pool
--   of one worker; Pool/Crew has the workers as goroutines, in whose runs GetTag, Create, SetTag
--   and addRecordToBatch are steps of their own and the steps of other workers may come in
--   between. Processor has the data processor (service/data.go, repository/records.go), which
--   inserts each value at once, in Processor/Written the workers of Pool/Crew with their batch
--   writer beside it, and in Processor/Listening how ListenWithWorkerPool, the channel and the
--   workers of Pool/Crew go together. Registry has the tables that the other processors write
--   (repository/devices.go and the rows of sensor_catalog); Metadata is service/metadata.go,
--   Catalog service/catalog.go with repository/catalog.go, Enrichment service/enrichment.go with
--   the query of repository/tags.go.
-- * services/weatherlink-sql-backfill reads a range of each topic again (Backfill). Backfill has
--   service/backfill.go: Start up to the workers, the metadata phase, and the loop over a topic;
--   Backfill/Concurrent is service/worker_pool.go, its workers as goroutines; Backfill/Finishing
--   has the topics of processTopics with their partitions, and Backfill/Draining processTopics as
--   a whole. Its metadata and catalog processors stand in Metadata and Catalog beside those of
--   weatherlink-sql, with which they share most of their code; its batch writer, cache and
--   repositories, and in worker_pool.go addRecordToBatch and the making of a tag, are the code of
--   weatherlink-sql again, whose models stand for them.
-- * services/weatherlink-kafka publishes the readings. RateLimiter is service/ratelimit.go;
--   Weather/Windows is util/time.go and the check in api/weatherlink.go; Weather/Fetching is
--   FetchHistoricData there, with makeRequest of api/client.go; Weather/Records is the publishing
--   of service/conditions.go and service/backfill.go, with util/topic.go; Weather/History is the
--   rest of service/backfill.go, the workers of StartBackfill with the limiter they share and
--   fetchHistoricDataWithRetry, where Weather/History/Moves gives the steps as a relation;
--   Weather/Metadata is service/metadata.go.
-- * services/unifi-kafka (Protect) turns the events of the cameras into messages.
--   services/unifi-smart-archive reads those messages and archives the frames of each event:
--   Archive has its state and how frames are copied, Archive/Messages processMessage,
--   Archive/Worker the ticks, Archive/Runs the three goroutines as steps under the mutex, in any
--   order. Protect/Routes joins the two services.
-- * services/unifi-video-kafka cuts the output of ffmpeg into frames (Video); it and
--   services/unifi-video-jpg supervise each camera in the same way (Cameras).
-- * services/homeassistant-kafka routes the states of Home Assistant (HomeAssistant);
--   HomeAssistant/News says which states are news.
-- * services/homeassistant-command sends the commands that come from Kafka to Home Assistant:
--   Command, with Command/Parts, has models/command.go, ha/client.go and service/service.go, with
--   the consumer and the keepalive as events in any order, one after the other: a tick of the
--   keepalive that comes while a command is handled is not modelled.
--
-- Base has what the parts share: tests and lists over the native numbers, maps as association
-- lists, and the parts of Go's strings and strconv that the services use. Examples has the
-- theorems at concrete inputs.
--
-- Conventions. A function that changes shared state takes the state and gives the new one; a call
-- that can fail, of PostgreSQL, of Kafka or of the file system, is an argument that says whether
-- it fails, and each message, or each step of a goroutine, comes with the failures of its own
-- calls. An error that the code ignores, of os.RemoveAll, does not occur. A Go map is an
-- association list, and a range over it follows the list, which may have any order. An int64 that
-- a header carries is its bit pattern below 2 ^ 64; times are natural numbers, in the unit that
-- each file names. A byte string is a list of bytes; case mapping is that of ASCII. The nested
-- arrays and objects of a JSON body stand for themselves as texts, which a Decoder, an argument,
-- takes apart; it also has what the code does with a float64. What the weather API answers to a
-- request is an argument too, and a run of the workers that fetch history is any list of their
-- steps, in which one step takes a window, goes one round of Wait, makes one attempt with all
-- that follows from its answer, or ends a wait. A Kafka reader is the list of what its calls
-- give, one after the other. The tokens of the rate limiter are counted in billionths, without
-- rounding.
--
-- Fuel. The loop of SplitInto24HourWindows runs on the number of windows and one more round,
-- which is enough; the inner loop of readFrames on the length of the buffer, more than which
-- changes nothing; the loop of Wait on a number of rounds, of which a lone caller needs five at
-- most. Printing a number runs on its value. The loops over a topic run on the rounds that its
-- reader gives; where these end with a timeout, they return. ConnectWithRetry runs on the
-- attempts that are given.
--
-- Not modelled: the calls of HTTP, websockets, Kafka, ffmpeg and SQL themselves, logging,
-- configuration, metrics, and the services in Swift; of the modelled services, the retention
-- passes of the archive and of the frames, the scanner and Start of services/weatherlink-kafka,
-- and the log of the progress of the backfill.
pub mod Base
pub mod Tables
pub mod BatchWriter
pub mod Models
pub mod Cache
pub mod Repository
pub mod Pool
pub mod Processor
pub mod Registry
pub mod Metadata
pub mod Catalog
pub mod Enrichment
pub mod Backfill
pub mod RateLimiter
pub mod Weather
pub mod Archive
pub mod Video
pub mod Cameras
pub mod Protect
pub mod HomeAssistant
pub mod Command
pub mod Examples
