-- ===== src/Backfill/Finishing.antt =====
-- The topics of processTopics of services/weatherlink-sql-backfill/service/backfill.go, each with its
-- partition.
use roach.Base.{ℕ, subst, ◌+◌, ◌≡◌, refl, sym, Bool, false, List, [], ◌∷◌, arith, length, map}
use roach.Models.{Message}
use roach.Backfill.{Config, TopicProgress, Seek, Round, Ending, process_topic}
use roach.Backfill.Topics.{GrowFrom, deliveries, from, range_of, process_topic_lem}
use roach.Backfill.Merging.{total}

-- A topic: whether the seek fails, and what its reader gives after it.
pub record Topic (F : Type 0) : Type 0 where
  pub seek_fails : Bool
  pub reader : Seek → List (Round F)

module _ {F : Type 0} (cfg : Config) where
  abbrev pub submitted_by : Topic F → List (Message F)
  submitted_by t = (process_topic cfg t.seek_fails t.reader).0

  abbrev pub progress_of : Topic F → TopicProgress
  progress_of t = (process_topic cfg t.seek_fails t.reader).1

  abbrev pub ending_of : Topic F → Ending
  ending_of t = (process_topic cfg t.seek_fails t.reader).2

  abbrev pub processed : List (Topic F) → ℕ
  processed [] = 0
  processed (t ∷ ts) = (progress_of t).messages_processed + processed ts

-- A topic whose reader gives the messages of a partition, as Kafka keeps them, and then times out.
pub record Delivers {F : Type 0} (t : Topic F) (log : List (Message F)) : Type 0 where
  pub seeks : t.seek_fails ≡ false
  pub gives : (seek : Seek) → t.reader seek ≡ deliveries (from seek log)
  pub grows : GrowFrom 0 log

-- The topics with their partitions.
abbrev pub AllDeliver : {F : Type 0} → List (Topic F) → List (List (Message F)) → Type 0
AllDeliver [] [] = Unit
AllDeliver [] (log ∷ logs) = ⊥
AllDeliver (t ∷ ts) [] = ⊥
AllDeliver (t ∷ ts) (log ∷ logs) = Delivers t log × AllDeliver ts logs

module _ {F : Type 0} (cfg : Config) where
  -- The messages of the configured range, topic by topic.
  abbrev pub ranges : List (List (Message F)) → List (List (Message F))
  ranges = map (range_of cfg)

  topic-Delivers :
      (t : Topic F) (log : List (Message F))
      → Delivers t log
      → (submitted_by cfg t ≡ range_of cfg log)
        × ((progress_of cfg t).messages_processed ≡ length (submitted_by cfg t))
  topic-Delivers t log h =
      let done = process_topic_lem cfg t.reader log h.gives h.grows in
      subst
        (λ (b : Bool).
          let (submitted, progress, end) = process_topic cfg b t.reader in
          (submitted ≡ range_of cfg log) × (progress.messages_processed ≡ length submitted))
        (sym h.seeks) (done.0, done.2)

  pub topics_deliver :
      (ts : List (Topic F)) (logs : List (List (Message F)))
      → AllDeliver ts logs
      → (map (submitted_by cfg) ts ≡ ranges logs)
        × (processed cfg ts ≡ total (map (submitted_by cfg) ts))
  topics_deliver [] [] h = (refl, refl)
  topics_deliver [] (log ∷ logs) h = absurd h
  topics_deliver (t ∷ ts) [] h = absurd h
  topics_deliver (t ∷ ts) (log ∷ logs) h =
      let (sent, counted) = topic-Delivers t log h.0 in
      let (rest, counts) = topics_deliver ts logs h.1 in
      (λ i. sent i ∷ rest i, omega (arith, counted, counts))
