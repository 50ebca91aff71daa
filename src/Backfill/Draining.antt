-- ===== src/Backfill/Draining.antt =====
-- processTopics of services/weatherlink-sql-backfill/service/backfill.go as a whole, where the topics
-- and the workers are goroutines whose steps follow each other in any order.
use roach.Base.{ℕ, Bool, List}
use roach.Tables.{Stage}
use roach.BatchWriter.{flush_all}
use roach.Pool.Parts.{World}
use roach.Pool.Crew.{Crew}
use roach.Backfill.Concurrent.{Event, run, idle}

module _ {F : Type 0} where
  -- The events of the topics and of the workers, and FlushAll after them. Its errors are logged.
  unfoldable pub drain :
      (Stage → Bool) → (Stage → Bool) → (Stage → Bool) → ℕ → List (Event F) → World F → Crew F
  drain fails_numeric fails_text fails_null now events w =
      let t = run (idle w) events in
      let (s, errors) =
        flush_all fails_numeric fails_text fails_null now (t.world.writer, t.world.database) in
      record t { world = record t.world { writer = s.0; database = s.1 } }
