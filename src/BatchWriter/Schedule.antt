-- ===== src/BatchWriter/Schedule.antt =====
-- batch_writer.go under concurrency: the workers, the background flusher and Close share one
-- writer, and the mutex is free while a COPY runs. An event is what happens between two releases
-- of the mutex; a schedule is any list of events. The ledger is kept beside the state to say what
-- became of each record; the code has nothing like it.
use roach.Base.{
  ℕ, zero, suc, Bool, List, [], ◌∷◌, ◌++◌, Option, none, some, if◌then◌else◌, Result, ok, err,
}
use roach.Tables.{Row, Stage, copy_records}
use roach.BatchWriter.{Slot, begin_flush, finish_flush, append_record}

pub record Shared (V : Type 0) : Type 0 where
  pub slot : Slot V
  pub table : List (Row V)
  -- Batches that were taken and whose COPY has not returned yet.
  pub in_flight : List (List (Row V))
  -- The ledger: what AddX was called with, what was written, and what a failed flush held.
  pub added : List (Row V)
  pub committed : List (Row V)
  pub lost : List (Row V)

pub data Event (V : Type 0) : Type 0 where
  -- A worker calls AddX.
  adds : Row V → Event V
  -- FlushAll comes to this kind of record.
  flushes : Event V
  -- The COPY of a batch in flight returns.
  returns : ℕ → (Stage → Bool) → ℕ → Event V

module _ {ℓ} {A : Type ℓ} where
  unfoldable pub pick : ℕ → List A → Option (A × List A)
  pick n [] = none
  pick zero (x ∷ xs) = some (x, xs)
  pick (suc n) (x ∷ xs) = elim (pick n xs) [ none ↦ none | some (y, rest) ↦ some (y, x ∷ rest) ]

module _ {V : Type 0} where
  -- The first step of a flush: the batch goes into flight.
  unfoldable pub start : Shared V → Shared V
  start s =
      let (taken, slot) = begin_flush s.slot in
      elim taken [
        | none ↦ record s { slot = slot }
        | some batch ↦ record s { slot = slot; in_flight = batch ∷ s.in_flight }
      ]

  unfoldable pub add_step : Row V → Shared V → Shared V
  add_step r s =
      let (slot, full) = append_record r s.slot in
      let s' : Shared V = record s { slot = slot; added = r ∷ s.added } in
      if full then start s' else s'

  -- The second step of a flush, with the ledger entry for its outcome.
  unfoldable pub settle : List (Row V) → Result Stage (List (Row V)) → Shared V → Shared V
  settle batch (err e) s = record s { lost = batch ++ s.lost }
  settle batch (ok t) s = record s { table = t; committed = s.committed ++ batch }

  unfoldable pub absorb :
      ℕ → List (Row V) → List (List (Row V)) → Result Stage (List (Row V)) → Shared V → Shared V
  absorb now batch rest outcome s =
      settle batch outcome
        (record s { slot = (finish_flush now batch outcome s.slot).0; in_flight = rest })

  unfoldable pub return_step : ℕ → (Stage → Bool) → ℕ → Shared V → Shared V
  return_step n fails now s = elim (pick n s.in_flight) [
    | none ↦ s
    | some (batch, rest) ↦ absorb now batch rest (copy_records fails batch s.table) s
  ]

  unfoldable pub step : Shared V → Event V → Shared V
  step s (adds r) = add_step r s
  step s flushes = start s
  step s (returns n fails now) = return_step n fails now s

  unfoldable pub run : Shared V → List (Event V) → Shared V
  run s [] = s
  run s (e ∷ es) = run (step s e) es

  -- A new writer over a table that holds some rows already.
  unfoldable pub start_of : ℕ → ℕ → List (Row V) → Shared V
  start_of now flush_size table = record {
    slot = record {
      batch = [];
      flush_size = flush_size;
      last_flush = now;
      total_inserts = 0;
      total_flushes = 0;
    };
    table = table;
    in_flight = [];
    added = [];
    committed = [];
    lost = [];
  }
