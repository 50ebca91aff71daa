-- ===== src/BatchWriter/Flushes.antt =====
-- What one flush does, and FlushAll over the three kinds of record.
use roach.Base.{ℕ, ◌≡◌, ◌≢◌, refl, ◌∙◌, Bool, true, List, [], ◌∷◌, none, arith, Result, ok, err}
use roach.Tables.{
  Row, Stage, value_at, insert_all, copy_records, begin, create_temp, copy_from, insert_from_temp,
  commit,
}
use roach.Tables.Conflicts.{or_else, value_at-insert_all, insert_all_twice}
use roach.BatchWriter.Conservation.{copy_records_atomic}
use roach.BatchWriter.{
  Slot, BatchWriter, numeric_slot, text_slot, null_slot, with_numeric, with_text, Database,
  begin_flush, finish_flush, table_after, flush_locked, flush_numeric_locked, flush_text_locked,
  flush_null_locked, flush_all, get_batch_sizes,
}

module _ {V : Type 0} where
  -- What flush_locked leaves in the table.
  abbrev pub written : (Stage → Bool) → List (Row V) → List (Row V) → List (Row V)
  written fails table rows = table_after table (copy_records fails rows table)

  -- One failing stage undoes the whole COPY.
  copy_fails :
      (fails : Stage → Bool) (st : Stage) (rows table : List (Row V))
      → fails st ≡ true
      → (written fails table rows ≡ table)
        × ((t : List (Row V)) → copy_records fails rows table ≢ ok t)
  unfolding copy_records table_after
  copy_fails fails begin rows table h = (ground arith, λ t e. ground arith)
  copy_fails fails create_temp rows table h = (ground arith, λ t e. ground arith)
  copy_fails fails copy_from rows table h = (ground arith, λ t e. ground arith)
  copy_fails fails insert_from_temp rows table h = (ground arith, λ t e. ground arith)
  copy_fails fails commit rows table h = (ground arith, λ t e. ground arith)

  written_nil : (fails : Stage → Bool) (table : List (Row V)) → written fails table [] ≡ table
  unfolding table_after copy_records insert_all
  written_nil fails table = ground arith

  batch-finish_flush :
      (now : ℕ) (rows : List (Row V)) (o : Result Stage (List (Row V))) (s : Slot V)
      → (finish_flush now rows o s).0.batch ≡ s.batch
  unfolding finish_flush
  batch-finish_flush now rows (ok t) s = refl
  batch-finish_flush now rows (err e) s = refl

  flush_locked_cases :
      (fails : Stage → Bool) (now : ℕ) (s : Slot V) (table : List (Row V))
      → ((flush_locked fails now s table).0.batch ≡ [])
        × ((flush_locked fails now s table).1 ≡ written fails table s.batch)
  unfolding flush_locked begin_flush
  flush_locked_cases fails now s table = by_batch s.batch refl
    where
      by_batch :
          (b : List (Row V))
          → s.batch ≡ b
          → ((flush_locked fails now s table).0.batch ≡ [])
            × ((flush_locked fails now s table).1 ≡ written fails table s.batch)
      by_batch [] e = ground (arith, written_nil fails table)
      by_batch (r ∷ rest) e = ground (
        arith,
        batch-finish_flush now (r ∷ rest) (copy_records fails (r ∷ rest) table)
            (record s { batch = [] }),
      )

  -- A flush during which any stage of the transaction fails reports an error, leaves the table as
  -- it was, and still leaves the batch empty: its records are in neither place, and the metrics do
  -- not count them.
  pub flush_locked_drops :
      (fails : Stage → Bool) (st : Stage) (now : ℕ) (s : Slot V) (table : List (Row V))
      → fails st ≡ true
      → s.batch ≢ []
      → let (s', table', error) = flush_locked fails now s table in
        (s'.batch ≡ [])
        × (table' ≡ table)
        × (error ≢ none)
        × (s'.total_inserts ≡ s.total_inserts)
        × (s'.total_flushes ≡ s.total_flushes)
  unfolding flush_locked begin_flush finish_flush table_after
  flush_locked_drops fails st now s table f nonempty = by_batch s.batch refl
    where
      Drops : Type 0
      Drops =
          let (s', table', error) = flush_locked fails now s table in
          (s'.batch ≡ [])
          × (table' ≡ table)
          × (error ≢ none)
          × (s'.total_inserts ≡ s.total_inserts)
          × (s'.total_flushes ≡ s.total_flushes)

      by_outcome :
          (r : Row V) (rest : List (Row V)) (o : Result Stage (List (Row V)))
          → s.batch ≡ r ∷ rest
          → copy_records fails (r ∷ rest) table ≡ o
          → Drops
      by_outcome r rest (ok t) e o = absurd ((copy_fails fails st (r ∷ rest) table f).1 t o)
      by_outcome r rest (err x) e o =
          (ground arith, ground arith, λ h. ground arith, ground arith, ground arith)

      by_batch : (b : List (Row V)) → s.batch ≡ b → Drops
      by_batch [] e = absurd (nonempty e)
      by_batch (r ∷ rest) e = by_outcome r rest (copy_records fails (r ∷ rest) table) e refl

  -- After a COPY that commits, the table holds under each key the value it held before, or else the
  -- first value of the batch under that key; and writing the batch again, in a transaction that
  -- commits too, changes nothing.
  pub copy_records_first_wins :
      (fails fails' : Stage → Bool) (rows table t u : List (Row V))
      → copy_records fails rows table ≡ ok t
      → copy_records fails' rows t ≡ ok u
      → ((tag ts : ℕ) → value_at tag ts t ≡ or_else (value_at tag ts table) (value_at tag ts rows))
        × (u ≡ t)
  copy_records_first_wins fails fails' rows table t u h k =
      let e = copy_records_atomic fails rows table t h in
      let e' = copy_records_atomic fails' rows t u k in
      (
        λ tag ts. rw e (value_at-insert_all table rows tag ts),
        e' ∙ rw e (insert_all_twice table rows),
      )

module _ {F : Type 0} where
  -- FlushAll leaves no record in any batch, and each table is what that kind's own transaction
  -- makes of it: a transaction that fails stops neither of the others.
  pub flush_all_lem :
      (fn ft fx : Stage → Bool) (now : ℕ) (w : BatchWriter F) (db : Database F)
      → let ((w', db'), errors) = flush_all fn ft fx now (w, db) in
        (get_batch_sizes w' ≡ (0, 0, 0))
        × (db'.records_numeric ≡ written fn db.records_numeric w.numeric_batch)
        × (db'.records_text ≡ written ft db.records_text w.text_batch)
        × (db'.records_null ≡ written fx db.records_null w.null_batch)
  unfolding flush_all flush_numeric_locked flush_text_locked flush_null_locked get_batch_sizes
  flush_all_lem fn ft fx now w db =
      let first = flush_locked_cases fn now (numeric_slot w) db.records_numeric in
      let w1 = with_numeric w (flush_locked fn now (numeric_slot w) db.records_numeric).0 in
      let second = flush_locked_cases ft now (text_slot w1) db.records_text in
      let w2 = with_text w1 (flush_locked ft now (text_slot w1) db.records_text).0 in
      let third = flush_locked_cases fx now (null_slot w2) db.records_null in
      (rw (first.0, second.0, third.0), first.1, second.1, third.1)
