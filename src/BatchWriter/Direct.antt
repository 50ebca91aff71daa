-- ===== src/BatchWriter/Direct.antt =====
-- While the database works, batching is invisible: records.go's one INSERT per record and the
-- batched COPY leave the same table.
use roach.Base.{
  ℕ, ◌+◌, ◌≡◌, refl, ap, sym, ◌∙◌, Bool, false, List, [], ◌∷◌, ◌++◌, none, arith, length, leb, ok,
  length-append, Bool-cases, inl, inr,
}
use roach.Tables.{
  Row, Stage, begin, create_temp, copy_from, insert_from_temp, commit, insert_row, insert_all,
  copy_records,
}
use roach.BatchWriter.{
  Slot, begin_flush, finish_flush, table_after, flush_locked, append_record, add,
}
use roach.BatchWriter.Conservation.{insert_all-append}

-- No stage of the transaction fails.
abbrev pub Works : (Stage → Bool) → Type 0
Works fails = (st : Stage) → fails st ≡ false

abbrev pub slot_count : {V : Type 0} → Slot V → ℕ
slot_count s = length s.batch + s.total_inserts

insert_all_nil : {V : Type 0} (table : List (Row V)) → insert_all table [] ≡ table
unfolding insert_all
insert_all_nil table = refl

module _ {V : Type 0} (fails : Stage → Bool) (works : Works fails) where
  copy_records_ok :
      (rows table : List (Row V)) → copy_records fails rows table ≡ ok (insert_all table rows)
  unfolding copy_records
  copy_records_ok rows table =
      ground (
        arith,
        works begin,
        works create_temp,
        works copy_from,
        works insert_from_temp,
        works commit,
      )

  -- What a flush leaves: no batch, no error, the counts, and the batch's rows in the table.
  abbrev Flushed : ℕ → Slot V → List (Row V) → Type 0
  Flushed now s table =
      let (s', table', error) = flush_locked fails now s table in
      (error ≡ none)
      × (slot_count s' ≡ slot_count s)
      × (s'.batch ≡ [])
      × (table' ≡ insert_all table s.batch)

  pub flush_locked_ok : (now : ℕ) (s : Slot V) (table : List (Row V)) → Flushed now s table
  unfolding flush_locked begin_flush finish_flush table_after insert_all
  flush_locked_ok now s table = by_batch s.batch refl
    where
      by_batch : (b : List (Row V)) → s.batch ≡ b → Flushed now s table
      by_batch [] e = (ground arith, ground arith, ground arith, ground arith)
      by_batch (r ∷ rest) e =
          let done = copy_records_ok (r ∷ rest) table in
          (ground (arith, done), ground (arith, done), ground (arith, done), ground (arith, done))

  -- The table as it will be once the batch is in it.
  abbrev pub settled : Slot V → List (Row V) → List (Row V)
  settled s table = insert_all table s.batch

  abbrev Added : ℕ → Row V → Slot V → List (Row V) → Type 0
  Added now r s table =
      let (s', table', error) = add fails now r s table in
      (error ≡ none)
      × (slot_count s' ≡ slot_count s + 1)
      × (settled s' table' ≡ insert_row (settled s table) r)

  settled_snoc :
      (s : Slot V) (table : List (Row V)) (r : Row V)
      → insert_all table (s.batch ++ r ∷ []) ≡ insert_row (settled s table) r
  settled_snoc s table r = insert_all-append table s.batch (r ∷ []) ∙ unfold insert_all in refl

  pub add_ok : (now : ℕ) (r : Row V) (s : Slot V) (table : List (Row V)) → Added now r s table
  unfolding add append_record
  add_ok now r s table =
      let s' : Slot V = record s { batch = s.batch ++ r ∷ [] } in
      let (no_error, kept, emptied, stored) = flush_locked_ok now s' table in
      elim (Bool-cases (leb s.flush_size (length (s.batch ++ r ∷ [])))) [
        | inl full ↦ (
          rw (full, add) no_error,
          rw (full, add) (omega (arith, kept, length-append s.batch (r ∷ []))),
          rw (full, add)
              (ap (insert_all _) emptied ∙ insert_all_nil _ ∙ stored ∙ settled_snoc s table r),
        )
        | inr room ↦ (
          rw (room, add),
          rw (room, add) (omega (arith, length-append s.batch (r ∷ []))),
          rw (room, add) (settled_snoc s table r),
        )
      ]

  unfoldable pub adds : ℕ → List (Row V) → Slot V → List (Row V) → Slot V × List (Row V)
  adds now [] s table = (s, table)
  adds now (r ∷ rows) s table =
      let (s', table', error) = add fails now r s table in adds now rows s' table'

  -- RecordRepository.Insert, once for each record.
  abbrev pub inserts : List (Row V) → List (Row V) → List (Row V)
  inserts table [] = table
  inserts table (r ∷ rows) = inserts (insert_row table r) rows

  inserts-insert_all : (table rows : List (Row V)) → insert_all table rows ≡ inserts table rows
  unfolding insert_all
  inserts-insert_all table [] = refl
  inserts-insert_all table (r ∷ rows) = inserts-insert_all (insert_row table r) rows

  adds-settled :
      (now : ℕ) (rows : List (Row V)) (s : Slot V) (table : List (Row V))
      → let (s', table') = adds now rows s table in
        settled s' table' ≡ inserts (settled s table) rows
  unfolding adds
  adds-settled now [] s table = refl
  adds-settled now (r ∷ rows) s table =
      let (s', table', error) = add fails now r s table in
      adds-settled now rows s' table' ∙ ap (λ t. inserts t rows) (add_ok now r s table).2

  -- If no statement fails, any number of AddX followed by one flush leaves the table that inserting
  -- the waiting and the new records one by one leaves, whatever the flush size is.
  pub adds-flush-inserts :
      (now : ℕ) (rows : List (Row V)) (s : Slot V) (table : List (Row V))
      → let (s', table') = adds now rows s table in
        (flush_locked fails now s' table').1 ≡ inserts table (s.batch ++ rows)
  adds-flush-inserts now rows s table =
      let (s', table') = adds now rows s table in
      (flush_locked_ok now s' table').3
      ∙ adds-settled now rows s table
      ∙ sym (inserts-insert_all (settled s table) rows)
      ∙ sym (insert_all-append table s.batch rows)
      ∙ inserts-insert_all table (s.batch ++ rows)
