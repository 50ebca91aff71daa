-- ===== src/BatchWriter.antt =====
-- services/weatherlink-sql/repository/batch_writer.go. The three kinds of record have one code; a
-- `Slot` is what that code reads and writes of the writer for one kind. The mutex is released
-- during the COPY, so a flush is two steps, `begin_flush` and `finish_flush`.
pub mod Schedule
pub mod Conservation
pub mod Flushes
pub mod Direct
use roach.Base.{
  ℕ, ◌+◌, Bool, List, [], ◌∷◌, ◌++◌, Option, none, some, length, leb, if◌then◌else◌, Result, ok,
  err, Text,
}
use roach.Tables.{Row, Stage, copy_records}

pub record Slot (V : Type 0) : Type 0 where
  pub batch : List (Row V)
  pub flush_size : ℕ
  pub last_flush : ℕ
  pub total_inserts : ℕ
  pub total_flushes : ℕ

module _ {V : Type 0} where
  -- flushXLocked up to the release of the mutex: the batch that is to be written, if there is one.
  unfoldable pub begin_flush : Slot V → Option (List (Row V)) × Slot V
  begin_flush s = elim s.batch [
    | [] ↦ (none, s)
    | r ∷ rest ↦ (some (r ∷ rest), record s { batch = [] })
  ]

  -- flushXLocked once the mutex is held again: an error is reported and counts nothing.
  unfoldable pub finish_flush :
      ℕ → List (Row V) → Result Stage (List (Row V)) → Slot V → Slot V × Option Stage
  finish_flush now written (err e) s = (s, some e)
  finish_flush now written (ok table) s = (
    record s {
      total_inserts = s.total_inserts + length written;
      total_flushes = s.total_flushes + 1;
      last_flush = now;
    },
    none,
  )

  -- The table after a COPY: a failed one leaves it alone.
  unfoldable pub table_after : List (Row V) → Result Stage (List (Row V)) → List (Row V)
  table_after table (err e) = table
  table_after table (ok t) = t

  -- The whole of flushXLocked where nothing runs between its two steps.
  unfoldable pub flush_locked :
      (Stage → Bool) → ℕ → Slot V → List (Row V) → Slot V × List (Row V) × Option Stage
  flush_locked fails now s table =
      let (taken, s') = begin_flush s in
      elim taken [
        | none ↦ (s', table, none)
        | some written ↦
            let outcome = copy_records fails written table in
            let (s'', error) = finish_flush now written outcome s' in
            (s'', table_after table outcome, error)
      ]

  -- AddX up to the flush: the record is appended, and the size tested.
  unfoldable pub append_record : Row V → Slot V → Slot V × Bool
  append_record r s =
      let batch = s.batch ++ r ∷ [] in (record s { batch = batch }, leb s.flush_size (length batch))

  -- AddX
  unfoldable pub add :
      (Stage → Bool) → ℕ → Row V → Slot V → List (Row V) → Slot V × List (Row V) × Option Stage
  add fails now r s table =
      let (s', full) = append_record r s in
      if full then flush_locked fails now s' table else (s', table, none)

-- The writer. F is the type of float64.
pub record BatchWriter (F : Type 0) : Type 0 where
  pub numeric_batch : List (Row F)
  pub text_batch : List (Row Text)
  pub null_batch : List (Row (Unit {0}))
  pub flush_size : ℕ
  pub last_flush : ℕ
  pub total_numeric_inserts : ℕ
  pub total_text_inserts : ℕ
  pub total_null_inserts : ℕ
  pub total_flushes : ℕ

-- The three record tables.
pub record Database (F : Type 0) : Type 0 where
  pub records_numeric : List (Row F)
  pub records_text : List (Row Text)
  pub records_null : List (Row (Unit {0}))

abbrev pub State : Type 0 → Type 0
State F = BatchWriter F × Database F

abbrev pub errors_of : Option Stage → List Stage
errors_of none = []
errors_of (some e) = e ∷ []

module _ {F : Type 0} where
  unfoldable pub new_batch_writer : ℕ → ℕ → BatchWriter F
  new_batch_writer now flush_size = record {
    numeric_batch = [];
    text_batch = [];
    null_batch = [];
    flush_size = flush_size;
    last_flush = now;
    total_numeric_inserts = 0;
    total_text_inserts = 0;
    total_null_inserts = 0;
    total_flushes = 0;
  }

  abbrev pub numeric_slot : BatchWriter F → Slot F
  numeric_slot w = record {
    batch = w.numeric_batch;
    flush_size = w.flush_size;
    last_flush = w.last_flush;
    total_inserts = w.total_numeric_inserts;
    total_flushes = w.total_flushes;
  }

  abbrev pub text_slot : BatchWriter F → Slot Text
  text_slot w = record {
    batch = w.text_batch;
    flush_size = w.flush_size;
    last_flush = w.last_flush;
    total_inserts = w.total_text_inserts;
    total_flushes = w.total_flushes;
  }

  abbrev pub null_slot : BatchWriter F → Slot (Unit {0})
  null_slot w = record {
    batch = w.null_batch;
    flush_size = w.flush_size;
    last_flush = w.last_flush;
    total_inserts = w.total_null_inserts;
    total_flushes = w.total_flushes;
  }

  abbrev pub with_numeric : BatchWriter F → Slot F → BatchWriter F
  with_numeric w s = record w {
    numeric_batch = s.batch;
    last_flush = s.last_flush;
    total_numeric_inserts = s.total_inserts;
    total_flushes = s.total_flushes;
  }

  abbrev pub with_text : BatchWriter F → Slot Text → BatchWriter F
  with_text w s = record w {
    text_batch = s.batch;
    last_flush = s.last_flush;
    total_text_inserts = s.total_inserts;
    total_flushes = s.total_flushes;
  }

  abbrev pub with_null : BatchWriter F → Slot (Unit {0}) → BatchWriter F
  with_null w s = record w {
    null_batch = s.batch;
    last_flush = s.last_flush;
    total_null_inserts = s.total_inserts;
    total_flushes = s.total_flushes;
  }

  abbrev pub in_numeric : State F → Slot F × List (Row F) × Option Stage → State F × Option Stage
  in_numeric (w, db) (s, table, error) =
      ((with_numeric w s, record db { records_numeric = table }), error)

  abbrev pub in_text : State F → Slot Text × List (Row Text) × Option Stage → State F × Option Stage
  in_text (w, db) (s, table, error) = ((with_text w s, record db { records_text = table }), error)

  abbrev pub in_null :
      State F → Slot (Unit {0}) × List (Row (Unit {0})) × Option Stage → State F × Option Stage
  in_null (w, db) (s, table, error) = ((with_null w s, record db { records_null = table }), error)

  unfoldable pub add_numeric : (Stage → Bool) → ℕ → ℕ → F → ℕ → State F → State F × Option Stage
  add_numeric fails now tag value ts (w, db) =
      in_numeric (w, db)
        (add fails now (record { tag_id = tag; value = value; ts = ts }) (numeric_slot w)
          db.records_numeric)

  unfoldable pub add_text : (Stage → Bool) → ℕ → ℕ → Text → ℕ → State F → State F × Option Stage
  add_text fails now tag value ts (w, db) =
      in_text (w, db)
        (add fails now (record { tag_id = tag; value = value; ts = ts }) (text_slot w)
          db.records_text)

  unfoldable pub add_null : (Stage → Bool) → ℕ → ℕ → ℕ → State F → State F × Option Stage
  add_null fails now tag ts (w, db) =
      in_null (w, db)
        (add fails now (record { tag_id = tag; value = tt; ts = ts }) (null_slot w) db.records_null)

  unfoldable pub flush_numeric_locked : (Stage → Bool) → ℕ → State F → State F × Option Stage
  flush_numeric_locked fails now (w, db) =
      in_numeric (w, db) (flush_locked fails now (numeric_slot w) db.records_numeric)

  unfoldable pub flush_text_locked : (Stage → Bool) → ℕ → State F → State F × Option Stage
  flush_text_locked fails now (w, db) =
      in_text (w, db) (flush_locked fails now (text_slot w) db.records_text)

  unfoldable pub flush_null_locked : (Stage → Bool) → ℕ → State F → State F × Option Stage
  flush_null_locked fails now (w, db) =
      in_null (w, db) (flush_locked fails now (null_slot w) db.records_null)

  -- FlushAll tries the three kinds in turn, and collects the errors. Each kind has its own
  -- transaction, which fails on its own.
  unfoldable pub flush_all :
      (Stage → Bool) → (Stage → Bool) → (Stage → Bool) → ℕ → State F → State F × List Stage
  flush_all fails_numeric fails_text fails_null now s =
      let (s1, numeric_error) = flush_numeric_locked fails_numeric now s in
      let (s2, text_error) = flush_text_locked fails_text now s1 in
      let (s3, null_error) = flush_null_locked fails_null now s2 in
      (s3, errors_of numeric_error ++ errors_of text_error ++ errors_of null_error)

  -- GetMetrics and GetBatchSizes
  unfoldable pub get_metrics : BatchWriter F → ℕ × ℕ × ℕ × ℕ
  get_metrics w =
      (w.total_numeric_inserts, w.total_text_inserts, w.total_null_inserts, w.total_flushes)

  unfoldable pub get_batch_sizes : BatchWriter F → ℕ × ℕ × ℕ
  get_batch_sizes w = (length w.numeric_batch, length w.text_batch, length w.null_batch)
