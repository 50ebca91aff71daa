-- ===== src/Tables.antt =====
-- The record tables as services/weatherlink-sql/repository writes them: the COPY transaction of
-- batch_writer.go, and its INSERT with ON CONFLICT (tag_id, ts) DO NOTHING. PostgreSQL is outside
-- the source: which stage of a transaction fails is an argument.
pub mod Conflicts
use roach.Base.{
  ℕ, Bool, true, false, ◌&&◌, List, [], ◌∷◌, ◌++◌, Option, none, some, ◌==◌, if◌then◌else◌, Result,
  ok, err, ◌>>=◌, ◌>>◌, fail_if,
}

-- A row of records_numeric, records_text or records_null, and the record that becomes one.
pub record Row (V : Type 0) : Type 0 where
  pub tag_id : ℕ
  pub value : V
  pub ts : ℕ

abbrev pub same_key : {V : Type 0} → Row V → Row V → Bool
same_key r q = r.tag_id == q.tag_id && r.ts == q.ts

module _ {V : Type 0} where
  -- The value that the table holds under a key.
  unfoldable pub value_at : ℕ → ℕ → List (Row V) → Option V
  value_at tag ts [] = none
  value_at tag ts (r ∷ table) =
      if r.tag_id == tag && r.ts == ts then some r.value else value_at tag ts table

  -- INSERT … ON CONFLICT (tag_id, ts) DO NOTHING, for one row.
  unfoldable pub insert_row : List (Row V) → Row V → List (Row V)
  insert_row [] r = r ∷ []
  insert_row (q ∷ table) r = if same_key q r then q ∷ table else q ∷ insert_row table r

  -- INSERT … SELECT … FROM temp, which also drops the duplicates within the batch.
  unfoldable pub insert_all : List (Row V) → List (Row V) → List (Row V)
  insert_all table [] = table
  insert_all table (r ∷ rows) = insert_all (insert_row table r) rows

-- Where copyNumericRecords and its siblings return an error.
pub data Stage : Type 0 where
  begin create_temp copy_from insert_from_temp commit : Stage

module _ {V : Type 0} where
  -- The whole transaction: a temporary table, COPY into it, the insert, the commit. An error at any
  -- stage is followed by the deferred Rollback, so the table stays as it was.
  unfoldable pub copy_records :
      (Stage → Bool) → List (Row V) → List (Row V) → Result Stage (List (Row V))
  copy_records fails records table = do
    fail_if (fails begin) begin
    fail_if (fails create_temp) create_temp
    fail_if (fails copy_from) copy_from
    let temp = records
    fail_if (fails insert_from_temp) insert_from_temp
    let staged = insert_all table temp
    fail_if (fails commit) commit
    ok staged
