-- ===== src/Pool/Routing/Recorded.antt =====
-- services/weatherlink-sql/service/worker_pool.go: which batch a record goes to.
use roach.Base.{
  ℕ, ◌+◌, ◌≡◌, ◌≢◌, refl, Text, Bool, true, false, Option, none, some, arith, length, if◌then◌else◌,
}
use roach.Tables.{Row, Stage}
use roach.BatchWriter.{numeric_slot, text_slot, null_slot, add_numeric, add_text, add_null}
use roach.Models.{Value, Tag, null, number, integer, string, boolean, array, object}
use roach.BatchWriter.Direct.{Works, add_ok}
use roach.Pool.{as_number, as_string, put_number, put_text, add_record_to_batch}
use roach.Pool.Parts.{World, Outside, put_state, is_numeric_type, is_text_type}

pub record Counts : Type 0 where
  pub numeric : ℕ
  pub text : ℕ
  pub nulls : ℕ

abbrev is_some : {A : Type 0} → Option A → Bool
is_some none = false
is_some (some a) = true

-- Records of each kind that wait in a batch or were counted as inserted.
abbrev pub recorded : {F : Type 0} → World F → Counts
recorded w = record {
  numeric = length w.writer.numeric_batch + w.writer.total_numeric_inserts;
  text = length w.writer.text_batch + w.writer.total_text_inserts;
  nulls = length w.writer.null_batch + w.writer.total_null_inserts;
}

-- The kind of record that a value gives under a data type, said by the type and the value alone.
pub data Kind : Type 0 where
  as_numeric as_text as_null rejected : Kind

abbrev pub numeric_kind : {F : Type 0} → Value F → Kind
numeric_kind null = as_null
numeric_kind (number x) = as_numeric
numeric_kind (integer n) = as_numeric
numeric_kind (string s) = rejected
numeric_kind (boolean b) = rejected
numeric_kind (array s) = rejected
numeric_kind (object s) = rejected

abbrev pub text_kind : {F : Type 0} → Value F → Kind
text_kind null = as_null
text_kind (number x) = rejected
text_kind (integer n) = rejected
text_kind (string s) = as_text
text_kind (boolean b) = rejected
text_kind (array s) = rejected
text_kind (object s) = rejected

abbrev pub other_kind : {F : Type 0} → Value F → Kind
other_kind null = as_null
other_kind (number x) = rejected
other_kind (integer n) = rejected
other_kind (string s) = rejected
other_kind (boolean b) = rejected
other_kind (array s) = rejected
other_kind (object s) = rejected

abbrev pub kind_of : {F : Type 0} → Text → Value F → Kind
kind_of t v =
    if is_numeric_type t
    then numeric_kind v
    else if is_text_type t
    then text_kind v
    else other_kind v

abbrev pub bump : Kind → Counts → Counts
bump as_numeric c = record c { numeric = c.numeric + 1 }
bump as_text c = record c { text = c.text + 1 }
bump as_null c = record c { nulls = c.nulls + 1 }
bump rejected c = c

module _ {F : Type 0} (o : Outside F) where
  put_number_counts :
      (fails : Stage → Bool) (works : Works fails) (tag : ℕ) (x : Option F) (ts : ℕ) (w : World F)
      → recorded (put_number o fails tag x ts w).0
        ≡ bump (if is_some x then as_numeric else rejected) (recorded w)
  unfolding put_number add_numeric
  put_number_counts fails works tag none ts w = refl
  put_number_counts fails works tag (some x) ts w =
      let r : Row F = record { tag_id = tag; value = x; ts = ts } in
      ground
        (arith, (add_ok fails works o.now r (numeric_slot w.writer) w.database.records_numeric).1)

  put_text_counts :
      (fails : Stage → Bool) (works : Works fails) (tag : ℕ) (x : Option Text) (ts : ℕ)
      (w : World F)
      → recorded (put_text o fails tag x ts w).0
        ≡ bump (if is_some x then as_text else rejected) (recorded w)
  unfolding put_text add_text
  put_text_counts fails works tag none ts w = refl
  put_text_counts fails works tag (some x) ts w =
      let r : Row Text = record { tag_id = tag; value = x; ts = ts } in
      ground (arith, (add_ok fails works o.now r (text_slot w.writer) w.database.records_text).1)

  add_null_counts :
      (fails : Stage → Bool) (works : Works fails) (tag ts : ℕ) (w : World F)
      → recorded (put_state w (add_null fails o.now tag ts (w.writer, w.database)).0)
        ≡ bump as_null (recorded w)
  unfolding add_null
  add_null_counts fails works tag ts w =
      let r : Row (Unit {0}) = record { tag_id = tag; value = tt; ts = ts } in
      ground (arith, (add_ok fails works o.now r (null_slot w.writer) w.database.records_null).1)

  -- While the database works, addRecordToBatch adds exactly one record, of the kind that the tag's
  -- data type and the value call for, or none if they do not fit.
  pub recorded-add_record_to_batch :
      (fails : Stage → Bool) (tag : Tag) (v : Value F) (ts : ℕ) (w : World F)
      → Works fails
      → recorded (add_record_to_batch o fails tag v ts w).0
        ≡ bump (kind_of tag.data_type v) (recorded w)
  unfolding add_record_to_batch
  recorded-add_record_to_batch fails tag null ts w works =
      ground (arith, add_null_counts fails works tag.id ts w)
  recorded-add_record_to_batch fails tag v ts w works = ground (
    arith,
    put_number_counts fails works tag.id (as_number o v) ts w,
    put_text_counts fails works tag.id (as_string o v) ts w,
  )

  -- A value that fits the tag's data type in no way leaves everything as it was, and is reported.
  pub add_record_to_batch_rejects :
      (fails : Stage → Bool) (tag : Tag) (v : Value F) (ts : ℕ) (w : World F)
      → kind_of tag.data_type v ≡ rejected
      → ((add_record_to_batch o fails tag v ts w).0 ≡ w)
        × ((add_record_to_batch o fails tag v ts w).1 ≢ none)
  unfolding add_record_to_batch put_number put_text
  add_record_to_batch_rejects fails tag null ts w h = absurd (ground arith)
  add_record_to_batch_rejects fails tag v ts w h = (ground arith, λ e. ground arith)
