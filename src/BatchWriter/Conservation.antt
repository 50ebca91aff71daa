-- ===== src/BatchWriter/Conservation.antt =====
-- No schedule of the writer loses a record without a failed flush, or makes one up.
use roach.Base.{
  ℕ, zero, suc, ◌+◌, ◌<◌, ◌≡◌, refl, ap, sym, ◌∙◌, Bool, List, [], ◌∷◌, ◌++◌, some, arith, length,
  count, flatten, count-append, length-append, Result, ok, err, inl, inr, Option-cases,
}
use roach.Tables.{Row, Stage, insert_row, insert_all, copy_records}
use roach.BatchWriter.{begin_flush, finish_flush, append_record}
use roach.BatchWriter.Schedule.{
  Shared, Event, adds, flushes, returns, pick, start, add_step, settle, absorb, return_step, step,
  run, start_of,
}

module _ {ℓ} {A : Type ℓ} (p : A → Bool) where
  count-pick :
      (n : ℕ) (xss : List (List A)) (xs : List A) (rest : List (List A))
      → pick n xss ≡ some (xs, rest)
      → count p (flatten xss) ≡ count p xs + count p (flatten rest)
  unfolding pick
  count-pick n [] xs rest h = cc
  count-pick zero (ys ∷ xss) xs rest h = ground (arith, count-append p ys (flatten xss))
  count-pick (suc n) (ys ∷ xss) xs rest h = elim (Option-cases (pick n xss)) [
    | inl e ↦ ground arith
    | inr ((zs, tail), e) ↦ ground (
      arith,
      count-append p ys (flatten xss),
      count-append p ys (flatten tail),
      count-pick n xss zs tail e,
    )
  ]

module _ {V : Type 0} where
  pub insert_all-append :
      (table xs ys : List (Row V))
      → insert_all table (xs ++ ys) ≡ insert_all (insert_all table xs) ys
  unfolding insert_all
  insert_all-append table [] ys = refl
  insert_all-append table (x ∷ xs) ys = insert_all-append (insert_row table x) xs ys

  -- A COPY writes the whole batch or nothing.
  pub copy_records_atomic :
      (fails : Stage → Bool) (rows table : List (Row V)) (t : List (Row V))
      → copy_records fails rows table ≡ ok t
      → t ≡ insert_all table rows
  unfolding copy_records
  copy_records_atomic fails rows table t h = ground arith

  return_cases {ℓ} :
      (P : Shared V → Type ℓ) (n : ℕ) (fails : Stage → Bool) (now : ℕ) (s : Shared V)
      → P s
      → ((batch : List (Row V)) (rest : List (List (Row V)))
          → pick n s.in_flight ≡ some (batch, rest)
          → P (absorb now batch rest (copy_records fails batch s.table) s))
      → P (return_step n fails now s)
  unfolding return_step
  return_cases P n fails now s idle landed = elim (Option-cases (pick n s.in_flight)) [
    | inl e ↦ rw (e, return_step) idle
    | inr ((batch, rest), e) ↦ rw (e, return_step) (landed batch rest e)
  ]

  -- How many records that pass a test are in the batch, in flight, written and lost.
  abbrev pub accounted : (Row V → Bool) → Shared V → ℕ
  accounted p s =
      count p s.slot.batch + count p (flatten s.in_flight) + count p s.committed + count p s.lost

  module _ (p : Row V → Bool) where
    start-accounted : (s : Shared V) → accounted p (start s) ≡ accounted p s
    unfolding start begin_flush
    start-accounted s = by_batch s.slot.batch refl
      where
        by_batch : (b : List (Row V)) → s.slot.batch ≡ b → accounted p (start s) ≡ accounted p s
        by_batch [] e = ground arith
        by_batch (r ∷ rest) e = ground (arith, count-append p (r ∷ rest) (flatten s.in_flight))

    -- AddX accounts for its record, whether it flushes or not.
    add_step-accounted :
        (r : Row V) (s : Shared V) → accounted p (add_step r s) ≡ accounted p s + count p (r ∷ [])
    unfolding add_step append_record
    add_step-accounted r s = ground (
      arith,
      count-append p s.slot.batch (r ∷ []),
      start-accounted (record s {
        slot = record (s.slot) { batch = s.slot.batch ++ r ∷ [] };
        added = r ∷ s.added;
      }),
    )

    absorb-accounted :
        (now : ℕ) (batch : List (Row V)) (rest : List (List (Row V)))
        (outcome : Result Stage (List (Row V))) (s : Shared V)
        → count p (flatten s.in_flight) ≡ count p batch + count p (flatten rest)
        → accounted p (absorb now batch rest outcome s) ≡ accounted p s
    unfolding absorb settle finish_flush
    absorb-accounted now batch rest (err e) s h = ground (arith, count-append p batch s.lost)
    absorb-accounted now batch rest (ok t) s h = ground (arith, count-append p s.committed batch)

    return_step-accounted :
        (n : ℕ) (fails : Stage → Bool) (now : ℕ) (s : Shared V)
        → accounted p (return_step n fails now s) ≡ accounted p s
    return_step-accounted n fails now s =
        return_cases (λ t. accounted p t ≡ accounted p s) n fails now s refl
          λ batch rest e.
            absorb-accounted now batch rest _ s (count-pick p n s.in_flight batch rest e)

-- What holds between any two events of a writer that began over the rows of `table`.
pub record IsSound {V : Type 0} (table : List (Row V)) (s : Shared V) : Type 0 where
  -- Every record that AddX was called with is in the batch, in flight, written or lost, as often.
  pub conserved : (p : Row V → Bool) → accounted p s ≡ count p s.added
  -- No batch waits once it has reached the flush size.
  pub bounded : length s.slot.batch < s.slot.flush_size
  -- The metric counts the records that were written.
  pub counted : s.slot.total_inserts ≡ length s.committed
  -- The table holds what was written, in the order of the commits.
  pub written : s.table ≡ insert_all table s.committed

module _ {V : Type 0} (table : List (Row V)) where
  start-bounded :
      (s : Shared V)
      → 0 < s.slot.flush_size
      → length (start s).slot.batch < (start s).slot.flush_size
  unfolding start begin_flush
  start-bounded s h = by_batch s.slot.batch refl
    where
      by_batch :
          (b : List (Row V))
          → s.slot.batch ≡ b
          → length (start s).slot.batch < (start s).slot.flush_size
      by_batch [] e = ground arith
      by_batch (r ∷ rest) e = ground arith

  start_keeps :
      (s : Shared V)
      → ((start s).added ≡ s.added)
        × ((start s).committed ≡ s.committed)
        × ((start s).table ≡ s.table)
        × ((start s).slot.total_inserts ≡ s.slot.total_inserts)
  unfolding start begin_flush
  start_keeps s = by_batch s.slot.batch refl
    where
      by_batch :
          (b : List (Row V))
          → s.slot.batch ≡ b
          → ((start s).added ≡ s.added)
            × ((start s).committed ≡ s.committed)
            × ((start s).table ≡ s.table)
            × ((start s).slot.total_inserts ≡ s.slot.total_inserts)
      by_batch [] e = ground arith
      by_batch (r ∷ rest) e = ground arith

  start-IsSound : (s : Shared V) → IsSound table s → IsSound table (start s)
  start-IsSound s v = record {
    conserved = λ p. start-accounted p s ∙ v.conserved p ∙ ap (count p) (sym (start_keeps s).0);
    bounded = start-bounded s (omega (arith, v.bounded));
    counted = ground (arith, start_keeps s);
    written = ground (arith, start_keeps s);
  }

  abbrev appended : Row V → Shared V → Shared V
  appended r s = record s {
    slot = record (s.slot) { batch = s.slot.batch ++ r ∷ [] };
    added = r ∷ s.added;
  }

  added-add_step : (r : Row V) (s : Shared V) → (add_step r s).added ≡ r ∷ s.added
  unfolding add_step append_record
  added-add_step r s = ground (arith, start_keeps (appended r s))

  add_step-IsSound : (r : Row V) (s : Shared V) → IsSound table s → IsSound table (add_step r s)
  unfolding add_step append_record
  add_step-IsSound r s v = record {
    conserved = λ p.
        omega (arith, add_step-accounted p r s, v.conserved p, ap (count p) (added-add_step r s));
    bounded =
        ground
          (arith, v.bounded, length-append s.slot.batch (r ∷ []), start-bounded (appended r s));
    counted = ground (arith, start_keeps (appended r s));
    written = ground (arith, start_keeps (appended r s));
  }

  absorb-IsSound :
      (now : ℕ) (batch : List (Row V)) (rest : List (List (Row V)))
      (outcome : Result Stage (List (Row V))) (s : Shared V)
      → ((p : Row V → Bool)
          → count p (flatten s.in_flight) ≡ count p batch + count p (flatten rest))
      → ((t : List (Row V)) → outcome ≡ ok t → t ≡ insert_all s.table batch)
      → IsSound table s
      → IsSound table (absorb now batch rest outcome s)
  unfolding absorb settle finish_flush
  absorb-IsSound now batch rest (err e) s h k v = record {
    conserved = λ p. absorb-accounted p now batch rest (err e) s (h p) ∙ v.conserved p;
    bounded = v.bounded;
    counted = v.counted;
    written = v.written;
  }
  absorb-IsSound now batch rest (ok t) s h k v = record {
    conserved = λ p. absorb-accounted p now batch rest (ok t) s (h p) ∙ v.conserved p;
    bounded = v.bounded;
    counted = ground (arith, v.counted, length-append s.committed batch);
    written =
        k t refl
        ∙ ap (λ u. insert_all u batch) v.written
        ∙ sym (insert_all-append table s.committed batch);
  }

  start_of-IsSound :
      (now flush_size : ℕ) → 0 < flush_size → IsSound table (start_of now flush_size table)
  unfolding start_of insert_all
  start_of-IsSound now flush_size h = record {
    conserved = λ p. refl;
    bounded = h;
    counted = refl;
    written = refl;
  }

  step-IsSound : (s : Shared V) (e : Event V) → IsSound table s → IsSound table (step s e)
  unfolding step
  step-IsSound s (adds r) v = add_step-IsSound r s v
  step-IsSound s flushes v = start-IsSound s v
  step-IsSound s (returns n fails now) v =
      return_cases (IsSound table) n fails now s v λ batch rest e.
        absorb-IsSound now batch rest (copy_records fails batch s.table) s
          (λ p. count-pick p n s.in_flight batch rest e) (copy_records_atomic fails batch s.table) v

  run-IsSound : (s : Shared V) (es : List (Event V)) → IsSound table s → IsSound table (run s es)
  unfolding run
  run-IsSound s [] v = v
  run-IsSound s (e ∷ es) v = run-IsSound (step s e) es (step-IsSound s e v)

-- Whatever the workers, the background flusher and the database do, and in whatever order, a
-- writer with a positive flush size that began over the rows of `table` has every record that was
-- added in its batch, in flight, written or lost to a failed flush, as often as it was added; its
-- batch is below the flush size; its insert metric counts the written records; and the table is
-- the old one with the written records inserted in the order of the commits.
pub run-start_of-IsSound :
    {V : Type 0} (table : List (Row V)) (now flush_size : ℕ) (es : List (Event V))
    → 0 < flush_size
    → IsSound table (run (start_of now flush_size table) es)
run-start_of-IsSound table now flush_size es h =
    run-IsSound table _ es (start_of-IsSound table now flush_size h)
