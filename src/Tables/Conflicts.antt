-- ===== src/Tables/Conflicts.antt =====
-- What ON CONFLICT DO NOTHING means for a table: the first value under a key stays.
use roach.Base.{
  ℕ, ◌≡◌, refl, List, [], ◌∷◌, Option, none, some, arith, Option-cases, inl, inr, ◌==◌,
  if◌then◌else◌, ◌&&◌,
}
use roach.Tables.{Row, value_at, insert_row, insert_all}

-- The value that stays under a key: the one that is there, else the new one.
abbrev pub or_else : {V : Type 0} → Option V → Option V → Option V
or_else none b = b
or_else (some a) b = some a

module _ {V : Type 0} where
  pub value_at-insert_row :
      (table : List (Row V)) (r : Row V) (tag ts : ℕ)
      → value_at tag ts (insert_row table r)
        ≡ or_else
            (value_at tag ts table)
            (if r.tag_id == tag && r.ts == ts then some r.value else none)
  unfolding value_at insert_row
  value_at-insert_row [] r tag ts = ground arith
  value_at-insert_row (q ∷ table) r tag ts = ground (arith, value_at-insert_row table r tag ts)

  or_else_assoc : (a b c : Option V) → or_else (or_else a b) c ≡ or_else a (or_else b c)
  or_else_assoc none b c = refl
  or_else_assoc (some a) b c = refl

  -- A batch is one list of first values after the table's own.
  pub value_at-insert_all :
      (table rows : List (Row V)) (tag ts : ℕ)
      → value_at tag ts (insert_all table rows)
        ≡ or_else (value_at tag ts table) (value_at tag ts rows)
  unfolding insert_all value_at
  value_at-insert_all table [] tag ts = ground arith
  value_at-insert_all table (r ∷ rows) tag ts = ground (
    arith,
    value_at-insert_all (insert_row table r) rows tag ts,
    value_at-insert_row table r tag ts,
  )

  -- A row whose key is taken changes nothing.
  pub insert_row_taken :
      (table : List (Row V)) (r : Row V) (v : V)
      → value_at r.tag_id r.ts table ≡ some v
      → insert_row table r ≡ table
  unfolding value_at insert_row
  insert_row_taken [] r v h = ground arith
  insert_row_taken (q ∷ table) r v h = ground (arith, insert_row_taken table r v)

  -- Every key of the batch is taken in the table.
  abbrev pub Taken : List (Row V) → List (Row V) → Type 0
  Taken table [] = Unit {0}
  Taken table (r ∷ rows) = ((v : V) × (value_at r.tag_id r.ts table ≡ some v)) × Taken table rows

  pub insert_all-Taken' :
      (table rows : List (Row V)) → Taken table rows → insert_all table rows ≡ table
  unfolding insert_all
  insert_all-Taken' table [] t = refl
  insert_all-Taken' table (r ∷ rows) t =
      rw (insert_row_taken table r t.0.0 t.0.1) (insert_all-Taken' table rows t.1)

  -- A key stays taken.
  pub Taken-mono :
      (table rows more : List (Row V)) → Taken table rows → Taken (insert_all table more) rows
  Taken-mono table [] more t = tt
  Taken-mono table (r ∷ rows) more t = (
    (t.0.0, rw (value_at-insert_all table more r.tag_id r.ts, t.0.1)),
    Taken-mono table rows more t.1,
  )

  insert_row_takes :
      (table : List (Row V)) (r : Row V)
      → (v : V) × (value_at r.tag_id r.ts (insert_row table r) ≡ some v)
  insert_row_takes table r = elim (Option-cases (value_at r.tag_id r.ts table)) [
    | inl free ↦ (r.value, ground (arith, value_at-insert_row table r r.tag_id r.ts))
    | inr (v, taken) ↦ (v, ground (arith, value_at-insert_row table r r.tag_id r.ts))
  ]

  pub insert_all-Taken : (table rows : List (Row V)) → Taken (insert_all table rows) rows
  unfolding insert_all
  insert_all-Taken table [] = tt
  insert_all-Taken table (r ∷ rows) = (
    (Taken-mono (insert_row table r) (r ∷ []) rows (insert_row_takes table r, tt)).0,
    insert_all-Taken (insert_row table r) rows,
  )

  -- Writing a batch once more changes nothing.
  pub insert_all_twice :
      (table rows : List (Row V)) → insert_all (insert_all table rows) rows ≡ insert_all table rows
  insert_all_twice table rows =
      insert_all-Taken' (insert_all table rows) rows (insert_all-Taken table rows)
