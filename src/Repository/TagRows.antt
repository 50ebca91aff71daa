-- ===== src/Repository/TagRows.antt =====
-- The tags table under CreateOrUpdate.
use roach.Base.{
  ℕ, ◌≡◌, refl, Text, ◌&&◌, ◌==◌, List, [], ◌∷◌, Option, none, some, text_beq, text_beq_iff,
  if◌then◌else◌, arith,
}
use roach.Models.{Object}
use roach.Repository.{TagRow, stored_metadata, update_row, upsert, find_row}

module _ {F : Type 0} (next d : ℕ) (n data_type : Text) (unit description : Option Text)
    (metadata : Object F) where
  abbrev fresh : TagRow F
  fresh = record {
    id = next;
    device_id = d;
    tag_name = n;
    data_type = data_type;
    unit = unit;
    description = description;
    metadata = stored_metadata metadata;
  }

  abbrev pub after_upsert : Option (TagRow F) → TagRow F
  after_upsert none = fresh
  after_upsert (some row) = update_row data_type unit description metadata row

  -- CreateOrUpdate makes the row of its tag, or updates it and keeps its id; it returns the id of
  -- that row, and the rows of all other tags are what they were.
  pub find_row-upsert :
      (rows : List (TagRow F)) (d' : ℕ) (n' : Text)
      → let (id, rows') = upsert next d n data_type unit description metadata rows in
        (find_row d' n' rows' ≡ (
          if d == d' && text_beq n n'
          then some (after_upsert (find_row d n rows))
          else find_row d' n' rows))
        × (id ≡ (after_upsert (find_row d n rows)).id)
  unfolding upsert find_row update_row
  find_row-upsert [] d' n' = (ground arith, ground arith)
  find_row-upsert (row ∷ rows) d' n' =
      let (found, same) = find_row-upsert rows d' n' in
      (
        ground (
          arith,
          found,
          text_beq_iff n n',
          text_beq_iff row.tag_name n,
          text_beq_iff row.tag_name n',
        ),
        ground (arith, same),
      )

  pub data_type-after_upsert : (row : Option (TagRow F)) → (after_upsert row).data_type ≡ data_type
  unfolding update_row
  data_type-after_upsert none = refl
  data_type-after_upsert (some row) = refl
