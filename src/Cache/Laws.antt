-- ===== src/Cache/Laws.antt =====
-- Reading the cache after writing it.
use roach.Base.{
  ℕ, Text, ◌≡◌, ◌^◌, ◌<◌, ap, ◌&&◌, ◌==◌, some, arith, text_beq, text_beq_iff, text_eq,
  if◌then◌else◌, Bool-eq_of_iff, ==_iff,
}
use roach.Base.Assoc.{lookup, insert, lookup-insert}
use roach.Base.Strings.{format_int}
use roach.Models.{Tag, FieldMetadata}
use roach.Cache.{
  Cache, tag_key, or_empty, get_tag, set_tag, get_catalog_metadata, set_catalog_metadata,
}
use roach.Cache.Keys.{tag_key-injective, format_int-injective}

tag_key_beq :
    (d d' : ℕ) (n n' : Text)
    → d < 2 ^ 64
    → d' < 2 ^ 64
    → text_beq (tag_key d n) (tag_key d' n') ≡ (d == d' && text_beq n n')
tag_key_beq d d' n n' h h' =
    Bool-eq_of_iff _ _
      (λ e.
        ground
          (arith, text_beq_iff n n', tag_key-injective d d' n n' h h' ((text_beq_iff _ _).0 e)))
      (λ e. (text_beq_iff (tag_key d n) (tag_key d' n')).1 (ground (arith, text_beq_iff n n')))

-- A tag is found under the device and the name that it was stored with, and storing it changes what
-- is found under no other pair.
pub get_tag-set_tag :
    {F : Type 0} (d d' : ℕ) (n n' : Text) (tag : Tag) (c : Cache F)
    → d < 2 ^ 64
    → d' < 2 ^ 64
    → get_tag d' n' (set_tag d n tag c)
      ≡ (if d == d' && text_beq n n' then some tag else get_tag d' n' c)
unfolding get_tag set_tag
get_tag-set_tag d d' n n' tag c h h' =
    rw (lookup-insert (tag_key d n) (tag_key d' n') tag c.tags, tag_key_beq d d' n n' h h')

format_int_beq :
    (a b : ℕ) → a < 2 ^ 64 → b < 2 ^ 64 → text_beq (format_int a) (format_int b) ≡ (a == b)
format_int_beq a b h k =
    Bool-eq_of_iff _ _ (λ e. (==_iff a b).1 (format_int-injective a b h k ((text_beq_iff _ _).0 e)))
      (λ e. (text_beq_iff _ _).1 (ap format_int ((==_iff a b).0 e)))

-- Catalog metadata that was stored under the text of a data structure type is found under its
-- number, and storing it changes what is found under no other triple.
pub get-set_catalog_metadata :
    {F : Type 0} (st st' ds ds' : ℕ) (f f' : Text) (m : FieldMetadata F) (c : Cache F)
    → st < 2 ^ 64
    → st' < 2 ^ 64
    → ds < 2 ^ 64
    → ds' < 2 ^ 64
    → get_catalog_metadata st' ds' f' (set_catalog_metadata st (format_int ds) f m c) ≡ (
        if st == st' && (ds == ds' && text_beq f f')
        then some m
        else get_catalog_metadata st' ds' f' c)
unfolding get_catalog_metadata set_catalog_metadata
get-set_catalog_metadata st st' ds ds' f f' m c h h' k k' =
    let structures = or_empty (lookup (format_int st) c.catalog) in
    let fields = or_empty (lookup (format_int ds) structures) in
    let stored = insert (format_int ds) (insert f m fields) structures in
    ground (
      arith,
      lookup-insert (format_int st) (format_int st') stored c.catalog,
      lookup-insert (format_int ds) (format_int ds') (insert f m fields) structures,
      lookup-insert f f' m fields,
      format_int_beq st st' h h',
      format_int_beq ds ds' k k',
    )
