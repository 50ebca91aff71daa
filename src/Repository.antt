-- ===== src/Repository.antt =====
-- services/weatherlink-sql/repository/tags.go and orphans.go: the statements on the tables tags and
-- orphaned_messages. Whether a statement fails is an argument. Timestamps that only say when a row
-- was touched (created_at, updated_at) are left out.
pub mod TagRows
use roach.Base.{
  ℕ, suc, Text, Bool, ◌&&◌, ◌==◌, List, [], ◌∷◌, ◌++◌, Option, none, some, text_beq, text_eq,
  if◌then◌else◌, map,
}
use roach.Base.Assoc.{insert}
use roach.Models.{Value, Object, Message, Tag}

pub record TagRow (F : Type 0) : Type 0 where
  pub id : ℕ
  pub device_id : ℕ
  pub tag_name : Text
  pub data_type : Text
  pub unit : Option Text
  pub description : Option Text
  pub metadata : Option (Object F)

-- COALESCE(a, b)
abbrev pub coalesce {ℓ} : {A : Type ℓ} → Option A → Option A → Option A
coalesce none b = b
coalesce (some a) b = some a

-- `metadata != nil && len(metadata) > 0`, the metadata that is stored.
abbrev pub stored_metadata : {F : Type 0} → Object F → Option (Object F)
stored_metadata [] = none
stored_metadata (m ∷ ms) = some (m ∷ ms)

abbrev pub is_tag : {F : Type 0} → ℕ → Text → TagRow F → Bool
is_tag device_id tag_name row = row.device_id == device_id && text_beq row.tag_name tag_name

module _ {F : Type 0} where
  -- ON CONFLICT (device_id, tag_name) DO UPDATE SET …
  unfoldable pub update_row : Text → Option Text → Option Text → Object F → TagRow F → TagRow F
  update_row data_type unit description metadata row = record row {
    data_type = data_type;
    unit = coalesce unit row.unit;
    description = coalesce description row.description;
    metadata = coalesce (stored_metadata metadata) row.metadata;
  }

  -- CreateOrUpdate on the rows; `next` is the id that a new row gets. The id of the row comes back.
  unfoldable pub upsert :
      ℕ
      → ℕ
      → Text
      → Text
      → Option Text
      → Option Text
      → Object F
      → List (TagRow F)
      → ℕ × List (TagRow F)
  upsert next device_id tag_name data_type unit description metadata [] = (
    next,
    record {
      id = next;
      device_id = device_id;
      tag_name = tag_name;
      data_type = data_type;
      unit = unit;
      description = description;
      metadata = stored_metadata metadata;
    }
        ∷ [],
  )
  upsert next device_id tag_name data_type unit description metadata (row ∷ rows) =
      let (id, rows') = upsert next device_id tag_name data_type unit description metadata rows in
      if is_tag device_id tag_name row
      then (row.id, update_row data_type unit description metadata row ∷ rows)
      else (id, row ∷ rows')

  -- The row of a tag.
  unfoldable pub find_row : ℕ → Text → List (TagRow F) → Option (TagRow F)
  find_row device_id tag_name [] = none
  find_row device_id tag_name (row ∷ rows) =
      if is_tag device_id tag_name row then some row else find_row device_id tag_name rows

  -- LoadAll selects id, device_id, tag_name and data_type.
  unfoldable pub load_all : List (TagRow F) → List Tag
  load_all = map λ row. record {
    id = row.id;
    device_id = row.device_id;
    tag_name = row.tag_name;
    data_type = row.data_type;
    unit = none;
    description = none;
  }

  -- Enrich: what is there stays, and only what is missing is filled in.
  unfoldable pub enrich : ℕ → Text → Text → Object F → List (TagRow F) → List (TagRow F)
  enrich tag_id unit description metadata = map λ row.
      if row.id == tag_id
      then record row {
        unit = coalesce row.unit (some unit);
        description = coalesce row.description (some description);
        metadata = coalesce row.metadata (some metadata);
      }
      else row

pub record Orphan (F : Type 0) : Type 0 where
  pub topic : Text
  pub partition : ℕ
  pub offset : ℕ
  pub lsid : ℕ
  pub timestamp : ℕ
  pub tag_name : Text
  pub reason : Text
  pub headers : List (Text × Text)
  pub body : Option (Object F)

-- The loop over the headers: a later one replaces an earlier one of its name.
abbrev headers_map : List (Text × Text) → List (Text × Text) → List (Text × Text)
headers_map m [] = m
headers_map m ((k, v) ∷ hs) = headers_map (insert k v m) hs

abbrev pub same_position : {F : Type 0} → Orphan F → Orphan F → Bool
same_position a b = text_beq a.topic b.topic && (a.partition == b.partition && a.offset == b.offset)

module _ {F : Type 0} where
  -- ON CONFLICT (topic, partition, "offset") DO UPDATE SET …: the last report of a message stays.
  unfoldable pub put_orphan : Orphan F → List (Orphan F) → List (Orphan F)
  put_orphan o [] = o ∷ []
  put_orphan o (q ∷ orphans) = if same_position q o then o ∷ orphans else q ∷ put_orphan o orphans

  unfoldable pub orphan_of : Message F → ℕ → ℕ → Text → Text → Orphan F
  orphan_of msg lsid timestamp tag_name reason = record {
    topic = msg.topic;
    partition = msg.partition;
    offset = msg.offset;
    lsid = lsid;
    timestamp = timestamp;
    tag_name = tag_name;
    reason = reason;
    headers = headers_map [] msg.headers;
    body = msg.body;
  }

  -- OrphanRepository.Save
  unfoldable pub save : Message F → ℕ → ℕ → Text → Text → List (Orphan F) → List (Orphan F)
  unfolding put_orphan
  save msg lsid timestamp tag_name reason orphans =
      put_orphan (orphan_of msg lsid timestamp tag_name reason) orphans
