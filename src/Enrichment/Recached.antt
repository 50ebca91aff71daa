-- ===== src/Enrichment/Recached.antt =====
-- services/weatherlink-sql/service/enrichment.go: what EnrichTags does to the cached tags.
use roach.Base.{
  ℕ, ◌^◌, ◌<◌, ◌==◌, ◌&&◌, ◌≡◌, refl, ap, sym, ◌∙◌, Text, Bool, true, false, List, [], ◌∷◌, Option,
  none, some, arith, text_beq, text_beq_iff, Bool-cases, inl, inr, if◌then◌else◌,
}
use roach.Models.{Tag, FieldMetadata}
use roach.Cache.{Cache, get_tag, set_tag, get_catalog_metadata}
use roach.Cache.Laws.{get_tag-set_tag}
use roach.Registry.{Registry}
use roach.Enrichment.{TagEnrichmentInfo, EnrichCalls, retag, enrich_with, entry_for, enrich_infos}

-- The device ids are bit patterns of 64 bits.
abbrev pub AllSmall : List TagEnrichmentInfo → Type 0
AllSmall [] = Unit
AllSmall (i ∷ infos) = (i.device_id < 2 ^ 64) × AllSmall infos

abbrev is_for : TagEnrichmentInfo → ℕ → Text → Bool
is_for i d n = i.device_id == d && text_beq i.tag_name n

module _ {F : Type 0} where
  abbrev or_else : Option (FieldMetadata F) → Option (FieldMetadata F) → Option (FieldMetadata F)
  or_else none b = b
  or_else (some m) b = some m

  abbrev own_entry :
      TagEnrichmentInfo → Option (FieldMetadata F) → ℕ → Text → Option (FieldMetadata F)
  own_entry i o d n = if is_for i d n then o else none

  -- The entry of the catalog for a tag of a device, where it is one of the tags to enrich.
  abbrev pub entry_among : List TagEnrichmentInfo → Cache F → ℕ → Text → Option (FieldMetadata F)
  entry_among [] c d n = none
  entry_among (i ∷ infos) c d n =
      or_else (entry_among infos c d n) (own_entry i (entry_for i c) d n)

  -- A cached tag with the unit and the description of an entry, and all else as it was.
  abbrev pub recached : Option (FieldMetadata F) → Option Tag → Option Tag
  recached none o = o
  recached (some m) none = none
  recached (some m) (some t) =
      some (record t { unit = some m.units; description = some m.description })

  recached-recached :
      (a b : Option (FieldMetadata F)) (o : Option Tag)
      → recached a (recached b o) ≡ recached (or_else a b) o
  recached-recached none b o = refl
  recached-recached (some m) none o = refl
  recached-recached (some m) (some m') none = refl
  recached-recached (some m) (some m') (some t) = refl

  entry_for-retag :
      (i j : TagEnrichmentInfo) (m : FieldMetadata F) (o : Option Tag) (c : Cache F)
      → entry_for i (retag m j.device_id j.tag_name o c) ≡ entry_for i c
  unfolding set_tag get_catalog_metadata
  entry_for-retag i j m none c = refl
  entry_for-retag i j m (some t) c = refl

  get_tag-at :
      (i : TagEnrichmentInfo) (c : Cache F) (d : ℕ) (n : Text)
      → is_for i d n ≡ true
      → get_tag d n c ≡ get_tag i.device_id i.tag_name c
  get_tag-at i c d n same =
      let d_is : i.device_id ≡ d = ground (arith, same) in
      let n_is : i.tag_name ≡ n = (text_beq_iff i.tag_name n).0 (ground (arith, same)) in
      sym (λ k. get_tag (d_is k) (n_is k) c)

  -- One UPDATE and its tag in the cache.
  get_tag-retag :
      (i : TagEnrichmentInfo) (m : FieldMetadata F) (c : Cache F) (d : ℕ) (n : Text)
      (o : Option Tag)
      → get_tag i.device_id i.tag_name c ≡ o
      → i.device_id < 2 ^ 64
      → d < 2 ^ 64
      → get_tag d n (retag m i.device_id i.tag_name o c)
        ≡ recached (own_entry i (some m) d n) (get_tag d n c)
  get_tag-retag i m c d n none e s s' = elim (Bool-cases (is_for i d n)) [
    | inl same ↦
        let here = get_tag-at i c d n same ∙ e in
        let entry : own_entry i (some m) d n ≡ some m = rw same refl in
        here ∙ sym (λ k. recached (entry k) (here k))
    | inr differs ↦ rw differs refl
  ]
  get_tag-retag i m c d n (some t) e s s' =
      let t' = record t { unit = some m.units; description = some m.description } in
      let stored = get_tag-set_tag i.device_id d i.tag_name n t' c s s' in
      elim (Bool-cases (is_for i d n)) [
        | inl same ↦
            let here = get_tag-at i c d n same ∙ e in
            let entry : own_entry i (some m) d n ≡ some m = rw same refl in
            stored
            ∙ ap (λ b. if b then some t' else get_tag d n c) same
            ∙ sym (λ k. recached (entry k) (here k))
        | inr differs ↦
            let entry : own_entry i (some m) d n ≡ none = rw differs refl in
            stored
            ∙ ap (λ b. if b then some t' else get_tag d n c) differs
            ∙ sym (ap (λ e. recached e (get_tag d n c)) entry)
      ]

  get_tag-enrich_with :
      (calls : EnrichCalls) (i : TagEnrichmentInfo) (r : Registry F) (d : ℕ) (n : Text)
      (o : Option (FieldMetadata F))
      → calls.enrich_fails i.tag_id ≡ false
      → i.device_id < 2 ^ 64
      → d < 2 ^ 64
      → get_tag d n (enrich_with calls i o r).cache
        ≡ recached (own_entry i o d n) (get_tag d n r.cache)
  unfolding enrich_with
  get_tag-enrich_with calls i r d n none e s s' = elim (Bool-cases (is_for i d n)) [
    | inl same ↦ rw same refl
    | inr differs ↦ rw differs refl
  ]
  get_tag-enrich_with calls i r d n (some m) e s s' =
      rw (e, enrich_with)
        (get_tag-retag i m r.cache d n (get_tag i.device_id i.tag_name r.cache) refl s s')

  entry_for-enrich_with :
      (calls : EnrichCalls) (i j : TagEnrichmentInfo) (o : Option (FieldMetadata F))
      (r : Registry F)
      → entry_for j (enrich_with calls i o r).cache ≡ entry_for j r.cache
  unfolding enrich_with
  entry_for-enrich_with calls i j none r = refl
  entry_for-enrich_with calls i j (some m) r = elim (Bool-cases (calls.enrich_fails i.tag_id)) [
    | inl e ↦ rw (e, enrich_with) refl
    | inr e ↦
        rw (e, enrich_with) (entry_for-retag j i m (get_tag i.device_id i.tag_name r.cache) r.cache)
  ]

  entry_among-same :
      (infos : List TagEnrichmentInfo) (c c' : Cache F) (d : ℕ) (n : Text)
      → ((i : TagEnrichmentInfo) → entry_for i c' ≡ entry_for i c)
      → entry_among infos c' d n ≡ entry_among infos c d n
  entry_among-same [] c c' d n e = refl
  entry_among-same (i ∷ infos) c c' d n e =
      let rest = entry_among-same infos c c' d n e in
      λ k. or_else (rest k) (own_entry i (e i k) d n)

  pub get_tag-enrich_infos :
      (calls : EnrichCalls) (infos : List TagEnrichmentInfo) (r : Registry F) (d : ℕ) (n : Text)
      → ((id : ℕ) → calls.enrich_fails id ≡ false)
      → AllSmall infos
      → d < 2 ^ 64
      → get_tag d n (enrich_infos calls infos r).cache
        ≡ recached (entry_among infos r.cache d n) (get_tag d n r.cache)
  unfolding enrich_infos
  get_tag-enrich_infos calls [] r d n works small s = refl
  get_tag-enrich_infos calls (i ∷ infos) r d n works small s =
      let o = entry_for i r.cache in
      let r' = enrich_with calls i o r in
      let rest = entry_among infos r.cache d n in
      get_tag-enrich_infos calls infos r' d n works small.1 s
      ∙ ap (λ e. recached e (get_tag d n r'.cache))
          (entry_among-same infos r.cache r'.cache d n (λ j. entry_for-enrich_with calls i j o r))
      ∙ ap (recached rest) (get_tag-enrich_with calls i r d n o (works i.tag_id) small.0 s)
      ∙ recached-recached rest (own_entry i o d n) (get_tag d n r.cache)
