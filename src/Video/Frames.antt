-- ===== src/Video/Frames.antt =====
-- services/unifi-video-kafka/stream/runner.go: what a frame is, and that the frames do not depend
-- on how the pipe cuts the output.
use roach.Base.{
  ℕ, zero, suc, ◌+◌, ◌-◌, ◌≤◌, ◌<◌, ◌≡◌, refl, ap, ◌∙◌, sym, List, [], ◌∷◌, ◌++◌, Option, none,
  some, if◌then◌else◌, length, take, drop, arith, Option-cases, inl, inr,
}
use roach.Base.Strings.{has_prefix}
use roach.Video.{Bytes, jpeg_soi, jpeg_eoi, next_index, index, extract_frame, extract_all}

abbrev pub marker : ℕ → ℕ → Bytes
marker a b = a ∷ b ∷ []

pub index_step :
    (c : ℕ) (s sep : Bytes)
    → index (c ∷ s) sep ≡ (if has_prefix (c ∷ s) sep then some 0 else next_index (index s sep))
unfolding index
index_step c s sep = refl

pub index_empty : (a b : ℕ) → index [] (marker a b) ≡ none
unfolding index has_prefix
index_empty a b = refl

pub index_short : (c a b : ℕ) → index (c ∷ []) (marker a b) ≡ none
unfolding index has_prefix
index_short c a b = ground arith

pub has_prefix-two :
    (c d : ℕ) (s t : Bytes) (a b : ℕ)
    → has_prefix (c ∷ d ∷ s) (marker a b) ≡ has_prefix (c ∷ d ∷ t) (marker a b)
unfolding has_prefix
has_prefix-two c d s t a b = refl

index-append :
    (s t : Bytes) (a b i : ℕ) → index s (marker a b) ≡ some i → index (s ++ t) (marker a b) ≡ some i
index-append [] t a b i h = absurd (ground (arith, index_empty a b))
index-append (c ∷ []) t a b i h = absurd (ground (arith, index_short c a b))
index-append (c ∷ d ∷ s) t a b i h = elim (Option-cases (index (d ∷ s) (marker a b))) [
  | inl n ↦ ground (
    arith,
    index_step c (d ∷ s) (marker a b),
    index_step c (d ∷ s ++ t) (marker a b),
    has_prefix-two c d s (s ++ t) a b,
  )
  | inr (j, n) ↦ ground (
    arith,
    index_step c (d ∷ s) (marker a b),
    index_step c (d ∷ s ++ t) (marker a b),
    has_prefix-two c d s (s ++ t) a b,
    index-append (d ∷ s) t a b j n,
  )
]

pub index_bound : (s : Bytes) (a b i : ℕ) → index s (marker a b) ≡ some i → i + 2 ≤ length s
index_bound [] a b i h = absurd (ground (arith, index_empty a b))
index_bound (c ∷ []) a b i h = absurd (ground (arith, index_short c a b))
index_bound (c ∷ d ∷ s) a b i h = elim (Option-cases (index (d ∷ s) (marker a b))) [
  | inl n ↦ ground (arith, index_step c (d ∷ s) (marker a b))
  | inr (j, n) ↦ ground (arith, index_step c (d ∷ s) (marker a b), index_bound (d ∷ s) a b j n)
]

drop-append : (n : ℕ) (s t : Bytes) → n ≤ length s → drop n (s ++ t) ≡ drop n s ++ t
drop-append zero s t h = refl
drop-append (suc n) [] t h = absurd (omega arith)
drop-append (suc n) (c ∷ s) t h = drop-append n s t (omega arith)

take-append : (n : ℕ) (s t : Bytes) → n ≤ length s → take n (s ++ t) ≡ take n s
take-append zero s t h = refl
take-append (suc n) [] t h = absurd (omega arith)
take-append (suc n) (c ∷ s) t h = ap (λ (u : Bytes). c ∷ u) (take-append n s t (omega arith))

pub length-drop : (n : ℕ) (s : Bytes) → length (drop n s) ≡ length s - n
length-drop zero s = omega arith
length-drop (suc n) [] = omega arith
length-drop (suc n) (c ∷ s) = omega (arith, length-drop n s)

-- The two markers' places, as extractFrame finds them.
extract_frame_at :
    (s : Bytes) (i j : ℕ)
    → index s jpeg_soi ≡ some i
    → index (drop (i + 2) s) jpeg_eoi ≡ some j
    → extract_frame s ≡ some (take (i + 2 + j + 2 - i) (drop i s), drop (i + 2 + j + 2) s)
unfolding extract_frame
extract_frame_at s i j h k = rw (h, extract_frame, k) refl

extract_frame_no_soi : (s : Bytes) → index s jpeg_soi ≡ none → extract_frame s ≡ none
unfolding extract_frame
extract_frame_no_soi s h = rw (h, extract_frame) refl

extract_frame_no_eoi :
    (s : Bytes) (i : ℕ)
    → index s jpeg_soi ≡ some i
    → index (drop (i + 2) s) jpeg_eoi ≡ none
    → extract_frame s ≡ none
unfolding extract_frame
extract_frame_no_eoi s i h k = rw (h, extract_frame, k) refl

some_injective : {A : Type 0} (a b : A) → some a ≡ some b → a ≡ b
some_injective {A = A} a b h = ap (λ (o : Option A). elim o [ none ↦ a | some c ↦ c ]) h

some-none : {A : Type 0} (o : Option A) (a : A) → o ≡ none → o ≡ some a → ⊥
some-none o a h k = ground arith

-- Where a frame is found, the markers are in the bytes.
pub record Found (s : Bytes) (r : Bytes × Bytes) : Type 0 where
  pub soi : ℕ
  pub eoi : ℕ
  pub soi_at : index s jpeg_soi ≡ some soi
  pub eoi_at : index (drop (soi + 2) s) jpeg_eoi ≡ some eoi
  pub within : soi + 2 + eoi + 2 ≤ length s
  pub result : r ≡ (take (soi + 2 + eoi + 2 - soi) (drop soi s), drop (soi + 2 + eoi + 2) s)

pub extract_frame-Found : (s : Bytes) (r : Bytes × Bytes) → extract_frame s ≡ some r → Found s r
extract_frame-Found s r h = elim (Option-cases (index s jpeg_soi)) [
  | inl e ↦ absurd (some-none _ r (extract_frame_no_soi s e) h)
  | inr (i, e) ↦ elim (Option-cases (index (drop (i + 2) s) jpeg_eoi)) [
    | inl f ↦ absurd (some-none _ r (extract_frame_no_eoi s i e f) h)
    | inr (j, f) ↦
        let p = index_bound s 0xFF 0xD8 i e in
        let q = index_bound (drop (i + 2) s) 0xFF 0xD9 j f in
        record {
          soi = i;
          eoi = j;
          soi_at = e;
          eoi_at = f;
          within = omega (arith, length-drop (i + 2) s);
          result = some_injective _ _ (sym h ∙ extract_frame_at s i j e f);
        }
  ]
]

pub extract_frame-append :
    (s t frame remaining : Bytes)
    → extract_frame s ≡ some (frame, remaining)
    → extract_frame (s ++ t) ≡ some (frame, remaining ++ t)
extract_frame-append s t frame remaining h =
    let f = extract_frame-Found s (frame, remaining) h in
    let i = f.soi in
    let j = f.eoi in
    let p = index_bound s 0xFF 0xD8 i f.soi_at in
    let soi_at = index-append s t 0xFF 0xD8 i f.soi_at in
    let eoi_at : index (drop (i + 2) (s ++ t)) jpeg_eoi ≡ some j =
      rw (drop-append (i + 2) s t p) (index-append (drop (i + 2) s) t 0xFF 0xD9 j f.eoi_at) in
    extract_frame_at (s ++ t) i j soi_at eoi_at
    ∙ rw
        (
          drop-append i s t (omega arith),
          drop-append (i + 2 + j + 2) s t f.within,
          take-append (i + 2 + j + 2 - i) (drop i s) t (omega (arith, length-drop i s, f.within)),
        )
        (ap (λ (x : Bytes × Bytes). some (x.0, x.1 ++ t)) (sym f.result))

pub extract_frame_shorter :
    (s frame remaining : Bytes)
    → extract_frame s ≡ some (frame, remaining)
    → length remaining < length s
extract_frame_shorter s frame remaining h =
    let f = extract_frame-Found s (frame, remaining) h in
    let end = f.soi + 2 + f.eoi + 2 in
    let rest : remaining ≡ drop end s = ap (λ (x : Bytes × Bytes). x.1) f.result in
    omega (arith, f.within, length-drop end s, ap (length {A = ℕ}) rest)

pub extract_all_stops :
    (fuel : ℕ) (s : Bytes) → extract_frame s ≡ none → extract_all fuel s ≡ ([], s)
unfolding extract_all
extract_all_stops zero s h = refl
extract_all_stops (suc fuel) s h = rw (h, extract_all) refl

pub extract_all_goes_on :
    (fuel : ℕ) (s frame remaining : Bytes)
    → extract_frame s ≡ some (frame, remaining)
    → extract_all (suc fuel) s
      ≡ (frame ∷ (extract_all fuel remaining).0, (extract_all fuel remaining).1)
unfolding extract_all
extract_all_goes_on fuel s frame remaining h = rw (h, extract_all) refl

-- More fuel than there are bytes changes nothing.
pub extract_all_enough :
    (fuel fuel' : ℕ) (s : Bytes)
    → length s ≤ fuel
    → length s ≤ fuel'
    → extract_all fuel s ≡ extract_all fuel' s
extract_all_enough zero fuel' s h k = elim (Option-cases (extract_frame s)) [
  | inl e ↦ extract_all_stops 0 s e ∙ sym (extract_all_stops fuel' s e)
  | inr (r, e) ↦ absurd (omega (arith, extract_frame_shorter s r.0 r.1 e))
]
extract_all_enough (suc fuel) zero s h k = elim (Option-cases (extract_frame s)) [
  | inl e ↦ extract_all_stops (suc fuel) s e ∙ sym (extract_all_stops 0 s e)
  | inr (r, e) ↦ absurd (omega (arith, extract_frame_shorter s r.0 r.1 e))
]
extract_all_enough (suc fuel) (suc fuel') s h k = elim (Option-cases (extract_frame s)) [
  | inl e ↦ extract_all_stops (suc fuel) s e ∙ sym (extract_all_stops (suc fuel') s e)
  | inr (r, e) ↦
      let shorter = extract_frame_shorter s r.0 r.1 e in
      extract_all_goes_on fuel s r.0 r.1 e
      ∙ ap (λ (x : List Bytes × Bytes). (r.0 ∷ x.0, x.1))
          (extract_all_enough fuel fuel' r.1 (omega (arith, shorter)) (omega (arith, shorter)))
      ∙ sym (extract_all_goes_on fuel' s r.0 r.1 e)
]
