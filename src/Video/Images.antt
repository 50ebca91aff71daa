-- ===== src/Video/Images.antt =====
-- services/unifi-video-kafka/stream/runner.go: each frame is a JPEG image, from its first marker to
-- the next end marker.
use roach.Base.{
  ℕ, zero, suc, ◌+◌, ◌-◌, ◌≤◌, ◌≡◌, refl, ap, ◌∙◌, sym, true, List, [], ◌∷◌, ◌++◌, some, length,
  take, drop, arith, Bool-cases, Option-cases, inl, inr, ==_iff, All, All-append,
}
use roach.Base.Strings.{has_prefix}
use roach.Video.{
  Bytes, jpeg_soi, jpeg_eoi, index, extract_frame, extract_all, frames_of, trim, read_frames,
}
use roach.Video.Frames.{
  marker, index_empty, index_short, index_step, has_prefix-two, index_bound, extract_frame-Found,
  extract_all_stops, extract_all_goes_on,
}

sum_suc : (m n : ℕ) → suc m + n ≡ suc (m + n)
sum_suc m n = omega arith

take-drop : (n : ℕ) (s : Bytes) → take n s ++ drop n s ≡ s
take-drop zero s = refl
take-drop (suc n) [] = refl
take-drop (suc n) (c ∷ s) = ap (λ (u : Bytes). c ∷ u) (take-drop n s)

drop_sum : (m n : ℕ) (s : Bytes) → drop n (drop m s) ≡ drop (m + n) s
drop_sum zero n s = ap (λ (k : ℕ). drop k s) (omega arith)
drop_sum (suc m) zero [] = ap (λ (k : ℕ). drop {A = ℕ} k []) (sym (sum_suc m 0))
drop_sum (suc m) (suc n) [] = ap (λ (k : ℕ). drop {A = ℕ} k []) (sym (sum_suc m (suc n)))
drop_sum (suc m) n (c ∷ s) = drop_sum m n s ∙ ap (λ (k : ℕ). drop k (c ∷ s)) (sym (sum_suc m n))

take_sum : (m n : ℕ) (s : Bytes) → take (m + n) s ≡ take m s ++ take n (drop m s)
take_sum zero n s = ap (λ (k : ℕ). take k s) (omega arith)
take_sum (suc m) zero [] = ap (λ (k : ℕ). take {A = ℕ} k []) (sum_suc m 0)
take_sum (suc m) (suc n) [] = ap (λ (k : ℕ). take {A = ℕ} k []) (sum_suc m (suc n))
take_sum (suc m) n (c ∷ s) =
    ap (λ (k : ℕ). take k (c ∷ s)) (sum_suc m n) ∙ ap (λ (u : Bytes). c ∷ u) (take_sum m n s)

length-take : (n : ℕ) (s : Bytes) → n ≤ length s → length (take n s) ≡ n
length-take zero s h = refl
length-take (suc n) [] h = absurd (omega arith)
length-take (suc n) (c ∷ s) h = omega (arith, length-take n s)

-- The marker stands at its index.
has_prefix-marker :
    (c d a b : ℕ) (s : Bytes) → has_prefix (c ∷ d ∷ s) (marker a b) ≡ true → (c ≡ a) × (d ≡ b)
unfolding has_prefix
has_prefix-marker c d a b s h = (ground (arith, ==_iff c a), ground (arith, ==_iff d b))

marker_here : (a b : ℕ) → has_prefix (marker a b) (marker a b) ≡ true
unfolding has_prefix
marker_here a b = ground (arith, ==_iff a a, ==_iff b b)

index-drop :
    (s : Bytes) (a b i : ℕ) → index s (marker a b) ≡ some i → drop i s ≡ a ∷ b ∷ drop (i + 2) s
index-drop [] a b i h = absurd (ground (arith, index_empty a b))
index-drop (c ∷ []) a b i h = absurd (ground (arith, index_short c a b))
index-drop (c ∷ d ∷ s) a b zero h = elim (Bool-cases (has_prefix (c ∷ d ∷ s) (marker a b))) [
  | inl p ↦ let q = has_prefix-marker c d a b s p in rw (q.0, q.1) refl
  | inr p ↦ absurd (ground (arith, index_step c (d ∷ s) (marker a b)))
]
index-drop (c ∷ d ∷ s) a b (suc i) h =
    index-drop (d ∷ s) a b i (ground (arith, index_step c (d ∷ s) (marker a b)))
    ∙ ap (λ (k : ℕ). a ∷ b ∷ drop k (c ∷ d ∷ s)) (sym (sum_suc i 2))

abbrev first_or : Bytes → ℕ → ℕ
first_or [] d = d
first_or (c ∷ s) d = c

-- The bytes up to a marker and the marker have it where the whole has it.
index-take :
    (s : Bytes) (a b i : ℕ)
    → index s (marker a b) ≡ some i
    → index (take i s ++ marker a b) (marker a b) ≡ some i
index-take [] a b i h = absurd (ground (arith, index_empty a b))
index-take (c ∷ []) a b i h = absurd (ground (arith, index_short c a b))
index-take (c ∷ d ∷ s) a b zero h =
    ground (arith, index_step a (b ∷ []) (marker a b), marker_here a b)
index-take (c ∷ d ∷ s) a b (suc zero) h =
    let next : index (d ∷ s) (marker a b) ≡ some 0 =
      ground (arith, index_step c (d ∷ s) (marker a b)) in
    let same : d ≡ a = ap (λ (u : Bytes). first_or u d) (index-drop (d ∷ s) a b 0 next) in
    let there : index (marker a b) (marker a b) ≡ some 0 =
      ground (arith, index_step a (b ∷ []) (marker a b), marker_here a b) in
    let before : has_prefix (c ∷ a ∷ b ∷ []) (marker a b) ≡ has_prefix (c ∷ d ∷ s) (marker a b) =
      rw same (has_prefix-two c a (b ∷ []) s a b) in
    ground (
      arith,
      index_step c (d ∷ s) (marker a b),
      index_step c (marker a b) (marker a b),
      before,
      there,
    )
index-take (c ∷ d ∷ s) a b (suc (suc i)) h =
    let later =
      index-take (d ∷ s) a b (suc i) (ground (arith, index_step c (d ∷ s) (marker a b))) in
    ground (
      arith,
      later,
      index_step c (d ∷ s) (marker a b),
      index_step c (d ∷ take i s ++ marker a b) (marker a b),
      has_prefix-two c d s (take i s ++ marker a b) a b,
    )

-- A frame is an image: its start marker, and then what comes up to the next end marker.
pub record IsImage (frame : Bytes) : Type 0 where
  pub body : Bytes
  pub parts : frame ≡ jpeg_soi ++ body ++ jpeg_eoi
  pub first_end : index (body ++ jpeg_eoi) jpeg_eoi ≡ some (length body)

-- extractFrame finds a frame from the first start marker on, and takes it and what stands before it
-- away.
pub record IsTaken (s frame remaining : Bytes) : Type 0 where
  pub skipped : Bytes
  pub whole : s ≡ skipped ++ (frame ++ remaining)
  pub first_start : index s jpeg_soi ≡ some (length skipped)
  pub image : IsImage frame

extract_frame-IsTaken :
    (s frame remaining : Bytes)
    → extract_frame s ≡ some (frame, remaining)
    → IsTaken s frame remaining
extract_frame-IsTaken s frame remaining h =
    let f = extract_frame-Found s (frame, remaining) h in
    let i = f.soi in
    let j = f.eoi in
    let rest = drop (i + 2) s in
    let starts = index-drop s 0xFF 0xD8 i f.soi_at in
    let ends = index-drop rest 0xFF 0xD9 j f.eoi_at in
    let n = i + 2 + j + 2 - i in
    let frame_bytes : frame ≡ take n (drop i s) = ap (λ (x : Bytes × Bytes). x.0) f.result in
    let rest_bytes : remaining ≡ drop n (drop i s) =
      ap (λ (x : Bytes × Bytes). x.1) f.result
      ∙ ap (λ (k : ℕ). drop k s) (omega arith)
      ∙ sym (drop_sum i n s) in
    let is_frame : frame ≡ jpeg_soi ++ take j rest ++ jpeg_eoi =
      frame_bytes
      ∙ ap (λ (k : ℕ). take k (drop i s)) (omega arith)
      ∙ ap (take (2 + (j + 2))) starts
      ∙ take_sum 2 (j + 2) (0xFF ∷ 0xD8 ∷ rest)
      ∙ ap (λ (u : Bytes). 0xFF ∷ 0xD8 ∷ u)
          (take_sum j 2 rest ∙ ap (λ (u : Bytes). take j rest ++ take 2 u) ends) in
    let bound : j + 2 ≤ length rest = index_bound rest 0xFF 0xD9 j f.eoi_at in
    let body_length = length-take j rest (omega (arith, bound)) in
    record {
      skipped = take i s;
      whole =
          sym (take-drop i s)
          ∙ ap (λ (u : Bytes). take i s ++ u) (sym (take-drop n (drop i s)))
          ∙ ap (λ (u : Bytes). take i s ++ (u ++ drop n (drop i s))) (sym frame_bytes)
          ∙ ap (λ (u : Bytes). take i s ++ (frame ++ u)) (sym rest_bytes);
      first_start = f.soi_at ∙ ap some (sym (length-take i s (omega (arith, f.within))));
      image = record {
        body = take j rest;
        parts = is_frame;
        first_end = index-take rest 0xFF 0xD9 j f.eoi_at ∙ ap some (sym body_length);
      };
    }

extract_all-IsImage : (fuel : ℕ) (s : Bytes) → All IsImage (extract_all fuel s).0
unfolding extract_all
extract_all-IsImage zero s = tt
extract_all-IsImage (suc fuel) s = elim (Option-cases (extract_frame s)) [
  | inl e ↦ rw (extract_all_stops (suc fuel) s e) tt
  | inr (r, e) ↦
      rw (extract_all_goes_on fuel s r.0 r.1 e)
        ((extract_frame-IsTaken s r.0 r.1 e).image, extract_all-IsImage fuel r.1)
]

-- Whatever the pipe hands over, and however much of the buffer is thrown away, each frame that
-- readFrames publishes begins with the start marker and goes on to the first end marker after it.
pub read_frames-IsImage : (buf : Bytes) (chunks : List Bytes) → All IsImage (read_frames buf chunks)
unfolding read_frames
read_frames-IsImage buf [] = tt
read_frames-IsImage buf (chunk ∷ chunks) =
    let (frames, rest) = frames_of (buf ++ chunk) in
    All-append IsImage frames (read_frames (trim rest) chunks)
      (extract_all-IsImage (length (buf ++ chunk)) (buf ++ chunk))
      (read_frames-IsImage (trim rest) chunks)
