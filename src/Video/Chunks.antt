-- ===== src/Video/Chunks.antt =====
-- services/unifi-video-kafka/stream/runner.go: the frames do not depend on how the pipe cuts the
-- output, as long as the buffer does not grow too large, and each is a JPEG image.
use roach.Base.{
  ℕ, zero, suc, ◌≤◌, ◌≡◌, refl, ap, ◌∙◌, sym, List, [], ◌∷◌, ◌++◌, none, length, flatten, arith,
  Option-cases, inl, inr,
}
use mathlib.Core.List.{append_assoc, append-nil}
use roach.Base.Strings.{has_prefix}
use roach.Video.{Bytes, index, extract_frame, extract_all, frames_of, max_buffer, trim, read_frames}
use roach.Video.Frames.{
  extract_frame-append, extract_frame_shorter, extract_all_stops, extract_all_goes_on,
  extract_all_enough,
}

-- The frames of one buffer and then of the rest of it with more behind it.
abbrev then_more : List Bytes × Bytes → Bytes → List Bytes × Bytes
then_more (frames, rest) t =
    let (frames', rest') = frames_of (rest ++ t) in (frames ++ frames', rest')

extract_all-append :
    (fuel : ℕ) (s t : Bytes)
    → length s ≤ fuel
    → frames_of (s ++ t) ≡ then_more (extract_all fuel s) t
extract_all-append zero s t h = elim (Option-cases (extract_frame s)) [
  | inl e ↦ rw (extract_all_stops 0 s e) refl
  | inr (r, e) ↦ absurd (omega (arith, extract_frame_shorter s r.0 r.1 e))
]
extract_all-append (suc fuel) s t h = elim (Option-cases (extract_frame s)) [
  | inl e ↦ rw (extract_all_stops (suc fuel) s e) refl
  | inr (r, e) ↦
      let shorter = extract_frame_shorter s r.0 r.1 e in
      let longer = extract_frame-append s t r.0 r.1 e in
      let shorter' = extract_frame_shorter (s ++ t) r.0 (r.1 ++ t) longer in
      extract_all_enough (length (s ++ t)) (suc (length (s ++ t))) (s ++ t) (omega arith)
        (omega arith)
      ∙ extract_all_goes_on (length (s ++ t)) (s ++ t) r.0 (r.1 ++ t) longer
      ∙ ap (λ (x : List Bytes × Bytes). (r.0 ∷ x.0, x.1))
          (extract_all_enough (length (s ++ t)) (length (r.1 ++ t)) (r.1 ++ t)
              (omega (arith, shorter')) (omega arith)
            ∙ extract_all-append fuel r.1 t (omega (arith, shorter)))
      ∙ ap (λ (x : List Bytes × Bytes). then_more x t) (sym (extract_all_goes_on fuel s r.0 r.1 e))
]

-- After no chunk is there more than the limit left in the buffer.
abbrev pub Fits : Bytes → List Bytes → Type 0
Fits buf [] = Unit
Fits buf (chunk ∷ chunks) =
    let (frames, rest) = frames_of (buf ++ chunk) in (length rest ≤ max_buffer) × Fits rest chunks

trim_fits : (buf : Bytes) → length buf ≤ max_buffer → trim buf ≡ buf
unfolding trim
trim_fits buf h = ground arith

-- What is left has no complete frame.
extract_all_done :
    (fuel : ℕ) (s : Bytes) → length s ≤ fuel → extract_frame (extract_all fuel s).1 ≡ none
extract_all_done zero s h = elim (Option-cases (extract_frame s)) [
  | inl e ↦ rw (extract_all_stops 0 s e) e
  | inr (r, e) ↦ absurd (omega (arith, extract_frame_shorter s r.0 r.1 e))
]
extract_all_done (suc fuel) s h = elim (Option-cases (extract_frame s)) [
  | inl e ↦ rw (extract_all_stops (suc fuel) s e) e
  | inr (r, e) ↦
      rw (extract_all_goes_on fuel s r.0 r.1 e)
        (extract_all_done fuel r.1 (omega (arith, extract_frame_shorter s r.0 r.1 e)))
]

read_frames-frames_of :
    (buf : Bytes) (chunks : List Bytes)
    → extract_frame buf ≡ none
    → Fits buf chunks
    → read_frames buf chunks ≡ (frames_of (buf ++ flatten chunks)).0
unfolding read_frames
read_frames-frames_of buf [] e f = rw (append-nil buf, extract_all_stops (length buf) buf e) refl
read_frames-frames_of buf (chunk ∷ chunks) e f =
    let s = buf ++ chunk in
    let (frames, rest) = frames_of s in
    let later =
      read_frames-frames_of rest chunks (extract_all_done (length s) s (omega arith)) f.1 in
    ap (λ (b : Bytes). frames ++ read_frames b chunks) (trim_fits rest f.0)
    ∙ ap (λ (fs : List Bytes). frames ++ fs) later
    ∙ ap (λ (x : List Bytes × Bytes). x.0)
        (sym (extract_all-append (length s) s (flatten chunks) (omega arith)))
    ∙ ap (λ (b : Bytes). (frames_of b).0) (append_assoc buf chunk (flatten chunks))

-- However the pipe cuts the output of ffmpeg into chunks, readFrames finds the frames that the
-- output as a whole has, in their order, as long as the rest in the buffer is never above its limit.
pub read_frames-flatten :
    (chunks : List Bytes) → Fits [] chunks → read_frames [] chunks ≡ (frames_of (flatten chunks)).0
unfolding extract_frame index has_prefix
read_frames-flatten chunks f = read_frames-frames_of [] chunks refl f
