-- ===== src/Archive/Moves.antt =====
-- services/unifi-smart-archive/service/service.go: what catchUpLocked leaves alone, and what
-- processMessage does with a stream whose archive it moves.
pub mod Copying
use roach.Base.{
  ℕ, ◌/◌, ◌<◌, ◌≡◌, ◌≢◌, refl, sym, ap, ◌∙◌, Bool, true, false, ◌&&◌, not, List, [], ◌∷◌, ◌++◌,
  Option, none, some, Text, text_beq_iff, nat_eq, arith, Bool-cases, inl, inr, if◌then◌else◌,
  lt→ltb, length,
}
use roach.Base.Assoc.{insert, lookup, lookup-insert, contains}
use roach.Archive.Paths.{
  FilePath, path_eq, path_beq, path_beq_iff, lookup-remove_all, is_under, is_under_same_length,
}
use roach.Archive.{
  Config, StreamSession, Files, Outside, Entry, Copy, whole, partial, nothing, frame_time,
  in_window, to_sec_of, copy_frame, offer_frame, copy_entries, catch_up, archive_base_of,
}
use roach.Archive.Messages.{
  SmartEvent, start_earlier, end_later, merge, has_end, max_of, copy_after,
}
use roach.Archive.Moves.Copying.{is_under-append, catch_up-Keeps, end_later-Keeps}

pub record Lost (n : Text) (t : ℕ) (old base : FilePath) (archive : Files)
    (after : StreamSession × Files) : Type 0 where
  pub moved : after.0.archive_base ≡ base
  pub noted : contains t after.0.copied ≡ true
  pub gone : lookup (old ++ n ∷ []) after.1 ≡ none
  pub as_before : lookup (base ++ n ∷ []) after.1 ≡ lookup (base ++ n ∷ []) archive

start_earlier-Lost :
    (cfg : Config) (o : Outside) (camera detection n : Text) (start t : ℕ) (s : StreamSession)
    (a : Files)
    → let base = archive_base_of cfg camera detection start in
      start < s.start_ms
      → length s.archive_base ≡ length base
      → s.archive_base ≢ base
      → frame_time n ≡ some t
      → contains t s.copied ≡ true
      → Lost n t s.archive_base base a (start_earlier cfg o camera detection start (s, a))
unfolding start_earlier
start_earlier-Lost cfg o camera detection n start t s a lt len ne f c =
    let base = archive_base_of cfg camera detection start in
    let old = s.archive_base in
    let moved = record s { start_ms = start; archive_base = base } in
    let k = catch_up-Keeps cfg o n t (moved, a) f c in
    let differ : path_beq old base ≡ false = ground (arith, path_beq_iff old base) in
    rw (lt→ltb start s.start_ms lt, differ)
      record {
        moved = k.base;
        noted = k.still;
        gone = ground (
          arith,
          lookup-remove_all old (old ++ n ∷ []) (catch_up cfg o (moved, a)).1,
          is_under-append old (n ∷ []),
        );
        as_before = ground (
          arith,
          lookup-remove_all old (base ++ n ∷ []) (catch_up cfg o (moved, a)).1,
          is_under_same_length old base (n ∷ []) len,
          k.file,
        );
      }

-- An event that starts before the stream it joins, where that moves the archive, loses what was
-- copied so far, since the frames are not copied again: a frame that counts as copied counts so
-- after the merge, but its file is gone from the old directory, and the new one has it only if it
-- had it before the merge. (The stream's old path has as many components as every path of an
-- archive.)
pub merge_loses_copied :
    (cfg : Config) (o : Outside) (camera detection n : Text) (e : SmartEvent) (t : ℕ)
    (s : StreamSession) (a : Files)
    → let base = archive_base_of cfg camera detection e.start in
      e.start < s.start_ms
      → length s.archive_base ≡ length base
      → s.archive_base ≢ base
      → frame_time n ≡ some t
      → contains t s.copied ≡ true
      → Lost n t s.archive_base base a (merge cfg o camera detection e s a)
unfolding merge
merge_loses_copied cfg o camera detection n e t s a lt len ne f c =
    let base = archive_base_of cfg camera detection e.start in
    let old = s.archive_base in
    let first = start_earlier-Lost cfg o camera detection n e.start t s a lt len ne f c in
    let s' = start_earlier cfg o camera detection e.start (s, a) in
    let k = end_later-Keeps cfg o e n t s' f first.noted in
    let outside : is_under base (old ++ n ∷ []) ≡ false =
      ground (arith, is_under_same_length base old (n ∷ []) (sym len)) in
    record {
      moved = k.base ∙ first.moved;
      noted = k.still;
      gone = k.elsewhere (old ++ n ∷ []) (rw first.moved outside) ∙ first.gone;
      as_before =
          ap (λ (b : FilePath). lookup (b ++ n ∷ []) (end_later cfg o e s').1) (sym first.moved)
          ∙ k.file
          ∙ ap (λ (b : FilePath). lookup (b ++ n ∷ []) s'.1) first.moved
          ∙ first.as_before;
    }
