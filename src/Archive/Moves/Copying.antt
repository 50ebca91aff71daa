-- ===== src/Archive/Moves/Copying.antt =====
-- services/unifi-smart-archive/service/service.go: what copying leaves as it was.
use roach.Base.{
  ℕ, ◌/◌, ◌≡◌, ◌≢◌, refl, sym, ap, ◌∙◌, Bool, true, false, ◌&&◌, not, List, [], ◌∷◌, ◌++◌, Option,
  none, some, Text, text_beq_iff, nat_eq, arith, Bool-cases, inl, inr, if◌then◌else◌,
}
use roach.Base.Assoc.{insert, lookup, lookup-insert, contains}
use roach.Archive.Paths.{FilePath, path_eq, path_beq, path_beq_iff, is_under}
use roach.Archive.{
  Config, StreamSession, Files, Outside, Entry, Copy, whole, partial, nothing, frame_time,
  in_window, to_sec_of, copy_frame, offer_frame, copy_entries, catch_up,
}
use roach.Archive.Messages.{SmartEvent, end_later, has_end, max_of, copy_after}

-- A copied frame of the session, and what is not in its directory, are left as they are.
pub record Keeps (n : Text) (t : ℕ) (before after : StreamSession × Files) : Type 0 where
  pub still : contains t after.0.copied ≡ true
  pub base : after.0.archive_base ≡ before.0.archive_base
  pub file :
      lookup (before.0.archive_base ++ n ∷ []) after.1
      ≡ lookup (before.0.archive_base ++ n ∷ []) before.1
  pub elsewhere :
      (p : FilePath)
      → is_under before.0.archive_base p ≡ false
      → lookup p after.1 ≡ lookup p before.1

pub is_under-append : (d p : FilePath) → is_under d (d ++ p) ≡ true
is_under-append [] p = refl
is_under-append (c ∷ d) p = ground (arith, text_beq_iff c c, is_under-append d p)

lookup-insert_elsewhere :
    (d p : FilePath) (m : Text) (b : Bool) (a : Files)
    → is_under d p ≡ false
    → lookup p (insert (d ++ m ∷ []) b a) ≡ lookup p a
lookup-insert_elsewhere d p m b a u = ground (
  arith,
  lookup-insert (d ++ m ∷ []) p b a,
  path_beq_iff (d ++ m ∷ []) p,
  is_under-append d (m ∷ []),
)

path_beq-append : (d : FilePath) (m n : Text) → path_beq (d ++ m ∷ []) (d ++ n ∷ []) ≡ true → m ≡ n
path_beq-append [] m n h = ground (arith, text_beq_iff m n)
path_beq-append (c ∷ d) m n h = ground (arith, path_beq-append d m n)

Keeps-refl :
    (n : Text) (t : ℕ) (s : StreamSession × Files) → contains t s.0.copied ≡ true → Keeps n t s s
Keeps-refl n t s c = record { still = c; base = refl; file = refl; elsewhere = λ p u. refl }

Keeps-trans :
    (n : Text) (t : ℕ) (p q r : StreamSession × Files)
    → Keeps n t p q
    → Keeps n t q r
    → Keeps n t p r
Keeps-trans n t p q r k l = record {
  still = l.still;
  base = l.base ∙ k.base;
  file =
      ap (λ (b : FilePath). lookup (b ++ n ∷ []) r.1) (sym k.base)
      ∙ l.file
      ∙ ap (λ (b : FilePath). lookup (b ++ n ∷ []) q.1) k.base
      ∙ k.file;
  elsewhere = λ p u. l.elsewhere p (rw k.base u) ∙ k.elsewhere p u;
}

lookup-insert_other :
    (d : FilePath) (m n : Text) (b : Bool) (a : Files)
    → m ≢ n
    → lookup (d ++ n ∷ []) (insert (d ++ m ∷ []) b a) ≡ lookup (d ++ n ∷ []) a
lookup-insert_other d m n b a ne =
    ground (arith, lookup-insert (d ++ m ∷ []) (d ++ n ∷ []) b a, path_beq-append d m n)

copy_frame-Keeps :
    (o : Outside) (name n : Text) (ts t : ℕ) (s : StreamSession × Files)
    → name ≢ n
    → contains t s.0.copied ≡ true
    → Keeps n t s (copy_frame o name ts s)
unfolding copy_frame
copy_frame-Keeps o name n ts t (s, a) ne c =
    by_copy (o.copy_file s.camera_name name (s.archive_base ++ name ∷ [])) refl
  where
    by_copy :
        (k : Copy)
        → o.copy_file s.camera_name name (s.archive_base ++ name ∷ []) ≡ k
        → Keeps n t (s, a) (copy_frame o name ts (s, a))
    by_copy whole e =
        rw (e, copy_frame)
          record {
            still = ground (arith, c);
            base = refl;
            file = lookup-insert_other s.archive_base name n true a ne;
            elsewhere = λ p u. lookup-insert_elsewhere s.archive_base p name true a u;
          }
    by_copy partial e =
        rw (e, copy_frame)
          record {
            still = c;
            base = refl;
            file = lookup-insert_other s.archive_base name n false a ne;
            elsewhere = λ p u. lookup-insert_elsewhere s.archive_base p name false a u;
          }
    by_copy nothing e = rw (e, copy_frame) (Keeps-refl n t (s, a) c)

not_copied :
    (t : ℕ) (ts : List ℕ) (b : Bool) → b && not (contains t ts) ≡ true → contains t ts ≡ false
not_copied t ts b h = ground arith

offer_frame-Keeps :
    (cfg : Config) (o : Outside) (ahead : ℕ) (name n : Text) (t : ℕ) (s : StreamSession × Files)
    → frame_time n ≡ some t
    → contains t s.0.copied ≡ true
    → Keeps n t s (offer_frame cfg o ahead name (frame_time name) s)
unfolding offer_frame
offer_frame-Keeps cfg o ahead name n t (s, a) f c = by_time (frame_time name) refl
  where
    takes : ℕ → Bool
    takes ts =
        in_window (s.start_ms / 1000) cfg.lead_seconds (to_sec_of cfg ahead o.now s) ts
        && not (contains ts s.copied)

    by_time :
        (ft : Option ℕ)
        → frame_time name ≡ ft
        → Keeps n t (s, a) (offer_frame cfg o ahead name ft (s, a))
    by_time none e = Keeps-refl n t (s, a) c
    by_time (some ts) e = elim (Bool-cases (takes ts)) [
      | inl h ↦
          let other : name ≢ n = λ same. let k = not_copied ts s.copied _ h in ground arith in
          rw h (copy_frame-Keeps o name n ts t (s, a) other c)
      | inr h ↦ rw h (Keeps-refl n t (s, a) c)
    ]

copy_entries-Keeps :
    (cfg : Config) (o : Outside) (es : List Entry) (n : Text) (t : ℕ) (s : StreamSession × Files)
    → frame_time n ≡ some t
    → contains t s.0.copied ≡ true
    → Keeps n t s (copy_entries cfg o es s)
unfolding copy_entries
copy_entries-Keeps cfg o [] n t s f c = Keeps-refl n t s c
copy_entries-Keeps cfg o (e ∷ es) n t s f c =
    let s' = if e.is_dir then s else offer_frame cfg o 5 e.name (frame_time e.name) s in
    let k : Keeps n t s s' = elim (Bool-cases e.is_dir) [
      | inl h ↦ rw h (Keeps-refl n t s c)
      | inr h ↦ rw h (offer_frame-Keeps cfg o 5 e.name n t s f c)
    ] in
    Keeps-trans n t s s' _ k (copy_entries-Keeps cfg o es n t s' f k.still)

pub catch_up-Keeps :
    (cfg : Config) (o : Outside) (n : Text) (t : ℕ) (s : StreamSession × Files)
    → frame_time n ≡ some t
    → contains t s.0.copied ≡ true
    → Keeps n t s (catch_up cfg o s)
unfolding catch_up
catch_up-Keeps cfg o n t (s, a) f c = by_entries (o.read_dir s.camera_name) refl
  where
    by_entries :
        (r : Option (List Entry))
        → o.read_dir s.camera_name ≡ r
        → Keeps n t (s, a) (catch_up cfg o (s, a))
    by_entries none e = rw (e, catch_up) (Keeps-refl n t (s, a) c)
    by_entries (some es) e = rw (e, catch_up) (copy_entries-Keeps cfg o es n t (s, a) f c)

pub end_later-Keeps :
    (cfg : Config) (o : Outside) (e : SmartEvent) (n : Text) (t : ℕ) (s : StreamSession × Files)
    → frame_time n ≡ some t
    → contains t s.0.copied ≡ true
    → Keeps n t s (end_later cfg o e s)
unfolding end_later
end_later-Keeps cfg o e n t (s, a) f c = by_end (has_end e)
  where
    ended : StreamSession
    ended = record s {
      end_ms = max_of e.end s.end_ms;
      copy_after_unix = max_of (copy_after cfg e) s.copy_after_unix;
    }

    by_end : (b : Bool) → Keeps n t (s, a) (if b then catch_up cfg o (ended, a) else (s, a))
    by_end true =
        let k = catch_up-Keeps cfg o n t (ended, a) f c in
        record { still = k.still; base = k.base; file = k.file; elsewhere = k.elsewhere }
    by_end false = Keeps-refl n t (s, a) c

-- When the archive of a stream moves, what was copied is in neither directory.
