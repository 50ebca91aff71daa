-- ===== src/Archive/Streams.antt =====
-- services/unifi-smart-archive/service/service.go: what holds of the streams whatever happens.
use roach.Base.{
  ℕ, ◌/◌, ◌≡◌, ◌≢◌, refl, sym, ◌∙◌, subst, Bool, true, false, List, [], ◌∷◌, ◌++◌, Option, none,
  some, ltb, Text, text_eq, nat_eq, arith, Bool-cases, Option-cases, inl, inr, if◌then◌else◌, ◌&&◌,
  not,
}
use roach.Base.Assoc.{contains, Distinct, Every}
use roach.Archive.Paths.{FilePath, path_beq}
use roach.Archive.{
  Config, StreamSession, Files, Service, Outside, Entry, Copy, whole, partial, nothing, frame_time,
  in_window, to_sec_of, copy_frame, offer_frame, copy_entries, catch_up, archive_base_of,
  camera_key,
}
use roach.Archive.Messages.{
  SmartEvent, start_earlier, end_later, merge, has_end, max_of, copy_after,
}

-- A session less its copied frames.
abbrev pub frameless : StreamSession → StreamSession
frameless s = record s { copied = [] }

copy_frame-frameless :
    (o : Outside) (name : Text) (ts : ℕ) (s : StreamSession × Files)
    → frameless (copy_frame o name ts s).0 ≡ frameless s.0
unfolding copy_frame
copy_frame-frameless o name ts (s, a) =
    by_copy (o.copy_file s.camera_name name (s.archive_base ++ name ∷ [])) refl
  where
    by_copy :
        (k : Copy)
        → o.copy_file s.camera_name name (s.archive_base ++ name ∷ []) ≡ k
        → frameless (copy_frame o name ts (s, a)).0 ≡ frameless s
    by_copy whole e = rw (e, copy_frame) refl
    by_copy partial e = rw (e, copy_frame) refl
    by_copy nothing e = rw (e, copy_frame) refl

pub offer_frame-frameless :
    (cfg : Config) (o : Outside) (ahead : ℕ) (name : Text) (ft : Option ℕ)
    (s : StreamSession × Files)
    → frameless (offer_frame cfg o ahead name ft s).0 ≡ frameless s.0
unfolding offer_frame
offer_frame-frameless cfg o ahead name none (s, a) = refl
offer_frame-frameless cfg o ahead name (some ts) (s, a) = elim (Bool-cases takes) [
  | inl h ↦ rw h (copy_frame-frameless o name ts (s, a))
  | inr h ↦ rw h refl
]
  where
    takes : Bool
    takes =
        in_window (s.start_ms / 1000) cfg.lead_seconds (to_sec_of cfg ahead o.now s) ts
        && not (contains ts s.copied)

copy_entries-frameless :
    (cfg : Config) (o : Outside) (es : List Entry) (s : StreamSession × Files)
    → frameless (copy_entries cfg o es s).0 ≡ frameless s.0
unfolding copy_entries
copy_entries-frameless cfg o [] s = refl
copy_entries-frameless cfg o (e ∷ es) s =
    copy_entries-frameless cfg o es
      (if e.is_dir then s else offer_frame cfg o 5 e.name (frame_time e.name) s)
    ∙ first
  where
    first :
        frameless (if e.is_dir then s else offer_frame cfg o 5 e.name (frame_time e.name) s).0
        ≡ frameless s.0
    first = elim (Bool-cases e.is_dir) [
      | inl h ↦ rw h refl
      | inr h ↦ rw h (offer_frame-frameless cfg o 5 e.name (frame_time e.name) s)
    ]

pub catch_up-frameless :
    (cfg : Config) (o : Outside) (s : StreamSession × Files)
    → frameless (catch_up cfg o s).0 ≡ frameless s.0
unfolding catch_up
catch_up-frameless cfg o (s, a) = elim (Option-cases (o.read_dir s.camera_name)) [
  | inl e ↦ rw (e, catch_up) refl
  | inr (es, e) ↦ rw (e, catch_up) (copy_entries-frameless cfg o es (s, a))
]

-- What holds of the stream under a key: it stands for one event at least, its archive is where its
-- start puts it, and its camera and type make the key.
pub record IsStream (cfg : Config) (key : Text) (s : StreamSession) : Type 0 where
  pub some_event : s.event_ids ≢ []
  pub placed :
      (camera detection : Text) × (camera_key camera detection ≡ key)
      × (s.archive_base ≡ archive_base_of cfg camera detection s.start_ms)

pub IsStream-frameless :
    (cfg : Config) (key : Text) (s t : StreamSession)
    → frameless s ≡ frameless t
    → IsStream cfg key t
    → IsStream cfg key s
IsStream-frameless cfg key s t e i =
    let j : IsStream cfg key (frameless s) =
      subst (IsStream cfg key) (sym e) record { some_event = i.some_event; placed = i.placed } in
    record { some_event = j.some_event; placed = j.placed }

pub catch_up-IsStream :
    (cfg : Config) (o : Outside) (key : Text) (s : StreamSession × Files)
    → IsStream cfg key s.0
    → IsStream cfg key (catch_up cfg o s).0
catch_up-IsStream cfg o key s i =
    IsStream-frameless cfg key (catch_up cfg o s).0 s.0 (catch_up-frameless cfg o s) i

start_earlier-IsStream :
    (cfg : Config) (o : Outside) (camera detection : Text) (start : ℕ) (s : StreamSession × Files)
    → let key = camera_key camera detection in
      IsStream cfg key s.0 → IsStream cfg key (start_earlier cfg o camera detection start s).0
unfolding start_earlier
start_earlier-IsStream cfg o camera detection start (s, a) i =
    elim (Bool-cases (ltb start s.start_ms)) [
      | inr h ↦ rw h i
      | inl h ↦ elim (Bool-cases (path_beq s.archive_base base)) [
        | inl k ↦ rw (h, k) moved-IsStream
        | inr k ↦
            rw (h, k)
              (catch_up-IsStream cfg o (camera_key camera detection) (moved, a) moved-IsStream)
      ]
    ]
  where
    base : FilePath
    base = archive_base_of cfg camera detection start

    moved : StreamSession
    moved = record s { start_ms = start; archive_base = base }

    moved-IsStream : IsStream cfg (camera_key camera detection) moved
    moved-IsStream = record { some_event = i.some_event; placed = (camera, detection, refl, refl) }

end_later-IsStream :
    (cfg : Config) (o : Outside) (e : SmartEvent) (key : Text) (s : StreamSession × Files)
    → IsStream cfg key s.0
    → IsStream cfg key (end_later cfg o e s).0
unfolding end_later
end_later-IsStream cfg o e key (s, a) i = by_end (has_end e)
  where
    ended : StreamSession
    ended = record s {
      end_ms = max_of e.end s.end_ms;
      copy_after_unix = max_of (copy_after cfg e) s.copy_after_unix;
    }

    by_end : (b : Bool) → IsStream cfg key (if b then catch_up cfg o (ended, a) else (s, a)).0
    by_end true =
        catch_up-IsStream cfg o key (ended, a)
          record { some_event = i.some_event; placed = i.placed }
    by_end false = i

append_some : (ids : List Text) (id : Text) → ids ++ id ∷ [] ≢ []
append_some [] id h = ground arith
append_some (i ∷ ids) id h = ground arith

pub merge-IsStream :
    (cfg : Config) (o : Outside) (camera detection : Text) (e : SmartEvent) (s : StreamSession)
    (a : Files)
    → let key = camera_key camera detection in
      IsStream cfg key s → IsStream cfg key (merge cfg o camera detection e s a).0
unfolding merge
merge-IsStream cfg o camera detection e s a i =
    let key = camera_key camera detection in
    let s' = start_earlier cfg o camera detection e.start (s, a) in
    let j =
      end_later-IsStream cfg o e key s'
        (start_earlier-IsStream cfg o camera detection e.start (s, a) i) in
    record { some_event = append_some _ e.id; placed = j.placed }

-- What holds of the service: a stream under each key once, and each is as above.
pub record IsWellFormed (cfg : Config) (s : Service) : Type 0 where
  pub distinct : Distinct s.streams
  pub streams : Every (IsStream cfg) s.streams
