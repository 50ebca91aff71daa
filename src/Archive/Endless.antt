-- ===== src/Archive/Endless.antt =====
-- services/unifi-smart-archive/service/service.go: along every run, the invariant of the streams,
-- and the streams that have two events or more and no end.
use roach.Base.{
  ℕ, ◌+◌, ◌≤◌, ◌≡◌, ◌≢◌, refl, ap, ◌∙◌, Bool, false, List, [], ◌∷◌, Option, some, Text, text_beq,
  text_beq_iff, text_eq, nat_eq, arith, Bool-cases, Option-cases, inl, inr, if◌then◌else◌, All,
  length, ltb,
}
use roach.Base.Assoc.{lookup, remove, lookup-remove, contains, Distinct}
use roach.Archive.{
  Config, StreamSession, WaitingEvent, Files, Service, Outside, camera_key, offer_all, offer_frame,
  file_created, frame_time, sanitize_name,
}
use roach.Archive.Worker.{
  expire, expire_all, expire_waiting_for_end, complete, complete_all, close_stream, close_all,
  close_completed_streams, is_alone, is_only,
}
use roach.Archive.Streams.{IsWellFormed, frameless, offer_frame-frameless}
use roach.Archive.Runs.{
  Event, received, created, expired, closed, step, run, new_service, AreStreams,
  streams-release_watched, process_message-AreStreams, offer_all-AreStreams,
}
use roach.Archive.Closing.{
  lookup-complete_all, streams-close_stream, close_completed_streams-AreStreams,
  expire_all-AreStreams,
}

step-AreStreams :
    (cfg : Config) (e : Event) (s : Service)
    → AreStreams cfg s.streams
    → AreStreams cfg (step cfg e s).streams
unfolding step file_created expire_waiting_for_end
step-AreStreams cfg (received o m) s w = process_message-AreStreams cfg o m s w
step-AreStreams cfg (created o dir name) s w =
    offer_all-AreStreams cfg o (sanitize_name dir) name (frame_time name) s.streams s.archive w
step-AreStreams cfg (expired now) s w = expire_all-AreStreams cfg now s.waiting_for_end s w
step-AreStreams cfg (closed o) s w = close_completed_streams-AreStreams cfg o s w

run-AreStreams :
    (cfg : Config) (es : List Event) (s : Service)
    → AreStreams cfg s.streams
    → AreStreams cfg (run cfg es s).streams
unfolding run
run-AreStreams cfg [] s w = w
run-AreStreams cfg (e ∷ es) s w = run-AreStreams cfg es (step cfg e s) (step-AreStreams cfg e s w)

-- However the consumer, the watcher and the worker take turns from New on, and whatever the file
-- system answers, the service has one stream at most under each key; each stream stands for an
-- event at least, its key is made of a camera and a type, and its archive is the directory of that
-- camera, that type and the stream's start, as far as merges have moved it.
pub run-new_service-IsWellFormed :
    (cfg : Config) (has_watcher : Bool) (es : List Event)
    → IsWellFormed cfg (run cfg es (new_service has_watcher))
unfolding new_service
run-new_service-IsWellFormed cfg has_watcher es =
    let w = run-AreStreams cfg es (new_service has_watcher) (tt, tt) in
    record { distinct = w.0; streams = w.1 }

-- A stream without an end that stands for two events or more.
abbrev pub IsEndless : StreamSession → Type 0
IsEndless s = (s.end_ms ≡ 0) × (2 ≤ length s.event_ids)

-- The stream is still there, with more frames perhaps.
abbrev pub Remains : Text → StreamSession → List (Text × StreamSession) → Type 0
Remains key s m = (t : StreamSession) × (lookup key m ≡ some t) × (frameless t ≡ frameless s)

not_only : (id : Text) (ids : List Text) → 2 ≤ length ids → is_only id ids ≡ false
not_only id [] two = absurd (omega arith)
not_only id (i ∷ []) two = absurd (omega arith)
not_only id (i ∷ j ∷ ids) two = refl

not_alone : (id : Text) (s : StreamSession) → 2 ≤ length s.event_ids → is_alone id s ≡ false
not_alone id s two = ground (arith, not_only id s.event_ids two)

expire-lookup :
    (cfg : Config) (now : ℕ) (id : Text) (ev : WaitingEvent) (key : Text) (t : StreamSession)
    (s : Service)
    → IsEndless t
    → lookup key s.streams ≡ some t
    → lookup key (expire cfg now id ev s).streams ≡ some t
unfolding expire
expire-lookup cfg now id ev key t s endless h =
    elim (Bool-cases (ltb (ev.last_message_at + cfg.event_end_timeout) now)) [
      | inr a ↦ rw a h
      | inl a ↦ elim (Option-cases (lookup k s.streams)) [
        | inl b ↦ rw (a, b) h
        | inr (session, b) ↦ elim (Bool-cases (is_alone id session)) [
          | inr c ↦ rw (a, b, c) h
          | inl c ↦
              let different : k ≢ key = λ e.
                let same : session ≡ t = ground (arith, text_beq_iff k key) in
                let none_alone = not_alone id session (rw same endless.1) in ground arith in
              rw (a, b, c)
                (rw
                  (streams-release_watched ev.camera_name (record s {
                    waiting_for_end = remove id s.waiting_for_end;
                    streams = remove k s.streams;
                  }))
                  (ground (arith, lookup-remove k key s.streams, text_beq_iff k key)))
        ]
      ]
    ]
  where
    k : Text
    k = camera_key ev.camera_name ev.detection_type

expire_all-lookup :
    (cfg : Config) (now : ℕ) (evs : List (Text × WaitingEvent)) (key : Text) (t : StreamSession)
    (s : Service)
    → IsEndless t
    → lookup key s.streams ≡ some t
    → lookup key (expire_all cfg now evs s).streams ≡ some t
unfolding expire_all
expire_all-lookup cfg now [] key t s endless h = h
expire_all-lookup cfg now ((id, ev) ∷ evs) key t s endless h =
    expire_all-lookup cfg now evs key t (expire cfg now id ev s) endless
      (expire-lookup cfg now id ev key t s endless h)

complete_endless :
    (cfg : Config) (o : Outside) (s : StreamSession) (a : Files)
    → s.end_ms ≡ 0
    → complete cfg o (s, a) ≡ (false, s, a)
unfolding complete
complete_endless cfg o s a e = ground (arith, e)

lookup-complete_all_endless :
    (cfg : Config) (o : Outside) (key : Text) (t : StreamSession) (m : List (Text × StreamSession))
    (a : Files)
    → IsEndless t
    → Distinct m
    → lookup key m ≡ some t
    → (lookup key (complete_all cfg o m a).1 ≡ some t)
      × (contains key (complete_all cfg o m a).0 ≡ false)
unfolding complete_all
lookup-complete_all_endless cfg o key t [] a endless d h = absurd (ground arith)
lookup-complete_all_endless cfg o key t ((j, s) ∷ m) a endless d h =
    elim (Bool-cases (text_beq j key)) [
      | inl b ↦
          let same : s ≡ t = ground arith in
          let stays = complete_endless cfg o s a (rw same endless.0) in
          let same_key : j ≡ key = ground (arith, text_beq_iff j key) in
          let others = lookup-complete_all cfg o key m a (rw⁻¹ same_key d.0) in
          rw (stays, b) (ground arith, others.1)
      | inr b ↦
          let a' = (complete cfg o (s, a)).2 in
          let (k, l) = lookup-complete_all_endless cfg o key t m a' endless d.1 (ground arith) in
          (rw b k, ground (arith, text_beq_iff j key, text_beq_iff key j))
    ]

lookup-close_all :
    (key : Text) (keys : List Text) (s : Service)
    → contains key keys ≡ false
    → lookup key (close_all keys s).streams ≡ lookup key s.streams
unfolding close_all
lookup-close_all key [] s h = refl
lookup-close_all key (k ∷ keys) s h =
    lookup-close_all key keys (close_stream k s) (ground arith)
    ∙ ap (lookup key) (streams-close_stream k s)
    ∙ ground (arith, lookup-remove k key s.streams, text_beq_iff k key, text_beq_iff key k)

offer_all-Remains :
    (cfg : Config) (o : Outside) (camera name : Text) (ft : Option ℕ) (key : Text)
    (t : StreamSession) (m : List (Text × StreamSession)) (a : Files)
    → lookup key m ≡ some t
    → Remains key t (offer_all cfg o camera name ft m a).0
unfolding offer_all
offer_all-Remains cfg o camera name ft key t [] a h = absurd (ground arith)
offer_all-Remains cfg o camera name ft key t ((j, s) ∷ m) a h = elim (Bool-cases (text_beq j key)) [
  | inl b ↦ let same : s ≡ t = ground arith in (after.0, rw b refl, frames ∙ ap frameless same)
  | inr b ↦ rw b (offer_all-Remains cfg o camera name ft key t m after.1 (ground arith))
]
  where
    after : StreamSession × Files
    after = if text_beq s.camera_name camera then offer_frame cfg o 60 name ft (s, a) else (s, a)

    frames : frameless after.0 ≡ frameless s
    frames = elim (Bool-cases (text_beq s.camera_name camera)) [
      | inl b ↦ rw b (offer_frame-frameless cfg o 60 name ft (s, a))
      | inr b ↦ rw b refl
    ]

-- Anything but a message.
abbrev pub IsQuiet : Event → Type 0
IsQuiet (received o m) = ⊥
IsQuiet (created o dir name) = Unit
IsQuiet (expired now) = Unit
IsQuiet (closed o) = Unit

step-Remains :
    (cfg : Config) (e : Event) (key : Text) (t : StreamSession) (s : Service)
    → AreStreams cfg s.streams
    → IsEndless t
    → lookup key s.streams ≡ some t
    → IsQuiet e
    → Remains key t (step cfg e s).streams
unfolding step file_created expire_waiting_for_end close_completed_streams
step-Remains cfg (received o m) key t s w endless h quiet = absurd quiet
step-Remains cfg (created o dir name) key t s w endless h quiet =
    offer_all-Remains cfg o (sanitize_name dir) name (frame_time name) key t s.streams s.archive h
step-Remains cfg (expired now) key t s w endless h quiet =
    (t, expire_all-lookup cfg now s.waiting_for_end key t s endless h, refl)
step-Remains cfg (closed o) key t s w endless h quiet =
    let (k, l) = lookup-complete_all_endless cfg o key t s.streams s.archive endless w.0 h in
    (t, lookup-close_all key _ _ l ∙ k, refl)

IsEndless-frameless : (s t : StreamSession) → frameless t ≡ frameless s → IsEndless s → IsEndless t
IsEndless-frameless s t e (a, b) = (
  ap (λ (x : StreamSession). x.end_ms) e ∙ a,
  ground (arith, ap (λ (x : StreamSession). length x.event_ids) e),
)

run-Remains :
    (cfg : Config) (es : List Event) (key : Text) (t : StreamSession) (s : Service)
    → AreStreams cfg s.streams
    → IsEndless t
    → lookup key s.streams ≡ some t
    → All IsQuiet es
    → Remains key t (run cfg es s).streams
unfolding run
run-Remains cfg [] key t s w endless h quiet = (t, h, refl)
run-Remains cfg (e ∷ es) key t s w endless h quiet =
    let (u, k, f) = step-Remains cfg e key t s w endless h quiet.0 in
    let (v, l, g) =
      run-Remains cfg es key u (step cfg e s) (step-AreStreams cfg e s w)
        (IsEndless-frameless t u f endless) k quiet.1 in
    (v, l, g ∙ f)

-- A stream that stands for two events or more and has no end stays until a message comes: after any
-- files that are created and any ticks of the worker, at whatever times, it is there, unchanged but
-- for the frames copied. expireWaitingForEnd gives up waiting for its events, but not the stream.
pub run-keeps_endless :
    (cfg : Config) (es : List Event) (key : Text) (t : StreamSession) (s : Service)
    → IsWellFormed cfg s
    → IsEndless t
    → lookup key s.streams ≡ some t
    → All IsQuiet es
    → Remains key t (run cfg es s).streams
run-keeps_endless cfg es key t s w endless h quiet =
    run-Remains cfg es key t s (w.distinct, w.streams) endless h quiet
