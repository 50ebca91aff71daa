-- ===== src/Archive/Closing.antt =====
-- services/unifi-smart-archive/service/service.go: the streams that expireWaitingForEnd and
-- closeCompletedStreams take away, and those that they leave.
use roach.Base.{
  ℕ, ◌+◌, ◌≡◌, refl, sym, false, ◌==◌, List, [], ◌∷◌, none, Text, text_beq, text_beq_iff, text_eq,
  nat_eq, arith, Bool-cases, Option-cases, inl, inr, ltb,
}
use roach.Base.Assoc.{lookup, remove, remove_absent, contains}
use roach.Archive.{Config, StreamSession, WaitingEvent, Files, Service, Outside, unix, camera_key}
use roach.Archive.Worker.{
  expire, expire_all, last_frame, complete, complete_all, close_stream, close_all,
  close_completed_streams, is_alone,
}
use roach.Archive.Streams.{frameless, catch_up-frameless, IsStream-frameless}
use roach.Archive.Runs.{AreStreams, AreStreams-remove, streams-release_watched}

complete-frameless :
    (cfg : Config) (o : Outside) (s : StreamSession × Files)
    → frameless (complete cfg o s).1 ≡ frameless s.0
unfolding complete
complete-frameless cfg o (s, a) = elim (Bool-cases (s.end_ms == 0)) [
  | inl h ↦ rw h refl
  | inr h ↦ elim (Bool-cases (ltb (unix o.now) s.copy_after_unix)) [
    | inl k ↦ rw (h, k) refl
    | inr k ↦ elim (Bool-cases (contains (last_frame cfg s) s.copied)) [
      | inl l ↦ rw (h, k, l) refl
      | inr l ↦ rw (h, k, l) (catch_up-frameless cfg o (s, a))
    ]
  ]
]

pub lookup-complete_all :
    (cfg : Config) (o : Outside) (key : Text) (m : List (Text × StreamSession)) (a : Files)
    → lookup key m ≡ none
    → (lookup key (complete_all cfg o m a).1 ≡ none)
      × (contains key (complete_all cfg o m a).0 ≡ false)
unfolding complete_all
lookup-complete_all cfg o key [] a h = (refl, refl)
lookup-complete_all cfg o key ((j, s) ∷ m) a h = elim (Bool-cases (text_beq j key)) [
  | inl b ↦ absurd (ground arith)
  | inr b ↦
      let a' = (complete cfg o (s, a)).2 in
      let (k, l) = lookup-complete_all cfg o key m a' (ground arith) in
      (rw b k, ground (arith, text_beq_iff j key, text_beq_iff key j))
]

pub complete_all-AreStreams :
    (cfg : Config) (o : Outside) (m : List (Text × StreamSession)) (a : Files)
    → AreStreams cfg m
    → AreStreams cfg (complete_all cfg o m a).1
unfolding complete_all
complete_all-AreStreams cfg o [] a w = w
complete_all-AreStreams cfg o ((key, s) ∷ m) a ((d, ds), (i, is)) =
    let a' = (complete cfg o (s, a)).2 in
    let (ds', is') = complete_all-AreStreams cfg o m a' (ds, is) in
    (
      ((lookup-complete_all cfg o key m a' d).0, ds'),
      (
        IsStream-frameless cfg key (complete cfg o (s, a)).1 s (complete-frameless cfg o (s, a)) i,
        is',
      ),
    )

pub streams-close_stream :
    (key : Text) (s : Service) → (close_stream key s).streams ≡ remove key s.streams
unfolding close_stream
streams-close_stream key s = elim (Option-cases (lookup key s.streams)) [
  | inl h ↦ rw (h, close_stream) (sym (remove_absent key s.streams h))
  | inr (session, h) ↦
      rw (h, close_stream)
        (streams-release_watched session.camera_name (record s { streams = remove key s.streams }))
]

close_all-AreStreams :
    (cfg : Config) (keys : List Text) (s : Service)
    → AreStreams cfg s.streams
    → AreStreams cfg (close_all keys s).streams
unfolding close_all
close_all-AreStreams cfg [] s w = w
close_all-AreStreams cfg (key ∷ keys) s w =
    close_all-AreStreams cfg keys (close_stream key s)
      (rw (streams-close_stream key s) (AreStreams-remove cfg key s.streams w))

pub close_completed_streams-AreStreams :
    (cfg : Config) (o : Outside) (s : Service)
    → AreStreams cfg s.streams
    → AreStreams cfg (close_completed_streams cfg o s).streams
unfolding close_completed_streams
close_completed_streams-AreStreams cfg o s w =
    close_all-AreStreams cfg _ _ (complete_all-AreStreams cfg o s.streams s.archive w)

pub expire-AreStreams :
    (cfg : Config) (now : ℕ) (id : Text) (ev : WaitingEvent) (s : Service)
    → AreStreams cfg s.streams
    → AreStreams cfg (expire cfg now id ev s).streams
unfolding expire
expire-AreStreams cfg now id ev s w =
    elim (Bool-cases (ltb (ev.last_message_at + cfg.event_end_timeout) now)) [
      | inr h ↦ rw h w
      | inl h ↦ elim (Option-cases (lookup key s.streams)) [
        | inl k ↦ rw (h, k) w
        | inr (session, k) ↦ elim (Bool-cases (is_alone id session)) [
          | inr b ↦ rw (h, k, b) w
          | inl b ↦
              rw (h, k, b)
                (rw
                  (streams-release_watched ev.camera_name (record s {
                    waiting_for_end = remove id s.waiting_for_end;
                    streams = remove key s.streams;
                  }))
                  (AreStreams-remove cfg key s.streams w))
        ]
      ]
    ]
  where
    key : Text
    key = camera_key ev.camera_name ev.detection_type

pub expire_all-AreStreams :
    (cfg : Config) (now : ℕ) (evs : List (Text × WaitingEvent)) (s : Service)
    → AreStreams cfg s.streams
    → AreStreams cfg (expire_all cfg now evs s).streams
unfolding expire_all
expire_all-AreStreams cfg now [] s w = w
expire_all-AreStreams cfg now ((id, ev) ∷ evs) s w =
    expire_all-AreStreams cfg now evs (expire cfg now id ev s) (expire-AreStreams cfg now id ev s w)
