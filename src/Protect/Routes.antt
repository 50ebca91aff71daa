-- ===== src/Protect/Routes.antt =====
-- services/unifi-kafka/service/service.go with services/unifi-smart-archive/service/service.go:
-- which events go where, and under which camera the archive files them.
use roach.Base.{
  ℕ, ◌≡◌, ◌≢◌, refl, sym, ap, ◌∙◌, true, false, List, [], ◌∷◌, ◌++◌, Option, none, some, ◌==◌,
  if◌then◌else◌, Text, text_beq, text_beq_iff, text_eq, arith, Bool-cases, inl, inr, ◌⊎◌, map, All,
}
use roach.Base.Assoc.{lookup}
use roach.Base.Strings.{codes, to_lower, replace_byte, lower}
use roach.Archive
use roach.Archive.Messages.{Message, camera_of, camera_of_key, get_header, or_else}
use roach.Protect.{
  ProtectEvent, EventCategory, smart, audio, motion, classify_event, classify_types, is_audio,
  is_video, is_motion, sanitize_name, camera_name, KafkaMessage, message_for, handle_event,
  device_id, routed,
}

-- One byte of sanitizeName.
abbrev clean : ℕ → ℕ
clean c =
    let spaced = if lower c == b' ' then b'_' else lower c in
    if spaced == b'-' then b'_' else spaced

sanitize_name-map : (name : Text) → sanitize_name name ≡ map clean name
unfolding sanitize_name replace_byte to_lower
sanitize_name-map [] = refl
sanitize_name-map (c ∷ name) = ap (λ (t : Text). clean c ∷ t) (sanitize_name-map name)

clean_twice : (c : ℕ) → clean (clean c) ≡ clean c
clean_twice c = ground arith

map-clean_twice : (name : Text) → map clean (map clean name) ≡ map clean name
map-clean_twice [] = refl
map-clean_twice (c ∷ name) = ground (arith, clean_twice c, map-clean_twice name)

-- A sanitized name is sanitized already.
pub sanitize_name_twice : (name : Text) → sanitize_name (sanitize_name name) ≡ sanitize_name name
sanitize_name_twice name =
    sanitize_name-map (sanitize_name name)
    ∙ ap (map clean) (sanitize_name-map name)
    ∙ map-clean_twice name
    ∙ sym (sanitize_name-map name)

-- The archive's copy of sanitizeName does the same.
same_names : (name : Text) → Archive.sanitize_name name ≡ sanitize_name name
unfolding sanitize_name Archive.sanitize_name
same_names name = refl

or_else_some : (s d : Text) → s ≢ [] → or_else s d ≡ s
or_else_some [] d h = absurd (h refl)
or_else_some (c ∷ s) d h = refl

camera_of-message_for :
    (cameras : List (Text × Text)) (now : ℕ) (e : ProtectEvent) (category : EventCategory)
    (detection_type : Text) (m : Message)
    → m.headers ≡ (message_for cameras now e category detection_type).headers
    → camera_name cameras (device_id e) ≢ []
    → camera_of m ≡ camera_name cameras (device_id e)
unfolding camera_of get_header
camera_of-message_for cameras now e category detection_type m h nonempty =
    ap
      (λ (hs : List (Text × Text)).
        or_else (get_header hs (codes "camera_name")) (camera_of_key m.key))
      h
    ∙ or_else_some (camera_name cameras (device_id e)) (camera_of_key m.key) nonempty

sanitize_name_nonempty : (name : Text) → name ≢ [] → sanitize_name name ≢ []
unfolding sanitize_name to_lower replace_byte
sanitize_name_nonempty [] h k = h refl
sanitize_name_nonempty (c ∷ name) h k = ground arith

camera_name_known :
    (cameras : List (Text × Text)) (id name : Text)
    → lookup id cameras ≡ some name
    → camera_name cameras id ≡ sanitize_name name
unfolding camera_name
camera_name_known cameras id name h = rw (h, camera_name) refl

abbrev pub IsUnknown : Text → Type 0
IsUnknown dt = (is_audio dt ≡ false) × (is_video dt ≡ false)

handle_event-routed :
    (cameras : List (Text × Text)) (now : ℕ) (e : ProtectEvent) (m : KafkaMessage)
    → text_beq e.model_key (codes "event") ≡ true
    → handle_event cameras now (some e) ≡ some m
    → routed cameras now e (classify_event e) ≡ some m
unfolding handle_event
handle_event-routed cameras now e m k h = ground arith

-- A message is made for an event that is classified.
pub handle_event_cases :
    (cameras : List (Text × Text)) (now : ℕ) (e : ProtectEvent) (m : KafkaMessage)
    → handle_event cameras now (some e) ≡ some m
    → (c : EventCategory × Text) × (classify_event e ≡ some c)
      × (e.model_key ≡ codes "event")
      × (m ≡ message_for cameras now e c.0 c.1)
unfolding handle_event routed
handle_event_cases cameras now e m h = elim (Bool-cases (text_beq e.model_key (codes "event"))) [
  | inr k ↦ absurd (ground arith)
  | inl k ↦
      by_class (classify_event e) refl (ground (arith, text_beq_iff e.model_key (codes "event")))
        (handle_event-routed cameras now e m k h)
]
  where
    by_class :
        (r : Option (EventCategory × Text))
        → classify_event e ≡ r
        → e.model_key ≡ codes "event"
        → routed cameras now e r ≡ some m
        → (c : EventCategory × Text) × (classify_event e ≡ some c)
          × (e.model_key ≡ codes "event")
          × (m ≡ message_for cameras now e c.0 c.1)
    by_class none q k h = absurd (ground arith)
    by_class (some (c, dt)) q k h = ((c, dt), q, k, ground arith)

-- The archive files an event of a known camera under the camera's sanitized name, which is the
-- directory that unifi-video-jpg writes its frames to: what its processMessage takes from a message
-- of handleEvent and sanitizes again is that name.
pub camera_of-handle_event :
    (cameras : List (Text × Text)) (now : ℕ) (e : ProtectEvent) (name : Text) (m : KafkaMessage)
    (received : Message)
    → handle_event cameras now (some e) ≡ some m
    → received.headers ≡ m.headers
    → lookup (device_id e) cameras ≡ some name
    → name ≢ []
    → Archive.sanitize_name (camera_of received) ≡ sanitize_name name
camera_of-handle_event cameras now e name m received h k known nonempty =
    let (c, classified, key, made) = handle_event_cases cameras now e m h in
    let named = camera_name_known cameras (device_id e) name known in
    same_names (camera_of received)
    ∙ ap sanitize_name (
        camera_of-message_for cameras now e c.0 c.1 received
          (k ∙ ap (λ (x : KafkaMessage). x.headers) made)
          (rw named (sanitize_name_nonempty name nonempty))
        ∙ named)
    ∙ sanitize_name_twice name

-- The first known type among `dts` is `dt`, which gives the result `r`.
pub record IsFirst (dts : List Text) (r : Option (EventCategory × Text)) : Type 0 where
  pub before : List Text
  pub dt : Text
  pub after : List Text
  pub types : dts ≡ before ++ dt ∷ after
  pub unknown : All IsUnknown before
  pub result :
      ((is_audio dt ≡ true) × (r ≡ some (audio, dt)))
      ⊎ ((is_video dt ≡ true) × (r ≡ some (smart, dt)))

classify_types-IsFirst :
    (dts : List Text)
    → IsFirst dts (classify_types dts) ⊎ (All IsUnknown dts × (classify_types dts ≡ none))
unfolding classify_types
classify_types-IsFirst [] = inr (tt, refl)
classify_types-IsFirst (dt ∷ dts) = elim (Bool-cases (is_audio dt)) [
  | inl a ↦ inl record {
    before = [];
    dt = dt;
    after = dts;
    types = refl;
    unknown = tt;
    result = inl (a, rw a refl);
  }
  | inr a ↦ elim (Bool-cases (is_video dt)) [
    | inl v ↦ inl record {
      before = [];
      dt = dt;
      after = dts;
      types = refl;
      unknown = tt;
      result = inr (v, rw (a, v) refl);
    }
    | inr v ↦
        let same : classify_types (dt ∷ dts) ≡ classify_types dts = rw (a, v) refl in
        elim (classify_types-IsFirst dts) [
          | inr (unknown, nothing) ↦ inr (((a, v), unknown), same ∙ nothing)
          | inl f ↦ inl record {
            before = dt ∷ f.before;
            dt = f.dt;
            after = f.after;
            types = ap (λ (ts : List Text). dt ∷ ts) f.types;
            unknown = ((a, v), f.unknown);
            result = elim f.result [
              | inl (b, r) ↦ inl (b, same ∙ r)
              | inr (b, r) ↦ inr (b, same ∙ r)
            ];
          }
        ]
  ]
]

classify_event_known :
    (e : ProtectEvent) (c : EventCategory × Text)
    → classify_types e.smart_detect_types ≡ some c
    → classify_event e ≡ some c
unfolding classify_event
classify_event_known e c h = rw (h, classify_event) refl

classify_event_unknown :
    (e : ProtectEvent)
    → classify_types e.smart_detect_types ≡ none
    → classify_event e ≡ (if is_motion e.type then some (motion, codes "motion") else none)
unfolding classify_event
classify_event_unknown e h = rw (h, classify_event) refl

-- classifyEvent goes by the first smart type that it knows, audio or video: those before it are
-- neither. Without one, it goes by the type of the event: motion, or nothing.
pub classify_event-IsFirst :
    (e : ProtectEvent)
    → IsFirst e.smart_detect_types (classify_event e)
      ⊎ (All IsUnknown e.smart_detect_types
          × (classify_event e ≡ (if is_motion e.type then some (motion, codes "motion") else none)))
classify_event-IsFirst e = elim (classify_types-IsFirst e.smart_detect_types) [
  | inr (unknown, nothing) ↦ inr (unknown, classify_event_unknown e nothing)
  | inl f ↦ inl record {
    before = f.before;
    dt = f.dt;
    after = f.after;
    types = f.types;
    unknown = f.unknown;
    result = elim f.result [
      | inl (b, r) ↦ inl (b, classify_event_known e _ r)
      | inr (b, r) ↦ inr (b, classify_event_known e _ r)
    ];
  }
]
