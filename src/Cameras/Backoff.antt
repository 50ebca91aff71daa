-- ===== src/Cameras/Backoff.antt =====
-- services/unifi-video-jpg/service/service.go: which delays a camera's rounds wait.
use roach.Base.{
  ℕ, zero, suc, ◌-◌, ◌≤◌, ◌<◌, ◌≡◌, refl, sym, ap, ◌∙◌, Bool, true, false, ◌&&◌, not, List, [], ◌∷◌,
  ◌++◌, length, length-append, get_or, ltb, leb, if◌then◌else◌, arith, Bool-cases, inl, inr, ◌⊎◌,
  All,
}
use mathlib.Core.List.{append_assoc}
use roach.Cameras.{
  Camera, Round, Wait, poll_interval, reconnect, no_wait, backoff, check_then_backoff,
  offline_round, online_round, run_round, run_camera,
}

-- The delay is one of the list.
abbrev pub IsDelay : List ℕ → Wait → Type 0
IsDelay delays poll_interval = Unit
IsDelay delays no_wait = Unit
IsDelay delays (reconnect d) = (i : ℕ) × (i < length delays) × (d ≡ get_or delays i 0)

backoff-IsDelay :
    (delays : List ℕ) (cam : Camera) → 0 < length delays → IsDelay delays (backoff delays cam).0
unfolding backoff
backoff-IsDelay delays cam h = (
  if leb (length delays) cam.backoff_idx then length delays - 1 else cam.backoff_idx,
  ground arith,
  refl,
)

check_then_backoff-IsDelay :
    (delays : List ℕ) (checks : Bool) (r : Round) (cam : Camera)
    → 0 < length delays
    → IsDelay delays (check_then_backoff delays checks r cam).0
unfolding check_then_backoff
check_then_backoff-IsDelay delays checks r cam h =
    elim (Bool-cases
      (checks && (leb (length delays - 1) cam.backoff_idx && not r.finds_connected))) [
        | inl b ↦ rw b tt
        | inr b ↦ rw b (backoff-IsDelay delays cam h)
      ]

IsDelay-either :
    (delays : List ℕ) (b : Bool) (x y : Wait × Camera)
    → IsDelay delays x.0
    → IsDelay delays y.0
    → IsDelay delays (if b then x else y).0
IsDelay-either delays true x y p q = p
IsDelay-either delays false x y p q = q

run_round-IsDelay :
    (delays : List ℕ) (r : Round) (cam : Camera)
    → 0 < length delays
    → IsDelay delays (run_round delays r cam).0
unfolding run_round online_round offline_round
run_round-IsDelay delays r cam h =
    IsDelay-either delays cam.connected (online_round delays r cam) (offline_round r cam)
      (IsDelay-either delays r.has_url _ _
        (check_then_backoff-IsDelay delays (ltb r.ran_for 60) r _ h)
        (check_then_backoff-IsDelay delays true r cam h))
      (IsDelay-either delays r.finds_connected _ _ tt tt)

-- The waits of a camera whose stream fails at once, again and again: each delay of the list once,
-- and then the last.
abbrev pub climbs : List ℕ → ℕ → List Wait
climbs [] n = []
climbs (d ∷ []) zero = []
climbs (d ∷ []) (suc n) = reconnect d ∷ climbs (d ∷ []) n
climbs (d ∷ e ∷ ds) zero = []
climbs (d ∷ e ∷ ds) (suc n) = reconnect d ∷ climbs (e ∷ ds) n

-- A stream that ends at once, or does not begin, with the camera connected.
abbrev pub IsFailure : Round → Type 0
IsFailure r = (r.ran_for ≤ 60) × (r.finds_connected ≡ true)

get_or-append :
    (before : List ℕ) (d : ℕ) (after : List ℕ) → get_or (before ++ d ∷ after) (length before) 0 ≡ d
get_or-append [] d after = refl
get_or-append (c ∷ before) d after = get_or-append before d after

fails_once :
    (delays : List ℕ) (r : Round) (cam : Camera)
    → IsFailure r
    → cam.connected ≡ true
    → run_round delays r cam ≡ backoff delays cam
unfolding run_round online_round check_then_backoff
fails_once delays r cam f c = ground (arith, f.0, f.1, c)

-- The index has come to `d`, or past it if it is the last.
abbrev IsAt : List ℕ → List ℕ → Camera → Type 0
IsAt before after cam =
    (cam.connected ≡ true)
    × (length before ≤ cam.backoff_idx)
    × ((after ≡ []) ⊎ (cam.backoff_idx ≡ length before))

backoff_at :
    (before : List ℕ) (d : ℕ) (after : List ℕ) (cam : Camera)
    → IsAt before after cam
    → backoff (before ++ d ∷ after) cam
      ≡ (reconnect d, record cam { backoff_idx = suc (length before) })
unfolding backoff
backoff_at before d after cam (c, h, last) =
    ground (arith, get_or-append before d after, length-append before (d ∷ after), last)

round_at :
    (before : List ℕ) (d : ℕ) (after : List ℕ) (r : Round) (cam : Camera)
    → IsAt before after cam
    → IsFailure r
    → run_round (before ++ d ∷ after) r cam
      ≡ (reconnect d, record cam { backoff_idx = suc (length before) })
round_at before d after r cam here f =
    fails_once (before ++ d ∷ after) r cam f here.0 ∙ backoff_at before d after cam here

run_camera-climbs :
    (before : List ℕ) (d : ℕ) (after : List ℕ) (rs : List Round) (cam : Camera)
    → IsAt before after cam
    → All IsFailure rs
    → (run_camera (before ++ d ∷ after) rs cam).0 ≡ climbs (d ∷ after) (length rs)
unfolding run_camera
run_camera-climbs before d [] [] cam here f = refl
run_camera-climbs before d (e ∷ after) [] cam here f = refl
run_camera-climbs before d [] (r ∷ rs) cam here f =
    let once = round_at before d [] r cam here f.0 in
    let next = record cam { backoff_idx = suc (length before) } in
    ap (λ (x : Wait × Camera). x.0 ∷ (run_camera (before ++ d ∷ []) rs x.1).0) once
    ∙ ap (λ (ws : List Wait). reconnect d ∷ ws)
        (run_camera-climbs before d [] rs next (here.0, omega arith, inl refl) f.1)
run_camera-climbs before d (e ∷ after) (r ∷ rs) cam here f =
    let once = round_at before d (e ∷ after) r cam here f.0 in
    let next = record cam { backoff_idx = suc (length before) } in
    let longer = length-append before (d ∷ []) in
    ap (λ (x : Wait × Camera). x.0 ∷ (run_camera (before ++ d ∷ e ∷ after) rs x.1).0) once
    ∙ ap (λ (ws : List Wait). reconnect d ∷ ws)
        (ap (λ (ds : List ℕ). (run_camera ds rs next).0)
            (sym (append_assoc before (d ∷ []) (e ∷ after)))
          ∙ run_camera-climbs (before ++ d ∷ []) e after rs next
              (here.0, omega (arith, longer), inr (omega (arith, longer))) f.1)

-- Whatever happens, a camera waits for the next poll or for one of its delays, if it has any.
pub run_camera-IsDelay :
    (delays : List ℕ) (rs : List Round) (cam : Camera)
    → 0 < length delays
    → All (IsDelay delays) (run_camera delays rs cam).0
unfolding run_camera
run_camera-IsDelay delays [] cam h = tt
run_camera-IsDelay delays (r ∷ rs) cam h =
    (run_round-IsDelay delays r cam h, run_camera-IsDelay delays rs (run_round delays r cam).1 h)

-- A camera that stays connected and whose stream fails within a minute, again and again, waits the
-- delays of the list one after the other, and then the last of them each time.
pub run_camera_fails :
    (d : ℕ) (delays : List ℕ) (rs : List Round)
    → All IsFailure rs
    → (run_camera (d ∷ delays) rs (record { connected = true; backoff_idx = 0 })).0
      ≡ climbs (d ∷ delays) (length rs)
run_camera_fails d delays rs f =
    run_camera-climbs [] d delays rs (record { connected = true; backoff_idx = 0 })
      (refl, omega arith, inr refl) f
