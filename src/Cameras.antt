-- ===== src/Cameras.antt =====
-- services/unifi-video-jpg/service/service.go, and the same in services/unifi-video-kafka: runCamera
-- as a machine whose rounds end in a wait. A duration is in seconds.
pub mod Backoff
use roach.Base.{
  ℕ, zero, suc, ◌+◌, ◌-◌, Bool, true, false, ◌&&◌, not, List, [], ◌∷◌, length, get_or, ltb, leb,
  if◌then◌else◌,
}

pub record Camera : Type 0 where
  pub connected : Bool
  pub backoff_idx : ℕ

-- What happens in a round: no URL for the stream, or a stream that runs for some time and ends; and
-- whether checkCameraConnected finds the camera connected, if it is asked.
pub record Round : Type 0 where
  pub has_url : Bool
  pub ran_for : ℕ
  pub finds_connected : Bool

-- What the round waits for at its end.
pub data Wait : Type 0 where
  poll_interval : Wait
  reconnect : ℕ → Wait
  no_wait : Wait

-- backoff, for a list of delays that is not empty.
unfoldable pub backoff : List ℕ → Camera → Wait × Camera
backoff delays cam =
    let idx = if leb (length delays) cam.backoff_idx then length delays - 1 else cam.backoff_idx in
    (reconnect (get_or delays idx 0), record cam { backoff_idx = suc idx })

-- A check of the camera at the last delay, and what it comes to; without one, or if the camera is
-- connected, the round ends in a backoff.
unfoldable pub check_then_backoff : List ℕ → Bool → Round → Camera → Wait × Camera
check_then_backoff delays checks r cam =
    if checks && (leb (length delays - 1) cam.backoff_idx && not r.finds_connected)
    then (no_wait, record cam { connected = false })
    else backoff delays cam

-- A round of a camera that is not connected: the wait comes first.
unfoldable pub offline_round : Round → Camera → Wait × Camera
offline_round r cam =
    if r.finds_connected
    then (poll_interval, record { connected = true; backoff_idx = 0 })
    else (poll_interval, cam)

-- A round of a camera that is connected: a stream of more than 60 seconds starts the delays again.
unfoldable pub online_round : List ℕ → Round → Camera → Wait × Camera
online_round delays r cam =
    let stable = record cam { backoff_idx = if ltb 60 r.ran_for then 0 else cam.backoff_idx } in
    if r.has_url
    then check_then_backoff delays (ltb r.ran_for 60) r stable
    else check_then_backoff delays true r cam

unfoldable pub run_round : List ℕ → Round → Camera → Wait × Camera
run_round delays r cam = if cam.connected then online_round delays r cam else offline_round r cam

-- runCamera over some rounds: its waits, and the camera after them.
unfoldable pub run_camera : List ℕ → List Round → Camera → List Wait × Camera
run_camera delays [] cam = ([], cam)
run_camera delays (r ∷ rs) cam =
    let (wait, cam') = run_round delays r cam in
    let (waits, cam'') = run_camera delays rs cam' in (wait ∷ waits, cam'')
