-- ===== src/Weather/History.antt =====
-- services/weatherlink-kafka/service/backfill.go: the workers of StartBackfill and
-- fetchHistoricDataWithRetry. The workers take their
-- steps in any order; publishing the answer for a window is one step. The times of the limiter are
-- those of the monotonic clock, in nanoseconds.
pub mod Moves
pub mod Held
pub mod Requests
pub mod Conserved
pub mod Limited
pub mod Sent
pub mod Collected
pub mod Mistaken
use roach.Base.{
  ℕ, suc, ◌+◌, ◌-◌, ◌*◌, Bool, true, false, ◌&&◌, not, ltb, leb, ◌==◌, List, [], ◌∷◌, ◌++◌, Option,
  none, some, if◌then◌else◌, Text, nat_eq,
}
use roach.Base.Assoc.{contains}
use roach.Base.Strings.{codes, format_int, contains_text}
use roach.RateLimiter.{
  RateLimiter, Round, admitted, sleeps, second, wait_round, record_request, record_error,
}
use roach.Weather.Fetching.{ApiClient, Response, Fetched, failed, fetched, fetch_historic_data}
use roach.Weather.Windows.{TimeWindow, window_size, split_into_24_hour_windows}
use roach.Weather.Records.{SensorReading, Service, Counts, process_historic_data}

-- strings.Contains(err.Error(), "429")
abbrev pub is_rate_limit : Text → Bool
is_rate_limit e = contains_text e (codes "429")

abbrev pub max_retries : ℕ
max_retries = 3

-- Where a worker stands with its window: in Wait, about to make an attempt, or waiting after one,
-- for a time, before the next.
pub data Stage : Type 0 where
  waiting : Stage
  calling : ℕ → Stage
  backing_off : ℕ → ℕ → Stage

-- windowResult
pub data WindowResult : Type 0 where
  done : Counts → WindowResult
  canceled exhausted : WindowResult

-- `windows` is the channel of the windows, `held` what the workers hold, `lost` the windows that a
-- worker took when the context was done, which stops it. The calls of FetchHistoricData, and how
-- often Wait has let a worker through, are counted to speak of them.
pub record History : Type 0 where
  pub limiter : RateLimiter
  pub service : Service
  pub windows : List TimeWindow
  pub held : List (ℕ × TimeWindow × Stage)
  pub results : List (TimeWindow × WindowResult)
  pub lost : List TimeWindow
  pub stopped : List ℕ
  pub admissions : ℕ
  pub calls : ℕ

-- What a worker holds, and the others.
abbrev pub held_by : ℕ → List (ℕ × TimeWindow × Stage) → Option (TimeWindow × Stage)
held_by i [] = none
held_by i ((j, w, stage) ∷ held) = if j == i then some (w, stage) else held_by i held

abbrev pub without : ℕ → List (ℕ × TimeWindow × Stage) → List (ℕ × TimeWindow × Stage)
without i [] = []
without i ((j, w, stage) ∷ held) = if j == i then held else (j, w, stage) ∷ without i held

abbrev pub move_to : ℕ → TimeWindow → Stage → History → History
move_to i w stage s = record s { held = (i, w, stage) ∷ without i s.held }

abbrev pub finish : ℕ → TimeWindow → WindowResult → History → History
finish i w result s = record s { held = without i s.held; results = (w, result) ∷ s.results }

-- A worker that runs and holds no window. StartBackfill starts as many workers as configured, but no
-- more than there are windows; `workers` is their number.
abbrev pub is_free : ℕ → ℕ → History → Bool
is_free workers i s = ltb i workers && not (contains i s.stopped)

abbrev pub take_from : ℕ → Bool → History → List TimeWindow → History
take_from i is_done s [] = s
take_from i is_done s (w ∷ windows) =
    if is_done
    then record s { windows = windows; lost = w ∷ s.lost; stopped = i ∷ s.stopped }
    else record s { windows = windows; held = (i, w, waiting) ∷ s.held }

abbrev pub take_if_idle : ℕ → ℕ → Bool → History → Option (TimeWindow × Stage) → History
take_if_idle workers i is_done s none =
    if is_free workers i s then take_from i is_done s s.windows else s
take_if_idle workers i is_done s (some h) = s

-- A worker without a window takes the next, and stops if the context is done.
unfoldable pub take_window : ℕ → ℕ → Bool → History → History
take_window workers i is_done s = take_if_idle workers i is_done s (held_by i s.held)

abbrev pub after_round : ℕ → TimeWindow → History → Round × RateLimiter → History
after_round i w s (admitted, r) =
    move_to i w (calling 1) (record s { limiter = r; admissions = suc s.admissions })
after_round i w s (sleeps d, r) = record s { limiter = r }

abbrev pub wait_if : ℕ → ℕ → History → Option (TimeWindow × Stage) → History
wait_if i now s none = s
wait_if i now s (some (w, waiting)) = after_round i w s (wait_round now s.limiter)
wait_if i now s (some (w, calling n)) = s
wait_if i now s (some (w, backing_off n d)) = s

-- One round of Wait.
unfoldable pub wait_once : ℕ → ℕ → History → History
wait_once i now s = wait_if i now s (held_by i s.held)

-- An error of an attempt: after a 429 the limiter gives the backoff, and it is waited for even after
-- the last attempt; after another error of the last attempt the window fails.
abbrev pub after_error : ℕ → ℕ → TimeWindow → ℕ → Text → History → History
after_error i now w n e s =
    let (backoff, r) = record_error now 429 s.limiter in
    if is_rate_limit e
    then move_to i w (backing_off (suc n) backoff) (record s { limiter = r })
    else if ltb n max_retries
    then move_to i w (backing_off (suc n) (second * n)) s
    else finish i w exhausted s

abbrev pub publish_window : (ℕ → Bool) → ℕ → TimeWindow → List SensorReading → History → History
publish_window fails i w sensors s =
    let (service, counts) = process_historic_data fails sensors s.service in
    finish i w (done counts) (record s { limiter = record_request s.limiter; service = service })

abbrev pub after_call : (ℕ → Bool) → ℕ → ℕ → TimeWindow → ℕ → History → Fetched → History
after_call fails i now w n s (failed e) = after_error i now w n e s
after_call fails i now w n s (fetched sensors) = publish_window fails i w sensors s

abbrev pub call_if :
    ApiClient → (ℕ → Bool) → ℕ → ℕ → Response → History → Option (TimeWindow × Stage) → History
call_if api fails i now response s none = s
call_if api fails i now response s (some (w, waiting)) = s
call_if api fails i now response s (some (w, calling n)) =
    after_call fails i now w n (record s { calls = suc s.calls })
      (fetch_historic_data api w response)
call_if api fails i now response s (some (w, backing_off n d)) = s

-- One attempt of fetchHistoricDataWithRetry, and what the worker does with the answer.
unfoldable pub call_once : ApiClient → (ℕ → Bool) → ℕ → ℕ → Response → History → History
call_once api fails i now response s = call_if api fails i now response s (held_by i s.held)

abbrev pub wake_if : ℕ → History → Option (TimeWindow × Stage) → History
wake_if i s none = s
wake_if i s (some (w, waiting)) = s
wake_if i s (some (w, calling n)) = s
wake_if i s (some (w, backing_off n d)) =
    if leb n max_retries then move_to i w (calling n) s else finish i w exhausted s

-- The wait after an attempt is over: the next attempt, or none is left.
unfoldable pub wake : ℕ → History → History
wake i s = wake_if i s (held_by i s.held)

abbrev pub cancel_if : ℕ → History → Option (TimeWindow × Stage) → History
cancel_if i s none = s
cancel_if i s (some (w, waiting)) = finish i w canceled s
cancel_if i s (some (w, calling n)) = s
cancel_if i s (some (w, backing_off n d)) = finish i w canceled s

-- The context is done while a worker waits.
unfoldable pub cancel : ℕ → History → History
cancel i s = cancel_if i s (held_by i s.held)

-- The steps, each by a worker.
pub data Event : Type 0 where
  taking : ℕ → Bool → Event
  round_at : ℕ → ℕ → Event
  call_at : ℕ → ℕ → Response → Event
  waking canceling : ℕ → Event

module _ (api : ApiClient) (fails : ℕ → Bool) (workers : ℕ) where
  unfoldable pub step : History → Event → History
  step s (taking i is_done) = take_window workers i is_done s
  step s (round_at i now) = wait_once i now s
  step s (call_at i now response) = call_once api fails i now response s
  step s (waking i) = wake i s
  step s (canceling i) = cancel i s

  unfoldable pub run : History → List Event → History
  run s [] = s
  run s (e ∷ events) = run (step s e) events

-- StartBackfill before the first step.
abbrev pub new_history : RateLimiter → Service → List TimeWindow → History
new_history limiter service windows = record {
  limiter = limiter;
  service = service;
  windows = windows;
  held = [];
  results = [];
  lost = [];
  stopped = [];
  admissions = 0;
  calls = 0;
}

-- What StartBackfill adds up for its log, or that it was canceled.
pub data Totals : Type 0 where
  aborted : Totals
  completed : ℕ → ℕ → ℕ → Totals

-- A result reaches the collector: the first that is context.Canceled ends it.
unfoldable pub collect_next : WindowResult → Totals → Totals
collect_next result aborted = aborted
collect_next (done c) (completed published skipped errors) =
    completed (published + c.messages_published) (skipped + c.messages_skipped) errors
collect_next canceled (completed published skipped errors) = aborted
collect_next exhausted (completed published skipped errors) =
    completed published skipped (suc errors)

-- The results come in the order in which the workers sent them, the last one first in the list.
unfoldable pub collect : List (TimeWindow × WindowResult) → Totals
collect [] = completed 0 0 0
collect ((w, result) ∷ results) = collect_next result (collect results)
