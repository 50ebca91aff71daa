-- ===== src/Weather/History/Moves.antt =====
-- services/weatherlink-kafka/service/backfill.go: what a step of a worker can come to, and what it
-- asks of the limiter.
use roach.Base.{
  ℕ, suc, ◌*◌, ◌≡◌, refl, Bool, true, false, List, [], ◌∷◌, Option, none, some, if◌then◌else◌,
  Bool-cases, inl, inr, leb, ltb, Text,
}
use roach.RateLimiter.{
  RateLimiter, Round, admitted, sleeps, second, wait_round, record_error, rounds, requests, errors,
}
use roach.RateLimiter
use roach.Weather.Windows.{TimeWindow}
use roach.Weather.Records.{SensorReading}
use roach.Weather.Fetching.{ApiClient, Response, Fetched, failed, fetched, fetch_historic_data}
use roach.Weather.History.{
  is_rate_limit, max_retries, Stage, waiting, calling, backing_off, History, held_by, is_free,
  take_from, take_if_idle, take_window, after_round, wait_if, wait_once, after_error,
  publish_window, after_call, call_if, call_once, wake_if, wake, cancel_if, cancel, Event, taking,
  round_at, call_at, waking, canceling, step, run, move_to, finish, exhausted, canceled,
}

-- What a step asks of the limiter.
abbrev pub asked_after : ℕ → Fetched → List RateLimiter.Event
asked_after now (failed e) = if is_rate_limit e then errors now 429 ∷ [] else []
asked_after now (fetched sensors) = requests ∷ []

abbrev pub asked_in_round : ℕ → Option (TimeWindow × Stage) → List RateLimiter.Event
asked_in_round now none = []
asked_in_round now (some (w, waiting)) = rounds now ∷ []
asked_in_round now (some (w, calling n)) = []
asked_in_round now (some (w, backing_off n d)) = []

abbrev pub asked_in_call :
    ApiClient → ℕ → Response → Option (TimeWindow × Stage) → List RateLimiter.Event
asked_in_call api now response none = []
asked_in_call api now response (some (w, waiting)) = []
asked_in_call api now response (some (w, calling n)) =
    asked_after now (fetch_historic_data api w response)
asked_in_call api now response (some (w, backing_off n d)) = []

abbrev pub asked : ApiClient → History → Event → List RateLimiter.Event
asked api s (taking i is_done) = []
asked api s (round_at i now) = asked_in_round now (held_by i s.held)
asked api s (call_at i now response) = asked_in_call api now response (held_by i s.held)
asked api s (waking i) = []
asked api s (canceling i) = []

abbrev pub called : History → History
called s = record s { calls = suc s.calls }

-- The moves between two states, with what they ask of the limiter.
pub data Moves (s : History) : List RateLimiter.Event → History → Type 0 where
  idles : Moves s [] s
  drops :
      (i : ℕ) (w : TimeWindow) (windows : List TimeWindow)
      → s.windows ≡ w ∷ windows
      → Moves s [] (record s { windows = windows; lost = w ∷ s.lost; stopped = i ∷ s.stopped })
  takes :
      (i : ℕ) (w : TimeWindow) (windows : List TimeWindow)
      → s.windows ≡ w ∷ windows
      → Moves s [] (record s { windows = windows; held = (i, w, waiting) ∷ s.held })
  admits :
      (i now : ℕ) (w : TimeWindow) (r : RateLimiter)
      → held_by i s.held ≡ some (w, waiting)
      → wait_round now s.limiter ≡ (admitted, r)
      → Moves s
          (rounds now ∷ [])
          (move_to i w (calling 1) (record s { limiter = r; admissions = suc s.admissions }))
  holds_back :
      (now d : ℕ) (r : RateLimiter)
      → wait_round now s.limiter ≡ (sleeps d, r)
      → Moves s (rounds now ∷ []) (record s { limiter = r })
  backs_off :
      (i now n : ℕ) (w : TimeWindow)
      → held_by i s.held ≡ some (w, calling n)
      → Moves s (errors now 429 ∷ []) (
          move_to i w
            (backing_off (suc n) (record_error now 429 s.limiter).0)
            (record (called s) { limiter = (record_error now 429 s.limiter).1 }))
  retries :
      (i n : ℕ) (w : TimeWindow)
      → held_by i s.held ≡ some (w, calling n)
      → ltb n max_retries ≡ true
      → Moves s [] (move_to i w (backing_off (suc n) (second * n)) (called s))
  gives_up :
      (i n : ℕ) (w : TimeWindow)
      → held_by i s.held ≡ some (w, calling n)
      → Moves s [] (finish i w exhausted (called s))
  answers :
      (i n : ℕ) (w : TimeWindow) (fails : ℕ → Bool) (sensors : List SensorReading)
      → held_by i s.held ≡ some (w, calling n)
      → Moves s (requests ∷ []) (publish_window fails i w sensors (called s))
  wakes :
      (i n d : ℕ) (w : TimeWindow)
      → held_by i s.held ≡ some (w, backing_off n d)
      → leb n max_retries ≡ true
      → Moves s [] (move_to i w (calling n) s)
  runs_out :
      (i n d : ℕ) (w : TimeWindow)
      → held_by i s.held ≡ some (w, backing_off n d)
      → Moves s [] (finish i w exhausted s)
  cancels :
      (i : ℕ) (w : TimeWindow) (stage : Stage)
      → held_by i s.held ≡ some (w, stage)
      → Moves s [] (finish i w canceled s)

take_from-Moves :
    (i : ℕ) (is_done : Bool) (s : History) (windows : List TimeWindow)
    → s.windows ≡ windows
    → Moves s [] (take_from i is_done s windows)
take_from-Moves i is_done s [] e = idles
take_from-Moves i true s (w ∷ windows) e = drops i w windows e
take_from-Moves i false s (w ∷ windows) e = takes i w windows e

take_if_idle-Moves :
    (workers i : ℕ) (is_done : Bool) (s : History) (o : Option (TimeWindow × Stage))
    → Moves s [] (take_if_idle workers i is_done s o)
take_if_idle-Moves workers i is_done s (some h) = idles
take_if_idle-Moves workers i is_done s none = elim (Bool-cases (is_free workers i s)) [
  | inl e ↦ rw e (take_from-Moves i is_done s s.windows refl)
  | inr e ↦ rw e idles
]

after_round-Moves :
    (i now : ℕ) (w : TimeWindow) (s : History) (q : Round × RateLimiter)
    → held_by i s.held ≡ some (w, waiting)
    → wait_round now s.limiter ≡ q
    → Moves s (rounds now ∷ []) (after_round i w s q)
after_round-Moves i now w s (admitted, r) h e = admits i now w r h e
after_round-Moves i now w s (sleeps d, r) h e = holds_back now d r e

wait_if-Moves :
    (i now : ℕ) (s : History) (o : Option (TimeWindow × Stage))
    → held_by i s.held ≡ o
    → Moves s (asked_in_round now o) (wait_if i now s o)
wait_if-Moves i now s none e = idles
wait_if-Moves i now s (some (w, calling n)) e = idles
wait_if-Moves i now s (some (w, backing_off n d)) e = idles
wait_if-Moves i now s (some (w, waiting)) e =
    after_round-Moves i now w s (wait_round now s.limiter) e refl

after_error-Moves :
    (i now : ℕ) (w : TimeWindow) (n : ℕ) (text : Text) (s : History)
    → held_by i s.held ≡ some (w, calling n)
    → Moves s (asked_after now (failed text)) (after_error i now w n text (called s))
after_error-Moves i now w n text s e = elim (Bool-cases (is_rate_limit text)) [
  | inl f ↦ rw f (backs_off i now n w e)
  | inr f ↦ elim (Bool-cases (ltb n max_retries)) [
    | inl g ↦ rw (f, g) (retries i n w e g)
    | inr g ↦ rw (f, g) (gives_up i n w e)
  ]
]

after_call-Moves :
    (fails : ℕ → Bool) (i now : ℕ) (w : TimeWindow) (n : ℕ) (s : History) (a : Fetched)
    → held_by i s.held ≡ some (w, calling n)
    → Moves s (asked_after now a) (after_call fails i now w n (called s) a)
after_call-Moves fails i now w n s (fetched sensors) e = answers i n w fails sensors e
after_call-Moves fails i now w n s (failed text) e = after_error-Moves i now w n text s e

call_if-Moves :
    (api : ApiClient) (fails : ℕ → Bool) (i now : ℕ) (response : Response) (s : History)
    (o : Option (TimeWindow × Stage))
    → held_by i s.held ≡ o
    → Moves s (asked_in_call api now response o) (call_if api fails i now response s o)
call_if-Moves api fails i now response s none e = idles
call_if-Moves api fails i now response s (some (w, waiting)) e = idles
call_if-Moves api fails i now response s (some (w, backing_off n d)) e = idles
call_if-Moves api fails i now response s (some (w, calling n)) e =
    after_call-Moves fails i now w n s (fetch_historic_data api w response) e

wake_if-Moves :
    (i : ℕ) (s : History) (o : Option (TimeWindow × Stage))
    → held_by i s.held ≡ o
    → Moves s [] (wake_if i s o)
wake_if-Moves i s none e = idles
wake_if-Moves i s (some (w, waiting)) e = idles
wake_if-Moves i s (some (w, calling n)) e = idles
wake_if-Moves i s (some (w, backing_off n d)) e = elim (Bool-cases (leb n max_retries)) [
  | inl f ↦ rw f (wakes i n d w e f)
  | inr f ↦ rw f (runs_out i n d w e)
]

cancel_if-Moves :
    (i : ℕ) (s : History) (o : Option (TimeWindow × Stage))
    → held_by i s.held ≡ o
    → Moves s [] (cancel_if i s o)
cancel_if-Moves i s none e = idles
cancel_if-Moves i s (some (w, waiting)) e = cancels i w waiting e
cancel_if-Moves i s (some (w, calling n)) e = idles
cancel_if-Moves i s (some (w, backing_off n d)) e = cancels i w (backing_off n d) e

pub step-Moves :
    (api : ApiClient) (fails : ℕ → Bool) (workers : ℕ) (s : History) (e : Event)
    → Moves s (asked api s e) (step api fails workers s e)
unfolding step take_window wait_once call_once wake cancel
step-Moves api fails workers s (taking i b) = take_if_idle-Moves workers i b s (held_by i s.held)
step-Moves api fails workers s (round_at i now) = wait_if-Moves i now s (held_by i s.held) refl
step-Moves api fails workers s (call_at i now response) =
    call_if-Moves api fails i now response s (held_by i s.held) refl
step-Moves api fails workers s (waking i) = wake_if-Moves i s (held_by i s.held) refl
step-Moves api fails workers s (canceling i) = cancel_if-Moves i s (held_by i s.held) refl

-- What every move keeps holds after any run.
pub run-keeps {ℓ} :
    (P : History → Type ℓ) (api : ApiClient) (fails : ℕ → Bool) (workers : ℕ)
    → ((s t : History) (es : List RateLimiter.Event) → Moves s es t → P s → P t)
    → (s : History) (events : List Event) → P s
    → P (run api fails workers s events)
unfolding run
run-keeps P api fails workers keeps s [] h = h
run-keeps P api fails workers keeps s (e ∷ events) h =
    run-keeps P api fails workers keeps (step api fails workers s e) events
      (keeps s (step api fails workers s e) (asked api s e) (step-Moves api fails workers s e) h)
