-- ===== src/Examples/History.antt =====
-- The theorems about services/weatherlink-kafka/service/backfill.go, its workers, at concrete inputs.
use roach.Base.{
  length, ℕ, ◌+◌, ◌-◌, ◌*◌, ◌≤◌, ◌≡◌, refl, arith, Bool, true, false, List, [], ◌∷◌, some, count,
  ◌++◌, ltb,
}
use roach.Base.Strings.{codes, to_upper, contains_text, format_int, digits, digits_of, has_prefix}
use roach.RateLimiter.{
  second, token, new_rate_limiter, record_error, reset_hour, refill, take_token, wait_round,
  record_request,
}
use roach.RateLimiter.Bounds.{InOrder, end_of}
use roach.Weather.Windows.{TimeWindow}
use roach.Weather.Records.{
  Service, SensorReading, DataPoint, historic_points, historic_point, historic_sensors,
  process_historic_data, publish, record_key, get_topic_for_category,
}
use roach.Weather.Fetching.{ApiClient, transport_failed, answered, fetch_historic_data}
use roach.Weather.History.{
  calling, backing_off, History, held_by, take_window, wait_once, call_once, wake, Event, taking,
  round_at, call_at, waking, collect, completed, collect_next, step, run, new_history,
}
use roach.Weather.History.Held.{sum_over}
use roach.Weather.History.Conserved.{resolved, one, run-count}
use roach.Weather.History.Limited.{asked_by, run-calls-le}
use roach.Weather.History.Collected.{done_in, run-collect}
use roach.Weather.History.Mistaken.{call_once_mistaken}

abbrev api : ApiClient
api = record { api_key = codes "k"; station_id = codes "s" }

abbrev windows : List TimeWindow
windows =
    record { start = 1_742_900_000; end = 1_742_986_400 }
    ∷ record { start = 1_742_986_400; end = 1_743_000_000 }
    ∷ []

abbrev service : Service
service = record { categories = []; existing_record_keys = []; published = []; attempts = 0 }

abbrev fails_never : ℕ → Bool
fails_never n = false

-- One worker is refused and waits, the other gets its answer.
abbrev events : List Event
events =
    taking 0 false
    ∷ taking 1 false
    ∷ round_at 0 (2 * second)
    ∷ round_at 1 (2 * second)
    ∷ call_at 0 (3 * second) (transport_failed (codes "EOF"))
    ∷ call_at 1 (4 * second) (answered [])
    ∷ waking 0
    ∷ []

abbrev early : TimeWindow → Bool
early w = ltb w.start 1_742_950_000

run-count_example :
    let s =
      run api fails_never 2 (new_history (new_rate_limiter second 8 1000) service windows) events in
    count early s.windows
      + sum_over (one early) s.held
      + count early (resolved s.results)
      + count early s.lost
    ≡ count early windows
run-count_example =
    run-count early api fails_never 2 (new_rate_limiter second 8 1000) service windows events

in_order : InOrder second (
    asked_by api fails_never 2
      (new_history (new_rate_limiter second 8 1000) service windows)
      events)
unfolding step take_window wait_once call_once wake fetch_historic_data new_rate_limiter
    contains_text has_prefix format_int digits digits_of wait_round reset_hour refill take_token
    record_error record_request
in_order = (omega arith, (omega arith, tt))

run-calls-le_example :
    let s = new_history (new_rate_limiter second 8 1000) service windows in
    (run api fails_never 2 s events).calls * token
    ≤ 3 * (8 * 2 * token + 8 * (end_of second (asked_by api fails_never 2 s events) - second))
run-calls-le_example = run-calls-le api fails_never 2 second 8 1000 service windows events in_order

abbrev calling_once : History
calling_once = record {
  limiter = new_rate_limiter second 8 1000;
  service = service;
  windows = [];
  held = (0, record { start = 1_742_900_000; end = 1_742_986_400 }, calling 3) ∷ [];
  results = [];
  lost = [];
  stopped = [];
  admissions = 1;
  calls = 2;
}

named : contains_text (format_int 1_742_900_000) (codes "429") ≡ true
unfolding contains_text has_prefix format_int digits digits_of
named = refl

call_once_mistaken_example :
    let s' =
      call_once api fails_never 0 (3 * second) (transport_failed (codes "EOF")) calling_once in
    let (backoff, limiter) = record_error (3 * second) 429 calling_once.limiter in
    held_by 0 s'.held
      ≡ some (record { start = 1_742_900_000; end = 1_742_986_400 }, backing_off 4 backoff)
    × s'.limiter ≡ limiter
    × 3 * second + second ≤ s'.limiter.blocked_until
call_once_mistaken_example =
    call_once_mistaken api fails_never 0 (3 * second) 3
      (record { start = 1_742_900_000; end = 1_742_986_400 }) (codes "EOF") calling_once refl
      (omega arith) (omega arith) named

abbrev station_service : Service
station_service = record {
  categories = (5, codes "ISS") ∷ [];
  existing_record_keys = codes "5:100" ∷ [];
  published = [];
  attempts = 0;
}

abbrev point : ℕ → DataPoint
point ts = record { body = codes "{}"; parses = true; ts = ts }

abbrev readings : List SensorReading
readings =
    record {
      lsid = 5;
      sensor_type = 43;
      data_structure_type = 10;
      points = point 100 ∷ point 101 ∷ point 102 ∷ [];
    }
    ∷ []

abbrev refused_at : ℕ → List Event
refused_at t = call_at 0 t (transport_failed (codes "EOF")) ∷ waking 0 ∷ []

-- The first window fails three times, the second has an answer.
abbrev until_the_end : List Event
until_the_end =
    taking 0 false
      ∷ taking 1 false
      ∷ round_at 0 (2 * second)
      ∷ round_at 1 (2 * second)
      ∷ refused_at (3 * second)
    ++ refused_at (5 * second)
    ++ call_at 1 (6 * second) (answered readings) ∷ refused_at (9 * second)

abbrev ended : History
ended =
    run api fails_never 2 (new_history (new_rate_limiter second 8 1000) station_service windows)
      until_the_end

ended_totals : (ended.windows ≡ []) × (ended.held ≡ []) × (collect ended.results ≡ completed 2 1 1)
unfolding step run take_window wait_once call_once wake fetch_historic_data new_rate_limiter
    contains_text has_prefix format_int digits digits_of wait_round reset_hour refill take_token
    record_error record_request collect collect_next process_historic_data historic_sensors
    historic_points historic_point publish record_key get_topic_for_category to_upper
ended_totals = (refl, refl, refl)

run-collect_example :
    (length ended.service.published ≡ 0 + 2) × (done_in ended.results + 1 + length ended.lost ≡ 2)
run-collect_example =
    run-collect api fails_never 2 (new_rate_limiter second 8 1000) station_service windows
      until_the_end 2 1 1 ended_totals.0 ended_totals.1 ended_totals.2
