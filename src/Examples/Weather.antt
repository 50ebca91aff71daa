-- ===== src/Examples/Weather.antt =====
-- services/weatherlink-kafka at concrete inputs.
use roach.Base.{
  ℕ, zero, suc, ◌+◌, ◌-◌, ◌*◌, ◌≤◌, ◌<◌, ◌≡◌, refl, Bool, true, false, List, [], ◌∷◌, none, some,
  arith,
}
use roach.Base.Strings.{codes}
use roach.RateLimiter.{
  RateLimiter, second, token, new_rate_limiter, wait_alone, record_error, Event, rounds, requests,
  errors, run,
}
use roach.RateLimiter.Bounds.{run-new_rate_limiter-le}
use roach.RateLimiter.Backoff.{record_error-backoff}
use roach.RateLimiter.Waiting.{wait_alone-Returns, wait_alone_never}
use roach.RateLimiter.Waiting.Rounds.{Returns}
use roach.Weather.Windows.{
  TimeWindow, split_into_24_hour_windows, split_from, Splits, split_into_24_hour_windows_lem,
}
use roach.Weather.Records.{DataPoint, SensorReading, Service, process_historic_data}
use roach.Weather.Complete.{AreKnown, process_historic_data-AreKnown}

abbrev history : List Event
history = rounds (2 * second) ∷ requests ∷ errors (3 * second) 429 ∷ rounds (5 * second) ∷ []

run-new_rate_limiter-le_example :
    (run (new_rate_limiter second 8 1000) history).0 * token
    ≤ 8 * 2 * token + 8 * (5 * second - second)
run-new_rate_limiter-le_example =
    run-new_rate_limiter-le second 8 1000 history (omega arith, (omega arith, tt))

abbrev limiter : RateLimiter
limiter = record {
  tokens_per_second = 8;
  burst_size = 16;
  hourly_limit = 1000;
  tokens = 0;
  last_refill = second;
  hourly_requests = 900;
  hour_start = second;
  consecutive_errors = 2;
  blocked_until = 0;
}

in_time : 3 * second < 2 * second + (record_error (2 * second) 429 limiter).0
in_time = omega (arith, record_error-backoff (2 * second) 429 limiter)

wait_alone-Returns_example : Returns 5 (2 * second) limiter
wait_alone-Returns_example =
    wait_alone-Returns (2 * second) limiter (omega arith, omega arith, omega arith, omega arith)

abbrev capped : RateLimiter
capped = new_rate_limiter 0 8 1

capped_limit : capped.hourly_limit ≤ 1
unfolding new_rate_limiter
capped_limit = omega arith

wait_alone_never_example : wait_alone 100 second capped ≡ none
wait_alone_never_example = wait_alone_never 100 second capped capped_limit

split_into_24_hour_windows_lem_example :
    Splits 1000 200_000 (split_into_24_hour_windows 1000 200_000)
split_into_24_hour_windows_lem_example = split_into_24_hour_windows_lem 1000 200_000

abbrev windows : List TimeWindow
windows =
    record { start = 1000; end = 87_400 }
    ∷ record { start = 87_400; end = 173_800 }
    ∷ record { start = 173_800; end = 200_000 }
    ∷ []

splits : split_into_24_hour_windows 1000 200_000 ≡ some windows
unfolding split_into_24_hour_windows split_from
splits = refl

abbrev service : Service
service = record {
  categories = (5, codes "ISS") ∷ [];
  existing_record_keys = codes "5:100" ∷ [];
  published = [];
  attempts = 0;
}

abbrev point : ℕ → DataPoint
point ts = record { body = codes "{}"; parses = true; ts = ts }

abbrev readings : List SensorReading
readings =
    record {
      lsid = 5;
      sensor_type = 43;
      data_structure_type = 10;
      points = point 100 ∷ point 101 ∷ point 101 ∷ [];
    }
    ∷ []

abbrev fails_first : ℕ → Bool
fails_first zero = true
fails_first (suc n) = false

process_historic_data-AreKnown_example :
    AreKnown service.categories (process_historic_data (λ n. false) readings service).0 readings
process_historic_data-AreKnown_example =
    process_historic_data-AreKnown (λ n. false) readings service (λ n. refl)
