-- ===== src/Weather/History/Sent.antt =====
-- services/weatherlink-kafka/service/backfill.go: what the backfill publishes.
use roach.Base.{
  ℕ, ◌+◌, ◌≡◌, Bool, List, [], ◌∷◌, arith, Option-cases, inl, inr, Text, length, nat_eq,
}
use roach.Base.Assoc.{lookup}
use roach.RateLimiter.{RateLimiter, Round, admitted, sleeps, wait_round}
use roach.Weather.Fetching.{ApiClient}
use roach.Weather.Windows.{TimeWindow}
use roach.Weather.Records.{
  DataPoint, SensorReading, Service, Counts, get_topic_for_category, publish, historic_point,
  historic_points, historic_sensors, no_counts, process_historic_data,
}
use roach.RateLimiter
use roach.Weather.History.Moves.{
  Moves, idles, drops, takes, admits, holds_back, backs_off, retries, gives_up, answers, wakes,
  runs_out, cancels, run-keeps,
}
use roach.Weather.History.{WindowResult, done, canceled, exhausted, History, Event, run}

-- The messages that a call published are those that it counts, beyond the first `n`.
abbrev IsCounted : ℕ → Service × Counts → Type 0
IsCounted n (s, c) = length s.published ≡ n + c.messages_published

historic_points-IsCounted :
    (n : ℕ) (fails : ℕ → Bool) (r : SensorReading) (topic : Text) (ps : List DataPoint)
    (s : Service × Counts)
    → IsCounted n s
    → IsCounted n (historic_points fails r topic ps s)
unfolding historic_points historic_point publish
historic_points-IsCounted n fails r topic [] s h = h
historic_points-IsCounted n fails r topic (p ∷ ps) (s, c) h =
    historic_points-IsCounted n fails r topic ps (historic_point fails r topic p (s, c))
      (ground (arith, h))

historic_sensors-IsCounted :
    (n : ℕ) (fails : ℕ → Bool) (rs : List SensorReading) (s : Service × Counts)
    → IsCounted n s
    → IsCounted n (historic_sensors fails rs s)
unfolding historic_sensors
historic_sensors-IsCounted n fails [] s h = h
historic_sensors-IsCounted n fails (r ∷ rs) (s, c) h =
    elim (Option-cases (lookup r.lsid s.categories)) [
      | inl e ↦ rw (e, historic_sensors) (historic_sensors-IsCounted n fails rs (s, c) h)
      | inr (category, e) ↦
          let topic = get_topic_for_category category in
          rw (e, historic_sensors)
            (historic_sensors-IsCounted n fails rs (historic_points fails r topic r.points (s, c))
              (historic_points-IsCounted n fails r topic r.points (s, c) h))
    ]

process_historic_data-IsCounted :
    (fails : ℕ → Bool) (rs : List SensorReading) (s : Service)
    → IsCounted (length s.published) (process_historic_data fails rs s)
unfolding process_historic_data
process_historic_data-IsCounted fails rs s =
    historic_sensors-IsCounted (length s.published) fails rs (s, no_counts) (omega arith)

-- What the results say was published.
abbrev pub published_by : WindowResult → ℕ
published_by (done c) = c.messages_published
published_by canceled = 0
published_by exhausted = 0

abbrev pub published_in : List (TimeWindow × WindowResult) → ℕ
published_in [] = 0
published_in ((w, result) ∷ results) = published_by result + published_in results

pub record HasSent (n : ℕ) (s : History) : Type 0 where
  pub sent : length s.service.published ≡ n + published_in s.results

Moves-HasSent :
    (n : ℕ) (s : History) {t : History} {es : List RateLimiter.Event}
    → Moves s es t
    → HasSent n s
    → HasSent n t
Moves-HasSent n s idles h = h
Moves-HasSent n s (drops i w windows e) h = record { sent = h.sent }
Moves-HasSent n s (takes i w windows e) h = record { sent = h.sent }
Moves-HasSent n s (admits i now w r e q) h = record { sent = h.sent }
Moves-HasSent n s (holds_back now d r q) h = record { sent = h.sent }
Moves-HasSent n s (backs_off i now k w e) h = record { sent = h.sent }
Moves-HasSent n s (retries i k w e few) h = record { sent = h.sent }
Moves-HasSent n s (gives_up i k w e) h = record { sent = omega (arith, h.sent) }
Moves-HasSent n s (answers i k w fails sensors e) h = record {
  sent = omega (arith, h.sent, process_historic_data-IsCounted fails sensors s.service);
}
Moves-HasSent n s (wakes i k d w e few) h = record { sent = h.sent }
Moves-HasSent n s (runs_out i k d w e) h = record { sent = omega (arith, h.sent) }
Moves-HasSent n s (cancels i w stage e) h = record { sent = omega (arith, h.sent) }

pub run-HasSent :
    (n : ℕ) (api : ApiClient) (fails : ℕ → Bool) (workers : ℕ) (s : History) (events : List Event)
    → HasSent n s
    → HasSent n (run api fails workers s events)
run-HasSent n api fails workers =
    run-keeps (HasSent n) api fails workers (λ s t es moves h. Moves-HasSent n s moves h)
