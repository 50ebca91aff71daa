-- ===== src/Weather/History/Limited.antt =====
-- services/weatherlink-kafka/service/backfill.go with ratelimit.go: what the workers of the backfill
-- do with the limiter, and how many requests it leaves them.
use roach.Base.{ℕ, ◌+◌, ◌-◌, ◌*◌, ◌≤◌, ◌≡◌, refl, ap, ◌∙◌, Bool, List, [], ◌∷◌, ◌++◌, arith}
use roach.RateLimiter.{
  RateLimiter, Round, admitted, sleeps, token, or_default, new_rate_limiter, wait_round,
  record_request, record_error, rounds, requests, errors, one_if,
}
use roach.RateLimiter
use roach.RateLimiter.Bounds.{InOrder, end_of, run-new_rate_limiter-le}
use roach.Weather.Windows.{TimeWindow}
use roach.Weather.Records.{Service}
use roach.Weather.Fetching.{ApiClient}
use roach.Weather.History.Moves.{
  Moves, idles, drops, takes, admits, holds_back, backs_off, retries, gives_up, answers, wakes,
  runs_out, cancels, step-Moves, asked,
}
use roach.Weather.History.{History, Event, step, run, new_history}
use roach.Weather.History.Requests.{run-IsPaid}

-- The limiter has answered for all that happened between two states.
record Follows (s : History) (es : List RateLimiter.Event) (t : History) : Type 0 where
  counted : (RateLimiter.run s.limiter es).0 + s.admissions ≡ t.admissions
  reached : (RateLimiter.run s.limiter es).1 ≡ t.limiter

run-append :
    (r : RateLimiter) (es fs : List RateLimiter.Event)
    → (RateLimiter.run r (es ++ fs)).0
        ≡ (RateLimiter.run r es).0 + (RateLimiter.run (RateLimiter.run r es).1 fs).0
      × (RateLimiter.run r (es ++ fs)).1 ≡ (RateLimiter.run (RateLimiter.run r es).1 fs).1
unfolding RateLimiter.run
run-append r [] fs = (omega arith, refl)
run-append r (e ∷ es) fs =
    let (n, r') = RateLimiter.step r e in
    let (counts, ends) = run-append r' es fs in (omega (arith, counts), ends)

append-Follows :
    (s t u : History) (es fs : List RateLimiter.Event)
    → Follows s es t
    → Follows t fs u
    → Follows s (es ++ fs) u
append-Follows s t u es fs h g =
    let (counts, ends) = run-append s.limiter es fs in
    let moved : RateLimiter.run (RateLimiter.run s.limiter es).1 fs ≡ RateLimiter.run t.limiter fs =
      ap (λ r. RateLimiter.run r fs) h.reached in
    record {
      counted = omega (arith, counts, ap (λ q. q.0) moved, h.counted, g.counted);
      reached = ends ∙ ap (λ q. q.1) moved ∙ g.reached;
    }

Moves-Follows :
    (s : History) {t : History} {es : List RateLimiter.Event} → Moves s es t → Follows s es t
unfolding RateLimiter.run RateLimiter.step
Moves-Follows s idles = record { counted = omega arith; reached = refl }
Moves-Follows s (drops i w windows e) = record { counted = omega arith; reached = refl }
Moves-Follows s (takes i w windows e) = record { counted = omega arith; reached = refl }
Moves-Follows s (admits i now w r e q) = record {
  counted = omega (arith, ap (λ o. one_if o.0) q);
  reached = ap (λ o. o.1) q;
}
Moves-Follows s (holds_back now d r q) = record {
  counted = omega (arith, ap (λ o. one_if o.0) q);
  reached = ap (λ o. o.1) q;
}
Moves-Follows s (backs_off i now n w e) = record { counted = omega arith; reached = refl }
Moves-Follows s (retries i n w e few) = record { counted = omega arith; reached = refl }
Moves-Follows s (gives_up i n w e) = record { counted = omega arith; reached = refl }
Moves-Follows s (answers i n w fails sensors e) = record { counted = omega arith; reached = refl }
Moves-Follows s (wakes i n d w e few) = record { counted = omega arith; reached = refl }
Moves-Follows s (runs_out i n d w e) = record { counted = omega arith; reached = refl }
Moves-Follows s (cancels i w stage e) = record { counted = omega arith; reached = refl }

module _ (api : ApiClient) (fails : ℕ → Bool) (workers : ℕ) where
  -- What a run asks of the limiter.
  abbrev pub asked_by : History → List Event → List RateLimiter.Event
  asked_by s [] = []
  asked_by s (e ∷ events) = asked api s e ++ asked_by (step api fails workers s e) events

  run-Follows :
      (s : History) (events : List Event)
      → Follows s (asked_by s events) (run api fails workers s events)
  unfolding run
  run-Follows s [] = Moves-Follows s idles
  run-Follows s (e ∷ events) =
      let t = step api fails workers s e in
      append-Follows s t (run api fails workers t events) (asked api s e) (asked_by t events)
        (Moves-Follows s (step-Moves api fails workers s e)) (run-Follows t events)

  -- However the workers interleave and whatever the API answers, when the limiter is new and the times at
  -- which it is used do not go back, the calls of FetchHistoricData are at most three for each
  -- request that the token bucket allows, the burst and the rate times the time gone by.
  pub run-calls-le :
      (start tokens_per_second hourly_limit : ℕ) (service : Service) (windows : List TimeWindow)
      (events : List Event)
      → let s =
          new_history (new_rate_limiter start tokens_per_second hourly_limit) service windows in
        InOrder start (asked_by s events)
        → let rate = or_default tokens_per_second 8 in
          (run api fails workers s events).calls * token
          ≤ 3 * (rate * 2 * token + rate * (end_of start (asked_by s events) - start))
  run-calls-le start tokens_per_second hourly_limit service windows events ordered =
      let s = new_history (new_rate_limiter start tokens_per_second hourly_limit) service windows in
      let paid =
        (run-IsPaid api fails workers s events
          (record { paid = omega arith; within = refl })).paid in
      let follows = (run-Follows s events).counted in
      let few =
        run-new_rate_limiter-le start tokens_per_second hourly_limit (asked_by s events) ordered in
      omega (arith, paid, follows, few)
