-- ===== src/Weather/History/Conserved.antt =====
-- services/weatherlink-kafka/service/backfill.go: what becomes of the windows.
use roach.Base.{ℕ, ◌+◌, ◌≡◌, refl, ap, ◌∙◌, Bool, List, [], ◌∷◌, count, arith, if◌then◌else◌}
use roach.RateLimiter.{
  RateLimiter, Round, admitted, sleeps, wait_round, record_error, record_request, second,
}
use roach.Weather.Windows.{TimeWindow}
use roach.Weather.Records.{Service}
use roach.Weather.Fetching.{ApiClient}
use roach.Weather.History.{
  Stage, waiting, calling, backing_off, WindowResult, History, Event, run, new_history,
}
use roach.RateLimiter
use roach.Weather.History.Moves.{
  Moves, idles, drops, takes, admits, holds_back, backs_off, retries, gives_up, answers, wakes,
  runs_out, cancels, run-keeps,
}
use roach.Weather.History.Held.{sum_over, sum_over-without}

abbrev pub resolved : List (TimeWindow × WindowResult) → List TimeWindow
resolved [] = []
resolved ((w, result) ∷ results) = w ∷ resolved results

module _ (p : TimeWindow → Bool) where
  abbrev pub one : TimeWindow → Stage → ℕ
  one w stage = if p w then 1 else 0

  -- How many of the windows that pass the test wait in the channel, are held, have a result, or are
  -- lost.
  abbrev pub total : History → ℕ
  total s = count p s.windows + sum_over one s.held + count p (resolved s.results) + count p s.lost

  Moves-total :
      (s : History) {t : History} {es : List RateLimiter.Event} → Moves s es t → total t ≡ total s
  Moves-total s idles = refl
  Moves-total s (drops i w windows e) = omega (arith, ap (count p) e)
  Moves-total s (takes i w windows e) = omega (arith, ap (count p) e)
  Moves-total s (admits i now w r e q) = ground (arith, sum_over-without one i s.held w waiting e)
  Moves-total s (holds_back now d r q) = refl
  Moves-total s (backs_off i now n w e) =
      ground (arith, sum_over-without one i s.held w (calling n) e)
  Moves-total s (retries i n w e few) =
      ground (arith, sum_over-without one i s.held w (calling n) e)
  Moves-total s (gives_up i n w e) = ground (arith, sum_over-without one i s.held w (calling n) e)
  Moves-total s (answers i n w fails sensors e) =
      ground (arith, sum_over-without one i s.held w (calling n) e)
  Moves-total s (wakes i n d w e few) =
      ground (arith, sum_over-without one i s.held w (backing_off n d) e)
  Moves-total s (runs_out i n d w e) =
      ground (arith, sum_over-without one i s.held w (backing_off n d) e)
  Moves-total s (cancels i w stage e) = ground (arith, sum_over-without one i s.held w stage e)

  run-total :
      (api : ApiClient) (fails : ℕ → Bool) (workers : ℕ) (s : History) (events : List Event)
      → total (run api fails workers s events) ≡ total s
  run-total api fails workers s events =
      run-keeps (λ t. total t ≡ total s) api fails workers
        (λ t u es moves same. Moves-total t moves ∙ same) s events refl

  -- However the workers interleave and whatever the API answers, each window of the backfill is as
  -- often in the channel, with a worker, among the results or lost to a context that was done,
  -- taken together, as it was sent.
  pub run-count :
      (api : ApiClient) (fails : ℕ → Bool) (workers : ℕ) (limiter : RateLimiter) (service : Service)
      (windows : List TimeWindow) (events : List Event)
      → let s = run api fails workers (new_history limiter service windows) events in
        count p s.windows + sum_over one s.held + count p (resolved s.results) + count p s.lost
        ≡ count p windows
  run-count api fails workers limiter service windows events =
      omega (arith, run-total api fails workers (new_history limiter service windows) events)
