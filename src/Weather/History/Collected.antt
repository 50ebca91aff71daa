-- ===== src/Weather/History/Collected.antt =====
-- services/weatherlink-kafka/service/backfill.go: the totals of StartBackfill.
use roach.Base.{
  ℕ, ◌+◌, ◌≡◌, refl, ap, ◌∙◌, Bool, true, false, List, [], ◌∷◌, arith, if◌then◌else◌, length, subst,
  nat_eq, count,
}
use roach.RateLimiter.{RateLimiter}
use roach.Weather.Fetching.{ApiClient}
use roach.Weather.Windows.{TimeWindow}
use roach.Weather.Records.{Service}
use roach.Weather.History.{
  WindowResult, done, canceled, exhausted, Event, run, new_history, Totals, aborted, completed,
  collect_next, collect,
}
use roach.Weather.History.Sent.{published_in, run-HasSent}
use roach.Weather.History.Held.{sum_over}
use roach.Weather.History.Conserved.{resolved, one, run-count}

-- How many of the results are answers.
abbrev is_done : WindowResult → Bool
is_done (done c) = true
is_done canceled = false
is_done exhausted = false

abbrev pub done_in : List (TimeWindow × WindowResult) → ℕ
done_in [] = 0
done_in ((w, result) ∷ results) = (if is_done result then 1 else 0) + done_in results

-- What the totals say of the results.
Accounts : List (TimeWindow × WindowResult) → Totals → Type 0
Accounts results aborted = Unit
Accounts results (completed p k e) =
    (p ≡ published_in results) × (done_in results + e ≡ length results)

collect_next-Accounts :
    (w : TimeWindow) (r : WindowResult) (results : List (TimeWindow × WindowResult)) (t : Totals)
    → Accounts results t
    → Accounts ((w, r) ∷ results) (collect_next r t)
unfolding collect_next Accounts
collect_next-Accounts w r results aborted h = tt
collect_next-Accounts w canceled results (completed p k e) h = tt
collect_next-Accounts w (done c) results (completed p k e) (sums, counts) =
    (omega (arith, sums), omega (arith, counts))
collect_next-Accounts w exhausted results (completed p k e) (sums, counts) =
    (omega (arith, sums), omega (arith, counts))

collect-Accounts : (results : List (TimeWindow × WindowResult)) → Accounts results (collect results)
unfolding collect Accounts
collect-Accounts [] = (refl, omega arith)
collect-Accounts ((w, result) ∷ results) =
    collect_next-Accounts w result results (collect results) (collect-Accounts results)

completed-Accounts :
    (results : List (TimeWindow × WindowResult)) (t : Totals) (p k e : ℕ)
    → collect results ≡ t
    → t ≡ completed p k e
    → (p ≡ published_in results) × (done_in results + e ≡ length results)
unfolding Accounts
completed-Accounts results t p k e collects is =
    subst (Accounts results) (collects ∙ is) (collect-Accounts results)

any_window : TimeWindow → Bool
any_window w = true

count-any_window : (windows : List TimeWindow) → count any_window windows ≡ length windows
unfolding any_window
count-any_window [] = refl
count-any_window (w ∷ windows) = omega (arith, count-any_window windows)

count-resolved :
    (results : List (TimeWindow × WindowResult))
    → count any_window (resolved results) ≡ length results
unfolding any_window
count-resolved [] = refl
count-resolved ((w, result) ∷ results) = omega (arith, count-resolved results)

-- When the workers of a backfill are through and no result was context.Canceled, the number of
-- messages that it logs as published is the number of those that it published, and the windows are
-- those with an answer, those counted as errors, and those that a worker dropped because the context
-- was done.
pub run-collect :
    (api : ApiClient) (fails : ℕ → Bool) (workers : ℕ) (limiter : RateLimiter) (service : Service)
    (windows : List TimeWindow) (events : List Event) (published skipped errors : ℕ)
    → let s = run api fails workers (new_history limiter service windows) events in
      s.windows ≡ []
      → s.held ≡ []
      → collect s.results ≡ completed published skipped errors
      → (length s.service.published ≡ length service.published + published)
        × (done_in s.results + errors + length s.lost ≡ length windows)
run-collect api fails workers limiter service windows events published skipped errors drained free
      totals =
    let s = run api fails workers (new_history limiter service windows) events in
    let (sums, counts) =
      completed-Accounts s.results (collect s.results) published skipped errors refl totals in
    let sent =
      (run-HasSent (length service.published) api fails workers
        (new_history limiter service windows) events (record { sent = omega arith })).sent in
    let kept = run-count any_window api fails workers limiter service windows events in
    let channel : count any_window s.windows ≡ 0 = ap (count any_window) drained in
    let workers_hold : sum_over (one any_window) s.held ≡ 0 = ap (sum_over (one any_window)) free in
    (
      omega (arith, sums, sent),
      omega (
        arith,
        counts,
        kept,
        channel,
        workers_hold,
        count-any_window windows,
        count-any_window s.lost,
        count-resolved s.results,
      ),
    )
