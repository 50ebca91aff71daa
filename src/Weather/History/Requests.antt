-- ===== src/Weather/History/Requests.antt =====
-- services/weatherlink-kafka/service/backfill.go: the attempts that a worker has paid for in Wait.
use roach.Base.{ℕ, ◌+◌, ◌-◌, ◌*◌, ◌≤◌, ◌≡◌, Bool, List, some, arith}
use roach.RateLimiter
use roach.Weather.Windows.{TimeWindow}
use roach.Weather.Fetching.{ApiClient}
use roach.Weather.History.{
  Stage, waiting, calling, backing_off, History, held_by, without, Event, run,
}
use roach.Weather.History.Held.{sum_over, sum_over-without}
use roach.Weather.History.Moves.{
  Moves, idles, drops, takes, admits, holds_back, backs_off, retries, gives_up, answers, wakes,
  runs_out, cancels, run-keeps,
}

-- The attempts that a worker may still make before it waits again.
abbrev pub left_at : TimeWindow → Stage → ℕ
left_at w waiting = 0
left_at w (calling n) = 4 - n
left_at w (backing_off n d) = 4 - n

-- An attempt beyond the last.
abbrev excess : TimeWindow → Stage → ℕ
excess w waiting = 0
excess w (calling n) = n - 3
excess w (backing_off n d) = 0

pub record IsPaid (s : History) : Type 0 where
  pub paid : s.calls + sum_over left_at s.held ≤ 3 * s.admissions
  pub within : sum_over excess s.held ≡ 0

split :
    (i : ℕ) (w : TimeWindow) (stage : Stage) (s : History)
    → held_by i s.held ≡ some (w, stage)
    → (sum_over left_at s.held ≡ left_at w stage + sum_over left_at (without i s.held))
      × (sum_over excess s.held ≡ excess w stage + sum_over excess (without i s.held))
split i w stage s e =
    (sum_over-without left_at i s.held w stage e, sum_over-without excess i s.held w stage e)

Moves-IsPaid :
    (s : History) {t : History} {es : List RateLimiter.Event} → Moves s es t → IsPaid s → IsPaid t
Moves-IsPaid s idles h = h
Moves-IsPaid s (drops i w windows e) h = record { paid = h.paid; within = h.within }
Moves-IsPaid s (takes i w windows e) h = record {
  paid = omega (arith, h.paid);
  within = omega (arith, h.within);
}
Moves-IsPaid s (admits i now w r e q) h =
    let parts = split i w waiting s e in
    record { paid = omega (arith, parts, h.paid); within = omega (arith, parts, h.within) }
Moves-IsPaid s (holds_back now d r q) h = record { paid = h.paid; within = h.within }
Moves-IsPaid s (backs_off i now n w e) h =
    let parts = split i w (calling n) s e in
    record {
      paid = omega (arith, parts, h.paid, h.within);
      within = omega (arith, parts, h.within);
    }
Moves-IsPaid s (retries i n w e few) h =
    let parts = split i w (calling n) s e in
    record {
      paid = omega (arith, parts, h.paid, h.within);
      within = omega (arith, parts, h.within);
    }
Moves-IsPaid s (gives_up i n w e) h =
    let parts = split i w (calling n) s e in
    record {
      paid = omega (arith, parts, h.paid, h.within);
      within = omega (arith, parts, h.within);
    }
Moves-IsPaid s (answers i n w fails sensors e) h =
    let parts = split i w (calling n) s e in
    record {
      paid = omega (arith, parts, h.paid, h.within);
      within = omega (arith, parts, h.within);
    }
Moves-IsPaid s (wakes i n d w e few) h =
    let parts = split i w (backing_off n d) s e in
    let small : n ≤ 3 = ground (arith, few) in
    record { paid = omega (arith, parts, h.paid); within = omega (arith, parts, h.within, small) }
Moves-IsPaid s (runs_out i n d w e) h =
    let parts = split i w (backing_off n d) s e in
    record { paid = omega (arith, parts, h.paid); within = omega (arith, parts, h.within) }
Moves-IsPaid s (cancels i w stage e) h =
    let parts = split i w stage s e in
    record { paid = omega (arith, parts, h.paid); within = omega (arith, parts, h.within) }

pub run-IsPaid :
    (api : ApiClient) (fails : ℕ → Bool) (workers : ℕ) (s : History) (events : List Event)
    → IsPaid s
    → IsPaid (run api fails workers s events)
run-IsPaid api fails workers =
    run-keeps IsPaid api fails workers (λ s t es moves h. Moves-IsPaid s moves h)
