-- ===== src/RateLimiter/Backoff.antt =====
-- services/weatherlink-kafka/service/ratelimit.go: RecordError, and the block that a 429 puts on
-- every worker.
use roach.Base.{
  ℕ, zero, suc, ◌+◌, ◌-◌, ◌*◌, ◌^◌, ◌≤◌, ◌<◌, ◌≡◌, refl, List, [], ◌∷◌, arith, if◌then◌else◌, ◌==◌,
  inl, inr, Bool-cases,
}
use roach.RateLimiter.{
  RateLimiter, second, min_of, reset_hour, refill, take_token, wait_round, record_request,
  record_error, Event, rounds, requests, errors, step, run, sleeps,
}

sub_one : (n : ℕ) → suc n - 1 ≡ n
sub_one n = omega arith

min_of_three : (n : ℕ) → min_of (suc (suc (suc n))) 3 ≡ 3
min_of_three n = ground arith

doubling_bounds :
    (n : ℕ) → (second ≤ second * 2 ^ min_of n 3) × (second * 2 ^ min_of n 3 ≤ 8 * second)
doubling_bounds zero = (ground arith, ground arith)
doubling_bounds (suc zero) = (ground arith, ground arith)
doubling_bounds (suc (suc zero)) = (ground arith, ground arith)
doubling_bounds (suc (suc (suc n))) = rw (min_of_three n) (ground arith, ground arith)

-- An error adds one to the consecutive errors; the wait is one, two, four or eight seconds after a
-- 429, and one to five seconds after any other error, as they grow.
pub record_error-backoff :
    (now code : ℕ) (r : RateLimiter)
    → let (backoff, r') = record_error now code r in
      (r'.consecutive_errors ≡ suc r.consecutive_errors)
      × (backoff ≡ (
          if code == 429
          then second * 2 ^ min_of r.consecutive_errors 3
          else second * min_of (suc r.consecutive_errors) 5))
      × (second ≤ backoff)
      × (backoff ≤ (if code == 429 then 8 * second else 5 * second))
unfolding record_error
record_error-backoff now code r = elim (Bool-cases (code == 429)) [
  | inl e ↦
      rw (e, sub_one r.consecutive_errors)
        (
          refl,
          refl,
          (doubling_bounds r.consecutive_errors).0,
          (doubling_bounds r.consecutive_errors).1,
        )
  | inr e ↦ rw e (refl, refl, ground arith, ground arith)
]

-- A limiter that no call is to pass before the time `t`.
abbrev IsBlockedUntil : ℕ → RateLimiter → Type 0
IsBlockedUntil t r = (0 < r.blocked_until) × (t ≤ r.blocked_until)

wait_round-IsBlockedUntil :
    (t now : ℕ) (r : RateLimiter) → IsBlockedUntil t r → IsBlockedUntil t (wait_round now r).1
unfolding wait_round reset_hour refill take_token
wait_round-IsBlockedUntil t now r h = (ground arith, ground arith)

record_error-IsBlockedUntil :
    (t now code : ℕ) (r : RateLimiter)
    → IsBlockedUntil t r
    → IsBlockedUntil t (record_error now code r).1
unfolding record_error
record_error-IsBlockedUntil t now code r h = (ground arith, ground arith)

run-IsBlockedUntil :
    (t : ℕ) (r : RateLimiter) (es : List Event) → IsBlockedUntil t r → IsBlockedUntil t (run r es).1
unfolding run step record_request
run-IsBlockedUntil t r [] h = h
run-IsBlockedUntil t r (rounds now ∷ es) h =
    run-IsBlockedUntil t (wait_round now r).1 es (wait_round-IsBlockedUntil t now r h)
run-IsBlockedUntil t r (requests ∷ es) h = run-IsBlockedUntil t (record_request r) es h
run-IsBlockedUntil t r (errors now code ∷ es) h =
    run-IsBlockedUntil t (record_error now code r).1 es (record_error-IsBlockedUntil t now code r h)

-- After a 429 recorded at the time `now`, with the wait `backoff` that RecordError returns, whatever
-- the workers do next, a round of Wait at a time before `now + backoff` never lets its caller
-- through: it sleeps, until `now + backoff` at least, and leaves the limiter as it was.
pub record_error_blocks :
    (now later : ℕ) (r : RateLimiter) (es : List Event)
    → let (backoff, r') = record_error now 429 r in
      later < now + backoff
      → let last = (run r' es).1 in
        (wait_round later last ≡ (sleeps (last.blocked_until - later), last))
        × (now + backoff ≤ later + (last.blocked_until - later))
unfolding wait_round record_error
record_error_blocks now later r es h =
    let b = doubling_bounds r.consecutive_errors in
    let until = now + second * 2 ^ min_of r.consecutive_errors 3 in
    let k =
      run-IsBlockedUntil until (record_error now 429 r).1 es
        (ground (arith, b), ground (arith, b)) in
    (ground arith, grind arith)
