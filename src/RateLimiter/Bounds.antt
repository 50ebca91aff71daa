-- ===== src/RateLimiter/Bounds.antt =====
-- How many requests the token bucket lets through.
use roach.Base.{ℕ, ◌+◌, ◌-◌, ◌*◌, ◌≤◌, ◌≡◌, refl, ◌∙◌, ap, List, [], ◌∷◌, arith}
use native.Mathlib.Nat.{mul-sub, mul-le-mul_left}
use roach.RateLimiter.{
  RateLimiter, token, or_default, new_rate_limiter, reset_hour, refill, take_token, wait_round,
  record_request, record_error, Event, rounds, requests, errors, step, run, one_if,
}

-- The times of the rounds, from `t` on, do not go back.
abbrev pub InOrder : ℕ → List Event → Type 0
InOrder t [] = Unit {0}
InOrder t (rounds now ∷ es) = (t ≤ now) × InOrder now es
InOrder t (requests ∷ es) = InOrder t es
InOrder t (errors now code ∷ es) = InOrder t es

-- What an event costs: tokens spent and left are at most the tokens there were and the refill.
abbrev pub Paid : ℕ → RateLimiter → RateLimiter → Type 0
Paid n r r' =
    (n * token + r'.tokens + r.tokens_per_second * r.last_refill
      ≤ r.tokens + r.tokens_per_second * r'.last_refill)
    × (r'.tokens_per_second ≡ r.tokens_per_second)
    × (r'.burst_size ≡ r.burst_size)

mul_from : (k a b : ℕ) → a ≤ b → k * (b - a) + k * a ≡ k * b
mul_from k a b h = grind arith

wait_round-Paid :
    (now : ℕ) (r : RateLimiter)
    → r.last_refill ≤ now
    → let (round, r') = wait_round now r in Paid (one_if round) r r'
unfolding wait_round reset_hour refill take_token
wait_round-Paid now r h =
    (ground (arith, mul_from r.tokens_per_second r.last_refill now h), ground arith, ground arith)

record_request-Paid : (r : RateLimiter) → Paid 0 r (record_request r)
unfolding record_request
record_request-Paid r = (omega arith, refl, refl)

record_error-Paid : (now code : ℕ) (r : RateLimiter) → Paid 0 r (record_error now code r).1
unfolding record_error
record_error-Paid now code r = (ground arith, ground arith, ground arith)

last_refill-wait_round :
    (now : ℕ) (r : RateLimiter)
    → r.last_refill ≤ now
    → ((wait_round now r).1.last_refill ≤ now) × (r.last_refill ≤ (wait_round now r).1.last_refill)
unfolding wait_round reset_hour refill take_token
last_refill-wait_round now r h = (ground arith, ground arith)

last_refill-record_error :
    (now code : ℕ) (r : RateLimiter) → (record_error now code r).1.last_refill ≡ r.last_refill
unfolding record_error
last_refill-record_error now code r = ground arith

-- The time up to which the rounds of a run have come.
abbrev pub end_of : ℕ → List Event → ℕ
end_of t [] = t
end_of t (rounds now ∷ es) = end_of now es
end_of t (requests ∷ es) = end_of t es
end_of t (errors now code ∷ es) = end_of t es

Paid-trans : (m n : ℕ) (r r' r'' : RateLimiter) → Paid m r r' → Paid n r' r'' → Paid (m + n) r r''
Paid-trans m n r r' r'' (p, tps, burst) (q, tps', burst') = (
  omega (
    arith,
    p,
    q,
    ap (λ (k : ℕ). k * r'.last_refill) tps,
    ap (λ (k : ℕ). k * r''.last_refill) tps,
  ),
  tps' ∙ tps,
  burst' ∙ burst,
)

run-Paid :
    (t : ℕ) (r : RateLimiter) (es : List Event)
    → r.last_refill ≤ t
    → InOrder t es
    → Paid (run r es).0 r (run r es).1 × ((run r es).1.last_refill ≤ end_of t es)
unfolding run step record_request
run-Paid t r [] h i = ((omega arith, refl, refl), h)
run-Paid t r (rounds now ∷ es) h i =
    let a = wait_round-Paid now r (omega arith) in
    let b = last_refill-wait_round now r (omega arith) in
    let c = run-Paid now (wait_round now r).1 es b.0 i.1 in
    (Paid-trans _ _ r (wait_round now r).1 (run (wait_round now r).1 es).1 a c.0, c.1)
run-Paid t r (requests ∷ es) h i =
    let c = run-Paid t (record_request r) es h i in
    (
      Paid-trans 0 _ r (record_request r) (run (record_request r) es).1 (record_request-Paid r) c.0,
      c.1,
    )
run-Paid t r (errors now code ∷ es) h i =
    let a = record_error-Paid now code r in
    let c =
      run-Paid t (record_error now code r).1 es (omega (arith, last_refill-record_error now code r))
        i in
    (Paid-trans 0 _ r (record_error now code r).1 (run (record_error now code r).1 es).1 a c.0, c.1)

-- However the workers' calls interleave, the requests that a new limiter lets through between its
-- creation and the last round are at most the burst, twice the rate, and the rate times the seconds
-- gone by. (Both sides are counted in billionths of a request.)
pub run-new_rate_limiter-le :
    (start tokens_per_second hourly_limit : ℕ) (es : List Event)
    → InOrder start es
    → let rate = or_default tokens_per_second 8 in
      (run (new_rate_limiter start tokens_per_second hourly_limit) es).0 * token
      ≤ rate * 2 * token + rate * (end_of start es - start)
unfolding new_rate_limiter
run-new_rate_limiter-le start tokens_per_second hourly_limit es i =
    let r = new_rate_limiter start tokens_per_second hourly_limit in
    let (paid, late) = run-Paid start r es (omega arith) i in
    let rate = r.tokens_per_second in
    let last = (run r es).1.last_refill in
    let grows : rate * (last - start) ≤ rate * (end_of start es - start) =
      mul-le-mul_left rate (omega (arith, late)) in
    omega (arith, paid.0, grows, mul-sub rate last start)
