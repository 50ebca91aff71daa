-- ===== src/RateLimiter.antt =====
-- services/weatherlink-kafka/service/ratelimit.go. A time is a number of nanoseconds of the
-- monotonic clock, 0 the zero time. Tokens, a float64 in the code, are counted in billionths, in
-- which refilling by tokensPerSecond * elapsed.Seconds() is exact; rounding is not modelled.
pub mod Bounds
pub mod Backoff
pub mod Waiting
use roach.Base.{
  ℕ, zero, suc, ◌+◌, ◌-◌, ◌*◌, ◌/◌, ◌^◌, Bool, true, false, ◌&&◌, not, List, [], ◌∷◌, Option, none,
  some, ltb, leb, ◌==◌, if◌then◌else◌,
}

pub record RateLimiter : Type 0 where
  pub tokens_per_second : ℕ
  pub burst_size : ℕ
  pub hourly_limit : ℕ
  pub tokens : ℕ
  pub last_refill : ℕ
  pub hourly_requests : ℕ
  pub hour_start : ℕ
  pub consecutive_errors : ℕ
  pub blocked_until : ℕ

abbrev pub second : ℕ
second = 1_000_000_000

abbrev pub hour : ℕ
hour = 3600 * second

-- One token.
abbrev pub token : ℕ
token = 1_000_000_000

-- A parameter that is not positive is replaced by its default; 0 stands for all such.
abbrev pub or_default : ℕ → ℕ → ℕ
or_default n d = if n == 0 then d else n

unfoldable pub new_rate_limiter : ℕ → ℕ → ℕ → RateLimiter
new_rate_limiter now tokens_per_second hourly_limit =
    let tps = or_default tokens_per_second 8 in
    record {
      tokens_per_second = tps;
      burst_size = tps * 2;
      hourly_limit = or_default hourly_limit 1000;
      tokens = (tps * 2) * token;
      last_refill = now;
      hourly_requests = 0;
      hour_start = now;
      consecutive_errors = 0;
      blocked_until = 0;
    }

-- min and minFloat64
abbrev pub min_of : ℕ → ℕ → ℕ
min_of a b = if ltb a b then a else b

-- What one round of the loop in Wait comes to: it returns, or it sleeps and goes round again.
pub data Round : Type 0 where
  admitted : Round
  sleeps : ℕ → Round

abbrev pub is_blocked : ℕ → RateLimiter → Bool
is_blocked now r = not (r.blocked_until == 0) && ltb now r.blocked_until

unfoldable pub reset_hour : ℕ → RateLimiter → RateLimiter
reset_hour now r =
    if leb hour (now - r.hour_start) then record r { hourly_requests = 0; hour_start = now } else r

-- int(float64(r.hourlyLimit) * 0.9)
abbrev pub hourly_cap : RateLimiter → ℕ
hourly_cap r = r.hourly_limit * 9 / 10

unfoldable pub refill : ℕ → RateLimiter → RateLimiter
refill now r = record r {
  tokens = min_of (r.tokens + r.tokens_per_second * (now - r.last_refill)) (r.burst_size * token);
  last_refill = now;
}

unfoldable pub take_token : RateLimiter → Round × RateLimiter
take_token r =
    if leb token r.tokens
    then (admitted, record r { tokens = r.tokens - token })
    else (sleeps (second / r.tokens_per_second), r)

unfoldable pub wait_round : ℕ → RateLimiter → Round × RateLimiter
wait_round now r =
    let r' = reset_hour now r in
    if is_blocked now r
    then (sleeps (r.blocked_until - now), r)
    else if leb (hourly_cap r') r'.hourly_requests
    then (sleeps (r'.hour_start + hour - now), r')
    else take_token (refill now r')

-- Wait by itself: sleepWithContext wakes when the sleep is over, and nobody else uses the limiter.
-- The time of the return is given back; none means that the fuel ran out.
unfoldable pub wait_alone : ℕ → ℕ → RateLimiter → Option (ℕ × RateLimiter)
wait_alone zero now r = none
wait_alone (suc fuel) now r =
    let (round, r') = wait_round now r in
    elim round [ admitted ↦ some (now, r') | sleeps d ↦ wait_alone fuel (now + d) r' ]

unfoldable pub record_request : RateLimiter → RateLimiter
record_request r = record r { hourly_requests = suc r.hourly_requests; consecutive_errors = 0 }

-- The duration to wait, and the new state.
unfoldable pub record_error : ℕ → ℕ → RateLimiter → ℕ × RateLimiter
record_error now status_code r =
    let errors = suc r.consecutive_errors in
    let backoff = second * 2 ^ min_of (errors - 1) 3 in
    let block_until = now + backoff in
    if status_code == 429
    then (
      backoff,
      record r {
        consecutive_errors = errors;
        blocked_until = if ltb r.blocked_until block_until then block_until else r.blocked_until;
      },
    )
    else (second * min_of errors 5, record r { consecutive_errors = errors })

unfoldable pub get_stats : RateLimiter → ℕ × ℕ
get_stats r = (r.hourly_requests, r.tokens)

-- What the workers do with the one limiter, each under its mutex.
pub data Event : Type 0 where
  rounds : ℕ → Event
  requests : Event
  errors : ℕ → ℕ → Event

abbrev pub one_if : Round → ℕ
one_if admitted = 1
one_if (sleeps d) = 0

-- The new state, and how many requests the event let through.
unfoldable pub step : RateLimiter → Event → ℕ × RateLimiter
step r (rounds now) = let (round, r') = wait_round now r in (one_if round, r')
step r requests = (0, record_request r)
step r (errors now code) = (0, (record_error now code r).1)

unfoldable pub run : RateLimiter → List Event → ℕ × RateLimiter
run r [] = (0, r)
run r (e ∷ es) = let (n, r') = step r e in let (m, r'') = run r' es in (n + m, r'')
