-- ===== src/RateLimiter/Waiting/Rounds.antt =====
-- services/weatherlink-kafka/service/ratelimit.go: what single rounds of Wait do to an open limiter.
use roach.Base.{
  ℕ, suc, ◌+◌, ◌-◌, ◌*◌, ◌/◌, ◌≤◌, ◌<◌, ◌≡◌, refl, ap, ◌∙◌, false, Option, some, arith, ltb, leb,
  le→leb, Bool-cases, inl, inr, ◌⊎◌,
}
use native.Mathlib.Nat.{lt-mul-div-succ}
use roach.RateLimiter.{
  RateLimiter, second, hour, token, min_of, is_blocked, reset_hour, hourly_cap, refill, take_token,
  wait_round, wait_alone, Round, admitted, sleeps,
}

-- A rate of one request a second at least, a burst and an hourly cap of one request at least.
abbrev pub IsUsable : RateLimiter → Type 0
IsUsable r =
    (1 ≤ r.tokens_per_second)
    × (r.tokens_per_second ≤ 500_000_000)
    × (1 ≤ r.burst_size)
    × (1 ≤ hourly_cap r)

abbrev pub Returns : ℕ → ℕ → RateLimiter → Type 0
Returns fuel now r =
    (t : ℕ) × (r' : RateLimiter) × (wait_alone fuel now r ≡ some (t, r')) × (now ≤ t)

-- Neither a block nor the hour's requests hold the caller.
abbrev pub IsOpen : ℕ → RateLimiter → Type 0
IsOpen now r = (is_blocked now r ≡ false) × ((reset_hour now r).hourly_requests < hourly_cap r)

abbrev pub refilled : ℕ → RateLimiter → RateLimiter
refilled now r = refill now (reset_hour now r)

pub hourly_cap-reset_hour :
    (now : ℕ) (r : RateLimiter) → hourly_cap (reset_hour now r) ≡ hourly_cap r
unfolding reset_hour
hourly_cap-reset_hour now r = ground arith

pub wait_round_open :
    (now : ℕ) (r : RateLimiter) → IsOpen now r → wait_round now r ≡ take_token (refilled now r)
unfolding wait_round
wait_round_open now r (b, h) =
    let below : leb (hourly_cap (reset_hour now r)) (reset_hour now r).hourly_requests ≡ false =
      ground (arith, hourly_cap-reset_hour now r) in
    rw (b, below) refl

-- What wait_alone does after a round.
abbrev pub after_round : ℕ → ℕ → Round × RateLimiter → Option (ℕ × RateLimiter)
after_round fuel now (round, r') = elim round [
  | admitted ↦ some (now, r')
  | sleeps d ↦ wait_alone fuel (now + d) r'
]

pub wait_alone_step :
    (fuel now : ℕ) (r : RateLimiter)
    → wait_alone (suc fuel) now r ≡ after_round fuel now (wait_round now r)
unfolding wait_alone
wait_alone_step fuel now r = refl

wait_alone_admitted :
    (fuel now : ℕ) (r r' : RateLimiter)
    → wait_round now r ≡ (admitted, r')
    → Returns (suc fuel) now r
wait_alone_admitted fuel now r r' e =
    (now, r', wait_alone_step fuel now r ∙ ap (after_round fuel now) e, omega arith)

pub wait_alone_sleeps :
    (fuel now d : ℕ) (r r' : RateLimiter)
    → wait_round now r ≡ (sleeps d, r')
    → Returns fuel (now + d) r'
    → Returns (suc fuel) now r
wait_alone_sleeps fuel now d r r' e (t, r'', k, l) =
    (t, r'', wait_alone_step fuel now r ∙ ap (after_round fuel now) e ∙ k, omega arith)

-- The time of one token, and that two such times are enough for one, for all that is cut off.
abbrev pub one_token : RateLimiter → ℕ
one_token r = second / r.tokens_per_second

pub two_times : (rate : ℕ) → 1 ≤ rate → rate ≤ 500_000_000 → token ≤ 2 * (rate * (second / rate))
two_times rate h k = grind (arith, lt-mul-div-succ second h)

pub refilled-IsOpen :
    (now d : ℕ) (r : RateLimiter)
    → IsUsable r
    → IsOpen now r
    → IsOpen (now + d) (refilled now r) × IsUsable (refilled now r)
unfolding refill reset_hour
refilled-IsOpen now d r (u, v, b, c) o =
    ((ground arith, ground arith), (ground arith, ground arith, ground arith, ground arith))

take_token_admits :
    (r : RateLimiter) → token ≤ r.tokens → (r' : RateLimiter) × (take_token r ≡ (admitted, r'))
unfolding take_token
take_token_admits r h = (record r { tokens = r.tokens - token }, rw (le→leb token r.tokens h) refl)

pub take_token_sleeps :
    (r : RateLimiter) → r.tokens < token → take_token r ≡ (sleeps (one_token r), r)
unfolding take_token
take_token_sleeps r h = ground arith

refilled_tokens :
    (now d : ℕ) (r : RateLimiter)
    → r.last_refill ≡ now
    → (refilled (now + d) r).tokens
      ≡ min_of (r.tokens + r.tokens_per_second * d) (r.burst_size * token)
unfolding refill reset_hour
refilled_tokens now d r e =
    let elapsed : now + d - r.last_refill ≡ d = omega (arith, e) in
    elim (Bool-cases (leb hour (now + d - r.hour_start))) [
      | inl b ↦ rw (b, elapsed) refl
      | inr b ↦ rw (b, elapsed) refl
    ]

min_gains : (a b : ℕ) → token ≤ b → (token ≤ min_of a b) ⊎ (a ≤ min_of a b)
min_gains a b h = elim (Bool-cases (ltb a b)) [
  | inl e ↦ rw e (inr (omega arith))
  | inr e ↦ rw e (inl h)
]

-- Sleeping refills, unless the bucket is full.
pub gains :
    (now d : ℕ) (r : RateLimiter)
    → 1 ≤ r.burst_size
    → r.last_refill ≡ now
    → (token ≤ (refilled (now + d) r).tokens)
      ⊎ (r.tokens + r.tokens_per_second * d ≤ (refilled (now + d) r).tokens)
gains now d r b e =
    rw (refilled_tokens now d r e)
      (min_gains (r.tokens + r.tokens_per_second * d) (r.burst_size * token) (omega arith))

pub open_admits :
    (fuel now : ℕ) (r : RateLimiter)
    → IsOpen now r
    → token ≤ (refilled now r).tokens
    → Returns (suc fuel) now r
open_admits fuel now r o h =
    let (r', e) = take_token_admits (refilled now r) h in
    wait_alone_admitted fuel now r r' (wait_round_open now r o ∙ e)

-- One round, which lets the caller through if there is a token.
