-- ===== src/RateLimiter/Waiting.antt =====
-- services/weatherlink-kafka/service/ratelimit.go: Wait returns.
pub mod Rounds
use roach.Base.{
  ℕ, zero, suc, ◌+◌, ◌-◌, ◌*◌, ◌/◌, ◌≤◌, ◌<◌, ◌≡◌, refl, ap, ◌∙◌, true, false, Option, none, some,
  arith, ltb, leb, le→leb, leb→le, Bool-cases, inl, inr, ◌⊎◌,
}
use native.Mathlib.Nat.{lt-mul-div-succ}
use roach.RateLimiter.{
  RateLimiter, second, hour, token, min_of, is_blocked, reset_hour, hourly_cap, refill, take_token,
  wait_round, wait_alone, Round, admitted, sleeps,
}
use roach.RateLimiter.Waiting.Rounds.{
  IsUsable, Returns, IsOpen, refilled, hourly_cap-reset_hour, wait_round_open, after_round,
  wait_alone_step, wait_alone_sleeps, one_token, two_times, refilled-IsOpen, take_token_sleeps,
  gains, open_admits,
}

open-Returns :
    (fuel now : ℕ) (r : RateLimiter)
    → IsOpen now r
    → ((refilled now r).tokens < token
        → Returns fuel (now + one_token (refilled now r)) (refilled now r))
    → Returns (suc fuel) now r
open-Returns fuel now r o k = elim (Bool-cases (leb token (refilled now r).tokens)) [
  | inl b ↦ open_admits fuel now r o (leb→le token (refilled now r).tokens b)
  | inr b ↦
      let few : (refilled now r).tokens < token = ground arith in
      wait_alone_sleeps fuel now (one_token (refilled now r)) r (refilled now r)
        (wait_round_open now r o ∙ take_token_sleeps (refilled now r) few) (k few)
]

last_refill-refilled : (now : ℕ) (r : RateLimiter) → (refilled now r).last_refill ≡ now
unfolding refill
last_refill-refilled now r = refl

rate-refilled :
    (now : ℕ) (r : RateLimiter) → (refilled now r).tokens_per_second ≡ r.tokens_per_second
unfolding refill reset_hour
rate-refilled now r = ground arith

-- After two sleeps there is a token.
third_has_token :
    (now : ℕ) (r : RateLimiter)
    → IsUsable r
    → r.last_refill ≡ now
    → let r' = refilled (now + one_token r) r in
      r'.tokens < token
      → 1 ≤ r'.burst_size
      → token ≤ (refilled (now + one_token r + one_token r') r').tokens
third_has_token now r (u, v, b, c) e few b' =
    let q = one_token r in
    let r' = refilled (now + q) r in
    let rate = rate-refilled (now + q) r in
    let once : r.tokens_per_second * q ≤ r'.tokens = elim (gains now q r b e) [
      | inl h ↦ absurd (omega (arith, h, few))
      | inr h ↦ omega (arith, h)
    ] in
    let twice : r'.tokens_per_second * one_token r' ≡ r.tokens_per_second * q =
      ap (λ (k : ℕ). k * (second / k)) rate in
    elim (gains (now + q) (one_token r') r' b' (last_refill-refilled (now + q) r)) [
      | inl h ↦ h
      | inr h ↦ omega (arith, h, once, twice, two_times r.tokens_per_second u v)
    ]

open-Returns_third :
    (fuel now : ℕ) (r : RateLimiter)
    → IsUsable r
    → IsOpen now r
    → Returns (suc (suc (suc fuel))) now r
open-Returns_third fuel now r u o =
    let r1 = refilled now r in
    let q1 = one_token r1 in
    let r2 = refilled (now + q1) r1 in
    let q2 = one_token r2 in
    let (o1, u1) = refilled-IsOpen now q1 r u o in
    let (o2, u2) = refilled-IsOpen (now + q1) q2 r1 u1 o1 in
    open-Returns (suc (suc fuel)) now r o (λ few1. open-Returns (suc fuel) (now + q1) r1 o1 (λ few2.
      open_admits fuel (now + q1 + q2) r2 o2
        (third_has_token now r1 u1 (last_refill-refilled now r) few2 u2.2)))

wait_round_full :
    (now : ℕ) (r : RateLimiter)
    → is_blocked now r ≡ false
    → hourly_cap r ≤ (reset_hour now r).hourly_requests
    → wait_round now r ≡ (sleeps ((reset_hour now r).hour_start + hour - now), reset_hour now r)
unfolding wait_round
wait_round_full now r b h =
    let full : leb (hourly_cap (reset_hour now r)) (reset_hour now r).hourly_requests ≡ true =
      ground (arith, hourly_cap-reset_hour now r) in
    rw (b, full) refl

-- The hour after a full one is open.
full_opens :
    (now : ℕ) (r : RateLimiter)
    → IsUsable r
    → is_blocked now r ≡ false
    → hourly_cap r ≤ (reset_hour now r).hourly_requests
    → let r' = reset_hour now r in IsOpen (now + (r'.hour_start + hour - now)) r' × IsUsable r'
unfolding reset_hour
full_opens now r (u, v, b, c) free full =
    ((ground arith, ground arith), (ground arith, ground arith, ground arith, ground arith))

free-Returns :
    (fuel now : ℕ) (r : RateLimiter)
    → IsUsable r
    → is_blocked now r ≡ false
    → Returns (suc (suc (suc (suc fuel)))) now r
free-Returns fuel now r u free =
    elim (Bool-cases (ltb (reset_hour now r).hourly_requests (hourly_cap r))) [
      | inl b ↦ open-Returns_third (suc fuel) now r u (free, ground arith)
      | inr b ↦
          let full : hourly_cap r ≤ (reset_hour now r).hourly_requests = ground arith in
          let (o, u') = full_opens now r u free full in
          wait_alone_sleeps (suc (suc (suc fuel))) now _ r (reset_hour now r)
            (wait_round_full now r free full) (open-Returns_third fuel _ (reset_hour now r) u' o)
    ]

wait_round_blocked :
    (now : ℕ) (r : RateLimiter)
    → is_blocked now r ≡ true
    → wait_round now r ≡ (sleeps (r.blocked_until - now), r)
unfolding wait_round
wait_round_blocked now r b = rw b refl

-- Wait lets its caller through, at the latest in the fifth round of its loop, when nobody else uses
-- the limiter: for a rate between one request a second and half a billion, a burst of one at least,
-- and an hourly limit of which nine tenths are one request at least.
pub wait_alone-Returns : (now : ℕ) (r : RateLimiter) → IsUsable r → Returns 5 now r
wait_alone-Returns now r u = elim (Bool-cases (is_blocked now r)) [
  | inr b ↦ free-Returns 1 now r u b
  | inl b ↦
      wait_alone_sleeps 4 now (r.blocked_until - now) r r (wait_round_blocked now r b)
        (free-Returns 0 (now + (r.blocked_until - now)) r u (ground arith))
]

limit-reset_hour :
    (now : ℕ) (r : RateLimiter) → r.hourly_limit ≤ 1 → (reset_hour now r).hourly_limit ≤ 1
unfolding reset_hour
limit-reset_hour now r h = ground arith

never_round :
    (now : ℕ) (r : RateLimiter)
    → r.hourly_limit ≤ 1
    → (d : ℕ) × ((wait_round now r).0 ≡ sleeps d) × ((wait_round now r).1.hourly_limit ≤ 1)
unfolding wait_round
never_round now r h = elim (Bool-cases (is_blocked now r)) [
  | inl b ↦ rw b (_, refl, h)
  | inr b ↦
      let full : leb (hourly_cap (reset_hour now r)) (reset_hour now r).hourly_requests ≡ true =
        ground (arith, hourly_cap-reset_hour now r) in
      rw (b, full) (_, refl, limit-reset_hour now r h)
]

-- With an hourly limit of one request, of which nine tenths are none, Wait never lets its caller
-- through: whatever the number of rounds, it sleeps in each of them.
pub wait_alone_never :
    (fuel now : ℕ) (r : RateLimiter) → r.hourly_limit ≤ 1 → wait_alone fuel now r ≡ none
unfolding wait_alone
wait_alone_never zero now r h = refl
wait_alone_never (suc fuel) now r h =
    let (d, e, k) = never_round now r h in
    wait_alone_step fuel now r
    ∙ ap (λ (x : Round). after_round fuel now (x, (wait_round now r).1)) e
    ∙ wait_alone_never fuel (now + d) (wait_round now r).1 k
