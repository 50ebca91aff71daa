-- ===== src/Weather/History/Mistaken.antt =====
-- services/weatherlink-kafka/service/backfill.go: what strings.Contains(err.Error(), "429") makes of
-- an error of http.Client, whose text names the URL with the times of the window.
use roach.Base.{
  ℕ, suc, ◌+◌, ◌-◌, ◌≤◌, ◌<◌, ◌≡◌, refl, Bool, true, false, ◌||◌, ◌&&◌, [], ◌∷◌, ◌++◌, some, arith,
  nat_eq, Text, ◌==◌, ltb, leb,
}
use roach.Base.Strings.{codes, format_int, contains_text, has_prefix}
use roach.RateLimiter.{RateLimiter, record_error, second}
use roach.RateLimiter.Backoff.{record_error-backoff}
use roach.Weather.Windows.{TimeWindow, window_size}
use roach.Weather.Fetching.{
  ApiClient, transport_failed, failed, fetch_historic_data, historic_url, transport_error,
}
use roach.Weather.History.{is_rate_limit, calling, backing_off, History, held_by, call_once}

or_true : (b : Bool) → (b || true) ≡ true
or_true true = refl
or_true false = refl

or_mono :
    (b c b' c' : Bool)
    → (b ≡ true → b' ≡ true)
    → (c ≡ true → c' ≡ true)
    → (b || c) ≡ true
    → (b' || c') ≡ true
or_mono true c b' c' f g e = rw (f refl) refl
or_mono false c b' c' f g e = rw (g e) (or_true b')

and_mono : (b c c' : Bool) → (c ≡ true → c' ≡ true) → (b && c) ≡ true → (b && c') ≡ true
and_mono true c c' g e = g e
and_mono false c c' g e = e

contains_text-append_right :
    (s t p : Text) → contains_text t p ≡ true → contains_text (s ++ t) p ≡ true
unfolding contains_text
contains_text-append_right [] t p e = e
contains_text-append_right (c ∷ s) t p e =
    rw (contains_text-append_right s t p e) (or_true (has_prefix (c ∷ s ++ t) p))

has_prefix-append : (s t p : Text) → has_prefix s p ≡ true → has_prefix (s ++ t) p ≡ true
unfolding has_prefix
has_prefix-append s t [] e = refl
has_prefix-append [] t (d ∷ p) e = absurd (ground arith)
has_prefix-append (c ∷ s) t (d ∷ p) e =
    and_mono (c == d) (has_prefix s p) (has_prefix (s ++ t) p) (has_prefix-append s t p) e

contains_text-append_left :
    (s t p : Text) → contains_text s p ≡ true → contains_text (s ++ t) p ≡ true
unfolding contains_text
contains_text-append_left [] [] p e = e
contains_text-append_left [] (c ∷ t) p e = rw (has_prefix-append [] (c ∷ t) p e) refl
contains_text-append_left (c ∷ s) t p e =
    or_mono (has_prefix (c ∷ s) p) (contains_text s p) (has_prefix (c ∷ s ++ t) p)
      (contains_text (s ++ t) p) (has_prefix-append (c ∷ s) t p) (contains_text-append_left s t p) e

historic_url_429 :
    (api : ApiClient) (w : TimeWindow)
    → contains_text (format_int w.start) (codes "429") ≡ true
    → contains_text (historic_url api w) (codes "429") ≡ true
historic_url_429 api w e =
    let p = codes "429" in
    let before =
      codes "https://api.weatherlink.com/v2/historic/"
      ++ api.station_id
      ++ codes "?api-key="
      ++ api.api_key
      ++ codes "&start-timestamp=" in
    let amid = before ++ format_int w.start in
    contains_text-append_left (amid ++ codes "&end-timestamp=") (format_int w.end) p (
      contains_text-append_left amid (codes "&end-timestamp=") p
        (contains_text-append_right before (format_int w.start) p e))

-- The text of the error that FetchHistoricData gives for a request that the transport refused.
refused : ApiClient → TimeWindow → Text → Text
refused api w e = codes "failed to fetch historic data: " ++ transport_error (historic_url api w) e

refused_429 :
    (api : ApiClient) (w : TimeWindow) (reason : Text)
    → contains_text (format_int w.start) (codes "429") ≡ true
    → is_rate_limit (refused api w reason) ≡ true
unfolding refused
refused_429 api w reason e =
    let p = codes "429" in
    let url = historic_url api w in
    let named = codes "Get \"" ++ url in
    contains_text-append_right (codes "failed to fetch historic data: ")
      (transport_error url reason) p
      (contains_text-append_left (named ++ codes "\": ") reason p (
        contains_text-append_left named (codes "\": ") p
          (contains_text-append_right (codes "Get \"") url p (historic_url_429 api w e))))

fetch_historic_data-refused :
    (api : ApiClient) (w : TimeWindow) (reason : Text)
    → w.start < w.end
    → w.end - w.start ≤ window_size
    → fetch_historic_data api w (transport_failed reason) ≡ failed (refused api w reason)
unfolding fetch_historic_data refused
fetch_historic_data-refused api w reason late short =
    let fits : ltb window_size (w.end - w.start) ≡ false = ground (arith, short) in
    let goes : leb w.end w.start ≡ false = ground (arith, late) in rw (fits, goes) refl

record_error-blocked_until :
    (now : ℕ) (r : RateLimiter) → now + second ≤ (record_error now 429 r).1.blocked_until
unfolding record_error
record_error-blocked_until now r =
    let (counted, doubled, long, short) = record_error-backoff now 429 r in ground (arith, long)

-- When the digits 429 stand in the start of a window, an attempt that the transport refuses, for any
-- reason, is taken for an answer 429: the worker waits the backoff of the limiter and takes its next
-- attempt, the last one too, and the limiter is blocked for all workers, for a second at least.
pub call_once_mistaken :
    (api : ApiClient) (fails : ℕ → Bool) (i now n : ℕ) (w : TimeWindow) (reason : Text)
    (s : History)
    → held_by i s.held ≡ some (w, calling n)
    → w.start < w.end
    → w.end - w.start ≤ window_size
    → contains_text (format_int w.start) (codes "429") ≡ true
    → let s' = call_once api fails i now (transport_failed reason) s in
      let (backoff, limiter) = record_error now 429 s.limiter in
      held_by i s'.held ≡ some (w, backing_off (suc n) backoff)
      × s'.limiter ≡ limiter
      × now + second ≤ s'.limiter.blocked_until
unfolding call_once
call_once_mistaken api fails i now n w reason s e late short digits =
    let same : (i == i) ≡ true = ground arith in
    rw (e, fetch_historic_data-refused api w reason late short, refused_429 api w reason digits)
      (rw same refl, refl, record_error-blocked_until now s.limiter)
