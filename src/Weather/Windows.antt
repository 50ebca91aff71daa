-- ===== src/Weather/Windows.antt =====
-- services/weatherlink-kafka/util/time.go: SplitInto24HourWindows. A time is a number of Unix
-- seconds, from 1970 on; that a time near 2^63 overflows is not modelled.
use roach.Base.{
  ℕ, zero, suc, ◌+◌, ◌-◌, ◌*◌, ◌/◌, ◌≤◌, ◌<◌, ◌≡◌, refl, sym, Bool, true, false, List, [], ◌∷◌,
  Option, none, some, ◌⊎◌, inl, inr, ◌||◌, subst, length, ltb, leb, Bool-cases, ltb→lt, lt→ltb,
  if◌then◌else◌, arith, All,
}

abbrev map_option : {A B : Type 0} → (A → B) → Option A → Option B
map_option f none = none
map_option f (some a) = some (f a)

pub record TimeWindow : Type 0 where
  pub start : ℕ
  pub end : ℕ

abbrev pub window_size : ℕ
window_size = 86400

abbrev window_end : ℕ → ℕ → ℕ
window_end start_ts end_ts =
    let current_end = start_ts + window_size in
    if ltb end_ts current_end then end_ts else current_end

-- The loop, which runs on fuel: none means that the fuel ran out.
unfoldable pub split_from : ℕ → ℕ → ℕ → Option (List TimeWindow)
split_from zero start_ts end_ts = none
split_from (suc fuel) start_ts end_ts =
    let current_end = window_end start_ts end_ts in
    let rest = split_from fuel current_end end_ts in
    if ltb start_ts end_ts
    then map_option (λ windows. record { start = start_ts; end = current_end } ∷ windows) rest
    else some []

-- One round for each window, and the one that ends the loop.
abbrev pub rounds_of : ℕ → ℕ → ℕ
rounds_of start_ts end_ts = suc (suc ((end_ts - start_ts) / window_size))

unfoldable pub split_into_24_hour_windows : ℕ → ℕ → Option (List TimeWindow)
split_into_24_hour_windows start_ts end_ts = split_from (rounds_of start_ts end_ts) start_ts end_ts

-- The windows follow each other from `a` to `b` without a gap, each of them between a second and a
-- day long, and all but the last exactly a day.
abbrev pub Covers : ℕ → ℕ → List TimeWindow → Type 0
Covers a b [] = a ≡ b
Covers a b (w ∷ ws) =
    (w.start ≡ a)
    × (a < w.end)
    × (w.end ≤ b)
    × (w.end ≤ a + window_size)
    × ((w.end ≡ b) ⊎ (w.end ≡ a + window_size))
    × Covers w.end b ws

-- What the loop comes to from the time `a` on: windows that cover the time left, as few as do.
abbrev pub Splits : ℕ → ℕ → Option (List TimeWindow) → Type 0
Splits a b r =
    (ws : List TimeWindow) × (r ≡ some ws)
    × (if ltb a b then Covers a b ws else (ws ≡ []))
    × (length ws * window_size < (b - a) + window_size)
    × (b - a ≤ length ws * window_size)

split_from_stops : (fuel a b : ℕ) → b ≤ a → split_from (suc fuel) a b ≡ some []
unfolding split_from
split_from_stops fuel a b h = ground arith

split_from_goes_on :
    (fuel a b : ℕ) (ws : List TimeWindow)
    → a < b
    → split_from fuel (window_end a b) b ≡ some ws
    → split_from (suc fuel) a b ≡ some (record { start = a; end = window_end a b } ∷ ws)
unfolding split_from
split_from_goes_on fuel a b ws h e = rw (lt→ltb a b h, e) refl

not_less : (a b : ℕ) → b ≤ a → ltb a b ≡ false
not_less a b le = ground arith

Covers-less :
    (a b : ℕ) (ws : List TimeWindow)
    → ltb a b ≡ true
    → (if ltb a b then Covers a b ws else (ws ≡ []))
    → Covers a b ws
Covers-less a b ws e c = subst (λ (t : Bool). if t then Covers a b ws else (ws ≡ [])) e c

Covers-none :
    (a b : ℕ) (ws : List TimeWindow)
    → ltb a b ≡ false
    → (if ltb a b then Covers a b ws else (ws ≡ []))
    → ws ≡ []
Covers-none a b ws e c = subst (λ (t : Bool). if t then Covers a b ws else (ws ≡ [])) e c

-- At the end there is nothing to cover.
Covers-up_to :
    (a b : ℕ) (ws : List TimeWindow)
    → a ≤ b
    → (if ltb a b then Covers a b ws else (ws ≡ []))
    → Covers a b ws
Covers-up_to a b ws le c = elim (Bool-cases (ltb a b)) [
  | inl e ↦ Covers-less a b ws e c
  | inr e ↦
      let same : a ≡ b = ground arith in subst (Covers a b) (sym (Covers-none a b ws e c)) same
]

none_needed :
    (a b : ℕ) (ws : List TimeWindow)
    → b ≤ a
    → ws ≡ []
    → if ltb a b then Covers a b ws else (ws ≡ [])
none_needed a b ws le e = rw (not_less a b le) e

Splits-stops : (fuel a b : ℕ) → b ≤ a → Splits a b (split_from (suc fuel) a b)
Splits-stops fuel a b le =
    ([], split_from_stops fuel a b le, none_needed a b [] le refl, omega arith, omega arith)

Splits-goes_on :
    (fuel a b : ℕ)
    → a < b
    → Splits (window_end a b) b (split_from fuel (window_end a b) b)
    → Splits a b (split_from (suc fuel) a b)
Splits-goes_on fuel a b lt (ws, e, covers, few, enough) = (
  record { start = a; end = window_end a b } ∷ ws,
  split_from_goes_on fuel a b ws lt e,
  rw (lt→ltb a b lt) (
    refl,
    ground arith,
    ground arith,
    ground arith,
    ground arith,
    Covers-up_to (window_end a b) b ws (ground arith) covers,
  ),
  ground arith,
  ground arith,
)

split_from-Splits :
    (fuel a b : ℕ) → b ≤ a + fuel * window_size → Splits a b (split_from (suc fuel) a b)
split_from-Splits zero a b h = Splits-stops 0 a b (omega arith)
split_from-Splits (suc fuel) a b h = elim (Bool-cases (ltb a b)) [
  | inl e ↦
      Splits-goes_on (suc fuel) a b (ltb→lt a b e)
        (split_from-Splits fuel (window_end a b) b (ground arith))
  | inr e ↦ Splits-stops (suc fuel) a b (ground arith)
]

-- SplitInto24HourWindows returns, and its windows run from the start to the end without a gap or an
-- overlap, each of them from a second to a day long and all but the last a day exactly; there are
-- none if the end is not after the start, and never more than it takes.
pub split_into_24_hour_windows_lem : (a b : ℕ) → Splits a b (split_into_24_hour_windows a b)
unfolding split_into_24_hour_windows
split_into_24_hour_windows_lem a b =
    split_from-Splits (suc ((b - a) / window_size)) a b (omega arith)

-- FetchHistoricData of api/weatherlink.go: what it refuses to ask for.
unfoldable pub rejects_window : TimeWindow → Bool
rejects_window w = ltb window_size (w.end - w.start) || leb w.end w.start

Covers-accepted :
    (a b : ℕ) (ws : List TimeWindow) → Covers a b ws → All (λ w. rejects_window w ≡ false) ws
unfolding rejects_window
Covers-accepted a b [] c = tt
Covers-accepted a b (w ∷ ws) c = (ground (arith, c.0, c.1, c.3), Covers-accepted w.end b ws c.5)

-- FetchHistoricData refuses none of the windows that the backfill asks for.
pub split_into_24_hour_windows-accepted :
    (a b : ℕ) (ws : List TimeWindow)
    → split_into_24_hour_windows a b ≡ some ws
    → All (λ w. rejects_window w ≡ false) ws
split_into_24_hour_windows-accepted a b ws e =
    let (vs, f, covers, few, enough) = split_into_24_hour_windows_lem a b in
    let same : vs ≡ ws = ground (arith, e, f) in
    let accepted : All (λ w. rejects_window w ≡ false) vs = elim (Bool-cases (ltb a b)) [
      | inl k ↦ Covers-accepted a b vs (Covers-less a b vs k covers)
      | inr k ↦ subst (All (λ w. rejects_window w ≡ false)) (sym (Covers-none a b vs k covers)) tt
    ] in
    subst (All (λ w. rejects_window w ≡ false)) same accepted
