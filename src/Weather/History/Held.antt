-- ===== src/Weather/History/Held.antt =====
-- services/weatherlink-kafka/service/backfill.go: sums over what the workers hold.
use roach.Base.{ℕ, ◌+◌, ◌≡◌, ◌==◌, List, [], ◌∷◌, some, arith, Bool-cases, inl, inr}
use roach.Weather.Windows.{TimeWindow}
use roach.Weather.History.{Stage, held_by, without}

abbrev pub sum_over : (TimeWindow → Stage → ℕ) → List (ℕ × TimeWindow × Stage) → ℕ
sum_over f [] = 0
sum_over f ((j, w, stage) ∷ held) = f w stage + sum_over f held

pub sum_over-without :
    (f : TimeWindow → Stage → ℕ) (i : ℕ) (held : List (ℕ × TimeWindow × Stage)) (w : TimeWindow)
    (stage : Stage)
    → held_by i held ≡ some (w, stage)
    → sum_over f held ≡ f w stage + sum_over f (without i held)
sum_over-without f i [] w stage e = absurd (ground arith)
sum_over-without f i ((j, v, other) ∷ held) w stage e = elim (Bool-cases (j == i)) [
  | inl same ↦ ground (arith, same, e)
  | inr differs ↦ ground (arith, differs, sum_over-without f i held w stage)
]
