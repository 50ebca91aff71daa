-- ===== src/Backfill/Merging.antt =====
-- The goroutines of processTopics submit to one channel: what the workers get is a merge of what
-- the topics submit, each in its own order.
use roach.Base.{ℕ, ◌+◌, ◌≡◌, refl, List, [], ◌∷◌, arith, length}

module _ {A : Type 0} where
  pub data Merge : List A → List A → List A → Type 0 where
    end : Merge [] [] []
    left : {x : A} {xs ys zs : List A} → Merge xs ys zs → Merge (x ∷ xs) ys (x ∷ zs)
    right : {y : A} {xs ys zs : List A} → Merge xs ys zs → Merge xs (y ∷ ys) (y ∷ zs)

  pub data MergeAll : List (List A) → List A → Type 0 where
    none_left : MergeAll [] []
    one_more :
        {xs ys zs : List A} {xss : List (List A)}
        → MergeAll xss ys
        → Merge xs ys zs
        → MergeAll (xs ∷ xss) zs

  abbrev pub total : List (List A) → ℕ
  total [] = 0
  total (xs ∷ xss) = length xs + total xss

  length-Merge : {xs ys zs : List A} → Merge xs ys zs → length zs ≡ length xs + length ys
  length-Merge end = omega arith
  length-Merge (left m) = omega (arith, length-Merge m)
  length-Merge (right m) = omega (arith, length-Merge m)

  -- Nothing is lost and nothing comes twice.
  pub length-MergeAll :
      {xss : List (List A)} {zs : List A} → MergeAll xss zs → length zs ≡ total xss
  length-MergeAll none_left = refl
  length-MergeAll (one_more all m) = omega (arith, length-Merge m, length-MergeAll all)
