-- ===== src/Base/Assoc.antt =====
-- A Go map as an association list. A `range` over the map visits its entries in the order of the
-- list, which is arbitrary: what holds of every list holds of every order of iteration.
use mathlib.Core.Path.{◌≡◌, refl, subst}
use mathlib.Core.Bool.{Bool, false, ◌||◌}
use mathlib.Core.List.{List, [], ◌∷◌}
use mathlib.Core.Option.{Option, none, some}
use mathlib.Core.Logic.{inl, inr}
use native.Mathlib.Omega.{arith}
use roach.Base.Tests.{if◌then◌else◌, Bool-cases}
use roach.Base.Keys.{Eq}

module _ {ℓ κ} {K : Type ℓ} {V : Type κ} ⦃e : Eq K⦄ where
  -- m[k]
  abbrev pub lookup : K → List (K × V) → Option V
  lookup k [] = none
  lookup k ((j, v) ∷ m) = if e.beq j k then some v else lookup k m

  -- m[k] = v
  abbrev pub insert : K → V → List (K × V) → List (K × V)
  insert k v [] = (k, v) ∷ []
  insert k v ((j, w) ∷ m) = if e.beq j k then (k, v) ∷ m else (j, w) ∷ insert k v m

  -- delete(m, k)
  abbrev pub remove : K → List (K × V) → List (K × V)
  remove k [] = []
  remove k ((j, v) ∷ m) = if e.beq j k then remove k m else (j, v) ∷ remove k m

  pub lookup-insert :
      (k j : K) (v : V) (m : List (K × V))
      → lookup j (insert k v m) ≡ (if e.beq k j then some v else lookup j m)
  lookup-insert k j v [] = refl
  lookup-insert k j v ((i, w) ∷ m) =
      ground (arith, e.beq_iff k j, e.beq_iff i k, e.beq_iff i j, lookup-insert k j v m)

  pub lookup-remove :
      (k j : K) (m : List (K × V))
      → lookup j (remove k m) ≡ (if e.beq k j then none else lookup j m)
  lookup-remove k j [] = ground arith
  lookup-remove k j ((i, w) ∷ m) =
      ground (arith, e.beq_iff k j, e.beq_iff i k, e.beq_iff i j, lookup-remove k j m)

module _ {ℓ} {K : Type ℓ} ⦃e : Eq K⦄ where
  -- Membership in a set, `map[K]struct{}`.
  abbrev pub contains : K → List K → Bool
  contains k [] = false
  contains k (j ∷ s) = e.beq j k || contains k s

-- The keys are distinct, as those of a Go map are.
module _ {ℓ κ} {K : Type ℓ} {V : Type κ} ⦃e : Eq K⦄ where
  abbrev pub Distinct : List (K × V) → Type κ
  Distinct [] = Unit
  Distinct ((k, v) ∷ m) = (lookup k m ≡ none) × Distinct m

  pub insert-Distinct : (k : K) (v : V) (m : List (K × V)) → Distinct m → Distinct (insert k v m)
  insert-Distinct k v [] d = (refl, tt)
  insert-Distinct k v ((j, w) ∷ m) d = elim (Bool-cases (e.beq j k)) [
    | inl h ↦ rw h (ground (arith, e.beq_iff j k), d.1)
    | inr h ↦ rw h (
      ground (arith, lookup-insert k j v m, e.beq_iff j k, e.beq_iff k j),
      insert-Distinct k v m d.1,
    )
  ]

  pub remove-Distinct : (k : K) (m : List (K × V)) → Distinct m → Distinct (remove k m)
  remove-Distinct k [] d = tt
  remove-Distinct k ((j, w) ∷ m) d = elim (Bool-cases (e.beq j k)) [
    | inl h ↦ rw h (remove-Distinct k m d.1)
    | inr h ↦ rw h (ground (arith, lookup-remove k j m), remove-Distinct k m d.1)
  ]

  -- A predicate of every entry.
  abbrev pub Every {μ} : (K → V → Type μ) → List (K × V) → Type μ
  Every P [] = Unit
  Every P ((k, v) ∷ m) = P k v × Every P m

  pub insert-Every {μ} :
      (P : K → V → Type μ) (k : K) (v : V) (m : List (K × V))
      → P k v
      → Every P m
      → Every P (insert k v m)
  insert-Every P k v [] p q = (p, tt)
  insert-Every P k v ((j, w) ∷ m) p q = elim (Bool-cases (e.beq j k)) [
    | inl h ↦ rw h (p, q.1)
    | inr h ↦ rw h (q.0, insert-Every P k v m p q.1)
  ]

  pub remove-Every {μ} :
      (P : K → V → Type μ) (k : K) (m : List (K × V)) → Every P m → Every P (remove k m)
  remove-Every P k [] q = tt
  remove-Every P k ((j, w) ∷ m) q = elim (Bool-cases (e.beq j k)) [
    | inl h ↦ rw h (remove-Every P k m q.1)
    | inr h ↦ rw h (q.0, remove-Every P k m q.1)
  ]

  pub lookup-Every {μ} :
      (P : K → V → Type μ) (k : K) (v : V) (m : List (K × V))
      → Every P m
      → lookup k m ≡ some v
      → P k v
  lookup-Every P k v [] q h = ground arith
  lookup-Every P k v ((j, w) ∷ m) q h = elim (Bool-cases (e.beq j k)) [
    | inl b ↦
        let same : j ≡ k = ground (arith, e.beq_iff j k) in
        let value : w ≡ v = ground arith in subst (λ i. P i v) same (subst (P j) value q.0)
    | inr b ↦ lookup-Every P k v m q.1 (ground arith)
  ]

  pub remove_absent : (k : K) (m : List (K × V)) → lookup k m ≡ none → remove k m ≡ m
  remove_absent k [] h = refl
  remove_absent k ((j, w) ∷ m) h = ground (arith, e.beq_iff j k, remove_absent k m)

  Every-lookup_cons :
      (j : K) (w : V) (m n : List (K × V))
      → lookup j m ≡ none
      → Every (λ k v. lookup k m ≡ some v) n
      → Every (λ k v. lookup k ((j, w) ∷ m) ≡ some v) n
  Every-lookup_cons j w m [] a q = tt
  Every-lookup_cons j w m ((k, v) ∷ n) a q =
      (ground (arith, e.beq_iff j k), Every-lookup_cons j w m n a q.1)

  -- Each entry of a map is what a lookup of its key finds.
  pub Every-lookup : (m : List (K × V)) → Distinct m → Every (λ k v. lookup k m ≡ some v) m
  Every-lookup [] d = tt
  Every-lookup ((k, v) ∷ m) d =
      (ground (arith, e.beq_iff k k), Every-lookup_cons k v m m d.0 (Every-lookup m d.1))
