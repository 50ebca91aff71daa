-- ===== src/Archive/Paths.antt =====
-- The paths of services/unifi-smart-archive/service/service.go as lists of components, and
-- os.RemoveAll.
use roach.Base.{
  Bool, true, false, ◌&&◌, List, [], ◌∷◌, ◌++◌, ◌≡◌, refl, ◌↔◌, arith, Text, text_eq, text_beq,
  text_beq_iff, Eq, none, if◌then◌else◌, length,
}
use roach.Base.Assoc.{lookup}

abbrev pub FilePath : Type 0
FilePath = List Text

abbrev pub path_beq : FilePath → FilePath → Bool
path_beq [] [] = true
path_beq [] (c ∷ q) = false
path_beq (c ∷ p) [] = false
path_beq (c ∷ p) (d ∷ q) = text_beq c d && path_beq p q

pub path_beq_iff : (p q : FilePath) → (path_beq p q ≡ true) ↔ (p ≡ q)
path_beq_iff [] [] = ground arith
path_beq_iff [] (c ∷ q) = ground arith
path_beq_iff (c ∷ p) [] = ground arith
path_beq_iff (c ∷ p) (d ∷ q) = ground (arith, text_beq_iff c d, path_beq_iff p q)

instance abbrev pub path_eq : Eq FilePath
path_eq = record { beq = path_beq; beq_iff = path_beq_iff }

-- A directory itself, or what is anywhere in it.
abbrev pub is_under : FilePath → FilePath → Bool
is_under [] p = true
is_under (c ∷ d) [] = false
is_under (c ∷ d) (e ∷ p) = text_beq c e && is_under d p

-- os.RemoveAll, when it succeeds.
abbrev pub remove_all {ℓ} : {A : Type ℓ} → FilePath → List (FilePath × A) → List (FilePath × A)
remove_all d [] = []
remove_all d ((p, a) ∷ m) = if is_under d p then remove_all d m else (p, a) ∷ remove_all d m

pub lookup-remove_all {ℓ} :
    {A : Type ℓ} (d p : FilePath) (m : List (FilePath × A))
    → lookup p (remove_all d m) ≡ (if is_under d p then none else lookup p m)
lookup-remove_all d p [] = ground arith
lookup-remove_all d p ((q, a) ∷ m) = ground (arith, path_beq_iff q p, lookup-remove_all d p m)

pub is_under_same_length :
    (d e p : FilePath) → length d ≡ length e → is_under d (e ++ p) ≡ true → d ≡ e
is_under_same_length [] [] p l u = refl
is_under_same_length [] (c ∷ e) p l u = absurd (omega arith)
is_under_same_length (c ∷ d) [] p l u = absurd (omega arith)
is_under_same_length (c ∷ d) (b ∷ e) p l u =
    ground (arith, text_beq_iff c b, is_under_same_length d e p (omega arith))
