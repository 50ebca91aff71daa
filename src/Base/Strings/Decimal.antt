-- ===== src/Base/Strings/Decimal.antt =====
-- Decimal numbers: print and parse are inverse, and a printed number is free of separators.
use roach.Base.Tests.{ltb, Bool-cases}
use roach.Base.Lists.{All, All-append}
use roach.Base.Keys.{Text}
use Prim.Native.Nat.{ℕ, zero, suc, ◌+◌, ◌-◌, ◌*◌, ◌/◌, ◌%◌, ◌^◌, ◌≤◌, ◌<◌}
use mathlib.Core.Path.{◌≡◌, refl, ap, sym, ◌∙◌}
use mathlib.Core.Logic.{◌≢◌, inl, inr}
use mathlib.Core.Bool.{true, false}
use mathlib.Core.List.{[], ◌∷◌, ◌++◌}
use mathlib.Core.Option.{some}
use native.Mathlib.Omega.{arith}
use roach.Base.Strings.{
  is_digit, digits_of, digits, sign_bit, format_int, parse_digits, parse_magnitude, parse_int,
  positive, negative,
}

parse_digits-snoc :
    (acc : ℕ) (s : Text) (d m : ℕ)
    → parse_digits acc s ≡ some m
    → m < 2 ^ 64
    → d < 10
    → parse_digits acc (s ++ (b'0' + d) ∷ []) ≡ some (m * 10 + d)
unfolding parse_digits
parse_digits-snoc acc [] d m h fits lt = ground arith
parse_digits-snoc acc (c ∷ s) d m h fits lt = elim (Bool-cases (is_digit c)) [
  | inl yes_digit ↦ elim (Bool-cases (ltb (acc * 10 + (c - b'0')) (2 ^ 64))) [
    | inl below ↦
        rw (yes_digit, below)
          (parse_digits-snoc (acc * 10 + (c - b'0')) s d m (rw (yes_digit, below) at h) fits lt)
    | inr above ↦ absurd (ground arith)
  ]
  | inr no_digit ↦ absurd (ground arith)
]

digits_of_small : (fuel n : ℕ) → ltb n 10 ≡ true → digits_of (suc fuel) n ≡ (b'0' + n) ∷ []
unfolding digits_of
digits_of_small fuel n h = rw (h, digits_of)

digits_of_large :
    (fuel n : ℕ)
    → ltb n 10 ≡ false
    → digits_of (suc fuel) n ≡ digits_of fuel (n / 10) ++ (b'0' + n % 10) ∷ []
unfolding digits_of
digits_of_large fuel n h = rw (h, digits_of)

parse_digits-digits_of :
    (fuel n : ℕ) → n < fuel → n < 2 ^ 64 → parse_digits 0 (digits_of fuel n) ≡ some n
parse_digits-digits_of zero n h fits = absurd (omega arith)
parse_digits-digits_of (suc fuel) n h fits = elim (Bool-cases (ltb n 10)) [
  | inl small ↦ rw (digits_of_small fuel n small) (
      parse_digits-snoc 0 [] n 0 (unfold parse_digits in refl) (omega arith) (ground arith)
      ∙ ap some (omega arith))
  | inr large ↦ rw (digits_of_large fuel n large) (
      parse_digits-snoc 0 (digits_of fuel (n / 10)) (n % 10) (n / 10)
        (parse_digits-digits_of fuel (n / 10) (ground arith) (omega arith)) (omega arith)
        (omega arith)
      ∙ ap some (omega arith))
]

abbrev pub IsDigit : ℕ → Type 0
IsDigit c = (b'0' ≤ c) × (c ≤ b'9')

digits_of-IsDigit : (fuel n : ℕ) → All IsDigit (digits_of fuel n)
digits_of-IsDigit zero n = unfold digits_of in tt
digits_of-IsDigit (suc fuel) n = elim (Bool-cases (ltb n 10)) [
  | inl small ↦ rw (digits_of_small fuel n small) ((omega arith, ground arith), tt)
  | inr large ↦ rw (digits_of_large fuel n large) (
      All-append IsDigit (digits_of fuel (n / 10)) _ (digits_of-IsDigit fuel (n / 10))
        ((omega arith, omega arith), tt))
]

pub digits-IsDigit : (n : ℕ) → All IsDigit (digits n)
unfolding digits
digits-IsDigit n = digits_of-IsDigit (suc n) n

parse_digits-digits : (n : ℕ) → n < 2 ^ 64 → parse_digits 0 (digits n) ≡ some n
unfolding digits
parse_digits-digits n fits = parse_digits-digits_of (suc n) n (omega arith) fits

snoc-ne-nil : (s : Text) (c : ℕ) → s ++ c ∷ [] ≢ []
snoc-ne-nil [] c h = cc
snoc-ne-nil (d ∷ s) c h = cc

pub digits-ne-nil : (n : ℕ) → digits n ≢ []
unfolding digits
digits-ne-nil n h = elim (Bool-cases (ltb n 10)) [
  | inl small ↦ cc (digits_of_small n n small)
  | inr large ↦
      snoc-ne-nil (digits_of n (n / 10)) (b'0' + n % 10) (sym (digits_of_large n n large) ∙ h)
]

-- A printed number starts with a digit.
digits-cons : (n : ℕ) → (c : ℕ) × (s : Text) × (digits n ≡ c ∷ s) × IsDigit c
digits-cons n = split (digits n) refl (digits-IsDigit n)
  where
    split :
        (t : Text)
        → digits n ≡ t
        → All IsDigit t
        → (c : ℕ) × (s : Text) × (digits n ≡ c ∷ s) × IsDigit c
    split [] e a = absurd (digits-ne-nil n e)
    split (c ∷ s) e a = (c, s, e, a.0)

pub parse_magnitude-digits : (n : ℕ) → n < 2 ^ 64 → parse_magnitude (digits n) ≡ some n
unfolding parse_magnitude
parse_magnitude-digits n fits =
    let (c, s, e, d) = digits-cons n in cc (parse_digits-digits n fits, e)

parse_int-unsigned :
    (c : ℕ) (s : Text) → IsDigit c → parse_int (c ∷ s) ≡ positive (parse_magnitude (c ∷ s))
unfolding parse_int
parse_int-unsigned c s d = ground arith

parse_int-digits : (n : ℕ) → n < 2 ^ 64 → parse_int (digits n) ≡ positive (some n)
parse_int-digits n fits =
    let (c, s, e, d) = digits-cons n in
    ap parse_int e
    ∙ parse_int-unsigned c s d
    ∙ ap positive (ap parse_magnitude (sym e) ∙ parse_magnitude-digits n fits)

parse_int-minus : (s : Text) → parse_int (b'-' ∷ s) ≡ negative (parse_magnitude s)
unfolding parse_int
parse_int-minus s = refl

-- Printing an int64 and parsing the text gives the number back, for every bit pattern.
pub parse_int-format_int :
    (n : ℕ) → n < 2 ^ 64 → parse_int (format_int n) ≡ record { value = n; failed = false }
unfolding format_int
parse_int-format_int n h = elim (Bool-cases (ltb n sign_bit)) [
  | inl pos ↦ rw (pos, parse_int-digits n h) (rw pos)
  | inr neg ↦
      rw
        (
          neg,
          parse_int-minus (digits (2 ^ 64 - n)),
          parse_magnitude-digits (2 ^ 64 - n) (ground arith),
        )
        (ground arith)
]
