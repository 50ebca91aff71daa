-- ===== src/Cache/Keys.antt =====
-- The cache's text keys tell different things apart.
use roach.Base.{
  ℕ, Text, ◌≡◌, ◌^◌, ◌<◌, refl, ap, sym, ◌∙◌, [], ◌∷◌, ◌++◌, Option, none, some, arith, All, ltb,
  Bool-cases, inl, inr, ◌-◌,
}
use roach.Base.Strings.{format_int, parse_int, split_at, digits, sign_bit, Parsed}
use roach.Base.Strings.Decimal.{parse_int-format_int, digits-IsDigit, IsDigit}
use roach.Cache.{tag_key}

pub format_int-injective : (a b : ℕ) → a < 2 ^ 64 → b < 2 ^ 64 → format_int a ≡ format_int b → a ≡ b
format_int-injective a b h k e =
    ap (λ (p : Parsed). p.value)
      (sym (parse_int-format_int a h) ∙ ap parse_int e ∙ parse_int-format_int b k)

abbrev pub IsNumeral : ℕ → Type 0
IsNumeral c = c < b':'

format_int-IsNumeral : (n : ℕ) → All IsNumeral (format_int n)
unfolding format_int
format_int-IsNumeral n = elim (Bool-cases (ltb n sign_bit)) [
  | inl pos ↦ rw pos (weaken (digits n) (digits-IsDigit n))
  | inr neg ↦ rw neg (omega arith, weaken _ (digits-IsDigit (2 ^ 64 - n)))
]
  where
    weaken : (s : Text) → All IsDigit s → All IsNumeral s
    weaken [] a = tt
    weaken (c ∷ s) a = (omega arith, weaken s a.1)

split_at-numerals : (s t : Text) → All IsNumeral s → split_at b':' (s ++ b':' ∷ t) ≡ some (s, t)
unfolding split_at
split_at-numerals [] t a = refl
split_at-numerals (c ∷ s) t a = ground (arith, split_at-numerals s t a.1)

-- Two tags share a key only if they are the same tag of the same device.
pub tag_key-injective :
    (d d' : ℕ) (n n' : Text)
    → d < 2 ^ 64
    → d' < 2 ^ 64
    → tag_key d n ≡ tag_key d' n'
    → (d ≡ d') × (n ≡ n')
unfolding tag_key
tag_key-injective d d' n n' h h' e =
    (format_int-injective d d' h h' (ap first parts), ap second parts)
  where
    first : Option (Text × Text) → Text
    first none = []
    first (some (a, b)) = a

    second : Option (Text × Text) → Text
    second none = []
    second (some (a, b)) = b

    parts : ◌≡◌ {A = Option (Text × Text)} (some (format_int d, n)) (some (format_int d', n'))
    parts =
        sym (split_at-numerals (format_int d) n (format_int-IsNumeral d))
        ∙ ap (split_at b':') e
        ∙ split_at-numerals (format_int d') n' (format_int-IsNumeral d')
