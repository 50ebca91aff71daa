-- ===== src/Base/Strings.antt =====
-- The parts of Go's strings and strconv packages that the services use, on the bytes of a text.
-- Case mapping is that of ASCII. An int64 is its bit pattern, a number below 2 ^ 64.
pub mod Decimal
use Prim.Native.Char.{code}
use Prim.Native.String.{String}
use roach.Base.Tests.{leb, ltb, ◌==◌, if◌then◌else◌}
use roach.Base.Keys.{Text, text_beq}
use Prim.Native.Nat.{ℕ, zero, suc, ◌+◌, ◌-◌, ◌*◌, ◌/◌, ◌%◌, ◌^◌}
use mathlib.Core.Bool.{Bool, true, false, ◌&&◌, ◌||◌}
use mathlib.Core.List.{List, [], ◌∷◌, ◌++◌, map}
use mathlib.Core.Option.{Option, none, some}

-- A literal: its code points, which are its bytes where it is ASCII.
abbrev pub codes : String → Text
codes String.[] = []
codes (String.◌∷◌ c s) = code c ∷ codes s

abbrev pub is_digit : ℕ → Bool
is_digit c = leb b'0' c && leb c b'9'

-- strconv.Itoa and FormatInt for a number that is not negative; the fuel is its value.
unfoldable pub digits_of : ℕ → ℕ → Text
digits_of zero n = []
digits_of (suc fuel) n = elim (ltb n 10) [
  | true ↦ (b'0' + n) ∷ []
  | false ↦ digits_of fuel (n / 10) ++ (b'0' + n % 10) ∷ []
]

unfoldable pub digits : ℕ → Text
unfolding digits_of
digits n = digits_of (suc n) n

abbrev pub sign_bit : ℕ
sign_bit = 2 ^ 63

-- strconv.FormatInt(n, 10)
unfoldable pub format_int : ℕ → Text
format_int n = if ltb n sign_bit then digits n else b'-' ∷ digits (2 ^ 64 - n)

-- The loop of strconv.ParseUint. Out of the range of a uint64 it stops at once, before it has seen
-- the bytes that follow.
unfoldable pub parse_digits : ℕ → Text → Option ℕ
parse_digits acc [] = some acc
parse_digits acc (c ∷ cs) =
    let next = acc * 10 + (c - b'0') in
    let rest = parse_digits next cs in
    if is_digit c then (if ltb next (2 ^ 64) then rest else some next) else none

-- A magnitude is one digit at least.
unfoldable pub parse_magnitude : Text → Option ℕ
parse_magnitude [] = none
parse_magnitude (c ∷ cs) = parse_digits 0 (c ∷ cs)

pub record Parsed : Type 0 where
  pub value : ℕ
  pub failed : Bool

-- Out of range, strconv returns the nearest value with its error; for a bad text, 0.
abbrev pub positive : Option ℕ → Parsed
positive none = record { value = 0; failed = true }
positive (some n) =
    if ltb n sign_bit
    then record { value = n; failed = false }
    else record { value = sign_bit - 1; failed = true }

abbrev pub negative : Option ℕ → Parsed
negative none = record { value = 0; failed = true }
negative (some n) =
    if leb n sign_bit
    then record { value = (2 ^ 64 - n) % 2 ^ 64; failed = false }
    else record { value = sign_bit; failed = true }

-- strconv.ParseInt(s, 10, 64), and Atoi on a 64-bit machine.
unfoldable pub parse_int : Text → Parsed
parse_int [] = record { value = 0; failed = true }
parse_int (c ∷ cs) =
    if c == b'-'
    then negative (parse_magnitude cs)
    else if c == b'+'
    then positive (parse_magnitude cs)
    else positive (parse_magnitude (c ∷ cs))

-- n > 0 for an int64.
abbrev pub is_positive : ℕ → Bool
is_positive n = ltb 0 n && ltb n sign_bit

abbrev pub lower : ℕ → ℕ
lower c = if leb b'A' c && leb c b'Z' then c + 32 else c

abbrev pub upper : ℕ → ℕ
upper c = if leb b'a' c && leb c b'z' then c - 32 else c

-- strings.ToLower, strings.ToUpper
unfoldable pub to_lower : Text → Text
to_lower = map lower

unfoldable pub to_upper : Text → Text
to_upper = map upper

-- strings.ReplaceAll for texts of one byte.
unfoldable pub replace_byte : ℕ → ℕ → Text → Text
replace_byte old new = map (λ c. if c == old then new else c)

-- strings.HasPrefix
unfoldable pub has_prefix : Text → Text → Bool
has_prefix s [] = true
has_prefix [] (p ∷ ps) = false
has_prefix (c ∷ s) (p ∷ ps) = c == p && has_prefix s ps

-- strings.Contains
unfoldable pub contains_text : Text → Text → Bool
unfolding has_prefix
contains_text [] p = has_prefix [] p
contains_text (c ∷ s) p = has_prefix (c ∷ s) p || contains_text s p

-- strings.CutSuffix: what stands before the suffix, if the text ends in it. TrimSuffix and
-- HasSuffix are its two halves.
unfoldable pub cut_suffix : Text → Text → Option Text
cut_suffix [] suffix = if text_beq [] suffix then some [] else none
cut_suffix (c ∷ s) suffix =
    if text_beq (c ∷ s) suffix
    then some []
    else elim (cut_suffix s suffix) [ none ↦ none | some before ↦ some (c ∷ before) ]

-- The text before the first occurrence of a byte, and the text after it.
unfoldable pub split_at : ℕ → Text → Option (Text × Text)
split_at b [] = none
split_at b (c ∷ s) =
    let rest = split_at b s in
    if c == b
    then some ([], s)
    else elim rest [ none ↦ none | some (before, after) ↦ some (c ∷ before, after) ]
