-- ===== src/Text/Number.antt =====
-- strconv.Itoa and strconv.Atoi on 64-bit integers.
use image_optimizer.Prelude.{
  codes, ℕ, zero, suc, ◌+◌, ◌-◌, ◌*◌, ◌/◌, ◌%◌, ◌≤◌, ◌≡◌, refl, true, false, [], ◌∷◌, Option, none,
  some, ltb, leb, ◌==◌, if◌then◌else◌, ℤ, pos, negsuc, max_int64,
}
use image_optimizer.Text.{Bytes, is_digit}

-- The digits of `n` in front of `out`; `n + 1` rounds are enough.
unfoldable pub digits : ℕ → ℕ → Bytes → Bytes
digits zero n out = out
digits (suc fuel) n out = elim (ltb n 10) [
  | true ↦ (b'0' + n) ∷ out
  | false ↦ digits fuel (n / 10) ((b'0' + n % 10) ∷ out)
]

unfoldable pub format : ℕ → Bytes
format n = digits (suc n) n []

-- strconv.Itoa
unfoldable pub itoa : ℤ → Bytes
itoa (pos n) = format n
itoa (negsuc n) = b'-' ∷ format (suc n)

-- The value of a run of digits behind `n`.
unfoldable pub scan : Bytes → ℕ → Option ℕ
scan [] n = some n
scan (c ∷ s) n = let rest = scan s (n * 10 + (c - b'0')) in if is_digit c then rest else none

unfoldable pub digits_value : Bytes → Option ℕ
digits_value [] = none
digits_value (c ∷ s) = scan (c ∷ s) 0

-- strconv.Atoi on unsigned text: an error for a bad digit, and for a value out of range.
unfoldable pub positive : Option ℕ → Option ℤ
positive none = none
positive (some n) = if leb n max_int64 then some (pos n) else none

unfoldable pub negative : Option ℕ → Option ℤ
negative none = none
negative (some zero) = some (pos 0)
negative (some (suc n)) = if leb n max_int64 then some (negsuc n) else none

-- strconv.Atoi: an optional sign, then one or more digits.
unfoldable pub atoi : Bytes → Option ℤ
atoi [] = none
atoi (c ∷ s) =
    if c == b'-'
    then negative (digits_value s)
    else if c == b'+'
    then positive (digits_value s)
    else positive (digits_value (c ∷ s))

number_tests :
    (itoa (negsuc 41) ≡ codes "-42")
    × (itoa (pos 0) ≡ codes "0")
    × (atoi (codes "+17") ≡ some (pos 17))
    × (atoi (codes "-9223372036854775808") ≡ some (negsuc max_int64))
    × (atoi (codes "9223372036854775808") ≡ none)
    × (atoi (codes "-") ≡ none)
    × (atoi (codes "1_0") ≡ none)
unfolding itoa atoi format digits digits_value scan positive negative
number_tests = (refl, refl, refl, refl, refl, refl, refl)

-- The integers that Go's `int` holds.
abbrev pub IsInt : ℤ → Type 0
IsInt (pos n) = n ≤ max_int64
IsInt (negsuc n) = n ≤ max_int64
