-- ===== src/Text/NumberLaws.antt =====
-- Printing and reading integers: the round trip, and which bytes a printed integer has.
use mathlib.Core.List.{cons-ne-nil}
use image_optimizer.Prelude.{
  ℕ, zero, suc, ◌+◌, ◌/◌, ◌%◌, ◌≤◌, ◌<◌, ◌≡◌, ◌≢◌, refl, ◌⊎◌, [], ◌∷◌, some, arith, ℤ, pos, negsuc,
  All, ◌∙◌, All-map,
}
use image_optimizer.Text.{Bytes, Lacks}
use image_optimizer.Text.Number.{
  digits, format, itoa, scan, digits_value, positive, negative, atoi, IsInt,
}

abbrev pub IsDigit : ℕ → Type 0
IsDigit c = (b'0' ≤ c) × (c ≤ b'9')

scan_last : (n : ℕ) (out : Bytes) → scan ((b'0' + n % 10) ∷ out) (n / 10) ≡ scan out n
unfolding scan
scan_last n out = ground arith

scan_one : (n : ℕ) (out : Bytes) → n < 10 → scan ((b'0' + n) ∷ out) 0 ≡ scan out n
unfolding scan
scan_one n out h = ground arith

scan-digits : (fuel n : ℕ) (out : Bytes) → n < fuel → scan (digits fuel n out) 0 ≡ scan out n
unfolding digits
scan-digits zero n out h = absurd (omega arith)
scan-digits (suc fuel) n out h =
    ground
      (arith, scan_one n out, scan_last n out, scan-digits fuel (n / 10) ((b'0' + n % 10) ∷ out))

digits-IsDigit : (fuel n : ℕ) (out : Bytes) → All IsDigit out → All IsDigit (digits fuel n out)
unfolding digits
digits-IsDigit zero n out h = h
digits-IsDigit (suc fuel) n out h =
    ground (arith, digits-IsDigit fuel (n / 10) ((b'0' + n % 10) ∷ out))

digits-ne-nil : (fuel n : ℕ) (c : ℕ) (out : Bytes) → digits fuel n (c ∷ out) ≢ []
unfolding digits
digits-ne-nil zero n c out = cons-ne-nil _ _
digits-ne-nil (suc fuel) n c out =
    ground (
      arith,
      digits-ne-nil fuel (n / 10) (b'0' + n % 10) (c ∷ out),
      cons-ne-nil (b'0' + n) (c ∷ out),
    )

format-IsDigit : (n : ℕ) → All IsDigit (format n)
unfolding format
format-IsDigit n = digits-IsDigit (suc n) n [] tt

format-ne-nil : (n : ℕ) → format n ≢ []
unfolding format digits
format-ne-nil n =
    ground (arith, digits-ne-nil n (n / 10) (b'0' + n % 10) [], cons-ne-nil (b'0' + n) [])

scan-format : (n : ℕ) → scan (format n) 0 ≡ some n
unfolding format
scan-format n = scan-digits (suc n) n [] (omega arith) ∙ unfold scan in refl

digits_value-scan : (s : Bytes) → s ≢ [] → digits_value s ≡ scan s 0
unfolding digits_value
digits_value-scan [] h = absurd (h refl)
digits_value-scan (c ∷ s) h = refl

digits_value-format : (n : ℕ) → digits_value (format n) ≡ some n
digits_value-format n = digits_value-scan (format n) (format-ne-nil n) ∙ scan-format n

-- Text that begins with a digit has no sign.
atoi_unsigned : (s : Bytes) → s ≢ [] → All IsDigit s → atoi s ≡ positive (digits_value s)
unfolding atoi
atoi_unsigned [] h d = absurd (h refl)
atoi_unsigned (c ∷ s) h d = ground arith

atoi_minus : (s : Bytes) → atoi (b'-' ∷ s) ≡ negative (digits_value s)
unfolding atoi
atoi_minus s = refl

-- Every int is read back from its decimal print.
pub atoi-itoa : (z : ℤ) → IsInt z → atoi (itoa z) ≡ some z
unfolding itoa
atoi-itoa (pos n) h =
    rw (atoi_unsigned (format n) (format-ne-nil n) (format-IsDigit n), digits_value-format n)
      (unfold positive in ground arith)
atoi-itoa (negsuc n) h =
    rw (atoi_minus (format (suc n)), digits_value-format (suc n)) (unfold negative in ground arith)

-- A printed integer has digits and a minus sign only.
pub itoa-Lacks : (b : ℕ) (z : ℤ) → b ≢ b'-' → (b < b'0') ⊎ (b'9' < b) → Lacks b (itoa z)
unfolding itoa
itoa-Lacks b (pos n) h o = All-map (λ c d. ground arith) (format n) (format-IsDigit n)
itoa-Lacks b (negsuc n) h o =
    (ground arith, All-map (λ c d. ground arith) (format (suc n)) (format-IsDigit (suc n)))

-- What Atoi returns is an int.
pub atoi-IsInt : (s : Bytes) (z : ℤ) → atoi s ≡ some z → IsInt z
unfolding atoi positive negative
atoi-IsInt [] z h = cc
atoi-IsInt (c ∷ s) (pos n) h = ground arith
atoi-IsInt (c ∷ s) (negsuc n) h = ground arith

-- Two ints that print alike are equal.
pub itoa-injective : (y z : ℤ) → IsInt y → IsInt z → itoa y ≡ itoa z → y ≡ z
itoa-injective y z hy hz e = cc (atoi-itoa y hy, atoi-itoa z hz, e)
