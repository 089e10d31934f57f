-- ===== src/Worker/Backoff.antt =====
-- The delays between attempts, and the length of the stored error.
use image_optimizer.Prelude.{
  ℕ, zero, suc, Bool-cases, ap, sym, ◌==◌, ◌&&◌, ◌-◌, ◌*◌, ◌^◌, ◌≤◌, ◌<◌, ◌≡◌, refl, ◌⊎◌, inl, inr,
  Bool, true, false, arith, ltb, length, take, length-take-le, Error, [], ◌∷◌,
}
use image_optimizer.Text.{Bytes}
use image_optimizer.Worker.{second, backoff_duration, truncate_err}

backoff_table :
    (backoff_duration 0 ≡ second)
    × (backoff_duration 1 ≡ second)
    × (backoff_duration 2 ≡ 2 * second)
    × (backoff_duration 3 ≡ 4 * second)
unfolding backoff_duration
backoff_table = (refl, refl, refl, refl)

-- The documented schedule holds for `n` attempts, as a positive int64.
abbrev on_schedule : ℕ → Bool
on_schedule n =
    backoff_duration (suc n) == second * 2 ^ n && ltb (backoff_duration (suc n)) (2 ^ 63)

on_schedule_below : ℕ → Bool
on_schedule_below zero = true
on_schedule_below (suc n) = on_schedule n && on_schedule_below n

schedule_table : on_schedule_below 34 ≡ true
unfolding on_schedule_below backoff_duration
schedule_table = refl

below_sound : (k n : ℕ) → on_schedule_below k ≡ true → n < k → on_schedule n ≡ true
unfolding on_schedule_below
below_sound zero n h lt = absurd (omega arith)
below_sound (suc k) n h lt = ground (arith, below_sound k n)

-- From 1 to 34 attempts the delay before the next delivery is one second doubled for every attempt
-- after the first, and is below 2 to the power of 63 nanoseconds.
pub backoff_schedule :
    (attempts : ℕ)
    → 1 ≤ attempts
    → attempts ≤ 34
    → (backoff_duration attempts ≡ second * 2 ^ (attempts - 1))
      × (backoff_duration attempts < 2 ^ 63)
backoff_schedule zero h k = absurd (omega arith)
backoff_schedule (suc n) h k =
    let t = below_sound 34 n schedule_table (omega arith) in
    let e : suc n - 1 ≡ n = omega arith in rw e (ground arith, ground arith)

take_all : (n : ℕ) (s : Bytes) → length s ≤ n → take n s ≡ s
take_all zero [] h = refl
take_all zero (c ∷ s) h = absurd (omega arith)
take_all (suc n) [] h = refl
take_all (suc n) (c ∷ s) h = ap (λ t. c ∷ t) (take_all n s (omega arith))

-- The stored error is the text of the error, cut to at most `max` bytes.
pub truncate_err_prefix :
    (e : Error) (max : ℕ)
    → (truncate_err e max ≡ take max e.text) × (length (truncate_err e max) ≤ max)
truncate_err_prefix e max =
    let same = go (Bool-cases (ltb max (length e.text))) in
    (same, rw same (length-take-le max e.text))
  where
    go :
        (ltb max (length e.text) ≡ true) ⊎ (ltb max (length e.text) ≡ false)
        → truncate_err e max ≡ take max e.text
    go (inl t) = unfold truncate_err in rw t refl
    go (inr t) = unfold truncate_err in rw t (sym (take_all max e.text (ground arith)))
