-- ===== src/Text/Trim.antt =====
-- strings.Trim and strings.ReplaceAll of one byte, one after the other.
use mathlib.Core.List.{reverse-append, reverse-reverse}
use image_optimizer.Prelude.{
  ℕ, ◌≡◌, ◌≢◌, refl, sym, ap, ◌∙◌, subst, Bool, false, [], ◌∷◌, ◌++◌, reverse, arith, All-reverse,
  Bool-cases, inl, inr,
}
use image_optimizer.Text.{Bytes, Lacks, trim, trim_left, replace_byte}

pub replace-Lacks : (a b : ℕ) (s : Bytes) → a ≢ b → Lacks a (replace_byte a b s)
unfolding replace_byte
replace-Lacks a b [] n = tt
replace-Lacks a b (c ∷ s) n = (ground arith, replace-Lacks a b s n)

pub replace_of_Lacks : (a b : ℕ) (s : Bytes) → Lacks a s → replace_byte a b s ≡ s
unfolding replace_byte
replace_of_Lacks a b [] h = refl
replace_of_Lacks a b (c ∷ s) (n, h) = ground (arith, replace_of_Lacks a b s h)

module _ (p : ℕ → Bool) where
  -- The text is empty, or its first byte stays.
  abbrev IsTight : Bytes → Type 0
  IsTight [] = Unit
  IsTight (c ∷ s) = p c ≡ false

  trim_left-IsTight : (s : Bytes) → IsTight (trim_left p s)
  unfolding trim_left
  trim_left-IsTight [] = tt
  trim_left-IsTight (c ∷ s) = elim (Bool-cases (p c)) [
    | inl e ↦ rw e (trim_left-IsTight s)
    | inr e ↦ rw e e
  ]

  trim_left_of_IsTight : (s : Bytes) → IsTight s → trim_left p s ≡ s
  unfolding trim_left
  trim_left_of_IsTight [] h = refl
  trim_left_of_IsTight (c ∷ s) h = rw h refl

  -- What is dropped on the left.
  cut_left : (s : Bytes) → (w : Bytes) × (s ≡ w ++ trim_left p s)
  unfolding trim_left
  cut_left [] = ([], refl)
  cut_left (c ∷ s) = elim (Bool-cases (p c)) [
    | inl e ↦ let (w, same) = cut_left s in rw e (c ∷ w, ap (λ t. c ∷ t) same)
    | inr e ↦ rw e ([], refl)
  ]

  IsTight-prefix : (a b : Bytes) → IsTight (a ++ b) → IsTight a
  IsTight-prefix [] b h = tt
  IsTight-prefix (c ∷ a) b h = h

  -- Trimming on the right keeps the start.
  right-IsTight : (a : Bytes) → IsTight a → IsTight (reverse (trim_left p (reverse a)))
  right-IsTight a h =
      let (w, same) = cut_left (reverse a) in
      let whole : a ≡ reverse (trim_left p (reverse a)) ++ reverse w =
        sym (reverse-reverse a) ∙ ap reverse same ∙ reverse-append w (trim_left p (reverse a)) in
      IsTight-prefix _ (reverse w) (subst IsTight whole h)

  pub trim_idem : (s : Bytes) → trim p (trim p s) ≡ trim p s
  unfolding trim
  trim_idem s =
      let a = trim_left p s in
      let b = trim_left p (reverse a) in
      rw
        (
          trim_left_of_IsTight (reverse b) (right-IsTight a (trim_left-IsTight s)),
          reverse-reverse b,
          trim_left_of_IsTight b (trim_left-IsTight (reverse a)),
        )
        refl

  trim_left-Lacks : (b : ℕ) (s : Bytes) → Lacks b s → Lacks b (trim_left p s)
  unfolding trim_left
  trim_left-Lacks b [] h = tt
  trim_left-Lacks b (c ∷ s) (n, h) = elim (Bool-cases (p c)) [
    | inl e ↦ rw e (trim_left-Lacks b s h)
    | inr e ↦ rw e (n, h)
  ]

  trim-Lacks : (b : ℕ) (s : Bytes) → Lacks b s → Lacks b (trim p s)
  unfolding trim
  trim-Lacks b s h = All-reverse _ _ (trim_left-Lacks b _ (All-reverse _ _ (trim_left-Lacks b s h)))

  -- To replace a byte and trim, done twice, is the same as once.
  pub trim-replace_idem :
      (a b : ℕ) (s : Bytes)
      → a ≢ b
      → trim p (replace_byte a b (trim p (replace_byte a b s))) ≡ trim p (replace_byte a b s)
  trim-replace_idem a b s n =
      ap (trim p) (replace_of_Lacks a b _ (trim-Lacks a _ (replace-Lacks a b s n)))
      ∙ trim_idem (replace_byte a b s)
