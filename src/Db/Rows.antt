-- ===== src/Db/Rows.antt =====
-- Lemmas on lists of rows: searching, updating and filtering.
use image_optimizer.Prelude.{
  ◌≡◌, refl, ◌∙◌, Bool, true, false, List, [], ◌∷◌, some, arith, any, All, if◌then◌else◌,
  Bool-cases, inl, inr, ◌⊎◌, subst,
}
use mathlib.Core.Option.{some-injective}
use image_optimizer.Db.Store.{find, filter, update}

module _ {ℓ} {A : Type ℓ} where
  -- Rows that a unique key tells apart.
  abbrev pub Distinct : (A → A → Bool) → List A → Type 0
  Distinct clash [] = Unit
  Distinct clash (x ∷ xs) = (any (clash x) xs ≡ false) × Distinct clash xs

  pub any-update :
      (q p : A → Bool) (f : A → A) (xs : List A)
      → ((x : A) → q (f x) ≡ q x)
      → any q (update p f xs) ≡ any q xs
  unfolding update
  any-update q p f [] h = refl
  any-update q p f (x ∷ xs) h = ground (arith, h x, any-update q p f xs h)

  pub any-filter-false :
      (q p : A → Bool) (xs : List A) → any q xs ≡ false → any q (filter p xs) ≡ false
  unfolding filter
  any-filter-false q p [] h = refl
  any-filter-false q p (x ∷ xs) h = ground (arith, any-filter-false q p xs)

  pub any-filter-true :
      (q p : A → Bool) (xs : List A)
      → ((x : A) → q x ≡ true → p x ≡ true)
      → any q xs ≡ true
      → any q (filter p xs) ≡ true
  unfolding filter
  any-filter-true q p [] k h = h
  any-filter-true q p (x ∷ xs) k h = ground (arith, k x, any-filter-true q p xs k)

  any-replace : (q r : A → Bool) (xs : List A) → ((x : A) → q x ≡ r x) → any q xs ≡ any r xs
  any-replace q r [] h = refl
  any-replace q r (x ∷ xs) h = rw (h x, any-replace q r xs h) refl

  pub Distinct-update :
      (clash : A → A → Bool) (p : A → Bool) (f : A → A) (xs : List A)
      → ((x y : A) → clash (f x) y ≡ clash x y)
      → ((x y : A) → clash x (f y) ≡ clash x y)
      → Distinct clash xs
      → Distinct clash (update p f xs)
  unfolding update
  Distinct-update clash p f [] l r h = tt
  Distinct-update clash p f (x ∷ xs) l r (n, h) =
      (fresh (Bool-cases (p x)), Distinct-update clash p f xs l r h)
    where
      fresh :
          (p x ≡ true) ⊎ (p x ≡ false)
          → any (clash (if p x then f x else x)) (update p f xs) ≡ false
      fresh (inl e) = rw e (
          any-update (clash (f x)) p f xs (r (f x))
          ∙ any-replace (clash (f x)) (clash x) xs (l x)
          ∙ n)
      fresh (inr e) = rw e (any-update (clash x) p f xs (r x) ∙ n)

  pub Distinct-filter :
      (clash : A → A → Bool) (p : A → Bool) (xs : List A)
      → Distinct clash xs
      → Distinct clash (filter p xs)
  unfolding filter
  Distinct-filter clash p [] h = tt
  Distinct-filter clash p (x ∷ xs) (n, h) = elim (Bool-cases (p x)) [
    | inl e ↦ rw e (any-filter-false (clash x) p xs n, Distinct-filter clash p xs h)
    | inr e ↦ rw e (Distinct-filter clash p xs h)
  ]

module _ {ℓ κ} {A : Type ℓ} (P : A → Type κ) where
  pub All-update :
      (p : A → Bool) (f : A → A) (xs : List A)
      → ((x : A) → P x → P (f x))
      → All P xs
      → All P (update p f xs)
  unfolding update
  All-update p f [] k h = tt
  All-update p f (x ∷ xs) k (px, h) = elim (Bool-cases (p x)) [
    | inl e ↦ rw e (k x px, All-update p f xs k h)
    | inr e ↦ rw e (px, All-update p f xs k h)
  ]

  pub All-filter : (p : A → Bool) (xs : List A) → All P xs → All P (filter p xs)
  unfolding filter
  All-filter p [] h = tt
  All-filter p (x ∷ xs) (px, h) = elim (Bool-cases (p x)) [
    | inl e ↦ rw e (px, All-filter p xs h)
    | inr e ↦ rw e (All-filter p xs h)
  ]

  -- What a search finds satisfies its test, and what holds of every row.
  pub find-All :
      (p : A → Bool) (xs : List A) (x : A) → find p xs ≡ some x → All P xs → P x × (p x ≡ true)
  unfolding find
  find-All p [] x e h = cc
  find-All p (y ∷ ys) x e (py, h) = elim (Bool-cases (p y)) [
    | inl t ↦ subst (λ z. P z × (p z ≡ true)) (some-injective y x (rw (t, find) at e)) (py, t)
    | inr t ↦ find-All p ys x (rw (t, find) at e) h
  ]

module _ {ℓ κ μ} {A : Type ℓ} (P : A → Type κ) (Q : A → Type μ) where
  -- What follows from the filter's test holds of every row that stays.
  pub All-of_filter :
      (p : A → Bool) (xs : List A)
      → ((x : A) → p x ≡ true → P x → Q x)
      → All P xs
      → All Q (filter p xs)
  unfolding filter
  All-of_filter p [] k h = tt
  All-of_filter p (x ∷ xs) k (px, h) = elim (Bool-cases (p x)) [
    | inl e ↦ rw e (k x e px, All-of_filter p xs k h)
    | inr e ↦ rw e (All-of_filter p xs k h)
  ]

module _ {ℓ} {A : Type ℓ} where
  -- An update that keeps the test is seen by the search that the test makes.
  pub find-update_self :
      (p : A → Bool) (f : A → A) (xs : List A) (x : A)
      → ((y : A) → p (f y) ≡ p y)
      → find p xs ≡ some x
      → find p (update p f xs) ≡ some (f x)
  unfolding find update
  find-update_self p f [] x k h = cc
  find-update_self p f (y ∷ ys) x k h = elim (Bool-cases (p y)) [
    | inl e ↦ ground (arith, k y, e)
    | inr e ↦ ground (arith, e, find-update_self p f ys x k)
  ]

  -- Where a search finds a row, one satisfies the test.
  pub any_of_find : (p : A → Bool) (xs : List A) (x : A) → find p xs ≡ some x → any p xs ≡ true
  unfolding find
  any_of_find p [] x h = cc
  any_of_find p (y ∷ ys) x h = ground (arith, any_of_find p ys x)

  -- Where a row satisfies the test, the search finds one.
  pub find_of_any : (p : A → Bool) (xs : List A) → any p xs ≡ true → (x : A) × (find p xs ≡ some x)
  unfolding find
  find_of_any p [] h = cc
  find_of_any p (x ∷ xs) h = elim (Bool-cases (p x)) [
    | inl e ↦ (x, rw e refl)
    | inr e ↦ rw e (find_of_any p xs (rw e at h))
  ]
