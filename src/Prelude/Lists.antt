-- ===== src/Prelude/Lists.antt =====
-- Lists measured by native numbers, and predicates over every element of a list.
use Prim.Native.Nat.{ℕ, zero, suc, ◌+◌, ◌≤◌}
use mathlib.Core.Path.{◌≡◌, refl}
use mathlib.Core.Bool.{Bool, true, false, ◌&&◌, ◌||◌}
use mathlib.Core.List.{List, [], ◌∷◌, ◌++◌, reverse, reverse_aux}
use native.Mathlib.Omega.{arith}

module _ {ℓ} {A : Type ℓ} where
  abbrev pub length : List A → ℕ
  length [] = 0
  length (x ∷ xs) = suc (length xs)

  abbrev pub take : ℕ → List A → List A
  take zero xs = []
  take (suc n) [] = []
  take (suc n) (x ∷ xs) = x ∷ take n xs

  abbrev pub drop : ℕ → List A → List A
  drop zero xs = xs
  drop (suc n) [] = []
  drop (suc n) (x ∷ xs) = drop n xs

  abbrev pub all : (A → Bool) → List A → Bool
  all p [] = true
  all p (x ∷ xs) = p x && all p xs

  abbrev pub any : (A → Bool) → List A → Bool
  any p [] = false
  any p (x ∷ xs) = p x || any p xs

  pub length-append : (xs ys : List A) → length (xs ++ ys) ≡ length xs + length ys
  length-append [] ys = omega arith
  length-append (x ∷ xs) ys = omega (arith, length-append xs ys)

  pub length-take-le : (n : ℕ) (xs : List A) → length (take n xs) ≤ n
  length-take-le zero xs = omega arith
  length-take-le (suc n) [] = omega arith
  length-take-le (suc n) (x ∷ xs) = omega (arith, length-take-le n xs)

module _ {ℓ κ} {A : Type ℓ} (P : A → Type κ) where
  abbrev pub All : List A → Type κ
  All [] = Unit
  All (x ∷ xs) = P x × All xs

  pub All-append : (xs ys : List A) → All xs → All ys → All (xs ++ ys)
  All-append [] ys hx hy = hy
  All-append (x ∷ xs) ys (p, hx) hy = (p, All-append xs ys hx hy)

  All-reverse_aux : (xs ys : List A) → All xs → All ys → All (reverse_aux xs ys)
  All-reverse_aux [] ys hx hy = hy
  All-reverse_aux (x ∷ xs) ys (p, hx) hy = All-reverse_aux xs (x ∷ ys) hx (p, hy)

  pub All-reverse : (xs : List A) → All xs → All (reverse xs)
  All-reverse xs h = All-reverse_aux xs [] h tt

module _ {ℓ κ μ} {A : Type ℓ} {P : A → Type κ} {Q : A → Type μ} where
  pub All-map : ((x : A) → P x → Q x) → (xs : List A) → All P xs → All Q xs
  All-map f [] h = tt
  All-map f (x ∷ xs) (p, h) = (f x p, All-map f xs h)

module _ {ℓ κ} {A : Type ℓ} {P : A → Type κ} (p : A → Bool) where
  pub All-of_all : ((x : A) → p x ≡ true → P x) → (xs : List A) → all p xs ≡ true → All P xs
  All-of_all f [] h = tt
  All-of_all f (x ∷ xs) h = (f x (ground arith), All-of_all f xs (ground arith))

  pub all_of_All : ((x : A) → P x → p x ≡ true) → (xs : List A) → All P xs → all p xs ≡ true
  all_of_All f [] h = refl
  all_of_All f (x ∷ xs) (px, h) = rw (f x px) (all_of_All f xs h)
