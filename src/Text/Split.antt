-- ===== src/Text/Split.antt =====
-- strings.Split and strings.Join with a separator of one byte.
use mathlib.Core.List.{cons-ne-nil}
use image_optimizer.Prelude.{
  ℕ, ◌≡◌, ◌≢◌, refl, List, [], ◌∷◌, ◌++◌, arith, ◌==◌, if◌then◌else◌, All, ap,
}
use image_optimizer.Text.{Bytes, Lacks}

-- Puts a byte in front of the first part.
unfoldable pub extend : ℕ → List Bytes → List Bytes
extend c [] = (c ∷ []) ∷ []
extend c (p ∷ ps) = (c ∷ p) ∷ ps

-- strings.Split(s, sep): there is always at least one part.
unfoldable pub split : ℕ → Bytes → List Bytes
split sep [] = [] ∷ []
split sep (c ∷ s) = let rest = split sep s in if c == sep then [] ∷ rest else extend c rest

-- strings.Join(parts, sep)
unfoldable pub join : ℕ → List Bytes → Bytes
join sep [] = []
join sep (p ∷ []) = p
join sep (p ∷ q ∷ ps) = p ++ (sep ∷ join sep (q ∷ ps))

module _ (sep : ℕ) where
  pub split-ne-nil : (s : Bytes) → split sep s ≢ []
  unfolding split extend
  split-ne-nil [] = cons-ne-nil _ _
  split-ne-nil (c ∷ s) = ground (arith, split-ne-nil s)

  pub split_at_sep : (s : Bytes) → split sep (sep ∷ s) ≡ [] ∷ split sep s
  unfolding split
  split_at_sep s = ground arith

  join-extend : (c : ℕ) (ps : List Bytes) → join sep (extend c ps) ≡ c ∷ join sep ps
  unfolding join extend
  join-extend c [] = refl
  join-extend c (p ∷ []) = refl
  join-extend c (p ∷ q ∷ ps) = refl

  join-nil-cons : (ps : List Bytes) → ps ≢ [] → join sep ([] ∷ ps) ≡ sep ∷ join sep ps
  unfolding join
  join-nil-cons [] h = absurd (h refl)
  join-nil-cons (p ∷ ps) h = refl

  pub join-split : (s : Bytes) → join sep (split sep s) ≡ s
  unfolding split
  join-split [] = unfold join in refl
  join-split (c ∷ s) = ground (
    arith,
    join-split s,
    join-extend c (split sep s),
    join-nil-cons (split sep s) (split-ne-nil s),
  )

  extend-Lacks :
      (c : ℕ) (ps : List Bytes) → c ≢ sep → All (Lacks sep) ps → All (Lacks sep) (extend c ps)
  unfolding extend
  extend-Lacks c [] n h = ((n, tt), tt)
  extend-Lacks c (p ∷ ps) n (hp, h) = ((n, hp), h)

  pub split-Lacks : (s : Bytes) → All (Lacks sep) (split sep s)
  unfolding split
  split-Lacks [] = (tt, tt)
  split-Lacks (c ∷ s) =
      ground (arith, split-Lacks s, λ (n : c ≢ sep). extend-Lacks c (split sep s) n (split-Lacks s))

  pub split_of_Lacks : (p : Bytes) → Lacks sep p → split sep p ≡ p ∷ []
  unfolding split extend
  split_of_Lacks [] h = refl
  split_of_Lacks (c ∷ p) (n, h) = ground (arith, split_of_Lacks p h)

  pub split-append : (p s : Bytes) → Lacks sep p → split sep (p ++ (sep ∷ s)) ≡ p ∷ split sep s
  unfolding split extend
  split-append [] s h = ground arith
  split-append (c ∷ p) s (n, h) = ground (arith, split-append p s h)

  pub split-join : (ps : List Bytes) → ps ≢ [] → All (Lacks sep) ps → split sep (join sep ps) ≡ ps
  unfolding join
  split-join [] h l = absurd (h refl)
  split-join (p ∷ []) h l = split_of_Lacks p l.0
  split-join (p ∷ q ∷ ps) h l =
      rw (split-append p (join sep (q ∷ ps)) l.0)
        (ap (λ t. p ∷ t) (split-join (q ∷ ps) (cons-ne-nil _ _) l.1))
