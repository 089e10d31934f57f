-- ===== src/Text/Contains.antt =====
-- Prefixes, doubled separators, and the parts of a text.
use image_optimizer.Prelude.{
  ℕ, ◌≡◌, refl, Bool, true, false, List, [], ◌∷◌, ◌++◌, arith, any, append_assoc,
}
use image_optimizer.Text.{Bytes, is_empty, has_prefix, contains, same, Lacks}
use image_optimizer.Text.Laws.{same_refl}
use image_optimizer.Text.Split.{split, extend, split_at_sep, split-append}

-- A text that has a prefix is the prefix and a rest.
pub eq_of_has_prefix : (p s : Bytes) → has_prefix p s ≡ true → (t : Bytes) × (s ≡ p ++ t)
unfolding has_prefix
eq_of_has_prefix [] s h = (s, refl)
eq_of_has_prefix (c ∷ p) [] h = cc
eq_of_has_prefix (c ∷ p) (d ∷ s) h =
    let (t, e) = eq_of_has_prefix p s (ground arith) in (t, ground arith)

abbrev pub rest_of : List Bytes → List Bytes
rest_of [] = []
rest_of (p ∷ ps) = ps

rest_of-extend : (c : ℕ) (ps : List Bytes) → rest_of (extend c ps) ≡ rest_of ps
unfolding extend
rest_of-extend c [] = refl
rest_of-extend c (p ∷ ps) = refl

pub any-rest_of : (p : Bytes → Bool) (ps : List Bytes) → any p (rest_of ps) ≡ true → any p ps ≡ true
any-rest_of p [] h = cc
any-rest_of p (q ∷ ps) h = ground arith

module _ (sep : ℕ) (w : Bytes) (plain : Lacks sep w) where
  -- `w` between two separators.
  abbrev pub fenced : Bytes
  fenced = sep ∷ (w ++ (sep ∷ []))

  part_cons :
      (c : ℕ) (s : Bytes)
      → any (same w) (rest_of (split sep s)) ≡ true
      → any (same w) (rest_of (split sep (c ∷ s))) ≡ true
  unfolding split
  part_cons c s h =
      ground (arith, rest_of-extend c (split sep s), any-rest_of (same w) (split sep s) h)

  part_here : (s : Bytes) → has_prefix fenced s ≡ true → any (same w) (rest_of (split sep s)) ≡ true
  part_here s h =
      let (t, e) = eq_of_has_prefix fenced s h in
      rw (e, split_at_sep sep _, append_assoc, split-append sep w t plain, same_refl w) refl

  -- Where a text contains `w` between two separators, `w` is a part behind the first one.
  pub part_of_contains :
      (s : Bytes) → contains fenced s ≡ true → any (same w) (rest_of (split sep s)) ≡ true
  unfolding contains is_empty
  part_of_contains [] h = absurd (ground arith)
  part_of_contains (c ∷ s) h = ground (
    arith,
    part_here (c ∷ s),
    λ (e : contains fenced s ≡ true). part_cons c s (part_of_contains s e),
  )

  -- So a text none of whose parts is `w` does not contain it.
  pub contains_of_parts :
      (s : Bytes) → any (same w) (split sep s) ≡ false → contains fenced s ≡ false
  contains_of_parts s h = ground (arith, part_of_contains s, any-rest_of (same w) (split sep s))
