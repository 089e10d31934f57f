-- ===== src/Transform/Key.antt =====
-- canonicalKey of internal/transform/params.go on normal parameters.
use image_optimizer.Prelude.{
  ℕ, codes, ◌≡◌, ◌≢◌, ◌⊎◌, inl, inr, sym, ◌∙◌, ap, [], ◌∷◌, ◌++◌, Option, none, some, arith, All,
  All-append, ℤ, pos, negsuc,
}
use image_optimizer.Text.{Bytes, Lacks}
use image_optimizer.Text.Split.{split, split-join}
use image_optimizer.Text.Number.{itoa, IsInt}
use image_optimizer.Text.NumberLaws.{itoa-Lacks}
use image_optimizer.Transform.{Params, text_part, number_part, key_parts, canonical_key}
use image_optimizer.Transform.Parse.{IsNormal, IsSide, IsQuality, IsCrop, IsFit}
use image_optimizer.Transform.KeyParts.{HasInts, AreInts, key_parts-injective}

abbrev ampersand : ℕ
ampersand = b'&'

side-ints : (o : Option ℤ) → IsSide o → AreInts o
side-ints none h = tt
side-ints (some (pos n)) h = h.1
side-ints (some (negsuc n)) h = absurd h

quality-IsInt : (z : ℤ) → IsQuality z → IsInt z
quality-IsInt (pos n) h = omega arith
quality-IsInt (negsuc n) h = absurd h

crop-Lacks : (s : Bytes) → IsCrop s → Lacks ampersand s
crop-Lacks s (inl e) = rw e (omega arith)
crop-Lacks s (inr (inl e)) = rw e (omega arith)
crop-Lacks s (inr (inr (inl e))) = rw e (omega arith)
crop-Lacks s (inr (inr (inr (inl e)))) = rw e (omega arith)
crop-Lacks s (inr (inr (inr (inr e)))) = rw e (omega arith)

fit-Lacks : (s : Bytes) → IsFit s → Lacks ampersand s
fit-Lacks s (inl e) = rw e (omega arith)
fit-Lacks s (inr (inl e)) = rw e (omega arith)
fit-Lacks s (inr (inr e)) = rw e (omega arith)

kept-Lacks :
    {Q R : Type 0} (P : Bytes → Type 0) (s : Bytes)
    → ((s : Bytes) → P s → Lacks ampersand s)
    → ((s ≡ []) × Q × R) ⊎ P s
    → Lacks ampersand s
kept-Lacks P s f (inl h) = rw (h.0) tt
kept-Lacks P s f (inr h) = f s h

text_part-Lacks :
    (tag s : Bytes)
    → Lacks ampersand tag
    → Lacks ampersand s
    → All (Lacks ampersand) (text_part tag s)
text_part-Lacks tag [] t h = tt
text_part-Lacks tag (c ∷ s) t h = (All-append _ tag (c ∷ s) t h, tt)

number-Lacks : (tag : Bytes) (n : ℤ) → Lacks ampersand tag → Lacks ampersand (tag ++ itoa n)
number-Lacks tag n t =
    All-append _ tag (itoa n) t (itoa-Lacks ampersand n (omega arith) (inl (omega arith)))

number_part-Lacks :
    (tag : Bytes) (o : Option ℤ) → Lacks ampersand tag → All (Lacks ampersand) (number_part tag o)
number_part-Lacks tag none t = tt
number_part-Lacks tag (some n) t = (number-Lacks tag n t, tt)

module _ (p : Params) (n : IsNormal p) where
  has_ints : HasInts p
  has_ints = record { w = side-ints p.w n.w; h = side-ints p.h n.h; q = quality-IsInt p.q n.q }

  key_parts-Lacks : All (Lacks ampersand) (key_parts p)
  unfolding key_parts
  key_parts-Lacks =
      All-append _ _ _
        (text_part-Lacks (codes "crop=") p.crop (omega arith)
          (kept-Lacks IsCrop p.crop crop-Lacks n.crop))
        (All-append _ _ _
          (text_part-Lacks (codes "fit=") p.fit (omega arith)
            (kept-Lacks IsFit p.fit fit-Lacks n.fit))
          (All-append _ _ _ (number_part-Lacks (codes "h=") p.h (omega arith)) (
            number-Lacks (codes "q=") p.q (omega arith),
            number_part-Lacks (codes "w=") p.w (omega arith),
          )))

key_parts-ne-nil : (p : Params) → key_parts p ≢ []
unfolding key_parts
key_parts-ne-nil p = grind arith

split-canonical_key : (p : Params) → IsNormal p → split ampersand (canonical_key p) ≡ key_parts p
unfolding canonical_key
split-canonical_key p n =
    split-join ampersand (key_parts p) (key_parts-ne-nil p) (key_parts-Lacks p n)

-- Two sets of parameters as Normalize leaves them that have the same canonical key are the same.
pub canonical_key-injective :
    (p p' : Params) → IsNormal p → IsNormal p' → canonical_key p ≡ canonical_key p' → p ≡ p'
canonical_key-injective p p' n n' e =
    key_parts-injective p p' (has_ints p n) (has_ints p' n')
      (sym (split-canonical_key p n) ∙ ap (split ampersand) e ∙ split-canonical_key p' n')
