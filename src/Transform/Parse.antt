-- ===== src/Transform/Parse.antt =====
-- What Parse accepts, and what Normalize makes of it.
use image_optimizer.Prelude.{
  codes, ◌≤◌, ◌≡◌, ◌⊎◌, inl, inr, refl, not, ◌||◌, [], Option, none, some, arith, if◌then◌else◌, ok,
  ℤ, pos, negsuc, Error, max_int64,
}
use image_optimizer.Text.{Bytes, is_empty}
use image_optimizer.Text.Laws.{same_iff}
use image_optimizer.Text.NumberLaws.{atoi-IsInt}
use image_optimizer.Transform.{
  Params, get, Query, positive, in_percent, parse_size, parse_choice, parse_quality, parse,
  normalize, valid_crops, valid_fits, or_default, is_none, is_zero, default_quality, invalid_w,
  invalid_h, invalid_crop, invalid_fit, invalid_q,
}

-- A side is not set or a positive int.
abbrev pub IsSide : Option ℤ → Type 0
IsSide none = Unit
IsSide (some (pos n)) = (1 ≤ n) × (n ≤ max_int64)
IsSide (some (negsuc n)) = ⊥

abbrev pub IsCrop : Bytes → Type 0
IsCrop s =
    (s ≡ codes "center")
    ⊎ (s ≡ codes "top")
    ⊎ (s ≡ codes "bottom")
    ⊎ (s ≡ codes "left")
    ⊎ (s ≡ codes "right")

abbrev pub IsFit : Bytes → Type 0
IsFit s = (s ≡ codes "cover") ⊎ (s ≡ codes "contain") ⊎ (s ≡ codes "fill")

abbrev pub IsQuality : ℤ → Type 0
IsQuality (pos n) = (1 ≤ n) × (n ≤ 100)
IsQuality (negsuc n) = ⊥

-- The parameters that a request can give.
pub record IsRequested (p : Params) : Type 0 where
  pub w : IsSide p.w
  pub h : IsSide p.h
  pub crop : (p.crop ≡ []) ⊎ IsCrop p.crop
  pub fit : (p.fit ≡ []) ⊎ IsFit p.fit
  pub q : (p.q ≡ pos 0) ⊎ IsQuality p.q

-- The parameters by which a variant is made.
pub record IsNormal (p : Params) : Type 0 where
  pub w : IsSide p.w
  pub h : IsSide p.h
  pub crop : ((p.crop ≡ []) × (p.w ≡ none) × (p.h ≡ none)) ⊎ IsCrop p.crop
  pub fit : ((p.fit ≡ []) × (p.w ≡ none) × (p.h ≡ none)) ⊎ IsFit p.fit
  pub q : IsQuality p.q

parse_size-IsSide : (v : Bytes) (e : Error) (o : Option ℤ) → parse_size v e ≡ ok o → IsSide o
unfolding parse_size positive
parse_size-IsSide v e none h = tt
parse_size-IsSide v e (some (pos n)) h = ground (arith, atoi-IsInt v (pos n))
parse_size-IsSide v e (some (negsuc n)) h = ground arith

IsCrop-sound :
    (v : Bytes) (e : Error) (s : Bytes) → parse_choice valid_crops v e ≡ ok s → (s ≡ []) ⊎ IsCrop s
unfolding parse_choice
IsCrop-sound v e s h = ground (
  arith,
  same_iff v (codes "center"),
  same_iff v (codes "top"),
  same_iff v (codes "bottom"),
  same_iff v (codes "left"),
  same_iff v (codes "right"),
)

IsFit-sound :
    (v : Bytes) (e : Error) (s : Bytes) → parse_choice valid_fits v e ≡ ok s → (s ≡ []) ⊎ IsFit s
unfolding parse_choice
IsFit-sound v e s h =
    ground
      (arith, same_iff v (codes "cover"), same_iff v (codes "contain"), same_iff v (codes "fill"))

IsQuality-sound :
    (v : Bytes) (e : Error) (n : ℤ) → parse_quality v e ≡ ok n → (n ≡ pos 0) ⊎ IsQuality n
unfolding parse_quality in_percent
IsQuality-sound v e (pos n) h = ground arith
IsQuality-sound v e (negsuc n) h = ground arith

-- Whatever the query, parameters that Parse returns have sides that are not set or at least 1 and
-- within an int64, a crop and a fit that are empty or one of the documented words, and a quality
-- that is 0 or from 1 to 100.
pub parse-IsRequested : (query : Query) (p : Params) → parse query ≡ ok p → IsRequested p
unfolding parse
parse-IsRequested query p h = ground (
  arith,
  parse_size-IsSide (get query (codes "w")) invalid_w p.w,
  parse_size-IsSide (get query (codes "h")) invalid_h p.h,
  IsCrop-sound (get query (codes "crop")) invalid_crop p.crop,
  IsFit-sound (get query (codes "fit")) invalid_fit p.fit,
  IsQuality-sound (get query (codes "q")) invalid_q p.q,
)

IsCrop-filled : (s : Bytes) → (s ≡ []) ⊎ IsCrop s → IsCrop (or_default s (codes "center"))
unfolding is_empty
IsCrop-filled s (inl e) = rw e (inl refl)
IsCrop-filled s (inr (inl e)) = rw e (inl refl)
IsCrop-filled s (inr (inr (inl e))) = rw e (inr (inl refl))
IsCrop-filled s (inr (inr (inr (inl e)))) = rw e (inr (inr (inl refl)))
IsCrop-filled s (inr (inr (inr (inr (inl e))))) = rw e (inr (inr (inr (inl refl))))
IsCrop-filled s (inr (inr (inr (inr (inr e))))) = rw e (inr (inr (inr (inr refl))))

IsFit-filled : (s : Bytes) → (s ≡ []) ⊎ IsFit s → IsFit (or_default s (codes "cover"))
unfolding is_empty
IsFit-filled s (inl e) = rw e (inl refl)
IsFit-filled s (inr (inl e)) = rw e (inl refl)
IsFit-filled s (inr (inr (inl e))) = rw e (inr (inl refl))
IsFit-filled s (inr (inr (inr e))) = rw e (inr (inr refl))

-- Which options a request leaves empty is kept only where no side is asked for.
module _ (w h : Option ℤ) (s t : Bytes) (P : Bytes → Type 0) where
  abbrev shown : Bytes
  shown = if not (is_none w) || not (is_none h) then t else s

  kept_or_filled : P t → (s ≡ []) ⊎ P s → ((shown ≡ []) × (w ≡ none) × (h ≡ none)) ⊎ P shown
  kept_or_filled pt o = go w h
    where
      go :
          (v x : Option ℤ)
          → ((if not (is_none v) || not (is_none x) then t else s) ≡ []) × (v ≡ none) × (x ≡ none)
            ⊎ P (if not (is_none v) || not (is_none x) then t else s)
      go (some v) x = inr pt
      go none (some x) = inr pt
      go none none = elim o [ inl e ↦ inl (e, refl, refl) | inr ps ↦ inr ps ]

IsQuality-filled :
    (n : ℤ) → (n ≡ pos 0) ⊎ IsQuality n → IsQuality (if is_zero n then default_quality else n)
IsQuality-filled (pos n) h = ground arith
IsQuality-filled (negsuc n) h = ground arith

-- For parameters that a request can give, Normalize returns a quality from 1 to 100 and keeps the
-- sides in range, and crop and fit are documented words unless they are empty and neither side is
-- set.
pub normalize-IsNormal : (p : Params) → IsRequested p → IsNormal (normalize p)
unfolding normalize
normalize-IsNormal p r = record {
  w = r.w;
  h = r.h;
  crop = kept_or_filled p.w p.h p.crop _ IsCrop (IsCrop-filled p.crop r.crop) r.crop;
  fit = kept_or_filled p.w p.h p.fit _ IsFit (IsFit-filled p.fit r.fit) r.fit;
  q = IsQuality-filled p.q r.q;
}

-- Normalize of parameters that Normalize has returned changes nothing.
pub normalize_idem : (p : Params) → normalize (normalize p) ≡ normalize p
unfolding normalize
normalize_idem p = ground arith
