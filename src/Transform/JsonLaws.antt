-- ===== src/Transform/JsonLaws.antt =====
-- The parameters that the generator reads back from the column params_json.
use image_optimizer.Prelude.{
  codes, ◌≡◌, refl, ◌∙◌, ap, true, false, List, [], ◌∷◌, ◌++◌, Option, none, some, arith, Error, ok,
  ℤ, pos, negsuc,
}
use image_optimizer.Text.{Bytes}
use image_optimizer.Text.Number.{IsInt}
use image_optimizer.Transform.{Params, normalize, is_zero}
use image_optimizer.Transform.Json.{
  Value, int, in_int, set_fields, number_field, text_field, no_params, unmarshal, params_from_json,
  read_params, cache_key_json,
}
use image_optimizer.Transform.Parse.{IsSide, IsQuality, IsRequested, IsNormal, normalize-IsNormal}
use image_optimizer.Transform.KeyParts.{AreInts}

in_int_of_IsInt : (n : ℤ) → IsInt n → in_int n ≡ true
in_int_of_IsInt (pos n) h = ground arith
in_int_of_IsInt (negsuc n) h = ground arith

module _ (rest : List (Bytes × Value)) (h : Option ℤ) (crop fit : Bytes) (q : ℤ) where
  set_w :
      (w : Option ℤ)
      → AreInts w
      → set_fields
          (number_field (codes "w") w ++ rest)
          (record { w = none; h = h; crop = crop; fit = fit; q = q })
        ≡ set_fields rest (record { w = w; h = h; crop = crop; fit = fit; q = q })
  unfolding set_fields
  set_w none i = refl
  set_w (some n) i = rw (in_int_of_IsInt n i) refl

module _ (rest : List (Bytes × Value)) (w : Option ℤ) (crop fit : Bytes) (q : ℤ) where
  set_h :
      (h : Option ℤ)
      → AreInts h
      → set_fields
          (number_field (codes "h") h ++ rest)
          (record { w = w; h = none; crop = crop; fit = fit; q = q })
        ≡ set_fields rest (record { w = w; h = h; crop = crop; fit = fit; q = q })
  unfolding set_fields
  set_h none i = refl
  set_h (some n) i = rw (in_int_of_IsInt n i) refl

set_crop :
    (rest : List (Bytes × Value)) (w h : Option ℤ) (fit : Bytes) (q : ℤ) (crop : Bytes)
    → set_fields
        (text_field (codes "crop") crop ++ rest)
        (record { w = w; h = h; crop = []; fit = fit; q = q })
      ≡ set_fields rest (record { w = w; h = h; crop = crop; fit = fit; q = q })
unfolding set_fields
set_crop rest w h fit q [] = refl
set_crop rest w h fit q (c ∷ crop) = refl

set_fit :
    (rest : List (Bytes × Value)) (w h : Option ℤ) (crop : Bytes) (q : ℤ) (fit : Bytes)
    → set_fields
        (text_field (codes "fit") fit ++ rest)
        (record { w = w; h = h; crop = crop; fit = []; q = q })
      ≡ set_fields rest (record { w = w; h = h; crop = crop; fit = fit; q = q })
unfolding set_fields
set_fit rest w h crop q [] = refl
set_fit rest w h crop q (c ∷ fit) = refl

set_q :
    (w h : Option ℤ) (crop fit : Bytes) (q : ℤ)
    → IsInt q
    → set_fields
        ((codes "q", int q) ∷ [])
        (record { w = w; h = h; crop = crop; fit = fit; q = pos 0 })
      ≡ some (record { w = w; h = h; crop = crop; fit = fit; q = q })
unfolding set_fields
set_q w h crop fit q i = rw (in_int_of_IsInt q i) refl

AreInts-of_IsSide : (o : Option ℤ) → IsSide o → AreInts o
AreInts-of_IsSide none h = tt
AreInts-of_IsSide (some (pos n)) h = h.1
AreInts-of_IsSide (some (negsuc n)) h = absurd h

IsInt-of_IsQuality : (q : ℤ) → IsQuality q → IsInt q
IsInt-of_IsQuality (pos n) h = omega arith
IsInt-of_IsQuality (negsuc n) h = absurd h

not_zero : (q : ℤ) → IsQuality q → is_zero q ≡ false
not_zero (pos n) h = ground arith
not_zero (negsuc n) h = absurd h

abbrev fields_of : Params → List (Bytes × Value)
fields_of n =
    number_field (codes "w") n.w
    ++ (number_field (codes "h") n.h
        ++ (text_field (codes "crop") n.crop
            ++ (text_field (codes "fit") n.fit ++ ((codes "q", int n.q) ∷ []))))

set_fields_of : (n : Params) → IsNormal n → set_fields (fields_of n) no_params ≡ some n
set_fields_of n i =
    set_w _ none [] [] (pos 0) n.w (AreInts-of_IsSide n.w i.w)
    ∙ set_h _ n.w [] [] (pos 0) n.h (AreInts-of_IsSide n.h i.h)
    ∙ set_crop _ n.w n.h [] (pos 0) n.crop
    ∙ set_fit _ n.w n.h n.crop (pos 0) n.fit
    ∙ set_q n.w n.h n.crop n.fit n.q (IsInt-of_IsQuality n.q i.q)

-- For parameters that a request can give, ParamsFromJSON of the document that CacheKeyJSON makes is
-- the normal form of the parameters.
pub params_from_json-cache_key_json :
    (json_error : Error) (p : Params)
    → IsRequested p
    → params_from_json json_error (cache_key_json p) ≡ ok (normalize p)
unfolding params_from_json cache_key_json unmarshal
params_from_json-cache_key_json json_error p r =
    let i = normalize-IsNormal p r in
    ap (read_params json_error) (set_fields_of (normalize p) i)
    ∙ rw (not_zero (normalize p).q i.q) refl
