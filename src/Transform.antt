-- ===== src/Transform.antt =====
-- internal/transform/params.go: the transform parameters of a request, their defaults, and the
-- cache key. SHA-256 is a parameter of the hash.
pub mod Json
pub mod JsonLaws
pub mod Parse
pub mod Key
pub mod KeyParts
pub mod Hash
use image_optimizer.Prelude.{
  ℕ, codes, ◌/◌, ◌%◌, ◌+◌, Bool, true, false, not, ◌&&◌, ◌||◌, List, [], ◌∷◌, ◌++◌, Option, none,
  some, leb, ltb, ◌==◌, if◌then◌else◌, any, Error, errorf, Result, ok, err, ◌>>=◌, ◌>>◌, ℤ, pos,
  negsuc,
}
use image_optimizer.Text.{Bytes, same, is_empty}
use image_optimizer.Text.Split.{join}
use image_optimizer.Text.Number.{itoa, atoi}

-- An empty text stands for an option that is not set.
pub record Params : Type 0 where
  pub w : Option ℤ
  pub h : Option ℤ
  pub crop : Bytes
  pub fit : Bytes
  pub q : ℤ

abbrev pub default_quality : ℤ
default_quality = pos 80

abbrev pub valid_crops : List Bytes
valid_crops = codes "center" ∷ codes "top" ∷ codes "bottom" ∷ codes "left" ∷ codes "right" ∷ []

abbrev pub valid_fits : List Bytes
valid_fits = codes "cover" ∷ codes "contain" ∷ codes "fill" ∷ []

abbrev pub Query : Type 0
Query = List (Bytes × Bytes)

-- url.Values.Get: the first value of the key, or the empty text.
unfoldable pub get : Query → Bytes → Bytes
get [] key = []
get ((k, v) ∷ query) key = if same k key then v else get query key

unfoldable pub positive : ℤ → Bool
positive (pos n) = ltb 0 n
positive (negsuc n) = false

unfoldable pub in_percent : ℤ → Bool
in_percent (pos n) = leb 1 n && leb n 100
in_percent (negsuc n) = false

-- The number behind a key, if it is an int that passes the test.
abbrev pub checked : (ℤ → Bool) → Option ℤ → Error → Result ℤ
checked test none e = err e
checked test (some n) e = if test n then ok n else err e

abbrev pub some_ok : Result ℤ → Result (Option ℤ)
some_ok (ok n) = ok (some n)
some_ok (err e) = err e

-- `w` and `h`
unfoldable pub parse_size : Bytes → Error → Result (Option ℤ)
parse_size v e = if is_empty v then ok none else some_ok (checked positive (atoi v) e)

-- `crop` and `fit`
unfoldable pub parse_choice : List Bytes → Bytes → Error → Result Bytes
parse_choice choices v e =
    if is_empty v then ok [] else if any (same v) choices then ok v else err e

-- `q`; zero if it is not set
unfoldable pub parse_quality : Bytes → Error → Result ℤ
parse_quality v e = if is_empty v then ok (pos 0) else checked in_percent (atoi v) e

abbrev pub invalid_w : Error
invalid_w = errorf (codes "invalid w: must be int > 0")

abbrev pub invalid_h : Error
invalid_h = errorf (codes "invalid h: must be int > 0")

abbrev pub invalid_crop : Error
invalid_crop = errorf (codes "invalid crop: must be center|top|bottom|left|right")

abbrev pub invalid_fit : Error
invalid_fit = errorf (codes "invalid fit: must be cover|contain|fill")

-- The text has an en dash, three bytes in UTF-8.
abbrev pub invalid_q : Error
invalid_q = errorf (codes "invalid q: must be int 1" ++ (0xe2 ∷ 0x80 ∷ 0x93 ∷ codes "100"))

unfoldable pub parse : Query → Result Params
parse query = do
  w ← parse_size (get query (codes "w")) invalid_w
  h ← parse_size (get query (codes "h")) invalid_h
  crop ← parse_choice valid_crops (get query (codes "crop")) invalid_crop
  fit ← parse_choice valid_fits (get query (codes "fit")) invalid_fit
  q ← parse_quality (get query (codes "q")) invalid_q
  ok (record { w = w; h = h; crop = crop; fit = fit; q = q })

abbrev pub is_none : Option ℤ → Bool
is_none none = true
is_none (some n) = false

abbrev pub is_zero : ℤ → Bool
is_zero (pos n) = n == 0
is_zero (negsuc n) = false

-- A side is asked for.
abbrev pub resizes : Params → Bool
resizes p = not (is_none p.w) || not (is_none p.h)

abbrev pub or_default : Bytes → Bytes → Bytes
or_default s d = if is_empty s then d else s

unfoldable pub normalize : Params → Params
normalize p = record {
  w = p.w;
  h = p.h;
  crop = if resizes p then or_default p.crop (codes "center") else p.crop;
  fit = if resizes p then or_default p.fit (codes "cover") else p.fit;
  q = if is_zero p.q then default_quality else p.q;
}

-- A part of the key, if the option is set.
abbrev pub text_part : Bytes → Bytes → List Bytes
text_part tag [] = []
text_part tag (c ∷ s) = (tag ++ (c ∷ s)) ∷ []

abbrev pub number_part : Bytes → Option ℤ → List Bytes
number_part tag none = []
number_part tag (some n) = (tag ++ itoa n) ∷ []

unfoldable pub key_parts : Params → List Bytes
key_parts p =
    text_part (codes "crop=") p.crop
    ++ (text_part (codes "fit=") p.fit
        ++ (number_part (codes "h=") p.h
            ++ ((codes "q=" ++ itoa p.q) ∷ number_part (codes "w=") p.w)))

unfoldable pub canonical_key : Params → Bytes
canonical_key p = join b'&' (key_parts p)

unfoldable pub hex_digit : ℕ → ℕ
hex_digit d = if ltb d 10 then b'0' + d else b'W' + d

-- hex.EncodeToString
unfoldable pub hex_encode : Bytes → Bytes
hex_encode [] = []
hex_encode (b ∷ bs) = hex_digit (b / 16) ∷ hex_digit (b % 16) ∷ hex_encode bs

-- The SHA-256 digest is given by `sum256`.
unfoldable pub hash : (Bytes → Bytes) → Params → Bytes
hash sum256 p = hex_encode (sum256 (canonical_key (normalize p)))
