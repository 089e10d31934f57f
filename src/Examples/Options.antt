-- ===== src/Examples/Options.antt =====
-- Transform options as requests give them, and a digest of the documented length.
use mathlib.Core.List.{cons-eq-cons}
use image_optimizer.Prelude.{
  ℕ, codes, ◌≡◌, ◌↔◌, ◌<◌, refl, sym, ◌∙◌, [], ◌∷◌, none, some, ok, length, arith, errorf, pos,
  if◌then◌else◌, ltb,
}
use image_optimizer.Text.{Bytes, is_empty, same}
use image_optimizer.Text.Split.{join}
use image_optimizer.Text.Number
use image_optimizer.Text.Number.{atoi, digits_value, scan, itoa, format, digits}
use image_optimizer.Transform.{
  Params, Query, get, parse, parse_size, parse_choice, parse_quality, positive, in_percent,
  normalize, canonical_key, key_parts, hash,
}
use image_optimizer.Transform.Parse.{IsRequested, IsNormal, parse-IsRequested, normalize-IsNormal}
use image_optimizer.Transform.Key.{canonical_key-injective}
use image_optimizer.Transform.Json.{params_from_json, cache_key_json}
use image_optimizer.Transform.JsonLaws.{params_from_json-cache_key_json}
use image_optimizer.Transform.Hash.{IsDigest, hash-validate_params_hash, hash-injective}
use image_optimizer.Storage.Keys.{validate_params_hash}

abbrev query : Query
query = (codes "w", codes "640") ∷ (codes "crop", codes "top") ∷ []

abbrev params : Params
params = record { w = some (pos 640); h = none; crop = codes "top"; fit = []; q = pos 0 }

abbrev other_query : Query
other_query = (codes "q", codes "55") ∷ []

abbrev other_params : Params
other_params = record { w = none; h = none; crop = []; fit = []; q = pos 55 }

parsed : parse query ≡ ok params
unfolding parse parse_size is_empty get same atoi Number.positive digits_value scan positive
    in_percent parse_choice parse_quality
parsed = refl

other_parsed : parse other_query ≡ ok other_params
unfolding parse parse_size is_empty get same atoi Number.positive digits_value scan positive
    in_percent parse_choice parse_quality
other_parsed = refl

abbrev zeros : Bytes
zeros =
    0 ∷ 0 ∷ 0 ∷ 0 ∷ 0 ∷ 0 ∷ 0 ∷ 0 ∷ 0 ∷ 0 ∷ 0 ∷ 0 ∷ 0 ∷ 0 ∷ 0 ∷ 0 ∷ 0 ∷ 0 ∷ 0 ∷ 0 ∷ 0 ∷ 0 ∷ 0 ∷ 0
    ∷ 0 ∷ 0 ∷ 0 ∷ 0 ∷ 0 ∷ 0 ∷ 0 ∷ []

-- A digest that tells a key with a crop from a key without.
abbrev first_or_zero : Bytes → ℕ
first_or_zero [] = 0
first_or_zero (c ∷ s) = if ltb c 256 then c else 0

abbrev sum256 : Bytes → Bytes
sum256 s = first_or_zero s ∷ zeros

first_or_zero_lt : (s : Bytes) → first_or_zero s < 256
first_or_zero_lt [] = omega arith
first_or_zero_lt (c ∷ s) = ground arith

digest : IsDigest sum256
digest s = (refl, (first_or_zero_lt s, omega arith))

parse-IsRequested_example : IsRequested params
parse-IsRequested_example = parse-IsRequested query params parsed

normalize-IsNormal_example : IsNormal (normalize params)
normalize-IsNormal_example = normalize-IsNormal params (parse-IsRequested query params parsed)

canonical_key-injective_example : normalize params ≡ normalize params
canonical_key-injective_example =
    canonical_key-injective (normalize params) (normalize params)
      (normalize-IsNormal params (parse-IsRequested query params parsed))
      (normalize-IsNormal params (parse-IsRequested query params parsed)) refl

params_from_json-cache_key_json_example :
    params_from_json (errorf (codes "bad json")) (cache_key_json params) ≡ ok (normalize params)
params_from_json-cache_key_json_example =
    params_from_json-cache_key_json (errorf (codes "bad json")) params
      (parse-IsRequested query params parsed)

hash-validate_params_hash_example :
    (length (hash sum256 params) ≡ 64) × (validate_params_hash (hash sum256 params) ≡ ok tt)
hash-validate_params_hash_example = hash-validate_params_hash sum256 digest params

first_of_params : first_or_zero (canonical_key (normalize params)) ≡ 99
unfolding canonical_key join key_parts normalize is_empty
first_of_params = refl

first_of_other : first_or_zero (canonical_key (normalize other_params)) ≡ 113
unfolding canonical_key join key_parts normalize is_empty
first_of_other = refl

no_collision :
    sum256 (canonical_key (normalize params)) ≡ sum256 (canonical_key (normalize other_params))
    → canonical_key (normalize params) ≡ canonical_key (normalize other_params)
no_collision e =
    let heads = (cons-eq-cons.0 e).0 in
    absurd (omega (arith, sym first_of_params ∙ heads ∙ first_of_other))

hash-injective_example :
    (hash sum256 params ≡ hash sum256 other_params) ↔ (normalize params ≡ normalize other_params)
hash-injective_example =
    hash-injective sum256 digest query other_query params other_params parsed other_parsed
      no_collision
