-- ===== src/Transform/Json.antt =====
-- The JSON form of the parameters: CacheKeyJSON of internal/transform/params.go and
-- ParamsFromJSON of internal/variantgen/variantgen.go. A document is the value that its text
-- stands for, as in the JSONB column that holds it; only the fields of the top object are looked at.
use mathlib.Core.Option
use image_optimizer.Prelude.{
  codes, ◌+◌, Bool, List, [], ◌∷◌, ◌++◌, map, Option, none, some, leb, if◌then◌else◌, Error, wrap,
  Result, ok, err, ℤ, pos, negsuc, max_int64,
}
use image_optimizer.Text.{Bytes, same, is_upper}
use image_optimizer.Transform.{Params, normalize, default_quality, is_zero}

-- `other` is an array, an object, a boolean, or a number that is no integer literal.
pub data Value : Type 0 where
  null : Value
  int : ℤ → Value
  str : Bytes → Value
  other : Value

-- A top value that is neither null nor an object, or text that is no JSON, is `bad`.
pub data Document : Type 0 where
  null_document : Document
  object : List (Bytes × Value) → Document
  bad : Document

abbrev pub in_int : ℤ → Bool
in_int (pos n) = leb n max_int64
in_int (negsuc n) = leb n max_int64

-- encoding/json matches a field's name whatever the case of its letters.
unfoldable pub fold : Bytes → Bytes
fold s = map (λ c. if is_upper c then c + 32 else c) s

-- A pointer to an int: null clears it.
abbrev pub set_pointer : Value → Option ℤ → Option (Option ℤ)
set_pointer null old = some none
set_pointer (int n) old = if in_int n then some (some n) else none
set_pointer (str s) old = none
set_pointer other old = none

-- An int or a string: null leaves it as it is.
abbrev pub set_int : Value → ℤ → Option ℤ
set_int null old = some old
set_int (int n) old = if in_int n then some n else none
set_int (str s) old = none
set_int other old = none

abbrev pub set_text : Value → Bytes → Option Bytes
set_text null old = some old
set_text (str s) old = some s
set_text (int n) old = none
set_text other old = none

-- One field of the object, into the struct; an unknown field is skipped.
unfoldable pub set_field : Bytes → Value → Params → Option Params
unfolding fold same
set_field key v p =
    if same (fold key) (codes "w")
    then Option.map (λ x. record p { w = x }) (set_pointer v p.w)
    else if same (fold key) (codes "h")
    then Option.map (λ x. record p { h = x }) (set_pointer v p.h)
    else if same (fold key) (codes "crop")
    then Option.map (λ x. record p { crop = x }) (set_text v p.crop)
    else if same (fold key) (codes "fit")
    then Option.map (λ x. record p { fit = x }) (set_text v p.fit)
    else if same (fold key) (codes "q")
    then Option.map (λ x. record p { q = x }) (set_int v p.q)
    else some p

abbrev pub and_then : Option Params → (Params → Option Params) → Option Params
and_then none f = none
and_then (some p) f = f p

-- Every field in turn; a field that does not fit its type makes the call fail.
unfoldable pub set_fields : List (Bytes × Value) → Params → Option Params
unfolding set_field
set_fields [] p = some p
set_fields ((key, v) ∷ rest) p = and_then (set_field key v p) (set_fields rest)

abbrev pub no_params : Params
no_params = record { w = none; h = none; crop = []; fit = []; q = pos 0 }

-- json.Unmarshal into Params
unfoldable pub unmarshal : Document → Option Params
unfolding set_fields
unmarshal null_document = some no_params
unmarshal (object fields) = set_fields fields no_params
unmarshal bad = none

-- A field with `omitempty`.
abbrev pub number_field : Bytes → Option ℤ → List (Bytes × Value)
number_field key none = []
number_field key (some n) = (key, int n) ∷ []

abbrev pub text_field : Bytes → Bytes → List (Bytes × Value)
text_field key [] = []
text_field key (c ∷ s) = (key, str (c ∷ s)) ∷ []

-- CacheKeyJSON: json.Marshal of the normal parameters.
unfoldable pub cache_key_json : Params → Document
cache_key_json p =
    let n = normalize p in
    object (
      number_field (codes "w") n.w
      ++ (number_field (codes "h") n.h
          ++ (text_field (codes "crop") n.crop
              ++ (text_field (codes "fit") n.fit ++ ((codes "q", int n.q) ∷ [])))))

-- The quality that is used if the document has none.
abbrev pub with_quality : Params → Params
with_quality p = record p { q = if is_zero p.q then default_quality else p.q }

abbrev pub read_params : Error → Option Params → Result Params
read_params json_error none = err (wrap (codes "unmarshal params") json_error)
read_params json_error (some p) = ok (with_quality p)

-- ParamsFromJSON; `json_error` is the error of package encoding/json.
unfoldable pub params_from_json : Error → Document → Result Params
params_from_json json_error doc = read_params json_error (unmarshal doc)
