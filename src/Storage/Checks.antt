-- ===== src/Storage/Checks.antt =====
-- What the checks of identifiers, hashes and extensions let through.
use mathlib.Core.List.{cons-ne-nil}
use image_optimizer.Prelude.{
  ℕ, ◌≡◌, ◌≢◌, ◌↔◌, refl, Bool, true, false, [], ◌∷◌, ◌++◌, arith, any, All, All-map, All-append,
  All-of_all, all_of_All, ok, ◌==◌,
}
use image_optimizer.Text.{Bytes, is_empty, contains_any, slash, backslash, dot, Lacks, Unicode}
use image_optimizer.Text.Elements.{IsName}
use image_optimizer.Text.Join.{contains_of_Lacks}
use image_optimizer.Storage.Keys.{
  is_id_byte, is_hex_byte, is_ext_byte, validate_id, validate_params_hash, sanitize_ext,
}

-- One or more bytes of a class.
abbrev pub IsRun : (ℕ → Bool) → Bytes → Type 0
IsRun p s = (s ≢ []) × All (λ c. p c ≡ true) s

not_empty : (s : Bytes) → is_empty s ≡ false → s ≢ []
unfolding is_empty
not_empty [] h = cc
not_empty (c ∷ s) h = cons-ne-nil _ _

is_empty_of_ne : (s : Bytes) → s ≢ [] → is_empty s ≡ false
unfolding is_empty
is_empty_of_ne [] n = absurd (n refl)
is_empty_of_ne (c ∷ s) n = refl

none_of : (bs s : Bytes) → All (λ b. Lacks b s) bs → contains_any bs s ≡ false
unfolding contains_any
none_of bs [] h = refl
none_of bs (c ∷ s) h =
    rw (first bs (All-map (λ b l. l.0) bs h)) (none_of bs s (All-map (λ b l. l.1) bs h))
  where
    first : (bs : Bytes) → All (λ b. c ≢ b) bs → any (λ b. b == c) bs ≡ false
    first [] h = refl
    first (b ∷ bs) (n, h) = ground (arith, first bs h)

-- validateID accepts an identifier if and only if it is one or more ASCII letters, digits, dashes
-- and underscores.
pub validate_id_iff : (id : Bytes) → (validate_id id ≡ ok tt) ↔ IsRun is_id_byte id
unfolding validate_id
validate_id_iff id = (
  λ h. (not_empty id (ground arith), All-of_all is_id_byte (λ c e. e) id (ground arith)),
  λ h.
      rw
        (
          is_empty_of_ne id h.0,
          none_of (slash ∷ backslash ∷ []) id
              (All-map (λ c e. ground arith) id h.1, (All-map (λ c e. ground arith) id h.1, tt)),
          contains_of_Lacks dot (dot ∷ []) id (All-map (λ c e. ground arith) id h.1),
          all_of_All is_id_byte (λ c e. e) id h.1,
        )
        refl,
)

-- validateParamsHash accepts a text if and only if it is one or more hexadecimal digits.
pub validate_params_hash_iff : (h : Bytes) → (validate_params_hash h ≡ ok tt) ↔ IsRun is_hex_byte h
unfolding validate_params_hash
validate_params_hash_iff s = (
  λ h. (not_empty s (ground arith), All-of_all is_hex_byte (λ c e. e) s (ground arith)),
  λ h.
      rw
        (
          is_empty_of_ne s h.0,
          none_of (slash ∷ backslash ∷ []) s
              (All-map (λ c e. ground arith) s h.1, (All-map (λ c e. ground arith) s h.1, tt)),
          contains_of_Lacks dot (dot ∷ []) s (All-map (λ c e. ground arith) s h.1),
          all_of_All is_hex_byte (λ c e. e) s h.1,
        )
        refl,
)

-- An extension is a run of lower-case letters and digits.
pub sanitize_ext_sound :
    (u : Unicode) (raw ext : Bytes) → sanitize_ext u raw ≡ ok ext → IsRun is_ext_byte ext
unfolding sanitize_ext
sanitize_ext_sound u raw ext h =
    (not_empty ext (ground arith), All-of_all is_ext_byte (λ c e. e) ext (ground arith))

-- A file name whose stem is an identifier is a name.
pub file-IsName :
    (id ext : Bytes) → IsRun is_id_byte id → Lacks slash ext → IsName (id ++ (dot ∷ ext))
file-IsName [] ext h l = absurd (h.0 refl)
file-IsName (c ∷ id) ext (n, (e, h)) l = (
  cons-ne-nil _ _,
  ground arith,
  ground arith,
  (
    ground arith,
    All-append _ id (dot ∷ ext) (All-map (λ d f. ground arith) id h) (ground arith, l),
  ),
)

pub id-IsName : (id : Bytes) → IsRun is_id_byte id → IsName id
id-IsName [] h = absurd (h.0 refl)
id-IsName (c ∷ id) (n, (e, h)) =
    (n, ground arith, ground arith, (ground arith, All-map (λ d f. ground arith) id h))
