-- ===== src/Transform/Hash.antt =====
-- The parameter hash: what it separates, and that it may stand in an object key.
use image_optimizer.Prelude.{
  ℕ, ◌/◌, ◌%◌, ◌<◌, ◌≡◌, ◌≢◌, ◌↔◌, refl, ap, true, [], ◌∷◌, arith, All, length, ◌*◌, ok,
}
use mathlib.Core.List.{cons-ne-nil}
use image_optimizer.Text.{Bytes}
use image_optimizer.Transform.{
  Params, Query, parse, normalize, canonical_key, hash, hex_digit, hex_encode,
}
use image_optimizer.Transform.Parse.{parse-IsRequested, normalize-IsNormal}
use image_optimizer.Transform.Key.{canonical_key-injective}
use image_optimizer.Storage.Keys.{is_hex_byte, validate_params_hash}
use image_optimizer.Storage.Checks.{validate_params_hash_iff}

abbrev pub AreBytes : Bytes → Type 0
AreBytes s = All (λ c. c < 256) s

hex_digit-injective : (a b : ℕ) → a < 16 → b < 16 → hex_digit a ≡ hex_digit b → a ≡ b
unfolding hex_digit
hex_digit-injective a b ha hb e = ground arith

hex_digit-is_hex_byte : (a : ℕ) → a < 16 → is_hex_byte (hex_digit a) ≡ true
unfolding hex_digit
hex_digit-is_hex_byte a h = ground arith

byte_of_halves : (a b : ℕ) → a / 16 ≡ b / 16 → a % 16 ≡ b % 16 → a ≡ b
byte_of_halves a b h k = omega arith

hex_encode-injective : (s t : Bytes) → AreBytes s → AreBytes t → hex_encode s ≡ hex_encode t → s ≡ t
unfolding hex_encode
hex_encode-injective [] [] hs ht e = refl
hex_encode-injective [] (d ∷ t) hs ht e = cc
hex_encode-injective (c ∷ s) [] hs ht e = cc
hex_encode-injective (c ∷ s) (d ∷ t) (hc, hs) (hd, ht) e =
    let high = hex_digit-injective (c / 16) (d / 16) (omega arith) (omega arith) cc in
    let low = hex_digit-injective (c % 16) (d % 16) (omega arith) (omega arith) cc in
    let first = byte_of_halves c d high low in let later = hex_encode-injective s t hs ht cc in cc

hex_encode-All : (s : Bytes) → AreBytes s → All (λ c. is_hex_byte c ≡ true) (hex_encode s)
unfolding hex_encode
hex_encode-All [] h = tt
hex_encode-All (c ∷ s) (hc, h) = (
  hex_digit-is_hex_byte (c / 16) (omega arith),
  (hex_digit-is_hex_byte (c % 16) (omega arith), hex_encode-All s h),
)

-- The digest's length and the range of its bytes, as crypto/sha256 documents them.
abbrev pub IsDigest : (Bytes → Bytes) → Type 0
IsDigest sum256 = (s : Bytes) → (length (sum256 s) ≡ 32) × AreBytes (sum256 s)

length-hex_encode : (s : Bytes) → length (hex_encode s) ≡ 2 * length s
unfolding hex_encode
length-hex_encode [] = omega arith
length-hex_encode (c ∷ s) = omega (arith, length-hex_encode s)

ne_of_length : (s : Bytes) → 0 < length s → s ≢ []
ne_of_length [] h = absurd (omega arith)
ne_of_length (c ∷ s) h = cons-ne-nil _ _

module _ (sum256 : Bytes → Bytes) (digest : IsDigest sum256) where
  -- Where the digest has 32 bytes, the parameter hash has 64 bytes and passes validateParamsHash of
  -- the storage.
  pub hash-validate_params_hash :
      (p : Params) → (length (hash sum256 p) ≡ 64) × (validate_params_hash (hash sum256 p) ≡ ok tt)
  unfolding hash
  hash-validate_params_hash p =
      let s = sum256 (canonical_key (normalize p)) in
      let (size, bytes) = digest (canonical_key (normalize p)) in
      let total : length (hex_encode s) ≡ 64 = omega (arith, length-hex_encode s) in
      (
        total,
        (validate_params_hash_iff (hex_encode s)).1
            (ne_of_length (hex_encode s) (omega arith), hex_encode-All s bytes),
      )

  -- Two accepted queries get the same parameter hash if and only if their normal parameters are the
  -- same, where the digest has 32 bytes and does not collide on the two canonical keys.
  pub hash-injective :
      (query query' : Query) (p p' : Params)
      → parse query ≡ ok p
      → parse query' ≡ ok p'
      → (sum256 (canonical_key (normalize p)) ≡ sum256 (canonical_key (normalize p'))
          → canonical_key (normalize p) ≡ canonical_key (normalize p'))
      → (hash sum256 p ≡ hash sum256 p') ↔ (normalize p ≡ normalize p')
  unfolding hash
  hash-injective query query' p p' h h' no_collision =
      let k = canonical_key (normalize p) in
      let k' = canonical_key (normalize p') in
      let n = normalize-IsNormal p (parse-IsRequested query p h) in
      let n' = normalize-IsNormal p' (parse-IsRequested query' p' h') in
      (
        λ e. canonical_key-injective (normalize p) (normalize p') n n' (
            no_collision
              (hex_encode-injective (sum256 k) (sum256 k') (digest k).1 (digest k').1 e)),
        λ e. ap (λ q. hex_encode (sum256 (canonical_key q))) e,
      )
