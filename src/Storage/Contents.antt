-- ===== src/Storage/Contents.antt =====
-- SaveOriginal, WriteVariant and Get of internal/storage/storage.go on the objects of the bucket.
use mathlib.Core.Option.{some-injective}
use image_optimizer.Prelude.{
  ℕ, codes, ◌≡◌, ◌≢◌, inl, inr, refl, sym, ◌∙◌, ap, Bool, ◌++◌, Option, some, Error, Result, ok,
  err, Option-cases, Result-cases,
}
use image_optimizer.Text.{Bytes}
use image_optimizer.Services.Calls.{pure, wrapped, continue}
use image_optimizer.Storage.Keys.{
  normalize_key, validate_id, validate_params_hash, variant_path, original_key,
}
use image_optimizer.Storage.Paths.{variant_path_layout}
use image_optimizer.Storage.Client.{Storage, put_object, save_original, write_variant, get}
use image_optimizer.Storage.S3.{Objects, IsS3}

module _ {W : Type 0} (s : Storage W) (view : W → Objects) (passed : Option Bytes → Bytes → Bool)
    (left : W → Option Bytes → ℕ) (s3 : IsS3 s view passed left) where
  -- Only the object under `key` can change, and a success has stored the bytes there.
  pub record IsWrite (key bytes : Bytes) (old : Objects) (p : Result Bytes × W) : Type 0 where
    pub other : (j : Bytes) → j ≢ key → view p.1 j ≡ old j
    pub stored : (k : Bytes) → p.0 ≡ ok k → (k ≡ key) × (view p.1 key ≡ some bytes)

  nothing_written : (key bytes : Bytes) (w : W) (e : Error) → IsWrite key bytes (view w) (err e, w)
  nothing_written key bytes w e = record { other = λ j n. refl; stored = λ k h. cc }

  put_then :
      (text key bytes : Bytes) (w : W) (p : Result (Unit {0}) × W)
      → s.client.put_object s.bucket key bytes w ≡ p
      → IsWrite key bytes (view w) (continue (wrapped text p) (λ t. pure key))
  put_then text key bytes w (ok t, w') e = record {
    other = λ j n.
        ap (λ (p : Result (Unit {0}) × W). view p.1 j) (sym e) ∙ s3.put_other key bytes w j n;
    stored = λ k h. (
      cc,
      ap (λ (p : Result (Unit {0}) × W). view p.1 key) (sym e)
          ∙ s3.put_ok key bytes w (ap (λ (p : Result (Unit {0}) × W). p.0) e),
    );
  }
  put_then text key bytes w (err x, w') e = record {
    other = λ j n.
        ap (λ (p : Result (Unit {0}) × W). view p.1 j) (sym e) ∙ s3.put_other key bytes w j n;
    stored = λ k h. cc;
  }

  -- How WriteVariant ends.
  pub write_variant-IsWrite :
      (image_id params_hash bytes : Bytes) (w : W)
      → IsWrite
          (variant_path image_id params_hash)
          bytes
          (view w)
          (write_variant s image_id params_hash bytes w)
  unfolding write_variant put_object
  write_variant-IsWrite image_id params_hash bytes w =
      let key = variant_path image_id params_hash in
      elim (Option-cases (s.ctx_err w)) [
        | inr (e, k) ↦ rw k (nothing_written key bytes w e)
        | inl k ↦ elim (Result-cases (validate_id image_id)) [
          | inr (e, v) ↦ rw (k, v) (nothing_written key bytes w e)
          | inl (t, v) ↦ elim (Result-cases (validate_params_hash params_hash)) [
            | inr (e, v') ↦ rw (k, v, v') (nothing_written key bytes w e)
            | inl (t', v') ↦
                rw (k, v, v') (put_then (codes "storage: put variant") key bytes w _ refl)
          ]
        ]
      ]

  -- How SaveOriginal ends, where its checks pass.
  pub save_original-IsWrite :
      (folder id ext bytes key : Bytes) (w : W)
      → original_key s.unicode folder id ext ≡ ok key
      → IsWrite key bytes (view w) (save_original s folder id ext bytes w)
  unfolding save_original put_object
  save_original-IsWrite folder id ext bytes key w named = elim (Option-cases (s.ctx_err w)) [
    | inr (e, k) ↦ rw k (nothing_written key bytes w e)
    | inl k ↦ rw (k, named) (put_then (codes "storage: put original") key bytes w _ refl)
  ]

  pub wrapped_ok :
      {A : Type 0} (text : Bytes) (p : Result A × W) (a : A) (w' : W)
      → wrapped text p ≡ (ok a, w')
      → (p.0 ≡ ok a)
  wrapped_ok text (ok b, w) a w' e = ap (λ p. p.0) e
  wrapped_ok text (err x, w) a w' e = absurd (let k = ap (λ p. p.0) e in cc)

  -- Get under a key that the storage leaves as it is returns the object.
  get-view :
      (key v : Bytes) (size : Option ℕ) (w w' : W)
      → normalize_key key ≡ ok key
      → get s key w ≡ (ok (v, size), w')
      → view w key ≡ some v
  unfolding get
  get-view key v size w w' normal h = elim (Option-cases (s.ctx_err w)) [
    | inr (e, k) ↦
        absurd (let q = ap (λ (p : Result (Bytes × Option ℕ) × W). p.0) (rw k at h) in cc)
    | inl k ↦ s3.get_ok key v size w (
        wrapped_ok (codes "storage: get object " ++ s.quote key)
          (s.client.get_object s.bucket key w) (v, size) w' (rw (k, normal) at h))
  ]

  -- A success has passed the checks.
  write_variant-checks :
      (image_id params_hash bytes key : Bytes) (w : W)
      → (write_variant s image_id params_hash bytes w).0 ≡ ok key
      → (validate_id image_id ≡ ok tt) × (validate_params_hash params_hash ≡ ok tt)
  unfolding write_variant
  write_variant-checks image_id params_hash bytes key w h = elim (Option-cases (s.ctx_err w)) [
    | inr (e, k) ↦ (let q = rw k at h in cc)
    | inl k ↦ elim (Result-cases (validate_id image_id)) [
      | inr (e, v) ↦ (let q = rw (k, v) at h in cc)
      | inl (t, v) ↦ elim (Result-cases (validate_params_hash params_hash)) [
        | inr (e, v') ↦ (let q = rw (k, v, v') at h in cc)
        | inl (t', v') ↦ (v, v')
      ]
    ]
  ]

  -- Where S3 behaves as documented, bytes that Get reads under the key that WriteVariant returned,
  -- with no call between the two, are those that were written.
  pub get-write_variant :
      (image_id params_hash bytes key v : Bytes) (size : Option ℕ) (w w1 w2 : W)
      → write_variant s image_id params_hash bytes w ≡ (ok key, w1)
      → get s key w1 ≡ (ok (v, size), w2)
      → v ≡ bytes
  get-write_variant image_id params_hash bytes key v size w w1 w2 written read =
      let path = variant_path image_id params_hash in
      let done = ap (λ (p : Result Bytes × W). p.0) written in
      let (same_key, there) =
        (write_variant-IsWrite image_id params_hash bytes w).stored key done in
      let there' = ap (λ (p : Result Bytes × W). view p.1 path) (sym written) ∙ there in
      let (a, b) = write_variant-checks image_id params_hash bytes key w done in
      let found =
        get-view path v size w1 w2 (variant_path_layout image_id params_hash a b).1
          (rw (← same_key) read) in
      some-injective v bytes (sym found ∙ there')
