-- ===== src/VariantGen/Made.antt =====
-- A variant that TransformAndPersist of internal/variantgen/variantgen.go has made, on the object store
-- of internal/storage/storage.go.
use image_optimizer.Prelude.{
  ℕ, codes, not, ◌≡◌, sym, ◌∙◌, ap, subst, Bool, Option, some, errorf, Result, ok,
}
use image_optimizer.Text.{Bytes}
use image_optimizer.Transform.{Params}
use image_optimizer.Transform.Json.{params_from_json}
use image_optimizer.Imgproxy.{build_path}
use image_optimizer.Db.{Uuid, Image, Variant}
use image_optimizer.Services.Calls.{Action, lift, fail_if, ◌>>=◌, context}
use image_optimizer.Services.Succeeds.{bind_succeeds, context_succeeds, fail_if_succeeds}
use image_optimizer.Storage.Keys.{variant_path}
use image_optimizer.Storage.Client.{Storage, write_variant, blob_store}
use image_optimizer.Storage.S3.{Objects, IsS3}
use image_optimizer.Storage.Contents.{write_variant-IsWrite}
use image_optimizer.VariantGen.{Deps, transform_and_persist}

module _ {W : Type 0} (s : Storage W) (view : W → Objects) (passed : Option Bytes → Bytes → Bool)
    (left : W → Option Bytes → ℕ) (s3 : IsS3 s view passed left) (fuel : ℕ) (d : Deps W)
    (rows_only : (id : Uuid) (path : Bytes) (w : W) (j : Bytes)
      → view (d.db.mark_ready id path w).1 j ≡ view w j) where
  abbrev pub on_bucket : Deps W
  on_bucket = record d { storage = blob_store fuel s }

  abbrev key_of : Variant → Bytes
  key_of v = variant_path (d.uuid.print v.image_id) v.params_hash

  -- The image that the row names, the parameters that the row holds, and what imgproxy returned for
  -- both: it stands under the key with which the row has been marked ready.
  abbrev pub IsMade : Variant → W → W → Type 0
  IsMade v w w' =
      (img : Image) × (params : Params) × (bytes : Bytes) × (w1 : W) × (w2 : W) × (w3 : W)
      × (d.db.get_image v.image_id w ≡ (ok img, w1))
      × (params_from_json d.json_error v.params_json ≡ ok params)
      × (d.imgproxy.fetch (build_path d.unicode d.s3_bucket img.original_path params) w1
          ≡ (ok bytes, w2))
      × (d.db.mark_ready v.id (key_of v) w3 ≡ (ok tt, w'))
      × (view w' (key_of v) ≡ some bytes)

  -- The last two calls.
  stored :
      (v : Variant) (bytes rel : Bytes) (w2 w3 w' : W)
      → write_variant s (d.uuid.print v.image_id) v.params_hash bytes w2 ≡ (ok rel, w3)
      → d.db.mark_ready v.id rel w3 ≡ (ok tt, w')
      → (d.db.mark_ready v.id (key_of v) w3 ≡ (ok tt, w')) × (view w' (key_of v) ≡ some bytes)
  stored v bytes rel w2 w3 w' written marked =
      let (e, there) =
        (write_variant-IsWrite s view passed left s3 (d.uuid.print v.image_id) v.params_hash bytes
            w2).stored
          rel (ap (λ (p : Result Bytes × W). p.0) written) in
      let there' = ap (λ (p : Result Bytes × W). view p.1 (key_of v)) (sym written) ∙ there in
      let kept =
        ap (λ (p : Result (Unit {0}) × W). view p.1 (key_of v)) (sym marked)
        ∙ rows_only v.id rel w3 (key_of v) in
      (subst (λ k. d.db.mark_ready v.id k w3 ≡ (ok tt, w')) e marked, kept ∙ there')

  abbrev persist : Variant → Bytes → Action W (Unit {0})
  persist v bytes = do
    rel ←
        context (codes "write variant")
          (write_variant s (d.uuid.print v.image_id) v.params_hash bytes)
    context (codes "mark ready") (d.db.mark_ready v.id rel)

  abbrev generate : Variant → Image → Action W (Unit {0})
  generate v img = do
    params ← lift (params_from_json d.json_error v.params_json)
    bytes ←
        context (codes "imgproxy fetch")
          (d.imgproxy.fetch (build_path d.unicode d.s3_bucket img.original_path params))
    persist v bytes

  -- Where S3 behaves as documented and MarkReady leaves the bucket alone, a success of
  -- TransformAndPersist has read the image that the row names and the parameters that the row holds,
  -- has fetched from imgproxy what BuildPath makes of both, and has marked the row ready with a key
  -- under which the bucket holds what was fetched.
  pub transform_and_persist-IsMade :
      (v : Variant) (w w' : W) → transform_and_persist on_bucket v w ≡ (ok tt, w') → IsMade v w w'
  unfolding transform_and_persist
  transform_and_persist-IsMade v w w' h =
      let (t, w0, tested, h1) =
        bind_succeeds (fail_if (not d.complete) (errorf (codes "variantgen: incomplete deps")))
          (λ _. context (codes "get image") (d.db.get_image v.image_id) >>= generate v) w tt w' h in
      let (full, same_world) =
        fail_if_succeeds (not d.complete) (errorf (codes "variantgen: incomplete deps")) w t w0
          tested in
      let (img, w1, got, h2) =
        bind_succeeds (context (codes "get image") (d.db.get_image v.image_id)) (generate v) w0 tt
          w' h1 in
      let (params, w1', read, h3) =
        bind_succeeds (lift (params_from_json d.json_error v.params_json))
          (λ params.
            context (codes "imgproxy fetch")
              (d.imgproxy.fetch (build_path d.unicode d.s3_bucket img.original_path params))
            >>= persist v)
          w1 tt w' h2 in
      let same_world' = ap (λ (p : Result Params × W). p.1) read in
      let fetching =
        context (codes "imgproxy fetch")
          (d.imgproxy.fetch (build_path d.unicode d.s3_bucket img.original_path params)) in
      let (bytes, w2, fetched, h4) =
        bind_succeeds fetching (persist v) w1 tt w'
          (subst (λ x. (fetching >>= persist v) x ≡ (ok tt, w')) (sym same_world') h3) in
      let (rel, w3, written, marked) =
        bind_succeeds
          (context (codes "write variant")
            (write_variant s (d.uuid.print v.image_id) v.params_hash bytes))
          (λ rel. context (codes "mark ready") (d.db.mark_ready v.id rel)) w2 tt w' h4 in
      let (ready, there) =
        stored v bytes rel w2 w3 w'
          (context_succeeds (codes "write variant")
            (write_variant s (d.uuid.print v.image_id) v.params_hash bytes) w2 rel w3 written)
          (context_succeeds (codes "mark ready") (d.db.mark_ready v.id rel) w3 tt w' marked) in
      (
        img,
        params,
        bytes,
        w1,
        w2,
        w3,
        subst (λ x. d.db.get_image v.image_id x ≡ (ok img, w1)) (sym same_world)
            (context_succeeds (codes "get image") (d.db.get_image v.image_id) w0 img w1 got),
        ap (λ (p : Result Params × W). p.0) read,
        context_succeeds (codes "imgproxy fetch")
            (d.imgproxy.fetch (build_path d.unicode d.s3_bucket img.original_path params)) w1 bytes
            w2 fetched,
        ready,
        there,
      )
