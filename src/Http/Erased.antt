-- ===== src/Http/Erased.antt =====
-- handleDelete of internal/http/handlers.go on the object store of internal/storage/storage.go.
use image_optimizer.Prelude.{
  ℕ, ◌≡◌, ◌<◌, refl, ◌∙◌, ap, arith, true, false, Option, none, some, inl, inr, Bool, Result, ok,
  err, Option-cases,
}
use image_optimizer.Text.{Bytes}
use image_optimizer.Db.{Uuid, Image}
use image_optimizer.Storage.Client.{Storage, blob_store}
use image_optimizer.Storage.S3.{Objects, IsS3, HasNoKeyErrors}
use image_optimizer.Storage.Files.{is_target, IsFileRemoval, delete_image_files-IsFileRemoval}
use image_optimizer.Http.{Handler}
use image_optimizer.Http.Serve.{row_deleted, files_deleted, image_loaded, delete_id, handle_delete}

module _ {W : Type 0} (s : Storage W) (view : W → Objects) (passed : Option Bytes → Bytes → Bool)
    (left : W → Option Bytes → ℕ) (s3 : IsS3 s view passed left) (clean : HasNoKeyErrors s view)
    (fuel : ℕ) (h : Handler W)
    (rows_only : (id : Uuid) (w : W) (j : Bytes)
      → view (h.gen.db.delete_image id w).1 j ≡ view w j) where
  abbrev pub on_bucket : Handler W
  on_bucket = record h { gen = record h.gen { storage = blob_store fuel s } }

  row_deleted-view :
      (p : Result (Unit {0}) × W) (j : Bytes) → view (row_deleted on_bucket p).1 j ≡ view p.1 j
  unfolding row_deleted
  row_deleted-view (ok t, w) j = refl
  row_deleted-view (err e, w) j = refl

  -- The files of the image are gone, and all else is there.
  abbrev pub IsErased : Uuid → Image → W → W → Type 0
  IsErased id img w w' =
      (j : Bytes)
      → (is_target (h.gen.uuid.print id) img.original_path j ≡ true → view w' j ≡ none)
        × (is_target (h.gen.uuid.print id) img.original_path j ≡ false → view w' j ≡ view w j)

  files_deleted-IsErased :
      (id : Uuid) (img : Image) (w : W) (r : Result (Unit {0})) (w1 : W)
      → IsFileRemoval s view passed left s3
          (h.gen.uuid.print id)
          img.original_path
          (view w)
          r
          (view w1)
      → (files_deleted on_bucket id (r, w1)).0.status ≡ 204
      → IsErased id img w (files_deleted on_bucket id (r, w1)).1
  unfolding files_deleted
  files_deleted-IsErased id img w (ok t) w1 f done j =
      let rows = row_deleted-view (h.gen.db.delete_image id w1) j ∙ rows_only id w1 j in
      (λ k. rows ∙ f.removed refl j k, λ k. rows ∙ f.other j k)
  files_deleted-IsErased id img w (err e) w1 f done j = absurd (omega arith)

  image_loaded-IsErased :
      (id : Uuid) (r : Result Image) (w : W)
      → left w none < fuel
      → (image_loaded on_bucket id (r, w)).0.status ≡ 204
      → (img : Image) × (r ≡ ok img) × IsErased id img w (image_loaded on_bucket id (r, w)).1
  unfolding image_loaded
  image_loaded-IsErased id (ok img) w enough done =
      let (r, w1, e, f) =
        delete_image_files-IsFileRemoval s view passed left s3 clean fuel (h.gen.uuid.print id)
          img.original_path w enough in
      (img, refl, rw e (files_deleted-IsErased id img w r w1 f (rw e at done)))
  image_loaded-IsErased id (err e) w enough done = absurd (ground arith)

  -- Under the conditions on S3, on failed keys and on the fuel, and where DeleteImage leaves the
  -- bucket alone, a deletion that answers 204 has found the image's row, and leaves no object under
  -- the key of its original or under the prefix of its variants, and every other object as it was.
  pub handle_delete-IsErased :
      (id_str : Bytes) (w : W)
      → ((id : Uuid) → left (h.gen.db.get_image id w).1 none < fuel)
      → (handle_delete on_bucket id_str w).0.status ≡ 204
      → (id : Uuid) × (img : Image) × (w1 : W) × (h.gen.uuid.parse id_str ≡ some id)
        × (h.gen.db.get_image id w ≡ (ok img, w1))
        × IsErased id img w1 (handle_delete on_bucket id_str w).1
  unfolding handle_delete delete_id
  handle_delete-IsErased id_str w enough done = elim (Option-cases (h.gen.uuid.parse id_str)) [
    | inl e ↦ absurd (let k = rw e at done in omega arith)
    | inr (id, e) ↦
        let (r, w1) = h.gen.db.get_image id w in
        let (img, found, erased) = image_loaded-IsErased id r w1 (enough id) (rw e at done) in
        rw e (id, img, w1, refl, ap (λ r. (r, w1)) found, erased)
  ]
