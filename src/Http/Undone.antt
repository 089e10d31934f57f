-- ===== src/Http/Undone.antt =====
-- The end of handleUpload and handleCopy of internal/http/handlers.go where the row is not inserted,
-- on the object store of internal/storage/storage.go.
use image_optimizer.Prelude.{
  ℕ, ◌≡◌, ◌<◌, refl, sym, ◌∙◌, ap, subst, arith, Bool, true, false, Option, none, some, Error,
  Result, ok, err, length, ◌∷◌,
}
use image_optimizer.Text.{Bytes, Unicode}
use image_optimizer.Text.Laws.{same_iff}
use image_optimizer.Db.{Uuid, Image}
use image_optimizer.Folder.{validate}
use image_optimizer.Storage.Keys.{normalize_key, original_key}
use image_optimizer.Storage.Paths.{original_key_layout}
use image_optimizer.Storage.Others.{original_head}
use image_optimizer.Storage.Client.{Storage, save_original, delete_image_files}
use image_optimizer.Storage.S3.{Objects, IsS3, HasNoKeyErrors}
use image_optimizer.Storage.Contents.{save_original-IsWrite}
use image_optimizer.Storage.Files.{is_original, is_target, names, delete_image_files-IsFileRemoval}
use image_optimizer.Http.{Handler}
use image_optimizer.Http.Serve.{Response}
use image_optimizer.Http.Upload.{inserted, saved, save_new}
use image_optimizer.Http.Stored.{on_bucket, save_original_ok}

-- A key that normalizeKey keeps is the original that a deletion looks for.
is_original-same :
    (key : Bytes) (c : ℕ) (t : Bytes)
    → key ≡ c ∷ t
    → normalize_key key ≡ ok key
    → is_original key key ≡ true
is_original-same key c t e =
    subst (λ k. normalize_key k ≡ ok k → is_original k k ≡ true) (sym e)
      (λ n. ap (λ r. names r (c ∷ t)) n ∙ (same_iff (c ∷ t) (c ∷ t)).1 refl)

key-is_target :
    (u : Unicode) (raw folder id ext key : Bytes)
    → validate raw ≡ ok folder
    → original_key u folder id ext ≡ ok key
    → is_target id key key ≡ true
key-is_target u raw folder id ext key v named =
    let (t, e) = original_head u raw folder id ext key v named in
    let (clean_ext, a, text, normal) = original_key_layout u raw folder id ext key v named in
    let own = is_original-same key b's' t e normal in ground arith

module _ {W : Type 0} (s : Storage W) (view : W → Objects) (passed : Option Bytes → Bytes → Bool)
    (left : W → Option Bytes → ℕ) (s3 : IsS3 s view passed left) (clean : HasNoKeyErrors s view)
    (fuel : ℕ) (h : Handler W) (new_uuid : W → Uuid × W)
    (rows_only : (id : Uuid) (path ct : Bytes) (n : ℕ) (w : W) (j : Bytes)
      → view (h.gen.db.insert_image id path ct n w).1 j ≡ view w j) where
  -- Other objects than those of the image stay as SaveOriginal found them.
  save_original_other :
      (raw folder id ext bytes key : Bytes) (w : W)
      → validate raw ≡ ok folder
      → original_key s.unicode folder id ext ≡ ok key
      → (j : Bytes) → is_target id key j ≡ false
      → view (save_original s folder id ext bytes w).1 j ≡ view w j
  save_original_other raw folder id ext bytes key w v named j n =
      (save_original-IsWrite s view passed left s3 folder id ext bytes key w named).other j
        (λ e. let own = key-is_target s.unicode raw folder id ext key v named in cc)

  -- A handler over this bucket.
  abbrev bucket_handler : Handler W
  bucket_handler = on_bucket s view passed left s3 fuel h new_uuid rows_only

  -- The answer, and the bucket of `w'`, once DeleteImageFiles has run for a row that is missing.
  abbrev pub IsUndone : Bytes → Uuid → W → W → Response × W → Type 0
  IsUndone key id w w2 p =
      (r : Result (Unit {0})) × (delete_image_files s fuel (h.gen.uuid.print id) key w2
        ≡ some (r, p.1))
      × (p.0.status ≡ 500)
      × (r ≡ ok tt → view p.1 key ≡ none)
      × ((j : Bytes) → is_target (h.gen.uuid.print id) key j ≡ false → view p.1 j ≡ view w j)

  -- The same from the result of InsertImage on.
  inserted-IsUndone :
      (raw folder ct ext bytes key : Bytes) (id : Uuid) (e : Error) (w w1 w2 : W)
      → validate raw ≡ ok folder
      → save_original s folder (h.gen.uuid.print id) ext bytes w ≡ (ok key, w1)
      → h.gen.db.insert_image id key ct (length bytes) w1 ≡ (err e, w2)
      → left w2 none < fuel
      → IsUndone key id w w2 (inserted bucket_handler new_uuid id key (err e, w2))
  unfolding inserted
  inserted-IsUndone raw folder ct ext bytes key id e w w1 w2 v saved_as refused enough =
      let (named, there) =
        save_original_ok s view passed left s3 folder (h.gen.uuid.print id) ext bytes key w
          (ap (λ (p : Result Bytes × W). p.0) saved_as) in
      let (r, w3, answer, f) =
        delete_image_files-IsFileRemoval s view passed left s3 clean fuel (h.gen.uuid.print id) key
          w2 enough in
      rw answer (
        r,
        refl,
        refl,
        λ done.
            f.removed done key
              (key-is_target s.unicode raw folder (h.gen.uuid.print id) ext key v named),
        λ j n.
            f.other j n
            ∙ ap (λ (p : Result Image × W). view p.1 j) (sym refused)
            ∙ rows_only id key ct (length bytes) w1 j
            ∙ ap (λ (p : Result Bytes × W). view p.1 j) (sym saved_as)
            ∙ save_original_other raw folder (h.gen.uuid.print id) ext bytes key w v named j n,
      )

  -- Under the conditions on S3 and on failed keys, and where InsertImage leaves the bucket alone: if
  -- SaveOriginal has stored an upload or a copy in a folder that Validate returned, InsertImage has
  -- refused its row, and there is more fuel than pages are left to list, then DeleteImageFiles runs
  -- and ends, the answer is 500, and every object that is no file of the new image is as it was
  -- before SaveOriginal. If that deletion succeeds, the key of the original holds nothing.
  pub save_new-IsUndone :
      (raw folder ct ext bytes key : Bytes) (id : Uuid) (e : Error) (w w1 w2 : W)
      → validate raw ≡ ok folder
      → save_original s folder (h.gen.uuid.print id) ext bytes w ≡ (ok key, w1)
      → h.gen.db.insert_image id key ct (length bytes) w1 ≡ (err e, w2)
      → left w2 none < fuel
      → IsUndone key id w w2 (save_new bucket_handler new_uuid folder ct ext bytes (id, w))
  unfolding save_new saved
  save_new-IsUndone raw folder ct ext bytes key id e w w1 w2 v saved_as refused enough =
      rw (saved_as, refused)
        (inserted-IsUndone raw folder ct ext bytes key id e w w1 w2 v saved_as refused enough)
