-- ===== src/Http/Copied.antt =====
-- handleCopy of internal/http/handlers.go on the object store of internal/storage/storage.go.
use image_optimizer.Prelude.{
  ℕ, ◌≡◌, ◌≤◌, refl, ap, subst, arith, Bool, Option, some, inl, inr, Result, ok, err, length, take,
  ltb, Option-cases, Result-cases, Bool-cases,
}
use image_optimizer.Text.{Bytes, is_empty}
use image_optimizer.Folder.{validate}
use image_optimizer.Db.{Uuid, Image}
use image_optimizer.Storage.Keys.{normalize_key}
use image_optimizer.Storage.Client.{Storage, get}
use image_optimizer.Storage.S3.{Objects, IsS3}
use image_optimizer.Http.{Handler}
use image_optimizer.Http.Upload.{
  extension_for_original, copy_ext, copy_read, copy_opened, copy_loaded, copy_folder, copy_form,
  copy_id, handle_copy, read_limit,
}
use image_optimizer.Http.Refused.{take_whole, filled}
use image_optimizer.Http.Stored.{get_ok, on_bucket, IsStored, save_new-IsStored}

module _ {W : Type 0} (s : Storage W) (view : W → Objects) (passed : Option Bytes → Bytes → Bool)
    (left : W → Option Bytes → ℕ) (s3 : IsS3 s view passed left) (fuel : ℕ) (h : Handler W)
    (new_uuid : W → Uuid × W)
    (rows_only : (id : Uuid) (path ct : Bytes) (n : ℕ) (w : W) (j : Bytes)
      → view (h.gen.db.insert_image id path ct n w).1 j ≡ view w j) where
  abbrev there : Handler W
  there = on_bucket s view passed left s3 fuel h new_uuid rows_only

  abbrev pub IsNew : Bytes → Bytes → Bytes → Bytes → W → W → Type 0
  IsNew = IsStored s view passed left s3 fuel h new_uuid rows_only

  -- From `w` on the bytes are stored again, with the type and the extension of the source.
  abbrev pub IsCopy : Bytes → Image → Bytes → W → W → Type 0
  IsCopy folder src bytes w w' =
      (ext : Bytes) × (extension_for_original h.gen.unicode src.original_path src.content_type
        ≡ ok ext)
      × IsNew folder src.content_type ext bytes w w'

  copy_ext-IsCopy :
      (src : Image) (folder bytes : Bytes) (r : Result Bytes) (w : W)
      → extension_for_original h.gen.unicode src.original_path src.content_type ≡ r
      → (copy_ext there new_uuid src folder bytes r w).0.status ≡ 201
      → IsCopy folder src bytes w (copy_ext there new_uuid src folder bytes r w).1
  unfolding copy_ext
  copy_ext-IsCopy src folder bytes (ok ext) w e done = (
    ext,
    e,
    save_new-IsStored s view passed left s3 fuel h new_uuid rows_only folder src.content_type ext
        bytes w done,
  )
  copy_ext-IsCopy src folder bytes (err x) w e done = absurd (omega arith)

  copy_read-IsCopy :
      (src : Image) (folder bytes : Bytes) (w : W)
      → (copy_read there new_uuid src folder bytes w).0.status ≡ 201
      → (1 ≤ length bytes)
        × (length bytes ≤ h.max_upload_bytes)
        × IsCopy folder src bytes w (copy_read there new_uuid src folder bytes w).1
  unfolding copy_read
  copy_read-IsCopy src folder bytes w done =
      elim (Bool-cases (ltb h.max_upload_bytes (length bytes))) [
        | inl large ↦ absurd (let k = rw large at done in omega arith)
        | inr small ↦ elim (Bool-cases (is_empty bytes)) [
          | inl e ↦ absurd (let k = rw (small, e) at done in omega arith)
          | inr e ↦
              rw (small, e)
                (
                  filled bytes e,
                  ground arith,
                  copy_ext-IsCopy src folder bytes _ w refl (rw (small, e) at done),
                )
        ]
      ]

  -- The object of the source, as it was read.
  abbrev pub IsSource : Image → Bytes → W → Type 0
  IsSource src bytes w =
      (key : Bytes) × (normalize_key src.original_path ≡ ok key) × (view w key ≡ some bytes)

  copy_opened-IsCopy :
      (src : Image) (folder : Bytes) (w : W) (r : Result (Bytes × Option ℕ)) (w1 : W)
      → get s src.original_path w ≡ (r, w1)
      → (copy_opened there new_uuid src folder (r, w1)).0.status ≡ 201
      → (bytes : Bytes) × IsSource src bytes w
        × IsCopy folder src bytes w1 (copy_opened there new_uuid src folder (r, w1)).1
  unfolding copy_opened
  copy_opened-IsCopy src folder w (ok (content, size)) w1 e done =
      let (low, short, copy) =
        copy_read-IsCopy src folder (take (read_limit h.max_upload_bytes) content) w1 done in
      (
        content,
        get_ok s view passed left s3 src.original_path content size w w1 e,
        subst
            (λ b.
              IsCopy folder src b w1
                (copy_read there new_uuid src folder (take (read_limit h.max_upload_bytes) content)
                  w1).1)
            (take_whole h.max_upload_bytes content low short) copy,
      )
  copy_opened-IsCopy src folder w (err x) w1 e done = absurd (omega arith)

  copy_loaded-IsCopy :
      (folder : Bytes) (r : Result Image) (w : W)
      → (copy_loaded there new_uuid folder (r, w)).0.status ≡ 201
      → (src : Image) × (bytes : Bytes) × (r ≡ ok src)
        × IsSource src bytes w
        × IsCopy folder src bytes
            (get s src.original_path w).1
            (copy_loaded there new_uuid folder (r, w)).1
  unfolding copy_loaded
  copy_loaded-IsCopy folder (ok src) w done =
      let (r, w1) = get s src.original_path w in
      let (bytes, source, copy) = copy_opened-IsCopy src folder w r w1 refl done in
      (src, bytes, refl, source, copy)
  copy_loaded-IsCopy folder (err x) w done = absurd (ground arith)

  -- Where S3 behaves as documented and InsertImage leaves the bucket alone, a copy that answers 201
  -- has found the source's row, and the bucket held bytes under the normal key of its path. After
  -- SaveOriginal, InsertImage has then succeeded for the identifier that uuid.New has returned
  -- behind the reading of the source, with the source's content type and the key of the layout in
  -- the folder that Validate returned, and the bucket holds the same bytes under that key.
  pub handle_copy-IsCopy :
      (id_str raw : Bytes) (w : W)
      → (handle_copy there new_uuid id_str (some raw) w).0.status ≡ 201
      → (id : Uuid) × (folder : Bytes) × (src : Image) × (bytes : Bytes) × (w1 : W)
        × (h.gen.uuid.parse id_str ≡ some id)
        × (validate raw ≡ ok folder)
        × (h.gen.db.get_image id w ≡ (ok src, w1))
        × IsSource src bytes w1
        × IsCopy folder src bytes
            (get s src.original_path w1).1
            (handle_copy there new_uuid id_str (some raw) w).1
  unfolding handle_copy copy_id copy_form copy_folder
  handle_copy-IsCopy id_str raw w done = elim (Option-cases (h.gen.uuid.parse id_str)) [
    | inl e ↦ absurd (let k = rw e at done in omega arith)
    | inr (id, e) ↦ elim (Result-cases (validate raw)) [
      | inr (x, v) ↦ absurd (let k = rw (e, v) at done in omega arith)
      | inl (folder, v) ↦
          let (r, w1) = h.gen.db.get_image id w in
          let (src, bytes, found, source, copy) =
            copy_loaded-IsCopy folder r w1 (rw (e, v) at done) in
          rw (e, v) (id, folder, src, bytes, w1, refl, refl, ap (λ r. (r, w1)) found, source, copy)
    ]
  ]
