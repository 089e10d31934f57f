-- ===== src/Http/Stored.antt =====
-- Uploads and copies of internal/http/handlers.go on the object store of internal/storage/storage.go.
use image_optimizer.Prelude.{
  ℕ, codes, ◌++◌, ◌≡◌, refl, sym, ◌∙◌, ap, subst, arith, Bool, Option, some, inl, inr, Result, ok,
  err, length, Option-cases, Result-cases,
}
use image_optimizer.Text.{Bytes}
use image_optimizer.Db.{Uuid, Image}
use image_optimizer.Storage.Keys.{normalize_key, original_key}
use image_optimizer.Storage.Client.{Storage, save_original, get, blob_store}
use image_optimizer.Storage.S3.{Objects, IsS3}
use image_optimizer.Storage.Contents.{save_original-IsWrite, wrapped_ok}
use image_optimizer.Http.{Handler}
use image_optimizer.Http.Serve.{Response}
use image_optimizer.Http.ImageType.{detect_image_type}
use image_optimizer.Http.Upload.{Form, inserted, saved, save_new, handle_upload}
use image_optimizer.Http.Refused.{IsFormOf, handle_upload-IsSettled}

module _ {W : Type 0} (s : Storage W) (view : W → Objects) (passed : Option Bytes → Bytes → Bool)
    (left : W → Option Bytes → ℕ) (s3 : IsS3 s view passed left) where
  -- The key that SaveOriginal returns is that of the layout, and holds the bytes.
  pub save_original_ok :
      (folder id ext bytes key : Bytes) (w : W)
      → (save_original s folder id ext bytes w).0 ≡ ok key
      → (original_key s.unicode folder id ext ≡ ok key)
        × (view (save_original s folder id ext bytes w).1 key ≡ some bytes)
  unfolding save_original
  save_original_ok folder id ext bytes key w h =
      elim (Result-cases (original_key s.unicode folder id ext)) [
        | inl (k, named) ↦
            let (e, there) =
              (save_original-IsWrite s view passed left s3 folder id ext bytes k w named).stored key
                h in
            (named ∙ ap ok (sym e), rw e there)
        | inr (x, named) ↦ elim (Option-cases (s.ctx_err w)) [
          | inr (e, c) ↦ (let q = rw c at h in cc)
          | inl c ↦ (let q = rw (c, named) at h in cc)
        ]
      ]

  -- What Get returns stands under the normal key of the path.
  pub get_ok :
      (path v : Bytes) (size : Option ℕ) (w w' : W)
      → get s path w ≡ (ok (v, size), w')
      → (key : Bytes) × (normalize_key path ≡ ok key) × (view w key ≡ some v)
  unfolding get
  get_ok path v size w w' h = elim (Option-cases (s.ctx_err w)) [
    | inr (e, c) ↦
        absurd (let q = ap (λ (p : Result (Bytes × Option ℕ) × W). p.0) (rw c at h) in cc)
    | inl c ↦ elim (Result-cases (normalize_key path)) [
      | inr (e, n) ↦
          absurd (let q = ap (λ (p : Result (Bytes × Option ℕ) × W). p.0) (rw (c, n) at h) in cc)
      | inl (key, n) ↦ (
        key,
        n,
        s3.get_ok key v size w (
            wrapped_ok s view passed left s3 (codes "storage: get object " ++ s.quote key)
              (s.client.get_object s.bucket key w) (v, size) w' (rw (c, n) at h)),
      )
    ]
  ]

  module _ (fuel : ℕ) (h : Handler W) (new_uuid : W → Uuid × W)
      (rows_only : (id : Uuid) (path ct : Bytes) (n : ℕ) (w : W) (j : Bytes)
        → view (h.gen.db.insert_image id path ct n w).1 j ≡ view w j) where
    abbrev pub on_bucket : Handler W
    on_bucket = record h { gen = record h.gen { storage = blob_store fuel s } }

    -- Once uuid.New has returned `p`: InsertImage has succeeded after SaveOriginal, both with that
    -- identifier, and the bucket of `w'` holds the bytes under the key of the row.
    abbrev pub IsStoredAs : Bytes → Bytes → Bytes → Bytes → Uuid × W → W → Type 0
    IsStoredAs folder ct ext bytes (id, w) w' =
        (key : Bytes) × (img : Image) × (original_key s.unicode folder (h.gen.uuid.print id) ext
          ≡ ok key)
        × (h.gen.db.insert_image id key ct (length bytes)
              (save_original s folder (h.gen.uuid.print id) ext bytes w).1
            ≡ (ok img, w'))
        × (view w' key ≡ some bytes)

    -- The same from a world in which uuid.New is called.
    abbrev pub IsStored : Bytes → Bytes → Bytes → Bytes → W → W → Type 0
    IsStored folder ct ext bytes w w' = IsStoredAs folder ct ext bytes (new_uuid w) w'

    inserted-IsStored :
        (folder ct ext bytes key : Bytes) (id : Uuid) (w : W) (r : Result Image) (w2 : W)
        → let w1 = (save_original s folder (h.gen.uuid.print id) ext bytes w).1 in
          original_key s.unicode folder (h.gen.uuid.print id) ext ≡ ok key
          → view w1 key ≡ some bytes
          → h.gen.db.insert_image id key ct (length bytes) w1 ≡ (r, w2)
          → (inserted on_bucket new_uuid id key (r, w2)).0.status ≡ 201
          → IsStoredAs folder ct ext bytes (id, w) (inserted on_bucket new_uuid id key (r, w2)).1
    unfolding inserted
    inserted-IsStored folder ct ext bytes key id w (ok img) w2 named there e done =
        let w1 = (save_original s folder (h.gen.uuid.print id) ext bytes w).1 in
        let kept =
          ap (λ (p : Result Image × W). view p.1 key) (sym e)
          ∙ rows_only id key ct (length bytes) w1 key in
        (key, img, named, e, kept ∙ there)
    inserted-IsStored folder ct ext bytes key id w (err x) w2 named there e done =
        absurd (omega arith)

    saved-IsStored :
        (folder ct ext bytes : Bytes) (id : Uuid) (w : W) (r : Result Bytes) (w1 : W)
        → save_original s folder (h.gen.uuid.print id) ext bytes w ≡ (r, w1)
        → (saved on_bucket new_uuid id ct (length bytes) (r, w1)).0.status ≡ 201
        → IsStoredAs folder ct ext bytes
            (id, w)
            (saved on_bucket new_uuid id ct (length bytes) (r, w1)).1
    unfolding saved
    saved-IsStored folder ct ext bytes id w (ok key) w1 e done =
        let (named, there) =
          save_original_ok folder (h.gen.uuid.print id) ext bytes key w
            (ap (λ (p : Result Bytes × W). p.0) e) in
        let same_world = ap (λ (p : Result Bytes × W). p.1) e in
        let (r, w2) = h.gen.db.insert_image id key ct (length bytes) w1 in
        inserted-IsStored folder ct ext bytes key id w r w2 named there
          (ap (h.gen.db.insert_image id key ct (length bytes)) same_world) done
    saved-IsStored folder ct ext bytes id w (err x) w1 e done = absurd (omega arith)

    pub save_new-IsStored :
        (folder ct ext bytes : Bytes) (w0 : W)
        → (save_new on_bucket new_uuid folder ct ext bytes (new_uuid w0)).0.status ≡ 201
        → IsStored folder ct ext bytes w0
            (save_new on_bucket new_uuid folder ct ext bytes (new_uuid w0)).1
    unfolding save_new
    save_new-IsStored folder ct ext bytes w0 done =
        let (id, w) = new_uuid w0 in
        let (r, w1) = save_original s folder (h.gen.uuid.print id) ext bytes w in
        saved-IsStored folder ct ext bytes id w r w1 refl done

    -- Where S3 behaves as documented and InsertImage leaves the bucket alone, an upload that answers
    -- 201 has a form with a folder that Validate accepts and a file whose type detectImageType
    -- accepts. After SaveOriginal, InsertImage has then succeeded for the identifier that uuid.New
    -- has returned, with the key of the layout for that folder, identifier and extension, and the
    -- bucket holds the file's bytes under that key.
    pub handle_upload-IsStored :
        (sniff : Bytes → Bytes) (f : Form) (w : W)
        → (handle_upload on_bucket new_uuid sniff f w).0.status ≡ 201
        → (folder : Bytes) × (declared : Bytes) × (bytes : Bytes) × (t : Bytes × Bytes) × IsFormOf
            on_bucket new_uuid sniff f folder declared bytes
          × (detect_image_type h.gen.unicode sniff bytes declared ≡ ok t)
          × IsStored folder t.0 t.1 bytes w (handle_upload on_bucket new_uuid sniff f w).1
    handle_upload-IsStored sniff f w done =
        elim (handle_upload-IsSettled on_bucket new_uuid sniff f w) [
          | inl (inl k, e) ↦ absurd (omega arith)
          | inl (inr k, e) ↦ absurd (omega arith)
          | inr (folder, declared, bytes, of, low, high, (t, typed, e, status)) ↦
              let done' = ap (λ (r : Response × W). r.0.status) (sym e) ∙ done in
              (
                folder,
                declared,
                bytes,
                t,
                of,
                typed,
                subst (λ (r : Response × W). IsStored folder t.0 t.1 bytes w r.1) (sym e)
                    (save_new-IsStored folder t.0 t.1 bytes w done'),
              )
        ]
