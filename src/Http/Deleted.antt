-- ===== src/Http/Deleted.antt =====
-- What a deletion leaves in the tables, on the repository of Backend.
use image_optimizer.Prelude.{
  ℕ, ◌≡◌, ◌∙◌, ap, refl, Bool, false, not, List, [], ◌∷◌, arith, any, ◌==◌, some, Error, Result, ok,
  err,
}
use image_optimizer.Text.{Bytes}
use image_optimizer.Db.{Uuid, Image, Tables}
use image_optimizer.Db.Store
use image_optimizer.Db.Store.{filter, execute}
use image_optimizer.Backend.{World, store, later}
use image_optimizer.Worker.Process.{Kept}
use image_optimizer.Http.{Handler}
use image_optimizer.Http.Serve.{row_deleted, files_deleted, image_loaded, delete_id, handle_delete}

any-filter-not :
    {A : Type 0} (p : A → Bool) (xs : List A) → any p (filter (λ x. not (p x)) xs) ≡ false
unfolding filter
any-filter-not p [] = refl
any-filter-not p (x ∷ xs) = ground (arith, any-filter-not p xs)

-- No image with the identifier, and no variant of one.
abbrev pub IsGone : Uuid → Tables → Type 0
IsGone id db =
    (any (λ i. i.id == id) db.images ≡ false) × (any (λ v. v.image_id == id) db.variants ≡ false)

module _ {R : Type 0} (violation : Error) (new_uuid : ℕ → Uuid) (h : Handler (World R)) where
  abbrev pub on_store : Handler (World R)
  on_store = record h { gen = record h.gen { db = store violation new_uuid } }

  row_deleted-world : (p : Result (Unit {0}) × World R) → (row_deleted on_store p).1 ≡ p.1
  unfolding row_deleted
  row_deleted-world (ok t, w) = refl
  row_deleted-world (err e, w) = refl

  delete_image-IsGone :
      (id : Uuid) (w : World R)
      → w.answers ≡ []
      → IsGone id ((store violation new_uuid).delete_image id w).1.tables
  unfolding store Store.delete_image execute
  delete_image-IsGone id w quiet = rw quiet (
    any-filter-not (λ i. i.id == id) w.tables.images,
    any-filter-not (λ v. v.image_id == id) w.tables.variants,
  )

  files_deleted-IsGone :
      (id : Uuid) (p : Result (Unit {0}) × World R)
      → p.1.answers ≡ []
      → (files_deleted on_store id p).0.status ≡ 204
      → IsGone id (files_deleted on_store id p).1.tables
  unfolding files_deleted
  files_deleted-IsGone id (ok t, w) quiet done =
      rw (row_deleted-world ((store violation new_uuid).delete_image id w))
        (delete_image-IsGone id w quiet)
  files_deleted-IsGone id (err e, w) quiet done = absurd (omega arith)

  module _
      (keeps : (id path : Bytes) (w : World R)
        → Kept w (h.gen.storage.delete_image_files id path w).1) where
    image_loaded-IsGone :
        (id : Uuid) (p : Result Image × World R)
        → p.1.answers ≡ []
        → (image_loaded on_store id p).0.status ≡ 204
        → IsGone id (image_loaded on_store id p).1.tables
    unfolding image_loaded
    image_loaded-IsGone id (ok img, w) quiet done =
        files_deleted-IsGone id
          (h.gen.storage.delete_image_files (h.gen.uuid.print id) img.original_path w)
          ((keeps (h.gen.uuid.print id) img.original_path w).1 ∙ quiet) done
    image_loaded-IsGone id (err e, w) quiet done = absurd (ground arith)

    -- Where every later statement is answered and the storage leaves the database alone, a deletion
    -- that answers 204 leaves no image with the identifier and no variant of it in the tables.
    pub handle_delete-IsGone :
        (id_str : Bytes) (id : Uuid) (w : World R)
        → w.answers ≡ []
        → h.gen.uuid.parse id_str ≡ some id
        → (handle_delete on_store id_str w).0.status ≡ 204
        → IsGone id (handle_delete on_store id_str w).1.tables
    unfolding handle_delete delete_id store
    handle_delete-IsGone id_str id w quiet parsed done = rw parsed (
        image_loaded-IsGone id ((store violation new_uuid).get_image id w) (ap later quiet)
          (rw parsed at done))
