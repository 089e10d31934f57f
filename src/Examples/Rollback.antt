-- ===== src/Examples/Rollback.antt =====
-- An upload whose row PostgreSQL refuses, on a bucket that is a list.
use image_optimizer.Text.{
  to_lower, has_prefix, trim_byte_prefix, replace_byte, trim, contains_any, same, contains,
  trim_left, is_empty, Bytes,
}
use image_optimizer.Text.Split.{split, extend, join}
use image_optimizer.Text.Clean.{
  resolve_all, resolve, path_join, glue, clean_joined, back, elements, or_dot, clean,
}
use image_optimizer.Storage.Client.{put_object, save_original}
use image_optimizer.Storage.Keys.{
  sanitize_ext, key_of, normalize_key, normalize_folder, validate_id, original_key,
}
use image_optimizer.Folder.{check_kind, safe_segment, trimmed, validate}
use image_optimizer.Text.Regex.{match_string}
use image_optimizer.Prelude.{codes, ◌≡◌, refl, arith, ◌∷◌, Result, ok, err}
use image_optimizer.Http.{Handler}
use image_optimizer.Http.Upload.{save_new}
use image_optimizer.Http.Undone.{IsUndone, save_new-IsUndone}
use image_optimizer.Examples.Bucket.{Bucket, lookup, storage, passed, storage-IsS3, no_key_errors}
use image_optimizer.Examples.Stores.{refused, objects, handler, new_uuid}

abbrev folder : Bytes
folder = codes "storely/2/catalog"

abbrev key : Bytes
key = codes "storely/2/catalog/1.png"

abbrev bytes : Bytes
bytes = codes "new"

abbrev refusing : Handler Bucket
refusing = record handler {
  gen = record handler.gen {
    db = record handler.gen.db { insert_image = λ id path content_type size w. (err refused, w) };
  };
}

abbrev stored : Bucket
stored = (key, bytes) ∷ objects

folder_ok : validate folder ≡ ok folder
unfolding validate is_empty trimmed trim_left contains same clean or_dot join elements safe_segment
    match_string check_kind
folder_ok = refl

saved_as :
    Path
      (Result Bytes × Bucket)
      (save_original storage folder (codes "1") (codes "png") bytes objects)
      (ok key, stored)
unfolding save_original original_key validate_id is_empty contains_any contains normalize_folder
    trim trim_left replace_byte normalize_key key_of trim_byte_prefix clean join elements
    sanitize_ext put_object back clean_joined glue or_dot path_join resolve resolve_all extend split
    has_prefix same to_lower
saved_as = refl

save_new-IsUndone_example :
    IsUndone storage lookup passed
      (λ w t. 0)
      storage-IsS3
      no_key_errors
      1
      refusing
      new_uuid
      (λ id path ct n w j. refl)
      key
      1
      objects
      stored
      (save_new refusing new_uuid folder (codes "image/png") (codes "png") bytes (1, objects))
save_new-IsUndone_example =
    save_new-IsUndone storage lookup passed (λ w t. 0) storage-IsS3 no_key_errors 1 refusing
      new_uuid (λ id path ct n w j. refl) folder folder (codes "image/png") (codes "png") bytes key
      1 refused objects stored stored folder_ok saved_as refl (omega arith)
