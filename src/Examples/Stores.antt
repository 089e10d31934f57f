-- ===== src/Examples/Stores.antt =====
-- Requests and a job on a bucket that is a list, with rows that are always found.
use image_optimizer.Examples.Bucket.{
  remove, found, keys, Bucket, storage, lookup, passed, storage-IsS3, no_key_errors,
}
use image_optimizer.Storage.Client.{
  get, save_original, put_object, write_variant, page_keys, delete_object, after_delete, delete_key,
  delete_original, after_page, delete_prefix, after_prefix, delete_files, after_checks,
  delete_image_files, blob_store,
}
use image_optimizer.Storage.Keys.{
  sanitize_ext, normalize_folder, original_key, variant_path, validate_params_hash, key_of,
  normalize_key, validate_id,
}
use image_optimizer.Transform.Json.{
  set_fields, set_field, fold, unmarshal, params_from_json, object,
}
use image_optimizer.Text.Number.{itoa, format, digits}
use image_optimizer.Imgproxy.{
  segments, resizing_type, resizing_of, object_key, gravity_of, gravity, build_path,
}
use image_optimizer.Text.Clean.{
  path_join, glue, clean_joined, ext_from, ext, resolve_all, resolve, back, elements, or_dot, clean,
}
use image_optimizer.Http.Serve.{row_deleted, files_deleted, image_loaded, delete_id, handle_delete}
use image_optimizer.Text.{
  trim_byte_prefix, contains_any, trim_space, trim, to_lower, replace_byte, has_prefix, same,
  contains, trim_left, is_empty, Bytes,
}
use image_optimizer.Http.Upload.{
  extension_of_type, extension_for_original, copy_read, copy_opened, copy_ext, copy_loaded,
  copy_folder, copy_form, copy_id, typed, saved, save_new, inserted, upload_read, upload_content,
  upload_file, upload_folder, Form, form, handle_upload, handle_copy, read_limit,
}
use image_optimizer.Text.Split.{split, extend, join}
use image_optimizer.Text.Regex.{runs, remainders, each, behind, match_string}
use image_optimizer.Http.ImageType.{
  named, is_web_p, is_allowed_image_type, before_semicolon, detect_image_type,
}
use image_optimizer.Folder.{check_kind, safe_segment, trimmed, validate}
use image_optimizer.Prelude.{
  codes, ◌≡◌, refl, arith, true, false, [], ◌∷◌, some, Error, errorf, Result, ok,
}
use image_optimizer.Db.{Uuid, Image, Variant}
use image_optimizer.Db.Store.{pending_row}
use image_optimizer.VariantGen
use image_optimizer.VariantGen.{transform_and_persist}
use image_optimizer.VariantGen.Made.{IsMade, transform_and_persist-IsMade}
use image_optimizer.Http.{Handler}
use image_optimizer.Http.Refused.{IsFormOf}
use image_optimizer.Http.Stored.{IsStored, handle_upload-IsStored}
use image_optimizer.Http.Copied.{IsSource, IsCopy, handle_copy-IsCopy}
use image_optimizer.Http.Erased.{IsErased, handle_delete-IsErased}

abbrev pub refused : Error
refused = errorf (codes "connection refused")

abbrev source : Image
source = record {
  id = 1;
  original_path = codes "storely/1/catalog/1.png";
  content_type = codes "image/png";
  size_bytes = 3;
  created_at = 3;
}

abbrev pub objects : Bucket
objects = (codes "storely/1/catalog/1.png", codes "png") ∷ []

abbrev row : Variant
row = pending_row 7 1 (codes "aa") (object []) 4

abbrev gen : VariantGen.Deps Bucket
gen = record {
  db = record {
    insert_image = λ id path content_type size w. (ok source, w);
    get_image = λ id w. (ok source, w);
    delete_image = λ id w. (ok tt, w);
    get_variant_by_hash = λ id hash w. (ok row, w);
    get_variant_by_id = λ id w. (ok row, w);
    upsert_pending_variant = λ id hash doc w. (ok (row, false), w);
    mark_ready = λ id path w. (ok tt, w);
    mark_failed = λ id text w. (ok tt, w);
    incr_attempts = λ id w. (ok 1, w);
  };
  storage = blob_store 1 storage;
  imgproxy = record { fetch = λ path w. (ok (codes "avif"), w) };
  s3_bucket = codes "media";
  complete = true;
  unicode = storage.unicode;
  uuid = record { parse = λ s. some 1; print = λ id. codes "1" };
  json_error = refused;
}

abbrev pub handler : Handler Bucket
handler = record {
  gen = gen;
  queue = record { publish = λ id w. (ok tt, w) };
  clock = record { now = λ w. (0, w); poll_wait = λ w. (false, w); sync_expired = λ w. (false, w) };
  inc = λ counter w. w;
  sum256 = λ s. s;
  sync_timeout = 120000000;
  max_upload_bytes = 16;
}

abbrev pub new_uuid : Bucket → Uuid × Bucket
new_uuid w = (1, w)

abbrev sniff : Bytes → Bytes
sniff bytes = codes "image/png"

abbrev upload : Form
upload =
    form (codes "storely/2/catalog") (some (record { declared = []; content = some (codes "new") }))

uploaded : (handle_upload handler new_uuid sniff upload objects).0.status ≡ 201
unfolding handle_upload upload_folder validate is_empty trimmed trim_left contains same clean or_dot
    join elements safe_segment match_string check_kind upload_file upload_content upload_read
    before_semicolon detect_image_type is_allowed_image_type is_web_p named inserted save_new saved
    typed back resolve resolve_all behind each remainders runs extend split has_prefix replace_byte
    to_lower trim trim_space save_original original_key validate_id contains_any normalize_folder
    normalize_key key_of trim_byte_prefix sanitize_ext put_object read_limit
uploaded = refl

handle_upload-IsStored_example :
    (folder : Bytes) × (declared : Bytes) × (bytes : Bytes) × (t : Bytes × Bytes) × IsFormOf handler
      new_uuid sniff upload folder declared bytes
    × (detect_image_type storage.unicode sniff bytes declared ≡ ok t)
    × IsStored storage lookup passed
        (λ w t. 0)
        storage-IsS3
        1
        handler
        new_uuid
        (λ id path ct n w j. refl)
        folder
        t.0
        t.1
        bytes
        objects
        (handle_upload handler new_uuid sniff upload objects).1
handle_upload-IsStored_example =
    handle_upload-IsStored storage lookup passed (λ w t. 0) storage-IsS3 1 handler new_uuid
      (λ id path ct n w j. refl) sniff upload objects uploaded

copied :
    (handle_copy handler new_uuid (codes "1") (some (codes "storely/2/catalog")) objects).0.status
    ≡ 201
unfolding handle_copy copy_id copy_form copy_folder validate is_empty trimmed trim_left contains
    same clean or_dot join elements safe_segment match_string check_kind copy_loaded copy_ext
    copy_opened copy_read extension_for_original extension_of_type inserted save_new saved back ext
    ext_from resolve resolve_all behind each remainders runs extend split contains_any has_prefix
    replace_byte to_lower trim trim_byte_prefix get normalize_key key_of found lookup save_original
    original_key validate_id normalize_folder sanitize_ext put_object read_limit
copied = refl

handle_copy-IsCopy_example :
    (id : Uuid) × (folder : Bytes) × (src : Image) × (bytes : Bytes) × (w1 : Bucket) × (some 1
      ≡ some id)
    × (validate (codes "storely/2/catalog") ≡ ok folder)
    × (Path (Result Image × Bucket) (ok source, objects) (ok src, w1))
    × IsSource storage lookup passed
        (λ w t. 0)
        storage-IsS3
        1
        handler
        new_uuid
        (λ id path ct n w j. refl)
        src
        bytes
        w1
    × IsCopy storage lookup passed
        (λ w t. 0)
        storage-IsS3
        1
        handler
        new_uuid
        (λ id path ct n w j. refl)
        folder
        src
        bytes
        (get storage src.original_path w1).1
        (handle_copy handler new_uuid (codes "1") (some (codes "storely/2/catalog")) objects).1
handle_copy-IsCopy_example =
    handle_copy-IsCopy storage lookup passed (λ w t. 0) storage-IsS3 1 handler new_uuid
      (λ id path ct n w j. refl) (codes "1") (codes "storely/2/catalog") objects copied

deleted : (handle_delete handler (codes "1") objects).0.status ≡ 204
unfolding remove handle_delete delete_id image_loaded files_deleted delete_image_files after_checks
    validate_id is_empty contains_any contains delete_files after_prefix delete_prefix after_page
    keys delete_original delete_key normalize_key row_deleted after_delete delete_object page_keys
    key_of back clean clean_joined elements glue or_dot path_join resolve resolve_all extend join
    split has_prefix replace_byte same trim_byte_prefix
deleted = refl

handle_delete-IsErased_example :
    (id : Uuid) × (img : Image) × (w1 : Bucket) × (some 1 ≡ some id)
    × (Path (Result Image × Bucket) (ok source, objects) (ok img, w1))
    × IsErased storage lookup passed
        (λ w t. 0)
        storage-IsS3
        no_key_errors
        1
        handler
        (λ id w j. refl)
        id
        img
        w1
        (handle_delete handler (codes "1") objects).1
handle_delete-IsErased_example =
    handle_delete-IsErased storage lookup passed (λ w t. 0) storage-IsS3 no_key_errors 1 handler
      (λ id w j. refl) (codes "1") objects (λ id. omega arith) deleted

abbrev made_world : Bucket
made_world = (codes "variants/1/aa.avif", codes "avif") ∷ objects

made : transform_and_persist gen row objects ≡ (ok tt, made_world)
unfolding transform_and_persist params_from_json unmarshal write_variant validate_id is_empty
    contains_any contains validate_params_hash put_object variant_path path_join clean_joined glue
    clean or_dot join elements build_path gravity gravity_of object_key resizing_of resizing_type
    segments back resolve resolve_all digits format itoa extend split has_prefix same to_lower trim
    trim_byte_prefix trim_left trim_space fold set_field set_fields
made = refl

transform_and_persist-IsMade_example :
    IsMade storage lookup passed
      (λ w t. 0)
      storage-IsS3
      1
      gen
      (λ id path w j. refl)
      row
      objects
      made_world
transform_and_persist-IsMade_example =
    transform_and_persist-IsMade storage lookup passed (λ w t. 0) storage-IsS3 1 gen
      (λ id path w j. refl) row objects made_world made
