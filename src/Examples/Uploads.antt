-- ===== src/Examples/Uploads.antt =====
-- Uploads and deletions in front of a storage that works.
use image_optimizer.Prelude.{
  ℕ, suc, codes, ◌≡◌, refl, true, false, [], ◌∷◌, ◌++◌, Option, none, some, Error, errorf, ok, err,
  ◌⊎◌,
}
use image_optimizer.Text.{
  Bytes, Unicode, slash, dot, is_empty, trim_left, trim, contains, contains_any, same, to_lower,
  trim_space,
}
use image_optimizer.Text.Clean.{clean, or_dot, elements}
use image_optimizer.Text.Split.{join}
use image_optimizer.Text.Regex.{match_string}
use image_optimizer.Folder.{validate, trimmed, safe_segment, check_kind}
use image_optimizer.Storage.Keys.{validate_id, original_key}
use image_optimizer.Db.{Uuid}
use image_optimizer.Db.Store
use image_optimizer.Db.Store.{find, execute, pending_row}
use image_optimizer.Transform.Json.{object}
use image_optimizer.Backend.{World, store}
use image_optimizer.Http.{Handler}
use image_optimizer.Http.Serve.{handle_delete, delete_id, image_loaded, files_deleted, row_deleted}
use image_optimizer.Http.ImageType.{
  is_allowed_image_type, is_web_p, named, detect_image_type, png, webp,
}
use image_optimizer.Http.Uploads.{
  IsImageType, detect_image_type-IsImageType, detect_image_type-original_key,
}
use image_optimizer.Http.Upload.{Form, form, handle_upload}
use image_optimizer.Http.Refused.{IsSettled, IsFormOf, handle_upload-IsSettled}
use image_optimizer.Http.Deleted.{IsGone, on_store, handle_delete-IsGone}

abbrev unreachable : Error
unreachable = errorf (codes "connection refused")

abbrev unicode : Unicode
unicode = record { lower_text = λ s. s; trim_text = λ s. s }

abbrev parse_one : Bytes → Option Uuid
parse_one (c ∷ []) = some c
parse_one s = none

abbrev handler : Handler (World ℕ)
handler = record {
  gen = record {
    db = store unreachable (λ n. n);
    storage = record {
      save_original = λ folder id ext bytes w. (ok (folder ++ (slash ∷ (id ++ (dot ∷ ext)))), w);
      write_variant = λ id hash bytes w. (err unreachable, w);
      delete_image_files = λ id path w. (ok tt, record w { rest = suc w.rest });
      get = λ path w. (err unreachable, w);
    };
    imgproxy = record { fetch = λ path w. (err unreachable, w) };
    s3_bucket = codes "media";
    complete = true;
    unicode = unicode;
    uuid = record { parse = parse_one; print = λ id. id ∷ [] };
    json_error = unreachable;
  };
  queue = record { publish = λ id w. (ok tt, w) };
  clock = record {
    now = λ w. (w.now, w);
    poll_wait = λ w. (false, w);
    sync_expired = λ w. (false, w);
  };
  inc = λ counter w. w;
  sum256 = λ s. s;
  sync_timeout = 1000;
  max_upload_bytes = 1000;
}

abbrev world : World ℕ
world = record {
  tables = record {
    images =
        record {
          id = 1;
          original_path = codes "storely/1/catalog/x.png";
          content_type = codes "image/png";
          size_bytes = 2048;
          created_at = 3;
        }
        ∷ [];
    variants = pending_row 7 1 (codes "aa") (object []) 4 ∷ [];
  };
  answers = [];
  now = 10;
  made = 0;
  rest = 0;
}

-- A sniffer that knows nothing.
abbrev sniff : Bytes → Bytes
sniff bytes = codes "application/octet-stream"

detected : detect_image_type unicode sniff (codes "x") (codes "image/png") ≡ ok (png, codes "png")
unfolding detect_image_type is_allowed_image_type named same trim_space to_lower trim trim_left
detected = refl

folder_accepted : validate (codes "storely/1/catalog/") ≡ ok (codes "storely/1/catalog")
unfolding validate is_empty trimmed trim_left contains same clean or_dot join elements safe_segment
    match_string check_kind
folder_accepted = refl

id_accepted : validate_id (codes "a1") ≡ ok tt
unfolding validate_id is_empty contains_any contains
id_accepted = refl

detect_image_type-IsImageType_example :
    IsImageType png (codes "png")
    × ((png ≡ sniff (codes "x"))
        ⊎ (png ≡ codes "image/png")
        ⊎ ((png ≡ webp) × (is_web_p (codes "x") ≡ true)))
detect_image_type-IsImageType_example =
    detect_image_type-IsImageType unicode sniff (codes "x") (codes "image/png") png (codes "png")
      detected

detect_image_type-original_key_example :
    original_key unicode (codes "storely/1/catalog") (codes "a1") (codes "png")
    ≡ ok (codes "storely/1/catalog/a1.png")
detect_image_type-original_key_example =
    detect_image_type-original_key unicode sniff (codes "x") (codes "image/png")
      (codes "storely/1/catalog/") (codes "storely/1/catalog") (codes "a1") png (codes "png")
      folder_accepted id_accepted detected

abbrev upload : Form
upload =
    form (codes "storely/1/catalog/")
      (some (record { declared = codes "image/png"; content = some (codes "x") }))

handle_upload-IsSettled_example :
    IsSettled handler
      (λ w. (5, w))
      sniff
      (IsFormOf handler (λ w. (5, w)) sniff upload)
      world
      (handle_upload handler (λ w. (5, w)) sniff upload world)
handle_upload-IsSettled_example = handle_upload-IsSettled handler (λ w. (5, w)) sniff upload world

deleted : (handle_delete (on_store unreachable (λ n. n) handler) (1 ∷ []) world).0.status ≡ 204
unfolding handle_delete delete_id image_loaded files_deleted row_deleted store Store.get_image
    Store.delete_image find execute
deleted = refl

handle_delete-IsGone_example :
    IsGone 1 (handle_delete (on_store unreachable (λ n. n) handler) (1 ∷ []) world).1.tables
handle_delete-IsGone_example =
    handle_delete-IsGone unreachable (λ n. n) handler (λ id path w. (refl, refl)) (1 ∷ []) 1 world
      refl refl deleted
