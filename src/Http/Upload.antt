-- ===== src/Http/Upload.antt =====
-- handleUpload, handleCopy and extensionForOriginal of internal/http/handlers.go. The form is taken as
-- mime/multipart has read it, and `new_uuid` stands for uuid.New.
use image_optimizer.Prelude.{
  ℕ, ◌^◌, suc, codes, not, ◌&&◌, ◌||◌, [], ◌∷◌, Option, none, some, if◌then◌else◌, ltb, length,
  take, errorf, Result, ok, err,
}
use image_optimizer.Text.{
  Bytes, same, is_empty, Unicode, to_lower, slash, backslash, dot, trim_byte_prefix, contains_any,
}
use image_optimizer.Text.Clean
use image_optimizer.Folder.{validate}
use image_optimizer.Db.{Uuid, Image}
use image_optimizer.Http.{Handler}
use image_optimizer.Http.Serve.{Response, created_json, write_error}
use image_optimizer.Http.ImageType.{jpeg, png, webp, detect_image_type}

-- The file of a form; `content` is missing where it cannot be read.
pub record FormFile : Type 0 where
  pub declared : Bytes
  pub content : Option Bytes

pub data Form : Type 0 where
  too_large : Form
  invalid : Form
  form : (folder : Bytes) (file : Option FormFile) → Form

unfoldable pub extension_of_type : Bytes → Result Bytes
extension_of_type ct =
    if same ct jpeg || same ct (codes "image/jpg")
    then ok (codes "jpg")
    else if same ct png
    then ok (codes "png")
    else if same ct webp
    then ok (codes "webp")
    else err (errorf (codes "cannot determine original extension"))

unfoldable pub extension_for_original : Unicode → Bytes → Bytes → Result Bytes
extension_for_original u original_path content_type =
    let ext = trim_byte_prefix dot (to_lower u (Clean.ext original_path)) in
    if not (is_empty ext) && not (contains_any (slash ∷ backslash ∷ []) ext)
    then ok ext
    else extension_of_type (to_lower u content_type)

abbrev pub created : Image → Response
created img = record {
  status = 201;
  content_type = codes "application/json";
  content_length = none;
  body = created_json img.id img.content_type img.size_bytes;
}

abbrev pub over_limit : Response
over_limit = write_error 413 (codes "file exceeds MAX_UPLOAD_BYTES")

-- What io.LimitReader lets through of `n + 1` as an int64: nothing where the sum wraps.
unfoldable pub read_limit : ℕ → ℕ
read_limit n = if ltb (suc n) (2 ^ 63) then suc n else 0

module _ {W : Type 0} (h : Handler W) (new_uuid : W → Uuid × W) where
  -- The end of both handlers. If the row is not inserted the files go again, as far as they do.
  unfoldable pub inserted : Uuid → Bytes → Result Image × W → Response × W
  inserted id rel_path (ok img, w) = (created img, w)
  inserted id rel_path (err e, w) = (
    write_error 500 (codes "failed to persist image"),
    (h.gen.storage.delete_image_files (h.gen.uuid.print id) rel_path w).1,
  )

  unfoldable pub saved : Uuid → Bytes → ℕ → Result Bytes × W → Response × W
  saved id content_type size (ok rel_path, w) =
      inserted id rel_path (h.gen.db.insert_image id rel_path content_type size w)
  saved id content_type size (err e, w) = (write_error 500 (codes "failed to store image"), w)

  unfoldable pub save_new : Bytes → Bytes → Bytes → Bytes → Uuid × W → Response × W
  save_new folder content_type ext bytes (id, w) =
      saved id content_type (length bytes)
        (h.gen.storage.save_original folder (h.gen.uuid.print id) ext bytes w)

  module _ (sniff : Bytes → Bytes) where
    -- handleUpload, from its end
    unfoldable pub typed : Bytes → Bytes → Result (Bytes × Bytes) → W → Response × W
    typed folder bytes (ok (content_type, ext)) w =
        save_new folder content_type ext bytes (new_uuid w)
    typed folder bytes (err e) w = (write_error 400 e.text, w)

    unfoldable pub upload_read : Bytes → Bytes → Bytes → W → Response × W
    upload_read folder declared bytes w =
        if ltb h.max_upload_bytes (length bytes)
        then (over_limit, w)
        else if is_empty bytes
        then (write_error 400 (codes "empty file"), w)
        else typed folder bytes (detect_image_type h.gen.unicode sniff bytes declared) w

    unfoldable pub upload_content : Bytes → Bytes → Option Bytes → W → Response × W
    upload_content folder declared none w = (write_error 400 (codes "failed to read file"), w)
    upload_content folder declared (some content) w =
        upload_read folder declared (take (read_limit h.max_upload_bytes) content) w

    unfoldable pub upload_file : Bytes → Option FormFile → W → Response × W
    upload_file folder none w = (write_error 400 (codes "missing multipart field \"file\""), w)
    upload_file folder (some file) w = upload_content folder file.declared file.content w

    unfoldable pub upload_folder : Result Bytes → Option FormFile → W → Response × W
    upload_folder (err e) file w = (write_error 400 e.text, w)
    upload_folder (ok folder) file w = upload_file folder file w

    unfoldable pub handle_upload : Form → W → Response × W
    handle_upload too_large w = (over_limit, w)
    handle_upload invalid w = (write_error 400 (codes "invalid multipart form"), w)
    handle_upload (form folder file) w = upload_folder (validate folder) file w

  -- handleCopy, from its end
  unfoldable pub copy_ext : Image → Bytes → Bytes → Result Bytes → W → Response × W
  copy_ext src folder bytes (ok ext) w = save_new folder src.content_type ext bytes (new_uuid w)
  copy_ext src folder bytes (err e) w = (write_error 500 e.text, w)

  unfoldable pub copy_read : Image → Bytes → Bytes → W → Response × W
  copy_read src folder bytes w =
      if ltb h.max_upload_bytes (length bytes)
      then (over_limit, w)
      else if is_empty bytes
      then (write_error 500 (codes "original file empty"), w)
      else copy_ext src folder bytes
          (extension_for_original h.gen.unicode src.original_path src.content_type) w

  unfoldable pub copy_opened : Image → Bytes → Result (Bytes × Option ℕ) × W → Response × W
  copy_opened src folder (ok (content, size), w) =
      copy_read src folder (take (read_limit h.max_upload_bytes) content) w
  copy_opened src folder (err e, w) = (write_error 500 (codes "failed to read original"), w)

  unfoldable pub copy_loaded : Bytes → Result Image × W → Response × W
  copy_loaded folder (ok src, w) = copy_opened src folder (h.gen.storage.get src.original_path w)
  copy_loaded folder (err e, w) = (
    if e.is_not_found
        then write_error 404 (codes "image not found")
        else write_error 500 (codes "failed to load image"),
    w,
  )

  unfoldable pub copy_folder : Uuid → Result Bytes → W → Response × W
  copy_folder id (err e) w = (write_error 400 e.text, w)
  copy_folder id (ok folder) w = copy_loaded folder (h.gen.db.get_image id w)

  -- The folder's value is missing where the form cannot be read.
  unfoldable pub copy_form : Uuid → Option Bytes → W → Response × W
  copy_form id none w = (write_error 400 (codes "invalid form"), w)
  copy_form id (some folder) w = copy_folder id (validate folder) w

  unfoldable pub copy_id : Option Uuid → Option Bytes → W → Response × W
  copy_id none folder w = (write_error 400 (codes "invalid image id"), w)
  copy_id (some id) folder w = copy_form id folder w

  unfoldable pub handle_copy : Bytes → Option Bytes → W → Response × W
  handle_copy id_str folder w = copy_id (h.gen.uuid.parse id_str) folder w
