-- ===== src/Http/Serve.antt =====
-- handleGet, handleHead and handleDelete of internal/http/handlers.go.
use image_optimizer.Prelude.{ℕ, codes, [], ◌∷◌, Option, none, some, if◌then◌else◌, Result, ok, err}
use image_optimizer.Text.{Bytes}
use image_optimizer.Transform.{Query}
use image_optimizer.Db.{Uuid, Image, Variant}
use image_optimizer.Http.{
  Resolved, is_ready, is_failed, bad_request, not_found, unavailable, internal, ResolveResult,
  Handler, Counter, cache_hits, cache_misses, cache_pending, cache_failed, head_hits, head_misses,
  head_pending, head_failed,
}
use image_optimizer.Http.Resolve.{resolve_variant}

pub data Body : Type 0 where
  empty : Body
  error_json : Bytes → Body
  created_json : Uuid → Bytes → ℕ → Body
  content : Bytes → Body

-- What is written to the client; the length header is set where the size is known.
pub record Response : Type 0 where
  pub status : ℕ
  pub content_type : Bytes
  pub content_length : Option ℕ
  pub body : Body

-- writeError
abbrev pub write_error : ℕ → Bytes → Response
write_error status msg = record {
  status = status;
  content_type = codes "application/json";
  content_length = none;
  body = error_json msg;
}

-- WriteHeader without a body
abbrev pub write_header : ℕ → Bytes → Response
write_header status content_type = record {
  status = status;
  content_type = content_type;
  content_length = none;
  body = empty;
}

-- writeFailed
abbrev pub failed_message : Option Bytes → Bytes
failed_message (some (c ∷ s)) = c ∷ s
failed_message _ = codes "variant processing failed"

abbrev pub write_failed : Variant → Response
write_failed v = write_error 422 (failed_message v.last_error)

-- The three counters of a ready variant.
abbrev pub ready_counter : Counter → Counter → Counter → ResolveResult → Counter
ready_counter misses pending hits r = if r.miss then misses else if r.waited then pending else hits

module _ {W : Type 0} (h : Handler W) where
  unfoldable pub served : Result (Bytes × Option ℕ) × W → Response × W
  served (ok (bytes, size), w) = (
    record {
      status = 200;
      content_type = codes "image/avif";
      content_length = size;
      body = content bytes;
    },
    w,
  )
  served (err e, w) = (write_error 500 (codes "failed to open variant"), w)

  -- serveVariant, by the path of the row
  unfoldable pub serve_path : Option Bytes → W → Response × W
  serve_path none w = (write_error 500 (codes "variant file missing"), w)
  serve_path (some []) w = (write_error 500 (codes "variant file missing"), w)
  serve_path (some (c ∷ path)) w = served (h.gen.storage.get (c ∷ path) w)

  unfoldable pub get_response : ResolveResult → Resolved → W → Response × W
  get_response r (is_ready v) w =
      serve_path v.path (h.inc (ready_counter cache_misses cache_pending cache_hits r) w)
  get_response r (is_failed v) w = (write_failed v, h.inc cache_failed w)
  get_response r (bad_request msg) w = (write_error 400 msg, w)
  get_response r (not_found msg) w = (write_error 404 msg, w)
  get_response r (unavailable msg) w = (write_error 503 msg, w)
  get_response r (internal msg) w = (write_error 500 msg, w)

  unfoldable pub head_response : ResolveResult → Resolved → W → Response × W
  head_response r (is_ready v) w = (
    write_header 200 (codes "image/avif"),
    h.inc (ready_counter head_misses head_pending head_hits r) w,
  )
  head_response r (is_failed v) w =
      (write_header 422 (codes "application/json"), h.inc head_failed w)
  head_response r (bad_request msg) w = (write_header 400 [], w)
  head_response r (not_found msg) w = (write_header 404 [], w)
  head_response r (unavailable msg) w = (write_header 503 [], w)
  head_response r (internal msg) w = (write_header 500 [], w)

  abbrev pub respond :
      (ResolveResult → Resolved → W → Response × W)
      → Option (ResolveResult × W)
      → Option (Response × W)
  respond f none = none
  respond f (some (r, w)) = some (f r r.outcome w)

  -- handleGet and handleHead; `none` without fuel for the polling loop.
  unfoldable pub handle_get : ℕ → Bytes → Query → W → Option (Response × W)
  handle_get fuel id_str query w = respond get_response (resolve_variant h fuel id_str query w)

  unfoldable pub handle_head : ℕ → Bytes → Query → W → Option (Response × W)
  handle_head fuel id_str query w = respond head_response (resolve_variant h fuel id_str query w)

  -- handleDelete, from its end
  unfoldable pub row_deleted : Result (Unit {0}) × W → Response × W
  row_deleted (ok _, w) = (write_header 204 [], w)
  row_deleted (err e, w) = (
    if e.is_not_found
        then write_header 204 []
        else write_error 500 (codes "failed to delete image"),
    w,
  )

  unfoldable pub files_deleted : Uuid → Result (Unit {0}) × W → Response × W
  files_deleted id (ok _, w) = row_deleted (h.gen.db.delete_image id w)
  files_deleted id (err e, w) = (write_error 500 (codes "failed to delete image files"), w)

  unfoldable pub image_loaded : Uuid → Result Image × W → Response × W
  image_loaded id (ok img, w) =
      files_deleted id (h.gen.storage.delete_image_files (h.gen.uuid.print id) img.original_path w)
  image_loaded id (err e, w) = (
    if e.is_not_found
        then write_error 404 (codes "image not found")
        else write_error 500 (codes "failed to load image"),
    w,
  )

  unfoldable pub delete_id : Option Uuid → W → Response × W
  delete_id none w = (write_error 400 (codes "invalid image id"), w)
  delete_id (some id) w = image_loaded id (h.gen.db.get_image id w)

  unfoldable pub handle_delete : Bytes → W → Response × W
  handle_delete id_str w = delete_id (h.gen.uuid.parse id_str) w
