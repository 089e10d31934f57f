-- ===== src/VariantGen.antt =====
-- internal/variantgen/variantgen.go: one variant is fetched from imgproxy, stored, and marked ready.
pub mod Made
use image_optimizer.Prelude.{codes, Bool, not, Error, errorf}
use image_optimizer.Text.{Bytes, Unicode}
use image_optimizer.Transform.Json.{params_from_json}
use image_optimizer.Imgproxy.{build_path}
use image_optimizer.Db.{Variant}
use image_optimizer.Services.{ImageStore, BlobStore, Fetcher, UuidText}
use image_optimizer.Services.Calls.{Action, lift, fail_if, ◌>>=◌, ◌>>◌, context}

-- `complete` is false if a dependency is nil; the last three fields stand for packages that the
-- code calls.
pub record Deps (W : Type 0) : Type 0 where
  pub db : ImageStore W
  pub storage : BlobStore W
  pub imgproxy : Fetcher W
  pub s3_bucket : Bytes
  pub complete : Bool
  pub unicode : Unicode
  pub uuid : UuidText
  pub json_error : Error

unfoldable pub transform_and_persist : {W : Type 0} → Deps W → Variant → Action W (Unit {0})
transform_and_persist d v = do
  fail_if (not d.complete) (errorf (codes "variantgen: incomplete deps"))
  img ← context (codes "get image") (d.db.get_image v.image_id)
  params ← lift (params_from_json d.json_error v.params_json)
  fetched ←
      context (codes "imgproxy fetch")
        (d.imgproxy.fetch (build_path d.unicode d.s3_bucket img.original_path params))
  rel ←
      context (codes "write variant")
        (d.storage.write_variant (d.uuid.print v.image_id) v.params_hash fetched)
  context (codes "mark ready") (d.db.mark_ready v.id rel)
