-- ===== src/Http/Configured.antt =====
-- NewHandler and variantGen of internal/http/router.go, on a configuration that Load has returned.
use image_optimizer.Prelude.{ℕ, true, Error, ℤ, pos, negsuc}
use image_optimizer.Text.{Bytes, Unicode}
use image_optimizer.Services.{ImageStore, BlobStore, Fetcher, JobQueue, UuidText}
use image_optimizer.Config.{Config}
use image_optimizer.VariantGen
use image_optimizer.Http.{Handler, Counter, Clock}

-- What stands for packages that the handlers call.
pub record Platform (W : Type 0) : Type 0 where
  pub unicode : Unicode
  pub uuid : UuidText
  pub json_error : Error
  pub clock : Clock W
  pub inc : Counter → W → W
  pub sum256 : Bytes → Bytes

-- A number that Load has checked to be positive.
abbrev pub magnitude : ℤ → ℕ
magnitude (pos n) = n
magnitude (negsuc n) = 0

module _ {W : Type 0} (platform : Platform W) where
  unfoldable pub variant_gen : ImageStore W → BlobStore W → Fetcher W → Config → VariantGen.Deps W
  variant_gen store stor img cfg = record {
    db = store;
    storage = stor;
    imgproxy = img;
    s3_bucket = cfg.s3_bucket;
    complete = true;
    unicode = platform.unicode;
    uuid = platform.uuid;
    json_error = platform.json_error;
  }

  unfoldable pub new_handler :
      ImageStore W → BlobStore W → JobQueue W → Fetcher W → Config → Handler W
  new_handler store stor queue img cfg = record {
    gen = variant_gen store stor img cfg;
    queue = queue;
    clock = platform.clock;
    inc = platform.inc;
    sum256 = platform.sum256;
    sync_timeout = magnitude cfg.sync_transform_timeout;
    max_upload_bytes = magnitude cfg.max_upload_bytes;
  }
