-- ===== src/Services.antt =====
-- The interfaces between the components, as the Go code declares them: what the handlers, the
-- worker and the generator call, over an abstract world `W` that every call may change.
pub mod Calls
pub mod Handles
pub mod Respects
pub mod Succeeds
use image_optimizer.Prelude.{ℕ, Bool, List, Option, Error, Result}
use image_optimizer.Text.{Bytes}
use image_optimizer.Transform.Json.{Document}
use image_optimizer.Db.{Uuid, Image, Variant}
use Calls.{Action}

-- Package github.com/google/uuid: reading and writing an identifier.
pub record UuidText : Type 0 where
  pub parse : Bytes → Option Uuid
  pub print : Uuid → Bytes

-- imageStore of internal/http/router.go and variantStore of internal/worker/worker.go
pub record ImageStore (W : Type 0) : Type 0 where
  pub insert_image : Uuid → Bytes → Bytes → ℕ → Action W Image
  pub get_image : Uuid → Action W Image
  pub delete_image : Uuid → Action W (Unit {0})
  pub get_variant_by_hash : Uuid → Bytes → Action W Variant
  pub get_variant_by_id : Uuid → Action W Variant
  pub upsert_pending_variant : Uuid → Bytes → Document → Action W (Variant × Bool)
  pub mark_ready : Uuid → Bytes → Action W (Unit {0})
  pub mark_failed : Uuid → Bytes → Action W (Unit {0})
  pub incr_attempts : Uuid → Action W ℕ

-- blobStore and variantWriter; `get` returns the bytes and the size, if it is known.
pub record BlobStore (W : Type 0) : Type 0 where
  pub save_original : Bytes → Bytes → Bytes → Bytes → Action W Bytes
  pub write_variant : Bytes → Bytes → Bytes → Action W Bytes
  pub delete_image_files : Bytes → Bytes → Action W (Unit {0})
  pub get : Bytes → Action W (Bytes × Option ℕ)

-- imgproxyFetcher
pub record Fetcher (W : Type 0) : Type 0 where
  pub fetch : Bytes → Action W Bytes

-- jobQueue, as far as the handlers use it
pub record JobQueue (W : Type 0) : Type 0 where
  pub publish : Bytes → Action W (Unit {0})
