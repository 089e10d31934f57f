-- ===== src/Http.antt =====
-- internal/http: the requests for images. The state of a handler is the world behind its
-- dependencies; a handler returns the response with the world that it leaves.
pub mod Resolve
pub mod Serve
pub mod ImageType
pub mod Uploads
pub mod Stored
pub mod Undone
pub mod Copied
pub mod Erased
pub mod Upload
pub mod Refused
pub mod Deleted
pub mod Configured
pub mod Routes
pub mod Ready
pub mod Reads
pub mod Outcomes
pub mod Fuel
pub mod Statuses
use image_optimizer.Prelude.{ℕ, codes, Bool, true, false, List, Option, none, some, Error}
use image_optimizer.Text.{Bytes}
use image_optimizer.Db.{Uuid, Variant}
use image_optimizer.Services.{ImageStore, BlobStore, JobQueue, UuidText}
use image_optimizer.VariantGen

-- variantOutcome, with what resolveResult carries beside it in each case.
pub data Resolved : Type 0 where
  is_ready : Variant → Resolved
  is_failed : Variant → Resolved
  bad_request : Bytes → Resolved
  not_found : Bytes → Resolved
  unavailable : Bytes → Resolved
  internal : Bytes → Resolved

-- resolveResult
pub record ResolveResult : Type 0 where
  pub outcome : Resolved
  pub miss : Bool
  pub waited : Bool

pub data Counter : Type 0 where
  cache_hits cache_misses cache_pending cache_failed : Counter
  head_hits head_misses head_pending head_failed : Counter
  jobs_enqueued : Counter

-- The clock, the wait of 50 ms that a cancelled request cuts short (true), and whether the
-- deadline of the inline transform has passed.
pub record Clock (W : Type 0) : Type 0 where
  pub now : W → ℕ × W
  pub poll_wait : W → Bool × W
  pub sync_expired : W → Bool × W

-- Handler and its configuration. `sync_timeout` is SYNC_TRANSFORM_TIMEOUT in nanoseconds.
pub record Handler (W : Type 0) : Type 0 where
  pub gen : VariantGen.Deps W
  pub queue : JobQueue W
  pub clock : Clock W
  pub inc : Counter → W → W
  pub sum256 : Bytes → Bytes
  pub sync_timeout : ℕ
  pub max_upload_bytes : ℕ
