-- ===== src/Db/Steps.antt =====
-- The statements of internal/db/images.go and internal/db/variants.go as the steps of the database:
-- the servers and the workers send them in any order, and each may be refused, or run with its answer
-- lost.
use image_optimizer.Prelude.{ℕ, [], Error}
use image_optimizer.Text.{Bytes}
use image_optimizer.Transform.Json.{Document}
use image_optimizer.Db.{Uuid, Image, Tables, Answer}
use image_optimizer.Db.Store.{
  pending_row, insert_image, upsert_pending_variant, mark_ready, mark_failed,
  delete_pending_variant, incr_attempts, delete_image,
}
use image_optimizer.Db.Invariant.{IsValid}
use image_optimizer.Db.Preserve.{
  mark_ready-IsValid, mark_failed-IsValid, incr_attempts-IsValid, delete_pending_variant-IsValid,
  delete_image-IsValid, insert_image-IsValid, upsert_pending_variant-IsValid,
}
use image_optimizer.Services.Respects.{IsPreorder}

pub data Step (violation : Error) : Tables → Tables → Type 0 where
  image_inserted :
      (row : Image) (a : Answer) (db : Tables)
      → Step violation db (insert_image violation row a db).1
  variant_upserted :
      (id image_id : Uuid) (params_hash : Bytes) (params_json : Document) (now : ℕ) (a b : Answer)
      (db : Tables)
      → Step violation db
          (upsert_pending_variant violation
            (pending_row id image_id params_hash params_json now)
            a
            b
            db).1
  marked_ready :
      (id : Uuid) (path : Bytes) (now : ℕ) (a : Answer) (db : Tables)
      → Step violation db (mark_ready id path now a db).1
  marked_failed :
      (id : Uuid) (last_error : Bytes) (now : ℕ) (a : Answer) (db : Tables)
      → Step violation db (mark_failed id last_error now a db).1
  pending_deleted :
      (id : Uuid) (a : Answer) (db : Tables) → Step violation db (delete_pending_variant id a db).1
  attempts_counted :
      (id : Uuid) (now : ℕ) (a : Answer) (db : Tables)
      → Step violation db (incr_attempts violation id now a db).1
  image_deleted :
      (id : Uuid) (a : Answer) (db : Tables) → Step violation db (delete_image id a db).1

-- Any number of statements, one after another.
pub data Run (violation : Error) (first : Tables) : Tables → Type 0 where
  here : Run violation first first
  after :
      {db db' : Tables} → Run violation first db → Step violation db db' → Run violation first db'

abbrev pub no_rows : Tables
no_rows = record { images = []; variants = [] }

Step-IsValid :
    {violation : Error} {db db' : Tables} → Step violation db db' → IsValid db → IsValid db'
Step-IsValid {violation} (image_inserted row a db) v = insert_image-IsValid violation row a db v
Step-IsValid {violation} (variant_upserted id image_id params_hash params_json now a b db) v =
    upsert_pending_variant-IsValid violation id image_id params_hash params_json now a b db v
Step-IsValid (marked_ready id path now a db) v = mark_ready-IsValid id path now a db v
Step-IsValid (marked_failed id last_error now a db) v = mark_failed-IsValid id last_error now a db v
Step-IsValid (pending_deleted id a db) v = delete_pending_variant-IsValid id a db v
Step-IsValid {violation} (attempts_counted id now a db) v =
    incr_attempts-IsValid violation id now a db v
Step-IsValid (image_deleted id a db) v = delete_image-IsValid id a db v

-- However many statements InsertImage, UpsertPendingVariant, MarkReady, MarkFailed,
-- DeletePendingVariant, IncrAttempts and DeleteImage are sent in whatever order, and whether each is
-- answered, refused or has its answer lost: from valid tables they lead to valid tables. Valid
-- tables have unique identifiers, one variant for an image and a hash, an image for every variant,
-- and in every variant a path and an error that fit its status.
pub Run-IsValid :
    {violation : Error} {db db' : Tables} → Run violation db db' → IsValid db → IsValid db'
Run-IsValid here v = v
Run-IsValid (after r s) v = Step-IsValid s (Run-IsValid r v)

Run-append :
    {violation : Error} {a b c : Tables} → Run violation a b → Run violation b c → Run violation a c
Run-append r here = r
Run-append r (after r' s) = after (Run-append r r') s

-- One statement.
pub one : {violation : Error} {db db' : Tables} → Step violation db db' → Run violation db db'
one s = after here s

pub Run-IsPreorder : (violation : Error) → IsPreorder (Run violation)
Run-IsPreorder violation = record { same = λ db. here; next = λ a b c r r'. Run-append r r' }

pub no_rows-IsValid : IsValid no_rows
no_rows-IsValid = record { images = tt; variants = tt; slots = tt; owned = tt; rows = tt }
