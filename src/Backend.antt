-- ===== src/Backend.antt =====
-- The repository of internal/db as the store that the handlers and the worker call. The world
-- holds the tables, the server's answers to the statements to come (an empty list answers
-- every one), the time, the number of UUIDs made so far, and the rest of the system.
use image_optimizer.Prelude.{ℕ, suc, List, [], ◌∷◌, Error, Result}
use image_optimizer.Text.{Bytes}
use image_optimizer.Db.{Uuid, Image, Tables, Answer, answered}
use image_optimizer.Db.Store
use image_optimizer.Db.Store.{pending_row}
use image_optimizer.Services.{ImageStore}
use image_optimizer.Services.Calls.{Action}

pub record World (R : Type 0) : Type 0 where
  pub tables : Tables
  pub answers : List Answer
  pub now : ℕ
  pub made : ℕ
  pub rest : R

abbrev pub next_answer : List Answer → Answer
next_answer [] = answered
next_answer (a ∷ script) = a

abbrev pub later : List Answer → List Answer
later [] = []
later (a ∷ script) = script

module _ {R : Type 0} where
  -- One statement that reads, and one that writes.
  abbrev pub reads : {A : Type 0} → (Answer → Tables → Result A) → Action (World R) A
  reads f w = (f (next_answer w.answers) w.tables, record w { answers = later w.answers })

  abbrev pub left : {A : Type 0} → World R → Result A × Tables → Result A × World R
  left w (r, db) = (r, record w { tables = db; answers = later w.answers })

  abbrev pub writes : {A : Type 0} → (Answer → Tables → Result A × Tables) → Action (World R) A
  writes f w = left w (f (next_answer w.answers) w.tables)

  -- A value behind its record, so that a caller's pair is taken apart once.
  abbrev pub twice_left : {A : Type 0} → World R → Result A × Tables → Result A × World R
  twice_left w (r, db) =
      (r, record w { tables = db; answers = later (later w.answers); made = suc w.made })

  module _ (violation : Error) (new_uuid : ℕ → Uuid) where
    abbrev pub new_image : Uuid → Bytes → Bytes → ℕ → World R → Image
    new_image id original_path content_type size_bytes w = record {
      id = id;
      original_path = original_path;
      content_type = content_type;
      size_bytes = size_bytes;
      created_at = w.now;
    }

    -- db.Store
    unfoldable pub store : ImageStore (World R)
    store = record {
      insert_image = λ id original_path content_type size_bytes w.
          writes
            (Store.insert_image violation (new_image id original_path content_type size_bytes w)) w;
      get_image = λ id. reads (Store.get_image id);
      delete_image = λ id. writes (Store.delete_image id);
      get_variant_by_hash =
          λ image_id params_hash. reads (Store.get_variant_by_hash image_id params_hash);
      get_variant_by_id = λ id. reads (Store.get_variant_by_id id);
      upsert_pending_variant = λ image_id params_hash params_json w. twice_left w (
          Store.upsert_pending_variant violation
            (pending_row (new_uuid w.made) image_id params_hash params_json w.now)
            (next_answer w.answers) (next_answer (later w.answers)) w.tables);
      mark_ready = λ id path w. writes (Store.mark_ready id path w.now) w;
      mark_failed = λ id last_error w. writes (Store.mark_failed id last_error w.now) w;
      incr_attempts = λ id w. writes (Store.incr_attempts violation id w.now) w;
    }
