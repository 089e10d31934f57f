-- ===== src/Db.antt =====
-- internal/db: the rows of the tables images and variants (models.go, migrations/00001_init.sql),
-- and the statements of the repository (images.go, variants.go) on them.
pub mod Store
pub mod Connect
pub mod Rows
pub mod Invariant
pub mod Preserve
pub mod Upsert
pub mod Steps
use image_optimizer.Prelude.{ℕ, Bool, true, false, List, Option, ◌==◌, Error, errorf, codes}
use image_optimizer.Text.{Bytes}
use image_optimizer.Transform.Json.{Document}

-- A UUID is taken as a number, a time as the number of a tick.
abbrev pub Uuid : Type 0
Uuid = ℕ

-- A status text outside the table's CHECK constraint is `unknown`.
pub data Status : Type 0 where
  pending ready failed : Status
  unknown : Bytes → Status

pub record Image : Type 0 where
  pub id : Uuid
  pub original_path : Bytes
  pub content_type : Bytes
  pub size_bytes : ℕ
  pub created_at : ℕ

pub record Variant : Type 0 where
  pub id : Uuid
  pub image_id : Uuid
  pub params_hash : Bytes
  pub params_json : Document
  pub status : Status
  pub path : Option Bytes
  pub attempts : ℕ
  pub last_error : Option Bytes
  pub created_at : ℕ
  pub updated_at : ℕ

pub record Tables : Type 0 where
  pub images : List Image
  pub variants : List Variant

-- How the server answers one statement: it runs it, it refuses it before it runs (no connection,
-- a cancelled context), or the answer is lost after it has run.
pub data Answer : Type 0 where
  answered : Answer
  refused : Error → Answer
  lost : Error → Answer

-- ErrNotFound
abbrev pub err_not_found : Error
err_not_found = record {
  text = codes "not found";
  is_not_found = true;
  is_deadline = false;
  is_canceled = false;
}
