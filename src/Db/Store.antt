-- ===== src/Db/Store.antt =====
-- The statements of internal/db/images.go and internal/db/variants.go. Each takes the server's
-- answer, and returns the result with the tables behind it.
use image_optimizer.Prelude.{
  ℕ, codes, ltb, ◌^◌, ◌+◌, Bool, true, false, not, ◌&&◌, ◌||◌, List, [], ◌∷◌, Option, none, some,
  ◌==◌, if◌then◌else◌, any, Error, wrap, Result, ok, err,
}
use image_optimizer.Text.{Bytes, same}
use image_optimizer.Transform.Json.{Document}
use image_optimizer.Db.{
  Uuid, Status, pending, ready, failed, Image, Variant, Tables, Answer, answered, refused, lost,
  err_not_found,
}

-- WHERE, on one row at most
unfoldable pub find {ℓ} : {A : Type ℓ} → (A → Bool) → List A → Option A
find p [] = none
find p (x ∷ xs) = if p x then some x else find p xs

unfoldable pub filter {ℓ} : {A : Type ℓ} → (A → Bool) → List A → List A
filter p [] = []
filter p (x ∷ xs) = let rest = filter p xs in if p x then x ∷ rest else rest

-- UPDATE … WHERE
unfoldable pub update {ℓ} : {A : Type ℓ} → (A → Bool) → (A → A) → List A → List A
update p f [] = []
update p f (x ∷ xs) = (if p x then f x else x) ∷ update p f xs

-- The error of a scan or an Exec: ErrNotFound is passed on as it is, all else gets a context.
abbrev pub scan_error : Bytes → Error → Error
scan_error context e = if e.is_not_found then err_not_found else wrap context e

abbrev pub found_or : {A : Type 0} → Option A → Result A
found_or none = err err_not_found
found_or (some a) = ok a

-- A SELECT changes nothing; where its answer is missing it fails.
abbrev pub query : {A : Type 0} → Bytes → Answer → Option A → Result A
query context answered row = found_or row
query context (refused e) row = err (scan_error context e)
query context (lost e) row = err (scan_error context e)

-- A statement that writes: the row that it returns, or none, and the tables behind it.
unfoldable pub execute :
    {A : Type 0} → Bytes → Answer → Tables → Option A × Tables → Result A × Tables
execute context answered db (row, db') = (found_or row, db')
execute context (refused e) db (row, db') = (err (wrap context e), db)
execute context (lost e) db (row, db') = (err (wrap context e), db')

abbrev pub with_id : Uuid → Variant → Bool
with_id id v = v.id == id

abbrev pub with_hash : Uuid → Bytes → Variant → Bool
with_hash image_id params_hash v = v.image_id == image_id && same v.params_hash params_hash

unfoldable pub get_image : Uuid → Answer → Tables → Result Image
get_image id a db = query (codes "get image") a (find (λ i. i.id == id) db.images)

unfoldable pub get_variant_by_hash : Uuid → Bytes → Answer → Tables → Result Variant
get_variant_by_hash image_id params_hash a db =
    query (codes "get variant by hash") a (find (with_hash image_id params_hash) db.variants)

unfoldable pub get_variant_by_id : Uuid → Answer → Tables → Result Variant
get_variant_by_id id a db = query (codes "get variant by id") a (find (with_id id) db.variants)

-- A statement that breaks a constraint is refused by the server.
abbrev pub constraint : Answer → Bool → Error → Answer
constraint answered true e = refused e
constraint answered false e = answered
constraint (refused e') broken e = refused e'
constraint (lost e') broken e = if broken then refused e' else lost e'

-- The row that UpsertPendingVariant inserts.
abbrev pub pending_row : Uuid → Uuid → Bytes → Document → ℕ → Variant
pending_row id image_id params_hash params_json now = record {
  id = id;
  image_id = image_id;
  params_hash = params_hash;
  params_json = params_json;
  status = pending;
  path = none;
  attempts = 0;
  last_error = none;
  created_at = now;
  updated_at = now;
}

module _ (violation : Error) where
  -- INSERT INTO images: the primary key is taken once.
  unfoldable pub insert_image : Image → Answer → Tables → Result Image × Tables
  insert_image row a db =
      let taken = any (λ i. i.id == row.id) db.images in
      execute (codes "insert image") (constraint a taken violation) db
        (some row, record db { images = row ∷ db.images })

  -- INSERT INTO variants … ON CONFLICT (image_id, params_hash) DO NOTHING. Without a conflict the
  -- primary key must be free and the image must be there.
  unfoldable pub insert_variant : Variant → Answer → Tables → Result Variant × Tables
  insert_variant row a db =
      let orphan = not (any (λ i. i.id == row.image_id) db.images) in
      let taken = any (with_id row.id) db.variants in
      let conflict = any (with_hash row.image_id row.params_hash) db.variants in
      execute (codes "upsert pending variant")
        (constraint a (not conflict && (taken || orphan)) violation) db
        (if conflict then (none, db) else (some row, record db { variants = row ∷ db.variants }))

  -- UpsertPendingVariant: the row, and whether this call has inserted it.
  unfoldable pub conflict_fetch : Result Variant → Result (Variant × Bool)
  conflict_fetch (ok v) = ok (v, false)
  conflict_fetch (err e) = err (wrap (codes "upsert pending variant conflict fetch") e)

  abbrev pub after_insert : Result Variant → Result (Variant × Bool) → Result (Variant × Bool)
  after_insert (ok v) existing = ok (v, true)
  after_insert (err e) existing = if e.is_not_found then existing else err e

  unfoldable pub upsert_pending_variant :
      Variant → Answer → Answer → Tables → Result (Variant × Bool) × Tables
  upsert_pending_variant row a b db =
      let (inserted, db') = insert_variant row a db in
      (
        after_insert inserted
            (conflict_fetch (get_variant_by_hash row.image_id row.params_hash b db')),
        db',
      )

-- An UPDATE or DELETE that touches no row is ErrNotFound.
abbrev pub affected : Bool → Option (Unit {0})
affected true = some tt
affected false = none

unfoldable pub mark_ready : Uuid → Bytes → ℕ → Answer → Tables → Result (Unit {0}) × Tables
mark_ready id path now a db = execute (codes "mark ready") a db (
  affected (any (with_id id) db.variants),
  record db {
    variants =
        update (with_id id)
          (λ v. record v { status = ready; path = some path; last_error = none; updated_at = now })
          db.variants;
  },
)

unfoldable pub mark_failed : Uuid → Bytes → ℕ → Answer → Tables → Result (Unit {0}) × Tables
mark_failed id last_error now a db = execute (codes "mark failed") a db (
  affected (any (with_id id) db.variants),
  record db {
    variants =
        update (with_id id)
          (λ v. record v { status = failed; last_error = some last_error; updated_at = now })
          db.variants;
  },
)

abbrev pub is_pending : Status → Bool
is_pending pending = true
is_pending _ = false

unfoldable pub delete_pending_variant : Uuid → Answer → Tables → Result (Unit {0}) × Tables
delete_pending_variant id a db =
    let gone = λ (v : Variant). with_id id v && is_pending v.status in
    execute (codes "delete pending variant") a db (
      affected (any gone db.variants),
      record db { variants = filter (λ v. not (gone v)) db.variants },
    )

-- attempts is an INT: the server refuses a sum that does not fit into 32 bits.
abbrev pub overflows : Option Variant → Bool
overflows none = false
overflows (some v) = not (ltb (v.attempts + 1) (2 ^ 31))

unfoldable pub incr_attempts : Error → Uuid → ℕ → Answer → Tables → Result ℕ × Tables
incr_attempts violation id now a db =
    let row = find (with_id id) db.variants in
    execute (codes "incr attempts") (constraint a (overflows row) violation) db (
      elim row [ none ↦ none | some v ↦ some (v.attempts + 1) ],
      record db {
        variants =
            update (with_id id) (λ v. record v { attempts = v.attempts + 1; updated_at = now })
              db.variants;
      },
    )

-- DELETE FROM images; the variants of the image go with it (ON DELETE CASCADE).
unfoldable pub delete_image : Uuid → Answer → Tables → Result (Unit {0}) × Tables
delete_image id a db = execute (codes "delete image") a db (
  affected (any (λ i. i.id == id) db.images),
  record {
    images = filter (λ i. not (i.id == id)) db.images;
    variants = filter (λ v. not (v.image_id == id)) db.variants;
  },
)
