-- ===== src/Db/Preserve.antt =====
-- The statements of the repository (internal/db/images.go, variants.go) on valid tables.
use mathlib.Core.Option.{none-ne-some}
use image_optimizer.Prelude.{
  ℕ, ◌≡◌, refl, sym, Bool, true, false, not, ◌&&◌, ◌||◌, ◌∷◌, Option, none, some, arith, any,
  All-map, ◌==◌, if◌then◌else◌, Error, Bool-cases, inl, inr, codes,
}
use image_optimizer.Text.{Bytes}
use image_optimizer.Transform.Json.{Document}
use image_optimizer.Db.{Uuid, Image, Variant, Tables, Answer, answered, refused, lost}
use image_optimizer.Db.Store.{
  filter, update, with_id, with_hash, execute, constraint, pending_row, insert_image,
  insert_variant, upsert_pending_variant, mark_ready, mark_failed, delete_pending_variant,
  incr_attempts, overflows, find, constraint, with_id, delete_image,
}
use image_optimizer.Db.Rows.{
  any-filter-true, Distinct-update, Distinct-filter, All-update, All-filter, All-of_filter,
}
use image_optimizer.Db.Invariant.{
  same_image, same_variant, same_slot, IsVariant, has_image, IsValid,
}

-- The tables behind a statement are those before it or those that it writes.
execute-IsValid :
    {A : Type 0} (context : Bytes) (a : Answer) (db : Tables) (row : Option A) (db' : Tables)
    → IsValid db
    → IsValid db'
    → IsValid (execute context a db (row, db')).1
unfolding execute
execute-IsValid context answered db row db' h h' = h'
execute-IsValid context (refused e) db row db' h h' = h
execute-IsValid context (lost e) db row db' h h' = h'

-- An update of the columns that are in no key.
module _ (p : Variant → Bool) (f : Variant → Variant) (db : Tables) (v : IsValid db)
    (id : (x : Variant) → (f x).id ≡ x.id) (image : (x : Variant) → (f x).image_id ≡ x.image_id)
    (hash : (x : Variant) → (f x).params_hash ≡ x.params_hash)
    (row : (x : Variant) → IsVariant x → IsVariant (f x)) where
  update-IsValid : IsValid (record db { variants = update p f db.variants })
  update-IsValid = record {
    images = v.images;
    variants =
        Distinct-update same_variant p f db.variants (λ x y. rw (id x) refl) (λ x y. rw (id y) refl)
          v.variants;
    slots =
        Distinct-update same_slot p f db.variants (λ x y. rw (image x, hash x) refl)
          (λ x y. rw (image y, hash y) refl) v.slots;
    owned = All-update _ p f db.variants (λ x h. rw (image x) h) v.owned;
    rows = All-update _ p f db.variants row v.rows;
  }

-- MarkReady keeps tables valid, whatever the identifier, the path, the time and the server's answer.
pub mark_ready-IsValid :
    (id : Uuid) (path : Bytes) (now : ℕ) (a : Answer) (db : Tables)
    → IsValid db
    → IsValid (mark_ready id path now a db).1
unfolding mark_ready
mark_ready-IsValid id path now a db v = execute-IsValid _ a db _ _ v (
    update-IsValid _ _ db v (λ x. refl) (λ x. refl) (λ x. refl)
      (λ x r. (λ e. none-ne-some path (sym e), refl)))

-- MarkFailed keeps tables valid, whatever the identifier, the error text, the time and the server's
-- answer.
pub mark_failed-IsValid :
    (id : Uuid) (last_error : Bytes) (now : ℕ) (a : Answer) (db : Tables)
    → IsValid db
    → IsValid (mark_failed id last_error now a db).1
unfolding mark_failed
mark_failed-IsValid id last_error now a db v = execute-IsValid _ a db _ _ v (
    update-IsValid _ _ db v (λ x. refl) (λ x. refl) (λ x. refl)
      (λ x r e. none-ne-some last_error (sym e)))

-- IncrAttempts keeps tables valid, whatever the identifier, the time and the server's answer.
pub incr_attempts-IsValid :
    (violation : Error) (id : Uuid) (now : ℕ) (a : Answer) (db : Tables)
    → IsValid db
    → IsValid (incr_attempts violation id now a db).1
unfolding incr_attempts
incr_attempts-IsValid violation id now a db v =
    execute-IsValid _ (constraint a (overflows (find (with_id id) db.variants)) violation) db _ _ v
      (update-IsValid _ _ db v (λ x. refl) (λ x. refl) (λ x. refl) (λ x r. r))

-- DeletePendingVariant keeps tables valid, whatever the identifier and the server's answer.
pub delete_pending_variant-IsValid :
    (id : Uuid) (a : Answer) (db : Tables) → IsValid db → IsValid (delete_pending_variant id a db).1
unfolding delete_pending_variant
delete_pending_variant-IsValid id a db v = execute-IsValid _ a db _ _ v (record {
  images = v.images;
  variants = Distinct-filter same_variant _ db.variants v.variants;
  slots = Distinct-filter same_slot _ db.variants v.slots;
  owned = All-filter _ _ db.variants v.owned;
  rows = All-filter _ _ db.variants v.rows;
})

-- The image of a variant that stays is not the one that is deleted.
still_owned :
    (id : Uuid) (db : Tables) (x : Variant)
    → not (x.image_id == id) ≡ true
    → has_image db x ≡ true
    → any (λ i. i.id == x.image_id) (filter (λ i. not (i.id == id)) db.images) ≡ true
still_owned id db x kept h = any-filter-true _ _ db.images (λ i e. ground arith) h

-- DeleteImage keeps tables valid however the server answers: the variants of the image go with it.
pub delete_image-IsValid :
    (id : Uuid) (a : Answer) (db : Tables) → IsValid db → IsValid (delete_image id a db).1
unfolding delete_image
delete_image-IsValid id a db v = execute-IsValid _ a db _ _ v (record {
  images = Distinct-filter same_image _ db.images v.images;
  variants = Distinct-filter same_variant _ db.variants v.variants;
  slots = Distinct-filter same_slot _ db.variants v.slots;
  owned = All-of_filter _ _ _ db.variants (λ x k h. still_owned id db x k h) v.owned;
  rows = All-filter _ _ db.variants v.rows;
})

-- The image that is inserted is new.
has_image-cons :
    (row : Image) (db : Tables) (x : Variant)
    → has_image db x ≡ true
    → any (λ i. i.id == x.image_id) (row ∷ db.images) ≡ true
has_image-cons row db x h = ground arith

inserted-IsValid :
    (row : Image) (db : Tables)
    → any (λ i. i.id == row.id) db.images ≡ false
    → IsValid db
    → IsValid (record db { images = row ∷ db.images })
inserted-IsValid row db free v = record {
  images = (free, v.images);
  variants = v.variants;
  slots = v.slots;
  owned = All-map (λ x h. has_image-cons row db x h) db.variants v.owned;
  rows = v.rows;
}

-- InsertImage keeps tables valid, whatever the row and the server's answer: an identifier that is
-- taken is refused.
pub insert_image-IsValid :
    (violation : Error) (row : Image) (a : Answer) (db : Tables)
    → IsValid db
    → IsValid (insert_image violation row a db).1
unfolding insert_image execute
insert_image-IsValid violation row a db v =
    elim (Bool-cases (any (λ i. i.id == row.id) db.images)) [
      | inl e ↦ rw e (broken a)
      | inr e ↦ rw e (
          execute-IsValid (codes "insert image") (constraint a false violation) db (some row) _ v
            (inserted-IsValid row db e v))
    ]
  where
    broken :
        (a : Answer)
        → IsValid
            (execute
              (codes "insert image")
              (constraint a true violation)
              db
              (some row, record db { images = row ∷ db.images })).1
    broken answered = v
    broken (refused e) = v
    broken (lost e) = v

added-IsValid :
    (row : Variant) (db : Tables)
    → any (with_id row.id) db.variants ≡ false
    → any (with_hash row.image_id row.params_hash) db.variants ≡ false
    → has_image db row ≡ true
    → IsVariant row
    → IsValid db
    → IsValid (record db { variants = row ∷ db.variants })
added-IsValid row db free slot owner is_row v = record {
  images = v.images;
  variants = (free, v.variants);
  slots = (slot, v.slots);
  owned = (owner, v.owned);
  rows = (is_row, v.rows);
}

-- What stands behind the insertion of a variant, by its three tests.
behind_insert :
    (violation : Error) (row : Variant) (a : Answer) (db : Tables) (conflict taken orphan : Bool)
    → IsValid db
    → ((conflict ≡ false)
        → (taken ≡ false)
        → (orphan ≡ false)
        → IsValid (record db { variants = row ∷ db.variants }))
    → IsValid
        (execute
          (codes "upsert pending variant")
          (constraint a (not conflict && (taken || orphan)) violation)
          db
          (if conflict
            then (none, db)
            else (some row, record db { variants = row ∷ db.variants }))).1
unfolding execute
behind_insert violation row a db true taken orphan v f =
    execute-IsValid (codes "upsert pending variant") (constraint a false violation) db none db v v
behind_insert violation row a db false false false v f =
    execute-IsValid (codes "upsert pending variant") (constraint a false violation) db (some row) _
      v (f refl refl refl)
behind_insert violation row answered db false true orphan v f = v
behind_insert violation row (refused e) db false true orphan v f = v
behind_insert violation row (lost e) db false true orphan v f = v
behind_insert violation row answered db false false true v f = v
behind_insert violation row (refused e) db false false true v f = v
behind_insert violation row (lost e) db false false true v f = v

insert_variant-IsValid :
    (violation : Error) (row : Variant) (a : Answer) (db : Tables)
    → IsVariant row
    → IsValid db
    → IsValid (insert_variant violation row a db).1
unfolding insert_variant
insert_variant-IsValid violation row a db is_row v =
    behind_insert violation row a db (any (with_hash row.image_id row.params_hash) db.variants)
      (any (with_id row.id) db.variants) (not (has_image db row)) v
      (λ slot free owner. added-IsValid row db free slot (ground arith) is_row v)

-- UpsertPendingVariant keeps tables valid, however the server answers its two statements. Valid
-- tables have unique identifiers, one variant for an image and a hash, an image for every variant,
-- and in every variant a path and an error that fit its status.
pub upsert_pending_variant-IsValid :
    (violation : Error) (id image_id : Uuid) (params_hash : Bytes) (params_json : Document)
    (now : ℕ) (a b : Answer) (db : Tables)
    → IsValid db
    → IsValid
        (upsert_pending_variant violation
          (pending_row id image_id params_hash params_json now)
          a
          b
          db).1
unfolding upsert_pending_variant
upsert_pending_variant-IsValid violation id image_id params_hash params_json now a b db v =
    insert_variant-IsValid violation _ a db (refl, refl) v
