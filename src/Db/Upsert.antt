-- ===== src/Db/Upsert.antt =====
-- UpsertPendingVariant of internal/db/variants.go and the row of an image and a hash.
use image_optimizer.Prelude.{
  ◌≡◌, refl, Bool, true, false, not, ◌∷◌, some, arith, any, ◌==◌, if◌then◌else◌, Bool-cases, inl,
  inr, Error, ok,
}
use image_optimizer.Text.Laws.{same_refl}
use image_optimizer.Db.{Variant, Tables, answered}
use image_optimizer.Db.Store.{
  find, with_id, with_hash, execute, insert_variant, conflict_fetch, get_variant_by_hash,
  upsert_pending_variant,
}
use image_optimizer.Db.Rows.{find_of_any, any_of_find}

module _ (violation : Error) where
  -- The row of a slot that is taken.
  existing :
      (row v : Variant) (db : Tables)
      → find (with_hash row.image_id row.params_hash) db.variants ≡ some v
      → any (with_hash row.image_id row.params_hash) db.variants ≡ true
      → upsert_pending_variant violation row answered answered db ≡ (ok (v, false), db)
  unfolding upsert_pending_variant insert_variant execute conflict_fetch get_variant_by_hash
  existing row v db found taken = rw (taken, found) refl

  fresh :
      (row : Variant) (db : Tables)
      → any (λ i. i.id == row.image_id) db.images ≡ true
      → any (with_id row.id) db.variants ≡ false
      → any (with_hash row.image_id row.params_hash) db.variants ≡ false
      → upsert_pending_variant violation row answered answered db
        ≡ (ok (row, true), record db { variants = row ∷ db.variants })
  unfolding upsert_pending_variant insert_variant execute conflict_fetch get_variant_by_hash
  fresh row db owner unique free = rw (owner, unique, free) refl

  -- The row that holds the slot of `row` in the tables.
  abbrev pub IsHolder : Variant → Tables → Variant → Type 0
  IsHolder row db v = find (with_hash row.image_id row.params_hash) db.variants ≡ some v

  any_of_holder :
      (row v : Variant) (db : Tables)
      → IsHolder row db v
      → any (with_hash row.image_id row.params_hash) db.variants ≡ true
  any_of_holder row v db h = any_of_find (with_hash row.image_id row.params_hash) db.variants v h

  -- With both statements answered, an image that is there and an identifier that no variant has,
  -- UpsertPendingVariant returns the row that a search for the image and the hash finds afterwards.
  -- It reports that it created the row exactly if no row had the image and the hash before; then the
  -- new row stands in front of the others, and otherwise the tables are as before.
  pub upsert_pending_variant-IsHolder :
      (row : Variant) (db : Tables)
      → any (λ i. i.id == row.image_id) db.images ≡ true
      → any (with_id row.id) db.variants ≡ false
      → (v : Variant) × (created : Bool) × (db' : Tables) × (upsert_pending_variant violation row
            answered answered db
          ≡ (ok (v, created), db'))
        × IsHolder row db' v
        × (db' ≡ (if created then record db { variants = row ∷ db.variants } else db))
        × (created ≡ not (any (with_hash row.image_id row.params_hash) db.variants))
  upsert_pending_variant-IsHolder row db owner unique =
      elim (Bool-cases (any (with_hash row.image_id row.params_hash) db.variants)) [
        | inl taken ↦
            let (v, found) = find_of_any _ db.variants taken in
            (v, false, db, existing row v db found taken, found, refl, rw taken refl)
        | inr free ↦ (
          row,
          true,
          record db { variants = row ∷ db.variants },
          fresh row db owner unique free,
          first row db,
          refl,
          rw free refl,
        )
      ]
    where
      first :
          (row : Variant) (db : Tables)
          → IsHolder row (record db { variants = row ∷ db.variants }) row
      first row db = unfold find in ground (arith, same_refl row.params_hash)

  -- With both statements answered, UpsertPendingVariant for an image and a hash that a row has
  -- already returns that row, reports that it created none, and leaves the tables as they are.
  pub upsert_pending_variant_again :
      (row v : Variant) (db : Tables)
      → IsHolder row db v
      → upsert_pending_variant violation row answered answered db ≡ (ok (v, false), db)
  upsert_pending_variant_again row v db h = existing row v db h (any_of_holder row v db h)
