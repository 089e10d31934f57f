-- ===== src/Db/Invariant.antt =====
-- The constraints of the schema, and what the status of a variant says of its other columns.
use image_optimizer.Prelude.{ℕ, ◌≡◌, ◌≢◌, Bool, true, List, Option, none, any, All, ◌==◌}
use image_optimizer.Db.{Status, pending, ready, failed, unknown, Image, Variant, Tables}
use image_optimizer.Db.Store.{with_id, with_hash}
use image_optimizer.Db.Rows.{Distinct}

abbrev pub same_image : Image → Image → Bool
same_image i j = j.id == i.id

abbrev pub same_variant : Variant → Variant → Bool
same_variant v w = with_id v.id w

abbrev pub same_slot : Variant → Variant → Bool
same_slot v w = with_hash v.image_id v.params_hash w

-- A pending row has no result yet, a ready one has a path and no error, a failed one an error.
abbrev pub IsRow : Status → Option (List ℕ) → Option (List ℕ) → Type 0
IsRow pending path last_error = (path ≡ none) × (last_error ≡ none)
IsRow ready path last_error = (path ≢ none) × (last_error ≡ none)
IsRow failed path last_error = last_error ≢ none
IsRow (unknown s) path last_error = ⊥

abbrev pub IsVariant : Variant → Type 0
IsVariant v = IsRow v.status v.path v.last_error

abbrev pub has_image : Tables → Variant → Bool
has_image db v = any (λ i. i.id == v.image_id) db.images

pub record IsValid (db : Tables) : Type 0 where
  pub images : Distinct same_image db.images
  pub variants : Distinct same_variant db.variants
  pub slots : Distinct same_slot db.variants
  pub owned : All (λ v. has_image db v ≡ true) db.variants
  pub rows : All IsVariant db.variants
