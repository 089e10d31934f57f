-- ===== src/Examples/Rows.antt =====
-- Tables with one image and two variants of it, and statements on them.
use image_optimizer.Prelude.{
  codes, ◌≡◌, refl, Bool, not, [], ◌∷◌, some, any, if◌then◌else◌, Error, errorf, ok,
}
use image_optimizer.Transform.Json.{object}
use image_optimizer.Db.{Uuid, failed, Image, Variant, Tables, answered}
use image_optimizer.Db.Store.{with_hash, pending_row, upsert_pending_variant}
use image_optimizer.Db.Upsert.{IsHolder, upsert_pending_variant-IsHolder}

abbrev violation : Error
violation = errorf (codes "violates constraint")

abbrev image : Uuid → Image
image id = record {
  id = id;
  original_path = codes "storely/1/catalog/x.png";
  content_type = codes "image/png";
  size_bytes = 2048;
  created_at = 3;
}

abbrev first_row : Variant
first_row = pending_row 7 1 (codes "aa") (object []) 4

abbrev second_row : Variant
second_row = record (pending_row 8 1 (codes "bb") (object []) 4) {
  status = failed;
  attempts = 3;
  last_error = some (codes "no such image");
}

abbrev tables : Tables
tables = record { images = image 1 ∷ []; variants = first_row ∷ second_row ∷ [] }

abbrev new_row : Variant
new_row = pending_row 9 1 (codes "aa") (object []) 5

upsert_pending_variant-IsHolder_example :
    (v : Variant) × (created : Bool) × (db' : Tables) × (upsert_pending_variant violation new_row
        answered answered tables
      ≡ (ok (v, created), db'))
    × IsHolder violation new_row db' v
    × (db' ≡ (if created then record tables { variants = new_row ∷ tables.variants } else tables))
    × (created ≡ not (any (with_hash 1 (codes "aa")) tables.variants))
upsert_pending_variant-IsHolder_example =
    upsert_pending_variant-IsHolder violation new_row tables refl refl
