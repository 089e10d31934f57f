-- ===== src/Examples/Keys.antt =====
-- A folder, an identifier and a hash as the API and the storage take them.
use image_optimizer.Prelude.{codes, ◌≡◌, ◌↔◌, refl, ◌∷◌, ◌++◌, ok}
use image_optimizer.Text.{
  Bytes, Unicode, slash, dot, is_empty, trim_left, trim, trim_byte_prefix, contains, contains_any,
  same, replace_byte, has_prefix, to_lower,
}
use image_optimizer.Text.Clean.{
  clean, or_dot, elements, path_join, clean_joined, glue, back, resolve, resolve_all,
}
use image_optimizer.Text.Split.{join, split, extend}
use image_optimizer.Text.Regex.{match_string}
use image_optimizer.Folder.{validate, trimmed, safe_segment, check_kind}
use image_optimizer.Folder.Laws.{IsMediaFolder}
use image_optimizer.Folder.Complete.{validate_iff}
use image_optimizer.Storage.Keys.{
  normalize_folder, normalize_key, validate_id, validate_params_hash, sanitize_ext, original_key,
  key_of,
}
use image_optimizer.Storage.Normal.{IsKey, normalize_key-IsKey}
use image_optimizer.Storage.Paths.{variant_path-injective, original_key_layout}

abbrev raw_folder : Bytes
raw_folder = codes "/storely\\12/themes/dark_1/"

abbrev folder : Bytes
folder = codes "storely/12/themes/dark_1"

abbrev image_id : Bytes
image_id = codes "b7-41"

abbrev params_hash : Bytes
params_hash = codes "0f3a"

-- Text beyond ASCII is left as it is here.
abbrev unicode : Unicode
unicode = record { lower_text = λ s. s; trim_text = λ s. s }

folder_accepted : validate raw_folder ≡ ok folder
unfolding validate is_empty trimmed trim_left contains same clean or_dot join elements safe_segment
    match_string check_kind
folder_accepted = refl

id_accepted : validate_id image_id ≡ ok tt
unfolding validate_id is_empty contains_any contains
id_accepted = refl

hash_accepted : validate_params_hash params_hash ≡ ok tt
unfolding validate_params_hash is_empty contains_any contains
hash_accepted = refl

key_accepted :
    original_key unicode folder image_id (codes ".JPG")
    ≡ ok (codes "storely/12/themes/dark_1/b7-41.jpg")
unfolding original_key validate_id is_empty contains_any contains normalize_folder trim trim_left
    replace_byte normalize_key key_of trim_byte_prefix clean join elements sanitize_ext to_lower
    path_join clean_joined glue or_dot back resolve resolve_all extend split has_prefix same
key_accepted = refl

validate_iff_example :
    (validate raw_folder ≡ ok folder) ↔ ((folder ≡ trimmed raw_folder) × IsMediaFolder folder)
validate_iff_example = validate_iff raw_folder folder

original_key_layout_example :
    (clean_ext : Bytes) × (sanitize_ext unicode (codes ".JPG") ≡ ok clean_ext)
    × (codes "storely/12/themes/dark_1/b7-41.jpg"
        ≡ folder ++ (slash ∷ (image_id ++ (dot ∷ clean_ext))))
    × (normalize_key (codes "storely/12/themes/dark_1/b7-41.jpg")
        ≡ ok (codes "storely/12/themes/dark_1/b7-41.jpg"))
original_key_layout_example =
    original_key_layout unicode raw_folder folder image_id (codes ".JPG")
      (codes "storely/12/themes/dark_1/b7-41.jpg") folder_accepted key_accepted

variant_path-injective_example : (image_id ≡ image_id) × (params_hash ≡ params_hash)
variant_path-injective_example =
    variant_path-injective image_id params_hash image_id params_hash id_accepted hash_accepted
      id_accepted hash_accepted refl

dotted_key : normalize_key (codes "a/./b\\../c") ≡ ok (codes "a/c")
unfolding normalize_key key_of trim_byte_prefix clean or_dot join elements is_empty contains
    has_prefix same replace_byte
dotted_key = refl

normalize_key-IsKey_example : IsKey (codes "a/c")
normalize_key-IsKey_example = normalize_key-IsKey (codes "a/./b\\../c") (codes "a/c") dotted_key
