-- ===== src/Storage/Keys.antt =====
-- The checks and the normal form of object keys: normalizeKey, normalizeFolder, validateID,
-- validateParamsHash, sanitizeExt, VariantPath, and the key that SaveOriginal writes.
use image_optimizer.Prelude.{
  ℕ, codes, Bool, not, ◌&&◌, ◌||◌, [], ◌∷◌, ◌++◌, leb, ◌==◌, all, errorf, wrap, Result, ok, err,
  ◌>>=◌, ◌>>◌, refuse_if,
}
use image_optimizer.Text.{
  Bytes, same, is_empty, has_prefix, contains, contains_any, replace_byte, trim, trim_byte_prefix,
  slash, backslash, dot, is_digit, is_lower, is_upper, Unicode, to_lower,
}
use image_optimizer.Text.Clean.{clean, path_join, one_dot, two_dots}

-- The cleaned key, before the checks.
unfoldable pub key_of : Bytes → Bytes
key_of rel_path = trim_byte_prefix slash (clean (slash ∷ replace_byte backslash slash rel_path))

unfoldable pub normalize_key : Bytes → Result Bytes
normalize_key rel_path = do
  let key = key_of rel_path
  refuse_if (is_empty key || same key one_dot) (errorf (codes "storage: empty path"))
  refuse_if (has_prefix two_dots key || contains (slash ∷ (two_dots ++ (slash ∷ []))) key)
      (errorf (codes "storage: path escapes bucket"))
  ok key

-- The error of the last call gets a context.
abbrev pub in_context : {A : Type 0} → Bytes → Result A → Result A
in_context text (ok a) = ok a
in_context text (err e) = err (wrap text e)

unfoldable pub normalize_folder : Bytes → Result Bytes
normalize_folder folder = do
  let trimmed = trim (λ c. c == slash) (replace_byte backslash slash folder)
  refuse_if (is_empty trimmed) (errorf (codes "storage: folder is required"))
  refuse_if (contains two_dots trimmed) (errorf (codes "storage: invalid folder"))
  in_context (codes "storage: invalid folder") (normalize_key trimmed)

abbrev pub is_id_byte : ℕ → Bool
is_id_byte c = is_lower c || is_upper c || is_digit c || c == b'-' || c == b'_'

unfoldable pub validate_id : Bytes → Result (Unit {0})
validate_id id = do
  refuse_if (is_empty id) (errorf (codes "storage: id is required"))
  refuse_if (contains_any (slash ∷ backslash ∷ []) id || contains two_dots id)
      (errorf (codes "storage: invalid id"))
  refuse_if (not (all is_id_byte id)) (errorf (codes "storage: invalid id"))

abbrev pub is_hex_byte : ℕ → Bool
is_hex_byte c = (leb b'a' c && leb c b'f') || (leb b'A' c && leb c b'F') || is_digit c

unfoldable pub validate_params_hash : Bytes → Result (Unit {0})
validate_params_hash h = do
  refuse_if (is_empty h) (errorf (codes "storage: paramsHash is required"))
  refuse_if (contains_any (slash ∷ backslash ∷ []) h || contains two_dots h)
      (errorf (codes "storage: invalid paramsHash"))
  refuse_if (not (all is_hex_byte h)) (errorf (codes "storage: invalid paramsHash"))

abbrev pub is_ext_byte : ℕ → Bool
is_ext_byte c = is_lower c || is_digit c

unfoldable pub sanitize_ext : Unicode → Bytes → Result Bytes
sanitize_ext u raw = do
  let ext = trim_byte_prefix dot (to_lower u raw)
  refuse_if (is_empty ext) (errorf (codes "storage: ext is required"))
  refuse_if (contains_any (slash ∷ backslash ∷ dot ∷ []) ext || contains two_dots ext)
      (errorf (codes "storage: invalid ext"))
  refuse_if (not (all is_ext_byte ext)) (errorf (codes "storage: invalid ext"))
  ok ext

unfoldable pub variant_path : Bytes → Bytes → Bytes
variant_path image_id params_hash =
    path_join (codes "variants" ∷ image_id ∷ (params_hash ++ codes ".avif") ∷ [])

-- The checks of SaveOriginal and its key, `{folder}/{id}.{ext}`.
unfoldable pub original_key : Unicode → Bytes → Bytes → Bytes → Result Bytes
original_key u folder id ext = do
  validate_id id
  folder_key ← normalize_folder folder
  clean_ext ← sanitize_ext u ext
  ok (path_join (folder_key ∷ (id ++ (dot ∷ clean_ext)) ∷ []))
