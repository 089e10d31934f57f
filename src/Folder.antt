-- ===== src/Folder.antt =====
-- internal/folder/folder.go: which media folders an upload may name.
pub mod Segments
pub mod Kinds
pub mod Laws
pub mod Complete
use image_optimizer.Prelude.{
  ℕ, codes, Bool, true, false, not, ◌&&◌, ◌||◌, List, [], ◌∷◌, ◌++◌, ◌==◌, if◌then◌else◌, any, all,
  Error, errorf, Result, ok, err, ◌>>=◌, ◌>>◌, refuse_if,
}
use image_optimizer.Text.{
  Bytes, same, is_empty, has_prefix, contains, replace_byte, trim, slash, backslash, is_digit,
  is_lower, is_upper,
}
use image_optimizer.Text.Split.{split}
use image_optimizer.Text.Contains.{rest_of}
use image_optimizer.Text.Clean.{clean, one_dot, two_dots}
use image_optimizer.Text.Regex.{Pattern, literal, one_or_more, either, followed_by, match_string}

-- `[a-zA-Z0-9_-]`
abbrev pub is_safe_byte : ℕ → Bool
is_safe_byte c = is_lower c || is_upper c || is_digit c || c == b'_' || c == b'-'

unfoldable pub safe_segment : Bytes → Bool
safe_segment p = match_string (one_or_more is_safe_byte) p

abbrev pub catalog : Pattern
catalog = literal (codes "catalog")

abbrev pub avatars : Pattern
avatars = literal (codes "avatars")

abbrev pub legacy_kind_seg : Pattern
legacy_kind_seg =
    either catalog (either avatars (either (literal (codes "themes")) (literal (codes "admins"))))

abbrev pub numbers : Pattern
numbers = one_or_more is_digit

abbrev pub shop_kind_pattern : Pattern
shop_kind_pattern =
    followed_by (literal (codes "storely/"))
      (followed_by numbers (followed_by (literal (codes "/")) (either catalog avatars)))

abbrev pub theme_pattern : Pattern
theme_pattern =
    followed_by (literal (codes "storely/"))
      (followed_by numbers (followed_by (literal (codes "/themes/")) (one_or_more is_safe_byte)))

abbrev pub panel_pattern : Pattern
panel_pattern = followed_by (literal (codes "storely/panel/admins/")) numbers

-- Backslashes read as slashes, and the slashes at both ends dropped.
unfoldable pub trimmed : Bytes → Bytes
unfolding replace_byte trim
trimmed raw = trim (λ c. c == slash) (replace_byte backslash slash raw)

-- The checks that follow the common prefix.
unfoldable pub check_kind : Bytes → Result Bytes
check_kind folder =
    if match_string shop_kind_pattern folder
      || match_string theme_pattern folder
      || match_string panel_pattern folder
    then ok folder
    else if any (match_string legacy_kind_seg) (rest_of (split slash folder))
    then ok folder
    else err (errorf (codes "folder must include a known media kind"))

unfoldable pub validate : Bytes → Result Bytes
validate raw = do
  let folder = trimmed raw
  refuse_if (is_empty folder) (errorf (codes "folder is required"))
  refuse_if (contains (slash ∷ slash ∷ []) folder) (errorf (codes "invalid folder path"))
  let cleaned = clean folder
  refuse_if (not (same cleaned folder) || has_prefix two_dots cleaned || same cleaned one_dot)
      (errorf (codes "invalid folder path"))
  refuse_if (not (has_prefix (codes "storely/") folder))
      (errorf (codes "folder must start with storely/"))
  refuse_if (any (λ p. is_empty p || not (safe_segment p)) (split slash folder))
      (errorf (codes "invalid folder segment"))
  check_kind folder
