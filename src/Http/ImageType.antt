-- ===== src/Http/ImageType.antt =====
-- detectImageType, isAllowedImageType and isWebP of internal/http/handlers.go. The sniffing of
-- http.DetectContentType is a parameter.
use image_optimizer.Prelude.{
  codes, Bool, false, not, ◌&&◌, ◌||◌, [], ◌∷◌, if◌then◌else◌, ◌==◌, leb, length, take, drop, Error,
  errorf, Result, ok, err,
}
use image_optimizer.Text.{Bytes, same, Unicode, to_lower, trim_space}

abbrev pub jpeg : Bytes
jpeg = codes "image/jpeg"

abbrev pub png : Bytes
png = codes "image/png"

abbrev pub webp : Bytes
webp = codes "image/webp"

-- What stands before the first `;`, or the whole text without one.
unfoldable pub before_semicolon : Bytes → Bytes
before_semicolon [] = []
before_semicolon (c ∷ s) = let rest = before_semicolon s in if c == b';' then [] else c ∷ rest

abbrev pub has_semicolon : Bytes → Bool
has_semicolon [] = false
has_semicolon (c ∷ s) = c == b';' || has_semicolon s

abbrev pub media_type : Unicode → Bytes → Bytes
media_type u ct = if has_semicolon ct then trim_space u (before_semicolon ct) else ct

abbrev pub is_one : Bytes → Bool
is_one ct = same ct jpeg || same ct png || same ct webp

unfoldable pub is_allowed_image_type : Unicode → Bytes → Bool
is_allowed_image_type u ct = is_one (media_type u (trim_space u (to_lower u ct)))

unfoldable pub is_web_p : Bytes → Bool
is_web_p bytes =
    leb 12 (length bytes)
    && same (take 4 bytes) (codes "RIFF")
    && same (take 4 (drop 8 bytes)) (codes "WEBP")

abbrev pub unsupported : Error
unsupported = errorf (codes "unsupported content type: only JPEG, PNG, WebP allowed")

-- The switch at the end of detectImageType.
unfoldable pub named : Bytes → Result (Bytes × Bytes)
named ct =
    if same ct jpeg
    then ok (ct, codes "jpg")
    else if same ct png
    then ok (ct, codes "png")
    else if same ct webp
    then ok (ct, codes "webp")
    else err unsupported

-- The type of the two that is looked at: the sniffed one, or the declared one in its place.
abbrev pub candidate : Unicode → Bytes → Bytes → Bytes
candidate u sniffed declared =
    if not (is_allowed_image_type u sniffed) && is_allowed_image_type u declared
    then declared
    else sniffed

unfoldable pub detect_image_type :
    Unicode → (Bytes → Bytes) → Bytes → Bytes → Result (Bytes × Bytes)
detect_image_type u sniff bytes declared =
    let ct = candidate u (sniff bytes) declared in
    if is_allowed_image_type u ct
    then named ct
    else if is_web_p bytes
    then named webp
    else err unsupported
