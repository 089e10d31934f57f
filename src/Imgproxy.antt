-- ===== src/Imgproxy.antt =====
-- internal/imgproxy: the path of a request (path.go), and the client (client.go).
pub mod Client
pub mod Requests
use image_optimizer.Prelude.{
  codes, List, [], ◌∷◌, ◌++◌, Option, none, some, if◌then◌else◌, ℤ, pos, ◌||◌,
}
use image_optimizer.Text.{
  Bytes, same, is_empty, trim_byte_prefix, slash, Unicode, to_lower, trim_space,
}
use image_optimizer.Text.Split.{join}
use image_optimizer.Text.Clean.{clean}
use image_optimizer.Text.Number.{itoa}
use image_optimizer.Transform.{Params}

unfoldable pub object_key : Unicode → Bytes → Bytes
object_key u original_path = trim_byte_prefix slash (clean (slash ∷ trim_space u original_path))

-- The switch of resizingType, on the trimmed lower-case text.
unfoldable pub resizing_of : Bytes → Bytes
unfolding same is_empty
resizing_of fit =
    if same fit (codes "cover")
    then codes "fill"
    else if same fit (codes "contain") || is_empty fit
    then codes "fit"
    else if same fit (codes "fill")
    then codes "force"
    else codes "fit"

unfoldable pub resizing_type : Unicode → Bytes → Bytes
resizing_type u fit = resizing_of (to_lower u (trim_space u fit))

unfoldable pub gravity_of : Bytes → Bytes
unfolding same is_empty
gravity_of crop =
    if same crop (codes "center") || is_empty crop
    then codes "ce"
    else if same crop (codes "top")
    then codes "no"
    else if same crop (codes "bottom")
    then codes "so"
    else if same crop (codes "left")
    then codes "we"
    else if same crop (codes "right")
    then codes "ea"
    else codes "ce"

unfoldable pub gravity : Unicode → Bytes → Bytes
gravity u crop = gravity_of (to_lower u (trim_space u crop))

abbrev pub or_zero : Option ℤ → ℤ
or_zero none = pos 0
or_zero (some n) = n

unfoldable pub segments : Unicode → Bytes → Bytes → Params → List Bytes
segments u bucket original_path p =
    codes "insecure"
    ∷ (codes "rs:"
        ++ (resizing_type u p.fit
            ++ (codes ":" ++ (itoa (or_zero p.w) ++ (codes ":" ++ itoa (or_zero p.h))))))
    ∷ (codes "g:" ++ gravity u p.crop)
    ∷ (codes "q:" ++ itoa p.q)
    ∷ codes "plain"
    ∷ (codes "s3://" ++ (bucket ++ (codes "/" ++ (object_key u original_path ++ codes "@avif"))))
    ∷ []

unfoldable pub build_path : Unicode → Bytes → Bytes → Params → Bytes
build_path u bucket original_path p = slash ∷ join slash (segments u bucket original_path p)
