-- ===== src/Folder/Segments.antt =====
-- The segment expression `^[a-zA-Z0-9_-]+$` of internal/folder/folder.go.
use mathlib.Core.List.{cons-ne-nil}
use image_optimizer.Prelude.{ℕ, ◌≡◌, ◌≢◌, ◌↔◌, refl, true, [], ◌∷◌, arith, any, All, All-map}
use image_optimizer.Text.{Bytes, is_empty, slash}
use image_optimizer.Text.Regex.{one_or_more, match_string, match_string_sound, runs, remainders}
use image_optimizer.Text.Elements.{IsName}
use image_optimizer.Folder.{is_safe_byte, safe_segment}

abbrev pub IsSafe : Bytes → Type 0
IsSafe p = (p ≢ []) × All (λ c. is_safe_byte c ≡ true) p

any-runs : (s : Bytes) → IsSafe s → any is_empty (runs is_safe_byte s) ≡ true
unfolding runs is_empty
any-runs [] h = absurd (h.0 refl)
any-runs (c ∷ []) (n, h) = rw (h.0) refl
any-runs (c ∷ d ∷ s) (n, h) = rw (h.0) (any-runs (d ∷ s) (cons-ne-nil _ _, h.1))

pub safe_segment_iff : (p : Bytes) → (safe_segment p ≡ true) ↔ IsSafe p
unfolding safe_segment
safe_segment_iff p = (
  match_string_sound (one_or_more is_safe_byte) p,
  λ h. unfold match_string remainders in any-runs p h,
)

safe_byte-ne : (c : ℕ) → is_safe_byte c ≡ true → (c ≢ slash) × (c ≢ b'.')
safe_byte-ne c h = ground arith

-- A safe segment is the name of a directory.
pub IsSafe-IsName : (p : Bytes) → IsSafe p → IsName p
IsSafe-IsName [] h = absurd (h.0 refl)
IsSafe-IsName (c ∷ p) (n, (h, hs)) = (
  n,
  ground (arith, safe_byte-ne c h),
  ground (arith, safe_byte-ne c h),
  ((safe_byte-ne c h).0, All-map (λ d e. (safe_byte-ne d e).0) p hs),
)
