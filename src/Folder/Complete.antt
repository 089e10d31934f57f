-- ===== src/Folder/Complete.antt =====
-- Validate of internal/folder/folder.go on media folders.
use mathlib.Core.List.{cons-ne-nil}
use image_optimizer.Prelude.{
  codes, ◌≡◌, ◌↔◌, refl, true, false, List, [], ◌∷◌, All, All-map, sym, ◌∙◌, ok,
}
use image_optimizer.Text.{Bytes, same, is_empty, has_prefix, contains, slash}
use image_optimizer.Text.Laws.{same_refl, has_prefix-append}
use image_optimizer.Text.Split.{split, join, split-join}
use image_optimizer.Text.Clean.{clean, one_dot, two_dots}
use image_optimizer.Text.Contains.{contains_of_parts}
use image_optimizer.Text.Elements.{IsName, clean-join, no_part}
use image_optimizer.Folder.{trimmed, validate}
use image_optimizer.Folder.Segments.{IsSafe, IsSafe-IsName}
use image_optimizer.Folder.Kinds.{HasKind}
use image_optimizer.Folder.Laws.{IsMediaFolder, not_bad_of_IsSafe, check_kind_iff, validate_sound}

root-IsSafe : IsSafe (codes "storely")
root-IsSafe = (cons-ne-nil _ _, (refl, (refl, (refl, (refl, (refl, (refl, (refl, tt))))))))

module _ (q : Bytes) (qs : List Bytes) (safe : All IsSafe (q ∷ qs)) where
  abbrev parts : List Bytes
  parts = codes "storely" ∷ q ∷ qs

  parts-IsSafe : All IsSafe parts
  parts-IsSafe = (root-IsSafe, safe)

  parts-IsName : All IsName parts
  parts-IsName = All-map IsSafe-IsName parts parts-IsSafe

  split-parts : split slash (join slash parts) ≡ parts
  split-parts = split-join slash parts (cons-ne-nil _ _) (All-map (λ p n. n.3) parts parts-IsName)

  begins : has_prefix (codes "storely/") (join slash parts) ≡ true
  unfolding join
  begins = has_prefix-append (codes "storely/") (join slash (q ∷ qs))

  has_no_double : contains (slash ∷ slash ∷ []) (join slash parts) ≡ false
  has_no_double =
      contains_of_parts slash [] tt (join slash parts)
        (rw split-parts (no_part [] parts (All-map (λ p n e. n.0 (sym e)) parts parts-IsName)))

  clean-parts : clean (join slash parts) ≡ join slash parts
  clean-parts = clean-join (codes "storely") (q ∷ qs) parts-IsName

  begins_with_s :
      (is_empty (join slash parts) ≡ false)
      × (has_prefix two_dots (join slash parts) ≡ false)
      × (same (join slash parts) one_dot ≡ false)
  unfolding join is_empty has_prefix same
  begins_with_s = (refl, refl, refl)

  accepted :
      (raw : Bytes)
      → HasKind (q ∷ qs)
      → trimmed raw ≡ join slash parts
      → validate raw ≡ ok (join slash parts)
  unfolding validate
  accepted raw kind e =
      let (a, b, c) = begins_with_s in
      let k =
        (check_kind_iff (join slash parts) (join slash parts)).1 (refl, rw split-parts kind) in
      rw
        (
          e,
          a,
          has_no_double,
          clean-parts,
          same_refl (join slash parts),
          b,
          c,
          begins,
          split-parts,
          not_bad_of_IsSafe parts parts-IsSafe,
        )
        k

validate_complete : (raw f : Bytes) → f ≡ trimmed raw → IsMediaFolder f → validate raw ≡ ok f
validate_complete raw f e ([], _, _, kind) = absurd kind
validate_complete raw f e (q ∷ qs, s, safe, kind) = rw s (accepted q qs safe raw kind (sym e ∙ s))

-- Validate returns f if and only if f is the given text with backslashes read as slashes and without
-- the slashes at its ends, and f is storely followed by elements made of ASCII letters, digits,
-- dashes and underscores, one of which is catalog, avatars, themes or admins.
pub validate_iff : (raw f : Bytes) → (validate raw ≡ ok f) ↔ ((f ≡ trimmed raw) × IsMediaFolder f)
validate_iff raw f = (validate_sound raw f, λ h. validate_complete raw f h.0 h.1)
