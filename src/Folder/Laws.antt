-- ===== src/Folder/Laws.antt =====
-- Which folders Validate accepts.
use image_optimizer.Prelude.{
  codes, ◌≡◌, ◌↔◌, refl, Bool, true, false, not, ◌||◌, List, [], ◌∷◌, arith, any, All, sym, ◌∙◌, ap,
  subst, ok,
}
use image_optimizer.Text.{Bytes, is_empty, has_prefix, slash}
use image_optimizer.Text.Split.{split, join, split-append, join-split}
use image_optimizer.Text.Contains.{rest_of, eq_of_has_prefix}
use image_optimizer.Folder.{safe_segment, trimmed, check_kind, validate}
use image_optimizer.Folder.Segments.{IsSafe, safe_segment_iff}
use image_optimizer.Folder.Kinds.{HasKind, HasKind-any, any_of_HasKind, layouts-HasKind}

-- The folders below storely whose elements are safe and one of which is a media kind.
abbrev pub IsMediaFolder : Bytes → Type 0
IsMediaFolder f =
    (rest : List Bytes) × (f ≡ join slash (codes "storely" ∷ rest)) × All IsSafe rest × HasKind rest

pub check_kind_iff :
    (f g : Bytes) → (check_kind f ≡ ok g) ↔ ((g ≡ f) × HasKind (rest_of (split slash f)))
unfolding check_kind
check_kind_iff f g = ground (
  arith,
  layouts-HasKind f,
  HasKind-any (rest_of (split slash f)),
  any_of_HasKind (rest_of (split slash f)),
)

abbrev pub is_bad : Bytes → Bool
is_bad p = is_empty p || not (safe_segment p)

IsSafe-of_not_bad : (ps : List Bytes) → any is_bad ps ≡ false → All IsSafe ps
IsSafe-of_not_bad [] h = tt
IsSafe-of_not_bad (p ∷ ps) h =
    ((safe_segment_iff p).0 (ground arith), IsSafe-of_not_bad ps (ground arith))

pub not_bad_of_IsSafe : (ps : List Bytes) → All IsSafe ps → any is_bad ps ≡ false
unfolding is_empty
not_bad_of_IsSafe [] h = refl
not_bad_of_IsSafe ([] ∷ ps) (s, h) = absurd (s.0 refl)
not_bad_of_IsSafe ((c ∷ p) ∷ ps) (s, h) =
    ground (arith, (safe_segment_iff (c ∷ p)).1 s, not_bad_of_IsSafe ps h)

-- The checks that a successful call has passed.
passed :
    (raw f : Bytes)
    → validate raw ≡ ok f
    → (has_prefix (codes "storely/") (trimmed raw) ≡ true)
      × (any is_bad (split slash (trimmed raw)) ≡ false)
      × (check_kind (trimmed raw) ≡ ok f)
unfolding validate
passed raw f h = ground arith

below_root :
    (f : Bytes)
    → has_prefix (codes "storely/") f ≡ true
    → split slash f ≡ codes "storely" ∷ rest_of (split slash f)
below_root f h =
    let (t, e) = eq_of_has_prefix (codes "storely/") f h in
    rw (e, split-append slash (codes "storely") t (omega arith)) refl

pub validate_sound : (raw f : Bytes) → validate raw ≡ ok f → (f ≡ trimmed raw) × IsMediaFolder f
validate_sound raw f h =
    let (root, safe, kind) = passed raw f h in
    let (same_folder, has_kind) = (check_kind_iff (trimmed raw) f).0 kind in
    let parts = below_root (trimmed raw) root in
    let safe_parts =
      subst (All IsSafe) parts (IsSafe-of_not_bad (split slash (trimmed raw)) safe) in
    (
      same_folder,
      (
        rest_of (split slash (trimmed raw)),
        same_folder ∙ sym (join-split slash (trimmed raw)) ∙ ap (join slash) parts,
        safe_parts.1,
        has_kind,
      ),
    )
