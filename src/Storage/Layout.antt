-- ===== src/Storage/Layout.antt =====
-- The layout of the bucket: {folder}/{id}.{ext} and variants/{id}/{params_hash}.avif.
use mathlib.Core.List.{cons-ne-nil}
use image_optimizer.Prelude.{
  ℕ, codes, ◌≡◌, ◌≢◌, refl, sym, ◌∙◌, ap, subst, false, List, [], ◌∷◌, arith, All, All-map, ok,
  ◌==◌,
}
use image_optimizer.Text.{
  Bytes, is_empty, has_prefix, contains, replace_byte, trim, slash, backslash, dot, Lacks,
}
use image_optimizer.Text.Split.{join, split-join}
use image_optimizer.Text.Clean.{two_dots}
use image_optimizer.Text.Elements.{IsName}
use image_optimizer.Text.Join.{contains_of_Lacks}
use image_optimizer.Text.Trim.{trim-replace_idem}
use image_optimizer.Folder.{is_safe_byte, trimmed, validate}
use image_optimizer.Folder.Segments.{IsSafe, IsSafe-IsName}
use image_optimizer.Folder.Laws.{validate_sound}
use image_optimizer.Storage.Keys.{normalize_folder}
use image_optimizer.Storage.Normal.{IsKey, join-All, normalize_key_of_IsKey}

abbrev pub root : Bytes
root = codes "storely"

-- A path of names without backslashes below a first element that does not begin with a dot.
pub join-IsKey :
    (c : ℕ) (p : Bytes) (ps : List Bytes)
    → c ≢ dot
    → All IsName ((c ∷ p) ∷ ps)
    → All (Lacks backslash) ((c ∷ p) ∷ ps)
    → IsKey (join slash ((c ∷ p) ∷ ps))
join-IsKey c p ps n names flat = (
  rw (split-join slash ((c ∷ p) ∷ ps) (cons-ne-nil _ _) (All-map (λ q h. h.3) ((c ∷ p) ∷ ps) names))
      names,
  join-All (λ b. b ≢ backslash) ((c ∷ p) ∷ ps) (omega arith) flat,
  starts ps,
)
  where
    starts : (ps : List Bytes) → has_prefix two_dots (join slash ((c ∷ p) ∷ ps)) ≡ false
    starts [] = unfold join has_prefix in ground arith
    starts (q ∷ qs) = unfold join has_prefix in ground arith

safe-Lacks : (b : ℕ) (p : Bytes) → is_safe_byte b ≡ false → IsSafe p → Lacks b p
safe-Lacks b p e h = All-map (λ c f. ground arith) p h.1

root-IsSafe : IsSafe root
root-IsSafe = (cons-ne-nil _ _, (refl, (refl, (refl, (refl, (refl, (refl, (refl, tt))))))))

module _ (rest : List Bytes) (safe : All IsSafe rest) where
  pub folder-names : All IsName (root ∷ rest)
  folder-names = (IsSafe-IsName root root-IsSafe, All-map IsSafe-IsName rest safe)

  pub folder-Lacks : (b : ℕ) → is_safe_byte b ≡ false → All (Lacks b) (root ∷ rest)
  folder-Lacks b e =
      (safe-Lacks b root e root-IsSafe, All-map (λ p s. safe-Lacks b p e s) rest safe)

  folder-IsKey : IsKey (join slash (root ∷ rest))
  folder-IsKey =
      join-IsKey b's' (codes "torely") rest (omega arith) folder-names (folder-Lacks backslash refl)

  no_dots : contains two_dots (join slash (root ∷ rest)) ≡ false
  no_dots =
      contains_of_Lacks dot (dot ∷ []) (join slash (root ∷ rest))
        (join-All (λ b. b ≢ dot) (root ∷ rest) (omega arith) (folder-Lacks dot refl))

  folder_not_empty : is_empty (join slash (root ∷ rest)) ≡ false
  folder_not_empty = go rest
    where
      go : (ps : List Bytes) → is_empty (join slash (root ∷ ps)) ≡ false
      go [] = unfold join is_empty in refl
      go (q ∷ qs) = unfold join is_empty in refl

-- A folder that Validate returned is returned by normalizeFolder of the storage unchanged.
pub normalize_folder-validate :
    (raw folder : Bytes) → validate raw ≡ ok folder → normalize_folder folder ≡ ok folder
unfolding normalize_folder
normalize_folder-validate raw folder h =
    let (e, (rest, whole, safe, kind)) = validate_sound raw folder h in
    let tight : trim (λ c. c == slash) (replace_byte backslash slash folder) ≡ folder =
      ap (λ f. trim (λ c. c == slash) (replace_byte backslash slash f)) e
      ∙ unfold trimmed in
        (trim-replace_idem (λ c. c == slash) backslash slash raw (omega arith) ∙ sym e) in
    rw
      (
        tight,
        subst (λ f. is_empty f ≡ false) (sym whole) (folder_not_empty rest safe),
        subst (λ f. contains two_dots f ≡ false) (sym whole) (no_dots rest safe),
        normalize_key_of_IsKey folder (subst IsKey (sym whole) (folder-IsKey rest safe)),
      )
      refl
