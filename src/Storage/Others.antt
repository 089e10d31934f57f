-- ===== src/Storage/Others.antt =====
-- The variants of other images, when the files of one are deleted.
use image_optimizer.Prelude.{
  ℕ, codes, ◌≡◌, ◌≢◌, ◌<◌, inl, inr, refl, ◌∙◌, ap, Bool, true, false, List, [], ◌∷◌, ◌++◌, Option,
  none, some, arith, Result, ok, Bool-cases, All-map, subst,
}
use image_optimizer.Text.{Bytes, same, has_prefix, slash, Lacks, Unicode, dot}
use image_optimizer.Text.Split.{join}
use image_optimizer.Folder.{validate}
use image_optimizer.Folder.Laws.{validate_sound}
use image_optimizer.Storage.Keys.{
  validate_id, validate_params_hash, variant_path, original_key, normalize_key,
}
use image_optimizer.Storage.Checks.{validate_id_iff}
use image_optimizer.Storage.Layout.{root}
use image_optimizer.Storage.Paths.{variant_path_layout, original_key_layout}
use image_optimizer.Storage.Client.{Storage, variants_prefix, delete_image_files}
use image_optimizer.Storage.S3.{Objects, IsS3, HasNoKeyErrors}
use image_optimizer.Storage.Files.{
  is_original, is_target, names, variants_prefix-text, delete_image_files-IsFileRemoval,
}

-- Two first elements of which one is a prefix of the other are the same.
same_element :
    (p q t : Bytes)
    → Lacks slash p
    → Lacks slash q
    → has_prefix (p ++ (slash ∷ [])) (q ++ (slash ∷ t)) ≡ true
    → p ≡ q
unfolding has_prefix
same_element [] [] t hp hq h = refl
same_element [] (d ∷ q) t hp (n, hq) h = absurd (n (ground arith))
same_element (c ∷ p) [] t (n, hp) hq h = absurd (n (ground arith))
same_element (c ∷ p) (d ∷ q) t (m, hp) (n, hq) h =
    let rest = same_element p q t hp hq (ground arith) in let first : c ≡ d = ground arith in cc

id-Lacks : (id : Bytes) → validate_id id ≡ ok tt → Lacks slash id
id-Lacks id v = All-map (λ c e. ground arith) id ((validate_id_iff id).0 v).1

prefix_of_variant :
    (id id' h : Bytes)
    → validate_id id ≡ ok tt
    → validate_id id' ≡ ok tt
    → validate_params_hash h ≡ ok tt
    → has_prefix (variants_prefix id) (variant_path id' h) ≡ true
    → id ≡ id'
unfolding has_prefix
prefix_of_variant id id' h v v' b e =
    let text = variants_prefix-text id v in
    let path = (variant_path_layout id' h v' b).0 in
    same_element id id' (h ++ codes ".avif") (id-Lacks id v) (id-Lacks id' v')
      (rw (text, path) at e)

-- A folder begins with an s.
folder_head :
    (folder : Bytes) (rest : List Bytes)
    → folder ≡ join slash (root ∷ rest)
    → (t : Bytes) × (folder ≡ b's' ∷ t)
unfolding join
folder_head folder [] e = (codes "torely", e)
folder_head folder (q ∷ qs) e = (codes "torely" ++ (slash ∷ join slash (q ∷ qs)), e)

module _ (u : Unicode) (raw folder id ext original : Bytes) (v : validate raw ≡ ok folder)
    (named : original_key u folder id ext ≡ ok original) where
  pub original_head : (t : Bytes) × (original ≡ b's' ∷ t)
  original_head =
      let (same_folder, (rest, whole, safe, kind)) = validate_sound raw folder v in
      let (t, e) = folder_head folder rest whole in
      let (clean_ext, a, key, normal) = original_key_layout u raw folder id ext original v named in
      (
        t ++ (slash ∷ (id ++ (dot ∷ clean_ext))),
        key ∙ ap (λ f. f ++ (slash ∷ (id ++ (dot ∷ clean_ext)))) e,
      )

  not_original :
      (id' h : Bytes)
      → validate_id id' ≡ ok tt
      → validate_params_hash h ≡ ok tt
      → is_original original (variant_path id' h) ≡ false
  unfolding same
  not_original id' h v' b =
      let (t, e) = original_head in
      let (clean_ext, a, key, normal) = original_key_layout u raw folder id ext original v named in
      let normal' : normalize_key (b's' ∷ t) ≡ ok (b's' ∷ t) =
        subst (λ k. normalize_key k ≡ ok k) e normal in
      let path = (variant_path_layout id' h v' b).0 in
      rw (e, path)
        (ap (λ r. names r (codes "variants/" ++ (id' ++ (slash ∷ (h ++ codes ".avif"))))) normal')

  not_target :
      (id' h : Bytes)
      → validate_id id ≡ ok tt
      → validate_id id' ≡ ok tt
      → validate_params_hash h ≡ ok tt
      → id ≢ id'
      → is_target id original (variant_path id' h) ≡ false
  not_target id' h valid v' b n =
      elim (Bool-cases (has_prefix (variants_prefix id) (variant_path id' h))) [
        | inl e ↦ absurd (n (prefix_of_variant id id' h valid v' b e))
        | inr e ↦ rw (e, not_original id' h v' b) refl
      ]

  -- Under the conditions on S3, the fuel and the failed keys, DeleteImageFiles of an image whose
  -- original SaveOriginal has named ends and leaves the variants of every image with another valid
  -- identifier as they are.
  pub delete_image_files-variant_path :
      {W : Type 0} (s : Storage W) (view : W → Objects) (passed : Option Bytes → Bytes → Bool)
      (left : W → Option Bytes → ℕ) (s3 : IsS3 s view passed left) (clean : HasNoKeyErrors s view)
      (fuel : ℕ) (id' h : Bytes) (w : W)
      → left w none < fuel
      → validate_id id ≡ ok tt
      → validate_id id' ≡ ok tt
      → validate_params_hash h ≡ ok tt
      → id ≢ id'
      → (r : Result (Unit {0})) × (w' : W) × (delete_image_files s fuel id original w
          ≡ some (r, w'))
        × (view w' (variant_path id' h) ≡ view w (variant_path id' h))
  delete_image_files-variant_path s view passed left s3 clean fuel id' h w enough valid v' b n =
      let (r, w', e, f) =
        delete_image_files-IsFileRemoval s view passed left s3 clean fuel id original w enough in
      (r, w', e, f.other (variant_path id' h) (not_target id' h valid v' b n))
