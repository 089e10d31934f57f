-- ===== src/Storage/Paths.antt =====
-- The keys of originals and of variants.
use mathlib.Core.List.{cons-ne-nil, cons-eq-cons, append_cancel_right}
use image_optimizer.Prelude.{
  codes, ◌≡◌, refl, sym, ◌∙◌, ap, subst, List, [], ◌∷◌, ◌++◌, arith, All, All-map, All-append,
  append-nil, ok, inl, inr, Result-cases,
}
use image_optimizer.Text.{
  Bytes, is_empty, contains, contains_any, has_prefix, slash, backslash, dot, Lacks, Unicode,
}
use image_optimizer.Text.Split.{split, join, split-join}
use image_optimizer.Text.Clean.{path_join}
use image_optimizer.Text.Elements.{IsName}
use image_optimizer.Text.Join.{path_join-names, slashed, join-append}
use image_optimizer.Folder.{validate}
use image_optimizer.Folder.Segments.{IsSafe}
use image_optimizer.Folder.Laws.{validate_sound}
use image_optimizer.Storage.Keys.{
  normalize_folder, normalize_key, validate_id, validate_params_hash, sanitize_ext, variant_path,
  original_key, is_id_byte, is_hex_byte, is_ext_byte,
}
use image_optimizer.Storage.Checks.{
  IsRun, validate_id_iff, validate_params_hash_iff, sanitize_ext_sound, file-IsName, id-IsName,
}
use image_optimizer.Storage.Normal.{IsKey, normalize_key_of_IsKey}
use image_optimizer.Storage.Layout.{
  root, folder-names, folder-Lacks, join-IsKey, normalize_folder-validate,
}

-- The elements of a variant's path.
abbrev pub variant_parts : Bytes → Bytes → List Bytes
variant_parts id h = codes "variants" ∷ id ∷ (h ++ codes ".avif") ∷ []

hash-IsName : (h : Bytes) → IsRun is_hex_byte h → IsName (h ++ codes ".avif")
hash-IsName h (n, r) =
    file-IsName h (codes "avif") (n, All-map (λ c e. ground arith) h r) (omega arith)

accepted : validate_id (codes "variants") ≡ ok tt
unfolding validate_id is_empty contains contains_any has_prefix
accepted = refl

pub variants-IsName : IsName (codes "variants")
variants-IsName = id-IsName (codes "variants") ((validate_id_iff (codes "variants")).0 accepted)

module _ (id h : Bytes) (i : IsRun is_id_byte id) (r : IsRun is_hex_byte h) where
  parts-IsName : All IsName (variant_parts id h)
  parts-IsName = (variants-IsName, (id-IsName id i, (hash-IsName h r, tt)))

  variant_path-join : variant_path id h ≡ join slash (variant_parts id h)
  unfolding variant_path join
  variant_path-join =
      path_join-names (codes "variants") [] (id ∷ (h ++ codes ".avif") ∷ []) parts-IsName

  variant_path-split : split slash (variant_path id h) ≡ variant_parts id h
  variant_path-split =
      ap (split slash) variant_path-join
      ∙ split-join slash (variant_parts id h) (cons-ne-nil _ _)
          (All-map (λ p (n : IsName p). n.3) (variant_parts id h) parts-IsName)

  parts-Lacks : All (Lacks backslash) (variant_parts id h)
  parts-Lacks = (
    omega arith,
    (
      All-map (λ c e. ground arith) id i.1,
      (All-append _ h (codes ".avif") (All-map (λ c e. ground arith) h r.1) (omega arith), tt),
    ),
  )

  variant_path-IsKey : IsKey (variant_path id h)
  variant_path-IsKey = subst IsKey (sym variant_path-join) (
      join-IsKey b'v' (codes "ariants") (id ∷ (h ++ codes ".avif") ∷ []) (omega arith) parts-IsName
        parts-Lacks)

-- For an identifier that passes validateID and a hash that passes validateParamsHash, VariantPath is
-- variants/, the identifier, a slash, the hash and .avif; and normalizeKey returns it unchanged.
pub variant_path_layout :
    (id h : Bytes)
    → validate_id id ≡ ok tt
    → validate_params_hash h ≡ ok tt
    → (variant_path id h ≡ codes "variants/" ++ (id ++ (slash ∷ (h ++ codes ".avif"))))
      × (normalize_key (variant_path id h) ≡ ok (variant_path id h))
variant_path_layout id h a b =
    let i = (validate_id_iff id).0 a in
    let r = (validate_params_hash_iff h).0 b in
    (
      variant_path-join id h i r ∙ unfold join in refl,
      normalize_key_of_IsKey (variant_path id h) (variant_path-IsKey id h i r),
    )

-- Two variants whose identifiers pass validateID and whose hashes pass validateParamsHash have the
-- same path only if they have the same identifier and the same hash.
pub variant_path-injective :
    (id h id' h' : Bytes)
    → validate_id id ≡ ok tt
    → validate_params_hash h ≡ ok tt
    → validate_id id' ≡ ok tt
    → validate_params_hash h' ≡ ok tt
    → variant_path id h ≡ variant_path id' h'
    → (id ≡ id') × (h ≡ h')
variant_path-injective id h id' h' a b a' b' e =
    let same_parts : variant_parts id h ≡ variant_parts id' h' =
      sym (variant_path-split id h ((validate_id_iff id).0 a) ((validate_params_hash_iff h).0 b))
      ∙ ap (split slash) e
      ∙ variant_path-split id' h' ((validate_id_iff id').0 a')
          ((validate_params_hash_iff h').0 b') in
    let rest = (cons-eq-cons.0 same_parts).1 in
    let (same_id, last) = cons-eq-cons.0 rest in
    (same_id, append_cancel_right h h' (codes ".avif") (cons-eq-cons.0 last).0)

-- What SaveOriginal's checks let through.
original_key-checks :
    (u : Unicode) (folder id ext key : Bytes)
    → normalize_folder folder ≡ ok folder
    → original_key u folder id ext ≡ ok key
    → (clean_ext : Bytes) × (validate_id id ≡ ok tt)
      × (sanitize_ext u ext ≡ ok clean_ext)
      × (key ≡ path_join (folder ∷ (id ++ (dot ∷ clean_ext)) ∷ []))
unfolding original_key
original_key-checks u folder id ext key n h = elim (Result-cases (validate_id id)) [
  | inl (t, a) ↦ elim (Result-cases (sanitize_ext u ext)) [
    | inl (e, b) ↦ (e, a, b, (let k = rw (a, n, b) at h in cc))
    | inr (x, b) ↦ (let k = rw (a, n, b) at h in cc)
  ]
  | inr (x, a) ↦ (let k = rw (a) at h in cc)
]

module _ (rest : List Bytes) (safe : All IsSafe rest) (id ext : Bytes) (i : IsRun is_id_byte id)
    (x : IsRun is_ext_byte ext) where
  abbrev file : List Bytes
  file = (id ++ (dot ∷ ext)) ∷ []

  stem-IsName : IsName (id ++ (dot ∷ ext))
  stem-IsName = file-IsName id ext i (All-map (λ c e. ground arith) ext x.1)

  file-flat : Lacks backslash (id ++ (dot ∷ ext))
  file-flat =
      All-append _ id (dot ∷ ext) (All-map (λ c e. ground arith) id i.1)
        (ground arith, All-map (λ c e. ground arith) ext x.1)

  original-names : All IsName (root ∷ (rest ++ file))
  original-names = All-append IsName (root ∷ rest) file (folder-names rest safe) (stem-IsName, tt)

  original-flat : All (Lacks backslash) (root ∷ (rest ++ file))
  original-flat =
      All-append (Lacks backslash) (root ∷ rest) file (folder-Lacks rest safe backslash refl)
        (file-flat, tt)

  original-IsKey : IsKey (join slash (root ∷ (rest ++ file)))
  original-IsKey =
      join-IsKey b's' (codes "torely") (rest ++ file) (omega arith) original-names original-flat

  original-joined : path_join (join slash (root ∷ rest) ∷ file) ≡ join slash (root ∷ (rest ++ file))
  original-joined = path_join-names root rest file original-names

  original-text :
      join slash (root ∷ (rest ++ file)) ≡ join slash (root ∷ rest) ++ (slash ∷ (id ++ (dot ∷ ext)))
  unfolding slashed
  original-text = join-append root rest file ∙ simp (append-nil)

-- If Validate returned the folder and the checks of SaveOriginal pass, its key is the folder, a
-- slash, the identifier, a dot and the extension as sanitizeExt returns it; and normalizeKey,
-- through which every later read goes, returns that key unchanged.
pub original_key_layout :
    (u : Unicode) (raw folder id ext key : Bytes)
    → validate raw ≡ ok folder
    → original_key u folder id ext ≡ ok key
    → (clean_ext : Bytes) × (sanitize_ext u ext ≡ ok clean_ext)
      × (key ≡ folder ++ (slash ∷ (id ++ (dot ∷ clean_ext))))
      × (normalize_key key ≡ ok key)
original_key_layout u raw folder id ext key v h =
    let (e, (rest, whole, safe, kind)) = validate_sound raw folder v in
    let (clean_ext, a, b, k) =
      original_key-checks u folder id ext key (normalize_folder-validate raw folder v) h in
    let i = (validate_id_iff id).0 a in
    let x = sanitize_ext_sound u ext clean_ext b in
    let joined = k ∙ rw whole (original-joined rest safe id clean_ext i x) in
    (
      clean_ext,
      b,
      joined ∙ rw whole (original-text rest safe id clean_ext i x),
      rw joined (normalize_key_of_IsKey _ (original-IsKey rest safe id clean_ext i x)),
    )
