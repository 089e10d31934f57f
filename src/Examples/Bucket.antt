-- ===== src/Examples/Bucket.antt =====
-- A bucket that is a list of keys and objects, and is listed on one page.
use image_optimizer.Storage.Client.{
  put_object, Page, Storage, delete_image_files, write_variant, get,
}
use image_optimizer.Text.Split.{split, extend, join}
use image_optimizer.Text.Clean.{
  resolve_all, resolve, glue, clean_joined, back, path_join, elements, or_dot, clean,
}
use image_optimizer.Text.{
  to_lower, trim_byte_prefix, replace_byte, trim, contains_any, contains, trim_left, is_empty,
  Bytes, same, has_prefix,
}
use image_optimizer.Storage.Keys.{
  sanitize_ext, key_of, normalize_key, normalize_folder, variant_path, original_key, validate_id,
  validate_params_hash,
}
use image_optimizer.Folder.{check_kind, safe_segment, trimmed, validate}
use image_optimizer.Text.Regex.{match_string}
use image_optimizer.Prelude.{
  ℕ, codes, ◌≡◌, ◌≢◌, refl, sym, ◌∙◌, ap, subst, Bool, true, false, List, [], ◌∷◌, Option, none,
  some, any, if◌then◌else◌, arith, Error, errorf, Result, ok, err, Bool-cases, inl, inr,
}
use image_optimizer.Text.Laws.{same_iff, same_refl}
use image_optimizer.Storage.S3.{Objects, listed, IsS3, HasNoKeyErrors}
use image_optimizer.Storage.Files.{IsFileRemoval, delete_image_files-IsFileRemoval}
use image_optimizer.Storage.Contents.{get-write_variant}
use image_optimizer.Storage.Others.{delete_image_files-variant_path}

abbrev pub Bucket : Type 0
Bucket = List (Bytes × Bytes)

unfoldable pub lookup : Bucket → Objects
lookup [] j = none
lookup (o ∷ w) j = if same j o.0 then some o.1 else lookup w j

unfoldable pub remove : (Bytes → Bool) → Bucket → Bucket
remove p [] = []
remove p (o ∷ w) = let rest = remove p w in if p o.0 then rest else o ∷ rest

unfoldable pub keys : Bytes → Bucket → List (Option Bytes)
keys p [] = []
keys p (o ∷ w) = let rest = keys p w in if has_prefix p o.0 then some o.0 ∷ rest else rest

abbrev pub absent : Error
absent = errorf (codes "no such key")

unfoldable pub found : Option Bytes → Result (Bytes × Option ℕ)
found none = err absent
found (some v) = ok (v, none)

abbrev page : Bytes → Bucket → Page
page p w = record { contents = keys p w; is_truncated = some false; next_token = none }

abbrev pub storage : Storage Bucket
storage = record {
  client = record {
    head_bucket = λ b w. (none, w);
    create_bucket = λ b w. (none, w);
    put_object = λ b k v w. (ok tt, (k, v) ∷ w);
    get_object = λ b k w. (found (lookup w k), w);
    delete_object = λ b k w. (ok tt, remove (same k) w);
    list_objects = λ b p t w. (ok (page p w), w);
    delete_objects = λ b ks w. (ok tt, remove (λ k. any (same k) ks) w);
  };
  bucket = codes "media";
  ctx_err = λ w. none;
  quote = λ s. s;
  unicode = record { lower_text = λ s. s; trim_text = λ s. s };
}

lookup-remove :
    (p : Bytes → Bool) (w : Bucket) (j : Bytes) → p j ≡ true → lookup (remove p w) j ≡ none
unfolding lookup remove
lookup-remove p [] j h = refl
lookup-remove p (o ∷ w) j h = elim (Bool-cases (p o.0)) [
  | inl e ↦ rw e (lookup-remove p w j h)
  | inr e ↦ elim (Bool-cases (same j o.0)) [
    | inl q ↦ (let k = (same_iff j o.0).0 q in cc)
    | inr q ↦ rw (e, q) (lookup-remove p w j h)
  ]
]

lookup-remove_other :
    (p : Bytes → Bool) (w : Bucket) (j : Bytes) → p j ≡ false → lookup (remove p w) j ≡ lookup w j
unfolding lookup remove
lookup-remove_other p [] j h = refl
lookup-remove_other p (o ∷ w) j h = elim (Bool-cases (same j o.0)) [
  | inl q ↦
      let k = (same_iff j o.0).0 q in
      let e : p o.0 ≡ false = subst (λ x. p x ≡ false) k h in rw (e, q) refl
  | inr q ↦ elim (Bool-cases (p o.0)) [
    | inl e ↦ rw (e, q) (lookup-remove_other p w j h)
    | inr e ↦ rw (e, q) (lookup-remove_other p w j h)
  ]
]

lookup-remove-none :
    (p : Bytes → Bool) (w : Bucket) (j : Bytes) → lookup w j ≡ none → lookup (remove p w) j ≡ none
lookup-remove-none p w j h = elim (Bool-cases (p j)) [
  | inl e ↦ lookup-remove p w j e
  | inr e ↦ lookup-remove_other p w j e ∙ h
]

keys-prefix :
    (p : Bytes) (w : Bucket) (j : Bytes) → listed j (keys p w) ≡ true → has_prefix p j ≡ true
unfolding keys
keys-prefix p [] j h = cc
keys-prefix p (o ∷ w) j h = elim (Bool-cases (has_prefix p o.0)) [
  | inr e ↦ keys-prefix p w j (rw e at h)
  | inl e ↦ elim (Bool-cases (same j o.0)) [
    | inl q ↦ (let k = (same_iff j o.0).0 q in subst (λ x. has_prefix p x ≡ true) (sym k) e)
    | inr q ↦ keys-prefix p w j (rw (e, q) at h)
  ]
]

keys_complete :
    (p : Bytes) (w : Bucket) (j : Bytes)
    → has_prefix p j ≡ true
    → lookup w j ≢ none
    → listed j (keys p w) ≡ true
unfolding keys lookup
keys_complete p [] j h there = absurd (there refl)
keys_complete p (o ∷ w) j h there = elim (Bool-cases (same j o.0)) [
  | inl q ↦
      let k = (same_iff j o.0).0 q in
      let e : has_prefix p o.0 ≡ true = subst (λ x. has_prefix p x ≡ true) k h in rw (e, q) refl
  | inr q ↦
      let rest = keys_complete p w j h (rw q at there) in
      elim (Bool-cases (has_prefix p o.0)) [ inl e ↦ rw (e, q) rest | inr e ↦ rw e rest ]
]

found-some : (o : Option Bytes) (v : Bytes) (size : Option ℕ) → found o ≡ ok (v, size) → o ≡ some v
unfolding found
found-some none v size h = cc
found-some (some x) v size h =
    let k : Path (Bytes × Option ℕ) (x, none) (v, size) = cc in ap (λ p. some p.0) k

the_page :
    (p : Bytes) (w : Bucket) (q : Page) → Path (Result Page) (ok (page p w)) (ok q) → page p w ≡ q
the_page p w q h = cc

abbrev pub passed : Option Bytes → Bytes → Bool
passed t j = false

pub storage-IsS3 : IsS3 storage lookup passed (λ w t. 0)
unfolding lookup
storage-IsS3 = record {
  put_ok = λ k v w h. rw (same_refl k) refl;
  put_other = λ k v w j n. elim (Bool-cases (same j k)) [
    | inl e ↦ absurd (n ((same_iff j k).0 e))
    | inr e ↦ rw e refl
  ];
  get_ok = λ k v size w h. found-some (lookup w k) v size h;
  get_keeps = λ k w j. refl;
  delete_ok = λ k w h. lookup-remove (same k) w k (same_refl k);
  delete_other = λ k w j n. elim (Bool-cases (same k j)) [
    | inl e ↦ absurd (n (sym ((same_iff k j).0 e)))
    | inr e ↦ lookup-remove_other (same k) w j e
  ];
  delete_left = λ k w t. omega arith;
  deletes_other = λ ks w j h. lookup-remove_other (λ k. any (same k) ks) w j h;
  deletes_none = λ ks w j h. lookup-remove-none (λ k. any (same k) ks) w j h;
  deletes_left = λ ks w t. omega arith;
  list_keeps = λ p t w j. refl;
  list_prefix = λ p t w q j e h.
      let h' = subst (λ x. listed j x.contents ≡ true) (sym (the_page p w q e)) h in
      keys-prefix p w j h';
  list_complete = λ p t w q j e h n there.
      inl
        (subst (λ x. listed j x.contents ≡ true) (the_page p w q e) (keys_complete p w j h there));
  list_next = λ p t w q e h. let h' = ap (λ (x : Page). x.is_truncated) (the_page p w q e) in cc;
  list_start = λ j. refl;
}

pub no_key_errors : HasNoKeyErrors storage lookup
no_key_errors = λ ks w j h m. lookup-remove (λ k. any (same k) ks) w j m

abbrev first_variant : Bytes
first_variant = codes "variants/1/aa.avif"

abbrev second_variant : Bytes
second_variant = codes "variants/2/bb.avif"

abbrev original : Bytes
original = codes "storely/1/catalog/1.png"

abbrev objects : Bucket
objects = (first_variant, codes "x") ∷ (second_variant, codes "y") ∷ (original, codes "z") ∷ []

delete_image_files-IsFileRemoval_example :
    (r : Result (Unit {0})) × (w' : Bucket) × (delete_image_files storage 1
        (codes "1")
        original
        objects
      ≡ some (r, w'))
    × IsFileRemoval storage lookup passed
        (λ w t. 0)
        storage-IsS3
        (codes "1")
        original
        (lookup objects)
        r
        (lookup w')
delete_image_files-IsFileRemoval_example =
    delete_image_files-IsFileRemoval storage lookup passed (λ w t. 0) storage-IsS3 no_key_errors 1
      (codes "1") original objects (omega arith)

folder_accepted : validate (codes "storely/1/catalog") ≡ ok (codes "storely/1/catalog")
unfolding validate is_empty trimmed trim_left contains same clean or_dot join elements safe_segment
    match_string check_kind
folder_accepted = refl

key_accepted :
    original_key storage.unicode (codes "storely/1/catalog") (codes "1") (codes "png") ≡ ok original
unfolding original_key validate_id is_empty contains_any contains normalize_folder trim trim_left
    replace_byte normalize_key key_of trim_byte_prefix clean join elements sanitize_ext to_lower
    path_join back clean_joined glue or_dot resolve resolve_all extend split has_prefix same
key_accepted = refl

id_accepted : validate_id (codes "1") ≡ ok tt
unfolding validate_id is_empty contains_any contains
id_accepted = refl

other_accepted : validate_id (codes "2") ≡ ok tt
unfolding validate_id is_empty contains_any contains
other_accepted = refl

hash_accepted : validate_params_hash (codes "bb") ≡ ok tt
unfolding validate_params_hash is_empty contains_any contains
hash_accepted = refl

two_images : codes "1" ≢ codes "2"
unfolding same
two_images e = let h = (same_iff (codes "1") (codes "2")).1 e in cc

delete_image_files-variant_path_example :
    (r : Result (Unit {0})) × (w' : Bucket) × (delete_image_files storage 1
        (codes "1")
        original
        objects
      ≡ some (r, w'))
    × (lookup w' (variant_path (codes "2") (codes "bb"))
        ≡ lookup objects (variant_path (codes "2") (codes "bb")))
delete_image_files-variant_path_example =
    delete_image_files-variant_path storage.unicode (codes "storely/1/catalog")
      (codes "storely/1/catalog") (codes "1") (codes "png") original folder_accepted key_accepted
      storage lookup passed (λ w t. 0) storage-IsS3 no_key_errors 1 (codes "2") (codes "bb") objects
      (omega arith) id_accepted other_accepted hash_accepted two_images

written :
    write_variant storage (codes "2") (codes "bb") (codes "v") objects
    ≡ (ok second_variant, (second_variant, codes "v") ∷ objects)
unfolding write_variant validate_id is_empty contains_any contains validate_params_hash put_object
    variant_path path_join clean_joined glue clean or_dot join elements
written = refl

read :
    get storage second_variant ((second_variant, codes "v") ∷ objects)
    ≡ (ok (codes "v", none), (second_variant, codes "v") ∷ objects)
unfolding get normalize_key is_empty key_of trim_byte_prefix clean has_prefix join elements
    replace_byte contains found lookup
read = refl

get-write_variant_example : codes "v" ≡ codes "v"
get-write_variant_example =
    get-write_variant storage lookup passed (λ w t. 0) storage-IsS3 (codes "2") (codes "bb")
      (codes "v") second_variant (codes "v") none objects ((second_variant, codes "v") ∷ objects)
      ((second_variant, codes "v") ∷ objects) written read
