-- ===== src/Http/Uploads.antt =====
-- What an accepted upload is stored as.
use image_optimizer.Prelude.{
  codes, ◌≡◌, refl, ◌∙◌, ap, true, [], ◌∷◌, ◌++◌, arith, ◌⊎◌, inl, inr, ok,
}
use image_optimizer.Text.{
  Bytes, Unicode, slash, dot, to_lower, is_empty, trim_byte_prefix, contains, contains_any,
  has_prefix,
}
use image_optimizer.Text.Laws.{same_iff}
use image_optimizer.Text.Clean.{path_join}
use image_optimizer.Folder.{validate}
use image_optimizer.Storage.Keys.{original_key, validate_id, sanitize_ext}
use image_optimizer.Storage.Layout.{normalize_folder-validate}
use image_optimizer.Storage.Paths.{original_key_layout}
use image_optimizer.Http.ImageType.{jpeg, png, webp, is_web_p, named, detect_image_type}

-- A content type with the extension of its files.
abbrev pub IsImageType : Bytes → Bytes → Type 0
IsImageType ct ext =
    ((ct ≡ jpeg) × (ext ≡ codes "jpg"))
    ⊎ ((ct ≡ png) × (ext ≡ codes "png"))
    ⊎ ((ct ≡ webp) × (ext ≡ codes "webp"))

named-IsImageType : (s ct ext : Bytes) → named s ≡ ok (ct, ext) → IsImageType ct ext × (ct ≡ s)
unfolding named
named-IsImageType s ct ext h = ground (arith, same_iff s jpeg, same_iff s png, same_iff s webp)

-- Whatever the bytes and the declared type, what detectImageType returns is image/jpeg with jpg,
-- image/png with png or image/webp with webp; the type is the sniffed one, or the declared one, or
-- image/webp for bytes that isWebP accepts.
pub detect_image_type-IsImageType :
    (u : Unicode) (sniff : Bytes → Bytes) (bytes declared ct ext : Bytes)
    → detect_image_type u sniff bytes declared ≡ ok (ct, ext)
    → IsImageType ct ext
      × ((ct ≡ sniff bytes) ⊎ (ct ≡ declared) ⊎ ((ct ≡ webp) × (is_web_p bytes ≡ true)))
unfolding detect_image_type
detect_image_type-IsImageType u sniff bytes declared ct ext h = ground (
  arith,
  named-IsImageType (sniff bytes) ct ext,
  named-IsImageType declared ct ext,
  named-IsImageType webp ct ext,
)

sanitize_ext-IsImageType :
    (u : Unicode) (ct ext : Bytes) → IsImageType ct ext → sanitize_ext u ext ≡ ok ext
unfolding sanitize_ext to_lower is_empty trim_byte_prefix contains contains_any has_prefix
sanitize_ext-IsImageType u ct ext (inl (_, e)) = rw e refl
sanitize_ext-IsImageType u ct ext (inr (inl (_, e))) = rw e refl
sanitize_ext-IsImageType u ct ext (inr (inr (_, e))) = rw e refl

-- If Validate returned the folder, the identifier passes validateID and detectImageType returned a
-- type and an extension, then the checks of SaveOriginal pass, and its key is the folder, a slash,
-- the identifier, a dot and the extension.
pub detect_image_type-original_key :
    (u : Unicode) (sniff : Bytes → Bytes) (bytes declared raw folder id ct ext : Bytes)
    → validate raw ≡ ok folder
    → validate_id id ≡ ok tt
    → detect_image_type u sniff bytes declared ≡ ok (ct, ext)
    → original_key u folder id ext ≡ ok (folder ++ (slash ∷ (id ++ (dot ∷ ext))))
detect_image_type-original_key u sniff bytes declared raw folder id ct ext v i h =
    let clean =
      sanitize_ext-IsImageType u ct ext
        (detect_image_type-IsImageType u sniff bytes declared ct ext h).0 in
    let made : original_key u folder id ext ≡ ok (path_join (folder ∷ (id ++ (dot ∷ ext)) ∷ [])) =
      unfold original_key in rw (i, normalize_folder-validate raw folder v, clean) refl in
    let (clean_ext, b, key, normal) = original_key_layout u raw folder id ext _ v made in
    let same_ext : clean_ext ≡ ext = cc in
    made ∙ ap ok (key ∙ ap (λ x. folder ++ (slash ∷ (id ++ (dot ∷ x)))) same_ext)
