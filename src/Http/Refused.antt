-- ===== src/Http/Refused.antt =====
-- What an upload leaves behind when it is refused, and what an accepted one has passed.
use image_optimizer.Prelude.{
  ℕ, ◌^◌, zero, suc, ◌≡◌, ◌∙◌, ◌≤◌, refl, ap, false, [], ◌∷◌, arith, ◌⊎◌, inl, inr, Option, none,
  some, Result, ok, err, ltb, length, take, Bool-cases, Result-cases,
}
use image_optimizer.Text.{Bytes, is_empty}
use image_optimizer.Folder.{validate}
use image_optimizer.Db.{Uuid, Image}
use image_optimizer.Http.{Handler}
use image_optimizer.Http.Serve.{Response}
use image_optimizer.Http.ImageType.{detect_image_type}
use image_optimizer.Http.Upload.{
  Form, too_large, invalid, form, FormFile, inserted, saved, save_new, typed, upload_read,
  upload_content, upload_file, upload_folder, handle_upload, read_limit,
}

abbrev pub IsRefusal : ℕ → Type 0
IsRefusal status = (status ≡ 400) ⊎ (status ≡ 413)

abbrev pub IsServerStatus : ℕ → Type 0
IsServerStatus status = (status ≡ 201) ⊎ (status ≡ 500)

pub filled : (s : Bytes) → is_empty s ≡ false → 1 ≤ length s
unfolding is_empty
filled [] e = cc
filled (c ∷ s) e = omega arith

-- A cut that is no longer than the limit has cut nothing.
take-suc : (n : ℕ) (s : Bytes) → length (take (suc n) s) ≤ n → take (suc n) s ≡ s
take-suc zero [] e = refl
take-suc zero (c ∷ s) e = absurd (omega arith)
take-suc (suc n) [] e = refl
take-suc (suc n) (c ∷ s) e = ap (λ t. c ∷ t) (take-suc n s (omega arith))

pub take_whole :
    (n : ℕ) (s : Bytes)
    → 1 ≤ length (take (read_limit n) s)
    → length (take (read_limit n) s) ≤ n
    → take (read_limit n) s ≡ s
unfolding read_limit
take_whole n s low high = elim (Bool-cases (ltb (suc n) (2 ^ 63))) [
  | inl e ↦ rw e (take-suc n s (rw e at high))
  | inr e ↦ absurd (let k = rw e at low in omega arith)
]

module _ {W : Type 0} (h : Handler W) (new_uuid : W → Uuid × W) where
  inserted_status :
      (id : Uuid) (rel : Bytes) (p : Result Image × W)
      → IsServerStatus (inserted h new_uuid id rel p).0.status
  unfolding inserted
  inserted_status id rel (ok img, w) = inl refl
  inserted_status id rel (err e, w) = inr refl

  saved_status :
      (id : Uuid) (ct : Bytes) (n : ℕ) (p : Result Bytes × W)
      → IsServerStatus (saved h new_uuid id ct n p).0.status
  unfolding saved
  saved_status id ct n (ok rel, w) = inserted_status id rel (h.gen.db.insert_image id rel ct n w)
  saved_status id ct n (err e, w) = inr refl

  save_new_status :
      (folder ct ext bytes : Bytes) (p : Uuid × W)
      → IsServerStatus (save_new h new_uuid folder ct ext bytes p).0.status
  unfolding save_new
  save_new_status folder ct ext bytes (id, w) = saved_status id ct (length bytes) _

  module _ (sniff : Bytes → Bytes) where
    -- An answer that refuses and leaves the world, or the end of a request that has passed the checks.
    abbrev pub IsSettled : (Bytes → Bytes → Bytes → Type 0) → W → Response × W → Type 0
    IsSettled Passed w r =
        (IsRefusal r.0.status × (r.1 ≡ w))
        ⊎ ((folder : Bytes) × (declared : Bytes) × (bytes : Bytes) × Passed folder declared bytes
            × (1 ≤ length bytes)
            × (length bytes ≤ h.max_upload_bytes)
            × ((t : Bytes × Bytes) × (detect_image_type h.gen.unicode sniff bytes declared ≡ ok t)
                × (r ≡ save_new h new_uuid folder t.0 t.1 bytes (new_uuid w))
                × IsServerStatus r.0.status))

    upload_read-IsSettled :
        (Passed : Bytes → Bytes → Bytes → Type 0) (folder declared bytes : Bytes) (w : W)
        → Passed folder declared bytes
        → IsSettled Passed w (upload_read h new_uuid sniff folder declared bytes w)
    unfolding upload_read typed
    upload_read-IsSettled Passed folder declared bytes w passed =
        elim (Bool-cases (ltb h.max_upload_bytes (length bytes))) [
          | inl large ↦ rw large (inl (inr refl, refl))
          | inr small ↦ elim (Bool-cases (is_empty bytes)) [
            | inl none_there ↦ rw (small, none_there) (inl (inl refl, refl))
            | inr some_there ↦
                elim (Result-cases (detect_image_type h.gen.unicode sniff bytes declared)) [
                  | inl (t, e) ↦
                      rw (small, some_there, e)
                        (inr (
                          folder,
                          declared,
                          bytes,
                          passed,
                          filled bytes some_there,
                          ground arith,
                          (t, e, refl, save_new_status folder t.0 t.1 bytes (new_uuid w)),
                        ))
                  | inr (x, e) ↦ rw (small, some_there, e) (inl (inl refl, refl))
                ]
          ]
        ]

    IsSettled-map :
        (Q Q' : Bytes → Bytes → Bytes → Type 0) (w : W) (r : Response × W)
        → ((folder declared bytes : Bytes)
            → Q folder declared bytes
            → 1 ≤ length bytes
            → length bytes ≤ h.max_upload_bytes
            → Q' folder declared bytes)
        → IsSettled Q w r
        → IsSettled Q' w r
    IsSettled-map Q Q' w r k (inl refused) = inl refused
    IsSettled-map Q Q' w r k (inr (folder, declared, bytes, q, low, high, rest)) =
        inr (folder, declared, bytes, k folder declared bytes q low high, low, high, rest)

    -- The form has the folder and the file, and Validate has returned `folder`.
    abbrev pub IsFormOf : Form → Bytes → Bytes → Bytes → Type 0
    IsFormOf f folder declared bytes =
        (raw : Bytes) × (validate raw ≡ ok folder)
        × (f ≡ form raw (some (record { declared = declared; content = some bytes })))

    abbrev IsCut : Form → Bytes → Bytes → Bytes → Type 0
    IsCut f folder declared bytes =
        (content : Bytes) × IsFormOf f folder declared content
        × (bytes ≡ take (read_limit h.max_upload_bytes) content)

    whole :
        (f : Form) (folder declared bytes : Bytes)
        → IsCut f folder declared bytes
        → 1 ≤ length bytes
        → length bytes ≤ h.max_upload_bytes
        → IsFormOf f folder declared bytes
    whole f folder declared bytes (content, of, cut) low high =
        let all_of_it = take_whole h.max_upload_bytes content (rw (← cut) low) (rw (← cut) high) in
        rw (cut ∙ all_of_it) of

    upload_content-IsSettled :
        (raw folder : Bytes) (file : FormFile) (w : W)
        → validate raw ≡ ok folder
        → (o : Option Bytes) → file.content ≡ o
        → IsSettled
            (IsCut (form raw (some file)))
            w
            (upload_content h new_uuid sniff folder file.declared o w)
    unfolding upload_content
    upload_content-IsSettled raw folder file w v none e = inl (inl refl, refl)
    upload_content-IsSettled raw folder file w v (some content) e =
        let same_file =
          ap
            (λ (o : Option Bytes).
              form raw (some (record { declared = file.declared; content = o })))
            e in
        upload_read-IsSettled _ folder file.declared (take (read_limit h.max_upload_bytes) content)
          w (content, (raw, v, same_file), refl)

    upload_folder-IsSettled :
        (raw : Bytes) (file : Option FormFile) (w : W)
        → IsSettled (IsCut (form raw file)) w (upload_folder h new_uuid sniff (validate raw) file w)
    unfolding upload_folder
    upload_folder-IsSettled raw file w = elim (Result-cases (validate raw)) [
      | inr (e, v) ↦ rw v (inl (inl refl, refl))
      | inl (folder, v) ↦ rw v (accepted folder v file)
    ]
      where
        accepted :
            (folder : Bytes)
            → validate raw ≡ ok folder
            → (file : Option FormFile)
            → IsSettled (IsCut (form raw file)) w (upload_file h new_uuid sniff folder file w)
        accepted folder v none = unfold upload_file in inl (inl refl, refl)
        accepted folder v (some file) =
            unfold upload_file in upload_content-IsSettled raw folder file w v file.content refl

    -- For every form and world an upload ends in one of two ways. Either it is answered by 400 or
    -- 413 and leaves the world as it was. Or Validate has returned the folder, the file has from 1
    -- to MAX_UPLOAD_BYTES bytes, detectImageType has returned a type and an extension, the whole
    -- file is handed on under a new identifier, and the answer is 201 or 500.
    pub handle_upload-IsSettled :
        (f : Form) (w : W) → IsSettled (IsFormOf f) w (handle_upload h new_uuid sniff f w)
    unfolding handle_upload
    handle_upload-IsSettled too_large w = inl (inr refl, refl)
    handle_upload-IsSettled invalid w = inl (inl refl, refl)
    handle_upload-IsSettled (form raw file) w =
        IsSettled-map (IsCut (form raw file)) (IsFormOf (form raw file)) w _ (whole (form raw file))
          (upload_folder-IsSettled raw file w)
