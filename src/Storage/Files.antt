-- ===== src/Storage/Files.antt =====
-- DeleteImageFiles of internal/storage/storage.go as one operation on the objects of the bucket.
use image_optimizer.Prelude.{
  ℕ, codes, ◌≡◌, ◌≢◌, ◌≤◌, ◌<◌, inl, inr, refl, sym, ◌∙◌, ap, subst, Bool, true, false, ◌||◌, [],
  ◌∷◌, ◌++◌, Option, none, some, arith, Error, Result, ok, err, Option-cases, Bool-cases,
  Result-cases,
}
use image_optimizer.Text.{Bytes, same, has_prefix, slash}
use image_optimizer.Text.Laws.{same_iff}
use image_optimizer.Text.Split.{join}
use image_optimizer.Text.Join.{path_join-names}
use image_optimizer.Storage.Keys.{normalize_key, validate_id}
use image_optimizer.Storage.Checks.{validate_id_iff, id-IsName}
use image_optimizer.Storage.Paths.{variants-IsName}
use image_optimizer.Storage.Client.{
  Storage, Fueled, delete_object, delete_prefix, delete_error, delete_key, delete_original, also,
  first_error, after_prefix, variants_prefix, delete_files, after_checks, delete_image_files,
}
use image_optimizer.Storage.S3.{Objects, IsS3, HasNoKeyErrors}
use image_optimizer.Storage.Removal.{IsRemoval, IsDone}
use image_optimizer.Storage.Rounds.{delete_prefix-IsDone}
use image_optimizer.Storage.Pages.{HasEnded, delete_prefix-HasEnded}

abbrev pub names : Result Bytes → Bytes → Bool
names (ok key) j = same j key
names (err e) j = false

abbrev pub is_original : Bytes → Bytes → Bool
is_original [] j = false
is_original (c ∷ path) j = names (normalize_key (c ∷ path)) j

-- The objects of an image: its original, and all below the prefix of its variants.
abbrev pub is_target : Bytes → Bytes → Bytes → Bool
is_target image_id original_path j =
    has_prefix (variants_prefix image_id) j || is_original original_path j

pub variants_prefix-text :
    (id : Bytes)
    → validate_id id ≡ ok tt
    → variants_prefix id ≡ codes "variants/" ++ (id ++ (slash ∷ []))
unfolding join
variants_prefix-text id v =
    ap (λ p. p ++ (slash ∷ []))
      (path_join-names (codes "variants") [] (id ∷ [])
        (variants-IsName, (id-IsName id ((validate_id_iff id).0 v), tt)))

module _ {W : Type 0} (s : Storage W) (view : W → Objects) (passed : Option Bytes → Bytes → Bool)
    (left : W → Option Bytes → ℕ) (s3 : IsS3 s view passed left) where
  -- What the deletion of the original leaves.
  record IsOriginalStep (path : Bytes) (w : W) (p : Option Error × W) : Type 0 where
    other : (j : Bytes) → is_original path j ≡ false → view p.1 j ≡ view w j
    gone : p.0 ≡ none → (j : Bytes) → is_original path j ≡ true → view p.1 j ≡ none
    fewer : left p.1 none ≤ left w none

  ne_of_same : (j k : Bytes) → same j k ≡ false → j ≢ k
  ne_of_same j k e h = (let k' = (same_iff j k).1 h in cc)

  delete_error-view :
      (p : Result (Unit {0}) × W)
      → ((delete_error p).1 ≡ p.1) × ((delete_error p).0 ≡ none → p.0 ≡ ok tt)
  delete_error-view (ok t, w) = (refl, λ h. refl)
  delete_error-view (err e, w) = (refl, λ h. cc)

  delete_original-IsOriginalStep :
      (path : Bytes) (w : W) → IsOriginalStep path w (delete_original s path w)
  unfolding delete_original delete_key delete_object
  delete_original-IsOriginalStep [] w = record {
    other = λ j n. refl;
    gone = λ h j n. cc;
    fewer = omega arith;
  }
  delete_original-IsOriginalStep (c ∷ path) w = elim (Result-cases (normalize_key (c ∷ path))) [
    | inr (e, k) ↦ rw k (record { other = λ j n. refl; gone = λ h j n. cc; fewer = omega arith })
    | inl (key, k) ↦
        let deleted = s.client.delete_object s.bucket key w in
        let (same_world, done) = delete_error-view deleted in
        rw k (record {
          other = λ j n.
              rw same_world
                (s3.delete_other key w j (ne_of_same j key (ap (λ r. names r j) (sym k) ∙ n)));
          gone = λ h j n.
              rw (same_world, (same_iff j key).0 (ap (λ r. names r j) (sym k) ∙ n))
                (s3.delete_ok key w (done h));
          fewer = rw same_world (s3.delete_left key w none);
        })
  ]

  -- The objects behind a deletion of the files of an image.
  pub record IsFileRemoval (image_id original_path : Bytes) (old : Objects) (r : Result (Unit {0}))
      (new : Objects) : Type 0 where
    pub other : (j : Bytes) → is_target image_id original_path j ≡ false → new j ≡ old j
    pub removed : r ≡ ok tt → (j : Bytes) → is_target image_id original_path j ≡ true → new j ≡ none

  first_error-none : (o : Option Error) → first_error o ≡ ok tt → o ≡ none
  first_error-none none h = refl
  first_error-none (some e) h = cc

  module _ (image_id original_path : Bytes) (valid : validate_id image_id ≡ ok tt) where
    combined :
        (w : W) (first : Option Error) (w1 : W) (r : Result (Unit {0})) (new : Objects)
        → IsOriginalStep original_path w (first, w1)
        → IsRemoval passed (variants_prefix image_id) none (view w1) r new
        → (q : Result (Unit {0})) → (q ≡ ok tt → (first ≡ none) × (r ≡ ok tt))
        → IsFileRemoval image_id original_path (view w) q new
    combined w first w1 r new o p q done = record {
      other = λ j n. p.other j (ground arith) ∙ o.other j (ground arith);
      removed = λ h j n. elim (Bool-cases (has_prefix (variants_prefix image_id) j)) [
        | inl e ↦ p.removed (done h).1 j e (s3.list_start j)
        | inr e ↦ p.gone j (o.gone (done h).0 j (ground arith))
      ];
    }

    -- An answer, and what it leaves.
    abbrev IsAnswer : W → Fueled W → Type 0
    IsAnswer w o =
        (r : Result (Unit {0})) × (w' : W) × (o ≡ some (r, w'))
        × IsFileRemoval image_id original_path (view w) r (view w')

    after_prefix-IsAnswer :
        (w : W) (first : Option Error) (w1 : W) (o : Fueled W)
        → IsOriginalStep original_path w (first, w1)
        → HasEnded o
        → IsDone view passed (variants_prefix image_id) none w1 o
        → IsAnswer w (after_prefix first o)
    unfolding after_prefix
    after_prefix-IsAnswer w first w1 none st e d = absurd e
    after_prefix-IsAnswer w first w1 (some (ok t, w')) st e d = (
      first_error first,
      w',
      refl,
      combined w first w1 (ok t) (view w') st d (first_error first)
          (λ h. (first_error-none first h, refl)),
    )
    after_prefix-IsAnswer w first w1 (some (err x, w')) st e d = (
      err (also first x),
      w',
      refl,
      combined w first w1 (err x) (view w') st d (err (also first x)) (λ h. cc),
    )

    variants-IsDone :
        HasNoKeyErrors s view
        → (fuel : ℕ) (w1 : W)
        → IsDone view passed
            (variants_prefix image_id)
            none
            w1
            (delete_prefix s fuel (variants_prefix image_id) none w1)
    variants-IsDone clean fuel w1 =
        subst (λ p. IsDone view passed p none w1 (delete_prefix s fuel p none w1))
          (sym (variants_prefix-text image_id valid))
          (delete_prefix-IsDone s view passed left s3 b'v'
            (codes "ariants/" ++ (image_id ++ (slash ∷ []))) clean fuel none w1)

    delete_files-IsAnswer :
        HasNoKeyErrors s view
        → (fuel : ℕ) (w : W) (p : Option Error × W) → left w none < fuel
        → IsOriginalStep original_path w p
        → IsAnswer w (delete_files s fuel image_id p)
    unfolding delete_files
    delete_files-IsAnswer clean fuel w (first, w1) enough st =
        let fewer = st.fewer in
        after_prefix-IsAnswer w first w1 _ st
          (delete_prefix-HasEnded s view passed left s3 (variants_prefix image_id) fuel none w1
            (omega arith))
          (variants-IsDone clean fuel w1)

  unchanged :
      (image_id original_path : Bytes) (w : W) (e : Error)
      → IsFileRemoval image_id original_path (view w) (err e) (view w)
  unchanged image_id original_path w e = record { other = λ j n. refl; removed = λ h. cc }

  -- Where S3 behaves as documented, no key of a DeleteObjects call is reported as failed, and there
  -- is more fuel than pages are left to list, DeleteImageFiles ends. Every object that is neither
  -- the original nor under the prefix of the image's variants stays as it is, and after a success
  -- the bucket holds none of those, on however many pages they were listed.
  pub delete_image_files-IsFileRemoval :
      (clean : HasNoKeyErrors s view) (fuel : ℕ) (image_id original_path : Bytes) (w : W)
      → left w none < fuel
      → (r : Result (Unit {0})) × (w' : W) × (delete_image_files s fuel image_id original_path w
          ≡ some (r, w'))
        × IsFileRemoval image_id original_path (view w) r (view w')
  unfolding delete_image_files after_checks
  delete_image_files-IsFileRemoval clean fuel image_id original_path w enough =
      elim (Option-cases (s.ctx_err w)) [
        | inr (e, k) ↦ rw k (err e, w, refl, unchanged image_id original_path w e)
        | inl k ↦ elim (Result-cases (validate_id image_id)) [
          | inr (e, v) ↦ rw (k, v) (err e, w, refl, unchanged image_id original_path w e)
          | inl (t, v) ↦
              rw (k, v)
                (delete_files-IsAnswer image_id original_path v clean fuel w
                  (delete_original s original_path w) enough
                  (delete_original-IsOriginalStep original_path w))
        ]
      ]
