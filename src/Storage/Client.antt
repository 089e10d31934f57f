-- ===== src/Storage/Client.antt =====
-- The operations of internal/storage/storage.go on the bucket: New, ensureBucket, SaveOriginal,
-- WriteVariant, Get, DeleteImageFiles and deletePrefix. The S3 client of the AWS SDK is a parameter.
use image_optimizer.Prelude.{
  ℕ, zero, suc, codes, Bool, true, false, ◌&&◌, ◌||◌, List, [], ◌∷◌, ◌++◌, Option, none, some,
  if◌then◌else◌, Error, errorf, wrap, Result, ok, err,
}
use image_optimizer.Text.{Bytes, same, is_empty, slash, Unicode}
use image_optimizer.Text.Clean.{path_join}
use image_optimizer.Services.{BlobStore}
use image_optimizer.Services.Calls.{Action, pure, lift, fail_if, ◌>>=◌, ◌>>◌, context}
use image_optimizer.Storage.Keys.{
  normalize_key, validate_id, validate_params_hash, variant_path, original_key,
}

-- One page of ListObjectsV2; a key and a flag are pointers in the SDK.
pub record Page : Type 0 where
  pub contents : List (Option Bytes)
  pub is_truncated : Option Bool
  pub next_token : Option Bytes

-- An error of a call on a bucket: the code of a smithy.APIError, if it is one, and whether it says
-- that the bucket is there already.
pub record BucketError : Type 0 where
  pub error : Error
  pub code : Option Bytes
  pub exists : Bool

-- The calls of s3.Client. `none` from a call on a bucket is its success.
pub record Client (W : Type 0) : Type 0 where
  pub head_bucket : Bytes → W → Option BucketError × W
  pub create_bucket : Bytes → W → Option BucketError × W
  pub put_object : Bytes → Bytes → Bytes → Action W (Unit {0})
  pub get_object : Bytes → Bytes → Action W (Bytes × Option ℕ)
  pub delete_object : Bytes → Bytes → Action W (Unit {0})
  pub list_objects : Bytes → Bytes → Option Bytes → Action W Page
  pub delete_objects : Bytes → List Bytes → Action W (Unit {0})

-- Storage, with ctx.Err and the verb %q of package fmt beside it.
pub record Storage (W : Type 0) : Type 0 where
  pub client : Client W
  pub bucket : Bytes
  pub ctx_err : W → Option Error
  pub quote : Bytes → Bytes
  pub unicode : Unicode

-- isNotFound
abbrev pub not_found_code : Option Bytes → Bool
not_found_code none = false
not_found_code (some c) =
    same c (codes "NotFound") || same c (codes "NoSuchBucket") || same c (codes "404")

unfoldable pub is_not_found : BucketError → Bool
is_not_found e = not_found_code e.code

-- The keys that deletePrefix takes from a page: nil and empty ones are passed over.
unfoldable pub page_keys : List (Option Bytes) → List Bytes
page_keys [] = []
page_keys (none ∷ cs) = page_keys cs
page_keys (some [] ∷ cs) = page_keys cs
page_keys (some (c ∷ k) ∷ cs) = (c ∷ k) ∷ page_keys cs

abbrev pub is_set : Option Bool → Bool
is_set none = false
is_set (some b) = b

abbrev pub is_some : {A : Type 0} → Option A → Bool
is_some none = false
is_some (some a) = true

abbrev pub is_nil : {A : Type 0} → List A → Bool
is_nil [] = true
is_nil (x ∷ xs) = false

-- What a call that can run out of fuel gives; without fuel it is `none`.
abbrev pub Fueled : Type 0 → Type 0
Fueled W = Option (Result (Unit {0}) × W)

-- The first step of DeleteImageFiles: its error, if there is one.
abbrev pub delete_error : {W : Type 0} → Result (Unit {0}) × W → Option Error × W
delete_error (ok _, w) = (none, w)
delete_error (err e, w) = (some (wrap (codes "storage: delete original") e), w)

-- The last step: both errors in one text, and the chain of the last.
abbrev pub also : Option Error → Error → Error
also none e = wrap (codes "storage: delete variants") e
also (some first) e =
    let x = wrap (codes "storage: delete variants") e in
    record x { text = x.text ++ (codes " (also: " ++ (first.text ++ codes ")")) }

abbrev pub first_error : Option Error → Result (Unit {0})
first_error none = ok tt
first_error (some e) = err e

unfoldable pub after_prefix : {W : Type 0} → Option Error → Fueled W → Fueled W
after_prefix first none = none
after_prefix first (some (ok _, w)) = some (first_error first, w)
after_prefix first (some (err e, w)) = some (err (also first e), w)

abbrev pub variants_prefix : Bytes → Bytes
variants_prefix image_id = path_join (codes "variants" ∷ image_id ∷ []) ++ (slash ∷ [])

abbrev pub stop_on : {W : Type 0} → Option Error → Action W (Unit {0})
stop_on none w = (ok tt, w)
stop_on (some e) w = (err e, w)

module _ {W : Type 0} (s : Storage W) where
  abbrev pub check_context : Action W (Unit {0})
  check_context w = stop_on (s.ctx_err w) w

  -- ensureBucket
  unfoldable pub after_create : Option BucketError × W → Result (Unit {0}) × W
  after_create (none, w) = (ok tt, w)
  after_create (some e, w) =
      if e.exists
      then (ok tt, w)
      else (err (wrap (codes "storage: create bucket " ++ s.quote s.bucket) e.error), w)

  unfoldable pub after_head : Option BucketError × W → Result (Unit {0}) × W
  after_head (none, w) = (ok tt, w)
  after_head (some e, w) =
      let created = after_create (s.client.create_bucket s.bucket w) in
      if is_not_found e
      then created
      else (err (wrap (codes "storage: head bucket " ++ s.quote s.bucket) e.error), w)

  unfoldable pub ensure_bucket : Action W (Unit {0})
  ensure_bucket w = after_head (s.client.head_bucket s.bucket w)

  unfoldable pub put_object : Bytes → Bytes → Action W (Unit {0})
  put_object key bytes = s.client.put_object s.bucket key bytes

  unfoldable pub delete_object : Bytes → Action W (Unit {0})
  delete_object key = s.client.delete_object s.bucket key

  unfoldable pub save_original : Bytes → Bytes → Bytes → Bytes → Action W Bytes
  save_original folder id ext bytes = do
    check_context
    key ← lift (original_key s.unicode folder id ext)
    context (codes "storage: put original") (put_object key bytes)
    pure key

  unfoldable pub write_variant : Bytes → Bytes → Bytes → Action W Bytes
  write_variant image_id params_hash bytes = do
    check_context
    lift (validate_id image_id)
    lift (validate_params_hash params_hash)
    context (codes "storage: put variant") (put_object (variant_path image_id params_hash) bytes)
    pure (variant_path image_id params_hash)

  unfoldable pub get : Bytes → Action W (Bytes × Option ℕ)
  get rel_path = do
    check_context
    key ← lift (normalize_key rel_path)
    context (codes "storage: get object " ++ s.quote key) (s.client.get_object s.bucket key)

  -- One round of deletePrefix; `again` is the next one, from a token.
  unfoldable pub after_delete :
      (Option Bytes → W → Fueled W) → Page → Result (Unit {0}) × W → Fueled W
  after_delete again page (err e, w) = some (err e, w)
  after_delete again page (ok _, w) =
      let next = again page.next_token w in
      if is_set page.is_truncated then next else some (ok tt, w)

  abbrev pub delete_listed : List Bytes → Action W (Unit {0})
  delete_listed [] w = (ok tt, w)
  delete_listed (k ∷ ks) w = s.client.delete_objects s.bucket (k ∷ ks) w

  unfoldable pub after_page : (Option Bytes → W → Fueled W) → Result Page × W → Fueled W
  after_page again (err e, w) = some (err e, w)
  after_page again (ok page, w) =
      let next = again page.next_token w in
      let deleted = after_delete again page (delete_listed (page_keys page.contents) w) in
      if is_nil page.contents
      then if is_set page.is_truncated && is_some page.next_token then next else some (ok tt, w)
      else deleted

  -- deletePrefix, with at most `fuel` pages
  unfoldable pub delete_prefix : ℕ → Bytes → Option Bytes → W → Fueled W
  delete_prefix zero prefix token w = none
  delete_prefix (suc fuel) prefix token w =
      after_page (delete_prefix fuel prefix) (s.client.list_objects s.bucket prefix token w)

  unfoldable pub delete_key : Result Bytes → W → Option Error × W
  delete_key (err e) w = (some e, w)
  delete_key (ok key) w = delete_error (delete_object key w)

  unfoldable pub delete_original : Bytes → W → Option Error × W
  delete_original [] w = (none, w)
  delete_original (c ∷ path) w = delete_key (normalize_key (c ∷ path)) w

  unfoldable pub delete_files : ℕ → Bytes → Option Error × W → Fueled W
  delete_files fuel image_id (first, w) =
      after_prefix first (delete_prefix fuel (variants_prefix image_id) none w)

  unfoldable pub after_checks : ℕ → Bytes → Bytes → Result (Unit {0}) × W → Fueled W
  after_checks fuel image_id original_path (err e, w) = some (err e, w)
  after_checks fuel image_id original_path (ok _, w) =
      delete_files fuel image_id (delete_original original_path w)

  unfoldable pub delete_image_files : ℕ → Bytes → Bytes → W → Fueled W
  delete_image_files fuel image_id original_path w =
      after_checks fuel image_id original_path ((check_context >> lift (validate_id image_id)) w)

-- New: what LoadDefaultConfig and NewFromConfig give is a parameter, and the bucket is set here.
pub record S3Config : Type 0 where
  pub endpoint : Bytes
  pub region : Bytes
  pub bucket : Bytes
  pub access_key : Bytes
  pub secret_key : Bytes
  pub use_path_style : Bool

abbrev pub missing_place : S3Config → Bool
missing_place cfg = is_empty cfg.endpoint || is_empty cfg.region || is_empty cfg.bucket

abbrev pub missing_keys : S3Config → Bool
missing_keys cfg = is_empty cfg.access_key || is_empty cfg.secret_key

abbrev pub in_bucket : {W : Type 0} → S3Config → Storage W → Storage W
in_bucket cfg s = record s { bucket = cfg.bucket }

unfoldable pub new_storage :
    {W : Type 0} → (S3Config → Result (Storage W)) → S3Config → Action W (Storage W)
new_storage load cfg = do
  fail_if (missing_place cfg)
      (errorf (codes "storage: S3 endpoint, region, and bucket are required"))
  fail_if (missing_keys cfg) (errorf (codes "storage: S3 access key and secret key are required"))
  s ← context (codes "storage: load aws config") (lift (load cfg))
  ensure_bucket (in_bucket cfg s)
  pure (in_bucket cfg s)

-- The Storage as the blobStore of the handlers and the worker. A removal that reads `fuel` pages and
-- is not at the end, which one that has more fuel than pages never is, is the error of that name.
abbrev pub out_of_fuel : Error
out_of_fuel = errorf (codes "out of fuel")

abbrev pub finished : {W : Type 0} → W → Fueled W → Result (Unit {0}) × W
finished w none = (err out_of_fuel, w)
finished w (some r) = r

abbrev pub blob_store : {W : Type 0} → ℕ → Storage W → BlobStore W
blob_store fuel s = record {
  save_original = save_original s;
  write_variant = write_variant s;
  delete_image_files = λ id path w. finished w (delete_image_files s fuel id path w);
  get = get s;
}
