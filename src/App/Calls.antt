-- ===== src/App/Calls.antt =====
-- The calls of a job that runWorker of cmd/app/main.go sets up, and the handles that they leave.
use image_optimizer.Prelude.{
  errorf, ℕ, codes, ◌≡◌, refl, ◌∙◌, ap, Option, none, some, Error, Result, ok, err, Bool-cases, inl,
  inr,
}
use image_optimizer.Text.{Bytes, is_empty}
use image_optimizer.Services.Calls.{Action, lift, ◌>>◌, context, pure, fail_if, ◌>>=◌}
use image_optimizer.Services.Succeeds.{bind_succeeds, context_succeeds}
use image_optimizer.Services.Handles.{Keeps, bind-Keeps, context-Keeps}
use image_optimizer.Storage.Keys.{validate_id, validate_params_hash, variant_path}
use image_optimizer.Storage.Client.{
  Storage, S3Config, stop_on, check_context, put_object, write_variant, ensure_bucket,
  missing_place, missing_keys, in_bucket, new_storage,
}
use image_optimizer.Imgproxy.Client
use image_optimizer.Imgproxy.Client.{
  Http, Answer, after_read, after_get, fetch_url, request_url, fetch,
}

module _ {W : Type 0} (read : S3Config → Result (Storage W)) (cfg : S3Config) where
  abbrev opened : Storage W → Action W (Storage W)
  opened s = do ensure_bucket (in_bucket cfg s); pure (in_bucket cfg s)

  abbrev loaded : Action W (Storage W)
  loaded = context (codes "storage: load aws config") (lift (read cfg)) >>= opened

  abbrev with_keys : Action W (Storage W)
  with_keys = do
    fail_if (missing_keys cfg) (errorf (codes "storage: S3 access key and secret key are required"))
    loaded

  -- The storage that New returns is a loaded one, in the configured bucket.
  pub new_storage_ok :
      (s : Storage W) (w w' : W)
      → new_storage read cfg w ≡ (ok s, w')
      → (t : Storage W) × (read cfg ≡ ok t) × (in_bucket cfg t ≡ s)
  unfolding new_storage
  new_storage_ok s w w' h =
      let place = errorf (codes "storage: S3 endpoint, region, and bucket are required") in
      let keys = errorf (codes "storage: S3 access key and secret key are required") in
      let (_, w1, _, h1) =
        bind_succeeds (fail_if (missing_place cfg) place) (λ _. with_keys) w s w' h in
      let (_, w2, _, h2) =
        bind_succeeds (fail_if (missing_keys cfg) keys) (λ _. loaded) w1 s w' h1 in
      let (t, w3, found, h3) =
        bind_succeeds (context (codes "storage: load aws config") (lift (read cfg))) opened w2 s w'
          h2 in
      let found' =
        context_succeeds (codes "storage: load aws config") (lift (read cfg)) w2 t w3 found in
      let (_, w4, _, h4) =
        bind_succeeds (ensure_bucket (in_bucket cfg t)) (λ _. pure (in_bucket cfg t)) w3 s w' h3 in
      let e = ap (λ (p : Result (Storage W) × W). p.0) h4 in
      (t, ap (λ (p : Result (Storage W) × W). p.0) found', injective (in_bucket cfg t) s e)
    where
      injective : (x y : Storage W) → Path (Result (Storage W)) (ok x) (ok y) → x ≡ y
      injective x y e = cc

module _ {W : Type 0} (handles : W → ℕ) where
  stop_on-Keeps : (e : Option Error) → Keeps handles (stop_on e)
  stop_on-Keeps none w = refl
  stop_on-Keeps (some e) w = refl

  module _ (s : Storage W)
      (put : (b k bytes : Bytes) → Keeps handles (s.client.put_object b k bytes)) where
    abbrev written : Bytes → Bytes → Bytes → Action W Bytes
    written id hash bytes = do
      context (codes "storage: put variant") (put_object s (variant_path id hash) bytes)
      pure (variant_path id hash)

    written-Keeps : (id hash bytes : Bytes) → Keeps handles (written id hash bytes)
    unfolding put_object
    written-Keeps id hash bytes =
        let stored = put_object s (variant_path id hash) bytes in
        bind-Keeps handles (context (codes "storage: put variant") stored)
          (λ _. pure (variant_path id hash))
          (context-Keeps handles (codes "storage: put variant") stored
            (put s.bucket (variant_path id hash) bytes))
          (λ _ w. refl)

    pub write_variant-Keeps :
        (id hash bytes : Bytes) → Keeps handles (write_variant s id hash bytes)
    unfolding write_variant
    write_variant-Keeps id hash bytes =
        let rest : Action W Bytes = lift (validate_params_hash hash) >> written id hash bytes in
        bind-Keeps handles (check_context s) (λ _. lift (validate_id id) >> rest)
          (λ w. stop_on-Keeps (s.ctx_err w) w)
          (λ _.
            bind-Keeps handles (lift (validate_id id)) (λ _. rest) (λ w. refl)
              (λ _.
                bind-Keeps handles (lift (validate_params_hash hash)) (λ _. written id hash bytes)
                  (λ w. refl) (λ _. written-Keeps id hash bytes)))

  -- Package net/http gives its connections back when a body is closed.
  pub record IsQuietHttp {B : Type 0} (http : Http B W) : Type 0 where
    pub get : (url : Bytes) → Keeps handles (http.get url)
    pub read_all : (b : B) → Keeps handles (http.read_all b)
    pub close : (b : B) (w : W) → handles (http.close b w) ≡ handles w

  module _ {B : Type 0} (http : Http B W) (q : IsQuietHttp http) where
    after_read-Keeps :
        (a : Answer B) (r : Result Bytes) (w : W) → handles (after_read http a (r, w)).1 ≡ handles w
    unfolding after_read
    after_read-Keeps a (ok body) w = q.close a.body w
    after_read-Keeps a (err e) w = q.close a.body w

    after_get-Keeps :
        (r : Result (Answer B)) (w : W) → handles (after_get http (r, w)).1 ≡ handles w
    unfolding after_get
    after_get-Keeps (ok a) w =
        let s = http.read_all a.body w in after_read-Keeps a s.0 s.1 ∙ q.read_all a.body w
    after_get-Keeps (err e) w = refl

    fetch_url-Keeps : (url : Bytes) → Keeps handles (fetch_url http url)
    fetch_url-Keeps url =
        bind-Keeps handles (context (codes "imgproxy: build request") (lift (http.build url)))
          (λ _ w. after_get http (http.get url w))
          (context-Keeps handles (codes "imgproxy: build request") (lift (http.build url))
            (λ w. refl))
          (λ _ w. let s = http.get url w in after_get-Keeps s.0 s.1 ∙ q.get url w)

    pub fetch-Keeps : (c : Option Client.Client) (path : Bytes) → Keeps handles (fetch http c path)
    unfolding fetch
    fetch-Keeps none path w = refl
    fetch-Keeps (some c) path w = elim (Bool-cases (is_empty c.base_url)) [
      | inl e ↦ rw e refl
      | inr e ↦ rw e (fetch_url-Keeps (request_url c path) w)
    ]
