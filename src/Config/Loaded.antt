-- ===== src/Config/Loaded.antt =====
-- What a configuration that Load of internal/config/config.go returns has passed.
use image_optimizer.Prelude.{
  codes, ◌≡◌, inl, inr, refl, Bool, true, false, ◌++◌, Error, errorf, Result, ok, err, ℤ, arith,
  Bool-cases, bind_ok, subst,
}
use image_optimizer.Text.{Bytes, is_empty}
use image_optimizer.Config.{
  Environment, Readers, Config, is_positive, is_natural, is_percent, in_range, number_env,
  duration_env, check_required, check_mtls, load, parse_bool_env, parse_optional_bool_env,
  default_max_upload_bytes, default_retry_after_seconds, default_default_quality,
  default_sync_transform_timeout, default_http_addr, or_fallback,
}

abbrev pub IsFilled : Bytes → Type 0
IsFilled s = is_empty s ≡ false

-- What the rest of the program relies on.
pub record IsConfig (cfg : Config) : Type 0 where
  pub database_url : IsFilled cfg.database_url
  pub rabbitmq_url : IsFilled cfg.rabbitmq_url
  pub imgproxy_url : IsFilled cfg.imgproxy_url
  pub s3_endpoint : IsFilled cfg.s3_endpoint
  pub s3_region : IsFilled cfg.s3_region
  pub s3_bucket : IsFilled cfg.s3_bucket
  pub s3_access_key : IsFilled cfg.s3_access_key
  pub s3_secret_key : IsFilled cfg.s3_secret_key
  pub http_addr : IsFilled cfg.http_addr
  pub upload : is_positive cfg.max_upload_bytes ≡ true
  pub retry : is_natural cfg.retry_after_seconds ≡ true
  pub quality : is_percent cfg.default_quality ≡ true
  pub timeout : is_positive cfg.sync_transform_timeout ≡ true
  pub mtls :
      cfg.mtls_enabled ≡ true
      → IsFilled cfg.tls_cert_file
        × IsFilled cfg.tls_key_file
        × IsFilled cfg.tls_client_ca_file
        × IsFilled cfg.write_http_addr

in_range_sound :
    (test : ℤ → Bool) (bad : Error) (name : Bytes) (r : Result ℤ) (n : ℤ)
    → in_range test bad name r ≡ ok n
    → test n ≡ true
in_range_sound test bad name (err e) n h = cc
in_range_sound test bad name (ok m) n h = ground arith

or_fallback-IsFilled : (v fallback : Bytes) → IsFilled fallback → IsFilled (or_fallback v fallback)
or_fallback-IsFilled v fallback h = ground arith

default_addr-IsFilled : IsFilled default_http_addr
unfolding is_empty
default_addr-IsFilled = refl

module _ (r : Readers) (env : Environment) where
  number_env_sound :
      (name : Bytes) (test : ℤ → Bool) (complaint : Bytes) (fallback n : ℤ)
      → test fallback ≡ true
      → number_env r env name test complaint fallback ≡ ok n
      → test n ≡ true
  unfolding number_env
  number_env_sound name test complaint fallback n d h = elim (Bool-cases (is_empty (env name))) [
    | inl e ↦ (let k = rw e at h in cc)
    | inr e ↦ in_range_sound test _ name _ n (rw e at h)
  ]

  duration_env_sound :
      (name : Bytes) (fallback n : ℤ)
      → is_positive fallback ≡ true
      → duration_env r env name fallback ≡ ok n
      → is_positive n ≡ true
  unfolding duration_env
  duration_env_sound name fallback n d h = elim (Bool-cases (is_empty (env name))) [
    | inl e ↦ (let k = rw e at h in cc)
    | inr e ↦
        in_range_sound is_positive (errorf (name ++ codes " must be > 0")) name
          (r.parse_duration (env name)) n (rw e at h)
  ]

  required_sound :
      check_required r env ≡ ok tt
      → IsFilled (env (codes "DATABASE_URL"))
        × IsFilled (env (codes "RABBITMQ_URL"))
        × IsFilled (env (codes "IMGPROXY_URL"))
        × IsFilled (env (codes "S3_ENDPOINT"))
        × IsFilled (env (codes "S3_REGION"))
        × IsFilled (env (codes "S3_BUCKET"))
        × IsFilled (env (codes "S3_ACCESS_KEY"))
        × IsFilled (env (codes "S3_SECRET_KEY"))
  unfolding check_required
  required_sound h = ground arith

  mtls_sound :
      (b : Bool)
      → check_mtls r env b ≡ ok tt
      → b ≡ true
      → IsFilled (env (codes "TLS_CERT_FILE"))
        × IsFilled (env (codes "TLS_KEY_FILE"))
        × IsFilled (env (codes "TLS_CLIENT_CA_FILE"))
        × IsFilled (env (codes "WRITE_HTTP_ADDR"))
  unfolding check_mtls
  mtls_sound false h e = cc
  mtls_sound true h e = ground arith

  -- A configuration that Load returns names the database, the broker, imgproxy, the bucket with its
  -- keys and an address. Its upload limit and its timeout are positive, its retry seconds not
  -- negative, its quality from 1 to 100, and with mTLS the certificate, key and client CA files and
  -- the write address are named.
  pub load-IsConfig : (cfg : Config) → load r env ≡ ok cfg → IsConfig cfg
  unfolding load
  load-IsConfig cfg h0 =
      let (t, a, h1) = bind_ok (check_required r env) _ cfg h0 in
      let (style, b, h2) = bind_ok (parse_bool_env r env (codes "S3_USE_PATH_STYLE")) _ cfg h1 in
      let (mtls, c, h3) =
        bind_ok (parse_optional_bool_env r env (codes "MTLS_ENABLED") false) _ cfg h2 in
      let (t', d, h4) = bind_ok (check_mtls r env mtls) _ cfg h3 in
      let (upload, e, h5) =
        bind_ok
          (number_env r env (codes "MAX_UPLOAD_BYTES") is_positive (codes " must be > 0")
            default_max_upload_bytes)
          _ cfg h4 in
      let (retry, f, h6) =
        bind_ok
          (number_env r env (codes "RETRY_AFTER_SECONDS") is_natural (codes " must be >= 0")
            default_retry_after_seconds)
          _ cfg h5 in
      let (quality, g, h7) =
        bind_ok
          (number_env r env (codes "DEFAULT_QUALITY") is_percent
            (codes " must be between 1 and 100") default_default_quality)
          _ cfg h6 in
      let (timeout, i, h8) =
        bind_ok (duration_env r env (codes "SYNC_TRANSFORM_TIMEOUT") default_sync_transform_timeout)
          _ cfg h7 in
      let (r1, r2, r3, r4, r5, r6, r7, r8) = required_sound a in
      subst IsConfig (ok-injective h8) (record {
        database_url = r1;
        rabbitmq_url = r2;
        imgproxy_url = r3;
        s3_endpoint = r4;
        s3_region = r5;
        s3_bucket = r6;
        s3_access_key = r7;
        s3_secret_key = r8;
        http_addr =
            or_fallback-IsFilled (env (codes "HTTP_ADDR")) default_http_addr default_addr-IsFilled;
        upload =
            number_env_sound (codes "MAX_UPLOAD_BYTES") is_positive (codes " must be > 0")
              default_max_upload_bytes upload refl e;
        retry =
            number_env_sound (codes "RETRY_AFTER_SECONDS") is_natural (codes " must be >= 0")
              default_retry_after_seconds retry refl f;
        quality =
            number_env_sound (codes "DEFAULT_QUALITY") is_percent
              (codes " must be between 1 and 100") default_default_quality quality refl g;
        timeout =
            duration_env_sound (codes "SYNC_TRANSFORM_TIMEOUT") default_sync_transform_timeout
              timeout refl i;
        mtls = mtls_sound mtls d;
      })
    where
      ok-injective : {c c' : Config} → ok c ≡ ok c' → c ≡ c'
      ok-injective e = cc
