-- ===== src/Config.antt =====
-- internal/config/config.go: the configuration that Load reads from the environment.
pub mod Loaded
use image_optimizer.Prelude.{
  ℕ, codes, ◌*◌, ◌^◌, Bool, true, false, not, ◌&&◌, ◌||◌, List, [], ◌∷◌, ◌++◌, Option, none, some,
  if◌then◌else◌, ltb, leb, ◌==◌, Error, errorf, wrap, Result, ok, err, ◌>>=◌, ◌>>◌, refuse_if, ℤ,
  pos, negsuc,
}
use image_optimizer.Text.{Bytes, same, is_empty, Unicode, trim_space}
use image_optimizer.Text.Number.{atoi}

-- os.Getenv: the empty text stands for a variable that is not set.
abbrev pub Environment : Type 0
Environment = Bytes → Bytes

-- Parts of the standard library: the errors of strconv, and time.ParseDuration, whose fractions are floats.
pub record Readers : Type 0 where
  pub unicode : Unicode
  pub number_error : Bytes → Error
  pub bool_error : Bytes → Error
  pub parse_duration : Bytes → Result ℤ

-- Durations are int64 counts of nanoseconds.
pub record Config : Type 0 where
  pub database_url : Bytes
  pub rabbitmq_url : Bytes
  pub imgproxy_url : Bytes
  pub s3_endpoint : Bytes
  pub s3_region : Bytes
  pub s3_bucket : Bytes
  pub s3_access_key : Bytes
  pub s3_secret_key : Bytes
  pub s3_use_path_style : Bool
  pub http_addr : Bytes
  pub write_http_addr : Bytes
  pub metrics_addr : Bytes
  pub max_upload_bytes : ℤ
  pub retry_after_seconds : ℤ
  pub default_quality : ℤ
  pub sync_transform_timeout : ℤ
  pub mtls_enabled : Bool
  pub tls_cert_file : Bytes
  pub tls_key_file : Bytes
  pub tls_client_ca_file : Bytes

abbrev pub default_http_addr : Bytes
default_http_addr = codes ":8080"

abbrev pub default_max_upload_bytes : ℤ
default_max_upload_bytes = pos (10 * 2 ^ 20)

abbrev pub default_retry_after_seconds : ℤ
default_retry_after_seconds = pos 2

abbrev pub default_default_quality : ℤ
default_default_quality = pos 80

abbrev pub default_sync_transform_timeout : ℤ
default_sync_transform_timeout = pos (25 * 1000000000)

-- getenv
abbrev pub or_fallback : Bytes → Bytes → Bytes
or_fallback v fallback = if is_empty v then fallback else v

-- strconv.ParseBool
unfoldable pub parse_bool : Bytes → Option Bool
parse_bool v =
    if same v (codes "1")
      || same v (codes "t")
      || same v (codes "T")
      || same v (codes "true")
      || same v (codes "TRUE")
      || same v (codes "True")
    then some true
    else if same v (codes "0")
        || same v (codes "f")
        || same v (codes "F")
        || same v (codes "false")
        || same v (codes "FALSE")
        || same v (codes "False")
    then some false
    else none

abbrev pub bool_or : Error → Option Bool → Result Bool
bool_or e none = err e
bool_or e (some b) = ok b

abbrev pub is_positive : ℤ → Bool
is_positive (pos n) = ltb 0 n
is_positive (negsuc n) = false

abbrev pub is_natural : ℤ → Bool
is_natural (pos n) = true
is_natural (negsuc n) = false

abbrev pub is_percent : ℤ → Bool
is_percent (pos n) = leb 1 n && leb n 100
is_percent (negsuc n) = false

-- A number that is read, and must pass a test.
abbrev pub in_range : (ℤ → Bool) → Error → Bytes → Result ℤ → Result ℤ
in_range test bad name (err e) = err (wrap name e)
in_range test bad name (ok n) = if test n then ok n else err bad

abbrev pub number_or : Error → Option ℤ → Result ℤ
number_or e none = err e
number_or e (some n) = ok n

module _ (r : Readers) (env : Environment) where
  abbrev pub require : Bytes → Result (Unit {0})
  require name = refuse_if (is_empty (env name)) (errorf (name ++ codes " is required"))

  abbrev pub require_mtls : Bytes → Result (Unit {0})
  require_mtls name =
      refuse_if (is_empty (env name)) (errorf (name ++ codes " is required when MTLS_ENABLED=true"))

  -- parseBoolEnv
  unfoldable pub parse_bool_env : Bytes → Result Bool
  parse_bool_env name = do
    let v = trim_space r.unicode (env name)
    refuse_if (is_empty v) (errorf (name ++ codes " is required"))
    bool_or (wrap name (r.bool_error v)) (parse_bool v)

  -- parseOptionalBoolEnv
  unfoldable pub parse_optional_bool_env : Bytes → Bool → Result Bool
  parse_optional_bool_env name fallback =
      let v = trim_space r.unicode (env name) in
      if is_empty v then ok fallback else bool_or (wrap name (r.bool_error v)) (parse_bool v)

  -- The optional numbers: an empty variable leaves the default.
  unfoldable pub number_env : Bytes → (ℤ → Bool) → Bytes → ℤ → Result ℤ
  number_env name test complaint fallback =
      let v = env name in
      if is_empty v
      then ok fallback
      else in_range test (errorf (name ++ complaint)) name (number_or (r.number_error v) (atoi v))

  unfoldable pub duration_env : Bytes → ℤ → Result ℤ
  duration_env name fallback =
      let v = env name in
      if is_empty v
      then ok fallback
      else in_range is_positive (errorf (name ++ codes " must be > 0")) name (r.parse_duration v)

  unfoldable pub check_required : Result (Unit {0})
  check_required = do
    require (codes "DATABASE_URL")
    require (codes "RABBITMQ_URL")
    require (codes "IMGPROXY_URL")
    require (codes "S3_ENDPOINT")
    require (codes "S3_REGION")
    require (codes "S3_BUCKET")
    require (codes "S3_ACCESS_KEY")
    require (codes "S3_SECRET_KEY")

  unfoldable pub check_mtls : Bool → Result (Unit {0})
  check_mtls false = ok tt
  check_mtls true = do
    require_mtls (codes "TLS_CERT_FILE")
    require_mtls (codes "TLS_KEY_FILE")
    require_mtls (codes "TLS_CLIENT_CA_FILE")
    require_mtls (codes "WRITE_HTTP_ADDR")

  unfoldable pub load : Result Config
  load = do
    check_required
    path_style ← parse_bool_env (codes "S3_USE_PATH_STYLE")
    mtls ← parse_optional_bool_env (codes "MTLS_ENABLED") false
    check_mtls mtls
    upload ←
        number_env (codes "MAX_UPLOAD_BYTES") is_positive (codes " must be > 0")
          default_max_upload_bytes
    retry ←
        number_env (codes "RETRY_AFTER_SECONDS") is_natural (codes " must be >= 0")
          default_retry_after_seconds
    quality ←
        number_env (codes "DEFAULT_QUALITY") is_percent (codes " must be between 1 and 100")
          default_default_quality
    timeout ← duration_env (codes "SYNC_TRANSFORM_TIMEOUT") default_sync_transform_timeout
    ok (record {
      database_url = env (codes "DATABASE_URL");
      rabbitmq_url = env (codes "RABBITMQ_URL");
      imgproxy_url = env (codes "IMGPROXY_URL");
      s3_endpoint = env (codes "S3_ENDPOINT");
      s3_region = env (codes "S3_REGION");
      s3_bucket = env (codes "S3_BUCKET");
      s3_access_key = env (codes "S3_ACCESS_KEY");
      s3_secret_key = env (codes "S3_SECRET_KEY");
      s3_use_path_style = path_style;
      http_addr = or_fallback (env (codes "HTTP_ADDR")) default_http_addr;
      write_http_addr = env (codes "WRITE_HTTP_ADDR");
      metrics_addr = env (codes "METRICS_ADDR");
      max_upload_bytes = upload;
      retry_after_seconds = retry;
      default_quality = quality;
      sync_transform_timeout = timeout;
      mtls_enabled = mtls;
      tls_cert_file = env (codes "TLS_CERT_FILE");
      tls_key_file = env (codes "TLS_KEY_FILE");
      tls_client_ca_file = env (codes "TLS_CLIENT_CA_FILE");
    })
