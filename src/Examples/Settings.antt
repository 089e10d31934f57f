-- ===== src/Examples/Settings.antt =====
-- An environment, the configuration that is loaded from it, and a handler that runs on it.
use image_optimizer.Config.{
  duration_env, number_env, check_mtls, parse_optional_bool_env, parse_bool, parse_bool_env,
  check_required, Environment, Readers, Config, load,
}
use image_optimizer.Text.Number.{scan, digits_value, positive, atoi}
use image_optimizer.Text.{trim_left, trim, trim_space, is_empty, same}
use image_optimizer.Prelude.{
  ℕ, codes, ◌≡◌, refl, ◌+◌, true, false, [], some, if◌then◌else◌, arith, Error, errorf, ok, err,
  pos,
}
use image_optimizer.Transform.Json.{object}
use image_optimizer.Services.{ImageStore, BlobStore, Fetcher, JobQueue}
use image_optimizer.Config.Loaded.{IsConfig, load-IsConfig}
use image_optimizer.Db.{Variant}
use image_optimizer.Db.Store.{pending_row}
use image_optimizer.Http.Configured.{Platform, variant_gen, new_handler}
use image_optimizer.Http.Fuel.{poll_interval, HasClock}
use image_optimizer.Http.Ready.{Pinger, IsReport, check_ready, check_ready-IsReport}

abbrev refused : Error
refused = errorf (codes "connection refused")

abbrev environment : Environment
environment name =
    if same name (codes "S3_USE_PATH_STYLE")
    then codes "true"
    else if same name (codes "MTLS_ENABLED")
    then codes "0"
    else if same name (codes "MAX_UPLOAD_BYTES")
    then codes "4096"
    else if same name (codes "RETRY_AFTER_SECONDS")
    then []
    else if same name (codes "DEFAULT_QUALITY")
    then codes "75"
    else codes "x"

abbrev readers : Readers
readers = record {
  unicode = record { lower_text = λ s. s; trim_text = λ s. s };
  number_error = λ s. refused;
  bool_error = λ s. refused;
  parse_duration = λ s. ok (pos 120000000);
}

abbrev config : Config
config = record {
  database_url = codes "x";
  rabbitmq_url = codes "x";
  imgproxy_url = codes "x";
  s3_endpoint = codes "x";
  s3_region = codes "x";
  s3_bucket = codes "x";
  s3_access_key = codes "x";
  s3_secret_key = codes "x";
  s3_use_path_style = true;
  http_addr = codes "x";
  write_http_addr = codes "x";
  metrics_addr = codes "x";
  max_upload_bytes = pos 4096;
  retry_after_seconds = pos 2;
  default_quality = pos 75;
  sync_transform_timeout = pos 120000000;
  mtls_enabled = false;
  tls_cert_file = codes "x";
  tls_key_file = codes "x";
  tls_client_ca_file = codes "x";
}

loaded : load readers environment ≡ ok config
unfolding load check_required is_empty same parse_bool_env trim_space trim trim_left parse_bool
    parse_optional_bool_env check_mtls number_env atoi positive digits_value scan duration_env
loaded = refl

load-IsConfig_example : IsConfig config
load-IsConfig_example = load-IsConfig readers environment config loaded

abbrev row : Variant
row = pending_row 7 1 (codes "aa") (object []) 4

-- The world is the clock.
abbrev platform : Platform ℕ
platform = record {
  unicode = readers.unicode;
  uuid = record { parse = λ s. some 1; print = λ id. codes "1" };
  json_error = refused;
  clock = record {
    now = λ w. (w, w);
    poll_wait = λ w. (false, w + poll_interval);
    sync_expired = λ w. (false, w);
  };
  inc = λ counter w. w;
  sum256 = λ s. s;
}

abbrev rows : ImageStore ℕ
rows = record {
  insert_image = λ id path content_type size w. (err refused, w);
  get_image = λ id w. (err refused, w);
  delete_image = λ id w. (ok tt, w);
  get_variant_by_hash = λ id hash w. (ok row, w);
  get_variant_by_id = λ id w. (ok row, w);
  upsert_pending_variant = λ id hash doc w. (ok (row, false), w);
  mark_ready = λ id path w. (ok tt, w);
  mark_failed = λ id text w. (ok tt, w);
  incr_attempts = λ id w. (ok 1, w);
}

abbrev blobs : BlobStore ℕ
blobs = record {
  save_original = λ folder id ext bytes w. (err refused, w);
  write_variant = λ id hash bytes w. (err refused, w);
  delete_image_files = λ id path w. (err refused, w);
  get = λ path w. (err refused, w);
}

abbrev jobs : JobQueue ℕ
jobs = record { publish = λ id w. (ok tt, w) }

abbrev images : Fetcher ℕ
images = record { fetch = λ path w. (err refused, w) }

abbrev reading : ℕ → ℕ
reading w = w

clock_runs : HasClock (new_handler platform rows blobs jobs images config) reading
unfolding new_handler variant_gen
clock_runs = record {
  now_reads = λ w. refl;
  now_keeps = λ w. omega arith;
  read_keeps = λ id w. omega arith;
  wait_ticks = λ w go_on. omega arith;
}

abbrev answers : Pinger ℕ
answers = some (λ w. (ok tt, w + 1))

abbrev silent : Pinger ℕ
silent = some (λ w. (err refused, w + 1))

check_ready-IsReport_example : IsReport answers silent 5 (check_ready answers silent 5)
check_ready-IsReport_example = check_ready-IsReport answers silent 5
