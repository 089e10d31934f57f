-- ===== src/Examples/Process.antt =====
-- A process on a machine where each call answers. The world counts the handles that are open.
use image_optimizer.Prelude.{
  ℕ, suc, codes, ◌≡◌, refl, subst, ◌-◌, true, false, [], ◌∷◌, none, some, arith, Error, errorf, ok,
  err, pos,
}
use image_optimizer.Text.{Bytes}
use image_optimizer.Services.{ImageStore}
use image_optimizer.Config.{Environment, Readers, Config}
use image_optimizer.Db.Store.{pending_row}
use image_optimizer.Transform.Json.{object}
use image_optimizer.Storage.Client.{Storage}
use image_optimizer.Queue.{Broker, Client}
use image_optimizer.Queue.Handles.{HasHandles}
use image_optimizer.App.{System, shut, run_serve}
use image_optimizer.App.Jobs.{run_worker}
use image_optimizer.App.Handles.{IsQuietBucket}
use image_optimizer.App.Release.{HasReleases, run_serve-Keeps}
use image_optimizer.App.Worker.{IsQuietWork, run_worker-Keeps}

abbrev refused : Error
refused = errorf (codes "connection refused")

abbrev canceled : Error
canceled = record (errorf (codes "context canceled")) { is_canceled = true }

-- Every variable is set to 1, which stands for true.
abbrev environment : Environment
environment name = codes "1"

abbrev readers : Readers
readers = record {
  unicode = record { lower_text = λ s. s; trim_text = λ s. s };
  number_error = λ s. refused;
  bool_error = λ s. refused;
  parse_duration = λ s. ok (pos 120000000);
}

abbrev storage : Storage ℕ
storage = record {
  client = record {
    head_bucket = λ b w. (none, w);
    create_bucket = λ b w. (none, w);
    put_object = λ b k v w. (ok tt, w);
    get_object = λ b k w. (err refused, w);
    delete_object = λ b k w. (ok tt, w);
    list_objects = λ b p t w. (err refused, w);
    delete_objects = λ b ks w. (ok tt, w);
  };
  bucket = codes "media";
  ctx_err = λ w. none;
  quote = λ s. s;
  unicode = readers.unicode;
}

abbrev broker : Broker ℕ ℕ ℕ
broker = record {
  dial = λ url w. (ok 1, suc w);
  open_channel = λ conn w. (ok 2, suc w);
  declare = λ ch name w. (ok tt, w);
  close_channel = λ ch w. (none, w - 1);
  close_connection = λ conn w. (some refused, w - 1);
  connection_closed = λ conn w. false;
  channel_closed = λ ch w. false;
  inspect = λ ch name w. (ok 0, w);
  expired = λ w. none;
  marshal = λ id. ok id;
  publish = λ ch name body w. (ok tt, w);
  qos = λ ch w. (ok tt, w);
  consume = λ ch name w. (ok tt, w);
  settle = λ s w. w;
}

abbrev rows : ImageStore ℕ
rows = record {
  insert_image = λ id path content_type size w. (err refused, w);
  get_image = λ id w. (err refused, w);
  delete_image = λ id w. (ok tt, w);
  get_variant_by_hash = λ id hash w. (err refused, w);
  get_variant_by_id = λ id w. (ok (pending_row 7 1 (codes "aa") (object []) 4), w);
  upsert_pending_variant = λ id hash doc w. (err refused, w);
  mark_ready = λ id path w. (ok tt, w);
  mark_failed = λ id text w. (ok tt, w);
  incr_attempts = λ id w. (ok 1, w);
}

abbrev system : System ℕ ℕ ℕ ℕ ℕ ℕ
system = record {
  readers = readers;
  environment = environment;
  goose = record {
    open_database = λ url w. (ok 3, suc w);
    ping = λ d w. (ok tt, w);
    set_dialect = λ name w. (ok tt, w);
    up = λ d dir w. (ok tt, w);
    close = λ d w. w - 1;
  };
  notify = suc;
  stop = λ w. w - 1;
  pools = record {
    parse_config = λ url. ok tt;
    new_with_config = λ url w. (ok 4, suc w);
    ping = λ p w. (ok tt, w);
    close = λ p w. w - 1;
  };
  load_aws = λ cfg. ok storage;
  broker = broker;
  servers = record {
    start = λ h l w. w;
    start_one = λ s w. w;
    select = λ w. (none, w);
    shutdown = λ n s w. (none, w);
    receive = λ w. (shut, w);
  };
  read_file = λ path. ok (codes "certificate");
  has_certificates = λ pem. true;
  http = record {
    build = λ url. ok tt;
    get = λ url w. (err refused, w);
    read_all = λ b w. (ok [], w);
    close = λ b w. w;
    unicode = readers.unicode;
  };
  platform = record {
    unicode = readers.unicode;
    uuid = record { parse = λ s. some 1; print = λ id. codes "1" };
    json_error = refused;
    clock = record {
      now = λ w. (w, w);
      poll_wait = λ w. (false, w);
      sync_expired = λ w. (false, w);
    };
    inc = λ counter w. w;
    sum256 = λ s. s;
  };
  store = λ p. rows;
  pages = 1;
  timer = λ n w. (none, w);
  count = λ label w. w;
  deliveries = some (codes "7") ∷ none ∷ [];
  ending = some canceled;
}

abbrev handles : ℕ → ℕ
handles w = w

broker-HasHandles : HasHandles broker handles
broker-HasHandles = record {
  dial = λ url w. omega arith;
  open_channel = λ conn w. omega arith;
  declare = λ ch w. refl;
  close_channel = λ ch w. refl;
  close_connection = λ conn w. refl;
}

releases : HasReleases system handles
releases = record {
  notify = λ w. omega arith;
  stop = λ w. refl;
  pools = record {
    new_with_config = λ url w. omega arith;
    ping = λ p w. refl;
    close = λ p w. refl;
  };
  goose = record {
    open_database = λ url w. omega arith;
    ping = λ d w. refl;
    set_dialect = λ name w. refl;
    up = λ d dir w. refl;
    close = λ d w. refl;
  };
  broker = broker-HasHandles;
  servers = record {
    start = λ h l w. refl;
    start_one = λ s w. refl;
    select = λ w. refl;
    shutdown = λ n s w. refl;
    receive = λ w. refl;
  };
  bucket = λ cfg s e. quiet s (the_storage s e);
}
  where
    the_storage : (s : Storage ℕ) → ok storage ≡ ok s → storage ≡ s
    the_storage s e = cc

    quiet : (s : Storage ℕ) → storage ≡ s → IsQuietBucket handles s
    quiet s e =
        subst (IsQuietBucket handles) e
          (record { head_bucket = λ b w. refl; create_bucket = λ b w. refl })

quiet_work : IsQuietWork system handles
quiet_work = record {
  store = λ p. record {
    get_image = λ id w. refl;
    mark_ready = λ id path w. refl;
    get_variant_by_id = λ id w. refl;
    incr_attempts = λ id w. refl;
    mark_failed = λ id text w. refl;
  };
  put_object = λ cfg s e. puts s (the_storage s e);
  http = record { get = λ url w. refl; read_all = λ b w. refl; close = λ b w. refl };
  timer = λ n w. refl;
  count = λ label w. refl;
  qos = λ ch w. refl;
  consume = λ ch name w. refl;
  settle = λ s w. refl;
}
  where
    the_storage : (s : Storage ℕ) → ok storage ≡ ok s → storage ≡ s
    the_storage s e = cc

    puts :
        (s : Storage ℕ)
        → storage ≡ s
        → (b k v : Bytes) (w : ℕ) → (s.client.put_object b k v w).1 ≡ w
    puts s e b k v w = subst (λ (t : Storage ℕ). (t.client.put_object b k v w).1 ≡ w) e refl

run_serve-Keeps_example : (run_serve system 5).1 ≡ 5
run_serve-Keeps_example = run_serve-Keeps system handles releases 5

run_worker-Keeps_example : (run_worker system 5).1 ≡ 5
run_worker-Keeps_example = run_worker-Keeps system handles releases quiet_work 5

abbrev config : Config
config = record {
  database_url = codes "1";
  rabbitmq_url = codes "1";
  imgproxy_url = codes "1";
  s3_endpoint = codes "1";
  s3_region = codes "1";
  s3_bucket = codes "1";
  s3_access_key = codes "1";
  s3_secret_key = codes "1";
  s3_use_path_style = true;
  http_addr = codes "1";
  write_http_addr = codes "2";
  metrics_addr = codes "3";
  max_upload_bytes = pos 1;
  retry_after_seconds = pos 1;
  default_quality = pos 1;
  sync_transform_timeout = pos 120000000;
  mtls_enabled = true;
  tls_cert_file = codes "1";
  tls_key_file = codes "1";
  tls_client_ca_file = codes "1";
}

abbrev client : Client ℕ ℕ
client = record { conn = some 1; ch = some 2 }
