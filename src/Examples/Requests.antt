-- ===== src/Examples/Requests.antt =====
-- A server with one image and one pending variant that another request is making, in front of an
-- imgproxy that is down. The world is the clock.
use image_optimizer.Prelude.{
  ℕ, suc, codes, ◌≡◌, ◌+◌, refl, true, false, [], ◌∷◌, Option, none, some, arith, Error, errorf, ok,
  err,
}
use image_optimizer.Text.{Bytes}
use image_optimizer.Transform.Json.{object}
use image_optimizer.Db.{Uuid, Image, Variant}
use image_optimizer.Db.Store.{pending_row}
use image_optimizer.VariantGen
use image_optimizer.Http.{Handler, ResolveResult}
use image_optimizer.Http.Resolve.{resolve_variant}
use image_optimizer.Http.Serve.{Response, handle_get, handle_head}
use image_optimizer.Http.Reads.{IsAnswerTo}
use image_optimizer.Http.Fuel.{poll_interval, HasClock, resolve_variant_total}
use image_optimizer.Http.Statuses.{
  IsCode, Agree, get-head_status, HasExactRefusals, get-head-HasExactRefusals,
}

abbrev unreachable : Error
unreachable = errorf (codes "connection refused")

abbrev parse_one : Bytes → Option Uuid
parse_one (c ∷ []) = some c
parse_one s = none

abbrev row : Variant
row = pending_row 7 1 (codes "aa") (object []) 4

abbrev stored : Image
stored = record {
  id = 1;
  original_path = codes "storely/1/catalog/x.png";
  content_type = codes "image/png";
  size_bytes = 2048;
  created_at = 3;
}

abbrev gen : VariantGen.Deps ℕ
gen = record {
  db = record {
    insert_image = λ id path content_type size w. (err unreachable, w);
    get_image = λ id w. (ok stored, w);
    delete_image = λ id w. (ok tt, w);
    get_variant_by_hash = λ id hash w. (ok row, w);
    get_variant_by_id = λ id w. (ok row, suc w);
    upsert_pending_variant = λ id hash doc w. (ok (row, false), w);
    mark_ready = λ id path w. (ok tt, w);
    mark_failed = λ id text w. (ok tt, w);
    incr_attempts = λ id w. (ok 1, w);
  };
  storage = record {
    save_original = λ folder id ext bytes w. (err unreachable, w);
    write_variant = λ id hash bytes w. (err unreachable, w);
    delete_image_files = λ id path w. (err unreachable, w);
    get = λ path w. (err unreachable, w);
  };
  imgproxy = record { fetch = λ path w. (err unreachable, w) };
  s3_bucket = codes "media";
  complete = true;
  unicode = record { lower_text = λ s. s; trim_text = λ s. s };
  uuid = record { parse = parse_one; print = λ id. id ∷ [] };
  json_error = unreachable;
}

-- A timeout of 120 ms.
abbrev handler : Handler ℕ
handler = record {
  gen = gen;
  queue = record { publish = λ id w. (ok tt, w) };
  clock = record {
    now = λ w. (w, w);
    poll_wait = λ w. (false, w + poll_interval);
    sync_expired = λ w. (false, w);
  };
  inc = λ counter w. w;
  sum256 = λ s. s;
  sync_timeout = 120000000;
  max_upload_bytes = 1000000;
}

abbrev reading : ℕ → ℕ
reading w = w

clock_runs : HasClock handler reading
clock_runs = record {
  now_reads = λ w. refl;
  now_keeps = λ w. omega arith;
  read_keeps = λ id w. omega arith;
  wait_ticks = λ w go_on. omega arith;
}

abbrev id_text : Bytes
id_text = 1 ∷ []

resolve_variant_total_example :
    (a : ResolveResult × ℕ) × (resolve_variant handler 3 id_text [] 100 ≡ some a)
    × IsAnswerTo handler id_text [] 100 a
resolve_variant_total_example =
    resolve_variant_total handler reading clock_runs 3 (omega arith) (omega arith) id_text [] 100

get-head_status_example :
    (g : Response × ℕ) × (r : Response × ℕ) × (handle_get handler 3 id_text [] 100 ≡ some g)
    × (handle_head handler 3 id_text [] 100 ≡ some r)
    × IsCode handler r.0.status
    × Agree handler g.0.status r.0.status
get-head_status_example =
    get-head_status handler reading clock_runs 3 (omega arith) (omega arith) id_text [] 100

get-head-HasExactRefusals_example :
    (g : Response × ℕ) × (r : Response × ℕ) × (handle_get handler 3 (codes "nobody") [] 100
      ≡ some g)
    × (handle_head handler 3 (codes "nobody") [] 100 ≡ some r)
    × HasExactRefusals handler (codes "nobody") [] 100 g r
get-head-HasExactRefusals_example =
    get-head-HasExactRefusals handler reading clock_runs 3 (omega arith) (omega arith)
      (codes "nobody") [] 100
