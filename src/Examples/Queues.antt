-- ===== src/Examples/Queues.antt =====
-- Deliveries that are processed on two tables, and an answer of imgproxy.
use image_optimizer.Worker.{
  truncate_err, backoff_duration, after_wait, after_mark, after_transform, after_attempt, by_status,
  after_read as after_row, process_id, settle, Deps, process, Settle, ack, handle_delivery,
}
use image_optimizer.Transform.Json.{
  unmarshal, set_fields, set_field, params_from_json, fold, object,
}
use image_optimizer.Text.{
  trim_space, trim_left, trim_byte_prefix, trim, to_lower, same, has_prefix, is_empty, Bytes,
}
use image_optimizer.Text.Split.{split, join, extend}
use image_optimizer.Text.Number.{itoa, format, digits}
use image_optimizer.Text.Clean.{resolve_all, resolve, or_dot, elements, clean, back}
use image_optimizer.Imgproxy.{
  segments, resizing_type, resizing_of, object_key, gravity_of, gravity, build_path,
}
use image_optimizer.Db.Store.{
  update, mark_ready, mark_failed, get_variant_by_hash, get_image, filter, delete_image,
  conflict_fetch, incr_attempts, execute, insert_variant, find, get_variant_by_id, pending_row,
  insert_image, upsert_pending_variant,
}
use image_optimizer.Imgproxy.Client.{after_read, after_get, trim_right, Http, new, fetch}
use image_optimizer.Prelude.{
  ℕ, suc, codes, ◌≡◌, refl, ap, ◌++◌, true, [], none, some, Error, errorf, ok, err, pos,
}
use image_optimizer.Transform.{Params}
use image_optimizer.Db.{Tables, answered, lost}
use image_optimizer.Db.Invariant.{IsValid}
use image_optimizer.Db.Steps.{
  Run, here, after, image_inserted, variant_upserted, no_rows, no_rows-IsValid, Run-IsValid,
}
use image_optimizer.Backend.{World, store}
use image_optimizer.VariantGen
use image_optimizer.Imgproxy.Requests.{IsBase, IsFetched, fetch-IsFetched}
use image_optimizer.Worker.Settled.{IsOver, acked-IsOver}
use image_optimizer.Worker.Process.{with_store}

abbrev refused : Error
refused = errorf (codes "connection refused")

abbrev image : Tables → Tables
image db =
    (insert_image refused
      (record {
        id = 1;
        original_path = codes "storely/1/catalog/x.png";
        content_type = codes "image/png";
        size_bytes = 2048;
        created_at = 3;
      })
      answered db).1

abbrev tables : Tables
tables =
    (upsert_pending_variant refused (pending_row 7 1 (codes "aa") (object []) 4) (lost refused)
      answered (image no_rows)).1

-- An image is inserted, and a variant of it; the answer of the second statement is lost.
run : Run refused no_rows tables
run =
    after (after here (image_inserted _ answered no_rows))
      (variant_upserted 7 1 (codes "aa") (object []) 4 (lost refused) answered (image no_rows))

Run-IsValid_example : IsValid tables
Run-IsValid_example = Run-IsValid run no_rows-IsValid

abbrev world : World ℕ
world = record { tables = tables; answers = []; now = 5; made = 0; rest = 0 }

abbrev gen : VariantGen.Deps (World ℕ)
gen = record {
  db = store refused (λ n. n);
  storage = record {
    save_original = λ folder id ext bytes w. (err refused, w);
    write_variant = λ id hash bytes w. (ok (codes "variants/1/aa.avif"), w);
    delete_image_files = λ id path w. (err refused, w);
    get = λ path w. (err refused, w);
  };
  imgproxy = record { fetch = λ path w. (ok (codes "avif"), record w { rest = suc w.rest }) };
  s3_bucket = codes "media";
  complete = true;
  unicode = record { lower_text = λ s. s; trim_text = λ s. s };
  uuid = record { parse = λ s. some 7; print = λ id. codes "1" };
  json_error = refused;
}

abbrev deps : Deps (World ℕ)
deps = record {
  gen = gen;
  wait = λ n w. (ok tt, w);
  count = λ label w. record w { rest = suc w.rest };
}

-- The variant is made, and its job is acknowledged.
abbrev done : Settle × World ℕ
done = handle_delivery (process (with_store refused (λ n. n) deps)) (some (codes "7")) world

acked : done.0 ≡ ack
unfolding handle_delivery is_empty settle process process_id after_row store get_variant_by_id find
    upsert_pending_variant insert_variant execute insert_image by_status after_attempt incr_attempts
    after_transform conflict_fetch delete_image filter get_image get_variant_by_hash mark_failed
    mark_ready update build_path gravity gravity_of object_key resizing_of resizing_type segments
    back clean elements or_dot resolve resolve_all digits format itoa extend join split has_prefix
    same to_lower trim trim_byte_prefix trim_left trim_space fold params_from_json set_field
    set_fields unmarshal VariantGen.transform_and_persist after_mark after_wait backoff_duration
    truncate_err
acked = refl

acked-IsOver_example : IsOver refused (λ n. n) deps 7 done.1
unfolding is_empty
acked-IsOver_example =
    acked-IsOver refused (λ n. n) deps (λ label w. refl) (codes "7") 7 world done.1 tt refl refl
      (ap (λ s. (s, done.1)) acked)

-- The world counts the calls of an HTTP client whose server knows one answer.
abbrev http : Http ℕ ℕ
http = record {
  build = λ url. ok tt;
  get = λ url w. (ok (record { status_code = 200; body = 9 }), suc w);
  read_all = λ b w. (ok (codes "avif"), suc w);
  close = λ b w. suc w;
  unicode = gen.unicode;
}

abbrev params : Params
params = record { w = none; h = none; q = pos 80; crop = codes "center"; fit = codes "contain" }

abbrev path : Bytes
path = build_path gen.unicode (codes "media") (codes "storely/1/catalog/x.png") params

fetched : fetch http (some (new (codes "http://imgproxy/"))) path 0 ≡ (ok (codes "avif"), 3)
unfolding fetch is_empty new trim_right after_get after_read
fetched = refl

fetch-IsFetched_example :
    (b : Bytes) × IsBase (codes "http://imgproxy/") b
    × IsFetched http (b ++ path) (codes "avif") 0 3
fetch-IsFetched_example =
    fetch-IsFetched http (codes "http://imgproxy/") gen.unicode (codes "media")
      (codes "storely/1/catalog/x.png") params (codes "avif") 0 3 fetched
