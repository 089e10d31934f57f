-- ===== src/Examples/Jobs.antt =====
-- A worker whose imgproxy is down, and jobs in its queue.
use image_optimizer.Prelude.{
  ℕ, suc, codes, ◌≡◌, ◌<◌, ◌*◌, ◌-◌, ◌^◌, refl, true, false, [], ◌∷◌, Option, none, some, arith,
  Error, errorf, ok, err,
}
use image_optimizer.Text.{Bytes, is_empty}
use image_optimizer.Transform.Json.{object}
use image_optimizer.Db.{Uuid, ready, Variant}
use image_optimizer.Db.Store
use image_optimizer.Db.Store.{find, pending_row}
use image_optimizer.Backend.{World, store}
use image_optimizer.VariantGen
use image_optimizer.Worker.{
  Deps, process, handle_delivery, ack, second, backoff_duration, max_attempts,
}
use image_optimizer.Worker.Backoff.{backoff_schedule}
use image_optimizer.Worker.Process.{IsWaiting, IsFailed, IsDown, with_store}
use image_optimizer.Worker.Retries.{redeliver, redeliver-gives_up}

abbrev unreachable : Error
unreachable = errorf (codes "connection refused")

-- A UUID is written as one byte here.
abbrev parse_one : Bytes → Option Uuid
parse_one (c ∷ []) = some c
parse_one s = none

abbrev gen : VariantGen.Deps (World ℕ)
gen = record {
  db = store unreachable (λ n. n);
  storage = record {
    save_original = λ folder id ext bytes w. (err unreachable, w);
    write_variant = λ id hash bytes w. (err unreachable, w);
    delete_image_files = λ id path w. (err unreachable, w);
    get = λ path w. (err unreachable, w);
  };
  imgproxy = record { fetch = λ path w. (err unreachable, record w { rest = suc w.rest }) };
  s3_bucket = codes "media";
  complete = true;
  unicode = record { lower_text = λ s. s; trim_text = λ s. s };
  uuid = record { parse = parse_one; print = λ id. id ∷ [] };
  json_error = unreachable;
}

-- The rest of the world counts the calls.
abbrev deps : Deps (World ℕ)
deps = record {
  gen = gen;
  wait = λ n w. (ok tt, record w { rest = suc w.rest });
  count = λ label w. record w { rest = suc w.rest };
}

deps-IsDown : IsDown deps
deps-IsDown = record {
  fetch = λ path w. (unreachable, record w { rest = suc w.rest }, refl, (refl, refl));
  wait = λ n w. (refl, refl);
  count = λ label w. (refl, refl);
}

abbrev row : Variant
row = record (pending_row 7 1 (codes "aa") (object []) 4) { attempts = 1 }

abbrev done_row : Variant
done_row = record row { status = ready; path = some (codes "variants/1/aa.avif") }

abbrev world : Variant → World ℕ
world v = record {
  tables = record {
    images =
        record {
          id = 1;
          original_path = codes "storely/1/catalog/x.png";
          content_type = codes "image/png";
          size_bytes = 2048;
          created_at = 3;
        }
        ∷ [];
    variants = v ∷ [];
  };
  answers = [];
  now = 10;
  made = 0;
  rest = 0;
}

abbrev job : Bytes
job = 7 ∷ []

job_filled : is_empty job ≡ false
unfolding is_empty
job_filled = refl

row_waits : IsWaiting 7 1 (world row)
unfolding find
row_waits = (row, refl, refl, refl, refl)

redeliver-gives_up_example :
    ((redeliver 2
        (handle_delivery (process (with_store unreachable (λ n. n) deps)) (some job))
        (world row)).0
      ≡ ack)
    × IsFailed 7 max_attempts
        (redeliver 2
          (handle_delivery (process (with_store unreachable (λ n. n) deps)) (some job))
          (world row)).1
redeliver-gives_up_example =
    redeliver-gives_up unreachable (λ n. n) deps deps-IsDown job 7 refl job_filled 1 1 (world row)
      refl row_waits

row_read :
    (store unreachable (λ n. n)).get_variant_by_id 7 (world done_row)
    ≡ (ok done_row, world done_row)
unfolding store Store.get_variant_by_id find
row_read = refl

backoff_schedule_example :
    (backoff_duration 3 ≡ second * 2 ^ (3 - 1)) × (backoff_duration 3 < 2 ^ 63)
backoff_schedule_example = backoff_schedule 3 (omega arith) (omega arith)
