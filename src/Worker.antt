-- ===== src/Worker.antt =====
-- internal/worker (worker.go, backoff.go) and the consumer of internal/queue/queue.go: one job is
-- processed, and its message is settled.
pub mod Backoff
pub mod Process
pub mod Retries
pub mod Respects
pub mod Settled
use image_optimizer.Prelude.{
  ℕ, codes, ◌-◌, ◌*◌, ◌^◌, ◌%◌, Bool, true, false, not, ◌&&◌, ◌||◌, List, [], ◌∷◌, Option, none,
  some, if◌then◌else◌, ltb, leb, ◌==◌, take, length, Error, errorf, wrap, Result, ok, err, ℤ, pos,
  negsuc,
}
use image_optimizer.Text.{Bytes, is_empty}
use image_optimizer.Db.{Uuid, Status, pending, ready, failed, unknown, Variant}
use image_optimizer.Services.{ImageStore, UuidText}
use image_optimizer.Services.Calls.{Action}
use image_optimizer.VariantGen
use image_optimizer.VariantGen.{transform_and_persist}

abbrev pub max_attempts : ℕ
max_attempts = 3

abbrev pub second : ℕ
second = 1000000000

-- The result label of a job, and the two metrics that carry it are written where there is one.
pub data Label : Type 0 where
  success gave_up requeued : Label

-- The worker's dependencies; `wait` is waitBackoffFn, and `count` the counter of finished jobs.
pub record Deps (W : Type 0) : Type 0 where
  pub gen : VariantGen.Deps W
  pub wait : ℕ → Action W (Unit {0})
  pub count : Label → W → W

-- backoffDuration: `attempts` below 1 counts as 1, and the product is an int64. A shift by 64 or
-- more places gives zero. The result is the int64 as a word: from 2 to the power of 63 on it stands
-- for a negative duration.
unfoldable pub backoff_duration : ℕ → ℕ
backoff_duration attempts =
    let n = if ltb attempts 1 then 1 else attempts in (second * (2 ^ (n - 1) % 2 ^ 64)) % 2 ^ 64

unfoldable pub truncate_err : Error → ℕ → Bytes
truncate_err e max = if ltb max (length e.text) then take max e.text else e.text

-- The error that the handler returns, if it returns one, and the world behind it.
abbrev pub Outcome : Type 0 → Type 0
Outcome W = Option Error × W

module _ {W : Type 0} (d : Deps W) where
  abbrev pub db : ImageStore W
  db = d.gen.db

  -- A deferred function counts the label, if one was set.
  abbrev pub finish : Label → Option Error → W → Outcome W
  finish label e w = (e, d.count label w)

  -- MarkFailed after the last attempt
  unfoldable pub after_mark : Result (Unit {0}) × W → Outcome W
  after_mark (ok _, w) = finish gave_up none w
  after_mark (err e, w) = finish requeued (some (wrap (codes "mark failed") e)) w

  -- waitBackoff before the message goes back
  unfoldable pub after_wait : Error → Result (Unit {0}) × W → Outcome W
  after_wait e (ok _, w) = finish requeued (some e) w
  after_wait e (err wait_err, w) = finish requeued (some wait_err) w

  unfoldable pub after_transform : Uuid → ℕ → Result (Unit {0}) × W → Outcome W
  after_transform id attempts (ok _, w) = finish success none w
  after_transform id attempts (err e, w) =
      if leb max_attempts attempts
      then after_mark (db.mark_failed id (truncate_err e 500) w)
      else after_wait e (d.wait (backoff_duration attempts) w)

  unfoldable pub after_attempt : Variant → Uuid → Result ℕ × W → Outcome W
  after_attempt v id (err e, w) = finish requeued (some (wrap (codes "incr attempts") e)) w
  after_attempt v id (ok attempts, w) =
      after_transform id attempts (transform_and_persist d.gen v w)

  -- A ready or failed variant is left alone.
  unfoldable pub by_status : Status → Variant → Uuid → W → Outcome W
  by_status ready v id w = (none, w)
  by_status failed v id w = (none, w)
  by_status pending v id w = after_attempt v id (db.incr_attempts id w)
  by_status (unknown s) v id w = after_attempt v id (db.incr_attempts id w)

  unfoldable pub after_read : Uuid → Result Variant × W → Outcome W
  after_read id (ok v, w) = by_status v.status v id w
  after_read id (err e, w) =
      if e.is_not_found then (none, w) else finish requeued (some (wrap (codes "get variant") e)) w

  -- process: a text that is no UUID is dropped.
  unfoldable pub process_id : Option Uuid → W → Outcome W
  process_id none w = (none, w)
  process_id (some id) w = after_read id (db.get_variant_by_id id w)

  unfoldable pub process : Bytes → W → Outcome W
  process variant_id w = process_id (d.gen.uuid.parse variant_id) w

-- How a delivery is settled.
pub data Settle : Type 0 where
  ack : Settle
  nack : (requeue : Bool) → Settle

unfoldable pub settle : {W : Type 0} → Outcome W → Settle × W
settle (none, w) = (ack, w)
settle (some e, w) = (nack true, w)

-- handleDelivery: `job` is the variant id that json.Unmarshal reads from the body, if it reads one.
unfoldable pub handle_delivery :
    {W : Type 0} → (Bytes → W → Outcome W) → Option Bytes → W → Settle × W
handle_delivery handler none w = (nack false, w)
handle_delivery handler (some variant_id) w =
    let handled = settle (handler variant_id w) in
    if is_empty variant_id then (nack false, w) else handled
