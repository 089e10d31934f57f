-- ===== src/Http/Resolve.antt =====
-- resolveVariant and its parts in internal/http/handlers.go: publishBestEffort, syncGenerate and
-- waitOrSync.
use image_optimizer.Prelude.{
  ℕ, zero, suc, codes, ◌+◌, Bool, true, false, Option, none, some, if◌then◌else◌, ltb, Result, ok,
  err,
}
use image_optimizer.Text.{Bytes}
use image_optimizer.Transform.{Params, Query, parse, hash}
use image_optimizer.Transform.Json.{cache_key_json}
use image_optimizer.Db.{Uuid, Status, pending, ready, failed, unknown, Image, Variant}
use image_optimizer.Services.{ImageStore}
use image_optimizer.VariantGen.{transform_and_persist}
use image_optimizer.Http.{
  Resolved, is_ready, is_failed, bad_request, not_found, unavailable, internal, ResolveResult,
  Handler, jobs_enqueued,
}

-- How the polling loop ends: with a result, by its deadline, or without fuel.
pub data Polled : Type 0 where
  returned : ResolveResult → Polled
  timed_out : Polled
  out_of_fuel : Polled

abbrev pub plain : Resolved → ResolveResult
plain o = record { outcome = o; miss = false; waited = false }

abbrev pub after_wait : Resolved → ResolveResult
after_wait o = record { outcome = o; miss = false; waited = true }

-- The results of syncGenerate.
abbrev pub generated : Bool → Resolved → ResolveResult
generated miss o = record { outcome = o; miss = miss; waited = false }

abbrev pub if_ready : Status → Variant → Resolved
if_ready ready v = is_ready v
if_ready _ v = internal (codes "variant not ready after sync")

-- One poll of waitOrSync: a result, or nothing while the variant is pending.
abbrev pub seen_status : Status → Variant → Option Resolved
seen_status ready v = some (is_ready v)
seen_status failed v = some (is_failed v)
seen_status _ v = none

abbrev pub seen : Result Variant → Option Resolved
seen (ok v) = seen_status v.status v
seen (err e) = some (
    if e.is_not_found
    then not_found (codes "image not found")
    else internal (codes "failed to load variant"))

module _ {W : Type 0} (h : Handler W) where
  abbrev pub store : ImageStore W
  store = h.gen.db

  abbrev pub Answer : Type 0
  Answer = ResolveResult × W

  -- publishBestEffort: an error is logged only.
  unfoldable pub after_publish : Result (Unit {0}) × W → W
  after_publish (ok _, w) = h.inc jobs_enqueued w
  after_publish (err e, w) = w

  unfoldable pub publish_best_effort : Uuid → W → W
  publish_best_effort id w = after_publish (h.queue.publish (h.gen.uuid.print id) w)

  -- syncGenerate
  unfoldable pub expired : Bool → Bool × W → Answer
  expired miss (true, w) = (generated miss (unavailable (codes "variant transform timed out")), w)
  expired miss (false, w) = (generated miss (internal (codes "failed to generate variant")), w)

  unfoldable pub reloaded : Bool → Result Variant × W → Answer
  reloaded miss (err e, w) = (generated miss (internal (codes "failed to load variant")), w)
  reloaded miss (ok v, w) = (generated miss (if_ready v.status v), w)

  unfoldable pub after_sync : Variant → Bool → Result (Unit {0}) × W → Answer
  after_sync v miss (err e, w) =
      expired miss (if e.is_deadline then (true, w) else h.clock.sync_expired w)
  after_sync v miss (ok _, w) = reloaded miss (store.get_variant_by_id v.id w)

  unfoldable pub sync_generate : Variant → Bool → W → Answer
  sync_generate v miss w = after_sync v miss (transform_and_persist h.gen v w)

  -- The loop of waitOrSync; `again` is its next round.
  unfoldable pub after_remaining : ℕ → (W → Polled × W) → ℕ × W → Polled × W
  after_remaining deadline again (t, w) =
      let next = again w in if ltb t deadline then next else (timed_out, w)

  unfoldable pub after_poll_wait : ℕ → (W → Polled × W) → Bool × W → Polled × W
  after_poll_wait deadline again (true, w) =
      (returned (after_wait (unavailable (codes "request cancelled"))), w)
  after_poll_wait deadline again (false, w) = after_remaining deadline again (h.clock.now w)

  unfoldable pub after_seen : ℕ → (W → Polled × W) → Option Resolved → W → Polled × W
  after_seen deadline again (some o) w = (returned (after_wait o), w)
  after_seen deadline again none w = after_poll_wait deadline again (h.clock.poll_wait w)

  unfoldable pub after_poll : ℕ → (W → Polled × W) → Result Variant × W → Polled × W
  after_poll deadline again (r, w) = after_seen deadline again (seen r) w

  unfoldable pub before_deadline : ℕ → (W → Polled × W) → Uuid → ℕ × W → Polled × W
  before_deadline deadline again id (t, w) =
      let polled = after_poll deadline again (store.get_variant_by_id id w) in
      if ltb t deadline then polled else (timed_out, w)

  unfoldable pub poll : ℕ → ℕ → Uuid → W → Polled × W
  poll zero deadline id w = (out_of_fuel, w)
  poll (suc fuel) deadline id w =
      before_deadline deadline (poll fuel deadline id) id (h.clock.now w)

  -- What follows the loop: one more look, and the transform inline if the variant is pending.
  abbrev pub still_waited : Answer → Answer
  still_waited (r, w) = (record r { waited = true }, w)

  unfoldable pub last_status : Status → Variant → W → Answer
  last_status ready v w = (after_wait (is_ready v), w)
  last_status failed v w = (after_wait (is_failed v), w)
  last_status pending v w = still_waited (sync_generate v false w)
  last_status (unknown s) v w = (after_wait (unavailable (codes "variant transform timed out")), w)

  unfoldable pub last_look : Result Variant × W → Answer
  last_look (ok v, w) = last_status v.status v w
  last_look (err e, w) = (after_wait (unavailable (codes "variant transform timed out")), w)

  -- `none` without fuel.
  unfoldable pub after_loop : Uuid → Polled × W → Option Answer
  after_loop id (returned r, w) = some (r, w)
  after_loop id (timed_out, w) = some (last_look (store.get_variant_by_id id w))
  after_loop id (out_of_fuel, w) = none

  unfoldable pub from_start : ℕ → Uuid → ℕ × W → Option Answer
  from_start fuel id (t, w) = after_loop id (poll fuel (t + h.sync_timeout) id w)

  unfoldable pub wait_or_sync : ℕ → Variant → W → Option Answer
  wait_or_sync fuel v w = from_start fuel v.id (h.clock.now w)

  -- resolveVariant from its end: by the status of a row that was there,
  unfoldable pub by_status : ℕ → Status → Variant → W → Option Answer
  by_status fuel ready v w = some (plain (is_ready v), w)
  by_status fuel failed v w = some (plain (is_failed v), w)
  by_status fuel pending v w = wait_or_sync fuel v w
  by_status fuel (unknown s) v w = some (plain (internal (codes "unknown variant status")), w)

  -- by the row that this request has inserted, or found in the way,
  unfoldable pub by_created : ℕ → Bool → Status → Variant → W → Option Answer
  by_created fuel true pending v w = some (sync_generate v true (publish_best_effort v.id w))
  by_created fuel created s v w = by_status fuel s v w

  unfoldable pub after_upsert : ℕ → Result (Variant × Bool) × W → Option Answer
  after_upsert fuel (ok (v, created), w) = by_created fuel created v.status v w
  after_upsert fuel (err e, w) = some (plain (internal (codes "failed to prepare variant")), w)

  -- after the search for the row,
  unfoldable pub after_lookup : ℕ → Uuid → Params → Result Variant × W → Option Answer
  after_lookup fuel id p (ok v, w) = by_status fuel v.status v w
  after_lookup fuel id p (err e, w) =
      if e.is_not_found
      then after_upsert fuel
          (store.upsert_pending_variant id (hash h.sum256 p) (cache_key_json p) w)
      else some (plain (internal (codes "failed to load variant")), w)

  -- after the search for the image,
  unfoldable pub after_image : ℕ → Uuid → Params → Result Image × W → Option Answer
  after_image fuel id p (ok img, w) =
      after_lookup fuel id p (store.get_variant_by_hash id (hash h.sum256 p) w)
  after_image fuel id p (err e, w) = some (
    plain (
        if e.is_not_found
        then not_found (codes "image not found")
        else internal (codes "failed to load image")),
    w,
  )

  -- and from the two checks of the request.
  unfoldable pub after_parse : ℕ → Uuid → Result Params → W → Option Answer
  after_parse fuel id (err e) w = some (plain (bad_request e.text), w)
  after_parse fuel id (ok p) w = after_image fuel id p (store.get_image id w)

  unfoldable pub after_id : ℕ → Option Uuid → Query → W → Option Answer
  after_id fuel none query w = some (plain (bad_request (codes "invalid image id")), w)
  after_id fuel (some id) query w = after_parse fuel id (parse query) w

  -- resolveVariant; `fuel` bounds the rounds of the polling loop.
  unfoldable pub resolve_variant : ℕ → Bytes → Query → W → Option Answer
  resolve_variant fuel id_str query w = after_id fuel (h.gen.uuid.parse id_str) query w
