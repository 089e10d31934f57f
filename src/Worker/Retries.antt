-- ===== src/Worker/Retries.antt =====
-- A job of internal/worker/worker.go whose fetch always fails, delivered again and again.
use image_optimizer.Prelude.{
  ℕ, zero, suc, ◌≡◌, refl, ◌∙◌, ap, ◌<◌, true, false, ◌+◌, [], none, some, arith, Error, Result, ok,
  err, leb,
}
use image_optimizer.Text.{Bytes, is_empty}
use image_optimizer.Db.{Uuid, Variant, Tables}
use image_optimizer.Db.Store
use image_optimizer.Db.Store.{find, update, with_id, execute}
use image_optimizer.Db.Rows.{find-update_self, any_of_find}
use image_optimizer.Backend.{World, store}
use image_optimizer.Worker.{
  Deps, gave_up, requeued, max_attempts, backoff_duration, truncate_err, after_mark, after_wait,
  after_transform, process, Settle, ack, nack, settle, handle_delivery,
}
use image_optimizer.Worker.Process.{Kept, IsWaiting, IsFailed, IsDown, with_store, attempt}

abbrev again : {W : Type 0} → (W → Settle × W) → Settle × W → Settle × W
again next (nack true, w) = next w
again next (nack false, w) = (nack false, w)
again next (ack, w) = (ack, w)

-- The broker: a message that is put back is delivered again, `n` times at most in all.
unfoldable pub redeliver : {W : Type 0} → ℕ → (W → Settle × W) → W → Settle × W
redeliver zero job w = (nack true, w)
redeliver (suc n) job w = again (redeliver n job) (job w)

module _ {R : Type 0} (violation : Error) (new_uuid : ℕ → Uuid) (d : Deps (World R))
    (down : IsDown d) where
  abbrev worker : Deps (World R)
  worker = with_store violation new_uuid d

  -- A failed wait puts the message back as well.
  waited :
      (e : Error) (p : Result (Unit {0}) × World R)
      → (f : Error) × (after_wait worker e p ≡ (some f, d.count requeued p.1))
  unfolding after_wait
  waited e (ok t, w) = (e, refl)
  waited e (err f, w) = (f, refl)

  marked :
      (id : Uuid) (text : Bytes) (v : Variant) (w : World R)
      → w.answers ≡ []
      → find (with_id id) w.tables.variants ≡ some v
      → (w' : World R) × (after_mark worker ((store violation new_uuid).mark_failed id text w)
          ≡ (none, d.count gave_up w'))
        × IsFailed id v.attempts w'
  unfolding after_mark store Store.mark_failed execute
  marked id text v w none_lost found =
      rw (none_lost, any_of_find (with_id id) w.tables.variants v found)
        (
          _,
          refl,
          (_, find-update_self (with_id id) _ w.tables.variants v (λ y. refl) found, refl, refl),
        )

  IsWaiting-Kept :
      (id : Uuid) (n : ℕ) (w w' : World R) → Kept w w' → IsWaiting id n w → IsWaiting id n w'
  IsWaiting-Kept id n w w' (t, a) (v, found, s, k, none_lost) =
      (v, ap (λ (db : Tables). find (with_id id) db.variants) t ∙ found, s, k, a ∙ none_lost)

  module _ (text : Bytes) (id : Uuid) (parsed : d.gen.uuid.parse text ≡ some id)
      (filled : is_empty text ≡ false) where
    abbrev delivery : World R → Settle × World R
    delivery = handle_delivery (process worker) (some text)

    -- Before the third attempt the message goes back, and the attempt is counted.
    put_back :
        (n : ℕ) (w : World R)
        → suc n < max_attempts
        → IsWaiting id n w
        → (w' : World R) × (delivery w ≡ (nack true, w')) × IsWaiting id (suc n) w'
    unfolding handle_delivery settle after_transform
    put_back n w few (v, found, s, k, none_lost) =
        let (e, w1, tried, (quiet, counts)) =
          attempt violation new_uuid d down text id v w parsed found s (omega arith) none_lost in
        let delay = backoff_duration (v.attempts + 1) in
        let (f, back) = waited e (d.wait delay w1) in
        let (t, a) = down.wait delay w1 in
        let (t', a') = down.count requeued (d.wait delay w1).1 in
        let late : leb max_attempts (v.attempts + 1) ≡ false = ground arith in
        rw (tried, filled, late, back)
          (
            d.count requeued (d.wait delay w1).1,
            refl,
            IsWaiting-Kept id (suc n) w1 (d.count requeued (d.wait delay w1).1) (t' ∙ t, a' ∙ a)
                (_, counts, s, ground arith, quiet),
          )

    -- The third attempt is the last: the message is settled, and the row is failed.
    given_up :
        (n : ℕ) (w : World R)
        → suc n ≡ max_attempts
        → IsWaiting id n w
        → (w' : World R) × (delivery w ≡ (ack, w')) × IsFailed id max_attempts w'
    unfolding handle_delivery settle after_transform
    given_up n w last (v, found, s, k, none_lost) =
        let (e, w1, tried, (quiet, counts)) =
          attempt violation new_uuid d down text id v w parsed found s (omega arith) none_lost in
        let (w2, done, (x, seen, is_failed, same_attempts)) =
          marked id (truncate_err e 500) _ w1 quiet counts in
        let (t, a) = down.count gave_up w2 in
        let late : leb max_attempts (v.attempts + 1) ≡ true = ground arith in
        rw (tried, filled, late, done)
          (
            d.count gave_up w2,
            refl,
            (
              x,
              ap (λ (db : Tables). find (with_id id) db.variants) t ∙ seen,
              is_failed,
              ground arith,
            ),
          )

    -- While every later statement is answered, every fetch from imgproxy fails, and fetches, waits
    -- and counters leave the database alone, a job whose row is pending after n attempts, with k + 1
    -- + n equal to the limit of 3, is settled after at most k + 1 deliveries: it is acknowledged,
    -- and its row is failed with 3 attempts. The message's text is not empty and reads as the row's
    -- identifier.
    pub redeliver-gives_up :
        (k n : ℕ) (w : World R)
        → suc k + n ≡ max_attempts
        → IsWaiting id n w
        → ((redeliver (suc k) delivery w).0 ≡ ack)
          × IsFailed id max_attempts (redeliver (suc k) delivery w).1
    unfolding redeliver
    redeliver-gives_up zero n w e h =
        let (w', once, f) = given_up n w (omega arith) h in rw once (refl, f)
    redeliver-gives_up (suc k) n w e h =
        let (w', once, later_on) = put_back n w (omega arith) h in
        rw once (redeliver-gives_up k (suc n) w' (omega arith) later_on)
