-- ===== src/Worker/Respects.antt =====
-- A job of internal/worker/worker.go respects each relation between worlds that its calls respect.
use image_optimizer.Prelude.{
  ℕ, codes, not, Option, none, some, Error, errorf, Result, ok, err, leb, Bool-cases, inl, inr,
}
use image_optimizer.Text.{Bytes}
use image_optimizer.Transform.{Params}
use image_optimizer.Transform.Json.{params_from_json}
use image_optimizer.Imgproxy.{build_path}
use image_optimizer.Db.{Uuid, Status, pending, ready, failed, unknown, Image, Variant}
use image_optimizer.Services.Calls.{Action, lift, fail_if, context, ◌>>=◌}
use image_optimizer.Services.Respects.{
  IsPreorder, Respects, fail_if-Respects, bind-Respects, context-Respects,
}
use image_optimizer.VariantGen
use image_optimizer.VariantGen.{transform_and_persist}
use image_optimizer.Worker.{
  Deps, Label, max_attempts, backoff_duration, truncate_err, after_mark, after_wait,
  after_transform, after_attempt, by_status, after_read, process_id, process,
}

module _ {W : Type 0} (R : W → W → Type 0) where
  -- The calls of the generator.
  pub record HasGen (d : VariantGen.Deps W) : Type 0 where
    pub get_image : (id : Uuid) → Respects R (d.db.get_image id)
    pub fetch : (path : Bytes) → Respects R (d.imgproxy.fetch path)
    pub write_variant : (id hash bytes : Bytes) → Respects R (d.storage.write_variant id hash bytes)
    pub mark_ready : (id : Uuid) (path : Bytes) → Respects R (d.db.mark_ready id path)

  -- The calls of a job.
  pub record HasJob (d : Deps W) : Type 0 where
    pub gen : HasGen d.gen
    pub get_variant_by_id : (id : Uuid) → Respects R (d.gen.db.get_variant_by_id id)
    pub incr_attempts : (id : Uuid) → Respects R (d.gen.db.incr_attempts id)
    pub mark_failed : (id : Uuid) (text : Bytes) → Respects R (d.gen.db.mark_failed id text)
    pub wait : (n : ℕ) → Respects R (d.wait n)
    pub count : (label : Label) (w : W) → R w (d.count label w)

  module _ (p : IsPreorder R) where
    module _ (d : VariantGen.Deps W) (h : HasGen d) where
      abbrev persist : Variant → Bytes → Action W (Unit {0})
      persist v fetched = do
        rel ←
            context (codes "write variant")
              (d.storage.write_variant (d.uuid.print v.image_id) v.params_hash fetched)
        context (codes "mark ready") (d.db.mark_ready v.id rel)

      abbrev generate : Variant → Image → Action W (Unit {0})
      generate v img = do
        params ← lift (params_from_json d.json_error v.params_json)
        fetched ←
            context (codes "imgproxy fetch")
              (d.imgproxy.fetch (build_path d.unicode d.s3_bucket img.original_path params))
        persist v fetched

      persist-Respects : (v : Variant) (fetched : Bytes) → Respects R (persist v fetched)
      persist-Respects v fetched =
          let write = d.storage.write_variant (d.uuid.print v.image_id) v.params_hash fetched in
          bind-Respects R p (context (codes "write variant") write)
            (λ rel. context (codes "mark ready") (d.db.mark_ready v.id rel))
            (context-Respects R p (codes "write variant") write
              (h.write_variant (d.uuid.print v.image_id) v.params_hash fetched))
            (λ rel.
              context-Respects R p (codes "mark ready") (d.db.mark_ready v.id rel)
                (h.mark_ready v.id rel))

      generate-Respects : (v : Variant) (img : Image) → Respects R (generate v img)
      generate-Respects v img =
          let path : Params → Bytes =
            λ params. build_path d.unicode d.s3_bucket img.original_path params in
          bind-Respects R p (lift (params_from_json d.json_error v.params_json))
            (λ params.
              context (codes "imgproxy fetch") (d.imgproxy.fetch (path params)) >>= persist v)
            p.same
            (λ params.
              bind-Respects R p (context (codes "imgproxy fetch") (d.imgproxy.fetch (path params)))
                (persist v)
                (context-Respects R p (codes "imgproxy fetch") (d.imgproxy.fetch (path params))
                  (h.fetch (path params)))
                (persist-Respects v))

      transform_and_persist-Respects : (v : Variant) → Respects R (transform_and_persist d v)
      unfolding transform_and_persist
      transform_and_persist-Respects v =
          bind-Respects R p
            (fail_if (not d.complete) (errorf (codes "variantgen: incomplete deps")))
            (λ _. context (codes "get image") (d.db.get_image v.image_id) >>= generate v)
            (fail_if-Respects R p (not d.complete) (errorf (codes "variantgen: incomplete deps")))
            (λ _.
              bind-Respects R p (context (codes "get image") (d.db.get_image v.image_id))
                (generate v)
                (context-Respects R p (codes "get image") (d.db.get_image v.image_id)
                  (h.get_image v.image_id))
                (generate-Respects v))

    module _ (d : Deps W) (h : HasJob d) where
      counted : (label : Label) (w w' : W) → R w w' → R w (d.count label w')
      counted label w w' r = p.next w w' (d.count label w') r (h.count label w')

      after_mark-Respects :
          (w : W) (r : Result (Unit {0})) (w' : W) → R w w' → R w (after_mark d (r, w')).1
      unfolding after_mark
      after_mark-Respects w (ok t) w' k = counted _ w w' k
      after_mark-Respects w (err e) w' k = counted _ w w' k

      after_wait-Respects :
          (e : Error) (w : W) (r : Result (Unit {0})) (w' : W)
          → R w w'
          → R w (after_wait d e (r, w')).1
      unfolding after_wait
      after_wait-Respects e w (ok t) w' k = counted _ w w' k
      after_wait-Respects e w (err x) w' k = counted _ w w' k

      after_transform-Respects :
          (id : Uuid) (n : ℕ) (w : W) (r : Result (Unit {0})) (w' : W)
          → R w w'
          → R w (after_transform d id n (r, w')).1
      unfolding after_transform
      after_transform-Respects id n w (ok t) w' k = counted _ w w' k
      after_transform-Respects id n w (err e) w' k = elim (Bool-cases (leb max_attempts n)) [
        | inl m ↦
            let text = truncate_err e 500 in
            let s = d.gen.db.mark_failed id text w' in
            rw m (after_mark-Respects w s.0 s.1 (p.next w w' s.1 k (h.mark_failed id text w')))
        | inr m ↦
            let s = d.wait (backoff_duration n) w' in
            rw m
              (after_wait-Respects e w s.0 s.1 (p.next w w' s.1 k (h.wait (backoff_duration n) w')))
      ]

      after_attempt-Respects :
          (v : Variant) (id : Uuid) (w : W) (r : Result ℕ) (w' : W)
          → R w w'
          → R w (after_attempt d v id (r, w')).1
      unfolding after_attempt
      after_attempt-Respects v id w (err e) w' k = counted _ w w' k
      after_attempt-Respects v id w (ok n) w' k =
          let t = transform_and_persist d.gen v w' in
          after_transform-Respects id n w t.0 t.1
            (p.next w w' t.1 k (transform_and_persist-Respects d.gen h.gen v w'))

      by_status-Respects :
          (s : Status) (v : Variant) (id : Uuid) (w : W) → R w (by_status d s v id w).1
      unfolding by_status
      by_status-Respects ready v id w = p.same w
      by_status-Respects failed v id w = p.same w
      by_status-Respects pending v id w =
          let a = d.gen.db.incr_attempts id w in
          after_attempt-Respects v id w a.0 a.1 (h.incr_attempts id w)
      by_status-Respects (unknown s) v id w =
          let a = d.gen.db.incr_attempts id w in
          after_attempt-Respects v id w a.0 a.1 (h.incr_attempts id w)

      after_read-Respects :
          (id : Uuid) (w : W) (r : Result Variant) (w' : W)
          → R w w'
          → R w (after_read d id (r, w')).1
      unfolding after_read
      after_read-Respects id w (ok v) w' k =
          p.next w w' (by_status d v.status v id w').1 k (by_status-Respects v.status v id w')
      after_read-Respects id w (err e) w' k = elim (Bool-cases e.is_not_found) [
        | inl n ↦ rw n k
        | inr n ↦ rw n (counted _ w w' k)
      ]

      process_id-Respects : (id : Option Uuid) (w : W) → R w (process_id d id w).1
      unfolding process_id
      process_id-Respects none w = p.same w
      process_id-Respects (some id) w =
          let r = d.gen.db.get_variant_by_id id w in
          after_read-Respects id w r.0 r.1 (h.get_variant_by_id id w)

      pub process-Respects : (text : Bytes) (w : W) → R w (process d text w).1
      unfolding process
      process-Respects text w = process_id-Respects (d.gen.uuid.parse text) w
