-- ===== src/Worker/Process.antt =====
-- One delivery of a job, with the repository as its store and an imgproxy that is down.
use image_optimizer.Prelude.{
  ℕ, ◌<◌, ◌^◌, ltb, true, arith, ◌≡◌, refl, ◌∙◌, ap, ◌+◌, [], some, Bool-cases, inl, inr, Error,
  err, Result-cases,
}
use image_optimizer.Text.{Bytes}
use image_optimizer.Transform.Json.{params_from_json}
use image_optimizer.Imgproxy.{build_path}
use image_optimizer.Db.{Uuid, pending, failed, Variant, Tables, answered}
use image_optimizer.Db.Store
use image_optimizer.Db.Store.{find, update, with_id, execute}
use image_optimizer.Db.Rows.{find-update_self}
use image_optimizer.Backend.{World, store}
use image_optimizer.VariantGen.{transform_and_persist}
use image_optimizer.Worker.{
  max_attempts, Deps, Label, after_transform, after_attempt, by_status, after_read, process_id,
  process,
}

module _ {R : Type 0} where
  -- The tables, and the answers to come, stay as they are.
  abbrev pub Kept : World R → World R → Type 0
  Kept w w' = (w'.tables ≡ w.tables) × (w'.answers ≡ w.answers)

  -- Every later statement is answered, and the row of `id` is pending after `n` attempts.
  abbrev pub IsWaiting : Uuid → ℕ → World R → Type 0
  IsWaiting id n w =
      (v : Variant) × (find (with_id id) w.tables.variants ≡ some v)
      × (v.status ≡ pending)
      × (v.attempts ≡ n)
      × (w.answers ≡ [])

  -- The row of `id` is failed after `n` attempts.
  abbrev pub IsFailed : Uuid → ℕ → World R → Type 0
  IsFailed id n w =
      (v : Variant) × (find (with_id id) w.tables.variants ≡ some v)
      × (v.status ≡ failed)
      × (v.attempts ≡ n)

  -- imgproxy, the timer and the counters do not write to the database, and every fetch fails.
  pub record IsDown (d : Deps (World R)) : Type 0 where
    pub fetch :
        (path : Bytes) (w : World R)
        → (e : Error) × (w' : World R) × (d.gen.imgproxy.fetch path w ≡ (err e, w')) × Kept w w'
    pub wait : (n : ℕ) (w : World R) → Kept w (d.wait n w).1
    pub count : (label : Label) (w : World R) → Kept w (d.count label w)

  -- The worker on the repository.
  abbrev pub with_store : Error → (ℕ → Uuid) → Deps (World R) → Deps (World R)
  with_store violation new_uuid d = record d {
    gen = record d.gen { db = store violation new_uuid };
  }

  module _ (violation : Error) (new_uuid : ℕ → Uuid) (d : Deps (World R)) (down : IsDown d) where
    abbrev on_store : Deps (World R)
    on_store = with_store violation new_uuid d

    -- Without imgproxy the variant is not made, and the tables stay.
    transform_and_persist-fails :
        (v : Variant) (w : World R)
        → w.answers ≡ []
        → (e : Error) × (w' : World R) × (transform_and_persist on_store.gen v w ≡ (err e, w'))
          × Kept w w'
    unfolding transform_and_persist store
    transform_and_persist-fails v w none_lost = elim (Bool-cases d.gen.complete) [
      | inr c ↦ rw c (_, w, refl, (refl, refl))
      | inl c ↦ elim (Result-cases (Store.get_image v.image_id answered w.tables)) [
        | inr (e, i) ↦ rw (c, none_lost, i) (_, _, refl, (refl, refl))
        | inl (img, i) ↦ elim (Result-cases (params_from_json d.gen.json_error v.params_json)) [
          | inr (e, p) ↦ rw (c, none_lost, i, p) (_, _, refl, (refl, refl))
          | inl (params, p) ↦
              let (e, w', f, k) =
                down.fetch (build_path d.gen.unicode d.gen.s3_bucket img.original_path params)
                  (record w { answers = [] }) in
              rw (c, none_lost, i, p, f) (_, w', refl, k)
        ]
      ]
    ]

    -- The row after IncrAttempts.
    abbrev pub counted : ℕ → Variant → Variant
    counted now v = record v { attempts = v.attempts + 1; updated_at = now }

    -- The world when the fetch has failed: the attempt is counted, and all else stands.
    abbrev pub IsCounted : Uuid → World R → Variant → World R → Type 0
    IsCounted id w v w' =
        (w'.answers ≡ []) × (find (with_id id) w'.tables.variants ≡ some (counted w.now v))

    pub attempt :
        (text : Bytes) (id : Uuid) (v : Variant) (w : World R)
        → d.gen.uuid.parse text ≡ some id
        → find (with_id id) w.tables.variants ≡ some v
        → v.status ≡ pending
        → v.attempts < max_attempts
        → w.answers ≡ []
        → (e : Error) × (w' : World R) × (process (with_store violation new_uuid d) text w
            ≡ after_transform (with_store violation new_uuid d) id (v.attempts + 1) (err e, w'))
          × IsCounted id w v w'
    unfolding process process_id after_read by_status after_attempt store Store.get_variant_by_id
        Store.incr_attempts execute
    attempt text id v w parsed found pending_row few none_lost =
        let after = record w {
          tables = record w.tables {
            variants = update (with_id id) (counted w.now) w.tables.variants;
          };
          answers = [];
        } in
        let (e, w', t, k) = transform_and_persist-fails v after refl in
        let seen =
          find-update_self (with_id id) (counted w.now) w.tables.variants v (λ y. refl) found in
        let w1 = record w { answers = [] } in
        let read : process (with_store violation new_uuid d) text w
            ≡ by_status on_store v.status v id w1 =
          rw (parsed, none_lost, found) refl in
        let fits : ltb (v.attempts + 1) (2 ^ 31) ≡ true = ground arith in
        let tried : by_status on_store pending v id w1
            ≡ after_transform on_store id (v.attempts + 1) (err e, w') =
          rw (found, fits, t) refl in
        (
          e,
          w',
          read ∙ ap (λ s. by_status on_store s v id w1) pending_row ∙ tried,
          (k.1, ap (λ (db : Tables). find (with_id id) db.variants) k.0 ∙ seen),
        )
