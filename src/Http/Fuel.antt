-- ===== src/Http/Fuel.antt =====
-- The fuel of the polling loop of waitOrSync in internal/http/handlers.go, and the clock behind it.
use image_optimizer.Prelude.{
  ℕ, zero, suc, ◌+◌, ◌*◌, ◌≤◌, ◌<◌, ◌≡◌, refl, inl, inr, Bool, true, false, Option, none, some,
  arith, Result, ok, err, ltb, Bool-cases,
}
use image_optimizer.Text.{Bytes}
use image_optimizer.Transform.{Params, Query, parse}
use image_optimizer.Db.{Uuid, Status, pending, ready, failed, unknown, Image, Variant}
use image_optimizer.Http.{Resolved, ResolveResult, Handler}
use image_optimizer.Http.Resolve.{
  Polled, returned, timed_out, out_of_fuel, seen, after_remaining, after_poll_wait, after_seen,
  after_poll, before_deadline, poll, after_loop, from_start, wait_or_sync, by_status, by_created,
  after_upsert, after_lookup, after_image, after_parse, after_id, resolve_variant, store,
}
use image_optimizer.Http.Reads.{IfAnswered, IsAnswerTo}
use image_optimizer.Http.Outcomes.{resolve_variant-IsAnswerTo}

-- peerReadyPollInterval, in nanoseconds
abbrev pub poll_interval : ℕ
poll_interval = 50000000

-- What packages time and context promise: the clock never runs back, and a wait that is not cut
-- short lasts its interval.
pub record HasClock {W : Type 0} (h : Handler W) (reading : W → ℕ) : Type 0 where
  pub now_reads : (w : W) → (h.clock.now w).0 ≡ reading w
  pub now_keeps : (w : W) → reading w ≤ reading (h.clock.now w).1
  pub read_keeps : (id : Uuid) (w : W) → reading w ≤ reading (h.gen.db.get_variant_by_id id w).1
  pub wait_ticks :
      (w : W)
      → (h.clock.poll_wait w).0 ≡ false
      → reading w + poll_interval ≤ reading (h.clock.poll_wait w).1

abbrev HasFuel : {W : Type 0} → Polled × W → Type 0
HasFuel (returned r, w) = Unit
HasFuel (timed_out, w) = Unit
HasFuel (out_of_fuel, w) = ⊥

module _ {W : Type 0} (h : Handler W) (reading : W → ℕ) (c : HasClock h reading) where
  -- The rest of the loop has fuel from every world in which the clock has reached `from`, if that
  -- is before the deadline.
  module _ (deadline from : ℕ) (again : W → Polled × W)
      (ih : (w : W) → from < deadline → from ≤ reading w → HasFuel (again w)) where
    remaining-HasFuel :
        (p : ℕ × W) → from ≤ p.0 → from ≤ reading p.1 → HasFuel (after_remaining h deadline again p)
    unfolding after_remaining
    remaining-HasFuel (t, w) early k = elim (Bool-cases (ltb t deadline)) [
      | inl e ↦ let before : t < deadline = ground arith in rw e (ih w (omega arith) k)
      | inr e ↦ rw e tt
    ]

    poll_wait-HasFuel :
        (p : Bool × W)
        → (p.0 ≡ false → from ≤ reading p.1)
        → HasFuel (after_poll_wait h deadline again p)
    unfolding after_poll_wait
    poll_wait-HasFuel (true, w) k = tt
    poll_wait-HasFuel (false, w) k =
        let later = c.now_keeps w in
        let read = c.now_reads w in
        let start = k refl in remaining-HasFuel (h.clock.now w) (omega arith) (omega arith)

    after_seen-HasFuel :
        (o : Option Resolved) (w : W)
        → from ≤ reading w + poll_interval
        → HasFuel (after_seen h deadline again o w)
    unfolding after_seen
    after_seen-HasFuel (some r) w k = tt
    after_seen-HasFuel none w k =
        poll_wait-HasFuel (h.clock.poll_wait w) (λ e. let t = c.wait_ticks w e in omega arith)

    round-HasFuel :
        (id : Uuid) (p : ℕ × W)
        → from ≤ reading p.1 + poll_interval
        → HasFuel (before_deadline h deadline again id p)
    unfolding before_deadline after_poll
    round-HasFuel id (t, w) k =
        let later = c.read_keeps id w in
        let (r, w') = (store h).get_variant_by_id id w in
        elim (Bool-cases (ltb t deadline)) [
          | inl e ↦ rw e (after_seen-HasFuel (seen r) w' (omega arith))
          | inr e ↦ rw e tt
        ]

  poll-HasFuel :
      (fuel from deadline : ℕ) (id : Uuid) (w : W)
      → from < deadline
      → from ≤ reading w
      → deadline < from + fuel * poll_interval
      → HasFuel (poll h fuel deadline id w)
  unfolding poll
  poll-HasFuel zero from deadline id w early start k = absurd (omega arith)
  poll-HasFuel (suc fuel) from deadline id w early start k =
      let later = c.now_keeps w in
      round-HasFuel deadline (reading w + poll_interval) (poll h fuel deadline id)
        (λ w' early' start'.
          poll-HasFuel fuel (reading w + poll_interval) deadline id w' early' start' (omega arith))
        id (h.clock.now w) (omega arith)

  abbrev HasAnswer : Option (ResolveResult × W) → Type 0
  HasAnswer none = ⊥
  HasAnswer (some a) = Unit

  after_loop-HasAnswer : (id : Uuid) (p : Polled × W) → HasFuel p → HasAnswer (after_loop h id p)
  unfolding after_loop
  after_loop-HasAnswer id (returned r, w) k = tt
  after_loop-HasAnswer id (timed_out, w) k = tt
  after_loop-HasAnswer id (out_of_fuel, w) k = k

  module _ (fuel : ℕ) (positive : 0 < h.sync_timeout)
      (enough : h.sync_timeout < fuel * poll_interval) where
    from_start-HasAnswer :
        (id : Uuid) (p : ℕ × W) → p.0 ≤ reading p.1 → HasAnswer (from_start h fuel id p)
    unfolding from_start
    from_start-HasAnswer id (t, w) k =
        after_loop-HasAnswer id (poll h fuel (t + h.sync_timeout) id w)
          (poll-HasFuel fuel t (t + h.sync_timeout) id w (omega arith) k (omega arith))

    by_status-HasAnswer : (s : Status) (v : Variant) (w : W) → HasAnswer (by_status h fuel s v w)
    unfolding by_status wait_or_sync
    by_status-HasAnswer ready v w = tt
    by_status-HasAnswer failed v w = tt
    by_status-HasAnswer pending v w =
        let read = c.now_reads w in
        let later = c.now_keeps w in from_start-HasAnswer v.id (h.clock.now w) (omega arith)
    by_status-HasAnswer (unknown s) v w = tt

    by_created-HasAnswer :
        (created : Bool) (s : Status) (v : Variant) (w : W)
        → HasAnswer (by_created h fuel created s v w)
    unfolding by_created
    by_created-HasAnswer true pending v w = tt
    by_created-HasAnswer true ready v w = by_status-HasAnswer ready v w
    by_created-HasAnswer true failed v w = by_status-HasAnswer failed v w
    by_created-HasAnswer true (unknown s) v w = by_status-HasAnswer (unknown s) v w
    by_created-HasAnswer false s v w = by_status-HasAnswer s v w

    after_upsert-HasAnswer : (p : Result (Variant × Bool) × W) → HasAnswer (after_upsert h fuel p)
    unfolding after_upsert
    after_upsert-HasAnswer (ok (v, created), w) = by_created-HasAnswer created v.status v w
    after_upsert-HasAnswer (err e, w) = tt

    after_lookup-HasAnswer :
        (id : Uuid) (q : Params) (p : Result Variant × W) → HasAnswer (after_lookup h fuel id q p)
    unfolding after_lookup
    after_lookup-HasAnswer id q (ok v, w) = by_status-HasAnswer v.status v w
    after_lookup-HasAnswer id q (err e, w) = elim (Bool-cases e.is_not_found) [
      | inl t ↦ rw t (after_upsert-HasAnswer _)
      | inr t ↦ rw t tt
    ]

    after_image-HasAnswer :
        (id : Uuid) (q : Params) (p : Result Image × W) → HasAnswer (after_image h fuel id q p)
    unfolding after_image
    after_image-HasAnswer id q (ok img, w) = after_lookup-HasAnswer id q _
    after_image-HasAnswer id q (err e, w) = tt

    after_parse-HasAnswer :
        (id : Uuid) (r : Result Params) (w : W) → HasAnswer (after_parse h fuel id r w)
    unfolding after_parse
    after_parse-HasAnswer id (ok q) w = after_image-HasAnswer id q _
    after_parse-HasAnswer id (err e) w = tt

    after_id-HasAnswer :
        (o : Option Uuid) (query : Query) (w : W) → HasAnswer (after_id h fuel o query w)
    unfolding after_id
    after_id-HasAnswer none query w = tt
    after_id-HasAnswer (some id) query w = after_parse-HasAnswer id (parse query) w

    the_answer :
        (P : ResolveResult × W → Type 0) (o : Option (ResolveResult × W))
        → HasAnswer o
        → IfAnswered P o
        → (a : ResolveResult × W) × (o ≡ some a) × P a
    the_answer P none k s = absurd k
    the_answer P (some a) k s = (a, refl, s)

    -- If the clock never runs back, a poll wait that is not cut short takes its 50 ms, the timeout
    -- is positive, and the fuel times 50 ms is more than the timeout, then resolveVariant returns
    -- from every world, whatever the store, imgproxy, the storage and the queue answer. If the
    -- identifier is no UUID or Parse refuses the query, it returns a bad request and the world as it
    -- was. Otherwise it returns no bad request, and a variant that it returns as ready or as failed
    -- has that status and is what the last reading of the store returned, in the world that this
    -- reading has left: the search for the image and the hash of the parameters, the upsert for
    -- them, or the reading by the identifier of a row that was got in one of these ways. A result
    -- that counts as a miss is not marked as having waited.
    pub resolve_variant_total :
        (id_str : Bytes) (query : Query) (w : W)
        → (a : ResolveResult × W) × (resolve_variant h fuel id_str query w ≡ some a)
          × IsAnswerTo h id_str query w a
    resolve_variant_total id_str query w =
        the_answer (IsAnswerTo h id_str query w) (resolve_variant h fuel id_str query w)
          (unfold resolve_variant in after_id-HasAnswer (h.gen.uuid.parse id_str) query w)
          (resolve_variant-IsAnswerTo h fuel id_str query w)
