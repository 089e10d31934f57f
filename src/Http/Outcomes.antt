-- ===== src/Http/Outcomes.antt =====
-- What resolveVariant returns, and where it has read it, whatever the database, the storage, imgproxy, the queue and the
-- clock do.
use image_optimizer.Prelude.{
  ℕ, zero, suc, ◌+◌, ◌≡◌, refl, ap, Option-cases, Result-cases, inl, inr, Bool, true, false, Option,
  none, some, Result, ok, err, ltb, Bool-cases,
}
use image_optimizer.Text.{Bytes}
use image_optimizer.Transform.{Params, Query, parse, hash}
use image_optimizer.Transform.Json.{cache_key_json}
use image_optimizer.Db.{Uuid, Status, pending, ready, failed, unknown, Image, Variant}
use image_optimizer.Http.{Resolved, ResolveResult, Handler}
use image_optimizer.Http.Resolve.{
  Polled, returned, timed_out, out_of_fuel, publish_best_effort, seen, after_remaining,
  after_poll_wait, after_seen, after_poll, before_deadline, poll, last_status, last_look,
  after_loop, from_start, wait_or_sync, by_status, by_created, after_upsert, after_lookup,
  after_image, after_parse, after_id, resolve_variant, store,
}
use image_optimizer.Http.Reads.{
  IsRead, by_hash, by_upsert, Agrees, IsSound, IsAnswerTo, IfAnswered, Reads, IsFine, IsFineAnswer,
  id-Reads, seen-Fits, sync-IsFine, sync-miss,
}

module _ {W : Type 0} (h : Handler W) where
  module _ (image : Uuid) (p : Params) where
    -- What `IsFine` says of the answer of a poll.
    abbrev IsFinePoll : Polled × W → Type 0
    IsFinePoll (returned r, w) = IsSound h image p r w
    IsFinePoll (timed_out, w) = Unit
    IsFinePoll (out_of_fuel, w) = Unit

    -- A round is sound if the rounds after it are.
    module _ (deadline : ℕ) (again : W → Polled × W) (ih : (w : W) → IsFinePoll (again w)) where
      remaining_sound : (c : ℕ × W) → IsFinePoll (after_remaining h deadline again c)
      unfolding after_remaining
      remaining_sound (t, w) = elim (Bool-cases (ltb t deadline)) [
        | inl e ↦ rw e (ih w)
        | inr e ↦ rw e tt
      ]

      poll_wait_sound : (c : Bool × W) → IsFinePoll (after_poll_wait h deadline again c)
      unfolding after_poll_wait
      poll_wait_sound (true, w) = record { agrees = tt; apart = inl refl }
      poll_wait_sound (false, w) = remaining_sound (h.clock.now w)

      after_seen_sound :
          (o : Option Resolved) (w : W)
          → ((r : Resolved) → o ≡ some r → Agrees h image p r w)
          → IsFinePoll (after_seen h deadline again o w)
      unfolding after_seen
      after_seen_sound (some r) w k = record { agrees = k r refl; apart = inl refl }
      after_seen_sound none w k = poll_wait_sound (h.clock.poll_wait w)

      after_poll_sound :
          (c : Result Variant × W) → Reads h image p c → IsFinePoll (after_poll h deadline again c)
      unfolding after_poll
      after_poll_sound (r, w) k = after_seen_sound (seen r) w (seen-Fits h image p r w k)

      round_sound :
          (v : Variant) (w0 : W)
          → IsRead h image p v w0
          → (c : ℕ × W) → IsFinePoll (before_deadline h deadline again v.id c)
      unfolding before_deadline
      round_sound v w0 found (t, w) = elim (Bool-cases (ltb t deadline)) [
        | inl e ↦ rw e (after_poll_sound _ (id-Reads h image p v w0 found w))
        | inr e ↦ rw e tt
      ]

    -- With a row that has been read, in `w0`.
    module _ (v : Variant) (w0 : W) (found : IsRead h image p v w0) where
      poll_sound : (fuel deadline : ℕ) (w : W) → IsFinePoll (poll h fuel deadline v.id w)
      unfolding poll
      poll_sound zero deadline w = tt
      poll_sound (suc fuel) deadline w =
          round_sound deadline (poll h fuel deadline v.id) (poll_sound fuel deadline) v w0 found
            (h.clock.now w)

    last_status-IsFine :
        (s : Status) (v : Variant) (w : W)
        → v.status ≡ s
        → IsRead h image p v w
        → IsFine h image p (last_status h s v w)
    unfolding last_status
    last_status-IsFine ready v w e k = record { agrees = (e, k); apart = inl refl }
    last_status-IsFine failed v w e k = record { agrees = (e, k); apart = inl refl }
    last_status-IsFine pending v w e k = record {
      agrees = (sync-IsFine h image p v w k false w).agrees;
      apart = inl (sync-miss h v false w);
    }
    last_status-IsFine (unknown s) v w e k = record { agrees = tt; apart = inl refl }

    last_look-IsFine :
        (c : Result Variant × W) → Reads h image p c → IsFine h image p (last_look h c)
    unfolding last_look
    last_look-IsFine (ok v, w) k = last_status-IsFine v.status v w refl (k v refl)
    last_look-IsFine (err e, w) k = record { agrees = tt; apart = inl refl }

    module _ (v : Variant) (w0 : W) (found : IsRead h image p v w0) where
      after_loop_sound :
          (c : Polled × W) → IsFinePoll c → IsFineAnswer h image p (after_loop h v.id c)
      unfolding after_loop
      after_loop_sound (returned r, w) k = k
      after_loop_sound (timed_out, w) k = last_look-IsFine _ (id-Reads h image p v w0 found w)
      after_loop_sound (out_of_fuel, w) k = tt

      from_start_sound : (fuel : ℕ) (c : ℕ × W) → IsFineAnswer h image p (from_start h fuel v.id c)
      unfolding from_start
      from_start_sound fuel (t, w) =
          after_loop_sound (poll h fuel (t + h.sync_timeout) v.id w)
            (poll_sound v w0 found fuel (t + h.sync_timeout) w)

    by_status_sound :
        (fuel : ℕ) (s : Status) (v : Variant) (w : W)
        → v.status ≡ s
        → IsRead h image p v w
        → IsFineAnswer h image p (by_status h fuel s v w)
    unfolding by_status wait_or_sync
    by_status_sound fuel ready v w e k = record { agrees = (e, k); apart = inl refl }
    by_status_sound fuel failed v w e k = record { agrees = (e, k); apart = inl refl }
    by_status_sound fuel pending v w e k = from_start_sound v w k fuel (h.clock.now w)
    by_status_sound fuel (unknown s) v w e k = record { agrees = tt; apart = inl refl }

    by_created_sound :
        (fuel : ℕ) (created : Bool) (s : Status) (v : Variant) (w : W)
        → v.status ≡ s
        → IsRead h image p v w
        → IsFineAnswer h image p (by_created h fuel created s v w)
    unfolding by_created
    by_created_sound fuel true pending v w e k =
        sync-IsFine h image p v w k true (publish_best_effort h v.id w)
    by_created_sound fuel true ready v w e k = by_status_sound fuel ready v w e k
    by_created_sound fuel true failed v w e k = by_status_sound fuel failed v w e k
    by_created_sound fuel true (unknown s) v w e k = by_status_sound fuel (unknown s) v w e k
    by_created_sound fuel false s v w e k = by_status_sound fuel s v w e k

    after_upsert_sound :
        (fuel : ℕ) (c : Result (Variant × Bool) × W)
        → ((v : Variant) (created : Bool) → c.0 ≡ ok (v, created) → IsRead h image p v c.1)
        → IsFineAnswer h image p (after_upsert h fuel c)
    unfolding after_upsert
    after_upsert_sound fuel (ok (v, created), w) k =
        by_created_sound fuel created v.status v w refl (k v created refl)
    after_upsert_sound fuel (err e, w) k = record { agrees = tt; apart = inl refl }

    upsert_sound :
        (fuel : ℕ) (w : W)
        → IsFineAnswer h image p (
            after_upsert h fuel
              ((store h).upsert_pending_variant image (hash h.sum256 p) (cache_key_json p) w))
    upsert_sound fuel w =
        let c = (store h).upsert_pending_variant image (hash h.sum256 p) (cache_key_json p) w in
        after_upsert_sound fuel c (λ v created e. by_upsert (ap (λ r. (r, c.1)) e))

    after_lookup_sound :
        (fuel : ℕ) (c : Result Variant × W)
        → Reads h image p c
        → IsFineAnswer h image p (after_lookup h fuel image p c)
    unfolding after_lookup
    after_lookup_sound fuel (ok v, w) k = by_status_sound fuel v.status v w refl (k v refl)
    after_lookup_sound fuel (err e, w) k = elim (Bool-cases e.is_not_found) [
      | inl t ↦ rw t (upsert_sound fuel w)
      | inr t ↦ rw t (record { agrees = tt; apart = inl refl })
    ]

    after_image_sound :
        (fuel : ℕ) (c : Result Image × W) → IsFineAnswer h image p (after_image h fuel image p c)
    unfolding after_image
    after_image_sound fuel (ok img, w) =
        let c = (store h).get_variant_by_hash image (hash h.sum256 p) w in
        after_lookup_sound fuel c (λ v e. by_hash (ap (λ r. (r, c.1)) e))
    after_image_sound fuel (err e, w) = record {
      agrees = elim (Bool-cases e.is_not_found) [ inl t ↦ rw t tt | inr t ↦ rw t tt ];
      apart = inl refl;
    }

  IfAnswered-map :
      (P Q : ResolveResult × W → Type 0) (o : Option (ResolveResult × W))
      → ((a : ResolveResult × W) → P a → Q a)
      → IfAnswered P o
      → IfAnswered Q o
  IfAnswered-map P Q none k a = tt
  IfAnswered-map P Q (some a) k s = k a s

  -- Whatever the fuel and the world, an answer of resolveVariant is one to the request.
  pub resolve_variant-IsAnswerTo :
      (fuel : ℕ) (id_str : Bytes) (query : Query) (w : W)
      → IfAnswered (IsAnswerTo h id_str query w) (resolve_variant h fuel id_str query w)
  unfolding resolve_variant after_id after_parse
  resolve_variant-IsAnswerTo fuel id_str query w = elim (Option-cases (h.gen.uuid.parse id_str)) [
    | inl n ↦ rw n (inl (inl n, (_, refl)))
    | inr (image, i) ↦ elim (Result-cases (parse query)) [
      | inr (e, q) ↦ rw (i, q) (inl (inr (e, q), (_, refl)))
      | inl (p, q) ↦
          rw (i, q)
            (IfAnswered-map (λ a. IsSound h image p a.0 a.1) (IsAnswerTo h id_str query w) _
              (λ a s. inr (image, p, i, q, s)) (after_image_sound image p fuel _))
    ]
  ]
