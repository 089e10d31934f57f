-- ===== src/Http/Reads.antt =====
-- The rows that resolveVariant of internal/http/handlers.go gets hold of, and its syncGenerate.
use image_optimizer.Prelude.{
  ◌≡◌, refl, ap, Error, ◌⊎◌, inl, inr, Bool, true, false, Option, none, some, arith, Result, ok,
  err, Bool-cases,
}
use mathlib.Core.Option.{some-injective}
use image_optimizer.Text.{Bytes}
use image_optimizer.Transform.{Params, Query, parse, hash}
use image_optimizer.Transform.Json.{cache_key_json}
use image_optimizer.Db.{Uuid, Status, pending, ready, failed, unknown, Variant}
use image_optimizer.Http.{Resolved, is_ready, is_failed, bad_request, ResolveResult, Handler}
use image_optimizer.Http.Resolve.{
  expired, reloaded, after_sync, sync_generate, seen_status, seen, store, if_ready, plain,
}

-- How a request for the parameters `p` of `image` gets hold of a row, and the world that the reading
-- leaves: by the hash, by the upsert, or by reading a row that it has got hold of again.
pub data IsRead {W : Type 0} (h : Handler W) (image : Uuid) (p : Params)
    : Variant → W → Type 0 where
  by_hash :
      {v : Variant} {w1 w : W}
      → h.gen.db.get_variant_by_hash image (hash h.sum256 p) w1 ≡ (ok v, w)
      → IsRead h image p v w
  by_upsert :
      {v : Variant} {created : Bool} {w1 w : W}
      → h.gen.db.upsert_pending_variant image (hash h.sum256 p) (cache_key_json p) w1
        ≡ (ok (v, created), w)
      → IsRead h image p v w
  again :
      {v0 v : Variant} {w0 w1 w : W}
      → IsRead h image p v0 w0
      → h.gen.db.get_variant_by_id v0.id w1 ≡ (ok v, w)
      → IsRead h image p v w

-- A variant is handed over only in the status that the outcome names and as the last call has read
-- it, and a request with an image and parameters is not a bad one.
abbrev pub Agrees : {W : Type 0} → Handler W → Uuid → Params → Resolved → W → Type 0
Agrees h image p (is_ready v) w = (v.status ≡ ready) × IsRead h image p v w
Agrees h image p (is_failed v) w = (v.status ≡ failed) × IsRead h image p v w
Agrees h image p (bad_request msg) w = ⊥
Agrees h image p _ w = Unit

-- The outcome agrees with the row, and a request that has made the variant has not waited.
pub record IsSound {W : Type 0} (h : Handler W) (image : Uuid) (p : Params) (r : ResolveResult)
    (w : W) : Type 0 where
  pub agrees : Agrees h image p r.outcome w
  pub apart : (r.miss ≡ false) ⊎ (r.waited ≡ false)

-- The identifier is no UUID, or Parse refuses the query.
abbrev pub IsInvalid : {W : Type 0} → Handler W → Bytes → Query → Type 0
IsInvalid h id_str query = (h.gen.uuid.parse id_str ≡ none) ⊎ ((e : Error) × (parse query ≡ err e))

-- A bad request that changes nothing, or a sound outcome for the image and the parameters.
abbrev pub IsAnswerTo : {W : Type 0} → Handler W → Bytes → Query → W → ResolveResult × W → Type 0
IsAnswerTo h id_str query w a =
    (IsInvalid h id_str query × ((msg : Bytes) × (a ≡ (plain (bad_request msg), w))))
    ⊎ ((image : Uuid) × (p : Params) × (h.gen.uuid.parse id_str ≡ some image)
        × (parse query ≡ ok p)
        × IsSound h image p a.0 a.1)

abbrev pub IfAnswered :
    {W : Type 0} → (ResolveResult × W → Type 0) → Option (ResolveResult × W) → Type 0
IfAnswered P none = Unit
IfAnswered P (some a) = P a

module _ {W : Type 0} (h : Handler W) where
  -- An inline transform in a request that has not made the row is no miss.
  pub sync-miss : (v : Variant) (miss : Bool) (w : W) → (sync_generate h v miss w).0.miss ≡ miss
  unfolding sync_generate after_sync expired reloaded
  sync-miss v miss w = ground arith

  module _ (image : Uuid) (p : Params) where
    abbrev pub Fits : Resolved → W → Type 0
    Fits = Agrees h image p

    abbrev pub IsFine : ResolveResult × W → Type 0
    IsFine (r, w) = IsSound h image p r w

    abbrev pub IsFineAnswer : Option (ResolveResult × W) → Type 0
    IsFineAnswer = IfAnswered IsFine

    -- What a call has returned, if it is a row, is read.
    abbrev pub Reads : Result Variant × W → Type 0
    Reads c = (v : Variant) → c.0 ≡ ok v → IsRead h image p v c.1

    pub id-Reads :
        (v0 : Variant) (w0 : W)
        → IsRead h image p v0 w0
        → (w1 : W) → Reads ((store h).get_variant_by_id v0.id w1)
    id-Reads v0 w0 found w1 v e =
        again found (ap (λ r. (r, ((store h).get_variant_by_id v0.id w1).1)) e)

    if_ready-Fits :
        (s : Status) (v : Variant) (w : W)
        → v.status ≡ s
        → IsRead h image p v w
        → Fits (if_ready s v) w
    if_ready-Fits ready v w e k = (e, k)
    if_ready-Fits failed v w e k = tt
    if_ready-Fits pending v w e k = tt
    if_ready-Fits (unknown s) v w e k = tt

    seen_status-Fits :
        (s : Status) (v : Variant) (w : W) (o : Resolved)
        → v.status ≡ s
        → IsRead h image p v w
        → seen_status s v ≡ some o
        → Fits o w
    seen_status-Fits ready v w o e k q = rw (← some-injective _ _ q) (e, k)
    seen_status-Fits failed v w o e k q = rw (← some-injective _ _ q) (e, k)
    seen_status-Fits pending v w o e k q = cc
    seen_status-Fits (unknown s) v w o e k q = cc

    pub seen-Fits :
        (r : Result Variant) (w : W) → Reads (r, w) → (o : Resolved) → seen r ≡ some o → Fits o w
    seen-Fits (ok v) w k o q = seen_status-Fits v.status v w o refl (k v refl) q
    seen-Fits (err e) w k o q = elim (Bool-cases e.is_not_found) [
      | inl t ↦ rw (← some-injective _ _ q, t) tt
      | inr t ↦ rw (← some-injective _ _ q, t) tt
    ]

    expired-IsFine : (miss : Bool) (c : Bool × W) → IsFine (expired h miss c)
    unfolding expired
    expired-IsFine miss (true, w) = record { agrees = tt; apart = inr refl }
    expired-IsFine miss (false, w) = record { agrees = tt; apart = inr refl }

    reloaded-IsFine : (miss : Bool) (c : Result Variant × W) → Reads c → IsFine (reloaded h miss c)
    unfolding reloaded
    reloaded-IsFine miss (ok v, w) k = record {
      agrees = if_ready-Fits v.status v w refl (k v refl);
      apart = inr refl;
    }
    reloaded-IsFine miss (err e, w) k = record { agrees = tt; apart = inr refl }

    module _ (v : Variant) (w0 : W) (found : IsRead h image p v w0) where
      after_sync-IsFine : (miss : Bool) (c : Result (Unit {0}) × W) → IsFine (after_sync h v miss c)
      unfolding after_sync
      after_sync-IsFine miss (ok t, w) = reloaded-IsFine miss _ (id-Reads v w0 found w)
      after_sync-IsFine miss (err e, w) = expired-IsFine miss _

      pub sync-IsFine : (miss : Bool) (w : W) → IsFine (sync_generate h v miss w)
      unfolding sync_generate
      sync-IsFine miss w = after_sync-IsFine miss _
