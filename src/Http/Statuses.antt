-- ===== src/Http/Statuses.antt =====
-- The status codes of handleGet and handleHead in internal/http/handlers.go.
use image_optimizer.Prelude.{
  ℕ, ◌≡◌, ◌<◌, ◌*◌, ◌↔◌, sym, arith, refl, ◌∙◌, ap, ◌⊎◌, inl, inr, [], ◌∷◌, Option, none, some,
  Result, ok, err,
}
use image_optimizer.Text.{Bytes}
use image_optimizer.Transform.{Params, Query, parse}
use image_optimizer.Db.{Uuid}
use image_optimizer.Http.{
  Resolved, is_ready, is_failed, bad_request, not_found, unavailable, internal, ResolveResult,
  Handler,
}
use image_optimizer.Http.Serve.{
  Response, served, serve_path, get_response, head_response, respond, handle_get, handle_head,
}
use image_optimizer.Http.Reads.{Agrees, IsInvalid, IsAnswerTo}
use image_optimizer.Http.Fuel.{HasClock, poll_interval, resolve_variant_total}

-- The code that each outcome stands for, when a ready variant can be served.
abbrev pub code_of : Resolved → ℕ
code_of (is_ready v) = 200
code_of (is_failed v) = 422
code_of (bad_request msg) = 400
code_of (not_found msg) = 404
code_of (unavailable msg) = 503
code_of (internal msg) = 500

module _ {W : Type 0} (h : Handler W) where
  served_status :
      (p : Result (Bytes × Option ℕ) × W)
      → ((served h p).0.status ≡ 200) ⊎ ((served h p).0.status ≡ 500)
  unfolding served
  served_status (ok (bytes, size), w) = inl refl
  served_status (err e, w) = inr refl

  serve_status :
      (path : Option Bytes) (w : W)
      → ((serve_path h path w).0.status ≡ 200) ⊎ ((serve_path h path w).0.status ≡ 500)
  unfolding serve_path
  serve_status none w = inr refl
  serve_status (some []) w = inr refl
  serve_status (some (c ∷ path)) w = served_status (h.gen.storage.get (c ∷ path) w)

  head_status :
      (r : ResolveResult) (o : Resolved) (w : W) → (head_response h r o w).0.status ≡ code_of o
  unfolding head_response
  head_status r (is_ready v) w = refl
  head_status r (is_failed v) w = refl
  head_status r (bad_request msg) w = refl
  head_status r (not_found msg) w = refl
  head_status r (unavailable msg) w = refl
  head_status r (internal msg) w = refl

  -- GET answers with the same code as HEAD, or with 500 where a ready variant cannot be read.
  abbrev pub Agree : ℕ → ℕ → Type 0
  Agree get head = (get ≡ head) ⊎ ((get ≡ 500) × (head ≡ 200))

  get_status :
      (r : ResolveResult) (o : Resolved) (w : W) → Agree (get_response h r o w).0.status (code_of o)
  unfolding get_response
  get_status r (is_ready v) w = elim (serve_status v.path _) [
    | inl e ↦ inl e
    | inr e ↦ inr (e, refl)
  ]
  get_status r (is_failed v) w = inl refl
  get_status r (bad_request msg) w = inl refl
  get_status r (not_found msg) w = inl refl
  get_status r (unavailable msg) w = inl refl
  get_status r (internal msg) w = inl refl

  abbrev pub IsCode : ℕ → Type 0
  IsCode s = (s ≡ 200) ⊎ (s ≡ 422) ⊎ (s ≡ 400) ⊎ (s ≡ 404) ⊎ (s ≡ 503) ⊎ (s ≡ 500)

  code_of-IsCode : (o : Resolved) → IsCode (code_of o)
  code_of-IsCode (is_ready v) = inl refl
  code_of-IsCode (is_failed v) = inr (inl refl)
  code_of-IsCode (bad_request msg) = inr (inr (inl refl))
  code_of-IsCode (not_found msg) = inr (inr (inr (inl refl)))
  code_of-IsCode (unavailable msg) = inr (inr (inr (inr (inl refl))))
  code_of-IsCode (internal msg) = inr (inr (inr (inr (inr refl))))

  -- Both answer 400 to invalid requests, which change nothing, and to no others.
  abbrev pub HasExactRefusals : Bytes → Query → W → Response × W → Response × W → Type 0
  HasExactRefusals id_str query w g r =
      ((g.0.status ≡ 400) ↔ IsInvalid h id_str query)
      × ((r.0.status ≡ 400) ↔ IsInvalid h id_str query)
      × (IsInvalid h id_str query → (g.1 ≡ w) × (r.1 ≡ w))

  code_of-valid :
      (image : Uuid) (p : Params) (o : Resolved) (w : W)
      → Agrees h image p o w
      → code_of o ≡ 400
      → ⊥
  code_of-valid image p (is_ready v) w k e = omega arith
  code_of-valid image p (is_failed v) w k e = omega arith
  code_of-valid image p (bad_request msg) w k e = k
  code_of-valid image p (not_found msg) w k e = omega arith
  code_of-valid image p (unavailable msg) w k e = omega arith
  code_of-valid image p (internal msg) w k e = omega arith

  valid-apart :
      (image : Uuid) (p : Params) (id_str : Bytes) (query : Query)
      → h.gen.uuid.parse id_str ≡ some image
      → parse query ≡ ok p
      → IsInvalid h id_str query
      → ⊥
  valid-apart image p id_str query i q (inl n) = cc
  valid-apart image p id_str query i q (inr (e, n)) = cc

  answered-HasExactRefusals :
      (id_str : Bytes) (query : Query) (w : W) (a : ResolveResult × W)
      → IsAnswerTo h id_str query w a
      → HasExactRefusals id_str query w
          (get_response h a.0 a.0.outcome a.1)
          (head_response h a.0 a.0.outcome a.1)
  unfolding get_response head_response
  answered-HasExactRefusals id_str query w a (inl (bad, (msg, e))) =
      rw e ((λ k. bad, λ k. refl), (λ k. bad, λ k. refl), λ k. (refl, refl))
  answered-HasExactRefusals id_str query w a (inr (image, p, i, q, sound)) =
      let not_bad = code_of-valid image p a.0.outcome a.1 sound.agrees in
      let valid = valid-apart image p id_str query i q in
      (
        (
          λ k. elim (get_status a.0 a.0.outcome a.1) [
            | inl same ↦ absurd (not_bad (sym same ∙ k))
            | inr (broken, e) ↦ absurd (omega arith)
          ],
          λ k. absurd (valid k),
        ),
        (λ k. absurd (not_bad (sym (head_status a.0 a.0.outcome a.1) ∙ k)), λ k. absurd (valid k)),
        λ k. absurd (valid k),
      )

  module _ (reading : W → ℕ) (c : HasClock h reading) (fuel : ℕ) (positive : 0 < h.sync_timeout)
      (enough : h.sync_timeout < fuel * poll_interval) where
    -- Under the conditions on the clock and the fuel, GET and HEAD of an image both answer from the
    -- same world. HEAD answers with one of 200, 400, 404, 422, 500 and 503, so never with 202; GET
    -- answers with the same code, or with 500 where HEAD answers 200.
    pub get-head_status :
        (id_str : Bytes) (query : Query) (w : W)
        → (g : Response × W) × (r : Response × W) × (handle_get h fuel id_str query w ≡ some g)
          × (handle_head h fuel id_str query w ≡ some r)
          × IsCode r.0.status
          × Agree g.0.status r.0.status
    unfolding handle_get handle_head
    get-head_status id_str query w =
        let ((r, w'), e, s) =
          resolve_variant_total h reading c fuel positive enough id_str query w in
        (
          get_response h r r.outcome w',
          head_response h r r.outcome w',
          ap (respond h (get_response h)) e,
          ap (respond h (head_response h)) e,
          rw (head_status r r.outcome w') (code_of-IsCode r.outcome),
          rw (head_status r r.outcome w') (get_status r r.outcome w'),
        )

    -- Under the conditions on the clock and the fuel, GET and HEAD of an image both answer, and each
    -- of them answers 400 if and only if the identifier is no UUID or Parse refuses the query. They
    -- then leave the world as it was.
    pub get-head-HasExactRefusals :
        (id_str : Bytes) (query : Query) (w : W)
        → (g : Response × W) × (r : Response × W) × (handle_get h fuel id_str query w ≡ some g)
          × (handle_head h fuel id_str query w ≡ some r)
          × HasExactRefusals id_str query w g r
    unfolding handle_get handle_head
    get-head-HasExactRefusals id_str query w =
        let (a, e, s) = resolve_variant_total h reading c fuel positive enough id_str query w in
        (
          get_response h a.0 a.0.outcome a.1,
          head_response h a.0 a.0.outcome a.1,
          ap (respond h (get_response h)) e,
          ap (respond h (head_response h)) e,
          answered-HasExactRefusals id_str query w a s,
        )
