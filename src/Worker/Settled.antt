-- ===== src/Worker/Settled.antt =====
-- Jobs of internal/worker/worker.go that are acknowledged, on the repository of internal/db.
use image_optimizer.Prelude.{
  ℕ, codes, not, ◌≡◌, refl, sym, ◌∙◌, ap, subst, ◌⊎◌, inl, inr, Bool, false, List, [], ◌∷◌, Option,
  none, some, Error, errorf, Result, ok, err, Bool-cases, leb, arith,
}
use mathlib.Core.Option.{some-injective}
use image_optimizer.Text.{Bytes, is_empty}
use image_optimizer.Transform.{Params}
use image_optimizer.Transform.Json.{params_from_json}
use image_optimizer.Imgproxy.{build_path}
use image_optimizer.Db.{
  Uuid, Status, pending, ready, failed, unknown, Image, Variant, Tables, Answer, answered, refused,
  lost,
}
use image_optimizer.Db.Store
use image_optimizer.Db.Store.{find, update, with_id, execute, query}
use image_optimizer.Backend.{World, store, next_answer}
use image_optimizer.Services.Calls.{Action, lift, fail_if, ◌>>=◌, context}
use image_optimizer.Services.Succeeds.{Ends, bind-Ends, context-Ends}
use image_optimizer.VariantGen
use image_optimizer.VariantGen.{transform_and_persist}
use image_optimizer.Worker.{
  Deps, Outcome, Label, success, gave_up, max_attempts, backoff_duration, truncate_err, after_mark,
  after_wait, after_transform, after_attempt, by_status, after_read, process_id, process, Settle,
  ack, settle, handle_delivery,
}
use image_optimizer.Worker.Process.{with_store}

-- A row that was found behind an update of its like.
find-updated {ℓ κ} :
    {A : Type ℓ} (P : A → Type κ) (p : A → Bool) (f : A → A) (xs : List A) (x : A)
    → ((y : A) → P (f y))
    → ((y : A) → p (f y) ≡ p y)
    → find p (update p f xs) ≡ some x
    → P x
unfolding find update
find-updated P p f [] x all same h = cc
find-updated P p f (y ∷ xs) x all same h = elim (Bool-cases (p y)) [
  | inl e ↦ subst P (some-injective _ _ (rw (e, same y, e) at h)) (all y)
  | inr e ↦ find-updated P p f xs x all same (rw (e, e) at h)
]

found-id : (id : Uuid) (vs : List Variant) (v : Variant) → find (with_id id) vs ≡ some v → v.id ≡ id
unfolding find
found-id id [] v h = cc
found-id id (x ∷ vs) v h = elim (Bool-cases (with_id id x)) [
  | inl e ↦ ap (λ (v : Variant). v.id) (sym (some-injective _ _ (rw e at h))) ∙ ground arith
  | inr e ↦ found-id id vs v (rw e at h)
]

-- A statement that succeeds has written its tables.
execute_ok :
    {A : Type 0} (text : Bytes) (a : Answer) (db : Tables) (p : Option A × Tables) (x : A)
    → (execute text a db p).0 ≡ ok x
    → (execute text a db p).1 ≡ p.1
unfolding execute
execute_ok text answered db p x h = refl
execute_ok text (refused e) db p x h = cc
execute_ok text (lost e) db p x h = refl

-- A success of TransformAndPersist ends in a success of MarkReady.
module _ {W : Type 0} (P : W → Type 0) (d : VariantGen.Deps W) (v : Variant)
    (marked : (path : Bytes) → Ends P (d.db.mark_ready v.id path)) where
  abbrev mark : Bytes → Action W (Unit {0})
  mark rel = context (codes "mark ready") (d.db.mark_ready v.id rel)

  abbrev persist : Bytes → Action W (Unit {0})
  persist bytes = do
    rel ←
        context (codes "write variant")
          (d.storage.write_variant (d.uuid.print v.image_id) v.params_hash bytes)
    mark rel

  abbrev generate : Image → Action W (Unit {0})
  generate img = do
    params ← lift (params_from_json d.json_error v.params_json)
    bytes ←
        context (codes "imgproxy fetch")
          (d.imgproxy.fetch (build_path d.unicode d.s3_bucket img.original_path params))
    persist bytes

  persist-Ends : (bytes : Bytes) → Ends P (persist bytes)
  persist-Ends bytes =
      bind-Ends P
        (context (codes "write variant")
          (d.storage.write_variant (d.uuid.print v.image_id) v.params_hash bytes))
        mark (λ rel. context-Ends P (codes "mark ready") (d.db.mark_ready v.id rel) (marked rel))

  generate-Ends : (img : Image) → Ends P (generate img)
  generate-Ends img =
      let fetch : Params → Action W Bytes = λ params.
        context (codes "imgproxy fetch")
          (d.imgproxy.fetch (build_path d.unicode d.s3_bucket img.original_path params)) in
      bind-Ends P (lift (params_from_json d.json_error v.params_json))
        (λ params. fetch params >>= persist)
        (λ params. bind-Ends P (fetch params) persist persist-Ends)

  transform_and_persist-Ends : Ends P (transform_and_persist d v)
  unfolding transform_and_persist
  transform_and_persist-Ends =
      let get = context (codes "get image") (d.db.get_image v.image_id) in
      bind-Ends P (fail_if (not d.complete) (errorf (codes "variantgen: incomplete deps")))
        (λ _. get >>= generate) (λ _. bind-Ends P get generate generate-Ends)

abbrev IsOverRow : Option Variant → Type 0
IsOverRow none = Unit
IsOverRow (some v) = (v.status ≡ ready) ⊎ (v.status ≡ failed)

over_row :
    (o : Option Variant)
    → ((v : Variant) → o ≡ some v → (v.status ≡ ready) ⊎ (v.status ≡ failed))
    → IsOverRow o
over_row none k = tt
over_row (some v) k = k v refl

-- A SELECT that fails does not say that the row is missing.
abbrev pub IsHonest : Answer → Type 0
IsHonest answered = Unit
IsHonest (refused e) = e.is_not_found ≡ false
IsHonest (lost e) = e.is_not_found ≡ false

module _ {S : Type 0} (violation : Error) (new_uuid : ℕ → Uuid) (d : Deps (World S)) where
  abbrev worker : Deps (World S)
  worker = with_store violation new_uuid d

  -- A row that is found is ready or failed.
  abbrev IsFinal : Uuid → World S → Type 0
  IsFinal id w =
      (v : Variant)
      → find (with_id id) w.tables.variants ≡ some v
      → (v.status ≡ ready) ⊎ (v.status ≡ failed)

  -- The row of the variant, if there is one, is ready or failed.
  abbrev pub IsOver : Uuid → World S → Type 0
  IsOver id w = IsOverRow (find (with_id id) w.tables.variants)

  mark_ready-Ends :
      (id : Uuid) (path : Bytes) → Ends (IsFinal id) ((store violation new_uuid).mark_ready id path)
  unfolding store Store.mark_ready
  mark_ready-Ends id path w w' h =
      let written =
        execute_ok (codes "mark ready") (next_answer w.answers) w.tables _ tt
          (ap (λ (p : Result (Unit {0}) × World S). p.0) h) in
      let same = sym (ap (λ (p : Result (Unit {0}) × World S). p.1.tables) h) ∙ written in
      λ v found.
        find-updated (λ (v : Variant). (v.status ≡ ready) ⊎ (v.status ≡ failed)) (with_id id) _
          w.tables.variants v (λ y. inl refl) (λ y. refl)
          (ap (λ (db : Tables). find (with_id id) db.variants) (sym same) ∙ found)

  mark_failed-Ends :
      (id : Uuid) (text : Bytes)
      → Ends (IsFinal id) ((store violation new_uuid).mark_failed id text)
  unfolding store Store.mark_failed
  mark_failed-Ends id text w w' h =
      let written =
        execute_ok (codes "mark failed") (next_answer w.answers) w.tables _ tt
          (ap (λ (p : Result (Unit {0}) × World S). p.0) h) in
      let same = sym (ap (λ (p : Result (Unit {0}) × World S). p.1.tables) h) ∙ written in
      λ v found.
        find-updated (λ (v : Variant). (v.status ≡ ready) ⊎ (v.status ≡ failed)) (with_id id) _
          w.tables.variants v (λ y. inr refl) (λ y. refl)
          (ap (λ (db : Tables). find (with_id id) db.variants) (sym same) ∙ found)

  module _ (count : (label : Label) (w : World S) → (d.count label w).tables ≡ w.tables) where
    -- Without an error the job is over.
    abbrev IsFinalIf : Uuid → Outcome (World S) → Type 0
    IsFinalIf id (o, w) = o ≡ none → IsFinal id w

    counted :
        (id : Uuid) (label : Label) (w : World S) → IsFinal id w → IsFinal id (d.count label w)
    counted id label w over v found =
        over v (ap (λ (db : Tables). find (with_id id) db.variants) (sym (count label w)) ∙ found)

    after_mark-IsFinal :
        (id : Uuid) (c : Result (Unit {0}) × World S)
        → (c.0 ≡ ok tt → IsFinal id c.1)
        → IsFinalIf id (after_mark worker c)
    unfolding after_mark
    after_mark-IsFinal id (ok t, w) k e = counted id gave_up w (k refl)
    after_mark-IsFinal id (err x, w) k e = cc

    after_wait-fails :
        (id : Uuid) (x : Error) (c : Result (Unit {0}) × World S)
        → IsFinalIf id (after_wait worker x c)
    unfolding after_wait
    after_wait-fails id x (ok t, w) e = cc
    after_wait-fails id x (err y, w) e = cc

    after_transform-IsFinal :
        (id : Uuid) (n : ℕ) (c : Result (Unit {0}) × World S)
        → (c.0 ≡ ok tt → IsFinal id c.1)
        → IsFinalIf id (after_transform worker id n c)
    unfolding after_transform
    after_transform-IsFinal id n (ok t, w) k = λ e. counted id success w (k refl)
    after_transform-IsFinal id n (err x, w) k = elim (Bool-cases (leb max_attempts n)) [
      | inl l ↦
          let text = truncate_err x 500 in
          let c = (store violation new_uuid).mark_failed id text w in
          rw l
            (after_mark-IsFinal id c (λ e. mark_failed-Ends id text w c.1 (ap (λ r. (r, c.1)) e)))
      | inr l ↦ rw l (after_wait-fails id x (d.wait (backoff_duration n) w))
    ]

    after_attempt-IsFinal :
        (v : Variant) (id : Uuid) (c : Result ℕ × World S)
        → v.id ≡ id
        → IsFinalIf id (after_attempt worker v id c)
    unfolding after_attempt
    after_attempt-IsFinal v id (err x, w) same = λ e. cc
    after_attempt-IsFinal v id (ok n, w) same =
        let c = transform_and_persist worker.gen v w in
        after_transform-IsFinal id n c (λ e.
          transform_and_persist-Ends (IsFinal id) worker.gen v
            (λ path.
              subst (λ i. Ends (IsFinal i) ((store violation new_uuid).mark_ready v.id path)) same
                (mark_ready-Ends v.id path))
            w c.1 (ap (λ r. (r, c.1)) e))

    by_status-IsFinal :
        (s : Status) (v : Variant) (id : Uuid) (w : World S)
        → v.status ≡ s
        → v.id ≡ id
        → find (with_id id) w.tables.variants ≡ some v
        → IsFinalIf id (by_status worker s v id w)
    unfolding by_status
    by_status-IsFinal ready v id w s same found = λ e v' found'.
        inl (ap (λ (v : Variant). v.status) (some-injective _ _ (sym found' ∙ found)) ∙ s)
    by_status-IsFinal failed v id w s same found = λ e v' found'.
        inr (ap (λ (v : Variant). v.status) (some-injective _ _ (sym found' ∙ found)) ∙ s)
    by_status-IsFinal pending v id w s same found = after_attempt-IsFinal v id _ same
    by_status-IsFinal (unknown x) v id w s same found = after_attempt-IsFinal v id _ same

    -- From what the SELECT has found.
    found-IsFinal :
        (id : Uuid) (w : World S) (a : Answer) (o : Option Variant)
        → IsHonest a
        → find (with_id id) w.tables.variants ≡ o
        → IsFinalIf id (after_read worker id (query (codes "get variant by id") a o, w))
    unfolding after_read
    found-IsFinal id w answered none honest found = λ e v found'. cc
    found-IsFinal id w answered (some v) honest found =
        by_status-IsFinal v.status v id w refl (found-id id w.tables.variants v found) found
    found-IsFinal id w (refused x) o honest found = rw honest (λ e. cc)
    found-IsFinal id w (lost x) o honest found = rw honest (λ e. cc)

    process_id-IsFinal :
        (id : Uuid) (w : World S)
        → IsHonest (next_answer w.answers)
        → IsFinalIf id (process_id worker (some id) w)
    unfolding process_id store Store.get_variant_by_id
    process_id-IsFinal id w honest = found-IsFinal id _ (next_answer w.answers) _ honest refl

    settle_ack :
        (o : Outcome (World S)) (w : World S) → settle o ≡ (ack, w) → (o.0 ≡ none) × (o.1 ≡ w)
    unfolding settle
    settle_ack (none, w1) w h = (refl, ap (λ (p : Settle × World S). p.1) h)
    settle_ack (some e, w1) w h = absurd (let k = ap (λ (p : Settle × World S). p.0) h in cc)

    -- Where the counters write no rows and no failed SELECT is reported as a missing row: if a
    -- delivery whose text is not empty and reads as an identifier is acknowledged, then the tables
    -- have no variant with the identifier, or it is ready or failed, whatever imgproxy, the object
    -- store, the timer and the later statements do.
    pub acked-IsOver :
        (text : Bytes) (id : Uuid) (w w' : World S)
        → IsHonest (next_answer w.answers)
        → is_empty text ≡ false
        → d.gen.uuid.parse text ≡ some id
        → handle_delivery (process worker) (some text) w ≡ (ack, w')
        → IsOver id w'
    unfolding handle_delivery process
    acked-IsOver text id w w' honest filled parsed h =
        let (quiet, same) =
          settle_ack (process_id worker (some id) w) w' (rw (filled, parsed) at h) in
        over_row _ (subst (IsFinal id) same (process_id-IsFinal id w honest quiet))
