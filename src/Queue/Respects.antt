-- ===== src/Queue/Respects.antt =====
-- The deliveries of internal/queue/queue.go, one after another, for a handler that respects a relation.
use image_optimizer.Prelude.{
  ◌≡◌, refl, sym, subst, List, [], ◌∷◌, Option, none, some, Bool-cases, inl, inr,
}
use image_optimizer.Text.{Bytes, is_empty}
use image_optimizer.Services.Respects.{IsPreorder}
use image_optimizer.Worker.{Outcome, Settle, settle, handle_delivery}
use image_optimizer.Queue.{Broker, take_delivery}
use image_optimizer.Queue.Consumer.{take_all}

module _ {C H W : Type 0} (b : Broker C H W) (R : W → W → Type 0) (p : IsPreorder R)
    (settled : (s : Settle) (w : W) → R w (b.settle s w)) (handler : Bytes → W → Outcome W)
    (handled : (text : Bytes) (w : W) → R w (handler text w).1) where
  settle_world : (o : Outcome W) → (settle o).1 ≡ o.1
  unfolding settle
  settle_world (none, w) = refl
  settle_world (some e, w) = refl

  handle_delivery-Respects : (body : Option Bytes) (w : W) → R w (handle_delivery handler body w).1
  unfolding handle_delivery
  handle_delivery-Respects none w = p.same w
  handle_delivery-Respects (some text) w = elim (Bool-cases (is_empty text)) [
    | inl e ↦ rw e (p.same w)
    | inr e ↦ rw e (subst (λ w'. R w w') (sym (settle_world (handler text w))) (handled text w))
  ]

  pub take_all-Respects : (bodies : List (Option Bytes)) (w : W) → R w (take_all b handler bodies w)
  unfolding take_all take_delivery
  take_all-Respects [] w = p.same w
  take_all-Respects (body ∷ bodies) w =
      let h = handle_delivery handler body w in
      let w1 = b.settle h.0 h.1 in
      p.next w w1 (take_all b handler bodies w1)
        (p.next w h.1 w1 (handle_delivery-Respects body w) (settled h.0 h.1))
        (take_all-Respects bodies w1)
