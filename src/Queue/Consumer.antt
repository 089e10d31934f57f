-- ===== src/Queue/Consumer.antt =====
-- Consume of internal/queue/queue.go: what it does to the deliveries.
use image_optimizer.Prelude.{
  ◌≡◌, refl, List, [], ◌∷◌, ◌++◌, map, Option, none, some, Error, errorf, codes,
}
use image_optimizer.Text.{Bytes}
use image_optimizer.Worker.{Outcome}
use image_optimizer.Queue.{
  Broker, Event, done, closed, delivered, returned, take_delivery, consume_loop,
}

-- The deliveries, each handled and settled before the next.
unfoldable pub take_all :
    {C H W : Type 0} → Broker C H W → (Bytes → W → Outcome W) → List (Option Bytes) → W → W
take_all b handler [] w = w
take_all b handler (body ∷ bodies) w = take_all b handler bodies (take_delivery b handler body w)

-- The event that ends the loop, and the error that Consume returns for it.
abbrev pub end : Option Error → Event
end none = closed
end (some cause) = done cause

abbrev pub end_error : Option Error → Error
end_error none = errorf (codes "queue: deliveries channel closed")
end_error (some cause) = cause

-- Consume's loop over any deliveries that the end of the context or of the channel follows is the
-- same as handling and settling each delivery in turn, followed by the error of that end; what would
-- come later is not looked at.
pub consume_loop_all :
    {C H W : Type 0} (b : Broker C H W) (handler : Bytes → W → Outcome W)
    (bodies : List (Option Bytes)) (why : Option Error) (later : List Event) (w : W)
    → consume_loop b handler (map delivered bodies ++ (end why ∷ later)) w
      ≡ (returned (end_error why), take_all b handler bodies w)
unfolding consume_loop take_all
consume_loop_all b handler [] none later w = refl
consume_loop_all b handler [] (some cause) later w = refl
consume_loop_all b handler (body ∷ bodies) why later w =
    consume_loop_all b handler bodies why later (take_delivery b handler body w)
