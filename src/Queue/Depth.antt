-- ===== src/Queue/Depth.antt =====
-- pollQueueDepth and updateQueueDepth of internal/worker/worker.go: the gauge of the queue's depth.
use image_optimizer.Prelude.{ℕ, zero, suc, Option, none, some, Result, ok, err, codes}
use image_optimizer.Text.{Bytes}
use image_optimizer.Services.Respects.{IsPreorder, Respects, context-Respects}
use image_optimizer.Queue.{Broker, Client, queue_name, inspect_channel, channel_of, queue_inspect}

module _ {C H W : Type 0} (b : Broker C H W) (set : ℕ → W → W) where
  -- An inspection that fails leaves the gauge.
  unfoldable pub update_queue_depth : Result ℕ × W → W
  update_queue_depth (ok n, w) = set n w
  update_queue_depth (err e, w) = w

  -- The gauge is set at once, and at every tick until the context is done.
  unfoldable pub poll_queue_depth : Option (Client C H) → (ticks : ℕ) → W → W
  poll_queue_depth c zero w = update_queue_depth (queue_inspect b c w)
  poll_queue_depth c (suc ticks) w =
      poll_queue_depth c ticks (update_queue_depth (queue_inspect b c w))

  module _ (R : W → W → Type 0) (p : IsPreorder R)
      (inspected : (ch : H) (name : Bytes) → Respects R (b.inspect ch name))
      (gauge_set : (n : ℕ) (w : W) → R w (set n w)) where
    inspect_channel-Respects : (ch : Option H) → Respects R (inspect_channel b ch)
    inspect_channel-Respects none w = p.same w
    inspect_channel-Respects (some ch) w =
        context-Respects R p (codes "queue: inspect image.variants") (b.inspect ch queue_name)
          (inspected ch queue_name) w

    update_queue_depth-Respects :
        (w : W) (r : Result ℕ) (w' : W) → R w w' → R w (update_queue_depth (r, w'))
    unfolding update_queue_depth
    update_queue_depth-Respects w (ok n) w' k = p.next w w' (set n w') k (gauge_set n w')
    update_queue_depth-Respects w (err e) w' k = k

    once : (c : Option (Client C H)) (w : W) → R w (update_queue_depth (queue_inspect b c w))
    unfolding queue_inspect
    once c w =
        let i = inspect_channel b (channel_of c) w in
        update_queue_depth-Respects w i.0 i.1 (inspect_channel-Respects (channel_of c) w)

    -- The goroutine respects every relation that an inspection and the gauge respect.
    poll_queue_depth-Respects :
        (c : Option (Client C H)) (ticks : ℕ) (w : W) → R w (poll_queue_depth c ticks w)
    unfolding poll_queue_depth
    poll_queue_depth-Respects c zero w = once c w
    poll_queue_depth-Respects c (suc ticks) w =
        let w1 = update_queue_depth (queue_inspect b c w) in
        p.next w w1 (poll_queue_depth c ticks w1) (once c w) (poll_queue_depth-Respects c ticks w1)
