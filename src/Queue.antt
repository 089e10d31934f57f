-- ===== src/Queue.antt =====
-- internal/queue/queue.go: the client of RabbitMQ. The AMQP library is a parameter: `C` and `H` are
-- its connections and its channels.
pub mod Handles
pub mod Consumer
pub mod Respects
pub mod Depth
use image_optimizer.Prelude.{
  ℕ, codes, Bool, true, false, List, [], ◌∷◌, Option, none, some, if◌then◌else◌, Error, errorf,
  wrap, Result, ok, err,
}
use image_optimizer.Text.{Bytes, is_empty}
use image_optimizer.Services.Calls.{Action, lift, fail_if, ◌>>=◌, ◌>>◌, context}
use image_optimizer.Worker.{Outcome, Settle, handle_delivery}

abbrev pub queue_name : Bytes
queue_name = codes "image.variants"

-- The calls of the AMQP library and of json.Marshal. `expired` is the error of a ping's context, if
-- it ends before the broker answers.
pub record Broker (C H W : Type 0) : Type 0 where
  pub dial : Bytes → Action W C
  pub open_channel : C → Action W H
  pub declare : H → Bytes → Action W (Unit {0})
  pub close_channel : H → W → Option Error × W
  pub close_connection : C → W → Option Error × W
  pub connection_closed : C → W → Bool
  pub channel_closed : H → W → Bool
  pub inspect : H → Bytes → Action W ℕ
  pub expired : W → Option Error
  pub marshal : Bytes → Result Bytes
  pub publish : H → Bytes → Bytes → Action W (Unit {0})
  pub qos : H → Action W (Unit {0})
  pub consume : H → Bytes → Action W (Unit {0})
  pub settle : Settle → W → W

-- Client, whose two fields may be nil
pub record Client (C H : Type 0) : Type 0 where
  pub conn : Option C
  pub ch : Option H

-- What the select of Consume sees next: the context is done, the channel of the deliveries is
-- closed, or a delivery whose body holds a variant id, if json.Unmarshal reads one.
pub data Event : Type 0 where
  done : (cause : Error) → Event
  closed : Event
  delivered : (body : Option Bytes) → Event

-- Consume has returned, or waits for an event.
pub data Loop : Type 0 where
  waiting : Loop
  returned : (e : Error) → Loop

-- `c == nil || c.ch == nil`
abbrev pub channel_of : {C H : Type 0} → Option (Client C H) → Option H
channel_of none = none
channel_of (some c) = c.ch

abbrev pub not_connected : Error
not_connected = errorf (codes "queue: client not connected")

abbrev pub first_of : Option Error → Option Error → Option Error
first_of none e = e
first_of (some first) e = some first

module _ {C H W : Type 0} (b : Broker C H W) where
  -- Close
  abbrev pub close_all : Option Error → Option C → W → Option Error × W
  close_all first none w = (first, w)
  close_all first (some conn) w = let (e, w') = b.close_connection conn w in (first_of first e, w')

  abbrev pub close_both : Option H → Option C → W → Option Error × W
  close_both none conn w = close_all none conn w
  close_both (some ch) conn w = let (e, w') = b.close_channel ch w in close_all e conn w'

  unfoldable pub close : Option (Client C H) → W → Option Error × W
  close none w = (none, w)
  close (some c) w = close_both c.ch c.conn w

  -- Connect: what is open is closed before an error is returned.
  unfoldable pub after_declare : C → H → Result (Unit {0}) × W → Result (Client C H) × W
  after_declare conn ch (ok _, w) = (ok (record { conn = some conn; ch = some ch }), w)
  after_declare conn ch (err e, w) =
      let (_, w1) = b.close_channel ch w in
      let (_, w2) = b.close_connection conn w1 in
      (err (wrap (codes "queue: declare image.variants") e), w2)

  unfoldable pub after_channel : C → Result H × W → Result (Client C H) × W
  after_channel conn (ok ch, w) = after_declare conn ch (b.declare ch queue_name w)
  after_channel conn (err e, w) =
      let (_, w1) = b.close_connection conn w in (err (wrap (codes "queue: channel") e), w1)

  unfoldable pub connect : Bytes → Action W (Client C H)
  connect url = do
    fail_if (is_empty url) (errorf (codes "queue: RABBITMQ_URL is required"))
    conn ← context (codes "queue: dial") (b.dial url)
    λ w. after_channel conn (b.open_channel conn w)

  -- QueueInspect
  abbrev pub inspect_channel : Option H → Action W ℕ
  inspect_channel none w = (err not_connected, w)
  inspect_channel (some ch) w =
      context (codes "queue: inspect image.variants") (b.inspect ch queue_name) w

  unfoldable pub queue_inspect : Option (Client C H) → Action W ℕ
  queue_inspect c = inspect_channel (channel_of c)

  -- Ping
  abbrev pub conn_closed : Option C → W → Bool
  conn_closed none w = false
  conn_closed (some conn) w = b.connection_closed conn w

  abbrev pub after_ping : Option Error → Result ℕ × W → Result (Unit {0}) × W
  after_ping (some late) (_, w) = (err (wrap (codes "queue: ping") late), w)
  after_ping none (ok _, w) = (ok tt, w)
  after_ping none (err e, w) = (err (wrap (codes "queue: ping") e), w)

  abbrev pub ping_client : Option C → Option H → Action W (Unit {0})
  ping_client conn none w = (err not_connected, w)
  ping_client conn (some ch) w =
      if conn_closed conn w
      then (err (errorf (codes "queue: connection closed")), w)
      else if b.channel_closed ch w
      then (err (errorf (codes "queue: channel closed")), w)
      else after_ping (b.expired w) (inspect_channel (some ch) w)

  unfoldable pub ping : Option (Client C H) → Action W (Unit {0})
  ping none w = (err not_connected, w)
  ping (some c) w = ping_client c.conn c.ch w

  -- Publish
  abbrev pub publish_on : Option H → Bytes → Action W (Unit {0})
  publish_on none variant_id w = (err not_connected, w)
  publish_on (some ch) variant_id w =
      (do
        fail_if (is_empty variant_id) (errorf (codes "queue: variant_id is required"))
        body ← context (codes "queue: marshal job") (lift (b.marshal variant_id))
        context (codes "queue: publish") (b.publish ch queue_name body))
        w

  unfoldable pub publish : Option (Client C H) → Bytes → Action W (Unit {0})
  publish c variant_id = publish_on (channel_of c) variant_id

  -- Consume: a delivery is handled and settled before the next event is looked at.
  unfoldable pub take_delivery : (Bytes → W → Outcome W) → Option Bytes → W → W
  take_delivery handler body w = let (s, w') = handle_delivery handler body w in b.settle s w'

  unfoldable pub consume_loop : (Bytes → W → Outcome W) → List Event → W → Loop × W
  consume_loop handler [] w = (waiting, w)
  consume_loop handler (done cause ∷ es) w = (returned cause, w)
  consume_loop handler (closed ∷ es) w =
      (returned (errorf (codes "queue: deliveries channel closed")), w)
  consume_loop handler (delivered body ∷ es) w =
      consume_loop handler es (take_delivery handler body w)

  unfoldable pub after_start :
      (Bytes → W → Outcome W) → List Event → Result (Unit {0}) × W → Loop × W
  after_start handler es (ok _, w) = consume_loop handler es w
  after_start handler es (err e, w) = (returned e, w)

  -- Qos, then the consumer
  unfoldable pub start : Option H → Action W (Unit {0})
  start none w = (err not_connected, w)
  start (some ch) w =
      (do
        context (codes "queue: qos") (b.qos ch)
        context (codes "queue: consume") (b.consume ch queue_name))
        w

  abbrev pub no_handler : Option H → Error
  no_handler none = not_connected
  no_handler (some ch) = errorf (codes "queue: handler is required")

  unfoldable pub consume :
      Option (Client C H) → Option (Bytes → W → Outcome W) → List Event → W → Loop × W
  consume c none es w = (returned (no_handler (channel_of c)), w)
  consume c (some handler) es w = after_start handler es (start (channel_of c) w)
