-- ===== src/Queue/Handles.antt =====
-- The connection and the channel that internal/queue/queue.go opens, and closes.
use image_optimizer.Prelude.{
  codes, ℕ, ◌≡◌, refl, ◌+◌, ◌-◌, some, arith, Result, ok, err, Bool-cases, inl, inr,
}
use image_optimizer.Text.{Bytes, is_empty}
use image_optimizer.Services.Calls.{continue, wrapped}
use image_optimizer.Services.Handles.{Opens}
use image_optimizer.Queue.{Broker, Client, queue_name, close, after_declare, after_channel, connect}

module _ {C H W : Type 0} (b : Broker C H W) (handles : W → ℕ) where
  -- The library's connections and channels: a call that opens one counts one more if it succeeds, and
  -- closing one gives it back, also with an error.
  pub record HasHandles : Type 0 where
    pub dial : (url : Bytes) (w : W) → Opens handles w (b.dial url w)
    pub open_channel : (conn : C) (w : W) → Opens handles w (b.open_channel conn w)
    pub declare : (ch : H) (w : W) → handles (b.declare ch queue_name w).1 ≡ handles w
    pub close_channel : (ch : H) (w : W) → handles (b.close_channel ch w).1 ≡ handles w - 1
    pub close_connection :
        (conn : C) (w : W) → handles (b.close_connection conn w).1 ≡ handles w - 1

  -- What Connect leaves open: nothing after an error, and after a success what Close closes.
  abbrev pub IsBalanced : ℕ → Result (Client C H) × W → Type 0
  IsBalanced n (ok c, w) =
      (handles w ≡ n + 2) × ((w' : W) → handles w' ≡ n + 2 → handles (close b (some c) w').1 ≡ n)
  IsBalanced n (err _, w) = handles w ≡ n

  module _ (h : HasHandles) where
    after_declare-IsBalanced :
        (n : ℕ) (conn : C) (ch : H) (r : Result (Unit {0})) (w : W)
        → handles w ≡ n + 2
        → IsBalanced n (after_declare b conn ch (r, w))
    unfolding after_declare close
    after_declare-IsBalanced n conn ch (ok t) w e = (e, closed)
      where
        closed :
            (w' : W)
            → handles w' ≡ n + 2
            → handles (b.close_connection conn (b.close_channel ch w').1).1 ≡ n
        closed w' e' =
            let one = h.close_channel ch w' in
            let two = h.close_connection conn (b.close_channel ch w').1 in omega arith
    after_declare-IsBalanced n conn ch (err x) w e =
        let one = h.close_channel ch w in
        let two = h.close_connection conn (b.close_channel ch w).1 in omega arith

    after_channel-IsBalanced :
        (n : ℕ) (conn : C) (w : W) (r : Result H) (w' : W)
        → handles w ≡ n + 1
        → Opens handles w (r, w')
        → IsBalanced n (after_channel b conn (r, w'))
    unfolding after_channel
    after_channel-IsBalanced n conn w (ok ch) w' e o =
        let d = h.declare ch w' in
        let (r, w2) = b.declare ch queue_name w' in
        after_declare-IsBalanced n conn ch r w2 (omega arith)
    after_channel-IsBalanced n conn w (err x) w' e o =
        let one = h.close_connection conn w' in omega arith

    after_dial-IsBalanced :
        (w : W) (r : Result C) (w' : W)
        → Opens handles w (r, w')
        → IsBalanced (handles w) (
            continue
              (wrapped (codes "queue: dial") (r, w'))
              (λ conn w1. after_channel b conn (b.open_channel conn w1)))
    after_dial-IsBalanced w (ok conn) w' o =
        let opened = h.open_channel conn w' in
        let (r, w2) = b.open_channel conn w' in
        after_channel-IsBalanced (handles w) conn w' r w2 o opened
    after_dial-IsBalanced w (err x) w' o = o

    pub connect-IsBalanced : (url : Bytes) (w : W) → IsBalanced (handles w) (connect b url w)
    unfolding connect
    connect-IsBalanced url w = elim (Bool-cases (is_empty url)) [
      | inl e ↦ rw e refl
      | inr e ↦
          let dialed = h.dial url w in
          let (r, w') = b.dial url w in rw e (after_dial-IsBalanced w r w' dialed)
    ]
