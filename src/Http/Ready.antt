-- ===== src/Http/Ready.antt =====
-- CheckReady of internal/http/ready.go, with Ping of internal/db/pool.go.
use image_optimizer.Prelude.{
  ℕ, codes, ◌≡◌, refl, ◌⊎◌, inl, inr, Error, Bool, true, false, not, ◌&&◌, Option, none, some,
  if◌then◌else◌, errorf, Result, ok, err,
}
use image_optimizer.Text.{Bytes}
use image_optimizer.Services.Calls.{Action, context}

-- A Pinger, or nil.
abbrev pub Pinger : Type 0 → Type 0
Pinger W = Option (Action W (Unit {0}))

pub record ReadyResponse : Type 0 where
  pub status : Bytes
  pub postgres : Bytes
  pub rabbitmq : Bytes

-- Store.Ping: `pool` is the ping of the pool, if there is one.
unfoldable pub store_ping : {W : Type 0} → Option (Action W (Unit {0})) → Action W (Unit {0})
store_ping none w = (err (errorf (codes "db: store not connected")), w)
store_ping (some pool) w = context (codes "db: ping") pool w

abbrev pub has_failed : {W : Type 0} → Result (Unit {0}) × W → Bool × W
has_failed (ok t, w) = (false, w)
has_failed (err e, w) = (true, w)

unfoldable pub fails : {W : Type 0} → Pinger W → W → Bool × W
fails none w = (true, w)
fails (some ping) w = has_failed (ping w)

abbrev pub check : Bool → Bytes
check failed = if failed then codes "fail" else codes "ok"

abbrev pub report : Bool → Bool → ℕ × ReadyResponse
report a b =
    if not a && not b
    then (200, record { status = codes "ok"; postgres = check a; rabbitmq = check b })
    else (503, record { status = codes "not_ready"; postgres = check a; rabbitmq = check b })

-- RabbitMQ is pinged whether PostgreSQL answers or not.
abbrev pub with_second : {W : Type 0} → Bool → Bool × W → (ℕ × ReadyResponse) × W
with_second a (b, w) = (report a b, w)

abbrev pub with_first : {W : Type 0} → Pinger W → Bool × W → (ℕ × ReadyResponse) × W
with_first rabbitmq (a, w) = with_second a (fails rabbitmq w)

unfoldable pub check_ready : {W : Type 0} → Pinger W → Pinger W → W → (ℕ × ReadyResponse) × W
check_ready postgres rabbitmq w = with_first rabbitmq (fails postgres w)

-- A pinger that is there and answers from `w`, and one that is missing or fails.
abbrev pub IsUp : {W : Type 0} → Pinger W → W → W → Type 0
IsUp p w w' = (ping : Action _ (Unit {0})) × (p ≡ some ping) × (ping w ≡ (ok tt, w'))

abbrev pub IsDown : {W : Type 0} → Pinger W → W → W → Type 0
IsDown p w w' =
    ((p ≡ none) × (w' ≡ w))
    ⊎ ((ping : Action _ (Unit {0})) × (e : Error) × (p ≡ some ping) × (ping w ≡ (err e, w')))

-- What a check reports.
abbrev pub IsChecked : {W : Type 0} → Pinger W → W → W → Bytes → Type 0
IsChecked p w w' text =
    (IsUp p w w' × (text ≡ codes "ok")) ⊎ (IsDown p w w' × (text ≡ codes "fail"))

abbrev pub IsReport : {W : Type 0} → Pinger W → Pinger W → W → (ℕ × ReadyResponse) × W → Type 0
IsReport postgres rabbitmq w a =
    (w1 : _) × IsChecked postgres w w1 a.0.1.postgres
    × IsChecked rabbitmq w1 a.1 a.0.1.rabbitmq
    × (((a.0.0 ≡ 200) × (a.0.1.status ≡ codes "ok") × IsUp postgres w w1 × IsUp rabbitmq w1 a.1)
        ⊎ ((a.0.0 ≡ 503)
            × (a.0.1.status ≡ codes "not_ready")
            × (IsDown postgres w w1 ⊎ IsDown rabbitmq w1 a.1)))

-- The two ways of a check, with the text and the flag that stand for each.
fails_cases :
    {W : Type 0} (p : Pinger W) (w : W)
    → (((fails p w).0 ≡ false) × IsUp p w (fails p w).1)
      ⊎ (((fails p w).0 ≡ true) × IsDown p w (fails p w).1)
unfolding fails
fails_cases none w = inr (refl, inl (refl, refl))
fails_cases (some ping) w = let (r, w1) = ping w in answered r w1 refl
  where
    answered :
        (r : Result (Unit {0})) (w1 : _)
        → ping w ≡ (r, w1)
        → ((has_failed (ping w)).0 ≡ false) × IsUp (some ping) w (has_failed (ping w)).1
          ⊎ ((has_failed (ping w)).0 ≡ true) × IsDown (some ping) w (has_failed (ping w)).1
    answered (ok t) w1 e = rw e (inl (refl, (ping, refl, e)))
    answered (err x) w1 e = rw e (inr (refl, inr (ping, x, refl, e)))

-- CheckReady pings PostgreSQL and then RabbitMQ, whether the first has failed or not, and reports
-- each of them as ok if it is there and answers and as fail if it is missing or fails. It answers
-- 200 and ok if both answer, and 503 and not_ready if one is missing or fails.
pub check_ready-IsReport :
    {W : Type 0} (postgres rabbitmq : Pinger W) (w : W)
    → IsReport postgres rabbitmq w (check_ready postgres rabbitmq w)
unfolding check_ready
check_ready-IsReport postgres rabbitmq w = elim (fails_cases postgres w) [
  | inl (a, up) ↦ elim (fails_cases rabbitmq (fails postgres w).1) [
    | inl (b, up') ↦ rw (a, b) (_, inl (up, refl), inl (up', refl), inl (refl, refl, up, up'))
    | inr (b, down) ↦ rw (a, b) (_, inl (up, refl), inr (down, refl), inr (refl, refl, inr down))
  ]
  | inr (a, down) ↦ elim (fails_cases rabbitmq (fails postgres w).1) [
    | inl (b, up) ↦ rw (a, b) (_, inr (down, refl), inl (up, refl), inr (refl, refl, inl down))
    | inr (b, down') ↦
        rw (a, b) (_, inr (down, refl), inr (down', refl), inr (refl, refl, inl down))
  ]
]
