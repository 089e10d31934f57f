-- ===== src/Db/Connect.antt =====
-- NewPool of internal/db/pool.go and Migrate of internal/db/migrate.go. The packages pgxpool,
-- database/sql and goose are parameters: `P` is a pool of connections, and `D` a database.
use image_optimizer.Prelude.{codes, wrap, Result, ok, err}
use image_optimizer.Text.{Bytes}
use image_optimizer.Services.Calls.{Action, lift, ◌>>=◌, ◌>>◌, context, deferred}

pub record Pools (P W : Type 0) : Type 0 where
  pub parse_config : Bytes → Result (Unit {0})
  pub new_with_config : Bytes → Action W P
  pub ping : P → Action W (Unit {0})
  pub close : P → W → W

-- `set_dialect` and `up` are calls of goose.
pub record Goose (D W : Type 0) : Type 0 where
  pub open_database : Bytes → Action W D
  pub ping : D → Action W (Unit {0})
  pub set_dialect : Bytes → Action W (Unit {0})
  pub up : D → Bytes → Action W (Unit {0})
  pub close : D → W → W

-- NewPool: a pool that cannot be pinged is closed.
abbrev pub after_ping : {P W : Type 0} → Pools P W → P → Result (Unit {0}) × W → Result P × W
after_ping pools p (ok _, w) = (ok p, w)
after_ping pools p (err e, w) = (err (wrap (codes "ping database") e), pools.close p w)

unfoldable pub new_pool : {P W : Type 0} → Pools P W → Bytes → Action W P
new_pool pools url = do
  context (codes "parse database url") (lift (pools.parse_config url))
  p ← context (codes "connect database") (pools.new_with_config url)
  λ w. after_ping pools p (pools.ping p w)

-- MigrateDir, once the database is open
abbrev pub apply_migrations : {D W : Type 0} → Goose D W → D → Bytes → Action W (Unit {0})
apply_migrations goose d dir = do
  context (codes "ping db for migrate") (goose.ping d)
  context (codes "goose dialect") (goose.set_dialect (codes "postgres"))
  context (codes "goose up") (goose.up d dir)

unfoldable pub migrate_dir : {D W : Type 0} → Goose D W → Bytes → Bytes → Action W (Unit {0})
migrate_dir goose url dir = do
  d ← context (codes "open db for migrate") (goose.open_database url)
  deferred (goose.close d) (apply_migrations goose d dir)

unfoldable pub migrate : {D W : Type 0} → Goose D W → Bytes → Action W (Unit {0})
migrate goose url = migrate_dir goose url (codes "migrations")
