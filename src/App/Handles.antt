-- ===== src/App/Handles.antt =====
-- What the process of cmd/app/main.go opens in the database, and gives back.
use image_optimizer.Prelude.{
  ℕ, codes, List, ◌≡◌, refl, ◌∙◌, ◌+◌, ◌-◌, Result, ok, err, arith, inl, inr, Result-cases,
}
use image_optimizer.Text.{Bytes}
use image_optimizer.Services.Calls.{continue, ◌>>◌, wrapped, context}
use image_optimizer.Services.Handles.{
  Keeps, Opens, Balanced, bind-Keeps, context-Keeps, bracket-Keeps,
}
use image_optimizer.Db.Connect.{
  Goose, Pools, after_ping, apply_migrations, migrate_dir, migrate, new_pool,
}
use image_optimizer.Storage.Client.{Storage}
use image_optimizer.Queue.{close}
use image_optimizer.Http.{Handler}
use image_optimizer.App.{Servers, Server}

module _ {W : Type 0} (handles : W → ℕ) where
  -- The pools of package pgxpool and the databases of goose: each is open until it is closed.
  pub record HasPools {P : Type 0} (pools : Pools P W) : Type 0 where
    pub new_with_config : (url : Bytes) (w : W) → Opens handles w (pools.new_with_config url w)
    pub ping : (p : P) → Keeps handles (pools.ping p)
    pub close : (p : P) (w : W) → handles (pools.close p w) ≡ handles w - 1

  pub record HasDatabases {D : Type 0} (goose : Goose D W) : Type 0 where
    pub open_database : (url : Bytes) (w : W) → Opens handles w (goose.open_database url w)
    pub ping : (d : D) → Keeps handles (goose.ping d)
    pub set_dialect : (name : Bytes) → Keeps handles (goose.set_dialect name)
    pub up : (d : D) (dir : Bytes) → Keeps handles (goose.up d dir)
    pub close : (d : D) (w : W) → handles (goose.close d w) ≡ handles w - 1

  -- The calls of a server, and those of S3 on a bucket, leave no connection of the process open.
  pub record IsQuiet (servers : Servers W) : Type 0 where
    pub start :
        (h : Handler W) (l : List Server) (w : W) → handles (servers.start h l w) ≡ handles w
    pub start_one : (s : Server) (w : W) → handles (servers.start_one s w) ≡ handles w
    pub select : (w : W) → handles (servers.select w).1 ≡ handles w
    pub shutdown : (n : ℕ) (s : Server) (w : W) → handles (servers.shutdown n s w).1 ≡ handles w
    pub receive : (w : W) → handles (servers.receive w).1 ≡ handles w

  pub record IsQuietBucket (s : Storage W) : Type 0 where
    pub head_bucket : (b : Bytes) (w : W) → handles (s.client.head_bucket b w).1 ≡ handles w
    pub create_bucket : (b : Bytes) (w : W) → handles (s.client.create_bucket b w).1 ≡ handles w

  -- One handle that is opened, and closed with a call that takes one away.
  opened_after :
      {A : Type 0} (text : Bytes) (close : A → W → W) (w : W) (r : Result A) (w' : W)
      → ((a : A) (w1 : W) → handles (close a w1) ≡ handles w1 - 1)
      → Opens handles w (r, w')
      → Balanced handles close (handles w) (wrapped text (r, w'))
  opened_after text close w (ok a) w' c o = λ w1 e. let k = c a w1 in omega arith
  opened_after text close w (err e) w' c o = o

  module _ {P : Type 0} (pools : Pools P W) (h : HasPools pools) where
    after_ping-Balanced :
        (n : ℕ) (p : P) (r : Result (Unit {0})) (w : W)
        → handles w ≡ n + 1
        → Balanced handles pools.close n (after_ping pools p (r, w))
    after_ping-Balanced n p (ok t) w e = λ w1 e1. let k = h.close p w1 in omega arith
    after_ping-Balanced n p (err x) w e = let k = h.close p w in omega arith

    connected-Balanced :
        (n : ℕ) (w : W) (r : Result P) (w' : W)
        → handles w ≡ n
        → Opens handles w (r, w')
        → Balanced handles pools.close n (
            continue
              (wrapped (codes "connect database") (r, w'))
              (λ p w1. after_ping pools p (pools.ping p w1)))
    connected-Balanced n w (ok p) w' e o =
        let k = h.ping p w' in
        let (r, w2) = pools.ping p w' in after_ping-Balanced n p r w2 (omega arith)
    connected-Balanced n w (err x) w' e o = o ∙ e

    pub new_pool-Balanced :
        (url : Bytes) (w : W) → Balanced handles pools.close (handles w) (new_pool pools url w)
    unfolding new_pool
    new_pool-Balanced url w = elim (Result-cases (pools.parse_config url)) [
      | inr (e, q) ↦ rw q refl
      | inl (t, q) ↦
          let o = h.new_with_config url w in
          let (r, w') = pools.new_with_config url w in
          rw q (connected-Balanced (handles w) w r w' refl o)
    ]

  module _ {D : Type 0} (goose : Goose D W) (h : HasDatabases goose) where
    apply_migrations-Keeps : (dir : Bytes) (d : D) → Keeps handles (apply_migrations goose d dir)
    apply_migrations-Keeps dir d =
        let ping = context (codes "ping db for migrate") (goose.ping d) in
        let dialect = context (codes "goose dialect") (goose.set_dialect (codes "postgres")) in
        let up = context (codes "goose up") (goose.up d dir) in
        bind-Keeps handles ping (λ _. dialect >> up)
          (context-Keeps handles (codes "ping db for migrate") (goose.ping d) (h.ping d))
          (λ _.
            bind-Keeps handles dialect (λ _. up)
              (context-Keeps handles (codes "goose dialect") (goose.set_dialect (codes "postgres"))
                (h.set_dialect (codes "postgres")))
              (λ _. context-Keeps handles (codes "goose up") (goose.up d dir) (h.up d dir)))

    pub migrate-Keeps : (url : Bytes) → Keeps handles (migrate goose url)
    unfolding migrate migrate_dir
    migrate-Keeps url =
        bracket-Keeps handles (context (codes "open db for migrate") (goose.open_database url))
          goose.close (λ d. apply_migrations goose d (codes "migrations"))
          (λ w.
            opened_after (codes "open db for migrate") goose.close w (goose.open_database url w).0
              (goose.open_database url w).1 h.close (h.open_database url w))
          (apply_migrations-Keeps (codes "migrations"))
