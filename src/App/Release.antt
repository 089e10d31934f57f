-- ===== src/App/Release.antt =====
-- What runServe of cmd/app/main.go opens, and what it gives back.
use image_optimizer.Prelude.{
  ℕ, ◌≡◌, refl, ◌∙◌, ◌+◌, ◌-◌, Option, none, some, Error, Result, ok, err, arith, Bool-cases, inl,
  inr, [], ◌∷◌, Result-cases,
}
use image_optimizer.Services.Calls.{Action, lift, ◌>>◌, deferred, pure}
use image_optimizer.Services.Handles.{Keeps, Balanced, bind-Keeps, choice-Keeps, bracket-Keeps}
use image_optimizer.Config.{Config, load}
use image_optimizer.Db.Connect.{migrate, new_pool}
use image_optimizer.Storage.Client.{
  Storage, S3Config, BucketError, is_not_found, after_create, after_head, ensure_bucket,
  missing_place, missing_keys, in_bucket, new_storage,
}
use image_optimizer.Queue.{Client, connect}
use image_optimizer.Queue.Handles.{HasHandles, connect-IsBalanced, IsBalanced}
use image_optimizer.Http.{Handler}
use image_optimizer.App.{
  System, Servers, Server, Stop, Tls, single, public_srv, write_srv, wait_shutdown, wait_both,
  after_shutdown, received_both, serve_single, serve_both, serve_dual, serve,
  client_auth_tls_config, handler, with_queue, with_pool, with_signals, run_serve, s3_config,
  close_queue,
}
use image_optimizer.App.Handles.{
  HasPools, HasDatabases, IsQuiet, IsQuietBucket, new_pool-Balanced, migrate-Keeps,
}

module _ {W : Type 0} (handles : W → ℕ) where
  module _ (s : Storage W) (q : IsQuietBucket handles s) where
    after_create-Keeps :
        (o : Option BucketError) (w : W) → handles (after_create s (o, w)).1 ≡ handles w
    unfolding after_create
    after_create-Keeps none w = refl
    after_create-Keeps (some e) w = ground arith

    after_head-Keeps :
        (o : Option BucketError) (w : W) → handles (after_head s (o, w)).1 ≡ handles w
    unfolding after_head
    after_head-Keeps none w = refl
    after_head-Keeps (some e) w = elim (Bool-cases (is_not_found e)) [
      | inr n ↦ rw n refl
      | inl n ↦
          let k = q.create_bucket s.bucket w in
          let (o, w') = s.client.create_bucket s.bucket w in rw n (after_create-Keeps o w' ∙ k)
    ]

    ensure_bucket-Keeps : Keeps handles (ensure_bucket s)
    unfolding ensure_bucket
    ensure_bucket-Keeps w =
        let k = q.head_bucket s.bucket w in
        let (o, w') = s.client.head_bucket s.bucket w in after_head-Keeps o w' ∙ k

  pub new_storage-Keeps :
      (load : S3Config → Result (Storage W)) (cfg : S3Config)
      → ((s : Storage W) → load cfg ≡ ok s → IsQuietBucket handles s)
      → Keeps handles (new_storage load cfg)
  unfolding new_storage
  new_storage-Keeps load cfg h w = elim (Bool-cases (missing_place cfg)) [
    | inl p ↦ rw p refl
    | inr p ↦ elim (Bool-cases (missing_keys cfg)) [
      | inl k ↦ rw (p, k) refl
      | inr k ↦ elim (Result-cases (load cfg)) [
        | inr (e, l) ↦ rw (p, k, l) refl
        | inl (s, l) ↦
            rw (p, k, l)
              (bind-Keeps handles (ensure_bucket (in_bucket cfg s)) (λ _. pure (in_bucket cfg s))
                (ensure_bucket-Keeps (in_bucket cfg s) (quiet s (h s l))) (λ _ _. refl) w)
      ]
    ]
  ]
    where
      quiet : (s : Storage W) → IsQuietBucket handles s → IsQuietBucket handles (in_bucket cfg s)
      quiet s q = record { head_bucket = q.head_bucket; create_bucket = q.create_bucket }

  module _ (servers : Servers W) (q : IsQuiet handles servers) where
    after_shutdown-Keeps :
        (o : Option Error) (w : W) → handles (after_shutdown servers (o, w)).1 ≡ handles w
    after_shutdown-Keeps none w = q.receive w
    after_shutdown-Keeps (some e) w = refl

    wait_shutdown-Keeps :
        (s : Server) (o : Option Stop) (w : W)
        → handles (wait_shutdown servers s (o, w)).1 ≡ handles w
    unfolding wait_shutdown
    wait_shutdown-Keeps s none w =
        let k = q.shutdown 15 s w in
        let (o, w') = servers.shutdown 15 s w in after_shutdown-Keeps o w' ∙ k
    wait_shutdown-Keeps s (some r) w = refl

    shutdown_both-Keeps :
        (n : ℕ) (a b : Server) (w : W)
        → handles (servers.shutdown n b (servers.shutdown n a w).1).1 ≡ handles w
    shutdown_both-Keeps n a b w = q.shutdown n b (servers.shutdown n a w).1 ∙ q.shutdown n a w

    received_both-Keeps : (r : Stop) (w : W) → handles (received_both servers (r, w)).1 ≡ handles w
    received_both-Keeps r w = q.receive w

    wait_both-Keeps :
        (a b : Server) (o : Option Stop) (w : W)
        → handles (wait_both servers a b (o, w)).1 ≡ handles w
    unfolding wait_both
    wait_both-Keeps a b none w =
        let down = (servers.shutdown 15 b (servers.shutdown 15 a w).1).1 in
        let k = q.receive down in
        let (r, w') = servers.receive down in
        received_both-Keeps r w' ∙ k ∙ shutdown_both-Keeps 15 a b w
    wait_both-Keeps a b (some r) w = shutdown_both-Keeps 5 a b w

module _ {B C H D P W : Type 0} (sys : System B C H D P W) (handles : W → ℕ) where
  -- What the libraries promise on what they open.
  pub record HasReleases : Type 0 where
    pub notify : (w : W) → handles (sys.notify w) ≡ handles w + 1
    pub stop : (w : W) → handles (sys.stop w) ≡ handles w - 1
    pub pools : HasPools handles sys.pools
    pub goose : HasDatabases handles sys.goose
    pub broker : HasHandles sys.broker handles
    pub servers : IsQuiet handles sys.servers
    pub bucket :
        (cfg : S3Config) (s : Storage W) → sys.load_aws cfg ≡ ok s → IsQuietBucket handles s

  module _ (r : HasReleases) where
    serve_single-Keeps : (h : Handler W) (cfg : Config) → Keeps handles (serve_single sys h cfg)
    unfolding serve_single
    serve_single-Keeps h cfg w =
        let w1 = sys.servers.start h (single cfg ∷ []) w in
        let k = r.servers.select w1 in
        let (o, w2) = sys.servers.select w1 in
        wait_shutdown-Keeps handles sys.servers r.servers (single cfg) o w2
        ∙ k
        ∙ r.servers.start h (single cfg ∷ []) w

    serve_both-Keeps :
        (h : Handler W) (cfg : Config) (tls : Tls) → Keeps handles (serve_both sys h cfg tls)
    serve_both-Keeps h cfg tls w =
        let l = public_srv cfg ∷ write_srv cfg tls ∷ [] in
        let w1 = sys.servers.start h l w in
        let k = r.servers.select w1 in
        let (o, w2) = sys.servers.select w1 in
        wait_both-Keeps handles sys.servers r.servers (public_srv cfg) (write_srv cfg tls) o w2
        ∙ k
        ∙ r.servers.start h l w

    serve-Keeps : (h : Handler W) (cfg : Config) → Keeps handles (serve sys h cfg)
    unfolding serve_dual
    serve-Keeps h cfg =
        choice-Keeps handles cfg.mtls_enabled (serve_dual sys h cfg) (serve_single sys h cfg)
          (bind-Keeps handles (lift (client_auth_tls_config sys cfg)) (serve_both sys h cfg)
            (λ _. refl) (serve_both-Keeps h cfg))
          (serve_single-Keeps h cfg)

    pub balanced :
        (n : ℕ) (o : Result (Client C H)) (w : W)
        → IsBalanced sys.broker handles n (o, w)
        → Balanced handles (close_queue sys) n (o, w)
    balanced n (ok q) w (e, c) = λ w' k. c w' (k ∙ e)
    balanced n (err x) w e = e

    with_queue-Keeps :
        (p : P) (s : Storage W) (cfg : Config) → Keeps handles (with_queue sys p s cfg)
    with_queue-Keeps p s cfg =
        bracket-Keeps handles (connect sys.broker cfg.rabbitmq_url) (close_queue sys)
          (λ q. serve sys (handler sys p s q cfg) cfg)
          (λ w.
            let k = connect-IsBalanced sys.broker handles r.broker cfg.rabbitmq_url w in
            let (o, w') = connect sys.broker cfg.rabbitmq_url w in balanced (handles w) o w' k)
          (λ q. serve-Keeps (handler sys p s q cfg) cfg)

    with_pool-Keeps : (cfg : Config) (p : P) → Keeps handles (with_pool sys cfg p)
    with_pool-Keeps cfg p =
        bind-Keeps handles (new_storage sys.load_aws (s3_config cfg)) (λ s. with_queue sys p s cfg)
          (new_storage-Keeps handles sys.load_aws (s3_config cfg) (r.bucket (s3_config cfg)))
          (λ s. with_queue-Keeps p s cfg)

    with_signals-Keeps : (cfg : Config) → Keeps handles (with_signals sys cfg)
    with_signals-Keeps cfg =
        bracket-Keeps handles (new_pool sys.pools cfg.database_url) sys.pools.close
          (with_pool sys cfg) (new_pool-Balanced handles sys.pools r.pools cfg.database_url)
          (with_pool-Keeps cfg)

    pub signalled-Keeps :
        (body : Action W (Unit {0}))
        → Keeps handles body
        → Keeps handles (λ w. deferred sys.stop body (sys.notify w))
    signalled-Keeps body h w =
        let n = r.notify w in
        let k = h (sys.notify w) in let s = r.stop (body (sys.notify w)).1 in omega arith

    -- Where the libraries count one connection, channel, pool, database or signal listener more when
    -- they open it and one less when it is closed, and servers and the calls on the bucket leave
    -- that count, runServe returns with as many of them open as it found, on every path: errors of
    -- the configuration, the migration, the pool, the bucket, the broker and the servers included.
    pub run_serve-Keeps : Keeps handles (run_serve sys)
    unfolding run_serve
    run_serve-Keeps =
        let ready : Config → Action W (Unit {0}) = λ cfg.
          migrate sys.goose cfg.database_url
          >> (λ w. deferred sys.stop (with_signals sys cfg) (sys.notify w)) in
        bind-Keeps handles (lift (load sys.readers sys.environment)) ready (λ _. refl)
          (λ cfg.
            bind-Keeps handles (migrate sys.goose cfg.database_url)
              (λ _ w. deferred sys.stop (with_signals sys cfg) (sys.notify w))
              (migrate-Keeps handles sys.goose r.goose cfg.database_url)
              (λ _. signalled-Keeps (with_signals sys cfg) (with_signals-Keeps cfg)))
