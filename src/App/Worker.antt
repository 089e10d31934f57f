-- ===== src/App/Worker.antt =====
-- What runWorker of cmd/app/main.go opens, and what it gives back.
use image_optimizer.Prelude.{
  subst, ℕ, codes, ◌≡◌, refl, ◌∙◌, Bool, true, false, [], ◌∷◌, ◌++◌, map, Option, none, some, Error,
  Result, ok, err, Bool-cases, inl, inr,
}
use image_optimizer.Text.{Bytes, is_empty}
use image_optimizer.Db.{Uuid}
use image_optimizer.Services.{ImageStore}
use image_optimizer.Services.Calls.{lift, context, deferred}
use image_optimizer.Services.Handles.{
  Keeps, Same, Same-IsPreorder, bind-Keeps, bind_of-Keeps, context-Keeps, bracket-Keeps,
}
use image_optimizer.Config.{Config, load}
use image_optimizer.Db.Connect.{new_pool}
use image_optimizer.Storage.Client.{Storage, S3Config, new_storage}
use image_optimizer.Imgproxy.Client
use image_optimizer.Imgproxy.Client.{
  Http, Answer, after_read, after_get, fetch_url, request_url, fetch,
}
use image_optimizer.Queue.{Broker, delivered, start, after_start, consume, connect}
use image_optimizer.Queue
use image_optimizer.Queue.Consumer.{end, consume_loop_all}
use image_optimizer.Queue.Handles.{connect-IsBalanced}
use image_optimizer.Queue.Respects.{take_all-Respects}
use image_optimizer.Worker.{Deps, Label, Settle, process}
use image_optimizer.Worker.Respects.{HasJob, process-Respects}
use image_optimizer.Http.Configured.{variant_gen}
use image_optimizer.App.{System, s3_config, close_queue}
use image_optimizer.App.Jobs.{
  worker_deps, run_if, run, work, consumed, metrics_srv, stopped, waited, worker_queue, worker_pool,
  worker_signals, run_worker,
}
use image_optimizer.App.Handles.{new_pool-Balanced}
use image_optimizer.App.Release.{HasReleases, new_storage-Keeps, balanced, signalled-Keeps}
use image_optimizer.App.Calls.{new_storage_ok, write_variant-Keeps, IsQuietHttp, fetch-Keeps}

module _ {B C H D P W : Type 0} (sys : System B C H D P W) (handles : W → ℕ) where
  -- The store's calls give their connections back to the pool.
  pub record IsQuietStore (db : ImageStore W) : Type 0 where
    pub get_image : (id : Uuid) → Keeps handles (db.get_image id)
    pub mark_ready : (id : Uuid) (path : Bytes) → Keeps handles (db.mark_ready id path)
    pub get_variant_by_id : (id : Uuid) → Keeps handles (db.get_variant_by_id id)
    pub incr_attempts : (id : Uuid) → Keeps handles (db.incr_attempts id)
    pub mark_failed : (id : Uuid) (text : Bytes) → Keeps handles (db.mark_failed id text)

  -- The other calls of a worker.
  pub record IsQuietWork : Type 0 where
    pub store : (p : P) → IsQuietStore (sys.store p)
    pub put_object :
        (cfg : S3Config) (s : Storage W)
        → sys.load_aws cfg ≡ ok s
        → (b k bytes : Bytes) → Keeps handles (s.client.put_object b k bytes)
    pub http : IsQuietHttp handles sys.http
    pub timer : (n : ℕ) (w : W) → handles (sys.timer n w).1 ≡ handles w
    pub count : (label : Label) (w : W) → handles (sys.count label w) ≡ handles w
    pub qos : (ch : H) → Keeps handles (sys.broker.qos ch)
    pub consume : (ch : H) (name : Bytes) → Keeps handles (sys.broker.consume ch name)
    pub settle : (s : Settle) (w : W) → handles (sys.broker.settle s w) ≡ handles w

  module _ (r : HasReleases sys handles) (k : IsQuietWork) where
    waited-Keeps : (o : Option Error) (w : W) → handles (waited sys (o, w)).1 ≡ handles w
    waited-Keeps none w = refl
    waited-Keeps (some e) w = refl

    deps-HasJob :
        (p : P) (s : Storage W) (cfg : Config)
        → ((b key bytes : Bytes) → Keeps handles (s.client.put_object b key bytes))
        → HasJob (Same handles) (worker_deps sys p s cfg)
    unfolding variant_gen
    deps-HasJob p s cfg put =
        let q = k.store p in
        record {
          gen = record {
            get_image = q.get_image;
            fetch = fetch-Keeps handles sys.http k.http (some (Client.new cfg.imgproxy_url));
            write_variant = write_variant-Keeps handles s put;
            mark_ready = q.mark_ready;
          };
          get_variant_by_id = q.get_variant_by_id;
          incr_attempts = q.incr_attempts;
          mark_failed = q.mark_failed;
          wait = λ n w. let t = sys.timer n w in waited-Keeps t.0 t.1 ∙ k.timer n w;
          count = k.count;
        }

    start-Keeps : (ch : Option H) → Keeps handles (start sys.broker ch)
    unfolding start
    start-Keeps none w = refl
    start-Keeps (some ch) w =
        let qos = context (codes "queue: qos") (sys.broker.qos ch) in
        let consumer = context (codes "queue: consume") (sys.broker.consume ch Queue.queue_name) in
        bind-Keeps handles qos (λ _. consumer)
          (context-Keeps handles (codes "queue: qos") (sys.broker.qos ch) (k.qos ch))
          (λ _.
            context-Keeps handles (codes "queue: consume") (sys.broker.consume ch Queue.queue_name)
              (k.consume ch Queue.queue_name))
          w

    module _ (deps : Deps W) (job : HasJob (Same handles) deps) where
      consumed-Keeps :
          (o : Result (Unit {0})) (w : W)
          → handles
              (consumed sys (
                after_start sys.broker
                  (process deps)
                  (map delivered sys.deliveries ++ (end sys.ending ∷ []))
                  (o, w))).1
            ≡ handles w
      unfolding after_start
      consumed-Keeps (err e) w = refl
      consumed-Keeps (ok t) w =
          let all = consume_loop_all sys.broker (process deps) sys.deliveries sys.ending [] w in
          rw all (
            take_all-Respects sys.broker (Same handles) (Same-IsPreorder handles) k.settle
              (process deps) (process-Respects (Same handles) (Same-IsPreorder handles) deps job)
              sys.deliveries w)

      run_if-Keeps : (c : Bool) (q : Queue.Client C H) → Keeps handles (run_if sys c q deps)
      unfolding run_if consume
      run_if-Keeps false q w = refl
      run_if-Keeps true q w =
          let s = start sys.broker q.ch w in consumed-Keeps s.0 s.1 ∙ start-Keeps q.ch w

      run-Keeps : (q : Queue.Client C H) → Keeps handles (run sys q deps)
      run-Keeps q = run_if-Keeps deps.gen.complete q

      stopped-Keeps : (o : Result (Unit {0})) (w : W) → handles (stopped sys (o, w)).1 ≡ handles w
      stopped-Keeps (ok t) w = refl
      stopped-Keeps (err e) w = refl

    work-Keeps :
        (p : P) (s : Storage W) (cfg : Config) (q : Queue.Client C H)
        → ((b key bytes : Bytes) → Keeps handles (s.client.put_object b key bytes))
        → Keeps handles (work sys p s cfg q)
    unfolding work
    work-Keeps p s cfg q put w =
        let deps = worker_deps sys p s cfg in
        let job = deps-HasJob p s cfg put in
        elim (Bool-cases (is_empty cfg.metrics_addr)) [
          | inl e ↦
              let o = run sys q deps w in
              rw e (stopped-Keeps deps job o.0 o.1 ∙ run-Keeps deps job q w)
          | inr e ↦
              let srv = metrics_srv sys cfg in
              let w1 = sys.servers.start_one srv w in
              let o = run sys q deps w1 in
              let w2 = (sys.servers.shutdown 5 srv o.1).1 in
              rw e (
                stopped-Keeps deps job o.0 w2
                ∙ r.servers.shutdown 5 srv o.1
                ∙ run-Keeps deps job q w1
                ∙ r.servers.start_one srv w)
        ]

    worker_queue-Keeps :
        (p : P) (s : Storage W) (cfg : Config)
        → ((b key bytes : Bytes) → Keeps handles (s.client.put_object b key bytes))
        → Keeps handles (worker_queue sys p s cfg)
    worker_queue-Keeps p s cfg put =
        bracket-Keeps handles (connect sys.broker cfg.rabbitmq_url) (close_queue sys)
          (work sys p s cfg)
          (λ w.
            let c = connect-IsBalanced sys.broker handles r.broker cfg.rabbitmq_url w in
            let o = connect sys.broker cfg.rabbitmq_url w in
            balanced sys handles r (handles w) o.0 o.1 c)
          (λ q. work-Keeps p s cfg q put)

    worker_pool-Keeps : (cfg : Config) (p : P) → Keeps handles (worker_pool sys cfg p)
    worker_pool-Keeps cfg p =
        bind_of-Keeps handles (new_storage sys.load_aws (s3_config cfg))
          (λ s. worker_queue sys p s cfg)
          (new_storage-Keeps handles sys.load_aws (s3_config cfg) (r.bucket (s3_config cfg)))
          (λ s w w' made.
            let (t, l, e) = new_storage_ok sys.load_aws (s3_config cfg) s w w' made in
            worker_queue-Keeps p s cfg
              (subst
                (λ (x : Storage W).
                  (b key bytes : Bytes) → Keeps handles (x.client.put_object b key bytes))
                e (k.put_object (s3_config cfg) t l))
              w')

    worker_signals-Keeps : (cfg : Config) → Keeps handles (worker_signals sys cfg)
    worker_signals-Keeps cfg =
        bracket-Keeps handles (new_pool sys.pools cfg.database_url) sys.pools.close
          (worker_pool sys cfg) (new_pool-Balanced handles sys.pools r.pools cfg.database_url)
          (worker_pool-Keeps cfg)

    -- Where the libraries count what they open as for runServe, and the calls of a job leave that
    -- count, runWorker returns with as many connections, channels, pools and signal listeners open
    -- as it found, whatever is delivered and however the consumer ends.
    pub run_worker-Keeps : Keeps handles (run_worker sys)
    unfolding run_worker
    run_worker-Keeps =
        bind-Keeps handles (lift (load sys.readers sys.environment))
          (λ cfg w. deferred sys.stop (worker_signals sys cfg) (sys.notify w)) (λ w. refl)
          (λ cfg. signalled-Keeps sys handles r (worker_signals sys cfg) (worker_signals-Keeps cfg))
