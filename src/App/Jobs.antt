-- ===== src/App/Jobs.antt =====
-- runWorker of cmd/app/main.go, with Run of internal/worker/worker.go and waitBackoff of
-- internal/worker/backoff.go.
use image_optimizer.Prelude.{
  codes, Bool, true, false, List, [], ◌∷◌, Option, none, some, if◌then◌else◌, map, ◌++◌, Error,
  errorf, Result, ok, err,
}
use image_optimizer.Text.{is_empty}
use image_optimizer.Services.Calls.{Action, lift, ◌>>=◌, deferred}
use image_optimizer.Config.{Config, load}
use image_optimizer.Db.Connect.{new_pool}
use image_optimizer.Storage.Client.{Storage, new_storage, blob_store}
use image_optimizer.Queue.{Client, Loop, waiting, returned, delivered, connect, consume}
use image_optimizer.Queue.Consumer.{end}
use image_optimizer.Worker.{Deps, process}
use image_optimizer.Imgproxy
use image_optimizer.Imgproxy.Client.{Http, fetcher}
use image_optimizer.Http.Configured.{variant_gen}
use image_optimizer.Http.Routes.{Route, route, any_method, metrics, health, ready}
use image_optimizer.App.{System, Server, s3_config, close_queue}

-- The routes of the worker's server
abbrev pub metrics_routes : List Route
metrics_routes =
    route any_method (codes "/metrics") metrics
    ∷ route any_method (codes "/health") health
    ∷ route any_method (codes "/ready") ready
    ∷ []

module _ {B C H D P W : Type 0} (sys : System B C H D P W) where
  -- waitBackoff
  abbrev pub waited : Option Error × W → Result (Unit {0}) × W
  waited (none, w) = (ok tt, w)
  waited (some e, w) = (err e, w)

  -- worker.Deps
  abbrev pub worker_deps : P → Storage W → Config → Deps W
  worker_deps p stor cfg = record {
    gen =
        variant_gen sys.platform (sys.store p) (blob_store sys.pages stor)
          (fetcher sys.http (some (Imgproxy.Client.new cfg.imgproxy_url))) cfg;
    wait = λ duration w. waited (sys.timer duration w);
    count = sys.count;
  }

  -- What Consume has returned; the events come to an end, so it does not wait for one.
  abbrev pub consumed : Loop × W → Result (Unit {0}) × W
  consumed (waiting, w) = (ok tt, w)
  consumed (returned e, w) = (err e, w)

  -- worker.Run, on dependencies that are all there or not
  unfoldable pub run_if : Bool → Client C H → Deps W → Action W (Unit {0})
  run_if false q deps w = (err (errorf (codes "worker: incomplete deps")), w)
  run_if true q deps w = consumed (
      consume sys.broker (some q) (some (process deps))
        (map delivered sys.deliveries ++ (end sys.ending ∷ [])) w)

  abbrev pub run : Client C H → Deps W → Action W (Unit {0})
  run q deps = run_if deps.gen.complete q deps

  abbrev pub metrics_srv : Config → Server
  metrics_srv cfg = record {
    addr = cfg.metrics_addr;
    routes = metrics_routes;
    tls = none;
    keys = none;
  }

  -- An error of the shutdown is logged.
  abbrev pub shutdown_metrics : Config → Result (Unit {0}) × W → Result (Unit {0}) × W
  shutdown_metrics cfg (r, w) = (r, (sys.servers.shutdown 5 (metrics_srv cfg) w).1)

  -- `errors.Is(err, context.Canceled)` is no error of the worker.
  abbrev pub stopped : Result (Unit {0}) × W → Result (Unit {0}) × W
  stopped (ok _, w) = (ok tt, w)
  stopped (err e, w) = (if e.is_canceled then ok tt else err e, w)

  -- runWorker, from the metrics server on
  unfoldable pub work : P → Storage W → Config → Client C H → Action W (Unit {0})
  work p stor cfg q w =
      let deps = worker_deps p stor cfg in
      if is_empty cfg.metrics_addr
      then stopped (run q deps w)
      else stopped (shutdown_metrics cfg (run q deps (sys.servers.start_one (metrics_srv cfg) w)))

  abbrev pub worker_queue : P → Storage W → Config → Action W (Unit {0})
  worker_queue p stor cfg = do
    q ← connect sys.broker cfg.rabbitmq_url
    deferred (close_queue sys q) (work p stor cfg q)

  abbrev pub worker_pool : Config → P → Action W (Unit {0})
  worker_pool cfg p = do stor ← new_storage sys.load_aws (s3_config cfg); worker_queue p stor cfg

  abbrev pub worker_signals : Config → Action W (Unit {0})
  worker_signals cfg = do
    p ← new_pool sys.pools cfg.database_url
    deferred (sys.pools.close p) (worker_pool cfg p)

  unfoldable pub run_worker : Action W (Unit {0})
  run_worker = do
    cfg ← lift (load sys.readers sys.environment)
    λ w. deferred sys.stop (worker_signals cfg) (sys.notify w)
