-- ===== src/App.antt =====
-- cmd/app/main.go: the process, put together from the other components. The operating system and the
-- servers of package net/http are parameters; `B`, `C`, `H`, `D` and `P` are the response bodies,
-- connections, channels, databases and pools of the libraries.
pub mod Jobs
pub mod Main
pub mod Split
pub mod Handles
pub mod Release
pub mod Calls
pub mod Worker
use image_optimizer.Prelude.{
  ℕ, codes, Bool, true, false, not, ◌&&◌, ◌==◌, List, [], ◌∷◌, Option, none, some, if◌then◌else◌,
  map, ◌++◌, Error, errorf, wrap, Result, ok, err,
}
use image_optimizer.Text.{Bytes, same, is_empty}
use image_optimizer.Services.{ImageStore, BlobStore, JobQueue}
use image_optimizer.Services.Calls.{Action, lift, fail_if, ◌>>=◌, ◌>>◌, context, deferred}
use image_optimizer.Config.{Environment, Readers, Config, load}
use image_optimizer.Db.Connect.{Goose, Pools, migrate, new_pool}
use image_optimizer.Storage.Client.{Storage, S3Config, new_storage, blob_store}
use image_optimizer.Queue.{
  Broker, Client, Loop, waiting, returned, delivered, close, connect, publish, consume,
}
use image_optimizer.Queue.Consumer.{end}
use image_optimizer.Worker.{Label, Deps, process}
use image_optimizer.Imgproxy
use image_optimizer.Imgproxy.Client.{Http, fetcher}
use image_optimizer.Http.{Handler}
use image_optimizer.Http.Configured.{Platform, variant_gen, new_handler}
use image_optimizer.Http.Routes.{
  Route, route, any_method, metrics, health, ready, new_router, new_public_router, new_write_router,
}

-- What ListenAndServe returns: it was shut down, or it failed.
pub data Stop : Type 0 where
  shut : Stop
  broken : (e : Error) → Stop

-- tls.ClientAuthType
pub data ClientAuth : Type 0 where
  no_client_cert : ClientAuth
  request_client_cert : ClientAuth
  require_any_client_cert : ClientAuth
  verify_client_cert_if_given : ClientAuth
  require_and_verify_client_cert : ClientAuth

-- tls.VersionTLS12
abbrev pub version_tls12 : ℕ
version_tls12 = 771

-- tls.Config, in the fields that clientAuthTLSConfig sets: a pool of certificates is the PEM text
-- that was appended to it.
pub record Tls : Type 0 where
  pub client_cas : Bytes
  pub client_auth : ClientAuth
  pub min_version : ℕ

-- A server without `tls` speaks plain HTTP; `keys` are the files of its certificate and its key.
pub record Server : Type 0 where
  pub addr : Bytes
  pub routes : List Route
  pub tls : Option Tls
  pub keys : Option (Bytes × Bytes)

-- The servers of package net/http: they are started (`start_one`
-- is the worker's), the select sees that the context is done or
-- what the first server to stop returned, one is shut down within some seconds, and the next result
-- is received.
pub record Servers (W : Type 0) : Type 0 where
  pub start : Handler W → List Server → W → W
  pub start_one : Server → W → W
  pub select : W → Option Stop × W
  pub shutdown : ℕ → Server → W → Option Error × W
  pub receive : W → Stop × W

-- What the process runs on. `store` is db.NewStore, and `pages` the most pages of a listing that a
-- removal reads. `timer` waits some nanoseconds, unless the context is done first; `deliveries` are
-- those that the consumer is sent until `ending`, which is the context's error, or nothing if the
-- channel is closed.
pub record System (B C H D P W : Type 0) : Type 0 where
  pub readers : Readers
  pub environment : Environment
  pub goose : Goose D W
  pub notify : W → W
  pub stop : W → W
  pub pools : Pools P W
  pub load_aws : S3Config → Result (Storage W)
  pub broker : Broker C H W
  pub servers : Servers W
  pub read_file : Bytes → Result Bytes
  pub has_certificates : Bytes → Bool
  pub http : Http B W
  pub platform : Platform W
  pub store : P → ImageStore W
  pub pages : ℕ
  pub timer : ℕ → W → Option Error × W
  pub count : Label → W → W
  pub deliveries : List (Option Bytes)
  pub ending : Option Error

-- The error that a server's goroutine sends.
abbrev pub sent : Stop → Result (Unit {0})
sent shut = ok tt
sent (broken e) = err e

module _ {W : Type 0} (servers : Servers W) where
  -- The result of a server that is received.
  abbrev pub received : Stop × W → Result (Unit {0}) × W
  received (s, w) = (sent s, w)

  -- waitShutdown, on one server: an error of its shutdown is returned at once.
  abbrev pub after_shutdown : Option Error × W → Result (Unit {0}) × W
  after_shutdown (some e, w) = (err e, w)
  after_shutdown (none, w) = received (servers.receive w)

  unfoldable pub wait_shutdown : Server → Option Stop × W → Result (Unit {0}) × W
  wait_shutdown server (none, w) = after_shutdown (servers.shutdown 15 server w)
  wait_shutdown server (some s, w) = (sent s, w)

  -- Both servers are shut down, whatever the first shutdown returns.
  abbrev pub shutdown_both : ℕ → Server → Server → W → W
  shutdown_both seconds a b w = (servers.shutdown seconds b (servers.shutdown seconds a w).1).1

  abbrev pub first_result : Result (Unit {0}) → Result (Unit {0}) → Result (Unit {0})
  first_result (ok _) r = r
  first_result (err e) r = err e

  abbrev pub received_both : Stop × W → Result (Unit {0}) × W
  received_both (a, w) = let (b, w') = servers.receive w in (first_result (sent a) (sent b), w')

  -- The select of serveDual
  unfoldable pub wait_both : Server → Server → Option Stop × W → Result (Unit {0}) × W
  wait_both a b (none, w) = received_both (servers.receive (shutdown_both 15 a b w))
  wait_both a b (some s, w) = (sent s, shutdown_both 5 a b w)

-- The server of serveSingle, and the two of serveDual
abbrev pub single : Config → Server
single cfg = record { addr = cfg.http_addr; routes = new_router; tls = none; keys = none }

abbrev pub public_srv : Config → Server
public_srv cfg = record {
  addr = cfg.http_addr;
  routes = new_public_router;
  tls = none;
  keys = none;
}

abbrev pub write_srv : Config → Tls → Server
write_srv cfg tls = record {
  addr = cfg.write_http_addr;
  routes = new_write_router;
  tls = some tls;
  keys = some (cfg.tls_cert_file, cfg.tls_key_file);
}

unfoldable pub s3_config : Config → S3Config
s3_config cfg = record {
  endpoint = cfg.s3_endpoint;
  region = cfg.s3_region;
  bucket = cfg.s3_bucket;
  access_key = cfg.s3_access_key;
  secret_key = cfg.s3_secret_key;
  use_path_style = cfg.s3_use_path_style;
}

module _ {B C H D P W : Type 0} (sys : System B C H D P W) where
  -- clientAuthTLSConfig
  abbrev pub tls_of : Result Bytes → Result Tls
  tls_of (err e) = err (wrap (codes "read TLS_CLIENT_CA_FILE") e)
  tls_of (ok pem) =
      if sys.has_certificates pem
      then ok (record {
        client_cas = pem;
        client_auth = require_and_verify_client_cert;
        min_version = version_tls12;
      })
      else err (errorf (codes "TLS_CLIENT_CA_FILE: no certificates found"))

  unfoldable pub client_auth_tls_config : Config → Result Tls
  client_auth_tls_config cfg = tls_of (sys.read_file cfg.tls_client_ca_file)

  unfoldable pub serve_single : Handler W → Config → Action W (Unit {0})
  serve_single h cfg w =
      wait_shutdown sys.servers (single cfg)
        (sys.servers.select (sys.servers.start h (single cfg ∷ []) w))

  abbrev pub serve_both : Handler W → Config → Tls → Action W (Unit {0})
  serve_both h cfg tls w =
      wait_both sys.servers (public_srv cfg) (write_srv cfg tls)
        (sys.servers.select (sys.servers.start h (public_srv cfg ∷ write_srv cfg tls ∷ []) w))

  unfoldable pub serve_dual : Handler W → Config → Action W (Unit {0})
  serve_dual h cfg = do tls ← lift (client_auth_tls_config cfg); serve_both h cfg tls

  abbrev pub serve : Handler W → Config → Action W (Unit {0})
  serve h cfg w = if cfg.mtls_enabled then serve_dual h cfg w else serve_single h cfg w

  -- NewHandler with the stores and the clients of the process
  abbrev pub handler : P → Storage W → Client C H → Config → Handler W
  handler p stor q cfg =
      new_handler sys.platform (sys.store p) (blob_store sys.pages stor)
        (record { publish = publish sys.broker (some q) })
        (fetcher sys.http (some (Imgproxy.Client.new cfg.imgproxy_url))) cfg

  abbrev pub close_queue : Client C H → W → W
  close_queue q w = (close sys.broker (some q) w).1

  -- runServe, from the queue on
  abbrev pub with_queue : P → Storage W → Config → Action W (Unit {0})
  with_queue p stor cfg = do
    q ← connect sys.broker cfg.rabbitmq_url
    deferred (close_queue q) (serve (handler p stor q cfg) cfg)

  -- runServe, with the pool and the bucket
  abbrev pub with_pool : Config → P → Action W (Unit {0})
  with_pool cfg p = do stor ← new_storage sys.load_aws (s3_config cfg); with_queue p stor cfg

  abbrev pub with_signals : Config → Action W (Unit {0})
  with_signals cfg = do
    p ← new_pool sys.pools cfg.database_url
    deferred (sys.pools.close p) (with_pool cfg p)

  unfoldable pub run_serve : Action W (Unit {0})
  run_serve = do
    cfg ← lift (load sys.readers sys.environment)
    migrate sys.goose cfg.database_url
    λ w. deferred sys.stop (with_signals cfg) (sys.notify w)
