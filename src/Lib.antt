-- ===== src/Lib.antt =====
-- Verification of the image optimizer: an HTTP service that stores images in an S3 bucket and their rows in
-- PostgreSQL, makes AVIF variants of them by imgproxy, inline or by a worker on a RabbitMQ queue.
--
-- The parts, and how they meet:
-- * internal/folder/folder.go, Validate: Folder. The folder that an upload names.
-- * internal/storage/storage.go, as a whole: Storage. Its normalizeKey, normalizeFolder, validateID,
--   validateParamsHash, sanitizeExt, VariantPath and the key of SaveOriginal are in Storage.Keys;
--   Storage.Checks, Storage.Normal, Storage.Layout and Storage.Paths are about the keys, and use Folder, since
--   uploads check a folder twice. Its operations on the bucket are in Storage.Client: New, ensureBucket,
--   SaveOriginal, WriteVariant, Get, DeleteImageFiles and deletePrefix, over the calls of the S3 client.
--   Storage.S3 says what is relied on in S3. Storage.Removal, Storage.Rounds, Storage.Pages, Storage.Files and
--   Storage.Others are about deletions, and Storage.Contents about what is written and read.
-- * internal/transform/params.go, Parse, Normalize, Hash, canonicalKey: Transform, with proofs in
--   Transform.Parse, Transform.KeyParts, Transform.Key and Transform.Hash. CacheKeyJSON and ParamsFromJSON of
--   internal/variantgen/variantgen.go: Transform.Json and Transform.JsonLaws.
-- * internal/imgproxy/path.go, BuildPath: Imgproxy. client.go, New and Fetch: Imgproxy.Client and
--   Imgproxy.Requests.
-- * internal/db/models.go, images.go and variants.go with migrations/00001_init.sql: Db holds the rows,
--   Db.Store the statements, Db.Invariant the constraints. A table is a list of rows with the newest first.
--   Every statement takes the server's answer: it ran, it was refused, or it ran and its answer was lost.
--   Db.Steps has the statements as steps. internal/db/pool.go, NewPool, and migrate.go, MigrateDir:
--   Db.Connect.
-- * The interfaces of internal/http/router.go: Services, records of calls over an abstract world that every
--   call may change. Services.Calls chains calls, errors included; Services.Respects and Services.Handles
--   carry a relation between worlds, or a count of open handles, along such a chain, and Services.Succeeds
--   takes a success apart. Backend fills the interface of the repository with the statements of Db.Store, over
--   a world of tables, answers to come, a clock and a supply of UUIDs.
-- * internal/variantgen/variantgen.go, TransformAndPersist: VariantGen, which the worker and the handlers
--   share. VariantGen.Made is about what it leaves in the bucket.
-- * internal/worker/worker.go and backoff.go, and handleDelivery of internal/queue/queue.go: Worker.
--   Worker.Process and Worker.Retries follow a job that fails, Worker.Settled one that is acknowledged.
-- * internal/queue/queue.go, Connect, QueueInspect, Ping, Publish, Consume and Close: Queue. The select of
--   Consume is a list of the events that it sees; Queue.Depth has pollQueueDepth of internal/worker/worker.go;
--   Queue.Respects is about the deliveries one after another.
-- * internal/http/handlers.go, resolveVariant, publishBestEffort, syncGenerate, waitOrSync: Http.Resolve;
--   handleGet, handleHead, handleDelete, serveVariant, writeFailed: Http.Serve; detectImageType,
--   isAllowedImageType and isWebP: Http.ImageType; handleUpload, handleCopy and extensionForOriginal:
--   Http.Upload. Http.Reads, Http.Outcomes and Http.Fuel say what resolveVariant returns, and that it does.
--   Http.Stored, Http.Copied, Http.Erased and Http.Undone put the handlers on the bucket.
-- * internal/http/router.go, the routers: Http.Routes; NewHandler and variantGen: Http.Configured. ready.go,
--   CheckReady, and Ping of internal/db/pool.go: Http.Ready.
-- * internal/config/config.go, Load: Config, a function of the environment.
-- * cmd/app/main.go, as a whole: App, which puts the parts together: runServe with serveSingle, serveDual
--   and waitShutdown, runWorker with Run of internal/worker/worker.go in App.Jobs, and main in App.Main. A
--   deferred call is a call behind the body. App.Handles, App.Release, App.Calls and App.Worker are about what
--   is open, App.Split about the two servers and who reaches them.
-- * Text has what these parts use of strings, path, strconv and regexp, on lists of bytes: path.Clean is the
--   resolution of the elements one by one, and a regular expression is a list of ways to match a prefix.
--   Prelude passes on the library and adds tests on numbers, errors and results. Examples holds concrete
--   inputs.
--
-- Long handlers are cut at their calls: a function for what follows a call takes the call's result and the
-- world behind it. Logging, and the durations that are only observed, are left out.
--
-- Bounds and fuel. An int is 64 bits wide: Atoi refuses what does not fit, the backoff's product wraps, and
-- so does the limit of a read, one above MAX_UPLOAD_BYTES. The column attempts has 32 bits. Two loops have
-- no bound of their own. The loop of waitOrSync runs on fuel, and returns `none` without it: one round waits
-- 50 ms, so that fuel of more than the timeout divided by 50 ms is enough, where the clock does not run
-- back. The loop of deletePrefix takes one unit of fuel for a page, and one more than the pages that are
-- left is enough. Consume's loop ends with the list of its events, whose last is an end. Every other loop is
-- structural.
--
-- Parameters. SHA-256, the UUID texts, the errors of encoding/json, strconv and PostgreSQL,
-- time.ParseDuration, lower case and blanks beyond ASCII, the clients of S3, HTTP, AMQP, pgx and goose, the
-- servers of net/http, files, signals, the sniffing of contents, the reading of a form, the clock and the
-- counters are arguments, with what is used of them as named conditions (IsDigest, HasClock, IsDown, IsS3,
-- HasNoKeyErrors, HasReleases, IsQuietWork, IsHonest).
--
-- Not modelled: the declarations of metrics, logging, the options of the SDK's client, the matching of
-- routes by chi, and the start of the goroutine of pollQueueDepth in Run, which only sets a gauge. Whom a
-- tls.Config lets in is stated in App.Split as crypto/tls documents it, over a parameter for the check of a
-- certificate. A JSON text is taken as the value it stands for.
pub mod Prelude
pub mod Text
pub mod Folder
pub mod Storage
pub mod Transform
pub mod Db
pub mod Services
pub mod Imgproxy
pub mod Backend
pub mod VariantGen
pub mod Worker
pub mod Queue
pub mod Http
pub mod Config
pub mod App
pub mod Examples
