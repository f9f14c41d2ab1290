-- ===== src/Lib.antt =====
-- TorBoxarr lets Sonarr and Radarr use the TorBox service as if it were a qBittorrent or SABnzbd
-- client. A job is submitted through an API, sent to TorBox, polled until its content is ready there,
-- downloaded part by part, checked, moved to its completed path, and removed on request. The workers
-- of internal/worker do this in steps over a SQLite database; each claims due jobs, handles them one
-- by one, and releases its claims.
--
-- Files.
-- + Base: booleans, lists, integers with the wrap of int64, texts as lists of bytes.
-- + Model: internal/store/model.go. A nil pointer is `none`; a time is a count of nanoseconds.
-- + Torbox/Client: internal/torbox/client.go. An error is its text and what `errors.As` finds in it.
-- + Torbox/Json, `Fields`, `Parse`: internal/torbox/parse.go over JSON values; numbers are the float64 of
--   the decoder. `Service`: http_client.go, with `Retry` for its errors; `Outcome`: chains of results.
--   `Tasks` (tasks.go) and `Links` (download.go): HTTPClient, which implements `Client`; `Match` and
--   `Complete`: which task and which links it returns. `Limiter`: limiter.go, with `Rate`.
-- + World: the tables, a counter of the calls to the outside, and a log of the calls that change it.
--   What SQLite, the clock, TorBox, HTTP servers, the file system and the random numbers answer is a
--   record of functions of the number of the call (`Env`), so any sequence of answers is covered.
--   `M A` is a Go function that returns (A, error). World/Triple: pre- and postconditions; World/Reads:
--   programs that change nothing.
-- + Store: internal/store/store.go. `Retry`: execWrite and the retry of busy statements; `Jobs`, `Claims`,
--   `Parts`, `Sessions`: one definition for each method, with its SQL as a function on the tables and
--   the constraints of internal/store/migrations. `Rules`, `StateRules`, `LogRules`, `EventRules`:
--   triples of the writes. `Answers`: rows of an answer. `RetryBound`, `Audit`, `Keys`, `Exclusion`:
--   the attempts of a write, the event of a change, unique columns, claims.
-- + Paths: path.Clean and the functions of path/filepath that the program calls, for `/`. `Within`: the
--   check of a path against a root.
-- + Files/Layout: internal/files/layout.go; `Names` has the names of files. Files/Downloader:
--   internal/files/downloader.go; `Rules` has what it keeps, `Count` the bytes that are counted.
-- + Diagram: the life of a job as a diagram of states, stated apart from the handlers. Each edge belongs to
--   one worker, and what a worker does is compared with its own edges only.
-- + Worker: internal/worker. `Helpers` (helpers.go), `Batch` (the loop that the five workers share),
--   `Submit`, `Poll`, `Download`, `Finalize`, `Remove` (the files of these names; processXJob is
--   `process_x_job`, runX is `run_x`). Their `States` children relate them to the diagram;
--   `Startup` is reconcileStartup of orchestrator.go, with `Startup/Released` for the claims that it
--   finds and `Startup/Awake` for jobs that sleep. `Submit/Backoff` has the delays, `Finalize/Verified`
--   the check of the parts, `Finalize/Back` what sending a job back leaves, and `Remove/Containment` the paths that are removed.
-- + Auth: internal/auth. `Sab` (sab.go), `Qbit` (qbit.go); `Qbit/Lifetime` follows a session from its
--   login to its expiry or logout.
-- + Compat: internal/compat, with the float64 operations as parameters (`Floats`). `Transfer` and `Qbit`
--   (qbit.go), `Sab` (sab.go); `Views` and `Slots`: what the two interfaces show.
-- + Api: internal/api. `Library`: what it calls of packages outside the repository. `Words`, `Source`:
--   its functions on texts. `Submission`: enqueueSubmission of router.go, with `Duplicate` and `Repeat`
--   for a second submission of a link. `Removal`: markRemovePending and the loops that call it, with
--   `Settled` for a second removal. `Http`: what the handlers read of a request and answer. `Progress`
--   (progress.go), `Categories`, `Qbit` (qbit.go) and `Sab` (sab.go): the handlers, handleX as
--   `handle_x`; `Listing`: the queue and the history. `Router`: Router and handleSABAPI, with `Guard`
--   and `Reading` for what a request can change.
-- + Config: internal/config/config.go; `Dotenv`: the file `.env` and Load, with `Kept` for the variables
--   that are set before and `Quoted` for its single quotes. `Secrets`: what a loaded configuration has.
-- + Examples: a fixed environment and the theorems at concrete inputs.
--
-- Conventions. A method that mutates `*Job` takes the job and returns it where the caller reads it
-- again. Log lines are left out. `retry_loop` has fuel for the 6 attempts of the source, which stops at
-- the sixth. The submit backoff multiplies whole nanoseconds where the source uses float64: below 2^53
-- nanoseconds the product with a power of two is exact, and an infinite one is cut as well.
-- `trim_space`, `to_lower` and `equal_fold` know ASCII only: of other texts Go also trims Unicode white
-- space and folds Unicode letters. A bucket whose tick interval is 0 never ticks here, where
-- `time.NewTicker` ends the program.
--
-- Not modelled: the parsing and printing of HTTP messages, headers, JSON and HTML; opening the database
-- and migrating it; column encodings (JSON, RFC 3339), except that times are compared as the stored
-- texts; tickers and goroutines other than that of the limiter; log lines; the entry point and the mock
-- client; hashes and random bytes, which are parameters.
pub mod Base
pub mod Model
pub mod Torbox
pub mod World
pub mod Store
pub mod Paths
pub mod Files
pub mod Diagram
pub mod Worker
pub mod Auth
pub mod Compat
pub mod Config
pub mod Api
mod Examples
