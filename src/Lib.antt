-- ===== src/Lib.antt =====
-- zun-rust-server: an HTTP server that queues image edits and runs them on ComfyUI, one at a time.
--
-- Clients submit jobs, poll, list, cancel, delete and restore them, keep a catalog of prompts and
-- fetch images (src/handlers.rs, src/custom_prompts.rs, src/images.rs), with one token (src/auth.rs).
-- One worker task (src/worker.rs) takes the oldest queued job, patches a workflow template
-- (src/workflow.rs), submits it to ComfyUI (src/comfy.rs), writes the output (src/paths.rs) and
-- marks the row. A daily purge (src/purge.rs) removes what is stale,
-- and a daily backup (src/backup.rs) copies the database.
-- They meet in one SQLite database, one data directory, a counter of job events, a wake channel for
-- the worker and ComfyUI's interrupt (src/state.rs).
--
-- The files:
--   Prelude, Prelude/*: numbers, lists, integers (i64) and texts (lists of code points, with the
--     number of bytes of UTF-8) over the native natural numbers; the fields of a header.
--   Sql, Sql/*: the statements of the source over a table as the list of its rows in the order of
--     insertion: WHERE, UPDATE, DELETE, ORDER BY, COUNT and `fetch_optional`, with their laws.
--   Hash: `sha256_hex` and `is_valid_sha256_hex` of src/hash.rs.
--   Limits: the constants of src/lib.rs and `clamp_timeout_seconds`.
--   Error, Error/Redact, Error/Response: `AppError`, `redact_internal` and `into_response` of
--     src/error.rs. `none` is a panic.
--   Jobs: the row of the table `jobs` and every statement that reads or writes it, whichever file it
--     is in, as a function of the table. Jobs/Lifecycle: these writes as one data type `Write`, with
--     `apply`. Jobs/Final, Jobs/Consistent, Jobs/Queue, Jobs/Key: what is proved of them.
--   Server: the shared state as a record.
--   Workflow: JSON values, `patch_placeholders`, `patch_seed_placeholder`, `build_edit_workflow`.
--     Workflow/Fill, Workflow/Delivered: what is proved of them.
--     Workflow/Registry: the registry of templates, its hash maps as association lists.
--   Prompts: the handlers of src/custom_prompts.rs, over the table of prompts. Prompts/Refines: the
--     map from ids to prompts that they implement, with Rows and Listing for what it asks of a row and
--     of a list.
--   Comfy: the retry policy, the capped reads, the stream of events and the history entry.
--     Comfy/Client: the methods of `ComfyClient`, over a network that answers the n-th call.
--   Paths: path assembly and the atomic write, with the disks that exist on the way.
--   Worker: `process_job`, `finalize_output` and the loop of `run` that drains the queue.
--     Worker/Triple, Settles, Interfered, Invariant, Drain: what is proved of them.
--     Worker/Warmup: `spawn_warmup` and `warm_once`.
--   Purge: `run` and the sweep of ComfyUI's directories.
--   Handlers/Control: `delete_job`, `cancel_job`, `restore_job`. Handlers/Listing: `list_jobs`.
--   Handlers/Submit: `submit_job`, its request in Request, its steps in Prompt and Resolve.
--   Handlers/Poll: `get_job` and its wait loop.
--   Access: `require_bearer` of src/auth.rs and `Config::load` of src/config.rs.
--   Backup: `snapshot_once` and `prune_old` of src/backup.rs.
--   Derived: the renditions of src/derived_images.rs. Images: the handlers of src/images.rs and
--     src/inputs.rs, in Images/Serve, over Images/Negotiate and Images/File.
--   Health: `capabilities`, `health` and the cached disk usage of src/lib.rs.
--   Examples, Examples/*: the results at concrete inputs.
--
-- How the program is modelled. A handler is a function from the state to an answer and a state. One
-- SQL statement is atomic; between the statements of `cancel_job`, before each write of the worker's
-- loop to the table of jobs (those of the progress and of the start too) and before its fetches the
-- other tasks write what a list of `Write`s says, and a theorem that needs them quiet says so.
-- The database itself does not fail. The clock, ids, seeds and random suffixes are arguments.
-- The answers of ComfyUI, of the file system, of serde_json, base64 and the embedded directory are
-- arguments too; the cursor's format is an interface with its two round trips as laws. An f64 or f32
-- is its bit pattern, which `as_f64` widens, and the comparison that throttles progress is an argument.
--
-- Bounds. `retry_from` takes fuel, and `with_retry` gives it the three attempts that the code makes,
-- which are enough: the last attempt returns. `crawl` takes a number of requests, and more than the
-- number of matching jobs is enough. `drain` takes a list of turns and says `out_of_turns` when they
-- end; while the other tasks are quiet, more turns than queued jobs are enough. `wait_loop` takes a
-- list of turns and says `pending` when they end; as many turns that end by the fallback tick as
-- there are seconds to wait are enough. `decimal` takes fuel above the number, and a digit uses one.
-- `normalised` takes 24 steps, and a subnormal f32 needs 23 doublings at most.
-- Everything else is structural recursion. The differences of i64 in the purge wrap around, and the
-- sizes of files are added up with saturation.
--
-- Not modelled: the waiting of the worker's outer loop, the timers of the purge and of the backup,
-- routing, logging and the start of the process: wiring of axum, tokio and tracing. SHA-256, the
-- image decoders and encoders, `VACUUM INTO`, the parse of an f32 weight and `with_extension` are
-- parameters.
pub mod Prelude
pub mod Sql
pub mod Limits
pub mod Hash
pub mod Error
pub mod Jobs
pub mod Server
pub mod Workflow
pub mod Prompts
pub mod Comfy
pub mod Paths
pub mod Worker
pub mod Purge
pub mod Handlers
pub mod Access
pub mod Backup
pub mod Derived
pub mod Health
pub mod Images
pub mod Examples
