-- ===== src/Lib.antt =====
-- PulsePort is a service that samples the metrics of a machine once a second, keeps them in memory,
-- rolls them up to minutes, quarters of an hour and days in a SQLite database, raises alerts, and
-- serves them over HTTP and WebSocket. This library is a model of its core, with theorems about it.
--
-- The parts, their sources and their files:
--
--   include/pulseport/types.h: the shared types. Types, Types/Roundtrip.
--   include/pulseport/ring_buffer.h: RingBuffer has push, pop, size, peek_last, latest and recent under
--     their names; RingBuffer/History relates a ring to the log of all that was pushed, and RingBuffer/Reads
--     states the reads on such a ring. RingBuffer/Threads takes push and pop apart into the loads and stores of two
--     threads, where the copy of an item in or out has a start and an end and may be torn by the other thread;
--     RingBuffer/Threads/Copies and Buffer are about the copies, Interleaving about any order of the steps.
--   src/core/metric_registry.cpp: Registry is an association list from keys to entries, each with a ring of
--     2048 samples; Registry/Feed follows the samples of one metric through it, Registry/Keys is about the keys.
--   src/metrics/aggregator.cpp: Aggregator/Bucket is WorkingBucket, Aggregator has accumulate, flush_1m,
--     flush_15m and finalize_daily; Aggregator/Extremes is about one bucket, Aggregator/Batch
--     about what a flush collects, and Aggregator/Minute follows the samples of a minute through the aggregator,
--     the writer, the database and the reader. Aggregator/Quarter and Aggregator/Rollups are about flush_15m,
--     Aggregator/Daily about finalize_daily.
--   src/metrics/power_pipeline.cpp: Power, and Power/Window on the rolling average.
--   src/metrics/alert_evaluator.cpp: Alerts has check_threshold and evaluate; judge is the part of
--     check_threshold that concerns the state of one key. Alerts/Spacing and Alerts/Check are about one key,
--     Alerts/Evaluation about a whole evaluation.
--   src/storage/writer.cpp and src/storage/reader.cpp: Storage/Writer and Storage/Reader send the statements
--     of Storage/Tables to the SQLite of Storage/Engine. Storage/Upsert, Storage/History, Storage/Ranges,
--     Storage/Retention and Storage/Deletion are about queries, expiry and deletion.
--   src/storage/migration_runner.cpp: Migration, Migration/Pending, Migration/Atomic on
--     migrations that fail; Migration/Repeat and Migration/Kept follow the version and a connection through a run.
--   src/core/sampler.cpp: Sampler, Sampler/Cadence, and Sampler/Invariant on what every tick keeps.
--     Sampler/Lifecycle is start and stop, Sampler/Loop the loop of run with its waits.
--   src/windows/battery_collector.cpp, pdh_collector.cpp, thermal_collector.cpp and process_collector.cpp:
--     Collectors/Battery, Collectors/Pdh, Collectors/Thermal and Collectors/Process have register_... and collect_...
--     under their names; a collection is the list of samples that it pushes. Collectors/Recorded is about the
--     registry after a collection, and the files below the collectors are about each of them: Collectors/Pdh/Opening opens
--     the counters, Collectors/Pdh/Table and Collectors/Pdh/Shown are about what the metrics show.
--   src/storage/database.cpp: Storage/Database, where open_database is Database::open. Storage/Database/Handle is about
--     the handle and Storage/Database/Reopened about opening a second time.
--   src/windows/service_control.cpp: Service, and Service/Reports. Service/Waiting takes signal_stop and wait_for_stop
--     apart into steps of threads, and Service/Waiting/Wakeups is about any order of them.
--   apps/pulseport-service/main.cpp: Application is run_application, with a function for each callback that it gives to
--     the sampler, and Application/Opening is its beginning. Application/Blank and Application/Unrecorded follow their
--     writes over a run, Application/Following and Application/PowerFeed the power draw. Application/Arguments is the command
--     line, Application/Entry is main with the logger, and Application/Entry/Launch what it runs. Application/Settings
--     is the running program with requests that change its configuration, Application/Settings/Preserved what they keep.
--   src/config/config_manager.cpp and POST /api/v1/config of src/server/http_server.cpp: Config,
--     Config/Json and Config/Limits. Config/Files loads, saves and resolves paths; Config/Files/Settled is about
--     loading what was saved, Config/Ints about the fields of type int.
--   src/server/http_server.cpp: Server/Base64, Server/Sha1 and Server/Frame are the WebSocket handshake
--     and the text frames; the files below them hold the proofs. Server/Routes has the checks of the
--     routes for history, energy, events, deletion and configuration; Server/Routes/Refusal is about deletion,
--     Server/Routes/Saved about the configuration. Server/Json has the JSON of the answers and messages, and
--     Server/Json/Reading reads it as a client does.
--     Server/Clients is the list of WebSocket clients and the broadcasts, and Server/Clients/Delivery is about them.
--     Server/Host is the server with what it registers and its start and stop, and the code of main.cpp that makes it.
--     Server/Status has the routes for health, system information, snapshot and diagnostics, with src/diagnostics/self_metrics.cpp.
--   Prelude and its files hold what the parts share; Tests holds the theorems at concrete inputs.
--
-- The sampler calls the collectors, which push samples to the registry; the aggregator writes through the
-- writer and reads back through the reader; the alert evaluator reads a snapshot of the registry and
-- writes events.
--
-- What is a parameter. SQLite is an interface (Storage/Engine: Sqlite) over an abstract database; IsSqlite
-- states what its documentation promises of the statements that the program sends, IsHealthy that no
-- statement fails, and in_memory is a database for which both hold. The migrations run on a connection of their own
-- (Migration: Connection), and records beside the theorems state what these use of transactions, of the table
-- schema_version and of the files of a database. The clock, the local date of a time
-- stamp, fmt, std::to_string, std::hash, the operating system's send, what the Windows API answers and the files of
-- the migrations directory are arguments.
-- A double is an interface too (Prelude/Double): IsOrdered states the order of the values that are not
-- NaN, and Approx is a type for which it holds.
--
-- Bounds. size_t and uint32_t wrap around at 2 ^ 64 and 2 ^ 32. The numbers of a JSON body are cut to 32 or 64 bits as
-- the `int` or `int64_t` they are read into. The counts of samples, rows and seconds are naturals of any size, where the
-- source counts in `int`: no bucket or range is taken to reach 2 ^ 31 of them. Time stamps are integers of any size.
-- The padding loop of SHA-1 has fuel 64: the length it looks for recurs every 64 steps. The other loops
-- recurse on their data or on their number of rounds.
--
-- Not modelled: the threads in which cpp-httplib handles requests, which handler a request reaches, and the
-- static files; what is logged; ws_send_ping, which nothing calls. But for the ring and the wait for the stop,
-- operations run one at a time, in the order that the locks impose.
pub mod Prelude
pub mod Types
pub mod RingBuffer
pub mod Registry
pub mod Aggregator
pub mod Storage
pub mod Power
pub mod Alerts
pub mod Server
pub mod Sampler
pub mod Migration
pub mod Collectors
pub mod Application
pub mod Service
pub mod Config
pub mod Tests
