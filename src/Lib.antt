-- ===== src/Lib.antt =====
-- The NoBase agent, a daemon that reports a server's metrics to a gateway and does what the
-- gateway asks of it over one WebSocket, as a model with its theorems.
--
-- The parts, and where they are modelled:
-- - Prelude: shared names, Boolean tests, lists over native numbers, results, actions (state and
--   failure), maps with text keys.
-- - Proto: the messages. Proto/Rpc is proto/src/rpc.rs, Proto/Methods the payloads of
--   proto/src/methods.rs, Proto/Wire what the agent takes from serde_json.
-- - MetricsBuffer: src/metrics_buffer.rs. `Table` is the SQLite table; MetricsBuffer/Sql has one
--   function for each SQL statement, MetricsBuffer one action for each method (`new`, `store`,
--   `get_unsent`, `mark_sent`, `cleanup`, `cleanup_sent`, `unsent_count`, `total_count`), in
--   which the lock and the statement may fail (`Faults`). MetricsBuffer/Collection is the
--   collection task of src/connection.rs; a `Tick` says what it samples, what fails and what panics.
-- - Push: the metrics push task of src/connection.rs (`connect_and_run`), which reads the buffer
--   and fills the channel `tx`. A `Round` says what fails in one turn of its loops, and what the
--   collection task calls meanwhile; `push_task` runs a list of them.
-- - Storage: std::fs::write and rename on whole texts, with what they leave when they fail.
-- - Config: src/config.rs. `load`, `validate`, `save`, `set_credentials`, `needs_registration`.
-- - Connection: src/connection.rs, the first message of a connection, `handle_response`, and the
--   key rotation of src/dispatcher.rs (`handle_rotate_key`); they share the configuration and its
--   file (`Agent`). Connection/Backoff is the loop of `run_connection_loop` with its delays.
-- - FileSystem: files that names lead to, as the handlers open, write, rename and remove them.
-- - FileAccess: fs.read and fs.write of src/handlers/fs.rs (`handle_fs_read`, `handle_fs_write`).
-- - Upload: the chunked uploads of src/handlers/fs.rs (`handle_fs_upload_start`,
--   `handle_fs_upload_chunk`, `handle_fs_upload_end`) with their map `UPLOADS`. Upload/Progress has
--   what the chunks leave, Upload/Arrivals, Upload/InOrder and Upload/Refused the end.
-- - Listing: fs.list and fs.stat of src/handlers/fs.rs. Listing/Mode has the text of a mode,
--   Listing/Order the order of a listing, Listing/Columns the lines of `ls`.
-- - Streams: what handlers send beside their responses. Streams/Download is fs.download of
--   src/handlers/fs.rs, Streams/Exec is src/handlers/exec.rs, Streams/Logs docker.logs of
--   src/handlers/docker.rs. Streams/Prefix and Streams/Drain have what a download sends, Streams/Order,
--   Streams/Runs and Streams/Finish what exec.stream sends, Streams/Follow what docker.logs sends.
-- - Updater: src/updater.rs (`check_and_update`), on the backend's answers and the machine's faults.
-- - Shell: src/handlers/shell.rs, the handlers of the shell sessions, the turns of their read threads
--   (`read_turn`, `end_reader`), and the descriptors. Shell/Steps has them as a step relation.
-- - FileCalls: fs.mkdir, fs.delete, fs.rename and fs.search of src/handlers/fs.rs.
-- - Docker: docker.list and docker.inspect of src/handlers/docker.rs; Docker/Stats is docker.stats.
-- - Metrics: src/handlers/metrics.rs, with its caches; Metrics/Payload has `build_metrics` and the
--   payloads of proto/src/metrics.rs.
-- - Dispatch: src/dispatcher.rs. `AgentState` is what the handlers share, `Outcomes` what the host and the
--   network do during a request; Dispatch/Routes has `dispatch_request`, Dispatch/Receive
--   the receive loop of src/connection.rs with the tasks of its requests, what their handlers leave
--   running, and the channel that they share with the shells, the heartbeat and the push;
--   Dispatch/Merged, Trace and Settling are for its theorem. Dispatch/Tasks has the heartbeat and the
--   update check.
-- - Cli: src/main.rs, the commands and `uninstall`. Cli/Removal has what an uninstall leaves.
-- - Samples: values for the parameters, for the tests of each part (its child Tests).
--
-- How they interact: Connection reads and writes the Config record and its file; the collection
-- task stores in MetricsBuffer while Push drains it. FileAccess, Upload and Updater work on
-- FileSystem; Shell has its own state. The handlers answer with the envelopes of Proto/Rpc, and
-- Dispatch runs them on the state that they share.
--
-- Conventions. A model of a loop that the outside drives (the push task, the connection loop, a
-- transfer) runs on the list of what happens to it, one element a turn, so it needs no fuel; a
-- theorem on its end says how many turns are enough. Numbers of type u64 and i64 wrap or are
-- cast as in the source. SQLite, serde_json, toml, the clock, the file system's and the
-- network's failures are parameters. Log lines are left out.
--
-- A handler is one step (a command, a file that blocks or a log that does not end are outcomes that come
-- in whole, so that such a handler ends is not shown): the shell, upload and configuration handlers run in tasks of their own
-- (src/connection.rs spawns one for each request), so a run is a list of steps in any order. A path
-- leads to one file; directories, links, owners and permissions are left out.
--
-- Not modelled: the sender task of src/connection.rs, which passes texts on to the WebSocket; clap and
-- the log set-up of src/main.rs; the install scripts; the transport (WebSocket, TLS).
pub mod Prelude
pub mod Proto
pub mod MetricsBuffer
pub mod Push
pub mod Samples
pub mod Storage
pub mod Streams
pub mod FileCalls
pub mod Docker
pub mod Cli
pub mod Dispatch
pub mod Metrics
pub mod Config
pub mod Connection
pub mod FileSystem
pub mod Upload
pub mod Updater
pub mod Shell
pub mod FileAccess
pub mod Listing
