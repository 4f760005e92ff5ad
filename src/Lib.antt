-- ===== src/Lib.antt =====
-- listener-go: it scans EVM chains for deposits and sends them to an Adapter over a WebSocket.
--
-- For each chain and each kind of scanner a polling loop (internal/scanner/loop.go) reads the head,
-- scans the confirmed blocks after its cursor, and writes the deposits of each block and the new
-- cursor into Postgres in one transaction (internal/database/buffer_repo.go). The publisher
-- (internal/publisher) reads the buffered deposits, oldest first, sends them, and deletes a row once
-- its ACK has come. Calls of the nodes are retried by internal/common/retry. The parts meet in the
-- two tables deposit_buffer and scan_cursor only.
--
-- Files:
--   Prelude, Prelude/*: Boolean tests, lists, integers of 64 bits, text, decimal numbers.
--   Model, Model/Units: internal/model/deposit.go. `to_deposit` is ToDeposit, `format_units` is
--     formatUnits; time.Parse and the Format of times are the record `TimeFormats`.
--   Database/Tables: the two tables as lists of rows, and the SQL statements on them.
--   Database/Buffer: the methods of BufferRepo, `save_and_advance` for SaveAndAdvance and so on.
--     `Outcomes` says which statement of the transaction fails and how COMMIT ends; an answer that
--     is lost after the commit took effect is one of the ends. Database/Buffer/*: their theorems.
--   Database/Accounts, Database/Accounts/Agreement: Has and HasMany of
--     internal/database/account_repo.go.
--   Database/Chains: the records of internal/database/database.go. Database/Config, Database/Config/*:
--     internal/database/config_repo.go, from the rows that its queries return.
--   Retry, Retry/*: Do is `retry`, IsRetryable is `is_retryable`, on chains of errors `GoError`.
--   Settings, Settings/Tags: internal/config/config.go. Startup: main and run of cmd/listener/main.go, from
--     the settings to the exit code; Startup/Builder is newLoopBuilder and newAuditBuilder, Startup/Monitor
--     runBufferMonitor, Startup/Tickers the durations that time.NewTicker is given.
--   Scanner/Loop, Scanner/Loop/*: pollOnce is `poll_once`, its `for` over blocks `scan_blocks`. What
--     the node, the clock, the database and the context do in a cycle is the record `Poll`. Run is
--     `run_loop` in Scanner/Loop/Runs.
--   Scanner/Node: what the scanners take from a node (internal/scanner/client.go) and from go-ethereum.
--   Scanner/Decoder, Scanner/Decoder/Dispatch: internal/scanner/decoder; the interface Decoder is a
--     record with its function.
--   Scanner/Log, Scanner/Log/*: internal/scanner/log_scanner.go and event_parser.go. Native is
--     parseNativeTransfers, Tokens parseTokenTransfers, Blocks ScanBlock; a `ScanWorld` is what one
--     ScanBlock meets, with the order in which the goroutines of the errgroup end.
--   Scanner/Trace, Scanner/Trace/*: internal/scanner/trace_scanner.go. Frames is collect, Code
--     isContract and traceTransaction, Blocks ScanBlock; a `TraceState` is the cache and the flag.
--   Decryption: internal/decryption/decryptor.go. Listener: decodersForChain of cmd/listener/main.go.
--   Publisher/Protocol: the envelope, ackID as `ack_id`. Publisher/Outstanding: the in-flight table.
--   Publisher/AckMode, Publisher/AckMode/*: drainWithACK. An `Event` is a case that its select takes
--     or a message of the read loop; `run` takes any sequence of them.
--   Publisher/FireAndForget, Publisher/FireAndForget/*: drainFireAndForget. A `Pass` is what one round
--     of the loop of flushUntilEmpty meets.
--   Publisher/Connections, Publisher/Connections/*: New and Run, over a list of `Attempt`s, one for
--     each turn of the loop of Run.
--   Audit, Audit/*: runCycle, auditChain, auditScanner and auditBlock of internal/audit/auditor.go; a
--     `Report` holds the metrics that they move. Audit/Runs: New and Run.
--   Supervisor, Supervisor/*: reconcile, startChain and stopAll of
--     internal/supervisor/supervisor.go on the map of running chains. Supervisor/Run: New and Run.
--   Notify, Notify/Waits: Run and runOnce of internal/notify/listener.go. Health, Health/Ready: readyz
--     and healthz of internal/httpserver/server.go, and readyMarkingSource of cmd/listener/main.go.
--     Health/Serves: how Run of the server ends.
--   Scanner/Loop/Machine, Scanner/Loop/Machine/*: pollOnce in turns, between which others may use the
--     database; a `Phase` is where the loop stands.
--   Supervisor/Chain, Supervisor/Chain/*: the goroutines of startChain and runLoop for one chain, with
--     the counter of newLoopBuilder by which the last loop closes the RPC client, as a step relation.
--   Scanner/Deposits: a LogScanner in its polling loop. System, System/*: scanners and publisher on one
--     database, as step relations. In System a step is one transaction of a scanner, a new connection,
--     or one turn of the select of drainWithACK; in System/Loops the polling loops of all chains take
--     their turns, and loops and the process may stop and begin again.
--   Samples, Tests, Tests/*: concrete inputs, and the theorems applied to them.
--
-- Numbers: uint64 block numbers are natural numbers with the wrap-around written out, int and int64
-- are integers. `scan_blocks` takes as fuel one more than the number of blocks of the range, which is
-- enough for every cycle. `retry` recurs on the number of retries left. `flush_until_empty` takes the
-- number of its rounds as fuel, since it need not end while deletions fail.
--
-- Parameters of the model: encoding/json (`Codec`, `Wire`, `TraceWorld`; a payload that was marshalled
-- reads back), the formats of times (`TimeFormats`), addresses and hashes (`Formats`), SHA-256, the
-- answers of the node, the failures of Postgres and of the connection, and the clock. A transaction of
-- Postgres is atomic and isolated, and a sequence is not rolled back.
--
-- Not modelled: logging, signals, the metrics where no definition names them, the routes of the HTTP
-- server, the SQL of the LISTEN connection, and the setting of read and write deadlines. env.Parse,
-- strings.TrimSpace and the pool are parameters of the start. System/Loops has one loop for each chain
-- and scanner, which the supervisor starts, except that a chain that is switched off and on again may
-- run beside its old loops. In Publisher/AckMode the database is that of one connection alone; in System
-- the scanners write it at any time, and in Publisher/FireAndForget between two rounds of a flush.
pub mod Prelude
pub mod Model
pub mod Database
pub mod Retry
pub mod Scanner
pub mod Publisher
pub mod Audit
pub mod Supervisor
pub mod Decryption
pub mod Listener
pub mod Notify
pub mod Health
pub mod Settings
pub mod Startup
pub mod System
pub mod Samples
pub mod Tests
