-- ===== src/Startup.antt =====
-- cmd/listener/main.go: main and run. What run meets outside of the process is a `Startup`; the
-- settings that it hands to the components are a `Wiring`.
pub mod Builder
pub mod Exit
pub mod Monitor
pub mod Tickers
use listener_go.Prelude.{
  ℕ, ◌*◌, ◌%◌, u64, ℤ, pos, to_int64, to_uint64, Text, codes, Bool, true, false, leb_ℤ, Option,
  none, some, List, [], ◌∷◌, Result, ok, err, ◌||◌, ◌++◌, ◌/◌, if◌then◌else◌,
}
use listener_go.Retry.{GoError, canceled, wrapped, Options, errors_is}
use listener_go.Decryption.{KeyError, Decryptor, noop, new_env_decryptor}
use listener_go.Settings.{Config, ParseFailure, ConfigError, load}
use listener_go.Database.Chains.{ChainConfig}
use listener_go.Scanner.Loop.{LoopConfig}
use listener_go.Audit.{AuditConfig}
use listener_go.Publisher.Connections.{Settings, with_defaults}

-- time.Duration(n) * unit, an int64 of nanoseconds.
unfoldable pub times : ℕ → ℤ → ℤ
times unit n = to_int64 ((to_uint64 n * unit) % u64)

abbrev pub milliseconds : ℤ → ℤ
milliseconds n = times 1000000 n

abbrev pub seconds : ℤ → ℤ
seconds n = times 1000000000 n

abbrev pub buffer_poll_interval_ms : ℤ
buffer_poll_interval_ms = pos 500

abbrev pub buffer_max_batch_size : ℤ
buffer_max_batch_size = pos 100

-- The config of the publisher; a duration that main leaves out is 0.
pub record PublisherConfig : Type 0 where
  pub url : Text
  pub reconnect_interval_ms : ℤ
  pub drain_timeout_ms : ℤ
  pub poll_interval_ms : ℤ
  pub max_batch_size : ℤ
  pub require_ack : Bool
  pub settings : Settings

pub record AuditSetup : Type 0 where
  pub interval_seconds : ℤ
  pub config : AuditConfig

pub record Wiring : Type 0 where
  pub kcp : Option ℤ
  pub retry_options : Options
  pub decryptor : Decryptor
  pub publisher : PublisherConfig
  pub http_addr : Text
  pub supervisor_poll_ms : ℤ
  pub monitor_interval_s : ℤ
  pub audit : Option AuditSetup

-- `New` of the auditor sets the confirmations, and a negative number of samples takes none.
abbrev samples : ℤ → ℕ
samples (pos n) = n
samples n = 0

audit_setup : Config → AuditSetup
audit_setup cfg = record {
  interval_seconds = cfg.audit_interval_s;
  config = record {
    window_blocks = to_uint64 cfg.audit_window_blocks;
    safety_margin = to_uint64 cfg.audit_safety_margin;
    samples_per_cycle = samples cfg.audit_samples_per_cycle;
    block_rescan_confs = pos 1000;
  };
}

publisher_config : Config → PublisherConfig
publisher_config cfg = record {
  url = cfg.ws_target;
  reconnect_interval_ms = cfg.reconnect_interval_ms;
  drain_timeout_ms = cfg.drain_timeout_ms;
  poll_interval_ms = buffer_poll_interval_ms;
  max_batch_size = buffer_max_batch_size;
  require_ack = cfg.publisher_require_ack;
  settings = record {
    write_timeout = pos 0;
    read_timeout = pos 0;
    ping_interval = pos 0;
    ack_timeout = milliseconds cfg.publisher_ack_timeout_ms;
    max_in_flight = cfg.publisher_max_in_flight;
  };
}

unfoldable pub wire : Config → Option ℤ → Decryptor → Wiring
unfolding publisher_config audit_setup
wire cfg kcp decryptor = record {
  kcp = kcp;
  retry_options = record {
    max_retries = cfg.rpc_max_retries;
    base_delay = to_uint64 (milliseconds cfg.rpc_retry_base_delay_ms);
  };
  decryptor = decryptor;
  publisher = publisher_config cfg;
  http_addr = cfg.http_addr;
  supervisor_poll_ms = cfg.manager_poll_interval_ms;
  monitor_interval_s = cfg.buffer_stats_interval_s;
  audit = if cfg.audit_enabled then some (audit_setup cfg) else none;
}

-- loopCfgFor of newLoopBuilder, the fields that the polling cycle reads.
unfoldable pub loop_config_for : Config → Options → ChainConfig → LoopConfig
loop_config_for cfg retry_options chain = record {
  min_confirmations = chain.min_confirmations;
  max_blocks_per_poll = cfg.max_blocks_per_poll;
  retry_options = retry_options;
}

-- What run meets: env.Parse, the pool, the KCP chain of the database, and strings.TrimSpace.
pub record Startup : Type 0 where
  pub env : Result ParseFailure Config
  pub pool : Option GoError
  pub kcp : Result GoError (Option ℤ)
  pub trim : Text → Text

pub data RunError : Type 0 where
  config_error : ConfigError → RunError
  bad_key : KeyError → RunError
  failed : GoError → RunError

-- NewEnvDecryptor trims the key, so that one of spaces gives no decryptor.
made_decryptor : Result KeyError (Option Decryptor) → Result RunError Decryptor
made_decryptor (err e) = err (bad_key e)
made_decryptor (ok none) = ok noop
made_decryptor (ok (some d)) = ok d

unfoldable pub choose_decryptor : (Text → Text) → Text → Result RunError Decryptor
unfolding made_decryptor
choose_decryptor trim [] = ok noop
choose_decryptor trim (c ∷ key) = made_decryptor (new_env_decryptor (trim (c ∷ key)))

after_decryptor : Config → Option ℤ → Result RunError Decryptor → Result RunError Wiring
after_decryptor cfg kcp (err e) = err e
after_decryptor cfg kcp (ok d) = ok (wire cfg kcp d)

after_kcp : (Text → Text) → Config → Result GoError (Option ℤ) → Result RunError Wiring
unfolding after_decryptor
after_kcp trim cfg (err e) = err (failed (wrapped (codes "read KCP chain ID: ") e))
after_kcp trim cfg (ok kcp) =
    after_decryptor cfg kcp (choose_decryptor trim cfg.eerc_auditor_private_key)

after_pool : Startup → Config → Option GoError → Result RunError Wiring
unfolding after_kcp
after_pool s cfg (some e) = err (failed (wrapped (codes "connect Postgres: ") e))
after_pool s cfg none = after_kcp s.trim cfg s.kcp

after_load : Startup → Result ConfigError Config → Result RunError Wiring
unfolding after_pool
after_load s (err e) = err (config_error e)
after_load s (ok cfg) = after_pool s cfg s.pool

unfoldable pub start_up : Startup → Result RunError Wiring
unfolding after_load
start_up s = after_load s (load s.env)

-- How a component of run ends: with what its Run returns (`none` is nil), or by a panic.
pub data ComponentEnd : Type 0 where
  returned : Option GoError → ComponentEnd
  panicked : ComponentEnd

-- How run ends: with what it returns, or by the panic of a component, which ends the program.
pub data RunEnd : Type 0 where
  run_returned : Option RunError → RunEnd
  run_panicked : RunEnd

-- g.Wait: the first error, in the order in which the components end; `none` is nil.
unfoldable pub first_error : List ComponentEnd → Option GoError
first_error [] = none
first_error (returned none ∷ ends) = first_error ends
first_error (returned (some e) ∷ ends) = some e
first_error (panicked ∷ ends) = first_error ends

-- g.Wait waits for every component, so that a panic of any of them comes first.
unfoldable pub has_panic : List ComponentEnd → Bool
has_panic [] = false
has_panic (returned o ∷ ends) = has_panic ends
has_panic (panicked ∷ ends) = true

is_canceled_error : GoError → Bool
is_canceled_error canceled = true
is_canceled_error e = false

-- errors.Is(err, context.Canceled)
unfoldable pub is_canceled : GoError → Bool
unfolding is_canceled_error errors_is
is_canceled e = errors_is is_canceled_error e

after_wait : Option GoError → Option RunError
after_wait none = none
after_wait (some e) = if is_canceled e then none else some (failed e)

after_start_up : List ComponentEnd → Result RunError Wiring → RunEnd
unfolding after_wait
after_start_up ends (err e) = run_returned (some e)
after_start_up ends (ok w) =
    if has_panic ends then run_panicked else run_returned (after_wait (first_error ends))

unfoldable pub run : Startup → List ComponentEnd → RunEnd
unfolding after_start_up
run s ends = after_start_up ends (start_up s)

-- The exit code of main; the Go runtime exits with 2 after a panic.
unfoldable pub exit_code : RunEnd → ℕ
exit_code (run_returned none) = 0
exit_code (run_returned (some (failed e))) = if is_canceled e then 0 else 1
exit_code (run_returned (some e)) = 1
exit_code run_panicked = 2

-- ACKTimeout / 3
abbrev third_of : ℤ → ℤ
third_of (pos n) = pos (n / 3)
third_of n = n

-- The durations for which a component of run makes a ticker when it starts, and the publisher on a
-- connection; time.NewTicker panics where one is not positive.
ack_tickers : Bool → ℤ → List ℤ
ack_tickers false timeout = []
ack_tickers true timeout = third_of timeout ∷ []

publisher_tickers : PublisherConfig → List ℤ
unfolding ack_tickers
publisher_tickers p =
    let settings = with_defaults p.settings in
    settings.ping_interval
    ∷ milliseconds p.poll_interval_ms
    ∷ ack_tickers p.require_ack settings.ack_timeout

audit_tickers : Option AuditSetup → List ℤ
audit_tickers none = []
audit_tickers (some a) = seconds a.interval_seconds ∷ pos 30000000000 ∷ []

-- runBufferMonitor takes 15 seconds in place of an interval that is not positive.
monitor_ticker : ℤ → ℤ
monitor_ticker n = seconds (if leb_ℤ n (pos 0) then pos 15 else n)

-- The tickers that are made whether there is a connection or not.
background_tickers : ℤ → ℤ → Option AuditSetup → List ℤ
unfolding audit_tickers monitor_ticker
background_tickers supervisor_poll_ms monitor_interval_s audit =
    milliseconds supervisor_poll_ms ∷ monitor_ticker monitor_interval_s ∷ audit_tickers audit

unfoldable pub tickers : Wiring → List ℤ
unfolding publisher_tickers background_tickers
tickers w =
    publisher_tickers w.publisher
    ++ background_tickers w.supervisor_poll_ms w.monitor_interval_s w.audit

unfoldable pub any_panics : List ℤ → Bool
any_panics [] = false
any_panics (d ∷ ds) = leb_ℤ d (pos 0) || any_panics ds
