-- ===== src/Tests/Startup.antt =====
-- The start of the program at concrete inputs.
use listener_go.Prelude.{
  pos, ◌≤◌, ◌≤ℤ◌, codes, eq_text, ◌≡◌, ◌↔◌, ◌⊎◌, refl, true, none, some, List, [], ◌∷◌, ok, err,
  arith,
}
use listener_go.Retry.{canceled, eof}
use listener_go.Decryption.{noop}
use listener_go.Settings.{
  Config, Field, ParseFailure, config_fields, field_by_name, to_config_error,
}
use listener_go.Settings.Tags.{IsKeyOf, to_config_error-IsKeyOf}
use listener_go.Startup.{
  ComponentEnd, returned, Startup, Wiring, RunError, wire, tickers, any_panics, start_up, run,
  exit_code,
}
use listener_go.Startup.Tickers.{tickers-any_panics}
use listener_go.Startup.Exit.{IsFatal, FirstIsFatal, Panics, exit_code-run}

abbrev config : Config
config = record {
  database_url = codes "postgres://db";
  ws_target = codes "ws://adapter";
  rpc_max_retries = pos 5;
  rpc_retry_base_delay_ms = pos 1000;
  max_blocks_per_poll = pos 50;
  block_delay_ms = pos 100;
  reconnect_interval_ms = pos 3000;
  drain_timeout_ms = pos 5000;
  manager_poll_interval_ms = pos 300000;
  http_addr = codes ":8080";
  buffer_stats_interval_s = pos 15;
  publisher_require_ack = true;
  publisher_ack_timeout_ms = pos 30000;
  publisher_max_in_flight = pos 100;
  audit_enabled = true;
  audit_interval_s = pos 0;
  audit_window_blocks = pos 1000;
  audit_safety_margin = pos 50;
  audit_samples_per_cycle = pos 5;
  eerc_auditor_private_key = [];
  log_level = codes "warn";
}

-- With AUDIT_INTERVAL_S = 0.
tickers-any_panics_example :
    (any_panics (tickers (wire config none noop)) ≡ true)
    ↔ ((pos 300000 ≤ℤ pos 0) ⊎ ((config.audit_enabled ≡ true) × (pos 0 ≤ℤ pos 0)))
tickers-any_panics_example =
    tickers-any_panics config none noop (omega arith) (omega arith) (omega arith)

abbrev startup : Startup
startup = record { env = ok config; pool = none; kcp = ok none; trim = λ t. t }

-- One component ends without an error, the next with one that is not the end of the context.
abbrev ends : List ComponentEnd
ends = returned none ∷ returned (some eof) ∷ returned (some canceled) ∷ []

exit_code-run_example :
    ((exit_code (run startup ends) ≡ 1) ↔ (
      ((e : RunError) × (start_up startup ≡ err e) × IsFatal e)
      ⊎ ((w : Wiring) × (start_up startup ≡ ok w) × FirstIsFatal ends)))
    × ((exit_code (run startup ends) ≡ 2)
        ↔ ((w : Wiring) × (start_up startup ≡ ok w) × Panics ends))
    × (exit_code (run startup ends) ≤ 2)
exit_code-run_example = exit_code-run startup ends

abbrev failure : ParseFailure
failure = record {
  not_set = none;
  parse_error = some (codes "WSTarget", codes "invalid");
  text = codes "env: parse error";
}

abbrev ws_field : Field
ws_field = record { name = codes "WSTarget"; tag = codes "WS_TARGET,required"; standard = none }

ws_found : field_by_name (codes "WSTarget") config_fields ≡ some ws_field
unfolding field_by_name config_fields eq_text
ws_found = refl

to_config_error-IsKeyOf_example :
    IsKeyOf (to_config_error failure).key (codes "WS_TARGET,required")
    × ((to_config_error failure).msg ≡ codes "invalid")
to_config_error-IsKeyOf_example =
    to_config_error-IsKeyOf failure ws_field (codes "WSTarget") (codes "invalid") refl refl ws_found
