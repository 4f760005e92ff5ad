-- ===== src/Tests/Audit.antt =====
-- The audit at concrete inputs.
use listener_go.Prelude.{
  ℕ, ◌+◌, ◌-◌, ◌≤◌, ◌<◌, pos, negsuc, leb_ℤ, true, to_int64, codes, ◌≡◌, ◌↔◌, ◌⊎◌, refl, false,
  none, err, List, some, [], ◌∷◌, ok, arith,
}
use listener_go.Samples.{codec, db, event}
use listener_go.Database.Tables.{of_chain, of_range}
use listener_go.Database.Buffer.Reads.{keys}
use listener_go.Model.{Deposit}
use listener_go.Database.Buffer.{query_failed}
use listener_go.Audit.Runs.{AuditEvent, cycle, age_tick, Auditing, run_auditor}
use listener_go.Audit.Runs.Returns.{run_auditor-panics}
use listener_go.Startup.{seconds}
use listener_go.Audit.{
  AuditConfig, ChainAudit, Report, Rescan, owned_by, audit_block, audit_scanner,
}
use listener_go.Audit.Alarms.{unexplained, audit_block-unexplained, owned_by-negsuc}
use listener_go.Audit.Window.{Samples, audit_scanner-Samples}
use listener_go.Tests.{cursor_before, db_IsValid}

abbrev config : AuditConfig
config = record {
  window_blocks = 2;
  safety_margin = 1;
  samples_per_cycle = 4;
  block_rescan_confs = pos 1000;
}

abbrev report : Report
report = record {
  db_errors = 0;
  builder_errors = 0;
  rescan_errors = 0;
  checked = [];
  alarms = [];
  cycles = 0;
}

-- The second scan of block 4 finds another transfer than the one in the buffer.
abbrev rescan : Rescan
rescan = record {
  name = codes "log";
  scan = λ b c. ok (record event { log_index = pos 4 } ∷ []);
  cursor_fails = false;
  range_fails = λ b. false;
  int63n = λ i n. 0;
  ctx_done = λ i. false;
}

audit_block-unexplained_example :
    audit_block codec config (pos 1) rescan 4 db report ≡ record report {
      checked = (pos 1, 4) ∷ [];
      alarms =
          unexplained
            (codes "log")
            (record event { log_index = pos 4 } ∷ [])
            (keys (of_range (to_int64 4) (to_int64 4) (of_chain (pos 1) db.rows)));
    }
audit_block-unexplained_example =
    audit_block-unexplained codec config (pos 1) rescan 4 (record event { log_index = pos 4 } ∷ [])
      db report db_IsValid refl refl

audit_scanner-Samples_example :
    ((5 < 2 + 1) × (audit_scanner codec config (pos 1) rescan db report ≡ some report))
    ⊎ Samples codec config
        (pos 1)
        rescan
        (5 - (2 + 1))
        (5 - 1)
        4
        []
        report
        (audit_scanner codec config (pos 1) rescan db report)
audit_scanner-Samples_example =
    audit_scanner-Samples codec config (pos 1) rescan (λ i n h. h) 5 db report cursor_before
      (omega arith) (omega arith)

abbrev edge : ℕ
edge = 9999

owned_by-negsuc_example :
    (((owned_by (codes "log") (negsuc edge) ≡ false)
        × (owned_by (codes "trace") (negsuc edge) ≡ false))
      ↔ ((9999 ≤ edge) × (edge ≤ 99998)))
    × ((owned_by (codes "log") (negsuc edge) ≡ false)
        ⊎ (owned_by (codes "trace") (negsuc edge) ≡ false))
owned_by-negsuc_example = owned_by-negsuc edge

-- A cycle over one chain, a tick of the age, and a cycle without the list of chains.
abbrev audited : ChainAudit
audited = record {
  chain_id = pos 1;
  config_fails = false;
  builder_fails = false;
  log_scan = rescan;
  trace_scan = record rescan { name = codes "trace" };
}

abbrev job : List (AuditEvent Deposit)
job =
    cycle 7 (λ i. false) (ok (audited ∷ [])) db
    ∷ age_tick 9
    ∷ cycle 12 (λ i. false) (err query_failed) db
    ∷ []

abbrev idle_job : Auditing
idle_job = record { report = report; last_cycle_at = none; age = none }

run_auditor-panics_example :
    (run_auditor codec config (pos 300) job idle_job ≡ none)
    ↔ (leb_ℤ (seconds (pos 300)) (pos 0) ≡ true)
run_auditor-panics_example =
    run_auditor-panics codec config (omega arith) (pos 300) job idle_job
      ((((λ i n h. h), (λ i n h. h)), tt), (tt, (tt, tt)))
