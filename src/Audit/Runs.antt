-- ===== src/Audit/Runs.antt =====
-- internal/audit/auditor.go: New and Run, with the age of the last cycle.
pub mod Returns
use listener_go.Prelude.{
  ◌>>=◌, ℕ, ◌-◌, ℤ, pos, leb_ℤ, ltb_ℤ, ◌==◌, eq_ℤ, Bool, true, false, Option, none, some, List, [],
  ◌∷◌, Result, ok, err, if◌then◌else◌,
}
use listener_go.Database.Tables.{Db}
use listener_go.Database.Buffer.{Codec, DbError}
use listener_go.Startup.{seconds}
use listener_go.Audit.{AuditConfig, Report, ChainAudit, audit_chains, finish_cycle, run_cycle}

-- The two fields that `New` corrects; the delay in nanoseconds.
pub record AuditDefaults : Type 0 where
  pub block_rescan_confs : ℤ
  pub first_cycle_delay : ℤ

unfoldable pub new_auditor : AuditDefaults → AuditDefaults
new_auditor cfg = record {
  block_rescan_confs =
      if leb_ℤ cfg.block_rescan_confs (pos 0) then pos 1000 else cfg.block_rescan_confs;
  first_cycle_delay = if ltb_ℤ cfg.first_cycle_delay (pos 0) then pos 0 else cfg.first_cycle_delay;
}

-- `firstDelay` of Run
unfoldable pub first_delay : AuditDefaults → ℤ
first_delay cfg =
    if eq_ℤ cfg.first_cycle_delay (pos 0) then pos 30000000000 else cfg.first_cycle_delay

-- A cycle, of the first timer or the ticker, with what it meets and the time at its end; or the ticker
-- of the age.
pub data AuditEvent (Raw : Type 0) : Type 0 where
  cycle :
      (now : ℕ) (ctx_done : ℕ → Bool) (chains : Result DbError (List ChainAudit)) (db : Db Raw)
      → AuditEvent Raw
  age_tick : ℕ → AuditEvent Raw

-- `last_cycle_at` is `none` for the zero time; `age` is the gauge AuditLastCycleAgeSeconds.
pub record Auditing : Type 0 where
  pub report : Report
  pub last_cycle_at : Option ℕ
  pub age : Option ℕ

unfoldable pub update_age : ℕ → Option ℕ → Auditing → Auditing
update_age now none a = a
update_age now (some t) a = record a { age = some (now - t) }

module _ {Raw : Type 0} (codec : Codec Raw) (cfg : AuditConfig) where
  unfoldable pub note_cycle : ℕ → Auditing → Bool × Report → Auditing
  note_cycle now a (false, r) = record a { report = finish_cycle codec cfg (false, r) }
  note_cycle now a (true, r) = record {
    report = finish_cycle codec cfg (true, r);
    last_cycle_at = some now;
    age = some 0;
  }

  unfoldable pub audit_step : AuditEvent Raw → Auditing → Option Auditing
  audit_step (cycle now ctx_done (err x) db) a =
      run_cycle codec cfg ctx_done (err x) db a.report >>= (λ r. some (record a { report = r }))
  audit_step (cycle now ctx_done (ok chains) db) a =
      audit_chains codec cfg ctx_done 0 chains db a.report >>= (λ x. some (note_cycle now a x))
  audit_step (age_tick now) a = some (update_age now a.last_cycle_at a)

  -- The loop over the cases of the select; `none` is a panic, which ends the program.
  unfoldable pub audit_events : List (AuditEvent Raw) → Auditing → Option Auditing
  audit_events [] a = some a
  audit_events (e ∷ es) a = audit_step e a >>= audit_events es

  -- `Run`: time.NewTicker panics on an interval that is not positive, before the first case.
  unfoldable pub run_auditor :
      (interval_seconds : ℤ) → List (AuditEvent Raw) → Auditing → Option Auditing
  run_auditor interval_seconds es a =
      if leb_ℤ (seconds interval_seconds) (pos 0) then none else audit_events es a
