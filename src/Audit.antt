-- ===== src/Audit.antt =====
-- internal/audit/auditor.go: the job that scans sampled blocks a second time and compares their
-- events with the rows of the buffer.
pub mod Window
pub mod Alarms
pub mod Runs
use listener_go.Prelude.{
  ◌>>=◌, ℕ, zero, suc, ◌+◌, ◌-◌, ◌%◌, ℤ, pos, negsuc, leb_ℤ, ltb_ℤ, to_int64, u64, Text, codes,
  eq_text, ◌==◌, Bool, true, false, ltb, ◌||◌, Option, none, some, List, [], ◌∷◌, ◌++◌, map, Result,
  ok, err, if◌then◌else◌,
}
use listener_go.Prelude.Decimal.{show_ℤ}
use listener_go.Model.{DepositEvent, Deposit}
use listener_go.Retry.{GoError}
use listener_go.Database.Tables.{Key, Db}
use listener_go.Database.Buffer.{Codec, DbError, key_of, pending_in_range, cursor}

pub record AuditConfig : Type 0 where
  pub window_blocks : ℕ
  pub safety_margin : ℕ
  pub samples_per_cycle : ℕ
  pub block_rescan_confs : ℤ

-- The counters that the job moves: the three labels of AuditErrors, the blocks checked with their
-- chain, the rows reported as mismatches, and the cycles.
pub record Report : Type 0 where
  pub db_errors : ℕ
  pub builder_errors : ℕ
  pub rescan_errors : ℕ
  pub checked : List (ℤ × ℕ)
  pub alarms : List (Text × Key)
  pub cycles : ℕ

unfoldable pub owned_by : Text → ℤ → Bool
owned_by scanner_name log_index =
    if eq_text scanner_name (codes "log")
    then ltb_ℤ (negsuc 9999) log_index
    else if eq_text scanner_name (codes "trace")
    then leb_ℤ log_index (negsuc 99999)
    else true

-- fmt.Sprintf("%d:%s:%d", chainID, txHash, logIndex)
unfoldable pub deposit_key : Key → Text
deposit_key k = show_ℤ k.chain_id ++ (b':' ∷ (k.tx_hash ++ (b':' ∷ show_ℤ k.log_index)))

abbrev pub key_of_event : DepositEvent → Key
key_of_event e = record { chain_id = e.chain_id; tx_hash = e.tx_hash; log_index = e.log_index }

-- Membership in the set `rescanned`.
unfoldable pub contains : Text → List Text → Bool
contains t [] = false
contains t (u ∷ us) = eq_text u t || contains t us

-- The keys of the map `tried`.
unfoldable pub tried_before : ℕ → List ℕ → Bool
tried_before block [] = false
tried_before block (b ∷ bs) = (b == block) || tried_before block bs

-- The rows that are reported.
unfoldable pub missing_rows : Text → List Text → List Deposit → List (Text × Key)
missing_rows scanner_name rescanned [] = []
missing_rows scanner_name rescanned (d ∷ ds) =
    let rest = missing_rows scanner_name rescanned ds in
    if contains (deposit_key (key_of d)) rescanned
    then rest
    else if owned_by scanner_name d.log_index
    then (scanner_name, key_of d) ∷ rest
    else rest

-- What the job has of one chain: the two scanners with their names, the failures of its reads, the
-- numbers that rand.Int63n returns, and when the context is done.
pub record Rescan : Type 0 where
  pub name : Text
  pub scan : ℕ → ℤ → Result GoError (List DepositEvent)
  pub cursor_fails : Bool
  pub range_fails : ℕ → Bool
  pub int63n : ℕ → ℤ → ℕ
  pub ctx_done : ℕ → Bool

module _ {Raw : Type 0} (codec : Codec Raw) (cfg : AuditConfig) (chain_id : ℤ) where
  unfoldable pub compare_rows :
      Text → List DepositEvent → Result DbError (List Deposit) → Report → Report
  compare_rows name events (err x) r = record r { db_errors = suc r.db_errors }
  compare_rows name events (ok ds) r = record r {
    alarms = r.alarms ++ missing_rows name (map (λ e. deposit_key (key_of_event e)) events) ds;
  }

  unfoldable pub after_rescan :
      Rescan → ℕ → Result GoError (List DepositEvent) → Db Raw → Report → Report
  after_rescan sc block (err x) db r = record r { rescan_errors = suc r.rescan_errors }
  after_rescan sc block (ok events) db r =
      compare_rows sc.name events
        (pending_in_range codec (sc.range_fails block) chain_id block block db)
        (record r { checked = r.checked ++ (chain_id, block) ∷ [] })

  unfoldable pub audit_block : Rescan → ℕ → Db Raw → Report → Report
  audit_block sc block db r = after_rescan sc block (sc.scan block cfg.block_rescan_confs) db r

  -- The loop from sample `i` on. `none` is the panic of rand.Int63n at an argument that is not
  -- positive.
  unfoldable pub audit_samples :
      Rescan → (range_start range_end : ℕ) → (left i : ℕ) → List ℕ → Db Raw → Report → Option Report
  audit_samples sc range_start range_end zero i tried db r = some r
  audit_samples sc range_start range_end (suc left) i tried db r =
      let n = to_int64 ((range_end + u64 - range_start + 1) % u64) in
      let block = (range_start + sc.int63n i n) % u64 in
      let skipped = audit_samples sc range_start range_end left (suc i) tried db r in
      let audited =
        audit_samples sc range_start range_end left (suc i) (block ∷ tried) db
          (audit_block sc block db r) in
      if sc.ctx_done i
      then some r
      else if leb_ℤ n (pos 0)
      then none
      else if tried_before block tried
      then skipped
      else audited

  unfoldable pub after_audit_cursor : Rescan → Result DbError ℕ → Db Raw → Report → Option Report
  after_audit_cursor sc (err x) db r = some (record r { db_errors = suc r.db_errors })
  after_audit_cursor sc (ok c) db r =
      let required = (cfg.window_blocks + cfg.safety_margin) % u64 in
      if ltb c required
      then some r
      else audit_samples sc (c - required) ((c + u64 - cfg.safety_margin) % u64)
          cfg.samples_per_cycle 0 [] db r

  unfoldable pub audit_scanner : Rescan → Db Raw → Report → Option Report
  audit_scanner sc db r = after_audit_cursor sc (cursor sc.cursor_fails chain_id sc.name db) db r

-- One active chain in a cycle: what ChainConfig and the builder of its scanners return.
pub record ChainAudit : Type 0 where
  pub chain_id : ℤ
  pub config_fails : Bool
  pub builder_fails : Bool
  pub log_scan : Rescan
  pub trace_scan : Rescan

module _ {Raw : Type 0} (codec : Codec Raw) (cfg : AuditConfig) where
  -- The result says whether the chain could be audited.
  unfoldable pub audit_chain : ChainAudit → Db Raw → Report → Option (Bool × Report)
  audit_chain ch db r =
      if ch.config_fails
      then some (false, record r { db_errors = suc r.db_errors })
      else if ch.builder_fails
      then some (false, record r { builder_errors = suc r.builder_errors })
      else do
        r ← audit_scanner codec cfg ch.chain_id ch.log_scan db r
        r ← audit_scanner codec cfg ch.chain_id ch.trace_scan db r
        some (true, r)

  -- The loop over the chains; the result says whether it came to its end.
  unfoldable pub audit_chains :
      (ℕ → Bool) → ℕ → List ChainAudit → Db Raw → Report → Option (Bool × Report)
  audit_chains ctx_done i [] db r = some (true, r)
  audit_chains ctx_done i (ch ∷ chs) db r =
      if ctx_done i
      then some (false, r)
      else do x ← audit_chain ch db r; audit_chains ctx_done (suc i) chs db x.1

  unfoldable pub finish_cycle : Bool × Report → Report
  finish_cycle (true, r) = record r { cycles = suc r.cycles }
  finish_cycle (false, r) = r

  unfoldable pub run_cycle :
      (ℕ → Bool) → Result DbError (List ChainAudit) → Db Raw → Report → Option Report
  run_cycle ctx_done (err x) db r = some (record r { db_errors = suc r.db_errors })
  run_cycle ctx_done (ok chains) db r =
      audit_chains ctx_done 0 chains db r >>= (λ x. some (finish_cycle x))
