-- ===== src/Audit/Runs/Returns.antt =====
-- Over a cycle and over Run: whether the audit panics.
use mathlib.Core.Path.{subst}
use listener_go.Prelude.{
  ◌>>=◌, ℕ, suc, ◌+◌, ◌<◌, ℤ, pos, negsuc, to_uint64, i64, u64, ◌≡◌, refl, inl, inr, Bool, true,
  false, Option, none, some, Option-cases, List, [], ◌∷◌, All, Result, ok, err, Result-cases,
  if-cases, arith, Text, leb_ℤ, ◌↔◌, Bool-cases,
}
use listener_go.Database.Tables.{Db, select_cursor}
use listener_go.Database.Buffer.{Codec, DbError, cursor}
use listener_go.Audit.{
  AuditConfig, Report, Rescan, ChainAudit, after_audit_cursor, audit_scanner, audit_chain,
  audit_chains, run_cycle,
}
use listener_go.Audit.Window.{audit_scanner-Samples}
use listener_go.Startup.{seconds}
use listener_go.Audit.Runs.{
  AuditEvent, cycle, age_tick, Auditing, audit_step, audit_events, run_auditor,
}

abbrev pub IsSome : {A : Type 0} → Option A → Type 0
IsSome {A} o = (a : A) × (o ≡ some a)

bind-IsSome :
    {A B : Type 0} (o : Option A) (f : A → Option B)
    → IsSome o
    → ((a : A) → IsSome (f a))
    → IsSome (o >>= f)
bind-IsSome none f (a, e) h = absurd (cc e)
bind-IsSome (some b) f (a, e) h = h b

to_uint64-lt : (n : ℤ) → to_uint64 n < u64
unfolding to_uint64
to_uint64-lt (pos n) = omega arith
to_uint64-lt (negsuc n) = omega arith

cursor-lt :
    {Raw : Type 0} (fails : Bool) (chain_id : ℤ) (name : Text) (db : Db Raw) (c : ℕ)
    → cursor fails chain_id name db ≡ ok c
    → c < u64
unfolding cursor
cursor-lt true chain_id name db c h = absurd (cc h)
cursor-lt false chain_id name db c h =
    elim (Option-cases (select_cursor chain_id name db.cursors)) [
      | inl e ↦
          let h' : ◌≡◌ {A = Result DbError ℕ} (ok 0) (ok c) = rw e at h in
          let same : 0 ≡ c = cc h' in omega arith
      | inr (last, e) ↦
          let h' : ◌≡◌ {A = Result DbError ℕ} (ok (to_uint64 last)) (ok c) = rw e at h in
          let same : to_uint64 last ≡ c = cc h' in subst (λ n. n < u64) same (to_uint64-lt last)
    ]

-- rand.Int63n stays below its argument.
abbrev pub IsRandom : Rescan → Type 0
IsRandom sc = (i n : ℕ) → 0 < n → sc.int63n i (pos n) < n

module _ {Raw : Type 0} (codec : Codec Raw) (cfg : AuditConfig)
    (small : cfg.window_blocks + cfg.safety_margin + 1 < i64) where
  audit_scanner-IsSome :
      (chain_id : ℤ) (sc : Rescan) (db : Db Raw) (r : Report)
      → IsRandom sc
      → IsSome (audit_scanner codec cfg chain_id sc db r)
  unfolding audit_scanner after_audit_cursor
  audit_scanner-IsSome chain_id sc db r random =
      elim (Result-cases (cursor sc.cursor_fails chain_id sc.name db)) [
        | inr (x, e) ↦ (record r { db_errors = suc r.db_errors }, rw (e, after_audit_cursor) refl)
        | inl (c, e) ↦
            let fits = cursor-lt sc.cursor_fails chain_id sc.name db c e in
            elim (audit_scanner-Samples codec cfg chain_id sc random c db r e fits small) [
              | inl (short, same) ↦ (r, same)
              | inr sampled ↦ (sampled.0, sampled.2)
            ]
      ]

  -- What the job is handed for a chain: its scanners draw random numbers in range.
  abbrev pub IsFair : ChainAudit → Type 0
  IsFair ch = IsRandom ch.log_scan × IsRandom ch.trace_scan

  audit_chain-IsSome :
      (ch : ChainAudit) (db : Db Raw) (r : Report)
      → IsFair ch
      → IsSome (audit_chain codec cfg ch db r)
  unfolding audit_chain
  audit_chain-IsSome ch db r (log_fair, trace_fair) =
      if-cases IsSome ch.config_fails (λ no_config. (_, refl))
        (λ config.
          if-cases IsSome ch.builder_fails (λ no_builder. (_, refl))
            (λ built.
              bind-IsSome _ _ (audit_scanner-IsSome ch.chain_id ch.log_scan db r log_fair) (λ r'.
                bind-IsSome _ _ (audit_scanner-IsSome ch.chain_id ch.trace_scan db r' trace_fair)
                  (λ r''. (_, refl)))))

  audit_chains-IsSome :
      (ctx_done : ℕ → Bool) (i : ℕ) (chs : List ChainAudit) (db : Db Raw) (r : Report)
      → All IsFair chs
      → IsSome (audit_chains codec cfg ctx_done i chs db r)
  unfolding audit_chains
  audit_chains-IsSome ctx_done i [] db r fair = (_, refl)
  audit_chains-IsSome ctx_done i (ch ∷ chs) db r fair =
      if-cases IsSome (ctx_done i) (λ over. (_, refl))
        (λ more.
          bind-IsSome _ _ (audit_chain-IsSome ch db r fair.0)
            (λ x. audit_chains-IsSome ctx_done (suc i) chs db x.1 fair.1))

  abbrev pub IsFairEvent : AuditEvent Raw → Type 0
  IsFairEvent (cycle now ctx_done (ok chains) db) = All IsFair chains
  IsFairEvent (cycle now ctx_done (err x) db) = Unit
  IsFairEvent (age_tick now) = Unit

  audit_step-IsSome :
      (e : AuditEvent Raw) (a : Auditing) → IsFairEvent e → IsSome (audit_step codec cfg e a)
  unfolding audit_step run_cycle
  audit_step-IsSome (cycle now ctx_done (err x) db) a fair = (_, refl)
  audit_step-IsSome (cycle now ctx_done (ok chains) db) a fair =
      bind-IsSome _ _ (audit_chains-IsSome ctx_done 0 chains db a.report fair) (λ x. (_, refl))
  audit_step-IsSome (age_tick now) a fair = (_, refl)

  audit_events-IsSome :
      (es : List (AuditEvent Raw)) (a : Auditing)
      → All IsFairEvent es
      → IsSome (audit_events codec cfg es a)
  unfolding audit_events
  audit_events-IsSome [] a fair = (a, refl)
  audit_events-IsSome (e ∷ es) a fair =
      bind-IsSome _ _ (audit_step-IsSome e a fair.0) (λ a'. audit_events-IsSome es a' fair.1)

  -- The audit job panics exactly if its interval is not a positive duration, for every sequence of
  -- cycles and ticks, whatever the database and the nodes answer, where window and margin fit into an
  -- int64 and rand.Int63n stays in range.
  pub run_auditor-panics :
      (interval_seconds : ℤ) (es : List (AuditEvent Raw)) (a : Auditing)
      → All IsFairEvent es
      → (run_auditor codec cfg interval_seconds es a ≡ none)
        ↔ (leb_ℤ (seconds interval_seconds) (pos 0) ≡ true)
  unfolding run_auditor
  run_auditor-panics interval_seconds es a fair =
      let (a', same) = audit_events-IsSome es a fair in
      elim (Bool-cases (leb_ℤ (seconds interval_seconds) (pos 0))) [
        | inl stopped ↦ (λ h. stopped, λ h. rw h refl)
        | inr runs ↦ (λ h. let h' = rw (runs, same) at h in absurd (cc h'), λ h. absurd (cc))
      ]
