-- ===== src/Audit/Window.antt =====
-- Which blocks the audit of one scanner samples.
use listener_go.Prelude.{
  ℕ, zero, suc, ◌+◌, ◌-◌, ◌%◌, ◌≤◌, ◌<◌, ℤ, pos, leb_ℤ, to_int64, to_int64_small, u64, i64, ◌≡◌,
  refl, ap, ◌∙◌, sym, ◌⊎◌, inl, inr, false, ltb, Option, some, List, [], ◌∷◌, ◌++◌, length, map,
  All, Result, ok, err, if-cases, arith,
}
use mathlib.Core.List.{append_assoc, append-nil}
use listener_go.Model.{DepositEvent, Deposit}
use listener_go.Retry.{GoError}
use listener_go.Database.Tables.{Db}
use listener_go.Database.Buffer.{Codec, DbError, pending_in_range, cursor}
use listener_go.Audit.{
  AuditConfig, Report, Rescan, compare_rows, after_rescan, audit_block, tried_before, audit_samples,
  after_audit_cursor, audit_scanner,
}

-- No block is there twice.
abbrev pub Once : List ℕ → Type 0
Once [] = Unit
Once (b ∷ bs) = (tried_before b bs ≡ false) × Once bs

abbrev pub marks : ℤ → List ℕ → List (ℤ × ℕ)
marks chain_id = map (λ b. (chain_id, b))

abbrev Untried : List ℕ → ℕ → Type 0
Untried tried b = tried_before b tried ≡ false

Untried-head :
    (block : ℕ) (tried bs : List ℕ)
    → All (Untried (block ∷ tried)) bs
    → (tried_before block bs ≡ false) × All (Untried tried) bs
unfolding tried_before
Untried-head block tried [] h = (refl, tt)
Untried-head block tried (b ∷ bs) h =
    let (x, y) = Untried-head block tried bs h.1 in (ground arith, (ground arith, y))

module _ {Raw : Type 0} (codec : Codec Raw) (cfg : AuditConfig) (chain_id : ℤ) (sc : Rescan) where
  compare_rows-checked :
      (events : List DepositEvent) (x : Result DbError (List Deposit)) (r : Report)
      → (compare_rows codec cfg chain_id sc.name events x r).checked ≡ r.checked
  unfolding compare_rows
  compare_rows-checked events (ok ds) r = refl
  compare_rows-checked events (err e) r = refl

  after_rescan-checked :
      (block : ℕ) (x : Result GoError (List DepositEvent)) (db : Db Raw) (r : Report)
      → ((after_rescan codec cfg chain_id sc block x db r).checked ≡ r.checked)
        ⊎ ((after_rescan codec cfg chain_id sc block x db r).checked
            ≡ r.checked ++ (chain_id, block) ∷ [])
  unfolding after_rescan
  after_rescan-checked block (err e) db r = inl refl
  after_rescan-checked block (ok events) db r = inr (
      compare_rows-checked events
        (pending_in_range codec (sc.range_fails block) chain_id block block db)
        (record r { checked = r.checked ++ (chain_id, block) ∷ [] }))

  -- The run returns, and the blocks that it checks are between `low` and `high`, new, different
  -- and no more than `left`.
  abbrev pub Samples : ℕ → ℕ → ℕ → List ℕ → Report → Option Report → Type 0
  Samples low high left tried r x =
      (r' : Report) × (bs : List ℕ) × (x ≡ some r')
      × (r'.checked ≡ r.checked ++ marks chain_id bs)
      × All (λ b. (low ≤ b) × (b ≤ high)) bs
      × Once bs
      × All (Untried tried) bs
      × (length bs ≤ left)

  Samples-none :
      (low high left : ℕ) (tried : List ℕ) (r : Report) → Samples low high left tried r (some r)
  Samples-none low high left tried r =
      (r, [], refl, sym (append-nil r.checked), tt, tt, tt, omega arith)

  Samples-more :
      (low high left : ℕ) (tried : List ℕ) (r : Report) (x : Option Report)
      → Samples low high left tried r x
      → Samples low high (suc left) tried r x
  Samples-more low high left tried r x (r', bs, e, c, w, o, u, n) =
      (r', bs, e, c, w, o, u, omega arith)

  Samples-block :
      (low high left block : ℕ) (tried : List ℕ) (db : Db Raw) (r : Report) (x : Option Report)
      → low ≤ block
      → block ≤ high
      → tried_before block tried ≡ false
      → Samples low high left (block ∷ tried) (audit_block codec cfg chain_id sc block db r) x
      → Samples low high (suc left) tried r x
  unfolding audit_block
  Samples-block low high left block tried db r x lo hi new (r', bs, e, c, w, o, u, n) =
      let (fresh, rest) = Untried-head block tried bs u in
      elim (after_rescan-checked block (sc.scan block cfg.block_rescan_confs) db r) [
        | inl same ↦ (
          r',
          bs,
          e,
          c ∙ ap (λ (l : List (ℤ × ℕ)). l ++ marks chain_id bs) same,
          w,
          o,
          rest,
          omega arith,
        )
        | inr more ↦ (
          r',
          block ∷ bs,
          e,
          c
              ∙ ap (λ (l : List (ℤ × ℕ)). l ++ marks chain_id bs) more
              ∙ append_assoc r.checked ((chain_id, block) ∷ []) (marks chain_id bs),
          ((lo, hi), w),
          (fresh, o),
          (new, rest),
          omega arith,
        )
      ]

  module _ (random : (i n : ℕ) → 0 < n → sc.int63n i (pos n) < n) where
    audit_samples-Samples :
        (low high left i : ℕ) (tried : List ℕ) (db : Db Raw) (r : Report)
        → low ≤ high
        → high < u64
        → high - low + 1 < i64
        → Samples low high left tried r
            (audit_samples codec cfg chain_id sc low high left i tried db r)
    unfolding audit_samples
    audit_samples-Samples low high zero i tried db r le fits small = Samples-none low high 0 tried r
    audit_samples-Samples low high (suc left) i tried db r le fits small =
        let n = high - low + 1 in
        let count : to_int64 ((high + u64 - low + 1) % u64) ≡ pos n =
          ap to_int64 (omega arith) ∙ to_int64_small n small in
        let drawn = random i n (omega arith) in
        let block = (low + sc.int63n i (pos n)) % u64 in
        let r' = audit_block codec cfg chain_id sc block db r in
        let P = Samples low high (suc left) tried r in
        rw (count, audit_samples)
          (if-cases P (sc.ctx_done i) (λ over. Samples-none low high (suc left) tried r)
            (λ more.
              if-cases P (leb_ℤ (pos n) (pos 0)) (λ none. absurd (ground arith))
                (λ positive.
                  if-cases P (tried_before block tried)
                    (λ again.
                      Samples-more low high left tried r _
                        (audit_samples-Samples low high left (suc i) tried db r le fits small))
                    (λ new.
                      Samples-block low high left block tried db r _ (omega arith) (omega arith) new
                        (audit_samples-Samples low high left (suc i) (block ∷ tried) db r' le fits
                          small)))))

    -- The audit of one scanner whose cursor reads `c`, where the window fits into an int64: if the
    -- cursor is short of window and margin, nothing is checked; otherwise it ends without a panic,
    -- having checked at most `samples_per_cycle` different blocks, each at least `safety_margin`
    -- and at most window and margin behind the cursor.
    pub audit_scanner-Samples :
        (c : ℕ) (db : Db Raw) (r : Report)
        → cursor sc.cursor_fails chain_id sc.name db ≡ ok c
        → c < u64
        → cfg.window_blocks + cfg.safety_margin + 1 < i64
        → ((c < cfg.window_blocks + cfg.safety_margin)
            × (audit_scanner codec cfg chain_id sc db r ≡ some r))
          ⊎ Samples
              (c - (cfg.window_blocks + cfg.safety_margin))
              (c - cfg.safety_margin)
              cfg.samples_per_cycle
              []
              r
              (audit_scanner codec cfg chain_id sc db r)
    unfolding audit_scanner after_audit_cursor
    audit_scanner-Samples c db r reads fits small =
        let required = cfg.window_blocks + cfg.safety_margin in
        let low : required % u64 ≡ required = omega arith in
        let P = λ (x : Option Report).
          ((c < required) × (x ≡ some r))
          ⊎ Samples (c - required) (c - cfg.safety_margin) cfg.samples_per_cycle [] r x in
        rw (reads, after_audit_cursor, low)
          (if-cases P (ltb c required) (λ short. inl (ground arith, refl))
            (λ enough.
              let le : required ≤ c = ground arith in
              let high : (c + u64 - cfg.safety_margin) % u64 ≡ c - cfg.safety_margin =
                omega arith in
              inr (
                rw high (
                  audit_samples-Samples (c - required) (c - cfg.safety_margin) cfg.samples_per_cycle
                    0 [] db r (omega arith) (omega arith) (omega arith)))))
