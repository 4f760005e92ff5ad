-- ===== src/Scanner/Loop/Advance.antt =====
-- What a stretch of scanned blocks has done to the tables.
use native.Mathlib.Decide.{dec_lt}
use native.Mathlib.Nat.{le_trans}
use mathlib.Core.Path.{subst}
use listener_go.Prelude.{
  ℕ, zero, suc, ◌+◌, ◌-◌, ◌%◌, ◌≤◌, ◌<◌, ℤ, eq_ℤ_iff, eq_text_iff, u64, Text, ◌≡◌, ◌≢◌, refl, ap,
  ◌∙◌, ◌⊎◌, inl, inr, true, false, ◌&&◌, ltb, leb, List, Result, ok, err, if-cases, arith,
}
use listener_go.Retry.{GoError}
use listener_go.Model.{DepositEvent, TimeFormats}
use listener_go.Database.Tables.{Key, Db, select_cursor, has_key}
use listener_go.Database.Buffer.{Codec, DbError, cursor, save_and_advance}
use listener_go.Database.Buffer.Transaction.{any_key}
use listener_go.Database.Buffer.Atomic.{
  IsUnchanged, IsRecorded, save_and_advance-atomic, cursor-IsRecorded, cursor-IsUnchanged,
}
use listener_go.Scanner.Loop.{
  LoopConfig, LoopId, Poll, PollError, out_of_fuel, convert_events, confirmations_at, process_block,
  scan_blocks, wrap_save, process_events, after_block,
}

module _ {Raw Time : Type 0} (codec : Codec Raw) (fmt : TimeFormats Time) (cfg : LoopConfig)
    (l : LoopId) (p : Poll Time) (latest : ℕ) where
  -- The block was scanned, and every deposit that its events convert to is in the buffer.
  abbrev pub Covered : ℕ → Db Raw → Type 0
  Covered b db =
      (events : List DepositEvent) × (p.scan b (confirmations_at latest b) ≡ ok events)
      × ((k : Key)
          → any_key k (convert_events fmt (p.now b) cfg.min_confirmations events) ≡ true
          → has_key k db.rows ≡ true)

  -- From the tables `db` with the cursor at `c` to `db'` with the cursor at `c'`.
  pub record Advanced (c c' : ℕ) (db db' : Db Raw) : Type 0 where
    pub forward : c ≤ c'
    pub reads : cursor false l.chain_id l.name db' ≡ ok c'
    pub keeps : (k : Key) → has_key k db.rows ≡ true → has_key k db'.rows ≡ true
    pub covered : (b : ℕ) → c < b → b ≤ c' → Covered b db'
    pub others :
        (chain_id : ℤ) (name : Text)
        → (chain_id ≡ l.chain_id → name ≡ l.name → ⊥)
        → select_cursor chain_id name db'.cursors ≡ select_cursor chain_id name db.cursors

  pub Advanced-refl :
      (c : ℕ) (db : Db Raw) → cursor false l.chain_id l.name db ≡ ok c → Advanced c c db db
  Advanced-refl c db h = record {
    forward = omega arith;
    reads = h;
    keeps = λ k e. e;
    covered = λ b lo hi. absurd (omega arith);
    others = λ chain_id name ne. refl;
  }

  Advanced-trans :
      {a b c : ℕ} {x y z : Db Raw} → Advanced a b x y → Advanced b c y z → Advanced a c x z
  Advanced-trans {b = b} r s = record {
    forward = le_trans r.forward s.forward;
    reads = s.reads;
    keeps = λ k e. s.keeps k (r.keeps k e);
    covered = λ n lo hi. elim (dec_lt b n) [
      | yes later ↦ s.covered n later hi
      | no early ↦
          let (events, scanned, stored) = r.covered n lo (omega arith) in
          (events, scanned, λ k e. s.keeps k (stored k e))
    ];
    others = λ chain_id name ne. s.others chain_id name ne ∙ r.others chain_id name ne;
  }

  -- One block: the cursor moves to it or stays, and moves at a success.
  abbrev pub StepsTo : ℕ → Db Raw → Result PollError (Unit {0}) × Db Raw → Type 0
  StepsTo c db x =
      (c' : ℕ) × Advanced c c' db x.1
      × (c' ≤ suc c)
      × (x.0 ≡ ok tt → c' ≡ suc c)
      × (x.0 ≢ err out_of_fuel)

  Advanced-IsUnchanged :
      (c : ℕ) (db db' : Db Raw)
      → cursor false l.chain_id l.name db ≡ ok c
      → IsUnchanged db db'
      → Advanced c c db db'
  Advanced-IsUnchanged c db db' h u = record {
    forward = omega arith;
    reads = cursor-IsUnchanged l.chain_id l.name db db' u ∙ h;
    keeps = λ k e. rw u.rows e;
    covered = λ b lo hi. absurd (omega arith);
    others = λ chain_id name ne. ap (select_cursor chain_id name) u.cursors;
  }

  Advanced-IsRecorded :
      (c : ℕ) (events : List DepositEvent) (db db' : Db Raw)
      → suc c < u64
      → p.scan (suc c) (confirmations_at latest (suc c)) ≡ ok events
      → IsRecorded l.chain_id l.name
          (suc c)
          (convert_events fmt (p.now (suc c)) cfg.min_confirmations events)
          db
          db'
      → Advanced c (suc c) db db'
  Advanced-IsRecorded c events db db' fits scanned r = record {
    forward = omega arith;
    reads = cursor-IsRecorded l.chain_id l.name (suc c) _ db db' fits r;
    keeps = λ k e. ground (arith, r.rows k);
    covered = λ b lo hi.
        let same : suc c ≡ b = omega arith in
        subst (λ n. Covered n db') same (events, scanned, λ k e. ground (arith, r.rows k));
    others = λ chain_id name ne.
        ground (
          arith,
          r.cursors chain_id name,
          eq_ℤ_iff l.chain_id chain_id,
          eq_text_iff l.name name,
          ne,
        );
  }

  wrap_save-StepsTo :
      (c : ℕ) (db : Db Raw) (x : Result DbError (Unit {0}) × Db Raw)
      → (Advanced c c db x.1 × (x.0 ≢ ok tt)) ⊎ Advanced c (suc c) db x.1
      → StepsTo c db (wrap_save (suc c) x)
  unfolding wrap_save
  wrap_save-StepsTo c db (ok _, db') (inl (a, failed)) = absurd (failed refl)
  wrap_save-StepsTo c db (err e, db') (inl (a, failed)) =
      (c, a, omega arith, λ is_ok. cc, λ is_fuel. cc)
  wrap_save-StepsTo c db (ok _, db') (inr a) = (suc c, a, omega arith, λ _. refl, λ is_fuel. cc)
  wrap_save-StepsTo c db (err e, db') (inr a) = (suc c, a, omega arith, λ is_ok. cc, λ is_fuel. cc)

  process_events-StepsTo :
      (c : ℕ) (db : Db Raw) (scanned : Result GoError (List DepositEvent))
      → suc c < u64
      → cursor false l.chain_id l.name db ≡ ok c
      → p.scan (suc c) (confirmations_at latest (suc c)) ≡ scanned
      → StepsTo c db (process_events codec fmt cfg l p (suc c) scanned db)
  unfolding process_events
  process_events-StepsTo c db (err e) fits h e' =
      (c, Advanced-refl c db h, omega arith, λ is_ok. cc, λ is_fuel. cc)
  process_events-StepsTo c db (ok events) fits h e' =
      let ds = convert_events fmt (p.now (suc c)) cfg.min_confirmations events in
      let o = p.outcomes (suc c) in
      let t = p.clock (suc c) in
      let x = save_and_advance codec t o l.chain_id l.name (suc c) ds db in
      wrap_save-StepsTo c db x
        (elim (save_and_advance-atomic codec t o l.chain_id l.name (suc c) ds db) [
          | inl (u, failed) ↦ inl (Advanced-IsUnchanged c db x.1 h u, failed)
          | inr (r, _) ↦ inr (Advanced-IsRecorded c events db x.1 fits e' r)
        ])

  pub process_block-StepsTo :
      (c : ℕ) (db : Db Raw)
      → suc c < u64
      → cursor false l.chain_id l.name db ≡ ok c
      → StepsTo c db (process_block codec fmt cfg l p latest (suc c) db)
  unfolding process_block
  process_block-StepsTo c db fits h =
      process_events-StepsTo c db (p.scan (suc c) (confirmations_at latest (suc c))) fits h refl

  -- A stretch of blocks: the cursor moves forward and not beyond `end_block`, reaches it at a
  -- success, and the fuel does not run out.
  abbrev pub RunsTo : ℕ → ℕ → Db Raw → Result PollError (Unit {0}) × Db Raw → Type 0
  RunsTo c end_block db x =
      (c' : ℕ) × Advanced c c' db x.1
      × (c' ≤ end_block)
      × (x.0 ≡ ok tt → c' ≡ end_block)
      × (x.0 ≢ err out_of_fuel)

  after_block-RunsTo :
      (c end_block : ℕ) (db : Db Raw) (next : ℕ → Db Raw → Result PollError (Unit {0}) × Db Raw)
      (x : Result PollError (Unit {0}) × Db Raw)
      → suc c ≤ end_block
      → suc end_block < u64
      → StepsTo c db x
      → ((db' : Db Raw)
          → cursor false l.chain_id l.name db' ≡ ok (suc c)
          → RunsTo (suc c) end_block db' (next (suc (suc c)) db'))
      → RunsTo c end_block db (after_block codec fmt cfg l p end_block (suc c) next x)
  unfolding after_block
  after_block-RunsTo c end_block db next (err e, db') le fits (c', a, le', _, nf) rest =
      (c', a, omega arith, λ is_ok. cc, nf)
  after_block-RunsTo c end_block db next (ok _, db') le fits (c', a, le', reach, nf) rest =
      let here : Advanced c (suc c) db db' = subst (λ n. Advanced c n db db') (reach refl) a in
      if-cases (RunsTo c end_block db) (ltb (suc c) end_block && p.stop (suc c))
        (λ ended. (suc c, here, le, λ is_ok. cc, λ is_fuel. cc))
        (λ waited.
          let (c'', a', le'', reach', nf') = rest db' here.reads in
          let step : suc (suc c) ≡ (suc c + 1) % u64 = omega arith in
          subst (λ n. RunsTo c end_block db (next n db')) step
            (c'', Advanced-trans here a', le'', reach', nf'))

  pub scan_blocks-RunsTo :
      (fuel c end_block : ℕ) (db : Db Raw)
      → c ≤ end_block
      → suc end_block < u64
      → end_block - c < fuel
      → cursor false l.chain_id l.name db ≡ ok c
      → RunsTo c end_block db (scan_blocks codec fmt cfg l p fuel latest end_block (suc c) db)
  unfolding scan_blocks
  scan_blocks-RunsTo zero c end_block db le fits enough h = absurd (omega arith)
  scan_blocks-RunsTo (suc fuel) c end_block db le fits enough h =
      if-cases (RunsTo c end_block db) (leb (suc c) end_block)
        (λ more.
          let more' : suc c ≤ end_block = ground arith in
          after_block-RunsTo c end_block db (scan_blocks codec fmt cfg l p fuel latest end_block)
            (process_block codec fmt cfg l p latest (suc c) db) more' fits
            (process_block-StepsTo c db (omega arith) h)
            (λ db' h'. scan_blocks-RunsTo fuel (suc c) end_block db' more' fits (omega arith) h'))
        (λ done.
          let same : c ≡ end_block = ground arith in
          (c, Advanced-refl c db h, le, λ _. same, λ is_fuel. cc))
