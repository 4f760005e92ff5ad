-- ===== src/Scanner/Loop/Machine/Tracked.antt =====
-- What one turn of a polling loop does to its own cursor.
use mathlib.Core.Path.{subst}
use listener_go.Prelude.{
  Bool, ℕ, suc, ◌+◌, ◌-◌, ◌%◌, ◌≤◌, ◌<◌, u64, ◌≡◌, ◌≢◌, refl, sym, ap, ◌∙◌, true, false, ◌&&◌, ◌==◌,
  ltb, leb, to_uint64, List, Result, ok, err, if-cases, arith,
}
use listener_go.Model.{DepositEvent, Deposit, TimeFormats}
use listener_go.Retry.{GoError, retry}
use listener_go.Database.Tables.{Key, Db, has_key}
use listener_go.Database.Buffer.{Codec, DbError, cursor}
use listener_go.Database.Buffer.Transaction.{any_key}
use listener_go.Scanner.Loop.{
  LoopConfig, LoopId, Poll, PollError, convert_events, confirmations_at, end_of_range,
  process_block,
}
use listener_go.Scanner.Loop.Advance.{Advanced, StepsTo, process_block-StepsTo}
use listener_go.Scanner.Loop.Machine.{
  Phase, idle, initializing, scanning, ended, plan_from, plan_cursor, plan, move_on, turn,
}

-- Where a loop can stand while its cursor reads `c` ≠ 0.
abbrev pub AtPhase : ℕ → Phase → Type 0
AtPhase c idle = Unit {0}
AtPhase c (initializing m) = ⊥
AtPhase c (scanning latest end_block block) = (block ≡ suc c) × (suc end_block < u64)
AtPhase c (ended r) = Unit {0}

module _ {Raw Time : Type 0} (codec : Codec Raw) (fmt : TimeFormats Time) (cfg : LoopConfig)
    (l : LoopId) (p : Poll Time) where
  -- The turn scanned this block and its events convert to these deposits.
  abbrev pub ScansAt : Phase → ℕ → List Deposit → Type 0
  ScansAt ph b ds =
      (latest : ℕ) × (end_block : ℕ) × (ph ≡ scanning latest end_block b)
      × (events : List DepositEvent) × (p.scan b (confirmations_at latest b) ≡ ok events)
      × (ds ≡ convert_events fmt (p.now b) cfg.min_confirmations events)

  -- A turn from a cursor at `c` moves it over blocks that it scanned and stored.
  pub record Turned (c : ℕ) (ph : Phase) (x : Phase × Db Raw) : Type 0 where
    pub at : ℕ
    pub forward : c ≤ at
    pub small : suc at < u64
    pub reads : cursor false l.chain_id l.name x.1 ≡ ok at
    pub phase : AtPhase at x.0
    pub found :
        (b : ℕ)
        → c < b
        → b ≤ at
        → (ds : List Deposit) × ScansAt ph b ds
          × ((k : Key) → any_key k ds ≡ true → has_key k x.1.rows ≡ true)

  stays :
      (c : ℕ) (ph ph' : Phase) (db : Db Raw)
      → suc c < u64
      → cursor false l.chain_id l.name db ≡ ok c
      → AtPhase c ph'
      → Turned c ph (ph', db)
  stays c ph ph' db small h at = record {
    at = c;
    forward = omega arith;
    small = small;
    reads = h;
    phase = at;
    found = λ b lo hi. absurd (omega arith);
  }

  end_of_range-le :
      (max_confirmed start_block : ℕ) → end_of_range cfg max_confirmed start_block ≤ max_confirmed
  unfolding end_of_range
  end_of_range-le max_confirmed start_block = ground arith

  plan_from-AtPhase :
      (latest max_confirmed c : ℕ)
      → c ≢ 0
      → suc c < u64
      → suc max_confirmed < u64
      → AtPhase c (plan_from codec fmt cfg l p latest max_confirmed c)
  unfolding plan_from
  plan_from-AtPhase latest max_confirmed c started small fits =
      let start_block = (c + 1) % u64 in
      if-cases (AtPhase c) (c == 0) (λ t. absurd (ground arith))
        (λ f.
          if-cases (AtPhase c) (ltb max_confirmed start_block) (λ t'. tt)
            (λ f'. (omega arith, omega (arith, end_of_range-le max_confirmed start_block))))

  plan_cursor-AtPhase :
      (latest max_confirmed c : ℕ) (r : Result DbError ℕ)
      → ((c' : ℕ) → r ≡ ok c' → c' ≡ c)
      → c ≢ 0
      → suc c < u64
      → suc max_confirmed < u64
      → AtPhase c (plan_cursor codec fmt cfg l p latest max_confirmed r)
  unfolding plan_cursor
  plan_cursor-AtPhase latest max_confirmed c (err e) same started small fits = tt
  plan_cursor-AtPhase latest max_confirmed c (ok c') same started small fits =
      subst (λ n. AtPhase c (plan_from codec fmt cfg l p latest max_confirmed n))
        (sym (same c' refl)) (plan_from-AtPhase latest max_confirmed c started small fits)

  cursor-same :
      (c : ℕ) (db : Db Raw)
      → cursor false l.chain_id l.name db ≡ ok c
      → (fails : Bool) (c' : ℕ) → cursor fails l.chain_id l.name db ≡ ok c'
      → c' ≡ c
  unfolding cursor
  cursor-same c db h true c' h' = cc
  cursor-same c db h false c' h' = cc

  plan-AtPhase :
      (c : ℕ) (r : Result GoError ℕ) (db : Db Raw)
      → cursor false l.chain_id l.name db ≡ ok c
      → c ≢ 0
      → suc c < u64
      → ((latest : ℕ) → r ≡ ok latest → suc latest < u64)
      → AtPhase c (plan codec fmt cfg l p r db)
  unfolding plan
  plan-AtPhase c (err e) db h started small fits = tt
  plan-AtPhase c (ok latest) db h started small fits =
      let min_confirmations = to_uint64 cfg.min_confirmations in
      let fits' : suc latest < u64 = fits latest refl in
      if-cases (AtPhase c) (leb min_confirmations latest)
        (λ t.
          plan_cursor-AtPhase latest (latest - min_confirmations) c
            (cursor p.cursor_fails l.chain_id l.name db) (cursor-same c db h p.cursor_fails) started
            small (omega arith))
        (λ f. tt)

  scanned-found :
      (c latest end_block c' b : ℕ) (db db' : Db Raw)
      → Advanced codec fmt cfg l p latest c c' db db'
      → c' ≤ suc c
      → c < b
      → b ≤ c'
      → (ds : List Deposit) × ScansAt (scanning latest end_block (suc c)) b ds
        × ((k : Key) → any_key k ds ≡ true → has_key k db'.rows ≡ true)
  scanned-found c latest end_block c' b db db' a le lo hi =
      let (events, scanned, stored) = a.covered b lo hi in
      let same : suc c ≡ b = omega arith in
      (
        convert_events fmt (p.now b) cfg.min_confirmations events,
        (latest, end_block, ap (scanning latest end_block) same, events, scanned, refl),
        stored,
      )

  move_on-Turned :
      (c latest end_block : ℕ) (db : Db Raw) (x : Result PollError (Unit {0}) × Db Raw)
      → suc c ≤ end_block
      → suc end_block < u64
      → StepsTo codec fmt cfg l p latest c db x
      → Turned c
          (scanning latest end_block (suc c))
          (move_on codec fmt cfg l p latest end_block (suc c) x)
  unfolding move_on
  move_on-Turned c latest end_block db (err e, db') le fits (c', a, le', reach, _) = record {
    at = c';
    forward = a.forward;
    small = omega arith;
    reads = a.reads;
    phase = tt;
    found = λ b lo hi. scanned-found c latest end_block c' b db db' a le' lo hi;
  }
  move_on-Turned c latest end_block db (ok _, db') le fits (c', a, le', reach, _) =
      let done : c' ≡ suc c = reach refl in
      let reads : cursor false l.chain_id l.name db' ≡ ok (suc c) = a.reads ∙ ap ok done in
      let found : (b : ℕ)
          → c < b
          → b ≤ suc c
          → (ds : List Deposit) × ScansAt (scanning latest end_block (suc c)) b ds
            × ((k : Key) → any_key k ds ≡ true → has_key k db'.rows ≡ true) =
        λ b lo hi. scanned-found c latest end_block c' b db db' a le' lo (omega arith) in
      if-cases (Turned c (scanning latest end_block (suc c)))
        (ltb (suc c) end_block && p.stop (suc c))
        (λ t. record {
          at = suc c;
          forward = omega arith;
          small = omega arith;
          reads = reads;
          phase = tt;
          found = found;
        })
        (λ f. record {
          at = suc c;
          forward = omega arith;
          small = omega arith;
          reads = reads;
          phase = (omega arith, fits);
          found = found;
        })

  -- From a cursor `c` ≠ 0, with the head that the node reports in the range of uint64: after a turn
  -- the cursor reads, has not moved back, and has passed only blocks that this turn scanned and
  -- whose deposits are in the buffer; the loop stands at the block after the cursor, if it scans.
  pub turn-Turned :
      (c : ℕ) (ph : Phase) (db : Db Raw)
      → cursor false l.chain_id l.name db ≡ ok c
      → c ≢ 0
      → suc c < u64
      → ((latest : ℕ)
          → (retry cfg.retry_options p.ctx_err p.cut p.block_number 0).result ≡ ok latest
          → suc latest < u64)
      → AtPhase c ph
      → Turned c ph (turn codec fmt cfg l p ph db)
  unfolding turn
  turn-Turned c idle db h started small heads at =
      let r = (retry cfg.retry_options p.ctx_err p.cut p.block_number 0).result in
      stays c idle (plan codec fmt cfg l p r db) db small h
        (plan-AtPhase c r db h started small heads)
  turn-Turned c (initializing m) db h started small heads at = absurd at
  turn-Turned c (scanning latest end_block block) db h started small heads (here, fits) =
      subst
        (λ n.
          Turned c (scanning latest end_block n)
            (turn codec fmt cfg l p (scanning latest end_block n) db))
        (sym here)
        (if-cases (Turned c (scanning latest end_block (suc c))) (leb (suc c) end_block)
          (λ t.
            let le : suc c ≤ end_block = ground arith in
            move_on-Turned c latest end_block db (process_block codec fmt cfg l p latest (suc c) db)
              le fits (process_block-StepsTo codec fmt cfg l p latest c db (omega arith) h))
          (λ f. stays c (scanning latest end_block (suc c)) (ended (ok tt)) db small h tt))
  turn-Turned c (ended r) db h started small heads at = stays c (ended r) idle db small h tt
