-- ===== src/Scanner/Loop.antt =====
-- internal/scanner/loop.go: one polling cycle of a (chain, scanner) pair. What the cycle meets
-- outside of the process is a `Poll`: the answers of the RPC node, the outcomes of the database
-- statements, and the points where the context ends.
pub mod Advance
pub mod Cycle
pub mod Coverage
pub mod First
pub mod Keeps
pub mod Machine
pub mod Runs
use listener_go.Prelude.{
  ℕ, zero, suc, ◌+◌, ◌-◌, ◌%◌, ℤ, u64, to_int64, to_uint64, Text, Bool, ◌&&◌, ◌==◌, ltb, leb,
  Option, none, some, List, [], ◌∷◌, Result, ok, err, if◌then◌else◌,
}
use listener_go.Model.{DepositEvent, Deposit, TimeFormats, to_deposit}
use listener_go.Retry.{GoError, Options, retry}
use listener_go.Database.Tables.{Db}
use listener_go.Database.Buffer.{Codec, Outcomes, DbError, cursor, save_and_advance}

pub record LoopConfig : Type 0 where
  pub min_confirmations : ℤ
  pub max_blocks_per_poll : ℤ
  pub retry_options : Options

-- The two fields that the cycle reads of `Loop`: the chain and the strategy's name.
pub record LoopId : Type 0 where
  pub chain_id : ℤ
  pub name : Text

-- `block_number n` is the answer to attempt `n`, `scan b c` the result of ScanBlock at a block and
-- its confirmations; `outcomes`, `now` and `clock` belong to SaveAndAdvance and ToDeposit at a
-- block, and `stop b` says that the context ends in the delay after it.
pub record Poll (Time : Type 0) : Type 0 where
  pub block_number : ℕ → Result GoError ℕ
  pub cut : ℕ → Bool
  pub ctx_err : GoError
  pub cursor_fails : Bool
  pub scan : ℕ → ℤ → Result GoError (List DepositEvent)
  pub outcomes : ℕ → Outcomes
  pub now : ℕ → Time
  pub clock : ℕ → ℕ
  pub stop : ℕ → Bool

pub data PollError : Type 0 where
  no_latest : GoError → PollError
  no_cursor : DbError → PollError
  no_init : DbError → PollError
  scan_failed : ℕ → GoError → PollError
  save_failed : ℕ → DbError → PollError
  stopped out_of_fuel : PollError

module _ {Time : Type 0} (fmt : TimeFormats Time) where
  -- An event that does not convert is skipped.
  keep : Option Deposit → List Deposit → List Deposit
  keep none out = out
  keep (some d) out = d ∷ out

  unfoldable pub convert_events : Time → ℤ → List DepositEvent → List Deposit
  unfolding keep
  convert_events now min_confirmations [] = []
  convert_events now min_confirmations (e ∷ es) =
      keep (to_deposit fmt now e min_confirmations) (convert_events now min_confirmations es)

-- `int(latest - block)`
abbrev pub confirmations_at : ℕ → ℕ → ℤ
confirmations_at latest block = to_int64 ((latest + u64 - block) % u64)

-- The last block of a cycle that starts after the cursor.
unfoldable pub end_of_range : LoopConfig → ℕ → ℕ → ℕ
end_of_range cfg max_confirmed start_block =
    let end_block = (start_block + to_uint64 cfg.max_blocks_per_poll + (u64 - 1)) % u64 in
    if ltb max_confirmed end_block then max_confirmed else end_block

module _ {Raw : Type 0} where
  wrap_save : ℕ → Result DbError (Unit {0}) × Db Raw → Result PollError (Unit {0}) × Db Raw
  wrap_save block (ok _, db) = (ok tt, db)
  wrap_save block (err e, db) = (err (save_failed block e), db)

  wrap_init : Result DbError (Unit {0}) × Db Raw → Result PollError (Unit {0}) × Db Raw
  wrap_init (ok _, db) = (ok tt, db)
  wrap_init (err e, db) = (err (no_init e), db)

module _ {Raw Time : Type 0} (codec : Codec Raw) (fmt : TimeFormats Time) (cfg : LoopConfig)
    (l : LoopId) (p : Poll Time) where
  process_events :
      ℕ → Result GoError (List DepositEvent) → Db Raw → Result PollError (Unit {0}) × Db Raw
  unfolding wrap_save
  process_events block (err e) db = (err (scan_failed block e), db)
  process_events block (ok events) db = wrap_save block (
      save_and_advance codec (p.clock block) (p.outcomes block) l.chain_id l.name block
        (convert_events fmt (p.now block) cfg.min_confirmations events) db)

  -- The body of the loop without the delay: ScanBlock, the conversion, SaveAndAdvance.
  unfoldable pub process_block : ℕ → ℕ → Db Raw → Result PollError (Unit {0}) × Db Raw
  unfolding process_events
  process_block latest block db =
      process_events block (p.scan block (confirmations_at latest block)) db

  -- An error ends the cycle. Between two blocks there is a delay, in which the context may end.
  after_block :
      ℕ
      → ℕ
      → (ℕ → Db Raw → Result PollError (Unit {0}) × Db Raw)
      → Result PollError (Unit {0}) × Db Raw
      → Result PollError (Unit {0}) × Db Raw
  after_block end_block block next (err e, db) = (err e, db)
  after_block end_block block next (ok _, db) =
      if ltb block end_block && p.stop block then (err stopped, db) else next ((block + 1) % u64) db

  -- for block := startBlock; block <= endBlock; block++
  unfoldable pub scan_blocks : ℕ → ℕ → ℕ → ℕ → Db Raw → Result PollError (Unit {0}) × Db Raw
  unfolding process_block after_block
  scan_blocks zero latest end_block block db = (err out_of_fuel, db)
  scan_blocks (suc fuel) latest end_block block db =
      if leb block end_block
      then after_block end_block block (scan_blocks fuel latest end_block)
          (process_block latest block db)
      else (ok tt, db)

  from_cursor : ℕ → ℕ → ℕ → Db Raw → Result PollError (Unit {0}) × Db Raw
  unfolding wrap_init
  from_cursor latest max_confirmed c db =
      let start_block = (c + 1) % u64 in
      let end_block = end_of_range cfg max_confirmed start_block in
      if c == 0
      then wrap_init (
          save_and_advance codec (p.clock max_confirmed) (p.outcomes max_confirmed) l.chain_id
            l.name max_confirmed [] db)
      else if ltb max_confirmed start_block
      then (ok tt, db)
      else scan_blocks (suc (suc end_block - start_block)) latest end_block start_block db

  after_cursor : ℕ → ℕ → Result DbError ℕ → Db Raw → Result PollError (Unit {0}) × Db Raw
  unfolding from_cursor
  after_cursor latest max_confirmed (err e) db = (err (no_cursor e), db)
  after_cursor latest max_confirmed (ok c) db = from_cursor latest max_confirmed c db

  after_latest : Result GoError ℕ → Db Raw → Result PollError (Unit {0}) × Db Raw
  unfolding after_cursor
  after_latest (err e) db = (err (no_latest e), db)
  after_latest (ok latest) db =
      let min_confirmations = to_uint64 cfg.min_confirmations in
      if leb min_confirmations latest
      then after_cursor latest (latest - min_confirmations)
          (cursor p.cursor_fails l.chain_id l.name db) db
      else (ok tt, db)

  unfoldable pub poll_once : Db Raw → Result PollError (Unit {0}) × Db Raw
  unfolding after_latest
  poll_once db = after_latest (retry cfg.retry_options p.ctx_err p.cut p.block_number 0).result db
