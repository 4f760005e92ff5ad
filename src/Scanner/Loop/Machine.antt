-- ===== src/Scanner/Loop/Machine.antt =====
-- internal/scanner/loop.go: pollOnce in turns. A turn is what a loop does between two points at which
-- the other goroutines may use the database; `Phase` is where the loop stands.
pub mod Adds
pub mod Agrees
pub mod Tracked
use listener_go.Prelude.{
  ℕ, zero, suc, ◌+◌, ◌-◌, ◌%◌, u64, to_uint64, ◌&&◌, ◌==◌, ltb, leb, [], Result, ok, err,
  if◌then◌else◌,
}
use listener_go.Model.{TimeFormats}
use listener_go.Retry.{GoError, retry}
use listener_go.Database.Tables.{Db}
use listener_go.Database.Buffer.{Codec, DbError, cursor, save_and_advance}
use listener_go.Scanner.Loop.{
  LoopConfig, LoopId, Poll, PollError, no_latest, no_cursor, stopped, out_of_fuel, end_of_range,
  wrap_init, process_block,
}

-- `initializing max_confirmed` is before the first SaveAndAdvance of a new chain, and
-- `scanning latest end_block block` before the test of the loop over the blocks.
pub data Phase : Type 0 where
  idle : Phase
  initializing : ℕ → Phase
  scanning : ℕ → ℕ → ℕ → Phase
  ended : Result PollError (Unit {0}) → Phase

module _ {Raw Time : Type 0} (codec : Codec Raw) (fmt : TimeFormats Time) (cfg : LoopConfig)
    (l : LoopId) (p : Poll Time) where
  plan_from : ℕ → ℕ → ℕ → Phase
  plan_from latest max_confirmed c =
      let start_block = (c + 1) % u64 in
      if c == 0
      then initializing max_confirmed
      else if ltb max_confirmed start_block
      then ended (ok tt)
      else scanning latest (end_of_range cfg max_confirmed start_block) start_block

  plan_cursor : ℕ → ℕ → Result DbError ℕ → Phase
  unfolding plan_from
  plan_cursor latest max_confirmed (err e) = ended (err (no_cursor e))
  plan_cursor latest max_confirmed (ok c) = plan_from latest max_confirmed c

  -- From the answer of BlockNumber to the first block: nothing is written yet.
  plan : Result GoError ℕ → Db Raw → Phase
  unfolding plan_cursor
  plan (err e) db = ended (err (no_latest e))
  plan (ok latest) db =
      let min_confirmations = to_uint64 cfg.min_confirmations in
      if leb min_confirmations latest
      then plan_cursor latest (latest - min_confirmations)
          (cursor p.cursor_fails l.chain_id l.name db)
      else ended (ok tt)

  move_on : ℕ → ℕ → ℕ → Result PollError (Unit {0}) × Db Raw → Phase × Db Raw
  move_on latest end_block block (err e, db) = (ended (err e), db)
  move_on latest end_block block (ok _, db) =
      if ltb block end_block && p.stop block
      then (ended (err stopped), db)
      else (scanning latest end_block ((block + 1) % u64), db)

  finish_init : Result PollError (Unit {0}) × Db Raw → Phase × Db Raw
  finish_init (r, db) = (ended r, db)

  unfoldable pub turn : Phase → Db Raw → Phase × Db Raw
  unfolding plan move_on finish_init wrap_init
  turn idle db = (plan (retry cfg.retry_options p.ctx_err p.cut p.block_number 0).result db, db)
  turn (initializing max_confirmed) db = finish_init (
      wrap_init (
        save_and_advance codec (p.clock max_confirmed) (p.outcomes max_confirmed) l.chain_id l.name
          max_confirmed [] db))
  turn (scanning latest end_block block) db =
      if leb block end_block
      then move_on latest end_block block (process_block codec fmt cfg l p latest block db)
      else (ended (ok tt), db)
  turn (ended r) db = (idle, db)

  -- A cycle that nothing interrupts: turns until one ends it.
  unfoldable pub finish : ℕ → Phase × Db Raw → Result PollError (Unit {0}) × Db Raw
  finish fuel (ended r, db) = (r, db)
  finish zero (idle, db) = (err out_of_fuel, db)
  finish zero (initializing m, db) = (err out_of_fuel, db)
  finish zero (scanning latest end_block block, db) = (err out_of_fuel, db)
  finish (suc fuel) (idle, db) = finish fuel (turn idle db)
  finish (suc fuel) (initializing m, db) = finish fuel (turn (initializing m) db)
  finish (suc fuel) (scanning latest end_block block, db) =
      finish fuel (turn (scanning latest end_block block) db)

-- A turn for each block of the range and one for the test that ends the loop.
abbrev pub turns_of : Phase → ℕ
turns_of idle = 0
turns_of (initializing m) = 1
turns_of (scanning latest end_block block) = suc (suc end_block - block)
turns_of (ended r) = 0
