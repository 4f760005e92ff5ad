-- ===== src/Scanner/Loop/Machine/Agrees.antt =====
-- The turns of the loop make up the cycle of pollOnce.
use listener_go.Prelude.{
  true, false, ap, ◌∙◌, ℕ, zero, suc, ◌+◌, ◌-◌, ◌%◌, u64, to_uint64, ◌≡◌, refl, ◌&&◌, ◌==◌, ltb,
  leb, [], Result, ok, err, Bool-cases, inl, inr,
}
use listener_go.Model.{TimeFormats}
use listener_go.Retry.{GoError, retry}
use listener_go.Database.Tables.{Db}
use listener_go.Database.Buffer.{Codec, DbError, cursor, save_and_advance}
use listener_go.Scanner.Loop.{
  LoopConfig, LoopId, Poll, PollError, end_of_range, wrap_init, process_block, after_block,
  scan_blocks, from_cursor, after_cursor, after_latest, poll_once,
}
use listener_go.Scanner.Loop.Machine.{
  Phase, idle, initializing, scanning, ended, plan_from, plan_cursor, plan, move_on, finish_init,
  turn, finish, turns_of,
}

module _ {Raw Time : Type 0} (codec : Codec Raw) (fmt : TimeFormats Time) (cfg : LoopConfig)
    (l : LoopId) (p : Poll Time) where
  finish-move_on :
      (fuel latest end_block block : ℕ) (x : Result PollError (Unit {0}) × Db Raw)
      → ((db : Db Raw)
          → finish codec fmt cfg l p fuel (scanning latest end_block ((block + 1) % u64), db)
            ≡ scan_blocks codec fmt cfg l p fuel latest end_block ((block + 1) % u64) db)
      → finish codec fmt cfg l p fuel (move_on codec fmt cfg l p latest end_block block x)
        ≡ after_block codec fmt cfg l p end_block block
            (scan_blocks codec fmt cfg l p fuel latest end_block)
            x
  unfolding finish move_on after_block
  finish-move_on zero latest end_block block (err e, db) h = refl
  finish-move_on (suc fuel) latest end_block block (err e, db) h = refl
  finish-move_on zero latest end_block block (ok _, db) h =
      elim (Bool-cases (ltb block end_block && p.stop block)) [
        | inl t ↦ rw t refl
        | inr f ↦ rw f (h db)
      ]
  finish-move_on (suc fuel) latest end_block block (ok _, db) h =
      elim (Bool-cases (ltb block end_block && p.stop block)) [
        | inl t ↦ rw t refl
        | inr f ↦ rw f (h db)
      ]

  turn_more :
      (latest end_block block : ℕ) (db : Db Raw)
      → leb block end_block ≡ true
      → turn codec fmt cfg l p (scanning latest end_block block) db
        ≡ move_on codec fmt cfg l p latest end_block block
            (process_block codec fmt cfg l p latest block db)
  unfolding turn
  turn_more latest end_block block db h = rw h refl

  turn_last :
      (latest end_block block : ℕ) (db : Db Raw)
      → leb block end_block ≡ false
      → turn codec fmt cfg l p (scanning latest end_block block) db ≡ (ended (ok tt), db)
  unfolding turn
  turn_last latest end_block block db h = rw h refl

  finish-ended :
      (fuel : ℕ) (r : Result PollError (Unit {0})) (db : Db Raw)
      → finish codec fmt cfg l p fuel (ended r, db) ≡ (r, db)
  unfolding finish
  finish-ended zero r db = refl
  finish-ended (suc fuel) r db = refl

  finish-scan_blocks :
      (fuel latest end_block block : ℕ) (db : Db Raw)
      → finish codec fmt cfg l p fuel (scanning latest end_block block, db)
        ≡ scan_blocks codec fmt cfg l p fuel latest end_block block db
  unfolding finish scan_blocks
  finish-scan_blocks zero latest end_block block db = refl
  finish-scan_blocks (suc fuel) latest end_block block db =
      elim (Bool-cases (leb block end_block)) [
        | inl t ↦
            ap (finish codec fmt cfg l p fuel) (turn_more latest end_block block db t)
            ∙ rw t (
                finish-move_on fuel latest end_block block
                  (process_block codec fmt cfg l p latest block db)
                  (λ db'. finish-scan_blocks fuel latest end_block ((block + 1) % u64) db'))
        | inr f ↦
            ap (finish codec fmt cfg l p fuel) (turn_last latest end_block block db f)
            ∙ rw f (finish-ended fuel (ok tt) db)
      ]

  finish-finish_init :
      (x : Result PollError (Unit {0}) × Db Raw)
      → finish codec fmt cfg l p 0 (finish_init codec fmt cfg l p x) ≡ x
  unfolding finish finish_init
  finish-finish_init (r, db) = refl

  finish-init :
      (max_confirmed : ℕ) (db : Db Raw)
      → finish codec fmt cfg l p 1 (initializing max_confirmed, db)
        ≡ wrap_init (
            save_and_advance codec
              (p.clock max_confirmed)
              (p.outcomes max_confirmed)
              l.chain_id
              l.name
              max_confirmed
              []
              db)
  unfolding finish turn
  finish-init max_confirmed db = finish-finish_init _

  -- The cycle that the phase begins, without an interruption.
  abbrev Runs : Phase → Result PollError (Unit {0}) × Db Raw → Db Raw → Type 0
  Runs ph x db = finish codec fmt cfg l p (turns_of ph) (ph, db) ≡ x

  plan_from-Runs :
      (latest max_confirmed c : ℕ) (db : Db Raw)
      → Runs
          (plan_from codec fmt cfg l p latest max_confirmed c)
          (from_cursor codec fmt cfg l p latest max_confirmed c db)
          db
  unfolding plan_from from_cursor finish
  plan_from-Runs latest max_confirmed c db =
      let start_block = (c + 1) % u64 in
      elim (Bool-cases (c == 0)) [
        | inl t ↦ rw t (finish-init max_confirmed db)
        | inr f ↦ elim (Bool-cases (ltb max_confirmed start_block)) [
          | inl t ↦ rw (f, t) refl
          | inr f' ↦
              rw (f, f')
                (finish-scan_blocks
                  (suc (suc (end_of_range cfg max_confirmed start_block) - start_block)) latest
                  (end_of_range cfg max_confirmed start_block) start_block db)
        ]
      ]

  plan_cursor-Runs :
      (latest max_confirmed : ℕ) (r : Result DbError ℕ) (db : Db Raw)
      → Runs
          (plan_cursor codec fmt cfg l p latest max_confirmed r)
          (after_cursor codec fmt cfg l p latest max_confirmed r db)
          db
  unfolding plan_cursor after_cursor finish
  plan_cursor-Runs latest max_confirmed (err e) db = refl
  plan_cursor-Runs latest max_confirmed (ok c) db = plan_from-Runs latest max_confirmed c db

  plan-Runs :
      (r : Result GoError ℕ) (db : Db Raw)
      → Runs (plan codec fmt cfg l p r db) (after_latest codec fmt cfg l p r db) db
  unfolding plan after_latest finish
  plan-Runs (err e) db = refl
  plan-Runs (ok latest) db = elim (Bool-cases (leb (to_uint64 cfg.min_confirmations) latest)) [
    | inl t ↦ rw t (
        plan_cursor-Runs latest (latest - to_uint64 cfg.min_confirmations)
          (cursor p.cursor_fails l.chain_id l.name db) db)
    | inr f ↦ rw f refl
  ]

  -- The turns of a loop that nothing interrupts, from the first to the one that ends the cycle, are
  -- the polling cycle: they give the same result and the same tables, and one turn more than there
  -- are blocks in the range is enough for them.
  turn-poll_once :
      (db : Db Raw)
      → finish codec fmt cfg l p
          (turns_of (turn codec fmt cfg l p idle db).0)
          (turn codec fmt cfg l p idle db)
        ≡ poll_once codec fmt cfg l p db
  unfolding turn poll_once
  turn-poll_once db = plan-Runs (retry cfg.retry_options p.ctx_err p.cut p.block_number 0).result db
