-- ===== src/Scanner/Loop/Keeps.antt =====
-- What every SaveAndAdvance keeps, a polling cycle keeps; so for the form of the tables.
use listener_go.Prelude.{
  ℕ, zero, suc, ℤ, Text, ◌&&◌, leb, ltb, ◌==◌, List, [], ◌-◌, ◌+◌, ◌%◌, u64, to_uint64, Result, ok,
  err, if-cases,
}
use listener_go.Model.{DepositEvent, Deposit, TimeFormats}
use listener_go.Retry.{GoError, retry}
use listener_go.Database.Tables.{Db}
use listener_go.Database.Buffer.{Codec, IsFaithful, Outcomes, DbError, cursor, save_and_advance}
use listener_go.Database.Buffer.Invariant.{IsValid, save_and_advance-IsValid}
use listener_go.Scanner.Loop.{
  LoopConfig, LoopId, Poll, PollError, convert_events, confirmations_at, wrap_save, process_events,
  process_block, after_block, scan_blocks, wrap_init, after_cursor, after_latest, poll_once,
}

module _ {Raw Time : Type 0} (codec : Codec Raw) (fmt : TimeFormats Time) (cfg : LoopConfig)
    (l : LoopId) (p : Poll Time) (P : Db Raw → Type 0)
    (save-P : (now : ℕ) (o : Outcomes) (chain_id : ℤ) (name : Text) (block : ℕ) (ds : List Deposit)
        (db : Db Raw)
      → P db
      → P (save_and_advance codec now o chain_id name block ds db).1) where
  abbrev Keeps : Result PollError (Unit {0}) × Db Raw → Type 0
  Keeps x = P x.1

  wrap_save-Keeps :
      (block : ℕ) (x : Result DbError (Unit {0}) × Db Raw) → P x.1 → Keeps (wrap_save block x)
  unfolding wrap_save
  wrap_save-Keeps block (ok _, db) h = h
  wrap_save-Keeps block (err e, db) h = h

  wrap_init-Keeps : (x : Result DbError (Unit {0}) × Db Raw) → P x.1 → Keeps (wrap_init x)
  unfolding wrap_init
  wrap_init-Keeps (ok _, db) h = h
  wrap_init-Keeps (err e, db) h = h

  process_events-Keeps :
      (block : ℕ) (scanned : Result GoError (List DepositEvent)) (db : Db Raw)
      → P db
      → Keeps (process_events codec fmt cfg l p block scanned db)
  unfolding process_events
  process_events-Keeps block (err e) db h = h
  process_events-Keeps block (ok events) db h = wrap_save-Keeps block _ (
      save-P (p.clock block) (p.outcomes block) l.chain_id l.name block
        (convert_events fmt (p.now block) cfg.min_confirmations events) db h)

  after_block-Keeps :
      (end_block block : ℕ) (next : ℕ → Db Raw → Result PollError (Unit {0}) × Db Raw)
      (x : Result PollError (Unit {0}) × Db Raw)
      → ((b : ℕ) (db : Db Raw) → P db → Keeps (next b db))
      → Keeps x
      → Keeps (after_block codec fmt cfg l p end_block block next x)
  unfolding after_block
  after_block-Keeps end_block block next (err e, db) rest h = h
  after_block-Keeps end_block block next (ok _, db) rest h =
      if-cases Keeps (ltb block end_block && p.stop block) (λ ended. h)
        (λ waited. rest ((block + 1) % u64) db h)

  scan_blocks-Keeps :
      (fuel latest end_block block : ℕ) (db : Db Raw)
      → P db
      → Keeps (scan_blocks codec fmt cfg l p fuel latest end_block block db)
  unfolding scan_blocks
  scan_blocks-Keeps zero latest end_block block db h = h
  scan_blocks-Keeps (suc fuel) latest end_block block db h =
      if-cases Keeps (leb block end_block)
        (λ more.
          after_block-Keeps end_block block (scan_blocks codec fmt cfg l p fuel latest end_block)
            (process_block codec fmt cfg l p latest block db)
            (scan_blocks-Keeps fuel latest end_block)
            (process_events-Keeps block (p.scan block (confirmations_at latest block)) db h))
        (λ done. h)

  after_cursor-Keeps :
      (latest max_confirmed : ℕ) (x : Result DbError ℕ) (db : Db Raw)
      → P db
      → Keeps (after_cursor codec fmt cfg l p latest max_confirmed x db)
  unfolding after_cursor
  after_cursor-Keeps latest max_confirmed (err e) db h = h
  after_cursor-Keeps latest max_confirmed (ok c) db h =
      if-cases Keeps (c == 0) (λ first. wrap_init-Keeps _ (save-P _ _ _ _ _ [] db h))
        (λ _.
          if-cases Keeps (ltb max_confirmed ((c + 1) % u64)) (λ none_new. h)
            (λ some_new. scan_blocks-Keeps _ latest _ _ db h))

  after_latest-Keeps :
      (x : Result GoError ℕ) (db : Db Raw) → P db → Keeps (after_latest codec fmt cfg l p x db)
  unfolding after_latest
  after_latest-Keeps (err e) db h = h
  after_latest-Keeps (ok latest) db h =
      if-cases Keeps (leb (to_uint64 cfg.min_confirmations) latest)
        (λ enough.
          after_cursor-Keeps latest (latest - to_uint64 cfg.min_confirmations)
            (cursor p.cursor_fails l.chain_id l.name db) db h)
        (λ short. h)

  poll_once-Keeps : (db : Db Raw) → P db → Keeps (poll_once codec fmt cfg l p db)
  unfolding poll_once
  poll_once-Keeps db h =
      after_latest-Keeps (retry cfg.retry_options p.ctx_err p.cut p.block_number 0).result db h

-- A polling cycle leaves well-formed tables, whatever fails in it.
pub poll_once-IsValid :
    {Raw Time : Type 0} (codec : Codec Raw) (f : IsFaithful codec) (fmt : TimeFormats Time)
    (cfg : LoopConfig) (l : LoopId) (p : Poll Time) (db : Db Raw)
    → IsValid codec db
    → IsValid codec (poll_once codec fmt cfg l p db).1
poll_once-IsValid codec f fmt cfg l p db v =
    poll_once-Keeps codec fmt cfg l p (IsValid codec) (save_and_advance-IsValid codec f) db v
