-- ===== src/Database/Buffer.antt =====
-- internal/database/buffer_repo.go: the durable buffer of unsent deposits and the scan cursors.
-- Each method takes the outcomes of its statements from an argument, and returns its result and
-- the tables that it leaves.
pub mod Invariant
pub mod Reads
pub mod Transaction
pub mod Atomic
pub mod Heap
use Prim.Native.Nat.{min}
use listener_go.Prelude.{
  ℕ, suc, ◌-◌, ℤ, Text, ◌≡◌, Bool, ◌&&◌, Option, none, some, List, [], ◌∷◌, length, take,
  if◌then◌else◌, Result, ok, err, to_int64, to_uint64,
}
use listener_go.Model.{Deposit}
use listener_go.Database.Tables.{
  Key, Row, Db, upsert, select_cursor, insert_ignore, delete_key, order_by_id, of_chain, of_range,
}

-- `json.Marshal` of a deposit into a payload, and `json.Unmarshal` of the payload that the JSONB
-- column gives back.
pub record Codec (Raw : Type 0) : Type 0 where
  pub marshal : Deposit → Option Raw
  pub unmarshal : Raw → Option Deposit

-- What is marshalled and stored reads back as the same deposit.
pub record IsFaithful {Raw : Type 0} (c : Codec Raw) : Type 0 where
  pub round_trip : (d : Deposit) (raw : Raw) → c.marshal d ≡ some raw → c.unmarshal raw ≡ some d

-- How COMMIT ends. `unreported` is a commit that the server made and whose answer was lost.
pub data Commit : Type 0 where
  committed aborted unreported : Commit

-- Which statements of one transaction fail; `insert` by the position of the deposit.
pub record Outcomes : Type 0 where
  pub begin : Bool
  pub insert : ℕ → Bool
  pub cursor : Bool
  pub notify : Bool
  pub commit : Commit

pub data DbError : Type 0 where
  begin_failed marshal_failed insert_failed cursor_failed notify_failed commit_failed : DbError
  query_failed unmarshal_failed delete_failed : DbError

abbrev pub key_of : Deposit → Key
key_of d = record { chain_id = d.chain_id; tx_hash = d.tx_hash; log_index = d.log_index }

module _ {Raw : Type 0} where
  -- ROLLBACK takes back the rows and the cursors; a sequence is never taken back.
  abbrev rollback : Db Raw → Db Raw → Db Raw
  rollback db work = record db { next_id = work.next_id }

  end_of_tx : Commit → Db Raw → Db Raw → Result DbError (Unit {0}) × Db Raw
  end_of_tx committed db work = (ok tt, work)
  end_of_tx aborted db work = (err commit_failed, rollback db work)
  end_of_tx unreported db work = (err commit_failed, work)

module _ {Raw : Type 0} (codec : Codec Raw) (now : ℕ) (o : Outcomes) where
  -- The loop over the deposits of one block, inside the transaction.
  unfoldable pub insert_all : ℕ → ℤ → List Deposit → Db Raw → Result DbError (Unit {0}) × Db Raw
  insert_all i block [] work = (ok tt, work)
  insert_all i block (d ∷ ds) work = elim (codec.marshal d) [
    | none ↦ (err marshal_failed, work)
    | some payload ↦
        if o.insert i
        then (err insert_failed, work)
        else insert_all (suc i) block ds (insert_ignore (key_of d) payload block now work)
  ]

  -- NOTIFY is issued only where there are deposits, and is sent with the commit.
  notify_and_commit : List Deposit → Db Raw → Db Raw → Result DbError (Unit {0}) × Db Raw
  unfolding end_of_tx
  notify_and_commit [] db work = end_of_tx o.commit db work
  notify_and_commit (d ∷ ds) db work =
      if o.notify
      then (err notify_failed, rollback db work)
      else end_of_tx o.commit db (record work { notified = suc work.notified })

  after_inserts :
      ℤ
      → Text
      → ℤ
      → List Deposit
      → Db Raw
      → Result DbError (Unit {0}) × Db Raw
      → Result DbError (Unit {0}) × Db Raw
  unfolding notify_and_commit
  after_inserts chain_id scanner block ds db (err e, work) = (err e, rollback db work)
  after_inserts chain_id scanner block ds db (ok _, work) =
      if o.cursor
      then (err cursor_failed, rollback db work)
      else notify_and_commit ds db
          (record work { cursors = upsert chain_id scanner block work.cursors })

  unfoldable pub save_and_advance :
      ℤ → Text → ℕ → List Deposit → Db Raw → Result DbError (Unit {0}) × Db Raw
  unfolding after_inserts
  save_and_advance chain_id scanner block ds db =
      if o.begin
      then (err begin_failed, db)
      else after_inserts chain_id scanner (to_int64 block) ds db
          (insert_all 0 (to_int64 block) ds db)

read_one : Option Deposit → Result DbError (List Deposit) → Result DbError (List Deposit)
read_one none rest = err unmarshal_failed
read_one (some d) (ok ds) = ok (d ∷ ds)
read_one (some d) (err e) = err e

module _ {Raw : Type 0} (codec : Codec Raw) where
  -- The first payload that does not unmarshal ends the read.
  unfoldable pub scan_deposits : List (Row Raw) → Result DbError (List Deposit)
  unfolding read_one
  scan_deposits [] = ok []
  scan_deposits (r ∷ rs) = read_one (codec.unmarshal r.payload) (scan_deposits rs)

  unfoldable pub pending : Bool → ℤ → Db Raw → Result DbError (List Deposit)
  pending fails chain_id db =
      if fails then err query_failed else scan_deposits (order_by_id (of_chain chain_id db.rows))

  unfoldable pub pending_in_range : Bool → ℤ → ℕ → ℕ → Db Raw → Result DbError (List Deposit)
  pending_in_range fails chain_id from_block to_block db =
      if fails
      then err query_failed
      else scan_deposits (
          order_by_id
            (of_range (to_int64 from_block) (to_int64 to_block) (of_chain chain_id db.rows)))

  unfoldable pub pending_all : Bool → ℕ → Db Raw → Result DbError (List Deposit)
  pending_all fails limit db =
      if fails then err query_failed else scan_deposits (take limit (order_by_id db.rows))

module _ {Raw : Type 0} where
  unfoldable pub ack : Bool → Key → Db Raw → Result DbError (Unit {0}) × Db Raw
  ack fails k db =
      if fails then (err delete_failed, db) else (ok tt, record db { rows = delete_key k db.rows })

  unfoldable pub cursor : Bool → ℤ → Text → Db Raw → Result DbError ℕ
  cursor fails chain_id scanner db =
      if fails
      then err query_failed
      else ok (elim (select_cursor chain_id scanner db.cursors) [
        | none ↦ 0
        | some last ↦ to_uint64 last
      ])

-- Stats: the number of rows, and the age of the oldest in whole seconds, 0 on an empty table.
pub record Stats : Type 0 where
  pub pending_count : ℕ
  pub oldest_age_seconds : ℕ

module _ {Raw : Type 0} where
  min_created : List (Row Raw) → Option ℕ
  min_created [] = none
  min_created (r ∷ rs) = elim (min_created rs) [
    | none ↦ some r.created_at
    | some t ↦ some (min r.created_at t)
  ]

  unfoldable pub stats : Bool → ℕ → Db Raw → Result DbError Stats
  unfolding min_created
  stats fails now db =
      if fails
      then err query_failed
      else ok (record {
        pending_count = length db.rows;
        oldest_age_seconds = elim (min_created db.rows) [ none ↦ 0 | some t ↦ now - t ];
      })
