-- ===== src/Publisher/AckMode.antt =====
-- The acknowledged mode of internal/publisher/publisher.go: `drainWithACK` on one connection.
pub mod Drain
pub mod Send
use listener_go.Prelude.{
  ℕ, zero, suc, ◌+◌, ◌-◌, Text, Bool, ltb, leb, ◌==◌, Option, none, some, List, [], ◌∷◌, ◌++◌,
  length, Result, ok, err, if◌then◌else◌,
}
use listener_go.Model.{Deposit}
use listener_go.Database.Tables.{Db}
use listener_go.Database.Buffer.{Codec, DbError, key_of, pending_all, ack}
use listener_go.Publisher.Protocol.{Wire, encode_deposit}
use listener_go.Publisher.Outstanding.{Msg, Outstanding, has, add, take}

-- The settings that the drain reads, after the defaults of `New`; times in one unit.
pub record Config : Type 0 where
  pub max_in_flight : ℕ
  pub max_batch_size : ℕ
  pub ack_timeout : ℕ

pub data DrainError : Type 0 where
  pending_failed : DbError → DrainError
  write_failed : Text → DrainError
  ack_failed : DbError → DrainError
  read_ended ping_failed ack_timed_out canceled : DrainError

-- What one top-up meets: whether the query fails, which writes fail, and the time.
pub record TopUp : Type 0 where
  pub query_fails : Bool
  pub write_fails : ℕ → Bool
  pub now : ℕ

-- `out` is the in-flight table, `channel` the buffered ids of ackCh, and `sent` the frames that
-- were written.
pub record State (Raw Frame : Type 0) : Type 0 where
  pub db : Db Raw
  pub out : Outstanding
  pub channel : List Text
  pub sent : List Frame

module _ {Raw Frame : Type 0} (codec : Codec Raw) (wire : Wire Raw Frame) (cfg : Config) where
  -- One pending deposit: `skip` goes on to the rest of the list, `next` does so after a write.
  send_one :
      TopUp
      → ℕ
      → Deposit
      → Option (Frame × Text)
      → (skip next : State Raw Frame → Result DrainError (Unit {0}) × State Raw Frame)
      → State Raw Frame
      → Result DrainError (Unit {0}) × State Raw Frame
  send_one e i d none skip next s = skip s
  send_one e i d (some (raw, id)) skip next s =
      if has id s.out
      then skip s
      else if e.write_fails i
      then (err (write_failed id), s)
      else next (record s { out = add id (key_of d) e.now s.out; sent = s.sent ++ raw ∷ [] })

  -- The loop of `topUp` over the pending deposits; `i` counts the writes.
  unfoldable pub send_pending :
      TopUp
      → ℕ
      → ℕ
      → List Deposit
      → State Raw Frame
      → Result DrainError (Unit {0}) × State Raw Frame
  unfolding send_one
  send_pending e i available [] s = (ok tt, s)
  send_pending e i zero (d ∷ ds) s = (ok tt, s)
  send_pending e i (suc available) (d ∷ ds) s =
      send_one e i d (encode_deposit codec wire d) (send_pending e i (suc available) ds)
        (send_pending e (suc i) available ds) s

  after_query :
      TopUp
      → ℕ
      → Result DbError (List Deposit)
      → State Raw Frame
      → Result DrainError (Unit {0}) × State Raw Frame
  after_query e available (err x) s = (err (pending_failed x), s)
  after_query e available (ok ds) s = send_pending e 0 available ds s

  -- `available + out.len()` is `MaxInFlight` again.
  unfoldable pub top_up : TopUp → State Raw Frame → Result DrainError (Unit {0}) × State Raw Frame
  unfolding after_query
  top_up e s =
      let available = cfg.max_in_flight - length s.out in
      let limit = available + length s.out in
      if leb cfg.max_in_flight (length s.out)
      then (ok tt, s)
      else after_query e available
          (pending_all codec e.query_fails
            (if ltb cfg.max_batch_size limit then cfg.max_batch_size else limit) s.db)
          s

  wrap_ack :
      State Raw Frame
      → Result DbError (Unit {0}) × Db Raw
      → Result DrainError (Unit {0}) × State Raw Frame
  wrap_ack s (ok _, db) = (ok tt, record s { db = db })
  wrap_ack s (err x, db) = (err (ack_failed x), record s { db = db })

  ack_taken : Bool → Option Msg → State Raw Frame → Result DrainError (Unit {0}) × State Raw Frame
  unfolding wrap_ack
  ack_taken fails none s = (ok tt, s)
  ack_taken fails (some m) s = wrap_ack s (ack fails m.key s.db)

  -- An unknown id changes nothing; a known one is taken out of the table, then its row is deleted.
  unfoldable pub handle_ack :
      Bool → Text → State Raw Frame → Result DrainError (Unit {0}) × State Raw Frame
  unfolding ack_taken
  handle_ack fails id s =
      let (found, rest) = take id s.out in ack_taken fails found (record s { out = rest })
