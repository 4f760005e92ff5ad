-- ===== src/Publisher/FireAndForget.antt =====
-- The fire-and-forget mode of internal/publisher/publisher.go: `drainFireAndForget`,
-- `flushUntilEmpty` and `sendBatch` on one connection.
pub mod Arrivals
pub mod Sent
pub mod Ends
use listener_go.Prelude.{
  ℕ, zero, suc, ℤ, Text, Bool, ltb, none, some, List, [], ◌∷◌, ◌++◌, length, Result, ok, err,
  if◌then◌else◌,
}
use listener_go.Model.{Deposit}
use listener_go.Database.Tables.{Key, Db}
use listener_go.Database.Buffer.{
  Codec, Outcomes, DbError, key_of, save_and_advance, pending_all, ack,
}

pub data FlushError : Type 0 where
  ctx_ended : FlushError
  query_failed : DbError → FlushError
  frame_failed : Key → FlushError
  reader_ended ping_lost shut_down no_fuel : FlushError

-- A SaveAndAdvance of a scanner.
pub record Save : Type 0 where
  pub now : ℕ
  pub outcomes : Outcomes
  pub chain_id : ℤ
  pub scanner : Text
  pub block : ℕ
  pub deposits : List Deposit

-- What one round of the loop of `flushUntilEmpty` meets; `saves` are those of the scanners since the
-- round before. The writes and deletions are counted by the place of the deposit in the batch.
pub record Pass : Type 0 where
  pub saves : List Save
  pub ended : Bool
  pub query_fails : Bool
  pub write_fails : ℕ → Bool
  pub ack_fails : ℕ → Bool

-- `sent` holds the frames that were written.
pub record Link (Raw : Type 0) : Type 0 where
  pub db : Db Raw
  pub sent : List Raw

-- A case of the select of `drainFireAndForget`; `drain_rest` is the end of the context.
pub data FlushEvent : Type 0 where
  drain_rest : (ℕ → Pass) → FlushEvent
  reader_failed : FlushEvent
  woken : (ℕ → Pass) → FlushEvent
  ping_due : Bool → FlushEvent
  poll_due : (ℕ → Pass) → FlushEvent

module _ {Raw : Type 0} (codec : Codec Raw) where
  unfoldable pub run_saves : List Save → Db Raw → Db Raw
  run_saves [] db = db
  run_saves (v ∷ vs) db =
      run_saves vs
        (save_and_advance codec v.now v.outcomes v.chain_id v.scanner v.block v.deposits db).1

module _ {Raw : Type 0} (codec : Codec Raw) (max_batch_size : ℕ) where
  -- An error of Ack is only logged.
  abbrev pub written : Pass → ℕ → Deposit → Raw → Link Raw → Link Raw
  written p i d raw s = record {
    db = (ack (p.ack_fails i) (key_of d) s.db).1;
    sent = s.sent ++ raw ∷ [];
  }

  unfoldable pub send_batch :
      Pass → ℕ → List Deposit → Link Raw → Result FlushError (Unit {0}) × Link Raw
  send_batch p i [] s = (ok tt, s)
  send_batch p i (d ∷ ds) s = elim (codec.marshal d) [
    | none ↦ send_batch p (suc i) ds s
    | some raw ↦
        if p.write_fails i
        then (err (frame_failed (key_of d)), s)
        else send_batch p (suc i) ds (written p i d raw s)
  ]

  -- A batch that is not full is the last one.
  unfoldable pub after_batch :
      ℕ
      → (Link Raw → Result FlushError (Unit {0}) × Link Raw)
      → Result FlushError (Unit {0}) × Link Raw
      → Result FlushError (Unit {0}) × Link Raw
  after_batch count next (err x, s) = (err x, s)
  after_batch count next (ok _, s) = if ltb count max_batch_size then (ok tt, s) else next s

  unfoldable pub after_pending :
      Pass
      → (Link Raw → Result FlushError (Unit {0}) × Link Raw)
      → Result DbError (List Deposit)
      → Link Raw
      → Result FlushError (Unit {0}) × Link Raw
  after_pending p next (err x) s = (err (query_failed x), s)
  after_pending p next (ok []) s = (ok tt, s)
  after_pending p next (ok (d ∷ ds)) s =
      after_batch (length (d ∷ ds)) next (send_batch p 0 (d ∷ ds) s)

  -- The loop, from its round `n` on.
  unfoldable pub flush_until_empty :
      ℕ → (ℕ → Pass) → ℕ → Link Raw → Result FlushError (Unit {0}) × Link Raw
  flush_until_empty zero ps n s = (err no_fuel, s)
  flush_until_empty (suc fuel) ps n s =
      if (ps n).ended
      then (err ctx_ended, s)
      else let t = record s { db = run_saves codec (ps n).saves s.db } in
        after_pending (ps n) (flush_until_empty fuel ps (suc n))
          (pending_all codec (ps n).query_fails max_batch_size t.db) t

  -- The result of one case: an error ends the connection. After the end of the context there is a
  -- last flush, whose error is only logged.
  unfoldable pub flush_step : ℕ → FlushEvent → Link Raw → Result FlushError (Unit {0}) × Link Raw
  flush_step fuel (drain_rest ps) s = (err shut_down, (flush_until_empty fuel ps 0 s).1)
  flush_step fuel reader_failed s = (err reader_ended, s)
  flush_step fuel (woken ps) s = flush_until_empty fuel ps 0 s
  flush_step fuel (ping_due fails) s = if fails then (err ping_lost, s) else (ok tt, s)
  flush_step fuel (poll_due ps) s = flush_until_empty fuel ps 0 s

  unfoldable pub go_on_if_ok :
      (Link Raw → Result FlushError (Unit {0}) × Link Raw)
      → Result FlushError (Unit {0}) × Link Raw
      → Result FlushError (Unit {0}) × Link Raw
  go_on_if_ok next (ok _, s) = next s
  go_on_if_ok next (err x, s) = (err x, s)

  unfoldable pub flush_events :
      ℕ → List FlushEvent → Link Raw → Result FlushError (Unit {0}) × Link Raw
  flush_events fuel [] s = (ok tt, s)
  flush_events fuel (e ∷ es) s = go_on_if_ok (flush_events fuel es) (flush_step fuel e s)

  -- `drainFireAndForget`: a first flush, then the loop over the cases.
  unfoldable pub drain_fire_and_forget :
      ℕ → (ℕ → Pass) → List FlushEvent → Link Raw → Result FlushError (Unit {0}) × Link Raw
  drain_fire_and_forget fuel first es s =
      go_on_if_ok (flush_events fuel es) (flush_until_empty fuel first 0 s)
