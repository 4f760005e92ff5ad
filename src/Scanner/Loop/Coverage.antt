-- ===== src/Scanner/Loop/Coverage.antt =====
-- What a polling cycle guarantees of the blocks that the cursor passes.
use listener_go.Prelude.{
  ℕ, ◌+◌, ◌-◌, ◌≤◌, ◌<◌, pos, u64, to_uint64, ◌≡◌, ◌≢◌, refl, true, false, ◌⊎◌, inl, inr, ℤ, Text,
  List, [], ◌∷◌, All, Result, ok, err, arith,
}
use listener_go.Model.{DepositEvent, Deposit, TimeFormats}
use listener_go.Retry.{retry}
use listener_go.Database.Tables.{Key, Db, has_key, select_cursor}
use listener_go.Database.Tables.Keys.{eq_key_refl}
use listener_go.Database.Buffer.{Codec, cursor, key_of}
use listener_go.Database.Buffer.Transaction.{any_key}
use listener_go.Scanner.Loop.{
  LoopConfig, LoopId, Poll, convert_events, confirmations_at, poll_once, PollError, out_of_fuel,
}
use listener_go.Scanner.Loop.Cycle.{target, poll_once-Polls}

-- Each deposit of the list has a row in the buffer.
abbrev pub Stored : {Raw : Type 0} → List Deposit → Db Raw → Type 0
Stored ds db = All (λ d. has_key (key_of d) db.rows ≡ true) ds

Stored-any :
    {Raw : Type 0} (ds : List Deposit) (db : Db Raw)
    → ((k : Key) → any_key k ds ≡ true → has_key k db.rows ≡ true)
    → Stored ds db
unfolding any_key
Stored-any [] db h = tt
Stored-any (d ∷ ds) db h = (
  h (key_of d) (ground (arith, eq_key_refl (key_of d))),
  Stored-any ds db (λ k e. h k (ground arith)),
)

-- The node reports the head `latest`, the cursor stands at `c` ≠ 0, and the block numbers stay in
-- the range of uint64; whatever else happens in the cycle is up to `p`.
module _ {Raw Time : Type 0} (codec : Codec Raw) (fmt : TimeFormats Time) (cfg : LoopConfig)
    (l : LoopId) (p : Poll Time) (latest m c : ℕ) (db : Db Raw)
    (blocks : cfg.max_blocks_per_poll ≡ pos m) (fits : latest + m + 2 < u64)
    (answer : (retry cfg.retry_options p.ctx_err p.cut p.block_number 0).result ≡ ok latest)
    (started : c ≢ 0) (small : c < u64 - 1)
    (before : cursor false l.chain_id l.name db ≡ ok c) where
  same_cursor :
      (c' c'' : ℕ) (db' : Db Raw)
      → cursor false l.chain_id l.name db' ≡ ok c'
      → cursor false l.chain_id l.name db' ≡ ok c''
      → c'' ≡ c'
  same_cursor c' c'' db' h h' = cc

  -- In a cycle in which the node reports the head `latest` and the cursor reads `c` ≠ 0, with block
  -- numbers in the range of uint64, no deposit is missed: for each block `b` that the cursor passes in a cycle, ScanBlock succeeded,
  -- and every deposit that its events convert to has a row in the buffer when the cycle ends,
  -- also where the cycle ends with an error.
  pub poll_once-Stored :
      (c' b : ℕ)
      → cursor false l.chain_id l.name (poll_once codec fmt cfg l p db).1 ≡ ok c'
      → c < b
      → b ≤ c'
      → (events : List DepositEvent) × (p.scan b (confirmations_at latest b) ≡ ok events)
        × Stored
            (convert_events fmt (p.now b) cfg.min_confirmations events)
            (poll_once codec fmt cfg l p db).1
  poll_once-Stored c' b h lo hi =
      let (c'', a, _, _, _) =
        poll_once-Polls codec fmt cfg l p latest m blocks fits c db answer started small before in
      let e = same_cursor c' c'' (poll_once codec fmt cfg l p db).1 h a.reads in
      let (events, scanned, stored) = a.covered b lo (omega arith) in
      (
        events,
        scanned,
        Stored-any (convert_events fmt (p.now b) cfg.min_confirmations events)
            (poll_once codec fmt cfg l p db).1 stored,
      )

  -- In a cycle in which the node reports the head `latest` and the cursor reads `c` ≠ 0, with block
  -- numbers in the range of uint64: after the cycle the cursor can be read; it has not moved back, and not beyond the confirmed
  -- head nor further than `max_blocks_per_poll` blocks. If the cycle returned no error, it has moved
  -- as far as that allows, and the fuel of the model never runs out.
  pub poll_once-cursor :
      (c' : ℕ) × (cursor false l.chain_id l.name (poll_once codec fmt cfg l p db).1 ≡ ok c')
      × (c ≤ c')
      × (c' ≤ target c m (latest - to_uint64 cfg.min_confirmations))
      × (((poll_once codec fmt cfg l p db).0 ≢ ok tt)
          ⊎ (c' ≡ target c m (latest - to_uint64 cfg.min_confirmations)))
      × ((poll_once codec fmt cfg l p db).0 ≢ err out_of_fuel)
  poll_once-cursor =
      let (c', a, le, reach, nf) =
        poll_once-Polls codec fmt cfg l p latest m blocks fits c db answer started small before in
      (c', a.reads, a.forward, le, go (poll_once codec fmt cfg l p db).0 c' reach, nf)
    where
      go :
          (r : Result PollError (Unit {0})) (c' : ℕ)
          → (r ≡ ok tt → c' ≡ target c m (latest - to_uint64 cfg.min_confirmations))
          → (r ≢ ok tt) ⊎ (c' ≡ target c m (latest - to_uint64 cfg.min_confirmations))
      go (ok _) c' f = inr (f refl)
      go (err e) c' f = inl (λ is_ok. cc)

  -- A cycle in which the node reports the head `latest` and the cursor reads `c` ≠ 0, with block
  -- numbers in the range of uint64, deletes no row of the buffer, and moves the cursor of no other chain or scanner.
  poll_once-keeps :
      (k : Key) (chain_id : ℤ) (name : Text)
      → has_key k db.rows ≡ true
      → (chain_id ≢ l.chain_id) ⊎ (name ≢ l.name)
      → (has_key k (poll_once codec fmt cfg l p db).1.rows ≡ true)
        × (select_cursor chain_id name (poll_once codec fmt cfg l p db).1.cursors
            ≡ select_cursor chain_id name db.cursors)
  poll_once-keeps k chain_id name h other =
      let (c', a, _, _, _) =
        poll_once-Polls codec fmt cfg l p latest m blocks fits c db answer started small before in
      (a.keeps k h, a.others chain_id name (λ e e'. elim other [ inl ne ↦ ne e | inr ne ↦ ne e' ]))
