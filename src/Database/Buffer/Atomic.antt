-- ===== src/Database/Buffer/Atomic.antt =====
-- `SaveAndAdvance` is one transaction: the deposits of a block and the cursor, or nothing.
use listener_go.Prelude.{
  ℕ, ◌<◌, ℤ, eq_ℤ, eq_ℤ_iff, eq_text, eq_text_iff, if◌then◌else◌, ◌&&◌, Text, ◌≡◌, ◌≢◌, refl, ap,
  ◌⊎◌, inl, inr, ◌||◌, some, List, Result, ok, to_int64, to_uint64-to_int64, u64, true, false,
  arith,
}
use listener_go.Model.{Deposit}
use listener_go.Database.Tables.{Key, CursorRow, Db, select_cursor, has_key}
use listener_go.Database.Tables.Keys.{select_cursor-upsert}
use listener_go.Database.Buffer.{Codec, Outcomes, unreported, DbError, save_and_advance, cursor}
use listener_go.Database.Buffer.Transaction.{
  any_key, notified_after, Committed, insert_all-rows, save-cases,
}

module _ {Raw : Type 0} where
  pub record IsUnchanged (db db' : Db Raw) : Type 0 where
    pub rows : db'.rows ≡ db.rows
    pub cursors : db'.cursors ≡ db.cursors
    pub notified : db'.notified ≡ db.notified

  pub record IsRecorded (chain_id : ℤ) (scanner : Text) (block : ℕ) (ds : List Deposit)
      (db db' : Db Raw) : Type 0 where
    pub rows : (k : Key) → has_key k db'.rows ≡ (has_key k db.rows || any_key k ds)
    pub cursors :
        (c : ℤ) (s : Text)
        → select_cursor c s db'.cursors ≡ (
            if eq_ℤ chain_id c && eq_text scanner s
            then some (to_int64 block)
            else select_cursor c s db.cursors)
    pub notified : db'.notified ≡ notified_after ds db.notified

select_cursor-IsRecorded :
    {Raw : Type 0} (chain_id : ℤ) (scanner : Text) (block : ℕ) (ds : List Deposit) (db db' : Db Raw)
    → IsRecorded chain_id scanner block ds db db'
    → select_cursor chain_id scanner db'.cursors ≡ some (to_int64 block)
select_cursor-IsRecorded chain_id scanner block ds db db' r =
    ground
      (arith, r.cursors chain_id scanner, eq_ℤ_iff chain_id chain_id, eq_text_iff scanner scanner)

-- The recorded block reads back, for every 64-bit block number.
pub cursor-IsRecorded :
    {Raw : Type 0} (chain_id : ℤ) (scanner : Text) (block : ℕ) (ds : List Deposit) (db db' : Db Raw)
    → block < u64
    → IsRecorded chain_id scanner block ds db db'
    → cursor false chain_id scanner db' ≡ ok block
unfolding cursor
cursor-IsRecorded chain_id scanner block ds db db' fits r =
    rw (select_cursor-IsRecorded chain_id scanner block ds db db' r)
      (ap ok (to_uint64-to_int64 block fits))

pub cursor-IsUnchanged :
    {Raw : Type 0} (chain_id : ℤ) (scanner : Text) (db db' : Db Raw)
    → IsUnchanged db db'
    → cursor false chain_id scanner db' ≡ cursor false chain_id scanner db
unfolding cursor
cursor-IsUnchanged chain_id scanner db db' u = rw u.cursors

module _ {Raw : Type 0} (codec : Codec Raw) (now : ℕ) (o : Outcomes) where
  Committed-IsRecorded :
      (chain_id : ℤ) (scanner : Text) (block : ℕ) (ds : List Deposit) (db : Db Raw)
      (x : Result DbError (Unit {0}) × Db Raw)
      → Committed codec now o chain_id scanner block ds db x
      → IsRecorded chain_id scanner block ds db x.1
  Committed-IsRecorded chain_id scanner block ds db x (work, h, e, _) =
      let b = to_int64 block in
      let facts = λ (k : Key). insert_all-rows codec now o 0 b ds db work k h in
      let any : Key = record { chain_id = chain_id; tx_hash = scanner; log_index = chain_id } in
      rw e (record {
        rows = λ k. (facts k).0;
        cursors = λ c s. rw (select_cursor-upsert chain_id scanner b work.cursors c s) (
            ap
              (λ (cs : List CursorRow).
                if eq_ℤ chain_id c && eq_text scanner s then some b else select_cursor c s cs)
              (facts any).1);
        notified = ap (notified_after ds) (facts any).2;
      })

  -- Whichever statement fails, and however COMMIT ends: the rows, the cursors and the notifications
  -- are as before and an error is returned, or all the deposits of the block are in the table, the
  -- cursor of this chain and scanner stands at the block, and no other cursor has moved. An error
  -- in the second case means that the answer to COMMIT was lost.
  pub save_and_advance-atomic :
      (chain_id : ℤ) (scanner : Text) (block : ℕ) (ds : List Deposit) (db : Db Raw)
      → let x = save_and_advance codec now o chain_id scanner block ds db in
        (IsUnchanged db x.1 × (x.0 ≢ ok tt))
        ⊎ (IsRecorded chain_id scanner block ds db x.1 × ((x.0 ≡ ok tt) ⊎ (o.commit ≡ unreported)))
  save_and_advance-atomic chain_id scanner block ds db =
      elim (save-cases codec now o chain_id scanner block ds db) [
        | inl (e, n, eq, _) ↦ inl (
          record {
            rows = ap (λ (y : Result DbError (Unit {0}) × Db Raw). y.1.rows) eq;
            cursors = ap (λ (y : Result DbError (Unit {0}) × Db Raw). y.1.cursors) eq;
            notified = ap (λ (y : Result DbError (Unit {0}) × Db Raw). y.1.notified) eq;
          },
          λ is_ok. cc (ap (λ (y : Result DbError (Unit {0}) × Db Raw). y.0) eq),
        )
        | inr (work, h, eq, r) ↦
            inr (Committed-IsRecorded chain_id scanner block ds db _ (work, h, eq, r), ground arith)
      ]

  -- A success means that the block is recorded.
  save_and_advance-IsRecorded :
      (chain_id : ℤ) (scanner : Text) (block : ℕ) (ds : List Deposit) (db : Db Raw)
      → (save_and_advance codec now o chain_id scanner block ds db).0 ≡ ok tt
      → IsRecorded chain_id scanner block ds db
          (save_and_advance codec now o chain_id scanner block ds db).1
  save_and_advance-IsRecorded chain_id scanner block ds db done =
      elim (save_and_advance-atomic chain_id scanner block ds db) [
        | inl (_, failed) ↦ absurd (failed done)
        | inr (recorded, _) ↦ recorded
      ]

  -- After a success, `Cursor` reads the block back, for every 64-bit block number.
  pub cursor-save_and_advance :
      (chain_id : ℤ) (scanner : Text) (block : ℕ) (ds : List Deposit) (db : Db Raw)
      → block < u64
      → (save_and_advance codec now o chain_id scanner block ds db).0 ≡ ok tt
      → cursor false chain_id scanner (save_and_advance codec now o chain_id scanner block ds db).1
        ≡ ok block
  cursor-save_and_advance chain_id scanner block ds db fits done =
      cursor-IsRecorded chain_id scanner block ds db _ fits
        (save_and_advance-IsRecorded chain_id scanner block ds db done)

pub save_and_advance-Keeps :
    {Raw : Type 0} (codec : Codec Raw) (now : ℕ) (o : Outcomes) (chain_id : ℤ) (name : Text)
    (block : ℕ) (ds : List Deposit) (db : Db Raw) (k : Key)
    → has_key k db.rows ≡ true
    → has_key k (save_and_advance codec now o chain_id name block ds db).1.rows ≡ true
save_and_advance-Keeps codec now o chain_id name block ds db k h =
    elim (save_and_advance-atomic codec now o chain_id name block ds db) [
      | inl (unchanged, _) ↦ rw unchanged.rows h
      | inr (recorded, _) ↦ rw (recorded.rows k, h) refl
    ]
