-- ===== src/Database/Buffer/Transaction.antt =====
-- How a transaction of `SaveAndAdvance` can end, and what its inserts leave in the tables.
use listener_go.Prelude.{
  ℕ, suc, ◌≤◌, ℤ, Text, ◌≡◌, refl, ◌⊎◌, inl, inr, Bool, false, ◌||◌, some, List, [], ◌∷◌, Result,
  ok, err, if-cases, Option-cases, to_int64, arith,
}
use listener_go.Model.{Deposit}
use listener_go.Database.Tables.{Key, eq_key, Db, upsert, has_key, insert_ignore}
use listener_go.Database.Tables.Keys.{has_key-add_row}
use listener_go.Database.Buffer.{
  Codec, Outcomes, Commit, committed, aborted, unreported, DbError, begin_failed, cursor_failed,
  notify_failed, commit_failed, key_of, insert_all, save_and_advance, end_of_tx, notify_and_commit,
  after_inserts,
}

-- Some deposit of the list has the key.
unfoldable pub any_key : Key → List Deposit → Bool
any_key k [] = false
any_key k (d ∷ ds) = eq_key (key_of d) k || any_key k ds

-- One more notification, if there were deposits.
abbrev pub notified_after : List Deposit → ℕ → ℕ
notified_after [] n = n
notified_after (d ∷ ds) n = suc n

-- The tables after COMMIT: the cursor is written, and NOTIFY is sent if there were deposits.
abbrev pub published : {Raw : Type 0} → ℤ → Text → ℤ → List Deposit → Db Raw → Db Raw
published chain_id scanner block ds work = record work {
  cursors = upsert chain_id scanner block work.cursors;
  notified = notified_after ds work.notified;
}

module _ {Raw : Type 0} (codec : Codec Raw) (now : ℕ) (o : Outcomes) where
  -- The transaction was taken back, or never begun.
  abbrev pub RolledBack : Db Raw → Result DbError (Unit {0}) × Db Raw → Type 0
  RolledBack db x =
      (e : DbError) × (n : ℕ) × (x ≡ (err e, record db { next_id = n })) × (db.next_id ≤ n)

  abbrev pub Committed :
      ℤ → Text → ℕ → List Deposit → Db Raw → Result DbError (Unit {0}) × Db Raw → Type 0
  Committed chain_id scanner block ds db x =
      (work : Db Raw) × (insert_all codec now o 0 (to_int64 block) ds db ≡ (ok tt, work))
      × (x.1 ≡ published chain_id scanner (to_int64 block) ds work)
      × ((x.0 ≡ ok tt) ⊎ ((x.0 ≡ err commit_failed) × (o.commit ≡ unreported)))

  abbrev pub Ends :
      ℤ → Text → ℕ → List Deposit → Db Raw → Result DbError (Unit {0}) × Db Raw → Type 0
  Ends chain_id scanner block ds db x = RolledBack db x ⊎ Committed chain_id scanner block ds db x

  insert_all-next_id :
      (i : ℕ) (block : ℤ) (ds : List Deposit) (db : Db Raw)
      → db.next_id ≤ (insert_all codec now o i block ds db).1.next_id
  unfolding insert_all insert_ignore
  insert_all-next_id i block [] db = omega arith
  insert_all-next_id i block (d ∷ ds) db = elim (Option-cases (codec.marshal d)) [
    | inl e ↦ rw (e, insert_all) (omega arith)
    | inr (raw, e) ↦
        rw (e, insert_all)
          (ground (
            arith,
            insert_all-next_id (suc i) block ds (insert_ignore (key_of d) raw block now db),
          ))
  ]

  pub insert_all-cons :
      (i : ℕ) (block : ℤ) (d : Deposit) (ds : List Deposit) (db work : Db Raw)
      → insert_all codec now o i block (d ∷ ds) db ≡ (ok tt, work)
      → (raw : Raw) × (codec.marshal d ≡ some raw)
        × (insert_all codec now o (suc i) block ds (insert_ignore (key_of d) raw block now db)
            ≡ (ok tt, work))
  unfolding insert_all
  insert_all-cons i block d ds db work h = elim (Option-cases (codec.marshal d)) [
    | inl e ↦ absurd (cc (rw (e, insert_all) at h))
    | inr (raw, e) ↦ (raw, e, ground (arith, rw (e, insert_all) at h))
  ]

  -- Where every insert is made, the rows are those from before and the deposits of the list.
  pub insert_all-rows :
      (i : ℕ) (block : ℤ) (ds : List Deposit) (db work : Db Raw) (k : Key)
      → insert_all codec now o i block ds db ≡ (ok tt, work)
      → (has_key k work.rows ≡ (has_key k db.rows || any_key k ds))
        × (work.cursors ≡ db.cursors)
        × (work.notified ≡ db.notified)
  unfolding insert_all any_key insert_ignore
  insert_all-rows i block [] db work k h = ground arith
  insert_all-rows i block (d ∷ ds) db work k h =
      let (raw, e, rest) = insert_all-cons i block d ds db work h in
      let next = insert_ignore (key_of d) raw block now db in
      ground (
        arith,
        insert_all-rows (suc i) block ds next work k rest,
        has_key-add_row k
            (record {
              id = db.next_id;
              key = key_of d;
              payload = raw;
              block_number = some block;
              created_at = now;
            })
            db.rows,
      )

  end_of_tx-cases :
      (chain_id : ℤ) (scanner : Text) (block : ℕ) (ds : List Deposit) (db work : Db Raw)
      (c : Commit)
      → o.commit ≡ c
      → insert_all codec now o 0 (to_int64 block) ds db ≡ (ok tt, work)
      → db.next_id ≤ work.next_id
      → let x = end_of_tx c db (published chain_id scanner (to_int64 block) ds work) in
        Ends chain_id scanner block ds db x
  unfolding end_of_tx
  end_of_tx-cases chain_id scanner block ds db work committed e h le = inr (work, h, refl, inl refl)
  end_of_tx-cases chain_id scanner block ds db work aborted e h le =
      inl (commit_failed, work.next_id, refl, le)
  end_of_tx-cases chain_id scanner block ds db work unreported e h le =
      inr (work, h, refl, inr (refl, e))

  notify_and_commit-cases :
      (chain_id : ℤ) (scanner : Text) (block : ℕ) (ds : List Deposit) (db work : Db Raw)
      → insert_all codec now o 0 (to_int64 block) ds db ≡ (ok tt, work)
      → db.next_id ≤ work.next_id
      → let x =
          notify_and_commit codec now o ds db
            (record work { cursors = upsert chain_id scanner (to_int64 block) work.cursors }) in
        Ends chain_id scanner block ds db x
  unfolding notify_and_commit
  notify_and_commit-cases chain_id scanner block [] db work h le =
      end_of_tx-cases chain_id scanner block [] db work o.commit refl h le
  notify_and_commit-cases chain_id scanner block (d ∷ ds) db work h le =
      if-cases (Ends chain_id scanner block (d ∷ ds) db) o.notify
        (λ fails. inl (notify_failed, work.next_id, refl, le))
        (λ sent. end_of_tx-cases chain_id scanner block (d ∷ ds) db work o.commit refl h le)

  after_inserts-cases :
      (chain_id : ℤ) (scanner : Text) (block : ℕ) (ds : List Deposit) (db : Db Raw)
      (inserted : Result DbError (Unit {0}) × Db Raw)
      → insert_all codec now o 0 (to_int64 block) ds db ≡ inserted
      → db.next_id ≤ inserted.1.next_id
      → let x = after_inserts codec now o chain_id scanner (to_int64 block) ds db inserted in
        Ends chain_id scanner block ds db x
  unfolding after_inserts
  after_inserts-cases chain_id scanner block ds db (err e, work) h le =
      inl (e, work.next_id, refl, le)
  after_inserts-cases chain_id scanner block ds db (ok _, work) h le =
      if-cases (Ends chain_id scanner block ds db) o.cursor
        (λ fails. inl (cursor_failed, work.next_id, refl, le))
        (λ written. notify_and_commit-cases chain_id scanner block ds db work h le)

  -- A transaction is taken back whole with an error, or all of it is in the tables; then only an
  -- answer that was lost is an error.
  pub save-cases :
      (chain_id : ℤ) (scanner : Text) (block : ℕ) (ds : List Deposit) (db : Db Raw)
      → let x = save_and_advance codec now o chain_id scanner block ds db in
        Ends chain_id scanner block ds db x
  unfolding save_and_advance
  save-cases chain_id scanner block ds db =
      if-cases (Ends chain_id scanner block ds db) o.begin
        (λ fails. inl (begin_failed, db.next_id, refl, omega arith))
        (λ begun.
          after_inserts-cases chain_id scanner block ds db _ refl
            (insert_all-next_id 0 (to_int64 block) ds db))
