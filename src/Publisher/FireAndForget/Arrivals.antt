-- ===== src/Publisher/FireAndForget/Arrivals.antt =====
-- internal/publisher/publisher.go: what the scanners commit while flushUntilEmpty runs.
use listener_go.Prelude.{
  ℕ, zero, suc, ◌+◌, ◌≤◌, ℤ, ◌≡◌, ap, true, inl, inr, some, List, [], ◌∷◌, ◌++◌, length, ok,
  to_int64, if-cases, arith,
}
use listener_go.Model.{Deposit}
use listener_go.Database.Tables.{Key, Row, Db, has_key, add_row, insert_ignore}
use listener_go.Database.Buffer.{Codec, IsFaithful, Outcomes, key_of, insert_all, save_and_advance}
use listener_go.Database.Buffer.Transaction.{insert_all-cons, save-cases}
use listener_go.Database.Buffer.Invariant.{IsValid, save_and_advance-IsValid}
use listener_go.Database.Buffer.Atomic.{save_and_advance-Keeps}
use listener_go.Publisher.FireAndForget.{Save, Pass, run_saves}

-- The deposits of these calls.
abbrev pub saved : List Save → ℕ
saved [] = 0
saved (v ∷ vs) = length v.deposits + saved vs

-- The deposits that scanners insert at most in `m` rounds from the round `n` on.
abbrev pub arriving : (ℕ → Pass) → (n m : ℕ) → ℕ
arriving ps n zero = 0
arriving ps n (suc m) = saved (ps n).saves + arriving ps (suc n) m

module _ {Raw : Type 0} where
  length-append_row : (rs : List (Row Raw)) (r : Row Raw) → length (rs ++ r ∷ []) ≡ suc (length rs)
  length-append_row [] r = omega arith
  length-append_row (s ∷ rs) r = ap suc (length-append_row rs r)

  length-add_row : (r : Row Raw) (rs : List (Row Raw)) → length (add_row r rs) ≤ suc (length rs)
  unfolding add_row
  length-add_row r rs =
      if-cases (λ (l : List (Row Raw)). length l ≤ suc (length rs)) (has_key r.key rs)
        (λ old. omega arith) (λ new. omega (arith, length-append_row rs r))

module _ {Raw : Type 0} (codec : Codec Raw) (now : ℕ) (o : Outcomes) where
  length-insert_all :
      (i : ℕ) (block : ℤ) (ds : List Deposit) (db work : Db Raw)
      → insert_all codec now o i block ds db ≡ (ok tt, work)
      → length work.rows ≤ length db.rows + length ds
  unfolding insert_all insert_ignore
  length-insert_all i block [] db work h =
      let same : db ≡ work = cc in
      let rows : length db.rows ≡ length work.rows = ap (λ x. length x.rows) same in
      omega (arith, rows)
  length-insert_all i block (d ∷ ds) db work h =
      let (raw, e, rest) = insert_all-cons codec now o i block d ds db work h in
      let next = insert_ignore (key_of d) raw block now db in
      let first =
        length-add_row
          (record {
            id = db.next_id;
            key = key_of d;
            payload = raw;
            block_number = some block;
            created_at = now;
          })
          db.rows in
      omega (arith, length-insert_all (suc i) block ds next work rest, first)

module _ {Raw : Type 0} (codec : Codec Raw) where
  length-save :
      (v : Save) (db : Db Raw)
      → length
          (save_and_advance codec v.now v.outcomes v.chain_id v.scanner v.block v.deposits
            db).1.rows
        ≤ length db.rows + length v.deposits
  length-save v db =
      elim (save-cases codec v.now v.outcomes v.chain_id v.scanner v.block v.deposits db) [
        | inl (e, n, eq, le) ↦ rw eq (omega arith)
        | inr (work, h, eq, ends) ↦
            rw eq
              (length-insert_all codec v.now v.outcomes 0 (to_int64 v.block) v.deposits db work h)
      ]

  pub length-run_saves :
      (vs : List Save) (db : Db Raw)
      → length (run_saves codec vs db).rows ≤ length db.rows + saved vs
  unfolding run_saves
  length-run_saves [] db = omega arith
  length-run_saves (v ∷ vs) db = omega (arith, length-run_saves vs _, length-save v db)

  pub run_saves-IsValid :
      (f : IsFaithful codec) (vs : List Save) (db : Db Raw)
      → IsValid codec db
      → IsValid codec (run_saves codec vs db)
  unfolding run_saves
  run_saves-IsValid f [] db valid = valid
  run_saves-IsValid f (v ∷ vs) db valid = run_saves-IsValid f vs _ (
      save_and_advance-IsValid codec f v.now v.outcomes v.chain_id v.scanner v.block v.deposits db
        valid)

  pub has_key-run_saves :
      (vs : List Save) (db : Db Raw) (k : Key)
      → has_key k db.rows ≡ true
      → has_key k (run_saves codec vs db).rows ≡ true
  unfolding run_saves
  has_key-run_saves [] db k h = h
  has_key-run_saves (v ∷ vs) db k h =
      has_key-run_saves vs _ k (
        save_and_advance-Keeps codec v.now v.outcomes v.chain_id v.scanner v.block v.deposits db k
          h)
