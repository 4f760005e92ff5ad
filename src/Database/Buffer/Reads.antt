-- ===== src/Database/Buffer/Reads.antt =====
-- What the queries on well-formed tables return.
use listener_go.Prelude.{
  ℕ, zero, suc, ℤ, eq_ℤ, ◌≡◌, refl, false, List, [], ◌∷◌, map, take, Result, ok, if-cases, arith,
  All, to_int64,
}
use listener_go.Model.{Deposit}
use listener_go.Database.Tables.{Key, Row, Db, between, of_chain, of_range}
use listener_go.Database.Tables.Order.{Ascending, Ascending-mono, order_by_id-Ascending}
use listener_go.Database.Buffer.{
  Codec, DbError, key_of, scan_deposits, pending, pending_in_range, pending_all,
}
use listener_go.Database.Buffer.Invariant.{Reads, IsValid}

module _ {Raw : Type 0} where
  abbrev pub keys : List (Row Raw) → List Key
  keys = map (λ r. r.key)

  of_chain-Ascending :
      (low : ℕ) (chain_id : ℤ) (rs : List (Row Raw))
      → Ascending low rs
      → Ascending low (of_chain chain_id rs)
  unfolding of_chain
  of_chain-Ascending low chain_id [] a = tt
  of_chain-Ascending low chain_id (r ∷ rs) a =
      let rest = of_chain-Ascending (suc r.id) chain_id rs a.1 in
      if-cases (Ascending low) (eq_ℤ r.key.chain_id chain_id) (λ kept. (a.0, rest))
        (λ left. Ascending-mono low (suc r.id) (of_chain chain_id rs) (omega arith) rest)

  of_range-Ascending :
      (low : ℕ) (from_block to_block : ℤ) (rs : List (Row Raw))
      → Ascending low rs
      → Ascending low (of_range from_block to_block rs)
  unfolding of_range
  of_range-Ascending low from_block to_block [] a = tt
  of_range-Ascending low from_block to_block (r ∷ rs) a =
      let rest = of_range-Ascending (suc r.id) from_block to_block rs a.1 in
      if-cases (Ascending low) (between from_block to_block r.block_number) (λ kept. (a.0, rest))
        (λ left. Ascending-mono low (suc r.id) (of_range from_block to_block rs) (omega arith) rest)

module _ {Raw : Type 0} (codec : Codec Raw) where
  of_chain-Reads :
      (chain_id : ℤ) (rs : List (Row Raw))
      → All (Reads codec) rs
      → All (Reads codec) (of_chain chain_id rs)
  unfolding of_chain
  of_chain-Reads chain_id [] h = tt
  of_chain-Reads chain_id (r ∷ rs) h =
      let rest = of_chain-Reads chain_id rs h.1 in
      if-cases (All (Reads codec)) (eq_ℤ r.key.chain_id chain_id) (λ kept. (h.0, rest))
        (λ left. rest)

  of_range-Reads :
      (from_block to_block : ℤ) (rs : List (Row Raw))
      → All (Reads codec) rs
      → All (Reads codec) (of_range from_block to_block rs)
  unfolding of_range
  of_range-Reads from_block to_block [] h = tt
  of_range-Reads from_block to_block (r ∷ rs) h =
      let rest = of_range-Reads from_block to_block rs h.1 in
      if-cases (All (Reads codec)) (between from_block to_block r.block_number)
        (λ kept. (h.0, rest)) (λ left. rest)

  pub take-Reads :
      (n : ℕ) (rs : List (Row Raw)) → All (Reads codec) rs → All (Reads codec) (take n rs)
  take-Reads zero rs h = tt
  take-Reads (suc n) [] h = tt
  take-Reads (suc n) (r ∷ rs) h = (h.0, take-Reads n rs h.1)

  -- The result of a read: the deposits of these rows, in this order.
  abbrev pub ReadsAs : List (Row Raw) → Result DbError (List Deposit) → Type 0
  ReadsAs rs x = (ds : List Deposit) × (x ≡ ok ds) × (map key_of ds ≡ keys rs)

  scan_deposits-ReadsAs :
      (rs : List (Row Raw)) → All (Reads codec) rs → ReadsAs rs (scan_deposits codec rs)
  unfolding scan_deposits
  scan_deposits-ReadsAs [] h = ([], refl, refl)
  scan_deposits-ReadsAs (r ∷ rs) ((d, e, k), h) =
      let (ds, e', ks) = scan_deposits-ReadsAs rs h in (d ∷ ds, ground arith, cc)

  -- PendingAll reads the oldest rows, up to the limit, in the order in which they were inserted.
  pub pending_all-ReadsAs :
      (limit : ℕ) (db : Db Raw)
      → IsValid codec db
      → ReadsAs (take limit db.rows) (pending_all codec false limit db)
  unfolding pending_all
  pending_all-ReadsAs limit db v =
      rw (order_by_id-Ascending 0 db.rows v.ascending)
        (scan_deposits-ReadsAs (take limit db.rows) (take-Reads limit db.rows v.readable))

  -- Pending reads the rows of one chain, and PendingInRange those of a range of its blocks, in the
  -- order in which they were inserted; a row without a block number is in no range.
  pub pending-ReadsAs :
      (chain_id : ℤ) (from_block to_block : ℕ) (db : Db Raw)
      → IsValid codec db
      → ReadsAs (of_chain chain_id db.rows) (pending codec false chain_id db)
        × ReadsAs
            (of_range (to_int64 from_block) (to_int64 to_block) (of_chain chain_id db.rows))
            (pending_in_range codec false chain_id from_block to_block db)
  unfolding pending pending_in_range
  pending-ReadsAs chain_id from_block to_block db v =
      let a = of_chain-Ascending 0 chain_id db.rows v.ascending in
      let r = of_chain-Reads chain_id db.rows v.readable in
      let low = to_int64 from_block in
      let high = to_int64 to_block in
      let part = of_range low high (of_chain chain_id db.rows) in
      (
        rw (order_by_id-Ascending 0 (of_chain chain_id db.rows) a)
            (scan_deposits-ReadsAs (of_chain chain_id db.rows) r),
        rw (order_by_id-Ascending 0 part (of_range-Ascending 0 low high _ a))
            (scan_deposits-ReadsAs part (of_range-Reads low high _ r)),
      )
