-- ===== src/Database/Tables/Order.antt =====
-- The ids of deposit_buffer rise along the table, so ORDER BY id is the order of insertion.
use listener_go.Prelude.{ℕ, suc, ◌≤◌, ◌<◌, ◌≡◌, refl, List, [], ◌∷◌, ◌++◌, All, arith}
use listener_go.Database.Tables.{Key, Row, add_row, delete_key, insert_by_id, order_by_id}

module _ {Raw : Type 0} where
  -- Every id is at least `low`, and the ids rise.
  abbrev pub Ascending : ℕ → List (Row Raw) → Type 0
  Ascending low [] = Unit
  Ascending low (r ∷ rs) = (low ≤ r.id) × Ascending (suc r.id) rs

  -- Every id is below `next`.
  abbrev pub Below : ℕ → List (Row Raw) → Type 0
  Below next = All (λ r. r.id < next)

  pub Below-mono : (m n : ℕ) (rs : List (Row Raw)) → m ≤ n → Below m rs → Below n rs
  Below-mono m n [] h b = tt
  Below-mono m n (r ∷ rs) h b = (omega arith, Below-mono m n rs h b.1)

  pub Ascending-mono : (m n : ℕ) (rs : List (Row Raw)) → m ≤ n → Ascending n rs → Ascending m rs
  Ascending-mono m n [] h a = tt
  Ascending-mono m n (r ∷ rs) h a = (omega arith, a.1)

  Ascending-append :
      (low : ℕ) (rs : List (Row Raw)) (r : Row Raw)
      → Ascending low rs
      → Below r.id rs
      → low ≤ r.id
      → Ascending low (rs ++ r ∷ [])
  Ascending-append low [] r a b h = (h, tt)
  Ascending-append low (s ∷ rs) r a b h =
      (a.0, Ascending-append (suc s.id) rs r a.1 b.1 (omega arith))

  Below-append :
      (next : ℕ) (rs : List (Row Raw)) (r : Row Raw)
      → Below next rs
      → r.id < next
      → Below next (rs ++ r ∷ [])
  Below-append next [] r b h = (h, tt)
  Below-append next (s ∷ rs) r b h = (b.0, Below-append next rs r b.1 h)

  pub add_row-Ascending :
      (r : Row Raw) (rs : List (Row Raw))
      → Ascending 0 rs
      → Below r.id rs
      → Ascending 0 (add_row r rs)
  unfolding add_row
  add_row-Ascending r rs a b = ground (arith, Ascending-append 0 rs r a b)

  pub add_row-Below :
      (r : Row Raw) (rs : List (Row Raw)) → Below r.id rs → Below (suc r.id) (add_row r rs)
  unfolding add_row
  add_row-Below r rs b =
      let wider = Below-mono r.id (suc r.id) rs (omega arith) b in
      ground (arith, Below-append (suc r.id) rs r wider)

  pub delete_key-Ascending :
      (low : ℕ) (k : Key) (rs : List (Row Raw)) → Ascending low rs → Ascending low (delete_key k rs)
  unfolding delete_key
  delete_key-Ascending low k [] a = tt
  delete_key-Ascending low k (r ∷ rs) a =
      let rest = delete_key-Ascending (suc r.id) k rs a.1 in
      ground (arith, rest, Ascending-mono low (suc r.id) (delete_key k rs))

  pub delete_key-Below :
      (next : ℕ) (k : Key) (rs : List (Row Raw)) → Below next rs → Below next (delete_key k rs)
  unfolding delete_key
  delete_key-Below next k [] b = tt
  delete_key-Below next k (r ∷ rs) b = ground (arith, delete_key-Below next k rs b.1)

  insert_by_id-first :
      (r : Row Raw) (rs : List (Row Raw)) → Ascending (suc r.id) rs → insert_by_id r rs ≡ r ∷ rs
  unfolding insert_by_id
  insert_by_id-first r [] a = refl
  insert_by_id-first r (s ∷ rs) a = ground arith

  -- On a table whose ids rise, ORDER BY id changes nothing.
  pub order_by_id-Ascending :
      (low : ℕ) (rs : List (Row Raw)) → Ascending low rs → order_by_id rs ≡ rs
  unfolding order_by_id
  order_by_id-Ascending low [] a = refl
  order_by_id-Ascending low (r ∷ rs) a =
      rw (order_by_id-Ascending (suc r.id) rs a.1) (insert_by_id-first r rs a.1)
