-- ===== src/Publisher/FireAndForget/Ends.antt =====
-- When `flushUntilEmpty` ends.
use listener_go.Prelude.{
  ℕ, zero, suc, ◌+◌, ◌≤◌, ◌<◌, ◌≡◌, ◌≢◌, refl, ◌⊎◌, inl, inr, Bool, true, false, ltb, some, List,
  [], ◌∷◌, length, map, take, Result, ok, err, if-cases, arith,
}
use listener_go.Model.{Deposit}
use listener_go.Database.Tables.{Key, Row, has_key, delete_key}
use listener_go.Database.Tables.Keys.{eq_key_refl}
use listener_go.Database.Buffer.{Codec, IsFaithful, key_of, pending_all, ack}
use listener_go.Database.Buffer.Invariant.{IsValid, ack-IsValid}
use listener_go.Database.Buffer.Reads.{keys, pending_all-ReadsAs}
use listener_go.Publisher.FireAndForget.{
  FlushError, no_fuel, Pass, Link, written, send_batch, after_batch, after_pending,
  flush_until_empty, run_saves,
}
use listener_go.Publisher.FireAndForget.Arrivals.{
  saved, arriving, length-run_saves, run_saves-IsValid,
}

module _ {Raw : Type 0} where
  length-delete_key-le : (k : Key) (rs : List (Row Raw)) → length (delete_key k rs) ≤ length rs
  unfolding delete_key
  length-delete_key-le k [] = omega arith
  length-delete_key-le k (r ∷ rs) = ground (arith, length-delete_key-le k rs)

  length-delete_key-lt :
      (k : Key) (rs : List (Row Raw)) → has_key k rs ≡ true → length (delete_key k rs) < length rs
  unfolding delete_key has_key
  length-delete_key-lt k [] h = cc
  length-delete_key-lt k (r ∷ rs) h =
      ground (arith, length-delete_key-le k rs, length-delete_key-lt k rs)

module _ {Raw : Type 0} (codec : Codec Raw) (max_batch_size : ℕ)
    (marshals : (d : Deposit) → (raw : Raw) × (codec.marshal d ≡ some raw)) where
  abbrev row_count : Link Raw → ℕ
  row_count s = length s.db.rows

  -- The send ended the connection, or kept the tables well formed and left at most `n` rows.
  abbrev Leaves : ℕ → Result FlushError (Unit {0}) × Link Raw → Type 0
  Leaves n x =
      ((x.0 ≢ ok tt) × (x.0 ≢ err no_fuel))
      ⊎ ((x.0 ≡ ok tt) × IsValid codec x.1.db × (row_count x.1 ≤ n))

  Leaves-mono :
      (m n : ℕ) (x : Result FlushError (Unit {0}) × Link Raw) → m ≤ n → Leaves m x → Leaves n x
  Leaves-mono m n x le (inl h) = inl h
  Leaves-mono m n x le (inr (h, v, b)) = inr (h, v, omega arith)

  send_batch-Leaves :
      (p : Pass) (i : ℕ) (ds : List Deposit) (s : Link Raw)
      → ((j : ℕ) → p.ack_fails j ≡ false)
      → IsValid codec s.db
      → Leaves (row_count s) (send_batch codec max_batch_size p i ds s)
  unfolding send_batch ack
  send_batch-Leaves p i [] s works v = inr (refl, v, omega arith)
  send_batch-Leaves p i (d ∷ ds) s works v =
      let (raw, e) = marshals d in
      rw (e, send_batch)
        (if-cases (Leaves (row_count s)) (p.write_fails i) (λ failed. inl (λ is_ok. cc, λ fuel. cc))
          (λ done.
            let t = written codec max_batch_size p i d raw s in
            Leaves-mono (row_count t) (row_count s) (send_batch codec max_batch_size p (suc i) ds t)
              (rw (works i, ack) (length-delete_key-le (key_of d) s.db.rows))
              (send_batch-Leaves p (suc i) ds t works
                (ack-IsValid codec (p.ack_fails i) (key_of d) s.db v))))

  -- The first deposit of a batch has a row, which its deletion removes.
  full_batch-Leaves :
      (p : Pass) (d : Deposit) (ds : List Deposit) (s : Link Raw) (fuel : ℕ)
      → ((j : ℕ) → p.ack_fails j ≡ false)
      → IsValid codec s.db
      → has_key (key_of d) s.db.rows ≡ true
      → row_count s ≤ suc fuel
      → Leaves fuel (send_batch codec max_batch_size p 0 (d ∷ ds) s)
  unfolding send_batch ack
  full_batch-Leaves p d ds s fuel works v there le =
      let (raw, e) = marshals d in
      let shorter = length-delete_key-lt (key_of d) s.db.rows there in
      rw (e, send_batch)
        (if-cases (Leaves fuel) (p.write_fails 0) (λ failed. inl (λ is_ok. cc, λ fuel. cc))
          (λ done.
            let t = written codec max_batch_size p 0 d raw s in
            Leaves-mono (row_count t) fuel (send_batch codec max_batch_size p 1 ds t)
              (rw (works 0, ack) (omega (arith, shorter)))
              (send_batch-Leaves p 1 ds t works
                (ack-IsValid codec (p.ack_fails 0) (key_of d) s.db v))))

  first_row :
      (n : ℕ) (d : Deposit) (ds : List Deposit) (rs : List (Row Raw))
      → map key_of (d ∷ ds) ≡ keys (take n rs)
      → has_key (key_of d) rs ≡ true
  unfolding has_key
  first_row zero d ds rs h = cc
  first_row (suc n) d ds [] h = cc
  first_row (suc n) d ds (r ∷ rs) h =
      let same : key_of d ≡ r.key = cc in rw (same, has_key) (ground (arith, eq_key_refl r.key))

  after_batch-ends :
      (count fuel : ℕ) (next : Link Raw → Result FlushError (Unit {0}) × Link Raw)
      (x : Result FlushError (Unit {0}) × Link Raw)
      → ((t : Link Raw) → IsValid codec t.db → row_count t ≤ fuel → (next t).0 ≢ err no_fuel)
      → Leaves fuel x
      → (after_batch codec max_batch_size count next x).0 ≢ err no_fuel
  unfolding after_batch
  after_batch-ends count fuel next (err e, t) h (inl (_, ends)) = ends
  after_batch-ends count fuel next (err e, t) h (inr (is_ok, _, _)) = absurd cc
  after_batch-ends count fuel next (ok _, t) h (inl (failed, _)) = absurd (failed refl)
  after_batch-ends count fuel next (ok _, t) h (inr (_, v, le)) =
      if-cases (λ (y : Result FlushError (Unit {0}) × Link Raw). y.0 ≢ err no_fuel)
        (ltb count max_batch_size) (λ last is_err. cc) (λ full. h t v le)

  after_pending-ends :
      (p : Pass) (next : Link Raw → Result FlushError (Unit {0}) × Link Raw) (ds : List Deposit)
      (s : Link Raw) (fuel : ℕ)
      → ((j : ℕ) → p.ack_fails j ≡ false)
      → ((t : Link Raw) → IsValid codec t.db → row_count t < fuel → (next t).0 ≢ err no_fuel)
      → IsValid codec s.db
      → row_count s ≤ fuel
      → map key_of ds ≡ keys (take max_batch_size s.db.rows)
      → (after_pending codec max_batch_size p next (ok ds) s).0 ≢ err no_fuel
  unfolding after_pending
  after_pending-ends p next [] s fuel works h v le e = λ is_err. cc
  after_pending-ends p next (d ∷ ds) s zero works h v le e =
      let there = first_row max_batch_size d ds s.db.rows e in
      absurd (omega (arith, length-delete_key-lt (key_of d) s.db.rows there))
  after_pending-ends p next (d ∷ ds) s (suc fuel) works h v le e =
      after_batch-ends (length (d ∷ ds)) fuel next (send_batch codec max_batch_size p 0 (d ∷ ds) s)
        (λ t w b. h t w (omega arith))
        (full_batch-Leaves p d ds s fuel works v (first_row max_batch_size d ds s.db.rows e) le)

  after_query-ends :
      (p : Pass) (fails : Bool) (next : Link Raw → Result FlushError (Unit {0}) × Link Raw)
      (s : Link Raw) (fuel : ℕ)
      → ((j : ℕ) → p.ack_fails j ≡ false)
      → ((t : Link Raw) → IsValid codec t.db → row_count t < fuel → (next t).0 ≢ err no_fuel)
      → IsValid codec s.db
      → row_count s ≤ fuel
      → (after_pending codec max_batch_size p next
          (pending_all codec fails max_batch_size s.db)
          s).0
        ≢ err no_fuel
  after_query-ends p true next s fuel works h v le =
      unfold after_pending pending_all in λ is_err. cc
  after_query-ends p false next s fuel works h v le =
      let (ds, e, k) = pending_all-ReadsAs codec max_batch_size s.db v in
      rw e (after_pending-ends p next ds s fuel works h v le k)

  -- Where json reads back what it wrote, every deposit marshals and no deletion fails: from
  -- well-formed tables `flushUntilEmpty` ends within `fuel` rounds, whatever the other statements do,
  -- if the rows at the start and the deposits that scanners insert during these rounds are fewer.
  pub flush_until_empty-ends :
      (f : IsFaithful codec) (ps : ℕ → Pass) (n fuel : ℕ) (s : Link Raw)
      → ((m j : ℕ) → (ps m).ack_fails j ≡ false)
      → IsValid codec s.db
      → row_count s + arriving ps n fuel < fuel
      → (flush_until_empty codec max_batch_size fuel ps n s).0 ≢ err no_fuel
  unfolding flush_until_empty
  flush_until_empty-ends f ps n zero s works v lt = absurd (omega arith)
  flush_until_empty-ends f ps n (suc fuel) s works v lt =
      if-cases (λ (y : Result FlushError (Unit {0}) × Link Raw). y.0 ≢ err no_fuel) (ps n).ended
        (λ over is_err. cc)
        (λ more.
          let vs = (ps n).saves in
          let t : Link Raw = record s { db = run_saves codec vs s.db } in
          let grown = length-run_saves codec vs s.db in
          after_query-ends (ps n) (ps n).query_fails
            (flush_until_empty codec max_batch_size fuel ps (suc n)) t (row_count s + saved vs)
            (works n)
            (λ u w b. flush_until_empty-ends f ps (suc n) fuel u works w (omega (arith, b)))
            (run_saves-IsValid codec f vs s.db v) grown)
