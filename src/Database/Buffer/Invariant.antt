-- ===== src/Database/Buffer/Invariant.antt =====
-- The well-formedness of the tables: ids rise, no key is there twice, and a payload reads back as
-- a deposit with the key of its row. Every method keeps it.
use mathlib.Core.Path.{subst}
use listener_go.Prelude.{
  ℕ, suc, ℤ, Text, ◌≡◌, refl, ap, inl, inr, Bool, true, false, some, List, [], ◌∷◌, ◌++◌, Result,
  ok, to_int64, if-cases, arith, All,
}
use listener_go.Model.{Deposit}
use listener_go.Database.Tables.{Key, eq_key, Row, Db, has_key, add_row, insert_ignore, delete_key}
use listener_go.Database.Tables.Keys.{has_key-append, has_key-delete_key, eq_key_comm}
use listener_go.Database.Tables.Order.{
  Ascending, Below, Below-mono, add_row-Ascending, add_row-Below, delete_key-Ascending,
  delete_key-Below,
}
use listener_go.Database.Buffer.{
  Codec, IsFaithful, Outcomes, DbError, key_of, insert_all, save_and_advance, ack,
}
use listener_go.Database.Buffer.Transaction.{insert_all-cons, save-cases}

module _ {Raw : Type 0} where
  abbrev pub Distinct : List (Row Raw) → Type 0
  Distinct [] = Unit
  Distinct (r ∷ rs) = (has_key r.key rs ≡ false) × Distinct rs

  Distinct-append :
      (rs : List (Row Raw)) (r : Row Raw)
      → Distinct rs
      → has_key r.key rs ≡ false
      → Distinct (rs ++ r ∷ [])
  unfolding has_key
  Distinct-append [] r d h = (refl, tt)
  Distinct-append (s ∷ rs) r d h = (
    ground (arith, has_key-append s.key rs (r ∷ []), eq_key_comm r.key s.key),
    Distinct-append rs r d.1 (ground arith),
  )

  add_row-Distinct : (r : Row Raw) (rs : List (Row Raw)) → Distinct rs → Distinct (add_row r rs)
  unfolding add_row
  add_row-Distinct r rs d =
      if-cases Distinct (has_key r.key rs) (λ old. d) (λ new. Distinct-append rs r d new)

  delete_key-Distinct : (k : Key) (rs : List (Row Raw)) → Distinct rs → Distinct (delete_key k rs)
  unfolding delete_key
  delete_key-Distinct k [] d = tt
  delete_key-Distinct k (r ∷ rs) d =
      ground (arith, delete_key-Distinct k rs d.1, has_key-delete_key r.key k rs)

module _ {Raw : Type 0} (codec : Codec Raw) where
  -- The payload reads back, as a deposit with the row's key.
  abbrev pub Reads : Row Raw → Type 0
  Reads r = (d : Deposit) × (codec.unmarshal r.payload ≡ some d) × (key_of d ≡ r.key)

  add_row-Reads :
      (r : Row Raw) (rs : List (Row Raw)) → Reads r → All Reads rs → All Reads (add_row r rs)
  unfolding add_row
  add_row-Reads r rs one all =
      if-cases (All Reads) (has_key r.key rs) (λ old. all) (λ new. go rs all)
    where
      go : (ss : List (Row Raw)) → All Reads ss → All Reads (ss ++ r ∷ [])
      go [] h = (one, tt)
      go (s ∷ ss) h = (h.0, go ss h.1)

  delete_key-Reads : (k : Key) (rs : List (Row Raw)) → All Reads rs → All Reads (delete_key k rs)
  unfolding delete_key
  delete_key-Reads k [] h = tt
  delete_key-Reads k (r ∷ rs) h =
      if-cases (All Reads) (eq_key r.key k) (λ gone. delete_key-Reads k rs h.1)
        (λ kept. (h.0, delete_key-Reads k rs h.1))

  pub record IsValid (db : Db Raw) : Type 0 where
    pub ascending : Ascending 0 db.rows
    pub below : Below db.next_id db.rows
    pub distinct : Distinct db.rows
    pub readable : All Reads db.rows

  insert_ignore-IsValid :
      (d : Deposit) (payload : Raw) (block : ℤ) (now : ℕ) (db : Db Raw)
      → codec.unmarshal payload ≡ some d
      → IsValid db
      → IsValid (insert_ignore (key_of d) payload block now db)
  unfolding insert_ignore
  insert_ignore-IsValid d payload block now db reads v =
      let r : Row Raw = record {
        id = db.next_id;
        key = key_of d;
        payload = payload;
        block_number = some block;
        created_at = now;
      } in
      record {
        ascending = add_row-Ascending r db.rows v.ascending v.below;
        below = add_row-Below r db.rows v.below;
        distinct = add_row-Distinct r db.rows v.distinct;
        readable = add_row-Reads r db.rows (d, reads, refl) v.readable;
      }

  -- Ack keeps the tables well formed, whether its statement fails or not.
  pub ack-IsValid : (fails : Bool) (k : Key) (db : Db Raw) → IsValid db → IsValid (ack fails k db).1
  unfolding ack
  ack-IsValid true k db v = v
  ack-IsValid false k db v = record {
    ascending = delete_key-Ascending 0 k db.rows v.ascending;
    below = delete_key-Below db.next_id k db.rows v.below;
    distinct = delete_key-Distinct k db.rows v.distinct;
    readable = delete_key-Reads k db.rows v.readable;
  }

module _ {Raw : Type 0} (codec : Codec Raw) (f : IsFaithful codec) (now : ℕ) (o : Outcomes) where
  insert_all-IsValid :
      (i : ℕ) (block : ℤ) (ds : List Deposit) (db work : Db Raw)
      → insert_all codec now o i block ds db ≡ (ok tt, work)
      → IsValid codec db
      → IsValid codec work
  unfolding insert_all
  insert_all-IsValid i block [] db work h v =
      subst (IsValid codec) (ap (λ (x : Result DbError (Unit {0}) × Db Raw). x.1) h) v
  insert_all-IsValid i block (d ∷ ds) db work h v =
      let (raw, e, rest) = insert_all-cons codec now o i block d ds db work h in
      insert_all-IsValid (suc i) block ds (insert_ignore (key_of d) raw block now db) work rest
        (insert_ignore-IsValid codec d raw block now db (f.round_trip d raw e) v)

  -- Whichever statement fails, SaveAndAdvance leaves well-formed tables.
  pub save_and_advance-IsValid :
      (chain_id : ℤ) (scanner : Text) (block : ℕ) (ds : List Deposit) (db : Db Raw)
      → IsValid codec db
      → IsValid codec (save_and_advance codec now o chain_id scanner block ds db).1
  save_and_advance-IsValid chain_id scanner block ds db v =
      elim (save-cases codec now o chain_id scanner block ds db) [
        | inl (e, n, eq, le) ↦ rw eq (record {
          ascending = v.ascending;
          below = Below-mono db.next_id n db.rows le v.below;
          distinct = v.distinct;
          readable = v.readable;
        })
        | inr (work, h, eq, _) ↦
            let w = insert_all-IsValid 0 (to_int64 block) ds db work h v in
            rw eq (record {
              ascending = w.ascending;
              below = w.below;
              distinct = w.distinct;
              readable = w.readable;
            })
      ]
