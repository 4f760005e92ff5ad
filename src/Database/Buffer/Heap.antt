-- ===== src/Database/Buffer/Heap.antt =====
-- The rows of deposit_buffer in whatever order the server holds them, and what PendingAll makes of it.
use mathlib.Core.List.{
  Nodup, Nodup-nil, Nodup-cons, Permᴰ, Mem, mem-cons_self, not-mem-nil, eq-or-mem_of_mem-cons,
}
use mathlib.Core.List.Perm
use mathlib.Core.HLevel.{⊥_prop}
use mathlib.Core.Logic.Or
use listener_go.Prelude.{
  ℕ, suc, ◌<◌, ◌≡◌, ◌≢◌, refl, sym, ap, ◌∙◌, false, some, List, [], ◌∷◌, map, take, ok, All, arith,
}
use listener_go.Model.{Deposit}
use listener_go.Database.Tables.{Row, Db, insert_by_id, order_by_id}
use listener_go.Database.Tables.Order.{Ascending, order_by_id-Ascending}
use listener_go.Database.Buffer.{Codec, scan_deposits, pending_all}
use listener_go.Database.Buffer.Invariant.{Reads, IsValid}
use listener_go.Database.Buffer.Reads.{take-Reads}

module _ {Raw : Type 0} where
  abbrev ids : List (Row Raw) → List ℕ
  ids = map (λ r. r.id)

  insert_by_id-swap :
      (x y : Row Raw) (l : List (Row Raw))
      → x.id ≢ y.id
      → insert_by_id x (insert_by_id y l) ≡ insert_by_id y (insert_by_id x l)
  unfolding insert_by_id
  insert_by_id-swap x y [] different = ground arith
  insert_by_id-swap x y (z ∷ l) different = ground (arith, insert_by_id-swap x y l)

  order_by_id-Permᴰ :
      {l l' : List (Row Raw)} → Permᴰ l l' → Nodup (ids l) → order_by_id l ≡ order_by_id l'
  unfolding order_by_id
  order_by_id-Permᴰ Permᴰ.nil different = refl
  order_by_id-Permᴰ (Permᴰ.cons e p) different =
      rw (e, order_by_id-Permᴰ p (Nodup-cons.0 different).1) refl
  order_by_id-Permᴰ (Permᴰ.swap {a} {b} {l = l} e k) different =
      rw (← e, ← k)
        (insert_by_id-swap a b (order_by_id l)
          (λ same. (Nodup-cons.0 different).0 (rw same mem-cons_self)))
  order_by_id-Permᴰ (Permᴰ.trans p q) different =
      order_by_id-Permᴰ p different
      ∙ order_by_id-Permᴰ q (Perm.nodup (Perm.map (λ r. r.id) ∣ p ∣₁) different)

  -- An id below all ids of the rows is none of them.
  low-not_Mem : (low n : ℕ) (rs : List (Row Raw)) → Ascending low rs → n < low → Mem n (ids rs) → ⊥
  low-not_Mem low n [] a lt m = not-mem-nil m
  low-not_Mem low n (r ∷ rs) (le, a) lt m =
      Or.elim ⊥_prop (eq-or-mem_of_mem-cons m) (λ same. absurd (omega arith))
        (low-not_Mem (suc r.id) n rs a (omega arith))

  ids-Nodup : (low : ℕ) (rs : List (Row Raw)) → Ascending low rs → Nodup (ids rs)
  ids-Nodup low [] a = Nodup-nil
  ids-Nodup low (r ∷ rs) a =
      Nodup-cons.1 (low-not_Mem (suc r.id) r.id rs a.1 (omega arith), ids-Nodup (suc r.id) rs a.1)

module _ {Raw : Type 0} (codec : Codec Raw) where
  -- The payloads of these rows read back as these deposits, one by one.
  abbrev pub ReadBack : List (Row Raw) → List Deposit → Type 0
  ReadBack [] [] = Unit
  ReadBack (r ∷ rs) (d ∷ ds) = (codec.unmarshal r.payload ≡ some d) × ReadBack rs ds
  ReadBack rs ds = ⊥

  scan_deposits-ReadBack :
      (rs : List (Row Raw))
      → All (Reads codec) rs
      → (ds : List Deposit) × (scan_deposits codec rs ≡ ok ds) × ReadBack rs ds
  unfolding scan_deposits
  scan_deposits-ReadBack [] h = ([], refl, tt)
  scan_deposits-ReadBack (r ∷ rs) ((d, e, k), h) =
      let (ds, e', back) = scan_deposits-ReadBack rs h in (d ∷ ds, ground arith, (e, back))

  -- From well-formed tables, in whatever order the server holds the rows: PendingAll returns what the
  -- payloads of the oldest rows, up to the limit, read back as, from the oldest to the newest.
  pub pending_all-ReadBack :
      (limit : ℕ) (db : Db Raw) (heap : List (Row Raw))
      → IsValid codec db
      → Permᴰ db.rows heap
      → (ds : List Deposit) × (pending_all codec false limit (record db { rows = heap }) ≡ ok ds)
        × ReadBack (take limit db.rows) ds
  unfolding pending_all
  pending_all-ReadBack limit db heap v order =
      let different = ids-Nodup 0 db.rows v.ascending in
      let sorted : order_by_id heap ≡ db.rows =
        sym (order_by_id-Permᴰ order different) ∙ order_by_id-Ascending 0 db.rows v.ascending in
      let (ds, read, back) =
        scan_deposits-ReadBack (take limit db.rows) (take-Reads codec limit db.rows v.readable) in
      (ds, ap (λ l. scan_deposits codec (take limit l)) sorted ∙ read, back)
