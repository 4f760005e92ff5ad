-- ===== src/Scanner/Loop/First.antt =====
-- The first cycle of a scanner, and the cycles that find nothing to do.
use listener_go.Prelude.{
  ℕ, ◌-◌, ◌≤◌, ◌<◌, u64, to_uint64, ◌≡◌, ◌≢◌, refl, sym, ◌⊎◌, inl, inr, Bool, false, leb, [],
  Result, ok, err, if-cases, arith,
}
use mathlib.Core.Path.{subst}
use listener_go.Model.{TimeFormats}
use listener_go.Retry.{retry}
use listener_go.Database.Tables.{Key, Db, has_key}
use listener_go.Database.Buffer.{Codec, DbError, cursor}
use listener_go.Database.Buffer.Transaction.{any_key}
use listener_go.Database.Buffer.Atomic.{
  IsUnchanged, IsRecorded, save_and_advance-atomic, cursor-IsRecorded, cursor-IsUnchanged,
}
use listener_go.Scanner.Loop.{
  LoopConfig, LoopId, Poll, PollError, wrap_init, after_cursor, poll_once,
}

module _ {Raw Time : Type 0} (codec : Codec Raw) (fmt : TimeFormats Time) (cfg : LoopConfig)
    (l : LoopId) (p : Poll Time) where
  -- The keys in the buffer are as before, and the cursor is new or, at an error, as before.
  abbrev pub Starts : ℕ → Db Raw → Result PollError (Unit {0}) × Db Raw → Type 0
  Starts head db x =
      ((k : Key) → has_key k x.1.rows ≡ has_key k db.rows)
      × ((cursor false l.chain_id l.name x.1 ≡ ok head)
          ⊎ (cursor false l.chain_id l.name x.1 ≡ cursor false l.chain_id l.name db))
      × ((x.0 ≢ ok tt) ⊎ (cursor false l.chain_id l.name x.1 ≡ ok head))

  wrap_init-Starts :
      (head : ℕ) (db : Db Raw) (x : Result DbError (Unit {0}) × Db Raw)
      → head < u64
      → (IsUnchanged db x.1 × (x.0 ≡ ok tt → ⊥)) ⊎ IsRecorded l.chain_id l.name head [] db x.1
      → Starts head db (wrap_init x)
  unfolding wrap_init
  wrap_init-Starts head db (ok _, db') fits (inl (u, failed)) = absurd (failed refl)
  wrap_init-Starts head db (err e, db') fits (inl (u, failed)) =
      (λ k. rw u.rows, inr (cursor-IsUnchanged l.chain_id l.name db db' u), inl (λ is_ok. cc))
  wrap_init-Starts head db (ok _, db') fits (inr r) =
      let c = cursor-IsRecorded l.chain_id l.name head [] db db' fits r in
      (λ k. unfold any_key in ground (arith, r.rows k), inl c, inr c)
  wrap_init-Starts head db (err e, db') fits (inr r) =
      let c = cursor-IsRecorded l.chain_id l.name head [] db db' fits r in
      (λ k. unfold any_key in ground (arith, r.rows k), inl c, inr c)

  -- The first cycle of a scanner, whose cursor reads 0, where the node reports a head of uint64 with
  -- enough confirmations: the buffer holds the same keys afterwards; without an error the cursor stands
  -- at the last confirmed block; at an error it stands there or has not moved.
  pub poll_once-Starts :
      (latest : ℕ) (db : Db Raw)
      → (retry cfg.retry_options p.ctx_err p.cut p.block_number 0).result ≡ ok latest
      → latest < u64
      → to_uint64 cfg.min_confirmations ≤ latest
      → p.cursor_fails ≡ false
      → cursor false l.chain_id l.name db ≡ ok 0
      → Starts (latest - to_uint64 cfg.min_confirmations) db (poll_once codec fmt cfg l p db)
  unfolding poll_once
  poll_once-Starts latest db answer fits enough readable first =
      let head = latest - to_uint64 cfg.min_confirmations in
      let reads : cursor p.cursor_fails l.chain_id l.name db ≡ ok 0 =
        subst (λ (b : Bool). cursor b l.chain_id l.name db ≡ ok 0) (sym readable) first in
      rw (answer, poll_once)
        (if-cases (Starts head db) (leb (to_uint64 cfg.min_confirmations) latest)
          (λ _.
            rw (reads, after_cursor)
              (wrap_init-Starts head db _ (omega arith)
                (elim (save_and_advance-atomic codec (p.clock head) (p.outcomes head) l.chain_id
                  l.name head [] db) [ inl (u, failed) ↦ inl (u, failed) | inr (r, _) ↦ inr r ])))
          (λ short. absurd (ground arith)))
