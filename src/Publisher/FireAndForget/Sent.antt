-- ===== src/Publisher/FireAndForget/Sent.antt =====
-- In the fire-and-forget mode a row leaves the buffer only after its frame was written.
use listener_go.Prelude.{
  ℕ, zero, suc, ◌≡◌, refl, ◌⊎◌, inl, inr, Bool, true, false, ltb, some, Option-cases, List, [], ◌∷◌,
  ◌++◌, length, Result, ok, err, if-cases, arith,
}
use listener_go.Model.{Deposit}
use listener_go.Database.Tables.{Key, has_key}
use listener_go.Database.Tables.Keys.{eq_key_iff, has_key-delete_key}
use listener_go.Database.Buffer.{Codec, DbError, key_of, pending_all, ack}
use listener_go.Publisher.FireAndForget.Arrivals.{has_key-run_saves}
use listener_go.Publisher.FireAndForget.{
  FlushError, Save, Pass, Link, run_saves, FlushEvent, drain_rest, reader_failed, woken, ping_due,
  poll_due, written, send_batch, after_batch, after_pending, flush_until_empty, flush_step,
  go_on_if_ok, flush_events, drain_fire_and_forget,
}

module _ {Raw : Type 0} (codec : Codec Raw) (max_batch_size : ℕ) where
  -- A frame of the list is the payload of a deposit with this key.
  abbrev pub WasSent : Key → List Raw → Type 0
  WasSent k [] = ⊥
  WasSent k (raw ∷ rest) =
      ((d : Deposit) × (codec.marshal d ≡ some raw) × (key_of d ≡ k)) ⊎ WasSent k rest

  WasSent-left : (k : Key) (xs ys : List Raw) → WasSent k xs → WasSent k (xs ++ ys)
  WasSent-left k [] ys h = absurd h
  WasSent-left k (raw ∷ xs) ys (inl h) = inl h
  WasSent-left k (raw ∷ xs) ys (inr h) = inr (WasSent-left k xs ys h)

  WasSent-last :
      (xs : List Raw) (d : Deposit) (raw : Raw)
      → codec.marshal d ≡ some raw
      → WasSent (key_of d) (xs ++ raw ∷ [])
  WasSent-last [] d raw h = inl (d, h, refl)
  WasSent-last (x ∷ xs) d raw h = inr (WasSent-last xs d raw h)

  -- A row of `s` is still in `s'` or was sent, and what was sent stays sent.
  abbrev Accounts : Link Raw → Link Raw → Type 0
  Accounts s s' =
      ((k : Key) → has_key k s.db.rows ≡ true → (has_key k s'.db.rows ≡ true) ⊎ WasSent k s'.sent)
      × ((k : Key) → WasSent k s.sent → WasSent k s'.sent)

  Accounts-refl : (s : Link Raw) → Accounts s s
  Accounts-refl s = (λ k h. inl h, λ k h. h)

  Accounts-trans : (s t u : Link Raw) → Accounts s t → Accounts t u → Accounts s u
  Accounts-trans s t u (a, b) (c, d) =
      (λ k h. elim (a k h) [ inl h' ↦ c k h' | inr sent ↦ inr (d k sent) ], λ k h. d k (b k h))

  ack-row :
      (fails : Bool) (d : Deposit) (k : Key) (s : Link Raw)
      → has_key k s.db.rows ≡ true
      → (has_key k (ack fails (key_of d) s.db).1.rows ≡ true) ⊎ (key_of d ≡ k)
  unfolding ack
  ack-row true d k s h = inl h
  ack-row false d k s h =
      ground (arith, has_key-delete_key k (key_of d) s.db.rows, eq_key_iff k (key_of d))

  written-Accounts :
      (p : Pass) (i : ℕ) (d : Deposit) (raw : Raw) (s : Link Raw)
      → codec.marshal d ≡ some raw
      → Accounts s (written codec max_batch_size p i d raw s)
  written-Accounts p i d raw s e = (
    λ k h. elim (ack-row (p.ack_fails i) d k s h) [
      | inl h' ↦ inl h'
      | inr same ↦ inr (rw (← same) (WasSent-last s.sent d raw e))
    ],
    λ k h. WasSent-left k s.sent (raw ∷ []) h,
  )

  abbrev To : Link Raw → Result FlushError (Unit {0}) × Link Raw → Type 0
  To s x = Accounts s x.1

  send_batch-Accounts :
      (p : Pass) (i : ℕ) (ds : List Deposit) (s : Link Raw)
      → To s (send_batch codec max_batch_size p i ds s)
  unfolding send_batch
  send_batch-Accounts p i [] s = Accounts-refl s
  send_batch-Accounts p i (d ∷ ds) s = elim (Option-cases (codec.marshal d)) [
    | inl e ↦ rw (e, send_batch) (send_batch-Accounts p (suc i) ds s)
    | inr (raw, e) ↦
        rw (e, send_batch)
          (if-cases (To s) (p.write_fails i) (λ failed. Accounts-refl s)
            (λ done.
              let t = written codec max_batch_size p i d raw s in
              Accounts-trans s t (send_batch codec max_batch_size p (suc i) ds t).1
                (written-Accounts p i d raw s e) (send_batch-Accounts p (suc i) ds t)))
  ]

  after_batch-Accounts :
      (count : ℕ) (next : Link Raw → Result FlushError (Unit {0}) × Link Raw) (s : Link Raw)
      (x : Result FlushError (Unit {0}) × Link Raw)
      → ((t : Link Raw) → To t (next t))
      → To s x
      → To s (after_batch codec max_batch_size count next x)
  unfolding after_batch
  after_batch-Accounts count next s (err e, t) h a = a
  after_batch-Accounts count next s (ok _, t) h a =
      if-cases (To s) (ltb count max_batch_size) (λ last. a)
        (λ full. Accounts-trans s t (next t).1 a (h t))

  after_pending-Accounts :
      (p : Pass) (next : Link Raw → Result FlushError (Unit {0}) × Link Raw)
      (r : Result DbError (List Deposit)) (s : Link Raw)
      → ((t : Link Raw) → To t (next t))
      → To s (after_pending codec max_batch_size p next r s)
  unfolding after_pending
  after_pending-Accounts p next (err x) s h = Accounts-refl s
  after_pending-Accounts p next (ok []) s h = Accounts-refl s
  after_pending-Accounts p next (ok (d ∷ ds)) s h =
      after_batch-Accounts (length (d ∷ ds)) next s _ h (send_batch-Accounts p 0 (d ∷ ds) s)

  saves-Accounts :
      (vs : List Save) (s : Link Raw) → Accounts s (record s { db = run_saves codec vs s.db })
  saves-Accounts vs s = (λ k h. inl (has_key-run_saves codec vs s.db k h), λ k h. h)

  flush-Accounts :
      (fuel : ℕ) (ps : ℕ → Pass) (n : ℕ) (s : Link Raw)
      → To s (flush_until_empty codec max_batch_size fuel ps n s)
  unfolding flush_until_empty
  flush-Accounts zero ps n s = Accounts-refl s
  flush-Accounts (suc fuel) ps n s =
      if-cases (To s) (ps n).ended (λ done. Accounts-refl s)
        (λ more.
          let t : Link Raw = record s { db = run_saves codec (ps n).saves s.db } in
          let next = flush_until_empty codec max_batch_size fuel ps (suc n) in
          let read = pending_all codec (ps n).query_fails max_batch_size t.db in
          Accounts-trans s t (after_pending codec max_batch_size (ps n) next read t).1
            (saves-Accounts (ps n).saves s)
            (after_pending-Accounts (ps n) next read t (λ u. flush-Accounts fuel ps (suc n) u)))

  flush_step-Accounts :
      (fuel : ℕ) (e : FlushEvent) (s : Link Raw) → To s (flush_step codec max_batch_size fuel e s)
  unfolding flush_step
  flush_step-Accounts fuel (drain_rest ps) s = flush-Accounts fuel ps 0 s
  flush_step-Accounts fuel reader_failed s = Accounts-refl s
  flush_step-Accounts fuel (woken ps) s = flush-Accounts fuel ps 0 s
  flush_step-Accounts fuel (ping_due fails) s =
      if-cases (To s) fails (λ lost. Accounts-refl s) (λ done. Accounts-refl s)
  flush_step-Accounts fuel (poll_due ps) s = flush-Accounts fuel ps 0 s

  go_on-Accounts :
      (next : Link Raw → Result FlushError (Unit {0}) × Link Raw) (s : Link Raw)
      (x : Result FlushError (Unit {0}) × Link Raw)
      → ((t : Link Raw) → To t (next t))
      → To s x
      → To s (go_on_if_ok codec max_batch_size next x)
  unfolding go_on_if_ok
  go_on-Accounts next s (ok _, t) h a = Accounts-trans s t (next t).1 a (h t)
  go_on-Accounts next s (err x, t) h a = a

  flush_events-Accounts :
      (fuel : ℕ) (es : List FlushEvent) (s : Link Raw)
      → To s (flush_events codec max_batch_size fuel es s)
  unfolding flush_events
  flush_events-Accounts fuel [] s = Accounts-refl s
  flush_events-Accounts fuel (e ∷ es) s =
      go_on-Accounts (flush_events codec max_batch_size fuel es) s _
        (λ t. flush_events-Accounts fuel es t) (flush_step-Accounts fuel e s)

  -- One connection in the fire-and-forget mode, for every sequence of events and failures,
  -- while scanners write the same tables: a deposit that was in the buffer is still there at the end,
  -- or a frame with it was written.
  pub drain_fire_and_forget-WasSent :
      (fuel : ℕ) (first : ℕ → Pass) (es : List FlushEvent) (s : Link Raw) (k : Key)
      → has_key k s.db.rows ≡ true
      → let t = (drain_fire_and_forget codec max_batch_size fuel first es s).1 in
        (has_key k t.db.rows ≡ true) ⊎ WasSent k t.sent
  unfolding drain_fire_and_forget
  drain_fire_and_forget-WasSent fuel first es s k h =
      (go_on-Accounts (flush_events codec max_batch_size fuel es) s _
          (λ t. flush_events-Accounts fuel es t) (flush-Accounts fuel first 0 s)).0
        k h
