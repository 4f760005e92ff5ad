-- ===== src/Scanner/Loop/Machine/Adds.antt =====
-- A turn of a polling loop deletes no row of the buffer and moves no cursor but its own.
use listener_go.Prelude.{
  ℕ, ℤ, eq_ℤ_iff, eq_text_iff, Text, ◌≡◌, refl, ap, inl, inr, true, ◌&&◌, ltb, leb, List, [],
  Result, ok, err, if-cases, arith,
}
use listener_go.Model.{DepositEvent, Deposit, TimeFormats}
use listener_go.Retry.{GoError}
use listener_go.Database.Tables.{Key, Db, select_cursor, has_key}
use listener_go.Database.Buffer.{Codec, Outcomes, DbError, save_and_advance}
use listener_go.Database.Buffer.Atomic.{save_and_advance-atomic}
use listener_go.Scanner.Loop.{
  LoopConfig, LoopId, Poll, PollError, convert_events, confirmations_at, wrap_save, wrap_init,
  process_events, process_block,
}
use listener_go.Scanner.Loop.Machine.{
  Phase, idle, initializing, scanning, ended, move_on, finish_init, turn,
}

module _ {Raw : Type 0} where
  -- No row goes, and the cursors of the other loops stay.
  pub record Adds (l : LoopId) (db db' : Db Raw) : Type 0 where
    pub keeps : (k : Key) → has_key k db.rows ≡ true → has_key k db'.rows ≡ true
    pub others :
        (chain_id : ℤ) (name : Text)
        → (chain_id ≡ l.chain_id → name ≡ l.name → ⊥)
        → select_cursor chain_id name db'.cursors ≡ select_cursor chain_id name db.cursors

  Adds-refl : (l : LoopId) (db : Db Raw) → Adds l db db
  Adds-refl l db = record { keeps = λ k h. h; others = λ chain_id name ne. refl }

  save_and_advance-Adds :
      (codec : Codec Raw) (now : ℕ) (o : Outcomes) (l : LoopId) (block : ℕ) (ds : List Deposit)
      (db : Db Raw)
      → Adds l db (save_and_advance codec now o l.chain_id l.name block ds db).1
  save_and_advance-Adds codec now o l block ds db =
      elim (save_and_advance-atomic codec now o l.chain_id l.name block ds db) [
        | inl (u, _) ↦ record {
          keeps = λ k h. rw u.rows h;
          others = λ chain_id name ne. ap (select_cursor chain_id name) u.cursors;
        }
        | inr (r, _) ↦ record {
          keeps = λ k h. ground (arith, r.rows k);
          others = λ chain_id name ne. ground (
            arith,
            r.cursors chain_id name,
            eq_ℤ_iff l.chain_id chain_id,
            eq_text_iff l.name name,
            ne,
          );
        }
      ]

module _ {Raw Time : Type 0} (codec : Codec Raw) (fmt : TimeFormats Time) (cfg : LoopConfig)
    (l : LoopId) (p : Poll Time) where
  wrap_save-Adds :
      (block : ℕ) (db : Db Raw) (x : Result DbError (Unit {0}) × Db Raw)
      → Adds l db x.1
      → Adds l db (wrap_save block x).1
  unfolding wrap_save
  wrap_save-Adds block db (ok _, db') h = h
  wrap_save-Adds block db (err e, db') h = h

  wrap_init-Adds :
      (db : Db Raw) (x : Result DbError (Unit {0}) × Db Raw)
      → Adds l db x.1
      → Adds l db (wrap_init x).1
  unfolding wrap_init
  wrap_init-Adds db (ok _, db') h = h
  wrap_init-Adds db (err e, db') h = h

  process_events-Adds :
      (block : ℕ) (r : Result GoError (List DepositEvent)) (db : Db Raw)
      → Adds l db (process_events codec fmt cfg l p block r db).1
  unfolding process_events
  process_events-Adds block (err e) db = Adds-refl l db
  process_events-Adds block (ok events) db = wrap_save-Adds block db _ (
      save_and_advance-Adds codec (p.clock block) (p.outcomes block) l block
        (convert_events fmt (p.now block) cfg.min_confirmations events) db)

  move_on-Adds :
      (latest end_block block : ℕ) (db : Db Raw) (x : Result PollError (Unit {0}) × Db Raw)
      → Adds l db x.1
      → Adds l db (move_on codec fmt cfg l p latest end_block block x).1
  unfolding move_on
  move_on-Adds latest end_block block db (err e, db') h = h
  move_on-Adds latest end_block block db (ok _, db') h =
      if-cases (λ (x : Phase × Db Raw). Adds l db x.1) (ltb block end_block && p.stop block)
        (λ t. h) (λ f. h)

  finish_init-Adds :
      (db : Db Raw) (x : Result PollError (Unit {0}) × Db Raw)
      → Adds l db x.1
      → Adds l db (finish_init codec fmt cfg l p x).1
  unfolding finish_init
  finish_init-Adds db (r, db') h = h

  process_block-Adds :
      (latest block : ℕ) (db : Db Raw)
      → Adds l db (process_block codec fmt cfg l p latest block db).1
  unfolding process_block
  process_block-Adds latest block db =
      process_events-Adds block (p.scan block (confirmations_at latest block)) db

  -- In any phase, whatever fails: a turn deletes no row and moves no other cursor.
  pub turn-Adds : (ph : Phase) (db : Db Raw) → Adds l db (turn codec fmt cfg l p ph db).1
  unfolding turn
  turn-Adds idle db = Adds-refl l db
  turn-Adds (initializing m) db =
      finish_init-Adds db
        (wrap_init (save_and_advance codec (p.clock m) (p.outcomes m) l.chain_id l.name m [] db))
        (wrap_init-Adds db
          (save_and_advance codec (p.clock m) (p.outcomes m) l.chain_id l.name m [] db)
          (save_and_advance-Adds codec (p.clock m) (p.outcomes m) l m [] db))
  turn-Adds (scanning latest end_block block) db =
      if-cases (λ (x : Phase × Db Raw). Adds l db x.1) (leb block end_block)
        (λ t.
          move_on-Adds latest end_block block db (process_block codec fmt cfg l p latest block db)
            (process_block-Adds latest block db))
        (λ f. Adds-refl l db)
  turn-Adds (ended r) db = Adds-refl l db
