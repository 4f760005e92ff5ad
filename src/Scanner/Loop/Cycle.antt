-- ===== src/Scanner/Loop/Cycle.antt =====
-- A whole polling cycle.
use Prim.Native.Nat.{min, max}
use listener_go.Prelude.{
  ℕ, suc, ◌+◌, ◌-◌, ◌%◌, ◌≤◌, ◌<◌, pos, u64, to_uint64, ◌≡◌, ◌≢◌, refl, ◌⊎◌, inl, inr, Bool, true,
  false, leb, ltb, ◌==◌, Result, ok, err, if-cases, arith,
}
use listener_go.Model.{TimeFormats}
use listener_go.Retry.{retry}
use listener_go.Database.Tables.{Db}
use listener_go.Database.Buffer.{Codec, DbError, query_failed, cursor}
use listener_go.Scanner.Loop.{
  LoopConfig, LoopId, Poll, PollError, out_of_fuel, end_of_range, from_cursor, after_cursor,
  poll_once,
}
use listener_go.Scanner.Loop.Advance.{Advanced, Advanced-refl, scan_blocks-RunsTo}

-- Where a cycle takes the cursor: up to `max_blocks` further, never beyond the confirmed head, and
-- never back.
abbrev pub target : ℕ → ℕ → ℕ → ℕ
target c max_blocks max_confirmed = max c (min (c + max_blocks) max_confirmed)

end_of_range-min :
    (cfg : LoopConfig) (m max_confirmed c : ℕ)
    → cfg.max_blocks_per_poll ≡ pos m
    → max_confirmed + m + 2 < u64
    → c < max_confirmed
    → end_of_range cfg max_confirmed (suc c) ≡ min (c + m) max_confirmed
unfolding end_of_range to_uint64
end_of_range-min cfg m max_confirmed c h fits lt = rw (h, to_uint64) (ground arith)

module _ {Raw Time : Type 0} (codec : Codec Raw) (fmt : TimeFormats Time) (cfg : LoopConfig)
    (l : LoopId) (p : Poll Time) (latest m : ℕ) (blocks : cfg.max_blocks_per_poll ≡ pos m)
    (fits : latest + m + 2 < u64) where
  -- The cursor moves forward from `c`, not beyond the target, and to it at a success.
  abbrev pub Polls : ℕ → ℕ → Db Raw → Result PollError (Unit {0}) × Db Raw → Type 0
  Polls c max_confirmed db x =
      (c' : ℕ) × Advanced codec fmt cfg l p latest c c' db x.1
      × (c' ≤ target c m max_confirmed)
      × (x.0 ≡ ok tt → c' ≡ target c m max_confirmed)
      × (x.0 ≢ err out_of_fuel)

  from_cursor-Polls :
      (c max_confirmed : ℕ) (db : Db Raw)
      → c ≢ 0
      → max_confirmed ≤ latest
      → c < u64 - 1
      → cursor false l.chain_id l.name db ≡ ok c
      → Polls c max_confirmed db (from_cursor codec fmt cfg l p latest max_confirmed c db)
  unfolding from_cursor
  from_cursor-Polls c max_confirmed db pos_c le small h =
      let step : (c + 1) % u64 ≡ suc c = omega arith in
      rw (step, from_cursor)
        (if-cases (Polls c max_confirmed db) (c == 0) (λ zero_c. absurd (pos_c (ground arith)))
          (λ _.
            if-cases (Polls c max_confirmed db) (ltb max_confirmed (suc c))
              (λ none_new. (
                c,
                Advanced-refl codec fmt cfg l p latest c db h,
                omega arith,
                λ _. ground arith,
                λ is_fuel. cc,
              ))
              (λ some_new.
                let lt : c < max_confirmed = ground arith in
                let e = end_of_range-min cfg m max_confirmed c blocks (omega arith) lt in
                let (c', a, le', reach, nf) =
                  scan_blocks-RunsTo codec fmt cfg l p latest
                    (suc (suc (end_of_range cfg max_confirmed (suc c)) - suc c)) c
                    (end_of_range cfg max_confirmed (suc c)) db (omega arith) (omega arith)
                    (omega arith) h in
                (c', a, omega arith, λ is_ok. omega (arith, reach is_ok), nf))))

  after_cursor-Polls :
      (c max_confirmed : ℕ) (db : Db Raw) (x : Result DbError ℕ)
      → (x ≡ ok c) ⊎ ((e : DbError) × (x ≡ err e))
      → c ≢ 0
      → max_confirmed ≤ latest
      → c < u64 - 1
      → cursor false l.chain_id l.name db ≡ ok c
      → Polls c max_confirmed db (after_cursor codec fmt cfg l p latest max_confirmed x db)
  unfolding after_cursor
  after_cursor-Polls c max_confirmed db x (inl e) pos_c le small h =
      rw e (from_cursor-Polls c max_confirmed db pos_c le small h)
  after_cursor-Polls c max_confirmed db x (inr (y, e)) pos_c le small h =
      rw e
        (c, Advanced-refl codec fmt cfg l p latest c db h, omega arith, λ is_ok. cc, λ is_fuel. cc)

  cursor-cases :
      (fails : Bool) (c : ℕ) (db : Db Raw)
      → cursor false l.chain_id l.name db ≡ ok c
      → (cursor fails l.chain_id l.name db ≡ ok c)
        ⊎ ((e : DbError) × (cursor fails l.chain_id l.name db ≡ err e))
  unfolding cursor
  cursor-cases false c db h = inl h
  cursor-cases true c db h = inr (query_failed, refl)

  -- One cycle of a scanner whose cursor stands at `c` ≠ 0, where the node reports the head
  -- `latest`, whatever else fails on the way: the cursor only moves forward, each block that it
  -- passes was scanned and all the deposits of the block are in the buffer, no row is lost, no
  -- other cursor moves, and no unconfirmed block is passed. If the cycle returns no error, the
  -- cursor has moved `max_blocks_per_poll` blocks, or up to the last confirmed block. Block numbers
  -- stay in the range of uint64.
  pub poll_once-Polls :
      (c : ℕ) (db : Db Raw)
      → (retry cfg.retry_options p.ctx_err p.cut p.block_number 0).result ≡ ok latest
      → c ≢ 0
      → c < u64 - 1
      → cursor false l.chain_id l.name db ≡ ok c
      → Polls c (latest - to_uint64 cfg.min_confirmations) db (poll_once codec fmt cfg l p db)
  unfolding poll_once
  poll_once-Polls c db answer pos_c small h =
      let need = to_uint64 cfg.min_confirmations in
      rw (answer, poll_once)
        (if-cases (Polls c (latest - need) db) (leb need latest)
          (λ enough.
            after_cursor-Polls c (latest - need) db (cursor p.cursor_fails l.chain_id l.name db)
              (cursor-cases p.cursor_fails c db h) pos_c (omega arith) small h)
          (λ short.
            let none_confirmed : latest - need ≡ 0 = ground arith in
            (
              c,
              Advanced-refl codec fmt cfg l p latest c db h,
              omega arith,
              λ _. omega arith,
              λ is_fuel. cc,
            )))
