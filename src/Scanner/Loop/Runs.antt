-- ===== src/Scanner/Loop/Runs.antt =====
-- internal/scanner/loop.go: Run. The result of a cycle is logged and dropped, and the next tick begins
-- the next cycle; the loop ends with the context.
use listener_go.Prelude.{
  ℕ, suc, ◌+◌, ◌-◌, ◌*◌, ◌≤◌, ◌<◌, pos, u64, to_uint64, ◌≡◌, ◌≢◌, false, List, [], ◌∷◌, length, ok,
  arith,
}
use Prim.Native.Nat.{min}
use native.Mathlib.Nat.{le_trans}
use listener_go.Model.{TimeFormats}
use listener_go.Retry.{retry}
use listener_go.Database.Tables.{Db}
use listener_go.Database.Buffer.{Codec, IsFaithful, cursor}
use listener_go.Database.Buffer.Invariant.{IsValid}
use listener_go.Scanner.Loop.{LoopConfig, LoopId, Poll, poll_once}
use listener_go.Scanner.Loop.Cycle.{target, poll_once-Polls}
use listener_go.Scanner.Loop.Keeps.{poll_once-IsValid}

far_enough :
    (c c' m more confirmed latest : ℕ)
    → c' ≡ target c m latest
    → confirmed ≤ latest
    → min (c + (m + more)) confirmed ≤ min (c' + more) confirmed
far_enough c c' m more confirmed latest e le = omega arith

module _ {Raw Time : Type 0} (codec : Codec Raw) (fmt : TimeFormats Time) (cfg : LoopConfig)
    (l : LoopId) where
  -- A cycle at the start and one for each tick, until the context ends.
  unfoldable pub run_loop : List (Poll Time) → Db Raw → Db Raw
  run_loop [] db = db
  run_loop (p ∷ ps) db = run_loop ps (poll_once codec fmt cfg l p db).1

  -- Where json reads back what it wrote: from well-formed tables, for every number of cycles and whatever
  -- fails in them, Run leaves well-formed tables: rising ids, no key twice, and payloads that read back
  -- under the key of their row.
  pub run_loop-IsValid :
      (f : IsFaithful codec) (ps : List (Poll Time)) (db : Db Raw)
      → IsValid codec db
      → IsValid codec (run_loop ps db)
  unfolding run_loop
  run_loop-IsValid f [] db v = v
  run_loop-IsValid f (p ∷ ps) db v =
      run_loop-IsValid f ps (poll_once codec fmt cfg l p db).1
        (poll_once-IsValid codec f fmt cfg l p db v)

  -- Each cycle succeeds, with a head of at least `head` that is in range with `m` blocks more.
  abbrev pub Succeed : ℕ → ℕ → List (Poll Time) → Db Raw → Type 0
  Succeed head m [] db = Unit
  Succeed head m (p ∷ ps) db =
      ((latest : ℕ) × ((retry cfg.retry_options p.ctx_err p.cut p.block_number 0).result
          ≡ ok latest)
        × (head ≤ latest)
        × (latest + m + 2 < u64))
      × ((poll_once codec fmt cfg l p db).0 ≡ ok tt)
      × Succeed head m ps (poll_once codec fmt cfg l p db).1

  -- In a run of n cycles that succeed, from a cursor at `c` ≠ 0, where each of them is told a head of
  -- at least `head`, with block numbers in uint64: the cursor ends n · MaxBlocksPerPoll blocks after
  -- `c`, or at the last block that is confirmed at `head`, whichever is smaller, or beyond it.
  pub run_loop-catches_up :
      (m head : ℕ) (ps : List (Poll Time)) (c : ℕ) (db : Db Raw)
      → cfg.max_blocks_per_poll ≡ pos m
      → c ≢ 0
      → c < u64 - 1
      → cursor false l.chain_id l.name db ≡ ok c
      → Succeed head m ps db
      → (c' : ℕ) × (cursor false l.chain_id l.name (run_loop ps db) ≡ ok c')
        × (min (c + length ps * m) (head - to_uint64 cfg.min_confirmations) ≤ c')
  unfolding run_loop
  run_loop-catches_up m head [] c db blocks started small h all = (c, h, omega arith)
  run_loop-catches_up m head (p ∷ ps) c db blocks started small h
        ((latest, answer, le, fits), done, rest) =
      let need = to_uint64 cfg.min_confirmations in
      let (c1, a, le1, reach, _) =
        poll_once-Polls codec fmt cfg l p latest m blocks fits c db answer started small h in
      let at : c1 ≡ target c m (latest - need) = reach done in
      let (c2, reads, far) =
        run_loop-catches_up m head ps c1 (poll_once codec fmt cfg l p db).1 blocks
          (λ zero_at. absurd (started (omega (arith, a.forward)))) (omega arith) a.reads rest in
      let first =
        far_enough c c1 m (length ps * m) (head - need) (latest - need) at (omega arith) in
      let product : suc (length ps) * m ≡ m + length ps * m = omega arith in
      (c2, reads, rw product (le_trans first far))
