-- ===== src/Tests/Loops.antt =====
-- A loop and the publisher on one database: some moves, and the theorems on them.
use listener_go.Prelude.{
  ℕ, suc, ◌<◌, ◌≤◌, ℤ, pos, codes, u64, ◌≡◌, refl, false, true, List, All, ◌⊎◌, ok, arith,
}
use listener_go.Model.{Deposit}
use listener_go.Retry.{retry}
use listener_go.Database.Tables.{has_key}
use listener_go.Database.Buffer.{key_of, cursor}
use listener_go.Publisher.Protocol.{Envelope, ack_id}
use listener_go.Scanner.Loop.{LoopConfig}
use listener_go.Scanner.Loop.Machine.{turn}
use listener_go.Scanner.Loop.Machine.Tracked.{AtPhase}
use listener_go.System.Loops.{
  Process, set_phase, start, after_turn, scans, Reach, here, next, Received, Scanned,
}
use listener_go.System.Loops.Covered.{reach-Scanned, reach-AtPhase}
use listener_go.Samples.{codec, wire, fmt, loop_id, loop_config, poll, drain_config, connected}
use listener_go.Tests.{sample_run, cursor_before}

abbrev configs : ℤ → LoopConfig
configs chain_id = loop_config

abbrev P : Type 0
P = Process Deposit (Envelope Deposit)

-- The loop plans its cycle and scans block 6, then block 7, which has a deposit.
abbrev first : P
first = start codec fmt wire drain_config configs connected

abbrev second : P
second = after_turn codec fmt wire drain_config configs loop_id poll first

abbrev third : P
third = after_turn codec fmt wire drain_config configs loop_id poll second

abbrev fourth : P
fourth = after_turn codec fmt wire drain_config configs loop_id poll third

abbrev moves : Reach codec fmt wire drain_config configs first fourth
moves =
    next (next (next here (scans loop_id poll first)) (scans loop_id poll second))
      (scans loop_id poll third)

head_fits :
    (latest : ℕ)
    → (retry loop_config.retry_options poll.ctx_err poll.cut poll.block_number 0).result ≡ ok latest
    → suc latest < u64
unfolding sample_run
head_fits latest h = let same : latest ≡ 20 = cc h in omega arith

cursor_at_7 : cursor false (pos 1) (codes "log") fourth.system.state.db ≡ ok 7
unfolding sample_run turn set_phase
cursor_at_7 = refl

reach-Scanned_example :
    (ds : List Deposit) × Scanned codec fmt wire drain_config configs loop_id 7 ds moves
    × All
        (λ d.
          (has_key (key_of d) fourth.system.state.db.rows ≡ true)
          ⊎ Received codec fmt wire drain_config configs (ack_id (key_of d)) moves)
        ds
reach-Scanned_example =
    reach-Scanned codec fmt wire drain_config configs loop_id 5 connected fourth moves 7 7
      (((tt, head_fits), head_fits), head_fits) (omega arith) (omega arith) cursor_before
      cursor_at_7 (omega arith) (omega arith)

reach-AtPhase_example :
    (c' : ℕ) × (cursor false (pos 1) (codes "log") fourth.system.state.db ≡ ok c')
    × (5 ≤ c')
    × AtPhase c' (fourth.loops (pos 1) (codes "log"))
reach-AtPhase_example =
    reach-AtPhase codec fmt wire drain_config configs loop_id 5 connected fourth moves
      (((tt, head_fits), head_fits), head_fits) (omega arith) (omega arith) cursor_before
