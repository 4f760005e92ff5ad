-- ===== src/Tests/System.antt =====
-- The whole system at a concrete input, and a transfer followed into the buffer.
use mathlib.Core.List.{Mem, mem-cons_self}
use mathlib.Core.List.Perm
use listener_go.Prelude.{
  ℕ, ◌≤◌, pos, codes, ◌≡◌, refl, ◌⊎◌, true, false, some, none, [], length, ok, arith,
}
use listener_go.Model.{Deposit, to_deposit}
use listener_go.Retry.{retry}
use listener_go.Database.Tables.{has_key}
use listener_go.Database.Buffer.{key_of, cursor}
use listener_go.Publisher.Protocol.{Envelope, ack_id}
use listener_go.Publisher.AckMode.{State}
use listener_go.Scanner.Loop.{Poll, confirmations_at, poll_once}
use listener_go.Scanner.Log.{NativeCandidate, Sent}
use listener_go.Scanner.Log.Native.{sender_of, native_event}
use listener_go.Scanner.Log.Native.Complete.{watched_transfers}
use listener_go.Scanner.Log.Blocks.{scan_block}
use listener_go.Scanner.Deposits.{watched_transfer-Stored}
use listener_go.System.{
  offline, after_save, after_dial, saves, connects, Reach, here, next, Received,
}
use listener_go.System.Kept.{reach-Kept}
use listener_go.Samples.{
  codec, wire, fmt, all_ok, loop_id, db, loop_config, poll, drain_config, top_up_ok, connected,
}
use listener_go.Tests.{key_3, has_key_3, sample_run, small_numbers, cursor_before}
use listener_go.Tests.Formats.{formats, lower-lower}
use listener_go.Tests.Log.{answered, block, world, scanner_of, log_run}

-- A block is saved, a connection comes, another block is saved.
abbrev saved : State Deposit (Envelope Deposit)
saved =
    (after_save codec wire drain_config 9 all_ok (pos 1) (codes "log") 6 []
      (offline connected)).state

abbrev path : Reach codec wire drain_config (offline connected) (
    after_save codec wire drain_config 9 all_ok
      (pos 1)
      (codes "trace")
      6
      []
      (after_dial codec wire drain_config top_up_ok saved))
path =
    next
      (next (next here (saves 9 all_ok (pos 1) (codes "log") 6 [] (offline connected)))
        (connects top_up_ok saved))
      (saves 9 all_ok (pos 1) (codes "trace") 6 []
        (after_dial codec wire drain_config top_up_ok saved))

reach-Kept_example :
    let u =
      after_save codec wire drain_config 9 all_ok
        (pos 1)
        (codes "trace")
        6
        []
        (after_dial codec wire drain_config top_up_ok saved) in
    ((has_key key_3 u.state.db.rows ≡ true) ⊎ Received codec wire drain_config (ack_id key_3) path)
    × (u.connected ≡ true → length u.state.out ≤ 2)
reach-Kept_example = reach-Kept codec wire drain_config connected _ path key_3 has_key_3

abbrev log_poll : Poll ℕ
log_poll = record poll {
  scan = λ b n. scan_block formats (scanner_of (codes "erc20")) (world []) b n;
}

abbrev watched : NativeCandidate
watched = record {
  tx = record { hash = 100; to = some 5; payload = []; value = pos 3 };
  tx_idx = 0;
  to_addr = 5;
}

log_cursor :
    cursor false (pos 1) (codes "log") (poll_once codec fmt loop_config loop_id log_poll db).1
    ≡ ok 7
unfolding sample_run log_run
log_cursor = refl

is_watched :
    Mem watched
      (watched_transfers formats (scanner_of (codes "erc20")) (world []) 0 block.transactions)
unfolding log_run
is_watched = mem-cons_self

head_answers :
    (retry loop_config.retry_options log_poll.ctx_err log_poll.cut log_poll.block_number 0).result
    ≡ ok 20
unfolding sample_run
head_answers = refl

watched_transfer-Stored_example :
    (sent : Sent) × (sender_of formats (scanner_of (codes "erc20")).retry_options (world []) watched
      ≡ ok sent)
    × ((d : Deposit)
        → to_deposit fmt 0
            (native_event formats
              (scanner_of (codes "erc20")).chain
              (confirmations_at 20 7)
              (formats.rfc3339 9)
              sent)
            (pos 10)
          ≡ some d
        → has_key (key_of d) (poll_once codec fmt loop_config loop_id log_poll db).1.rows ≡ true)
watched_transfer-Stored_example =
    watched_transfer-Stored codec fmt loop_config loop_id log_poll 20 3 5 db refl small_numbers
      head_answers (omega arith) (omega arith) cursor_before formats (scanner_of (codes "erc20"))
      (λ b. world []) (λ b n. refl) 7 7 block watched log_cursor (omega arith) (omega arith)
      (answered (some block) none) lower-lower (λ rs. Perm.refl rs) refl is_watched
