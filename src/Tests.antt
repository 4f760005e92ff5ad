-- ===== src/Tests.antt =====
-- The theorems at concrete inputs, and runs of the definitions.
pub mod Flush
pub mod Audit
pub mod Supervisor
pub mod Accounts
pub mod Formats
pub mod Log
pub mod Trace
pub mod Config
pub mod System
pub mod Startup
pub mod Process
pub mod Loops
pub mod Connections
use listener_go.Prelude.{
  ℕ, ◌-◌, ◌+◌, ◌*◌, ◌<◌, ◌≤◌, ◌≢◌, pos, codes, ◌≡◌, refl, ◌⊎◌, true, false, List, [], ◌∷◌, Result,
  ok, err, none, some, arith, take, u64, to_int64, to_uint64, eq_text, ◌↔◌,
}
use listener_go.Samples.{
  codec, codec-IsFaithful, fmt, all_ok, lost_answer, deposit, loop_id, db, empty_db, loop_config,
  poll, top_up_ok,
}
use listener_go.Model.{Deposit, to_deposit}
use listener_go.Database.Tables.{Row, Db}
use listener_go.Database.Tables.{
  Key, has_key, eq_key, select_cursor, upsert, insert_ignore, add_row,
}
use listener_go.Database.Buffer.{
  cursor, save_and_advance, insert_all, key_of, pending_all, unreported,
}
use listener_go.Database.Buffer.Atomic.{
  IsUnchanged, IsRecorded, save_and_advance-atomic, cursor-save_and_advance,
}
use listener_go.Database.Buffer.Invariant.{IsValid}
use listener_go.Database.Buffer.Heap.{ReadBack, pending_all-ReadBack}
use mathlib.Core.List.{Permᴰ}
use Prim.Native.Nat.{min}
use listener_go.Scanner.Loop.Runs.{run_loop, Succeed, run_loop-IsValid, run_loop-catches_up}
use listener_go.Scanner.Loop.{
  Poll, poll_once, scan_blocks, process_block, convert_events, end_of_range, out_of_fuel,
}
use listener_go.Scanner.Loop.Cycle.{target}
use listener_go.Scanner.Loop.Coverage.{poll_once-cursor}
use listener_go.Retry.{GoError, canceled, wrapped, retryable, retry, do_from, is_retryable}
use listener_go.Scanner.Loop.First.{Starts, poll_once-Starts}
use listener_go.Retry.Outcome.{RunsFrom, retry-RunsFrom}
use listener_go.Publisher.Protocol.{ack_id, Envelope, msg_type_ack}
use listener_go.Publisher.Protocol.Ids.{ack_id-injective}
use listener_go.Publisher.AckMode.Drain.{Event, message, ack_ready, timeout}

pub sample_run : Unit {0}
unfolding poll_once scan_blocks process_block convert_events end_of_range save_and_advance cursor
    retry do_from is_retryable select_cursor to_uint64 to_int64 eq_text insert_all to_deposit upsert
    insert_ignore add_row has_key eq_key
sample_run = tt

cursor_after :
    cursor false (pos 1) (codes "log") (poll_once codec fmt loop_config loop_id poll db).1 ≡ ok 7
unfolding sample_run
cursor_after = refl

abbrev pub key_3 : Key
key_3 = key_of deposit

pub db_IsValid : IsValid codec db
unfolding sample_run
db_IsValid = record {
  ascending = ground arith;
  below = ground arith;
  distinct = (refl, tt);
  readable = ((deposit, refl, refl), tt);
}

pub small_numbers : 20 + 3 + 2 < u64
small_numbers = omega arith

head_answers :
    (retry loop_config.retry_options poll.ctx_err poll.cut poll.block_number 0).result ≡ ok 20
unfolding sample_run
head_answers = refl

pub cursor_before : cursor false (pos 1) (codes "log") db ≡ ok 5
unfolding sample_run
cursor_before = refl

pub has_key_3 : has_key key_3 db.rows ≡ true
unfolding sample_run
has_key_3 = refl

poll_once-cursor_example :
    (c' : ℕ) × (cursor false
        (pos 1)
        (codes "log")
        (poll_once codec fmt loop_config loop_id poll db).1
      ≡ ok c')
    × (5 ≤ c')
    × (c' ≤ target 5 3 (20 - to_uint64 (pos 10)))
    × (((poll_once codec fmt loop_config loop_id poll db).0 ≢ ok tt)
        ⊎ (c' ≡ target 5 3 (20 - to_uint64 (pos 10))))
    × ((poll_once codec fmt loop_config loop_id poll db).0 ≢ err out_of_fuel)
poll_once-cursor_example =
    poll_once-cursor codec fmt loop_config loop_id poll 20 3 5 db refl small_numbers head_answers
      (omega arith) (omega arith) cursor_before

other_name : codes "trace" ≢ codes "log"
other_name = λ e. cc

empty_cursor : cursor false (pos 1) (codes "log") empty_db ≡ ok 0
unfolding sample_run
empty_cursor = refl

enough_confirmations : to_uint64 (pos 10) ≤ 20
unfolding sample_run
enough_confirmations = omega arith

poll_once-Starts_example :
    Starts codec fmt loop_config loop_id poll
      (20 - to_uint64 (pos 10))
      empty_db
      (poll_once codec fmt loop_config loop_id poll empty_db)
poll_once-Starts_example =
    poll_once-Starts codec fmt loop_config loop_id poll 20 empty_db head_answers (omega arith)
      enough_confirmations refl empty_cursor

-- The node reports 20 in each of two cycles, in which every statement succeeds.
abbrev calm : Poll ℕ
calm = record poll { outcomes = λ b. all_ok }

calm_cycles : Succeed codec fmt loop_config loop_id 20 3 (calm ∷ calm ∷ []) db
unfolding sample_run
calm_cycles =
    ((20, refl, omega arith, omega arith), refl, ((20, refl, omega arith, omega arith), refl, tt))

run_loop-catches_up_example :
    (c' : ℕ) × (cursor false
        (pos 1)
        (codes "log")
        (run_loop codec fmt loop_config loop_id (calm ∷ calm ∷ []) db)
      ≡ ok c')
    × (min (5 + 2 * 3) (20 - to_uint64 (pos 10)) ≤ c')
run_loop-catches_up_example =
    run_loop-catches_up codec fmt loop_config loop_id 3 20 (calm ∷ calm ∷ []) 5 db refl
      (omega arith) (omega arith) cursor_before calm_cycles

run_loop-IsValid_example :
    IsValid codec (run_loop codec fmt loop_config loop_id (poll ∷ calm ∷ []) db)
run_loop-IsValid_example =
    run_loop-IsValid codec fmt loop_config loop_id codec-IsFaithful (poll ∷ calm ∷ []) db db_IsValid

save_and_advance-atomic_example :
    let x = save_and_advance codec 0 lost_answer (pos 1) (codes "log") 7 (deposit ∷ []) empty_db in
    (IsUnchanged empty_db x.1 × (x.0 ≢ ok tt))
    ⊎ (IsRecorded (pos 1) (codes "log") 7 (deposit ∷ []) empty_db x.1
        × ((x.0 ≡ ok tt) ⊎ (lost_answer.commit ≡ unreported)))
save_and_advance-atomic_example =
    save_and_advance-atomic codec 0 lost_answer (pos 1) (codes "log") 7 (deposit ∷ []) empty_db

saved : (save_and_advance codec 0 all_ok (pos 1) (codes "log") 7 (deposit ∷ []) empty_db).0 ≡ ok tt
unfolding sample_run
saved = refl

cursor-save_and_advance_example :
    cursor false
      (pos 1)
      (codes "log")
      (save_and_advance codec 0 all_ok (pos 1) (codes "log") 7 (deposit ∷ []) empty_db).1
    ≡ ok 7
cursor-save_and_advance_example =
    cursor-save_and_advance codec 0 all_ok (pos 1) (codes "log") 7 (deposit ∷ []) empty_db
      (omega arith) saved

-- A row and a newer one, which the server holds in front of it.
abbrev older : Row Deposit
older = record {
  id = 3;
  key = key_3;
  payload = deposit;
  block_number = some (pos 4);
  created_at = 0;
}

abbrev second_deposit : Deposit
second_deposit = record deposit { log_index = pos 4 }

abbrev newer : Row Deposit
newer = record older { id = 4; key = key_of second_deposit; payload = second_deposit }

abbrev two_rows : Db Deposit
two_rows = record db { rows = older ∷ newer ∷ []; next_id = 5 }

two_rows-IsValid : IsValid codec two_rows
unfolding sample_run
two_rows-IsValid = record {
  ascending = ground arith;
  below = ground arith;
  distinct = (refl, (refl, tt));
  readable = ((deposit, refl, refl), ((second_deposit, refl, refl), tt));
}

pending_all-ReadBack_example :
    (ds : List Deposit) × (pending_all codec false 1 (record two_rows { rows = newer ∷ older ∷ [] })
      ≡ ok ds)
    × ReadBack codec (take 1 two_rows.rows) ds
pending_all-ReadBack_example =
    pending_all-ReadBack codec 1 two_rows (newer ∷ older ∷ []) two_rows-IsValid
      (Permᴰ.swap refl refl)

ack_id-injective_example : key_3 ≡ key_of deposit
ack_id-injective_example = ack_id-injective key_3 (key_of deposit) refl

abbrev calls : ℕ → Result GoError ℕ
calls = poll.block_number

retry-RunsFrom_example :
    RunsFrom loop_config.retry_options canceled
      (λ n. false)
      calls
      0
      2
      (retry loop_config.retry_options canceled (λ n. false) calls 0)
retry-RunsFrom_example =
    retry-RunsFrom loop_config.retry_options canceled (λ n. false) calls 0 2 refl

abbrev cut_off : GoError
cut_off = retryable (wrapped (codes "header") canceled)

abbrev code : ℕ
code = 32004

-- The deposit is sent, its ACK arrives and is handled.
abbrev ack_frame : Envelope Deposit
ack_frame = record { kind = msg_type_ack; id = ack_id key_3; payload = none }

abbrev pub events : List (Event (Envelope Deposit))
events = message true ack_frame ∷ ack_ready false top_up_ok ∷ timeout 40 ∷ []
