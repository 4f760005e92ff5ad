-- ===== src/Samples.antt =====
-- Concrete inputs for the tests: a codec, statements that succeed, a node, tables and a connection.
use listener_go.Prelude.{
  ℕ, pos, negsuc, codes, sym, false, ◌==◌, some, [], ◌∷◌, length, Result, ok, err, if◌then◌else◌,
}
use listener_go.Model.{DepositEvent, Deposit, confirmed, TimeFormats}
use listener_go.Retry.{GoError, canceled, eof}
use listener_go.Database.Tables.{CursorRow, Db}
use listener_go.Database.Buffer.{Codec, IsFaithful, Outcomes, committed, unreported, key_of}
use listener_go.Scanner.Loop.{LoopConfig, LoopId, Poll}
use listener_go.Publisher.Protocol.{Envelope, Wire}
use listener_go.Publisher.AckMode.{Config, TopUp, State}
use listener_go.Publisher.FireAndForget.{Pass, Link}

-- A payload is the deposit itself.
abbrev pub codec : Codec Deposit
codec = record { marshal = some; unmarshal = some }

pub codec-IsFaithful : IsFaithful codec
codec-IsFaithful = record { round_trip = λ d raw e. sym e }

abbrev pub fmt : TimeFormats ℕ
fmt = record { parse = λ t. some (length t); format_kst = λ t. []; format_kst_ms = λ t. [] }

abbrev pub all_ok : Outcomes
all_ok = record {
  begin = false;
  insert = λ i. false;
  cursor = false;
  notify = false;
  commit = committed;
}

abbrev pub lost_answer : Outcomes
lost_answer = record all_ok { commit = unreported }

abbrev pub event : DepositEvent
event = record {
  chain_id = pos 1;
  tx_hash = codes "0xab";
  log_index = negsuc 2;
  from_address = codes "0x01";
  to_address = codes "0x02";
  amount = some (pos 5);
  symbol = codes "ETH";
  decimals = 2;
  confirmations = pos 12;
  transaction_datetime = codes "t";
}

abbrev pub deposit : Deposit
deposit = record {
  chain_id = pos 1;
  tx_hash = codes "0xab";
  log_index = negsuc 2;
  from_address = codes "0x01";
  to_address = codes "0x02";
  amount = codes "0.05";
  confirm_count = pos 12;
  symbol = codes "ETH";
  status = confirmed;
  transaction_datetime = [];
  received_datetime_ms = [];
}

abbrev pub loop_id : LoopId
loop_id = record { chain_id = pos 1; name = codes "log" }

abbrev pub cursor_at_5 : CursorRow
cursor_at_5 = record { chain_id = pos 1; scanner = codes "log"; last_block = pos 5 }

abbrev pub db : Db Deposit
db = record {
  rows =
      record {
        id = 3;
        key = key_of deposit;
        payload = deposit;
        block_number = some (pos 4);
        created_at = 0;
      }
      ∷ [];
  next_id = 4;
  cursors = cursor_at_5 ∷ [];
  notified = 0;
}

abbrev pub empty_db : Db Deposit
empty_db = record db { rows = []; cursors = [] }

abbrev pub loop_config : LoopConfig
loop_config = record {
  min_confirmations = pos 10;
  max_blocks_per_poll = pos 3;
  retry_options = record { max_retries = pos 2; base_delay = 1000 };
}

-- The second call of BlockNumber answers; block 7 has a deposit, and the answer to its COMMIT is
-- lost.
abbrev pub head_at_second : ℕ → Result GoError ℕ
head_at_second n = if n == 0 then err eof else ok 20

abbrev pub poll : Poll ℕ
poll = record {
  block_number = head_at_second;
  cut = λ n. false;
  ctx_err = canceled;
  cursor_fails = false;
  scan = λ b c. if b == 7 then ok (record event { log_index = pos 4 } ∷ []) else ok [];
  outcomes = λ b. if b == 7 then lost_answer else all_ok;
  now = λ b. 0;
  clock = λ b. b;
  stop = λ b. false;
}

-- A frame is the envelope itself.
abbrev pub wire : Wire Deposit (Envelope Deposit)
wire = record { marshal = some; unmarshal = some }

abbrev pub drain_config : Config
drain_config = record { max_in_flight = 2; max_batch_size = 100; ack_timeout = 30 }

abbrev pub top_up_ok : TopUp
top_up_ok = record { query_fails = false; write_fails = λ i. false; now = 1 }

abbrev pub connected : State Deposit (Envelope Deposit)
connected = record { db = db; out = []; channel = []; sent = [] }

-- Every statement and every write succeeds.
abbrev pub clear_pass : Pass
clear_pass = record {
  saves = [];
  ended = false;
  query_fails = false;
  write_fails = λ i. false;
  ack_fails = λ i. false;
}

abbrev pub link : Link Deposit
link = record { db = db; sent = [] }
