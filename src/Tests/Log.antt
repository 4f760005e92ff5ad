-- ===== src/Tests/Log.antt =====
-- Runs of a LogScanner, and the theorems on it applied to them.
use mathlib.Core.List.{Nodup, Nodup-nil, Nodup-cons, not-mem-nil}
use mathlib.Core.List.Perm
use listener_go.Prelude.{
  ◌<◌, pos, Text, eq_text, codes, ◌≡◌, refl, sym, ◌∙◌, ◌==◌, false, none, some, List, [], ◌∷◌, ◌++◌,
  map, All, i64, Result, ok, err, if◌then◌else◌, arith,
}
use listener_go.Prelude.Decimal.{show_ℕ}
use listener_go.Model.{DepositEvent}
use listener_go.Retry.{GoError, retry, do_from}
use listener_go.Decryption.{noop}
use listener_go.Listener.{decoders_for_chain}
use listener_go.Scanner.Node.{Block, Log, Call, do_call}
use listener_go.Scanner.Decoder.{Registry, register, lookup, transfer_topic, private_transfer_topic}
use listener_go.Scanner.Log.{LogScanner, ScanWorld, lookup_contract}
use listener_go.Scanner.Log.Native.{parse_native_transfers}
use listener_go.Scanner.Log.Native.Complete.{Complete, outcomes, parse_native_transfers-Complete}
use listener_go.Scanner.Log.Tokens.{contract_of, parse_token_transfers}
use listener_go.Scanner.Log.Blocks.{scan_block}
use listener_go.Scanner.Log.Distinct.{scan_block-Nodup}
use listener_go.Scanner.Log.Private.{scan_block-private}
use listener_go.Tests.Formats.{lower-lower, formats, once, zeros, chain, accounts}

abbrev pub answer : {A : Type 0} → A → Call A
answer a = record { ctx_err = GoError.canceled; cut = λ n. false; answer = λ n. ok a }

pub answered : {A : Type 0} (a unset : A) → do_call once unset (answer a) ≡ ok a
unfolding do_call retry do_from
answered a unset = refl

abbrev pub block : Block
block = record {
  time = 9;
  transactions =
      record { hash = 100; to = some 5; payload = []; value = pos 3 }
      ∷ record { hash = 101; to = some 6; payload = []; value = pos 4 }
      ∷ record { hash = 102; to = none; payload = []; value = pos 4 }
      ∷ [];
}

abbrev transfer_log : Log
transfer_log = record {
  address = 7;
  topics = transfer_topic formats ∷ 4 ∷ 5 ∷ [];
  payload = zeros 32;
  tx_hash = 103;
  index = 2;
}

abbrev private_log : Log
private_log = record {
  address = 7;
  topics = private_transfer_topic formats ∷ 4 ∷ 5 ∷ 8 ∷ [];
  payload = zeros 224;
  tx_hash = 104;
  index = 3;
}

abbrev pub world : List Log → ScanWorld
world logs = record {
  block = answer (some block);
  sender = λ i. answer 4;
  logs = λ q. answer logs;
  native_query_fails = false;
  token_query_fails = false;
  accounts = accounts;
  finish = λ rs. rs;
}

abbrev pub scanner_of : Text → LogScanner
scanner_of chain_type = record {
  chain = chain;
  kcp_chain_id = pos 1;
  has_kcp = false;
  retry_options = once;
  decoders = some (decoders_for_chain formats chain_type noop);
}

abbrev found : Result GoError (List DepositEvent) → List DepositEvent
found (ok evs) = evs
found (err e) = []

parse_native_transfers-Complete_example :
    Complete formats
      (scanner_of (codes "erc20"))
      (world [])
      (pos 6)
      (codes "9")
      (outcomes formats (scanner_of (codes "erc20")) (world []) block.transactions)
      (parse_native_transfers formats
        (scanner_of (codes "erc20"))
        (world [])
        (pos 6)
        (codes "9")
        block)
parse_native_transfers-Complete_example =
    parse_native_transfers-Complete formats (scanner_of (codes "erc20")) (world []) (pos 6)
      (codes "9") block lower-lower (λ rs. Perm.refl rs) refl

abbrev tokens : Registry
tokens = decoders_for_chain formats (codes "erc20") noop

different_indexes :
    (logs : List Log)
    → do_call once [] (answer (transfer_log ∷ [])) ≡ ok logs
    → Nodup (map (λ l. l.index) logs) × All (λ l. l.index < i64) logs
different_indexes logs e =
    let whole : ok (transfer_log ∷ []) ≡ ok logs = sym (answered (transfer_log ∷ []) []) ∙ e in
    let same : transfer_log ∷ [] ≡ logs = cc in
    rw (← same) (Nodup-cons.1 (not-mem-nil, Nodup-nil), (omega arith, tt))

unfoldable pub log_run : Unit {0}
unfolding scan_block do_call retry do_from listener_go.Scanner.Log.Blocks.after_block_read
    listener_go.Scanner.Log.Blocks.scan_found listener_go.Scanner.Log.Blocks.join_events
    parse_native_transfers listener_go.Scanner.Log.Native.transfers_of
    listener_go.Scanner.Log.Native.native_candidates
    listener_go.Scanner.Log.Native.is_plain_transfer
    listener_go.Scanner.Log.Native.after_native_query listener_go.Database.Accounts.has_many
    listener_go.Scanner.Log.address_set listener_go.Database.Accounts.has_text eq_text show_ℕ
    listener_go.Scanner.Log.Native.after_senders listener_go.Scanner.Log.Native.wait_all
    listener_go.Scanner.Log.Native.keep_matched listener_go.Database.Accounts.lookup_text
    listener_go.Database.Accounts.lowered listener_go.Database.Accounts.mark_found
    listener_go.Database.Accounts.matching listener_go.Prelude.to_int64 lookup
    listener_go.Scanner.Decoder.lookup_topic listener_go.Scanner.Log.Native.native_event
    listener_go.Scanner.Log.Native.sender_answer listener_go.Scanner.Log.Native.sender_of
    listener_go.Scanner.Log.Tokens.after_filter_logs
    listener_go.Scanner.Log.Tokens.after_token_query listener_go.Scanner.Log.Tokens.collect_event
    contract_of listener_go.Scanner.Log.Tokens.decode_log
    listener_go.Scanner.Log.Tokens.decode_topic listener_go.Scanner.Log.Tokens.decode_with
    listener_go.Scanner.Log.Tokens.events_of listener_go.Scanner.Log.Tokens.matched_events
    parse_token_transfers listener_go.Scanner.Log.Tokens.token_candidates
    listener_go.Scanner.Log.Tokens.token_context listener_go.Scanner.Log.Tokens.tokens_of
    lookup_contract listener_go.Scanner.Log.symbol_for_chain decoders_for_chain register
    listener_go.Scanner.Decoder.register_topics listener_go.Scanner.Decoder.decode_transfer
    listener_go.Scanner.Node.from_bytes listener_go.Database.Accounts.any_account
log_run = tt

scan_block-Nodup_example : Nodup (
    map
      (λ ev. ev.log_index)
      (found
        (scan_block formats (scanner_of (codes "erc20")) (world (transfer_log ∷ [])) 8 (pos 6))))
unfolding log_run
scan_block-Nodup_example =
    scan_block-Nodup formats (scanner_of (codes "erc20")) (world (transfer_log ∷ []))
      (codes "erc20") noop 8 (pos 6)
      (found
        (scan_block formats (scanner_of (codes "erc20")) (world (transfer_log ∷ [])) 8 (pos 6)))
      refl (λ rs. Perm.refl rs) (λ time. different_indexes) refl

scan_block-private_example :
    (e : GoError) × (scan_block formats
        (scanner_of (codes "eerc20"))
        (world (transfer_log ∷ private_log ∷ []))
        8
        (pos 6)
      ≡ err e)
unfolding contract_of lookup_contract eq_text show_ℕ
scan_block-private_example =
    scan_block-private formats noop (scanner_of (codes "eerc20"))
      (world (transfer_log ∷ private_log ∷ [])) 8 (pos 6) block (transfer_log ∷ []) [] private_log
      (record { symbol = codes "USDT"; decimals = 6 }) refl (answered (some block) none)
      (answered (transfer_log ∷ private_log ∷ []) []) (4, 5, 8, [], refl, refl) refl
