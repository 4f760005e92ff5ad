-- ===== src/Scanner/Log/Tokens.antt =====
-- `parseTokenTransfers` of internal/scanner/log_scanner.go.
pub mod Complete
use listener_go.Prelude.{
  ℕ, ltb, ℤ, Text, codes, Bool, ◌&&◌, Option, none, some, List, [], ◌∷◌, ◌++◌, length, map, Result,
  ok, err, if◌then◌else◌,
}
use listener_go.Model.{DepositEvent}
use listener_go.Retry.{GoError, wrapped}
use listener_go.Database.Buffer.{DbError}
use listener_go.Database.Chains.{ContractInfo}
use listener_go.Database.Accounts.{lookup_text, has_many}
use listener_go.Scanner.Node.{Log, Formats, do_call}
use listener_go.Scanner.Decoder.{Context, Decoder, Registry, lookup}
use listener_go.Scanner.Log.{
  symbol_for_chain, LogScanner, FilterQuery, ScanWorld, has_many_error, is_marked, lookup_contract,
  lower_hex, address_set,
}

module _ (fmt : Formats) (s : LogScanner) (w : ScanWorld) (confirmations : ℤ)
    (block_time : Text) where
  unfoldable pub token_context : ContractInfo → Context
  token_context info = record {
    chain_id = s.chain.chain_id;
    confirmations = confirmations;
    transaction_datetime = block_time;
    symbol = symbol_for_chain info.symbol s.chain.chain_id s.kcp_chain_id s.has_kcp;
  }

  unfoldable pub decode_with :
      Log → ContractInfo → Option Decoder → Result GoError (Option DepositEvent)
  decode_with log info none = ok none
  decode_with log info (some d) = elim (d.decode log info (token_context info)) [
    | ok ev ↦ ok ev
    | err e ↦ err (wrapped (d.name ++ codes " decode") e)
  ]

  unfoldable pub decode_topic :
      Registry → Log → List ℕ → ContractInfo → Result GoError (Option DepositEvent)
  decode_topic r log [] info = ok none
  decode_topic r log (t ∷ ts) info = decode_with log info (lookup r t)

  -- The body of the loop over the logs; `ok none` goes on.
  unfoldable pub decode_log :
      Registry → Log → Option ContractInfo → Result GoError (Option DepositEvent)
  decode_log r log none = ok none
  decode_log r log (some info) = decode_topic r log log.topics info

  unfoldable pub contract_of : Log → Option ContractInfo
  contract_of log = lookup_contract (lower_hex fmt log.address) s.chain.contracts

  unfoldable pub collect_event :
      Result GoError (Option DepositEvent)
      → Result GoError (List DepositEvent)
      → Result GoError (List DepositEvent)
  collect_event (err e) rest = err e
  collect_event (ok none) rest = rest
  collect_event (ok (some ev)) (ok evs) = ok (ev ∷ evs)
  collect_event (ok (some ev)) (err e) = err e

  unfoldable pub token_candidates : Registry → List Log → Result GoError (List DepositEvent)
  token_candidates r [] = ok []
  token_candidates r (log ∷ logs) =
      collect_event (decode_log r log (contract_of log)) (token_candidates r logs)

  unfoldable pub matched_events : List (Text × Bool) → List DepositEvent → List DepositEvent
  matched_events m [] = []
  matched_events m (ev ∷ evs) =
      let rest = matched_events m evs in
      if is_marked (lookup_text (fmt.to_lower ev.to_address) m) then ev ∷ rest else rest

  unfoldable pub after_token_query :
      List DepositEvent → Result DbError (List (Text × Bool)) → Result GoError (List DepositEvent)
  after_token_query evs (err e) = err (has_many_error e)
  after_token_query evs (ok m) = ok (matched_events m evs)

  unfoldable pub events_of : Result GoError (List DepositEvent) → Result GoError (List DepositEvent)
  events_of (err e) = err e
  events_of (ok []) = ok []
  events_of (ok (ev ∷ evs)) = after_token_query (ev ∷ evs) (
      has_many fmt.to_lower fmt.sql_lower w.token_query_fails s.chain.chain_id
        (address_set (map (λ x. fmt.to_lower x.to_address) (ev ∷ evs))) w.accounts)

  unfoldable pub after_filter_logs :
      Registry → Result GoError (List Log) → Result GoError (List DepositEvent)
  after_filter_logs r (err e) = err (wrapped (codes "FilterLogs") e)
  after_filter_logs r (ok logs) = events_of (token_candidates r logs)

  abbrev pub filter_query : Registry → ℕ → FilterQuery
  filter_query r block_number = record {
    from_block = block_number;
    to_block = block_number;
    addresses = map (λ c. fmt.hex_to_address c.0) s.chain.contracts;
    topics = r.topics;
  }

  unfoldable pub parse_token_transfers : Registry → ℕ → Result GoError (List DepositEvent)
  parse_token_transfers r block_number =
      after_filter_logs r (do_call s.retry_options [] (w.logs (filter_query r block_number)))

  -- Whether tokens are looked for.
  unfoldable pub tokens_of : Option Registry → ℕ → Result GoError (List DepositEvent)
  tokens_of none block_number = ok []
  tokens_of (some r) block_number =
      if ltb 0 (length s.chain.contracts) && ltb 0 (length r.topics)
      then parse_token_transfers r block_number
      else ok []
