-- ===== src/Scanner/Log/Tokens/Complete.antt =====
-- The token transfers of a block: what is decoded and watched, in one pass.
use listener_go.Prelude.{
  ℤ, Text, Bool, Option, none, some, List, [], ◌∷◌, Result, ok, err, if◌then◌else◌,
}
use listener_go.Model.{DepositEvent}
use listener_go.Retry.{GoError}
use listener_go.Database.Accounts.{any_account}
use listener_go.Scanner.Node.{Log, Formats}
use listener_go.Scanner.Decoder.{Registry}
use listener_go.Scanner.Log.{LogScanner, ScanWorld}
use listener_go.Scanner.Log.Tokens.{decode_log, contract_of, collect_event}

module _ (fmt : Formats) (s : LogScanner) (w : ScanWorld) (confirmations : ℤ)
    (block_time : Text) where
  abbrev is_for_us : DepositEvent → Bool
  is_for_us ev =
      any_account fmt.to_lower fmt.sql_lower s.chain.chain_id (fmt.to_lower ev.to_address)
        w.accounts

  -- The event of a log, where its receiver is watched.
  abbrev pub watched_only :
      Result GoError (Option DepositEvent) → Result GoError (Option DepositEvent)
  watched_only (ok (some ev)) = if is_for_us ev then ok (some ev) else ok none
  watched_only x = x

  -- The events of the logs, one after the other; the first error ends it.
  abbrev pub token_deposits : Registry → List Log → Result GoError (List DepositEvent)
  token_deposits r [] = ok []
  token_deposits r (log ∷ logs) =
      collect_event fmt s w confirmations block_time
        (watched_only (
          decode_log fmt s w confirmations block_time r log
            (contract_of fmt s w confirmations block_time log)))
        (token_deposits r logs)

  keep_ours : List DepositEvent → List DepositEvent
  keep_ours [] = []
  keep_ours (ev ∷ evs) = let rest = keep_ours evs in if is_for_us ev then ev ∷ rest else rest

  keep_in : Result GoError (List DepositEvent) → Result GoError (List DepositEvent)
  keep_in (ok evs) = ok (keep_ours evs)
  keep_in (err e) = err e
