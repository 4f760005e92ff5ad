-- ===== src/Scanner/Log/Blocks.antt =====
-- `ScanBlock` of internal/scanner/log_scanner.go.
use listener_go.Prelude.{ℕ, ℤ, Text, codes, Option, none, some, List, [], ◌++◌, Result, ok, err}
use listener_go.Model.{DepositEvent}
use listener_go.Retry.{GoError, wrapped}
use listener_go.Scanner.Node.{Block, Formats, do_call}
use listener_go.Scanner.Log.{LogScanner, ScanWorld}
use listener_go.Scanner.Log.Native.{parse_native_transfers}
use listener_go.Scanner.Log.Tokens.{tokens_of}

module _ (fmt : Formats) (s : LogScanner) (w : ScanWorld) (confirmations : ℤ)
    (block_time : Text) where
  unfoldable pub join_events :
      Result GoError (List DepositEvent)
      → Result GoError (List DepositEvent)
      → Result GoError (List DepositEvent)
  join_events (err e) ts = err (wrapped (codes "parse native") e)
  join_events (ok ns) (err e) = err (wrapped (codes "parse tokens") e)
  join_events (ok ns) (ok ts) = ok (ns ++ ts)

  unfoldable pub scan_found : ℕ → Block → Result GoError (List DepositEvent)
  scan_found block_number b =
      join_events (parse_native_transfers fmt s w confirmations block_time b)
        (tokens_of fmt s w confirmations block_time s.decoders block_number)

module _ (fmt : Formats) (s : LogScanner) (w : ScanWorld) where
  unfoldable pub after_block_read :
      ℕ → ℤ → Result GoError (Option Block) → Result GoError (List DepositEvent)
  after_block_read n confirmations (err e) = err (wrapped (codes "get block") e)
  after_block_read n confirmations (ok none) = ok []
  after_block_read n confirmations (ok (some b)) =
      scan_found fmt s w confirmations (fmt.rfc3339 b.time) n b

  unfoldable pub scan_block : ℕ → ℤ → Result GoError (List DepositEvent)
  scan_block block_number confirmations =
      after_block_read block_number confirmations (do_call s.retry_options none w.block)
