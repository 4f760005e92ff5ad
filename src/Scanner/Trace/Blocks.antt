-- ===== src/Scanner/Trace/Blocks.antt =====
-- `ScanBlock` of internal/scanner/trace_scanner.go.
use listener_go.Prelude.{
  ℕ, suc, ℤ, Text, codes, Bool, true, false, Option, none, some, List, [], ◌∷◌, ◌++◌, Result, ok,
  err, if◌then◌else◌,
}
use listener_go.Model.{DepositEvent}
use listener_go.Retry.{GoError, wrapped}
use listener_go.Scanner.Node.{Transaction, Block, Formats, do_call}
use listener_go.Scanner.Trace.{CallFrame, frame, Calls, TraceScanner, TraceState, TraceWorld, Walk}
use listener_go.Scanner.Trace.Frames.{collect}
use listener_go.Scanner.Trace.Code.{is_contract, trace_transaction}

abbrev pub calls_of : CallFrame → Calls
calls_of (frame kind from to value error calls) = calls

abbrev pub empty_walk : Walk
empty_walk = record { counter = 0; queries = 0; out = [] }

-- How the loop goes on after a transaction: with the next one, or with a return.
pub data Next : Type 0 where
  go_on_with : TraceState → Walk → Next
  stop_with : TraceState → Result GoError (List DepositEvent) → Next

module _ (fmt : Formats) (s : TraceScanner) (w : TraceWorld) (confirmations : ℤ)
    (block_time : Text) where
  unfoldable pub after_root :
      Transaction → Walk → TraceState × Result GoError (Option CallFrame) → Next
  after_root tx k (st, err e) = go_on_with st k
  after_root tx k (st, ok none) = stop_with st (ok k.out)
  after_root tx k (st, ok (some root)) =
      if st.trace_unsupported
      then stop_with st (ok k.out)
      else go_on_with st
          (collect fmt s w (fmt.hash_hex tx.hash) confirmations block_time 0 (calls_of root) k)

  unfoldable pub after_is_contract :
      ℕ → Transaction → ℕ → Walk → TraceState × Result GoError Bool → Next
  after_is_contract i tx to k (st, err e) =
      stop_with st (err (wrapped (codes "isContract " ++ fmt.hex to) e))
  after_is_contract i tx to k (st, ok false) = go_on_with st k
  after_is_contract i tx to k (st, ok true) =
      after_root tx k
        (trace_transaction s.retry_options w.message w.unmarshal (w.call_context i) st)

  unfoldable pub scan_receiver : ℕ → Transaction → Option ℕ → TraceState → Walk → Next
  scan_receiver i tx none st k = go_on_with st k
  scan_receiver i tx (some to) st k =
      after_is_contract i tx to k (is_contract s.retry_options (w.code_at i to) to st)

  -- The loop over the transactions, from the one with index `i` on.
  unfoldable pub scan_transactions :
      ℕ → List Transaction → Next → TraceState × Result GoError (List DepositEvent)
  scan_transactions i txs (stop_with st x) = (st, x)
  scan_transactions i [] (go_on_with st k) = (st, ok k.out)
  scan_transactions i (tx ∷ txs) (go_on_with st k) =
      scan_transactions (suc i) txs (scan_receiver i tx tx.to st k)

module _ (fmt : Formats) (s : TraceScanner) (w : TraceWorld) where
  unfoldable pub after_block_read :
      ℤ
      → TraceState
      → Result GoError (Option Block)
      → TraceState × Result GoError (List DepositEvent)
  after_block_read confirmations st (err e) = (st, err (wrapped (codes "get block") e))
  after_block_read confirmations st (ok none) = (st, ok [])
  after_block_read confirmations st (ok (some b)) =
      scan_transactions fmt s w confirmations (fmt.rfc3339 b.time) 0 b.transactions
        (go_on_with st empty_walk)

  unfoldable pub scan_block : ℤ → TraceState → TraceState × Result GoError (List DepositEvent)
  scan_block confirmations st =
      let scanned = after_block_read confirmations st (do_call s.retry_options none w.block) in
      if st.trace_unsupported then (st, ok []) else scanned
