-- ===== src/Scanner/Trace/Scans.antt =====
-- What a TraceScanner keeps over its scans.
use listener_go.Prelude.{
  ℕ, suc, ℤ, Text, Bool, true, false, Option, none, some, List, [], ◌∷◌, Result, ok, err,
  Result-cases, inl, inr, if-cases,
}
use listener_go.Model.{DepositEvent}
use listener_go.Retry.{GoError}
use listener_go.Scanner.Node.{Transaction, Block, Formats, Call, do_call}
use listener_go.Scanner.Trace.{CallFrame, TraceScanner, TraceState, TraceWorld, Walk}
use listener_go.Scanner.Trace.Code.{
  is_contract, is_method_not_found, after_trace, trace_transaction,
}
use listener_go.Scanner.Trace.Blocks.{
  Next, go_on_with, stop_with, after_root, after_is_contract, scan_receiver, scan_transactions,
  after_block_read, scan_block,
}
use listener_go.Scanner.Trace.Cache.{IsGoodCache, IsHonest, is_contract-IsRight}

module _ (code : ℕ → Bool) (fmt : Formats) (s : TraceScanner) (w : TraceWorld) where
  abbrev IsGood : TraceState → Type 0
  IsGood st = IsGoodCache code st.code_cache

  trace_transaction-IsGood :
      (call : Call (List ℕ)) (st : TraceState)
      → IsGood st
      → IsGood (trace_transaction s.retry_options w.message w.unmarshal call st).0
  unfolding trace_transaction after_trace
  trace_transaction-IsGood call st good = elim (Result-cases (do_call s.retry_options [] call)) [
    | inl (raw, e) ↦ rw (e, after_trace) good
    | inr (x, e) ↦
        rw (e, after_trace)
          (if-cases (λ (r : TraceState × Result GoError (Option CallFrame)). IsGood r.0)
            (is_method_not_found w.message x) (λ missing. good) (λ failed. good))
  ]

  abbrev NextIsGood : Next → Type 0
  NextIsGood (go_on_with st k) = IsGood st
  NextIsGood (stop_with st x) = IsGood st

  module _ (c : ℤ) (time : Text) where
    after_root-IsGood :
        (tx : Transaction) (k : Walk) (r : TraceState × Result GoError (Option CallFrame))
        → IsGood r.0
        → NextIsGood (after_root fmt s w c time tx k r)
    unfolding after_root
    after_root-IsGood tx k (st, err e) good = good
    after_root-IsGood tx k (st, ok none) good = good
    after_root-IsGood tx k (st, ok (some root)) good =
        if-cases NextIsGood st.trace_unsupported (λ off. good) (λ on. good)

    after_is_contract-IsGood :
        (i : ℕ) (tx : Transaction) (to : ℕ) (k : Walk) (r : TraceState × Result GoError Bool)
        → IsGood r.0
        → NextIsGood (after_is_contract fmt s w c time i tx to k r)
    unfolding after_is_contract
    after_is_contract-IsGood i tx to k (st, err e) good = good
    after_is_contract-IsGood i tx to k (st, ok false) good = good
    after_is_contract-IsGood i tx to k (st, ok true) good =
        after_root-IsGood tx k
          (trace_transaction s.retry_options w.message w.unmarshal (w.call_context i) st)
          (trace_transaction-IsGood (w.call_context i) st good)

    abbrev pub NodeIsHonest : Type 0
    NodeIsHonest = (i a : ℕ) → IsHonest code s.retry_options (w.code_at i a) a

    scan_receiver-IsGood :
        (i : ℕ) (tx : Transaction) (to : Option ℕ) (st : TraceState) (k : Walk)
        → NodeIsHonest
        → IsGood st
        → NextIsGood (scan_receiver fmt s w c time i tx to st k)
    unfolding scan_receiver
    scan_receiver-IsGood i tx none st k honest good = good
    scan_receiver-IsGood i tx (some to) st k honest good =
        after_is_contract-IsGood i tx to k (is_contract s.retry_options (w.code_at i to) to st)
          (is_contract-IsRight code s.retry_options (w.code_at i to) to st (honest i to) good).0

    scan_transactions-IsGood :
        (i : ℕ) (txs : List Transaction) (n : Next)
        → NodeIsHonest
        → NextIsGood n
        → IsGood (scan_transactions fmt s w c time i txs n).0
    unfolding scan_transactions
    scan_transactions-IsGood i [] (stop_with st x) honest good = good
    scan_transactions-IsGood i (tx ∷ txs) (stop_with st x) honest good = good
    scan_transactions-IsGood i [] (go_on_with st k) honest good = good
    scan_transactions-IsGood i (tx ∷ txs) (go_on_with st k) honest good =
        scan_transactions-IsGood (suc i) txs _ honest
          (scan_receiver-IsGood i tx tx.to st k honest good)

  -- Where every answer of CodeAt about an address is the truth: from a cache that says what is
  -- true and has at most 10000 entries, ScanBlock leaves such a cache, whatever block and traces
  -- the node answers and also where it returns an error.
  pub scan_block-IsGoodCache :
      (c : ℤ) (st : TraceState)
      → ((i a : ℕ) → IsHonest code s.retry_options (w.code_at i a) a)
      → IsGoodCache code st.code_cache
      → IsGoodCache code (scan_block fmt s w c st).0.code_cache
  unfolding scan_block after_block_read
  scan_block-IsGoodCache c st honest good =
      if-cases (λ (r : TraceState × Result GoError (List DepositEvent)). IsGood r.0)
        st.trace_unsupported (λ off. good)
        (λ on. elim (Result-cases (do_call s.retry_options none w.block)) [
          | inr (e, failed) ↦ rw (failed, after_block_read) good
          | inl (found, read) ↦ rw (read, after_block_read) (found_block found)
        ])
    where
      found_block : (found : Option Block) → IsGood (after_block_read fmt s w c st (ok found)).0
      found_block none = good
      found_block (some b) =
          scan_transactions-IsGood c (fmt.rfc3339 b.time) 0 b.transactions _ honest good
