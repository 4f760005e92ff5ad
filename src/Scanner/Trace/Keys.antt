-- ===== src/Scanner/Trace/Keys.antt =====
-- The log indexes of the transfers that a TraceScanner finds in one block.
use mathlib.Core.List.{map-append}
use listener_go.Prelude.{
  ℕ, zero, suc, ◌+◌, ltb, ℤ, negsuc, Text, ◌≡◌, refl, ap, sym, ◌∙◌, Bool, true, false, not, Option,
  none, some, List, [], ◌∷◌, ◌++◌, map, Result, ok, err, if-cases,
}
use listener_go.Model.{DepositEvent}
use listener_go.Retry.{GoError}
use listener_go.Database.Buffer.{DbError}
use listener_go.Scanner.Node.{Transaction, Block, Formats, do_call}
use listener_go.Scanner.Trace.{
  CallFrame, frame, Calls, no_calls, call_then, TraceScanner, TraceState, TraceWorld, Walk,
  max_call_frame_depth,
}
use listener_go.Scanner.Trace.Frames.{
  is_empty, moved_value, trace_index, add_found, add_transfer, visit_calls, visit_frame, collect,
}
use listener_go.Scanner.Trace.Blocks.{
  Next, go_on_with, stop_with, calls_of, after_root, after_is_contract, scan_receiver,
  scan_transactions, after_block_read, scan_block,
}

-- −100000, −100001, …: the first `n` indexes.
abbrev pub first_indexes : ℕ → List ℤ
first_indexes zero = []
first_indexes (suc n) = first_indexes n ++ negsuc (99999 + n) ∷ []

abbrev pub indexes : List DepositEvent → List ℤ
indexes = map (λ ev. ev.log_index)

abbrev IsKeyed : Walk → Type 0
IsKeyed k = indexes k.out ≡ first_indexes k.counter

module _ (fmt : Formats) (s : TraceScanner) (w : TraceWorld) (tx_hash : Text) (confirmations : ℤ)
    (block_time : Text) where
  add_found-IsKeyed :
      (from to : Text) (value : ℕ) (has : Result DbError Bool) (k : Walk)
      → IsKeyed k
      → IsKeyed (add_found fmt s w tx_hash confirmations block_time from to value has k)
  unfolding add_found
  add_found-IsKeyed from to value (ok true) k keyed =
      map-append (λ (ev : DepositEvent). ev.log_index) k.out _
      ∙ ap (λ is. is ++ trace_index k.counter ∷ []) keyed
  add_found-IsKeyed from to value (ok false) k keyed = keyed
  add_found-IsKeyed from to value (err e) k keyed = keyed

  add_transfer-IsKeyed :
      (from to : Text) (v : Option ℕ) (k : Walk)
      → IsKeyed k
      → IsKeyed (add_transfer fmt s w tx_hash confirmations block_time from to v k)
  unfolding add_transfer
  add_transfer-IsKeyed from to none k keyed = keyed
  add_transfer-IsKeyed from to (some v) k keyed = add_found-IsKeyed from to v _ k keyed

  mutual
    unfolding visit_calls

    visit_calls-IsKeyed :
        (depth : ℕ) (calls : Calls) (k : Walk)
        → IsKeyed k
        → IsKeyed (visit_calls fmt s w tx_hash confirmations block_time depth calls k)
    visit_calls-IsKeyed depth no_calls k keyed = keyed
    visit_calls-IsKeyed depth (call_then f calls) k keyed =
        visit_calls-IsKeyed depth calls _ (visit_frame-IsKeyed depth f k keyed)

    visit_frame-IsKeyed :
        (depth : ℕ) (f : CallFrame) (k : Walk)
        → IsKeyed k
        → IsKeyed (visit_frame fmt s w tx_hash confirmations block_time depth f k)
    visit_frame-IsKeyed depth (frame kind from to value error calls) k keyed =
        let moved = add_transfer-IsKeyed from to (moved_value kind value) k keyed in
        let below = visit_calls-IsKeyed (suc depth) calls _ moved in
        if-cases IsKeyed (not (is_empty error)) (λ failed. keyed)
          (λ works.
            if-cases IsKeyed (ltb max_call_frame_depth (suc depth)) (λ deep. moved)
              (λ shallow. below))

  collect-IsKeyed :
      (depth : ℕ) (calls : Calls) (k : Walk)
      → IsKeyed k
      → IsKeyed (collect fmt s w tx_hash confirmations block_time depth calls k)
  unfolding collect
  collect-IsKeyed depth calls k keyed =
      if-cases IsKeyed (ltb max_call_frame_depth depth) (λ deep. keyed)
        (λ shallow. visit_calls-IsKeyed depth calls k keyed)

module _ (fmt : Formats) (s : TraceScanner) (w : TraceWorld) (confirmations : ℤ)
    (block_time : Text) where
  -- What the events of a step are keyed by.
  abbrev AreKeyed : Result GoError (List DepositEvent) → Type 0
  AreKeyed x = (evs : List DepositEvent) → x ≡ ok evs → (n : ℕ) × (indexes evs ≡ first_indexes n)

  abbrev NextIsKeyed : Next → Type 0
  NextIsKeyed (go_on_with st k) = IsKeyed k
  NextIsKeyed (stop_with st x) = AreKeyed x

  out-AreKeyed : (k : Walk) → IsKeyed k → AreKeyed (ok k.out)
  out-AreKeyed k keyed evs h =
      let same : k.out ≡ evs = cc in (k.counter, ap indexes (sym same) ∙ keyed)

  after_root-IsKeyed :
      (tx : Transaction) (k : Walk) (r : TraceState × Result GoError (Option CallFrame))
      → IsKeyed k
      → NextIsKeyed (after_root fmt s w confirmations block_time tx k r)
  unfolding after_root
  after_root-IsKeyed tx k (st, err e) keyed = keyed
  after_root-IsKeyed tx k (st, ok none) keyed = out-AreKeyed k keyed
  after_root-IsKeyed tx k (st, ok (some root)) keyed =
      if-cases NextIsKeyed st.trace_unsupported (λ off. out-AreKeyed k keyed)
        (λ on.
          collect-IsKeyed fmt s w (fmt.hash_hex tx.hash) confirmations block_time 0 (calls_of root)
            k keyed)

  after_is_contract-IsKeyed :
      (i : ℕ) (tx : Transaction) (to : ℕ) (k : Walk) (r : TraceState × Result GoError Bool)
      → IsKeyed k
      → NextIsKeyed (after_is_contract fmt s w confirmations block_time i tx to k r)
  unfolding after_is_contract
  after_is_contract-IsKeyed i tx to k (st, err e) keyed = λ evs h. absurd (cc h)
  after_is_contract-IsKeyed i tx to k (st, ok false) keyed = keyed
  after_is_contract-IsKeyed i tx to k (st, ok true) keyed = after_root-IsKeyed tx k _ keyed

  scan_receiver-IsKeyed :
      (i : ℕ) (tx : Transaction) (to : Option ℕ) (st : TraceState) (k : Walk)
      → IsKeyed k
      → NextIsKeyed (scan_receiver fmt s w confirmations block_time i tx to st k)
  unfolding scan_receiver
  scan_receiver-IsKeyed i tx none st k keyed = keyed
  scan_receiver-IsKeyed i tx (some to) st k keyed = after_is_contract-IsKeyed i tx to k _ keyed

  scan_transactions-AreKeyed :
      (i : ℕ) (txs : List Transaction) (n : Next)
      → NextIsKeyed n
      → AreKeyed (scan_transactions fmt s w confirmations block_time i txs n).1
  unfolding scan_transactions
  scan_transactions-AreKeyed i [] (stop_with st x) keyed = keyed
  scan_transactions-AreKeyed i (tx ∷ txs) (stop_with st x) keyed = keyed
  scan_transactions-AreKeyed i [] (go_on_with st k) keyed = out-AreKeyed k keyed
  scan_transactions-AreKeyed i (tx ∷ txs) (go_on_with st k) keyed =
      scan_transactions-AreKeyed (suc i) txs _ (scan_receiver-IsKeyed i tx tx.to st k keyed)

module _ (fmt : Formats) (s : TraceScanner) (w : TraceWorld) where
  after_block_read-AreKeyed :
      (c : ℤ) (st : TraceState) (r : Result GoError (Option Block)) (evs : List DepositEvent)
      → (after_block_read fmt s w c st r).1 ≡ ok evs
      → (n : ℕ) × (indexes evs ≡ first_indexes n)
  unfolding after_block_read
  after_block_read-AreKeyed c st (err e) evs h = absurd (cc h)
  after_block_read-AreKeyed c st (ok none) evs h =
      let same : [] ≡ evs = cc in (0, ap indexes (sym same))
  after_block_read-AreKeyed c st (ok (some b)) evs h =
      scan_transactions-AreKeyed fmt s w c (fmt.rfc3339 b.time) 0 b.transactions _ refl evs h

  -- Whatever the node, the traces and the account queries answer, the log indexes of the events
  -- that ScanBlock returns for a block are −100000, −100001, … in this order, so that no two are
  -- the same.
  pub scan_block-first_indexes :
      (c : ℤ) (st : TraceState) (evs : List DepositEvent)
      → (scan_block fmt s w c st).1 ≡ ok evs
      → (n : ℕ) × (indexes evs ≡ first_indexes n)
  unfolding scan_block
  scan_block-first_indexes c st evs =
      if-cases
        (λ (r : TraceState × Result GoError (List DepositEvent)).
          r.1 ≡ ok evs → (n : ℕ) × (indexes evs ≡ first_indexes n))
        st.trace_unsupported (λ off h. let same : [] ≡ evs = cc in (0, ap indexes (sym same)))
        (λ on h. after_block_read-AreKeyed c st (do_call s.retry_options none w.block) evs h)
