-- ===== src/Scanner/Trace/Disabled.antt =====
-- internal/scanner/trace_scanner.go: the scans of a scanner that may be disabled on the way.
use listener_go.Prelude.{
  ℕ, suc, ◌+◌, ◌++◌, length, ℤ, Text, ◌≡◌, refl, ap, ◌∙◌, Bool, true, false, none, some, List, [],
  ◌∷◌, All, Result, ok, err, if◌then◌else◌, if-cases, arith,
}
use listener_go.Model.{DepositEvent}
use listener_go.Retry.{GoError}
use listener_go.Scanner.Node.{Transaction, Block, Formats, Call, do_call}
use listener_go.Scanner.Trace.{TraceScanner, TraceState, TraceWorld, Walk}
use listener_go.Scanner.Trace.Code.{
  is_contract, is_method_not_found, after_trace, trace_transaction,
}
use listener_go.Scanner.Trace.Blocks.{
  go_on_with, stop_with, empty_walk, after_root, after_is_contract, scan_receiver,
  scan_transactions, after_block_read, scan_block,
}

module _ (fmt : Formats) (s : TraceScanner) where
  -- The scans of one scanner, one after the other, each with what it meets.
  pub scan_all : TraceState → List (ℤ × TraceWorld) → List (Result GoError (List DepositEvent))
  scan_all st [] = []
  scan_all st ((c, w) ∷ rest) =
      let scanned = scan_block fmt s w c st in scanned.1 ∷ scan_all scanned.0 rest

  disabled-scan :
      (w : TraceWorld) (c : ℤ) (st : TraceState)
      → st.trace_unsupported ≡ true
      → scan_block fmt s w c st ≡ (st, ok [])
  unfolding scan_block
  disabled-scan w c st off =
      ap
        (λ (b : Bool).
          if b
          then (st, ok [])
          else after_block_read fmt s w c st (do_call s.retry_options none w.block))
        off

  disabled-scans :
      (st : TraceState) (rest : List (ℤ × TraceWorld))
      → st.trace_unsupported ≡ true
      → All (λ x. x ≡ ok []) (scan_all st rest)
  unfolding scan_all
  disabled-scans st [] off = tt
  disabled-scans st ((c, w) ∷ rest) off =
      rw (disabled-scan w c st off) (refl, disabled-scans st rest off)

  missing_trace :
      (w : TraceWorld) (call : Call (List ℕ)) (st : TraceState) (e : GoError)
      → do_call s.retry_options [] call ≡ err e
      → is_method_not_found w.message e ≡ true
      → trace_transaction s.retry_options w.message w.unmarshal call st
        ≡ (record st { trace_unsupported = true }, ok none)
  unfolding trace_transaction after_trace
  missing_trace w call st e failed missing =
      ap (after_trace w.message w.unmarshal st) failed
      ∙ ap
          (λ (m : Bool).
            if m then (record st { trace_unsupported = true }, ok none) else (st, err e))
          missing

  -- The scan stops at a transaction to a contract whose trace says that there is no such method.
  missing_contract :
      (w : TraceWorld) (c : ℤ) (time : Text) (i to : ℕ) (tx : Transaction) (k : Walk) (e : GoError)
      (r : TraceState × Result GoError Bool)
      → r.1 ≡ ok true
      → do_call s.retry_options [] (w.call_context i) ≡ err e
      → is_method_not_found w.message e ≡ true
      → after_is_contract fmt s w c time i tx to k r
        ≡ stop_with (record r.0 { trace_unsupported = true }) (ok k.out)
  unfolding after_is_contract after_root
  missing_contract w c time i to tx k e (st, err x) h failed missing = absurd (cc h)
  missing_contract w c time i to tx k e (st, ok false) h failed missing = absurd (cc h)
  missing_contract w c time i to tx k e (st, ok true) h failed missing =
      ap (after_root fmt s w c time tx k) (missing_trace w (w.call_context i) st e failed missing)

  -- Contract creations have no receiver.
  skip_creations :
      (w : TraceWorld) (c : ℤ) (time : Text) (i j : ℕ) (before rest : List Transaction)
      (st : TraceState) (k : Walk)
      → All (λ t. t.to ≡ none) before
      → i + length before ≡ j
      → scan_transactions fmt s w c time i (before ++ rest) (go_on_with st k)
        ≡ scan_transactions fmt s w c time j rest (go_on_with st k)
  unfolding scan_transactions scan_receiver
  skip_creations w c time i j [] rest st k h same =
      let same' : i ≡ j = omega arith in
      ap (λ n. scan_transactions fmt s w c time n rest (go_on_with st k)) same'
  skip_creations w c time i j (t ∷ before) rest st k (h, hs) same =
      ap
        (λ o.
          scan_transactions fmt s w c time (suc i) (before ++ rest)
            (scan_receiver fmt s w c time i t o st k))
        h
      ∙ skip_creations w c time (suc i) j before rest st k hs (omega arith)

  stopped :
      (w : TraceWorld) (c : ℤ) (time : Text) (i : ℕ) (txs : List Transaction) (st : TraceState)
      (x : Result GoError (List DepositEvent))
      → scan_transactions fmt s w c time i txs (stop_with st x) ≡ (st, x)
  unfolding scan_transactions
  stopped w c time i [] st x = refl
  stopped w c time i (t ∷ txs) st x = refl

  missing_scan :
      (w : TraceWorld) (c : ℤ) (st : TraceState) (b : Block) (before after : List Transaction)
      (tx : Transaction) (to : ℕ) (e : GoError)
      → do_call s.retry_options none w.block ≡ ok (some b)
      → b.transactions ≡ before ++ tx ∷ after
      → All (λ t. t.to ≡ none) before
      → tx.to ≡ some to
      → (is_contract s.retry_options (w.code_at (length before) to) to st).1 ≡ ok true
      → do_call s.retry_options [] (w.call_context (length before)) ≡ err e
      → is_method_not_found w.message e ≡ true
      → ((scan_block fmt s w c st).0.trace_unsupported ≡ true)
        × ((scan_block fmt s w c st).1 ≡ ok [])
  unfolding scan_block after_block_read scan_transactions scan_receiver
  missing_scan w c st b before after tx to e read txs creations has_to contract failed missing =
      let time = fmt.rfc3339 b.time in
      let j = length before in
      let asked = is_contract s.retry_options (w.code_at j to) to st in
      let found : after_block_read fmt s w c st (do_call s.retry_options none w.block)
          ≡ (record asked.0 { trace_unsupported = true }, ok []) =
        ap (after_block_read fmt s w c st) read
        ∙ ap (λ l. scan_transactions fmt s w c time 0 l (go_on_with st empty_walk)) txs
        ∙ skip_creations w c time 0 j before (tx ∷ after) st empty_walk creations (omega arith)
        ∙ ap
            (λ o.
              scan_transactions fmt s w c time (suc j) after
                (scan_receiver fmt s w c time j tx o st empty_walk))
            has_to
        ∙ ap (scan_transactions fmt s w c time (suc j) after)
            (missing_contract w c time j to tx empty_walk e asked contract failed missing)
        ∙ stopped w c time (suc j) after _ (ok []) in
      if-cases
        (λ (r : TraceState × Result GoError (List DepositEvent)).
          (r.0.trace_unsupported ≡ true) × (r.1 ≡ ok []))
        st.trace_unsupported (λ off. (off, refl))
        (λ on. (ap (λ r. r.0.trace_unsupported) found, ap (λ r. r.1) found))

  -- The first transaction of a block that has a receiver goes to a contract, and its trace fails with
  -- an error that says that there is no such method: then this ScanBlock and all later ones of the
  -- scanner, whatever they meet, return no event and no error.
  pub scan_all-unsupported :
      (w : TraceWorld) (c : ℤ) (st : TraceState) (b : Block) (before after : List Transaction)
      (tx : Transaction) (to : ℕ) (e : GoError) (rest : List (ℤ × TraceWorld))
      → do_call s.retry_options none w.block ≡ ok (some b)
      → b.transactions ≡ before ++ tx ∷ after
      → All (λ t. t.to ≡ none) before
      → tx.to ≡ some to
      → (is_contract s.retry_options (w.code_at (length before) to) to st).1 ≡ ok true
      → do_call s.retry_options [] (w.call_context (length before)) ≡ err e
      → is_method_not_found w.message e ≡ true
      → All (λ x. x ≡ ok []) (scan_all st ((c, w) ∷ rest))
  unfolding scan_all
  scan_all-unsupported w c st b before after tx to e rest read txs creations has_to contract failed
        missing =
      let (off, nothing) =
        missing_scan w c st b before after tx to e read txs creations has_to contract failed
          missing in
      (nothing, disabled-scans (scan_block fmt s w c st).0 rest off)
