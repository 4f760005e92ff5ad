-- ===== src/Scanner/Log/Native.antt =====
-- `parseNativeTransfers` of internal/scanner/log_scanner.go.
pub mod Complete
use listener_go.Prelude.{
  ℕ, suc, ltb, ℤ, pos, negsuc, Text, codes, Bool, false, none, some, List, [], ◌∷◌, ◌++◌, map,
  Result, ok, err, if◌then◌else◌,
}
use listener_go.Model.{DepositEvent}
use listener_go.Retry.{GoError, wrapped, Options}
use listener_go.Database.Buffer.{DbError}
use listener_go.Database.Chains.{ChainConfig}
use listener_go.Database.Accounts.{lookup_text, has_many}
use listener_go.Scanner.Node.{Transaction, Block, Formats, do_call}
use listener_go.Scanner.Log.{
  LogScanner, NativeCandidate, Sent, ScanWorld, has_many_error, is_marked, lower_hex, address_set,
}

-- The value is positive and there is no call data.
unfoldable pub is_plain_transfer : Transaction → Bool
is_plain_transfer tx = elim tx.payload [
  | [] ↦ elim tx.value [ pos n ↦ ltb 0 n | negsuc n ↦ false ]
  | b ∷ bs ↦ false
]

-- Step 1, from the transaction `i` on.
unfoldable pub native_candidates : ℕ → List Transaction → List NativeCandidate
native_candidates i [] = []
native_candidates i (tx ∷ txs) =
    let rest = native_candidates (suc i) txs in
    elim tx.to [
      | none ↦ rest
      | some to ↦
          if is_plain_transfer tx then record { tx = tx; tx_idx = i; to_addr = to } ∷ rest else rest
    ]

-- g.Wait: the first error, or the results in the order in which the goroutines ended.
unfoldable pub wait_all : List (Result GoError Sent) → Result GoError (List Sent)
wait_all [] = ok []
wait_all (err e ∷ rs) = err e
wait_all (ok s ∷ rs) = elim (wait_all rs) [ ok ss ↦ ok (s ∷ ss) | err e ↦ err e ]

module _ (fmt : Formats) where
  unfoldable pub keep_matched : List (Text × Bool) → List NativeCandidate → List NativeCandidate
  keep_matched m [] = []
  keep_matched m (c ∷ cs) =
      let rest = keep_matched m cs in
      if is_marked (lookup_text (lower_hex fmt c.to_addr) m) then c ∷ rest else rest

  -- A goroutine: the sender of one transaction.
  unfoldable pub sender_answer : NativeCandidate → Result GoError ℕ → Result GoError Sent
  sender_answer c (ok from) = ok (record { candidate = c; from = from })
  sender_answer c (err e) = err (wrapped (codes "sender of " ++ fmt.hash_hex c.tx.hash) e)

  unfoldable pub sender_of : Options → ScanWorld → NativeCandidate → Result GoError Sent
  sender_of opt w c = sender_answer c (do_call opt 0 (w.sender c.tx_idx))

  -- nativeLogIndexBase - txIdx
  abbrev pub native_index : ℕ → ℤ
  native_index i = negsuc i

  unfoldable pub native_event : ChainConfig → ℤ → Text → Sent → DepositEvent
  native_event chain confirmations block_time s = record {
    chain_id = chain.chain_id;
    tx_hash = fmt.hash_hex s.candidate.tx.hash;
    log_index = native_index s.candidate.tx_idx;
    from_address = fmt.hex s.from;
    to_address = fmt.hex s.candidate.to_addr;
    amount = some s.candidate.tx.value;
    symbol = chain.native;
    decimals = chain.decimals;
    confirmations = confirmations;
    transaction_datetime = block_time;
  }

module _ (fmt : Formats) (s : LogScanner) (w : ScanWorld) (confirmations : ℤ)
    (block_time : Text) where
  unfoldable pub after_senders : Result GoError (List Sent) → Result GoError (List DepositEvent)
  after_senders (err e) = err e
  after_senders (ok rs) = ok (map (native_event fmt s.chain confirmations block_time) rs)

  unfoldable pub after_native_query :
      List NativeCandidate
      → Result DbError (List (Text × Bool))
      → Result GoError (List DepositEvent)
  after_native_query cs (err e) = err (has_many_error e)
  after_native_query cs (ok m) =
      after_senders
        (wait_all (w.finish (map (sender_of fmt s.retry_options w) (keep_matched fmt m cs))))

  unfoldable pub transfers_of : List NativeCandidate → Result GoError (List DepositEvent)
  transfers_of [] = ok []
  transfers_of (c ∷ cs) = after_native_query (c ∷ cs) (
      has_many fmt.to_lower fmt.sql_lower w.native_query_fails s.chain.chain_id
        (address_set (map (λ x. lower_hex fmt x.to_addr) (c ∷ cs))) w.accounts)

  unfoldable pub parse_native_transfers : Block → Result GoError (List DepositEvent)
  parse_native_transfers b = transfers_of (native_candidates 0 b.transactions)
