-- ===== src/Scanner/Log/Keys.antt =====
-- The log indexes of the events of one block are different, so that no deposit of the block takes
-- the row of another.
use mathlib.Core.HLevel.{⊥_prop}
use mathlib.Core.List.{
  Mem, Nodup, Perm, Sublistᴰ, not-mem-nil, eq-or-mem_of_mem-cons, Nodup-cons, Nodup-nil, filter_map,
}
use mathlib.Core.List.Nodup
use mathlib.Core.List.Perm
use mathlib.Core.List.Sublistᴰ
use mathlib.Core.Logic.Or
use listener_go.Prelude.{
  ℕ, suc, ◌<◌, ℤ, negsuc, Text, ◌≡◌, refl, ap, inl, inr, Bool, Option-cases, List, [], ◌∷◌, map,
  Result, ok, Result-cases, if-cases, arith,
}
use listener_go.Model.{DepositEvent}
use listener_go.Retry.{GoError}
use listener_go.Database.Accounts.{lookup_text, has_many}
use listener_go.Scanner.Node.{Transaction, Formats, do_call}
use listener_go.Scanner.Log.{
  LogScanner, NativeCandidate, Sent, ScanWorld, is_marked, lower_hex, address_set,
}
use listener_go.Scanner.Log.Native.{
  is_plain_transfer, native_candidates, wait_all, keep_matched, sender_answer, sender_of,
  native_event, after_senders, after_native_query, transfers_of,
}
use listener_go.Scanner.Log.Native.Complete.{as_ok, successes, wait_all-cases}

abbrev pub index_of_candidate : NativeCandidate → ℤ
index_of_candidate c = negsuc c.tx_idx

-- The indexes below `i` are not among those of the transactions from `i` on.
candidates-from :
    (i j : ℕ) (txs : List Transaction)
    → j < i
    → ¬ Mem (negsuc j) (map index_of_candidate (native_candidates i txs))
unfolding native_candidates
candidates-from i j [] lt = λ m. not-mem-nil m
candidates-from i j (tx ∷ txs) lt = elim (Option-cases tx.to) [
  | inl e ↦ rw (e, native_candidates) (candidates-from (suc i) j txs (omega arith))
  | inr (to, e) ↦
      rw (e, native_candidates)
        (if-cases (λ (cs : List NativeCandidate). ¬ Mem (negsuc j) (map index_of_candidate cs))
          (is_plain_transfer tx)
          (λ plain m.
            Or.elim ⊥_prop (eq-or-mem_of_mem-cons m) (λ same. ground arith)
              (candidates-from (suc i) j txs (omega arith)))
          (λ other. candidates-from (suc i) j txs (omega arith)))
]

pub candidates-Nodup :
    (i : ℕ) (txs : List Transaction) → Nodup (map index_of_candidate (native_candidates i txs))
unfolding native_candidates
candidates-Nodup i [] = Nodup-nil
candidates-Nodup i (tx ∷ txs) = elim (Option-cases tx.to) [
  | inl e ↦ rw (e, native_candidates) (candidates-Nodup (suc i) txs)
  | inr (to, e) ↦
      rw (e, native_candidates)
        (if-cases (λ (cs : List NativeCandidate). Nodup (map index_of_candidate cs))
          (is_plain_transfer tx)
          (λ plain.
            Nodup-cons.1
              (candidates-from (suc i) i txs (omega arith), candidates-Nodup (suc i) txs))
          (λ other. candidates-Nodup (suc i) txs))
]

abbrev pub index_of_sent : Sent → ℤ
index_of_sent x = index_of_candidate x.candidate

module _ (fmt : Formats) where
  keep_matched-Sublist :
      (m : List (Text × Bool)) (cs : List NativeCandidate)
      → Sublistᴰ (map index_of_candidate (keep_matched fmt m cs)) (map index_of_candidate cs)
  unfolding keep_matched
  keep_matched-Sublist m [] = Sublistᴰ.slnil
  keep_matched-Sublist m (c ∷ cs) =
      if-cases
        (λ (kept : List NativeCandidate).
          Sublistᴰ (map index_of_candidate kept) (map index_of_candidate (c ∷ cs)))
        (is_marked (lookup_text (lower_hex fmt c.to_addr) m))
        (λ marked. Sublistᴰ.cons-cons refl (keep_matched-Sublist m cs))
        (λ other. Sublistᴰ.cons (keep_matched-Sublist m cs))

  module _ (s : LogScanner) (w : ScanWorld) where
    successes-Sublist :
        (cs : List NativeCandidate)
        → Sublistᴰ
            (map index_of_sent (successes (map (sender_of fmt s.retry_options w) cs)))
            (map index_of_candidate cs)
    unfolding filter_map sender_of sender_answer
    successes-Sublist [] = Sublistᴰ.slnil
    successes-Sublist (c ∷ cs) =
        elim (Result-cases (do_call s.retry_options 0 (w.sender c.tx_idx))) [
          | inl (from, e) ↦ rw (e, sender_answer) (Sublistᴰ.cons-cons refl (successes-Sublist cs))
          | inr (x, e) ↦ rw (e, sender_answer) (Sublistᴰ.cons (successes-Sublist cs))
        ]

    module _ (confirmations : ℤ) (block_time : Text) where
      -- The events are those of the senders found for kept candidates, in some order.
      abbrev FromSenders : List NativeCandidate → List DepositEvent → Type 0
      FromSenders kept evs =
          (xs : List Sent) × (evs ≡ map (native_event fmt s.chain confirmations block_time) xs)
          × Perm xs (successes (map (sender_of fmt s.retry_options w) kept))

      after_senders-FromSenders :
          (kept : List NativeCandidate) (evs : List DepositEvent)
          → ((rs : List (Result GoError Sent)) → Perm (w.finish rs) rs)
          → after_senders fmt s w confirmations block_time
              (wait_all (w.finish (map (sender_of fmt s.retry_options w) kept)))
            ≡ ok evs
          → FromSenders kept evs
      unfolding after_senders
      after_senders-FromSenders kept evs order h =
          let outs = map (sender_of fmt s.retry_options w) kept in
          elim (wait_all-cases (w.finish outs)) [
            | inl (e, none_fails) ↦ (
              successes (w.finish outs),
              cc (rw (e, after_senders) at h),
              Perm.filter_map as_ok (order outs),
            )
            | inr (x, e, m) ↦ absurd (cc (rw (e, after_senders) at h))
          ]

      map-index_of_sent :
          (xs : List Sent)
          → map (λ x. x.log_index) (map (native_event fmt s.chain confirmations block_time) xs)
            ≡ map index_of_sent xs
      unfolding native_event
      map-index_of_sent [] = refl
      map-index_of_sent (x ∷ xs) = ap (λ l. index_of_sent x ∷ l) (map-index_of_sent xs)

      pub transfers-keys :
          (cs : List NativeCandidate) (evs : List DepositEvent)
          → Nodup (map index_of_candidate cs)
          → ((rs : List (Result GoError Sent)) → Perm (w.finish rs) rs)
          → transfers_of fmt s w confirmations block_time cs ≡ ok evs
          → (xs : List Sent) × (map (λ x. x.log_index) evs ≡ map index_of_sent xs)
            × Nodup (map index_of_sent xs)
      unfolding transfers_of after_native_query
      transfers-keys [] evs n order h = ([], ground arith, Nodup-nil)
      transfers-keys (c ∷ cs) evs n order h =
          elim (Result-cases (
            has_many fmt.to_lower fmt.sql_lower w.native_query_fails s.chain.chain_id
              (address_set (map (λ x. lower_hex fmt x.to_addr) (c ∷ cs))) w.accounts)) [
                | inr (x, e) ↦ absurd (cc (rw (e, after_native_query) at h))
                | inl (m, e) ↦
                    let kept = keep_matched fmt m (c ∷ cs) in
                    let (xs, same, order') =
                      after_senders-FromSenders kept evs order (rw (e, after_native_query) at h) in
                    let sub =
                      Sublistᴰ.trans (successes-Sublist kept) (keep_matched-Sublist m (c ∷ cs)) in
                    let found = Nodup.sublist ∣ sub ∣₁ n in
                    let order'' = Perm.symm (Perm.map index_of_sent order') in
                    (xs, rw same (map-index_of_sent xs), Perm.nodup order'' found)
              ]
