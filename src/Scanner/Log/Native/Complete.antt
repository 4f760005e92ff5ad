-- ===== src/Scanner/Log/Native/Complete.antt =====
-- The native transfers of a block: none is left out.
use mathlib.Core.List.{
  Mem, Perm, mem-cons_self, mem-cons_of_mem, not-mem-nil, eq-or-mem_of_mem-cons, filter_map,
}
use mathlib.Core.Logic.Or
use mathlib.Core.HLevel.{⊥_prop}
use mathlib.Core.List.Perm
use mathlib.Core.Path.{subst}
use listener_go.Prelude.{
  ℕ, suc, ℤ, Text, ◌≡◌, refl, ◌∙◌, ap, ◌⊎◌, inl, inr, Bool, false, ◌&&◌, Option, none, some, List,
  [], ◌∷◌, map, All, Result, ok, err, if◌then◌else◌, arith,
}
use listener_go.Model.{DepositEvent}
use listener_go.Retry.{GoError}
use listener_go.Database.Accounts.{any_account, lookup_text, has_many}
use listener_go.Scanner.Node.{Transaction, Block, Formats}
use listener_go.Scanner.Log.{
  LogScanner, NativeCandidate, Sent, ScanWorld, is_marked, lower_hex, address_set,
}
use listener_go.Scanner.Log.Matched.{All-marked, has_many_succeeds}
use listener_go.Scanner.Log.Native.{
  is_plain_transfer, native_candidates, wait_all, keep_matched, sender_of, native_event,
  after_senders, after_native_query, transfers_of, parse_native_transfers,
}

-- What the goroutines that succeed return.
abbrev pub as_ok : Result GoError Sent → Option Sent
as_ok (ok s) = some s
as_ok (err e) = none

abbrev pub successes : List (Result GoError Sent) → List Sent
successes = filter_map as_ok

-- `wait_all` returns all the results, or one of the errors.
pub wait_all-cases :
    (rs : List (Result GoError Sent))
    → ((wait_all rs ≡ ok (successes rs)) × ((e : GoError) → ¬ Mem (err e) rs))
      ⊎ ((e : GoError) × (wait_all rs ≡ err e) × Mem (err e) rs)
unfolding wait_all filter_map
wait_all-cases [] = inl (refl, λ e. not-mem-nil)
wait_all-cases (err e ∷ rs) = inr (e, refl, mem-cons_self)
wait_all-cases (ok s ∷ rs) = elim (wait_all-cases rs) [
  | inl (h, none_fails) ↦ inl (
    rw (h, wait_all) refl,
    λ e m. Or.elim ⊥_prop (eq-or-mem_of_mem-cons m) (λ same. cc) (none_fails e),
  )
  | inr (e, h, m) ↦ inr (e, rw (h, wait_all) refl, mem-cons_of_mem (ok s) m)
]

module _ (fmt : Formats) (s : LogScanner) (w : ScanWorld) where
  abbrev is_watched : ℕ → Bool
  is_watched to =
      any_account fmt.to_lower fmt.sql_lower s.chain.chain_id (lower_hex fmt to) w.accounts

  -- The transactions that move value without call data to a watched address, from the index `i` on.
  abbrev pub watched_transfers : ℕ → List Transaction → List NativeCandidate
  watched_transfers i [] = []
  watched_transfers i (tx ∷ txs) = elim tx.to [
    | none ↦ watched_transfers (suc i) txs
    | some to ↦
        let rest = watched_transfers (suc i) txs in
        if is_plain_transfer tx && is_watched to
        then record { tx = tx; tx_idx = i; to_addr = to } ∷ rest
        else rest
  ]

  keep_watched : List NativeCandidate → List NativeCandidate
  keep_watched [] = []
  keep_watched (c ∷ cs) =
      let rest = keep_watched cs in if is_watched c.to_addr then c ∷ rest else rest

  keep_watched-candidates :
      (i : ℕ) (txs : List Transaction)
      → keep_watched (native_candidates i txs) ≡ watched_transfers i txs
  unfolding keep_watched native_candidates
  keep_watched-candidates i [] = refl
  keep_watched-candidates i (tx ∷ txs) = ground (arith, keep_watched-candidates (suc i) txs)

  keep_matched-watched :
      (m : List (Text × Bool)) (cs : List NativeCandidate)
      → All (λ c. is_marked (lookup_text (lower_hex fmt c.to_addr) m) ≡ is_watched c.to_addr) cs
      → keep_matched fmt m cs ≡ keep_watched cs
  unfolding keep_matched keep_watched
  keep_matched-watched m [] h = refl
  keep_matched-watched m (c ∷ cs) h = ground (arith, keep_matched-watched m cs h.1)

  -- What the goroutines return, for the transfers to watched addresses.
  abbrev pub outcomes : List Transaction → List (Result GoError Sent)
  outcomes txs = map (sender_of fmt s.retry_options w) (watched_transfers 0 txs)

  module _ (confirmations : ℤ) (block_time : Text) where
    -- All the senders are found and the events are those of the watched transfers, in some order;
    -- or the error of one sender is returned.
    abbrev pub Complete : List (Result GoError Sent) → Result GoError (List DepositEvent) → Type 0
    Complete outs x =
        ((evs : List DepositEvent) × (x ≡ ok evs)
          × Perm evs (map (native_event fmt s.chain confirmations block_time) (successes outs))
          × ((e : GoError) → ¬ Mem (err e) outs))
        ⊎ ((e : GoError) × (x ≡ err e) × Mem (err e) outs)

    finished-Complete :
        (outs : List (Result GoError Sent))
        → Perm (w.finish outs) outs
        → Complete outs (after_senders fmt s w confirmations block_time (wait_all (w.finish outs)))
    unfolding after_senders
    finished-Complete outs order = elim (wait_all-cases (w.finish outs)) [
      | inl (h, none_fails) ↦
          rw (h, after_senders)
            (inl (
              map (native_event fmt s.chain confirmations block_time) (successes (w.finish outs)),
              refl,
              Perm.map (native_event fmt s.chain confirmations block_time)
                  (Perm.filter_map as_ok order),
              λ e m. none_fails e ((Perm.mem_iff order).1 m),
            ))
      | inr (e, h, m) ↦ rw (h, after_senders) (inr (e, refl, (Perm.mem_iff order).0 m))
    ]

    transfers-Complete :
        (cs : List NativeCandidate)
        → ((t : Text) → fmt.to_lower (fmt.to_lower t) ≡ fmt.to_lower t)
        → ((rs : List (Result GoError Sent)) → Perm (w.finish rs) rs)
        → w.native_query_fails ≡ false
        → Complete
            (map (sender_of fmt s.retry_options w) (keep_watched cs))
            (transfers_of fmt s w confirmations block_time cs)
    unfolding transfers_of after_native_query keep_watched filter_map
    transfers-Complete [] lower order works = inl ([], refl, Perm.refl [], λ e. not-mem-nil)
    transfers-Complete (c ∷ cs) lower order works =
        let f = λ (x : NativeCandidate). lower_hex fmt x.to_addr in
        let (m, e) =
          has_many_succeeds fmt.to_lower fmt.sql_lower s.chain.chain_id w.accounts
            (address_set (map f (c ∷ cs))) in
        let marked =
          All-marked fmt.to_lower fmt.sql_lower s.chain.chain_id w.accounts f (c ∷ cs) m
            (λ x. lower (fmt.hex x.to_addr)) e in
        let query =
          ap
            (λ (fails : Bool).
              has_many fmt.to_lower fmt.sql_lower fails s.chain.chain_id
                (address_set (map f (c ∷ cs))) w.accounts)
            works
          ∙ e in
        rw (query, after_native_query, keep_matched-watched m (c ∷ cs) marked)
          (finished-Complete (map (sender_of fmt s.retry_options w) (keep_watched (c ∷ cs)))
            (order _))

    -- The native transfers of a block, where the account query succeeds, ToLower is idempotent and
    -- the goroutines end in any order: if the sender of every transfer of value without call data
    -- to a watched address is found, the events are exactly those of these transfers; otherwise
    -- the error of one of the senders is returned, and no event.
    pub parse_native_transfers-Complete :
        (b : Block)
        → ((t : Text) → fmt.to_lower (fmt.to_lower t) ≡ fmt.to_lower t)
        → ((rs : List (Result GoError Sent)) → Perm (w.finish rs) rs)
        → w.native_query_fails ≡ false
        → Complete
            (outcomes b.transactions)
            (parse_native_transfers fmt s w confirmations block_time b)
    unfolding parse_native_transfers
    parse_native_transfers-Complete b lower order works =
        subst
          (λ (cs : List NativeCandidate).
            Complete (map (sender_of fmt s.retry_options w) cs)
              (transfers_of fmt s w confirmations block_time (native_candidates 0 b.transactions)))
          (keep_watched-candidates 0 b.transactions)
          (transfers-Complete (native_candidates 0 b.transactions) lower order works)
