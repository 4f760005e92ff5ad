-- ===== src/Scanner/Log/Distinct.antt =====
-- The events of one block have different keys.
use mathlib.Core.List.{
  Mem, Nodup, Nodup-nil, Nodup-append, Perm, Sublistᴰ, map-append, exists_of_mem-map,
}
use mathlib.Core.List.Nodup
use mathlib.Core.List.Sublist
use mathlib.Core.HLevel.{⊥_prop}
use mathlib.Core.Logic.{∥∥₁_elim}
use listener_go.Prelude.{
  ℕ, ℤ, pos, Text, ◌≡◌, refl, ap, sym, ◌∙◌, inl, inr, Option, none, some, Option-cases, List, [],
  ◌++◌, map, Result, ok, err, Result-cases, arith,
}
use listener_go.Model.{DepositEvent}
use listener_go.Retry.{GoError}
use listener_go.Decryption.{Decryptor}
use listener_go.Listener.{decoders_for_chain}
use listener_go.Scanner.Node.{Formats, do_call}
use listener_go.Scanner.Decoder.{Registry}
use listener_go.Scanner.Log.{LogScanner, Sent, ScanWorld}
use listener_go.Scanner.Log.Native.{native_candidates, parse_native_transfers}
use listener_go.Scanner.Log.Tokens.{tokens_of}
use listener_go.Scanner.Log.Blocks.{join_events, scan_found, after_block_read, scan_block}
use listener_go.Scanner.Log.Keys.{candidates-Nodup, index_of_sent, transfers-keys}
use listener_go.Scanner.Log.Registered.{decoders_for_chain-AllKeepIndex}
use listener_go.Scanner.Log.TokenKeys.{DifferentIndexes, tokens_of-keys}

module _ (fmt : Formats) (s : LogScanner) (w : ScanWorld) where
  abbrev indexes : List DepositEvent → List ℤ
  indexes = map (λ ev. ev.log_index)

  negative-positive :
      (xs : List Sent) (ns : List ℕ) (a : ℤ) → Mem a (map index_of_sent xs) → ¬ Mem a (map pos ns)
  negative-positive xs ns a m₁ m₂ = ∥∥₁_elim (exists_of_mem-map m₁) ⊥_prop (λ p.
      ∥∥₁_elim (exists_of_mem-map m₂) ⊥_prop
        (λ q. let (x, mx, ex) = p in let (n, mn, en) = q in ground arith))

  append-Nodup :
      (news bs : List DepositEvent) (xs : List Sent) (ns : List ℕ)
      → indexes news ≡ map index_of_sent xs
      → Nodup (map index_of_sent xs)
      → Nodup (map pos ns)
      → Sublistᴰ (indexes bs) (map pos ns)
      → Nodup (indexes (news ++ bs))
  append-Nodup news bs xs ns e n₁ n₂ sub =
      rw (map-append (λ (ev : DepositEvent). ev.log_index) news bs, e)
        (Nodup-append.1 (
          n₁,
          Nodup.sublist ∣ sub ∣₁ n₂,
          λ a m₁ m₂. negative-positive xs ns a m₁ (Sublist.subset ∣ sub ∣₁ a m₂),
        ))

  join-Nodup :
      (c : ℤ) (time : Text) (x y : Result GoError (List DepositEvent)) (evs : List DepositEvent)
      → ((news : List DepositEvent)
          → x ≡ ok news
          → (xs : List Sent) × (indexes news ≡ map index_of_sent xs) × Nodup (map index_of_sent xs))
      → ((bs : List DepositEvent)
          → y ≡ ok bs
          → (ns : List ℕ) × Nodup (map pos ns) × Sublistᴰ (indexes bs) (map pos ns))
      → join_events fmt s w c time x y ≡ ok evs
      → Nodup (indexes evs)
  unfolding join_events
  join-Nodup c time (err e) y evs native tokens h = absurd (cc h)
  join-Nodup c time (ok news) (err e) evs native tokens h = absurd (cc h)
  join-Nodup c time (ok news) (ok bs) evs native tokens h =
      let same : news ++ bs ≡ evs = cc in
      let (xs, e, n₁) = native news refl in
      let (ns, n₂, sub) = tokens bs refl in rw (← same) (append-Nodup news bs xs ns e n₁ n₂ sub)

  -- Where the goroutines of the errgroup end in any order and the logs that the node answers for
  -- the block have different indexes below 2^63, the events that ScanBlock returns for the block
  -- have different log indexes, native transfers and tokens together, so that the key
  -- (chain, hash, log index) of one is never that of another.
  pub scan_block-Nodup :
      (chain_type : Text) (d : Decryptor) (block_number : ℕ) (c : ℤ) (evs : List DepositEvent)
      → s.decoders ≡ some (decoders_for_chain fmt chain_type d)
      → ((rs : List (Result GoError Sent)) → Perm (w.finish rs) rs)
      → ((time : Text)
          → DifferentIndexes fmt s w c time (decoders_for_chain fmt chain_type d) block_number)
      → scan_block fmt s w block_number c ≡ ok evs
      → Nodup (indexes evs)
  unfolding scan_block after_block_read scan_found parse_native_transfers
  scan_block-Nodup chain_type d block_number c evs decoders order good h =
      elim (Result-cases (do_call s.retry_options none w.block)) [
        | inr (e, failed) ↦ absurd (cc (rw (failed, after_block_read) at h))
        | inl (found, read) ↦ elim (Option-cases found) [
          | inl e ↦
              let same : [] ≡ evs = cc (rw (read, e, after_block_read) at h) in
              rw (← same) Nodup-nil
          | inr (b, e) ↦
              join-Nodup c (fmt.rfc3339 b.time)
                (parse_native_transfers fmt s w c (fmt.rfc3339 b.time) b)
                (tokens_of fmt s w c (fmt.rfc3339 b.time) s.decoders block_number) evs
                (λ news works.
                  transfers-keys fmt s w c (fmt.rfc3339 b.time) (native_candidates 0 b.transactions)
                    news (candidates-Nodup 0 b.transactions) order works)
                (λ bs works.
                  tokens_of-keys fmt s w c (fmt.rfc3339 b.time)
                    (decoders_for_chain fmt chain_type d) block_number bs
                    (decoders_for_chain-AllKeepIndex fmt chain_type d) (good (fmt.rfc3339 b.time))
                    (ap
                        (λ (o : Option Registry).
                          tokens_of fmt s w c (fmt.rfc3339 b.time) o block_number)
                        (sym decoders)
                      ∙ works))
                (rw (read, e, after_block_read) at h)
        ]
      ]
