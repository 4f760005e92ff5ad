-- ===== src/Scanner/Deposits.antt =====
-- The LogScanner in its polling loop: from a transfer in a block to a row in the buffer.
use mathlib.Core.List.{
  Mem, Perm, mem-cons_self, mem-cons_of_mem, not-mem-nil, eq-or-mem_of_mem-cons, mem-map_of_mem,
  mem-filter_map, Mem-prop, mem-append_left,
}
use mathlib.Core.List.Perm
use mathlib.Core.Logic.Or
use listener_go.Prelude.{
  ℕ, ◌+◌, ◌-◌, ◌≤◌, ◌<◌, ℤ, pos, u64, Text, ◌≡◌, ◌≢◌, refl, sym, ap, ◌∙◌, inl, inr, true, false,
  none, some, Option-cases, List, [], ◌∷◌, ◌++◌, Result, ok, err, Result-cases,
}
use listener_go.Model.{DepositEvent, Deposit, TimeFormats, to_deposit}
use listener_go.Retry.{GoError, retry}
use listener_go.Database.Tables.{Db, has_key}
use listener_go.Database.Buffer.{Codec, cursor, key_of}
use listener_go.Scanner.Loop.{LoopConfig, LoopId, Poll, convert_events, confirmations_at, poll_once}
use listener_go.Scanner.Loop.Coverage.{Stored, poll_once-Stored}
use listener_go.Scanner.Node.{Block, Formats, do_call}
use listener_go.Scanner.Log.{LogScanner, NativeCandidate, Sent, ScanWorld}
use listener_go.Scanner.Log.Native.{sender_of, native_event, parse_native_transfers}
use listener_go.Scanner.Log.Native.Complete.{
  as_ok, successes, watched_transfers, outcomes, parse_native_transfers-Complete,
}
use listener_go.Scanner.Log.Tokens.{tokens_of}
use listener_go.Scanner.Log.Blocks.{join_events, scan_found, after_block_read, scan_block}

has_key_prop :
    {Raw : Type 0} (d : Deposit) (db : Db Raw) → IsProp (has_key (key_of d) db.rows ≡ true)
has_key_prop d db = hlevel

Stored-key :
    {Raw : Type 0} (ds : List Deposit) (d : Deposit) (db : Db Raw)
    → Stored ds db
    → Mem d ds
    → has_key (key_of d) db.rows ≡ true
Stored-key [] d db stored m = absurd (not-mem-nil m)
Stored-key (x ∷ ds) d db (first, stored) m =
    Or.elim (has_key_prop d db) (eq-or-mem_of_mem-cons m) (λ same. rw same first)
      (Stored-key ds d db stored)

module _ {Time : Type 0} (fmt : TimeFormats Time) (now : Time) (c : ℤ) where
  Mem-convert_events :
      (evs : List DepositEvent) (ev : DepositEvent) (d : Deposit)
      → Mem ev evs
      → to_deposit fmt now ev c ≡ some d
      → Mem d (convert_events fmt now c evs)
  unfolding convert_events
  Mem-convert_events [] ev d m e = absurd (not-mem-nil m)
  Mem-convert_events (x ∷ evs) ev d m e =
      let later = λ (k : Mem ev evs). Mem-convert_events evs ev d k e in
      elim (Option-cases (to_deposit fmt now x c)) [
        | inl none_x ↦
            rw (none_x, convert_events)
              (Or.elim Mem-prop (eq-or-mem_of_mem-cons m)
                (λ same. absurd (cc (sym e ∙ ap (λ y. to_deposit fmt now y c) same ∙ none_x)))
                later)
        | inr (d', some_x) ↦
            rw (some_x, convert_events)
              (Or.elim Mem-prop (eq-or-mem_of_mem-cons m)
                (λ same.
                  let both : some d ≡ some d' =
                    sym e ∙ ap (λ y. to_deposit fmt now y c) same ∙ some_x in
                  let d_d : d ≡ d' = cc in rw d_d mem-cons_self)
                (λ k. mem-cons_of_mem d' (later k)))
      ]

Mem-successes : (rs : List (Result GoError Sent)) (s : Sent) → Mem (ok s) rs → Mem s (successes rs)
Mem-successes rs s m = (mem-filter_map as_ok rs).1 ∣ (ok s, m, refl) ∣₁

module _ (fmt : Formats) (s : LogScanner) (w : ScanWorld) where
  -- A block is scanned without an error only if its native transfers are among the events.
  scan_block-natives :
      (n : ℕ) (c : ℤ) (b : Block) (evs : List DepositEvent)
      → do_call s.retry_options none w.block ≡ ok (some b)
      → scan_block fmt s w n c ≡ ok evs
      → (natives : List DepositEvent) × (parse_native_transfers fmt s w c (fmt.rfc3339 b.time) b
          ≡ ok natives)
        × ((ev : DepositEvent) → Mem ev natives → Mem ev evs)
  unfolding scan_block after_block_read scan_found join_events
  scan_block-natives n c b evs read h =
      joined (parse_native_transfers fmt s w c (fmt.rfc3339 b.time) b)
        (tokens_of fmt s w c (fmt.rfc3339 b.time) s.decoders n) (rw (read, after_block_read) at h)
    where
      joined :
          (x y : Result GoError (List DepositEvent))
          → join_events fmt s w c (fmt.rfc3339 b.time) x y ≡ ok evs
          → (natives : List DepositEvent) × (x ≡ ok natives)
            × ((ev : DepositEvent) → Mem ev natives → Mem ev evs)
      joined (err e) y k = absurd (cc k)
      joined (ok ns) (err e) k = absurd (cc k)
      joined (ok ns) (ok ts) k =
          let same : ns ++ ts ≡ evs = cc in (ns, refl, λ ev m. rw (← same) (mem-append_left ts m))

  -- Among the events of a block that was scanned is one for each transfer to a watched address.
  scan_block-watched :
      (n : ℕ) (c : ℤ) (b : Block) (evs : List DepositEvent) (x : NativeCandidate)
      → do_call s.retry_options none w.block ≡ ok (some b)
      → scan_block fmt s w n c ≡ ok evs
      → ((t : Text) → fmt.to_lower (fmt.to_lower t) ≡ fmt.to_lower t)
      → ((rs : List (Result GoError Sent)) → Perm (w.finish rs) rs)
      → w.native_query_fails ≡ false
      → Mem x (watched_transfers fmt s w 0 b.transactions)
      → (sent : Sent) × (sender_of fmt s.retry_options w x ≡ ok sent)
        × Mem (native_event fmt s.chain c (fmt.rfc3339 b.time) sent) evs
  scan_block-watched n c b evs x read h lower order works m =
      let (natives, parsed, inside) = scan_block-natives n c b evs read h in
      let into = mem-map_of_mem (sender_of fmt s.retry_options w) m in
      elim (parse_native_transfers-Complete fmt s w c (fmt.rfc3339 b.time) b lower order works) [
        | inr (e, failed, _) ↦ absurd (cc (sym parsed ∙ failed))
        | inl (evs', e, perm, none_fails) ↦
            elim (Result-cases (sender_of fmt s.retry_options w x)) [
              | inr (err_x, failed) ↦ absurd (none_fails err_x (rw (← failed) into))
              | inl (sent, found) ↦
                  let both : ok natives ≡ ok evs' = sym parsed ∙ e in
                  let same : natives ≡ evs' = cc in
                  (
                    sent,
                    found,
                    inside _ (
                        rw same (
                          (Perm.mem_iff perm).1 (
                            mem-map_of_mem (native_event fmt s.chain c (fmt.rfc3339 b.time)) (
                              Mem-successes (outcomes fmt s w b.transactions) sent
                                (rw (← found) into))))),
                  )
            ]
      ]

module _ {Raw Time : Type 0} (codec : Codec Raw) (times : TimeFormats Time) (cfg : LoopConfig)
    (l : LoopId) (p : Poll Time) (latest m c : ℕ) (db : Db Raw)
    (blocks : cfg.max_blocks_per_poll ≡ pos m) (fits : latest + m + 2 < u64)
    (answer : (retry cfg.retry_options p.ctx_err p.cut p.block_number 0).result ≡ ok latest)
    (started : c ≢ 0) (small : c < u64 - 1) (before : cursor false l.chain_id l.name db ≡ ok c)
    (fmt : Formats) (s : LogScanner) (w : ℕ → ScanWorld)
    (scans : (b : ℕ) (n : ℤ) → p.scan b n ≡ scan_block fmt s (w b) b n) where
  -- A polling cycle of a LogScanner, in which the node reports the head `latest` and the cursor
  -- reads `c` ≠ 0, with block numbers in the range of uint64, where ToLower is idempotent: if the
  -- cursor passes the block `b`, the node answers the block, the account query succeeds and the
  -- goroutines end in any order, then for each transaction of the block that moves value without
  -- call data to a watched address the sender was found, and the deposit that its event converts
  -- to has a row in the buffer when the cycle ends, also where it ends with an error.
  pub watched_transfer-Stored :
      (c' b : ℕ) (block : Block) (x : NativeCandidate)
      → cursor false l.chain_id l.name (poll_once codec times cfg l p db).1 ≡ ok c'
      → c < b
      → b ≤ c'
      → do_call s.retry_options none (w b).block ≡ ok (some block)
      → ((t : Text) → fmt.to_lower (fmt.to_lower t) ≡ fmt.to_lower t)
      → ((rs : List (Result GoError Sent)) → Perm ((w b).finish rs) rs)
      → (w b).native_query_fails ≡ false
      → Mem x (watched_transfers fmt s (w b) 0 block.transactions)
      → (sent : Sent) × (sender_of fmt s.retry_options (w b) x ≡ ok sent)
        × ((d : Deposit)
            → to_deposit times
                (p.now b)
                (native_event fmt s.chain (confirmations_at latest b) (fmt.rfc3339 block.time) sent)
                cfg.min_confirmations
              ≡ some d
            → has_key (key_of d) (poll_once codec times cfg l p db).1.rows ≡ true)
  watched_transfer-Stored c' b block x reads lo hi read lower order works mem =
      let (evs, scanned, stored) =
        poll_once-Stored codec times cfg l p latest m c db blocks fits answer started small before
          c' b reads lo hi in
      let (sent, found, inside) =
        scan_block-watched fmt s (w b) b (confirmations_at latest b) block evs x read
          (sym (scans b (confirmations_at latest b)) ∙ scanned) lower order works mem in
      (
        sent,
        found,
        λ d converts.
            Stored-key (convert_events times (p.now b) cfg.min_confirmations evs) d
              (poll_once codec times cfg l p db).1 stored
              (Mem-convert_events times (p.now b) cfg.min_confirmations evs _ d inside converts),
      )
