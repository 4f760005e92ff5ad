-- ===== src/Scanner/Log/TokenKeys.antt =====
-- The log indexes of the token events of one block are those of logs, in their order.
use mathlib.Core.List.{Nodup, Nodup-nil, Sublistᴰ}
use mathlib.Mathlib.Data.List.Nodup
use mathlib.Core.List.Sublistᴰ
use listener_go.Prelude.{
  ℕ, ℤ, to_int64, to_int64_small, i64, pos, All, ◌<◌, Text, ◌≡◌, refl, inl, inr, Bool, ◌&&◌, ltb,
  Option, none, some, Option-cases, List, [], ◌∷◌, length, map, Result, ok, err, Result-cases,
  if-cases, arith,
}
use listener_go.Model.{DepositEvent}
use listener_go.Retry.{GoError}
use listener_go.Database.Buffer.{DbError}
use listener_go.Database.Chains.{ContractInfo}
use listener_go.Database.Accounts.{lookup_text}
use listener_go.Scanner.Node.{Log, Formats, do_call}
use listener_go.Scanner.Decoder.{Decoder, Registry, lookup}
use listener_go.Scanner.Decoder.Dispatch.{KeepsIndex}
use listener_go.Scanner.Log.Registered.{AllKeepIndex}
use listener_go.Scanner.Log.{LogScanner, ScanWorld, is_marked}
use listener_go.Scanner.Log.Tokens.{
  token_context, decode_with, decode_topic, decode_log, contract_of, collect_event,
  token_candidates, matched_events, after_token_query, events_of, after_filter_logs, filter_query,
  parse_token_transfers, tokens_of,
}

abbrev pub log_index_of : Log → ℤ
log_index_of log = to_int64 log.index

map-log_index_of :
    (logs : List Log)
    → All (λ l. l.index < i64) logs
    → map log_index_of logs ≡ map pos (map (λ l. l.index) logs)
map-log_index_of [] small = refl
map-log_index_of (l ∷ logs) small =
    rw (to_int64_small l.index small.0, map-log_index_of logs small.1) refl

module _ (fmt : Formats) (s : LogScanner) (w : ScanWorld) (confirmations : ℤ)
    (block_time : Text) where
  decode_with-index :
      (log : Log) (info : ContractInfo) (d : Decoder) (ev : DepositEvent)
      → KeepsIndex d
      → decode_with fmt s w confirmations block_time log info (some d) ≡ ok (some ev)
      → ev.log_index ≡ log_index_of log
  unfolding decode_with
  decode_with-index log info d ev keeps h =
      elim (Result-cases
        (d.decode log info (token_context fmt s w confirmations block_time info))) [
          | inl (x, e) ↦
              keeps log info (token_context fmt s w confirmations block_time info) ev
                (cc (rw e at h))
          | inr (x, e) ↦ absurd (cc (rw e at h))
        ]

  decode_topic-index :
      (r : Registry) (log : Log) (ts : List ℕ) (info : ContractInfo) (ev : DepositEvent)
      → AllKeepIndex r
      → decode_topic fmt s w confirmations block_time r log ts info ≡ ok (some ev)
      → ev.log_index ≡ log_index_of log
  unfolding decode_topic decode_with
  decode_topic-index r log [] info ev keeps h = absurd (cc h)
  decode_topic-index r log (t ∷ ts) info ev keeps h = elim (Option-cases (lookup r t)) [
    | inl e ↦ absurd (cc (rw (e, decode_with) at h))
    | inr (d, e) ↦ decode_with-index log info d ev (keeps t d e) (rw e at h)
  ]

  decode_log-index :
      (r : Registry) (log : Log) (info : Option ContractInfo) (ev : DepositEvent)
      → AllKeepIndex r
      → decode_log fmt s w confirmations block_time r log info ≡ ok (some ev)
      → ev.log_index ≡ log_index_of log
  unfolding decode_log
  decode_log-index r log none ev keeps h = absurd (cc h)
  decode_log-index r log (some info) ev keeps h =
      decode_topic-index r log log.topics info ev keeps h

  abbrev indexes : List DepositEvent → List ℤ
  indexes = map (λ ev. ev.log_index)

  collect_event-keys :
      (log : Log) (logs : List Log) (x : Result GoError (Option DepositEvent))
      (rest : Result GoError (List DepositEvent)) (evs : List DepositEvent)
      → ((ev : DepositEvent) → x ≡ ok (some ev) → ev.log_index ≡ log_index_of log)
      → ((tail : List DepositEvent)
          → rest ≡ ok tail
          → Sublistᴰ (indexes tail) (map log_index_of logs))
      → collect_event fmt s w confirmations block_time x rest ≡ ok evs
      → Sublistᴰ (indexes evs) (map log_index_of (log ∷ logs))
  unfolding collect_event
  collect_event-keys log logs (err e) rest evs one more h = absurd (cc h)
  collect_event-keys log logs (ok none) rest evs one more h = Sublistᴰ.cons (more evs h)
  collect_event-keys log logs (ok (some ev)) (ok tail) evs one more h =
      let same : ev ∷ tail ≡ evs = cc in
      rw (← same) (Sublistᴰ.cons-cons (one ev refl) (more tail refl))
  collect_event-keys log logs (ok (some ev)) (err e) evs one more h = absurd (cc h)

  token_candidates-keys :
      (r : Registry) (logs : List Log) (evs : List DepositEvent)
      → AllKeepIndex r
      → token_candidates fmt s w confirmations block_time r logs ≡ ok evs
      → Sublistᴰ (indexes evs) (map log_index_of logs)
  unfolding token_candidates
  token_candidates-keys r [] evs keeps h = let same : [] ≡ evs = cc in rw (← same) Sublistᴰ.slnil
  token_candidates-keys r (log ∷ logs) evs keeps h =
      collect_event-keys log logs _ _ evs
        (λ ev. decode_log-index r log (contract_of fmt s w confirmations block_time log) ev keeps)
        (λ tail. token_candidates-keys r logs tail keeps) h

  matched_events-keys :
      (m : List (Text × Bool)) (evs : List DepositEvent)
      → Sublistᴰ (indexes (matched_events fmt s w confirmations block_time m evs)) (indexes evs)
  unfolding matched_events
  matched_events-keys m [] = Sublistᴰ.slnil
  matched_events-keys m (ev ∷ evs) =
      if-cases (λ (kept : List DepositEvent). Sublistᴰ (indexes kept) (indexes (ev ∷ evs)))
        (is_marked (lookup_text (fmt.to_lower ev.to_address) m))
        (λ marked. Sublistᴰ.cons-cons refl (matched_events-keys m evs))
        (λ other. Sublistᴰ.cons (matched_events-keys m evs))

  after_token_query-keys :
      (cs evs : List DepositEvent) (q : Result DbError (List (Text × Bool)))
      → after_token_query fmt s w confirmations block_time cs q ≡ ok evs
      → Sublistᴰ (indexes evs) (indexes cs)
  unfolding after_token_query
  after_token_query-keys cs evs (err e) h = absurd (cc h)
  after_token_query-keys cs evs (ok m) h =
      let same : matched_events fmt s w confirmations block_time m cs ≡ evs = cc in
      rw (← same) (matched_events-keys m cs)

  events_of-keys :
      (logs : List Log) (x : Result GoError (List DepositEvent)) (evs : List DepositEvent)
      → ((cs : List DepositEvent) → x ≡ ok cs → Sublistᴰ (indexes cs) (map log_index_of logs))
      → events_of fmt s w confirmations block_time x ≡ ok evs
      → Sublistᴰ (indexes evs) (map log_index_of logs)
  unfolding events_of
  events_of-keys logs (err e) evs from h = absurd (cc h)
  events_of-keys logs (ok []) evs from h = from evs h
  events_of-keys logs (ok (c ∷ cs)) evs from h =
      Sublistᴰ.trans (after_token_query-keys (c ∷ cs) evs _ h) (from (c ∷ cs) refl)

  -- The logs that the node answers.
  abbrev pub answered_logs : Registry → ℕ → Result GoError (List Log)
  answered_logs r block_number =
      do_call s.retry_options []
        (w.logs (filter_query fmt s w confirmations block_time r block_number))

  parse_token_transfers-keys :
      (r : Registry) (block_number : ℕ) (evs : List DepositEvent)
      → AllKeepIndex r
      → parse_token_transfers fmt s w confirmations block_time r block_number ≡ ok evs
      → (logs : List Log) × (answered_logs r block_number ≡ ok logs)
        × Sublistᴰ (indexes evs) (map log_index_of logs)
  unfolding parse_token_transfers after_filter_logs
  parse_token_transfers-keys r block_number evs keeps h =
      elim (Result-cases (answered_logs r block_number)) [
        | inl (logs, e) ↦ (
          logs,
          e,
          events_of-keys logs (token_candidates fmt s w confirmations block_time r logs) evs
              (λ cs. token_candidates-keys r logs cs keeps) (rw (e, after_filter_logs) at h),
        )
        | inr (x, e) ↦ absurd (cc (rw (e, after_filter_logs) at h))
      ]

  -- The logs of one answer have different indexes, below 2^63.
  abbrev pub DifferentIndexes : Registry → ℕ → Type 0
  DifferentIndexes r block_number =
      (logs : List Log)
      → answered_logs r block_number ≡ ok logs
      → Nodup (map (λ l. l.index) logs) × All (λ l. l.index < i64) logs

  -- The keys of the token events are different numbers that are not negative.
  pub tokens_of-keys :
      (r : Registry) (block_number : ℕ) (evs : List DepositEvent)
      → AllKeepIndex r
      → DifferentIndexes r block_number
      → tokens_of fmt s w confirmations block_time (some r) block_number ≡ ok evs
      → (ns : List ℕ) × Nodup (map pos ns) × Sublistᴰ (indexes evs) (map pos ns)
  unfolding tokens_of
  tokens_of-keys r block_number evs keeps good =
      if-cases
        (λ (x : Result GoError (List DepositEvent)).
          x ≡ ok evs → (ns : List ℕ) × Nodup (map pos ns) × Sublistᴰ (indexes evs) (map pos ns))
        (ltb 0 (length s.chain.contracts) && ltb 0 (length r.topics))
        (λ looks h.
          let (logs, e, sub) = parse_token_transfers-keys r block_number evs keeps h in
          let (different, small) = good logs e in
          (
            map (λ l. l.index) logs,
            Nodup.map (λ m n same. ground arith) different,
            rw (← map-log_index_of logs small) sub,
          ))
        (λ none_known h. let same : [] ≡ evs = cc in ([], Nodup-nil, rw (← same) Sublistᴰ.slnil))
