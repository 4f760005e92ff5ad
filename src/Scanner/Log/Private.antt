-- ===== src/Scanner/Log/Private.antt =====
-- The eERC transfers of a block: their amounts cannot be decrypted yet.
use mathlib.Core.Path.{subst}
use listener_go.Prelude.{
  ℕ, ltb, ==_iff, ℤ, pos, Text, codes, eq_text, ◌≡◌, refl, sym, inl, inr, true, false, Option, none,
  some, Option-cases, List, [], ◌∷◌, ◌++◌, length, map, Result, ok, err, arith,
}
use listener_go.Model.{DepositEvent}
use listener_go.Retry.{GoError}
use listener_go.Decryption.{Decryptor, validate_pct, decrypt_amount}
use listener_go.Listener.{decrypt_words, decoders_for_chain}
use listener_go.Database.Chains.{ContractInfo}
use listener_go.Scanner.Node.{Block, Log, Formats, do_call}
use listener_go.Scanner.Decoder.{
  Context, Registry, lookup, lookup_topic, register, register_topics, private_transfer_topic, words,
  after_decrypt, decode_private, eerc,
}
use listener_go.Scanner.Log.{LogScanner, ScanWorld, lookup_contract}
use listener_go.Scanner.Log.Native.{parse_native_transfers}
use listener_go.Scanner.Log.Tokens.{
  token_context, decode_with, decode_topic, decode_log, contract_of, collect_event,
  token_candidates, events_of, after_filter_logs, parse_token_transfers, tokens_of,
}
use listener_go.Scanner.Log.TokenKeys.{answered_logs}
use listener_go.Scanner.Log.Blocks.{join_events, scan_found, after_block_read, scan_block}

abbrev Fails : {A : Type 0} → Result GoError A → Type 0
Fails x = (e : GoError) × (x ≡ err e)

decrypt_amount-Fails : (d : Decryptor) (pct : List (Option ℤ)) → Fails (decrypt_amount d pct)
unfolding decrypt_amount
decrypt_amount-Fails Decryptor.noop pct = (_, refl)
decrypt_amount-Fails (Decryptor.env key) pct = elim (Option-cases (validate_pct pct)) [
  | inl e ↦ rw (e, decrypt_amount) (_, refl)
  | inr (x, e) ↦ rw (e, decrypt_amount) (_, refl)
]

module _ (fmt : Formats) (d : Decryptor) where
  -- A well-formed PrivateTransfer: four topics, and seven words of data.
  abbrev IsPrivateTransfer : Log → Type 0
  IsPrivateTransfer log =
      (from : ℕ) × (to : ℕ) × (auditor : ℕ) × (ts : List ℕ) × (log.topics
        ≡ private_transfer_topic fmt ∷ from ∷ to ∷ auditor ∷ ts)
      × (ltb (length log.payload) 224 ≡ false)

  decode-Fails :
      (log : Log) (info : ContractInfo) (ctx : Context)
      → IsPrivateTransfer log
      → Fails (decode_private fmt (decrypt_words d) log.topics log info ctx)
  unfolding decode_private after_decrypt
  decode-Fails log info ctx (from, to, auditor, ts, e, long) =
      let (x, fails) = decrypt_amount-Fails d (map (λ n. some (pos n)) (words fmt 7 log.payload)) in
      rw
        (
          e,
          decode_private,
          long,
          (==_iff (private_transfer_topic fmt) (private_transfer_topic fmt)).1 refl,
          fails,
        )
        (_, refl)

  abbrev eerc_registry : Registry
  eerc_registry = decoders_for_chain fmt (codes "eerc20") d

  finds-eerc : lookup eerc_registry (private_transfer_topic fmt) ≡ some (eerc fmt (decrypt_words d))
  unfolding decoders_for_chain register register_topics lookup lookup_topic eq_text
  finds-eerc = rw ((==_iff (private_transfer_topic fmt) (private_transfer_topic fmt)).1 refl) refl

  topics-eerc : ltb 0 (length eerc_registry.topics) ≡ true
  unfolding decoders_for_chain register register_topics lookup lookup_topic eq_text
  topics-eerc = refl

  module _ (s : LogScanner) (w : ScanWorld) (c : ℤ) (time : Text) where
    decode_log-Fails :
        (log : Log) (info : ContractInfo)
        → IsPrivateTransfer log
        → Fails (decode_log fmt s w c time eerc_registry log (some info))
    unfolding decode_log decode_topic decode_with
    decode_log-Fails log info (from, to, auditor, ts, e, long) =
        let (x, fails) =
          decode-Fails log info (token_context fmt s w c time info)
            (from, to, auditor, ts, e, long) in
        rw (e, decode_topic, finds-eerc, decode_with, fails) (_, refl)

    collect-Fails :
        (x : Result GoError (Option DepositEvent)) (rest : Result GoError (List DepositEvent))
        → Fails rest
        → Fails (collect_event fmt s w c time x rest)
    unfolding collect_event
    collect-Fails (err e) rest (e', h) = (e, refl)
    collect-Fails (ok none) rest (e', h) = (e', h)
    collect-Fails (ok (some ev)) rest (e', h) = rw (h, collect_event) (e', refl)

    candidates-Fails :
        (before after : List Log) (log : Log)
        → Fails (decode_log fmt s w c time eerc_registry log (contract_of fmt s w c time log))
        → Fails (token_candidates fmt s w c time eerc_registry (before ++ log ∷ after))
    unfolding token_candidates collect_event
    candidates-Fails [] after log (e, h) = rw (h, collect_event) (e, refl)
    candidates-Fails (l ∷ before) after log fails =
        collect-Fails _ _ (candidates-Fails before after log fails)

    tokens-Fails :
        (block_number : ℕ) (before after : List Log) (log : Log) (info : ContractInfo)
        → IsPrivateTransfer log
        → contract_of fmt s w c time log ≡ some info
        → answered_logs fmt s w c time eerc_registry block_number ≡ ok (before ++ log ∷ after)
        → ltb 0 (length s.chain.contracts) ≡ true
        → Fails (tokens_of fmt s w c time (some eerc_registry) block_number)
    unfolding tokens_of parse_token_transfers after_filter_logs events_of
    tokens-Fails block_number before after log info private known answer some_contract =
        let (x, fails) =
          candidates-Fails before after log (rw known (decode_log-Fails log info private)) in
        rw (some_contract, topics-eerc, answer, after_filter_logs, fails) (_, refl)

  lookup_contract-nonempty :
      (t : Text) (m : List (Text × ContractInfo)) (info : ContractInfo)
      → lookup_contract t m ≡ some info
      → ltb 0 (length m) ≡ true
  unfolding lookup_contract
  lookup_contract-nonempty t [] info h = absurd (cc h)
  lookup_contract-nonempty t (x ∷ m) info h = ground arith

  module _ (s : LogScanner) (w : ScanWorld) where
    join-Fails :
        (c : ℤ) (time : Text) (x y : Result GoError (List DepositEvent))
        → Fails y
        → Fails (join_events fmt s w c time x y)
    unfolding join_events
    join-Fails c time (err e) y fails = (_, refl)
    join-Fails c time (ok ns) y (e, h) = rw (h, join_events) (_, refl)

    -- On a chain of type eerc20, whichever decryptor is configured: where the block is read and
    -- FilterLogs answers, one well-formed PrivateTransfer of a known contract among the logs makes
    -- ScanBlock return an error, so that no deposit of the block is found.
    pub scan_block-private :
        (block_number : ℕ) (c : ℤ) (b : Block) (before after : List Log) (log : Log)
        (info : ContractInfo)
        → s.decoders ≡ some eerc_registry
        → do_call s.retry_options none w.block ≡ ok (some b)
        → answered_logs fmt s w c (fmt.rfc3339 b.time) eerc_registry block_number
          ≡ ok (before ++ log ∷ after)
        → IsPrivateTransfer log
        → contract_of fmt s w c (fmt.rfc3339 b.time) log ≡ some info
        → (e : GoError) × (scan_block fmt s w block_number c ≡ err e)
    unfolding scan_block after_block_read scan_found contract_of
    scan_block-private block_number c b before after log info decoders read answer private known =
        let fails =
          tokens-Fails s w c (fmt.rfc3339 b.time) block_number before after log info private known
            answer (lookup_contract-nonempty _ s.chain.contracts info known) in
        rw (read, after_block_read)
          (join-Fails c (fmt.rfc3339 b.time)
            (parse_native_transfers fmt s w c (fmt.rfc3339 b.time) b)
            (tokens_of fmt s w c (fmt.rfc3339 b.time) s.decoders block_number)
            (subst
              (λ (o : Option Registry).
                Fails (tokens_of fmt s w c (fmt.rfc3339 b.time) o block_number))
              (sym decoders) fails))
