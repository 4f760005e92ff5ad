-- ===== src/Scanner/Decoder/Dispatch.antt =====
-- What a registry finds, and the log index of what its decoders give.
use listener_go.Prelude.{
  ℕ, ◌%◌, ◌^◌, ℤ, to_int64, ◌≡◌, refl, ◌∙◌, Bool, false, ◌||◌, ◌==◌, some, List, [], ◌∷◌, Result,
  ok, err, if◌then◌else◌, arith,
}
use listener_go.Model.{DepositEvent}
use listener_go.Retry.{GoError}
use listener_go.Database.Chains.{ContractInfo}
use listener_go.Scanner.Node.{Log, Formats}
use listener_go.Scanner.Decoder.{
  Context, Decoder, Registry, lookup_topic, lookup, extend_topics, register_topics, register,
  decode_transfer, standard_erc20, after_decrypt, decode_private, eerc, words,
}

abbrev pub has_topic : ℕ → List ℕ → Bool
has_topic t [] = false
has_topic t (u ∷ us) = u == t || has_topic t us

lookup-register_topics :
    (d : Decoder) (ts : List ℕ) (r : Registry) (t : ℕ)
    → lookup (register_topics d ts r) t ≡ (if has_topic t ts then some d else lookup r t)
unfolding register_topics lookup lookup_topic
lookup-register_topics d [] r t = refl
lookup-register_topics d (u ∷ us) r t =
    lookup-register_topics d us
      (record {
        by_topic = (u, d) ∷ r.by_topic;
        topics = extend_topics (lookup_topic u r.by_topic) u r.topics;
      })
      t
    ∙ ground arith

-- After `Register` a topic of the decoder finds it, the last registration first; another topic
-- finds what it found before.
pub lookup-register :
    (d : Decoder) (r : Registry) (t : ℕ)
    → lookup (register d r) t ≡ (if has_topic t d.topics then some d else lookup r t)
unfolding register
lookup-register d r t = lookup-register_topics d d.topics r t

-- The event of a log has the index of the log.
abbrev pub KeepsIndex : Decoder → Type 0
KeepsIndex d =
    (log : Log) (info : ContractInfo) (ctx : Context) (ev : DepositEvent)
    → d.decode log info ctx ≡ ok (some ev)
    → ev.log_index ≡ to_int64 log.index

module _ (fmt : Formats) where
  decode_transfer-index :
      (ts : List ℕ) (log : Log) (info : ContractInfo) (ctx : Context) (ev : DepositEvent)
      → decode_transfer fmt ts log info ctx ≡ ok (some ev)
      → ev.log_index ≡ to_int64 log.index
  unfolding decode_transfer
  decode_transfer-index [] log info ctx ev h = cc
  decode_transfer-index (t ∷ []) log info ctx ev h = cc
  decode_transfer-index (t ∷ u ∷ []) log info ctx ev h = cc
  decode_transfer-index (t ∷ u ∷ v ∷ ts) log info ctx ev h = ground arith

  pub standard_erc20-KeepsIndex : KeepsIndex (standard_erc20 fmt)
  standard_erc20-KeepsIndex log info ctx ev h = decode_transfer-index log.topics log info ctx ev h

  after_decrypt-index :
      (log : Log) (info : ContractInfo) (ctx : Context) (from to : ℕ) (x : Result GoError ℤ)
      (ev : DepositEvent)
      → after_decrypt fmt log info ctx from to x ≡ ok (some ev)
      → ev.log_index ≡ to_int64 log.index
  unfolding after_decrypt
  after_decrypt-index log info ctx from to (ok amount) ev h = ground arith
  after_decrypt-index log info ctx from to (err e) ev h = cc

  decode_private-index :
      (decrypt : List ℕ → Result GoError ℤ) (ts : List ℕ) (log : Log) (info : ContractInfo)
      (ctx : Context) (ev : DepositEvent)
      → decode_private fmt decrypt ts log info ctx ≡ ok (some ev)
      → ev.log_index ≡ to_int64 log.index
  unfolding decode_private
  decode_private-index decrypt [] log info ctx ev h = cc
  decode_private-index decrypt (t ∷ []) log info ctx ev h = cc
  decode_private-index decrypt (t ∷ u ∷ []) log info ctx ev h = cc
  decode_private-index decrypt (t ∷ u ∷ v ∷ []) log info ctx ev h = cc
  decode_private-index decrypt (t ∷ u ∷ v ∷ a ∷ ts) log info ctx ev h = ground (
    arith,
    after_decrypt-index log info ctx (u % 2 ^ 160) (v % 2 ^ 160) (decrypt (words fmt 7 log.payload))
        ev,
  )

  pub eerc-KeepsIndex : (decrypt : List ℕ → Result GoError ℤ) → KeepsIndex (eerc fmt decrypt)
  eerc-KeepsIndex decrypt log info ctx ev h =
      decode_private-index decrypt log.topics log info ctx ev h
