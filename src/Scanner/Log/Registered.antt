-- ===== src/Scanner/Log/Registered.antt =====
-- The decoders of a chain keep the index of the log.
use mathlib.Core.Path.{subst}
use listener_go.Prelude.{ℕ, Text, codes, ◌≡◌, Option, none, some, if◌then◌else◌, if-cases, eq_text}
use listener_go.Decryption.{Decryptor}
use listener_go.Listener.{decrypt_words, decoders_for_chain}
use listener_go.Scanner.Node.{Formats}
use listener_go.Scanner.Decoder.{
  Decoder, Registry, new_registry, register, lookup_topic, lookup, standard_erc20, eerc,
}
use listener_go.Scanner.Decoder.Dispatch.{
  has_topic, lookup-register, KeepsIndex, standard_erc20-KeepsIndex, eerc-KeepsIndex,
}

-- Every decoder that the registry finds keeps the index of the log.
abbrev pub AllKeepIndex : Registry → Type 0
AllKeepIndex r = (t : ℕ) (d : Decoder) → lookup r t ≡ some d → KeepsIndex d

register-AllKeepIndex : (d : Decoder) → KeepsIndex d → AllKeepIndex (register d new_registry)
unfolding lookup lookup_topic
register-AllKeepIndex d keeps t e h =
    let found : (if has_topic t d.topics then some d else none) ≡ some e =
      rw (lookup-register d new_registry t) at h in
    if-cases (λ (o : Option Decoder). o ≡ some e → KeepsIndex e) (has_topic t d.topics)
      (λ yes same. let d_e : d ≡ e = cc in subst KeepsIndex d_e keeps) (λ no same. absurd (cc same))
      found

pub decoders_for_chain-AllKeepIndex :
    (fmt : Formats) (chain_type : Text) (d : Decryptor)
    → AllKeepIndex (decoders_for_chain fmt chain_type d)
unfolding decoders_for_chain
decoders_for_chain-AllKeepIndex fmt chain_type d =
    if-cases AllKeepIndex (eq_text chain_type (codes "eerc20"))
      (λ yes.
        register-AllKeepIndex (eerc fmt (decrypt_words d)) (eerc-KeepsIndex fmt (decrypt_words d)))
      (λ no. register-AllKeepIndex (standard_erc20 fmt) (standard_erc20-KeepsIndex fmt))
