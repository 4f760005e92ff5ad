-- ===== src/Scanner/Decoder.antt =====
-- internal/scanner/decoder: the registry of decoders by topic, the ERC-20 decoder and the eERC
-- decoder.
pub mod Dispatch
use listener_go.Prelude.{
  ℕ, zero, suc, ◌%◌, ◌^◌, ℤ, pos, to_int64, Text, codes, ◌||◌, ◌==◌, not, ltb, Option, none, some,
  List, [], ◌∷◌, ◌++◌, length, take, drop, Result, ok, err, if◌then◌else◌,
}
use listener_go.Model.{DepositEvent}
use listener_go.Retry.{GoError, wrapped}
use listener_go.Database.Chains.{ContractInfo}
use listener_go.Scanner.Node.{Log, Formats, from_bytes}

pub record Context : Type 0 where
  pub chain_id : ℤ
  pub confirmations : ℤ
  pub transaction_datetime : Text
  pub symbol : Text

-- The interface `Decoder`.
pub record Decoder : Type 0 where
  pub name : Text
  pub topics : List ℕ
  pub decode : Log → ContractInfo → Context → Result GoError (Option DepositEvent)

pub record Registry : Type 0 where
  pub by_topic : List (ℕ × Decoder)
  pub topics : List ℕ

abbrev pub new_registry : Registry
new_registry = record { by_topic = []; topics = [] }

-- The entry in front counts.
unfoldable pub lookup_topic : ℕ → List (ℕ × Decoder) → Option Decoder
lookup_topic t [] = none
lookup_topic t ((u, d) ∷ m) = if u == t then some d else lookup_topic t m

unfoldable pub lookup : Registry → ℕ → Option Decoder
lookup r t = lookup_topic t r.by_topic

abbrev pub extend_topics : Option Decoder → ℕ → List ℕ → List ℕ
extend_topics none t ts = ts ++ t ∷ []
extend_topics (some old) t ts = ts

unfoldable pub register_topics : Decoder → List ℕ → Registry → Registry
register_topics d [] r = r
register_topics d (t ∷ ts) r =
    register_topics d ts
      (record { by_topic = (t, d) ∷ r.by_topic; topics = extend_topics (lookup r t) t r.topics })

unfoldable pub register : Decoder → Registry → Registry
register d r = register_topics d d.topics r

module _ (fmt : Formats) where
  abbrev pub transfer_topic : ℕ
  transfer_topic = fmt.keccak (codes "Transfer(address,address,uint256)")

  abbrev pub private_transfer_topic : ℕ
  private_transfer_topic = fmt.keccak (codes "PrivateTransfer(address,address,uint256[7],address)")

  -- common.BytesToAddress of a topic: the last 20 bytes.
  abbrev pub topic_address : ℕ → ℕ
  topic_address t = t % 2 ^ 160

  abbrev pub transfer_event : Log → ContractInfo → Context → (from to : ℕ) → ℤ → DepositEvent
  transfer_event log info ctx from to amount = record {
    chain_id = ctx.chain_id;
    tx_hash = fmt.hash_hex log.tx_hash;
    log_index = to_int64 log.index;
    from_address = fmt.hex from;
    to_address = fmt.hex to;
    amount = some amount;
    symbol = ctx.symbol;
    decimals = info.decimals;
    confirmations = ctx.confirmations;
    transaction_datetime = ctx.transaction_datetime;
  }

  unfoldable pub decode_transfer :
      List ℕ → Log → ContractInfo → Context → Result GoError (Option DepositEvent)
  decode_transfer (t ∷ from ∷ to ∷ ts) log info ctx =
      if not (t == transfer_topic) || ltb (length log.payload) 32
      then ok none
      else ok (
          some (
            transfer_event log info ctx (topic_address from) (topic_address to)
              (pos (from_bytes 0 (take 32 log.payload)))))
  decode_transfer ts log info ctx = ok none

  abbrev pub standard_erc20 : Decoder
  standard_erc20 = record {
    name = codes "erc20";
    topics = transfer_topic ∷ [];
    decode = λ log info ctx. decode_transfer log.topics log info ctx;
  }

  -- The seven words of `auditorPCT`.
  unfoldable pub words : ℕ → List ℕ → List ℕ
  words zero bytes = []
  words (suc n) bytes = from_bytes 0 (take 32 bytes) ∷ words n (drop 32 bytes)

  unfoldable pub after_decrypt :
      Log
      → ContractInfo
      → Context
      → (from to : ℕ) → Result GoError ℤ
      → Result GoError (Option DepositEvent)
  after_decrypt log info ctx from to (err e) = err (wrapped (codes "eERC decrypt") e)
  after_decrypt log info ctx from to (ok amount) =
      ok (some (transfer_event log info ctx from to amount))

  unfoldable pub decode_private :
      (List ℕ → Result GoError ℤ)
      → List ℕ
      → Log
      → ContractInfo
      → Context
      → Result GoError (Option DepositEvent)
  decode_private decrypt (t ∷ from ∷ to ∷ auditor ∷ ts) log info ctx =
      if not (t == private_transfer_topic) || ltb (length log.payload) 224
      then ok none
      else after_decrypt log info ctx (topic_address from) (topic_address to)
          (decrypt (words 7 log.payload))
  decode_private decrypt ts log info ctx = ok none

  -- `decrypt` is DecryptAmount of the decryptor that it was made with.
  abbrev pub eerc : (List ℕ → Result GoError ℤ) → Decoder
  eerc decrypt = record {
    name = codes "eerc";
    topics = private_transfer_topic ∷ [];
    decode = λ log info ctx. decode_private decrypt log.topics log info ctx;
  }
