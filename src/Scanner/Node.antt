-- ===== src/Scanner/Node.antt =====
-- What the scanners take from a node and from go-ethereum: blocks, logs, the interfaces of
-- internal/scanner/client.go, and the text forms of addresses and hashes.
use listener_go.Prelude.{ℕ, ◌+◌, ◌*◌, ℤ, Text, Bool, Option, List, [], ◌∷◌, Result}
use listener_go.Retry.{GoError, Options, retry}

-- Addresses and hashes are numbers of 160 and 256 bits. `payload` holds bytes.
pub record Transaction : Type 0 where
  pub hash : ℕ
  pub to : Option ℕ
  pub payload : List ℕ
  pub value : ℤ

pub record Block : Type 0 where
  pub time : ℕ
  pub transactions : List Transaction

pub record Log : Type 0 where
  pub address : ℕ
  pub topics : List ℕ
  pub payload : List ℕ
  pub tx_hash : ℕ
  pub index : ℕ

-- The functions of go-ethereum, `time` and `strings` that give or read text: Address.Hex,
-- Hash.Hex, HexToAddress, the RFC 3339 layout of a Unix time in UTC, the hash of an event's
-- signature, ToLower, and Postgres' lower.
pub record Formats : Type 0 where
  pub hex : ℕ → Text
  pub hash_hex : ℕ → Text
  pub hex_to_address : Text → ℕ
  pub rfc3339 : ℕ → Text
  pub keccak : Text → ℕ
  pub to_lower : Text → Text
  pub sql_lower : Text → Text

-- A call under `retry.Do`: what each attempt returns, in which waits the context ends, and its
-- error.
pub record Call (A : Type 0) : Type 0 where
  pub ctx_err : GoError
  pub cut : ℕ → Bool
  pub answer : ℕ → Result GoError A

-- `unset` is the value of the variable that the closure assigns.
unfoldable pub do_call : {A : Type 0} → Options → A → Call A → Result GoError A
do_call opt unset c = (retry opt c.ctx_err c.cut c.answer unset).result

-- big.Int.SetBytes
unfoldable pub from_bytes : ℕ → List ℕ → ℕ
from_bytes acc [] = acc
from_bytes acc (b ∷ bs) = from_bytes (acc * 256 + b) bs
