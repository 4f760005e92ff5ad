-- ===== src/Tests/Formats.antt =====
-- Concrete functions for the text forms of go-ethereum, and sample chains and worlds.
use listener_go.Prelude.{
  ℕ, zero, suc, ◌+◌, leb, pos, Text, codes, ◌≡◌, refl, ◌&&◌, List, [], ◌∷◌, ◌++◌, length, map,
  if◌then◌else◌, arith,
}
use listener_go.Prelude.Decimal.{show_ℕ, read_from}
use listener_go.Decryption.{trim_0x}
use listener_go.Retry.{Options}
use listener_go.Database.Chains.{ChainConfig}
use listener_go.Database.Accounts.{Account}
use listener_go.Scanner.Node.{Formats}

abbrev lower_byte : ℕ → ℕ
lower_byte c = if leb b'A' c && leb c b'Z' then c + 32 else c

abbrev pub lower : Text → Text
lower = map lower_byte

lower_byte-lower_byte : (c : ℕ) → lower_byte (lower_byte c) ≡ lower_byte c
lower_byte-lower_byte c = ground arith

pub lower-lower : (t : Text) → lower (lower t) ≡ lower t
lower-lower [] = refl
lower-lower (c ∷ t) = rw (lower_byte-lower_byte c, lower-lower t) refl

abbrev hex : ℕ → Text
hex n = codes "0x" ++ show_ℕ n

abbrev pub formats : Formats
formats = record {
  hex = hex;
  hash_hex = hex;
  hex_to_address = λ t. read_from 0 (trim_0x t);
  rfc3339 = show_ℕ;
  keccak = length;
  to_lower = lower;
  sql_lower = lower;
}

abbrev pub once : Options
once = record { max_retries = pos 0; base_delay = 1 }

abbrev pub zeros : ℕ → List ℕ
zeros zero = []
zeros (suc n) = 0 ∷ zeros n

abbrev pub chain : ChainConfig
chain = record {
  chain_id = pos 1;
  rpc_url = codes "u";
  native = codes "ETH";
  decimals = 18;
  block_time_ms = pos 12000;
  polling_interval_ms = pos 4000;
  min_confirmations = pos 6;
  chain_type = codes "erc20";
  contracts = (codes "0x7", record { symbol = codes "USDT"; decimals = 6 }) ∷ [];
}

abbrev pub accounts : List Account
accounts = record { chain_id = pos 1; address = codes "0X5" } ∷ []
