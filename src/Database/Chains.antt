-- ===== src/Database/Chains.antt =====
-- internal/database/database.go: what the program knows of a chain.
use listener_go.Prelude.{ℤ, Text, ℕ, List}

pub record ChainInfo : Type 0 where
  pub chain_id : ℤ
  pub rpc_url : Text
  pub token_config_hash : Text

pub record ContractInfo : Type 0 where
  pub symbol : Text
  pub decimals : ℕ

-- `contracts` is a map from addresses in lower case.
pub record ChainConfig : Type 0 where
  pub chain_id : ℤ
  pub rpc_url : Text
  pub native : Text
  pub decimals : ℕ
  pub block_time_ms : ℤ
  pub polling_interval_ms : ℤ
  pub min_confirmations : ℤ
  pub chain_type : Text
  pub contracts : List (Text × ContractInfo)
