-- ===== src/Database/Config.antt =====
-- internal/database/config_repo.go: the chains and tokens that are configured.
pub mod Fingerprint
pub mod Groups
use listener_go.Prelude.{
  ℕ, zero, suc, ◌*◌, ◌/◌, ◌%◌, ltb, ℤ, pos, negsuc, eq_ℤ, ltb_ℤ, u64, to_int64, to_uint64, Text,
  codes, Bool, true, false, ◌&&◌, ◌||◌, ◌==◌, Option, none, some, List, [], ◌∷◌, ◌++◌, Result, ok,
  err, if◌then◌else◌,
}
use listener_go.Prelude.Decimal.{show_ℕ}
use listener_go.Database.Chains.{ChainInfo, ContractInfo, ChainConfig}

-- A row of the query for the active chains; a chain without tokens has one row without a token.
pub record ChainRow : Type 0 where
  pub chain_id : ℤ
  pub rpc_url : Text
  pub native : Text
  pub contract : Option Text
  pub symbol : Option Text
  pub decimals : Option ℕ

-- `acc`, its two slices as one list of pairs.
pub record Acc : Type 0 where
  pub rpc_url : Text
  pub native : Text
  pub tokens : List (Text × ContractInfo)

-- The order of Go's strings.
unfoldable pub lt_text : Text → Text → Bool
lt_text s [] = false
lt_text [] (d ∷ t) = true
lt_text (c ∷ s) (d ∷ t) = ltb c d || ((c == d) && lt_text s t)

unfoldable pub insert_token :
    Text × ContractInfo → List (Text × ContractInfo) → List (Text × ContractInfo)
insert_token x [] = x ∷ []
insert_token x (y ∷ ys) =
    let rest = insert_token x ys in if lt_text x.0 y.0 then x ∷ y ∷ ys else y ∷ rest

-- sort.Slice by the address.
unfoldable pub sort_tokens : List (Text × ContractInfo) → List (Text × ContractInfo)
sort_tokens [] = []
sort_tokens (x ∷ xs) = insert_token x (sort_tokens xs)

unfoldable pub token_entries : List (Text × ContractInfo) → Text
token_entries [] = []
token_entries ((a, i) ∷ ts) =
    codes "|" ++ a ++ codes ":" ++ i.symbol ++ codes ":" ++ show_ℕ i.decimals ++ token_entries ts

-- `digest` is the SHA-256 sum in hexadecimal digits.
unfoldable pub fingerprint : (Text → Text) → Text → List (Text × ContractInfo) → Text
fingerprint digest native tokens =
    digest (codes "native:" ++ native ++ token_entries (sort_tokens tokens))

module _ (to_lower : Text → Text) where
  abbrev pub token_of : Option Text → Option Text → Option ℕ → List (Text × ContractInfo)
  token_of (some a) (some s) (some d) = (to_lower a, record { symbol = s; decimals = d }) ∷ []
  token_of a s d = []

  abbrev pub row_token : ChainRow → List (Text × ContractInfo)
  row_token r = token_of r.contract r.symbol r.decimals

  abbrev pub add_token : ChainRow → Acc → Acc
  add_token r a = record a { tokens = a.tokens ++ row_token r }

  abbrev pub new_acc : ChainRow → Acc
  new_acc r = record { rpc_url = r.rpc_url; native = r.native; tokens = row_token r }

  -- `byChain` in the order of `order`.
  unfoldable pub group_row : ChainRow → List (ℤ × Acc) → List (ℤ × Acc)
  group_row r [] = (r.chain_id, new_acc r) ∷ []
  group_row r ((c, a) ∷ m) =
      let rest = group_row r m in
      if eq_ℤ c r.chain_id then (c, add_token r a) ∷ m else (c, a) ∷ rest

  unfoldable pub group_rows : List ChainRow → List (ℤ × Acc) → List (ℤ × Acc)
  group_rows [] m = m
  group_rows (r ∷ rs) m = group_rows rs (group_row r m)

  module _ (digest : Text → Text) where
    abbrev pub info_of : ℤ → Acc → ChainInfo
    info_of c a = record {
      chain_id = c;
      rpc_url = a.rpc_url;
      token_config_hash = fingerprint digest a.native a.tokens;
    }

    unfoldable pub infos_of : List (ℤ × Acc) → List ChainInfo
    infos_of [] = []
    infos_of ((c, a) ∷ m) = info_of c a ∷ infos_of m

    -- The rows that the query returns, in their order.
    unfoldable pub query_active_chains : List ChainRow → List ChainInfo
    query_active_chains rows = infos_of (group_rows rows [])

  -- The rows of the tokens of one chain: a later one replaces an earlier one.
  unfoldable pub contracts_of :
      List (Text × ContractInfo) → List (Text × ContractInfo) → List (Text × ContractInfo)
  contracts_of [] m = m
  contracts_of ((a, i) ∷ rows) m = contracts_of rows ((to_lower a, i) ∷ m)

-- What the query for the chain named KCP returns: `err` is a failure, `none` pgx.ErrNoRows.
unfoldable pub kcp_chain_id_of : Result (Unit {0}) (Option ℤ) → Result (Unit {0}) (ℤ × Bool)
kcp_chain_id_of (ok none) = ok (pos 0, false)
kcp_chain_id_of (ok (some id)) = ok (id, true)
kcp_chain_id_of (err e) = err e

-- A row of the query for one chain.
pub record ConfigRow : Type 0 where
  pub rpc_url : Text
  pub native : Text
  pub decimals : ℕ
  pub block_time : ℤ
  pub confirmations : ℤ
  pub chain_type : Option Text

pub data ConfigError : Type 0 where
  chain_not_found query_chain_failed query_tokens_failed : ConfigError

-- Multiplication of an int by 1000, and division by 3, which goes towards 0.
unfoldable pub to_ms : ℤ → ℤ
to_ms z = to_int64 (to_uint64 z * 1000 % u64)

unfoldable pub third : ℤ → ℤ
third (pos n) = pos (n / 3)
third (negsuc n) = elim (suc n / 3) [ zero ↦ pos 0 | suc m ↦ negsuc m ]

abbrev pub polling_of : ℤ → ℤ
polling_of ms = if ltb_ℤ (third ms) (pos 1000) then pos 1000 else third ms

-- coalesce(chain_type, 'erc20')
abbrev chain_type_or : Option Text → Text
chain_type_or none = codes "erc20"
chain_type_or (some t) = t

abbrev config_of : ℤ → ConfigRow → List (Text × ContractInfo) → ChainConfig
config_of c r tokens = record {
  chain_id = c;
  rpc_url = r.rpc_url;
  native = r.native;
  decimals = r.decimals;
  block_time_ms = to_ms r.block_time;
  polling_interval_ms = polling_of (to_ms r.block_time);
  min_confirmations = r.confirmations;
  chain_type = chain_type_or r.chain_type;
  contracts = tokens;
}

-- What the two queries return: `err` is a failure, `none` pgx.ErrNoRows.
unfoldable pub chain_config :
    (Text → Text)
    → ℤ
    → Result (Unit {0}) (Option ConfigRow)
    → Result (Unit {0}) (List (Text × ContractInfo))
    → Result ConfigError ChainConfig
chain_config to_lower c (ok none) tokens = err chain_not_found
chain_config to_lower c (err e) tokens = err query_chain_failed
chain_config to_lower c (ok (some r)) (err e) = err query_tokens_failed
chain_config to_lower c (ok (some r)) (ok rows) = ok (config_of c r (contracts_of to_lower rows []))
