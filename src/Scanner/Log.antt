-- ===== src/Scanner/Log.antt =====
-- internal/scanner/log_scanner.go and event_parser.go: the state of the scanner, and what the scan of
-- one block meets.
pub mod Matched
pub mod Native
pub mod Tokens
pub mod Blocks
pub mod Keys
pub mod Registered
pub mod TokenKeys
pub mod Distinct
pub mod Private
use listener_go.Prelude.{
  ℕ, ltb, ℤ, negsuc, eq_ℤ, Text, codes, eq_text, Bool, false, ◌&&◌, ◌||◌, ◌==◌, Option, none, some,
  List, [], ◌∷◌, ◌++◌, length, Result, if◌then◌else◌,
}
use listener_go.Retry.{GoError, wrapped, other, Options}
use listener_go.Database.Buffer.{DbError}
use listener_go.Database.Chains.{ContractInfo, ChainConfig}
use listener_go.Database.Accounts.{Account, has_text}
use listener_go.Scanner.Node.{Transaction, Block, Log, Formats, Call}
use listener_go.Scanner.Decoder.{Registry}

abbrev pub native_log_index_base : ℤ
native_log_index_base = negsuc 0

unfoldable pub symbol_for_chain : Text → ℤ → ℤ → Bool → Text
symbol_for_chain [] chain_id kcp_chain_id has_kcp = []
symbol_for_chain (c ∷ rest) chain_id kcp_chain_id has_kcp =
    if has_kcp && eq_ℤ chain_id kcp_chain_id && ltb 0 (length rest) && (c == b'W')
    then rest
    else c ∷ rest

pub record LogScanner : Type 0 where
  pub chain : ChainConfig
  pub kcp_chain_id : ℤ
  pub has_kcp : Bool
  pub retry_options : Options
  pub decoders : Option Registry

pub record NativeCandidate : Type 0 where
  pub tx : Transaction
  pub tx_idx : ℕ
  pub to_addr : ℕ

pub record Sent : Type 0 where
  pub candidate : NativeCandidate
  pub from : ℕ

-- ethereum.FilterQuery with one list of topics.
pub record FilterQuery : Type 0 where
  pub from_block : ℕ
  pub to_block : ℕ
  pub addresses : List ℕ
  pub topics : List ℕ

-- What one ScanBlock meets: the calls of the node, the failures of the two account queries, the
-- table of accounts, and the order in which the goroutines of the errgroup end.
pub record ScanWorld : Type 0 where
  pub block : Call (Option Block)
  pub sender : ℕ → Call ℕ
  pub logs : FilterQuery → Call (List Log)
  pub native_query_fails : Bool
  pub token_query_fails : Bool
  pub accounts : List Account
  pub finish : List (Result GoError Sent) → List (Result GoError Sent)

-- An error of the account queries, with its message only.
abbrev pub has_many_error : DbError → GoError
has_many_error e = wrapped (codes "HasMany") (other (codes "query accounts"))

-- matched[…] of a Go map: false where there is no entry.
abbrev pub is_marked : Option Bool → Bool
is_marked none = false
is_marked (some b) = b

unfoldable pub lookup_contract : Text → List (Text × ContractInfo) → Option ContractInfo
lookup_contract t [] = none
lookup_contract t ((u, i) ∷ m) = if eq_text u t then some i else lookup_contract t m

-- Adds to a set of addresses.
abbrev pub add_text : Text → List Text → List Text
add_text t ts = if has_text t ts then ts else t ∷ ts

-- The keys of `addrSet`.
unfoldable pub address_set : List Text → List Text
address_set [] = []
address_set (t ∷ ts) = add_text t (address_set ts)

module _ (fmt : Formats) where
  -- strings.ToLower(addr.Hex())
  abbrev pub lower_hex : ℕ → Text
  lower_hex a = fmt.to_lower (fmt.hex a)
