-- ===== src/Scanner/Trace.antt =====
-- internal/scanner/trace_scanner.go: the state of the scanner, the tree of calls that a trace is,
-- and what a scan meets.
pub mod Frames
pub mod Code
pub mod Blocks
pub mod Flatten
pub mod Keys
pub mod Cache
pub mod Scans
pub mod Disabled
use listener_go.Prelude.{ℕ, ℤ, negsuc, Text, Bool, Option, List, Result}
use listener_go.Model.{DepositEvent}
use listener_go.Retry.{GoError, Options}
use listener_go.Database.Chains.{ChainConfig}
use listener_go.Database.Accounts.{Account}
use listener_go.Scanner.Node.{Block, Call}

abbrev pub trace_log_index_base : ℤ
trace_log_index_base = negsuc 99999

abbrev pub code_cache_max_entries : ℕ
code_cache_max_entries = 10000

abbrev pub max_call_frame_depth : ℕ
max_call_frame_depth = 1024

-- The kind, the sender, the receiver, the value and the error of a call as texts, and its calls.
mutual
  pub data CallFrame : Type 0 where
    frame : Text → Text → Text → Text → Text → Calls → CallFrame

  pub data Calls : Type 0 where
    no_calls : Calls
    call_then : CallFrame → Calls → Calls

pub record TraceScanner : Type 0 where
  pub chain : ChainConfig
  pub retry_options : Options

-- What a TraceScanner changes. The entry in front of the cache counts.
pub record TraceState : Type 0 where
  pub code_cache : List (ℕ × Bool)
  pub trace_unsupported : Bool

-- What one ScanBlock meets: the calls of the node by the index of the transaction (that of
-- CodeAt also by the address), what
-- json.Unmarshal makes of the answer of the trace, the account queries that fail by their number,
-- the table of accounts, and the text of an error.
pub record TraceWorld : Type 0 where
  pub block : Call (Option Block)
  pub code_at : ℕ → ℕ → Call (List ℕ)
  pub call_context : ℕ → Call (List ℕ)
  pub unmarshal : List ℕ → Result Text CallFrame
  pub query_fails : ℕ → Bool
  pub accounts : List Account
  pub message : GoError → Text

-- The variables that `collect` changes through pointers, and how many account queries were made.
pub record Walk : Type 0 where
  pub counter : ℕ
  pub queries : ℕ
  pub out : List DepositEvent
