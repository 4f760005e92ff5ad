-- ===== src/Tests/Trace.antt =====
-- Runs of a TraceScanner, and the theorems on it applied to them.
use listener_go.Prelude.{
  ℕ, ◌==◌, pos, negsuc, codes, ◌≡◌, refl, sym, ◌∙◌, Bool, true, false, none, some, List, [], ◌∷◌,
  ◌++◌, All, Result, ok, err, if◌then◌else◌, arith,
}
use listener_go.Model.{DepositEvent}
use listener_go.Retry.{GoError, canceled, rpc, retry, do_from, is_retryable}
use listener_go.Scanner.Node.{Transaction, Block, Call, do_call}
use listener_go.Scanner.Trace.{
  frame, Calls, no_calls, call_then, TraceScanner, TraceState, TraceWorld,
}
use listener_go.Scanner.Trace.Frames.{collect}
use listener_go.Scanner.Trace.Code.{is_contract, trace_transaction, is_method_not_found}
use listener_go.Scanner.Trace.Blocks.{empty_walk, scan_block}
use listener_go.Scanner.Trace.Flatten.{height, transfers, numbered, collect-numbered}
use listener_go.Scanner.Trace.Keys.{indexes, first_indexes, scan_block-first_indexes}
use listener_go.Scanner.Trace.Cache.{IsGoodCache, IsHonest}
use listener_go.Scanner.Trace.Scans.{scan_block-IsGoodCache}
use listener_go.Scanner.Trace.Disabled.{scan_all, scan_all-unsupported}
use listener_go.Tests.Formats.{formats, once, chain, accounts}

abbrev answer : {A : Type 0} → Result GoError A → Call A
answer x = record { ctx_err = GoError.canceled; cut = λ n. false; answer = λ n. x }

answered : {A : Type 0} (a unset : A) → do_call once unset (answer (ok a)) ≡ ok a
unfolding do_call retry do_from
answered a unset = refl

-- A call of 2 that fails, and one of 3 that calls 5.
abbrev calls : Calls
calls =
    call_then
      (frame (codes "CALL") (codes "0x1") (codes "0x5") (codes "0x2") (codes "reverted") no_calls)
      (call_then
        (frame (codes "CALL") (codes "0x1") (codes "0x6") (codes "0x3") [] (
          call_then (frame (codes "CALL") (codes "0x6") (codes "0x5") (codes "0x1f") [] no_calls)
            no_calls))
        no_calls)

abbrev is_code : ℕ → Bool
is_code a = a == 6

abbrev block : Block
block = record {
  time = 9;
  transactions = record { hash = 100; to = some 6; payload = 1 ∷ []; value = pos 3 } ∷ [];
}

abbrev world : TraceWorld
world = record {
  block = answer (ok (some block));
  code_at = λ i a. answer (ok (if is_code a then 1 ∷ [] else []));
  call_context = λ i. answer (ok []);
  unmarshal = λ raw. ok (frame (codes "CALL") (codes "0x1") (codes "0x6") (codes "0x3") [] calls);
  query_fails = λ n. false;
  accounts = accounts;
  message = λ e. [];
}

abbrev scanner : TraceScanner
scanner = record { chain = chain; retry_options = once }

abbrev fresh : TraceState
fresh = record { code_cache = []; trace_unsupported = false }

collect-numbered_example :
    (collect formats scanner world (codes "0x100") (pos 6) (codes "9") 0 calls empty_walk).out
    ≡ [] ++ numbered formats scanner world (codes "0x100") (pos 6) (codes "9") 0 (transfers calls)
unfolding height
collect-numbered_example =
    collect-numbered formats scanner world (codes "0x100") (pos 6) (codes "9") calls empty_walk
      (omega arith) (λ n. refl)

abbrev found : Result GoError (List DepositEvent) → List DepositEvent
found (ok evs) = evs
found (err e) = []

scan_block-first_indexes_example :
    (n : ℕ) × (indexes (found (scan_block formats scanner world (pos 6) fresh).1) ≡ first_indexes n)
unfolding scan_block listener_go.Scanner.Trace.Blocks.after_block_read do_call retry do_from
    listener_go.Scanner.Trace.Blocks.scan_transactions
    listener_go.Scanner.Trace.Blocks.scan_receiver
    listener_go.Scanner.Trace.Blocks.after_is_contract listener_go.Scanner.Trace.Code.is_contract
    listener_go.Scanner.Trace.Code.from_cache listener_go.Scanner.Trace.Code.lookup_code
    listener_go.Scanner.Trace.Code.after_code listener_go.Scanner.Trace.Blocks.after_root
    trace_transaction listener_go.Scanner.Trace.Code.after_trace
scan_block-first_indexes_example =
    scan_block-first_indexes formats scanner world (pos 6) fresh
      (found (scan_block formats scanner world (pos 6) fresh).1) refl

honest : (i a : ℕ) → IsHonest is_code once (world.code_at i a) a
honest i a cs e =
    let code = if is_code a then 1 ∷ [] else [] in
    let whole : ok code ≡ ok cs = sym (answered code []) ∙ e in
    let same : code ≡ cs = cc in rw (← same) (ground arith)

scan_block-IsGoodCache_example :
    IsGoodCache is_code (scan_block formats scanner world (pos 6) fresh).0.code_cache
scan_block-IsGoodCache_example =
    scan_block-IsGoodCache is_code formats scanner world (pos 6) fresh honest (tt, omega arith)

abbrev no_trace : Call (List ℕ)
no_trace = answer (err (rpc (negsuc 32600)))

no_trace-fails : do_call once [] no_trace ≡ err (rpc (negsuc 32600))
unfolding do_call retry do_from is_retryable
no_trace-fails = refl

-- A contract creation, and a call of the contract 6 that the node cannot trace.
abbrev creation : Transaction
creation = record { hash = 99; to = none; payload = 1 ∷ []; value = pos 0 }

abbrev call_of_6 : Transaction
call_of_6 = record { hash = 100; to = some 6; payload = 1 ∷ []; value = pos 3 }

abbrev untraceable_block : Block
untraceable_block = record { time = 9; transactions = creation ∷ call_of_6 ∷ [] }

abbrev untraceable : TraceWorld
untraceable = record world {
  block = answer (ok (some untraceable_block));
  call_context = λ i. no_trace;
}

six_is_contract : (is_contract once (untraceable.code_at 1 6) 6 fresh).1 ≡ ok true
unfolding is_contract listener_go.Scanner.Trace.Code.from_cache
    listener_go.Scanner.Trace.Code.lookup_code listener_go.Scanner.Trace.Code.after_code do_call
    retry do_from
six_is_contract = refl

scan_all-unsupported_example :
    All
      (λ x. x ≡ ok [])
      (scan_all formats scanner fresh ((pos 6, untraceable) ∷ (pos 6, world) ∷ []))
unfolding is_method_not_found listener_go.Retry.errors_as
scan_all-unsupported_example =
    scan_all-unsupported formats scanner untraceable (pos 6) fresh untraceable_block (creation ∷ [])
      [] call_of_6 6 (rpc (negsuc 32600)) ((pos 6, world) ∷ [])
      (answered (some untraceable_block) none) refl (refl, tt) refl six_is_contract no_trace-fails
      refl
