-- ===== src/Scanner/Trace/Code.antt =====
-- `isContract` and `traceTransaction` of internal/scanner/trace_scanner.go.
use listener_go.Prelude.{
  ℕ, leb, ℤ, negsuc, eq_ℤ, Text, codes, Bool, true, false, ◌&&◌, ◌||◌, ◌==◌, Option, none, some,
  List, [], ◌∷◌, length, Result, ok, err, if◌then◌else◌,
}
use listener_go.Retry.{GoError, wrapped, other, Options, errors_as, as_rpc}
use listener_go.Scanner.Node.{Call, do_call}
use listener_go.Scanner.Trace.{CallFrame, TraceState, code_cache_max_entries}

unfoldable pub lookup_code : ℕ → List (ℕ × Bool) → Option Bool
lookup_code a [] = none
lookup_code a ((b, v) ∷ m) = if b == a then some v else lookup_code a m

-- The map has one entry for an address.
unfoldable pub remember : ℕ → Bool → List (ℕ × Bool) → List (ℕ × Bool)
remember a v m = if leb code_cache_max_entries (length m) then (a, v) ∷ [] else (a, v) ∷ m

abbrev pub has_code : List ℕ → Bool
has_code [] = false
has_code (b ∷ bs) = true

unfoldable pub after_code :
    ℕ → TraceState → Result GoError (List ℕ) → TraceState × Result GoError Bool
after_code a st (err e) = (st, err e)
after_code a st (ok code) =
    (record st { code_cache = remember a (has_code code) st.code_cache }, ok (has_code code))

-- What the cache says, or the code at the address.
unfoldable pub from_cache :
    Options → Call (List ℕ) → ℕ → TraceState → Option Bool → TraceState × Result GoError Bool
from_cache opt call a st (some v) = (st, ok v)
from_cache opt call a st none = after_code a st (do_call opt [] call)

unfoldable pub is_contract :
    Options → Call (List ℕ) → ℕ → TraceState → TraceState × Result GoError Bool
is_contract opt call a st = from_cache opt call a st (lookup_code a st.code_cache)

unfoldable pub starts_with : (part text : Text) → Bool
starts_with [] text = true
starts_with (c ∷ part) [] = false
starts_with (c ∷ part) (d ∷ text) = (c == d) && starts_with part text

-- strings.Contains
unfoldable pub contains_text : (text part : Text) → Bool
contains_text [] part = starts_with part []
contains_text (c ∷ text) part = starts_with part (c ∷ text) || contains_text text part

abbrev is_code_not_found : Option ℤ → Bool
is_code_not_found none = false
is_code_not_found (some code) = eq_ℤ code (negsuc 32600)

unfoldable pub is_method_not_found : (GoError → Text) → GoError → Bool
is_method_not_found message e =
    is_code_not_found (errors_as as_rpc e)
    || contains_text (message e) (codes "method not found")
    || contains_text (message e) (codes "not available")
    || contains_text (message e) (codes "does not exist")

abbrev unmarshalled : Result Text CallFrame → Result GoError (Option CallFrame)
unmarshalled (ok f) = ok (some f)
unmarshalled (err msg) = err (wrapped (codes "unmarshal trace") (other msg))

unfoldable pub after_trace :
    (GoError → Text)
    → (List ℕ → Result Text CallFrame)
    → TraceState
    → Result GoError (List ℕ)
    → TraceState × Result GoError (Option CallFrame)
after_trace message unmarshal st (ok raw) = (st, unmarshalled (unmarshal raw))
after_trace message unmarshal st (err e) =
    if is_method_not_found message e
    then (record st { trace_unsupported = true }, ok none)
    else (st, err e)

unfoldable pub trace_transaction :
    Options
    → (GoError → Text)
    → (List ℕ → Result Text CallFrame)
    → Call (List ℕ)
    → TraceState
    → TraceState × Result GoError (Option CallFrame)
trace_transaction opt message unmarshal call st =
    after_trace message unmarshal st (do_call opt [] call)
