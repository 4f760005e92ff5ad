-- ===== src/Scanner/Trace/Frames.antt =====
-- `collect` of internal/scanner/trace_scanner.go.
use listener_go.Prelude.{
  ℕ, zero, suc, ◌+◌, ◌*◌, ltb, ℤ, pos, negsuc, Text, codes, eq_text, Bool, true, false, ◌&&◌, ◌==◌,
  not, Option, none, some, [], ◌∷◌, ◌++◌, Result, ok, if◌then◌else◌,
}
use listener_go.Model.{DepositEvent}
use listener_go.Decryption.{hex_digit, trim_0x}
use listener_go.Database.Buffer.{DbError}
use listener_go.Database.Accounts.{has_account}
use listener_go.Scanner.Node.{Formats}
use listener_go.Scanner.Trace.{
  CallFrame, frame, Calls, no_calls, call_then, TraceScanner, TraceWorld, Walk,
  max_call_frame_depth,
}

abbrev add_digit : ℕ → Option ℕ → Option ℕ
add_digit acc none = none
add_digit acc (some d) = some (acc * 16 + d)

unfoldable pub hex_number : Option ℕ → Text → Option ℕ
hex_number none s = none
hex_number (some acc) [] = some acc
hex_number (some acc) (c ∷ s) = hex_number (add_digit acc (hex_digit c)) s

abbrev hex_magnitude : Text → Option ℕ
hex_magnitude [] = none
hex_magnitude (c ∷ s) = hex_number (some 0) (c ∷ s)

abbrev negated : Option ℕ → Option ℤ
negated none = none
negated (some zero) = some (pos 0)
negated (some (suc n)) = some (negsuc n)

abbrev not_negated : Option ℕ → Option ℤ
not_negated none = none
not_negated (some n) = some (pos n)

-- SetString with base 16 of math/big: a sign and at least one digit.
unfoldable pub set_string_16 : Text → Option ℤ
set_string_16 [] = none
set_string_16 (c ∷ s) =
    if c == b'-'
    then negated (hex_magnitude s)
    else if c == b'+'
    then not_negated (hex_magnitude s)
    else not_negated (hex_magnitude (c ∷ s))

-- The value of a call that moves coins.
unfoldable pub positive_value : Option ℤ → Option ℕ
positive_value (some (pos (suc n))) = some (suc n)
positive_value z = none

abbrev pub is_empty : Text → Bool
is_empty [] = true
is_empty (c ∷ s) = false

unfoldable pub moved_value : (kind value : Text) → Option ℕ
moved_value kind value =
    if eq_text kind (codes "CALL") && not (is_empty value)
    then positive_value (set_string_16 (trim_0x value))
    else none

-- traceLogIndexBase - counter
abbrev pub trace_index : ℕ → ℤ
trace_index counter = negsuc (99999 + counter)

module _ (fmt : Formats) (s : TraceScanner) (w : TraceWorld) (tx_hash : Text) (confirmations : ℤ)
    (block_time : Text) where
  abbrev pub trace_event : ℕ → (from to : Text) → ℕ → DepositEvent
  trace_event counter from to value = record {
    chain_id = s.chain.chain_id;
    tx_hash = tx_hash;
    log_index = trace_index counter;
    from_address = fmt.hex (fmt.hex_to_address from);
    to_address = fmt.hex (fmt.hex_to_address to);
    amount = some (pos value);
    symbol = s.chain.native;
    decimals = s.chain.decimals;
    confirmations = confirmations;
    transaction_datetime = block_time;
  }

  -- An error of the account query counts as `not watched`.
  unfoldable pub add_found : (from to : Text) → ℕ → Result DbError Bool → Walk → Walk
  add_found from to value (ok true) k = record {
    counter = suc k.counter;
    queries = suc k.queries;
    out = k.out ++ trace_event k.counter from to value ∷ [];
  }
  add_found from to value has k = record k { queries = suc k.queries }

  unfoldable pub add_transfer : (from to : Text) → Option ℕ → Walk → Walk
  add_transfer from to none k = k
  add_transfer from to (some value) k =
      add_found from to value
        (has_account fmt.to_lower fmt.sql_lower (w.query_fails k.queries) s.chain.chain_id
          (fmt.hex (fmt.hex_to_address to)) w.accounts)
        k

  -- The loop over the calls at `depth`, and the body of it.
  unfoldable mutual
    pub visit_calls : ℕ → Calls → Walk → Walk
    visit_calls depth no_calls k = k
    visit_calls depth (call_then f calls) k = visit_calls depth calls (visit_frame depth f k)

    pub visit_frame : ℕ → CallFrame → Walk → Walk
    visit_frame depth (frame kind from to value error calls) k =
        let k' = add_transfer from to (moved_value kind value) k in
        let deeper = visit_calls (suc depth) calls k' in
        if not (is_empty error)
        then k
        else if ltb max_call_frame_depth (suc depth)
        then k'
        else deeper

  unfoldable pub collect : ℕ → Calls → Walk → Walk
  collect depth calls k = if ltb max_call_frame_depth depth then k else visit_calls depth calls k
