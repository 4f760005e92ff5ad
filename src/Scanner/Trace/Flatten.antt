-- ===== src/Scanner/Trace/Flatten.antt =====
-- `collect` against the list of the transfers of a trace.
use mathlib.Core.List.{append-nil, append_assoc}
use listener_go.Prelude.{
  ℕ, suc, ◌+◌, ltb, ◌≤◌, ℤ, Text, ◌≡◌, refl, ap, sym, ◌∙◌, Bool, true, false, not, Option, none,
  some, List, [], ◌∷◌, ◌++◌, ok, if◌then◌else◌, if-cases, arith,
}
use listener_go.Model.{DepositEvent}
use listener_go.Database.Accounts.{any_account, has_account}
use listener_go.Scanner.Node.{Formats}
use listener_go.Scanner.Trace.{
  CallFrame, frame, Calls, no_calls, call_then, TraceScanner, TraceWorld, Walk,
  max_call_frame_depth,
}
use listener_go.Scanner.Trace.Frames.{
  is_empty, moved_value, trace_event, add_found, add_transfer, visit_calls, visit_frame, collect,
}

pub record Transfer : Type 0 where
  pub from : Text
  pub to : Text
  pub value : ℕ

abbrev transfer_of : (from to : Text) → Option ℕ → List Transfer
transfer_of from to none = []
transfer_of from to (some value) = record { from = from; to = to; value = value } ∷ []

abbrev max_ℕ : ℕ → ℕ → ℕ
max_ℕ m n = if ltb m n then n else m

-- The levels of a tree of calls, and its transfers from left to right, without those of a call
-- that failed or below it.
unfoldable mutual
  pub height : Calls → ℕ
  height no_calls = 0
  height (call_then f calls) = max_ℕ (height_of f) (height calls)

  pub height_of : CallFrame → ℕ
  height_of (frame kind from to value error calls) = suc (height calls)

unfoldable mutual
  pub transfers : Calls → List Transfer
  transfers no_calls = []
  transfers (call_then f calls) = frame_transfers f ++ transfers calls

  pub frame_transfers : CallFrame → List Transfer
  frame_transfers (frame kind from to value error calls) =
      let all = transfer_of from to (moved_value kind value) ++ transfers calls in
      if not (is_empty error) then [] else all

module _ (fmt : Formats) (s : TraceScanner) (w : TraceWorld) (tx_hash : Text) (confirmations : ℤ)
    (block_time : Text) where
  abbrev add_one : Transfer → Walk → Walk
  add_one t k = add_transfer fmt s w tx_hash confirmations block_time t.from t.to (some t.value) k

  add_all : List Transfer → Walk → Walk
  add_all [] k = k
  add_all (t ∷ ts) k = add_all ts (add_one t k)

  add_all-append :
      (ts us : List Transfer) (k : Walk) → add_all (ts ++ us) k ≡ add_all us (add_all ts k)
  unfolding add_all
  add_all-append [] us k = refl
  add_all-append (t ∷ ts) us k = add_all-append ts us (add_one t k)

  add_transfer-add_all :
      (from to : Text) (v : Option ℕ) (ts : List Transfer) (k : Walk)
      → add_all (transfer_of from to v ++ ts) k
        ≡ add_all ts (add_transfer fmt s w tx_hash confirmations block_time from to v k)
  unfolding add_all add_transfer
  add_transfer-add_all from to none ts k = refl
  add_transfer-add_all from to (some v) ts k = refl

  mutual
    unfolding visit_calls height transfers add_all

    visit_calls-add_all :
        (depth : ℕ) (calls : Calls) (k : Walk)
        → depth + height calls ≤ max_call_frame_depth
        → visit_calls fmt s w tx_hash confirmations block_time depth calls k
          ≡ add_all (transfers calls) k
    visit_calls-add_all depth no_calls k fits = refl
    visit_calls-add_all depth (call_then f calls) k fits =
        let here = visit_frame-add_all depth f k (ground arith) in
        visit_calls-add_all depth calls
          (visit_frame fmt s w tx_hash confirmations block_time depth f k) (ground arith)
        ∙ ap (add_all (transfers calls)) here
        ∙ sym (add_all-append (frame_transfers f) (transfers calls) k)

    visit_frame-add_all :
        (depth : ℕ) (f : CallFrame) (k : Walk)
        → depth + height_of f ≤ max_call_frame_depth
        → visit_frame fmt s w tx_hash confirmations block_time depth f k
          ≡ add_all (frame_transfers f) k
    visit_frame-add_all depth (frame kind from to value error calls) k fits =
        let v = moved_value kind value in
        let k' = add_transfer fmt s w tx_hash confirmations block_time from to v k in
        let below = visit_calls-add_all (suc depth) calls k' (omega arith) in
        let shallow : ltb max_call_frame_depth (suc depth) ≡ false = ground arith in
        rw (shallow, below, ← add_transfer-add_all from to v (transfers calls) k)
          (if-cases
            (λ (ts : List Transfer).
              (if not (is_empty error)
                then k
                else add_all (transfer_of from to v ++ transfers calls) k)
              ≡ add_all ts k)
            (not (is_empty error)) (λ failed. rw failed refl) (λ works. rw works refl))

  abbrev is_watched : Text → Bool
  is_watched to =
      any_account fmt.to_lower fmt.sql_lower s.chain.chain_id
        (fmt.to_lower (fmt.hex (fmt.hex_to_address to))) w.accounts

  -- The events of the transfers to watched addresses, numbered from `counter` on.
  abbrev pub numbered : ℕ → List Transfer → List DepositEvent
  numbered counter [] = []
  numbered counter (t ∷ ts) =
      let event =
        trace_event fmt s w tx_hash confirmations block_time counter t.from t.to t.value in
      if is_watched t.to then event ∷ numbered (suc counter) ts else numbered counter ts

  add_one-answered :
      (t : Transfer) (k : Walk)
      → ((n : ℕ) → w.query_fails n ≡ false)
      → add_one t k
        ≡ add_found fmt s w tx_hash confirmations block_time t.from t.to t.value
            (ok (is_watched t.to))
            k
  unfolding add_transfer has_account
  add_one-answered t k works =
      ap
        (λ (fails : Bool).
          add_found fmt s w tx_hash confirmations block_time t.from t.to t.value
            (has_account fmt.to_lower fmt.sql_lower fails s.chain.chain_id
              (fmt.hex (fmt.hex_to_address t.to)) w.accounts)
            k)
        (works k.queries)

  add_found-numbered :
      (t : Transfer) (ts : List Transfer) (k : Walk) (b : Bool)
      → is_watched t.to ≡ b
      → ((k' : Walk) → (add_all ts k').out ≡ k'.out ++ numbered k'.counter ts)
      → (add_all ts
          (add_found fmt s w tx_hash confirmations block_time t.from t.to t.value (ok b) k)).out
        ≡ k.out ++ numbered k.counter (t ∷ ts)
  unfolding add_found
  add_found-numbered t ts k true e rest = rest _ ∙ append_assoc k.out _ _ ∙ rw e refl
  add_found-numbered t ts k false e rest = rest _ ∙ rw e refl

  add_all-numbered :
      (ts : List Transfer) (k : Walk)
      → ((n : ℕ) → w.query_fails n ≡ false)
      → (add_all ts k).out ≡ k.out ++ numbered k.counter ts
  unfolding add_all
  add_all-numbered [] k works = sym (append-nil k.out)
  add_all-numbered (t ∷ ts) k works =
      ap (λ (k' : Walk). (add_all ts k').out) (add_one-answered t k works)
      ∙ add_found-numbered t ts k (is_watched t.to) refl (λ k'. add_all-numbered ts k' works)

  -- A trace of at most 1024 levels, where the account queries succeed: the events that `collect`
  -- appends are exactly those of the successful calls of kind CALL with a positive value to a
  -- watched address, from left to right and without what stands below a failed call, with the
  -- log indexes that follow those given before.
  pub collect-numbered :
      (calls : Calls) (k : Walk)
      → height calls ≤ max_call_frame_depth
      → ((n : ℕ) → w.query_fails n ≡ false)
      → (collect fmt s w tx_hash confirmations block_time 0 calls k).out
        ≡ k.out ++ numbered k.counter (transfers calls)
  unfolding collect
  collect-numbered calls k fits works =
      ap (λ (k' : Walk). k'.out) (visit_calls-add_all 0 calls k (omega arith))
      ∙ add_all-numbered (transfers calls) k works
