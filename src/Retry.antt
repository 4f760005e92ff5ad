-- ===== src/Retry.antt =====
-- internal/common/retry and internal/common/errors: which errors are retried, and the loop that
-- retries them with growing waits.
pub mod Classes
pub mod Outcome
use listener_go.Prelude.{
  ℕ, zero, suc, ◌*◌, ◌%◌, ◌^◌, ℤ, pos, negsuc, leb_ℤ, eq_ℤ, u64, to_int64, Text, Bool, true, false,
  ◌&&◌, ◌||◌, ◌==◌, Option, none, some, List, [], ◌∷◌, Result, ok, err, if◌then◌else◌,
}

-- The errors that `IsRetryable` tells apart, each with what it wraps: sentinels, `*RetryableError`,
-- `rpc.Error` by its code, `rpc.HTTPError` by its status, a `net.Error` by its Timeout(), an error
-- of `fmt.Errorf` with %w, and any other.
pub data GoError : Type 0 where
  canceled deadline_exceeded eof unexpected_eof net_closed conn_reset conn_refused : GoError
  retryable : GoError → GoError
  rpc : ℤ → GoError
  http : ℕ → GoError
  net : Bool → GoError → GoError
  wrapped : Text → GoError → GoError
  other : Text → GoError

-- errors.Is: the test at each error of the chain.
unfoldable pub errors_is : (GoError → Bool) → GoError → Bool
errors_is target (retryable e) = target (retryable e) || errors_is target e
errors_is target (net timeout e) = target (net timeout e) || errors_is target e
errors_is target (wrapped msg e) = target (wrapped msg e) || errors_is target e
errors_is target e = target e

-- errors.As: the first error of the chain that the view accepts.
unfoldable pub errors_as : {A : Type 0} → (GoError → Option A) → GoError → Option A
errors_as view (retryable e) =
    let rest = errors_as view e in elim (view (retryable e)) [ none ↦ rest | some a ↦ some a ]
errors_as view (net timeout e) =
    let rest = errors_as view e in elim (view (net timeout e)) [ none ↦ rest | some a ↦ some a ]
errors_as view (wrapped msg e) =
    let rest = errors_as view e in elim (view (wrapped msg e)) [ none ↦ rest | some a ↦ some a ]
errors_as view e = view e

abbrev is_shutdown : GoError → Bool
is_shutdown canceled = true
is_shutdown deadline_exceeded = true
is_shutdown e = false

abbrev is_connection_loss : GoError → Bool
is_connection_loss eof = true
is_connection_loss unexpected_eof = true
is_connection_loss net_closed = true
is_connection_loss conn_reset = true
is_connection_loss conn_refused = true
is_connection_loss e = false

abbrev as_retryable : GoError → Option (Unit {0})
as_retryable (retryable e) = some tt
as_retryable e = none

abbrev pub as_rpc : GoError → Option ℤ
as_rpc (rpc code) = some code
as_rpc e = none

abbrev as_http : GoError → Option ℕ
as_http (http status) = some status
as_http e = none

-- Timeout() of a `net.Error`; the deadline error, `net.ErrClosed` and `syscall.Errno` are ones too.
abbrev as_net : GoError → Option Bool
as_net (net timeout e) = some timeout
as_net deadline_exceeded = some true
as_net net_closed = some false
as_net conn_reset = some false
as_net conn_refused = some false
as_net e = none

-- -32603
abbrev pub rpc_code_internal_error : ℤ
rpc_code_internal_error = negsuc 32602

-- -32001
abbrev pub rpc_code_notifications_unsup : ℤ
rpc_code_notifications_unsup = negsuc 32000

-- -32003
abbrev pub rpc_code_response_too_large : ℤ
rpc_code_response_too_large = negsuc 32002

-- -32000
abbrev pub rpc_code_server_error_max : ℤ
rpc_code_server_error_max = negsuc 31999

-- -32099
abbrev pub rpc_code_server_error_min : ℤ
rpc_code_server_error_min = negsuc 32098

retryable_code : ℤ → Bool
retryable_code code =
    if eq_ℤ code rpc_code_internal_error
    then true
    else if eq_ℤ code rpc_code_notifications_unsup || eq_ℤ code rpc_code_response_too_large
    then false
    else leb_ℤ code rpc_code_server_error_max && leb_ℤ rpc_code_server_error_min code

retryable_status : ℕ → Bool
retryable_status status =
    status == 429 || status == 500 || status == 502 || status == 503 || status == 504

-- The last tests of `IsRetryable`.
retryable_net : GoError → Bool
unfolding errors_is errors_as
retryable_net e = elim (errors_as as_net e) [
  | some true ↦ true
  | _ ↦ errors_is is_connection_loss e
]

-- `none` is a nil error.
unfoldable pub is_retryable : Option GoError → Bool
unfolding errors_is errors_as retryable_code retryable_status retryable_net
is_retryable none = false
is_retryable (some e) = if errors_is is_shutdown e then false else elim (errors_as as_retryable e) [
  | some _ ↦ true
  | none ↦ elim (errors_as as_rpc e) [
    | some code ↦ retryable_code code
    | none ↦ elim (errors_as as_http e) [
      | some status ↦ retryable_status status
      | none ↦ retryable_net e
    ]
  ]
]

-- `base_delay` in nanoseconds.
pub record Options : Type 0 where
  pub max_retries : ℤ
  pub base_delay : ℕ

-- `opt.BaseDelay << attempt`, an int64.
unfoldable pub delay : Options → ℕ → ℤ
delay opt attempt = to_int64 (opt.base_delay * 2 ^ attempt % u64)

-- What `Do` returns, with the calls of `fn` that it made and the waits between them.
pub record Run (A : Type 0) : Type 0 where
  pub result : Result GoError A
  pub calls : ℕ
  pub waits : List ℤ

-- `fn n` is the outcome of the call at attempt `n`; `cut n` says that the context ends in the wait
-- after it, with the error `ctx_err`.
module _ {A : Type 0} (opt : Options) (ctx_err : GoError) (cut : ℕ → Bool)
    (fn : ℕ → Result GoError A) where
  -- What follows a call that is not the last; `rest` is the run from the next attempt on.
  after_call : ℕ → Result GoError A → Run A → Run A
  after_call attempt (ok a) rest = record { result = ok a; calls = suc attempt; waits = [] }
  after_call attempt (err e) rest =
      if is_retryable (some e)
      then if cut attempt
        then record { result = err ctx_err; calls = suc attempt; waits = delay opt attempt ∷ [] }
        else record rest { waits = delay opt attempt ∷ rest.waits }
      else record { result = err e; calls = suc attempt; waits = [] }

  -- The loop from an attempt on, with this many retries left.
  unfoldable pub do_from : ℕ → ℕ → Run A
  unfolding after_call
  do_from zero attempt = record { result = fn attempt; calls = suc attempt; waits = [] }
  do_from (suc left) attempt =
      let rest = do_from left (suc attempt) in after_call attempt (fn attempt) rest

  -- A negative `MaxRetries` makes no call and returns nil, which leaves the caller's variable at
  -- `unset`.
  unfoldable pub retry : A → Run A
  retry unset = elim opt.max_retries [
    | pos n ↦ do_from n 0
    | negsuc n ↦ record { result = ok unset; calls = 0; waits = [] }
  ]
