-- ===== src/Retry/Classes.antt =====
-- `IsRetryable` over chains of wrapped errors.
use listener_go.Prelude.{
  ℕ, ◌≤◌, negsuc, Text, ◌≡◌, ◌≢◌, refl, ◌⊎◌, ◌↔◌, Bool, true, false, some, arith,
}
use listener_go.Retry.{
  GoError, canceled, deadline_exceeded, retryable, rpc, net, wrapped, errors_is, is_shutdown,
  is_retryable,
}

-- `Wraps e x`: unwrapping `e` leads to `x`.
pub data Wraps (x : GoError) : GoError → Type 0 where
  here : Wraps x x
  in_retryable : {e : GoError} → Wraps x e → Wraps x (retryable e)
  in_net : {e : GoError} (timeout : Bool) → Wraps x e → Wraps x (net timeout e)
  in_wrapped : {e : GoError} (msg : Text) → Wraps x e → Wraps x (wrapped msg e)

errors_is-Wraps :
    {x e : GoError} → is_shutdown x ≡ true → Wraps x e → errors_is is_shutdown e ≡ true
unfolding errors_is
errors_is-Wraps {x} h here = go x h
  where
    go : (y : GoError) → is_shutdown y ≡ true → errors_is is_shutdown y ≡ true
    go canceled h = refl
    go deadline_exceeded h = refl
    go y h = cc
errors_is-Wraps h (in_retryable w) = errors_is-Wraps h w
errors_is-Wraps h (in_net timeout w) = errors_is-Wraps h w
errors_is-Wraps h (in_wrapped msg w) = errors_is-Wraps h w

-- Wrapping by `fmt.Errorf` does not change the class of an error.
is_retryable-wrapped :
    (msg : Text) (e : GoError) → is_retryable (some (wrapped msg e)) ≡ is_retryable (some e)
unfolding is_retryable
is_retryable-wrapped msg e = refl

-- An error that wraps the end of the context (`Canceled`, `DeadlineExceeded`) at any depth is not
-- retried, also inside a `RetryableError` or a network timeout.
is_retryable-Wraps :
    (x e : GoError) → is_shutdown x ≡ true → Wraps x e → is_retryable (some e) ≡ false
unfolding is_retryable
is_retryable-Wraps x e h w = rw (errors_is-Wraps h w)

-- A JSON-RPC error with the code -(n + 1) is retried exactly if it is an internal error (-32603),
-- or a server error, -32099 to -32000, that is neither -32001 nor -32003.
is_retryable-rpc :
    (n : ℕ)
    → (is_retryable (some (rpc (negsuc n))) ≡ true)
      ↔ ((n ≡ 32602) ⊎ ((31999 ≤ n) × (n ≤ 32098) × (n ≢ 32000) × (n ≢ 32002)))
unfolding is_retryable
is_retryable-rpc n = ground arith
