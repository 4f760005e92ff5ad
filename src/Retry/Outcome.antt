-- ===== src/Retry/Outcome.antt =====
-- How a run of the retry loop goes: which calls it makes, and with which of them it ends.
use listener_go.Prelude.{
  ℕ, zero, suc, ◌+◌, ◌≤◌, ◌<◌, pos, ◌≡◌, refl, ◌⊎◌, inl, inr, Bool, true, false, some, Result, ok,
  err, Result-cases, if-cases, Each, arith,
}
use listener_go.Retry.{GoError, is_retryable, Options, Run, after_call, do_from, retry}

module _ {A : Type 0} (opt : Options) (ctx_err : GoError) (cut : ℕ → Bool)
    (fn : ℕ → Result GoError A) where
  -- The call fails with an error that is retried, and the wait after it runs to its end.
  abbrev pub Retried : ℕ → Type 0
  Retried n = (e : GoError) × (fn n ≡ err e) × (is_retryable (some e) ≡ true) × (cut n ≡ false)

  -- The call at `n` is the last one: it succeeds, or its error is not retried or there is no retry
  -- left, or the context ends in the wait after it.
  abbrev pub StopsAt : ℕ → ℕ → Result GoError A → Type 0
  StopsAt last n r =
      ((a : A) × (fn n ≡ ok a) × (r ≡ ok a))
      ⊎ ((e : GoError) × (fn n ≡ err e)
          × (r ≡ err e)
          × ((is_retryable (some e) ≡ false) ⊎ (n ≡ last)))
      ⊎ ((e : GoError) × (fn n ≡ err e)
          × (is_retryable (some e) ≡ true)
          × (n < last)
          × (cut n ≡ true)
          × (r ≡ err ctx_err))

  -- The run retries the first `n` calls from `first` on, and stops at the call after them, which
  -- `i`, which is at most `last`.
  abbrev pub RunsFrom : ℕ → ℕ → Run A → Type 0
  RunsFrom first last run =
      (n i : ℕ) × (i ≡ first + n)
      × (i ≤ last)
      × Each Retried first n
      × StopsAt last i run.result
      × (run.calls ≡ suc i)

  after_call-RunsFrom :
      (last attempt : ℕ) (r : Result GoError A) (rest : Run A)
      → fn attempt ≡ r
      → attempt < last
      → RunsFrom (suc attempt) last rest
      → RunsFrom attempt last (after_call opt ctx_err cut fn attempt r rest)
  unfolding after_call
  after_call-RunsFrom last attempt (ok a) rest h lt runs =
      (0, attempt, omega arith, omega arith, tt, inl (a, h, refl), refl)
  after_call-RunsFrom last attempt (err e) rest h lt (n, i, at, le, retried, stops, calls) =
      if-cases (RunsFrom attempt last) (is_retryable (some e))
        (λ again.
          if-cases (RunsFrom attempt last) (cut attempt)
            (λ ended. (
              0,
              attempt,
              omega arith,
              omega arith,
              tt,
              inr (inr (e, h, again, lt, ended, refl)),
              refl,
            ))
            (λ waited. (suc n, i, omega arith, le, ((e, h, again, waited), retried), stops, calls)))
        (λ final.
          (0, attempt, omega arith, omega arith, tt, inr (inl (e, h, refl, inl final)), refl))

  do_from-RunsFrom :
      (left attempt last : ℕ)
      → left + attempt ≡ last
      → RunsFrom attempt last (do_from opt ctx_err cut fn left attempt)
  unfolding do_from
  do_from-RunsFrom zero attempt last h = (
    0,
    attempt,
    omega arith,
    omega arith,
    tt,
    elim (Result-cases (fn attempt)) [
      | inl (a, e) ↦ inl (a, e, e)
      | inr (x, e) ↦ inr (inl (x, e, e, inr (omega arith)))
    ],
    refl,
  )
  do_from-RunsFrom (suc left) attempt last h =
      after_call-RunsFrom last attempt (fn attempt) (do_from opt ctx_err cut fn left (suc attempt))
        refl (omega arith) (do_from-RunsFrom left (suc attempt) last (omega arith))

  -- With `MaxRetries` = max ≥ 0: `Do` makes the calls 0, …, n for some n ≤ max. All but the last
  -- fail with a retryable error and are followed by a full wait. The last one succeeds and `Do`
  -- returns its value; or it fails with an error that is not retryable, or is the call of the last
  -- retry, and `Do` returns its error; or the context ends in the wait after it, and `Do` returns
  -- the error of the context.
  pub retry-RunsFrom :
      (unset : A) (max : ℕ)
      → opt.max_retries ≡ pos max
      → RunsFrom 0 max (retry opt ctx_err cut fn unset)
  unfolding retry
  retry-RunsFrom unset max h = rw (h, retry) (do_from-RunsFrom max 0 max (omega arith))
