-- ===== src/Scanner/Trace/Cache.antt =====
-- The cache and the flag that a TraceScanner keeps from block to block.
use listener_go.Prelude.{
  ℕ, ◌≤◌, leb, ◌≡◌, ap, ◌∙◌, inl, inr, Bool, some, Option-cases, List, [], ◌∷◌, length, All, Result,
  ok, Result-cases, if-cases, arith,
}
use listener_go.Retry.{GoError, Options}
use listener_go.Scanner.Node.{Call, do_call}
use listener_go.Scanner.Trace.{TraceState, code_cache_max_entries}
use listener_go.Scanner.Trace.Code.{
  lookup_code, remember, has_code, after_code, from_cache, is_contract,
}

module _ (code : ℕ → Bool) where
  -- The cache says what is true of the chain, and is not larger than its limit.
  abbrev pub IsGoodCache : List (ℕ × Bool) → Type 0
  IsGoodCache m = All (λ x. x.1 ≡ code x.0) m × (length m ≤ code_cache_max_entries)

  remember-IsGoodCache :
      (a : ℕ) (v : Bool) (m : List (ℕ × Bool))
      → v ≡ code a
      → IsGoodCache m
      → IsGoodCache (remember a v m)
  unfolding remember
  remember-IsGoodCache a v m right (all, small) =
      if-cases IsGoodCache (leb code_cache_max_entries (length m))
        (λ full. ((right, tt), omega arith)) (λ room. ((right, all), ground arith))

  lookup_code-right :
      (a : ℕ) (v : Bool) (m : List (ℕ × Bool))
      → All (λ x. x.1 ≡ code x.0) m
      → lookup_code a m ≡ some v
      → v ≡ code a
  unfolding lookup_code
  lookup_code-right a v [] all h = absurd (cc h)
  lookup_code-right a v ((b, u) ∷ m) (right, all) h = ground (arith, lookup_code-right a v m all)

  -- An answer of the node about an address is the truth.
  abbrev pub IsHonest : Options → Call (List ℕ) → ℕ → Type 0
  IsHonest opt call a = (cs : List ℕ) → do_call opt [] call ≡ ok cs → has_code cs ≡ code a

  abbrev IsRight : ℕ → TraceState × Result GoError Bool → Type 0
  IsRight a (st, x) = IsGoodCache st.code_cache × ((v : Bool) → x ≡ ok v → v ≡ code a)

  -- Where the cache is good and the node answers the truth, `isContract` answers the truth or an
  -- error and leaves a good cache, full or not.
  pub is_contract-IsRight :
      (opt : Options) (call : Call (List ℕ)) (a : ℕ) (st : TraceState)
      → IsHonest opt call a
      → IsGoodCache st.code_cache
      → IsRight a (is_contract opt call a st)
  unfolding is_contract from_cache after_code
  is_contract-IsRight opt call a st honest good =
      elim (Option-cases (lookup_code a st.code_cache)) [
        | inr (v, e) ↦
            rw (e, from_cache)
              (
                good,
                λ u h.
                    let same : v ≡ u = cc in
                    lookup_code-right a u st.code_cache good.0 (e ∙ ap some same),
              )
        | inl e ↦ elim (Result-cases (do_call opt [] call)) [
          | inl (cs, read) ↦
              rw (e, from_cache, read, after_code)
                (
                  remember-IsGoodCache a (has_code cs) st.code_cache (honest cs read) good,
                  λ v h. let same : has_code cs ≡ v = cc in rw (← same) (honest cs read),
                )
          | inr (x, failed) ↦ rw (e, from_cache, failed, after_code) (good, λ v h. absurd (cc h))
        ]
      ]
