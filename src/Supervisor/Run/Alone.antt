-- ===== src/Supervisor/Run/Alone.antt =====
-- The runners of a chain that stays active, over the reconciles of Run.
use listener_go.Prelude.{
  ℕ, ℤ, eq_ℤ, eq_ℤ_iff, Text, ◌≡◌, refl, sym, ◌⊎◌, inl, inr, true, Option, none, some, List, [],
  ◌∷◌, Result, ok, err, All, Bool-cases, arith,
}
use mathlib.Core.Path.{subst}
use listener_go.Database.Chains.{ChainInfo}
use listener_go.Supervisor.{
  awaited, launched, Supervisor, Surroundings, lookup_chain, active_chains, still_active,
  stop_inactive, settle_existing, settle, settle_all, reconcile,
}
use listener_go.Supervisor.Maps.{lookup-keep_active}
use listener_go.Supervisor.Run.{
  Tick, Supervising, new_supervisor, reconcile_at, count_reconcile, supervise, started,
}
use listener_go.Supervisor.Run.Actions.{Occurs, Occurs-left, Occurs-append}
use listener_go.Supervisor.Run.Settles.{no_launch}
use listener_go.Supervisor.Run.Stops.{SeenDone}
use listener_go.Supervisor.Run.OneChain.{Registered, Alone, settle_own-Alone, settle_other-Alone}

module _ (D : ℕ → Type 0) (c : ℤ) where
  settle-Alone :
      (w : Surroundings) (d : ℤ) (fingerprint : Text) (s : Supervisor)
      → ((n : ℕ) → w.is_done n ≡ true → D n)
      → Alone D c s
      → Alone D c (settle w d fingerprint s)
  unfolding settle
  settle-Alone w d fingerprint s dead v = elim (Bool-cases (eq_ℤ d c)) [
    | inl own ↦
        let same : c ≡ d = sym ((eq_ℤ_iff d c).0 own) in
        subst (λ x. Alone D c (settle_existing w x fingerprint (lookup_chain x s.running) s)) (same)
          (settle_own-Alone D c w fingerprint (lookup_chain c s.running) s dead refl v)
    | inr other ↦ settle_other-Alone D c w d fingerprint (lookup_chain d s.running) s other v
  ]

  settle_all-Alone :
      (w : Surroundings) (active : List (ℤ × Text)) (s : Supervisor)
      → ((n : ℕ) → w.is_done n ≡ true → D n)
      → Alone D c s
      → Alone D c (settle_all w active s)
  unfolding settle_all
  settle_all-Alone w [] s dead v = v
  settle_all-Alone w ((d, fingerprint) ∷ active) s dead v =
      settle_all-Alone w active (settle w d fingerprint s) dead
        (settle-Alone w d fingerprint s dead v)

  stop_inactive-Alone :
      (active : List (ℤ × Text)) (s : Supervisor)
      → still_active (lookup_chain c active) ≡ true
      → Alone D c s
      → Alone D c (stop_inactive active s)
  unfolding stop_inactive
  stop_inactive-Alone active s stays v = λ n h. elim (Occurs-append (launched n c) s.actions _ h) [
    | inr new ↦ absurd (no_launch D n c active s.running new)
    | inl before ↦ elim (v n before) [
      | inl (r, found, same) ↦ inl (r, ground (arith, lookup-keep_active c active s.running), same)
      | inr (inl waited) ↦ inr (inl (Occurs-left (awaited n) s.actions _ waited))
      | inr (inr over) ↦ inr (inr over)
    ]
  ]

-- The chain is among the active ones, unless they could not be read.
abbrev pub StaysActive : ℤ → Option (List ChainInfo) → Type 0
StaysActive c none = Unit
StaysActive c (some infos) = still_active (lookup_chain c (active_chains infos [])) ≡ true

reconcile-Alone :
    (D : ℕ → Type 0) (c : ℤ) (w : Surroundings) (order : List (ℤ × Text) → List (ℤ × Text))
    (infos : Option (List ChainInfo)) (s : Supervisor)
    → StaysActive c infos
    → ((n : ℕ) → w.is_done n ≡ true → D n)
    → Alone D c s
    → Alone D c (reconcile w order infos s).1
unfolding reconcile
reconcile-Alone D c w order none s stays dead v = v
reconcile-Alone D c w order (some infos) s stays dead v =
    settle_all-Alone D c w (order (active_chains infos [])) _ dead
      (stop_inactive-Alone D c (active_chains infos []) s stays v)

count_reconcile-Alone :
    (D : ℕ → Type 0) (c : ℤ) (x : Result (Unit {0}) (Unit {0}) × Supervisor) (r : Supervising)
    → Alone D c x.1
    → Alone D c (count_reconcile x r).supervisor
unfolding count_reconcile
count_reconcile-Alone D c (ok _, s) r v = v
count_reconcile-Alone D c (err _, s) r v = v

supervise-Alone :
    (D : ℕ → Type 0) (c : ℤ) (ticks : List Tick) (r : Supervising)
    → All (λ t. StaysActive c t.infos) ticks
    → ((n : ℕ) → SeenDone n ticks → D n)
    → Alone D c r.supervisor
    → Alone D c (supervise ticks r).supervisor
unfolding supervise
supervise-Alone D c [] r stays within v = v
supervise-Alone D c (t ∷ ticks) r stays within v =
    supervise-Alone D c ticks _ stays.1 (λ n h. within n (inr h))
      (count_reconcile-Alone D c (reconcile_at t r.supervisor) r (
        reconcile-Alone D c t.surroundings t.order t.infos r.supervisor stays.0
          (λ n h. within n (inl h)) v))

-- After every sequence of reconciles in each of which the chain is active, or the active chains could
-- not be read, in whatever order the chains are visited: each runner that was ever started for the
-- chain is the one that is registered for it, or it was waited for, or a reconcile found its `done`
-- closed.
pub supervise-alone :
    (first : Tick) (ticks : List Tick) (c : ℤ) (n : ℕ)
    → All (λ t. StaysActive c t.infos) (first ∷ ticks)
    → Occurs (launched n c) (supervise ticks (started first)).supervisor.actions
    → Registered c n (supervise ticks (started first)).supervisor
      ⊎ (Occurs (awaited n) (supervise ticks (started first)).supervisor.actions
          ⊎ SeenDone n (first ∷ ticks))
supervise-alone first ticks c n stays h =
    let D : ℕ → Type 0 = λ k. SeenDone k (first ∷ ticks) in
    supervise-Alone D c ticks (started first) stays.1 (λ k e. inr e)
      (reconcile-Alone D c first.surroundings first.order first.infos new_supervisor stays.0
        (λ k e. inl e) (λ k e. absurd e))
      n h
