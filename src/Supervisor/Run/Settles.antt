-- ===== src/Supervisor/Run/Settles.antt =====
-- What a reconcile does with each runner that was started before it.
use mathlib.Core.Path.{subst}
use listener_go.Prelude.{
  ℕ, ℤ, eq_ℤ_iff, Text, eq_text, ◌≡◌, refl, ◌⊎◌, inl, inr, true, Option, none, some, List, [], ◌∷◌,
  ◌++◌, Result, ok, err, if-cases, Bool-cases, arith,
}
use listener_go.Database.Chains.{ChainInfo}
use listener_go.Supervisor.{
  ChainRunner, Action, cancelled, awaited, launched, Supervisor, StartError, Surroundings,
  lookup_chain, delete_chain, put_chain, active_chains, still_active, cancel_inactive,
  stop_inactive, start_outcome, start_chain, stop_for_reload, settle_existing, settle, settle_all,
  reconcile,
}
use listener_go.Supervisor.Maps.{Separate, lookup-delete, delete-Separate, put-Separate}
use listener_go.Supervisor.Run.{Supervising, count_reconcile}
use listener_go.Supervisor.Run.Actions.{
  Occurs, Occurs-left, Occurs-right, Occurs-append, Runs, Runs-delete_none, Runs-delete,
  Runs-keep_active, keep_active-Separate,
}

-- `D n` says that the runner was seen to have ended.
pub record Accounted (D : ℕ → Type 0) (s : Supervisor) : Type 0 where
  pub separate : Separate s.running
  pub account :
      (n : ℕ) (c : ℤ)
      → Occurs (launched n c) s.actions
      → Runs n s.running ⊎ (Occurs (cancelled n) s.actions ⊎ D n)

module _ (D : ℕ → Type 0) where
  start_outcome-Accounted :
      (o : Option StartError) (c : ℤ) (fingerprint : Text) (s : Supervisor)
      → lookup_chain c s.running ≡ none
      → Accounted D s
      → Accounted D (start_outcome o c fingerprint s)
  unfolding start_outcome put_chain
  start_outcome-Accounted (some e) c fingerprint s free v = v
  start_outcome-Accounted none c fingerprint s free v = record {
    separate =
        put-Separate c (record { id = s.next_id; token_config_hash = fingerprint }) s.running
          v.separate;
    account = λ n d h. elim (Occurs-append (launched n d) s.actions _ h) [
      | inl before ↦ elim (v.account n d before) [
        | inl runs ↦ inl (inr (Runs-delete_none n c s.running free runs))
        | inr (inl gone) ↦ inr (inl (Occurs-left (cancelled n) s.actions _ gone))
        | inr (inr over) ↦ inr (inr over)
      ]
      | inr (inl new) ↦ inl (inl (cc new))
      | inr (inr none_left) ↦ absurd none_left
    ];
  }

  -- A runner leaves the map, where it was seen to have ended or is cancelled.
  without-Accounted :
      (c : ℤ) (r : ChainRunner) (s : Supervisor) (actions : List Action)
      → lookup_chain c s.running ≡ some r
      → Occurs (cancelled r.id) actions ⊎ D r.id
      → ((a : Action) → Occurs a s.actions → Occurs a actions)
      → ((n : ℕ) (d : ℤ) → Occurs (launched n d) actions → Occurs (launched n d) s.actions)
      → Accounted D s
      → Accounted D (record s { running = delete_chain c s.running; actions = actions })
  without-Accounted c r s actions found ended more launches v = record {
    separate = delete-Separate c s.running v.separate;
    account = λ n d h. elim (v.account n d (launches n d h)) [
      | inr (inl gone) ↦ inr (inl (more (cancelled n) gone))
      | inr (inr over) ↦ inr (inr over)
      | inl runs ↦ elim (Runs-delete n c r s.running v.separate found runs) [
        | inl still ↦ inl still
        | inr same ↦ inr (subst (λ k. Occurs (cancelled k) actions ⊎ D k) same ended)
      ]
    ];
  }

  deleted : (c : ℤ) (m : List (ℤ × ChainRunner)) → lookup_chain c (delete_chain c m) ≡ none
  deleted c m = ground (arith, lookup-delete c c m, eq_ℤ_iff c c)

  -- `D` holds of the runners whose `done` is closed in these surroundings.
  settle_existing-Accounted :
      (w : Surroundings) (c : ℤ) (fingerprint : Text) (o : Option ChainRunner) (s : Supervisor)
      → ((n : ℕ) → w.is_done n ≡ true → D n)
      → lookup_chain c s.running ≡ o
      → Accounted D s
      → Accounted D (settle_existing w c fingerprint o s)
  unfolding settle_existing start_chain stop_for_reload
  settle_existing-Accounted w c fingerprint none s dead found v =
      start_outcome-Accounted (w.start_error c) c fingerprint s found v
  settle_existing-Accounted w c fingerprint (some r) s dead found v =
      if-cases (Accounted D) (w.is_done r.id)
        (λ over.
          start_outcome-Accounted (w.start_error c) c fingerprint
            (record s { running = delete_chain c s.running }) (deleted c s.running)
            (without-Accounted c r s s.actions found (inr (dead r.id over)) (λ a h. h) (λ n d h. h)
              v))
        (λ alive.
          if-cases (Accounted D) (eq_text r.token_config_hash fingerprint) (λ same. v)
            (λ reload.
              let more : List Action = cancelled r.id ∷ awaited r.id ∷ [] in
              start_outcome-Accounted (w.start_error c) c fingerprint (stop_for_reload c r s)
                (deleted c s.running)
                (without-Accounted c r s (s.actions ++ more) found
                  (inl (Occurs-right (cancelled r.id) s.actions more (inl refl)))
                  (λ a h. Occurs-left a s.actions more h)
                  (λ n d h. elim (Occurs-append (launched n d) s.actions more h) [
                    | inl before ↦ before
                    | inr (inl e) ↦ absurd (cc e)
                    | inr (inr (inl e)) ↦ absurd (cc e)
                    | inr (inr (inr h')) ↦ absurd h'
                  ])
                  v)))

  settle_all-Accounted :
      (w : Surroundings) (active : List (ℤ × Text)) (s : Supervisor)
      → ((n : ℕ) → w.is_done n ≡ true → D n)
      → Accounted D s
      → Accounted D (settle_all w active s)
  unfolding settle_all settle
  settle_all-Accounted w [] s dead v = v
  settle_all-Accounted w ((c, fingerprint) ∷ active) s dead v =
      settle_all-Accounted w active (settle w c fingerprint s) dead
        (settle_existing-Accounted w c fingerprint (lookup_chain c s.running) s dead refl v)

  pub no_launch :
      (n : ℕ) (d : ℤ) (active : List (ℤ × Text)) (m : List (ℤ × ChainRunner))
      → Occurs (launched n d) (cancel_inactive active m)
      → ⊥
  unfolding cancel_inactive
  no_launch n d active [] h = h
  no_launch n d active ((c, r) ∷ m) h = elim (Bool-cases (still_active (lookup_chain c active))) [
    | inl stays ↦ no_launch n d active m (rw stays at h)
    | inr goes ↦
        let h' : Occurs (launched n d) (cancelled r.id ∷ cancel_inactive active m) = rw goes at h in
        elim h' [ inl e ↦ absurd (cc e) | inr later ↦ no_launch n d active m later ]
  ]

  stop_inactive-Accounted :
      (active : List (ℤ × Text)) (s : Supervisor)
      → Accounted D s
      → Accounted D (stop_inactive active s)
  unfolding stop_inactive
  stop_inactive-Accounted active s v = record {
    separate = keep_active-Separate active s.running v.separate;
    account = λ n d h. elim (Occurs-append (launched n d) s.actions _ h) [
      | inr new ↦ absurd (no_launch n d active s.running new)
      | inl before ↦ elim (v.account n d before) [
        | inr (inl gone) ↦ inr (inl (Occurs-left (cancelled n) s.actions _ gone))
        | inr (inr over) ↦ inr (inr over)
        | inl runs ↦ elim (Runs-keep_active n active s.running runs) [
          | inl still ↦ inl still
          | inr gone ↦ inr (inl (Occurs-right (cancelled n) s.actions _ gone))
        ]
      ]
    ];
  }

  pub reconcile-Accounted :
      (w : Surroundings) (order : List (ℤ × Text) → List (ℤ × Text))
      (infos : Option (List ChainInfo)) (s : Supervisor)
      → ((n : ℕ) → w.is_done n ≡ true → D n)
      → Accounted D s
      → Accounted D (reconcile w order infos s).1
  unfolding reconcile
  reconcile-Accounted w order none s dead v = v
  reconcile-Accounted w order (some infos) s dead v =
      settle_all-Accounted w (order (active_chains infos [])) _ dead
        (stop_inactive-Accounted (active_chains infos []) s v)

  pub count_reconcile-Accounted :
      (x : Result (Unit {0}) (Unit {0}) × Supervisor) (r : Supervising)
      → Accounted D x.1
      → Accounted D (count_reconcile x r).supervisor
  unfolding count_reconcile
  count_reconcile-Accounted (ok _, s) r v = v
  count_reconcile-Accounted (err _, s) r v = v
