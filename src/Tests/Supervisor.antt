-- ===== src/Tests/Supervisor.antt =====
-- A reconcile, and the goroutines of a chain, at concrete inputs.
use listener_go.Prelude.{
  ◌≤◌, ◌≡◌, ◌≢◌, ◌⊎◌, All, inl, true, false, ℤ, pos, codes, eq_text, Text, refl, ◌==◌, some, none,
  List, [], ◌∷◌,
}
use listener_go.Database.Chains.{ChainInfo}
use listener_go.Supervisor.{
  Supervisor, Surroundings, cancelled, awaited, launched, lookup_chain, active_chains, reconcile,
  stop_all, settle_all, settle, settle_existing, start_chain, start_outcome, stop_inactive,
  stop_for_reload, put_chain, delete_chain, cancel_inactive, keep_active, still_active,
}
use listener_go.Supervisor.Run.{Tick, run_supervisor, started, supervise}
use listener_go.Supervisor.Run.Alone.{StaysActive, supervise-alone}
use listener_go.Supervisor.Run.OneChain.{Registered}
use listener_go.Supervisor.Run.Actions.{Occurs}
use listener_go.Supervisor.Run.Stops.{SeenDone, run_supervisor-stops}
use listener_go.Supervisor.Chain.{
  counting, running, finished, panicked, log_side, Chain, put_pc, start_goroutines, leave, Move,
  ends, leaves, Reach, here, next,
}
use listener_go.Supervisor.Chain.Orderly.{reach-closes}
use listener_go.Supervisor.Chain.Ends.{own_steps, Works, reach-ends}
use listener_go.Supervisor.Reconcile.{Settled, IsOrder, reconcile-Settled}

abbrev unchanged : List (ℤ × Text) → List (ℤ × Text)
unchanged m = m

unchanged-IsOrder : IsOrder unchanged
unchanged-IsOrder = record { once = λ m h. h; same = λ m c h. refl }

-- Chain 1 has a new configuration, and the runner of chain 2 has died.
abbrev infos : List ChainInfo
infos =
    record { chain_id = pos 1; rpc_url = []; token_config_hash = codes "b" }
    ∷ record { chain_id = pos 2; rpc_url = []; token_config_hash = codes "a" }
    ∷ []

abbrev before : Supervisor
before = record {
  running =
      (pos 1, record { id = 0; token_config_hash = codes "a" })
      ∷ (pos 2, record { id = 1; token_config_hash = codes "a" })
      ∷ [];
  next_id = 2;
  actions = [];
}

abbrev surroundings : Surroundings
surroundings = record { is_done = λ i. i == 1; start_error = λ c. none }

reconcile-Settled_example :
    Settled surroundings
      (pos 1)
      (lookup_chain (pos 1) (active_chains infos []))
      2
      (lookup_chain (pos 1) before.running)
      (lookup_chain (pos 1) (reconcile surroundings unchanged (some infos) before).1.running)
reconcile-Settled_example =
    reconcile-Settled surroundings unchanged unchanged-IsOrder infos before (pos 1)

-- The log loop panics, and its goroutine counts itself out.
abbrev after_panic : Chain
after_panic = put_pc log_side (counting panicked) start_goroutines

abbrev counted_out : Chain
counted_out = leave log_side (counting panicked) after_panic

chain_moves : Reach start_goroutines counted_out
unfolding start_goroutines
chain_moves =
    next (next here (ends log_side panicked start_goroutines refl tt))
      (leaves log_side after_panic tt)

reach-closes_example :
    (counted_out.closes ≤ 1)
    × ((counted_out.closes ≡ 0)
        ⊎ ((counted_out.log_pc ≢ running) × (counted_out.trace_pc ≢ running)))
    × (counted_out.negative ≡ false)
    × ((counted_out.done ≡ false)
        ⊎ ((counted_out.log_pc ≡ finished)
            × (counted_out.trace_pc ≡ finished)
            × (counted_out.cancelled ≡ true)
            × (counted_out.closes ≡ 1)))
reach-closes_example = reach-closes counted_out chain_moves

reach-ends_example :
    (own_steps chain_moves ≤ 13)
    × (((counted_out.log_pc ≡ running) × (counted_out.trace_pc ≡ running))
        ⊎ ((counted_out.done ≡ true) ⊎ ((d : Chain) × (m : Move counted_out d) × Works m)))
reach-ends_example = reach-ends counted_out chain_moves

-- The first reconcile starts chain 1, and the context ends after a second one.
abbrev one_chain : List ChainInfo
one_chain = record { chain_id = pos 1; rpc_url = []; token_config_hash = codes "b" } ∷ []

abbrev tick : Tick
tick = record { surroundings = surroundings; order = unchanged; infos = some one_chain }

chain_launched : Occurs (launched 0 (pos 1)) (run_supervisor tick (tick ∷ [])).supervisor.actions
unfolding run_supervisor supervise reconcile stop_all settle_all settle settle_existing start_chain
    start_outcome stop_inactive stop_for_reload active_chains put_chain delete_chain lookup_chain
    cancel_inactive keep_active still_active eq_text
chain_launched = inl refl

run_supervisor-stops_example :
    (Occurs (cancelled 0) (run_supervisor tick (tick ∷ [])).supervisor.actions
      ⊎ SeenDone 0 (tick ∷ tick ∷ []))
    × ((run_supervisor tick (tick ∷ [])).supervisor.running ≡ [])
run_supervisor-stops_example = run_supervisor-stops tick (tick ∷ []) 0 (pos 1) chain_launched

stays_active : All (λ t. StaysActive (pos 1) t.infos) (tick ∷ tick ∷ [])
unfolding active_chains put_chain delete_chain lookup_chain still_active
stays_active = (refl, (refl, tt))

launched_first :
    Occurs (launched 0 (pos 1)) (supervise (tick ∷ []) (started tick)).supervisor.actions
unfolding supervise reconcile stop_all settle_all settle settle_existing start_chain start_outcome
    stop_inactive stop_for_reload active_chains put_chain delete_chain lookup_chain cancel_inactive
    keep_active still_active eq_text
launched_first = inl refl

supervise-alone_example :
    Registered (pos 1) 0 (supervise (tick ∷ []) (started tick)).supervisor
    ⊎ (Occurs (awaited 0) (supervise (tick ∷ []) (started tick)).supervisor.actions
        ⊎ SeenDone 0 (tick ∷ tick ∷ []))
supervise-alone_example = supervise-alone tick (tick ∷ []) (pos 1) 0 stays_active launched_first
