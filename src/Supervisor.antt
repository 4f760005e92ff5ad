-- ===== src/Supervisor.antt =====
-- internal/supervisor/supervisor.go: which chains run, and how `reconcile` changes that.
pub mod Chain
pub mod Maps
pub mod Reconcile
pub mod Run
use listener_go.Prelude.{
  ℕ, suc, ℤ, eq_ℤ, Text, eq_text, Bool, true, false, ◌||◌, Option, none, some, List, [], ◌∷◌, ◌++◌,
  Result, ok, err, map, if◌then◌else◌,
}
use listener_go.Database.Chains.{ChainInfo}

-- `id` stands for the handle: two runners of one chain differ in it.
pub record ChainRunner : Type 0 where
  pub id : ℕ
  pub token_config_hash : Text

-- What the supervisor does to the runners, in order: cancel, wait for `done`, start.
pub data Action : Type 0 where
  cancelled awaited : ℕ → Action
  launched : ℕ → ℤ → Action

-- The map `running`, the next handle, and what was done.
pub record Supervisor : Type 0 where
  pub running : List (ℤ × ChainRunner)
  pub next_id : ℕ
  pub actions : List Action

pub data StartError : Type 0 where
  no_chain_config no_loops : StartError

-- What a reconcile meets: the closed `done` channels, and which chains cannot be started.
pub record Surroundings : Type 0 where
  pub is_done : ℕ → Bool
  pub start_error : ℤ → Option StartError

module _ {ℓ} {V : Type ℓ} where
  unfoldable pub lookup_chain : ℤ → List (ℤ × V) → Option V
  lookup_chain c [] = none
  lookup_chain c ((c', v) ∷ m) = if eq_ℤ c' c then some v else lookup_chain c m

  unfoldable pub delete_chain : ℤ → List (ℤ × V) → List (ℤ × V)
  delete_chain c [] = []
  delete_chain c ((c', v) ∷ m) =
      let rest = delete_chain c m in if eq_ℤ c' c then rest else (c', v) ∷ rest

  unfoldable pub put_chain : ℤ → V → List (ℤ × V) → List (ℤ × V)
  put_chain c v m = (c, v) ∷ delete_chain c m

-- The map `active`, the infos from the first to the last: a later one replaces an earlier one.
unfoldable pub active_chains : List ChainInfo → List (ℤ × Text) → List (ℤ × Text)
active_chains [] m = m
active_chains (i ∷ is) m = active_chains is (put_chain i.chain_id i.token_config_hash m)

-- 1. The chains that are not active any more: cancelled and forgotten, without a wait.
unfoldable pub still_active : Option Text → Bool
still_active none = false
still_active (some h) = true

unfoldable pub keep_active : List (ℤ × Text) → List (ℤ × ChainRunner) → List (ℤ × ChainRunner)
keep_active active [] = []
keep_active active ((c, r) ∷ m) =
    let rest = keep_active active m in
    if still_active (lookup_chain c active) then (c, r) ∷ rest else rest

unfoldable pub cancel_inactive : List (ℤ × Text) → List (ℤ × ChainRunner) → List Action
cancel_inactive active [] = []
cancel_inactive active ((c, r) ∷ m) =
    let rest = cancel_inactive active m in
    if still_active (lookup_chain c active) then rest else cancelled r.id ∷ rest

unfoldable pub stop_inactive : List (ℤ × Text) → Supervisor → Supervisor
stop_inactive active s = record s {
  running = keep_active active s.running;
  actions = s.actions ++ cancel_inactive active s.running;
}

-- `startChain`: an error leaves the map as it is.
unfoldable pub start_outcome : Option StartError → ℤ → Text → Supervisor → Supervisor
start_outcome (some e) c fingerprint s = s
start_outcome none c fingerprint s = record {
  running = put_chain c (record { id = s.next_id; token_config_hash = fingerprint }) s.running;
  next_id = suc s.next_id;
  actions = s.actions ++ launched s.next_id c ∷ [];
}

unfoldable pub start_chain : Surroundings → ℤ → Text → Supervisor → Supervisor
start_chain w c fingerprint s = start_outcome (w.start_error c) c fingerprint s

-- The runner is cancelled and awaited before it is replaced.
unfoldable pub stop_for_reload : ℤ → ChainRunner → Supervisor → Supervisor
stop_for_reload c r s = record s {
  running = delete_chain c s.running;
  actions = s.actions ++ cancelled r.id ∷ awaited r.id ∷ [];
}

-- 2. One active chain: a dead runner is forgotten, one with the same fingerprint is kept.
unfoldable pub settle_existing :
    Surroundings → ℤ → Text → Option ChainRunner → Supervisor → Supervisor
settle_existing w c fingerprint none s = start_chain w c fingerprint s
settle_existing w c fingerprint (some r) s =
    if w.is_done r.id
    then start_chain w c fingerprint (record s { running = delete_chain c s.running })
    else if eq_text r.token_config_hash fingerprint
    then s
    else start_chain w c fingerprint (stop_for_reload c r s)

unfoldable pub settle : Surroundings → ℤ → Text → Supervisor → Supervisor
settle w c fingerprint s = settle_existing w c fingerprint (lookup_chain c s.running) s

-- The loop over the active chains, in the order of the list.
unfoldable pub settle_all : Surroundings → List (ℤ × Text) → Supervisor → Supervisor
settle_all w [] s = s
settle_all w ((c, fingerprint) ∷ active) s = settle_all w active (settle w c fingerprint s)

-- `none` is an error of ActiveChains. Go visits `active` in any order: `order` gives it.
unfoldable pub reconcile :
    Surroundings
    → (List (ℤ × Text) → List (ℤ × Text))
    → Option (List ChainInfo)
    → Supervisor
    → Result (Unit {0}) (Unit {0}) × Supervisor
reconcile w order none s = (err tt, s)
reconcile w order (some infos) s =
    let active = active_chains infos [] in
    (ok tt, settle_all w (order active) (stop_inactive active s))

-- `stopAll`: every runner is cancelled, the map is emptied, then every runner is awaited.
unfoldable pub stop_all : Supervisor → Supervisor
stop_all s = record s {
  running = [];
  actions =
      s.actions ++ map (λ e. cancelled e.1.id) s.running ++ map (λ e. awaited e.1.id) s.running;
}
