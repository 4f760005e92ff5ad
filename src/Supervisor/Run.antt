-- ===== src/Supervisor/Run.antt =====
-- internal/supervisor/supervisor.go: Run, from New to the end of the context.
pub mod Actions
pub mod Alone
pub mod OneChain
pub mod Settles
pub mod Stops
use listener_go.Prelude.{ℕ, suc, ℤ, Text, Option, List, [], ◌∷◌, Result, ok, err}
use listener_go.Database.Chains.{ChainInfo}
use listener_go.Supervisor.{Supervisor, Surroundings, reconcile, stop_all}

-- What one reconcile meets: `none` is an error of ActiveChains, `order` the order of the visits.
pub record Tick : Type 0 where
  pub surroundings : Surroundings
  pub order : List (ℤ × Text) → List (ℤ × Text)
  pub infos : Option (List ChainInfo)

-- The supervisor with the two labels of the metric SupervisorReconciles.
pub record Supervising : Type 0 where
  pub supervisor : Supervisor
  pub successes : ℕ
  pub errors : ℕ

abbrev pub new_supervisor : Supervisor
new_supervisor = record { running = []; next_id = 0; actions = [] }

abbrev pub reconcile_at : Tick → Supervisor → Result (Unit {0}) (Unit {0}) × Supervisor
reconcile_at t s = reconcile t.surroundings t.order t.infos s

unfoldable pub count_reconcile :
    Result (Unit {0}) (Unit {0}) × Supervisor → Supervising → Supervising
count_reconcile (ok _, s) r = record r { supervisor = s; successes = suc r.successes }
count_reconcile (err _, s) r = record r { supervisor = s; errors = suc r.errors }

-- The loop, one turn for each tick; an error of a reconcile is counted and logged.
unfoldable pub supervise : List Tick → Supervising → Supervising
unfolding count_reconcile
supervise [] r = r
supervise (t ∷ ticks) r = supervise ticks (count_reconcile (reconcile_at t r.supervisor) r)

-- The first reconcile, which the metric does not count.
abbrev pub started : Tick → Supervising
started first = record {
  supervisor = (reconcile_at first new_supervisor).1;
  successes = 0;
  errors = 0;
}

-- The ticks, and the end of the context.
unfoldable pub run_supervisor : Tick → List Tick → Supervising
run_supervisor first ticks =
    let r = supervise ticks (started first) in record r { supervisor = stop_all r.supervisor }
