-- ===== src/Supervisor/Run/Stops.antt =====
-- What becomes of the runners until Run returns.
use listener_go.Prelude.{ℕ, ℤ, ◌≡◌, refl, sym, ap, ◌⊎◌, inl, inr, true, List, [], ◌∷◌, ◌++◌, map}
use listener_go.Supervisor.{ChainRunner, cancelled, awaited, launched, Supervisor, stop_all}
use listener_go.Supervisor.Run.{
  Tick, Supervising, new_supervisor, reconcile_at, supervise, started, run_supervisor,
}
use listener_go.Supervisor.Run.Actions.{Occurs, Occurs-left, Occurs-right, Occurs-append, Runs}
use listener_go.Supervisor.Run.Settles.{Accounted, reconcile-Accounted, count_reconcile-Accounted}

-- In one of the reconciles the `done` channel of the runner was closed.
abbrev pub SeenDone : ℕ → List Tick → Type 0
SeenDone n [] = ⊥
SeenDone n (t ∷ ticks) = (t.surroundings.is_done n ≡ true) ⊎ SeenDone n ticks

supervise-Accounted :
    (D : ℕ → Type 0) (ticks : List Tick) (r : Supervising)
    → ((n : ℕ) → SeenDone n ticks → D n)
    → Accounted D r.supervisor
    → Accounted D (supervise ticks r).supervisor
unfolding supervise
supervise-Accounted D [] r within v = v
supervise-Accounted D (t ∷ ticks) r within v =
    supervise-Accounted D ticks _ (λ n h. within n (inr h))
      (count_reconcile-Accounted D (reconcile_at t r.supervisor) r (
        reconcile-Accounted D t.surroundings t.order t.infos r.supervisor (λ n h. within n (inl h))
          v))

Runs-cancelled :
    (n : ℕ) (m : List (ℤ × ChainRunner))
    → Runs n m
    → Occurs (cancelled n) (map (λ e. cancelled e.1.id) m)
Runs-cancelled n [] h = elim h [ ]
Runs-cancelled n ((c, r) ∷ m) (inl e) = inl (ap cancelled (sym e))
Runs-cancelled n ((c, r) ∷ m) (inr h) = inr (Runs-cancelled n m h)

only_stops :
    (n : ℕ) (c : ℤ) (m : List (ℤ × ChainRunner))
    → (Occurs (launched n c) (map (λ e. cancelled e.1.id) m) → ⊥)
      × (Occurs (launched n c) (map (λ e. awaited e.1.id) m) → ⊥)
only_stops n c [] = (λ h. h, λ h. h)
only_stops n c ((d, r) ∷ m) = (
  λ h. elim h [ inl e ↦ absurd (cc e) | inr h' ↦ (only_stops n c m).0 h' ],
  λ h. elim h [ inl e ↦ absurd (cc e) | inr h' ↦ (only_stops n c m).1 h' ],
)

stop_all-account :
    (D : ℕ → Type 0) (s : Supervisor) (n : ℕ) (c : ℤ)
    → Accounted D s
    → Occurs (launched n c) (stop_all s).actions
    → Occurs (cancelled n) (stop_all s).actions ⊎ D n
unfolding stop_all
stop_all-account D s n c v h =
    let cancels = map (λ (e : ℤ × ChainRunner). cancelled e.1.id) s.running in
    let waits = map (λ (e : ℤ × ChainRunner). awaited e.1.id) s.running in
    elim (Occurs-append (launched n c) (s.actions ++ cancels) waits h) [
      | inr later ↦ absurd ((only_stops n c s.running).1 later)
      | inl h' ↦ elim (Occurs-append (launched n c) s.actions cancels h') [
        | inr later ↦ absurd ((only_stops n c s.running).0 later)
        | inl before ↦ elim (v.account n c before) [
          | inl runs ↦ inl (
              Occurs-left (cancelled n) (s.actions ++ cancels) waits
                (Occurs-right (cancelled n) s.actions cancels (Runs-cancelled n s.running runs)))
          | inr (inl gone) ↦ inl (
              Occurs-left (cancelled n) (s.actions ++ cancels) waits
                (Occurs-left (cancelled n) s.actions cancels gone))
          | inr (inr over) ↦ inr over
        ]
      ]
    ]

running-stop_all : (s : Supervisor) → (stop_all s).running ≡ []
unfolding stop_all
running-stop_all s = refl

new-Accounted : (D : ℕ → Type 0) → Accounted D new_supervisor
new-Accounted D = record { separate = tt; account = λ n c h. absurd h }

-- For every sequence of reconciles, whatever fails in them and whichever loops end: when Run returns,
-- each runner that was started was cancelled, or one of the reconciles found its `done` closed, and
-- no chain is registered any more.
pub run_supervisor-stops :
    (first : Tick) (ticks : List Tick) (n : ℕ) (c : ℤ)
    → Occurs (launched n c) (run_supervisor first ticks).supervisor.actions
    → (Occurs (cancelled n) (run_supervisor first ticks).supervisor.actions
        ⊎ SeenDone n (first ∷ ticks))
      × ((run_supervisor first ticks).supervisor.running ≡ [])
unfolding run_supervisor
run_supervisor-stops first ticks n c h =
    let D : ℕ → Type 0 = λ k. SeenDone k (first ∷ ticks) in
    let v : Accounted D (started first).supervisor =
      reconcile-Accounted D first.surroundings first.order first.infos new_supervisor (λ k e. inl e)
        (new-Accounted D) in
    let s = (supervise ticks (started first)).supervisor in
    (
      stop_all-account D s n c (supervise-Accounted D ticks (started first) (λ k e. inr e) v) h,
      running-stop_all s,
    )
