-- ===== src/Supervisor/Reconcile.antt =====
-- Which runner each chain has after `reconcile`.
use listener_go.Prelude.{
  ℕ, ◌≤◌, ℤ, eq_ℤ, eq_ℤ_iff, Text, eq_text, ◌≡◌, refl, sym, ◌∙◌, ◌⊎◌, inl, inr, Bool, true, false,
  not, ◌&&◌, Option, none, some, Option-cases, List, [], ◌∷◌, if-cases, arith,
}
use mathlib.Core.Path.{subst}
use listener_go.Database.Chains.{ChainInfo}
use listener_go.Supervisor.Maps.{
  Separate, lookup-delete, lookup-put, active_chains-Separate, lookup-keep_active,
}
use listener_go.Supervisor.{
  ChainRunner, Supervisor, StartError, Surroundings, lookup_chain, delete_chain, active_chains,
  still_active, stop_inactive, start_outcome, start_chain, stop_for_reload, settle_existing, settle,
  settle_all, reconcile,
}

-- The runner is alive and has this fingerprint.
abbrev pub is_current : Surroundings → Text → Option ChainRunner → Bool
is_current w h none = false
is_current w h (some r) = not (w.is_done r.id) && eq_text r.token_config_hash h

-- What an active chain with the fingerprint `h` has afterwards, where `old` was its runner and
-- `next` the next handle: a current runner stays; otherwise there is a new runner with the
-- fingerprint, or none if the start fails.
abbrev pub Restarted : Surroundings → ℤ → Text → ℕ → Option ChainRunner → Type 0
Restarted w c h next x =
    ((e : StartError) × (w.start_error c ≡ some e) × (x ≡ none))
    ⊎ ((r : ChainRunner) × (w.start_error c ≡ none)
        × (x ≡ some r)
        × (r.token_config_hash ≡ h)
        × (next ≤ r.id))

abbrev pub Settled : Surroundings → ℤ → Option Text → ℕ → (old new : Option ChainRunner) → Type 0
Settled w c none next old x = x ≡ none
Settled w c (some h) next old x =
    ((is_current w h old ≡ true) × (x ≡ old))
    ⊎ ((is_current w h old ≡ false) × Restarted w c h next x)

start_chain-Restarted :
    (w : Surroundings) (c : ℤ) (h : Text) (s : Supervisor)
    → lookup_chain c s.running ≡ none
    → Restarted w c h s.next_id (lookup_chain c (start_chain w c h s).running)
unfolding start_chain start_outcome
start_chain-Restarted w c h s gone = elim (Option-cases (w.start_error c)) [
  | inl e ↦
      rw (e, start_outcome)
        (inr (
          record { id = s.next_id; token_config_hash = h },
          refl,
          ground (
            arith,
            lookup-put c c (record { id = s.next_id; token_config_hash = h }) s.running,
            eq_ℤ_iff c c,
          ),
          refl,
          omega arith,
        ))
  | inr (x, e) ↦ rw (e, start_outcome) (inl (x, refl, gone))
]

-- The other chains keep their runners, and the handles rise.
abbrev Others : ℤ → Supervisor → Supervisor → Type 0
Others c s s' =
    ((d : ℤ) → eq_ℤ c d ≡ false → lookup_chain d s'.running ≡ lookup_chain d s.running)
    × (s.next_id ≤ s'.next_id)

start_chain-Others :
    (w : Surroundings) (c : ℤ) (h : Text) (s : Supervisor) → Others c s (start_chain w c h s)
unfolding start_chain start_outcome
start_chain-Others w c h s = elim (Option-cases (w.start_error c)) [
  | inl e ↦
      rw (e, start_outcome)
        (
          λ d ne.
              ground (
                arith,
                lookup-put d c (record { id = s.next_id; token_config_hash = h }) s.running,
              ),
          omega arith,
        )
  | inr (x, e) ↦ rw (e, start_outcome) (λ d ne. refl, omega arith)
]

-- What `settle` does to its own chain and to the others.
settle_existing-Settled :
    (w : Surroundings) (c : ℤ) (h : Text) (o : Option ChainRunner) (s : Supervisor)
    → lookup_chain c s.running ≡ o
    → Settled w c (some h) s.next_id o (lookup_chain c (settle_existing w c h o s).running)
      × Others c s (settle_existing w c h o s)
unfolding settle_existing stop_for_reload
settle_existing-Settled w c h none s e =
    (inr (refl, start_chain-Restarted w c h s e), start_chain-Others w c h s)
settle_existing-Settled w c h (some r) s e =
    let t : Supervisor = record s { running = delete_chain c s.running } in
    let gone : lookup_chain c t.running ≡ none =
      ground (arith, lookup-delete c c s.running, eq_ℤ_iff c c) in
    let others : Others c s t =
      (λ d ne. ground (arith, lookup-delete d c s.running), omega arith) in
    let P = λ (x : Supervisor).
      Settled w c (some h) s.next_id (some r) (lookup_chain c x.running) × Others c s x in
    if-cases P (w.is_done r.id)
      (λ dead.
        let (o, n) = start_chain-Others w c h t in
        (
          inr (ground arith, start_chain-Restarted w c h t gone),
          (λ d ne. o d ne ∙ others.0 d ne, n),
        ))
      (λ alive.
        if-cases P (eq_text r.token_config_hash h)
          (λ same. (inl (ground arith, e), (λ d ne. refl, omega arith)))
          (λ changed.
            let u = stop_for_reload c r s in
            let (o, n) = start_chain-Others w c h u in
            (
              inr (ground arith, start_chain-Restarted w c h u gone),
              (λ d ne. o d ne ∙ others.0 d ne, n),
            )))

Settled-mono :
    (w : Surroundings) (c : ℤ) (a : Option Text) (m n : ℕ) (old new : Option ChainRunner)
    → m ≤ n
    → Settled w c a n old new
    → Settled w c a m old new
Settled-mono w c none m n old new le h = h
Settled-mono w c (some h) m n old new le (inl x) = inl x
Settled-mono w c (some h) m n old new le (inr (x, inl y)) = inr (x, inl y)
Settled-mono w c (some h) m n old new le (inr (x, inr (r, a, b, d, e))) =
    inr (x, inr (r, a, b, d, omega arith))

-- What the loop over the active chains does: an active chain is settled, another keeps its runner.
abbrev After : Surroundings → ℤ → Option Text → Supervisor → Supervisor → Type 0
After w c none s s' = lookup_chain c s'.running ≡ lookup_chain c s.running
After w c (some h) s s' =
    Settled w c (some h) s.next_id (lookup_chain c s.running) (lookup_chain c s'.running)

After-later :
    (w : Surroundings) (c : ℤ) (a : Option Text) (s t u : Supervisor)
    → lookup_chain c t.running ≡ lookup_chain c s.running
    → s.next_id ≤ t.next_id
    → After w c a t u
    → After w c a s u
After-later w c none s t u e le h = h ∙ e
After-later w c (some h) s t u e le x =
    Settled-mono w c (some h) s.next_id t.next_id (lookup_chain c s.running)
      (lookup_chain c u.running) le (rw (← e) x)

settle_all-After :
    (w : Surroundings) (active : List (ℤ × Text)) (s : Supervisor)
    → Separate active
    → (c : ℤ) → After w c (lookup_chain c active) s (settle_all w active s)
unfolding settle_all settle lookup_chain
settle_all-After w [] s h c = refl
settle_all-After w ((d, f) ∷ active) s h c =
    let t = settle w d f s in
    let (own, others) = settle_existing-Settled w d f (lookup_chain d s.running) s refl in
    let rest = settle_all-After w active t h.1 c in
    let u = settle_all w active t in
    let kept : lookup_chain d u.running ≡ lookup_chain d t.running =
      subst (λ (a : Option Text). After w d a t u) h.0 (settle_all-After w active t h.1 d) in
    let at_d : After w d (some f) s u =
      subst
        (λ (x : Option ChainRunner). Settled w d (some f) s.next_id (lookup_chain d s.running) x)
        (sym kept) own in
    if-cases (λ (a : Option Text). After w c a s (settle_all w active t)) (eq_ℤ d c)
      (λ same. subst (λ (x : ℤ). After w x (some f) s u) ((eq_ℤ_iff d c).0 same) at_d)
      (λ other.
        After-later w c (lookup_chain c active) s t (settle_all w active t) (others.0 c other)
          others.1 rest)

-- An order in which Go visits a map: each entry once, and no other.
pub record IsOrder (order : List (ℤ × Text) → List (ℤ × Text)) : Type 0 where
  pub once : (m : List (ℤ × Text)) → Separate m → Separate (order m)
  pub same :
      (m : List (ℤ × Text)) (c : ℤ) → Separate m → lookup_chain c (order m) ≡ lookup_chain c m

-- A reconcile whose list of active chains could be read, for every chain and every order in which
-- the map is visited: a chain that is not active has no runner afterwards; an active chain keeps
-- its runner if that is alive and has the chain's fingerprint; otherwise it has a new runner with
-- the fingerprint, or, exactly if its start fails, none.
pub reconcile-Settled :
    (w : Surroundings) (order : List (ℤ × Text) → List (ℤ × Text))
    → IsOrder order
    → (infos : List ChainInfo) (s : Supervisor) (c : ℤ)
    → Settled w c
        (lookup_chain c (active_chains infos []))
        s.next_id
        (lookup_chain c s.running)
        (lookup_chain c (reconcile w order (some infos) s).1.running)
unfolding reconcile stop_inactive still_active
reconcile-Settled w order v infos s c =
    let active = active_chains infos [] in
    let separate = active_chains-Separate infos [] tt in
    let t = stop_inactive active s in
    let u = settle_all w (order active) t in
    let after : After w c (lookup_chain c active) t u =
      subst (λ (a : Option Text). After w c a t u) (v.same active c separate)
        (settle_all-After w (order active) t (v.once active separate) c) in
    settled (lookup_chain c active) refl u after
  where
    settled :
        (a : Option Text)
        → lookup_chain c (active_chains infos []) ≡ a
        → (u : Supervisor) → After w c a (stop_inactive (active_chains infos []) s) u
        → Settled w c a s.next_id (lookup_chain c s.running) (lookup_chain c u.running)
    settled none e u h =
        h ∙ lookup-keep_active c (active_chains infos []) s.running ∙ ground (arith, e)
    settled (some f) e u h =
        subst
          (λ (o : Option ChainRunner). Settled w c (some f) s.next_id o (lookup_chain c u.running))
          (lookup-keep_active c (active_chains infos []) s.running ∙ ground (arith, e)) h
