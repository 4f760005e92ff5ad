-- ===== src/Supervisor/Run/OneChain.antt =====
-- The runners of one chain through the steps of a reconcile.
use listener_go.Prelude.{
  ℕ, ℤ, eq_ℤ, eq_ℤ_iff, Text, eq_text, ◌≡◌, refl, sym, ap, ◌∙◌, ◌⊎◌, inl, inr, true, false, Option,
  none, some, List, [], ◌∷◌, ◌++◌, if-cases, arith,
}
use mathlib.Core.List.{append-nil}
use mathlib.Core.Path.{subst}
use listener_go.Supervisor.{
  ChainRunner, Action, cancelled, awaited, launched, Supervisor, StartError, Surroundings,
  lookup_chain, delete_chain, start_outcome, start_chain, stop_for_reload, settle_existing,
}
use listener_go.Supervisor.Maps.{lookup-delete, lookup-put}
use listener_go.Supervisor.Run.Actions.{Occurs, Occurs-left, Occurs-right, Occurs-append}

-- The runner that the map has for the chain.
abbrev pub Registered : ℤ → ℕ → Supervisor → Type 0
Registered c n s = (r : ChainRunner) × (lookup_chain c s.running ≡ some r) × (r.id ≡ n)

module _ (D : ℕ → Type 0) (c : ℤ) where
  -- Each runner of the chain is the registered one, or was waited for or seen to have ended.
  abbrev pub Alone : Supervisor → Type 0
  Alone s =
      (n : ℕ)
      → Occurs (launched n c) s.actions
      → Registered c n s ⊎ (Occurs (awaited n) s.actions ⊎ D n)

  -- No runner of the chain is at work.
  abbrev pub Free : Supervisor → Type 0
  Free s = (n : ℕ) → Occurs (launched n c) s.actions → Occurs (awaited n) s.actions ⊎ D n

  Free-Alone : (s : Supervisor) → Free s → Alone s
  Free-Alone s v n h = inr (v n h)

  unregistered-Free : (s : Supervisor) → lookup_chain c s.running ≡ none → Alone s → Free s
  unregistered-Free s free v n h = elim (v n h) [
    | inl (r, found, same) ↦ absurd (cc)
    | inr over ↦ over
  ]

  launched_here : (n m : ℕ) (d e : ℤ) → launched n d ≡ launched m e → (n ≡ m) × (d ≡ e)
  launched_here n m d e h = (cc, cc)

  start_own-Alone :
      (o : Option StartError) (fingerprint : Text) (s : Supervisor)
      → Free s
      → Alone (start_outcome o c fingerprint s)
  unfolding start_outcome
  start_own-Alone (some e) fingerprint s v = Free-Alone s v
  start_own-Alone none fingerprint s v = λ n h.
      let new : ChainRunner = record { id = s.next_id; token_config_hash = fingerprint } in
      elim (Occurs-append (launched n c) s.actions _ h) [
        | inl before ↦ elim (v n before) [
          | inl waited ↦ inr (inl (Occurs-left (awaited n) s.actions _ waited))
          | inr over ↦ inr (inr over)
        ]
        | inr (inl here) ↦ inl (
          new,
          ground (arith, lookup-put c c new s.running, eq_ℤ_iff c c),
          sym (launched_here n s.next_id c c here).0,
        )
        | inr (inr none_left) ↦ absurd none_left
      ]

  start_other-Alone :
      (o : Option StartError) (d : ℤ) (fingerprint : Text) (s : Supervisor)
      → eq_ℤ d c ≡ false
      → Alone s
      → Alone (start_outcome o d fingerprint s)
  unfolding start_outcome
  start_other-Alone (some e) d fingerprint s other v = v
  start_other-Alone none d fingerprint s other v = λ n h.
      let new : ChainRunner = record { id = s.next_id; token_config_hash = fingerprint } in
      elim (Occurs-append (launched n c) s.actions _ h) [
        | inl before ↦ elim (v n before) [
          | inl (r, found, same) ↦ inl (r, ground (arith, lookup-put c d new s.running), same)
          | inr (inl waited) ↦ inr (inl (Occurs-left (awaited n) s.actions _ waited))
          | inr (inr over) ↦ inr (inr over)
        ]
        | inr (inl here) ↦
            let e = (launched_here n s.next_id c d here).1 in
            absurd (ground (arith, eq_ℤ_iff d c, sym e))
        | inr (inr none_left) ↦ absurd none_left
      ]

  -- The runner of another chain leaves the map.
  other_leaves-Alone :
      (d : ℤ) (s : Supervisor) (more : List Action)
      → eq_ℤ d c ≡ false
      → ((n : ℕ) → Occurs (launched n c) more → ⊥)
      → Alone s
      → Alone (record s { running = delete_chain d s.running; actions = s.actions ++ more })
  other_leaves-Alone d s more other silent v = λ n h.
      elim (Occurs-append (launched n c) s.actions more h) [
        | inr later ↦ absurd (silent n later)
        | inl before ↦ elim (v n before) [
          | inl (r, found, same) ↦ inl (r, ground (arith, lookup-delete c d s.running), same)
          | inr (inl waited) ↦ inr (inl (Occurs-left (awaited n) s.actions more waited))
          | inr (inr over) ↦ inr (inr over)
        ]
      ]

  -- The runner of the chain leaves the map, seen to have ended or awaited.
  own_leaves-Free :
      (r : ChainRunner) (s : Supervisor) (more : List Action)
      → lookup_chain c s.running ≡ some r
      → Occurs (awaited r.id) more ⊎ D r.id
      → ((n : ℕ) → Occurs (launched n c) more → ⊥)
      → Alone s
      → Free (record s { running = delete_chain c s.running; actions = s.actions ++ more })
  own_leaves-Free r s more registered ended silent v = λ n h.
      elim (Occurs-append (launched n c) s.actions more h) [
        | inr later ↦ absurd (silent n later)
        | inl before ↦ elim (v n before) [
          | inr (inl waited) ↦ inl (Occurs-left (awaited n) s.actions more waited)
          | inr (inr over) ↦ inr over
          | inl (q, found, same) ↦
              let this : r ≡ q = cc in
              let id : r.id ≡ n = ap (λ (x : ChainRunner). x.id) this ∙ same in
              elim ended [
                | inl waited ↦ inl (
                    Occurs-right (awaited n) s.actions more
                      (subst (λ k. Occurs (awaited k) more) (id) waited))
                | inr over ↦ inr (subst D (id) over)
              ]
        ]
      ]

  append_none :
      (s : Supervisor) (m : List (ℤ × ChainRunner))
      → (P : Supervisor → Type 0) → P (record s { running = m; actions = s.actions ++ [] })
      → P (record s { running = m })
  append_none s m P h = rw append-nil at h

  no_launch_here : (k : ℕ) (n : ℕ) → Occurs (launched n c) (cancelled k ∷ awaited k ∷ []) → ⊥
  no_launch_here k n (inl e) = cc e
  no_launch_here k n (inr (inl e)) = cc e
  no_launch_here k n (inr (inr h)) = h

  pub settle_own-Alone :
      (w : Surroundings) (fingerprint : Text) (o : Option ChainRunner) (s : Supervisor)
      → ((n : ℕ) → w.is_done n ≡ true → D n)
      → lookup_chain c s.running ≡ o
      → Alone s
      → Alone (settle_existing w c fingerprint o s)
  unfolding settle_existing start_chain stop_for_reload
  settle_own-Alone w fingerprint none s dead found v =
      start_own-Alone (w.start_error c) fingerprint s (unregistered-Free s found v)
  settle_own-Alone w fingerprint (some r) s dead found v =
      if-cases Alone (w.is_done r.id)
        (λ over.
          start_own-Alone (w.start_error c) fingerprint
            (record s { running = delete_chain c s.running })
            (append_none s (delete_chain c s.running) Free
              (own_leaves-Free r s [] found (inr (dead r.id over)) (λ n h. h) v)))
        (λ alive.
          if-cases Alone (eq_text r.token_config_hash fingerprint) (λ same. v)
            (λ reload. start_own-Alone (w.start_error c) fingerprint (stop_for_reload c r s) (
              own_leaves-Free r s (cancelled r.id ∷ awaited r.id ∷ []) found (inl (inr (inl refl)))
                (no_launch_here r.id) v)))

  pub settle_other-Alone :
      (w : Surroundings) (d : ℤ) (fingerprint : Text) (o : Option ChainRunner) (s : Supervisor)
      → eq_ℤ d c ≡ false
      → Alone s
      → Alone (settle_existing w d fingerprint o s)
  unfolding settle_existing start_chain stop_for_reload
  settle_other-Alone w d fingerprint none s other v =
      start_other-Alone (w.start_error d) d fingerprint s other v
  settle_other-Alone w d fingerprint (some r) s other v =
      if-cases Alone (w.is_done r.id)
        (λ over.
          start_other-Alone (w.start_error d) d fingerprint
            (record s { running = delete_chain d s.running }) other
            (append_none s (delete_chain d s.running) Alone
              (other_leaves-Alone d s [] other (λ n h. h) v)))
        (λ alive.
          if-cases Alone (eq_text r.token_config_hash fingerprint) (λ same. v)
            (λ reload.
              start_other-Alone (w.start_error d) d fingerprint (stop_for_reload d r s) other (
                other_leaves-Alone d s (cancelled r.id ∷ awaited r.id ∷ []) other
                  (no_launch_here r.id) v)))
