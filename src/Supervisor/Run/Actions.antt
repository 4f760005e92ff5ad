-- ===== src/Supervisor/Run/Actions.antt =====
-- The runners of the map and the actions of the supervisor, through each change of the map.
use mathlib.Core.Path.{subst}
use listener_go.Prelude.{
  ℕ, ℤ, eq_ℤ, eq_ℤ_iff, Text, ◌≡◌, sym, ap, ◌∙◌, ◌⊎◌, inl, inr, none, some, List, [], ◌∷◌, ◌++◌,
  if-cases, Bool-cases, arith,
}
use listener_go.Supervisor.{
  ChainRunner, Action, cancelled, lookup_chain, delete_chain, still_active, keep_active,
  cancel_inactive,
}
use listener_go.Supervisor.Maps.{Separate, lookup-keep_active}

abbrev pub Occurs : Action → List Action → Type 0
Occurs a [] = ⊥
Occurs a (b ∷ bs) = (a ≡ b) ⊎ Occurs a bs

pub Occurs-left : (a : Action) (xs ys : List Action) → Occurs a xs → Occurs a (xs ++ ys)
Occurs-left a [] ys h = elim h [ ]
Occurs-left a (x ∷ xs) ys (inl e) = inl e
Occurs-left a (x ∷ xs) ys (inr h) = inr (Occurs-left a xs ys h)

pub Occurs-right : (a : Action) (xs ys : List Action) → Occurs a ys → Occurs a (xs ++ ys)
Occurs-right a [] ys h = h
Occurs-right a (x ∷ xs) ys h = inr (Occurs-right a xs ys h)

pub Occurs-append :
    (a : Action) (xs ys : List Action) → Occurs a (xs ++ ys) → Occurs a xs ⊎ Occurs a ys
Occurs-append a [] ys h = inr h
Occurs-append a (x ∷ xs) ys (inl e) = inl (inl e)
Occurs-append a (x ∷ xs) ys (inr h) = elim (Occurs-append a xs ys h) [
  | inl l ↦ inl (inr l)
  | inr r ↦ inr r
]

-- The handle is in the map.
abbrev pub Runs : ℕ → List (ℤ × ChainRunner) → Type 0
Runs n [] = ⊥
Runs n ((c, r) ∷ m) = (r.id ≡ n) ⊎ Runs n m

pub Runs-delete_none :
    (n : ℕ) (c : ℤ) (m : List (ℤ × ChainRunner))
    → lookup_chain c m ≡ none
    → Runs n m
    → Runs n (delete_chain c m)
unfolding lookup_chain delete_chain
Runs-delete_none n c [] h runs = elim runs [ ]
Runs-delete_none n c ((d, r) ∷ m) h runs = elim (Bool-cases (eq_ℤ d c)) [
  | inl same ↦ absurd (cc (rw same at h))
  | inr other ↦ rw other (elim runs [
    | inl here ↦ inl here
    | inr later ↦ inr (Runs-delete_none n c m (rw other at h) later)
  ])
]

pub Runs-delete :
    (n : ℕ) (c : ℤ) (r : ChainRunner) (m : List (ℤ × ChainRunner))
    → Separate m
    → lookup_chain c m ≡ some r
    → Runs n m
    → Runs n (delete_chain c m) ⊎ (r.id ≡ n)
unfolding lookup_chain delete_chain
Runs-delete n c r [] _ h runs = elim runs [ ]
Runs-delete n c r ((d, q) ∷ m) (first, rest) h runs = elim (Bool-cases (eq_ℤ d c)) [
  | inl same ↦
      let here : q ≡ r = cc (rw same at h) in
      let e : d ≡ c = (eq_ℤ_iff d c).0 same in
      elim runs [
        | inl top ↦ inr (ap (λ (x : ChainRunner). x.id) (sym here) ∙ top)
        | inr later ↦
            inl (
              rw same (Runs-delete_none n c m (subst (λ x. lookup_chain x m ≡ none) e first) later))
      ]
  | inr other ↦ elim runs [
    | inl top ↦ inl (rw other (inl top))
    | inr later ↦ elim (Runs-delete n c r m rest (rw other at h) later) [
      | inl kept ↦ inl (rw other (inr kept))
      | inr gone ↦ inr gone
    ]
  ]
]

pub Runs-keep_active :
    (n : ℕ) (active : List (ℤ × Text)) (m : List (ℤ × ChainRunner))
    → Runs n m
    → Runs n (keep_active active m) ⊎ Occurs (cancelled n) (cancel_inactive active m)
unfolding keep_active cancel_inactive
Runs-keep_active n active [] runs = elim runs [ ]
Runs-keep_active n active ((c, r) ∷ m) runs =
    elim (Bool-cases (still_active (lookup_chain c active))) [
      | inl stays ↦ rw stays (elim runs [
        | inl here ↦ inl (inl here)
        | inr later ↦ elim (Runs-keep_active n active m later) [
          | inl kept ↦ inl (inr kept)
          | inr gone ↦ inr gone
        ]
      ])
      | inr goes ↦ rw goes (elim runs [
        | inl here ↦ inr (inl (ap cancelled (sym here)))
        | inr later ↦ elim (Runs-keep_active n active m later) [
          | inl kept ↦ inl kept
          | inr gone ↦ inr (inr gone)
        ]
      ])
    ]

pub keep_active-Separate :
    (active : List (ℤ × Text)) (m : List (ℤ × ChainRunner))
    → Separate m
    → Separate (keep_active active m)
unfolding keep_active
keep_active-Separate active [] h = tt
keep_active-Separate active ((c, r) ∷ m) h =
    if-cases Separate (still_active (lookup_chain c active))
      (λ stays. (ground (arith, lookup-keep_active c active m), keep_active-Separate active m h.1))
      (λ goes. keep_active-Separate active m h.1)
