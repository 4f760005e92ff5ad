-- ===== src/Startup/Exit.antt =====
-- The exit code of the program.
use mathlib.Core.Path.{subst}
use listener_go.Prelude.{
  ℕ, ◌≤◌, true, ◌≡◌, ◌↔◌, ◌⊎◌, inl, inr, refl, ap, false, Option, none, some, List, [], ◌∷◌, ◌++◌,
  All, Bool-cases, sym, Result, ok, err, arith,
}
use listener_go.Retry.{GoError}
use listener_go.Startup.{
  ComponentEnd, returned, panicked, run_returned, run_panicked, has_panic, Startup, Wiring,
  RunError, config_error, bad_key, failed, start_up, first_error, is_canceled, after_wait,
  after_start_up, run, exit_code,
}

-- Not the end of the context, at any depth.
abbrev pub IsFatal : RunError → Type 0
IsFatal (failed e) = is_canceled e ≡ false
IsFatal e = Unit

-- The component ended without an error.
abbrev pub IsSilent : ComponentEnd → Type 0
IsSilent x = x ≡ returned none

abbrev pub Panics : List ComponentEnd → Type 0
Panics ends = (before after : List ComponentEnd) × (ends ≡ before ++ (panicked ∷ after))

-- No component panics, and the first one that returns an error returns a fatal one.
abbrev pub FirstIsFatal : List ComponentEnd → Type 0
FirstIsFatal ends =
    ((before : List ComponentEnd) × (e : GoError) × (after : List ComponentEnd) × (ends
        ≡ before ++ (returned (some e) ∷ after))
      × All IsSilent before
      × (is_canceled e ≡ false))
    × (¬ Panics ends)

abbrev Returns : Option GoError → List ComponentEnd → Type 0
Returns none ends = All IsSilent ends
Returns (some e) ends =
    (before : List ComponentEnd) × (after : List ComponentEnd) × (ends
      ≡ before ++ (returned (some e) ∷ after))
    × All IsSilent before

cons_Returns :
    (o : Option GoError) (ends : List ComponentEnd)
    → Returns o ends
    → Returns o (returned none ∷ ends)
cons_Returns none ends h = (refl, h)
cons_Returns (some e) ends (before, after, same, all) = (
  returned none ∷ before,
  after,
  ap (λ (l : List ComponentEnd). returned none ∷ l) same,
  (refl, all),
)

has_panic-Panics : (ends : List ComponentEnd) → has_panic ends ≡ true → Panics ends
unfolding has_panic
has_panic-Panics [] h = absurd (cc h)
has_panic-Panics (returned o ∷ ends) h =
    let (before, after, same) = has_panic-Panics ends h in
    (returned o ∷ before, after, ap (λ (l : List ComponentEnd). returned o ∷ l) same)
has_panic-Panics (panicked ∷ ends) h = ([], ends, refl)

panic-found : (before after : List ComponentEnd) → has_panic (before ++ (panicked ∷ after)) ≡ true
unfolding has_panic
panic-found [] after = refl
panic-found (returned o ∷ before) after = panic-found before after
panic-found (panicked ∷ before) after = refl

pub has_panic-calm : (ends : List ComponentEnd) → has_panic ends ≡ false → ¬ Panics ends
has_panic-calm ends none_found (before, after, same) =
    let found : has_panic ends ≡ true = rw same (panic-found before after) in absurd cc

first_error-Returns :
    (ends : List ComponentEnd) → has_panic ends ≡ false → Returns (first_error ends) ends
unfolding first_error has_panic
first_error-Returns [] calm = tt
first_error-Returns (returned none ∷ ends) calm =
    cons_Returns (first_error ends) ends (first_error-Returns ends calm)
first_error-Returns (returned (some e) ∷ ends) calm = ([], ends, refl, tt)
first_error-Returns (panicked ∷ ends) calm = absurd (cc calm)

-- A prefix of components without an error does not matter.
first_error-prefix :
    (before after : List ComponentEnd) (e : GoError)
    → All IsSilent before
    → first_error (before ++ (returned (some e) ∷ after)) ≡ some e
unfolding first_error
first_error-prefix [] after e h = refl
first_error-prefix (x ∷ before) after e (h, hs) =
    rw (h, first_error) (first_error-prefix before after e hs)

after_wait-code :
    (o : Option GoError) (ends : List ComponentEnd)
    → Returns o ends
    → ¬ Panics ends
    → exit_code (run_returned (after_wait o)) ≡ 1
    → FirstIsFatal ends
unfolding exit_code after_wait
after_wait-code none ends h calm code = absurd (omega arith)
after_wait-code (some e) ends (before, after, same, all) calm code =
    elim (Bool-cases (is_canceled e)) [
      | inl polite ↦ let code' = rw polite at code in absurd (omega arith)
      | inr fatal ↦ ((before, e, after, same, all, fatal), calm)
    ]

after_wait-le : (o : Option GoError) → exit_code (run_returned (after_wait o)) ≤ 1
unfolding exit_code after_wait
after_wait-le none = omega arith
after_wait-le (some e) = elim (Bool-cases (is_canceled e)) [
  | inl polite ↦ rw polite (omega arith)
  | inr fatal ↦ rw fatal (rw fatal (omega arith))
]

FirstIsFatal-code :
    (ends : List ComponentEnd)
    → FirstIsFatal ends
    → exit_code (run_returned (after_wait (first_error ends))) ≡ 1
unfolding exit_code after_wait
FirstIsFatal-code ends ((before, e, after, same, all, fatal), calm) =
    rw (same, first_error-prefix before after e all) (rw fatal (rw fatal refl))

start_error-code : (e : RunError) → (exit_code (run_returned (some e)) ≡ 1) ↔ IsFatal e
unfolding exit_code
start_error-code (config_error e) = (λ h. tt, λ h. refl)
start_error-code (bad_key e) = (λ h. tt, λ h. refl)
start_error-code (failed e) = ground arith

start_error-le : (e : RunError) → exit_code (run_returned (some e)) ≤ 1
unfolding exit_code
start_error-le (config_error e) = omega arith
start_error-le (bad_key e) = omega arith
start_error-le (failed e) = ground arith

abbrev Fails : Result RunError Wiring → List ComponentEnd → Type 0
Fails r ends =
    ((e : RunError) × (r ≡ err e) × IsFatal e) ⊎ ((w : Wiring) × (r ≡ ok w) × FirstIsFatal ends)

abbrev Dies : Result RunError Wiring → List ComponentEnd → Type 0
Dies r ends = (w : Wiring) × (r ≡ ok w) × Panics ends

abbrev Codes : ℕ → Result RunError Wiring → List ComponentEnd → Type 0
Codes code r ends = ((code ≡ 1) ↔ Fails r ends) × ((code ≡ 2) ↔ Dies r ends) × (code ≤ 2)

exit_code-run_panicked : exit_code run_panicked ≡ 2
unfolding exit_code
exit_code-run_panicked = refl

panicked-Codes :
    (w : Wiring) (ends : List ComponentEnd)
    → Panics ends
    → Codes (exit_code run_panicked) (ok w) ends
panicked-Codes w ends there =
    let two = exit_code-run_panicked in
    (
      (
        λ h. absurd (omega (arith, two)),
        λ fails. elim fails [
          | inl (e, same, fatal) ↦ absurd (cc same)
          | inr (w', same, (first, calm)) ↦ absurd (calm there)
        ],
      ),
      (λ h. (w, refl, there), λ h. two),
      omega (arith, two),
    )

returned-Codes :
    (w : Wiring) (ends : List ComponentEnd)
    → has_panic ends ≡ false
    → Codes (exit_code (run_returned (after_wait (first_error ends)))) (ok w) ends
returned-Codes w ends lives =
    let calm = has_panic-calm ends lives in
    let returns = first_error-Returns ends lives in
    let le = after_wait-le (first_error ends) in
    (
      (
        λ h. inr (w, refl, after_wait-code (first_error ends) ends returns calm h),
        λ fails. elim fails [
          | inl (e, same, fatal) ↦ absurd (cc same)
          | inr (w', same, first) ↦ FirstIsFatal-code ends first
        ],
      ),
      (λ h. absurd (omega (arith, le)), λ (w', same, there). absurd (calm there)),
      omega (arith, le),
    )

after_start_up-code :
    (r : Result RunError Wiring) (ends : List ComponentEnd)
    → Codes (exit_code (after_start_up ends r)) r ends
unfolding after_start_up
after_start_up-code (err e) ends =
    let le = start_error-le e in
    (
      (
        λ h. inl (e, refl, (start_error-code e).0 h),
        λ fails. elim fails [
          | inl (e', same, fatal) ↦
              let same' : e ≡ e' = cc same in
              (start_error-code e).1 (subst IsFatal (sym same') fatal)
          | inr (w, same, first) ↦ absurd (cc same)
        ],
      ),
      (λ h. absurd (omega (arith, le)), λ (w, same, there). absurd (cc same)),
      omega (arith, le),
    )
after_start_up-code (ok w) ends = elim (Bool-cases (has_panic ends)) [
  | inl dies ↦ rw dies (panicked-Codes w ends (has_panic-Panics ends dies))
  | inr lives ↦ rw lives (returned-Codes w ends lives)
]

-- The program exits with 1 exactly if its start fails with an error other than the end of the context,
-- wrapped at whatever depth, or else no component panics and the first one that returns an error does
-- so with such an error; with 2 exactly if the start succeeds and a component panics; and in every
-- other case with 0.
pub exit_code-run :
    (s : Startup) (ends : List ComponentEnd)
    → ((exit_code (run s ends) ≡ 1) ↔ (
        ((e : RunError) × (start_up s ≡ err e) × IsFatal e)
        ⊎ ((w : Wiring) × (start_up s ≡ ok w) × FirstIsFatal ends)))
      × ((exit_code (run s ends) ≡ 2) ↔ ((w : Wiring) × (start_up s ≡ ok w) × Panics ends))
      × (exit_code (run s ends) ≤ 2)
unfolding run
exit_code-run s ends = after_start_up-code (start_up s) ends
