-- ===== src/Supervisor/Chain/Ends.antt =====
-- The goroutines of a chain come to their end: the steps are bounded, and one is possible until `done`.
use listener_go.Prelude.{
  ℕ, suc, ◌+◌, ◌≤◌, ◌<◌, Bool, true, false, ◌≡◌, ◌≢◌, refl, ◌⊎◌, inl, inr, Bool-cases, arith,
}
use listener_go.Supervisor.Chain.{
  Ending, returned, panicked, Pc, running, counting, closing, recovering, cancelling, releasing,
  finished, Side, log_side, trace_side, Chain, pc_of, put_pc, start_goroutines, count_down,
  close_once, recover_panic, wait_group_done, leave, Leaves, Move, ends, leaves, closes_done, asks,
  Reach, here, next,
}
use listener_go.Supervisor.Chain.Orderly.{IsOrderly, reach-IsOrderly}

-- The steps that a goroutine has left.
abbrev steps_left : Pc → ℕ
steps_left running = 6
steps_left (counting e) = 5
steps_left (closing e) = 4
steps_left (recovering e) = 3
steps_left cancelling = 2
steps_left releasing = 1
steps_left finished = 0

abbrev open_count : Bool → ℕ
open_count true = 0
open_count false = 1

abbrev work_left : Chain → ℕ
work_left c = steps_left c.log_pc + steps_left c.trace_pc + open_count c.done

-- The steps of a run that are not cancellations from outside.
abbrev pub own_steps : {c d : Chain} → Reach c d → ℕ
own_steps here = 0
own_steps (next r (ends i e c h m)) = suc (own_steps r)
own_steps (next r (leaves i c l)) = suc (own_steps r)
own_steps (next r (closes_done c w d)) = suc (own_steps r)
own_steps (next r (asks c)) = own_steps r

-- A step that needs neither a panic nor the supervisor.
abbrev pub Works : {c d : Chain} → Move c d → Type 0
Works (ends i returned c h m) = Unit
Works (ends i panicked c h m) = ⊥
Works (leaves i c l) = Unit
Works (closes_done c w d) = Unit
Works (asks c) = ⊥

leave-lt :
    (i : Side) (pc : Pc) (c : Chain)
    → pc_of i c ≡ pc
    → Leaves pc
    → work_left (leave i pc c) < work_left c
unfolding leave count_down close_once recover_panic wait_group_done
leave-lt log_side running c h l = absurd l
leave-lt log_side (counting e) c h l = ground arith
leave-lt log_side (closing e) c h l = ground arith
leave-lt log_side (recovering returned) c h l = ground arith
leave-lt log_side (recovering panicked) c h l = ground arith
leave-lt log_side cancelling c h l = ground arith
leave-lt log_side releasing c h l = ground arith
leave-lt log_side finished c h l = absurd l
leave-lt trace_side running c h l = absurd l
leave-lt trace_side (counting e) c h l = ground arith
leave-lt trace_side (closing e) c h l = ground arith
leave-lt trace_side (recovering returned) c h l = ground arith
leave-lt trace_side (recovering panicked) c h l = ground arith
leave-lt trace_side cancelling c h l = ground arith
leave-lt trace_side releasing c h l = ground arith
leave-lt trace_side finished c h l = absurd l

ends-lt :
    (i : Side) (e : Ending) (c : Chain)
    → pc_of i c ≡ running
    → work_left (put_pc i (counting e) c) < work_left c
ends-lt log_side e c h = ground arith
ends-lt trace_side e c h = ground arith

own_steps-le : {c : Chain} (r : Reach start_goroutines c) → own_steps r + work_left c ≤ 13
unfolding start_goroutines
own_steps-le here = omega arith
own_steps-le (next r (ends i e c h m)) = omega (arith, ends-lt i e c h, own_steps-le r)
own_steps-le (next r (leaves i c l)) =
    omega (arith, leave-lt i (pc_of i c) c refl l, own_steps-le r)
own_steps-le (next r (closes_done c w d)) = let ih = own_steps-le r in ground arith
own_steps-le (next r (asks c)) = own_steps-le r

-- What a goroutine can do next.
data Further (i : Side) (c : Chain) : Type 0 where
  leaving : Leaves (pc_of i c) → Further i c
  in_run : pc_of i c ≡ running → Further i c
  at_end : pc_of i c ≡ finished → Further i c

next_of : (i : Side) (c : Chain) (pc : Pc) → pc_of i c ≡ pc → Further i c
next_of i c running h = in_run h
next_of i c (counting e) h = leaving (rw h tt)
next_of i c (closing e) h = leaving (rw h tt)
next_of i c (recovering e) h = leaving (rw h tt)
next_of i c cancelling h = leaving (rw h tt)
next_of i c releasing h = leaving (rw h tt)
next_of i c finished h = at_end h

abbrev Progress : Chain → Type 0
Progress c = (c.done ≡ true) ⊎ ((d : Chain) × (m : Move c d) × Works m)

finished-Progress :
    (c : Chain) → IsOrderly c → c.log_pc ≡ finished → c.trace_pc ≡ finished → Progress c
finished-Progress c v h h' = elim (Bool-cases c.done) [
  | inl closed ↦ inl closed
  | inr open_yet ↦ inr (_, closes_done c (ground arith) open_yet, tt)
]

-- Once the context is cancelled, a goroutine that is not at its end can go on.
after_cancel-Progress :
    (i : Side) (c : Chain)
    → c.cancelled ≡ true
    → Further i c
    → (pc_of i c ≡ finished → Progress c)
    → Progress c
after_cancel-Progress i c stopped (leaving l) other = inr (_, leaves i c l, tt)
after_cancel-Progress i c stopped (in_run h) other = inr (_, ends i returned c h stopped, tt)
after_cancel-Progress i c stopped (at_end h) other = other h

log_ran-Progress :
    (c : Chain)
    → IsOrderly c
    → c.log_pc ≡ running
    → c.trace_pc ≢ running
    → Further trace_side c
    → Progress c
log_ran-Progress c v h ne (leaving l) = inr (_, leaves trace_side c l, tt)
log_ran-Progress c v h ne (in_run h') = absurd (ne h')
log_ran-Progress c v h ne (at_end h') =
    let stopped : c.cancelled ≡ true = ground arith in
    inr (_, ends log_side returned c h stopped, tt)

one_ended-Progress :
    (c : Chain)
    → IsOrderly c
    → (c.log_pc ≢ running) ⊎ (c.trace_pc ≢ running)
    → Further log_side c
    → Progress c
one_ended-Progress c v one (leaving l) = inr (_, leaves log_side c l, tt)
one_ended-Progress c v (inl ne) (in_run h) = absurd (ne h)
one_ended-Progress c v (inr ne) (in_run h) =
    log_ran-Progress c v h ne (next_of trace_side c c.trace_pc refl)
one_ended-Progress c v one (at_end h) =
    let stopped : c.cancelled ≡ true = ground arith in
    after_cancel-Progress trace_side c stopped (next_of trace_side c c.trace_pc refl)
      (λ h'. finished-Progress c v h h')

is_running : (pc : Pc) → (pc ≡ running) ⊎ (pc ≢ running)
is_running running = inl refl
is_running (counting e) = inr (λ h. cc)
is_running (closing e) = inr (λ h. cc)
is_running (recovering e) = inr (λ h. cc)
is_running cancelling = inr (λ h. cc)
is_running releasing = inr (λ h. cc)
is_running finished = inr (λ h. cc)

-- In every run of the goroutines of a chain they take at most 13 steps; and where the run has come to,
-- both loops are in Run, or `done` is closed, or a step is possible that is neither a panic nor a
-- cancellation from outside: a loop that ends, by its return or a panic, takes the other one along.
pub reach-ends :
    (c : Chain) (r : Reach start_goroutines c)
    → (own_steps r ≤ 13)
      × (((c.log_pc ≡ running) × (c.trace_pc ≡ running))
          ⊎ ((c.done ≡ true) ⊎ ((d : Chain) × (m : Move c d) × Works m)))
reach-ends c r =
    let ended : (c.log_pc ≢ running) ⊎ (c.trace_pc ≢ running) → Progress c =
      λ one. one_ended-Progress c (reach-IsOrderly r) one (next_of log_side c c.log_pc refl) in
    (
      omega (arith, own_steps-le r),
      elim (is_running c.log_pc) [
        | inr left ↦ inr (ended (inl left))
        | inl log_runs ↦ elim (is_running c.trace_pc) [
          | inr left ↦ inr (ended (inr left))
          | inl trace_runs ↦ inl (log_runs, trace_runs)
        ]
      ],
    )
