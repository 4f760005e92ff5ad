-- ===== src/Supervisor/Chain/Orderly.antt =====
-- The RPC client of a chain is closed once, after both loops, and `done` after everything else.
use native.Mathlib.Decide.{dec_lt}
use listener_go.Prelude.{
  ℕ, zero, suc, ◌+◌, ◌≤◌, Bool, true, false, ◌≡◌, ◌≢◌, refl, Bool-cases, ◌<◌, ◌⊎◌, inl, inr, arith,
}
use listener_go.Supervisor.Chain.{
  Ending, returned, panicked, Pc, running, counting, closing, recovering, cancelling, releasing,
  finished, Side, log_side, trace_side, Chain, pc_of, put_pc, start_goroutines, count_down,
  close_once, recover_panic, wait_group_done, leave, Leaves, Move, ends, leaves, closes_done, asks,
  Reach, here, next,
}

-- 1 for a loop that still counts in `active`, that is about to close, and that has not left the group.
abbrev counted : Pc → ℕ
counted running = 1
counted (counting e) = 1
counted pc = 0

abbrev about_to_close : Pc → ℕ
about_to_close (closing e) = 1
about_to_close pc = 0

abbrev pub awaited : Pc → ℕ
awaited finished = 0
awaited pc = 1

-- After its call of `cancel()`.
abbrev HasCancelled : Pc → Bool → Type 0
HasCancelled releasing b = b ≡ true
HasCancelled finished b = b ≡ true
HasCancelled pc b = Unit

abbrev is_zero : ℕ → ℕ
is_zero zero = 1
is_zero (suc n) = 0

abbrev once_count : Bool → ℕ
once_count true = 1
once_count false = 0

abbrev GroupDone : Bool → ℕ → Type 0
GroupDone true n = n ≡ 0
GroupDone false n = Unit

pub record IsOrderly (c : Chain) : Type 0 where
  pub active : c.active ≡ counted c.log_pc + counted c.trace_pc
  pub closing : about_to_close c.log_pc + about_to_close c.trace_pc + c.closes ≡ is_zero c.active
  pub once : c.closes ≡ once_count c.once
  pub group : c.wg ≡ awaited c.log_pc + awaited c.trace_pc
  pub in_range : c.negative ≡ false
  pub log_cancelled : HasCancelled c.log_pc c.cancelled
  pub trace_cancelled : HasCancelled c.trace_pc c.cancelled
  pub group_done : GroupDone c.done c.wg

start-IsOrderly : IsOrderly start_goroutines
unfolding start_goroutines
start-IsOrderly = ground arith

leave-IsOrderly :
    (i : Side) (pc : Pc) (c : Chain)
    → pc_of i c ≡ pc
    → Leaves pc
    → IsOrderly c
    → IsOrderly (leave i pc c)
unfolding leave count_down close_once recover_panic wait_group_done
leave-IsOrderly log_side running c h l v = absurd l
leave-IsOrderly log_side (counting e) c h l v = ground arith
leave-IsOrderly log_side (closing e) c h l v = ground arith
leave-IsOrderly log_side (recovering returned) c h l v = ground arith
leave-IsOrderly log_side (recovering panicked) c h l v = ground arith
leave-IsOrderly log_side cancelling c h l v = ground arith
leave-IsOrderly log_side releasing c h l v = ground arith
leave-IsOrderly log_side finished c h l v = absurd l
leave-IsOrderly trace_side running c h l v = absurd l
leave-IsOrderly trace_side (counting e) c h l v = ground arith
leave-IsOrderly trace_side (closing e) c h l v = ground arith
leave-IsOrderly trace_side (recovering returned) c h l v = ground arith
leave-IsOrderly trace_side (recovering panicked) c h l v = ground arith
leave-IsOrderly trace_side cancelling c h l v = ground arith
leave-IsOrderly trace_side releasing c h l v = ground arith
leave-IsOrderly trace_side finished c h l v = absurd l

ends-IsOrderly :
    (i : Side) (e : Ending) (c : Chain)
    → pc_of i c ≡ running
    → IsOrderly c
    → IsOrderly (put_pc i (counting e) c)
ends-IsOrderly log_side e c h v = ground arith
ends-IsOrderly trace_side e c h v = ground arith

HasCancelled-true : (pc : Pc) (b : Bool) → HasCancelled pc b → HasCancelled pc true
HasCancelled-true running b h = tt
HasCancelled-true (counting e) b h = tt
HasCancelled-true (closing e) b h = tt
HasCancelled-true (recovering e) b h = tt
HasCancelled-true cancelling b h = tt
HasCancelled-true releasing b h = refl
HasCancelled-true finished b h = refl

Move-IsOrderly : {c d : Chain} → Move c d → IsOrderly c → IsOrderly d
Move-IsOrderly (ends i e c h m) v = ends-IsOrderly i e c h v
Move-IsOrderly (leaves i c l) v = leave-IsOrderly i (pc_of i c) c refl l v
Move-IsOrderly (closes_done c w d) v = ground arith
Move-IsOrderly (asks c) v = record {
  active = v.active;
  closing = v.closing;
  once = v.once;
  group = v.group;
  in_range = v.in_range;
  log_cancelled = HasCancelled-true c.log_pc c.cancelled v.log_cancelled;
  trace_cancelled = HasCancelled-true c.trace_pc c.cancelled v.trace_cancelled;
  group_done = v.group_done;
}

pub reach-IsOrderly : {c : Chain} → Reach start_goroutines c → IsOrderly c
reach-IsOrderly here = start-IsOrderly
reach-IsOrderly (next r m) = Move-IsOrderly m (reach-IsOrderly r)

closed-ne-running : (c : Chain) → IsOrderly c → (i : Side) → 0 < c.closes → pc_of i c ≢ running
closed-ne-running c v log_side h = λ e. ground arith
closed-ne-running c v trace_side h = λ e. ground arith

once_count-le : (b : Bool) → once_count b ≤ 1
once_count-le true = omega arith
once_count-le false = omega arith

awaited-finished : (pc : Pc) → awaited pc ≡ 0 → pc ≡ finished
awaited-finished finished h = refl
awaited-finished running h = absurd (omega arith)
awaited-finished (counting e) h = absurd (omega arith)
awaited-finished (closing e) h = absurd (omega arith)
awaited-finished (recovering e) h = absurd (omega arith)
awaited-finished cancelling h = absurd (omega arith)
awaited-finished releasing h = absurd (omega arith)

-- All that has happened when the group is empty.
abbrev AllEnded : Chain → Type 0
AllEnded c = (c.log_pc ≡ finished) × (c.trace_pc ≡ finished) × (c.cancelled ≡ true) × (c.closes ≡ 1)

group-AllEnded : (c : Chain) → IsOrderly c → c.wg ≡ 0 → AllEnded c
group-AllEnded c v h =
    let log_done = awaited-finished c.log_pc (omega (arith, v.group)) in
    let trace_done = awaited-finished c.trace_pc (omega (arith, v.group)) in
    (log_done, trace_done, ground arith, ground arith)

GroupDone-zero : (b : Bool) (n : ℕ) → GroupDone b n → b ≡ true → n ≡ 0
GroupDone-zero true n h e = h
GroupDone-zero false n h e = cc

-- For every order of the steps of the two loops, of their panics, of the goroutine that waits and of
-- the cancellations: the RPC client is closed at most once, and not while a loop is in Run; the
-- WaitGroup never falls below 0; and when `done` is closed, both goroutines have finished, the context
-- is cancelled and the client was closed.
pub reach-closes :
    (c : Chain)
    → Reach start_goroutines c
    → (c.closes ≤ 1)
      × ((c.closes ≡ 0) ⊎ ((c.log_pc ≢ running) × (c.trace_pc ≢ running)))
      × (c.negative ≡ false)
      × ((c.done ≡ false)
          ⊎ ((c.log_pc ≡ finished)
              × (c.trace_pc ≡ finished)
              × (c.cancelled ≡ true)
              × (c.closes ≡ 1)))
reach-closes c r =
    let v = reach-IsOrderly r in
    (
      rw v.once (once_count-le c.once),
      elim (dec_lt 0 c.closes) [
        | yes some_close ↦
            inr (
              closed-ne-running c v log_side some_close,
              closed-ne-running c v trace_side some_close,
            )
        | no none_yet ↦ inl (omega arith)
      ],
      v.in_range,
      elim (Bool-cases c.done) [
        | inl closed ↦ inr (group-AllEnded c v (GroupDone-zero c.done c.wg v.group_done closed))
        | inr open_yet ↦ inl open_yet
      ],
    )
