-- ===== src/Supervisor/Chain.antt =====
-- internal/supervisor/supervisor.go: the goroutines that startChain begins for one chain, and runLoop;
-- cmd/listener/main.go: the counter in newLoopBuilder by which the last loop closes the RPC client.
-- The two loops, the goroutine that waits for both, and the supervisor take their steps in any order.
pub mod Orderly
pub mod Ends
use listener_go.Prelude.{ℕ, zero, suc, ◌+◌, ◌-◌, ◌%◌, Bool, true, false, ◌==◌, ◌≡◌, if◌then◌else◌}

-- How the Run of a loop ends: with the error of the context, or by a panic.
pub data Ending : Type 0 where
  returned panicked : Ending

-- Where the goroutine of a loop stands: in Run; before `active.Add(-1)`; before `closeOnce()`; before
-- the deferred `recover()`; before `cancel()`; before `wg.Done()`; after it.
pub data Pc : Type 0 where
  running : Pc
  counting closing recovering : Ending → Pc
  cancelling releasing finished : Pc

pub data Side : Type 0 where
  log_side trace_side : Side

-- `active` is the int32 of newLoopBuilder as a bit pattern, `once` whether closeOnce was called, `closes`
-- counts the calls of rpcClient.Close, `wg` is the counter of the WaitGroup, and `negative` says that
-- it fell below 0, at which Go panics. `panics` is the metric.
pub record Chain : Type 0 where
  pub cancelled : Bool
  pub active : ℕ
  pub once : Bool
  pub closes : ℕ
  pub wg : ℕ
  pub negative : Bool
  pub panics : ℕ
  pub done : Bool
  pub log_pc : Pc
  pub trace_pc : Pc

abbrev pub pc_of : Side → Chain → Pc
pc_of log_side c = c.log_pc
pc_of trace_side c = c.trace_pc

abbrev pub put_pc : Side → Pc → Chain → Chain
put_pc log_side pc c = record c { log_pc = pc }
put_pc trace_side pc c = record c { trace_pc = pc }

unfoldable pub start_goroutines : Chain
start_goroutines = record {
  cancelled = false;
  active = 2;
  once = false;
  closes = 0;
  wg = 2;
  negative = false;
  panics = 0;
  done = false;
  log_pc = running;
  trace_pc = running;
}

-- `active.Add(-1)` on an int32
abbrev pub add_minus_one : ℕ → ℕ
add_minus_one n = (n + 4294967295) % 4294967296

unfoldable pub count_down : Side → Ending → Chain → Chain
count_down i e c =
    let left = add_minus_one c.active in
    if left == 0
    then put_pc i (closing e) (record c { active = left })
    else put_pc i (recovering e) (record c { active = left })

-- sync.OnceFunc: only the first call runs the function.
unfoldable pub close_once : Chain → Chain
close_once c = if c.once then c else record c { once = true; closes = suc c.closes }

unfoldable pub recover_panic : Ending → Chain → Chain
recover_panic returned c = c
recover_panic panicked c = record c { panics = suc c.panics }

wait_group_done : ℕ → Chain → Chain
wait_group_done zero c = record c { negative = true }
wait_group_done (suc n) c = record c { wg = n }

-- The next step of the goroutine of a loop, after Run.
unfoldable pub leave : Side → Pc → Chain → Chain
unfolding count_down close_once recover_panic wait_group_done
leave i running c = c
leave i (counting e) c = count_down i e c
leave i (closing e) c = put_pc i (recovering e) (close_once c)
leave i (recovering e) c = put_pc i cancelling (recover_panic e c)
leave i cancelling c = put_pc i releasing (record c { cancelled = true })
leave i releasing c = put_pc i finished (wait_group_done c.wg c)
leave i finished c = c

-- Run returns at the end of the context only, and may panic at any time.
abbrev pub MayEnd : Ending → Chain → Type 0
MayEnd returned c = c.cancelled ≡ true
MayEnd panicked c = Unit

abbrev pub Leaves : Pc → Type 0
Leaves running = ⊥
Leaves finished = ⊥
Leaves pc = Unit

-- `ends`: a loop leaves Run. `leaves`: one step of its deferred calls. `closes_done`: the goroutine that
-- waits for both. `asks`: the supervisor, or the end of the parent context, cancels the chain.
pub data Move : Chain → Chain → Type 0 where
  ends :
      (i : Side) (e : Ending) (c : Chain)
      → pc_of i c ≡ running
      → MayEnd e c
      → Move c (put_pc i (counting e) c)
  leaves : (i : Side) (c : Chain) → Leaves (pc_of i c) → Move c (leave i (pc_of i c) c)
  closes_done : (c : Chain) → c.wg ≡ 0 → c.done ≡ false → Move c (record c { done = true })
  asks : (c : Chain) → Move c (record c { cancelled = true })

pub data Reach (c : Chain) : Chain → Type 0 where
  here : Reach c c
  next : {d e : Chain} → Reach c d → Move d e → Reach c e
