-- ===== src/Publisher/Connections.antt =====
-- internal/publisher/publisher.go: `New` with its defaults, and `Run`, the loop that dials, drains a
-- connection and dials again after a growing wait.
pub mod Acked
pub mod Delays
pub mod Defaults
use listener_go.Prelude.{
  ℕ, suc, ◌*◌, ◌/◌, ◌%◌, ℤ, pos, leb_ℤ, ltb_ℤ, to_int64, to_uint64, u64, Bool, true, false, List,
  [], ◌∷◌, if◌then◌else◌,
}

-- The fields that `New` corrects; durations in nanoseconds.
pub record Settings : Type 0 where
  pub write_timeout : ℤ
  pub read_timeout : ℤ
  pub ping_interval : ℤ
  pub ack_timeout : ℤ
  pub max_in_flight : ℤ

abbrev pub or_default : ℤ → ℤ → ℤ
or_default standard v = if leb_ℤ v (pos 0) then standard else v

abbrev pub half : ℤ → ℤ
half (pos n) = pos (n / 2)
half v = v

unfoldable pub with_defaults : Settings → Settings
with_defaults cfg =
    let read_timeout = or_default (pos 60000000000) cfg.read_timeout in
    record {
      write_timeout = or_default (pos 10000000000) cfg.write_timeout;
      read_timeout = read_timeout;
      ping_interval = or_default (half read_timeout) cfg.ping_interval;
      ack_timeout = or_default (pos 30000000000) cfg.ack_timeout;
      max_in_flight = or_default (pos 100) cfg.max_in_flight;
    }

abbrev pub max_reconnect_delay_ms : ℤ
max_reconnect_delay_ms = pos 60000

-- The doubled int wraps around; `jitter` is the product with the random factor, cut to an int.
unfoldable pub next_backoff : (ℤ → ℤ) → ℤ → ℤ
next_backoff jitter current_ms =
    let doubled = to_int64 ((to_uint64 current_ms * 2) % u64) in
    if ltb_ℤ max_reconnect_delay_ms doubled then jitter max_reconnect_delay_ms else jitter doubled

-- One turn of the loop of `Run`. `C` is what happens on a connection.
pub data Attempt (C : Type 0) : Type 0 where
  ctx_over : Attempt C
  dial_failed : (slept : Bool) → (jitter : ℤ → ℤ) → Attempt C
  dialed : C → Attempt C

pub record Running (S : Type 0) : Type 0 where
  pub store : S
  pub consecutive_failures : ℕ
  pub delay_ms : ℤ

-- `drain` is one of the two drains of a connection; its Boolean says that the error is the end of
-- the context. The result says whether `Run` has returned.
module _ {C S : Type 0} (reconnect_interval_ms : ℤ) (drain : C → S → Bool × S) where
  unfoldable pub after_drain : Bool × S → Bool × Running S
  after_drain (over, s) =
      (over, record { store = s; consecutive_failures = 0; delay_ms = reconnect_interval_ms })

  unfoldable pub attempt : Attempt C → Running S → Bool × Running S
  attempt ctx_over r = (true, r)
  attempt (dial_failed slept jitter) r =
      let r = record r { consecutive_failures = suc r.consecutive_failures } in
      if slept then (false, record r { delay_ms = next_backoff jitter r.delay_ms }) else (true, r)
  attempt (dialed c) r = after_drain (drain c r.store)

  unfoldable pub unless_over : (Running S → Bool × Running S) → Bool × Running S → Bool × Running S
  unless_over next (true, r) = (true, r)
  unless_over next (false, r) = next r

  unfoldable pub attempts : List (Attempt C) → Running S → Bool × Running S
  attempts [] r = (false, r)
  attempts (a ∷ turns) r = unless_over (attempts turns) (attempt a r)

  unfoldable pub run_publisher : List (Attempt C) → S → Bool × Running S
  run_publisher turns s =
      attempts turns
        (record { store = s; consecutive_failures = 0; delay_ms = reconnect_interval_ms })
