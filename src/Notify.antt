-- ===== src/Notify.antt =====
-- internal/notify/listener.go: the signals to the publisher and the waits between connections.
pub mod Waits
use listener_go.Prelude.{
  ℕ, suc, ◌+◌, ◌-◌, ◌*◌, ltb, Option, none, some, List, [], ◌∷◌, ◌++◌, if◌then◌else◌,
}

-- In milliseconds.
abbrev pub initial_backoff : ℕ
initial_backoff = 1000

abbrev pub max_backoff : ℕ
max_backoff = 30000

-- What happens to Run: a notification, the publisher takes the signal out of `wake`, the connection
-- ends with an error and the wait after it is over, or the context ends.
pub data NotifyEvent : Type 0 where
  notified taken connection_lost cancelled : NotifyEvent

-- The variable `backoff`, the number of signals in the channel, and the waits so far.
pub record Listening : Type 0 where
  pub backoff : ℕ
  pub pending : ℕ
  pub waits : List ℕ

unfoldable pub next_wait : ℕ → ℕ
next_wait backoff =
    if ltb backoff max_backoff
    then if ltb max_backoff (backoff * 2) then max_backoff else backoff * 2
    else backoff

-- A send that does not block on a channel of capacity 1.
unfoldable pub signal : ℕ → ℕ
signal pending = if ltb pending 1 then suc pending else pending

unfoldable pub notify_step : NotifyEvent → Listening → Option Listening
notify_step notified s = some (record s { pending = signal s.pending })
notify_step taken s = some (record s { pending = s.pending - 1 })
notify_step connection_lost s = some (record {
  backoff = next_wait s.backoff;
  pending = s.pending;
  waits = s.waits ++ s.backoff ∷ [];
})
notify_step cancelled s = none

-- Run ends at the end of the context.
unfoldable pub run_listener : List NotifyEvent → Listening → Listening
run_listener [] s = s
run_listener (e ∷ es) s = elim (notify_step e s) [ none ↦ s | some t ↦ run_listener es t ]

abbrev pub start_listening : Listening
start_listening = record { backoff = initial_backoff; pending = 0; waits = [] }
