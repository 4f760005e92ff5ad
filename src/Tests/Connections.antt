-- ===== src/Tests/Connections.antt =====
-- The loop of `Run` at concrete inputs.
use Prim.Native.Nat.{max}
use listener_go.Prelude.{◌≤ℤ◌, pos, ◌≢◌, true, false, List, [], ◌∷◌, arith}
use listener_go.Model.{Deposit}
use listener_go.Samples.{codec, wire, drain_config, top_up_ok, connected}
use listener_go.Publisher.Protocol.{Envelope}
use listener_go.Publisher.AckMode.Drain.{read_failed}
use listener_go.Publisher.Connections.{Settings, Attempt, dial_failed, dialed, run_publisher}
use listener_go.Publisher.Connections.Acked.{Connection, drain_connection}
use listener_go.Publisher.Connections.Delays.{run_publisher-Bounded}
use listener_go.Tests.{events}

-- A dial that fails, a connection that breaks, and one on which the ACK comes.
abbrev turns : List (Attempt (Connection (Envelope Deposit)))
turns =
    dial_failed true (λ d. d)
    ∷ dialed (record { first = top_up_ok; events = read_failed ∷ []; wraps_ctx = false })
    ∷ dialed (record { first = top_up_ok; events = events; wraps_ctx = false })
    ∷ []

run_publisher-Bounded_example :
    (run_publisher (pos 1000) (drain_connection codec wire drain_config) turns connected).1.delay_ms
    ≤ℤ pos (max 1000 72000)
run_publisher-Bounded_example =
    run_publisher-Bounded (pos 1000) (drain_connection codec wire drain_config) turns connected
      ((λ d. omega arith), (tt, (tt, tt)))

abbrev settings : Settings
settings = record {
  write_timeout = pos 0;
  read_timeout = pos 5;
  ping_interval = pos 0;
  ack_timeout = pos 0;
  max_in_flight = pos 7;
}

not_one : pos 5 ≢ pos 1
not_one = λ e. cc
