-- ===== src/Publisher/AckMode/Drain.antt =====
-- The select loop of `drainWithACK`, the read loop beside it, and `gracefulACK`. An `Event` is one
-- case that the select takes, or one message that the read loop receives.
pub mod Safety
pub mod Acked
pub mod Cursors
use listener_go.Prelude.{
  ℕ, Text, Bool, ltb, ◌==◌, Option, none, some, List, [], ◌∷◌, ◌++◌, length, Result, ok, err,
  if◌then◌else◌,
}
use listener_go.Database.Buffer.{Codec}
use listener_go.Publisher.Protocol.{Wire, ack_of_frame}
use listener_go.Publisher.Outstanding.{oldest_age}
use listener_go.Publisher.AckMode.{
  Config, DrainError, read_ended, ping_failed, ack_timed_out, canceled, TopUp, State, top_up,
  handle_ack,
}

-- While `gracefulACK` runs: a turn of its loop, which takes an ACK whose DELETE may fail or waits 100 ms
-- without one, or a message of the read loop.
pub data Round (Frame : Type 0) : Type 0 where
  take_ack : Bool → Round Frame
  pause : Round Frame
  receives : Bool → Frame → Round Frame

-- `done` carries what happens in the shutdown loop before its deadline; `take_ack` and the flag of
-- `ack_ready` say whether the DELETE fails; `message` says whether it is a text message.
pub data Event (Frame : Type 0) : Type 0 where
  done : List (Round Frame) → Event Frame
  read_failed : Event Frame
  wake : TopUp → Event Frame
  ack_ready : Bool → TopUp → Event Frame
  ping : Bool → Event Frame
  poll : TopUp → Event Frame
  timeout : ℕ → Event Frame
  message : Bool → Frame → Event Frame

pub data Outcome (Raw Frame : Type 0) : Type 0 where
  running : State Raw Frame → Outcome Raw Frame
  ended : DrainError → State Raw Frame → Outcome Raw Frame

module _ {Raw Frame : Type 0} where
  abbrev pub state_of : Outcome Raw Frame → State Raw Frame
  state_of (running s) = s
  state_of (ended x s) = s

  pub go_on : Result DrainError (Unit {0}) × State Raw Frame → Outcome Raw Frame
  go_on (ok _, s) = running s
  go_on (err x, s) = ended x s

module _ {Raw Frame : Type 0} (codec : Codec Raw) (wire : Wire Raw Frame) (cfg : Config) where
  -- A full channel drops the id.
  receive_id : Option Text → State Raw Frame → State Raw Frame
  receive_id none s = s
  receive_id (some id) s =
      if ltb (length s.channel) cfg.max_in_flight
      then record s { channel = s.channel ++ id ∷ [] }
      else s

  unfoldable pub receive : Bool → Frame → State Raw Frame → State Raw Frame
  unfolding receive_id
  receive is_text raw s = if is_text then receive_id (ack_of_frame wire raw) s else s

  -- `id := <-ackCh`; an error of `handleAck` is only logged. The case is not ready on an empty
  -- channel.
  take_id : Bool → List Text → State Raw Frame → State Raw Frame
  take_id fails [] s = s
  take_id fails (id ∷ rest) s = (handle_ack codec wire cfg fails id (record s { channel = rest })).1

  unfoldable pub graceful : List (Round Frame) → State Raw Frame → State Raw Frame
  unfolding take_id
  graceful [] s = s
  graceful (take_ack fails ∷ rounds) s =
      if length s.out == 0 then s else graceful rounds (take_id fails s.channel s)
  graceful (pause ∷ rounds) s = if length s.out == 0 then s else graceful rounds s
  graceful (receives is_text raw ∷ rounds) s = graceful rounds (receive is_text raw s)

  ack_ready_step : Bool → TopUp → List Text → State Raw Frame → Outcome Raw Frame
  unfolding take_id go_on
  ack_ready_step fails e [] s = running s
  ack_ready_step fails e (id ∷ rest) s =
      go_on (top_up codec wire cfg e (take_id fails (id ∷ rest) s))

  unfoldable pub step : Event Frame → State Raw Frame → Outcome Raw Frame
  unfolding ack_ready_step go_on
  step (done rounds) s = ended canceled (graceful rounds s)
  step read_failed s = ended read_ended s
  step (wake e) s = go_on (top_up codec wire cfg e s)
  step (ack_ready fails e) s = ack_ready_step fails e s.channel s
  step (ping fails) s = if fails then ended ping_failed s else running s
  step (poll e) s = go_on (top_up codec wire cfg e s)
  step (timeout now) s =
      if ltb cfg.ack_timeout (oldest_age now s.out) then ended ack_timed_out s else running s
  step (message is_text raw) s = running (receive is_text raw s)

  -- The loop ends at the first event that returns.
  continue_with : (State Raw Frame → Outcome Raw Frame) → Outcome Raw Frame → Outcome Raw Frame
  continue_with next (running s) = next s
  continue_with next (ended x s) = ended x s

  unfoldable pub run : List (Event Frame) → State Raw Frame → Outcome Raw Frame
  unfolding continue_with
  run [] s = running s
  run (e ∷ es) s = continue_with (run es) (step e s)

  -- `drainWithACK`: an empty in-flight table, a first top-up, and the loop.
  unfoldable pub drain : TopUp → List (Event Frame) → State Raw Frame → Outcome Raw Frame
  unfolding go_on continue_with
  drain first es s =
      continue_with (run es)
        (go_on (top_up codec wire cfg first (record s { out = []; channel = [] })))
