-- ===== src/Publisher/Connections/Acked.antt =====
-- `Run` in the acknowledged mode, over all its connections.
use listener_go.Prelude.{ℤ, Text, ◌≡◌, ◌⊎◌, inl, inr, Bool, true, false, List, [], ◌∷◌}
use listener_go.Database.Tables.{Key, has_key}
use listener_go.Database.Buffer.{Codec}
use listener_go.Publisher.Protocol.{Wire, ack_id}
use listener_go.Publisher.AckMode.{Config, canceled, TopUp, State}
use listener_go.Publisher.AckMode.Drain.{Event, Outcome, running, ended, state_of, drain}
use listener_go.Publisher.AckMode.Drain.Safety.{AckedIn}
use listener_go.Publisher.AckMode.Drain.Acked.{drain-Acked}
use listener_go.Publisher.Connections.{
  Attempt, ctx_over, dial_failed, dialed, Running, after_drain, attempt, unless_over, attempts,
  run_publisher,
}

-- What happens on one connection; `wraps_ctx` says whether an error of a statement or of the
-- connection wraps the end of the context.
pub record Connection (Frame : Type 0) : Type 0 where
  pub first : TopUp
  pub events : List (Event Frame)
  pub wraps_ctx : Bool

-- The error ends `Run`. A connection that is still open is the last one, too.
unfoldable pub ends_run : {Raw Frame : Type 0} → Bool → Outcome Raw Frame → Bool
ends_run wraps_ctx (running s) = true
ends_run wraps_ctx (ended canceled s) = true
ends_run wraps_ctx (ended e s) = wraps_ctx

module _ {Raw Frame : Type 0} (codec : Codec Raw) (wire : Wire Raw Frame) (cfg : Config) where
  unfoldable pub drain_connection : Connection Frame → State Raw Frame → Bool × State Raw Frame
  drain_connection c s =
      let x = drain codec wire cfg c.first c.events s in (ends_run c.wraps_ctx x, state_of x)

  -- An ACK with this id was received on one of the connections.
  abbrev AckedOnAny : Text → List (Attempt (Connection Frame)) → Type 0
  AckedOnAny id [] = ⊥
  AckedOnAny id (dialed c ∷ turns) = AckedIn codec wire cfg id c.events ⊎ AckedOnAny id turns
  AckedOnAny id (a ∷ turns) = AckedOnAny id turns

  abbrev Keeps : Key → List (Attempt (Connection Frame)) → Bool × Running (State Raw Frame) → Type 0
  Keeps k turns x = (has_key k x.1.store.db.rows ≡ true) ⊎ AckedOnAny (ack_id k) turns

  module _ (reconnect_interval_ms : ℤ) where
    later-Keeps :
        (k : Key) (a : Attempt (Connection Frame)) (turns : List (Attempt (Connection Frame)))
        (over : Bool) (r : Running (State Raw Frame))
        → has_key k r.store.db.rows ≡ true
        → Keeps k turns (attempts reconnect_interval_ms drain_connection turns r)
        → Keeps k turns (
            unless_over reconnect_interval_ms drain_connection
              (attempts reconnect_interval_ms drain_connection turns)
              (over, r))
    unfolding unless_over
    later-Keeps k a turns true r h rest = inl h
    later-Keeps k a turns false r h rest = rest

    attempts-Keeps :
        (turns : List (Attempt (Connection Frame))) (r : Running (State Raw Frame)) (k : Key)
        → has_key k r.store.db.rows ≡ true
        → Keeps k turns (attempts reconnect_interval_ms drain_connection turns r)
    unfolding attempts attempt after_drain drain_connection
    attempts-Keeps [] r k h = inl h
    attempts-Keeps (ctx_over ∷ turns) r k h =
        later-Keeps k ctx_over turns true r h (attempts-Keeps turns r k h)
    attempts-Keeps (dial_failed true jitter ∷ turns) r k h =
        later-Keeps k ctx_over turns false _ h (attempts-Keeps turns _ k h)
    attempts-Keeps (dial_failed false jitter ∷ turns) r k h = unfold unless_over in inl h
    attempts-Keeps (dialed c ∷ turns) r k h =
        elim (drain-Acked codec wire cfg c.first c.events r.store k h) [
          | inl kept ↦
              elim (later-Keeps k ctx_over turns
                (ends_run c.wraps_ctx (drain codec wire cfg c.first c.events r.store)) _ kept
                (attempts-Keeps turns _ k kept)) [
                  | inl still ↦ inl still
                  | inr acked ↦ inr (inr acked)
                ]
          | inr acked ↦ inr (inl acked)
        ]

    -- `Run` in the acknowledged mode, for every sequence of dials, connections and failures: a
    -- deposit that was in the buffer is still there at the end, unless an ACK message with its own
    -- id was received on one of the connections.
    run_publisher-AckedOnAny :
        (turns : List (Attempt (Connection Frame))) (s : State Raw Frame) (k : Key)
        → has_key k s.db.rows ≡ true
        → (has_key k (run_publisher reconnect_interval_ms drain_connection turns s).1.store.db.rows
            ≡ true)
          ⊎ AckedOnAny (ack_id k) turns
    unfolding run_publisher
    run_publisher-AckedOnAny turns s k h = attempts-Keeps turns _ k h
