-- ===== src/Publisher/AckMode/Drain/Acked.antt =====
-- A whole connection in the acknowledged mode.
use listener_go.Prelude.{◌≤◌, Text, ◌≡◌, ◌⊎◌, inl, inr, true, List, [], ◌∷◌, length, arith}
use listener_go.Database.Tables.{Key, has_key}
use listener_go.Database.Buffer.{Codec}
use listener_go.Publisher.Protocol.{Wire, ack_id}
use listener_go.Publisher.AckMode.{Config, TopUp, State, top_up}
use listener_go.Publisher.AckMode.Drain.Safety.{
  Sound, Safe, After, AckedIn, Safe-After, step-Safe, top_up_step-Safe,
}
use listener_go.Publisher.AckMode.Drain.{
  Event, read_failed, Outcome, running, ended, state_of, go_on, step, continue_with, run, drain,
}

module _ {Raw Frame : Type 0} (codec : Codec Raw) (wire : Wire Raw Frame) (cfg : Config) where
  -- From `s`, the events `es` and the ids of `Q` in the channel lead to `s'`: the frames in flight
  -- are within the limit, and a row of `s` is there, or an ACK with its id was waiting or received.
  abbrev pub Drains :
      (Text → Type 0) → List (Event Frame) → State Raw Frame → State Raw Frame → Type 0
  Drains Q es s s' =
      (length s'.out ≤ cfg.max_in_flight)
      × ((k : Key)
          → has_key k s.db.rows ≡ true
          → (has_key k s'.db.rows ≡ true) ⊎ Q (ack_id k) ⊎ AckedIn codec wire cfg (ack_id k) es)

  Drains-cons :
      (Q : Text → Type 0) (e : Event Frame) (es : List (Event Frame)) (s t u : State Raw Frame)
      → Safe codec wire cfg (After codec wire cfg Q e) s t
      → Drains (After codec wire cfg Q e) es t u
      → Drains Q (e ∷ es) s u
  Drains-cons Q e es s t u (v, lost) (b, rest) = (
    b,
    λ k h. elim (lost k h) [
      | inl h' ↦ elim (rest k h') [
        | inl kept ↦ inl kept
        | inr (inl (inl q)) ↦ inr (inl q)
        | inr (inl (inr d)) ↦ inr (inr (inl d))
        | inr (inr a) ↦ inr (inr (inr a))
      ]
      | inr (inl q) ↦ inr (inl q)
      | inr (inr d) ↦ inr (inr (inl d))
    ],
  )

  Drains-stop :
      (Q : Text → Type 0) (es : List (Event Frame)) (s t : State Raw Frame)
      → Safe codec wire cfg Q s t
      → Drains Q es s t
  Drains-stop Q es s t (v, lost) =
      (v.bounded, λ k h. elim (lost k h) [ inl kept ↦ inl kept | inr q ↦ inr (inl q) ])

  continue_with-Drains :
      (Q : Text → Type 0) (e : Event Frame) (es : List (Event Frame)) (s : State Raw Frame)
      (x : Outcome Raw Frame) (next : State Raw Frame → Outcome Raw Frame)
      → Safe codec wire cfg (After codec wire cfg Q e) s (state_of x)
      → ((t : State Raw Frame)
          → Sound codec wire cfg (After codec wire cfg Q e) t
          → Drains (After codec wire cfg Q e) es t (state_of (next t)))
      → Drains Q (e ∷ es) s (state_of (continue_with codec wire cfg next x))
  unfolding continue_with
  continue_with-Drains Q e es s (running t) next safe rest =
      Drains-cons Q e es s t (state_of (next t)) safe (rest t safe.0)
  continue_with-Drains Q e es s (ended x t) next safe rest =
      Drains-cons Q e es s t t safe
        (Drains-stop (After codec wire cfg Q e) es t t (safe.0, λ k h. inl h))

  run-Drains :
      (Q : Text → Type 0) (es : List (Event Frame)) (s : State Raw Frame)
      → Sound codec wire cfg Q s
      → Drains Q es s (state_of (run codec wire cfg es s))
  unfolding run
  run-Drains Q [] s v = Drains-stop Q [] s s (v, λ k h. inl h)
  run-Drains Q (e ∷ es) s v =
      continue_with-Drains Q e es s (step codec wire cfg e s) (run codec wire cfg es)
        (step-Safe codec wire cfg Q e s v) (λ t v'. run-Drains (After codec wire cfg Q e) es t v')

  drain-Drains :
      (first : TopUp) (es : List (Event Frame)) (s : State Raw Frame)
      → let t = state_of (drain codec wire cfg first es s) in
        (length t.out ≤ cfg.max_in_flight)
        × ((k : Key)
            → has_key k s.db.rows ≡ true
            → (has_key k t.db.rows ≡ true) ⊎ AckedIn codec wire cfg (ack_id k) es)
  unfolding drain
  drain-Drains first es s =
      let empty : State Raw Frame = record s { out = []; channel = [] } in
      let nobody : Text → Type 0 = λ id. ⊥ in
      let sound : Sound codec wire cfg nobody empty = record {
        named = tt;
        bounded = omega arith;
        waiting = tt;
      } in
      let (b, rest) =
        continue_with-Drains nobody read_failed es empty (go_on (top_up codec wire cfg first empty))
          (run codec wire cfg es)
          (Safe-After codec wire cfg nobody read_failed empty _
            (top_up_step-Safe codec wire cfg nobody first empty sound))
          (λ t v. run-Drains (After codec wire cfg nobody read_failed) es t v) in
      (
        b,
        λ k h. elim (rest k h) [
          | inl kept ↦ inl kept
          | inr (inl q) ↦ absurd q
          | inr (inr (inl d)) ↦ absurd d
          | inr (inr (inr a)) ↦ inr a
        ],
      )

  -- One connection in the acknowledged mode, for every sequence of events and failures, shutdown
  -- included: a deposit that was in the buffer is still there at the end, unless an ACK message with
  -- its own id was received on this connection.
  pub drain-Acked :
      (first : TopUp) (es : List (Event Frame)) (s : State Raw Frame) (k : Key)
      → has_key k s.db.rows ≡ true
      → (has_key k (state_of (drain codec wire cfg first es s)).db.rows ≡ true)
        ⊎ AckedIn codec wire cfg (ack_id k) es
  drain-Acked first es s k h = (drain-Drains first es s).1 k h

  -- Flow control: whatever happens on the connection, at most `max_in_flight` deposits wait for
  -- their ACK at its end.
  drain-le-max_in_flight :
      (first : TopUp) (es : List (Event Frame)) (s : State Raw Frame)
      → length (state_of (drain codec wire cfg first es s)).out ≤ cfg.max_in_flight
  drain-le-max_in_flight first es s = (drain-Drains first es s).0
