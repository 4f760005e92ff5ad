-- ===== src/System/Kept.antt =====
-- A deposit of the buffer stays there until its ACK comes, whatever the scanners and the publisher do.
use listener_go.Prelude.{◌≤◌, Text, ◌≡◌, refl, ◌⊎◌, inl, inr, true, [], length, arith}
use listener_go.Database.Tables.{Key, has_key}
use listener_go.Database.Buffer.{Codec}
use listener_go.Database.Buffer.Atomic.{save_and_advance-Keeps}
use listener_go.Publisher.Protocol.{Wire, ack_id}
use listener_go.Publisher.AckMode.{Config, State, top_up}
use listener_go.Publisher.AckMode.Drain.{Outcome, running, ended, state_of, go_on, step}
use listener_go.Publisher.AckMode.Drain.Safety.{Sound, Safe, After, step-Safe, top_up_step-Safe}
use listener_go.System.{
  System, offline, after, after_dial, saves, connects, happens, Reach, here, next, Received,
}

module _ {Raw Frame : Type 0} (codec : Codec Raw) (wire : Wire Raw Frame) (cfg : Config) where
  -- A connection is sound, and a row of `s` is there or its ACK was received.
  abbrev Holds : (Text → Type 0) → State Raw Frame → System Raw Frame → Type 0
  Holds Q s u =
      (u.connected ≡ true → Sound codec wire cfg Q u.state)
      × ((k : Key) → has_key k s.db.rows ≡ true → (has_key k u.state.db.rows ≡ true) ⊎ Q (ack_id k))

  after-Holds :
      (Q : Text → Type 0) (s : State Raw Frame) (o : Outcome Raw Frame)
      → Safe codec wire cfg Q s (state_of o)
      → Holds Q s (after o)
  after-Holds Q s (running t) (sound, loses) = (λ on. sound, loses)
  after-Holds Q s (ended x t) (sound, loses) = (λ on. sound, loses)

  Holds-trans :
      (Q Q' : Text → Type 0) (s t : State Raw Frame) (u : System Raw Frame)
      → ((id : Text) → Q id → Q' id)
      → ((k : Key) → has_key k s.db.rows ≡ true → (has_key k t.db.rows ≡ true) ⊎ Q (ack_id k))
      → Holds Q' t u
      → Holds Q' s u
  Holds-trans Q Q' s t u wider first (sound, then) = (
    sound,
    λ k h. elim (first k h) [ inl kept ↦ then k kept | inr acked ↦ inr (wider (ack_id k) acked) ],
  )

  reach-Holds :
      (s : State Raw Frame) {u : System Raw Frame} (r : Reach codec wire cfg (offline s) u)
      → Holds (λ id. Received codec wire cfg id r) s u
  reach-Holds s here = (λ on. absurd (cc on), λ k h. inl h)
  reach-Holds s (next r (saves now o chain_id name block ds y)) =
      let (sound, kept) = reach-Holds s r in
      (
        λ on.
            let v = sound on in
            record { named = v.named; bounded = v.bounded; waiting = v.waiting },
        λ k h. elim (kept k h) [
          | inl h' ↦ inl (save_and_advance-Keeps codec now o chain_id name block ds y.state.db k h')
          | inr acked ↦ inr acked
        ],
      )
  reach-Holds s (next r (connects first t)) =
      let (sound, kept) = reach-Holds s r in
      let Q : Text → Type 0 = λ id. Received codec wire cfg id r in
      let empty : State Raw Frame = record t { out = []; channel = [] } in
      let v : Sound codec wire cfg Q empty = record {
        named = tt;
        bounded = omega arith;
        waiting = tt;
      } in
      Holds-trans Q Q s t (after_dial codec wire cfg first t) (λ id q. q) kept
        (after-Holds Q empty (go_on (top_up codec wire cfg first empty))
          (top_up_step-Safe codec wire cfg Q first empty v))
  reach-Holds s (next r (happens e t)) =
      let (sound, kept) = reach-Holds s r in
      let Q : Text → Type 0 = λ id. Received codec wire cfg id r in
      Holds-trans Q (After codec wire cfg Q e) s t (after (step codec wire cfg e t)) (λ id q. inl q)
        kept
        (after-Holds (After codec wire cfg Q e) t (step codec wire cfg e t)
          (step-Safe codec wire cfg Q e t (sound refl)))

  -- From any state of the database without a connection, for every sequence of transactions of the
  -- scanners, new connections, turns of the publisher and failures, however they follow one
  -- another: a deposit that was in the buffer is still there, unless an ACK message with its own id
  -- was received; and while there is a connection, at most `max_in_flight` deposits wait for
  -- their ACK.
  pub reach-Kept :
      (s : State Raw Frame) (u : System Raw Frame) (r : Reach codec wire cfg (offline s) u)
      (k : Key)
      → has_key k s.db.rows ≡ true
      → ((has_key k u.state.db.rows ≡ true) ⊎ Received codec wire cfg (ack_id k) r)
        × (u.connected ≡ true → length u.state.out ≤ cfg.max_in_flight)
  reach-Kept s u r k h = let (sound, kept) = reach-Holds s r in (kept k h, λ on. (sound on).bounded)
