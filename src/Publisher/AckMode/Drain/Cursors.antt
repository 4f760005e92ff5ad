-- ===== src/Publisher/AckMode/Drain/Cursors.antt =====
-- The publisher never writes a scan cursor.
use listener_go.Prelude.{
  ℕ, zero, suc, Text, ◌-◌, ◌≡◌, refl, ◌∙◌, Bool, true, false, ltb, leb, ◌==◌, ◌++◌, Option, none,
  some, List, [], ◌∷◌, length, Result, ok, err, if-cases,
}
use listener_go.Model.{Deposit}
use listener_go.Database.Buffer.{Codec, DbError, ack, key_of}
use listener_go.Publisher.Protocol.{Wire, ack_of_frame, encode_deposit}
use listener_go.Publisher.Outstanding.{Msg, add, has, take, oldest_age}
use listener_go.Publisher.AckMode.{
  Config, DrainError, TopUp, State, send_one, send_pending, after_query, top_up, ack_taken,
  handle_ack,
}
use listener_go.Publisher.AckMode.Drain.{
  Round, take_ack, pause, receives, Event, done, read_failed, wake, ack_ready, ping, poll, timeout,
  message, Outcome, state_of, go_on, receive_id, receive, take_id, graceful, ack_ready_step, step,
}

module _ {Raw Frame : Type 0} (codec : Codec Raw) (wire : Wire Raw Frame) (cfg : Config) where
  abbrev SameCursors : State Raw Frame → State Raw Frame → Type 0
  SameCursors s t = t.db.cursors ≡ s.db.cursors

  abbrev SameAfter : State Raw Frame → Result DrainError (Unit {0}) × State Raw Frame → Type 0
  SameAfter s x = SameCursors s x.1

  send_one-SameAfter :
      (e : TopUp) (i : ℕ) (d : Deposit) (enc : Option (Frame × Text))
      (skip next : State Raw Frame → Result DrainError (Unit {0}) × State Raw Frame)
      (s : State Raw Frame)
      → ((t : State Raw Frame) → SameAfter t (skip t))
      → ((t : State Raw Frame) → SameAfter t (next t))
      → SameAfter s (send_one codec wire cfg e i d enc skip next s)
  unfolding send_one
  send_one-SameAfter e i d none skip next s skips nexts = skips s
  send_one-SameAfter e i d (some (raw, id)) skip next s skips nexts =
      if-cases (SameAfter s) (has id s.out) (λ old. skips s)
        (λ new.
          if-cases (SameAfter s) (e.write_fails i) (λ fails. refl)
            (λ written.
              nexts (record s { out = add id (key_of d) e.now s.out; sent = s.sent ++ raw ∷ [] })))

  send_pending-SameAfter :
      (e : TopUp) (i available : ℕ) (ds : List Deposit) (s : State Raw Frame)
      → SameAfter s (send_pending codec wire cfg e i available ds s)
  unfolding send_pending
  send_pending-SameAfter e i available [] s = refl
  send_pending-SameAfter e i zero (d ∷ ds) s = refl
  send_pending-SameAfter e i (suc available) (d ∷ ds) s =
      send_one-SameAfter e i d (encode_deposit codec wire d) _ _ s
        (send_pending-SameAfter e i (suc available) ds)
        (send_pending-SameAfter e (suc i) available ds)

  after_query-SameAfter :
      (e : TopUp) (available : ℕ) (q : Result DbError (List Deposit)) (s : State Raw Frame)
      → SameAfter s (after_query codec wire cfg e available q s)
  unfolding after_query
  after_query-SameAfter e available (err x) s = refl
  after_query-SameAfter e available (ok ds) s = send_pending-SameAfter e 0 available ds s

  top_up-SameAfter : (e : TopUp) (s : State Raw Frame) → SameAfter s (top_up codec wire cfg e s)
  unfolding top_up
  top_up-SameAfter e s =
      if-cases (SameAfter s) (leb cfg.max_in_flight (length s.out)) (λ full. refl)
        (λ room. after_query-SameAfter e (cfg.max_in_flight - length s.out) _ s)

  ack_taken-SameAfter :
      (fails : Bool) (found : Option Msg) (s : State Raw Frame)
      → SameAfter s (ack_taken codec wire cfg fails found s)
  unfolding ack_taken ack
  ack_taken-SameAfter fails none s = refl
  ack_taken-SameAfter true (some m) s = refl
  ack_taken-SameAfter false (some m) s = refl

  take_id-SameCursors :
      (fails : Bool) (channel : List Text) (s : State Raw Frame)
      → SameCursors s (take_id codec wire cfg fails channel s)
  unfolding take_id handle_ack take
  take_id-SameCursors fails [] s = refl
  take_id-SameCursors fails (id ∷ rest) s = ack_taken-SameAfter fails _ _

  receive_id-SameCursors :
      (found : Option Text) (s : State Raw Frame)
      → SameCursors s (receive_id codec wire cfg found s)
  unfolding receive_id
  receive_id-SameCursors none s = refl
  receive_id-SameCursors (some id) s =
      if-cases (SameCursors s) (ltb (length s.channel) cfg.max_in_flight) (λ room. refl)
        (λ full. refl)

  receive-SameCursors :
      (is_text : Bool) (raw : Frame) (s : State Raw Frame)
      → SameCursors s (receive codec wire cfg is_text raw s)
  unfolding receive
  receive-SameCursors true raw s = receive_id-SameCursors (ack_of_frame wire raw) s
  receive-SameCursors false raw s = refl

  graceful-SameCursors :
      (rounds : List (Round Frame)) (s : State Raw Frame)
      → SameCursors s (graceful codec wire cfg rounds s)
  unfolding graceful
  graceful-SameCursors [] s = refl
  graceful-SameCursors (take_ack fails ∷ rounds) s =
      if-cases (SameCursors s) (length s.out == 0) (λ empty. refl)
        (λ more.
          graceful-SameCursors rounds (take_id codec wire cfg fails s.channel s)
          ∙ take_id-SameCursors fails s.channel s)
  graceful-SameCursors (pause ∷ rounds) s =
      if-cases (SameCursors s) (length s.out == 0) (λ empty. refl)
        (λ more. graceful-SameCursors rounds s)
  graceful-SameCursors (receives is_text raw ∷ rounds) s =
      graceful-SameCursors rounds (receive codec wire cfg is_text raw s)
      ∙ receive-SameCursors is_text raw s

  go_on-SameCursors :
      (s : State Raw Frame) (x : Result DrainError (Unit {0}) × State Raw Frame)
      → SameAfter s x
      → SameCursors s (state_of (go_on x))
  unfolding go_on
  go_on-SameCursors s (ok _, t) h = h
  go_on-SameCursors s (err e, t) h = h

  pub top_up_step-cursors :
      (e : TopUp) (s : State Raw Frame)
      → (state_of (go_on (top_up codec wire cfg e s))).db.cursors ≡ s.db.cursors
  top_up_step-cursors e s = go_on-SameCursors s (top_up codec wire cfg e s) (top_up-SameAfter e s)

  ack_ready_step-SameCursors :
      (fails : Bool) (e : TopUp) (channel : List Text) (s : State Raw Frame)
      → SameCursors s (state_of (ack_ready_step codec wire cfg fails e channel s))
  unfolding ack_ready_step
  ack_ready_step-SameCursors fails e [] s = refl
  ack_ready_step-SameCursors fails e (id ∷ rest) s =
      top_up_step-cursors e (take_id codec wire cfg fails (id ∷ rest) s)
      ∙ take_id-SameCursors fails (id ∷ rest) s

  -- No turn of the select of drainWithACK moves a cursor, whatever fails in it.
  pub step-cursors :
      (e : Event Frame) (s : State Raw Frame)
      → (state_of (step codec wire cfg e s)).db.cursors ≡ s.db.cursors
  unfolding step receive
  step-cursors (done rounds) s = graceful-SameCursors rounds s
  step-cursors read_failed s = refl
  step-cursors (wake e) s = top_up_step-cursors e s
  step-cursors (ack_ready fails e) s = ack_ready_step-SameCursors fails e s.channel s
  step-cursors (ping true) s = refl
  step-cursors (ping false) s = refl
  step-cursors (poll e) s = top_up_step-cursors e s
  step-cursors (timeout now) s =
      if-cases (λ (x : Outcome Raw Frame). SameCursors s (state_of x))
        (ltb cfg.ack_timeout (oldest_age now s.out)) (λ late. refl) (λ fine. refl)
  step-cursors (message true raw) s = receive-SameCursors true raw s
  step-cursors (message false raw) s = refl
