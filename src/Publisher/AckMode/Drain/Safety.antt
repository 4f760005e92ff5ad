-- ===== src/Publisher/AckMode/Drain/Safety.antt =====
-- In the acknowledged mode a row leaves the buffer only by an ACK that carries its own id.
use mathlib.Core.Path.{subst}
use native.Mathlib.Nat.{le_trans}
use listener_go.Prelude.{
  ◌≤◌, Text, ◌≡◌, refl, ◌⊎◌, inl, inr, Bool, true, false, ltb, ◌==◌, Option, none, some, List, [],
  ◌∷◌, ◌++◌, length, All, Result, ok, err, if-cases, Bool-cases, arith, ap, sym, ◌∙◌,
}
use listener_go.Database.Tables.{Key, eq_key, has_key}
use listener_go.Database.Tables.Keys.{has_key-delete_key, eq_key_iff}
use listener_go.Database.Buffer.{Codec, ack}
use listener_go.Publisher.Protocol.{Wire, ack_id, ack_of_frame}
use listener_go.Publisher.Outstanding.{Msg, find, drop, take, oldest_age}
use listener_go.Publisher.Outstanding.Laws.{IsNamed, drop-IsNamed, find-IsNamed, length-drop-le}
use listener_go.Publisher.AckMode.{Config, DrainError, TopUp, State, top_up, ack_taken, handle_ack}
use listener_go.Publisher.AckMode.Send.{top_up-Tops}
use listener_go.Publisher.AckMode.Drain.{
  Round, take_ack, pause, receives, Event, done, read_failed, wake, ack_ready, ping, poll, timeout,
  message, Outcome, state_of, go_on, receive_id, receive, take_id, graceful, ack_ready_step, step,
}

module _ {Raw Frame : Type 0} (codec : Codec Raw) (wire : Wire Raw Frame) (cfg : Config) where
  -- The frames in flight stand under their ids, within the limit, and each id that waits in the
  -- channel satisfies `Q`.
  pub record Sound (Q : Text → Type 0) (s : State Raw Frame) : Type 0 where
    pub named : IsNamed s.out
    pub bounded : length s.out ≤ cfg.max_in_flight
    pub waiting : All Q s.channel

  -- A key of `s` is still there in `s'`, or an id that satisfies `Q` is its own.
  abbrev pub Loses : (Text → Type 0) → State Raw Frame → State Raw Frame → Type 0
  Loses Q s s' =
      (k : Key) → has_key k s.db.rows ≡ true → (has_key k s'.db.rows ≡ true) ⊎ Q (ack_id k)

  -- Both, for the state that a transition leaves.
  abbrev pub Safe : (Text → Type 0) → State Raw Frame → State Raw Frame → Type 0
  Safe Q s s' = Sound Q s' × Loses Q s s'

  Loses-trans :
      (Q : Text → Type 0) (s t u : State Raw Frame) → Loses Q s t → Loses Q t u → Loses Q s u
  Loses-trans Q s t u a b k h = elim (a k h) [ inl h' ↦ b k h' | inr q ↦ inr q ]

  delete-Loses :
      (Q : Text → Type 0) (fails : Bool) (id : Text) (m : Msg) (s : State Raw Frame)
      → Q id
      → id ≡ ack_id m.key
      → Loses Q s (ack_taken codec wire cfg fails (some m) s).1
  unfolding ack_taken ack
  delete-Loses Q true id m s q e k h = inl h
  delete-Loses Q false id m s q e k h = elim (Bool-cases (eq_key k m.key)) [
    | inl same ↦ inr (subst Q (e ∙ sym (ap ack_id ((eq_key_iff k m.key).0 same))) q)
    | inr other ↦ inl (ground (arith, has_key-delete_key k m.key s.db.rows))
  ]

  ack_taken-Safe :
      (Q : Text → Type 0) (fails : Bool) (id : Text) (found : Option Msg) (s : State Raw Frame)
      → Q id
      → ((m : Msg) → found ≡ some m → id ≡ ack_id m.key)
      → Sound Q s
      → Safe Q s (ack_taken codec wire cfg fails found s).1
  unfolding ack_taken ack
  ack_taken-Safe Q fails id none s q named v = (v, λ k h. inl h)
  ack_taken-Safe Q true id (some m) s q named v = (
    record { named = v.named; bounded = v.bounded; waiting = v.waiting },
    delete-Loses Q true id m s q (named m refl),
  )
  ack_taken-Safe Q false id (some m) s q named v = (
    record { named = v.named; bounded = v.bounded; waiting = v.waiting },
    delete-Loses Q false id m s q (named m refl),
  )

  handle_ack-Safe :
      (Q : Text → Type 0) (fails : Bool) (id : Text) (s : State Raw Frame)
      → Q id
      → Sound Q s
      → Safe Q s (handle_ack codec wire cfg fails id s).1
  unfolding handle_ack take
  handle_ack-Safe Q fails id s q v =
      let (v', lost) =
        ack_taken-Safe Q fails id (find id s.out) (record s { out = drop id s.out }) q
          (λ m e. find-IsNamed id m s.out v.named e)
          (record {
            named = drop-IsNamed id s.out v.named;
            bounded = le_trans (length-drop-le id s.out) v.bounded;
            waiting = v.waiting;
          }) in
      (v', λ k h. lost k h)

  take_id-Safe :
      (Q : Text → Type 0) (fails : Bool) (channel : List Text) (s : State Raw Frame)
      → s.channel ≡ channel
      → Sound Q s
      → Safe Q s (take_id codec wire cfg fails channel s)
  unfolding take_id
  take_id-Safe Q fails [] s e v = (v, λ k h. inl h)
  take_id-Safe Q fails (id ∷ rest) s e v =
      let waiting : All Q (id ∷ rest) = subst (All Q) e v.waiting in
      let (v', lost) =
        handle_ack-Safe Q fails id (record s { channel = rest }) waiting.0
          (record { named = v.named; bounded = v.bounded; waiting = waiting.1 }) in
      (v', λ k h. lost k h)

  top_up-Safe :
      (Q : Text → Type 0) (e : TopUp) (s : State Raw Frame)
      → Sound Q s
      → Safe Q s (top_up codec wire cfg e s).1
  top_up-Safe Q e s v =
      let t = top_up-Tops codec wire cfg e s v.named v.bounded in
      (
        record { named = t.named; bounded = t.bounded; waiting = rw t.channel v.waiting },
        λ k h. inl (rw t.db h),
      )

  All-snoc :
      (Q : Text → Type 0) (ids : List Text) (id : Text) → All Q ids → Q id → All Q (ids ++ id ∷ [])
  All-snoc Q [] id h q = (q, tt)
  All-snoc Q (j ∷ ids) id h q = (h.0, All-snoc Q ids id h.1 q)

  -- The message is an ACK with this id.
  abbrev pub Carries : Text → Bool → Frame → Type 0
  Carries id is_text raw = (is_text ≡ true) × (ack_of_frame wire raw ≡ some id)

  receive_id-Safe :
      (Q : Text → Type 0) (found : Option Text) (s : State Raw Frame)
      → ((id : Text) → found ≡ some id → Q id)
      → Sound Q s
      → Safe Q s (receive_id codec wire cfg found s)
  unfolding receive_id
  receive_id-Safe Q none s q v = (v, λ k h. inl h)
  receive_id-Safe Q (some id) s q v =
      if-cases (Safe Q s) (ltb (length s.channel) cfg.max_in_flight)
        (λ room. (
          record {
            named = v.named;
            bounded = v.bounded;
            waiting = All-snoc Q s.channel id v.waiting (q id refl);
          },
          λ k h. inl h,
        ))
        (λ full. (v, λ k h. inl h))

  receive-Safe :
      (Q : Text → Type 0) (is_text : Bool) (raw : Frame) (s : State Raw Frame)
      → ((id : Text) → Carries id is_text raw → Q id)
      → Sound Q s
      → Safe Q s (receive codec wire cfg is_text raw s)
  unfolding receive
  receive-Safe Q true raw s q v =
      receive_id-Safe Q (ack_of_frame wire raw) s (λ id e. q id (refl, e)) v
  receive-Safe Q false raw s q v = (v, λ k h. inl h)

  -- An ACK with this id is received while `gracefulACK` runs.
  abbrev pub Arrives : Text → List (Round Frame) → Type 0
  Arrives id [] = ⊥
  Arrives id (receives is_text raw ∷ rounds) = Carries id is_text raw ⊎ Arrives id rounds
  Arrives id (r ∷ rounds) = Arrives id rounds

  graceful-Safe :
      (Q : Text → Type 0) (rounds : List (Round Frame)) (s : State Raw Frame)
      → ((id : Text) → Arrives id rounds → Q id)
      → Sound Q s
      → Safe Q s (graceful codec wire cfg rounds s)
  unfolding graceful
  graceful-Safe Q [] s q v = (v, λ k h. inl h)
  graceful-Safe Q (take_ack fails ∷ rounds) s q v =
      if-cases (Safe Q s) (length s.out == 0) (λ empty. (v, λ k h. inl h))
        (λ more.
          let t = take_id codec wire cfg fails s.channel s in
          let (v', lost) = take_id-Safe Q fails s.channel s refl v in
          let (v'', lost') = graceful-Safe Q rounds t q v' in
          (v'', Loses-trans Q s t (graceful codec wire cfg rounds t) lost lost'))
  graceful-Safe Q (pause ∷ rounds) s q v =
      if-cases (Safe Q s) (length s.out == 0) (λ empty. (v, λ k h. inl h))
        (λ more. graceful-Safe Q rounds s q v)
  graceful-Safe Q (receives is_text raw ∷ rounds) s q v =
      let t = receive codec wire cfg is_text raw s in
      let (v', lost) = receive-Safe Q is_text raw s (λ id c. q id (inl c)) v in
      let (v'', lost') = graceful-Safe Q rounds t (λ id later. q id (inr later)) v' in
      (v'', Loses-trans Q s t (graceful codec wire cfg rounds t) lost lost')

  -- The event is the receipt of an ACK with this id, or the shutdown, in which one is received.
  abbrev pub Delivers : Text → Event Frame → Type 0
  Delivers id (message is_text raw) = Carries id is_text raw
  Delivers id (done rounds) = Arrives id rounds
  Delivers id e = ⊥

  abbrev pub AckedIn : Text → List (Event Frame) → Type 0
  AckedIn id [] = ⊥
  AckedIn id (e ∷ es) = Delivers id e ⊎ AckedIn id es

  -- The ids that are in the channel after an event: those from before, and what it delivers.
  abbrev pub After : (Text → Type 0) → Event Frame → Text → Type 0
  After Q e id = Q id ⊎ Delivers id e

  All-After :
      (Q : Text → Type 0) (e : Event Frame) (ids : List Text) → All Q ids → All (After Q e) ids
  All-After Q e [] h = tt
  All-After Q e (id ∷ ids) h = (inl h.0, All-After Q e ids h.1)

  pub Safe-After :
      (Q : Text → Type 0) (e : Event Frame) (s s' : State Raw Frame)
      → Safe Q s s'
      → Safe (After Q e) s s'
  Safe-After Q e s s' (v, lost) = (
    record { named = v.named; bounded = v.bounded; waiting = All-After Q e s'.channel v.waiting },
    λ k h. elim (lost k h) [ inl kept ↦ inl kept | inr q ↦ inr (inl q) ],
  )

  go_on-state : (x : Result DrainError (Unit {0}) × State Raw Frame) → state_of (go_on x) ≡ x.1
  unfolding go_on
  go_on-state (ok _, s) = refl
  go_on-state (err e, s) = refl

  pub top_up_step-Safe :
      (Q : Text → Type 0) (e : TopUp) (s : State Raw Frame)
      → Sound Q s
      → Safe Q s (state_of (go_on (top_up codec wire cfg e s)))
  top_up_step-Safe Q e s v = rw (go_on-state (top_up codec wire cfg e s)) (top_up-Safe Q e s v)

  ack_ready_step-Safe :
      (Q : Text → Type 0) (fails : Bool) (e : TopUp) (channel : List Text) (s : State Raw Frame)
      → s.channel ≡ channel
      → Sound Q s
      → Safe Q s (state_of (ack_ready_step codec wire cfg fails e channel s))
  unfolding ack_ready_step
  ack_ready_step-Safe Q fails e [] s eq v = (v, λ k h. inl h)
  ack_ready_step-Safe Q fails e (id ∷ rest) s eq v =
      let (v', lost) = take_id-Safe Q fails (id ∷ rest) s eq v in
      let t = take_id codec wire cfg fails (id ∷ rest) s in
      let (v'', lost') = top_up_step-Safe Q e t v' in
      (v'', Loses-trans Q s t (state_of (go_on (top_up codec wire cfg e t))) lost lost')

  pub step-Safe :
      (Q : Text → Type 0) (e : Event Frame) (s : State Raw Frame)
      → Sound Q s
      → Safe (After Q e) s (state_of (step codec wire cfg e s))
  unfolding step receive
  step-Safe Q (done rounds) s v =
      let (v', same) = Safe-After Q (done rounds) s s (v, λ k h. inl h) in
      graceful-Safe (After Q (done rounds)) rounds s (λ id arrives. inr arrives) v'
  step-Safe Q read_failed s v = Safe-After Q read_failed s s (v, λ k h. inl h)
  step-Safe Q (wake e) s v = Safe-After Q (wake e) s _ (top_up_step-Safe Q e s v)
  step-Safe Q (ack_ready fails e) s v =
      Safe-After Q (ack_ready fails e) s _ (ack_ready_step-Safe Q fails e s.channel s refl v)
  step-Safe Q (ping true) s v = Safe-After Q (ping true) s s (v, λ k h. inl h)
  step-Safe Q (ping false) s v = Safe-After Q (ping false) s s (v, λ k h. inl h)
  step-Safe Q (poll e) s v = Safe-After Q (poll e) s _ (top_up_step-Safe Q e s v)
  step-Safe Q (timeout now) s v =
      if-cases (λ (x : Outcome Raw Frame). Safe (After Q (timeout now)) s (state_of x))
        (ltb cfg.ack_timeout (oldest_age now s.out))
        (λ late. Safe-After Q (timeout now) s s (v, λ k h. inl h))
        (λ fine. Safe-After Q (timeout now) s s (v, λ k h. inl h))
  step-Safe Q (message is_text raw) s v =
      let (v', same) = Safe-After Q (message is_text raw) s s (v, λ k h. inl h) in
      receive-Safe (After Q (message is_text raw)) is_text raw s (λ id c. inr c) v'
