-- ===== src/Publisher/AckMode/Send.antt =====
-- What a top-up does to the state of the drain.
use listener_go.Prelude.{
  ℕ, zero, suc, ◌+◌, ◌-◌, ◌≤◌, Text, ◌≡◌, refl, ◌∙◌, leb, Option, none, some, List, [], ◌∷◌, ◌++◌,
  length, Result, ok, err, if-cases, arith,
}
use listener_go.Model.{Deposit}
use listener_go.Database.Buffer.{Codec, DbError, key_of}
use listener_go.Publisher.Protocol.{Wire, encode_deposit, ack_id}
use listener_go.Publisher.Outstanding.{Outstanding, has, add}
use listener_go.Publisher.Outstanding.Laws.{IsNamed, drop-IsNamed, length-drop-le}
use listener_go.Publisher.AckMode.{
  Config, DrainError, TopUp, State, send_one, send_pending, after_query, top_up,
}

module _ {Raw Frame : Type 0} (codec : Codec Raw) (wire : Wire Raw Frame) (cfg : Config) where
  encode_deposit-ack_id :
      (d : Deposit) (raw : Frame) (id : Text)
      → encode_deposit codec wire d ≡ some (raw, id)
      → id ≡ ack_id (key_of d)
  unfolding encode_deposit
  encode_deposit-ack_id d raw id h = ground arith

  -- The tables and the channel are untouched, every entry in flight stands under its own id, and
  -- there are at most `max_in_flight` of them.
  pub record Tops (s s' : State Raw Frame) : Type 0 where
    pub db : s'.db ≡ s.db
    pub channel : s'.channel ≡ s.channel
    pub named : IsNamed s'.out
    pub bounded : length s'.out ≤ cfg.max_in_flight

  add-IsNamed :
      (d : Deposit) (id : Text) (now : ℕ) (out : Outstanding)
      → id ≡ ack_id (key_of d)
      → IsNamed out
      → IsNamed (add id (key_of d) now out)
  unfolding add
  add-IsNamed d id now out e h = (e, drop-IsNamed id out h)

  send_one-Tops :
      (e : TopUp) (i : ℕ) (d : Deposit) (enc : Option (Frame × Text))
      (skip next : State Raw Frame → Result DrainError (Unit {0}) × State Raw Frame)
      (s : State Raw Frame)
      → encode_deposit codec wire d ≡ enc
      → IsNamed s.out
      → suc (length s.out) ≤ cfg.max_in_flight
      → Tops s (skip s).1
      → ((s' : State Raw Frame)
          → s'.db ≡ s.db
          → s'.channel ≡ s.channel
          → IsNamed s'.out
          → length s'.out ≤ suc (length s.out)
          → Tops s (next s').1)
      → Tops s (send_one codec wire cfg e i d enc skip next s).1
  unfolding send_one
  send_one-Tops e i d none skip next s h n b skips nexts = skips
  send_one-Tops e i d (some (raw, id)) skip next s h n b skips nexts =
      let P : Result DrainError (Unit {0}) × State Raw Frame → Type 0 = λ x. Tops s x.1 in
      if-cases P (has id s.out) (λ old. skips)
        (λ new.
          if-cases P (e.write_fails i)
            (λ fails. record { db = refl; channel = refl; named = n; bounded = omega arith })
            (λ written.
              nexts (record s { out = add id (key_of d) e.now s.out; sent = s.sent ++ raw ∷ [] })
                refl refl (add-IsNamed d id e.now s.out (encode_deposit-ack_id d raw id h) n)
                (unfold add in omega (arith, length-drop-le id s.out))))

  Tops-later :
      (s s' t : State Raw Frame) → s'.db ≡ s.db → s'.channel ≡ s.channel → Tops s' t → Tops s t
  Tops-later s s' t d c h = record {
    db = h.db ∙ d;
    channel = h.channel ∙ c;
    named = h.named;
    bounded = h.bounded;
  }

  send_pending-Tops :
      (e : TopUp) (i available : ℕ) (ds : List Deposit) (s : State Raw Frame)
      → IsNamed s.out
      → length s.out + available ≤ cfg.max_in_flight
      → Tops s (send_pending codec wire cfg e i available ds s).1
  unfolding send_pending
  send_pending-Tops e i available [] s n b = record {
    db = refl;
    channel = refl;
    named = n;
    bounded = omega arith;
  }
  send_pending-Tops e i zero (d ∷ ds) s n b = record {
    db = refl;
    channel = refl;
    named = n;
    bounded = omega arith;
  }
  send_pending-Tops e i (suc available) (d ∷ ds) s n b =
      send_one-Tops e i d (encode_deposit codec wire d) _ _ s refl n (omega arith)
        (send_pending-Tops e i (suc available) ds s n b)
        (λ s' d' c' n' b'.
          Tops-later s s' _ d' c' (send_pending-Tops e (suc i) available ds s' n' (omega arith)))

  -- A top-up leaves the tables and the channel alone, puts every frame in flight under the id of
  -- its deposit, and never has more than `max_in_flight` of them in flight, whatever fails.
  pub top_up-Tops :
      (e : TopUp) (s : State Raw Frame)
      → IsNamed s.out
      → length s.out ≤ cfg.max_in_flight
      → Tops s (top_up codec wire cfg e s).1
  unfolding top_up
  top_up-Tops e s n b =
      let P : Result DrainError (Unit {0}) × State Raw Frame → Type 0 = λ x. Tops s x.1 in
      if-cases P (leb cfg.max_in_flight (length s.out))
        (λ full. record { db = refl; channel = refl; named = n; bounded = b }) (λ room. go _)
    where
      go :
          (q : Result DbError (List Deposit))
          → Tops s (after_query codec wire cfg e (cfg.max_in_flight - length s.out) q s).1
      go (err x) = record { db = refl; channel = refl; named = n; bounded = b }
      go (ok ds) = send_pending-Tops e 0 (cfg.max_in_flight - length s.out) ds s n (omega arith)
