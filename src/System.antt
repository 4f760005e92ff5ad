-- ===== src/System.antt =====
-- cmd/listener/main.go: the scanners and the publisher in the acknowledged mode run at the same time
-- on one database. A step is one transaction of a scanner, one turn of the publisher's select, or a
-- new connection, in any order.
pub mod Kept
pub mod Loops
use listener_go.Prelude.{ℕ, ℤ, Text, Bool, true, false, List, [], ◌⊎◌, ◌≡◌}
use listener_go.Model.{Deposit}
use listener_go.Database.Buffer.{Codec, Outcomes, save_and_advance}
use listener_go.Publisher.Protocol.{Wire}
use listener_go.Publisher.AckMode.{Config, TopUp, State, top_up}
use listener_go.Publisher.AckMode.Drain.{Event, Outcome, running, ended, go_on, step}
use listener_go.Publisher.AckMode.Drain.Safety.{Delivers}

-- Whether the publisher has a connection; its state holds the database, which the scanners write.
pub record System (Raw Frame : Type 0) : Type 0 where
  pub connected : Bool
  pub state : State Raw Frame

module _ {Raw Frame : Type 0} where
  abbrev pub offline : State Raw Frame → System Raw Frame
  offline s = record { connected = false; state = s }

  abbrev pub online : State Raw Frame → System Raw Frame
  online s = record { connected = true; state = s }

  abbrev pub after : Outcome Raw Frame → System Raw Frame
  after (running s) = online s
  after (ended x s) = offline s

module _ {Raw Frame : Type 0} (codec : Codec Raw) (wire : Wire Raw Frame) (cfg : Config) where
  -- SaveAndAdvance is all that a scanner does to the database.
  abbrev pub after_save :
      ℕ → Outcomes → ℤ → Text → ℕ → List Deposit → System Raw Frame → System Raw Frame
  after_save now o chain_id name block ds y = record y {
    state = record y.state {
      db = (save_and_advance codec now o chain_id name block ds y.state.db).1;
    };
  }

  abbrev pub after_dial : TopUp → State Raw Frame → System Raw Frame
  after_dial first s =
      after (go_on (top_up codec wire cfg first (record s { out = []; channel = [] })))

  pub data Step : System Raw Frame → System Raw Frame → Type 0 where
    saves :
        (now : ℕ) (o : Outcomes) (chain_id : ℤ) (name : Text) (block : ℕ) (ds : List Deposit)
        (y : System Raw Frame)
        → Step y (after_save now o chain_id name block ds y)
    connects : (first : TopUp) (s : State Raw Frame) → Step (offline s) (after_dial first s)
    happens :
        (e : Event Frame) (s : State Raw Frame) → Step (online s) (after (step codec wire cfg e s))

  pub data Reach (y : System Raw Frame) : System Raw Frame → Type 0 where
    here : Reach y y
    next : {t u : System Raw Frame} → Reach y t → Step t u → Reach y u

  -- An ACK message with this id was received on a connection.
  abbrev pub Received : Text → {y u : System Raw Frame} → Reach y u → Type 0
  Received id here = ⊥
  Received id (next r (saves now o chain_id name block ds y)) = Received id r
  Received id (next r (connects first s)) = Received id r
  Received id (next r (happens e s)) = Received id r ⊎ Delivers codec wire cfg id e
