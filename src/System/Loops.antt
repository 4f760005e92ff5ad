-- ===== src/System/Loops.antt =====
-- internal/scanner/loop.go and internal/publisher/publisher.go on one database: one polling loop for
-- each chain and scanner, each of which takes its turns (Scanner/Loop/Machine), and the publisher in
-- the acknowledged mode, in any order. A loop may stop at any point and begin again, as a panic, the
-- end of its context and a reload make it do, and the whole process may.
pub mod Covered
pub mod Tracks
use listener_go.Prelude.{
  ℕ, suc, ◌<◌, u64, ℤ, eq_ℤ, Text, eq_text, ◌&&◌, ◌≡◌, ◌⊎◌, List, ok, if◌then◌else◌,
}
use listener_go.Model.{Deposit, TimeFormats}
use listener_go.Retry.{retry}
use listener_go.Database.Buffer.{Codec}
use listener_go.Publisher.Protocol.{Wire}
use listener_go.Publisher.AckMode.{Config, TopUp, State}
use listener_go.Publisher.AckMode.Drain.{Event, step}
use listener_go.Publisher.AckMode.Drain.Safety.{Delivers}
use listener_go.Scanner.Loop.{LoopConfig, LoopId, Poll}
use listener_go.Scanner.Loop.Machine.{Phase, idle, turn}
use listener_go.Scanner.Loop.Machine.Tracked.{ScansAt}
use listener_go.System.{System, offline, online, after, after_dial}

-- Where each loop stands, by its chain and its scanner.
abbrev pub Loops : Type 0
Loops = ℤ → Text → Phase

unfoldable pub set_phase : LoopId → Phase → Loops → Loops
set_phase l ph loops chain_id name =
    if eq_ℤ l.chain_id chain_id && eq_text l.name name then ph else loops chain_id name

abbrev pub all_idle : Loops
all_idle chain_id name = idle

pub record Process (Raw Frame : Type 0) : Type 0 where
  pub loops : Loops
  pub system : System Raw Frame

module _ {Raw Time Frame : Type 0} (codec : Codec Raw) (fmt : TimeFormats Time)
    (wire : Wire Raw Frame) (cfg : Config) (cfgs : ℤ → LoopConfig) where
  abbrev pub start : State Raw Frame → Process Raw Frame
  start s = record { loops = all_idle; system = offline s }

  abbrev pub after_turn : LoopId → Poll Time → Process Raw Frame → Process Raw Frame
  after_turn l p w =
      let x = turn codec fmt (cfgs l.chain_id) l p (w.loops l.chain_id l.name) w.system.state.db in
      record {
        loops = set_phase l x.0 w.loops;
        system = record w.system { state = record w.system.state { db = x.1 } };
      }

  abbrev pub after_stop : LoopId → Process Raw Frame → Process Raw Frame
  after_stop l w = record w { loops = set_phase l idle w.loops }

  pub data Move : Process Raw Frame → Process Raw Frame → Type 0 where
    scans : (l : LoopId) (p : Poll Time) (w : Process Raw Frame) → Move w (after_turn l p w)
    stops : (l : LoopId) (w : Process Raw Frame) → Move w (after_stop l w)
    dials :
        (first : TopUp) (loops : Loops) (s : State Raw Frame)
        → Move
            (record { loops = loops; system = offline s })
            (record { loops = loops; system = after_dial codec wire cfg first s })
    drains :
        (e : Event Frame) (loops : Loops) (s : State Raw Frame)
        → Move
            (record { loops = loops; system = online s })
            (record { loops = loops; system = after (step codec wire cfg e s) })
    crashes : (w : Process Raw Frame) → Move w (start w.system.state)

  pub data Reach (w : Process Raw Frame) : Process Raw Frame → Type 0 where
    here : Reach w w
    next : {v u : Process Raw Frame} → Reach w v → Move v u → Reach w u

  -- An ACK message with this id was received.
  abbrev pub Received : Text → {w u : Process Raw Frame} → Reach w u → Type 0
  Received id here = ⊥
  Received id (next r (scans l p w)) = Received id r
  Received id (next r (stops l w)) = Received id r
  Received id (next r (dials first loops s)) = Received id r
  Received id (next r (drains e loops s)) = Received id r ⊎ Delivers codec wire cfg id e
  Received id (next r (crashes w)) = Received id r

  -- A turn of this loop scanned the block, and its events convert to these deposits.
  abbrev pub Scanned : LoopId → ℕ → List Deposit → {w u : Process Raw Frame} → Reach w u → Type 0
  Scanned l b ds here = ⊥
  Scanned l b ds (next r (scans l' p w)) =
      Scanned l b ds r
      ⊎ ((l' ≡ l) × ScansAt codec fmt (cfgs l.chain_id) l p (w.loops l.chain_id l.name) b ds)
  Scanned l b ds (next r (stops l' w)) = Scanned l b ds r
  Scanned l b ds (next r (dials first loops s)) = Scanned l b ds r
  Scanned l b ds (next r (drains e loops s)) = Scanned l b ds r
  Scanned l b ds (next r (crashes w)) = Scanned l b ds r

  -- The heads that the nodes report stay in the range of uint64.
  abbrev pub HeadsFit : {w u : Process Raw Frame} → Reach w u → Type 0
  HeadsFit here = Unit
  HeadsFit (next r (scans l p w)) =
      HeadsFit r
      × ((latest : ℕ)
          → (retry (cfgs l.chain_id).retry_options p.ctx_err p.cut p.block_number 0).result
            ≡ ok latest
          → suc latest < u64)
  HeadsFit (next r (stops l w)) = HeadsFit r
  HeadsFit (next r (dials first loops s)) = HeadsFit r
  HeadsFit (next r (drains e loops s)) = HeadsFit r
  HeadsFit (next r (crashes w)) = HeadsFit r
