-- ===== src/System/Loops/Covered.antt =====
-- Every block that a scan cursor passes was scanned, and its deposits are kept until their ACK comes,
-- whatever the loops, the publisher and the failures do in between.
use listener_go.Prelude.{
  ℕ, suc, ◌≤◌, ◌<◌, u64, ℤ, Text, ◌≡◌, ◌≢◌, refl, sym, ◌∙◌, ◌⊎◌, inl, Result, true, false, List, [],
  ◌∷◌, All, ok, arith,
}
use listener_go.Model.{Deposit, TimeFormats}
use listener_go.Database.Tables.{Key, Db, has_key}
use listener_go.Database.Tables.Keys.{eq_key_refl}
use listener_go.Database.Buffer.{DbError, Codec, cursor, key_of}
use listener_go.Database.Buffer.Transaction.{any_key}
use listener_go.Publisher.Protocol.{Wire, ack_id}
use listener_go.Publisher.AckMode.{Config, State, top_up}
use listener_go.Publisher.AckMode.Drain.{go_on, step}
use listener_go.Publisher.AckMode.Drain.Safety.{Sound, After, step-Safe, top_up_step-Safe}
use listener_go.Publisher.AckMode.Drain.Cursors.{step-cursors, top_up_step-cursors}
use listener_go.Scanner.Loop.{LoopConfig, LoopId}
use listener_go.Scanner.Loop.Machine.Tracked.{AtPhase}
use listener_go.System.{offline, online, after}
use listener_go.System.Loops.{
  Process, start, scans, stops, dials, drains, crashes, Reach, here, next, Received, Scanned,
  HeadsFit,
}
use listener_go.System.Loops.Tracks.{Tracks, turn-Tracks, stop-Tracks, publisher-Tracks}

same_ok : (a b : ℕ) → ◌≡◌ {A = Result DbError ℕ} (ok a) (ok b) → a ≡ b
same_ok a b h = cc

Accounted-All :
    {Raw : Type 0} (Q : Text → Type 0) (ds : List Deposit) (db : Db Raw)
    → ((k : Key) → any_key k ds ≡ true → (has_key k db.rows ≡ true) ⊎ Q (ack_id k))
    → All (λ d. (has_key (key_of d) db.rows ≡ true) ⊎ Q (ack_id (key_of d))) ds
unfolding any_key
Accounted-All Q [] db h = tt
Accounted-All Q (d ∷ ds) db h = (
  h (key_of d) (ground (arith, eq_key_refl (key_of d))),
  Accounted-All Q ds db (λ k e. h k (ground arith)),
)

module _ {Raw Time Frame : Type 0} (codec : Codec Raw) (fmt : TimeFormats Time)
    (wire : Wire Raw Frame) (cfg : Config) (cfgs : ℤ → LoopConfig) (l : LoopId) (c : ℕ) where
  reach-Tracks :
      (s : State Raw Frame)
      → cursor false l.chain_id l.name s.db ≡ ok c
      → c ≢ 0
      → suc c < u64
      → {w : Process Raw Frame}
        (r : Reach codec fmt wire cfg cfgs (start codec fmt wire cfg cfgs s) w)
      → HeadsFit codec fmt wire cfg cfgs r
      → Tracks codec fmt wire cfg cfgs l c
          (λ b ds. Scanned codec fmt wire cfg cfgs l b ds r)
          (λ id. Received codec fmt wire cfg cfgs id r)
          w
  reach-Tracks s h started small here heads = record {
    at = c;
    forward = omega arith;
    small = small;
    reads = h;
    phase = tt;
    passed = λ b lo hi. absurd (omega arith);
    sound = λ on. absurd (cc on);
  }
  reach-Tracks s h started small (next r (scans l' p w)) (heads, head) =
      turn-Tracks codec fmt wire cfg cfgs l c _ _ l' p w started head
        (reach-Tracks s h started small r heads)
  reach-Tracks s h started small (next r (stops l' w)) heads =
      stop-Tracks codec fmt wire cfg cfgs l c _ _ l' w (reach-Tracks s h started small r heads)
  reach-Tracks s h started small (next r (dials first loops t)) heads =
      let Q : Text → Type 0 = λ id. Received codec fmt wire cfg cfgs id r in
      let empty : State Raw Frame = record t { out = []; channel = [] } in
      let v : Sound codec wire cfg Q empty = record {
        named = tt;
        bounded = omega arith;
        waiting = tt;
      } in
      publisher-Tracks codec fmt wire cfg cfgs l c _ Q Q loops (offline t)
        (go_on (top_up codec wire cfg first empty)) (λ id q. q)
        (top_up_step-Safe codec wire cfg Q first empty v)
        (top_up_step-cursors codec wire cfg first empty) (reach-Tracks s h started small r heads)
  reach-Tracks s h started small (next r (drains e loops t)) heads =
      let Q : Text → Type 0 = λ id. Received codec fmt wire cfg cfgs id r in
      let v = reach-Tracks s h started small r heads in
      publisher-Tracks codec fmt wire cfg cfgs l c _ Q (After codec wire cfg Q e) loops (online t)
        (step codec wire cfg e t) (λ id q. inl q) (step-Safe codec wire cfg Q e t (v.sound refl))
        (step-cursors codec wire cfg e t) v
  reach-Tracks s h started small (next r (crashes w)) heads =
      let v = reach-Tracks s h started small r heads in
      record {
        at = v.at;
        forward = v.forward;
        small = v.small;
        reads = v.reads;
        phase = tt;
        passed = v.passed;
        sound = λ on. absurd (cc on);
      }

  -- On the way of any sequence of moves: every loop takes its turns, stops and begins again, the
  -- publisher connects, sends, takes ACKs and fails, and the process crashes, in any order. Then each
  -- block `b` that the cursor of a loop has passed since it read `c` ≠ 0 was scanned by a turn of this
  -- loop, and each deposit that its events convert to is in the buffer, or an ACK message with its
  -- own id was received (heads of the nodes and the first cursor below 2^64 - 1).
  pub reach-Scanned :
      (s : State Raw Frame) (w : Process Raw Frame)
      (r : Reach codec fmt wire cfg cfgs (start codec fmt wire cfg cfgs s) w) (c' b : ℕ)
      → HeadsFit codec fmt wire cfg cfgs r
      → c ≢ 0
      → suc c < u64
      → cursor false l.chain_id l.name s.db ≡ ok c
      → cursor false l.chain_id l.name w.system.state.db ≡ ok c'
      → c < b
      → b ≤ c'
      → (ds : List Deposit) × Scanned codec fmt wire cfg cfgs l b ds r
        × All
            (λ d.
              (has_key (key_of d) w.system.state.db.rows ≡ true)
              ⊎ Received codec fmt wire cfg cfgs (ack_id (key_of d)) r)
            ds
  reach-Scanned s w r c' b heads started small before after lo hi =
      let v = reach-Tracks s before started small r heads in
      let same : c' ≡ v.at = same_ok c' v.at (sym after ∙ v.reads) in
      let (ds, scanned, accounted) = v.passed b lo (omega arith) in
      (
        ds,
        scanned,
        Accounted-All (λ id. Received codec fmt wire cfg cfgs id r) ds w.system.state.db accounted,
      )

  -- On the way of any such sequence of moves the cursor of a loop that read `c` ≠ 0 can be read, has
  -- not moved back, and while the loop scans it stands at the block before the next one; the loop
  -- never initialises it again (heads of the nodes and the first cursor below 2^64 - 1).
  pub reach-AtPhase :
      (s : State Raw Frame) (w : Process Raw Frame)
      (r : Reach codec fmt wire cfg cfgs (start codec fmt wire cfg cfgs s) w)
      → HeadsFit codec fmt wire cfg cfgs r
      → c ≢ 0
      → suc c < u64
      → cursor false l.chain_id l.name s.db ≡ ok c
      → (c' : ℕ) × (cursor false l.chain_id l.name w.system.state.db ≡ ok c')
        × (c ≤ c')
        × AtPhase c' (w.loops l.chain_id l.name)
  reach-AtPhase s w r heads started small before =
      let v = reach-Tracks s before started small r heads in (v.at, v.reads, v.forward, v.phase)
