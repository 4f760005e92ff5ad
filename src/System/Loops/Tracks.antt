-- ===== src/System/Loops/Tracks.antt =====
-- What each move does to the blocks that the cursor of one loop has passed, and to their deposits.
use mathlib.Core.Path.{subst}
use native.Mathlib.Decide.{dec_lt}
use native.Mathlib.Nat.{le_trans}
use listener_go.Prelude.{
  ℕ, suc, ◌≤◌, ◌<◌, u64, ℤ, eq_ℤ, eq_ℤ_iff, Text, eq_text, eq_text_iff, ◌≡◌, ◌≢◌, refl, sym, ◌∙◌,
  ◌⊎◌, inl, inr, true, false, ◌&&◌, List, ok, Bool-cases, if-cases, arith,
}
use listener_go.Model.{Deposit, TimeFormats}
use listener_go.Retry.{retry}
use listener_go.Database.Tables.{Key, Db, select_cursor, has_key}
use listener_go.Database.Buffer.{Codec, cursor}
use listener_go.Database.Buffer.Transaction.{any_key}
use listener_go.Publisher.Protocol.{Wire, ack_id}
use listener_go.Publisher.AckMode.{Config}
use listener_go.Publisher.AckMode.Drain.{Outcome, running, ended, state_of}
use listener_go.Publisher.AckMode.Drain.Safety.{Sound, Safe}
use listener_go.Scanner.Loop.{LoopConfig, LoopId, Poll}
use listener_go.Scanner.Loop.Machine.{Phase, turn}
use listener_go.Scanner.Loop.Machine.Adds.{turn-Adds}
use listener_go.Scanner.Loop.Machine.Tracked.{ScansAt, AtPhase, Turned, turn-Turned}
use listener_go.System.{System, after}
use listener_go.System.Loops.{Loops, Process, set_phase, after_turn, after_stop}

cursor-cursors :
    {Raw : Type 0} (l : LoopId) (db db' : Db Raw)
    → db'.cursors ≡ db.cursors
    → cursor false l.chain_id l.name db' ≡ cursor false l.chain_id l.name db
unfolding cursor
cursor-cursors l db db' e = rw e refl

cursor-select :
    {Raw : Type 0} (l : LoopId) (db db' : Db Raw)
    → select_cursor l.chain_id l.name db'.cursors ≡ select_cursor l.chain_id l.name db.cursors
    → cursor false l.chain_id l.name db' ≡ cursor false l.chain_id l.name db
unfolding cursor
cursor-select l db db' e = rw e refl

LoopId-eq : (l' l : LoopId) → l'.chain_id ≡ l.chain_id → l'.name ≡ l.name → l' ≡ l
LoopId-eq l' l e e' = λ i. record { chain_id = e i; name = e' i }

-- Whether a turn belongs to this loop.
LoopId-cases :
    (l' l : LoopId)
    → (l' ≡ l)
      ⊎ ((l.chain_id ≡ l'.chain_id → l.name ≡ l'.name → ⊥)
          × ((eq_ℤ l'.chain_id l.chain_id && eq_text l'.name l.name) ≡ false))
LoopId-cases l' l = elim (Bool-cases (eq_ℤ l'.chain_id l.chain_id && eq_text l'.name l.name)) [
  | inl same ↦ inl (
      LoopId-eq l' l (ground (arith, eq_ℤ_iff l'.chain_id l.chain_id))
        (ground (arith, eq_text_iff l'.name l.name)))
  | inr other ↦ inr (
    λ e e'.
        ground (arith, eq_ℤ_iff l'.chain_id l.chain_id, eq_text_iff l'.name l.name, sym e, sym e'),
    other,
  )
]

module _ {Raw Time Frame : Type 0} (codec : Codec Raw) (fmt : TimeFormats Time)
    (wire : Wire Raw Frame) (cfg : Config) (cfgs : ℤ → LoopConfig) (l : LoopId) (c : ℕ) where
  -- A deposit of the list is in the buffer, or its ACK was received.
  abbrev pub Accounted : (Text → Type 0) → List Deposit → Db Raw → Type 0
  Accounted Q ds db = (k : Key) → any_key k ds ≡ true → (has_key k db.rows ≡ true) ⊎ Q (ack_id k)

  abbrev pub Passed : (ℕ → List Deposit → Type 0) → (Text → Type 0) → ℕ → Db Raw → Type 0
  Passed F Q at db = (b : ℕ) → c < b → b ≤ at → (ds : List Deposit) × F b ds × Accounted Q ds db

  -- `F` holds of the blocks that were scanned with their deposits, `Q` of the ids that were received.
  pub record Tracks (F : ℕ → List Deposit → Type 0) (Q : Text → Type 0) (w : Process Raw Frame)
      : Type 0 where
    pub at : ℕ
    pub forward : c ≤ at
    pub small : suc at < u64
    pub reads : cursor false l.chain_id l.name w.system.state.db ≡ ok at
    pub phase : AtPhase at (w.loops l.chain_id l.name)
    pub passed : Passed F Q at w.system.state.db
    pub sound : w.system.connected ≡ true → Sound codec wire cfg Q w.system.state

  Passed-later :
      (F F' : ℕ → List Deposit → Type 0) (Q Q' : Text → Type 0) (at : ℕ) (db db' : Db Raw)
      → ((b : ℕ) (ds : List Deposit) → F b ds → F' b ds)
      → ((id : Text) → Q id → Q' id)
      → ((k : Key) → has_key k db.rows ≡ true → (has_key k db'.rows ≡ true) ⊎ Q' (ack_id k))
      → Passed F Q at db
      → Passed F' Q' at db'
  Passed-later F F' Q Q' at db db' f q kept h b lo hi =
      let (ds, found, accounted) = h b lo hi in
      (
        ds,
        f b ds found,
        λ k e. elim (accounted k e) [ inl row ↦ kept k row | inr id ↦ inr (q (ack_id k) id) ],
      )

  -- The publisher moves no cursor, and what it deletes was acknowledged.
  pub publisher-Tracks :
      (F : ℕ → List Deposit → Type 0) (Q Q' : Text → Type 0) (loops : Loops) (y : System Raw Frame)
      (o : Outcome Raw Frame)
      → ((id : Text) → Q id → Q' id)
      → Safe codec wire cfg Q' y.state (state_of o)
      → (state_of o).db.cursors ≡ y.state.db.cursors
      → Tracks F Q (record { loops = loops; system = y })
      → Tracks F Q' (record { loops = loops; system = after o })
  publisher-Tracks F Q Q' loops y (running t) q (sound, loses) e v = record {
    at = v.at;
    forward = v.forward;
    small = v.small;
    reads = cursor-cursors l y.state.db t.db e ∙ v.reads;
    phase = v.phase;
    passed = Passed-later F F Q Q' v.at y.state.db t.db (λ b ds f. f) q loses v.passed;
    sound = λ on. sound;
  }
  publisher-Tracks F Q Q' loops y (ended x t) q (sound, loses) e v = record {
    at = v.at;
    forward = v.forward;
    small = v.small;
    reads = cursor-cursors l y.state.db t.db e ∙ v.reads;
    phase = v.phase;
    passed = Passed-later F F Q Q' v.at y.state.db t.db (λ b ds f. f) q loses v.passed;
    sound = λ on. sound;
  }

  set_phase_self : (ph : Phase) (loops : Loops) → set_phase l ph loops l.chain_id l.name ≡ ph
  unfolding set_phase
  set_phase_self ph loops =
      ground (arith, eq_ℤ_iff l.chain_id l.chain_id, eq_text_iff l.name l.name)

  set_phase_other :
      (l' : LoopId) (ph : Phase) (loops : Loops)
      → (eq_ℤ l'.chain_id l.chain_id && eq_text l'.name l.name) ≡ false
      → set_phase l' ph loops l.chain_id l.name ≡ loops l.chain_id l.name
  unfolding set_phase
  set_phase_other l' ph loops other = rw other refl

  abbrev pub HeadFits : LoopId → Poll Time → Type 0
  HeadFits l' p =
      (latest : ℕ)
      → (retry (cfgs l'.chain_id).retry_options p.ctx_err p.cut p.block_number 0).result ≡ ok latest
      → suc latest < u64

  abbrev pub Grown :
      (ℕ → List Deposit → Type 0)
      → LoopId
      → Poll Time
      → Process Raw Frame
      → ℕ
      → List Deposit
      → Type 0
  Grown F l' p w b ds =
      F b ds ⊎ ((l' ≡ l) × ScansAt codec fmt (cfgs l.chain_id) l p (w.loops l.chain_id l.name) b ds)

  own_turn-Tracks :
      (F : ℕ → List Deposit → Type 0) (Q : Text → Type 0) (p : Poll Time) (w : Process Raw Frame)
      → c ≢ 0
      → HeadFits l p
      → Tracks F Q w
      → Tracks (Grown F l p w) Q (after_turn codec fmt wire cfg cfgs l p w)
  own_turn-Tracks F Q p w started heads v =
      let db = w.system.state.db in
      let ph = w.loops l.chain_id l.name in
      let cfg_l = cfgs l.chain_id in
      let x = turn codec fmt cfg_l l p ph db in
      let a = turn-Adds codec fmt cfg_l l p ph db in
      let t : Turned codec fmt cfg_l l p v.at ph x =
        turn-Turned codec fmt cfg_l l p v.at ph db v.reads
          (λ zero_at. absurd (started (omega (arith, v.forward)))) v.small heads v.phase in
      let ph' = sym (set_phase_self x.0 w.loops) in
      record {
        at = t.at;
        forward = le_trans v.forward t.forward;
        small = t.small;
        reads = t.reads;
        phase = subst (AtPhase t.at) ph' t.phase;
        passed = λ b lo hi. elim (dec_lt v.at b) [
          | yes later ↦
              let (ds, scanned, stored) = t.found b later hi in
              (ds, inr (refl, scanned), λ k e. inl (stored k e))
          | no early ↦
              Passed-later F (Grown F l p w) Q Q v.at db x.1 (λ n ds f. inl f) (λ id q. q)
                (λ k h. inl (a.keeps k h)) v.passed b lo (omega arith)
        ];
        sound = λ on.
            let s = v.sound on in
            record { named = s.named; bounded = s.bounded; waiting = s.waiting };
      }

  other_turn-Tracks :
      (F : ℕ → List Deposit → Type 0) (Q : Text → Type 0) (l' : LoopId) (p : Poll Time)
      (w : Process Raw Frame)
      → (l.chain_id ≡ l'.chain_id → l.name ≡ l'.name → ⊥)
      → (eq_ℤ l'.chain_id l.chain_id && eq_text l'.name l.name) ≡ false
      → Tracks F Q w
      → Tracks (Grown F l' p w) Q (after_turn codec fmt wire cfg cfgs l' p w)
  other_turn-Tracks F Q l' p w ne other v =
      let db = w.system.state.db in
      let ph = w.loops l'.chain_id l'.name in
      let x = turn codec fmt (cfgs l'.chain_id) l' p ph db in
      let a = turn-Adds codec fmt (cfgs l'.chain_id) l' p ph db in
      let ph' = sym (set_phase_other l' x.0 w.loops other) in
      record {
        at = v.at;
        forward = v.forward;
        small = v.small;
        reads = cursor-select l db x.1 (a.others l.chain_id l.name ne) ∙ v.reads;
        phase = subst (AtPhase v.at) ph' v.phase;
        passed =
            Passed-later F (Grown F l' p w) Q Q v.at db x.1 (λ n ds f. inl f) (λ id q. q)
              (λ k h. inl (a.keeps k h)) v.passed;
        sound = λ on.
            let s = v.sound on in
            record { named = s.named; bounded = s.bounded; waiting = s.waiting };
      }

  pub turn-Tracks :
      (F : ℕ → List Deposit → Type 0) (Q : Text → Type 0) (l' : LoopId) (p : Poll Time)
      (w : Process Raw Frame)
      → c ≢ 0
      → HeadFits l' p
      → Tracks F Q w
      → Tracks (Grown F l' p w) Q (after_turn codec fmt wire cfg cfgs l' p w)
  turn-Tracks F Q l' p w started heads v = elim (LoopId-cases l' l) [
    | inl same ↦
        subst (λ n. Tracks (Grown F n p w) Q (after_turn codec fmt wire cfg cfgs n p w)) (sym same)
          (own_turn-Tracks F Q p w started (subst (λ n. HeadFits n p) same heads) v)
    | inr (ne, other) ↦ other_turn-Tracks F Q l' p w ne other v
  ]

  pub stop-Tracks :
      (F : ℕ → List Deposit → Type 0) (Q : Text → Type 0) (l' : LoopId) (w : Process Raw Frame)
      → Tracks F Q w
      → Tracks F Q (after_stop codec fmt wire cfg cfgs l' w)
  unfolding set_phase
  stop-Tracks F Q l' w v = record {
    at = v.at;
    forward = v.forward;
    small = v.small;
    reads = v.reads;
    phase =
        if-cases (AtPhase v.at) (eq_ℤ l'.chain_id l.chain_id && eq_text l'.name l.name) (λ t. tt)
          (λ f. v.phase);
    passed = v.passed;
    sound = v.sound;
  }
