-- ===== src/Startup/Monitor.antt =====
-- cmd/listener/main.go: runBufferMonitor, which puts the size and the age of the buffer into two gauges.
use listener_go.Prelude.{
  ℕ, ◌≡◌, refl, false, ◌++◌, Bool, List, [], ◌∷◌, length, All, true, Result, ok, err,
}
use listener_go.Database.Tables.{Db}
use listener_go.Database.Buffer.{DbError, Stats, stats}

-- The gauges BufferPendingTotal and BufferOldestAgeSeconds.
abbrev pub Gauges : Type 0
Gauges = Stats

update_gauges : Result DbError Stats → Gauges → Gauges
update_gauges (err e) g = g
update_gauges (ok st) g = st

-- What one update meets: whether the query fails, the time, and the tables.
pub record Look (Raw : Type 0) : Type 0 where
  pub fails : Bool
  pub now : ℕ
  pub db : Db Raw

module _ {Raw : Type 0} where
  -- Once at the start, and at each tick until the context ends.
  unfoldable pub run_monitor : List (Look Raw) → Gauges → Gauges
  unfolding update_gauges
  run_monitor [] g = g
  run_monitor (k ∷ ks) g = run_monitor ks (update_gauges (stats k.fails k.now k.db) g)

  run_monitor-append :
      (ks more : List (Look Raw)) (g : Gauges)
      → run_monitor (ks ++ more) g ≡ run_monitor more (run_monitor ks g)
  unfolding run_monitor
  run_monitor-append [] more g = refl
  run_monitor-append (k ∷ ks) more g = run_monitor-append ks more _

  run_monitor-silent :
      (ks : List (Look Raw)) (g : Gauges) → All (λ k. k.fails ≡ true) ks → run_monitor ks g ≡ g
  unfolding run_monitor stats
  run_monitor-silent [] g h = refl
  run_monitor-silent (k ∷ ks) g h = rw h.0 (run_monitor-silent ks g h.1)

  -- After an update whose query succeeds, whatever was before and however many queries fail after it,
  -- the gauge shows the number of rows that the buffer had then.
  run_monitor-rows :
      (before after : List (Look Raw)) (k : Look Raw) (g : Gauges)
      → k.fails ≡ false
      → All (λ j. j.fails ≡ true) after
      → (run_monitor (before ++ (k ∷ after)) g).pending_count ≡ length k.db.rows
  unfolding run_monitor stats
  run_monitor-rows before after k g works silent =
      rw run_monitor-append (rw (works, run_monitor-silent after _ silent) refl)
