-- ===== src/Health/Ready.antt =====
-- What `/readyz` answers over the life of the program.
use listener_go.Prelude.{
  ◌≤◌, Text, codes, ◌≡◌, refl, Bool, true, false, Option, List, [], ◌∷◌, ◌++◌, Result, ok, err,
  if◌then◌else◌, arith,
}
use listener_go.Health.{Health, not_started, do_once, ready_marking, after_ping, readyz}

abbrev marked : Health
marked = record { ready = true; once_done = true; marks = 1 }

module _ {E A : Type 0} where
  -- The calls of ActiveChains, one after the other.
  pub after_calls : List (Result E A) → Health → Health
  after_calls [] h = h
  after_calls (r ∷ rs) h = after_calls rs (ready_marking r h).1

  abbrev pub has_success : List (Result E A) → Bool
  has_success [] = false
  has_success (ok a ∷ rs) = true
  has_success (err e ∷ rs) = has_success rs

  after_calls-marked : (rs : List (Result E A)) → after_calls rs marked ≡ marked
  unfolding after_calls ready_marking do_once
  after_calls-marked [] = refl
  after_calls-marked (ok a ∷ rs) = after_calls-marked rs
  after_calls-marked (err e ∷ rs) = after_calls-marked rs

  after_calls-not_started :
      (rs : List (Result E A))
      → after_calls rs not_started ≡ (if has_success rs then marked else not_started)
  unfolding after_calls ready_marking do_once
  after_calls-not_started [] = refl
  after_calls-not_started (ok a ∷ rs) = after_calls-marked rs
  after_calls-not_started (err e ∷ rs) = after_calls-not_started rs

  -- After any calls of ActiveChains: `/readyz` answers by the ping of the database exactly if one of
  -- the calls succeeded, and 503 otherwise; MarkReady was called once or never.
  readyz-after_calls :
      (rs : List (Result E A)) (ping : Option Text)
      → (readyz ping (after_calls rs not_started) ≡ (
          if has_success rs
          then after_ping ping
          else (503, codes "not ready: initial reconcile not done" ++ 10 ∷ [])))
        × ((after_calls rs not_started).marks ≤ 1)
  unfolding readyz
  readyz-after_calls rs ping = by_success (has_success rs) (after_calls-not_started rs)
    where
      by_success :
          (b : Bool)
          → after_calls rs not_started ≡ (if b then marked else not_started)
          → (readyz ping (after_calls rs not_started) ≡ (
              if b
              then after_ping ping
              else (503, codes "not ready: initial reconcile not done" ++ 10 ∷ [])))
            × ((after_calls rs not_started).marks ≤ 1)
      by_success true e = (rw e refl, rw e (omega arith))
      by_success false e = (rw e refl, rw e (omega arith))
