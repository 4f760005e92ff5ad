-- ===== src/Publisher/Connections/Delays.antt =====
-- How long `Run` waits between two dials.
use listener_go.Prelude.{
  ◌*◌, ◌≤◌, ◌≤ℤ◌, ℤ, pos, negsuc, pos_part, ltb_ℤ, ◌≡◌, inl, inr, Bool-cases, if◌then◌else◌, Bool,
  true, false, List, [], ◌∷◌, All, arith,
}
use Prim.Native.Nat.{max}
use listener_go.Publisher.Connections.{
  Attempt, ctx_over, dial_failed, dialed, Running, after_drain, attempt, unless_over, attempts,
  run_publisher, next_backoff,
}

-- The random factor is at most 1.2 and not negative.
abbrev pub IsJittered : {C : Type 0} → Attempt C → Type 0
IsJittered (dial_failed slept jitter) = (d : ℤ) → pos_part (jitter d) * 10 ≤ pos_part d * 12
IsJittered a = Unit

capped-le :
    (jitter : ℤ → ℤ) (d : ℤ)
    → ((n : ℤ) → pos_part (jitter n) * 10 ≤ pos_part n * 12)
    → pos_part (if ltb_ℤ (pos 60000) d then jitter (pos 60000) else jitter d) ≤ 72000
capped-le jitter d h = elim (Bool-cases (ltb_ℤ (pos 60000) d)) [
  | inl long ↦ let le = h (pos 60000) in rw long (omega (arith, le))
  | inr short ↦ let le = h d in rw short (within jitter d le short)
]
  where
    within :
        (jitter : ℤ → ℤ) (d : ℤ)
        → pos_part (jitter d) * 10 ≤ pos_part d * 12
        → ltb_ℤ (pos 60000) d ≡ false
        → pos_part (jitter d) ≤ 72000
    within jitter (pos n) le short = ground arith
    within jitter (negsuc n) le short = omega arith

next_backoff-le :
    (jitter : ℤ → ℤ) (d : ℤ)
    → ((n : ℤ) → pos_part (jitter n) * 10 ≤ pos_part n * 12)
    → pos_part (next_backoff jitter d) ≤ 72000
unfolding next_backoff
next_backoff-le jitter d h = capped-le jitter _ h

module _ {C S : Type 0} (reconnect_interval_ms : ℤ) (drain : C → S → Bool × S) where
  abbrev Bounded : Bool × Running S → Type 0
  Bounded x = pos_part x.1.delay_ms ≤ max (pos_part reconnect_interval_ms) 72000

  attempt-Bounded :
      (a : Attempt C) (r : Running S)
      → IsJittered a
      → Bounded (false, r)
      → Bounded (attempt reconnect_interval_ms drain a r)
  unfolding attempt after_drain
  attempt-Bounded ctx_over r h b = b
  attempt-Bounded (dial_failed true jitter) r h b =
      omega (arith, next_backoff-le jitter r.delay_ms h)
  attempt-Bounded (dial_failed false jitter) r h b = b
  attempt-Bounded (dialed c) r h b = omega arith

  unless_over-Bounded :
      (next : Running S → Bool × Running S) (x : Bool × Running S)
      → Bounded x
      → ((r : Running S) → Bounded (false, r) → Bounded (next r))
      → Bounded (unless_over reconnect_interval_ms drain next x)
  unfolding unless_over
  unless_over-Bounded next (true, r) b h = b
  unless_over-Bounded next (false, r) b h = h r b

  attempts-Bounded :
      (turns : List (Attempt C)) (r : Running S)
      → All IsJittered turns
      → Bounded (false, r)
      → Bounded (attempts reconnect_interval_ms drain turns r)
  unfolding attempts
  attempts-Bounded [] r h b = b
  attempts-Bounded (a ∷ turns) r h b =
      unless_over-Bounded (attempts reconnect_interval_ms drain turns) _ (attempt-Bounded a r h.0 b)
        (λ r' b'. attempts-Bounded turns r' h.1 b')

  -- The wait before the next dial never exceeds the larger of `reconnect_interval_ms` and 72
  -- seconds, for every sequence of dials and connections, where the random factor is at most 1.2 and
  -- not negative.
  pub run_publisher-Bounded :
      (turns : List (Attempt C)) (s : S)
      → All IsJittered turns
      → (run_publisher reconnect_interval_ms drain turns s).1.delay_ms
        ≤ℤ pos (max (pos_part reconnect_interval_ms) 72000)
  unfolding run_publisher
  run_publisher-Bounded turns s h =
      let bounded =
        attempts-Bounded turns
          (record { store = s; consecutive_failures = 0; delay_ms = reconnect_interval_ms }) h
          (omega arith) in
      omega (arith, bounded)
