-- ===== src/Publisher/Connections/Defaults.antt =====
-- What `New` makes of the settings.
use listener_go.Prelude.{◌≤◌, ℤ, pos, negsuc, ltb_ℤ, leb_ℤ, ◌≡◌, ◌≢◌, refl, if-cases, true, arith}
use listener_go.Publisher.Connections.{Settings, or_default, half, with_defaults}

abbrev pub IsPositive : ℤ → Type 0
IsPositive v = ltb_ℤ (pos 0) v ≡ true

or_default-IsPositive : (standard v : ℤ) → IsPositive standard → IsPositive (or_default standard v)
or_default-IsPositive standard (pos n) h = ground arith
or_default-IsPositive standard (negsuc n) h = ground arith

half-IsPositive : (v : ℤ) → IsPositive v → v ≢ pos 1 → IsPositive (half v)
half-IsPositive (pos n) h ne = let more : 2 ≤ n = ground arith in ground arith
half-IsPositive (negsuc n) h ne = h

-- `New` leaves all five settings positive, unless the read timeout is one nanosecond, of which the
-- default ping interval is half.
with_defaults-IsPositive :
    (cfg : Settings)
    → cfg.read_timeout ≢ pos 1
    → IsPositive (with_defaults cfg).write_timeout
      × IsPositive (with_defaults cfg).read_timeout
      × IsPositive (with_defaults cfg).ping_interval
      × IsPositive (with_defaults cfg).ack_timeout
      × IsPositive (with_defaults cfg).max_in_flight
unfolding with_defaults
with_defaults-IsPositive cfg ne =
    let standard : ℤ = pos 60000000000 in
    let read : IsPositive (or_default standard cfg.read_timeout) =
      or_default-IsPositive standard cfg.read_timeout refl in
    (
      or_default-IsPositive (pos 10000000000) cfg.write_timeout refl,
      read,
      or_default-IsPositive (half (or_default standard cfg.read_timeout)) cfg.ping_interval (
          half-IsPositive (or_default standard cfg.read_timeout) read (
            if-cases (λ (v : ℤ). v ≢ pos 1) (leb_ℤ cfg.read_timeout (pos 0))
              (λ unset same. absurd (ground arith)) (λ set. ne))),
      or_default-IsPositive (pos 30000000000) cfg.ack_timeout refl,
      or_default-IsPositive (pos 100) cfg.max_in_flight refl,
    )
