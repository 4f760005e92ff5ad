-- ===== src/Startup/Tickers.antt =====
-- Which settings make the program panic, because a ticker wants a positive duration.
use listener_go.Prelude.{
  ◌<◌, ℤ, pos, negsuc, pos_part, neg_part, leb_ℤ, ◌≤ℤ◌, to_int64, to_uint64, Bool, true, false,
  ◌++◌, ◌≡◌, ◌↔◌, ◌⊎◌, inl, inr, refl, ◌∙◌, Option, none, some, List, if◌then◌else◌, if-cases,
  Bool-cases, arith,
}
use listener_go.Decryption.{Decryptor}
use listener_go.Settings.{Config}
use listener_go.Publisher.Connections.{with_defaults, or_default}
use listener_go.Startup.{
  times, milliseconds, seconds, AuditSetup, publisher_config, audit_setup, wire, third_of,
  ack_tickers, publisher_tickers, audit_tickers, background_tickers, monitor_ticker, tickers,
  any_panics,
}

-- A number of seconds that is a duration.
abbrev pub IsDuration : ℤ → Type 0
IsDuration n = (pos_part n < 9223372036) × (neg_part n < 9223372036)

seconds-positive : (n : ℤ) → IsDuration n → leb_ℤ (seconds n) (pos 0) ≡ leb_ℤ n (pos 0)
unfolding times to_int64 to_uint64
seconds-positive (pos n) h = ground arith
seconds-positive (negsuc n) h = ground arith

milliseconds-positive : (n : ℤ) → IsDuration n → leb_ℤ (milliseconds n) (pos 0) ≡ leb_ℤ n (pos 0)
unfolding times to_int64 to_uint64
milliseconds-positive (pos n) h = ground arith
milliseconds-positive (negsuc n) h = ground arith

-- A duration of whole milliseconds, the overflow included, is no positive number below 64.
milliseconds-third :
    (n : ℤ)
    → leb_ℤ (milliseconds n) (pos 0) ≡ false
    → leb_ℤ (third_of (milliseconds n)) (pos 0) ≡ false
unfolding times to_int64
milliseconds-third n h = ground arith

ack_ticker-positive :
    (n : ℤ) → leb_ℤ (third_of (or_default (pos 30000000000) (milliseconds n))) (pos 0) ≡ false
ack_ticker-positive n =
    let e = milliseconds-third n in
    if-cases (λ (d : ℤ). leb_ℤ (third_of d) (pos 0) ≡ false) (leb_ℤ (milliseconds n) (pos 0))
      (λ t. refl) (λ f. e f)

ack_tickers-positive :
    (b : Bool) (n : ℤ) (more : List ℤ)
    → any_panics (ack_tickers b (or_default (pos 30000000000) (milliseconds n)) ++ more)
      ≡ any_panics more
unfolding ack_tickers any_panics
ack_tickers-positive false n more = refl
ack_tickers-positive true n more = rw (ack_ticker-positive n) refl

-- The publisher never panics at its tickers.
publisher_tickers-positive :
    (cfg : Config) (more : List ℤ)
    → any_panics (publisher_tickers (publisher_config cfg) ++ more) ≡ any_panics more
unfolding publisher_tickers publisher_config with_defaults any_panics times to_int64 to_uint64
publisher_tickers-positive cfg more =
    ack_tickers-positive cfg.publisher_require_ack cfg.publisher_ack_timeout_ms more

monitor_ticker-positive : (n : ℤ) → IsDuration n → leb_ℤ (monitor_ticker n) (pos 0) ≡ false
unfolding monitor_ticker
monitor_ticker-positive n h = elim (Bool-cases (leb_ℤ n (pos 0))) [
  | inl t ↦ rw t (seconds-positive (pos 15) (omega arith))
  | inr f ↦ rw f (seconds-positive n h ∙ f)
]

background-panics :
    (manager stats : ℤ) (enabled : Bool) (a : AuditSetup)
    → IsDuration manager
    → IsDuration stats
    → IsDuration a.interval_seconds
    → (any_panics (background_tickers manager stats (if enabled then some a else none)) ≡ true)
      ↔ ((manager ≤ℤ pos 0) ⊎ ((enabled ≡ true) × (a.interval_seconds ≤ℤ pos 0)))
unfolding background_tickers audit_tickers any_panics
background-panics manager stats false a m s h =
    rw (milliseconds-positive manager m, monitor_ticker-positive stats s)
      (λ p. inl (ground arith), λ q. elim q [ inl le ↦ ground arith | inr (e, le) ↦ cc ])
background-panics manager stats true a m s h =
    rw
      (
        milliseconds-positive manager m,
        monitor_ticker-positive stats s,
        seconds-positive a.interval_seconds h,
      )
      (λ p. ground arith, λ q. elim q [ inl le ↦ ground arith | inr (e, le) ↦ ground arith ])

-- Whatever the other settings are, and with the intervals of the audit, the buffer monitor and the
-- supervisor in the range of durations: a ticker of run panics exactly if
-- MANAGER_POLL_INTERVAL_MS is not positive, or the audit is enabled and AUDIT_INTERVAL_S is not positive.
pub tickers-any_panics :
    (cfg : Config) (kcp : Option ℤ) (d : Decryptor)
    → IsDuration cfg.manager_poll_interval_ms
    → IsDuration cfg.buffer_stats_interval_s
    → IsDuration cfg.audit_interval_s
    → (any_panics (tickers (wire cfg kcp d)) ≡ true) ↔ (
        (cfg.manager_poll_interval_ms ≤ℤ pos 0)
        ⊎ ((cfg.audit_enabled ≡ true) × (cfg.audit_interval_s ≤ℤ pos 0)))
unfolding tickers wire audit_setup
tickers-any_panics cfg kcp d manager stats audit =
    rw
      (publisher_tickers-positive cfg (
        background_tickers cfg.manager_poll_interval_ms cfg.buffer_stats_interval_s
          (if cfg.audit_enabled then some (audit_setup cfg) else none)))
      (background-panics cfg.manager_poll_interval_ms cfg.buffer_stats_interval_s cfg.audit_enabled
        (audit_setup cfg) manager stats audit)
