-- ===== src/Notify/Waits.antt =====
-- The waits and the signals in closed form.
use mathlib.Core.Path.{subst}
use mathlib.Core.List.{append_assoc, append-nil}
use native.Mathlib.Numerals.{unary_clauses}
use listener_go.Prelude.{
  ℕ, zero, suc, ◌+◌, ◌-◌, ◌*◌, ◌^◌, ltb, ◌≡◌, refl, ap, ◌∙◌, Bool, true, false, List, [], ◌∷◌, ◌++◌,
  if◌then◌else◌, arith,
}
use listener_go.Notify.{
  initial_backoff, max_backoff, NotifyEvent, notified, taken, connection_lost, cancelled, Listening,
  next_wait, signal, notify_step, run_listener, start_listening,
}

-- What happens before the context ends.
abbrev pub until_cancelled : List NotifyEvent → List NotifyEvent
until_cancelled [] = []
until_cancelled (cancelled ∷ es) = []
until_cancelled (e ∷ es) = e ∷ until_cancelled es

abbrev pub losses : List NotifyEvent → ℕ
losses [] = 0
losses (connection_lost ∷ es) = suc (losses es)
losses (e ∷ es) = losses es

-- Whether there was a notification since the publisher last took the signal.
abbrev pub unread : Bool → List NotifyEvent → Bool
unread b [] = b
unread b (notified ∷ es) = unread true es
unread b (taken ∷ es) = unread false es
unread b (e ∷ es) = unread b es

abbrev pub capped : ℕ → ℕ
capped n = if ltb n max_backoff then n else max_backoff

-- The wait after `n` lost connections, and the first `n` waits from the `i`th on.
abbrev pub wait_of : ℕ → ℕ
wait_of i = capped (initial_backoff * 2 ^ i)

abbrev pub waits_from : ℕ → ℕ → List ℕ
waits_from i zero = []
waits_from i (suc n) = wait_of i ∷ waits_from (suc i) n

next_wait-capped : (n : ℕ) → next_wait (capped n) ≡ capped (n * 2)
unfolding next_wait
next_wait-capped n = ground arith

twice : (i : ℕ) → initial_backoff * 2 ^ i * 2 ≡ initial_backoff * 2 ^ suc i
twice i = simp unary_clauses (omega arith)

next_wait-wait_of : (i : ℕ) → next_wait (wait_of i) ≡ wait_of (suc i)
next_wait-wait_of i = next_wait-capped (initial_backoff * 2 ^ i) ∙ ap capped (twice i)

abbrev pub pending_of : Bool → ℕ
pending_of b = if b then 1 else 0

-- The state after `i` lost connections, of which the waits are in `ws`.
abbrev pub listening : ℕ → Bool → List ℕ → Listening
listening i b ws = record { backoff = wait_of i; pending = pending_of b; waits = ws }

signal-pending : (b : Bool) → signal (pending_of b) ≡ 1
unfolding signal
signal-pending true = refl
signal-pending false = refl

taken-pending : (b : Bool) → pending_of b - 1 ≡ 0
taken-pending true = omega arith
taken-pending false = omega arith

nothing_more : (i : ℕ) (b : Bool) (ws : List ℕ) → listening i b ws ≡ listening (i + 0) b (ws ++ [])
nothing_more i b ws = let e : i + 0 ≡ i = omega arith in rw (append-nil ws, e) refl

run_listener-listening :
    (es : List NotifyEvent) (i : ℕ) (b : Bool) (ws : List ℕ)
    → let before = until_cancelled es in
      run_listener es (listening i b ws)
      ≡ listening (i + losses before) (unread b before) (ws ++ waits_from i (losses before))
unfolding run_listener notify_step
run_listener-listening [] i b ws = nothing_more i b ws
run_listener-listening (notified ∷ es) i b ws =
    rw (signal-pending b) (run_listener-listening es i true ws)
run_listener-listening (taken ∷ es) i b ws =
    rw (taken-pending b) (run_listener-listening es i false ws)
run_listener-listening (connection_lost ∷ es) i b ws =
    let n = losses (until_cancelled es) in
    let count : suc i + n ≡ i + suc n = omega arith in
    rw (next_wait-wait_of i, ← count, ← append_assoc ws (wait_of i ∷ []) (waits_from (suc i) n))
      (run_listener-listening es (suc i) b (ws ++ wait_of i ∷ []))
run_listener-listening (cancelled ∷ es) i b ws = nothing_more i b ws

-- Run from its start, for every sequence of notifications, lost connections and receipts of the
-- publisher: before the context ends, the waits after lost connections are 1 s, 2 s, 4 s, 8 s and
-- 16 s, and 30 s from the sixth on; and the channel holds one signal if a notification came
-- since the publisher last took one, and none otherwise.
pub run_listener-waits :
    (es : List NotifyEvent)
    → run_listener es start_listening
      ≡ listening
          (losses (until_cancelled es))
          (unread false (until_cancelled es))
          (waits_from 0 (losses (until_cancelled es)))
run_listener-waits es =
    let n = losses (until_cancelled es) in
    let count : 0 + n ≡ n = omega arith in
    let from_0 = run_listener-listening es 0 false [] in
    subst
      (λ (k : ℕ).
        run_listener es start_listening
        ≡ listening k (unread false (until_cancelled es)) (waits_from 0 n))
      count from_0
