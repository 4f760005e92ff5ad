-- ===== src/Health.antt =====
-- internal/httpserver/server.go and readyMarkingSource of cmd/listener/main.go: when the program says
-- that it is alive and ready.
pub mod Ready
pub mod Serves
use listener_go.Prelude.{
  ℕ, suc, Text, codes, Bool, true, false, Option, none, some, [], ◌∷◌, ◌++◌, Result, ok, err,
  if◌then◌else◌,
}

-- The flag of the server, the sync.Once, and how often MarkReady was called.
pub record Health : Type 0 where
  pub ready : Bool
  pub once_done : Bool
  pub marks : ℕ

abbrev pub not_started : Health
not_started = record { ready = false; once_done = false; marks = 0 }

abbrev pub mark_ready : Health → Health
mark_ready h = record h { ready = true; marks = suc h.marks }

-- once.Do(onFirst)
unfoldable pub do_once : Health → Health
do_once h = if h.once_done then h else record (mark_ready h) { once_done = true }

unfoldable pub ready_marking : {E A : Type 0} → Result E A → Health → Result E A × Health
ready_marking (ok out) h = (ok out, do_once h)
ready_marking (err e) h = (err e, h)

-- The status and the body of an answer.
abbrev pub Reply : Type 0
Reply = ℕ × Text

abbrev pub healthz : Health → Reply
healthz h = (200, codes "ok")

-- `ping` is the text of the error of Ping. http.Error ends the body with a line feed.
abbrev pub after_ping : Option Text → Reply
after_ping none = (200, codes "ready")
after_ping (some e) = (503, codes "db ping failed: " ++ e ++ 10 ∷ [])

unfoldable pub readyz : Option Text → Health → Reply
readyz ping h =
    if h.ready
    then after_ping ping
    else (503, codes "not ready: initial reconcile not done" ++ 10 ∷ [])
