-- ===== src/Health/Serves.antt =====
-- internal/httpserver/server.go: how Run ends.
use listener_go.Prelude.{codes, ◌≡◌, refl, Bool, false, Option, none, some, List, [], ◌∷◌, ok, inr}
use listener_go.Retry.{GoError, wrapped, other}
use listener_go.Startup.{
  ComponentEnd, returned, has_panic, Startup, Wiring, start_up, run, is_canceled, exit_code,
}
use listener_go.Startup.Exit.{has_panic-calm, exit_code-run}

-- What ListenAndServe returns: nil, http.ErrServerClosed, or another error.
pub data Served : Type 0 where
  no_error server_closed : Served
  listen_failed : GoError → Served

-- The case that the select takes: the end of the context, with its error and whether Shutdown fails,
-- or what the channel gives.
pub data ServerEnd : Type 0 where
  context_over : GoError → Bool → ServerEnd
  from_channel : Option GoError → ServerEnd

-- The goroutine sends the error, unless it says that the server was closed, and closes the channel.
unfoldable pub sent_error : Served → Option GoError
sent_error no_error = none
sent_error server_closed = none
sent_error (listen_failed e) = some e

-- An error of Shutdown is only logged. A closed channel gives nil, which %w prints as it stands here.
unfoldable pub run_server : ServerEnd → GoError
run_server (context_over ctx_err shutdown_fails) = ctx_err
run_server (from_channel none) = other (codes "http server: %!w(<nil>)")
run_server (from_channel (some e)) = wrapped (codes "http server: ") e

-- A server that cannot listen ends the program with 1, where its error is no end of a context, no
-- component has returned an error before and none panics.
listen_failed-exit_code :
    (s : Startup) (w : Wiring) (e : GoError) (ends : List ComponentEnd)
    → start_up s ≡ ok w
    → is_canceled e ≡ false
    → has_panic ends ≡ false
    → exit_code
        (run s (returned (some (run_server (from_channel (sent_error (listen_failed e))))) ∷ ends))
      ≡ 1
unfolding run_server sent_error is_canceled has_panic
listen_failed-exit_code s w e ends started fatal calm =
    let failed = wrapped (codes "http server: ") e in
    (exit_code-run s (returned (some failed) ∷ ends)).0.1 (
      inr (
        w,
        started,
        (([], failed, ends, refl, tt, fatal), has_panic-calm (returned (some failed) ∷ ends) calm),
      ))
