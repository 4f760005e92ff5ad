-- ===== src/Tests/Process.antt =====
-- The notification listener at a concrete input.
use listener_go.Prelude.{◌≡◌, false, List, [], ◌∷◌}
use listener_go.Notify.{
  NotifyEvent, notified, taken, connection_lost, cancelled, run_listener, start_listening,
}
use listener_go.Notify.Waits.{
  until_cancelled, losses, unread, waits_from, listening, run_listener-waits,
}

abbrev happened : List NotifyEvent
happened =
    notified ∷ connection_lost ∷ taken ∷ notified ∷ notified ∷ connection_lost ∷ cancelled
    ∷ notified ∷ []

run_listener-waits_example :
    run_listener happened start_listening
    ≡ listening
        (losses (until_cancelled happened))
        (unread false (until_cancelled happened))
        (waits_from 0 (losses (until_cancelled happened)))
run_listener-waits_example = run_listener-waits happened
