-- ===== src/Publisher/Tests.antt =====
-- The worker on concrete interleavings.
use fujinet_intv_basketball.Base.{◌≡◌, refl, some, true, false, List, [], ◌∷◌}
use fujinet_intv_basketball.Publisher.{Payload, create, update}
use fujinet_intv_basketball.Publisher.Worker.{
  Event, updated, wake, worker_posted, resume, shutdown, joined, shutdown_posted, settle_post,
  on_wake, on_worker_posted, on_resume, on_shutdown, on_joined, on_shutdown_posted, step, run,
  launch,
}
use fujinet_intv_basketball.Publisher.Fresh.{latest, run_fresh}
use fujinet_intv_basketball.Publisher.Offline.{EndsOffline, run-EndsOffline}

-- One player is published, then the server shuts down.
abbrev evening : List Event
evening =
    updated 1
    ∷ wake
    ∷ worker_posted true
    ∷ resume
    ∷ shutdown
    ∷ wake
    ∷ joined
    ∷ shutdown_posted false
    ∷ []

run-EndsOffline_example : EndsOffline (run evening launch).attempts
unfolding run step update on_wake on_worker_posted on_resume on_shutdown on_joined
    on_shutdown_posted settle_post launch create
run-EndsOffline_example = run-EndsOffline evening refl refl

-- The server shuts down while the worker is in the request of two players.
abbrev busy : List Event
busy = updated 2 ∷ wake ∷ shutdown ∷ []

abbrev two_online : Payload
two_online = record { online = true; curplayers = 2 }

abbrev two_offline : Payload
two_offline = record { online = false; curplayers = 2 }

run_fresh_example :
    latest (run (updated 1 ∷ wake ∷ []) launch).worker (run (updated 1 ∷ wake ∷ []) launch).attempts
    ≡ some (run (updated 1 ∷ wake ∷ []) launch).publisher.payload
unfolding run step update on_wake launch create
run_fresh_example = run_fresh 1 (wake ∷ []) refl refl
