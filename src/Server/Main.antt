-- ===== src/Server/Main.antt =====
-- server/intv_relay_server.py: `main`. Of the options, those that the event loop depends on; the
-- others are strings and numbers handed to the system. The thread of the publisher changes neither
-- its payload nor the flag that it is stopping, so the run has the publisher's state without it.
use fujinet_intv_basketball.Base.{ℕ, Bool, false, Option, none, some, List, if◌then◌else◌}
use mathlib.Core.Option
use fujinet_intv_basketball.Publisher
use fujinet_intv_basketball.Publisher.{Payload, Publisher, update}
use fujinet_intv_basketball.Publisher.Worker.{Worker, serving, World, on_shutdown}
use fujinet_intv_basketball.Server.Types.{State, System}
use fujinet_intv_basketball.Server.State.{create}
use fujinet_intv_basketball.Server.Loop.{Event, run}

pub record Options : Type 0 where
  pub delay : ℕ
  pub auto_go : ℕ
  pub lobby_enabled : Bool

-- The defaults, with `DEFAULT_DELAY`
abbrev pub default_options : Options
default_options = record { delay = 3; auto_go = 0; lobby_enabled = false }

-- `lobby`, which is told of no players before the server is made
unfoldable pub publisher_of : Options → Option Publisher
publisher_of o = if o.lobby_enabled then some (update 0 Publisher.create) else none

-- The server while `Server.run` is under way, after these events.
unfoldable pub serve_with : System → Options → List Event → State
unfolding publisher_of
serve_with sys o es = run sys es (create o.delay (publisher_of o) o.auto_go)

-- How the program ends: `run` raises, as it does on SIGINT, or the process is killed, as it is by
-- SIGTERM, for which the program has no handler.
pub data Ending : Type 0 where
  raised : Ending
  killed : Ending

-- `finally`, which only a raise reaches: the publisher is shut down, if there is one. The worker and
-- the requests that it has made are what its thread has come to.
unfoldable pub finish : Ending → Worker → List Payload → State → Option World
finish raised worker attempts s =
    Option.map
      (λ p.
        on_shutdown serving
          (record { publisher = p; worker = worker; closing = serving; attempts = attempts }))
      s.lobby
finish killed worker attempts s = none
