-- ===== src/Server/Seating.antt =====
-- The invariant of the server's heaps over whole runs.
use fujinet_intv_basketball.Base.{ℕ, Option, List}
use fujinet_intv_basketball.Publisher.{Publisher}
use fujinet_intv_basketball.Server.Types.{State, System}
use fujinet_intv_basketball.Server.State.{create}
use fujinet_intv_basketball.Server.Loop.{Event, run}
use fujinet_intv_basketball.Server.Sound.{Sound, create-Sound}
use fujinet_intv_basketball.Server.Frames.{any_frames}
use fujinet_intv_basketball.Server.Keeps.{Keeps}
use fujinet_intv_basketball.Server.Serves.{Serves}
use fujinet_intv_basketball.Server.Runs.{run-Ok, any_events}

abbrev Anything : State → Type 0
Anything s = Unit {0}

Anything-Keeps : Keeps Anything
Anything-Keeps = record {
  frames = any_frames;
  on_advance = λ s p. tt;
  on_lobby_update = λ s p. tt;
  on_backlog_drop = λ s p. tt;
  on_queue = λ c t p s l fits h ok q. tt;
  on_take = λ c n s l p. tt;
  on_events = λ c s l p. tt;
  on_retire = λ c s l p. tt;
  on_detach = λ c r s p. tt;
  on_free = λ m s p. tt;
  on_clear = λ r s p. tt;
}

pub Anything-Serves : {sys : System} → Serves sys (λ b. Unit {0}) Anything
Anything-Serves = record {
  handles = record {
    keeps = Anything-Keeps;
    on_rename = λ c name s p. tt;
    on_open = λ target s p. tt;
    on_seat = λ c r s p. tt;
    on_begin = λ r seed s p. tt;
    on_log_crc = λ r p s q. tt;
  };
  on_push_rx = λ c b s ok p. tt;
  on_set_rx = λ c ty p b s e q. tt;
  on_admit = λ host port now s below few p. tt;
  on_reject = λ s p. tt;
  on_hello_timeout = λ s p. tt;
  on_log_stats = λ s p. tt;
}

-- After every run of events from a new server, whatever the sockets do: no room has more than two
-- members or lists one twice, a client that is in a room is on that room's list, all others on that
-- list are in the same room, and a client that is not dead is in the server's set. So the seats of
-- a room that any client is in are exactly the clients that are in it, each in one seat. And the dict
-- of names lists no name twice, every name in it leads to a client of that name, and the name of a
-- client that is not dead leads to it. So no two clients that are not dead have the same name. Every
-- name has two to eight letters A to Z and digits.
pub run-Sound :
    (sys : System) (es : List Event) (delay : ℕ) (lobby : Option Publisher) (auto_go : ℕ)
    → Sound (run sys es (create delay lobby auto_go))
run-Sound sys es delay lobby auto_go =
    (run-Ok sys Anything-Serves es (create delay lobby auto_go) (any_events es)
      (record { sound = create-Sound delay lobby auto_go; kept = tt })).sound
