-- ===== src/Server/Bytewise.antt =====
-- Every byte that the server puts on the way to a client, and that it keeps of one, is below 256.
use fujinet_intv_basketball.Base.{IsByte, ℕ, ◌<◌, refl, Option, List, arith, All, All-replicate}
use fujinet_intv_basketball.Wire.{frame}
use fujinet_intv_basketball.Publisher.{Publisher}
use fujinet_intv_basketball.Server.Types.{System}
use fujinet_intv_basketball.Server.State.{
  create, advance, lobby_update, update_events, detach, clear_members, count_backlog_drop,
}
use fujinet_intv_basketball.Server.Handlers.{seat_in, start_common}
use fujinet_intv_basketball.Server.Loop.{reject, count_hello_timeout, log_stats, Event, run}
use fujinet_intv_basketball.Server.Sound.{create-Sound}
use fujinet_intv_basketball.Server.Sound.Leaving.{free}
use fujinet_intv_basketball.Server.Frames.{Frames}
use fujinet_intv_basketball.Server.Keeps.{Keeps}
use fujinet_intv_basketball.Server.Serves.{Handles, Serves}
use fujinet_intv_basketball.Server.Runs.{run-Ok, HearsEvent}
use fujinet_intv_basketball.Server.Composed.{named, rostered, listed}
use fujinet_intv_basketball.Server.Bytes.{
  Bytewise, Bytewise-still, FitsBytes, heard-FitsBytes, queue-Bytewise, take_tx-Bytewise,
  push_rx-Bytewise, set_rx-Bytewise, admit-Bytewise, retire-Bytewise, rename-Bytewise,
  log_crc-Bytewise, open_room-Bytewise, begin_match-Bytewise,
}

Bytewise-Frames : Frames Bytewise
unfolding start_common frame
Bytewise-Frames = record {
  Fits = FitsBytes;
  on_room = λ r s v b. (omega arith, (omega (arith, v.capacity r), rostered s v (s.rooms r)));
  on_empty = (omega arith, (omega arith, All-replicate IsByte 32 0 (omega arith)));
  on_left = λ c seat s low v b. (omega arith, (omega arith, named s v c));
  on_lobby = λ c s v b. (omega arith, listed s v c);
  on_start = λ r i s low v b. (
    omega arith,
    (
      omega (arith, v.capacity r),
      (
        omega (arith, v.capacity r),
        (omega arith, (omega (arith, b.drawn r), (b.slow, rostered s v (s.rooms r)))),
      ),
    ),
  );
  on_pong = (omega arith, tt);
  on_heard = λ c t p rest s e b. heard-FitsBytes t p rest (s.heap c).rx e (b.heard c);
}

Bytewise-Keeps : Keeps Bytewise
unfolding advance lobby_update count_backlog_drop update_events detach clear_members Bytewise-Frames
Bytewise-Keeps = record {
  frames = Bytewise-Frames;
  on_advance =
      λ s b. Bytewise-still s (advance s) b refl (λ r. refl) (λ e. refl) (λ e. refl) (λ e. refl);
  on_lobby_update = λ s b.
      Bytewise-still s (lobby_update s) b refl (λ r. refl) (λ e. refl) (λ e. refl) (λ e. refl);
  on_backlog_drop = λ s b.
      Bytewise-still s (count_backlog_drop s) b refl (λ r. refl) (λ e. refl) (λ e. refl)
        (λ e. refl);
  on_queue = λ c t p s alive fits short ok b. queue-Bytewise c t p s short ok b;
  on_take = λ c n s alive b. take_tx-Bytewise c n s b;
  on_events = λ c s alive b.
      Bytewise-still s (update_events c s) b refl (λ r. refl) (λ e. ground arith)
        (λ e. ground arith) (λ e. ground arith);
  on_retire = λ c s alive b. retire-Bytewise c s b;
  on_detach = λ c r s b.
      Bytewise-still s (detach c r s) b refl (λ q. ground arith) (λ e. ground arith)
        (λ e. ground arith) (λ e. ground arith);
  on_free = λ m s b.
      Bytewise-still s (free m s) b refl (λ q. refl) (λ e. ground arith) (λ e. ground arith)
        (λ e. ground arith);
  on_clear = λ r s b.
      Bytewise-still s (clear_members r s) b refl (λ q. ground arith) (λ e. refl) (λ e. refl)
        (λ e. refl);
}

-- `random.randrange(1, 0x10000)` keeps to its bound.
abbrev pub DrawsSeeds : System → Type 0
DrawsSeeds sys = (clock : ℕ) → sys.randrange clock < 65536

module _ (sys : System) (draws : DrawsSeeds sys) where
  Bytewise-Handles : Handles sys Bytewise
  unfolding seat_in
  Bytewise-Handles = record {
    keeps = Bytewise-Keeps;
    on_rename = rename-Bytewise;
    on_open = open_room-Bytewise;
    on_seat = λ c r s b.
        Bytewise-still s (seat_in c r s) b refl (λ q. ground arith) (λ e. ground arith)
          (λ e. ground arith) (λ e. ground arith);
    on_begin = λ r clock s b. begin_match-Bytewise r (sys.randrange clock) s (draws clock) b;
    on_log_crc = log_crc-Bytewise;
  }

  Bytewise-Serves : Serves sys (All IsByte) Bytewise
  unfolding reject count_hello_timeout log_stats
  Bytewise-Serves = record {
    handles = Bytewise-Handles;
    on_push_rx = push_rx-Bytewise;
    on_set_rx = set_rx-Bytewise;
    on_admit = λ host port now s below few b. admit-Bytewise host port now s b;
    on_reject =
        λ s b. Bytewise-still s (reject s) b refl (λ r. refl) (λ e. refl) (λ e. refl) (λ e. refl);
    on_hello_timeout = λ s b.
        Bytewise-still s (count_hello_timeout s) b refl (λ r. refl) (λ e. refl) (λ e. refl)
          (λ e. refl);
    on_log_stats = λ s b.
        Bytewise-still s (log_stats s) b refl (λ r. refl) (λ e. refl) (λ e. refl) (λ e. refl);
  }

  create-Bytewise :
      (delay : ℕ) (lobby : Option Publisher) (auto_go : ℕ)
      → delay < 256
      → Bytewise (create delay lobby auto_go)
  unfolding create
  create-Bytewise delay lobby auto_go slow = record {
    slow = slow;
    drawn = λ r. omega arith;
    heard = λ c. tt;
    queued = λ c. tt;
    taken = λ c. tt;
  }

  -- With a delay below 256 and seeds in their range, over every run of events from a new server that
  -- receives bytes, whatever the sockets do: all that is queued for a client and all that its socket
  -- was given is bytes. So no frame that the handlers and drops queue has a value of 256 or more.
  pub run-Bytewise :
      (es : List Event) (delay : ℕ) (lobby : Option Publisher) (auto_go : ℕ)
      → delay < 256
      → All (HearsEvent (All IsByte)) es
      → Bytewise (run sys es (create delay lobby auto_go))
  run-Bytewise es delay lobby auto_go slow heard =
      (run-Ok sys Bytewise-Serves es (create delay lobby auto_go) heard (record {
        sound = create-Sound delay lobby auto_go;
        kept = create-Bytewise delay lobby auto_go slow;
      })).kept
