-- ===== src/Server/State.antt =====
-- The single writes to the server's objects, each the assignments that the code makes together.
use fujinet_intv_basketball.Base.{
  ℕ, suc, Bool, true, false, not, ◌||◌, Option, none, List, [], ◌∷◌, ◌++◌, Bytes, length, take,
  drop, is_empty, keep, remove, ◌==◌, if◌then◌else◌,
}
use mathlib.Core.Option
use fujinet_intv_basketball.Publisher.{Publisher, update}
use fujinet_intv_basketball.Server.Types.{Client, Room, Stats, State}

abbrev pub modify : ℕ → (Client → Client) → State → State
modify c f s = record s { heap = λ k. if k == c then f (s.heap k) else s.heap k }

abbrev pub modify_room : ℕ → (Room → Room) → State → State
modify_room r f s = record s { rooms = λ k. if k == r then f (s.rooms k) else s.rooms k }

-- A call of the system is made.
unfoldable pub advance : State → State
advance s = record s { clock = suc s.clock }

-- `self.lobby.update(len(self.by_name))`, where there is a publisher
unfoldable pub lobby_update : State → State
lobby_update s = record s { lobby = Option.map (update (length s.by_name)) s.lobby }

-- `client.tx += data`
unfoldable pub queue : ℕ → Bytes → State → State
queue c bytes = modify c λ k. record k { tx = k.tx ++ bytes }

-- `del client.tx[:n]`, after the socket took those bytes
unfoldable pub take_tx : ℕ → ℕ → State → State
take_tx c n = modify c λ k. record k { tx = drop n k.tx; wire = k.wire ++ take n k.tx }

-- `_update_events`: a client that is unregistered stays so (`KeyError`).
unfoldable pub update_events : ℕ → State → State
update_events c = modify c λ k. record k { watch = Option.map (λ _. not (is_empty k.tx)) k.watch }

abbrev pub has_alias : ℕ → List (Bytes × ℕ) → Bool
has_alias c [] = false
has_alias c ((_, d) ∷ names) = d == c || has_alias c names

-- Every alias of a client goes, and the publisher hears of it if there was one.
unfoldable pub unalias : ℕ → State → State
unfolding lobby_update
unalias c s =
    if has_alias c s.by_name
    then lobby_update (record s { by_name = keep (λ e. not (e.1 == c)) s.by_name })
    else s

-- The first half of `drop`: the client is dead, unregistered, closed and in no table.
unfoldable pub retire : ℕ → State → State
unfolding unalias
retire c s = unalias c (
    modify c (λ k. record k { dead = true; watch = none; closed = true })
      (record s { clients = remove c s.clients }))

-- `client.room = None` and `room.members.remove(client)`
unfoldable pub detach : ℕ → ℕ → State → State
detach c r s =
    modify_room r (λ room. record room { members = remove c room.members })
      (modify c (λ k. record k { room = none }) s)

-- `for m in list(room.members): m.room = None`
unfoldable pub free_all : List ℕ → State → State
free_all [] s = s
free_all (m ∷ ms) s = free_all ms (modify m (λ k. record k { room = none }) s)

-- `room.members.clear()`
unfoldable pub clear_members : ℕ → State → State
clear_members r = modify_room r λ room. record room { members = [] }

unfoldable pub count_backlog_drop : State → State
count_backlog_drop s = record s {
  stats = record (s.stats) { tx_backlog_drops = suc s.stats.tx_backlog_drops };
}

-- What a reference that was never handed out points to.
abbrev pub no_client : Client
no_client = record {
  host = 0;
  port = 0;
  rx = [];
  tx = [];
  wire = [];
  name = none;
  room = none;
  connected_at = 0;
  dead = true;
  watch = none;
  closed = true;
}

abbrev pub no_room : Room
no_room = record { members = []; started = false; seed = 0; crc = []; crc_ok = 0 }

abbrev pub no_stats : Stats
no_stats = record {
  tx_backlog_drops = 0;
  hello_timeouts = 0;
  connection_limit_rejections = 0;
  lobby_publish_failures = 0;
}

-- `Server.__init__`
unfoldable pub create : ℕ → Option Publisher → ℕ → State
create delay lobby auto_go = record {
  heap = λ _. no_client;
  rooms = λ _. no_room;
  next_client = 0;
  next_room = 0;
  clock = 0;
  clients = [];
  by_name = [];
  lobby = lobby;
  stats = no_stats;
  last_stats = no_stats;
  delay = delay;
  auto_go = auto_go;
  log = [];
}
