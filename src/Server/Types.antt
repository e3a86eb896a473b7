-- ===== src/Server/Types.antt =====
-- server/intv_relay_server.py: the objects of the server. Clients and rooms are shared and mutable,
-- so a reference is a number into a heap.
use fujinet_intv_basketball.Base.{ℕ, Bool, Option, List, Bytes}
use fujinet_intv_basketball.Publisher.{Publisher}

-- Room capacity, `MAX_SEATS`.
abbrev pub max_seats : ℕ
max_seats = 2

-- Roster slots on the wire, `ROSTER_SLOTS`.
abbrev pub roster_slots : ℕ
roster_slots = 4

abbrev pub proto_ver : ℕ
proto_ver = 2

abbrev pub max_tx_backlog : ℕ
max_tx_backlog = 65536

abbrev pub max_clients : ℕ
max_clients = 64

abbrev pub max_connections_per_ip : ℕ
max_connections_per_ip = 8

-- In seconds, as every time here.
abbrev pub hello_timeout : ℕ
hello_timeout = 60

-- `host` and `port` are `addr`. `wire` is every byte that `sock.send` has taken. `watch` is the
-- selector's registration: `none` is unregistered, and `some w` asks for EVENT_READ, and for
-- EVENT_WRITE when `w` holds. `closed` is the state of the socket.
pub record Client : Type 0 where
  pub host : ℕ
  pub port : ℕ
  pub rx : Bytes
  pub tx : Bytes
  pub wire : Bytes
  pub name : Option Bytes
  pub room : Option ℕ
  pub connected_at : ℕ
  pub dead : Bool
  pub watch : Option Bool
  pub closed : Bool

-- `crc` maps a tick to the checksum that each seat reported for it.
pub record Room : Type 0 where
  pub members : List ℕ
  pub started : Bool
  pub seed : ℕ
  pub crc : List (ℕ × List (ℕ × ℕ))
  pub crc_ok : ℕ

pub record Stats : Type 0 where
  pub tx_backlog_drops : ℕ
  pub hello_timeouts : ℕ
  pub connection_limit_rejections : ℕ
  pub lobby_publish_failures : ℕ

-- The log lines that report a checksum round.
pub data LogLine : Type 0 where
  crc_mismatch : ℕ → List (ℕ × ℕ) → LogLine
  crc_through : ℕ → ℕ → LogLine

-- The server with its heaps. `clock` counts the calls of the system, each of which may answer
-- differently from the last.
pub record State : Type 0 where
  pub heap : ℕ → Client
  pub rooms : ℕ → Room
  pub next_client : ℕ
  pub next_room : ℕ
  pub clock : ℕ
  pub clients : List ℕ
  pub by_name : List (Bytes × ℕ)
  pub lobby : Option Publisher
  pub stats : Stats
  pub last_stats : Stats
  pub delay : ℕ
  pub auto_go : ℕ
  pub log : List LogLine

-- What `sock.send` does: it takes some bytes, raises `BlockingIOError`, or raises another `OSError`.
pub data SendResult : Type 0 where
  accepted : ℕ → SendResult
  blocked : SendResult
  failed : SendResult

-- What `sock.recv` does, in the same way.
pub data RecvResult : Type 0 where
  received : Bytes → RecvResult
  would_block : RecvResult
  broken : RecvResult

-- The operating system and the random module: the answer of `sock.send` by the clock, the client and
-- the bytes offered, and of `random.randrange(1, 0x10000)` by the clock.
pub record System : Type 0 where
  pub sock_send : ℕ → ℕ → Bytes → SendResult
  pub randrange : ℕ → ℕ
