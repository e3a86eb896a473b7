-- ===== src/Server/Loop.antt =====
-- server/intv_relay_server.py: the event loop. `accept`, `service`, `sweep`, `log_stats` and the
-- passes of `run`, one event at a time.
use fujinet_intv_basketball.Base.{
  ℕ, zero, suc, ◌+◌, Bool, false, Option, none, some, List, [], ◌∷◌, ◌++◌, Bytes, length, ltb, leb,
  ◌==◌, if◌then◌else◌,
}
use fujinet_intv_basketball.Wire.{Next, wait, bad_length, next, next_frame}
use fujinet_intv_basketball.Server.Types.{
  Client, Stats, State, System, RecvResult, received, would_block, broken, max_clients,
  max_connections_per_ip, hello_timeout,
}
use fujinet_intv_basketball.Server.State.{modify}
use fujinet_intv_basketball.Server.Conn.{flush, drop_client}
use fujinet_intv_basketball.Server.Handlers.{handle}

-- `Client.__init__`
unfoldable pub new_client : ℕ → ℕ → ℕ → Client
new_client host port now = record {
  host = host;
  port = port;
  rx = [];
  tx = [];
  wire = [];
  name = none;
  room = none;
  connected_at = now;
  dead = false;
  watch = some false;
  closed = false;
}

unfoldable pub from_host : ℕ → List ℕ → State → ℕ
from_host host [] s = 0
from_host host (c ∷ cs) s =
    if (s.heap c).host == host then suc (from_host host cs s) else from_host host cs s

unfoldable pub reject : State → State
reject s = record s {
  stats = record (s.stats) {
    connection_limit_rejections = suc s.stats.connection_limit_rejections;
  };
}

unfoldable pub admit : ℕ → ℕ → ℕ → State → State
unfolding new_client
admit host port now s =
    modify s.next_client (λ _. new_client host port now)
      (record s { clients = s.next_client ∷ s.clients; next_client = suc s.next_client })

unfoldable pub accept : ℕ → ℕ → ℕ → State → State
unfolding from_host reject admit
accept host port now s =
    if leb max_clients (length s.clients)
    then reject s
    else (if leb max_connections_per_ip (from_host host s.clients s)
        then reject s
        else admit host port now s)

unfoldable pub push_rx : ℕ → Bytes → State → State
push_rx c bytes = modify c λ k. record k { rx = k.rx ++ bytes }

unfoldable pub set_rx : ℕ → Bytes → State → State
set_rx c rest = modify c λ k. record k { rx = rest }

abbrev pub is_overdue : ℕ → Client → Bool
is_overdue now k = elim k.name [ none ↦ ltb (k.connected_at + hello_timeout) now | some _ ↦ false ]

unfoldable pub count_hello_timeout : State → State
count_hello_timeout s = record s {
  stats = record (s.stats) { hello_timeouts = suc s.stats.hello_timeouts };
}

-- `self.stats` with the publisher's failures, as `log_stats` prints them
unfoldable pub counts : State → Stats
counts s = record (s.stats) {
  lobby_publish_failures = elim s.lobby [ none ↦ 0 | some p ↦ p.failures ];
}

-- `self._last_stats = counts`; writing equal counts again changes nothing.
unfoldable pub log_stats : State → State
unfolding counts
log_stats s = record s { last_stats = counts s }

-- What the selector and the clock bring to `run`: a connection, a client that is writable, one
-- that is readable, and the two periodic jobs. A pass that finds a client both writable and
-- readable is the two events in that order.
pub data Event : Type 0 where
  connection : ℕ → ℕ → ℕ → Event
  writable : ℕ → Event
  readable : ℕ → RecvResult → Event
  sweep_due : ℕ → Event
  stats_due : Event

module _ (sys : System) where
  -- What one turn of the loop of `service` does with the head of the buffer.
  abbrev pub after_handle : (State → State) → ℕ → State → Option State → State
  after_handle continue c before none = drop_client sys c before
  after_handle continue c before (some s) = if (s.heap c).dead then s else continue s

  abbrev pub on_head : (State → State) → ℕ → Next → State → State
  on_head continue c wait s = s
  on_head continue c (bad_length l) s = drop_client sys c s
  on_head continue c (next t payload rest) s =
      let shortened = set_rx c rest s in
      after_handle continue c shortened (handle sys c t payload shortened)

  unfoldable pub service_loop : ℕ → ℕ → State → State
  unfolding set_rx
  service_loop zero c s = s
  service_loop (suc n) c s = on_head (service_loop n c) c (next_frame (s.heap c).rx) s

  -- Each turn takes a frame of two bytes or more out of the buffer.
  unfoldable pub drain_rx : ℕ → State → State
  unfolding service_loop
  drain_rx c s = service_loop (length (s.heap c).rx) c s

  unfoldable pub service : ℕ → RecvResult → State → State
  unfolding drain_rx push_rx
  service c would_block s = s
  service c broken s = drop_client sys c s
  service c (received []) s = drop_client sys c s
  service c (received (b ∷ bs)) s = drain_rx c (push_rx c (b ∷ bs) s)

  unfoldable pub sweep_each : ℕ → List ℕ → State → State
  unfolding count_hello_timeout
  sweep_each now [] s = s
  sweep_each now (c ∷ cs) s =
      sweep_each now cs
        (if is_overdue now (s.heap c) then drop_client sys c (count_hello_timeout s) else s)

  unfoldable pub sweep : ℕ → State → State
  unfolding sweep_each
  sweep now s = sweep_each now s.clients s

  unfoldable pub step : Event → State → State
  unfolding accept service sweep log_stats
  step (connection host port now) s = accept host port now s
  step (writable c) s = if (s.heap c).dead then s else flush sys c s
  step (readable c result) s = if (s.heap c).dead then s else service c result s
  step (sweep_due now) s = sweep now s
  step stats_due s = log_stats s

  unfoldable pub run : List Event → State → State
  unfolding step
  run [] s = s
  run (e ∷ es) s = run es (step e s)
