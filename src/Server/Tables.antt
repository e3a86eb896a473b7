-- ===== src/Server/Tables.antt =====
-- The checksum tables of the rooms over whole runs of the server.
use fujinet_intv_basketball.Base.{
  ℕ, ◌≤◌, ◌≡◌, refl, List, arith, Bytes, length, get_or, ◌==◌, if_ind,
}
use fujinet_intv_basketball.Crc.{Verdict, waiting, mismatch, agreed, report, word}
use fujinet_intv_basketball.Crc.Table.{report-bound}
use fujinet_intv_basketball.Server.Types.{Room, State, System}
use fujinet_intv_basketball.Server.State.{
  advance, lobby_update, queue, take_tx, update_events, unalias, retire, detach, clear_members,
  count_backlog_drop,
}
use fujinet_intv_basketball.Server.Handlers.{
  register, drop_old_alias, open_room, seat_in, begin_match, store_crc, settle, log_crc,
}
use fujinet_intv_basketball.Server.Loop.{
  admit, reject, push_rx, set_rx, count_hello_timeout, log_stats, Event, run,
}
use fujinet_intv_basketball.Server.Sound.{Sound}
use fujinet_intv_basketball.Server.Frames.{any_frames}
use fujinet_intv_basketball.Server.Keeps.{Keeps}
use fujinet_intv_basketball.Server.Serves.{Handles, Serves}
use fujinet_intv_basketball.Server.Runs.{run-Ok, any_events}

-- No room holds checksums of more than 64 ticks.
abbrev pub HasSmallTables : State → Type 0
HasSmallTables s = (r : ℕ) → length (s.rooms r).crc ≤ 64

retire-rooms : (c : ℕ) (s : State) → (retire c s).rooms ≡ s.rooms
unfolding retire unalias lobby_update
retire-rooms c s = ground arith

settle-crc : (r q : ℕ) (v : Verdict) (s : State) → ((settle r v s).rooms q).crc ≡ (s.rooms q).crc
unfolding settle
settle-crc r q waiting s = refl
settle-crc r q (mismatch t e) s = refl
settle-crc r q (agreed t) s = ground arith

log_crc-HasSmallTables :
    (r : ℕ) (p : Bytes) (s : State) → HasSmallTables s → HasSmallTables (log_crc r p s)
unfolding log_crc store_crc
log_crc-HasSmallTables r p s h q =
    let players = length (s.rooms r).members in
    let result = report players (get_or p 0 0) (word 1 p) (word 3 p) (s.rooms r).crc in
    rw (settle-crc r q result.1 (store_crc r result.0 s)) (
      if_ind (λ (room : Room). length room.crc ≤ 64) (q == r)
        (λ _. report-bound players (get_or p 0 0) (word 1 p) (word 3 p) (s.rooms r).crc (h r))
        (λ _. h q))

HasSmallTables-Keeps : Keeps HasSmallTables
unfolding advance lobby_update count_backlog_drop queue take_tx update_events detach clear_members
HasSmallTables-Keeps = record {
  frames = any_frames;
  on_advance = λ s h. h;
  on_lobby_update = λ s h. h;
  on_backlog_drop = λ s h. h;
  on_queue = λ c t p s alive fits short ok h. h;
  on_take = λ c n s alive h. h;
  on_events = λ c s alive h. h;
  on_retire = λ c s alive h q. rw (retire-rooms c s) (h q);
  on_detach = λ c r s h q. ground (arith, h q);
  on_free = λ m s h. h;
  on_clear = λ r s h q. ground (arith, h q);
}

HasSmallTables-Handles : {sys : System} → Handles sys HasSmallTables
unfolding register drop_old_alias open_room seat_in begin_match lobby_update
HasSmallTables-Handles = record {
  keeps = HasSmallTables-Keeps;
  on_rename = λ c name s h q. ground (arith, h q);
  on_open = λ target s h q. ground (arith, h q);
  on_seat = λ c r s h q. ground (arith, h q);
  on_begin = λ r seed s h q. ground (arith, h q);
  on_log_crc = log_crc-HasSmallTables;
}

HasSmallTables-Serves : {sys : System} → Serves sys (λ b. Unit {0}) HasSmallTables
unfolding push_rx set_rx admit reject count_hello_timeout log_stats
HasSmallTables-Serves = record {
  handles = HasSmallTables-Handles;
  on_push_rx = λ c b s ok h. h;
  on_set_rx = λ c ty p b s e h. h;
  on_admit = λ host port now s below few h. h;
  on_reject = λ s h. h;
  on_hello_timeout = λ s h. h;
  on_log_stats = λ s h. h;
}

-- Over every run of events, whatever the sockets do, from a sound state in which no room holds
-- checksums of more than 64 ticks: no room ever does.
pub run-HasSmallTables :
    (sys : System) (es : List Event) (s : State)
    → Sound s
    → HasSmallTables s
    → HasSmallTables (run sys es s)
run-HasSmallTables sys es s v h =
    (run-Ok sys HasSmallTables-Serves es s (any_events es) (record { sound = v; kept = h })).kept
