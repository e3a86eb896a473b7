-- ===== src/Server/Conn.antt =====
-- server/intv_relay_server.py: `send`, `flush`, `room_broadcast`, `dissolve` and `drop`, which call one
-- another. A drop inside a drop is of another client, so the recursion is on the clients left.
use fujinet_intv_basketball.Base.{
  ℕ, zero, suc, ◌+◌, ◌-◌, ◌*◌, Option, none, some, List, [], ◌∷◌, ◌++◌, Bytes, length, replicate,
  get_elem?, is_empty, index, ltb, ◌==◌, if◌then◌else◌,
}
use fujinet_intv_basketball.Wire.{frame, pad_name, t_room, t_peer_left}
use fujinet_intv_basketball.Server.Types.{
  Room, State, System, SendResult, accepted, blocked, failed, max_tx_backlog, roster_slots,
}
use fujinet_intv_basketball.Server.State.{
  advance, queue, take_tx, update_events, retire, detach, free_all, clear_members,
  count_backlog_drop, lobby_update,
}

-- A client's name; the empty one where there is none, which no member of a room is.
abbrev pub name_of : ℕ → State → Bytes
name_of c s = elim (s.heap c).name [ none ↦ [] | some n ↦ n ]

unfoldable pub pads : List ℕ → State → Bytes
pads [] s = []
pads (m ∷ ms) s = pad_name (name_of m s) ++ pads ms s

-- `Room.roster`
unfoldable pub roster : Room → State → Bytes
unfolding pads
roster room s = pads room.members s ++ replicate (8 * (roster_slots - length room.members)) 0

-- `for i, m in enumerate(room.members)` over the list as it stands at each turn. The list only
-- shrinks meanwhile, so its length at the start is fuel enough.
unfoldable pub each_member : ℕ → ℕ → ℕ → (ℕ → ℕ → State → State) → State → State
each_member zero i r body s = s
each_member (suc n) i r body s = elim (get_elem? (s.rooms r).members i) [
  | none ↦ s
  | some m ↦ each_member n (i + 1) r body (body i m s)
]

unfoldable pub for_members : ℕ → (ℕ → ℕ → State → State) → State → State
unfolding each_member
for_members r body s = each_member (length (s.rooms r).members) 0 r body s

module _ (sys : System) (drop_client : ℕ → State → State) where
  -- One turn of the loop of `flush`, by what the socket did.
  abbrev pub on_sent : (State → State) → ℕ → SendResult → State → State
  on_sent continue c (accepted n) s = if n == 0 then drop_client c s else continue (take_tx c n s)
  on_sent continue c blocked s = update_events c s
  on_sent continue c failed s = drop_client c s

  unfoldable pub flush_loop : ℕ → ℕ → State → State
  flush_loop zero c s = update_events c s
  flush_loop (suc n) c s =
      if is_empty (s.heap c).tx
      then update_events c s
      else on_sent (flush_loop n c) c (sys.sock_send s.clock c (s.heap c).tx) (advance s)

  -- Each turn that goes on takes a byte or more, so the backlog is fuel enough.
  unfoldable pub flush_with : ℕ → State → State
  unfolding flush_loop
  flush_with c s = flush_loop (length (s.heap c).tx) c s

  unfoldable pub send_with : ℕ → Bytes → State → State
  unfolding flush_with
  send_with c bytes s =
      if (s.heap c).dead
      then s
      else (if ltb max_tx_backlog (length (s.heap c).tx + length bytes)
          then drop_client c (count_backlog_drop s)
          else flush_with c (queue c bytes s))

  unfoldable pub send_all : List ℕ → Bytes → State → State
  unfolding send_with
  send_all [] bytes s = s
  send_all (m ∷ ms) bytes s = send_all ms bytes (send_with m bytes s)

  unfoldable pub room_broadcast_with : ℕ → State → State
  unfolding send_with roster for_members
  room_broadcast_with r s =
      let payload = length (s.rooms r).members ∷ roster (s.rooms r) s in
      for_members r (λ _ m. send_with m (frame t_room payload)) s

  unfoldable pub dissolve_with : ℕ → List ℕ → State → State
  unfolding send_all
  dissolve_with r notify s =
      clear_members r
        (send_all notify (frame t_room (0 ∷ replicate 32 0)) (free_all (s.rooms r).members s))

  -- The end of `drop` for the member of `seat` who has been taken out of room `r`.
  unfoldable pub end_room : ℕ → ℕ → ℕ → State → State
  unfolding dissolve_with room_broadcast_with send_all
  end_room c r seat s =
      let room = s.rooms r in
      if room.started
      then send_all room.members (frame t_peer_left (seat ∷ pad_name (name_of c s)))
          (dissolve_with r [] s)
      else (if seat == 0
          then dissolve_with r room.members s
          else (if ltb (length room.members) 2
              then dissolve_with r room.members s
              else room_broadcast_with r s))

  -- `drop` from `room = client.room` on.
  unfoldable pub leave : ℕ → Option ℕ → State → State
  unfolding end_room
  leave c none s = s
  leave c (some r) s = lobby_update (end_room c r (index c (s.rooms r).members) (detach c r s))

module _ (sys : System) where
  -- With no fuel no client is left alive, and a drop of a dead client does nothing.
  unfoldable pub drop_fuel : ℕ → ℕ → State → State
  unfolding leave
  drop_fuel zero c s = s
  drop_fuel (suc n) c s =
      if (s.heap c).dead then s else leave sys (drop_fuel n) c (s.heap c).room (retire c s)

  -- As many drops can nest as there are clients.
  unfoldable pub drop_client : ℕ → State → State
  unfolding drop_fuel
  drop_client c s = drop_fuel (length s.clients) c s

  unfoldable pub flush : ℕ → State → State
  unfolding flush_with drop_client
  flush = flush_with sys drop_client

  unfoldable pub send : ℕ → Bytes → State → State
  unfolding send_with drop_client
  send = send_with sys drop_client

  unfoldable pub room_broadcast : ℕ → State → State
  unfolding room_broadcast_with drop_client
  room_broadcast = room_broadcast_with sys drop_client
