-- ===== src/Server/Lobby.antt =====
-- server/intv_relay_server.py: what the lobby shows. `_status` and `on_list`.
use Prim.Native.Nat.{bit_or}
use fujinet_intv_basketball.Base.{
  ℕ, not, ◌&&◌, ◌||◌, none, some, List, [], ◌∷◌, ◌++◌, Bytes, length, take, leb, is_empty, ◌==◌,
  if◌then◌else◌,
}
use fujinet_intv_basketball.Wire.{frame, pad_name, t_lobby}
use fujinet_intv_basketball.Server.Types.{Room, State, System, max_seats}
use fujinet_intv_basketball.Server.Conn.{name_of, send}

unfoldable pub room_status : Room → ℕ
room_status room =
    let n = length room.members in bit_or (if room.started || leb max_seats n then 0x80 else 0) n

-- `_status`
unfoldable pub status : ℕ → State → ℕ
unfolding room_status
status c s = elim (s.heap c).room [ none ↦ 1 | some r ↦ room_status (s.rooms r) ]

-- `[c for c in self.by_name.values() if c is not client and c.name]`
unfoldable pub others : ℕ → List (Bytes × ℕ) → State → List ℕ
others client [] s = []
others client ((_, c) ∷ names) s =
    if not (c == client) && not (is_empty (name_of c s))
    then c ∷ others client names s
    else others client names s

unfoldable pub lobby_entries : List ℕ → State → Bytes
unfolding status
lobby_entries [] s = []
lobby_entries (c ∷ cs) s = pad_name (name_of c s) ++ status c s ∷ lobby_entries cs s

-- At most eight entries, the size of the console's frame buffer.
unfoldable pub lobby_payload : ℕ → State → Bytes
unfolding others lobby_entries
lobby_payload client s =
    let shown = take 8 (others client s.by_name s) in length shown ∷ lobby_entries shown s

module _ (sys : System) where
  unfoldable pub on_list : ℕ → State → State
  unfolding lobby_payload
  on_list client s = send sys client (frame t_lobby (lobby_payload client s)) s
