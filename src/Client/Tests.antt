-- ===== src/Client/Tests.antt =====
-- The simulated console on concrete bytes.
use fujinet_intv_basketball.Base.{
  suc, ◌≡◌, refl, Bool, true, false, Option, none, some, [], ◌∷◌, Bytes, length, take,
}
use fujinet_intv_basketball.Wire.{frame, t_ping, next_frame, split_body, pad_name, ljust}
use fujinet_intv_basketball.Names.{read_name, is_name}
use fujinet_intv_basketball.Server.Types.{State, System, accepted}
use fujinet_intv_basketball.Server.State.{
  create, modify, retire, queue, take_tx, update_events, detach, clear_members, free_all,
}
use fujinet_intv_basketball.Server.Conn.{drop_client, send, room_broadcast}
use fujinet_intv_basketball.Server.Handlers.{handle}
use fujinet_intv_basketball.Server.Lobby.{others, status, lobby_entries, lobby_payload, on_list}
use fujinet_intv_basketball.Crc.{report}
use fujinet_intv_basketball.Client.{
  recv_frame, taken, lobby_status, search, strip_zeros, found, st, roster_names,
}
use fujinet_intv_basketball.Client.Sim.{Sim, play, start_server}
use fujinet_intv_basketball.Client.Scenarios.{scenario_main, scenario_autogo, scenario_full}
use fujinet_intv_basketball.Client.Frames.{recv_frame-next_frame}
use fujinet_intv_basketball.Client.Lobby.{first_status, lobby_status-lobby_payload}

abbrev bob : Bytes
bob = b'B' ∷ b'O' ∷ b'B' ∷ []

-- Client 1 is BOB; client 0 asks.
abbrev lobby : State
lobby =
    modify 1 (λ k. record k { name = some bob })
      (record (create 4 none 0) { by_name = (bob, 1) ∷ [] })

recv_frame-next_frame_example : recv_frame (1 ∷ t_ping ∷ 9 ∷ []) ≡ taken t_ping [] (9 ∷ [])
unfolding next_frame split_body
recv_frame-next_frame_example = recv_frame-next_frame (1 ∷ t_ping ∷ 9 ∷ []) (9 ∷ []) [] t_ping refl

lobby_status-lobby_payload_example :
    lobby_status (lobby_payload 0 lobby) bob
    ≡ first_status bob (take 8 (others 0 lobby.by_name lobby)) lobby
unfolding others create is_name
lobby_status-lobby_payload_example = lobby_status-lobby_payload 0 lobby bob (refl, tt)

found-bob : lobby_status (lobby_payload 0 lobby) bob ≡ found 1
unfolding lobby_status search strip_zeros lobby_payload others lobby_entries status create pad_name
    ljust
found-bob = refl

-- Sockets that take all that they are offered.
abbrev open_sockets : System
open_sockets = record {
  sock_send = λ clock c b. accepted (suc (length b));
  randrange = λ clock. 0x1234;
}

abbrev passes : Option Sim → Bool
passes none = false
passes (some x) = true

-- The scenarios pass against the model of the server.
scenario_autogo-passes :
    passes (play open_sockets scenario_autogo (start_server open_sockets 2)) ≡ true
unfolding play scenario_autogo start_server frame pad_name drop_client retire next_frame handle
    is_name read_name on_list send queue take_tx update_events room_broadcast
scenario_autogo-passes = refl

scenario_full-passes : passes (play open_sockets scenario_full (start_server open_sockets 2)) ≡ true
unfolding play scenario_full start_server frame pad_name drop_client retire next_frame handle
    is_name read_name on_list send queue take_tx update_events room_broadcast roster_names
scenario_full-passes = refl

scenario_main-passes : passes (play open_sockets scenario_main (start_server open_sockets 0)) ≡ true
unfolding play scenario_main start_server frame pad_name drop_client retire next_frame handle
    is_name read_name on_list send queue take_tx update_events room_broadcast lobby_status st
    roster_names report detach clear_members free_all
scenario_main-passes = refl
