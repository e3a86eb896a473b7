-- ===== src/Server/Tests.antt =====
-- Runs of the server on small inputs, and the theorems about it at concrete states.
mod Matches
use fujinet_intv_basketball.Base.{
  suc, ◌≡◌, refl, true, false, none, some, List, [], ◌∷◌, ◌++◌, Bytes, arith, length, ◌==◌,
  if◌then◌else◌, find, IsDistinct, if_ind, bytes_eq→eq, bytes_eq_refl,
}
use fujinet_intv_basketball.Wire.{
  frame, next_frame, pad_name, split_frames, t_hello, t_join, t_go, t_input, t_room, t_start,
  t_lobby,
}
use fujinet_intv_basketball.Names.{read_name, is_name}
use fujinet_intv_basketball.Server.Types.{Client, Room, State, System, accepted, failed, received}
use fujinet_intv_basketball.Server.State.{
  no_client, no_room, create, retire, lobby_update, queue, take_tx, update_events, detach,
  clear_members, free_all, advance,
}
use fujinet_intv_basketball.Server.Lobby.{on_list}
use fujinet_intv_basketball.Server.Conn.{drop_client, drop_fuel, send, room_broadcast}
use fujinet_intv_basketball.Server.Handlers.{handle, on_hello}
use fujinet_intv_basketball.Server.Loop.{
  Event, connection, readable, run, service, push_rx, from_host,
}
use fujinet_intv_basketball.Server.Sound.{Sound, create-Sound}
use fujinet_intv_basketball.Server.Streams.{Grown, run-Grown}
use fujinet_intv_basketball.Server.Seating.{run-Sound}
use fujinet_intv_basketball.Server.Limits.{Within, run-Within}
use fujinet_intv_basketball.Server.Tables.{HasSmallTables, run-HasSmallTables}
use fujinet_intv_basketball.Server.Drops.{Gone, drop_client-Gone}
use fujinet_intv_basketball.Server.Fuel.{drop_fuel-eq-drop_client}
use fujinet_intv_basketball.Server.Hello.{on_hello_names_dead}
use fujinet_intv_basketball.Server.Reading.{handle_batch, service-eq-handle_batch}
use fujinet_intv_basketball.Server.Fanout.{Delivered, send_delivers, IsHealthy}
use fujinet_intv_basketball.Server.Relay.{Relayed, handle_relays}

-- Sockets that take all that they are offered, and sockets that fail.
abbrev pub calm : System
calm = record { sock_send = λ clock c b. accepted (suc (length b)); randrange = λ clock. 0x1234 }

abbrev broken_pipes : System
broken_pipes = record { sock_send = λ clock c b. failed; randrange = λ clock. 1 }

abbrev pub alice : Bytes
alice = b'A' ∷ b'L' ∷ []

abbrev pub bob : Bytes
bob = b'B' ∷ b'O' ∷ []

pub names_admitted : (is_name alice ≡ true) × (is_name bob ≡ true)
unfolding is_name
names_admitted = (refl, refl)

abbrev pub start : State
start = create 3 none 0

-- Two players connect, say hello, join and start.
abbrev pub opening : List Event
opening =
    connection 1 1 0
    ∷ connection 2 1 0
    ∷ readable 0 (received (frame t_hello (2 ∷ alice)))
    ∷ readable 1 (received (frame t_hello (2 ∷ bob) ++ frame t_join alice))
    ∷ readable 0 (received (frame t_go []))
    ∷ []

start-Within : Within start
unfolding create from_host
start-Within = record {
  backlog = λ c. omega arith;
  crowd = omega arith;
  per_host = λ host. omega arith;
  handed_out = tt;
}

-- From the match under way: the host plays, the guest leaves, and a third client connects and says a
-- name that is too short.
abbrev under_way : State
under_way = run calm opening start

abbrev later : List Event
later =
    readable 0 (received (frame t_input (0 ∷ 1 ∷ 0 ∷ 64 ∷ 0 ∷ [])))
    ∷ readable 1 (received [])
    ∷ connection 3 1 5
    ∷ readable 2 (received (frame t_hello (2 ∷ b'C' ∷ [])))
    ∷ []

run-Grown_example : Grown under_way (run calm later under_way)
run-Grown_example = run-Grown calm later under_way (run-Sound calm opening 3 none 0)

run-Within_example : Within (run calm opening start) × Sound (run calm opening start)
run-Within_example = run-Within calm opening start (create-Sound 3 none 0) start-Within

start-HasSmallTables : HasSmallTables start
unfolding create
start-HasSmallTables r = omega arith

run-HasSmallTables_example : HasSmallTables (run calm opening start)
run-HasSmallTables_example =
    run-HasSmallTables calm opening start (create-Sound 3 none 0) start-HasSmallTables

abbrev blanks : Bytes
blanks = 0 ∷ 0 ∷ 0 ∷ 0 ∷ 0 ∷ 0 ∷ []

abbrev both_names : Bytes
both_names = alice ++ blanks ++ bob ++ blanks ++ (blanks ++ 0 ∷ 0 ∷ []) ++ (blanks ++ 0 ∷ 0 ∷ [])

-- The guest has got the lobby, the room and the start of the match, with its seat and the seed.
opening_frames : split_frames ((run calm opening start).heap 1).wire ≡ record {
  frames =
      (t_lobby, 1 ∷ alice ++ blanks ++ 1 ∷ [])
      ∷ (t_room, 2 ∷ both_names)
      ∷ (t_start, 1 ∷ 2 ∷ 0x34 ∷ 0x12 ∷ 3 ∷ both_names)
      ∷ [];
  left = [];
  bad = false;
}
unfolding create run split_frames next_frame handle drop_client on_list frame is_name read_name send
    lobby_update queue take_tx update_events pad_name room_broadcast
opening_frames = refl

abbrev pub member : Bytes → Client
member n = record no_client {
  name = some n;
  room = some 0;
  dead = false;
  watch = some false;
  closed = false;
}

-- A match of two in room 0.
abbrev playing : State
playing = record start {
  heap = λ k. if k == 0 then member alice else (if k == 1 then member bob else no_client);
  rooms = λ r. if r == 0 then record no_room { members = 0 ∷ 1 ∷ []; started = true } else no_room;
  next_client = 2;
  next_room = 1;
  clients = 1 ∷ 0 ∷ [];
  by_name = (alice, 0) ∷ (bob, 1) ∷ [];
}

playing-Sound : Sound playing
playing-Sound = record {
  capacity = λ r. ground arith;
  linked = λ c r h. ground arith;
  backed = λ c r e h m. ground arith;
  distinct = λ r.
      if_ind (λ (room : Room). IsDistinct room.members) (r == 0) (λ _. (refl, (refl, tt)))
        (λ _. tt);
  allocated = λ c r h. ground arith;
  present = λ c h. ground arith;
  handed = λ c h. ground arith;
  named = λ c n h. ground arith;
  seated = λ r e m. ground arith;
  keyed = (refl, (refl, tt));
  registered = λ c n l h. ground (arith, bytes_eq_refl alice, bytes_eq_refl bob);
  entered = λ c n h. ground (arith, bytes_eq→eq n alice, bytes_eq→eq n bob);
  admitted = λ c n h. ground (arith, names_admitted.0, names_admitted.1);
}

pub calm-IsHealthy : IsHealthy calm
calm-IsHealthy clock c b = ground arith

drop_client-Gone_example : Gone 1 (drop_client calm 1 playing)
drop_client-Gone_example = drop_client-Gone calm 1 playing playing-Sound refl

drop_fuel-eq-drop_client_example : drop_fuel calm 9 0 playing ≡ drop_client calm 0 playing
drop_fuel-eq-drop_client_example =
    drop_fuel-eq-drop_client calm 9 0 playing playing-Sound (omega arith)

send_delivers_example :
    Delivered 1 (frame t_lobby (0 ∷ [])) playing (send calm 1 (frame t_lobby (0 ∷ [])) playing)
unfolding frame
send_delivers_example =
    send_delivers calm calm-IsHealthy 1 (frame t_lobby (0 ∷ [])) playing (refl, omega arith)

-- An INPUT frame of seat 0 reaches seat 1.
handle_relays_example :
    (u : State) × (handle calm 0 t_input (0 ∷ 5 ∷ 0 ∷ 0x44 ∷ 0 ∷ []) playing ≡ some u)
    × Relayed 0 (frame t_input (0 ∷ 5 ∷ 0 ∷ 0x44 ∷ 0 ∷ [])) (0 ∷ 1 ∷ []) playing u
unfolding frame
handle_relays_example =
    handle_relays calm calm-IsHealthy 0 t_input 0 (0 ∷ 5 ∷ 0 ∷ 0x44 ∷ 0 ∷ []) playing refl refl refl
      (refl, (refl, tt)) (λ n. absurd (n refl), (λ n. (refl, omega arith), tt))

-- Half a frame was there before; the rest comes with a whole frame behind it.
service-eq-handle_batch_example :
    let batch = split_frames ([] ++ 1 ∷ 2 ∷ []) in
    service calm 0 (received (1 ∷ 2 ∷ [])) playing
    ≡ handle_batch calm 0 batch.frames batch.left batch.bad (push_rx 0 (1 ∷ 2 ∷ []) playing)
service-eq-handle_batch_example =
    service-eq-handle_batch calm 0 1 (2 ∷ []) playing playing-Sound refl

-- Seat 1 asks for the name of seat 0 while its own connection is broken.
on_hello_names_dead_example :
    (t : State) × (on_hello broken_pipes 1 (2 ∷ alice) playing ≡ some t)
    × ((t.heap 1).dead ≡ true)
    × (find alice t.by_name ≡ some 1)
    × (drop_client broken_pipes 1 t ≡ t)
unfolding read_name is_name drop_client frame pad_name lobby_update detach retire clear_members
    free_all queue advance
on_hello_names_dead_example =
    on_hello_names_dead broken_pipes 1 0 playing (2 ∷ alice) refl refl (omega arith) refl
