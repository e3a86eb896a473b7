-- ===== src/Server/Handlers.antt =====
-- server/intv_relay_server.py: the protocol. `handle` and the handlers that it calls. `none` is a
-- `ProtocolError`, which every handler raises before it changes anything.
use fujinet_intv_basketball.Base.{
  ℕ, suc, ◌/◌, ◌%◌, Bool, true, false, not, ◌&&◌, ◌||◌, Option, none, some, List, [], ◌∷◌, ◌++◌,
  Bytes, length, drop, get_or, index, ltb, leb, ◌==◌, if◌then◌else◌, bytes_eq, find, store, delete,
}
use fujinet_intv_basketball.Wire.{
  frame, t_hello, t_list, t_join, t_start, t_input, t_crc, t_state, t_resync, t_bye, t_ping, t_pong,
  t_go,
}
use fujinet_intv_basketball.Names.{read_name, is_name}
use fujinet_intv_basketball.Crc.{Table, Verdict, waiting, mismatch, agreed, report, word}
use fujinet_intv_basketball.Server.Types.{
  Room, State, System, crc_mismatch, crc_through, max_seats, proto_ver,
}
use fujinet_intv_basketball.Server.State.{modify, modify_room, advance, lobby_update}
use fujinet_intv_basketball.Server.Conn.{roster, for_members, send, drop_client, room_broadcast}
use fujinet_intv_basketball.Server.Lobby.{on_list}

-- `RELAY_TYPES`
abbrev pub is_relay : ℕ → Bool
is_relay t = t == t_input || t == t_crc || t == t_state || t == t_resync

-- `sorted(entry.items())`: the seats of a dict differ, so they alone decide.
unfoldable pub place_seat : ℕ × ℕ → List (ℕ × ℕ) → List (ℕ × ℕ)
place_seat e [] = e ∷ []
place_seat e (f ∷ fs) = if leb e.0 f.0 then e ∷ f ∷ fs else f ∷ place_seat e fs

unfoldable pub sort_entry : List (ℕ × ℕ) → List (ℕ × ℕ)
unfolding place_seat
sort_entry [] = []
sort_entry (e ∷ es) = place_seat e (sort_entry es)

-- The end of `log_crc`, by the verdict.
unfoldable pub settle : ℕ → Verdict → State → State
unfolding sort_entry
settle r waiting s = s
settle r (mismatch tick entry) s = record s {
  log = s.log ++ crc_mismatch tick (sort_entry entry) ∷ [];
}
settle r (agreed tick) s =
    let rounds = suc (s.rooms r).crc_ok in
    let counted = modify_room r (λ room. record room { crc_ok = rounds }) s in
    if rounds % 4 == 0
    then record counted { log = s.log ++ crc_through tick rounds ∷ [] }
    else counted

unfoldable pub store_crc : ℕ → Table → State → State
store_crc r table = modify_room r λ room. record room { crc = table }

unfoldable pub log_crc : ℕ → Bytes → State → State
unfolding settle store_crc
log_crc r payload s =
    let room = s.rooms r in
    let result =
      report (length room.members) (get_or payload 0 0) (word 1 payload) (word 3 payload)
        room.crc in
    settle r result.1 (store_crc r result.0 s)

-- A client takes a name, at the place that the name has in the dict.
unfoldable pub register : ℕ → Bytes → State → State
register c name s =
    modify c (λ k. record k { name = some name }) (record s { by_name = store name c s.by_name })

unfoldable pub drop_old_alias : ℕ → Bytes → State → State
drop_old_alias c name s = elim (s.heap c).name [
  | none ↦ s
  | some old ↦ elim (find old s.by_name) [
    | none ↦ s
    | some d ↦
        if d == c && not (bytes_eq old name) then record s { by_name = delete old s.by_name } else s
  ]
]

-- `Room(target)` for a target that has no room yet
unfoldable pub open_room : ℕ → State → State
open_room target s =
    modify target (λ k. record k { room = some s.next_room })
      (modify_room s.next_room
        (λ _. record { members = target ∷ []; started = false; seed = 0; crc = []; crc_ok = 0 })
        (record s { next_room = suc s.next_room }))

-- `room.members.append(client)` and `client.room = room`
unfoldable pub seat_in : ℕ → ℕ → State → State
seat_in c r s =
    modify c (λ k. record k { room = some r })
      (modify_room r (λ room. record room { members = room.members ++ c ∷ [] }) s)

-- Why a JOIN gets a LOBBY frame: the target is the sender, has no name, or is in a room that is
-- started or full.
unfoldable pub is_closed_room : Room → Bool
is_closed_room room = room.started || leb max_seats (length room.members)

unfoldable pub refuses : ℕ → ℕ → State → Bool
unfolding is_closed_room
refuses c target s =
    target == c
    || elim (s.heap target).name [ none ↦ true | some _ ↦ false ]
    || elim (s.heap target).room [ none ↦ false | some r ↦ is_closed_room (s.rooms r) ]

abbrev pub seat : ℕ → ℕ → State → ℕ
seat c r s = index c (s.rooms r).members

-- The assignments of `start_room` before the frames go out.
unfoldable pub begin_match : ℕ → ℕ → State → State
begin_match r seed =
    modify_room r λ room. record room { started = true; seed = seed; crc = []; crc_ok = 0 }

-- `common`, which follows the seat in each START, for a delay below 256: from 256 on, `bytes` raises
-- `ValueError` here
unfoldable pub start_common : ℕ → State → Bytes
unfolding roster
start_common r s =
    let room = s.rooms r in
    length room.members ∷ room.seed % 256 ∷ room.seed / 256 ∷ s.delay ∷ roster room s

module _ (sys : System) where
  unfoldable pub start_room : ℕ → State → State
  unfolding begin_match start_common for_members advance
  start_room r s =
      let begun = begin_match r (sys.randrange s.clock) (advance s) in
      let common = start_common r begun in
      lobby_update (for_members r (λ i m. send sys m (frame t_start (i ∷ common))) begun)

  unfoldable pub on_go : ℕ → State → State
  unfolding start_room
  on_go c s = elim (s.heap c).room [
    | none ↦ s
    | some r ↦
        let n = length (s.rooms r).members in
        if (s.rooms r).started || not (seat c r s == 0)
        then s
        else (if leb 2 n && leb n max_seats then start_room r s else s)
  ]

  -- `on_join` from the broadcast on
  unfoldable pub announce : ℕ → State → State
  unfolding start_room
  announce r s =
      let told = lobby_update (room_broadcast sys r s) in
      if ltb 0 told.auto_go && leb told.auto_go (length (told.rooms r).members)
      then start_room r told
      else told

  unfoldable pub enter : ℕ → ℕ → State → State
  unfolding announce open_room seat_in
  enter c target s = elim (s.heap target).room [
    | some r ↦ announce r (seat_in c r s)
    | none ↦ announce s.next_room (seat_in c s.next_room (open_room target s))
  ]

  unfoldable pub join_target : ℕ → Option ℕ → State → State
  unfolding refuses enter
  join_target c none s = on_list sys c s
  join_target c (some target) s = if refuses c target s then on_list sys c s else enter c target s

  unfoldable pub on_join : ℕ → Bytes → State → Option State
  unfolding join_target
  on_join c payload s = elim (s.heap c).name [
    | none ↦ none
    | some _ ↦ elim (s.heap c).room [
      | some _ ↦ some s
      | none ↦ some (join_target c (find (read_name payload) s.by_name) s)
    ]
  ]

  -- Another holder of the name is dropped.
  unfoldable pub replace_holder : ℕ → Option ℕ → State → State
  replace_holder c none s = s
  replace_holder c (some old) s = if old == c then s else drop_client sys old s

  unfoldable pub greet : ℕ → Bytes → State → State
  unfolding replace_holder drop_old_alias register
  greet c name s = on_list sys c (
      lobby_update
        (register c name (drop_old_alias c name (replace_holder c (find name s.by_name) s))))

  unfoldable pub on_hello : ℕ → Bytes → State → Option State
  unfolding greet
  on_hello c payload s =
      let name = read_name (drop 1 payload) in
      if ltb (length payload) 3 || not (get_or payload 0 0 == proto_ver) || not (is_name name)
      then none
      else some (greet c name s)

  -- The frame goes verbatim to every member of the room but its sender.
  unfoldable pub fan_out : ℕ → ℕ → Bytes → State → State
  unfolding for_members
  fan_out c r bytes = for_members r λ _ m t. if m == c then t else send sys m bytes t

  unfoldable pub relay : ℕ → ℕ → Bytes → State → State
  unfolding fan_out log_crc
  relay c t payload s = elim (s.heap c).room [
    | none ↦ s
    | some r ↦
        if (s.rooms r).started
        then fan_out c r (frame t payload)
            (if t == t_crc && length payload == 5 then log_crc r payload s else s)
        else s
  ]

  unfoldable pub handle : ℕ → ℕ → Bytes → State → Option State
  unfolding relay on_hello on_join on_go
  handle c t payload s =
      if is_relay t
      then some (relay c t payload s)
      else (if t == t_hello
          then on_hello c payload s
          else (if t == t_list
              then some (on_list sys c s)
              else (if t == t_join
                  then on_join c payload s
                  else (if t == t_go
                      then some (on_go c s)
                      else (if t == t_bye
                          then some (drop_client sys c s)
                          else (if t == t_ping
                              then some (send sys c (frame t_pong []) s)
                              else none))))))
