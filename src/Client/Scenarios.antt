-- ===== src/Client/Scenarios.antt =====
-- tools/bbnet_client_sim.py: `scenario_main`, `scenario_autogo` and `scenario_full`. With SERVER=py the rooms have two seats; the other widths are for the C port.
use fujinet_intv_basketball.Base.{
  ascii, ℕ, ◌/◌, ◌%◌, Bool, true, false, ◌&&◌, List, [], ◌∷◌, ◌++◌, Bytes, length, take, drop,
  get_or, leb, ◌==◌, bytes_eq,
}
use fujinet_intv_basketball.Wire.{
  frame, pad_name, t_list, t_lobby, t_join, t_start, t_input, t_crc, t_state, t_peer_left, t_room,
  t_go,
}
use fujinet_intv_basketball.Client.{
  st, strip_zeros, Found, found, absent, short_entry, lobby_status, roster_names,
}
use fujinet_intv_basketball.Client.Sim.{Act, opens, sends, expects, silence, shut_out, closes}

abbrev anything : Bytes → Bool
anything p = true

abbrev is_bytes : Bytes → Bytes → Bool
is_bytes a p = bytes_eq a p

-- `e.lobby()` with the assertion that `name` has `status`
abbrev pub is_found : ℕ → Found → Bool
is_found status absent = false
is_found status short_entry = false
is_found status (found n) = n == status

abbrev pub sees : ℕ → Bytes → ℕ → List Act
sees c name status =
    sends c (frame t_list []) ∷ expects c t_lobby (λ p. is_found status (lobby_status p name)) ∷ []

abbrev pub joins : ℕ → Bytes → Act
joins c name = sends c (frame t_join (pad_name name))

-- The first names of a roster.
abbrev pub begins : List Bytes → List Bytes → Bool
begins [] others = true
begins (n ∷ ns) [] = false
begins (n ∷ ns) (m ∷ ms) = bytes_eq n m && begins ns ms

abbrev pair : List Bytes
pair = ascii "ALICE" ∷ ascii "BOB" ∷ []

abbrev pub is_room : ℕ → List Bytes → Bytes → Bool
is_room n names p = get_or p 0 0xFF == n && begins names (roster_names (drop 1 (take 33 p)))

-- The assertions on a START; that the seeds agree is left to the server's theorems.
abbrev pub is_start : ℕ → List Bytes → Bytes → Bool
is_start seat names p =
    length p == 37
    && get_or p 0 0xFF == seat
    && get_or p 1 0xFF == 2
    && leb 1 (get_or p 4 0)
    && begins names (roster_names (drop 5 (take 37 p)))

-- `crc`, the helper of the scenario
abbrev pub reports : ℕ → ℕ → ℕ → ℕ → Act
reports c seat tick value =
    sends c (frame t_crc (seat ∷ tick % 256 ∷ tick / 256 ∷ value % 256 ∷ value / 256 ∷ []))

-- Both seats report; each sees the other's frame.
abbrev pub round : ℕ → ℕ → ℕ → List Act
round tick host guest =
    reports 1 0 tick host
    ∷ reports 3 1 tick guest
    ∷ expects 1 t_crc anything
    ∷ expects 3 t_crc anything
    ∷ []

abbrev pub input_frame : Bytes
input_frame = 0 ∷ 5 ∷ 0 ∷ 0x44 ∷ 0 ∷ []

abbrev pub state_frame : Bytes
state_frame = 0 ∷ 0xFF ∷ 9 ∷ 0 ∷ []

-- Client 1 is ALICE, 2 OLDGUY, 3 BOB, 4 EVE, 5 GUESTA and 6 GUESTC.
abbrev pub until_joined : List Act
until_joined =
    opens 2 (ascii "ALICE")
      ∷ expects 1 t_lobby (λ p. get_or p 0 0xFF == 0)
      ∷ opens 1 (ascii "OLDGUY")
      ∷ shut_out 2
      ∷ closes 2
      ∷ opens 2 (ascii "BOB")
      ∷ expects 3 t_lobby anything
      ∷ opens 2 (ascii "EVE")
      ∷ expects 4 t_lobby anything
      ∷ sees 4 (ascii "ALICE") (st 2 1)
    ++ joins 3 (ascii "ALICE")
      ∷ expects 1 t_room (is_room 2 pair)
      ∷ expects 3 t_room (is_room 2 pair)
      ∷ sees 4 (ascii "ALICE") (st 2 2)
    ++ sees 4 (ascii "BOB") (st 2 2)

-- From the full room to the end of the match.
abbrev pub until_parted : List Act
until_parted =
    sees 4 (ascii "ALICE") 0x82
    ++ joins 4 (ascii "ALICE")
      ∷ expects 4 t_lobby anything
      ∷ sends 3 (frame t_go [])
      ∷ sends 1 (frame t_go [])
      ∷ expects 1 t_start (is_start 0 pair)
      ∷ expects 3 t_start (is_start 1 pair)
      ∷ sees 4 (ascii "ALICE") 0x82
    ++ joins 4 (ascii "ALICE")
      ∷ expects 4 t_lobby anything
      ∷ sends 1 (frame t_input input_frame)
      ∷ expects 3 t_input (is_bytes input_frame)
      ∷ silence 1
      ∷ sends 1 (frame t_state state_frame)
      ∷ expects 3 t_state (is_bytes state_frame)
      ∷ round 64 0xBEEF 0xBEEF
    ++ round 128 0xBEEF 0xBEEF
    ++ round 192 0xBEEF 0xBEEF
    ++ round 256 0xBEEF 0xBEEF
    ++ round 320 0x1111 0x2222
    ++ closes 3
      ∷ expects 1 t_peer_left
          (λ p. get_or p 0 0 == 1 && bytes_eq (strip_zeros (drop 1 (take 9 p))) (ascii "BOB"))
      ∷ sees 4 (ascii "ALICE") 1
    ++ closes 4 ∷ []

-- A guest joins ALICE again.
abbrev pub until_rejoined : List Act
until_rejoined =
    opens 2 (ascii "GUESTA")
    ∷ expects 5 t_lobby anything
    ∷ joins 5 (ascii "ALICE")
    ∷ expects 1 t_room anything
    ∷ expects 5 t_room anything
    ∷ []

-- The guest leaves, and the host leaves the next one: rooms that do not start.
abbrev pub until_dissolved : List Act
until_dissolved =
    closes 5
    ∷ expects 1 t_room (λ p. get_or p 0 0xFF == 0)
    ∷ opens 2 (ascii "GUESTC")
    ∷ expects 6 t_lobby anything
    ∷ joins 6 (ascii "ALICE")
    ∷ expects 1 t_room anything
    ∷ expects 6 t_room anything
    ∷ closes 1
    ∷ expects 6 t_room (λ p. get_or p 0 0xFF == 0)
    ∷ closes 6
    ∷ []

-- `scenario_main` for two seats
unfoldable pub scenario_main : List Act
scenario_main = until_joined ++ until_parted ++ until_rejoined ++ until_dissolved

unfoldable pub scenario_autogo : List Act
scenario_autogo =
    opens 2 (ascii "EVE")
    ∷ expects 1 t_lobby anything
    ∷ opens 2 (ascii "FRANK")
    ∷ expects 2 t_lobby anything
    ∷ joins 2 (ascii "EVE")
    ∷ expects 1 t_room anything
    ∷ expects 2 t_room anything
    ∷ expects 1 t_start (λ p. get_or p 0 0xFF == 0 && get_or p 1 0 == 2)
    ∷ expects 2 t_start (λ p. get_or p 0 0xFF == 1 && get_or p 1 0 == 2)
    ∷ closes 1
    ∷ closes 2
    ∷ []

abbrev full_names : List Bytes
full_names = ascii "P1AA" ∷ ascii "P2BB" ∷ []

-- The STARTs are read behind the ROOM of the one JOIN.
unfoldable pub scenario_full : List Act
scenario_full =
    opens 2 (ascii "P1AA")
    ∷ opens 2 (ascii "P2BB")
    ∷ expects 1 t_lobby anything
    ∷ expects 2 t_lobby anything
    ∷ joins 2 (ascii "P1AA")
    ∷ expects 1 t_room anything
    ∷ expects 1 t_start (is_start 0 full_names)
    ∷ expects 2 t_room anything
    ∷ expects 2 t_start (is_start 1 full_names)
    ∷ opens 2 (ascii "PZZZ")
    ∷ expects 3 t_lobby anything
    ∷ joins 3 (ascii "P1AA")
    ∷ expects 3 t_lobby anything
    ∷ sends 2 (frame t_input (1 ∷ 7 ∷ 0 ∷ 0x40 ∷ 0 ∷ []))
    ∷ expects 1 t_input (is_bytes (1 ∷ 7 ∷ 0 ∷ 0x40 ∷ 0 ∷ []))
    ∷ silence 2
    ∷ closes 1
    ∷ closes 2
    ∷ closes 3
    ∷ []
