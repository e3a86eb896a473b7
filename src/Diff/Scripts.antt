-- ===== src/Diff/Scripts.antt =====
-- tools/server_diff.py: the scenarios `s1_roster_order` to `s7_limits`.
use fujinet_intv_basketball.Base.{
  ascii, ℕ, zero, suc, ◌+◌, ◌/◌, ◌%◌, List, [], ◌∷◌, ◌++◌, Bytes, take, drop, leb, if◌then◌else◌,
}
use fujinet_intv_basketball.Wire.{
  frame, pad_name, t_hello, t_list, t_join, t_input, t_crc, t_state, t_resync, t_bye, t_ping, t_go,
}
use fujinet_intv_basketball.Diff.Harness.{Act, connect, send, close, settle, hello}

-- `for t in range(first, first + n)`
unfoldable pub each : ℕ → ℕ → (ℕ → List Act) → List Act
each zero first body = []
each (suc n) first body = body first ++ each n (suc first) body

abbrev pub asks : ℕ → Act
asks c = send c (frame t_list [])

abbrev pub joins : ℕ → Bytes → Act
joins c name = send c (frame t_join (pad_name name))

abbrev pub reports : ℕ → Bytes → Act
reports c payload = send c (frame t_crc payload)

-- `bytes([0, 0]) + bytes(range(96))`
unfoldable pub count_up : ℕ → ℕ → Bytes
count_up zero b = []
count_up (suc n) b = b ∷ count_up n (suc b)

unfoldable pub s1_roster_order : ℕ → List Act
unfolding hello frame
s1_roster_order proto =
    hello proto 0 (ascii "ALICE")
    ++ hello proto 1 (ascii "BOB")
    ++ hello proto 2 (ascii "CAROL")
    ++ hello proto 3 (ascii "DAVE")
    ++ connect (ascii "OLDGUY")
      ∷ send 4 (frame t_hello (1 ∷ ascii "OLDGUY"))
      ∷ settle (ascii "v1 hello refused")
      ∷ asks 0
      ∷ asks 1
      ∷ asks 2
      ∷ asks 3
      ∷ settle (ascii "LIST from each")
      ∷ send 2 (frame t_hello (2 ∷ ascii "CAROL2"))
      ∷ settle (ascii "CAROL renames to CAROL2")
      ∷ hello proto 5 (ascii "EVE")
    ++ send 5 (frame t_hello (2 ∷ ascii "BOB"))
      ∷ settle (ascii "EVE steals the name BOB")
      ∷ asks 0
      ∷ asks 3
      ∷ asks 5
      ∷ settle (ascii "LIST after the churn")
      ∷ close 0
      ∷ settle (ascii "ALICE disconnects")
      ∷ asks 3
      ∷ asks 5
      ∷ settle (ascii "LIST after a drop")
      ∷ []

-- CAROL's JOIN, by the seats of a room.
abbrev third_join : ℕ → List Act
third_join seats =
    if leb 3 seats
    then joins 2 (ascii "BOB") ∷ settle (ascii "CAROL joins the guest BOB (redirect)") ∷ []
    else joins 2 (ascii "ALICE") ∷ settle (ascii "CAROL joins a full room (refused -> LOBBY)") ∷ []

unfoldable pub s2_rooms : ℕ → ℕ → List Act
unfolding hello frame pad_name
s2_rooms proto seats =
    hello proto 0 (ascii "ALICE")
    ++ hello proto 1 (ascii "BOB")
    ++ hello proto 2 (ascii "CAROL")
    ++ joins 1 (ascii "ALICE")
      ∷ settle (ascii "BOB joins ALICE")
      ∷ asks 2
      ∷ settle (ascii "status: forming room")
      ∷ third_join seats
    ++ joins 1 (ascii "ALICE")
      ∷ settle (ascii "in-room JOIN is silent")
      ∷ joins 2 (ascii "NOBODY")
      ∷ settle (ascii "JOIN unknown name -> LOBBY")
      ∷ joins 0 (ascii "ALICE")
      ∷ settle (ascii "self-join from an in-room client")
      ∷ hello proto 3 (ascii "DAVE")
    ++ joins 3 (ascii "DAVE")
      ∷ settle (ascii "DAVE self-join -> LOBBY")
      ∷ send 3 (frame t_join (ascii "THISNAMEISWAYTOOLONG"))
      ∷ settle (ascii "JOIN an over-long name -> LOBBY")
      ∷ []

unfoldable pub s3_go_start : ℕ → List Act
unfolding hello frame pad_name
s3_go_start proto =
    hello proto 0 (ascii "ALICE")
    ++ hello proto 1 (ascii "BOB")
    ++ send 0 (frame t_go [])
      ∷ settle (ascii "GO with no room (ignored)")
      ∷ joins 1 (ascii "ALICE")
      ∷ settle (ascii "BOB joins ALICE")
      ∷ send 1 (frame t_go [])
      ∷ settle (ascii "guest GO (ignored)")
      ∷ send 0 (frame t_go [])
      ∷ settle (ascii "host GO -> START")
      ∷ send 0 (frame t_go [])
      ∷ settle (ascii "second GO on a started room (ignored)")
      ∷ hello proto 2 (ascii "CAROL")
    ++ joins 2 (ascii "ALICE")
      ∷ settle (ascii "join a started room -> LOBBY")
      ∷ send 0 (frame t_ping [])
      ∷ settle (ascii "PING -> PONG")
      ∷ []

unfoldable pub s4_relay_crc : ℕ → List Act
unfolding hello frame pad_name each count_up
s4_relay_crc proto =
    hello proto 0 (ascii "ALICE")
    ++ hello proto 1 (ascii "BOB")
    ++ send 0 (frame t_input (0 ∷ 1 ∷ 0 ∷ 0x40 ∷ 0 ∷ []))
      ∷ settle (ascii "relay before a room exists (dropped)")
      ∷ joins 1 (ascii "ALICE")
      ∷ settle (ascii "BOB joins ALICE")
      ∷ send 0 (frame t_input (0 ∷ 1 ∷ 0 ∷ 0x40 ∷ 0 ∷ []))
      ∷ settle (ascii "relay before start (dropped)")
      ∷ send 0 (frame t_go [])
      ∷ settle (ascii "host GO -> START")
      ∷ send 0 (frame t_input (0 ∷ 7 ∷ 0 ∷ 0x40 ∷ 0 ∷ []))
      ∷ settle (ascii "INPUT fanout")
      ∷ send 1 (frame t_state (0 ∷ 0 ∷ count_up 96 0))
      ∷ settle (ascii "96-byte STATE fanout")
      ∷ send 0 (frame t_resync (5 ∷ 0 ∷ []))
      ∷ settle (ascii "RESYNC fanout")
      ∷ each 4 0 (λ t.
        reports 0 (0 ∷ t ∷ 0 ∷ 0x11 ∷ 0x22 ∷ []) ∷ reports 1 (1 ∷ t ∷ 0 ∷ 0x11 ∷ 0x22 ∷ []) ∷ [])
    ++ settle (ascii "four agreed CRC rounds")
      ∷ reports 0 (0 ∷ 9 ∷ 0 ∷ 0xAA ∷ 0x00 ∷ [])
      ∷ reports 1 (1 ∷ 9 ∷ 0 ∷ 0xBB ∷ 0x00 ∷ [])
      ∷ settle (ascii "a CRC mismatch")
      ∷ each 70 100 (λ t. reports 0 (0 ∷ t % 256 ∷ t / 256 ∷ 0x33 ∷ 0x44 ∷ []) ∷ [])
    ++ settle (ascii "70 half-reported ticks (eviction)")
      ∷ reports 1 (1 ∷ 100 ∷ 0 ∷ 0x33 ∷ 0x44 ∷ [])
      ∷ settle (ascii "complete an evicted tick (no line)")
      ∷ reports 1 (1 ∷ 169 ∷ 0 ∷ 0x33 ∷ 0x44 ∷ [])
      ∷ settle (ascii "complete a surviving tick")
      ∷ reports 0 (3 ∷ 200 ∷ 0 ∷ 0x01 ∷ 0x00 ∷ [])
      ∷ reports 1 (1 ∷ 200 ∷ 0 ∷ 0x02 ∷ 0x00 ∷ [])
      ∷ settle (ascii "a lying seat index")
      ∷ []

unfoldable pub s5_drop_matrix : ℕ → List Act
unfolding hello frame pad_name
s5_drop_matrix proto =
    hello proto 0 (ascii "ALICE")
    ++ hello proto 1 (ascii "BOB")
    ++ joins 1 (ascii "ALICE")
      ∷ settle (ascii "BOB joins ALICE")
      ∷ send 0 (frame t_go [])
      ∷ settle (ascii "host GO -> START")
      ∷ close 1
      ∷ settle (ascii "guest leaves a STARTED room -> PEER_LEFT")
      ∷ hello proto 2 (ascii "CAROL")
    ++ hello proto 3 (ascii "DAVE")
    ++ joins 3 (ascii "CAROL")
      ∷ settle (ascii "DAVE joins CAROL")
      ∷ close 2
      ∷ settle (ascii "host leaves a FORMING room -> ROOM 0")
      ∷ hello proto 4 (ascii "EVE")
    ++ hello proto 5 (ascii "FRANK")
    ++ joins 5 (ascii "EVE")
      ∷ settle (ascii "FRANK joins EVE")
      ∷ close 5
      ∷ settle (ascii "guest leaves a FORMING room of 2 -> dissolve")
      ∷ hello proto 6 (ascii "GRACE")
    ++ send 6 (frame t_bye []) ∷ settle (ascii "BYE") ∷ hello proto 7 (ascii "HEIDI")
    ++ send 7 (frame t_hello (2 ∷ ascii "!!"))
      ∷ settle (ascii "a bad name drops the connection")
      ∷ []

-- `for byte in f: a.send(bytes([byte]))`
unfoldable pub dribbles : ℕ → Bytes → List Act
dribbles c [] = []
dribbles c (b ∷ bs) = send c (b ∷ []) ∷ dribbles c bs

unfoldable pub s6_framing : ℕ → List Act
unfolding hello frame pad_name dribbles
s6_framing proto =
    let ping = frame t_ping [] in
    let lists = frame t_list [] ++ frame t_list [] ++ frame t_list [] in
    let j = frame t_join (pad_name (ascii "NOBODY")) in
    hello proto 0 (ascii "ALICE")
    ++ dribbles 0 ping
    ++ settle (ascii "PING dribbled one byte at a time")
      ∷ send 0 (ping ++ ping)
      ∷ settle (ascii "two frames in one write")
      ∷ send 0 (take 2 lists)
      ∷ send 0 (drop 2 lists)
      ∷ settle (ascii "three LISTs split mid-frame")
      ∷ send 0 (take 1 j)
      ∷ send 0 (drop 1 (take 4 j))
      ∷ send 0 (drop 4 j)
      ∷ settle (ascii "JOIN in three fragments")
      ∷ connect (ascii "BADLEN")
      ∷ send 1 (0x00 ∷ [])
      ∷ settle (ascii "length byte 0 -> bad frame length")
      ∷ connect (ascii "BADLEN2")
      ∷ send 2 (0xC9 ∷ [])
      ∷ settle (ascii "length byte 201 -> bad frame length")
      ∷ hello proto 3 (ascii "DAVE")
    ++ send 3 (frame 0x7F []) ∷ settle (ascii "unknown type $7F") ∷ []

-- `f"IP{i}"` for a single digit
abbrev pub s7_limits : List Act
s7_limits =
    each 9 0 (λ i. connect (b'I' ∷ b'P' ∷ (b'0' + i) ∷ []) ∷ [])
    ++ settle (ascii "9 connections from one IP") ∷ []
