-- ===== src/Diff/Legacy.antt =====
-- tools/server_diff.py: the scenarios of protocol 1, `v1_roster_order` to `v1_drops`.
use fujinet_intv_basketball.Base.{ascii, ◌/◌, ◌%◌, List, [], ◌∷◌, ◌++◌}
use fujinet_intv_basketball.Wire.{
  frame, pad_name, t_hello, t_join, t_input, t_state, t_resync, t_bye, t_ping, t_go,
}
use fujinet_intv_basketball.Diff.Harness.{Act, connect, send, close, settle, hello}
use fujinet_intv_basketball.Diff.Scripts.{each, asks, joins, reports, count_up}

abbrev pub v1_roster_order : List Act
v1_roster_order =
    hello 1 0 (ascii "ALICE")
    ++ hello 1 1 (ascii "BOB")
    ++ hello 1 2 (ascii "CAROL")
    ++ asks 0
      ∷ asks 1
      ∷ asks 2
      ∷ settle (ascii "LIST from each")
      ∷ send 2 (frame t_hello (1 ∷ ascii "CAROL2"))
      ∷ settle (ascii "CAROL renames to CAROL2")
      ∷ hello 1 3 (ascii "DAVE")
    ++ send 3 (frame t_hello (1 ∷ ascii "BOB"))
      ∷ settle (ascii "DAVE steals the name BOB")
      ∷ asks 0
      ∷ asks 3
      ∷ settle (ascii "LIST after the churn")
      ∷ close 0
      ∷ settle (ascii "ALICE disconnects")
      ∷ asks 3
      ∷ settle (ascii "LIST after a drop")
      ∷ hello 7 4 (ascii "EVE")
    ++ asks 4 ∷ settle (ascii "HELLO with an absurd version byte is accepted") ∷ []

abbrev pub v1_pairing : List Act
v1_pairing =
    hello 1 0 (ascii "ALICE")
    ++ hello 1 1 (ascii "BOB")
    ++ hello 1 2 (ascii "CAROL")
    ++ asks 2
      ∷ settle (ascii "status: everyone idle (0)")
      ∷ joins 1 (ascii "ALICE")
      ∷ settle (ascii "BOB joins ALICE -> both START")
      ∷ asks 2
      ∷ settle (ascii "status: both busy (1)")
      ∷ joins 2 (ascii "ALICE")
      ∷ settle (ascii "JOIN a busy player -> LOBBY")
      ∷ joins 2 (ascii "NOBODY")
      ∷ settle (ascii "JOIN an unknown name -> LOBBY")
      ∷ joins 2 (ascii "CAROL")
      ∷ settle (ascii "self-join -> LOBBY")
      ∷ send 2 (frame t_join (ascii "THISNAMEISWAYTOOLONG"))
      ∷ settle (ascii "JOIN an over-long name -> LOBBY")
      ∷ joins 1 (ascii "CAROL")
      ∷ settle (ascii "JOIN while matched is silent")
      ∷ send 0 (frame t_ping [])
      ∷ settle (ascii "PING -> PONG")
      ∷ send 2 (frame t_go [])
      ∷ settle (ascii "GO is an unknown type in v1")
      ∷ []

abbrev pub v1_relay_crc : List Act
v1_relay_crc =
    hello 1 0 (ascii "ALICE")
    ++ hello 1 1 (ascii "BOB")
    ++ send 0 (frame t_input (1 ∷ 0 ∷ 0x40 ∷ 0 ∷ []))
      ∷ settle (ascii "relay before a match (dropped)")
      ∷ joins 1 (ascii "ALICE")
      ∷ settle (ascii "BOB joins ALICE")
      ∷ send 0 (frame t_input (7 ∷ 0 ∷ 0x40 ∷ 0 ∷ []))
      ∷ settle (ascii "INPUT fanout (untagged, 4 bytes)")
      ∷ send 1 (frame t_state (0 ∷ 0 ∷ count_up 96 0))
      ∷ settle (ascii "96-byte STATE fanout")
      ∷ send 0 (frame t_resync (5 ∷ 0 ∷ []))
      ∷ settle (ascii "RESYNC fanout")
      ∷ each 4 0
          (λ t. reports 0 (t ∷ 0 ∷ 0x11 ∷ 0x22 ∷ []) ∷ reports 1 (t ∷ 0 ∷ 0x11 ∷ 0x22 ∷ []) ∷ [])
    ++ settle (ascii "four agreed CRC pairs")
      ∷ reports 0 (9 ∷ 0 ∷ 0xAA ∷ 0x00 ∷ [])
      ∷ reports 1 (9 ∷ 0 ∷ 0xBB ∷ 0x00 ∷ [])
      ∷ settle (ascii "a CRC mismatch")
      ∷ each 70 100 (λ t. reports 0 (t % 256 ∷ t / 256 ∷ 0x33 ∷ 0x44 ∷ []) ∷ [])
    ++ settle (ascii "70 unanswered ticks (eviction)")
      ∷ reports 1 (100 ∷ 0 ∷ 0x33 ∷ 0x44 ∷ [])
      ∷ settle (ascii "answer an evicted tick")
      ∷ reports 1 (169 ∷ 0 ∷ 0x33 ∷ 0x44 ∷ [])
      ∷ settle (ascii "answer a surviving tick")
      ∷ []

abbrev pub v1_drops : List Act
v1_drops =
    hello 1 0 (ascii "ALICE")
    ++ hello 1 1 (ascii "BOB")
    ++ joins 1 (ascii "ALICE")
      ∷ settle (ascii "BOB joins ALICE")
      ∷ close 1
      ∷ settle (ascii "partner leaves -> PEER_LEFT")
      ∷ asks 0
      ∷ settle (ascii "ALICE is idle again")
      ∷ hello 1 2 (ascii "CAROL")
    ++ send 2 (frame t_bye []) ∷ settle (ascii "BYE") ∷ hello 1 3 (ascii "DAVE")
    ++ send 3 (frame t_hello (1 ∷ ascii "!!"))
      ∷ settle (ascii "a bad name drops the connection")
      ∷ connect (ascii "NOHELLO")
      ∷ send 4 (frame t_join (pad_name (ascii "ALICE")))
      ∷ settle (ascii "JOIN before HELLO drops")
      ∷ []
