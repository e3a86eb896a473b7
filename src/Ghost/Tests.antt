-- ===== src/Ghost/Tests.antt =====
-- The opponent on concrete frames.
use fujinet_intv_basketball.Base.{
  ℕ, suc, ◌≡◌, refl, true, false, none, some, List, [], ◌∷◌, ◌++◌, All, Bytes, arith, length,
}
use fujinet_intv_basketball.Wire.{frame, t_input, t_crc}
use fujinet_intv_basketball.Ghost.{Options, Peer, react, has_passed}
use fujinet_intv_basketball.Ghost.Main.{
  Pass, chunk, ghost_hello, drain_buf, ghost_loop, start_ghost, exits_ok,
}
use fujinet_intv_basketball.Ghost.Refused.{IsSilent, ghost_refused}
use fujinet_intv_basketball.Server.Types.{State, System, accepted, received}
use fujinet_intv_basketball.Server.State.{create}
use fujinet_intv_basketball.Server.Loop.{connection, run, service}
use fujinet_intv_basketball.Server.Seating.{run-Sound}
use fujinet_intv_basketball.Server.Drops.{Gone}

abbrev plain : Options
plain = record { name = b'G' ∷ b'H' ∷ []; mirror = false; pitch_at = 0 }

abbrev fresh : Peer
fresh = record {
  matched = false;
  inputs = 0;
  crcs = 0;
  max_tick = 0;
  crc_ticks = [];
  leaving = false;
  sent = [];
}

abbrev press : Bytes
press = 5 ∷ 1 ∷ 0x44 ∷ 0 ∷ []

-- A length byte of zero is passed over, and the byte behind it is read as the next frame's length.
drain_buf_runs : drain_buf plain (0 ∷ 2 ∷ t_input ∷ []) fresh ≡ some (2 ∷ t_input ∷ [], fresh)
unfolding drain_buf react
drain_buf_runs = refl

-- The CRC that it has seen, and the INPUT of the tick that it wants.
ghost_runs :
    exits_ok 261 (
      ghost_loop plain 261
        (record {
          head = 5;
          polled = 5;
          listed = 5;
          answer = chunk (frame t_crc press ++ frame t_input press);
          left = 5;
        }
          ∷ [])
        (start_ghost plain 0 1000))
    ≡ true
unfolding exits_ok ghost_loop start_ghost drain_buf react frame has_passed
ghost_runs = refl

abbrev calm : System
calm = record { sock_send = λ clock c b. accepted (suc (length b)); randrange = λ clock. 1 }

-- The server once the opponent has connected.
abbrev connected : State
connected = run calm (connection 1 1 0 ∷ []) (create 3 none 0)

ghost_refused_example :
    Gone 0 (service calm 0 (received (ghost_hello plain.name)) connected)
    × ((want now timeout : ℕ) (ps : List Pass)
        → All IsSilent ps
        → exits_ok want (ghost_loop plain want ps (start_ghost plain now timeout)) ≡ false)
unfolding create run
ghost_refused_example =
    ghost_refused calm 0 plain connected (run-Sound calm (connection 1 1 0 ∷ []) 3 none 0) refl refl
      (omega arith)
