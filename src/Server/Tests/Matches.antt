-- ===== src/Server/Tests/Matches.antt =====
-- The theorems on rooms and the start of a match at concrete states.
use fujinet_intv_basketball.Base.{
  true, all, ltb, ◌++◌, IsByte, Bytes, All, length, refl, none, some, [], ◌∷◌, ◌≡◌, arith, ◌==◌,
  if◌then◌else◌, IsDistinct, if_ind, bytes_eq→eq, bytes_eq_refl, ℕ,
}
use fujinet_intv_basketball.Server.Runs.{HearsEvent}
use fujinet_intv_basketball.Server.Bytes.{Bytewise}
use fujinet_intv_basketball.Server.Bytewise.{run-Bytewise}
use fujinet_intv_basketball.Wire.{frame, t_join, t_go, t_hello}
use fujinet_intv_basketball.Names.{read_name}
use fujinet_intv_basketball.Server.Types.{Room, State}
use fujinet_intv_basketball.Server.State.{no_client, no_room, create}
use fujinet_intv_basketball.Server.Handlers.{log_crc, handle, on_go, on_join, refuses}
use fujinet_intv_basketball.Server.Loop.{run}
use fujinet_intv_basketball.Server.Sound.{Sound}
use fujinet_intv_basketball.Server.Seating.{run-Sound}
use fujinet_intv_basketball.Server.Starts.{Started, on_go_starts}
use fujinet_intv_basketball.Server.Joins.{Joined, on_join_seats}
use fujinet_intv_basketball.Server.Rounds.{Judged, log_crc_round}
use fujinet_intv_basketball.Server.Main
use fujinet_intv_basketball.Server.Main.{serve_with, finish, default_options}
use fujinet_intv_basketball.Server.Told.{serve_tells}
use fujinet_intv_basketball.Publisher.{Publisher}
use mathlib.Core.Option
use fujinet_intv_basketball.Server.Kickoff.{Underway, join_then_go}
use fujinet_intv_basketball.Server.Tests.{
  names_admitted, calm, calm-IsHealthy, alice, bob, start, opening, member,
}

run-Sound_example : Sound (run calm opening (create 3 none 0))
run-Sound_example = run-Sound calm opening 3 none 0

-- The options of the production run.
abbrev enabled : Main.Options
enabled = record default_options { lobby_enabled = true }

serve_tells_example :
    Option.map (λ (p : Publisher). p.payload) (serve_with calm enabled opening).lobby
    ≡ some (record { online = true; curplayers = length (serve_with calm enabled opening).by_name })
serve_tells_example = serve_tells calm enabled opening

-- Two players with names and no rooms.
abbrev idle : State
idle = record start {
  heap = λ k.
      if k == 0
      then record (member alice) { room = none }
      else (if k == 1 then record (member bob) { room = none } else no_client);
  next_client = 2;
  clients = 1 ∷ 0 ∷ [];
  by_name = (alice, 0) ∷ (bob, 1) ∷ [];
}

idle-Sound : Sound idle
unfolding create
idle-Sound = record {
  capacity = λ r. omega arith;
  linked = λ c r h. ground arith;
  backed = λ c r e h m. ground arith;
  distinct = λ r. tt;
  allocated = λ c r h. ground arith;
  present = λ c h. ground arith;
  handed = λ c h. ground arith;
  named = λ c n h. ground arith;
  seated = λ r e m. cc;
  keyed = (refl, (refl, tt));
  registered = λ c n l h. ground (arith, bytes_eq_refl alice, bytes_eq_refl bob);
  entered = λ c n h. ground (arith, bytes_eq→eq n alice, bytes_eq→eq n bob);
  admitted = λ c n h. ground (arith, names_admitted.0, names_admitted.1);
}

-- The same two in a room that has not started.
abbrev paired : State
paired = record idle {
  heap = λ k. if k == 0 then member alice else (if k == 1 then member bob else no_client);
  rooms = λ r. if r == 0 then record no_room { members = 0 ∷ 1 ∷ [] } else no_room;
  next_room = 1;
}

paired-Sound : Sound paired
unfolding create
paired-Sound = record {
  capacity = λ r. ground arith;
  linked = λ c r h. ground arith;
  backed = λ c r e h m. ground arith;
  distinct = λ r.
      if_ind (λ (room : Room). IsDistinct room.members) (r == 0) (λ _. (refl, (refl, tt)))
        (λ _. tt);
  allocated = λ c r h. ground arith;
  present = λ c h. ground arith;
  handed = λ c h. ground arith;
  named = λ c n h. ground arith;
  seated = λ r e m. ground arith;
  keyed = (refl, (refl, tt));
  registered = λ c n l h. ground (arith, bytes_eq_refl alice, bytes_eq_refl bob);
  entered = λ c n h. ground (arith, bytes_eq→eq n alice, bytes_eq→eq n bob);
  admitted = λ c n h. ground (arith, names_admitted.0, names_admitted.1);
}

on_go_starts_example : Started 0 0x1234 paired (on_go calm 0 paired)
on_go_starts_example =
    on_go_starts calm calm-IsHealthy 0 0 paired paired-Sound refl refl refl (omega arith)
      ((refl, omega arith), ((refl, omega arith), tt))

-- Seat 1 joins by the name of seat 0.
on_join_seats_example :
    (r : ℕ) × (t : State) × (on_join calm 1 alice idle ≡ some t) × Joined 1 0 r (0 ∷ 1 ∷ []) idle t
unfolding read_name create
on_join_seats_example =
    on_join_seats calm calm-IsHealthy 1 0 bob alice idle idle-Sound refl refl refl refl
      (unfold refuses in refl) ((refl, omega arith), ((refl, omega arith), tt))

join_then_go_example :
    (r seed : ℕ) × (t u : State) × (handle calm 1 t_join alice idle ≡ some t)
    × (handle calm 0 t_go [] t ≡ some u)
    × Underway 0 1 r seed idle u
unfolding read_name create
join_then_go_example =
    join_then_go calm calm-IsHealthy 0 1 alice bob alice [] idle idle-Sound refl (ground arith) refl
      refl refl refl refl (refl, omega arith) (refl, omega arith)

-- The round of tick 320 that the client simulator spoils.
abbrev report_0 : Bytes
report_0 = 0 ∷ 64 ∷ 1 ∷ 0x11 ∷ 0x11 ∷ []

abbrev report_1 : Bytes
report_1 = 1 ∷ 64 ∷ 1 ∷ 0x22 ∷ 0x22 ∷ []

log_crc_round_example :
    Judged 0 report_0 report_1 paired (log_crc 0 report_1 (log_crc 0 report_0 paired))
unfolding create
log_crc_round_example =
    log_crc_round 0 report_0 report_1 paired refl refl (omega arith) refl (omega arith)

all_bytes : (bs : Bytes) → all (λ b. ltb b 256) bs ≡ true → All IsByte bs
all_bytes [] h = tt
all_bytes (b ∷ bs) h = (ground arith, all_bytes bs (ground arith))

-- All that is received in the opening is bytes.
opening-bytes : All (HearsEvent (All IsByte)) opening
unfolding frame
opening-bytes = (
  tt,
  (
    tt,
    (
      all_bytes (frame t_hello (2 ∷ alice)) refl,
      (
        all_bytes (frame t_hello (2 ∷ bob) ++ frame t_join alice) refl,
        (all_bytes (frame t_go []) refl, tt),
      ),
    ),
  ),
)

run-Bytewise_example : Bytewise (run calm opening (create 3 none 0))
run-Bytewise_example =
    run-Bytewise calm (λ clock. omega arith) opening 3 none 0 (omega arith) opening-bytes
