-- ===== src/Server/Seated.antt =====
-- Who is in the room that a JOIN leads to, and that the joiner comes behind them.
use fujinet_intv_basketball.Base.{
  ℕ, ◌≡◌, refl, ap, false, Option, none, some, List, [], ◌∷◌, ◌++◌, Bytes, arith, length, contains,
  contains_append,
}
use fujinet_intv_basketball.Wire.{frame, t_room}
use fujinet_intv_basketball.Server.Types.{State}
use fujinet_intv_basketball.Server.State.{no_room}
use fujinet_intv_basketball.Server.Conn.{roster}
use fujinet_intv_basketball.Server.Handlers.{open_room, seat_in}
use fujinet_intv_basketball.Server.Streams.{stream}

-- Who is in the room of `target`, or will be when it opens one.
abbrev pub party : ℕ → State → List ℕ
party target s = elim (s.heap target).room [ none ↦ target ∷ [] | some r ↦ (s.rooms r).members ]

abbrev guests : ℕ → State → Option ℕ → List ℕ
guests target s o = elim o [ none ↦ target ∷ [] | some r ↦ (s.rooms r).members ]

pub party_alone :
    (c target : ℕ) (s : State)
    → (s.heap target).room ≡ none
    → party target s ++ c ∷ [] ≡ target ∷ c ∷ []
party_alone c target s e = ap (λ o. guests target s o ++ c ∷ []) e

pub party_seated :
    (c target r : ℕ) (s : State)
    → (s.heap target).room ≡ some r
    → party target s ++ c ∷ [] ≡ (s.rooms r).members ++ c ∷ []
party_seated c target r s e = ap (λ o. guests target s o ++ c ∷ []) e

-- The ROOM frame for a room of `ms`.
abbrev pub room_frame : List ℕ → State → Bytes
room_frame ms s = frame t_room (length ms ∷ roster (record no_room { members = ms }) s)

-- The state between the writes of a JOIN and its broadcast: room `r` is that of `ms`.
pub record Seated (ms : List ℕ) (r : ℕ) (s u : State) : Type 0 where
  pub members : (u.rooms r).members ≡ ms
  pub waiting : (u.rooms r).started ≡ false
  pub streams : (e : ℕ) → stream (u.heap e) ≡ stream (s.heap e)
  pub deads : (e : ℕ) → (u.heap e).dead ≡ (s.heap e).dead
  pub backlogs : (e : ℕ) → (u.heap e).tx ≡ (s.heap e).tx
  pub names : (e : ℕ) → (u.heap e).name ≡ (s.heap e).name
  pub outside : (e : ℕ) → contains e ms ≡ false → u.heap e ≡ s.heap e
  pub same_delay : u.delay ≡ s.delay
  pub same_auto_go : u.auto_go ≡ s.auto_go

pub seat_in-Seated :
    (c target r : ℕ) (s : State)
    → (s.heap target).room ≡ some r
    → (s.rooms r).started ≡ false
    → Seated ((s.rooms r).members ++ c ∷ []) r s (seat_in c r s)
unfolding seat_in
seat_in-Seated c target r s e waiting = record {
  members = ground arith;
  waiting = ground arith;
  streams = λ e. ground arith;
  deads = λ e. ground arith;
  backlogs = λ e. ground arith;
  names = λ e. ground arith;
  outside = λ e h. ground (arith, contains_append e c (s.rooms r).members);
  same_delay = refl;
  same_auto_go = refl;
}

pub open_room-Seated :
    (c target : ℕ) (s : State)
    → Seated (target ∷ c ∷ []) s.next_room s (seat_in c s.next_room (open_room target s))
unfolding seat_in open_room
open_room-Seated c target s = record {
  members = ground arith;
  waiting = ground arith;
  streams = λ e. ground arith;
  deads = λ e. ground arith;
  backlogs = λ e. ground arith;
  names = λ e. ground arith;
  outside = λ e h. ground arith;
  same_delay = refl;
  same_auto_go = refl;
}
