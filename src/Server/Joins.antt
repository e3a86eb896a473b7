-- ===== src/Server/Joins.antt =====
-- What a JOIN that is not refused does: `on_join`, where no socket fails.
use fujinet_intv_basketball.Base.{
  ℕ, suc, Bool-cases, ◌+◌, ◌≤◌, ◌≡◌, refl, ap, ◌∙◌, true, false, none, some, List, [], ◌∷◌, ◌++◌,
  Bytes, arith, length, All, contains, get_elem?, ◌==◌, subst, find, sym, Option-cases, inl, inr,
}
use fujinet_intv_basketball.Wire.{t_room}
use fujinet_intv_basketball.Wire.Sizes.{length-frame}
use fujinet_intv_basketball.Names.{read_name}
use fujinet_intv_basketball.Server.Types.{Client, Room, State, System, roster_slots}
use fujinet_intv_basketball.Server.State.{no_room, lobby_update}
use fujinet_intv_basketball.Server.Conn.{roster, room_broadcast, room_broadcast_with, send}
use fujinet_intv_basketball.Server.Handlers.{
  open_room, seat_in, is_closed_room, refuses, announce, enter, join_target, on_join,
}
use fujinet_intv_basketball.Server.Sound.{Sound}
use fujinet_intv_basketball.Server.Keeps.{length-roster}
use fujinet_intv_basketball.Server.Writes.{open_room-Sound, seat_in-Sound, named-made}
use fujinet_intv_basketball.Server.Streams.{stream}
use fujinet_intv_basketball.Server.Fanout.{IsHealthy, HasSlack}
use fujinet_intv_basketball.Server.Fanned.{Spread, for_members-Spread}
use fujinet_intv_basketball.Server.Starts.{pads-cong}
use fujinet_intv_basketball.Server.Seated.{
  party, party_alone, party_seated, room_frame, Seated, seat_in-Seated, open_room-Seated,
}

-- What a JOIN of `c` to `target` has done that put both in room `r`.
pub record Joined (c target r : ℕ) (ms : List ℕ) (s t : State) : Type 0 where
  pub members : (t.rooms r).members ≡ ms
  pub waiting : (t.rooms r).started ≡ false
  pub mine : (t.heap c).room ≡ some r
  pub theirs : (t.heap target).room ≡ some r
  pub told :
      (i m : ℕ) → get_elem? ms i ≡ some m → stream (t.heap m) ≡ stream (s.heap m) ++ room_frame ms s
  pub alive : (i m : ℕ) → get_elem? ms i ≡ some m → (t.heap m).dead ≡ (s.heap m).dead
  pub backlog :
      (i m : ℕ)
      → get_elem? ms i ≡ some m
      → length (t.heap m).tx ≤ length (s.heap m).tx + length (room_frame ms s)
  pub spared : (e : ℕ) → contains e ms ≡ false → t.heap e ≡ s.heap e
  pub same_delay : t.delay ≡ s.delay
  pub names : (e : ℕ) → (t.heap e).name ≡ (s.heap e).name

slack-cong :
    (n : ℕ) (ms : List ℕ) (s u : State)
    → ((e : ℕ) → (u.heap e).dead ≡ (s.heap e).dead)
    → ((e : ℕ) → (u.heap e).tx ≡ (s.heap e).tx)
    → All (λ m. HasSlack n (s.heap m)) ms
    → All (λ m. HasSlack n (u.heap m)) ms
slack-cong n [] s u deads txs h = tt
slack-cong n (m ∷ ms) s u deads txs h =
    ((deads m ∙ h.0.0, rw (txs m) h.0.1), slack-cong n ms s u deads txs h.1)

pub length-room_frame :
    (ms : List ℕ) (s : State) → length ms ≤ roster_slots → length (room_frame ms s) ≡ 35
length-room_frame ms s few = omega (
  arith,
  length-frame t_room (length ms ∷ roster (record no_room { members = ms }) s),
  length-roster (record no_room { members = ms }) s few,
)

Spread-lobby_update :
    (bytes : ℕ → Bytes) (ms : List ℕ) (s t : State)
    → Spread bytes ms s t
    → Spread bytes ms s (lobby_update t)
unfolding lobby_update
Spread-lobby_update bytes ms s t f = record {
  reached = f.reached;
  spared = f.spared;
  rooms = f.rooms;
  same_delay = f.same_delay;
  same_auto_go = f.same_auto_go;
}

contains-get_elem? :
    (ms : List ℕ) (e : ℕ) → contains e ms ≡ true → (i : ℕ) × (get_elem? ms i ≡ some e)
contains-get_elem? [] e h = cc
contains-get_elem? (m ∷ ms) e h = elim (Bool-cases (e == m)) [
  | inl here ↦ (0, ground arith)
  | inr away ↦ let (i, at) = contains-get_elem? ms e (ground arith) in (suc i, at)
]

module _ (sys : System) (healthy : IsHealthy sys) where
  announce_manual :
      (r : ℕ) (u : State)
      → (room_broadcast sys r u).auto_go ≡ 0
      → announce sys r u ≡ lobby_update (room_broadcast sys r u)
  unfolding announce lobby_update
  announce_manual r u off = rw off refl

  room_broadcast-Spread :
      (r : ℕ) (u : State)
      → Sound u
      → All (λ m. HasSlack 35 (u.heap m)) (u.rooms r).members
      → Spread
          (λ _. room_frame (u.rooms r).members u)
          (u.rooms r).members
          u
          (room_broadcast sys r u)
  unfolding room_broadcast room_broadcast_with send roster
  room_broadcast-Spread r u v ready =
      for_members-Spread sys healthy 35 r (λ _. room_frame (u.rooms r).members u) u
        (λ j. omega (arith, length-room_frame (u.rooms r).members u, v.capacity r)) (v.distinct r)
        ready

  -- Without an automatic start the broadcast is all that `announce` does.
  announce-Spread :
      (r : ℕ) (u : State)
      → Sound u
      → u.auto_go ≡ 0
      → All (λ m. HasSlack 35 (u.heap m)) (u.rooms r).members
      → Spread (λ _. room_frame (u.rooms r).members u) (u.rooms r).members u (announce sys r u)
  announce-Spread r u v manual ready =
      let f = room_broadcast-Spread r u v ready in
      rw (announce_manual r u (f.same_auto_go ∙ manual)) (
        Spread-lobby_update (λ _. room_frame (u.rooms r).members u) (u.rooms r).members u
          (room_broadcast sys r u) f)

  room_frame-cong :
      (ms : List ℕ) (r : ℕ) (s u : State) → Seated ms r s u → room_frame ms u ≡ room_frame ms s
  unfolding roster
  room_frame-cong ms r s u d = rw (pads-cong ms s u d.names) refl

  Joined-announce :
      (c target r : ℕ) (ms : List ℕ) (s u t : State)
      → Seated ms r s u
      → Spread (λ _. room_frame ms s) ms u t
      → (u.heap c).room ≡ some r
      → (u.heap target).room ≡ some r
      → contains c ms ≡ true
      → contains target ms ≡ true
      → Joined c target r ms s t
  Joined-announce c target r ms s u t d f mine theirs in_c in_target = record {
    members = ap (λ (g : ℕ → Room). (g r).members) f.rooms ∙ d.members;
    waiting = ap (λ (g : ℕ → Room). (g r).started) f.rooms ∙ d.waiting;
    mine = kept c in_c ∙ mine;
    theirs = kept target in_target ∙ theirs;
    told = λ i m h. (f.reached i m h).sent ∙ ap (λ b. b ++ room_frame ms s) (d.streams m);
    alive = λ i m h. (f.reached i m h).alive ∙ d.deads m;
    backlog = λ i m h. omega (arith, (f.reached i m h).backlog, ap length (d.backlogs m));
    spared = λ e h. f.spared e h ∙ d.outside e h;
    same_delay = f.same_delay ∙ d.same_delay;
    names = λ e. named e ∙ d.names e;
  }
    where
      kept : (e : ℕ) → contains e ms ≡ true → (t.heap e).room ≡ (u.heap e).room
      kept e h = let (i, at) = contains-get_elem? ms e h in (f.reached i e at).same_room

      named : (e : ℕ) → (t.heap e).name ≡ (u.heap e).name
      named e = elim (Bool-cases (contains e ms)) [
        | inl h ↦ let (i, at) = contains-get_elem? ms e h in (f.reached i e at).same_name
        | inr h ↦ ap (λ (k : Client). k.name) (f.spared e h)
      ]

  announce-Joined :
      (c target r : ℕ) (ms : List ℕ) (s u : State)
      → Seated ms r s u
      → Sound u
      → s.auto_go ≡ 0
      → All (λ m. HasSlack 35 (s.heap m)) ms
      → (u.heap c).room ≡ some r
      → (u.heap target).room ≡ some r
      → Joined c target r ms s (announce sys r u)
  announce-Joined c target r ms s u d v manual ready mine theirs =
      let same : (u.rooms r).members ≡ ms = d.members in
      let f : Spread (λ _. room_frame ms u) ms u (announce sys r u) =
        subst (λ l. Spread (λ _. room_frame l u) l u (announce sys r u)) same
          (announce-Spread r u v (d.same_auto_go ∙ manual)
            (rw same (slack-cong 35 ms s u d.deads d.backlogs ready))) in
      Joined-announce c target r ms s u (announce sys r u) d
        (subst (λ b. Spread (λ _. b) ms u (announce sys r u)) (room_frame-cong ms r s u d) f) mine
        theirs (subst (λ l. contains c l ≡ true) same (v.linked c r mine))
        (subst (λ l. contains target l ≡ true) same (v.linked target r theirs))

  enter-Joined :
      (c target : ℕ) (n : Bytes) (s : State)
      → Sound s
      → s.auto_go ≡ 0
      → (s.heap c).name ≡ some n
      → (s.heap c).room ≡ none
      → refuses c target s ≡ false
      → All (λ m. HasSlack 35 (s.heap m)) (party target s ++ c ∷ [])
      → (r : ℕ) × Joined c target r (party target s ++ c ∷ []) s (enter sys c target s)
  unfolding enter refuses is_closed_room
  enter-Joined c target n s v manual mine alone admitted ready =
      elim (Option-cases (s.heap target).room) [
        | inl e ↦
            let o = open_room target s in
            let vo = open_room-Sound target s e (named-made c target s admitted v) v in
            let u = seat_in c s.next_room o in
            let vu =
              seat_in-Sound c s.next_room o (unfold open_room in ground arith)
                (unfold open_room in omega arith) (unfold open_room in ground arith)
                (unfold open_room in v.named c n mine) (λ f m. unfold open_room in ground arith)
                vo in
            let who : party target s ++ c ∷ [] ≡ target ∷ c ∷ [] = party_alone c target s e in
            (
              s.next_room,
              rw (e, enter)
                  (subst (λ ms. Joined c target s.next_room ms s (announce sys s.next_room u))
                    (sym who)
                    (announce-Joined c target s.next_room (target ∷ c ∷ []) s u
                      (open_room-Seated c target s) vu manual (rw who at ready)
                      (unfold seat_in open_room in ground arith)
                      (unfold seat_in open_room in ground arith))),
            )
        | inr (r, e) ↦
            let u = seat_in c r s in
            let vu =
              seat_in-Sound c r s (ground arith) (v.allocated target r e) alone (v.named c n mine)
                (λ f. v.backed target r f e) v in
            let who : party target s ++ c ∷ [] ≡ (s.rooms r).members ++ c ∷ [] =
              party_seated c target r s e in
            (
              r,
              rw (e, enter)
                  (subst (λ ms. Joined c target r ms s (announce sys r u)) (sym who)
                    (announce-Joined c target r ((s.rooms r).members ++ c ∷ []) s u
                      (seat_in-Seated c target r s e (ground arith)) vu manual (rw who at ready)
                      (unfold seat_in in ground arith) (unfold seat_in in ground arith))),
            )
      ]

  -- A JOIN of a client with a name and no room to a registered name that is not refused, in a sound
  -- state of a server without automatic starts, where no socket fails and everyone concerned is
  -- alive with room in the backlog: both end in one room that has not started, whose members are those of the
  -- target's room, or the target alone, and then the sender; each of them is sent one ROOM frame
  -- with their number and their names in that order, and nobody else is touched.
  pub on_join_seats :
      (c target : ℕ) (n p : Bytes) (s : State)
      → Sound s
      → s.auto_go ≡ 0
      → (s.heap c).name ≡ some n
      → (s.heap c).room ≡ none
      → find (read_name p) s.by_name ≡ some target
      → refuses c target s ≡ false
      → All (λ m. HasSlack 35 (s.heap m)) (party target s ++ c ∷ [])
      → (r : ℕ) × (t : State) × (on_join sys c p s ≡ some t)
        × Joined c target r (party target s ++ c ∷ []) s t
  unfolding on_join join_target
  on_join_seats c target n p s v manual mine alone known admitted ready =
      let (r, j) = enter-Joined c target n s v manual mine alone admitted ready in
      (
        r,
        enter sys c target s,
        rw (mine, on_join) (rw (alone, on_join) (rw (known, admitted) refl)),
        j,
      )
