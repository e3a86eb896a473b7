-- ===== src/Server/Starts.antt =====
-- What a GO does: `on_go` and `start_room`, where no socket fails.
use fujinet_intv_basketball.Base.{
  ℕ, ◌/◌, ◌%◌, ◌≤◌, ◌≡◌, ◌≢◌, refl, ap, ◌∙◌, true, false, Option, none, some, List, [], ◌∷◌, Bytes,
  arith, length, All, contains, get_elem?, index, leb, ◌&&◌, ◌||◌, not, ◌==◌, ==_refl, subst,
}
use fujinet_intv_basketball.Wire.{frame, t_start}
use fujinet_intv_basketball.Wire.Sizes.{length-frame}
use fujinet_intv_basketball.Server.Types.{Room, State, System, max_seats}
use fujinet_intv_basketball.Server.State.{advance, lobby_update}
use fujinet_intv_basketball.Server.Conn.{pads, roster, name_of}
use fujinet_intv_basketball.Server.Handlers.{begin_match, start_common, start_room, on_go}
use fujinet_intv_basketball.Server.Sound.{Sound}
use fujinet_intv_basketball.Server.Keeps.{length-roster}
use fujinet_intv_basketball.Server.Fanout.{IsHealthy, HasSlack}
use fujinet_intv_basketball.Server.Fanned.{Got, for_members-Spread}

-- The START frame of seat `i`.
abbrev pub start_frame : ℕ → ℕ → ℕ → State → Bytes
start_frame r seed i s =
    frame t_start
      (i ∷ length (s.rooms r).members ∷ seed % 256 ∷ seed / 256 ∷ s.delay ∷ roster (s.rooms r) s)

-- What starting the match of room `r` with `seed` has done.
pub record Started (r seed : ℕ) (s t : State) : Type 0 where
  pub reached :
      (i m : ℕ)
      → get_elem? (s.rooms r).members i ≡ some m
      → Got (start_frame r seed i s) (s.heap m) (t.heap m)
  pub spared : (e : ℕ) → contains e (s.rooms r).members ≡ false → t.heap e ≡ s.heap e
  pub marked : (t.rooms r).started ≡ true
  pub same_members : (t.rooms r).members ≡ (s.rooms r).members
  pub other_rooms : (q : ℕ) → q ≢ r → t.rooms q ≡ s.rooms q

pub pads-cong :
    (ms : List ℕ) (s t : State)
    → ((m : ℕ) → (t.heap m).name ≡ (s.heap m).name)
    → pads ms t ≡ pads ms s
unfolding pads
pads-cong [] s t same = refl
pads-cong (m ∷ ms) s t same =
    let e : name_of m t ≡ name_of m s =
      ap (λ (o : Option Bytes). elim o [ none ↦ [] | some n ↦ n ]) (same m) in
    rw (pads-cong ms s t same, e) refl

-- The writes of `start_room` before the frames go out.
abbrev begin_with : ℕ → ℕ → State → State
begin_with r seed s = begin_match r seed (advance s)

begun-members :
    (r seed q : ℕ) (s : State) → ((begin_with r seed s).rooms q).members ≡ (s.rooms q).members
unfolding begin_match advance
begun-members r seed q s = ground arith

begun-started : (r seed : ℕ) (s : State) → ((begin_with r seed s).rooms r).started ≡ true
unfolding begin_match
begun-started r seed s = ground arith

begun-seed : (r seed : ℕ) (s : State) → ((begin_with r seed s).rooms r).seed ≡ seed
unfolding begin_match
begun-seed r seed s = ground arith

begun-others : (r seed q : ℕ) (s : State) → q ≢ r → (begin_with r seed s).rooms q ≡ s.rooms q
unfolding begin_match advance
begun-others r seed q s n = ground arith

begun-common :
    (r seed i : ℕ) (s : State)
    → frame t_start (i ∷ start_common r (begin_with r seed s)) ≡ start_frame r seed i s
unfolding start_common begin_match advance roster
begun-common r seed i s =
    rw (==_refl r, pads-cong (s.rooms r).members s (begin_with r seed s) (λ m. refl)) refl

length-start_frame : (r seed i : ℕ) (s : State) → Sound s → length (start_frame r seed i s) ≡ 39
length-start_frame r seed i s v = omega (
  arith,
  length-frame t_start
      (i ∷ length (s.rooms r).members ∷ seed % 256 ∷ seed / 256 ∷ s.delay ∷ roster (s.rooms r) s),
  length-roster (s.rooms r) s,
  v.capacity r,
)

module _ (sys : System) (healthy : IsHealthy sys) where
  -- With no failing socket, room in every backlog and two members or more, in a sound state.
  pub start_room-Started :
      (r : ℕ) (s : State)
      → Sound s
      → All (λ m. HasSlack 39 (s.heap m)) (s.rooms r).members
      → Started r (sys.randrange s.clock) s (start_room sys r s)
  unfolding start_room lobby_update
  start_room-Started r s v ready =
      let seed = sys.randrange s.clock in
      let begun = begin_with r seed s in
      let bytes : ℕ → Bytes = λ i. frame t_start (i ∷ start_common r begun) in
      let same = begun-members r seed r s in
      let f =
        for_members-Spread sys healthy 39 r bytes begun
          (λ j. rw (begun-common r seed j s) (omega (arith, length-start_frame r seed j s v)))
          (rw same (v.distinct r)) (rw same (unfold begin_match advance in ready)) in
      record {
        reached = λ i m h.
            subst (λ b. Got b (s.heap m) ((start_room sys r s).heap m)) (begun-common r seed i s)
              (unfold begin_match advance in f.reached i m (rw same h));
        spared = λ e h. unfold begin_match advance in f.spared e (rw same h);
        marked = ap (λ (g : ℕ → Room). (g r).started) f.rooms ∙ begun-started r seed s;
        same_members = ap (λ (g : ℕ → Room). (g r).members) f.rooms ∙ same;
        other_rooms = λ q n. ap (λ (g : ℕ → Room). g q) f.rooms ∙ begun-others r seed q s n;
      }

  -- A GO of the host of a room of two or more that has not started, in a sound state, where no socket
  -- fails and each member is alive with room in its backlog: the match is marked as started, and
  -- every member is sent one START frame and nothing else, each with its own seat and all with the
  -- same count, seed, delay and roster; nobody outside the room and no other room changes.
  pub on_go_starts :
      (c r : ℕ) (s : State)
      → Sound s
      → (s.heap c).room ≡ some r
      → (s.rooms r).started ≡ false
      → index c (s.rooms r).members ≡ 0
      → 2 ≤ length (s.rooms r).members
      → All (λ m. HasSlack 39 (s.heap m)) (s.rooms r).members
      → Started r (sys.randrange s.clock) s (on_go sys c s)
  unfolding on_go
  on_go_starts c r s v mine waiting host two ready =
      rw (mine, on_go) (rw (goes, within) (start_room-Started r s v ready))
    where
      goes : ((s.rooms r).started || not (index c (s.rooms r).members == 0)) ≡ false
      goes = ground arith

      within :
          (leb 2 (length (s.rooms r).members) && leb (length (s.rooms r).members) max_seats) ≡ true
      within = ground (arith, v.capacity r)
