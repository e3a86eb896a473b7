-- ===== src/Server/Kickoff.antt =====
-- From the lobby into a match: a JOIN by one client and the GO of the other.
use fujinet_intv_basketball.Base.{
  ℕ, ◌/◌, ◌%◌, ◌≡◌, ◌≢◌, refl, ap, ◌∙◌, true, false, none, some, List, [], ◌∷◌, ◌++◌, Bytes, arith,
  length, find, get_elem?, subst,
}
use fujinet_intv_basketball.Wire.{frame, t_join, t_go, t_start}
use fujinet_intv_basketball.Names.{read_name}
use fujinet_intv_basketball.Server.Types.{State, System}
use fujinet_intv_basketball.Server.State.{no_room}
use fujinet_intv_basketball.Server.Conn.{roster}
use fujinet_intv_basketball.Server.Handlers.{refuses, on_join, on_go, handle}
use fujinet_intv_basketball.Server.Sound.{Sound}
use fujinet_intv_basketball.Server.Serves.{Ok, Ends, on_join-Ok}
use fujinet_intv_basketball.Server.Seating.{Anything-Serves}
use fujinet_intv_basketball.Server.Streams.{stream}
use fujinet_intv_basketball.Server.Fanout.{IsHealthy, HasSlack}
use fujinet_intv_basketball.Server.Fanned.{HasSlack-le}
use fujinet_intv_basketball.Server.Starts.{Started, start_frame, pads-cong, on_go_starts}
use fujinet_intv_basketball.Server.Joins.{Joined, length-room_frame, on_join_seats}
use fujinet_intv_basketball.Server.Seated.{room_frame, party_alone}

-- The START frame of seat `i` in the match of `ms`.
abbrev pub seat_frame : ℕ → ℕ → List ℕ → State → Bytes
seat_frame seed i ms s =
    frame t_start (
      i
      ∷ length ms
      ∷ seed % 256
      ∷ seed / 256
      ∷ s.delay
      ∷ roster (record no_room { members = ms }) s)

-- The match of `host` and `guest` is under way in room `r`.
pub record Underway (host guest r seed : ℕ) (s u : State) : Type 0 where
  pub marked : (u.rooms r).started ≡ true
  pub members : (u.rooms r).members ≡ host ∷ guest ∷ []
  pub to_host :
      stream (u.heap host)
      ≡ (stream (s.heap host) ++ room_frame (host ∷ guest ∷ []) s)
        ++ seat_frame seed 0 (host ∷ guest ∷ []) s
  pub to_guest :
      stream (u.heap guest)
      ≡ (stream (s.heap guest) ++ room_frame (host ∷ guest ∷ []) s)
        ++ seat_frame seed 1 (host ∷ guest ∷ []) s
  pub spared : (e : ℕ) → e ≢ host → e ≢ guest → u.heap e ≡ s.heap e

start_frame-seat :
    (guest host r seed i : ℕ) (s t : State)
    → Joined guest host r (host ∷ guest ∷ []) s t
    → start_frame r seed i t ≡ seat_frame seed i (host ∷ guest ∷ []) s
unfolding roster
start_frame-seat guest host r seed i s t j =
    rw (j.members, j.same_delay, pads-cong (host ∷ guest ∷ []) s t j.names) refl

Joined-Started :
    (guest host r seed : ℕ) (s t u : State)
    → guest ≢ host
    → Joined guest host r (host ∷ guest ∷ []) s t
    → Started r seed t u
    → Underway host guest r seed s u
Joined-Started guest host r seed s t u apart j g = record {
  marked = g.marked;
  members = g.same_members ∙ j.members;
  to_host =
      (g.reached 0 host (rw j.members refl)).sent
      ∙ ap (λ b. stream (t.heap host) ++ b) (start_frame-seat guest host r seed 0 s t j)
      ∙ ap (λ b. b ++ seat_frame seed 0 (host ∷ guest ∷ []) s) (j.told 0 host refl);
  to_guest =
      (g.reached 1 guest (rw j.members refl)).sent
      ∙ ap (λ b. stream (t.heap guest) ++ b) (start_frame-seat guest host r seed 1 s t j)
      ∙ ap (λ b. b ++ seat_frame seed 1 (host ∷ guest ∷ []) s) (j.told 1 guest refl);
  spared = λ e a b. g.spared e (rw j.members (ground arith)) ∙ j.spared e (ground arith);
}

slack-left :
    (i m guest host r : ℕ) (s t : State)
    → get_elem? (host ∷ guest ∷ []) i ≡ some m
    → HasSlack 74 (s.heap m)
    → Joined guest host r (host ∷ guest ∷ []) s t
    → HasSlack 39 (t.heap m)
slack-left i m guest host r s t at h j = (
  j.alive i m at ∙ h.0,
  let fits = h.1 in
      omega (arith, j.backlog i m at, length-room_frame (host ∷ guest ∷ []) s (omega arith)),
)

admitted :
    (guest host : ℕ) (n : Bytes) (s : State)
    → guest ≢ host
    → (s.heap host).name ≡ some n
    → (s.heap host).room ≡ none
    → refuses guest host s ≡ false
unfolding refuses
admitted guest host n s apart named alone = rw (named, alone) (ground arith)

module _ (sys : System) (healthy : IsHealthy sys) where
  join-Sound : (c : ℕ) (p : Bytes) (s t : State) → Sound s → on_join sys c p s ≡ some t → Sound t
  join-Sound c p s t v e =
      let k : Ok _ s = record { sound = v; kept = tt } in
      (subst (Ends sys Anything-Serves.handles) e
        (on_join-Ok sys Anything-Serves.handles c p s k)).sound

  handle-join : (c : ℕ) (p : Bytes) (s : State) → handle sys c t_join p s ≡ on_join sys c p s
  unfolding handle
  handle-join c p s = refl

  handle-go : (c : ℕ) (p : Bytes) (s : State) → handle sys c t_go p s ≡ some (on_go sys c s)
  unfolding handle
  handle-go c p s = refl

  -- Two clients with names and no rooms, in a sound state of a server without automatic starts, where
  -- no socket fails and both are alive with room for two frames in the backlog: when one sends JOIN
  -- with the registered name of the other, and then the other sends GO, whatever else the payloads
  -- hold, the match of the two is under way. Each has been sent one ROOM frame and one START frame
  -- that agree but for the seat, which is 0 for the host and 1 for the guest, and nobody else was
  -- sent anything.
  pub join_then_go :
      (host guest : ℕ) (n m p q : Bytes) (s : State)
      → Sound s
      → s.auto_go ≡ 0
      → guest ≢ host
      → (s.heap host).name ≡ some n
      → (s.heap host).room ≡ none
      → (s.heap guest).name ≡ some m
      → (s.heap guest).room ≡ none
      → find (read_name p) s.by_name ≡ some host
      → HasSlack 74 (s.heap host)
      → HasSlack 74 (s.heap guest)
      → (r seed : ℕ) × (t u : State) × (handle sys guest t_join p s ≡ some t)
        × (handle sys host t_go q t ≡ some u)
        × Underway host guest r seed s u
  join_then_go host guest n m p q s v manual apart named alone mine free known ready_h ready_g =
      let pair = host ∷ guest ∷ [] in
      let (r, t, e, joined) =
        on_join_seats sys healthy guest host m p s v manual mine free known
          (admitted guest host n s apart named alone)
          (rw (party_alone guest host s alone) (
            HasSlack-le 74 35 (s.heap host) (omega arith) ready_h,
            (HasSlack-le 74 35 (s.heap guest) (omega arith) ready_g, tt),
          )) in
      let j : Joined guest host r pair s t =
        subst (λ ms. Joined guest host r ms s t) (party_alone guest host s alone) joined in
      let g =
        on_go_starts sys healthy host r t (join-Sound guest p s t v e) j.theirs j.waiting
          (rw j.members (ground arith)) (rw j.members (omega arith))
          (rw j.members (
            slack-left 0 host guest host r s t refl ready_h j,
            (slack-left 1 guest guest host r s t refl ready_g j, tt),
          )) in
      let seed = sys.randrange t.clock in
      let u = on_go sys host t in
      (
        r,
        seed,
        t,
        u,
        handle-join guest p s ∙ e,
        handle-go host q t,
        Joined-Started guest host r seed s t u apart j g,
      )
