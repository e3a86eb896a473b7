-- ===== src/Server/Serves.antt =====
-- An invariant that each single write keeps is kept by every handler, every event and every run.
use fujinet_intv_basketball.Base.{
  true, ℕ, ◌≤◌, ◌<◌, ◌≡◌, inl, inr, false, not, ◌&&◌, ◌||◌, Option, none, some, [], ◌∷◌, Bytes,
  arith, length, drop, get_or, leb, ltb, ◌==◌, if◌then◌else◌, Bool-cases, Option-cases, if_ind,
  refl, find,
}
use fujinet_intv_basketball.Wire.{
  next, next_frame, frame, t_hello, t_list, t_lobby, t_join, t_start, t_crc, t_bye, t_ping, t_pong,
  t_go,
}
use fujinet_intv_basketball.Names.{read_name, is_name}
use fujinet_intv_basketball.Server.Types.{
  State, System, max_seats, max_clients, max_connections_per_ip, proto_ver,
}
use fujinet_intv_basketball.Server.State.{advance, lobby_update}
use fujinet_intv_basketball.Server.Conn.{for_members, drop_client, send, room_broadcast}
use fujinet_intv_basketball.Server.Lobby.{lobby_payload, on_list}
use fujinet_intv_basketball.Server.Handlers.{
  is_relay, log_crc, register, drop_old_alias, open_room, seat_in, is_closed_room, refuses, seat,
  begin_match, start_common, start_room, on_go, announce, enter, join_target, on_join,
  replace_holder, greet, on_hello, fan_out, relay, handle,
}
use fujinet_intv_basketball.Server.Loop.{
  from_host, admit, reject, push_rx, set_rx, count_hello_timeout, log_stats,
}
use fujinet_intv_basketball.Server.Sound.{Sound, Alike-Sound, advance-Alike, lobby_update-Alike}
use fujinet_intv_basketball.Server.Sound.Leaving.{IsBacked}
use fujinet_intv_basketball.Server.Keeps.{Keeps, Out, Out-refl, lobby_update-Out, length-roster}
use fujinet_intv_basketball.Server.Keeps.Dropping.{
  for_members-Out, drop_client-Out, send-Out, room_broadcast-Out,
}
use fujinet_intv_basketball.Server.Writes.{
  rename-Sound, begin_match-Alike, log_crc-Sound, open_room-Sound, seat_in-Sound,
  length-lobby_payload, named-made,
}
use fujinet_intv_basketball.Server.Vacant.{replace_holder_vacates}

-- What an invariant owes beyond `Keeps`: first the writes of the handlers.
pub record Handles (sys : System) (P : State → Type 0) : Type 1 where
  pub keeps : Keeps P
  pub on_rename :
      (c : ℕ) (name : Bytes) (s : State)
      → P s
      → P (lobby_update (register c name (drop_old_alias c name s)))
  pub on_open : (target : ℕ) (s : State) → P s → P (open_room target s)
  pub on_seat : (c r : ℕ) (s : State) → P s → P (seat_in c r s)
  pub on_begin : (r clock : ℕ) (s : State) → P s → P (begin_match r (sys.randrange clock) s)
  pub on_log_crc : (r : ℕ) (p : Bytes) (s : State) → P s → P (log_crc r p s)

-- And those of the event loop, where what is received may be asked for something.
pub record Serves (sys : System) (Hears : Bytes → Type 0) (P : State → Type 0) : Type 1 where
  pub handles : Handles sys P
  pub on_push_rx : (c : ℕ) (b : Bytes) (s : State) → Hears b → P s → P (push_rx c b s)
  pub on_set_rx :
      (c t : ℕ) (p rest : Bytes) (s : State)
      → next_frame (s.heap c).rx ≡ next t p rest
      → P s
      → P (set_rx c rest s)
  pub on_admit :
      (host port now : ℕ) (s : State)
      → length s.clients < max_clients
      → from_host host s.clients s < max_connections_per_ip
      → P s
      → P (admit host port now s)
  pub on_reject : (s : State) → P s → P (reject s)
  pub on_hello_timeout : (s : State) → P s → P (count_hello_timeout s)
  pub on_log_stats : (s : State) → P s → P (log_stats s)

-- Both invariants hold.
pub record Ok (P : State → Type 0) (s : State) : Type 0 where
  pub sound : Sound s
  pub kept : P s

module _ {P : State → Type 0} where
  pub Out-Ok : {s t : State} → Out P s t → Ok P t
  Out-Ok o = record { sound = o.sound; kept = o.kept }

module _ (sys : System) {P : State → Type 0} (handles : Handles sys P) where
  on_list-Ok : (c : ℕ) (s : State) → Ok P s → Ok P (on_list sys c s)
  unfolding on_list
  on_list-Ok c s k = Out-Ok (
      send-Out sys handles.keeps c t_lobby (lobby_payload c s) s
        (omega (arith, length-lobby_payload c s)) (handles.keeps.frames.on_lobby c s k.sound k.kept)
        k.sound k.kept)

  lobby_update-Ok : (s : State) → Ok P s → Ok P (lobby_update s)
  lobby_update-Ok s k = Out-Ok (lobby_update-Out handles.keeps s k.sound k.kept)

  pub drop_client-Ok : (c : ℕ) (s : State) → Ok P s → Ok P (drop_client sys c s)
  drop_client-Ok c s k = Out-Ok (drop_client-Out sys handles.keeps c s k.sound k.kept)

  start_room-Ok : (r : ℕ) (s : State) → Ok P s → Ok P (start_room sys r s)
  unfolding start_room
  start_room-Ok r s k =
      let ticked = advance s in
      let begun = begin_match r (sys.randrange s.clock) ticked in
      let v =
        Alike-Sound ticked begun (begin_match-Alike r (sys.randrange s.clock) ticked)
          (Alike-Sound s ticked (advance-Alike s) k.sound) in
      let p = handles.on_begin r s.clock ticked (handles.keeps.on_advance s k.kept) in
      let body : ℕ → ℕ → State → State =
        λ i m. send sys m (frame t_start (i ∷ start_common r begun)) in
      lobby_update-Ok (for_members r body begun) (
        Out-Ok (
          for_members-Out {P = P} r body begun
            (λ i m t low w q.
              send-Out sys handles.keeps m t_start (i ∷ start_common r begun) t
                (unfold start_common in
                  omega (arith, length-roster (begun.rooms r) begun, v.capacity r))
                (handles.keeps.frames.on_start r i begun low v p) w q)
            v p))

  on_go-Ok : (c : ℕ) (s : State) → Ok P s → Ok P (on_go sys c s)
  unfolding on_go
  on_go-Ok c s k = elim (Option-cases (s.heap c).room) [
    | inl e ↦ rw (e, on_go) k
    | inr (r, e) ↦
        rw (e, on_go)
          (if_ind (Ok P) ((s.rooms r).started || not (seat c r s == 0)) (λ _. k)
            (λ _.
              if_ind (Ok P)
                (leb 2 (length (s.rooms r).members) && leb (length (s.rooms r).members) max_seats)
                (λ _. start_room-Ok r s k) (λ _. k)))
  ]

  announce-Ok : (r : ℕ) (s : State) → Ok P s → Ok P (announce sys r s)
  unfolding announce
  announce-Ok r s k =
      let told = lobby_update (room_broadcast sys r s) in
      let t =
        lobby_update-Ok (room_broadcast sys r s)
          (Out-Ok (room_broadcast-Out sys handles.keeps r s k.sound k.kept)) in
      if_ind (Ok P) (ltb 0 told.auto_go && leb told.auto_go (length (told.rooms r).members))
        (λ _. start_room-Ok r told t) (λ _. t)

  seat_in-Ok :
      (c r : ℕ) (s : State)
      → length (s.rooms r).members < max_seats
      → r < s.next_room
      → (s.heap c).room ≡ none
      → c < s.next_client
      → IsBacked r s
      → Ok P s
      → Ok P (seat_in c r s)
  seat_in-Ok c r s room_left known alone made all_in k = record {
    sound = seat_in-Sound c r s room_left known alone made all_in k.sound;
    kept = handles.on_seat c r s k.kept;
  }

  enter-Ok :
      (c target : ℕ) (n : Bytes) (s : State)
      → (s.heap c).name ≡ some n
      → (s.heap c).room ≡ none
      → refuses c target s ≡ false
      → Ok P s
      → Ok P (enter sys c target s)
  unfolding enter refuses is_closed_room
  enter-Ok c target n s mine alone admitted k = elim (Option-cases (s.heap target).room) [
    | inl e ↦
        rw (e, enter)
          (let opened : Ok P (open_room target s) = record {
            sound = open_room-Sound target s e (named-made c target s admitted k.sound) k.sound;
            kept = handles.on_open target s k.kept;
          } in
            announce-Ok s.next_room (seat_in c s.next_room (open_room target s)) (
              seat_in-Ok c s.next_room (open_room target s) (unfold open_room in ground arith)
                (unfold open_room in omega arith) (unfold open_room in ground arith)
                (unfold open_room in k.sound.named c n mine)
                (λ f m. unfold open_room in ground arith) opened))
    | inr (r, e) ↦
        rw (e, enter)
          (announce-Ok r (seat_in c r s) (
            seat_in-Ok c r s (ground arith) (k.sound.allocated target r e) alone
              (k.sound.named c n mine) (λ f. k.sound.backed target r f e) k))
  ]

  join_target-Ok :
      (c : ℕ) (n : Bytes) (target : Option ℕ) (s : State)
      → (s.heap c).name ≡ some n
      → (s.heap c).room ≡ none
      → Ok P s
      → Ok P (join_target sys c target s)
  unfolding join_target
  join_target-Ok c n none s mine alone k = on_list-Ok c s k
  join_target-Ok c n (some target) s mine alone k = elim (Bool-cases (refuses c target s)) [
    | inl closed ↦ rw closed (on_list-Ok c s k)
    | inr admitted ↦ rw admitted (enter-Ok c target n s mine alone admitted k)
  ]

  -- What holds of the state that a handler ends in, if it raises nothing.
  abbrev pub Ends : Option State → Type 0
  Ends none = Unit {0}
  Ends (some t) = Ok P t

  pub on_join-Ok : (c : ℕ) (p : Bytes) (s : State) → Ok P s → Ends (on_join sys c p s)
  unfolding on_join
  on_join-Ok c p s k = elim (Option-cases (s.heap c).name) [
    | inl e ↦ rw (e, on_join) tt
    | inr (n, e) ↦
        rw (e, on_join)
          (elim (Option-cases (s.heap c).room) [
            | inl f ↦ rw (f, on_join) (join_target-Ok c n (find (read_name p) s.by_name) s e f k)
            | inr (r, f) ↦ rw (f, on_join) k
          ])
  ]

  replace_holder-Ok :
      (c : ℕ) (old : Option ℕ) (s : State) → Ok P s → Ok P (replace_holder sys c old s)
  unfolding replace_holder
  replace_holder-Ok c none s k = k
  replace_holder-Ok c (some old) s k =
      if_ind (Ok P) (old == c) (λ _. k) (λ _. drop_client-Ok old s k)

  replace_holder-steady :
      (c : ℕ) (old : Option ℕ) (s : State)
      → Ok P s
      → (replace_holder sys c old s).next_client ≡ s.next_client
  unfolding replace_holder
  replace_holder-steady c none s k = refl
  replace_holder-steady c (some old) s k =
      if_ind (λ (t : State). t.next_client ≡ s.next_client) (old == c) (λ _. refl)
        (λ _. (drop_client-Out sys handles.keeps old s k.sound k.kept).steady)

  greet-Ok :
      (c : ℕ) (name : Bytes) (s : State)
      → is_name name ≡ true
      → c < s.next_client
      → Ok P s
      → Ok P (greet sys c name s)
  unfolding greet
  greet-Ok c name s fine made k =
      let a = replace_holder sys c (find name s.by_name) s in
      let ka = replace_holder-Ok c (find name s.by_name) s k in
      let d = register c name (drop_old_alias c name a) in
      let still : c < a.next_client = rw (replace_holder-steady c (find name s.by_name) s k) made in
      let sound =
        rename-Sound c name a still (replace_holder_vacates sys c name s k.sound) fine ka.sound in
      on_list-Ok c (lobby_update d) (record {
        sound = Alike-Sound d (lobby_update d) (lobby_update-Alike d) sound;
        kept = handles.on_rename c name a ka.kept;
      })

  on_hello-Ok :
      (c : ℕ) (p : Bytes) (s : State) → c < s.next_client → Ok P s → Ends (on_hello sys c p s)
  unfolding on_hello
  on_hello-Ok c p s made k =
      if_ind Ends
        (ltb (length p) 3
          || not (get_or p 0 0 == proto_ver)
          || not (is_name (read_name (drop 1 p))))
        (λ _. tt) (λ taken. greet-Ok c (read_name (drop 1 p)) s (ground arith) made k)

  relay-Ok :
      (c t : ℕ) (p : Bytes) (s : State)
      → length p ≤ 199
      → handles.keeps.frames.Fits t p
      → Ok P s
      → Ok P (relay sys c t p s)
  unfolding relay fan_out
  relay-Ok c t p s h fit k = elim (Option-cases (s.heap c).room) [
    | inl e ↦ rw (e, relay) k
    | inr (r, e) ↦
        rw (e, relay)
          (if_ind (Ok P) (s.rooms r).started
            (λ _.
              if_ind (λ u. Ok P (fan_out sys c r (frame t p) u)) (t == t_crc && length p == 5)
                (λ _. fan r (log_crc r p s) (record {
                  sound = log_crc-Sound r p s k.sound;
                  kept = handles.on_log_crc r p s k.kept;
                }))
                (λ _. fan r s k))
            (λ _. k))
  ]
    where
      fan : (r : ℕ) (u : State) → Ok P u → Ok P (fan_out sys c r (frame t p) u)
      fan r u k = Out-Ok (
          for_members-Out r (λ _ m w. if m == c then w else send sys m (frame t p) w) u
            (λ i m w low v q.
              if_ind (Out P w) (m == c) (λ _. Out-refl w v q)
                (λ _. send-Out sys handles.keeps m t p w h fit v q))
            k.sound k.kept)

  pub handle-Ok :
      (c t : ℕ) (p : Bytes) (s : State)
      → (s.heap c).dead ≡ false
      → length p ≤ 199
      → handles.keeps.frames.Fits t p
      → Ok P s
      → Ends (handle sys c t p s)
  unfolding handle
  handle-Ok c t p s l h fit k =
      if_ind Ends (is_relay t) (λ _. relay-Ok c t p s h fit k)
        (λ _.
          if_ind Ends (t == t_hello)
            (λ _. on_hello-Ok c p s (k.sound.handed c (k.sound.present c l)) k)
            (λ _.
              if_ind Ends (t == t_list) (λ _. on_list-Ok c s k)
                (λ _.
                  if_ind Ends (t == t_join) (λ _. on_join-Ok c p s k)
                    (λ _.
                      if_ind Ends (t == t_go) (λ _. on_go-Ok c s k)
                        (λ _.
                          if_ind Ends (t == t_bye) (λ _. drop_client-Ok c s k)
                            (λ _.
                              if_ind Ends (t == t_ping)
                                (λ _. Out-Ok (
                                  send-Out sys handles.keeps c t_pong [] s (omega arith)
                                    handles.keeps.frames.on_pong k.sound k.kept))
                                (λ _. tt)))))))
