-- ===== src/Server/Keeps/Dropping.antt =====
-- Loops over members, the end of a room and drops keep what every single write keeps.
use fujinet_intv_basketball.Base.{
  ℕ, zero, suc, ◌+◌, ◌≤◌, ◌<◌, ◌≡◌, refl, sym, ◌∙◌, inl, inr, false, Option, none, some, List, [],
  ◌∷◌, Bytes, arith, length, replicate, index, index-le, get_elem?, ltb, ◌==◌, Bool-cases,
  Option-cases, if_ind,
}
use fujinet_intv_basketball.Wire.{frame, pad_name, t_room, t_peer_left}
use fujinet_intv_basketball.Wire.Sizes.{length-pad_name}
use fujinet_intv_basketball.Server.Types.{State, System, max_seats}
use fujinet_intv_basketball.Server.State.{retire, detach, free_all, clear_members}
use fujinet_intv_basketball.Server.Conn.{
  name_of, roster, each_member, for_members, send_all, room_broadcast_with, dissolve_with, end_room,
  leave, drop_fuel, drop_client, flush, send, room_broadcast,
}
use fujinet_intv_basketball.Server.Sound.{Sound, retire-Sound}
use fujinet_intv_basketball.Server.Sound.Leaving.{
  detach-Sound, IsBacked, detach-IsBacked, free_all_frees, IsLeft, clear_members-Sound,
}
use fujinet_intv_basketball.Server.Keeps.{
  Keeps, Out, Out-refl, Out-trans, lobby_update-Out, free_all-Out, length-roster, flush_with-Out,
  send_with-Out, send_all-Out,
}

module _ {P : State → Type 0} where
  -- A loop over the members keeps what its body keeps.
  each_member-Out :
      (body : ℕ → ℕ → State → State)
      → (top : ℕ) → ((i m : ℕ) (s : State) → i < top → Sound s → P s → Out P s (body i m s))
      → (n i r : ℕ) (s : State) → i + n ≤ top
      → Sound s
      → P s
      → Out P s (each_member n i r body s)
  unfolding each_member
  each_member-Out body top h zero i r s low v p = Out-refl s v p
  each_member-Out body top h (suc n) i r s low v p =
      elim (Option-cases (get_elem? (s.rooms r).members i)) [
        | inl e ↦ rw (e, each_member) (Out-refl s v p)
        | inr (m, e) ↦
            rw (e, each_member)
              (let o = h i m s (omega arith) v p in
                Out-trans o (
                  each_member-Out body top h n (i + 1) r (body i m s) (omega arith) o.sound o.kept))
      ]

  pub for_members-Out :
      (r : ℕ) (body : ℕ → ℕ → State → State) (s : State)
      → ((i m : ℕ) (t : State)
          → i < length (s.rooms r).members
          → Sound t
          → P t
          → Out P t (body i m t))
      → Sound s
      → P s
      → Out P s (for_members r body s)
  unfolding for_members
  for_members-Out r body s h v p =
      let n = length (s.rooms r).members in each_member-Out body n h n 0 r s (omega arith) v p

freed-IsLeft :
    {P : State → Type 0} (r : ℕ) (s : State)
    → Sound s
    → Out P s (free_all (s.rooms r).members s)
    → IsLeft r (free_all (s.rooms r).members s)
freed-IsLeft r s v o c h =
    let none_left = free_all_frees (s.rooms r).members c s (v.linked c r (o.shrunk c r h)) in cc

module _ (sys : System) (d : ℕ → State → State) {P : State → Type 0} (keeps : Keeps P)
    (dropped : (c : ℕ) (s : State) → Sound s → P s → Out P s (d c s)) where
  pub room_broadcast_with-Out :
      (r : ℕ) (s : State) → Sound s → P s → Out P s (room_broadcast_with sys d r s)
  unfolding room_broadcast_with
  room_broadcast_with-Out r s v p =
      for_members-Out r _ s
        (λ i m t low w q.
          send_with-Out sys d keeps dropped m t_room
            (length (s.rooms r).members ∷ roster (s.rooms r) s) t
            (omega (arith, length-roster (s.rooms r) s, v.capacity r))
            (keeps.frames.on_room r s v p) w q)
        v p

  pub dissolve_with-Out :
      (r : ℕ) (notify : List ℕ) (s : State)
      → IsBacked r s
      → Sound s
      → P s
      → Out P s (dissolve_with sys d r notify s)
  unfolding dissolve_with
  dissolve_with-Out r notify s all_in v p =
      let freed = free_all (s.rooms r).members s in
      let told = send_all sys d notify (frame t_room (0 ∷ replicate 32 0)) freed in
      let a = free_all-Out keeps r s all_in v p in
      let b =
        send_all-Out sys d keeps dropped notify t_room (0 ∷ replicate 32 0) freed (omega arith)
          keeps.frames.on_empty a.sound a.kept in
      let both = Out-trans a b in
      let left : IsLeft r told = λ c h. freed-IsLeft r s v a c (b.shrunk c r h) in
      record {
        sound = clear_members-Sound r told left b.sound;
        kept = keeps.on_clear r told b.kept;
        shrunk = unfold clear_members in both.shrunk;
        steady = unfold clear_members in both.steady;
      }

  pub end_room-Out :
      (c r seat : ℕ) (s : State)
      → seat ≤ max_seats
      → IsBacked r s
      → Sound s
      → P s
      → Out P s (end_room sys d c r seat s)
  unfolding end_room
  end_room-Out c r seat s low all_in v p =
      let ended = dissolve_with-Out r [] s all_in v p in
      let told = dissolve_with-Out r (s.rooms r).members s all_in v p in
      if_ind (Out P s) (s.rooms r).started
        (λ _. Out-trans ended (
          send_all-Out sys d keeps dropped (s.rooms r).members t_peer_left
            (seat ∷ pad_name (name_of c s)) (dissolve_with sys d r [] s)
            (omega (arith, length-pad_name (name_of c s))) (keeps.frames.on_left c seat s low v p)
            ended.sound ended.kept))
        (λ _.
          if_ind (Out P s) (seat == 0) (λ _. told)
            (λ _.
              if_ind (Out P s) (ltb (length (s.rooms r).members) 2) (λ _. told)
                (λ _. room_broadcast_with-Out r s v p)))

  pub detach-Out :
      (c r : ℕ) (s : State) → (s.heap c).room ≡ some r → Sound s → P s → Out P s (detach c r s)
  detach-Out c r s mine v p = record {
    sound = detach-Sound c r s mine v;
    kept = keeps.on_detach c r s p;
    shrunk = λ e q h. unfold detach in ground arith;
    steady = unfold detach in refl;
  }

  pub leave-Out :
      (c : ℕ) (r : Option ℕ) (s : State)
      → (s.heap c).room ≡ r
      → Sound s
      → P s
      → Out P s (leave sys d c r s)
  unfolding leave
  leave-Out c none s mine v p = Out-refl s v p
  leave-Out c (some r) s mine v p =
      let seat = index c (s.rooms r).members in
      let a = detach-Out c r s mine v p in
      let b =
        end_room-Out c r seat (detach c r s)
          (omega (arith, index-le c (s.rooms r).members, v.capacity r))
          (detach-IsBacked c r s mine v) a.sound a.kept in
      Out-trans a (
        Out-trans b
          (lobby_update-Out keeps (end_room sys d c r seat (detach c r s)) b.sound b.kept))

retire-handed : (c : ℕ) (s : State) → (retire c s).next_client ≡ s.next_client
unfolding retire
retire-handed c s = ground arith

pub retire-room : (c e : ℕ) (s : State) → ((retire c s).heap e).room ≡ (s.heap e).room
unfolding retire
retire-room c e s = ground arith

module _ (sys : System) {P : State → Type 0} (keeps : Keeps P) where
  pub drop_fuel-Out : (n c : ℕ) (s : State) → Sound s → P s → Out P s (drop_fuel sys n c s)
  unfolding drop_fuel
  drop_fuel-Out zero c s v p = Out-refl s v p
  drop_fuel-Out (suc n) c s v p = elim (Bool-cases (s.heap c).dead) [
    | inl gone ↦ rw gone (Out-refl s v p)
    | inr l ↦ rw l (
        Out-trans
          (let retired : Out P s (retire c s) = record {
            sound = retire-Sound c s v;
            kept = keeps.on_retire c s l p;
            shrunk = λ e q h. sym (retire-room c e s) ∙ h;
            steady = retire-handed c s;
          } in
            retired)
          (leave-Out sys (drop_fuel sys n) keeps (drop_fuel-Out n) c (s.heap c).room (retire c s)
            (retire-room c c s) (retire-Sound c s v) (keeps.on_retire c s l p)))
  ]

  pub drop_client-Out : (c : ℕ) (s : State) → Sound s → P s → Out P s (drop_client sys c s)
  unfolding drop_client
  drop_client-Out c s = drop_fuel-Out (length s.clients) c s

  pub send-Out :
      (c t : ℕ) (b : Bytes) (s : State)
      → length b ≤ 199
      → keeps.frames.Fits t b
      → Sound s
      → P s
      → Out P s (send sys c (frame t b) s)
  unfolding send
  send-Out = send_with-Out sys (drop_client sys) keeps drop_client-Out

  pub flush-Out :
      (c : ℕ) (s : State) → (s.heap c).dead ≡ false → Sound s → P s → Out P s (flush sys c s)
  unfolding flush
  flush-Out = flush_with-Out sys (drop_client sys) keeps drop_client-Out

  pub room_broadcast-Out : (r : ℕ) (s : State) → Sound s → P s → Out P s (room_broadcast sys r s)
  unfolding room_broadcast
  room_broadcast-Out = room_broadcast_with-Out sys (drop_client sys) keeps drop_client-Out
