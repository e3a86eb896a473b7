-- ===== src/Server/Fuel.antt =====
-- The nesting of drops is bounded by the clients that are left: more fuel changes nothing.
use fujinet_intv_basketball.Base.{
  ℕ, zero, suc, ◌+◌, ◌-◌, ◌≤◌, ◌≡◌, refl, ap, ◌∙◌, Bool, true, false, Option, none, some, List, [],
  ◌∷◌, Bytes, arith, length, replicate, get_elem?, is_empty, ltb, ltb→le, ◌==◌, if◌then◌else◌,
  Bool-cases, Option-cases, inl, inr, index, length-remove, length-remove-le,
}
use native.Mathlib.Nat.{zero-add, suc-add}
use fujinet_intv_basketball.Wire.{frame, pad_name, t_room, t_peer_left}
use fujinet_intv_basketball.Wire.Sizes.{length-pad_name}
use fujinet_intv_basketball.Server.Types.{
  State, System, SendResult, accepted, blocked, failed, max_tx_backlog,
}
use fujinet_intv_basketball.Server.State.{
  advance, lobby_update, queue, take_tx, update_events, retire, detach, free_all, clear_members,
  count_backlog_drop,
}
use fujinet_intv_basketball.Server.Conn.{
  name_of, roster, each_member, for_members, on_sent, flush_loop, flush_with, send_with, send_all,
  room_broadcast_with, dissolve_with, end_room, leave, drop_fuel, drop_client,
}
use fujinet_intv_basketball.Server.Sound.{
  Sound, Alike-Sound, advance-Alike, count_backlog_drop-Alike, queue-Alike, take_tx-Alike,
  retire-Sound,
}
use fujinet_intv_basketball.Server.Sound.Leaving.{IsBacked, detach-IsBacked}
use fujinet_intv_basketball.Server.Frames.{any_frames}
use fujinet_intv_basketball.Server.Keeps.{Keeps, Out, length-roster, free_all-Out, send_with-Out}
use fujinet_intv_basketball.Server.Keeps.Dropping.{
  retire-room, dissolve_with-Out, detach-Out, drop_fuel-Out,
}
use fujinet_intv_basketball.Server.Limits.{retire-clients}
use fujinet_intv_basketball.Server.Drops.{length-contains}

-- The conditional, branch by branch, where the test is known in each.
if_cong {ℓ} :
    {A : Type ℓ} (b : Bool) {x y u v : A}
    → (b ≡ true → x ≡ u)
    → (b ≡ false → y ≡ v)
    → (if b then x else y) ≡ (if b then u else v)
if_cong true f g = f refl
if_cong false f g = g refl

-- Two ways to drop that agree wherever the invariants hold give the same calls around them.
module _ (sys : System) (d e : ℕ → State → State) {P : State → Type 0} (keeps : Keeps P)
    (dropped : (c : ℕ) (s : State) → Sound s → P s → Out P s (d c s))
    (agree : (c : ℕ) (s : State) → Sound s → P s → d c s ≡ e c s)
    (any : (t : ℕ) (b : Bytes) → keeps.frames.Fits t b) where
  sent-agree :
      (n c : ℕ) (r : SendResult) (s : State)
      → ((s : State)
          → (s.heap c).dead ≡ false
          → Sound s
          → P s
          → flush_loop sys d n c s ≡ flush_loop sys e n c s)
      → (s.heap c).dead ≡ false
      → Sound s
      → P s
      → on_sent sys d (flush_loop sys d n c) c r s ≡ on_sent sys e (flush_loop sys e n c) c r s
  sent-agree n c (accepted m) s ih l v p =
      if_cong (m == 0) (λ _. agree c s v p)
        (λ _.
          let a = take_tx-Alike c m s in
          ih (take_tx c m s) (a.same_dead c ∙ l) (Alike-Sound s (take_tx c m s) a v)
            (keeps.on_take c m s l p))
  sent-agree n c blocked s ih l v p = refl
  sent-agree n c failed s ih l v p = agree c s v p

  flush_loop-agree :
      (n c : ℕ) (s : State)
      → (s.heap c).dead ≡ false
      → Sound s
      → P s
      → flush_loop sys d n c s ≡ flush_loop sys e n c s
  unfolding flush_loop
  flush_loop-agree zero c s l v p = refl
  flush_loop-agree (suc n) c s l v p =
      if_cong (is_empty (s.heap c).tx) (λ _. refl)
        (λ _.
          let a = advance-Alike s in
          sent-agree n c (sys.sock_send s.clock c (s.heap c).tx) (advance s) (flush_loop-agree n c)
            (a.same_dead c ∙ l) (Alike-Sound s (advance s) a v) (keeps.on_advance s p))

  send_with-agree :
      (c t : ℕ) (b : Bytes) (s : State)
      → length b ≤ 199
      → Sound s
      → P s
      → send_with sys d c (frame t b) s ≡ send_with sys e c (frame t b) s
  unfolding send_with flush_with
  send_with-agree c t b s h v p =
      if_cong (s.heap c).dead (λ _. refl)
        (λ l.
          if_cong (ltb max_tx_backlog (length (s.heap c).tx + length (frame t b)))
            (λ _.
              let a = count_backlog_drop-Alike s in
              agree c (count_backlog_drop s) (Alike-Sound s (count_backlog_drop s) a v)
                (keeps.on_backlog_drop s p))
            (λ fits.
              let a = queue-Alike c (frame t b) s in
              let s' = queue c (frame t b) s in
              flush_loop-agree (length (s'.heap c).tx) c s' (a.same_dead c ∙ l)
                (Alike-Sound s s' a v) (keeps.on_queue c t b s l (ltb→le _ _ fits) h (any t b) p)))

  send_all-agree :
      (ms : List ℕ) (t : ℕ) (b : Bytes) (s : State)
      → length b ≤ 199
      → Sound s
      → P s
      → send_all sys d ms (frame t b) s ≡ send_all sys e ms (frame t b) s
  unfolding send_all
  send_all-agree [] t b s h v p = refl
  send_all-agree (m ∷ ms) t b s h v p =
      let o = send_with-Out sys d keeps dropped m t b s h (any t b) v p in
      send_all-agree ms t b (send_with sys d m (frame t b) s) h o.sound o.kept
      ∙ ap (send_all sys e ms (frame t b)) (send_with-agree m t b s h v p)

  each_send-agree :
      (n i r t : ℕ) (b : Bytes) (s : State)
      → length b ≤ 199
      → Sound s
      → P s
      → each_member n i r (λ _ m. send_with sys d m (frame t b)) s
        ≡ each_member n i r (λ _ m. send_with sys e m (frame t b)) s
  unfolding each_member
  each_send-agree zero i r t b s h v p = refl
  each_send-agree (suc n) i r t b s h v p = elim (Option-cases (get_elem? (s.rooms r).members i)) [
    | inl x ↦ rw (x, each_member)
    | inr (m, x) ↦
        rw (x, each_member)
          (let o = send_with-Out sys d keeps dropped m t b s h (any t b) v p in
            each_send-agree n (i + 1) r t b (send_with sys d m (frame t b) s) h o.sound o.kept
            ∙ ap (each_member n (i + 1) r (λ _ k. send_with sys e k (frame t b)))
                (send_with-agree m t b s h v p))
  ]

  broadcast-agree :
      (r : ℕ) (s : State)
      → Sound s
      → P s
      → room_broadcast_with sys d r s ≡ room_broadcast_with sys e r s
  unfolding room_broadcast_with for_members
  broadcast-agree r s v p =
      each_send-agree (length (s.rooms r).members) 0 r t_room
        (length (s.rooms r).members ∷ roster (s.rooms r) s) s
        (omega (arith, length-roster (s.rooms r) s, v.capacity r)) v p

  dissolve-agree :
      (r : ℕ) (notify : List ℕ) (s : State)
      → IsBacked r s
      → Sound s
      → P s
      → dissolve_with sys d r notify s ≡ dissolve_with sys e r notify s
  unfolding dissolve_with
  dissolve-agree r notify s all_in v p =
      let o = free_all-Out keeps r s all_in v p in
      ap (clear_members r) (
        send_all-agree notify t_room (0 ∷ replicate 32 0) (free_all (s.rooms r).members s)
          (omega arith) o.sound o.kept)

  end_room-agree :
      (c r seat : ℕ) (s : State)
      → IsBacked r s
      → Sound s
      → P s
      → end_room sys d c r seat s ≡ end_room sys e c r seat s
  unfolding end_room
  end_room-agree c r seat s all_in v p =
      let told = dissolve-agree r (s.rooms r).members s all_in v p in
      if_cong (s.rooms r).started
        (λ _.
          let o = dissolve_with-Out sys d keeps dropped r [] s all_in v p in
          let left = frame t_peer_left (seat ∷ pad_name (name_of c s)) in
          send_all-agree (s.rooms r).members t_peer_left (seat ∷ pad_name (name_of c s))
            (dissolve_with sys d r [] s) (omega (arith, length-pad_name (name_of c s))) o.sound
            o.kept
          ∙ ap (send_all sys e (s.rooms r).members left) (dissolve-agree r [] s all_in v p))
        (λ _.
          if_cong (seat == 0) (λ _. told)
            (λ _.
              if_cong (ltb (length (s.rooms r).members) 2) (λ _. told)
                (λ _. broadcast-agree r s v p)))

  leave-agree :
      (c : ℕ) (room : Option ℕ) (s : State)
      → (s.heap c).room ≡ room
      → Sound s
      → P s
      → leave sys d c room s ≡ leave sys e c room s
  unfolding leave
  leave-agree c none s mine v p = refl
  leave-agree c (some r) s mine v p =
      let o = detach-Out sys d keeps dropped c r s mine v p in
      ap lobby_update (
        end_room-agree c r (index c (s.rooms r).members) (detach c r s)
          (detach-IsBacked c r s mine v) o.sound o.kept)

-- At most `n` clients are left.
abbrev Few : ℕ → State → Type 0
Few n s = length s.clients ≤ n

retire-Few : (n c : ℕ) (s : State) → Few n s → Few n (retire c s)
retire-Few n c s h = omega (arith, ap length (retire-clients c s), length-remove-le c s.clients)

Few-Keeps : (n : ℕ) → Keeps (Few n)
unfolding advance lobby_update count_backlog_drop queue take_tx update_events detach clear_members
Few-Keeps n = record {
  frames = any_frames;
  on_advance = λ s h. h;
  on_lobby_update = λ s h. h;
  on_backlog_drop = λ s h. h;
  on_queue = λ c t p s alive fits short ok h. h;
  on_take = λ c m s alive h. h;
  on_events = λ c s alive h. h;
  on_retire = λ c s alive h. retire-Few n c s h;
  on_detach = λ c r s h. h;
  on_free = λ m s h. h;
  on_clear = λ r s h. h;
}

module _ (sys : System) where
  drop_fuel-suc :
      (n c : ℕ) (s : State)
      → Sound s
      → length s.clients ≤ n
      → drop_fuel sys (suc n) c s ≡ drop_fuel sys n c s
  unfolding drop_fuel Few-Keeps
  drop_fuel-suc zero c s v h = elim (Bool-cases (s.heap c).dead) [
    | inl gone ↦ rw gone
    | inr l ↦ absurd (omega (arith, length-contains c s.clients (v.present c l)))
  ]
  drop_fuel-suc (suc n) c s v h =
      if_cong (s.heap c).dead (λ _. refl)
        (λ l.
          leave-agree sys (drop_fuel sys (suc n)) (drop_fuel sys n) (Few-Keeps n)
            (drop_fuel-Out sys (Few-Keeps n) (suc n)) (drop_fuel-suc n) (λ t b. tt) c
            (s.heap c).room (retire c s) (retire-room c c s) (retire-Sound c s v)
            (omega
              (arith, ap length (retire-clients c s), length-remove c s.clients (v.present c l))))

  drop_fuel-add :
      (k c : ℕ) (s : State)
      → Sound s
      → drop_fuel sys (k + length s.clients) c s ≡ drop_client sys c s
  unfolding drop_client
  drop_fuel-add zero c s v = rw zero-add
  drop_fuel-add (suc k) c s v =
      rw suc-add (drop_fuel-suc (k + length s.clients) c s v (omega arith) ∙ drop_fuel-add k c s v)

  -- The fuel given to `drop` is enough: in a sound state, with any fuel from the number of clients up,
  -- the result is that of `drop`. So no drop that the code would make is cut off.
  pub drop_fuel-eq-drop_client :
      (n c : ℕ) (s : State)
      → Sound s
      → length s.clients ≤ n
      → drop_fuel sys n c s ≡ drop_client sys c s
  drop_fuel-eq-drop_client n c s v h =
      ap (λ (m : ℕ). drop_fuel sys m c s) (omega arith) ∙ drop_fuel-add (n - length s.clients) c s v
