-- ===== src/Server/Keeps.antt =====
-- An invariant that each single write keeps is kept by `flush`, `send`, `room_broadcast`,
-- `dissolve` and `drop`, however they nest.
pub mod Dropping
use fujinet_intv_basketball.Base.{
  ℕ, zero, suc, ◌+◌, ◌-◌, ◌*◌, ◌≤◌, ◌≡◌, refl, sym, ◌∙◌, inl, inr, false, Option, none, some, List,
  [], ◌∷◌, Bytes, arith, length, replicate, index, get_elem?, is_empty, ltb, ltb→le, ◌==◌,
  Bool-cases, Option-cases, if_ind, length-append, length-replicate,
}
use fujinet_intv_basketball.Wire.{frame, pad_name, t_room, t_peer_left}
use fujinet_intv_basketball.Wire.Sizes.{length-pad_name}
use fujinet_intv_basketball.Server.Types.{
  Room, State, System, SendResult, accepted, blocked, failed, max_tx_backlog, roster_slots,
}
use fujinet_intv_basketball.Server.State.{
  advance, lobby_update, queue, take_tx, update_events, retire, detach, free_all, clear_members,
  count_backlog_drop,
}
use fujinet_intv_basketball.Server.Conn.{
  name_of, pads, roster, each_member, for_members, on_sent, flush_loop, flush_with, send_with,
  send_all, room_broadcast_with, dissolve_with, end_room, leave, drop_fuel, drop_client, flush,
  send, room_broadcast,
}
use fujinet_intv_basketball.Server.Frames.{Frames}
use fujinet_intv_basketball.Server.Sound.{
  Sound, Alike, Alike-Sound, advance-Alike, lobby_update-Alike, count_backlog_drop-Alike,
  queue-Alike, take_tx-Alike, update_events-Alike, retire-Sound,
}
use fujinet_intv_basketball.Server.Sound.Leaving.{
  detach-Sound, free, IsBacked, detach-IsBacked, free_all_frees, free_all_shrinks, free_all-handed,
  free_all-Sound, IsLeft, clear_members-Sound,
}

-- What an invariant owes to be kept, one field for each write.
pub record Keeps (P : State → Type 0) : Type 1 where
  pub frames : Frames P
  pub on_advance : (s : State) → P s → P (advance s)
  pub on_lobby_update : (s : State) → P s → P (lobby_update s)
  pub on_backlog_drop : (s : State) → P s → P (count_backlog_drop s)
  pub on_queue :
      (c t : ℕ) (p : Bytes) (s : State)
      → (s.heap c).dead ≡ false
      → length (s.heap c).tx + length (frame t p) ≤ max_tx_backlog
      → length p ≤ 199
      → frames.Fits t p
      → P s
      → P (queue c (frame t p) s)
  pub on_take : (c n : ℕ) (s : State) → (s.heap c).dead ≡ false → P s → P (take_tx c n s)
  pub on_events : (c : ℕ) (s : State) → (s.heap c).dead ≡ false → P s → P (update_events c s)
  pub on_retire : (c : ℕ) (s : State) → (s.heap c).dead ≡ false → P s → P (retire c s)
  pub on_detach : (c r : ℕ) (s : State) → P s → P (detach c r s)
  pub on_free : (m : ℕ) (s : State) → P s → P (free m s)
  pub on_clear : (r : ℕ) (s : State) → P s → P (clear_members r s)

-- What a call has done: the invariants hold, no client has come to be in another room, and none was
-- made.
pub record Out (P : State → Type 0) (s t : State) : Type 0 where
  pub sound : Sound t
  pub kept : P t
  pub shrunk : (c r : ℕ) → (t.heap c).room ≡ some r → (s.heap c).room ≡ some r
  pub steady : t.next_client ≡ s.next_client

module _ {P : State → Type 0} where
  pub Out-refl : (s : State) → Sound s → P s → Out P s s
  Out-refl s v p = record { sound = v; kept = p; shrunk = λ c r h. h; steady = refl }

  pub Out-trans : {s t u : State} → Out P s t → Out P t u → Out P s u
  Out-trans a b = record {
    sound = b.sound;
    kept = b.kept;
    shrunk = λ c r h. a.shrunk c r (b.shrunk c r h);
    steady = b.steady ∙ a.steady;
  }

  pub Out-Alike : (s t : State) → Alike s t → Sound s → P t → Out P s t
  Out-Alike s t a v p = record {
    sound = Alike-Sound s t a v;
    kept = p;
    shrunk = λ c r h. sym (a.same_room c) ∙ h;
    steady = a.same_handed;
  }

module _ {P : State → Type 0} (keeps : Keeps P) where
  pub lobby_update-Out : (s : State) → Sound s → P s → Out P s (lobby_update s)
  lobby_update-Out s v p =
      Out-Alike s (lobby_update s) (lobby_update-Alike s) v (keeps.on_lobby_update s p)

  free_all-kept : (ms : List ℕ) (s : State) → P s → P (free_all ms s)
  unfolding free_all
  free_all-kept [] s p = p
  free_all-kept (m ∷ ms) s p = free_all-kept ms (free m s) (keeps.on_free m s p)

  pub free_all-Out :
      (r : ℕ) (s : State) → IsBacked r s → Sound s → P s → Out P s (free_all (s.rooms r).members s)
  free_all-Out r s all_in v p = record {
    sound = free_all-Sound r s all_in v;
    kept = free_all-kept (s.rooms r).members s p;
    shrunk = λ c q h. (free_all_shrinks (s.rooms r).members c q s h).1;
    steady = free_all-handed (s.rooms r).members s;
  }

length-pads : (ms : List ℕ) (s : State) → length (pads ms s) ≡ 8 * length ms
unfolding pads
length-pads [] s = omega arith
length-pads (m ∷ ms) s = omega (
  arith,
  length-append (pad_name (name_of m s)) (pads ms s),
  length-pad_name (name_of m s),
  length-pads ms s,
)

-- The roster fills its four slots.
pub length-roster :
    (room : Room) (s : State) → length room.members ≤ roster_slots → length (roster room s) ≡ 32
unfolding roster
length-roster room s h = omega (
  arith,
  length-append (pads room.members s) (replicate (8 * (4 - length room.members)) 0),
  length-pads room.members s,
  length-replicate {A = ℕ} (8 * (4 - length room.members)) 0,
)

module _ (sys : System) (d : ℕ → State → State) {P : State → Type 0} (keeps : Keeps P)
    (dropped : (c : ℕ) (s : State) → Sound s → P s → Out P s (d c s)) where
  events-Out :
      (c : ℕ) (s : State) → (s.heap c).dead ≡ false → Sound s → P s → Out P s (update_events c s)
  events-Out c s l v p =
      Out-Alike s (update_events c s) (update_events-Alike c s) v (keeps.on_events c s l p)

  sent-Out :
      (n : ℕ)
      → ((c : ℕ) (s : State)
          → (s.heap c).dead ≡ false
          → Sound s
          → P s
          → Out P s (flush_loop sys d n c s))
      → (c : ℕ) (r : SendResult) (s : State) → (s.heap c).dead ≡ false
      → Sound s
      → P s
      → Out P s (on_sent sys d (flush_loop sys d n c) c r s)
  sent-Out n ih c (accepted m) s l v p =
      if_ind (Out P s) (m == 0) (λ _. dropped c s v p)
        λ _.
          let a = take_tx-Alike c m s in
          let q = keeps.on_take c m s l p in
          Out-trans (Out-Alike s (take_tx c m s) a v q)
            (ih c (take_tx c m s) (a.same_dead c ∙ l) (Alike-Sound s (take_tx c m s) a v) q)
  sent-Out n ih c blocked s l v p = events-Out c s l v p
  sent-Out n ih c failed s l v p = dropped c s v p

  pub flush_loop-Out :
      (n c : ℕ) (s : State)
      → (s.heap c).dead ≡ false
      → Sound s
      → P s
      → Out P s (flush_loop sys d n c s)
  unfolding flush_loop
  flush_loop-Out zero c s l v p = events-Out c s l v p
  flush_loop-Out (suc n) c s l v p =
      if_ind (Out P s) (is_empty (s.heap c).tx) (λ _. events-Out c s l v p)
        λ _.
          let a = advance-Alike s in
          let q = keeps.on_advance s p in
          Out-trans (Out-Alike s (advance s) a v q) (
            sent-Out n (flush_loop-Out n) c (sys.sock_send s.clock c (s.heap c).tx) (advance s)
              (a.same_dead c ∙ l) (Alike-Sound s (advance s) a v) q)

  pub flush_with-Out :
      (c : ℕ) (s : State) → (s.heap c).dead ≡ false → Sound s → P s → Out P s (flush_with sys d c s)
  unfolding flush_with
  flush_with-Out c s = flush_loop-Out (length (s.heap c).tx) c s

  pub send_with-Out :
      (c t : ℕ) (b : Bytes) (s : State)
      → length b ≤ 199
      → keeps.frames.Fits t b
      → Sound s
      → P s
      → Out P s (send_with sys d c (frame t b) s)
  unfolding send_with
  send_with-Out c t b s h fit v p = elim (Bool-cases (s.heap c).dead) [
    | inl gone ↦ rw gone (Out-refl s v p)
    | inr l ↦ rw l (
        if_ind (Out P s) (ltb max_tx_backlog (length (s.heap c).tx + length (frame t b)))
          (λ _.
            let a = count_backlog_drop-Alike s in
            let q = keeps.on_backlog_drop s p in
            Out-trans (Out-Alike s (count_backlog_drop s) a v q)
              (dropped c (count_backlog_drop s) (Alike-Sound s (count_backlog_drop s) a v) q))
          (λ fits.
            let a = queue-Alike c (frame t b) s in
            let q = keeps.on_queue c t b s l (ltb→le _ _ fits) h fit p in
            Out-trans (Out-Alike s (queue c (frame t b) s) a v q) (
              flush_with-Out c (queue c (frame t b) s) (a.same_dead c ∙ l)
                (Alike-Sound s (queue c (frame t b) s) a v) q)))
  ]

  pub send_all-Out :
      (ms : List ℕ) (t : ℕ) (b : Bytes) (s : State)
      → length b ≤ 199
      → keeps.frames.Fits t b
      → Sound s
      → P s
      → Out P s (send_all sys d ms (frame t b) s)
  unfolding send_all
  send_all-Out [] t b s h fit v p = Out-refl s v p
  send_all-Out (m ∷ ms) t b s h fit v p =
      let o = send_with-Out m t b s h fit v p in
      Out-trans o (send_all-Out ms t b (send_with sys d m (frame t b) s) h fit o.sound o.kept)
