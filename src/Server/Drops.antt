-- ===== src/Server/Drops.antt =====
-- What `drop` achieves: the client is gone from every table, whatever happens to the others.
use fujinet_intv_basketball.Base.{
  ℕ, zero, suc, ◌<◌, ◌≡◌, refl, ◌∙◌, true, false, not, none, List, [], ◌∷◌, Bytes, arith, length,
  contains, keep, ◌==◌, Option-cases, inl, inr, index, index-le,
}
use fujinet_intv_basketball.Server.Types.{State, System}
use fujinet_intv_basketball.Server.State.{
  advance, lobby_update, queue, take_tx, update_events, has_alias, retire, detach, clear_members,
  count_backlog_drop,
}
use fujinet_intv_basketball.Server.Conn.{drop_fuel, drop_client, leave, end_room}
use fujinet_intv_basketball.Server.Sound.{Sound, retire-Sound}
use fujinet_intv_basketball.Server.Sound.Leaving.{detach-Sound, detach-IsBacked}
use fujinet_intv_basketball.Server.Frames.{any_frames}
use fujinet_intv_basketball.Server.Keeps.{Keeps}
use fujinet_intv_basketball.Server.Keeps.Dropping.{retire-room, end_room-Out, drop_fuel-Out}

-- A client that has been dropped: dead, closed, unregistered, under no name and in no room.
pub record Gone (c : ℕ) (s : State) : Type 0 where
  pub is_dead : (s.heap c).dead ≡ true
  pub is_closed : (s.heap c).closed ≡ true
  pub is_unwatched : (s.heap c).watch ≡ none
  pub nameless : has_alias c s.by_name ≡ false
  pub roomless : (s.heap c).room ≡ none

has_alias-keep :
    (c d : ℕ) (names : List (Bytes × ℕ))
    → has_alias c names ≡ false
    → has_alias c (keep (λ e. not (e.1 == d)) names) ≡ false
has_alias-keep c d [] h = refl
has_alias-keep c d (e ∷ names) h = ground (arith, has_alias-keep c d names)

has_alias-keep_self :
    (c : ℕ) (names : List (Bytes × ℕ)) → has_alias c (keep (λ e. not (e.1 == c)) names) ≡ false
has_alias-keep_self c [] = refl
has_alias-keep_self c (e ∷ names) = ground (arith, has_alias-keep_self c names)

retire-Gone : (c d : ℕ) (s : State) → Gone c s → Gone c (retire d s)
unfolding retire
retire-Gone c d s g = record {
  is_dead = ground arith;
  is_closed = ground arith;
  is_unwatched = ground arith;
  nameless = ground (arith, has_alias-keep c d s.by_name);
  roomless = ground arith;
}

Gone-Keeps : (c : ℕ) → Keeps (Gone c)
unfolding advance lobby_update count_backlog_drop queue take_tx update_events detach clear_members
Gone-Keeps c = record {
  frames = any_frames;
  on_advance = λ s g. ground arith;
  on_lobby_update = λ s g. ground arith;
  on_backlog_drop = λ s g. ground arith;
  on_queue = λ e t p s alive fits h ok g. ground arith;
  on_take = λ e n s alive g. ground arith;
  on_events = λ e s alive g. ground arith;
  on_retire = λ e s alive g. retire-Gone c e s g;
  on_detach = λ e r s g. ground arith;
  on_free = λ e s g. ground arith;
  on_clear = λ r s g. ground arith;
}

-- A client that `retire` has marked, once it is in no room.
retired-Gone : (c : ℕ) (s : State) → (s.heap c).room ≡ none → Gone c (retire c s)
unfolding retire
retired-Gone c s e = record {
  is_dead = ground arith;
  is_closed = ground arith;
  is_unwatched = ground arith;
  nameless = ground (arith, has_alias-keep_self c s.by_name);
  roomless = ground arith;
}

detached-Gone : (c r : ℕ) (s : State) → Gone c (detach c r (retire c s))
unfolding retire detach
detached-Gone c r s = record {
  is_dead = ground arith;
  is_closed = ground arith;
  is_unwatched = ground arith;
  nameless = ground (arith, has_alias-keep_self c s.by_name);
  roomless = ground arith;
}

pub length-contains : (c : ℕ) (cs : List ℕ) → contains c cs ≡ true → 0 < length cs
length-contains c [] h = cc
length-contains c (x ∷ cs) h = omega arith

module _ (sys : System) where
  leave-Gone :
      (n c : ℕ) (s : State)
      → Sound s
      → Gone c (leave sys (drop_fuel sys n) c (s.heap c).room (retire c s))
  unfolding leave retire
  leave-Gone n c s v = elim (Option-cases (s.heap c).room) [
    | inl e ↦ rw (e, leave) (retired-Gone c s e)
    | inr (r, e) ↦
        rw (e, leave)
          (let mine = retire-room c c s ∙ e in
            let seat = index c ((retire c s).rooms r).members in
            let w = detach-Sound c r (retire c s) mine (retire-Sound c s v) in
            let o =
              end_room-Out sys (drop_fuel sys n) (Gone-Keeps c) (drop_fuel-Out sys (Gone-Keeps c) n)
                c r seat (detach c r (retire c s))
                (omega (
                  arith,
                  index-le c ((retire c s).rooms r).members,
                  (retire-Sound c s v).capacity r,
                ))
                (detach-IsBacked c r (retire c s) mine (retire-Sound c s v)) w
                (detached-Gone c r s) in
            (Gone-Keeps c).on_lobby_update
              (end_room sys (drop_fuel sys n) c r seat (detach c r (retire c s))) o.kept)
  ]

  drop_fuel-Gone :
      (n c : ℕ) (s : State)
      → Sound s
      → (s.heap c).dead ≡ false
      → 0 < n
      → Gone c (drop_fuel sys n c s)
  unfolding drop_fuel
  drop_fuel-Gone zero c s v alive h = absurd (omega arith)
  drop_fuel-Gone (suc n) c s v alive h = rw alive (leave-Gone n c s v)

  -- After `drop` of a client that is alive, in any sound state and whatever the sockets of the others
  -- do meanwhile: it is dead, its socket is closed and unregistered, no name in the lobby leads to it,
  -- and it is in no room.
  pub drop_client-Gone :
      (c : ℕ) (s : State) → Sound s → (s.heap c).dead ≡ false → Gone c (drop_client sys c s)
  unfolding drop_client
  drop_client-Gone c s v alive =
      drop_fuel-Gone (length s.clients) c s v alive
        (length-contains c s.clients (v.present c alive))
