-- ===== src/Server/Writes.antt =====
-- The single writes of the handlers and of the event loop against the structural invariant.
use fujinet_intv_basketball.Base.{
  true, ℕ, ◌*◌, ◌≤◌, ◌<◌, ◌≡◌, inl, inr, false, none, List, [], ◌∷◌, Bytes, arith, length, take,
  get_or, ◌==◌, Option-cases, if_ind, refl, length-append, length-take, contains, contains_append,
  IsDistinct, append-IsDistinct, find, bytes_eq, bytes_eq→eq, bytes_eq_refl, IsKeyed, subst, sym,
  unless, delete-IsKeyed, find-delete, find-store, store-IsKeyed, not, ◌&&◌, if◌then◌else◌, some,
}
use fujinet_intv_basketball.Wire.{pad_name}
use fujinet_intv_basketball.Names.{is_name}
use fujinet_intv_basketball.Wire.Sizes.{length-pad_name}
use fujinet_intv_basketball.Crc.{Table, report, word, Verdict, waiting, mismatch, agreed}
use fujinet_intv_basketball.Server.Types.{Room, State, max_seats}
use fujinet_intv_basketball.Server.Conn.{name_of}
use fujinet_intv_basketball.Server.Lobby.{status, others, lobby_entries, lobby_payload}
use fujinet_intv_basketball.Server.Handlers.{
  store_crc, settle, log_crc, register, drop_old_alias, open_room, seat_in, refuses, begin_match,
}
use fujinet_intv_basketball.Server.Loop.{
  admit, new_client, reject, push_rx, set_rx, count_hello_timeout, log_stats,
}
use fujinet_intv_basketball.Server.Sound.{Sound, Alike, Alike-Sound}
use fujinet_intv_basketball.Server.Sound.Leaving.{IsBacked}

drop_old_alias-IsKeyed :
    (c : ℕ) (name : Bytes) (s : State) → Sound s → IsKeyed (drop_old_alias c name s).by_name
unfolding drop_old_alias
drop_old_alias-IsKeyed c name s v = elim (Option-cases (s.heap c).name) [
  | inl e ↦ rw (e, drop_old_alias) v.keyed
  | inr (old, e) ↦
      rw (e, drop_old_alias)
        (elim (Option-cases (find old s.by_name)) [
          | inl f ↦ rw (f, drop_old_alias) v.keyed
          | inr (d, f) ↦
              rw (f, drop_old_alias)
                (if_ind (λ (t : State). IsKeyed t.by_name) (d == c && not (bytes_eq old name))
                  (λ _. delete-IsKeyed old s.by_name v.keyed) (λ _. v.keyed))
        ])
]

-- The dict without the old name of a client that takes another.
drop_old_alias-find :
    (c : ℕ) (name n : Bytes) (s : State)
    → Sound s
    → find n (drop_old_alias c name s).by_name
      ≡ (if bytes_eq n name then find n s.by_name else unless c (find n s.by_name))
unfolding drop_old_alias
drop_old_alias-find c name n s v = elim (Option-cases (s.heap c).name) [
  | inl e ↦ rw (e, drop_old_alias) (ground (arith, v.entered c n))
  | inr (old, e) ↦
      rw (e, drop_old_alias)
        (elim (Option-cases (find old s.by_name)) [
          | inl f ↦ rw (f, drop_old_alias) (ground (arith, v.entered c n))
          | inr (d, f) ↦
              rw (f, drop_old_alias)
                (ground (
                  arith,
                  v.entered c n,
                  find-delete n old s.by_name v.keyed,
                  bytes_eq→eq n old,
                  bytes_eq→eq n name,
                  bytes_eq→eq old name,
                  bytes_eq_refl old,
                  bytes_eq_refl name,
                ))
        ])
]

drop_old_alias-names :
    (c : ℕ) (name : Bytes) (s : State)
    → drop_old_alias c name s ≡ record s { by_name = (drop_old_alias c name s).by_name }
unfolding drop_old_alias
drop_old_alias-names c name s = ground arith

renamed-Sound :
    (c : ℕ) (name : Bytes) (names : List (Bytes × ℕ)) (s : State)
    → c < s.next_client
    → ((e : ℕ) → (s.heap e).dead ≡ false → find name s.by_name ≡ some e → e ≡ c)
    → is_name name ≡ true
    → IsKeyed names
    → ((n : Bytes)
        → find n names
          ≡ (if bytes_eq n name then find n s.by_name else unless c (find n s.by_name)))
    → Sound s
    → Sound (register c name (record s { by_name = names }))
unfolding register
renamed-Sound c name names s made vacant fine keyed pruned v = record {
  capacity = λ r. v.capacity r;
  linked = λ d r h. v.linked d r (ground arith);
  backed = λ d r e h m. ground (arith, v.backed d r e);
  distinct = λ r. v.distinct r;
  allocated = λ d r h. v.allocated d r (ground arith);
  present = λ d h. v.present d (ground arith);
  handed = λ d h. v.handed d h;
  named = λ d n h. ground (arith, v.named d n);
  seated = λ r e m. v.seated r e m;
  keyed = store-IsKeyed name c names keyed;
  registered = λ d n l h. ground (
    arith,
    find-store n name c names,
    pruned n,
    vacant d,
    v.registered d n,
    bytes_eq→eq n name,
    bytes_eq_refl name,
  );
  entered = λ d n h.
      ground (arith, find-store n name c names, pruned n, v.entered d n, bytes_eq→eq n name);
  admitted = λ d n h. ground (arith, v.admitted d n);
}

-- A client takes a name that no other live client has.
pub rename-Sound :
    (c : ℕ) (name : Bytes) (s : State)
    → c < s.next_client
    → ((e : ℕ) → (s.heap e).dead ≡ false → find name s.by_name ≡ some e → e ≡ c)
    → is_name name ≡ true
    → Sound s
    → Sound (register c name (drop_old_alias c name s))
rename-Sound c name s made vacant fine v =
    subst (λ t. Sound (register c name t)) (sym (drop_old_alias-names c name s))
      (renamed-Sound c name (drop_old_alias c name s).by_name s made vacant fine
        (drop_old_alias-IsKeyed c name s v) (λ n. drop_old_alias-find c name n s v) v)

pub begin_match-Alike : (r seed : ℕ) (s : State) → Alike s (begin_match r seed s)
unfolding begin_match
begin_match-Alike r seed s = ground arith

settle-Alike : (r : ℕ) (v : Verdict) (s : State) → Alike s (settle r v s)
unfolding settle
settle-Alike r waiting s = ground arith
settle-Alike r (mismatch t e) s = ground arith
settle-Alike r (agreed t) s = ground arith

store_crc-Alike : (r : ℕ) (table : Table) (s : State) → Alike s (store_crc r table s)
unfolding store_crc
store_crc-Alike r table s = ground arith

pub log_crc-Sound : (r : ℕ) (p : Bytes) (s : State) → Sound s → Sound (log_crc r p s)
unfolding log_crc
log_crc-Sound r p s v =
    let result =
      report (length (s.rooms r).members) (get_or p 0 0) (word 1 p) (word 3 p) (s.rooms r).crc in
    let stored = store_crc r result.0 s in
    Alike-Sound stored (settle r result.1 stored) (settle-Alike r result.1 stored)
      (Alike-Sound s stored (store_crc-Alike r result.0 s) v)

pub push_rx-Alike : (c : ℕ) (b : Bytes) (s : State) → Alike s (push_rx c b s)
unfolding push_rx
push_rx-Alike c b s = ground arith

pub set_rx-Alike : (c : ℕ) (b : Bytes) (s : State) → Alike s (set_rx c b s)
unfolding set_rx
set_rx-Alike c b s = ground arith

pub reject-Alike : (s : State) → Alike s (reject s)
unfolding reject
reject-Alike s = ground arith

pub count_hello_timeout-Alike : (s : State) → Alike s (count_hello_timeout s)
unfolding count_hello_timeout
count_hello_timeout-Alike s = ground arith

pub log_stats-Alike : (s : State) → Alike s (log_stats s)
unfolding log_stats
log_stats-Alike s = ground arith

pub open_room-Sound :
    (target : ℕ) (s : State)
    → (s.heap target).room ≡ none
    → target < s.next_client
    → Sound s
    → Sound (open_room target s)
unfolding open_room
open_room-Sound target s alone made v = record {
  capacity = λ r. ground (arith, v.capacity r);
  linked = λ c r h. ground (arith, v.linked c r, v.allocated c r);
  backed = λ c r e h m. ground (arith, v.backed c r e, v.allocated c r);
  distinct = λ r.
      if_ind (λ (room : Room). IsDistinct room.members) (r == s.next_room) (λ _. (refl, tt))
        (λ _. v.distinct r);
  allocated = λ c r h. ground (arith, v.allocated c r);
  present = λ c h. v.present c (ground arith);
  handed = λ c h. v.handed c h;
  named = λ c n h. v.named c n (ground arith);
  seated = λ r e m. ground (arith, v.seated r e);
  keyed = v.keyed;
  registered = λ c n l h. v.registered c n (ground arith) (ground arith);
  entered = λ c n h. ground (arith, v.entered c n);
  admitted = λ c n h. v.admitted c n (ground arith);
}

pub seat_in-Sound :
    (c r : ℕ) (s : State)
    → length (s.rooms r).members < max_seats
    → r < s.next_room
    → (s.heap c).room ≡ none
    → c < s.next_client
    → IsBacked r s
    → Sound s
    → Sound (seat_in c r s)
unfolding seat_in
seat_in-Sound c r s room_left known alone made all_in v =
    let apart : contains c (s.rooms r).members ≡ false = ground (arith, all_in c) in
    record {
      capacity = λ q. ground (arith, v.capacity q, length-append (s.rooms r).members (c ∷ []));
      linked = λ e q h. ground (arith, v.linked e q, contains_append e c (s.rooms r).members);
      backed = λ e q f h m.
          ground (arith, all_in f, v.backed e q f, contains_append f c (s.rooms r).members);
      distinct = λ q.
          if_ind (λ (room : Room). IsDistinct room.members) (q == r)
            (λ here. append-IsDistinct c (s.rooms q).members (ground arith) (v.distinct q))
            (λ _. v.distinct q);
      allocated = λ e q h. ground (arith, v.allocated e q);
      present = λ e h. v.present e (ground arith);
      handed = λ e h. v.handed e h;
      named = λ e n h. v.named e n (ground arith);
      seated = λ q e m. ground (arith, v.seated q e, contains_append e c (s.rooms r).members);
      keyed = v.keyed;
      registered = λ e n l h. v.registered e n (ground arith) (ground arith);
      entered = λ e n h. ground (arith, v.entered e n);
      admitted = λ e n h. v.admitted e n (ground arith);
    }

pub admit-Sound : (host port now : ℕ) (s : State) → Sound s → Sound (admit host port now s)
unfolding admit new_client
admit-Sound host port now s v = record {
  capacity = λ r. v.capacity r;
  linked = λ c r h. v.linked c r (ground arith);
  backed = λ c r e h m. ground (arith, v.backed c r e, v.seated r e);
  distinct = λ r. v.distinct r;
  allocated = λ c r h. v.allocated c r (ground arith);
  present = λ c h. ground (arith, v.present c);
  handed = λ c h. ground (arith, v.handed c);
  named = λ c n h. ground (arith, v.named c n);
  seated = λ r e m. ground (arith, v.seated r e);
  keyed = v.keyed;
  registered = λ c n l h. ground (arith, v.registered c n);
  entered = λ c n h. ground (arith, v.entered c n, v.named c n);
  admitted = λ c n h. ground (arith, v.admitted c n);
}

length-lobby_entries : (cs : List ℕ) (s : State) → length (lobby_entries cs s) ≡ 9 * length cs
unfolding lobby_entries
length-lobby_entries [] s = omega arith
length-lobby_entries (c ∷ cs) s = omega (
  arith,
  length-append (pad_name (name_of c s)) (status c s ∷ lobby_entries cs s),
  length-pad_name (name_of c s),
  length-lobby_entries cs s,
)

-- A LOBBY payload has at most 73 bytes, however many players there are.
pub length-lobby_payload : (client : ℕ) (s : State) → length (lobby_payload client s) ≤ 73
unfolding lobby_payload
length-lobby_payload client s = omega (
  arith,
  length-lobby_entries (take 8 (others client s.by_name s)) s,
  length-take 8 (others client s.by_name s),
)

pub named-made :
    (c target : ℕ) (s : State) → refuses c target s ≡ false → Sound s → target < s.next_client
unfolding refuses
named-made c target s admitted v = elim (Option-cases (s.heap target).name) [
  | inl e ↦ ground arith
  | inr (n, e) ↦ v.named target n e
]
