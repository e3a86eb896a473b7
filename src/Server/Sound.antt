-- ===== src/Server/Sound.antt =====
-- The structural invariant of the server's heaps, and that each single write keeps it.
pub mod Leaving
use fujinet_intv_basketball.Base.{
  ℕ, Option, ◌≤◌, ◌<◌, ◌≡◌, ◌≢◌, refl, sym, ap, ◌∙◌, if_ind, true, false, none, some, List, [], ◌∷◌,
  Bytes, arith, length, contains, remove, ◌==◌, length-remove-le, contains-remove_ne, IsDistinct,
  contains-remove_self, contains-remove-le, remove-IsDistinct, Bool-cases, inl, inr, not, keep,
  find, IsKeyed, find-keep, keep-IsKeyed,
}
use fujinet_intv_basketball.Names.{is_name}
use fujinet_intv_basketball.Publisher.{Publisher}
use fujinet_intv_basketball.Server.Types.{Room, State, max_seats}
use fujinet_intv_basketball.Server.State.{
  modify, advance, lobby_update, queue, take_tx, update_events, has_alias, unalias, retire, detach,
  free_all, clear_members, count_backlog_drop, create,
}

-- Rooms are within their capacity and list nobody twice, a client's room was handed out, has it as a
-- member and has no member whose room it is not, a client that is not dead is in the server's set, and
-- no set, name or room is about a client that was not made yet. The dict of names lists a name once and
-- leads from it to a client of that name, and from the name of a client that is not dead to that client. Names are admitted ones.
pub record Sound (s : State) : Type 0 where
  pub capacity : (r : ℕ) → length (s.rooms r).members ≤ max_seats
  pub linked : (c r : ℕ) → (s.heap c).room ≡ some r → contains c (s.rooms r).members ≡ true
  pub backed :
      (c r e : ℕ)
      → (s.heap c).room ≡ some r
      → contains e (s.rooms r).members ≡ true
      → (s.heap e).room ≡ some r
  pub distinct : (r : ℕ) → IsDistinct (s.rooms r).members
  pub allocated : (c r : ℕ) → (s.heap c).room ≡ some r → r < s.next_room
  pub present : (c : ℕ) → (s.heap c).dead ≡ false → contains c s.clients ≡ true
  pub handed : (c : ℕ) → contains c s.clients ≡ true → c < s.next_client
  pub named : (c : ℕ) (n : Bytes) → (s.heap c).name ≡ some n → c < s.next_client
  pub seated : (r e : ℕ) → contains e (s.rooms r).members ≡ true → e < s.next_client
  pub keyed : IsKeyed s.by_name
  pub registered :
      (c : ℕ) (n : Bytes)
      → (s.heap c).dead ≡ false
      → (s.heap c).name ≡ some n
      → find n s.by_name ≡ some c
  pub entered : (c : ℕ) (n : Bytes) → find n s.by_name ≡ some c → (s.heap c).name ≡ some n
  pub admitted : (c : ℕ) (n : Bytes) → (s.heap c).name ≡ some n → is_name n ≡ true

-- Two states alike in all that the invariant reads.
pub record Alike (s t : State) : Type 0 where
  pub same_room : (c : ℕ) → (t.heap c).room ≡ (s.heap c).room
  pub same_dead : (c : ℕ) → (t.heap c).dead ≡ (s.heap c).dead
  pub same_members : (r : ℕ) → (t.rooms r).members ≡ (s.rooms r).members
  pub same_clients : t.clients ≡ s.clients
  pub same_next : t.next_room ≡ s.next_room
  pub same_handed : t.next_client ≡ s.next_client
  pub same_name : (c : ℕ) → (t.heap c).name ≡ (s.heap c).name
  pub same_names : t.by_name ≡ s.by_name

pub Alike-Sound : (s t : State) → Alike s t → Sound s → Sound t
Alike-Sound s t a v = record {
  capacity = λ r. rw (a.same_members r) (v.capacity r);
  linked = λ c r h. rw (a.same_members r) (v.linked c r (sym (a.same_room c) ∙ h));
  backed = λ c r e h m.
      a.same_room e
      ∙ v.backed c r e (sym (a.same_room c) ∙ h) (ap (contains e) (sym (a.same_members r)) ∙ m);
  distinct = λ r. rw (a.same_members r) (v.distinct r);
  allocated = λ c r h. rw (a.same_next) (v.allocated c r (sym (a.same_room c) ∙ h));
  present = λ c h. rw (a.same_clients) (v.present c (sym (a.same_dead c) ∙ h));
  handed = λ c h. rw (a.same_handed) (v.handed c (ap (contains c) (sym a.same_clients) ∙ h));
  named = λ c n h. rw (a.same_handed) (v.named c n (sym (a.same_name c) ∙ h));
  seated =
      λ r e m. rw (a.same_handed) (v.seated r e (ap (contains e) (sym (a.same_members r)) ∙ m));
  keyed = rw (a.same_names) v.keyed;
  registered = λ c n l h.
      rw (a.same_names) (v.registered c n (sym (a.same_dead c) ∙ l) (sym (a.same_name c) ∙ h));
  entered = λ c n h. a.same_name c ∙ v.entered c n (ap (find n) (sym a.same_names) ∙ h);
  admitted = λ c n h. v.admitted c n (sym (a.same_name c) ∙ h);
}

pub advance-Alike : (s : State) → Alike s (advance s)
unfolding advance
advance-Alike s = ground arith

pub lobby_update-Alike : (s : State) → Alike s (lobby_update s)
unfolding lobby_update
lobby_update-Alike s = ground arith

pub count_backlog_drop-Alike : (s : State) → Alike s (count_backlog_drop s)
unfolding count_backlog_drop
count_backlog_drop-Alike s = ground arith

pub queue-Alike : (c : ℕ) (b : Bytes) (s : State) → Alike s (queue c b s)
unfolding queue
queue-Alike c b s = ground arith

pub take_tx-Alike : (c n : ℕ) (s : State) → Alike s (take_tx c n s)
unfolding take_tx
take_tx-Alike c n s = ground arith

pub update_events-Alike : (c : ℕ) (s : State) → Alike s (update_events c s)
unfolding update_events
update_events-Alike c s = ground arith

-- The writes that change what the invariant reads.
unalias-Sound : (c : ℕ) (s : State) → (s.heap c).dead ≡ true → Sound s → Sound (unalias c s)
unfolding unalias
unalias-Sound c s gone v =
    if_ind Sound (has_alias c s.by_name)
      (λ _. Alike-Sound pruned (lobby_update pruned) (lobby_update-Alike pruned) pruned-Sound)
      (λ _. v)
  where
    pruned : State
    pruned = record s { by_name = keep (λ e. not (e.1 == c)) s.by_name }

    pruned-Sound : Sound pruned
    pruned-Sound = record {
      capacity = λ r. v.capacity r;
      linked = λ d r h. v.linked d r h;
      backed = λ d r e h m. v.backed d r e h m;
      distinct = λ r. v.distinct r;
      allocated = λ d r h. v.allocated d r h;
      present = λ d h. v.present d h;
      handed = λ d h. v.handed d h;
      named = λ d n h. v.named d n h;
      seated = λ r e m. v.seated r e m;
      keyed = keep-IsKeyed c s.by_name v.keyed;
      registered = λ d n l h. ground (arith, find-keep n c s.by_name v.keyed, v.registered d n l h);
      entered = λ d n h. v.entered d n (ground (arith, find-keep n c s.by_name v.keyed));
      admitted = λ d n h. v.admitted d n h;
    }

pub retire-Sound : (c : ℕ) (s : State) → Sound s → Sound (retire c s)
unfolding retire
retire-Sound c s v = unalias-Sound c gone (ground arith) (record {
  capacity = λ r. v.capacity r;
  linked = λ d r h. v.linked d r (ground arith);
  backed = λ d r e h m. ground (arith, v.backed d r e);
  distinct = λ r. v.distinct r;
  allocated = λ d r h. v.allocated d r (ground arith);
  present = λ d h. ground (arith, contains-remove_ne d c s.clients, v.present d);
  handed = λ d h. v.handed d (contains-remove-le d c s.clients h);
  named = λ d n h. v.named d n (ground arith);
  seated = λ r e m. v.seated r e m;
  keyed = v.keyed;
  registered = λ d n l h. v.registered d n (ground arith) (ground arith);
  entered = λ d n h. ground (arith, v.entered d n);
  admitted = λ d n h. v.admitted d n (ground arith);
})
  where
    gone : State
    gone =
        modify c (λ k. record k { dead = true; watch = none; closed = true })
          (record s { clients = remove c s.clients })

pub create-Sound :
    (delay : ℕ) (lobby : Option Publisher) (auto_go : ℕ) → Sound (create delay lobby auto_go)
unfolding create
create-Sound delay lobby auto_go = record {
  capacity = λ r. omega arith;
  linked = λ c r h. cc;
  backed = λ c r e h m. cc;
  distinct = λ r. tt;
  allocated = λ c r h. cc;
  present = λ c h. cc;
  handed = λ c h. cc;
  named = λ c n h. cc;
  seated = λ r e m. cc;
  keyed = tt;
  registered = λ c n l h. cc;
  entered = λ c n h. cc;
  admitted = λ c n h. cc;
}
