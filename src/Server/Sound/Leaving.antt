-- ===== src/Server/Sound/Leaving.antt =====
-- Leaving a room and dissolving one keep the structural invariant.
use fujinet_intv_basketball.Base.{
  ℕ, ◌≡◌, ◌≢◌, refl, sym, ap, ◌∙◌, if_ind, true, false, none, some, List, [], ◌∷◌, arith, contains,
  ◌==◌, length-remove-le, contains-remove_ne, IsDistinct, contains-remove_self, contains-remove-le,
  remove-IsDistinct, Bool-cases, inl, inr, find,
}
use fujinet_intv_basketball.Server.Types.{Room, State}
use fujinet_intv_basketball.Server.State.{modify, detach, free_all, clear_members}
use fujinet_intv_basketball.Server.Sound.{Sound}

pub detach-Sound : (c r : ℕ) (s : State) → (s.heap c).room ≡ some r → Sound s → Sound (detach c r s)
unfolding detach
detach-Sound c r s mine v = record {
  capacity = λ q. ground (arith, v.capacity q, length-remove-le c (s.rooms r).members);
  linked = λ d q h. ground (arith, v.linked d q, contains-remove_ne d c (s.rooms r).members);
  backed = λ d q e h m. ground (
    arith,
    mine,
    v.backed d q e,
    contains-remove_self c (s.rooms r).members (v.distinct r),
    contains-remove-le e c (s.rooms r).members,
  );
  distinct = λ q.
      if_ind (λ (room : Room). IsDistinct room.members) (q == r)
        (λ _. remove-IsDistinct c (s.rooms q).members (v.distinct q)) (λ _. v.distinct q);
  allocated = λ d q h. v.allocated d q (ground arith);
  present = λ d h. v.present d (ground arith);
  handed = λ d h. v.handed d h;
  named = λ d n h. v.named d n (ground arith);
  seated = λ q e m. ground (arith, v.seated q e, contains-remove-le e c (s.rooms r).members);
  keyed = v.keyed;
  registered = λ d n l h. v.registered d n (ground arith) (ground arith);
  entered = λ d n h. ground (arith, v.entered d n);
  admitted = λ d n h. v.admitted d n (ground arith);
}

abbrev pub free : ℕ → State → State
free m = modify m (λ k. record k { room = none })

pub free_all-none :
    (ms : List ℕ) (c : ℕ) (s : State)
    → (s.heap c).room ≡ none
    → ((free_all ms s).heap c).room ≡ none
unfolding free_all
free_all-none [] c s h = h
free_all-none (m ∷ ms) c s h = free_all-none ms c (free m s) (ground arith)

pub free_all_frees :
    (ms : List ℕ) (c : ℕ) (s : State) → contains c ms ≡ true → ((free_all ms s).heap c).room ≡ none
unfolding free_all
free_all_frees [] c s h = cc
free_all_frees (m ∷ ms) c s h = elim (Bool-cases (c == m)) [
  | inl e ↦ free_all-none ms c (free m s) (ground arith)
  | inr n ↦ free_all_frees ms c (free m s) (ground arith)
]

free_all_spares :
    (ms : List ℕ) (c : ℕ) (s : State)
    → contains c ms ≡ false
    → ((free_all ms s).heap c).room ≡ (s.heap c).room
unfolding free_all
free_all_spares [] c s h = refl
free_all_spares (m ∷ ms) c s h = free_all_spares ms c (free m s) (ground arith) ∙ ground arith

pub free_all_shrinks :
    (ms : List ℕ) (c r : ℕ) (s : State)
    → ((free_all ms s).heap c).room ≡ some r
    → (contains c ms ≡ false) × ((s.heap c).room ≡ some r)
free_all_shrinks ms c r s h = elim (Bool-cases (contains c ms)) [
  | inl listed ↦ let gone = free_all_frees ms c s listed in cc
  | inr apart ↦ (apart, sym (free_all_spares ms c s apart) ∙ h)
]

free_all-rooms : (ms : List ℕ) (s : State) → (free_all ms s).rooms ≡ s.rooms
unfolding free_all
free_all-rooms [] s = refl
free_all-rooms (m ∷ ms) s = free_all-rooms ms (free m s)

free_all-next : (ms : List ℕ) (s : State) → (free_all ms s).next_room ≡ s.next_room
unfolding free_all
free_all-next [] s = refl
free_all-next (m ∷ ms) s = free_all-next ms (free m s)

free_all-dead : (ms : List ℕ) (c : ℕ) (s : State) → ((free_all ms s).heap c).dead ≡ (s.heap c).dead
unfolding free_all
free_all-dead [] c s = refl
free_all-dead (m ∷ ms) c s = free_all-dead ms c (free m s) ∙ ground arith

free_all-clients : (ms : List ℕ) (s : State) → (free_all ms s).clients ≡ s.clients
unfolding free_all
free_all-clients [] s = refl
free_all-clients (m ∷ ms) s = free_all-clients ms (free m s)

pub free_all-handed : (ms : List ℕ) (s : State) → (free_all ms s).next_client ≡ s.next_client
unfolding free_all
free_all-handed [] s = refl
free_all-handed (m ∷ ms) s = free_all-handed ms (free m s)

free_all-name : (ms : List ℕ) (c : ℕ) (s : State) → ((free_all ms s).heap c).name ≡ (s.heap c).name
unfolding free_all
free_all-name [] c s = refl
free_all-name (m ∷ ms) c s = free_all-name ms c (free m s) ∙ ground arith

free_all-names : (ms : List ℕ) (s : State) → (free_all ms s).by_name ≡ s.by_name
unfolding free_all
free_all-names [] s = refl
free_all-names (m ∷ ms) s = free_all-names ms (free m s)

-- Every member of room `r` is in it.
abbrev pub IsBacked : ℕ → State → Type 0
IsBacked r s = (e : ℕ) → contains e (s.rooms r).members ≡ true → (s.heap e).room ≡ some r

-- No client is in room `r`, whoever its list still names.
abbrev pub IsLeft : ℕ → State → Type 0
IsLeft r s = (c : ℕ) → (s.heap c).room ≢ some r

freed_elsewhere :
    (r d q e : ℕ) (s : State)
    → (s.heap e).room ≡ some r
    → (s.heap e).room ≡ some q
    → contains d (s.rooms q).members ≡ true
    → contains d (s.rooms r).members ≡ false
    → ⊥
freed_elsewhere r d q e s here there member apart = ground arith

pub detach-IsBacked :
    (c r : ℕ) (s : State) → (s.heap c).room ≡ some r → Sound s → IsBacked r (detach c r s)
unfolding detach
detach-IsBacked c r s mine v e m = ground (
  arith,
  mine,
  v.backed c r e,
  contains-remove_self c (s.rooms r).members (v.distinct r),
  contains-remove-le e c (s.rooms r).members,
)

-- Freeing the members of one room at a time keeps the other rooms whole.
pub free_all-Sound :
    (r : ℕ) (s : State) → IsBacked r s → Sound s → Sound (free_all (s.rooms r).members s)
free_all-Sound r s all_in v =
    let ms = (s.rooms r).members in
    let f = free_all ms s in
    let same : (q : ℕ) → (f.rooms q).members ≡ (s.rooms q).members =
      λ q. ap (λ (g : ℕ → Room). (g q).members) (free_all-rooms ms s) in
    record {
      capacity = λ q. rw (same q) (v.capacity q);
      linked = λ d q h. rw (same q) (v.linked d q (free_all_shrinks ms d q s h).1);
      backed = λ d q e h m.
          let (apart, was) = free_all_shrinks ms d q s h in
          free_all-backed d q e v all_in apart was (ap (contains e) (sym (same q)) ∙ m);
      distinct = λ q. rw (same q) (v.distinct q);
      allocated =
          λ d q h. rw (free_all-next ms s) (v.allocated d q (free_all_shrinks ms d q s h).1);
      present = λ d h. rw (free_all-clients ms s) (v.present d (sym (free_all-dead ms d s) ∙ h));
      handed = λ d h.
          rw (free_all-handed ms s)
            (v.handed d (ap (contains d) (sym (free_all-clients ms s)) ∙ h));
      named = λ d n h. rw (free_all-handed ms s) (v.named d n (sym (free_all-name ms d s) ∙ h));
      seated =
          λ q e m. rw (free_all-handed ms s) (v.seated q e (ap (contains e) (sym (same q)) ∙ m));
      keyed = rw (free_all-names ms s) v.keyed;
      registered = λ d n l h.
          rw (free_all-names ms s)
            (v.registered d n (sym (free_all-dead ms d s) ∙ l) (sym (free_all-name ms d s) ∙ h));
      entered = λ d n h.
          free_all-name ms d s ∙ v.entered d n (ap (find n) (sym (free_all-names ms s)) ∙ h);
      admitted = λ d n h. v.admitted d n (sym (free_all-name ms d s) ∙ h);
    }
  where
    free_all-backed :
        (d q e : ℕ)
        → Sound s
        → IsBacked r s
        → contains d (s.rooms r).members ≡ false
        → (s.heap d).room ≡ some q
        → contains e (s.rooms q).members ≡ true
        → ((free_all (s.rooms r).members s).heap e).room ≡ some q
    free_all-backed d q e v all_in apart was m =
        elim (Bool-cases (contains e (s.rooms r).members)) [
          | inl listed ↦
              let here = all_in e listed in
              let there = v.backed d q e was m in
              let member = v.linked d q was in
              absurd (freed_elsewhere r d q e s here there member apart)
          | inr free_of ↦ free_all_spares (s.rooms r).members e s free_of ∙ v.backed d q e was m
        ]

pub clear_members-Sound : (r : ℕ) (s : State) → IsLeft r s → Sound s → Sound (clear_members r s)
unfolding clear_members
clear_members-Sound r s left v = record {
  capacity = λ q. ground (arith, v.capacity q);
  linked = λ d q h. ground (arith, v.linked d q, left d);
  backed = λ d q e h m. ground (arith, v.backed d q e, left d);
  distinct =
      λ q. if_ind (λ (room : Room). IsDistinct room.members) (q == r) (λ _. tt) (λ _. v.distinct q);
  allocated = λ d q h. v.allocated d q h;
  present = λ d h. v.present d h;
  handed = λ d h. v.handed d h;
  named = λ d n h. v.named d n h;
  seated = λ q e m. ground (arith, v.seated q e);
  keyed = v.keyed;
  registered = λ d n l h. v.registered d n l h;
  entered = λ d n h. v.entered d n h;
  admitted = λ d n h. v.admitted d n h;
}
