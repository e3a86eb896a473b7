-- ===== src/Server/Fanned.antt =====
-- Where no socket fails, a loop over a room's members sends each its own frame, and nobody else any.
use fujinet_intv_basketball.Base.{
  ℕ, zero, suc, ◌+◌, ◌≤◌, ◌≡◌, ◌≢◌, refl, sym, ap, ◌∙◌, subst, true, false, some, List, [], ◌∷◌,
  ◌++◌, append_assoc, Bytes, arith, length, All, IsDistinct, contains, get_elem?, length-append,
}
use fujinet_intv_basketball.Server.Types.{Client, Room, State, System}
use fujinet_intv_basketball.Server.Conn.{send, each_member, for_members}
use fujinet_intv_basketball.Server.Streams.{stream}
use fujinet_intv_basketball.Server.Fanout.{IsHealthy, HasSlack, Delivered, send_delivers}
use fujinet_intv_basketball.Server.Relay.{get_elem?-append}

-- What being sent `b` has done to a client.
pub record Got (b : Bytes) (k l : Client) : Type 0 where
  pub sent : stream l ≡ stream k ++ b
  pub alive : l.dead ≡ k.dead
  pub same_room : l.room ≡ k.room
  pub same_name : l.name ≡ k.name
  pub backlog : length l.tx ≤ length k.tx + length b

Delivered-Got : {c : ℕ} {b : Bytes} {s t : State} → Delivered c b s t → Got b (s.heap c) (t.heap c)
Delivered-Got d = record {
  sent = d.mine;
  alive = d.alive;
  same_room = d.same_room;
  same_name = d.same_name;
  backlog = d.backlog;
}

pub Got-trans : {a b : Bytes} {k l m : Client} → Got a k l → Got b l m → Got (a ++ b) k m
Got-trans {a} {b} {k} g h = record {
  sent = h.sent ∙ ap (λ p. p ++ b) g.sent ∙ append_assoc (stream k) a b;
  alive = h.alive ∙ g.alive;
  same_room = h.same_room ∙ g.same_room;
  same_name = h.same_name ∙ g.same_name;
  backlog = omega (arith, g.backlog, h.backlog, length-append a b);
}

-- What a loop over `ms` has done that sends the member of index `i` the frame `bytes i`.
pub record Spread (bytes : ℕ → Bytes) (ms : List ℕ) (s t : State) : Type 0 where
  pub reached : (i m : ℕ) → get_elem? ms i ≡ some m → Got (bytes i) (s.heap m) (t.heap m)
  pub spared : (e : ℕ) → contains e ms ≡ false → t.heap e ≡ s.heap e
  pub rooms : t.rooms ≡ s.rooms
  pub same_delay : t.delay ≡ s.delay
  pub same_auto_go : t.auto_go ≡ s.auto_go

Spread-nil : (bytes : ℕ → Bytes) (s : State) → Spread bytes [] s s
Spread-nil bytes s = record {
  reached = λ i m h. cc;
  spared = λ e h. refl;
  rooms = refl;
  same_delay = refl;
  same_auto_go = refl;
}

get_elem?-contains : (ms : List ℕ) (i m : ℕ) → get_elem? ms i ≡ some m → contains m ms ≡ true
get_elem?-contains [] i m h = cc
get_elem?-contains (x ∷ ms) zero m h = ground arith
get_elem?-contains (x ∷ ms) (suc i) m h = ground (arith, get_elem?-contains ms i m h)

Spread-cons :
    (bytes : ℕ → Bytes) (m : ℕ) (ms : List ℕ) (s u t : State)
    → contains m ms ≡ false
    → Delivered m (bytes 0) s u
    → Spread (λ i. bytes (suc i)) ms u t
    → Spread bytes (m ∷ ms) s t
Spread-cons bytes m ms s u t once d f = record {
  reached = reached;
  spared = λ x h. f.spared x (ground arith) ∙ d.others x (ground arith);
  rooms = f.rooms ∙ d.rooms;
  same_delay = f.same_delay ∙ d.same_delay;
  same_auto_go = f.same_auto_go ∙ d.same_auto_go;
}
  where
    reached : (i x : ℕ) → get_elem? (m ∷ ms) i ≡ some x → Got (bytes i) (s.heap x) (t.heap x)
    reached zero x h =
        let e : m ≡ x = ground arith in
        subst (λ y. Got (bytes 0) (s.heap y) (t.heap y)) e
          (subst (Got (bytes 0) (s.heap m)) (sym (f.spared m once)) (Delivered-Got d))
    reached (suc i) x h =
        let listed = get_elem?-contains ms i x h in
        subst (λ k. Got (bytes (suc i)) k (t.heap x)) (d.others x (ground arith)) (f.reached i x h)

slack-after :
    (n m : ℕ) (ms : List ℕ) (s u : State)
    → contains m ms ≡ false
    → ((e : ℕ) → e ≢ m → u.heap e ≡ s.heap e)
    → All (λ e. HasSlack n (s.heap e)) ms
    → All (λ e. HasSlack n (u.heap e)) ms
slack-after n m [] s u once same r = tt
slack-after n m (x ∷ ms) s u once same r = (
  subst (HasSlack n) (sym (same x (ground arith))) r.0,
  slack-after n m ms s u (ground arith) same r.1,
)

pub HasSlack-le : (n m : ℕ) (k : Client) → m ≤ n → HasSlack n k → HasSlack m k
HasSlack-le n m k h slack = (slack.0, let fits = slack.1 in omega arith)

module _ (sys : System) (healthy : IsHealthy sys) (n r : ℕ) where
  -- `mine` is the family of frames from index `i` on.
  each_member-Spread :
      (bytes mine : ℕ → Bytes) (ms pre : List ℕ) (i : ℕ) (s : State)
      → ((j : ℕ) → length (bytes j) ≤ n)
      → ((j : ℕ) → mine j ≡ bytes (j + i))
      → i ≡ length pre
      → (s.rooms r).members ≡ pre ++ ms
      → IsDistinct ms
      → All (λ m. HasSlack n (s.heap m)) ms
      → Spread mine ms s (each_member (length ms) i r (λ j m. send sys m (bytes j)) s)
  unfolding each_member
  each_member-Spread bytes mine [] pre i s small from e h u ready = Spread-nil mine s
  each_member-Spread bytes mine (m ∷ ms) pre i s small from e h u ready =
      rw (ap (λ l. get_elem? l i) h ∙ get_elem?-append pre ms m i e, each_member)
        (let d =
            send_delivers sys healthy m (bytes i) s
              (HasSlack-le n (length (bytes i)) (s.heap m) (small i) ready.0) in
          Spread-cons mine m ms s (send sys m (bytes i) s) _ u.0
            (subst (λ b. Delivered m b s (send sys m (bytes i) s)) (sym first) d)
            (each_member-Spread bytes (λ j. mine (suc j)) ms (pre ++ m ∷ []) (i + 1)
              (send sys m (bytes i) s) small (λ j. from (suc j) ∙ ap bytes (shift j)) later
              (ap (λ (f : ℕ → Room). (f r).members) d.rooms ∙ h ∙ regroup) u.1
              (slack-after n m ms s (send sys m (bytes i) s) u.0 d.others ready.1)))
    where
      first : mine 0 ≡ bytes i
      first = from 0 ∙ ap bytes (omega arith)

      later : i + 1 ≡ length (pre ++ m ∷ [])
      later = omega (arith, length-append pre (m ∷ []))

      shift : (j : ℕ) → suc j + i ≡ j + (i + 1)
      shift j = omega arith

      regroup : pre ++ m ∷ ms ≡ (pre ++ m ∷ []) ++ ms
      regroup = sym (append_assoc pre (m ∷ []) ms)

  -- Each member gets the frame of its own index.
  pub for_members-Spread :
      (bytes : ℕ → Bytes) (s : State)
      → ((j : ℕ) → length (bytes j) ≤ n)
      → IsDistinct (s.rooms r).members
      → All (λ m. HasSlack n (s.heap m)) (s.rooms r).members
      → Spread bytes (s.rooms r).members s (for_members r (λ j m. send sys m (bytes j)) s)
  unfolding for_members
  for_members-Spread bytes s small =
      each_member-Spread bytes bytes (s.rooms r).members [] 0 s small (λ j. ap bytes (omega arith))
        refl refl
