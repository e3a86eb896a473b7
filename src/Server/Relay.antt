-- ===== src/Server/Relay.antt =====
-- A relayed frame goes to every member of the sender's room but the sender, and to nobody else.
use fujinet_intv_basketball.Base.{
  ℕ, zero, suc, ◌+◌, ◌≡◌, ◌≢◌, refl, sym, ap, ◌∙◌, subst, if_ind, true, false, ◌&&◌, some, List, [],
  ◌∷◌, ◌++◌, append_assoc, Bytes, arith, length, All, IsDistinct, contains, get_elem?, ◌==◌, ==_iff,
  if◌then◌else◌, Bool-cases, inl, inr, length-append,
}
use fujinet_intv_basketball.Wire.{frame, t_crc}
use fujinet_intv_basketball.Server.Types.{Client, Room, State, System}
use fujinet_intv_basketball.Server.Conn.{send, each_member, for_members}
use fujinet_intv_basketball.Server.Handlers.{is_relay, fan_out, relay, handle, log_crc}
use fujinet_intv_basketball.Server.Streams.{stream}
use fujinet_intv_basketball.Server.Untouched.{log_crc-SameBut, log_crc-members}
use fujinet_intv_basketball.Server.Fanout.{IsHealthy, IsReady, Delivered, send_delivers}

-- What a fan-out of `b` from `c` over `ms` has done.
pub record Fanned (c : ℕ) (b : Bytes) (ms : List ℕ) (s t : State) : Type 0 where
  pub reached : (e : ℕ) → contains e ms ≡ true → e ≢ c → stream (t.heap e) ≡ stream (s.heap e) ++ b
  pub spared : (e : ℕ) → contains e ms ≡ false → t.heap e ≡ s.heap e
  pub sender : t.heap c ≡ s.heap c
  pub rooms : t.rooms ≡ s.rooms

Fanned-nil : (c : ℕ) (b : Bytes) (s : State) → Fanned c b [] s s
Fanned-nil c b s = record {
  reached = λ e h n. cc;
  spared = λ e h. refl;
  sender = refl;
  rooms = refl;
}

Fanned-self :
    (c : ℕ) (b : Bytes) (m : ℕ) (ms : List ℕ) (s t : State)
    → m ≡ c
    → Fanned c b ms s t
    → Fanned c b (m ∷ ms) s t
Fanned-self c b m ms s t e f = record {
  reached = λ x h n. f.reached x (ground arith) n;
  spared = λ x h. f.spared x (ground arith);
  sender = f.sender;
  rooms = f.rooms;
}

Fanned-cons :
    (c : ℕ) (b : Bytes) (m : ℕ) (ms : List ℕ) (s u t : State)
    → m ≢ c
    → contains m ms ≡ false
    → Delivered m b s u
    → Fanned c b ms u t
    → Fanned c b (m ∷ ms) s t
Fanned-cons c b m ms s u t ne once d f = record {
  reached = λ x h n. elim (Bool-cases (x == m)) [
    | inl here ↦
        let e : x ≡ m = (==_iff x m).0 here in
        subst (λ y. stream (t.heap y) ≡ stream (s.heap y) ++ b) (sym e)
          (ap stream (f.spared m once) ∙ d.mine)
    | inr away ↦ f.reached x (ground arith) n ∙ ap (λ k. stream k ++ b) (d.others x (ground arith))
  ];
  spared = λ x h. f.spared x (ground arith) ∙ d.others x (ground arith);
  sender = f.sender ∙ d.others c (λ e. ne (sym e));
  rooms = f.rooms ∙ d.rooms;
}

pub get_elem?-append :
    (pre ms : List ℕ) (m i : ℕ) → i ≡ length pre → get_elem? (pre ++ m ∷ ms) i ≡ some m
get_elem?-append [] ms m i e = rw e
get_elem?-append (x ∷ pre) ms m zero e = absurd (omega arith)
get_elem?-append (x ∷ pre) ms m (suc i) e = get_elem?-append pre ms m i (omega arith)

Ready-after :
    (c m : ℕ) (b : Bytes) (ms : List ℕ) (s u : State)
    → contains m ms ≡ false
    → ((e : ℕ) → e ≢ m → u.heap e ≡ s.heap e)
    → All (λ e. e ≢ c → IsReady b (s.heap e)) ms
    → All (λ e. e ≢ c → IsReady b (u.heap e)) ms
Ready-after c m b [] s u once same r = tt
Ready-after c m b (x ∷ ms) s u once same r = (
  λ n. subst (IsReady b) (sym (same x (ground arith))) (r.0 n),
  Ready-after c m b ms s u (ground arith) same r.1,
)

module _ (sys : System) (healthy : IsHealthy sys) (c r : ℕ) (b : Bytes) where
  abbrev body : ℕ → ℕ → State → State
  body i m t = if m == c then t else send sys m b t

  each_member-Fanned :
      (ms pre : List ℕ) (i : ℕ) (s : State)
      → i ≡ length pre
      → (s.rooms r).members ≡ pre ++ ms
      → IsDistinct ms
      → All (λ m. m ≢ c → IsReady b (s.heap m)) ms
      → Fanned c b ms s (each_member (length ms) i r body s)
  unfolding each_member
  each_member-Fanned [] pre i s e h u ready = Fanned-nil c b s
  each_member-Fanned (m ∷ ms) pre i s e h u ready =
      rw (ap (λ l. get_elem? l i) h ∙ get_elem?-append pre ms m i e, each_member)
        (elim (Bool-cases (m == c)) [
          | inl self ↦ rw self (
              Fanned-self c b m ms s _ ((==_iff m c).0 self)
                (each_member-Fanned ms (pre ++ m ∷ []) (i + 1) s later (h ∙ regroup) u.1 ready.1))
          | inr other ↦ rw other (
              let d = send_delivers sys healthy m b s (ready.0 (ground arith)) in
              Fanned-cons c b m ms s (send sys m b s) _ (ground arith) u.0 d (
                each_member-Fanned ms (pre ++ m ∷ []) (i + 1) (send sys m b s) later
                  (ap (λ (f : ℕ → Room). (f r).members) d.rooms ∙ h ∙ regroup) u.1
                  (Ready-after c m b ms s (send sys m b s) u.0 d.others ready.1)))
        ])
    where
      later : i + 1 ≡ length (pre ++ m ∷ [])
      later = omega (arith, length-append pre (m ∷ []))

      regroup : pre ++ m ∷ ms ≡ (pre ++ m ∷ []) ++ ms
      regroup = sym (append_assoc pre (m ∷ []) ms)

  fan_out-Fanned :
      (s : State)
      → IsDistinct (s.rooms r).members
      → All (λ m. m ≢ c → IsReady b (s.heap m)) (s.rooms r).members
      → Fanned c b (s.rooms r).members s (fan_out sys c r b s)
  unfolding fan_out for_members
  fan_out-Fanned s u ready = each_member-Fanned (s.rooms r).members [] 0 s refl refl u ready

-- The state in which the frame goes out: the checksum of a CRC frame has been logged.
abbrev logged : ℕ → ℕ → Bytes → State → State
logged r t payload s = if t == t_crc && length payload == 5 then log_crc r payload s else s

logged-heap : (r t : ℕ) (payload : Bytes) (s : State) → (logged r t payload s).heap ≡ s.heap
logged-heap r t payload s =
    if_ind (λ (u : State). u.heap ≡ s.heap) (t == t_crc && length payload == 5)
      (λ _. (log_crc-SameBut r payload s).same_heap) (λ _. refl)

logged-members :
    (r t : ℕ) (payload : Bytes) (s : State)
    → ((logged r t payload s).rooms r).members ≡ (s.rooms r).members
logged-members r t payload s =
    if_ind (λ (u : State). (u.rooms r).members ≡ (s.rooms r).members)
      (t == t_crc && length payload == 5) (λ _. log_crc-members r r payload s) (λ _. refl)

-- The clients after a relayed frame.
pub record Relayed (c : ℕ) (b : Bytes) (ms : List ℕ) (s t : State) : Type 0 where
  pub reached : (e : ℕ) → contains e ms ≡ true → e ≢ c → stream (t.heap e) ≡ stream (s.heap e) ++ b
  pub spared : (e : ℕ) → contains e ms ≡ false → t.heap e ≡ s.heap e
  pub sender : t.heap c ≡ s.heap c

module _ (sys : System) (healthy : IsHealthy sys) where
  relay-fan_out :
      (c t r : ℕ) (payload : Bytes) (s : State)
      → (s.heap c).room ≡ some r
      → (s.rooms r).started ≡ true
      → relay sys c t payload s ≡ fan_out sys c r (frame t payload) (logged r t payload s)
  unfolding relay
  relay-fan_out c t r payload s e on = rw (e, relay) (rw on)

  fan_out-Relayed :
      (c r : ℕ) (b : Bytes) (s u t : State)
      → u.heap ≡ s.heap
      → (u.rooms r).members ≡ (s.rooms r).members
      → Fanned c b (u.rooms r).members u t
      → Relayed c b (s.rooms r).members s t
  fan_out-Relayed c r b s u t same ms f = record {
    reached = λ e h n. f.reached e (rw ms h) n ∙ ap (λ (g : ℕ → Client). stream (g e) ++ b) same;
    spared = λ e h. f.spared e (rw ms h) ∙ ap (λ (g : ℕ → Client). g e) same;
    sender = f.sender ∙ ap (λ (g : ℕ → Client). g c) same;
  }

  -- An INPUT, CRC, STATE or RESYNC frame from a client in a started match, where no socket fails, the
  -- members are distinct, and each other member is alive with room in its backlog: the very frame is
  -- appended to the stream of every other member, and the sender and every client outside the room
  -- are left as they were.
  pub handle_relays :
      (c t r : ℕ) (payload : Bytes) (s : State)
      → is_relay t ≡ true
      → (s.heap c).room ≡ some r
      → (s.rooms r).started ≡ true
      → IsDistinct (s.rooms r).members
      → All (λ m. m ≢ c → IsReady (frame t payload) (s.heap m)) (s.rooms r).members
      → (u : State) × (handle sys c t payload s ≡ some u)
        × Relayed c (frame t payload) (s.rooms r).members s u
  unfolding handle
  handle_relays c t r payload s kind e on distinct ready =
      let b = frame t payload in
      let l = logged r t payload s in
      let same = logged-heap r t payload s in
      let ms = logged-members r t payload s in
      (
        fan_out sys c r b l,
        rw kind (ap some (relay-fan_out c t r payload s e on)),
        fan_out-Relayed c r b s l (fan_out sys c r b l) same ms
            (fan_out-Fanned sys healthy c r b l (rw ms distinct) (rw (same, ms) ready)),
      )
