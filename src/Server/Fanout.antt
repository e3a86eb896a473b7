-- ===== src/Server/Fanout.antt =====
-- Where no socket fails and no backlog is full, a send reaches its client and nobody else, and a
-- relayed frame reaches every other member of the room, verbatim.
use fujinet_intv_basketball.Base.{
  ℕ, zero, suc, ◌+◌, ◌≤◌, ◌≡◌, ◌≢◌, refl, sym, ap, ◌∙◌, if_ind, ==_refl, Bool, true, false, not, [],
  ◌++◌, append-nil, append_assoc, Bytes, arith, length, length-append, length-drop, take, drop,
  take-append-drop, is_empty, ltb, ◌==◌, Bool-cases, inl, inr,
}
use mathlib.Core.Option
use fujinet_intv_basketball.Server.Types.{
  Client, State, System, SendResult, accepted, blocked, failed, max_tx_backlog,
}
use fujinet_intv_basketball.Server.State.{advance, queue, take_tx, update_events}
use fujinet_intv_basketball.Server.Conn.{
  on_sent, flush_loop, flush_with, send_with, send, drop_client,
}
use fujinet_intv_basketball.Server.Streams.{stream}

-- The socket took a byte or more, or would block.
abbrev pub is_healthy : SendResult → Bool
is_healthy (accepted n) = not (n == 0)
is_healthy blocked = true
is_healthy failed = false

-- No socket fails while the call lasts.
abbrev pub IsHealthy : System → Type 0
IsHealthy sys = (clock c : ℕ) (b : Bytes) → is_healthy (sys.sock_send clock c b) ≡ true

-- What a call has done that sent `b` to client `c` and nothing to anyone else. The registration asks
-- for EVENT_WRITE exactly while bytes are queued.
pub record Delivered (c : ℕ) (b : Bytes) (s t : State) : Type 0 where
  pub mine : stream (t.heap c) ≡ stream (s.heap c) ++ b
  pub alive : (t.heap c).dead ≡ (s.heap c).dead
  pub armed : (t.heap c).watch ≡ Option.map (λ _. not (is_empty (t.heap c).tx)) (s.heap c).watch
  pub others : (e : ℕ) → e ≢ c → t.heap e ≡ s.heap e
  pub rooms : t.rooms ≡ s.rooms
  pub same_delay : t.delay ≡ s.delay
  pub same_auto_go : t.auto_go ≡ s.auto_go
  pub same_room : (t.heap c).room ≡ (s.heap c).room
  pub same_name : (t.heap c).name ≡ (s.heap c).name
  pub backlog : length (t.heap c).tx ≤ length (s.heap c).tx + length b

-- A write to client `c` alone, before a flush of it.
record Prepared (c : ℕ) (b : Bytes) (s u : State) : Type 0 where
  mine : stream (u.heap c) ≡ stream (s.heap c) ++ b
  alive : (u.heap c).dead ≡ (s.heap c).dead
  watch : (u.heap c).watch ≡ (s.heap c).watch
  others : (e : ℕ) → e ≢ c → u.heap e ≡ s.heap e
  rooms : u.rooms ≡ s.rooms
  same_delay : u.delay ≡ s.delay
  same_auto_go : u.auto_go ≡ s.auto_go
  same_room : (u.heap c).room ≡ (s.heap c).room
  same_name : (u.heap c).name ≡ (s.heap c).name
  backlog : length (u.heap c).tx ≤ length (s.heap c).tx + length b

flushed :
    (c : ℕ) (b : Bytes) (s u t : State) → Prepared c b s u → Delivered c [] u t → Delivered c b s t
flushed c b s u t p d = record {
  mine = d.mine ∙ append-nil (stream (u.heap c)) ∙ p.mine;
  alive = d.alive ∙ p.alive;
  armed = d.armed ∙ ap (Option.map (λ _. not (is_empty (t.heap c).tx))) p.watch;
  others = λ e h. d.others e h ∙ p.others e h;
  rooms = d.rooms ∙ p.rooms;
  same_delay = d.same_delay ∙ p.same_delay;
  same_auto_go = d.same_auto_go ∙ p.same_auto_go;
  same_room = d.same_room ∙ p.same_room;
  same_name = d.same_name ∙ p.same_name;
  backlog = omega (arith, d.backlog, p.backlog);
}

advance-Prepared : (c : ℕ) (s : State) → Prepared c [] s (advance s)
unfolding advance
advance-Prepared c s = record {
  mine = sym (append-nil (stream (s.heap c)));
  alive = refl;
  watch = refl;
  others = λ e h. refl;
  rooms = refl;
  same_delay = refl;
  same_auto_go = refl;
  same_room = refl;
  same_name = refl;
  backlog = omega arith;
}

take_tx-Prepared : (c n : ℕ) (s : State) → Prepared c [] s (take_tx c n s)
unfolding take_tx
take_tx-Prepared c n s = record {
  mine = rw (==_refl c) (
      append_assoc (s.heap c).wire (take n (s.heap c).tx) (drop n (s.heap c).tx)
      ∙ ap (λ r. (s.heap c).wire ++ r) (take-append-drop n (s.heap c).tx)
      ∙ sym (append-nil (stream (s.heap c))));
  alive = ground arith;
  watch = ground arith;
  others = λ e h. ground arith;
  rooms = refl;
  same_delay = refl;
  same_auto_go = refl;
  same_room = ground arith;
  same_name = ground arith;
  backlog = ground (arith, length-drop n (s.heap c).tx);
}

queue-Prepared : (c : ℕ) (b : Bytes) (s : State) → Prepared c b s (queue c b s)
unfolding queue
queue-Prepared c b s = record {
  mine = rw (==_refl c) (sym (append_assoc (s.heap c).wire (s.heap c).tx b));
  alive = ground arith;
  watch = ground arith;
  others = λ e h. ground arith;
  rooms = refl;
  same_delay = refl;
  same_auto_go = refl;
  same_room = ground arith;
  same_name = ground arith;
  backlog = ground (arith, length-append (s.heap c).tx b);
}

armed-Delivered : (c : ℕ) (s : State) → Delivered c [] s (update_events c s)
unfolding update_events
armed-Delivered c s = record {
  mine = ground (arith, append-nil (stream (s.heap c)));
  alive = ground arith;
  armed = ground arith;
  others = λ e h. ground arith;
  rooms = refl;
  same_delay = refl;
  same_auto_go = refl;
  same_room = ground arith;
  same_name = ground arith;
  backlog = ground arith;
}

module _ (sys : System) (healthy : IsHealthy sys) (d : ℕ → State → State) where
  sent-Delivered :
      (n c : ℕ) (r : SendResult) (s : State)
      → is_healthy r ≡ true
      → ((t : State) → Delivered c [] t (flush_loop sys d n c t))
      → Delivered c [] s (on_sent sys d (flush_loop sys d n c) c r s)
  sent-Delivered n c (accepted m) s h ih = elim (Bool-cases (m == 0)) [
    | inl none_taken ↦ absurd (ground arith)
    | inr some_taken ↦ rw some_taken (
        flushed c [] s (take_tx c m s) (flush_loop sys d n c (take_tx c m s))
          (take_tx-Prepared c m s) (ih (take_tx c m s)))
  ]
  sent-Delivered n c blocked s h ih = armed-Delivered c s
  sent-Delivered n c failed s h ih = cc

  flush_loop-Delivered : (n c : ℕ) (s : State) → Delivered c [] s (flush_loop sys d n c s)
  unfolding flush_loop
  flush_loop-Delivered zero c s = armed-Delivered c s
  flush_loop-Delivered (suc n) c s =
      if_ind (Delivered c [] s) (is_empty (s.heap c).tx) (λ _. armed-Delivered c s)
        (λ _.
          let r = sys.sock_send s.clock c (s.heap c).tx in
          flushed c [] s (advance s) (on_sent sys d (flush_loop sys d n c) c r (advance s))
            (advance-Prepared c s)
            (sent-Delivered n c r (advance s) (healthy s.clock c (s.heap c).tx)
              (flush_loop-Delivered n c)))

-- A client that a send of `n` bytes will not drop.
abbrev pub HasSlack : ℕ → Client → Type 0
HasSlack n k = (k.dead ≡ false) × (length k.tx + n ≤ max_tx_backlog)

-- A client that a send of `b` will not drop.
abbrev pub IsReady : Bytes → Client → Type 0
IsReady b k = HasSlack (length b) k

module _ (sys : System) (healthy : IsHealthy sys) where
  -- Where no socket fails, a send to a client that is alive and whose backlog has room for the bytes
  -- appends them to that client's stream, keeps its name and its room, queues no more than them, and
  -- touches no other client and no room; afterwards the selector waits for EVENT_WRITE exactly if bytes are still queued.
  pub send_delivers :
      (c : ℕ) (b : Bytes) (s : State) → IsReady b (s.heap c) → Delivered c b s (send sys c b s)
  unfolding send send_with flush_with
  send_delivers c b s ready =
      rw (ready.0, room_left)
        (let s' = queue c b s in
          flushed c b s s' (flush_loop sys (drop_client sys) (length (s'.heap c).tx) c s')
            (queue-Prepared c b s)
            (flush_loop-Delivered sys healthy (drop_client sys) (length (s'.heap c).tx) c s'))
    where
      room_left : ltb max_tx_backlog (length (s.heap c).tx + length b) ≡ false
      room_left = let fits = ready.1 in ground arith
