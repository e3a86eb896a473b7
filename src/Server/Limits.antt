-- ===== src/Server/Limits.antt =====
-- The server's limits: the backlog of a client, the connections, and those from one address.
use fujinet_intv_basketball.Base.{
  ℕ, suc, ◌+◌, ◌≤◌, ◌<◌, ◌≡◌, refl, sym, ap, subst, List, [], ◌∷◌, Bytes, arith, length, remove,
  All, ◌==◌, length-append, length-drop, length-remove-le, if_ind,
}
use fujinet_intv_basketball.Wire.{frame}
use fujinet_intv_basketball.Server.Types.{
  State, System, max_tx_backlog, max_clients, max_connections_per_ip,
}
use fujinet_intv_basketball.Server.State.{
  advance, lobby_update, queue, take_tx, update_events, unalias, retire, detach, clear_members,
  count_backlog_drop,
}
use fujinet_intv_basketball.Server.Handlers.{
  register, drop_old_alias, open_room, seat_in, begin_match, log_crc,
}
use fujinet_intv_basketball.Server.Loop.{
  from_host, admit, new_client, reject, push_rx, set_rx, count_hello_timeout, log_stats, Event, run,
}
use fujinet_intv_basketball.Server.Untouched.{log_crc-SameBut}
use fujinet_intv_basketball.Server.Sound.{Sound}
use fujinet_intv_basketball.Server.Sound.Leaving.{free}
use fujinet_intv_basketball.Server.Frames.{any_frames}
use fujinet_intv_basketball.Server.Keeps.{Keeps}
use fujinet_intv_basketball.Server.Serves.{Handles, Serves}
use fujinet_intv_basketball.Server.Runs.{run-Ok, any_events}

pub record Within (s : State) : Type 0 where
  pub backlog : (c : ℕ) → length (s.heap c).tx ≤ max_tx_backlog
  pub crowd : length s.clients ≤ max_clients
  pub per_host : (host : ℕ) → from_host host s.clients s ≤ max_connections_per_ip
  pub handed_out : All (λ c. c < s.next_client) s.clients

from_host_cong :
    (host : ℕ) (cs : List ℕ) (n : ℕ) (s t : State)
    → All (λ c. c < n) cs
    → ((c : ℕ) → c < n → (t.heap c).host ≡ (s.heap c).host)
    → from_host host cs t ≡ from_host host cs s
unfolding from_host
from_host_cong host [] n s t b h = refl
from_host_cong host (c ∷ cs) n s t b h = rw (h c b.0, from_host_cong host cs n s t b.1 h)

from_host-remove-le :
    (host c : ℕ) (cs : List ℕ) (s : State) → from_host host (remove c cs) s ≤ from_host host cs s
unfolding from_host
from_host-remove-le host c [] s = omega arith
from_host-remove-le host c (x ∷ cs) s = ground (arith, from_host-remove-le host c cs s)

All-remove {ℓ} : (Q : ℕ → Type ℓ) (c : ℕ) (cs : List ℕ) → All Q cs → All Q (remove c cs)
All-remove Q c [] h = tt
All-remove Q c (x ∷ cs) h = if_ind (All Q) (c == x) (λ _. h.1) (λ _. (h.0, All-remove Q c cs h.1))

All-weaken : (m n : ℕ) (cs : List ℕ) → m ≤ n → All (λ c. c < m) cs → All (λ c. c < n) cs
All-weaken m n [] h a = tt
All-weaken m n (x ∷ cs) h a = (omega arith, All-weaken m n cs h a.1)

-- A write that adds no connection, moves none and lengthens no backlog past its bound.
Within-fewer :
    (s t : State)
    → Within s
    → length t.clients ≤ length s.clients
    → ((host : ℕ) → from_host host t.clients s ≤ from_host host s.clients s)
    → All (λ c. c < s.next_client) t.clients
    → t.next_client ≡ s.next_client
    → ((c : ℕ) → (t.heap c).host ≡ (s.heap c).host)
    → ((c : ℕ) → length (t.heap c).tx ≤ max_tx_backlog)
    → Within t
Within-fewer s t w fewer counted known next hosts txs = record {
  backlog = txs;
  crowd = omega (arith, w.crowd);
  per_host = λ host. omega (
    arith,
    from_host_cong host t.clients s.next_client s t known (λ c _. hosts c),
    counted host,
    w.per_host host,
  );
  handed_out = rw next known;
}

Within-still :
    (s t : State)
    → Within s
    → t.clients ≡ s.clients
    → t.next_client ≡ s.next_client
    → ((c : ℕ) → (t.heap c).host ≡ (s.heap c).host)
    → ((c : ℕ) → length (t.heap c).tx ≤ max_tx_backlog)
    → Within t
Within-still s t w same =
    Within-fewer s t w (omega (arith, ap length same))
      (λ host. omega (arith, ap (λ cs. from_host host cs s) same))
      (subst (All (λ c. c < s.next_client)) (sym same) w.handed_out)

abbrev Spares : (State → State) → Type 0
Spares f = (t : State) → Within t → Within (f t)

queue-Within :
    (c : ℕ) (b : Bytes) (t : State)
    → length (t.heap c).tx + length b ≤ max_tx_backlog
    → Within t
    → Within (queue c b t)
unfolding queue
queue-Within c b t fits w =
    Within-still t (queue c b t) w refl refl (λ e. ground arith)
      (λ e. ground (arith, w.backlog e, length-append (t.heap e).tx b))

take_tx-Within : (c n : ℕ) → Spares (take_tx c n)
unfolding take_tx
take_tx-Within c n t w =
    Within-still t (take_tx c n t) w refl refl (λ e. ground arith)
      (λ e. ground (arith, w.backlog e, length-drop n (t.heap e).tx))

-- What `retire` leaves of the table of clients and of each client.
pub retire-clients : (c : ℕ) (t : State) → (retire c t).clients ≡ remove c t.clients
unfolding retire unalias lobby_update
retire-clients c t = ground arith

retire-Within : (c : ℕ) → Spares (retire c)
retire-Within c t w =
    Within-fewer t (retire c t) w (rw (retire-clients c t) (length-remove-le c t.clients))
      (λ host. rw (retire-clients c t) (from_host-remove-le host c t.clients t))
      (rw (retire-clients c t) (All-remove (λ e. e < t.next_client) c t.clients w.handed_out))
      (unfold retire in ground arith) (λ e. unfold retire in ground arith)
      (λ e. unfold retire in ground (arith, w.backlog e))

admit-Within :
    (host port now : ℕ) (t : State)
    → length t.clients < max_clients
    → from_host host t.clients t < max_connections_per_ip
    → Within t
    → Within (admit host port now t)
unfolding admit new_client from_host
admit-Within host port now t below few w = record {
  backlog = λ e. ground (arith, w.backlog e);
  crowd = omega arith;
  per_host = λ h. ground (
    arith,
    w.per_host h,
    from_host_cong h t.clients t.next_client t (admit host port now t) w.handed_out
        (λ c l. ground arith),
  );
  handed_out = (
    omega arith,
    All-weaken t.next_client (suc t.next_client) t.clients (omega arith) w.handed_out,
  );
}

log_crc-Within : (r : ℕ) (p : Bytes) → Spares (log_crc r p)
log_crc-Within r p t w =
    let u = log_crc-SameBut r p t in
    Within-still t (log_crc r p t) w u.same_clients u.same_handed (λ c. rw u.same_heap)
      (λ c. rw u.same_heap (w.backlog c))

Within-Keeps : Keeps Within
unfolding advance lobby_update count_backlog_drop update_events detach clear_members
Within-Keeps = record {
  frames = any_frames;
  on_advance = λ t w. Within-still t (advance t) w refl refl (λ c. refl) w.backlog;
  on_lobby_update = λ t w. Within-still t (lobby_update t) w refl refl (λ c. refl) w.backlog;
  on_backlog_drop = λ t w. Within-still t (count_backlog_drop t) w refl refl (λ c. refl) w.backlog;
  on_queue = λ c ty p t alive fits h ok w. queue-Within c (frame ty p) t fits w;
  on_take = λ c n t alive w. take_tx-Within c n t w;
  on_events = λ c t alive w.
      Within-still t (update_events c t) w refl refl (λ e. ground arith)
        (λ e. ground (arith, w.backlog e));
  on_retire = λ c t alive w. retire-Within c t w;
  on_detach = λ c r t w.
      Within-still t (detach c r t) w refl refl (λ e. ground arith)
        (λ e. ground (arith, w.backlog e));
  on_free = λ m t w.
      Within-still t (free m t) w refl refl (λ e. ground arith) (λ e. ground (arith, w.backlog e));
  on_clear = λ r t w. Within-still t (clear_members r t) w refl refl (λ c. refl) w.backlog;
}

Within-Handles : {sys : System} → Handles sys Within
unfolding register drop_old_alias open_room seat_in begin_match lobby_update
Within-Handles = record {
  keeps = Within-Keeps;
  on_rename = λ c name t w.
      Within-still t (lobby_update (register c name (drop_old_alias c name t))) w (ground arith)
        (ground arith) (λ e. ground arith) (λ e. ground (arith, w.backlog e));
  on_open = λ c t w.
      Within-still t (open_room c t) w refl refl (λ e. ground arith)
        (λ e. ground (arith, w.backlog e));
  on_seat = λ c r t w.
      Within-still t (seat_in c r t) w refl refl (λ e. ground arith)
        (λ e. ground (arith, w.backlog e));
  on_begin = λ r clock t w. Within-still t _ w refl refl (λ c. refl) w.backlog;
  on_log_crc = log_crc-Within;
}

pub Within-Serves : {sys : System} → Serves sys (λ b. Unit {0}) Within
unfolding push_rx set_rx reject count_hello_timeout log_stats
Within-Serves = record {
  handles = Within-Handles;
  on_push_rx = λ c b t ok w.
      Within-still t (push_rx c b t) w refl refl (λ e. ground arith)
        (λ e. ground (arith, w.backlog e));
  on_set_rx = λ c ty p b t e w.
      Within-still t (set_rx c b t) w refl refl (λ e. ground arith)
        (λ e. ground (arith, w.backlog e));
  on_admit = admit-Within;
  on_reject = λ t w. Within-still t (reject t) w refl refl (λ c. refl) w.backlog;
  on_hello_timeout =
      λ t w. Within-still t (count_hello_timeout t) w refl refl (λ c. refl) w.backlog;
  on_log_stats = λ t w. Within-still t (log_stats t) w refl refl (λ c. refl) w.backlog;
}

-- Over every run of events, whatever the sockets do, from a sound state within the limits: no backlog
-- passes 65536 bytes, no more than 64 clients are connected and no more than 8 of one address, and
-- no room has more than two members.
pub run-Within :
    (sys : System) (es : List Event) (s : State)
    → Sound s
    → Within s
    → Within (run sys es s) × Sound (run sys es s)
run-Within sys es s v w =
    let k = run-Ok sys Within-Serves es s (any_events es) (record { sound = v; kept = w }) in
    (k.kept, k.sound)
