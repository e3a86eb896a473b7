-- ===== src/Server/Streams.antt =====
-- What each client is sent: whole frames, in order, and nothing once it is dead.
use fujinet_intv_basketball.Base.{
  ℕ, ◌≤◌, ◌<◌, ◌≡◌, refl, subst, sym, ap, ◌∙◌, true, false, List, [], ◌++◌, append-nil,
  append_assoc, Bytes, arith, length, take, drop, take-append-drop, ◌==◌, Bool-cases, inl, inr,
  ==_iff,
}
use fujinet_intv_basketball.Wire.{frame}
use fujinet_intv_basketball.Wire.Sizes.{IsFramed, IsFramed-nil, IsFramed-frame, IsFramed-append}
use fujinet_intv_basketball.Server.Types.{Client, State, System}
use fujinet_intv_basketball.Server.State.{
  advance, lobby_update, queue, take_tx, update_events, retire, detach, clear_members,
  count_backlog_drop,
}
use fujinet_intv_basketball.Server.Handlers.{
  register, drop_old_alias, open_room, seat_in, begin_match, log_crc,
}
use fujinet_intv_basketball.Server.Loop.{
  admit, new_client, reject, push_rx, set_rx, count_hello_timeout, log_stats, Event, run,
}
use fujinet_intv_basketball.Server.Untouched.{log_crc-SameBut}
use fujinet_intv_basketball.Server.Sound.{Sound}
use fujinet_intv_basketball.Server.Sound.Leaving.{free}
use fujinet_intv_basketball.Server.Frames.{any_frames}
use fujinet_intv_basketball.Server.Keeps.{Keeps}
use fujinet_intv_basketball.Server.Serves.{Handles, Serves, Ok}
use fujinet_intv_basketball.Server.Runs.{run-Ok, any_events}

-- All that was ever put on the way to a client: taken by its socket, then still queued.
abbrev pub stream : Client → Bytes
stream k = k.wire ++ k.tx

-- How a client has changed: its stream has grown by whole frames, and if it was dead it still is
-- and its stream has not grown.
pub record Grows (k l : Client) : Type 0 where
  pub added : Bytes
  pub framed : IsFramed added
  pub longer : stream l ≡ stream k ++ added
  pub silent : k.dead ≡ true → (l.dead ≡ true) × (stream l ≡ stream k)

-- Every client that was there has grown, and each that has come since was sent whole frames alone.
pub record Grown (s t : State) : Type 0 where
  pub handed : s.next_client ≤ t.next_client
  pub grows : (c : ℕ) → c < s.next_client → Grows (s.heap c) (t.heap c)
  pub fresh : (c : ℕ) → s.next_client ≤ c → c < t.next_client → IsFramed (stream (t.heap c))

pub Grows-refl : (k : Client) → Grows k k
Grows-refl k = record {
  added = [];
  framed = IsFramed-nil;
  longer = sym (append-nil (stream k));
  silent = λ h. (h, refl);
}

-- A write that leaves a client's stream alone, and does not revive it.
Grows-still :
    (k l m : Client) → Grows k l → (l.dead ≡ true → m.dead ≡ true) → stream m ≡ stream l → Grows k m
Grows-still k l m g dies same = record {
  added = g.added;
  framed = g.framed;
  longer = same ∙ g.longer;
  silent = λ h. (dies (g.silent h).0, same ∙ (g.silent h).1);
}

-- A frame for a client that is alive.
Grows-more :
    (k l m : Client) (t : ℕ) (p : Bytes)
    → Grows k l
    → l.dead ≡ false
    → length p ≤ 199
    → stream m ≡ stream l ++ frame t p
    → Grows k m
Grows-more k l m t p g alive h more = record {
  added = g.added ++ frame t p;
  framed = IsFramed-append g.added (frame t p) g.framed (IsFramed-frame t p h);
  longer = more ∙ ap (λ b. b ++ frame t p) g.longer ∙ append_assoc (stream k) g.added (frame t p);
  silent = λ d. let now_dead = (g.silent d).0 in cc;
}

-- Grown up to a state, and on through a write that treats every client so.
module _ (s : State) where
  Grown-still :
      (t u : State)
      → Grown s t
      → u.next_client ≡ t.next_client
      → ((c : ℕ) → c < t.next_client → ((t.heap c).dead ≡ true → (u.heap c).dead ≡ true))
      → ((c : ℕ) → c < t.next_client → stream (u.heap c) ≡ stream (t.heap c))
      → Grown s u
  Grown-still t u g h dies same = record {
    handed = omega (arith, g.handed);
    grows = λ c l.
        Grows-still (s.heap c) (t.heap c) (u.heap c) (g.grows c l)
          (dies c (omega (arith, g.handed))) (same c (omega (arith, g.handed)));
    fresh = λ c new l. subst IsFramed (sym (same c (omega arith))) (g.fresh c new (omega arith));
  }

  queue-Grown :
      (c ty : ℕ) (p : Bytes) (t : State)
      → (t.heap c).dead ≡ false
      → length p ≤ 199
      → Grown s t
      → Grown s (queue c (frame ty p) t)
  unfolding queue
  queue-Grown c ty p t alive h g = record {
    handed = g.handed;
    grows = λ e l. elim (Bool-cases (e == c)) [
      | inr other ↦ rw other (g.grows e l)
      | inl this ↦ rw this (
          Grows-more (s.heap e) (t.heap e) _ ty p (g.grows e l)
            (ap (λ (k : ℕ). (t.heap k).dead) ((==_iff e c).0 this) ∙ alive) h
            (sym (append_assoc (t.heap e).wire (t.heap e).tx (frame ty p))))
    ];
    fresh = λ e new l. elim (Bool-cases (e == c)) [
      | inr other ↦ rw other (g.fresh e new l)
      | inl this ↦ rw this (
          subst IsFramed (append_assoc (t.heap e).wire (t.heap e).tx (frame ty p)) (
            IsFramed-append (stream (t.heap e)) (frame ty p) (g.fresh e new l)
              (IsFramed-frame ty p h)))
    ];
  }

  take_tx-Grown : (c n : ℕ) (t : State) → Grown s t → Grown s (take_tx c n t)
  unfolding take_tx
  take_tx-Grown c n t g =
      Grown-still t (take_tx c n t) g (omega arith) (λ e l. ground arith)
        (λ e l. elim (Bool-cases (e == c)) [
          | inr other ↦ rw other
          | inl this ↦ rw this (
              append_assoc (t.heap e).wire (take n (t.heap e).tx) (drop n (t.heap e).tx)
              ∙ ap (λ b. (t.heap e).wire ++ b) (take-append-drop n (t.heap e).tx))
        ])

  -- The writes that touch no stream.
  abbrev Spares : (State → State) → Type 0
  Spares f = (t : State) → Grown s t → Grown s (f t)

  advance-Grown : Spares advance
  unfolding advance
  advance-Grown t g = Grown-still t (advance t) g (omega arith) (λ e l. ground arith) (λ e l. refl)

  lobby_update-Grown : Spares lobby_update
  unfolding lobby_update
  lobby_update-Grown t g =
      Grown-still t (lobby_update t) g (omega arith) (λ e l. ground arith) (λ e l. refl)

  backlog_drop-Grown : Spares count_backlog_drop
  unfolding count_backlog_drop
  backlog_drop-Grown t g =
      Grown-still t (count_backlog_drop t) g (omega arith) (λ e l. ground arith) (λ e l. refl)

  events-Grown : (c : ℕ) → Spares (update_events c)
  unfolding update_events
  events-Grown c t g =
      Grown-still t (update_events c t) g (omega arith) (λ e l. ground arith) (λ e l. ground arith)

  retire-Grown : (c : ℕ) → Spares (retire c)
  unfolding retire
  retire-Grown c t g =
      Grown-still t (retire c t) g (ground arith) (λ e l. ground arith) (λ e l. ground arith)

  detach-Grown : (c r : ℕ) → Spares (detach c r)
  unfolding detach
  detach-Grown c r t g =
      Grown-still t (detach c r t) g (omega arith) (λ e l. ground arith) (λ e l. ground arith)

  free-Grown : (m : ℕ) → Spares (free m)
  free-Grown m t g =
      Grown-still t (free m t) g (omega arith) (λ e l. ground arith) (λ e l. ground arith)

  clear-Grown : (r : ℕ) → Spares (clear_members r)
  unfolding clear_members
  clear-Grown r t g =
      Grown-still t (clear_members r t) g (omega arith) (λ e l. ground arith) (λ e l. refl)

  rename-Grown :
      (c : ℕ) (name : Bytes)
      → Spares (λ t. lobby_update (register c name (drop_old_alias c name t)))
  unfolding register drop_old_alias lobby_update
  rename-Grown c name t g =
      Grown-still t (lobby_update (register c name (drop_old_alias c name t))) g (ground arith)
        (λ e l. ground arith) (λ e l. ground arith)

  open_room-Grown : (c : ℕ) → Spares (open_room c)
  unfolding open_room
  open_room-Grown c t g =
      Grown-still t (open_room c t) g (omega arith) (λ e l. ground arith) (λ e l. ground arith)

  seat_in-Grown : (c r : ℕ) → Spares (seat_in c r)
  unfolding seat_in
  seat_in-Grown c r t g =
      Grown-still t (seat_in c r t) g (omega arith) (λ e l. ground arith) (λ e l. ground arith)

  begin_match-Grown : (r seed : ℕ) → Spares (begin_match r seed)
  unfolding begin_match
  begin_match-Grown r seed t g =
      Grown-still t (begin_match r seed t) g (omega arith) (λ e l. ground arith) (λ e l. refl)

  log_crc-Grown : (r : ℕ) (p : Bytes) → Spares (log_crc r p)
  log_crc-Grown r p t g =
      Grown-still t (log_crc r p t) g (omega (arith, (log_crc-SameBut r p t).same_handed))
        (λ e l. rw (log_crc-SameBut r p t).same_heap (λ h. h))
        (λ e l. rw (log_crc-SameBut r p t).same_heap)

  push_rx-Grown : (c : ℕ) (b : Bytes) → Spares (push_rx c b)
  unfolding push_rx
  push_rx-Grown c b t g =
      Grown-still t (push_rx c b t) g (omega arith) (λ e l. ground arith) (λ e l. ground arith)

  set_rx-Grown : (c : ℕ) (b : Bytes) → Spares (set_rx c b)
  unfolding set_rx
  set_rx-Grown c b t g =
      Grown-still t (set_rx c b t) g (omega arith) (λ e l. ground arith) (λ e l. ground arith)

  admit-Grown : (host port now : ℕ) → Spares (admit host port now)
  unfolding admit new_client
  admit-Grown host port now t g = record {
    handed = omega (arith, g.handed);
    grows = λ e l.
        Grows-still (s.heap e) (t.heap e) ((admit host port now t).heap e) (g.grows e l)
          (ground (arith, g.handed)) (ground (arith, g.handed));
    fresh = λ e new l. elim (Bool-cases (e == t.next_client)) [
      | inl this ↦ rw this IsFramed-nil
      | inr other ↦ rw other (g.fresh e new (ground arith))
    ];
  }

  reject-Grown : Spares reject
  unfolding reject
  reject-Grown t g = Grown-still t (reject t) g (omega arith) (λ e l. ground arith) (λ e l. refl)

  timeout-Grown : Spares count_hello_timeout
  unfolding count_hello_timeout
  timeout-Grown t g =
      Grown-still t (count_hello_timeout t) g (omega arith) (λ e l. ground arith) (λ e l. refl)

  stats-Grown : Spares log_stats
  unfolding log_stats
  stats-Grown t g = Grown-still t (log_stats t) g (omega arith) (λ e l. ground arith) (λ e l. refl)

  Grown-Keeps : Keeps (Grown s)
  Grown-Keeps = record {
    frames = any_frames;
    on_advance = advance-Grown;
    on_lobby_update = lobby_update-Grown;
    on_backlog_drop = backlog_drop-Grown;
    on_queue = λ c ty p t alive fits h ok g. queue-Grown c ty p t alive h g;
    on_take = λ c n t alive g. take_tx-Grown c n t g;
    on_events = λ c t alive g. events-Grown c t g;
    on_retire = λ c t alive g. retire-Grown c t g;
    on_detach = detach-Grown;
    on_free = free-Grown;
    on_clear = clear-Grown;
  }

  Grown-Handles : {sys : System} → Handles sys (Grown s)
  Grown-Handles = record {
    keeps = Grown-Keeps;
    on_rename = rename-Grown;
    on_open = open_room-Grown;
    on_seat = seat_in-Grown;
    on_begin = λ r clock t g. begin_match-Grown r _ t g;
    on_log_crc = log_crc-Grown;
  }

  pub Grown-Serves : {sys : System} → Serves sys (λ b. Unit {0}) (Grown s)
  Grown-Serves = record {
    handles = Grown-Handles;
    on_push_rx = λ c b t ok g. push_rx-Grown c b t g;
    on_set_rx = λ c ty p rest t e g. set_rx-Grown c rest t g;
    on_admit = λ host port now t below few g. admit-Grown host port now t g;
    on_reject = reject-Grown;
    on_hello_timeout = timeout-Grown;
    on_log_stats = stats-Grown;
  }

-- Over every run of events from a sound state, whatever the sockets do: the stream of each client that
-- is there only grows, by whole frames that every reader of the protocol accepts; all that a client
-- that has connected since was ever sent is such frames; and a client that is dead at the start stays
-- dead and is sent nothing more.
pub run-Grown : (sys : System) (es : List Event) (s : State) → Sound s → Grown s (run sys es s)
run-Grown sys es s v = (run-Ok sys (Grown-Serves s) es s (any_events es) start).kept
  where
    start : Ok (Grown s) s
    start = record {
      sound = v;
      kept = record {
        handed = omega arith;
        grows = λ c l. Grows-refl (s.heap c);
        fresh = λ c new l. absurd (omega arith);
      };
    }
