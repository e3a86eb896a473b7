-- ===== src/Server/Told.antt =====
-- What the publisher has been told: the lobby's count of players follows the dict of names.
use fujinet_intv_basketball.Base.{
  ℕ, ◌≡◌, refl, ap, Bool, true, false, Option, none, some, List, Bytes, arith, length, keep, not,
  store, ◌==◌, if◌then◌else◌, if_ind,
}
use mathlib.Core.Option
use fujinet_intv_basketball.Publisher
use fujinet_intv_basketball.Publisher.{Payload, Publisher, update}
use fujinet_intv_basketball.Server.Types.{State, System}
use fujinet_intv_basketball.Server.State.{
  create, advance, lobby_update, queue, take_tx, update_events, unalias, retire, detach,
  clear_members, count_backlog_drop, has_alias,
}
use fujinet_intv_basketball.Server.Handlers.{
  register, drop_old_alias, open_room, seat_in, begin_match, log_crc,
}
use fujinet_intv_basketball.Server.Loop.{
  admit, reject, push_rx, set_rx, count_hello_timeout, log_stats, Event,
}
use fujinet_intv_basketball.Server.Main.{Options, publisher_of, serve_with}
use fujinet_intv_basketball.Server.Untouched.{log_crc-SameBut}
use fujinet_intv_basketball.Server.Sound.{create-Sound}
use fujinet_intv_basketball.Server.Frames.{any_frames}
use fujinet_intv_basketball.Server.Keeps.{Keeps}
use fujinet_intv_basketball.Server.Serves.{Serves}
use fujinet_intv_basketball.Server.Runs.{run-Ok, any_events}

-- The publisher says online with so many players; there is none if it is not enabled.
IsTold : Bool → ℕ → Option Publisher → Type 0
IsTold enabled n none = enabled ≡ false
IsTold enabled n (some p) =
    (enabled ≡ true) × (p.payload ≡ record { online = true; curplayers = n }) × (p.stopping ≡ false)

abbrev HasTold : Bool → State → Type 0
HasTold enabled s = IsTold enabled (length s.by_name) s.lobby

-- The update brings the count up to date, whatever it was.
updated-IsTold :
    (enabled : Bool) (m n : ℕ) (lobby : Option Publisher)
    → IsTold enabled m lobby
    → IsTold enabled n (Option.map (update n) lobby)
unfolding IsTold update
updated-IsTold enabled m n none h = h
updated-IsTold enabled m n (some p) h =
    rw h.2 (h.0, ap (λ (q : Payload). record q { curplayers = n }) h.1, refl)

retire-HasTold :
    (enabled : Bool) (c : ℕ) (s : State) → HasTold enabled s → HasTold enabled (retire c s)
unfolding retire unalias lobby_update
retire-HasTold enabled c s h =
    if_ind (HasTold enabled) (has_alias c s.by_name)
      (λ _.
        updated-IsTold enabled (length s.by_name) (length (keep (λ e. not (e.1 == c)) s.by_name))
          s.lobby h)
      (λ _. h)

HasTold-Keeps : (enabled : Bool) → Keeps (HasTold enabled)
unfolding advance lobby_update count_backlog_drop queue take_tx update_events detach clear_members
HasTold-Keeps enabled = record {
  frames = any_frames;
  on_advance = λ s h. h;
  on_lobby_update = λ s h. updated-IsTold enabled (length s.by_name) (length s.by_name) s.lobby h;
  on_backlog_drop = λ s h. h;
  on_queue = λ c t p s alive fits short ok h. h;
  on_take = λ c n s alive h. h;
  on_events = λ c s alive h. h;
  on_retire = λ c s alive h. retire-HasTold enabled c s h;
  on_detach = λ c r s h. h;
  on_free = λ m s h. h;
  on_clear = λ r s h. h;
}

old_alias-lobby : (c : ℕ) (name : Bytes) (s : State) → (drop_old_alias c name s).lobby ≡ s.lobby
unfolding drop_old_alias
old_alias-lobby c name s = ground arith

rename-HasTold :
    (enabled : Bool) (c : ℕ) (name : Bytes) (s : State)
    → HasTold enabled s
    → HasTold enabled (lobby_update (register c name (drop_old_alias c name s)))
unfolding register lobby_update
rename-HasTold enabled c name s h =
    let cut = drop_old_alias c name s in
    updated-IsTold enabled (length s.by_name) (length (store name c cut.by_name)) cut.lobby
      (rw (old_alias-lobby c name s) h)

log_crc-HasTold :
    (enabled : Bool) (r : ℕ) (p : Bytes) (s : State)
    → HasTold enabled s
    → HasTold enabled (log_crc r p s)
log_crc-HasTold enabled r p s h =
    rw ((log_crc-SameBut r p s).same_names, (log_crc-SameBut r p s).same_lobby) h

HasTold-Serves : {sys : System} (enabled : Bool) → Serves sys (λ b. Unit {0}) (HasTold enabled)
unfolding open_room seat_in begin_match push_rx set_rx admit reject count_hello_timeout log_stats
HasTold-Serves enabled = record {
  handles = record {
    keeps = HasTold-Keeps enabled;
    on_rename = rename-HasTold enabled;
    on_open = λ target s h. h;
    on_seat = λ c r s h. h;
    on_begin = λ r seed s h. h;
    on_log_crc = log_crc-HasTold enabled;
  };
  on_push_rx = λ c b s ok h. h;
  on_set_rx = λ c ty p b s e h. h;
  on_admit = λ host port now s below few h. h;
  on_reject = λ s h. h;
  on_hello_timeout = λ s h. h;
  on_log_stats = λ s h. h;
}

publisher_of-IsTold : (o : Options) → IsTold o.lobby_enabled 0 (publisher_of o)
unfolding IsTold publisher_of Publisher.create update
publisher_of-IsTold o = ground arith

told_payload :
    (enabled : Bool) (n : ℕ) (lobby : Option Publisher)
    → IsTold enabled n lobby
    → Option.map (λ (p : Publisher). p.payload) lobby
      ≡ (if enabled then some (record { online = true; curplayers = n }) else none)
unfolding IsTold
told_payload enabled n none h = rw h refl
told_payload enabled n (some p) h = rw (h.0, h.1) refl

-- The program, with any options and on any events and whatever the sockets do: there is a publisher
-- exactly if `--lobby-enabled` is given, and its payload then says online and as many players as the
-- dict of names has entries.
pub serve_tells :
    (sys : System) (o : Options) (es : List Event)
    → Option.map (λ (p : Publisher). p.payload) (serve_with sys o es).lobby ≡ (
        if o.lobby_enabled
        then some (record { online = true; curplayers = length (serve_with sys o es).by_name })
        else none)
unfolding serve_with create
serve_tells sys o es =
    told_payload o.lobby_enabled (length (serve_with sys o es).by_name) (serve_with sys o es).lobby
      told
  where
    told : HasTold o.lobby_enabled (serve_with sys o es)
    told =
        (run-Ok sys (HasTold-Serves o.lobby_enabled) es (create o.delay (publisher_of o) o.auto_go)
          (any_events es)
          (record {
            sound = create-Sound o.delay (publisher_of o) o.auto_go;
            kept = publisher_of-IsTold o;
          })).kept
