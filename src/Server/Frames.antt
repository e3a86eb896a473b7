-- ===== src/Server/Frames.antt =====
-- The frames that the server makes itself, and what an invariant may ask of them.
use fujinet_intv_basketball.Base.{ℕ, ◌≤◌, ◌<◌, ◌≡◌, [], ◌∷◌, Bytes, length, replicate}
use fujinet_intv_basketball.Wire.{
  next, next_frame, pad_name, t_room, t_peer_left, t_lobby, t_start, t_pong,
}
use fujinet_intv_basketball.Server.Types.{State, max_seats}
use fujinet_intv_basketball.Server.Conn.{name_of, roster}
use fujinet_intv_basketball.Server.Lobby.{lobby_payload}
use fujinet_intv_basketball.Server.Handlers.{start_common}
use fujinet_intv_basketball.Server.Sound.{Sound}

-- What holds of the type and the payload of each frame that is put on the way to a client, one field
-- for each place that makes one. A relayed frame is one that the buffer of its sender began with.
pub record Frames (P : State → Type 0) : Type 1 where
  pub Fits : ℕ → Bytes → Type 0
  pub on_room :
      (r : ℕ) (s : State)
      → Sound s
      → P s
      → Fits t_room (length (s.rooms r).members ∷ roster (s.rooms r) s)
  pub on_empty : Fits t_room (0 ∷ replicate 32 0)
  pub on_left :
      (c seat : ℕ) (s : State)
      → seat ≤ max_seats
      → Sound s
      → P s
      → Fits t_peer_left (seat ∷ pad_name (name_of c s))
  pub on_lobby : (c : ℕ) (s : State) → Sound s → P s → Fits t_lobby (lobby_payload c s)
  pub on_start :
      (r i : ℕ) (s : State)
      → i < length (s.rooms r).members
      → Sound s
      → P s
      → Fits t_start (i ∷ start_common r s)
  pub on_pong : Fits t_pong []
  pub on_heard :
      (c t : ℕ) (p rest : Bytes) (s : State)
      → next_frame (s.heap c).rx ≡ next t p rest
      → P s
      → Fits t p

-- For an invariant that asks nothing of the frames.
abbrev pub any_frames : {P : State → Type 0} → Frames P
any_frames = record {
  Fits = λ t p. Unit {0};
  on_room = λ r s v q. tt;
  on_empty = tt;
  on_left = λ c seat s low v q. tt;
  on_lobby = λ c s v q. tt;
  on_start = λ r i s low v q. tt;
  on_pong = tt;
  on_heard = λ c t p rest s e q. tt;
}
