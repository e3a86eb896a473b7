-- ===== src/Publisher.antt =====
-- server/intv_relay_server.py: `class LobbyPublisher`, the worker that registers the server with the
-- FujiNet Lobby. What is constant in the payload is left out; the HTTP exchange is its outcome.
pub mod Worker
pub mod Offline
pub mod Fresh
mod Tests
use fujinet_intv_basketball.Base.{ℕ, Bool, true, false, if◌then◌else◌}

-- The two entries of `self.payload` that change.
pub record Payload : Type 0 where
  pub online : Bool
  pub curplayers : ℕ

pub record Publisher : Type 0 where
  pub payload : Payload
  pub failures : ℕ
  pub dirty : Bool
  pub stopping : Bool

-- `LobbyPublisher.__init__`
unfoldable pub create : Publisher
create = record {
  payload = record { online = true; curplayers = 0 };
  failures = 0;
  dirty = false;
  stopping = false;
}

unfoldable pub update : ℕ → Publisher → Publisher
update curplayers p =
    if p.stopping
    then p
    else record p { payload = record (p.payload) { curplayers = curplayers }; dirty = true }
