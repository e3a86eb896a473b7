-- ===== src/Client/Sim.antt =====
-- tools/bbnet_client_sim.py: the steps of a scenario, played against the model of the server.
use fujinet_intv_basketball.Base.{
  ℕ, suc, ◌-◌, Bool, true, false, not, ◌&&◌, Option, none, some, List, [], ◌∷◌, Bytes, length, drop,
  ◌==◌, if◌then◌else◌,
}
use fujinet_intv_basketball.Wire.{frame, t_hello}
use fujinet_intv_basketball.Client.{Taken, more, empty_body, taken, recv_frame}
use fujinet_intv_basketball.Server.Types.{State, System, received}
use fujinet_intv_basketball.Server.State.{create}
use fujinet_intv_basketball.Server.Loop.{connection, readable, step}

-- A step of a scenario. The clients go by the order in which they connect; client 0 is the probe of
-- `start_server`.
pub data Act : Type 0 where
  opens : ℕ → Bytes → Act
  sends : ℕ → Bytes → Act
  expects : ℕ → ℕ → (Bytes → Bool) → Act
  silence : ℕ → Act
  shut_out : ℕ → Act
  closes : ℕ → Act

-- The server, how many clients have connected, and how far each has read its stream.
pub record Sim : Type 0 where
  pub server : State
  pub count : ℕ
  pub read : ℕ → ℕ

module _ (sys : System) where
  abbrev pub say : ℕ → Bytes → Sim → Sim
  say c bytes x = record x { server = step sys (readable c (received bytes)) x.server }

  -- `Cli.__init__`
  abbrev pub open_cli : ℕ → Bytes → Sim → Sim
  open_cli ver name x =
      say x.count (frame t_hello (ver ∷ name))
        (record x { server = step sys (connection 1 x.count 0) x.server; count = suc x.count })

  abbrev pub pending : ℕ → Sim → Bytes
  pending c x = drop (x.read c) (x.server.heap c).wire

  -- `expect` and the assertion on what it returns
  abbrev pub on_frame : ℕ → ℕ → (Bytes → Bool) → Taken → Sim → Option Sim
  on_frame c t holds more x = none
  on_frame c t holds empty_body x = none
  on_frame c t holds (taken u p rest) x =
      if u == t && holds p
      then some (record x {
        read = λ k. if k == c then length (x.server.heap c).wire - length rest else x.read k;
      })
      else none

  abbrev pub waits : Taken → Bool
  waits more = true
  waits empty_body = false
  waits (taken t p rest) = false

  -- `silence` is `expect_silence`, which an end of the stream fails too; `shut_out` lets it pass.
  unfoldable pub act : Act → Sim → Option Sim
  unfolding recv_frame step
  act (opens ver name) x = some (open_cli ver name x)
  act (sends c bytes) x = some (say c bytes x)
  act (expects c t holds) x = on_frame c t holds (recv_frame (pending c x)) x
  act (silence c) x =
      if waits (recv_frame (pending c x)) && not (x.server.heap c).closed then some x else none
  act (shut_out c) x = if waits (recv_frame (pending c x)) then some x else none
  act (closes c) x = some (say c [] x)

  abbrev pub and_then : (Sim → Option Sim) → Option Sim → Option Sim
  and_then continue none = none
  and_then continue (some x) = continue x

  unfoldable pub play : List Act → Sim → Option Sim
  unfolding act
  play [] x = some x
  play (a ∷ acts) x = and_then (λ y. play acts y) (act a x)

-- `start_server`: the probe connects and closes.
unfoldable pub start_server : System → ℕ → Sim
unfolding create
start_server sys auto_go = say sys 0 [] (record {
  server = step sys (connection 1 0 0) (create 3 none auto_go);
  count = 1;
  read = λ _. 0;
})
