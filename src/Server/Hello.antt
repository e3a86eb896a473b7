-- ===== src/Server/Hello.antt =====
-- HELLO: who holds a name afterwards, and the case in which the holder is dead.
use fujinet_intv_basketball.Base.{
  ℕ, zero, suc, ◌≡◌, ◌≢◌, refl, ap, ◌∙◌, Bool, true, false, not, ◌||◌, some, Bytes, arith, length,
  drop, get_or, ltb, ◌==◌, find, find-store_self,
}
use fujinet_intv_basketball.Wire.{frame, t_lobby}
use fujinet_intv_basketball.Names.{read_name, is_name}
use fujinet_intv_basketball.Server.Types.{State, System, proto_ver}
use fujinet_intv_basketball.Server.State.{lobby_update}
use fujinet_intv_basketball.Server.Conn.{drop_client, drop_fuel, send, send_with}
use fujinet_intv_basketball.Server.Lobby.{on_list, lobby_payload}
use fujinet_intv_basketball.Server.Handlers.{
  register, drop_old_alias, replace_holder, greet, on_hello,
}

-- The payload of a HELLO that is refused: too short, of another protocol version, or with a bad name.
abbrev pub is_refused : Bytes → Bool
is_refused p =
    ltb (length p) 3 || not (get_or p 0 0 == proto_ver) || not (is_name (read_name (drop 1 p)))

send_dead :
    (sys : System) (c : ℕ) (b : Bytes) (s : State) → (s.heap c).dead ≡ true → send sys c b s ≡ s
unfolding send send_with
send_dead sys c b s h = rw h

list_dead : (sys : System) (c : ℕ) (s : State) → (s.heap c).dead ≡ true → on_list sys c s ≡ s
unfolding on_list
list_dead sys c s h = send_dead sys c (frame t_lobby (lobby_payload c s)) s h

pub drop_dead :
    (sys : System) (n c : ℕ) (s : State) → (s.heap c).dead ≡ true → drop_fuel sys n c s ≡ s
unfolding drop_fuel
drop_dead sys zero c s h = refl
drop_dead sys (suc n) c s h = rw h

renamed_dead :
    (c d : ℕ) (name : Bytes) (s : State)
    → ((register c name (drop_old_alias c name s)).heap d).dead ≡ (s.heap d).dead
unfolding register drop_old_alias
renamed_dead c d name s = ground arith

renamed_name :
    (c : ℕ) (name : Bytes) (s : State)
    → find name (register c name (drop_old_alias c name s)).by_name ≡ some c
unfolding register
renamed_name c name s = find-store_self name c (drop_old_alias c name s).by_name

module _ (sys : System) (c old : ℕ) (s : State) (payload : Bytes) where
  abbrev name : Bytes
  name = read_name (drop 1 payload)

  -- The state before the lobby hears of the name.
  abbrev named : State
  named = register c name (drop_old_alias c name (drop_client sys old s))

  heard : is_refused payload ≡ false → on_hello sys c payload s ≡ some (greet sys c name s)
  unfolding on_hello
  heard ok = rw ok

  greeted :
      find name s.by_name ≡ some old
      → old ≢ c
      → greet sys c name s ≡ on_list sys c (lobby_update named)
  unfolding greet replace_holder
  greeted held other = rw (held, replace_holder, different)
    where
      different : (old == c) ≡ false
      different = ground arith

  -- When dropping the old holder of the name also drops the client that asks for it, which a failing
  -- send of PEER_LEFT does, HELLO goes on: it gives the name to the dead client. The name stays in the
  -- lobby's table, and a later drop of that client, which would take it out, does nothing.
  pub on_hello_names_dead :
      is_refused payload ≡ false
      → find name s.by_name ≡ some old
      → old ≢ c
      → ((drop_client sys old s).heap c).dead ≡ true
      → (t : State) × (on_hello sys c payload s ≡ some t)
        × ((t.heap c).dead ≡ true)
        × (find name t.by_name ≡ some c)
        × (drop_client sys c t ≡ t)
  on_hello_names_dead ok held other gone = (
    lobby_update named,
    heard ok ∙ ap some (greeted held other ∙ list_dead sys c (lobby_update named) told_dead),
    told_dead,
    unfold lobby_update in renamed_name c name (drop_client sys old s),
    unfold drop_client in
        drop_dead sys (length (lobby_update named).clients) c (lobby_update named) told_dead,
  )
    where
      told_dead : ((lobby_update named).heap c).dead ≡ true
      told_dead = unfold lobby_update in (renamed_dead c c name (drop_client sys old s) ∙ gone)
