-- ===== src/Ghost.antt =====
-- tools/ghost_peer.py: the scripted opponent, as its reaction to each frame. The time of the next LIST
-- and the log are left out; `none` is an `IndexError` on a short payload.
pub mod Answers
pub mod Main
pub mod Refused
mod Tests
use Prim.Native.Nat.{bit_or, max}
use fujinet_intv_basketball.Base.{
  ℕ, zero, suc, ◌+◌, ◌-◌, ◌*◌, ◌%◌, Bool, true, false, not, ◌&&◌, Option, none, some, List, [], ◌∷◌,
  ◌++◌, Bytes, length, take, drop, replicate, get_elem?, get_or, ltb, leb, ◌==◌, if◌then◌else◌,
  bytes_eq,
}
use fujinet_intv_basketball.Wire.{frame, t_lobby, t_join, t_start, t_input, t_crc, t_peer_left}
use fujinet_intv_basketball.Client.{strip_zeros}

-- The options that the reactions depend on.
pub record Options : Type 0 where
  pub name : Bytes
  pub mirror : Bool
  pub pitch_at : ℕ

-- The variables of `main`, and all bytes sent. `leaving` says that the deadline was moved up.
pub record Peer : Type 0 where
  pub matched : Bool
  pub inputs : ℕ
  pub crcs : ℕ
  pub max_tick : ℕ
  pub crc_ticks : List (ℕ × ℕ)
  pub leaving : Bool
  pub sent : Bytes

abbrev pub say : Bytes → Peer → Peer
say bytes g = record g { sent = g.sent ++ bytes }

-- `p[i] | (p[i + 1] << 8)`, once the length is known
abbrev pub pair_at : ℕ → Bytes → ℕ
pair_at i p = bit_or (get_or p i 0) (get_or p (i + 1) 0 * 256)

-- The loop over `n` lobby entries from entry `i` on: the first idle player is joined.
unfoldable pub join_first : Options → ℕ → ℕ → Bytes → Peer → Option Peer
join_first o zero i p g = some g
join_first o (suc n) i p g =
    let name = strip_zeros (take 8 (drop (1 + i * 9) p)) in
    elim (get_elem? p (9 + i * 9)) [
      | none ↦ none
      | some status ↦
          let rest = join_first o n (i + 1) p g in
          if status == 0 && not (bytes_eq name o.name)
          then some (say (frame t_join name) g)
          else rest
    ]

unfoldable pub on_lobby : Options → Bytes → Peer → Option Peer
unfolding join_first
on_lobby o [] g = if g.matched then some g else none
on_lobby o (count ∷ p) g = if g.matched then some g else join_first o count 0 (count ∷ p) g

unfoldable pub on_start : Bytes → Peer → Option Peer
on_start p g = if ltb (length p) 4 then none else some (record g { matched = true })

-- The decoded cell of the answer to a tick.
unfoldable pub cell_at : Options → ℕ → ℕ
cell_at o tick =
    let phase = (tick - o.pitch_at) % 256 in
    if not (o.pitch_at == 0) && leb o.pitch_at tick
    then (if phase == 0 then 0x85 else (if ltb phase 4 then 0xC5 else 0x40))
    else 0x40

-- What follows the tick in the answer to an INPUT.
unfoldable pub answer : Options → Bytes → Bytes
unfolding cell_at
answer o p =
    if o.mirror then drop 2 p else cell_at o (pair_at 0 p) ∷ replicate (max (length p - 3) 1) 0

unfoldable pub on_input : Options → Bytes → Peer → Option Peer
unfolding answer
on_input o p g =
    if ltb (length p) 2
    then none
    else some (
        say (frame t_input (take 2 p ++ answer o p))
          (record g { inputs = g.inputs + 1; max_tick = max g.max_tick (pair_at 0 p) }))

unfoldable pub on_crc : Bytes → Peer → Option Peer
on_crc p g =
    if ltb (length p) 4
    then none
    else some
        (record g { crcs = g.crcs + 1; crc_ticks = g.crc_ticks ++ (pair_at 0 p, pair_at 2 p) ∷ [] })

-- The chain of tests on the type of a frame.
unfoldable pub react : Options → ℕ → Bytes → Peer → Option Peer
unfolding on_lobby on_start on_input on_crc
react o t p g =
    if t == t_lobby
    then on_lobby o p g
    else (if t == t_start
        then on_start p g
        else (if t == t_input
            then on_input o p g
            else (if t == t_crc
                then on_crc p g
                else (if t == t_peer_left then some (record g { leaving = true }) else some g))))

unfoldable pub react_all : Options → List (ℕ × Bytes) → Peer → Option Peer
unfolding react
react_all o [] g = some g
react_all o ((t, p) ∷ fs) g = elim (react o t p g) [ none ↦ none | some h ↦ react_all o fs h ]

-- `max_tick >= args.want_ticks and crcs > 0`
unfoldable pub has_passed : ℕ → Peer → Bool
has_passed want g = leb want g.max_tick && ltb 0 g.crcs
