-- ===== src/Idlers.antt =====
-- test/lobby_idlers.py: the idle clients that are parked in the lobby. The hunt of an entry to join is
-- here, the program in Idlers/Main; `none` is an `IndexError`.
pub mod Hunting
pub mod Main
pub mod Once
mod Tests
use fujinet_intv_basketball.Base.{
  ℕ, zero, suc, ◌+◌, ◌*◌, ◌/◌, ◌%◌, Bool, true, false, not, ◌&&◌, Option, none, some, List, [], ◌∷◌,
  ◌++◌, Bytes, length, take, drop, get_elem?, ltb, leb, ◌==◌, if◌then◌else◌, starts_with,
}
use fujinet_intv_basketball.Wire.{frame, ljust, t_hello, t_list, t_lobby, t_join, t_room, t_go}
use fujinet_intv_basketball.Client.{strip_zeros}

-- The loop over `n` lobby entries from entry `i` on: the first joinable one of the prefix, as the
-- eight bytes that the JOIN echoes.
unfoldable pub hunt : ℕ → ℕ → Bytes → Bytes → Option (Option Bytes)
unfolding strip_zeros starts_with
hunt zero i prefix body = some none
hunt (suc n) i prefix body =
    let entry = take 9 (drop (2 + 9 * i) body) in
    let rest = hunt n (i + 1) prefix body in
    if starts_with prefix (strip_zeros (take 8 entry))
    then elim (get_elem? entry 8) [
      | none ↦ none
      | some status ↦ if status / 0x80 % 2 == 0 then some (some (take 8 entry)) else rest
    ]
    else rest
