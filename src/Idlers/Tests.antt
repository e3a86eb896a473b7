-- ===== src/Idlers/Tests.antt =====
-- An idler and a hunter on concrete bytes.
use fujinet_intv_basketball.Base.{
  ℕ, ◌+◌, ◌≤◌, ◌≡◌, true, false, Option, none, some, List, starts_with, refl, [], ◌∷◌, ◌++◌, Bytes,
  length, replicate,
}
use fujinet_intv_basketball.Wire.{t_lobby, t_hello, t_join, t_go, t_room}
use fujinet_intv_basketball.Client.{strip_zeros}
use fujinet_intv_basketball.Idlers.{hunt}
use fujinet_intv_basketball.Idlers.Hunting.{IsJoinable, hunt-IsJoinable}
use fujinet_intv_basketball.Idlers.Main.{Options, Parked, park, passes}
use fujinet_intv_basketball.Idlers.Once.{count, passes_once}

abbrev alpha : Bytes
alpha = b'A' ∷ b'L' ∷ []

abbrev field : Bytes
field = alpha ++ replicate 6 0

-- A LOBBY frame of two entries, the first of them started.
abbrev shown : Bytes
shown = t_lobby ∷ 2 ∷ field ++ 0x82 ∷ field ++ 1 ∷ []

hunt-IsJoinable_example : IsJoinable alpha shown field
unfolding hunt starts_with strip_zeros
hunt-IsJoinable_example = hunt-IsJoinable 2 alpha shown field refl

-- A host that starts half a second after its room has two members, and a hunter.
abbrev options : Options
options = record {
  names = alpha ∷ (b'H' ∷ b'U' ∷ []) ∷ [];
  pair = false;
  go_name = alpha;
  go_delay = 500;
  join_guest = alpha;
}

-- The host hears of its room twice, the hunter sees the lobby twice.
abbrev heard : List (ℕ × List (Bytes × Option Bytes))
heard =
    (0, (alpha, some (2 ∷ t_room ∷ 2 ∷ [])) ∷ (b'H' ∷ b'U' ∷ [], some (length shown ∷ shown)) ∷ [])
    ∷ (
      400,
      (alpha, some (2 ∷ t_room ∷ 2 ∷ [])) ∷ (b'H' ∷ b'U' ∷ [], some (length shown ∷ shown)) ∷ [],
    )
    ∷ (600, (alpha, none) ∷ (b'H' ∷ b'U' ∷ [], none) ∷ [])
    ∷ (700, (alpha, some (2 ∷ t_room ∷ 2 ∷ [])) ∷ (b'H' ∷ b'U' ∷ [], none) ∷ [])
    ∷ []

abbrev parked : Parked
parked = record {
  bufs = (alpha, []) ∷ (b'H' ∷ b'U' ∷ [], []) ∷ [];
  joined = true;
  go_at = none;
  went = true;
  sent =
      (alpha, t_hello, 2 ∷ alpha)
      ∷ (b'H' ∷ b'U' ∷ [], t_hello, 2 ∷ b'H' ∷ b'U' ∷ [])
      ∷ (b'H' ∷ b'U' ∷ [], t_join, field)
      ∷ (alpha, t_go, [])
      ∷ [];
}

passes_runs : passes options heard (park options) ≡ some parked
unfolding passes park hunt starts_with strip_zeros
passes_runs = refl

passes_once_example :
    (count t_join parked.sent ≤ count t_join (park options).sent + 1)
    × (count t_go parked.sent ≤ count t_go (park options).sent + 1)
passes_once_example = passes_once options heard passes_runs
