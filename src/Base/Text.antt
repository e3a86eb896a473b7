-- ===== src/Base/Text.antt =====
-- Python texts as lists of code points: literals, `startswith`, `split`, decimal numbers.
use Prim.Native.Char.{code}
use Prim.Native.String
use Prim.Native.Nat.{ℕ, ◌+◌, ◌-◌, ◌*◌}
use mathlib.Core.Bool.{Bool, true, false, ◌&&◌, ◌||◌}
use mathlib.Core.List.{List, [], ◌∷◌, ◌++◌}
use mathlib.Core.Option.{Option, none, some}
use fujinet_intv_basketball.Base.Tests.{leb, ◌==◌, if◌then◌else◌}
use fujinet_intv_basketball.Base.Lists.{is_empty}
use fujinet_intv_basketball.Base.Dicts.{Bytes}

-- A literal as bytes; every text here is ASCII.
abbrev pub ascii : String.String → Bytes
ascii String.[] = []
ascii (String.◌∷◌ c s) = code c ∷ ascii s

-- `str.startswith`
unfoldable pub starts_with : Bytes → Bytes → Bool
starts_with [] text = true
starts_with (c ∷ cs) [] = false
starts_with (c ∷ cs) (d ∷ ds) = c == d && starts_with cs ds

-- The ASCII characters at which `str.split` cuts.
unfoldable pub is_blank : ℕ → Bool
is_blank c = c == 32 || leb 9 c && leb c 13 || leb 28 c && leb c 31

-- `str.split`, with the word that is being read.
unfoldable pub split_from : Bytes → Bytes → List Bytes
unfolding is_blank
split_from word [] = if is_empty word then [] else word ∷ []
split_from word (c ∷ cs) =
    let cut = split_from [] cs in
    let longer = split_from (word ++ c ∷ []) cs in
    if is_blank c then (if is_empty word then cut else word ∷ cut) else longer

unfoldable pub split : Bytes → List Bytes
unfolding split_from
split = split_from []

-- `int` of plain digits, after the value of those before. `none` is a `ValueError`.
unfoldable pub decimal_from : ℕ → Bytes → Option ℕ
decimal_from n [] = some n
decimal_from n (c ∷ cs) =
    let rest = decimal_from (10 * n + (c - 48)) cs in if leb 48 c && leb c 57 then rest else none

unfoldable pub decimal : Bytes → Option ℕ
unfolding decimal_from
decimal [] = none
decimal (c ∷ cs) = decimal_from 0 (c ∷ cs)
