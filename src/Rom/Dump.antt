-- ===== src/Rom/Dump.antt =====
-- tools/dump_rom.py: the rows of the dump; tools/check_patch.py: the comparison of a build.
use fujinet_intv_basketball.Base.{
  ℕ, ◌+◌, ◌-◌, Option, none, some, List, [], ◌∷◌, ◌++◌, length, ◌==◌, if◌then◌else◌, lookup,
}
use fujinet_intv_basketball.Rom.Patches.{Patch}

-- A `DECLE` line: words, or one patch expression with the original word, each with the address that
-- its comment shows.
pub data Line : Type 0 where
  row : List ℕ → ℕ → Line
  patch : Patch → ℕ → ℕ → Line

-- The row that is pending, if any.
abbrev pub close_row : List ℕ → ℕ → List Line → List Line
close_row [] addr rest = rest
close_row (w ∷ ws) addr rest = row (w ∷ ws) (addr - length (w ∷ ws)) ∷ rest

-- The loop over the words from an address on, with the pending row.
unfoldable pub dump_rows : List (ℕ × Patch) → ℕ → List ℕ → List ℕ → List Line
dump_rows patches addr pending [] = close_row pending addr []
dump_rows patches addr pending (w ∷ ws) = elim (lookup addr patches) [
  | some e ↦ close_row pending addr (patch e addr w ∷ dump_rows patches (addr + 1) [] ws)
  | none ↦
      let grown = pending ++ w ∷ [] in
      let flushed = row grown (addr - 7) ∷ dump_rows patches (addr + 1) [] ws in
      if length grown == 8 then flushed else dump_rows patches (addr + 1) grown ws
]

unfoldable pub dump : List (ℕ × Patch) → ℕ → List ℕ → List Line
unfolding dump_rows
dump patches base ws = dump_rows patches base [] ws

-- What `check_patch` finds: undeclared differences, and declared words that are unchanged.
pub record Report : Type 0 where
  pub bad : List (ℕ × ℕ × ℕ)
  pub unpatched : List ℕ

-- One turn of the loop, for the words of an address.
unfoldable pub add_word : Option Patch → ℕ → ℕ → ℕ → Report → Report
add_word (some e) addr a b rest =
    if a == b then record rest { unpatched = addr ∷ rest.unpatched } else rest
add_word none addr a b rest = if a == b then rest else record rest { bad = (addr, a, b) ∷ rest.bad }

-- The loop over `zip(orig, hooked)` from an address on.
unfoldable pub check_words : List (ℕ × Patch) → ℕ → List ℕ → List ℕ → Report
unfolding add_word
check_words patches addr [] bs = record { bad = []; unpatched = [] }
check_words patches addr (a ∷ as_left) [] = record { bad = []; unpatched = [] }
check_words patches addr (a ∷ as_left) (b ∷ bs) =
    add_word (lookup addr patches) addr a b (check_words patches (addr + 1) as_left bs)
