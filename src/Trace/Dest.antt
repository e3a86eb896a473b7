-- ===== src/Trace/Dest.antt =====
-- tools/check_dest_phase.py: `check`, that a parked run has reached the game; and the rows of
-- tools/mk_replay.py.
use Prim.Native.Nat.{min}
use fujinet_intv_basketball.Base.{
  ℕ, zero, suc, ◌+◌, ◌*◌, ◌%◌, Bool, false, not, ◌||◌, Option, none, some, List, [], ◌∷◌, ◌++◌,
  is_empty, ◌==◌, if◌then◌else◌, lookup,
}
use fujinet_intv_basketball.Trace.{parse, Memory, cell_or, join_bytes}

-- Why a run is refused.
pub data Problem : Type 0 where
  no_dumps : Problem
  no_table : Problem
  unknown_table : ℕ → Problem
  mob0_zero : Problem
  mob1_zero : Problem

-- `NB_HTBL_BOOT`, `NB_HTBL_LIVE` and `NB_HTBL_NULL`
abbrev pub is_table : ℕ → Bool
is_table t = t == 0x58D6 || t == 0x55AF || t == 0x1906

-- `any(mem.get(a, 0) for a in range(lo, lo + n))`
unfoldable pub any_cell : ℕ → ℕ → Memory → Bool
any_cell zero lo mem = false
any_cell (suc n) lo mem = not (cell_or 0 lo mem == 0) || any_cell n (lo + 1) mem

unfoldable pub table_problems : Option ℕ → Option ℕ → List Problem
table_problems none hi = no_table ∷ []
table_problems (some lo) none = no_table ∷ []
table_problems (some lo) (some hi) =
    if is_table (join_bytes lo hi) then [] else unknown_table (join_bytes lo hi) ∷ []

unfoldable pub mob_problems : Memory → List Problem
unfolding any_cell
mob_problems mem =
    (if any_cell 8 0x31D mem then [] else mob0_zero ∷ [])
    ++ (if any_cell 8 0x325 mem then [] else mob1_zero ∷ [])

unfoldable pub check : Memory → List Problem
unfolding table_problems mob_problems
check mem =
    if is_empty mem
    then no_dumps ∷ []
    else table_problems (lookup 0x80C0 mem) (lookup 0x80C1 mem) ++ mob_problems mem

-- `mem` of `check`, on the matches of `DUMP_RE`
unfoldable pub memory_of : List (ℕ × List ℕ) → Memory
unfolding parse
memory_of dumps = parse dumps []

-- The main program, on the address and the words of each dump line of each file: its exit status is 0
-- exactly if there is no problem.
unfoldable pub check_all : List (List (ℕ × List ℕ)) → List Problem
unfolding check memory_of
check_all [] = []
check_all (dumps ∷ files) = check (memory_of dumps) ++ check_all files

-- `REC_CAP`
abbrev pub rec_cap : ℕ
rec_cap = 768

-- The four bytes that a tick is replayed with.
unfoldable pub replay_row : ℕ → Memory → ℕ × ℕ × ℕ × ℕ
replay_row t mem =
    let slot = 0x9000 + t * 4 in
    (
      cell_or 0x40 slot mem % 256,
      cell_or 0x40 (slot + 1) mem % 256,
      cell_or 0 (slot + 2) mem % 256,
      cell_or 0 (slot + 3) mem % 256,
    )

unfoldable pub replay_rows : ℕ → ℕ → Memory → List (ℕ × ℕ × ℕ × ℕ)
unfolding replay_row
replay_rows zero t mem = []
replay_rows (suc n) t mem = replay_row t mem ∷ replay_rows n (t + 1) mem

-- `REPLAY_LEN` and `REPLAY_TBL`
unfoldable pub replay : Memory → ℕ × List (ℕ × ℕ × ℕ × ℕ)
unfolding replay_rows
replay mem = (
  min (join_bytes (cell_or 0 0x8108 mem) (cell_or 0 0x8109 mem)) rec_cap,
  replay_rows rec_cap 0 mem,
)
