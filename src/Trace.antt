-- ===== src/Trace.antt =====
-- tools/crc_trace_diff.py, tools/check_dest_phase.py, tools/cell_diff.py and tools/mk_replay.py: what
-- the test tools read out of the memory dumps of a debugger session.
pub mod Compare
pub mod Dest
pub mod Passed
pub mod Reached
pub mod Loaded
mod Tests
use Prim.Native.Nat.{bit_or}
use fujinet_intv_basketball.Base.{ℕ, ◌+◌, ◌*◌, Option, none, some, List, [], ◌∷◌, lookup, insert}

-- The dict `mem`, from address to word.
abbrev pub Memory : Type 0
Memory = List (ℕ × ℕ)

-- `for i, w in enumerate(words): mem[addr + i] = w`
unfoldable pub load_words : ℕ → List ℕ → Memory → Memory
load_words addr [] mem = mem
load_words addr (w ∷ ws) mem = load_words (addr + 1) ws (insert addr w mem)

-- `parse`, on the address and the words of each line that `DUMP_RE` finds, in order.
unfoldable pub parse : List (ℕ × List ℕ) → Memory → Memory
unfolding load_words
parse [] mem = mem
parse ((addr, ws) ∷ dumps) mem = parse dumps (load_words addr ws mem)

-- `mem.get(addr, default)`
abbrev pub cell_or : ℕ → ℕ → Memory → ℕ
cell_or default addr mem = elim (lookup addr mem) [ none ↦ default | some w ↦ w ]

-- `lo | (hi << 8)`
abbrev pub join_bytes : ℕ → ℕ → ℕ
join_bytes lo hi = bit_or lo (hi * 256)
