-- ===== src/Crc.antt =====
-- server/intv_relay_server.py: `Server.log_crc`, the comparison of the seats' checksums of one tick.
pub mod Table
mod Tests
use fujinet_intv_basketball.Base.{
  ℕ, suc, ◌+◌, ◌*◌, ◌%◌, Bool, true, false, ◌&&◌, Option, none, some, List, [], ◌∷◌, Bytes, length,
  get_or, all, ltb, ◌==◌, if◌then◌else◌, lookup, insert, erase, min_key,
}

abbrev pub Entry : Type 0
Entry = List (ℕ × ℕ)

abbrev pub Table : Type 0
Table = List (ℕ × Entry)

-- How one report ends: its round waits for other seats, or all seats disagree or agree.
pub data Verdict : Type 0 where
  waiting : Verdict
  mismatch : ℕ → Entry → Verdict
  agreed : ℕ → Verdict

-- `room.crc.setdefault(tick, {})`
unfoldable pub entry_at : ℕ → Table → Entry
entry_at tick table = elim (lookup tick table) [ none ↦ [] | some entry ↦ entry ]

-- `d.pop(min(d))` of a table of more than 64 ticks
unfoldable pub evict : Table → Table
evict [] = []
evict ((tick, entry) ∷ table) =
    if ltb 64 (suc (length table))
    then erase (min_key tick table) ((tick, entry) ∷ table)
    else (tick, entry) ∷ table

-- `len(set(entry.values())) == 1`
unfoldable pub all_equal : Entry → Bool
all_equal [] = false
all_equal ((seat, crc) ∷ entry) = all (λ e. e.1 == crc) entry

-- The table and the verdict after seat `seat` of `players` reports `crc` for `tick`.
unfoldable pub report : ℕ → ℕ → ℕ → ℕ → Table → Table × Verdict
unfolding entry_at evict all_equal
report players seat tick crc table =
    let entry = insert seat crc (entry_at tick table) in
    let stored = evict (insert tick entry table) in
    if ltb (length entry) players
    then (stored, waiting)
    else (erase tick stored, (if all_equal entry then agreed tick else mismatch tick entry))

-- `payload[1] | (payload[2] << 8)` and the like: bytes do not overlap.
abbrev pub word : ℕ → Bytes → ℕ
word i payload = get_or payload i 0 + 256 * get_or payload (i + 1) 0
