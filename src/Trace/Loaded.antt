-- ===== src/Trace/Loaded.antt =====
-- What the tools read back from the dumps they load, and which tick a ring slot holds.
use fujinet_intv_basketball.Base.{
  pos, ℕ, suc, ◌+◌, ◌-◌, ◌%◌, ◌≤◌, ◌<◌, ◌≡◌, ◌↔◌, ap, some, ◌&&◌, List, [], ◌∷◌, arith, length,
  get_elem?, ltb, leb, if◌then◌else◌, lookup, insert, lookup-insert,
}
use fujinet_intv_basketball.Trace.{Memory, load_words}
use fujinet_intv_basketball.Trace.Compare.{slot_tick}

get_elem?_later :
    (x addr w : ℕ) (ws : List ℕ)
    → addr < x
    → get_elem? (w ∷ ws) (x - addr) ≡ get_elem? ws (x - (addr + 1))
get_elem?_later x addr w ws h =
    ap (get_elem? (w ∷ ws)) {x = x - addr} {y = suc (x - (addr + 1))} (omega arith)

get_elem?_here : (x addr w : ℕ) (ws : List ℕ) → x ≡ addr → get_elem? (w ∷ ws) (x - addr) ≡ some w
get_elem?_here x addr w ws h = ap (get_elem? (w ∷ ws)) {x = x - addr} {y = 0} (omega arith)

-- A loaded row is read back word by word from its address on, and every other cell is as before.
pub lookup-load_words :
    (x addr : ℕ) (ws : List ℕ) (mem : Memory)
    → lookup x (load_words addr ws mem)
      ≡ (if leb addr x && ltb x (addr + length ws) then get_elem? ws (x - addr) else lookup x mem)
unfolding load_words
lookup-load_words x addr [] mem = ground arith
lookup-load_words x addr (w ∷ ws) mem = ground (
  arith,
  lookup-load_words x (addr + 1) ws (insert addr w mem),
  lookup-insert x addr w mem,
  get_elem?_later x addr w ws,
  get_elem?_here x addr w ws,
)

-- In a run parked at tick 256 or later, a slot of the ring holds the last tick before the parked one
-- that falls on the slot.
pub slot_tick-window :
    (parked slot t : ℕ)
    → 256 ≤ parked
    → slot < 256
    → slot_tick parked slot ≡ pos t ↔ (t % 256 ≡ slot) × (t < parked) × (parked ≤ t + 256)
unfolding slot_tick
slot_tick-window parked slot t hp hs = ground arith
