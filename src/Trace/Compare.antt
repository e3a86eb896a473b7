-- ===== src/Trace/Compare.antt =====
-- tools/crc_trace_diff.py: `main`, which compares two runs parked at the same tick, and the list of
-- tools/cell_diff.py.
use fujinet_intv_basketball.Base.{
  ℕ, zero, suc, ◌+◌, ◌-◌, ◌*◌, ◌%◌, Bool, false, not, ◌&&◌, ◌||◌, Option, none, some, List, [], ◌∷◌,
  map, keep, ltb, leb, ◌==◌, if◌then◌else◌, lookup, ℤ, pos, sub_ℕ,
}
use fujinet_intv_basketball.Trace.{Memory, cell_or, join_bytes}

-- The sim tick that a slot of the ring of 256 holds, in a run parked at a tick; it may be below zero.
unfoldable pub slot_tick : ℕ → ℕ → ℤ
slot_tick parked slot =
    let page = parked - parked % 256 in
    if leb (parked % 256) slot then sub_ℕ (page + slot) 256 else pos (page + slot)

-- A slot in both runs: not dumped in one of them, cut off after its first cell, or the two checksums.
pub data Slot : Type 0 where
  unseen : Slot
  torn : Slot
  seen : ℕ → ℕ → Slot

abbrev pub join_slot : Option ℕ → Option ℕ → Option ℕ → Option ℕ → Slot
join_slot none lb ha hb = unseen
join_slot (some la) none ha hb = unseen
join_slot (some la) (some lb) none hb = torn
join_slot (some la) (some lb) (some ha) none = torn
join_slot (some la) (some lb) (some ha) (some hb) = seen (join_bytes la ha) (join_bytes lb hb)

unfoldable pub read_slot : ℕ → Memory → Memory → Slot
read_slot slot a b =
    let addr = 0x9000 + slot * 2 in
    join_slot (lookup addr a) (lookup addr b) (lookup (addr + 1) a) (lookup (addr + 1) b)

pub record Mismatch : Type 0 where
  pub tick : ℤ
  pub slot : ℕ
  pub ca : ℕ
  pub cb : ℕ

pub record Ring : Type 0 where
  pub missing : ℕ
  pub mismatches : List Mismatch

-- One turn of the loop over the slots; `none` is the `KeyError` of a torn slot.
unfoldable pub add_slot : ℕ → ℕ → Slot → Ring → Option Ring
unfolding slot_tick
add_slot parked slot unseen ring = some (record ring { missing = suc ring.missing })
add_slot parked slot torn ring = none
add_slot parked slot (seen ca cb) ring =
    if ca == cb
    then some ring
    else some (record ring {
      mismatches =
          record { tick = slot_tick parked slot; slot = slot; ca = ca; cb = cb } ∷ ring.mismatches;
    })

abbrev pub then_slot : ℕ → ℕ → Slot → Option Ring → Option Ring
then_slot parked slot s none = none
then_slot parked slot s (some ring) = add_slot parked slot s ring

-- The loop over `n` slots from `slot` on, the list of mismatches in their order.
unfoldable pub scan_slots : ℕ → ℕ → ℕ → Memory → Memory → Option Ring
unfolding add_slot read_slot
scan_slots zero slot parked a b = some (record { missing = 0; mismatches = [] })
scan_slots (suc n) slot parked a b =
    then_slot parked slot (read_slot slot a b) (scan_slots n (slot + 1) parked a b)

-- `sorted(set(...))`
unfoldable pub place : ℕ → List ℕ → List ℕ
place x [] = x ∷ []
place x (y ∷ ys) = if x == y then y ∷ ys else (if ltb x y then x ∷ y ∷ ys else y ∷ place x ys)

unfoldable pub sorted_keys : Memory → List ℕ
unfolding place
sorted_keys [] = []
sorted_keys ((x, _) ∷ mem) = place x (sorted_keys mem)

-- `x in a and x in b and a[x] != b[x]`
abbrev pub unequal : Option ℕ → Option ℕ → Bool
unequal none vb = false
unequal (some va) none = false
unequal (some va) (some vb) = not (va == vb)

abbrev pub differs : Memory → Memory → ℕ → Bool
differs a b x = unequal (lookup x a) (lookup x b)

-- The animation counters, which run on real frames.
abbrev pub anim_field : ℕ → Bool
anim_field x = leb 0x031D x && ltb x 0x035D && (x - 0x031D) % 8 == 5

-- The cells that the settled-state check compares.
abbrev pub is_watched : ℕ → Bool
is_watched x =
    not (anim_field x)
    && not (x == 0x016B)
    && (leb 0x015D x && ltb x 0x01F0 || leb 0x0315 x && ltb x 0x035E)

unfoldable pub settled : Memory → Memory → List ℕ
unfolding sorted_keys
settled a b = keep (λ x. differs a b x && is_watched x) (sorted_keys a)

-- How the comparison ends: a run without `$8108`, a `KeyError`, or one of the messages.
pub data Outcome : Type 0 where
  no_dump : Outcome
  key_error : Outcome
  park_mismatch : ℕ → ℕ → Outcome
  settled_fail : List ℕ → Outcome
  determinism_fail : List Mismatch → Outcome
  passed : Outcome

unfoldable pub judge_ring : List Mismatch → Outcome
judge_ring [] = passed
judge_ring (m ∷ ms) = determinism_fail (m ∷ ms)

unfoldable pub judge_cells : List ℕ → List Mismatch → Outcome
unfolding judge_ring
judge_cells [] ms = judge_ring ms
judge_cells (x ∷ xs) ms = settled_fail (x ∷ xs)

abbrev pub judge : List ℕ → Option Ring → Outcome
judge cells none = key_error
judge cells (some ring) = judge_cells cells ring.mismatches

unfoldable pub compare_parked : ℕ → ℕ → Memory → Memory → Outcome
unfolding judge_cells scan_slots settled
compare_parked tick_a tick_b a b =
    if tick_a == tick_b
    then judge (settled a b) (scan_slots 256 0 tick_a a b)
    else park_mismatch tick_a tick_b

abbrev pub park_tick : Memory → Option ℕ → Option ℕ → Option ℕ → Option ℕ → Memory → Outcome
park_tick a none lb ha hb b = no_dump
park_tick a (some la) none ha hb b = no_dump
park_tick a (some la) (some lb) none hb b = key_error
park_tick a (some la) (some lb) (some ha) none b = key_error
park_tick a (some la) (some lb) (some ha) (some hb) b =
    compare_parked (join_bytes la ha) (join_bytes lb hb) a b

unfoldable pub compare : Memory → Memory → Outcome
unfolding compare_parked
compare a b = park_tick a (lookup 0x8108 a) (lookup 0x8108 b) (lookup 0x8109 a) (lookup 0x8109 b) b

-- tools/cell_diff.py: the cells that differ in the checksummed ranges.
unfoldable pub cell_diffs : Memory → Memory → List (ℕ × ℕ × ℕ)
unfolding sorted_keys
cell_diffs a b =
    map (λ x. (x, cell_or 0 x a, cell_or 0 x b))
      (keep (λ x. differs a b x && (leb 0x015D x && leb x 0x01EF || leb 0x02F0 x && leb x 0x035F))
        (sorted_keys a))
