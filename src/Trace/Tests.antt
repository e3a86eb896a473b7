-- ===== src/Trace/Tests.antt =====
-- The comparison of dumps on concrete memories.
use fujinet_intv_basketball.Base.{
  All, pos, ℕ, ◌+◌, ◌%◌, ◌≤◌, ◌<◌, ◌≡◌, ◌↔◌, refl, List, [], ◌∷◌, arith,
}
use fujinet_intv_basketball.Trace.{Memory, cell_or, join_bytes}
use fujinet_intv_basketball.Trace.Compare.{
  slot_tick, read_slot, add_slot, scan_slots, place, sorted_keys, settled, judge_ring, judge_cells,
  compare_parked, compare,
}
use fujinet_intv_basketball.Trace.Loaded.{slot_tick-window}
use fujinet_intv_basketball.Trace.Passed.{compare-passed_ring, compare-passed_cell}
use fujinet_intv_basketball.Trace.Reached.{HasReached, check_all-HasReached}
use fujinet_intv_basketball.Trace.Dest.{check_all, memory_of}

abbrev row : List ℕ
row = 5 ∷ 6 ∷ []

-- Two runs parked at tick 261, with slot 3 and one scratch cell dumped; an animation counter differs.
abbrev run_a : Memory
run_a = (0x8108, 5) ∷ (0x8109, 1) ∷ (0x9006, 0x34) ∷ (0x9007, 0x12) ∷ (0x015E, 7) ∷ (0x0322, 3) ∷ []

abbrev run_b : Memory
run_b = (0x8108, 5) ∷ (0x8109, 1) ∷ (0x9006, 0x34) ∷ (0x9007, 0x12) ∷ (0x015E, 7) ∷ (0x0322, 4) ∷ []

compare-passed_ring_example : join_bytes 0x34 0x12 ≡ join_bytes 0x34 0x12
unfolding compare compare_parked judge_cells judge_ring scan_slots add_slot read_slot settled
    sorted_keys place
compare-passed_ring_example =
    compare-passed_ring run_a run_b 3 (join_bytes 0x34 0x12) (join_bytes 0x34 0x12) refl
      (omega arith) refl

compare-passed_cell_example : cell_or 0 0x015E run_a ≡ cell_or 0 0x015E run_b
unfolding compare compare_parked judge_cells judge_ring scan_slots add_slot read_slot settled
    sorted_keys place
compare-passed_cell_example = compare-passed_cell run_a run_b 0x015E 7 7 refl refl refl refl

slot_tick-window_example :
    slot_tick 261 3 ≡ pos 259 ↔ (259 % 256 ≡ 3) × (259 < 261) × (261 ≤ 259 + 256)
slot_tick-window_example = slot_tick-window 261 3 259 (omega arith) (omega arith)

abbrev parked_dumps : List (ℕ × List ℕ)
parked_dumps = (0x80C0, 0xD6 ∷ 0x58 ∷ []) ∷ (0x031D, 0 ∷ 1 ∷ 0 ∷ []) ∷ (0x0325, 0 ∷ 2 ∷ []) ∷ []

check_all-HasReached_example :
    All (λ dumps. HasReached (memory_of dumps)) (parked_dumps ∷ parked_dumps ∷ [])
unfolding check_all
check_all-HasReached_example = check_all-HasReached (parked_dumps ∷ parked_dumps ∷ []) refl
