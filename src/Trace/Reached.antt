-- ===== src/Trace/Reached.antt =====
-- What an empty list of problems says of a parked run.
use fujinet_intv_basketball.Base.{
  All, ℕ, zero, suc, ◌+◌, ◌≤◌, ◌<◌, ◌≡◌, ◌≢◌, refl, inl, inr, Bool, Bool-cases, true, false, Option,
  none, some, List, [], ◌∷◌, ◌++◌, arith, if◌then◌else◌, ◌==◌, lookup,
}
use fujinet_intv_basketball.Trace.{Memory, cell_or, join_bytes}
use fujinet_intv_basketball.Trace.Dest.{
  Problem, any_cell, table_problems, mob_problems, check, check_all, memory_of, is_table, mob0_zero,
  mob1_zero, unknown_table,
}

-- A cell of a range that is not zero.
abbrev pub HasLive : ℕ → ℕ → Memory → Type 0
HasLive n lo mem = (a : ℕ) × (lo ≤ a) × (a < lo + n) × (cell_or 0 a mem ≢ 0)

any_cell-HasLive : (n lo : ℕ) (mem : Memory) → any_cell n lo mem ≡ true → HasLive n lo mem
unfolding any_cell
any_cell-HasLive zero lo mem h = cc
any_cell-HasLive (suc n) lo mem h = elim (Bool-cases (cell_or 0 lo mem == 0)) [
  | inl q ↦
      let r = any_cell-HasLive n (lo + 1) mem (ground (arith, h, q)) in
      (r.0, omega arith, omega arith, r.3)
  | inr q ↦ (lo, omega arith, omega arith, λ z. (ground (arith, q, z)))
]

append-nil_both : (xs ys : List Problem) → xs ++ ys ≡ [] → (xs ≡ []) × (ys ≡ [])
append-nil_both [] ys h = (refl, h)
append-nil_both (x ∷ xs) ys h = cc

unless-nil : (b : Bool) (p : Problem) → (if b then [] else p ∷ []) ≡ [] → b ≡ true
unless-nil true p h = refl
unless-nil false p h = cc

table_problems-nil :
    (lo hi : Option ℕ)
    → table_problems lo hi ≡ []
    → is_table (join_bytes (elim lo [ none ↦ 0 | some w ↦ w ]) (elim hi [ none ↦ 0 | some w ↦ w ]))
      ≡ true
unfolding table_problems
table_problems-nil none hi h = cc
table_problems-nil (some lo) none h = cc
table_problems-nil (some lo) (some hi) h =
    unless-nil (is_table (join_bytes lo hi)) (unknown_table (join_bytes lo hi)) h

-- The run dispatched to a handler table of the game, and each team's object has a cell that is not
-- zero.
abbrev pub HasReached : Memory → Type 0
HasReached mem =
    (is_table (join_bytes (cell_or 0 0x80C0 mem) (cell_or 0 0x80C1 mem)) ≡ true)
    × HasLive 8 0x31D mem
    × HasLive 8 0x325 mem

check-HasReached : (mem : Memory) → check mem ≡ [] → HasReached mem
unfolding check mob_problems
check-HasReached [] h = cc
check-HasReached (e ∷ mem) h =
    let m = e ∷ mem in
    let parts =
      append-nil_both (table_problems (lookup 0x80C0 m) (lookup 0x80C1 m)) (mob_problems m) h in
    let mobs =
      append-nil_both (if any_cell 8 0x31D m then [] else mob0_zero ∷ [])
        (if any_cell 8 0x325 m then [] else mob1_zero ∷ []) parts.1 in
    (
      table_problems-nil (lookup 0x80C0 m) (lookup 0x80C1 m) parts.0,
      any_cell-HasLive 8 0x31D m (unless-nil (any_cell 8 0x31D m) mob0_zero mobs.0),
      any_cell-HasLive 8 0x325 m (unless-nil (any_cell 8 0x325 m) mob1_zero mobs.1),
    )

-- When the check finds no problem in any file, the run of each of them has dispatched to a handler table
-- of the game and has populated the object of each team.
pub check_all-HasReached :
    (files : List (List (ℕ × List ℕ)))
    → check_all files ≡ []
    → All (λ dumps. HasReached (memory_of dumps)) files
unfolding check_all
check_all-HasReached [] h = tt
check_all-HasReached (dumps ∷ files) h =
    let parts = append-nil_both (check (memory_of dumps)) (check_all files) h in
    (check-HasReached (memory_of dumps) parts.0, check_all-HasReached files parts.1)
