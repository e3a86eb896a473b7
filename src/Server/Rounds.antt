-- ===== src/Server/Rounds.antt =====
-- `Server.log_crc` over a whole round: what the two reports of a tick leave of the room and the log.
use fujinet_intv_basketball.Base.{
  ℕ, suc, ◌%◌, ◌≤◌, ◌≡◌, ◌≢◌, sym, ap, ◌∙◌, none, List, [], ◌∷◌, ◌++◌, Bytes, arith, length, get_or,
  lookup, leb, ◌==◌, if◌then◌else◌, append-nil, Bool-cases, inl, inr, ==_refl, subst, true, false,
}
use fujinet_intv_basketball.Crc.{Table, Verdict, waiting, mismatch, agreed, report, word}
use fujinet_intv_basketball.Crc.Table.{report_round}
use fujinet_intv_basketball.Server.Types.{State, LogLine, crc_mismatch, crc_through}
use fujinet_intv_basketball.Server.Handlers.{log_crc, settle, store_crc, sort_entry, place_seat}

-- The line on a round, after so many agreed rounds: a mismatch has the pairs of seat and checksum, by
-- seat.
abbrev pub round_lines : Bytes → Bytes → ℕ → List LogLine
round_lines p q rounds =
    if word 3 q == word 3 p
    then (if suc rounds % 4 == 0 then crc_through (word 1 p) (suc rounds) ∷ [] else [])
    else crc_mismatch (word 1 p) (
        if leb (get_or p 0 0) (get_or q 0 0)
        then (get_or p 0 0, word 3 p) ∷ (get_or q 0 0, word 3 q) ∷ []
        else (get_or q 0 0, word 3 q) ∷ (get_or p 0 0, word 3 p) ∷ [])
      ∷ []

-- A round has been judged: the room's table is as before, an agreed round is counted, and the log has
-- the line of the round behind what it had.
pub record Judged (r : ℕ) (p q : Bytes) (s t : State) : Type 0 where
  pub same_table : (t.rooms r).crc ≡ (s.rooms r).crc
  pub same_members : (t.rooms r).members ≡ (s.rooms r).members
  pub counted :
      (t.rooms r).crc_ok
      ≡ (if word 3 q == word 3 p then suc (s.rooms r).crc_ok else (s.rooms r).crc_ok)
  pub logged : t.log ≡ s.log ++ round_lines p q (s.rooms r).crc_ok
  pub same_heap : t.heap ≡ s.heap

log_crc_stored :
    (r : ℕ) (p : Bytes) (table : Table) (v : Verdict) (s : State)
    → report (length (s.rooms r).members) (get_or p 0 0) (word 1 p) (word 3 p) (s.rooms r).crc
      ≡ (table, v)
    → log_crc r p s ≡ settle r v (store_crc r table s)
unfolding log_crc
log_crc_stored r p table v s e = rw e

stored_room :
    (r : ℕ) (table : Table) (s : State)
    → (store_crc r table s).rooms r ≡ record (s.rooms r) { crc = table }
unfolding store_crc
stored_room r table s = rw (==_refl r)

agreed-Judged :
    (r : ℕ) (p q : Bytes) (first : Table) (s : State)
    → (word 3 q == word 3 p) ≡ true
    → Judged r p q s
        (settle r (agreed (word 1 p)) (store_crc r (s.rooms r).crc (store_crc r first s)))
unfolding settle store_crc
agreed-Judged r p q first s e = ground (arith, append-nil s.log)

mismatch-Judged :
    (r : ℕ) (p q : Bytes) (first : Table) (s : State)
    → (word 3 q == word 3 p) ≡ false
    → Judged r p q s (
        settle r
          (mismatch (word 1 p) ((get_or p 0 0, word 3 p) ∷ (get_or q 0 0, word 3 q) ∷ []))
          (store_crc r (s.rooms r).crc (store_crc r first s)))
unfolding settle store_crc place_seat sort_entry
mismatch-Judged r p q first s e = ground arith

round-Judged :
    (r : ℕ) (p q : Bytes) (first : Table) (s : State)
    → Judged r p q s (
        settle r
          (if word 3 q == word 3 p
            then agreed (word 1 p)
            else mismatch (word 1 p) ((get_or p 0 0, word 3 p) ∷ (get_or q 0 0, word 3 q) ∷ []))
          (store_crc r (s.rooms r).crc (store_crc r first s)))
round-Judged r p q first s = elim (Bool-cases (word 3 q == word 3 p)) [
  | inl e ↦ rw e (agreed-Judged r p q first s e)
  | inr e ↦ rw e (mismatch-Judged r p q first s e)
]

-- When the members of a room are two, neither has reported the tick and fewer than 64 ticks are
-- pending, the two reports of the tick are judged once: as agreed exactly if the checksums are equal,
-- and otherwise by a line that has both by seat.
pub log_crc_round :
    (r : ℕ) (p q : Bytes) (s : State)
    → length (s.rooms r).members ≡ 2
    → word 1 q ≡ word 1 p
    → get_or p 0 0 ≢ get_or q 0 0
    → lookup (word 1 p) (s.rooms r).crc ≡ none
    → length (s.rooms r).crc ≤ 63
    → Judged r p q s (log_crc r q (log_crc r p s))
unfolding store_crc settle
log_crc_round r p q s two same other fresh small =
    let room = s.rooms r in
    let seat = get_or p 0 0 in
    let first = report 2 seat (word 1 p) (word 3 p) room.crc in
    let stored = store_crc r first.0 s in
    let round =
      report_round seat (get_or q 0 0) (word 1 p) (word 3 p) (word 3 q) room.crc other fresh
        small in
    let verdict =
      if word 3 q == word 3 p
      then agreed (word 1 p)
      else mismatch (word 1 p) ((seat, word 3 p) ∷ (get_or q 0 0, word 3 q) ∷ []) in
    let waits : log_crc r p s ≡ stored = log_crc_stored r p first.0 waiting s (
      ap (λ n. report n seat (word 1 p) (word 3 p) room.crc) two
      ∙ ap (λ (v : Verdict). (first.0, v)) round.0) in
    let judged : log_crc r q stored ≡ settle r verdict (store_crc r room.crc stored) =
      log_crc_stored r q room.crc verdict stored
        (rw (stored_room r first.0 s, two, same) round.1) in
    subst (Judged r p q s) (sym (ap (log_crc r q) waits ∙ judged)) (round-Judged r p q first.0 s)
