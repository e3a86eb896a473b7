-- ===== src/Crc/Table.antt =====
-- The checksum table: how large it gets, when a round is judged, and when it never is.
use fujinet_intv_basketball.Base.{
  ℕ, suc, ◌≤◌, ◌<◌, ◌≡◌, ◌≢◌, refl, ap, ◌∙◌, Bool, true, false, none, some, [], ◌∷◌, ◌++◌, arith,
  length, All, ltb, ◌==◌, if◌then◌else◌, lookup, insert, erase, min_key, length-insert-le,
  length-erase-le, if_ind,
}
use fujinet_intv_basketball.Crc.{
  Entry, Table, Verdict, waiting, mismatch, agreed, entry_at, evict, all_equal, report,
}

-- The smallest key is a key, so taking it out shortens the table.
abbrev has_key : ℕ → Table → Bool
has_key k [] = false
has_key k (e ∷ table) = if k == e.0 then true else has_key k table

length-erase :
    (k : ℕ) (table : Table) → has_key k table ≡ true → suc (length (erase k table)) ≡ length table
length-erase k [] h = cc
length-erase k (e ∷ table) h = ground (arith, length-erase k table)

min_key-has_key :
    (k : ℕ) (table : Table)
    → (if min_key k table == k then true else has_key (min_key k table) table) ≡ true
min_key-has_key k [] = ground arith
min_key-has_key k (e ∷ table) = ground (arith, min_key-has_key (if ltb e.0 k then e.0 else k) table)

length-evict : (table : Table) → length table ≤ 65 → length (evict table) ≤ 64
unfolding evict
length-evict [] h = omega arith
length-evict ((k, entry) ∷ table) h =
    ground (arith, length-erase (min_key k table) ((k, entry) ∷ table) (min_key-has_key k table))

-- The table never holds more than 64 ticks after a report, if it did not before.
pub report-bound :
    (players seat tick crc : ℕ) (table : Table)
    → length table ≤ 64
    → length (report players seat tick crc table).0 ≤ 64
unfolding report
report-bound players seat tick crc table h =
    let entry = insert seat crc (entry_at tick table) in
    let stored = evict (insert tick entry table) in
    let bound =
      length-evict (insert tick entry table) (omega (arith, length-insert-le tick entry table)) in
    if_ind (λ (r : Table × Verdict). length r.0 ≤ 64) (ltb (length entry) players) (λ _. bound)
      (λ _. omega (arith, length-erase-le tick stored, bound))

evict_small : (table : Table) → length table ≤ 64 → evict table ≡ table
unfolding evict
evict_small [] h = refl
evict_small (e ∷ table) h = ground arith

insert_new :
    (tick : ℕ) (entry : Entry) (table : Table)
    → lookup tick table ≡ none
    → insert tick entry table ≡ table ++ (tick, entry) ∷ []
insert_new tick entry [] h = refl
insert_new tick entry (e ∷ table) h = ground (arith, insert_new tick entry table)

insert_last :
    (tick : ℕ) (old entry : Entry) (table : Table)
    → lookup tick table ≡ none
    → insert tick entry (table ++ (tick, old) ∷ []) ≡ table ++ (tick, entry) ∷ []
insert_last tick old entry [] h = ground arith
insert_last tick old entry (e ∷ table) h = ground (arith, insert_last tick old entry table)

lookup_last :
    (tick : ℕ) (entry : Entry) (table : Table)
    → lookup tick table ≡ none
    → lookup tick (table ++ (tick, entry) ∷ []) ≡ some entry
lookup_last tick entry [] h = ground arith
lookup_last tick entry (e ∷ table) h = ground (arith, lookup_last tick entry table)

erase_last :
    (tick : ℕ) (entry : Entry) (table : Table)
    → lookup tick table ≡ none
    → erase tick (table ++ (tick, entry) ∷ []) ≡ table
erase_last tick entry [] h = ground arith
erase_last tick entry (e ∷ table) h = ground (arith, erase_last tick entry table)

length-snoc : (table : Table) (e : ℕ × Entry) → length (table ++ e ∷ []) ≡ suc (length table)
length-snoc [] e = refl
length-snoc (x ∷ table) e = ap suc (length-snoc table e)

entry_new : (tick : ℕ) (table : Table) → lookup tick table ≡ none → entry_at tick table ≡ []
unfolding entry_at
entry_new tick table h = ground arith

entry_old :
    (tick : ℕ) (entry : Entry) (table : Table)
    → lookup tick table ≡ none
    → entry_at tick (table ++ (tick, entry) ∷ []) ≡ entry
unfolding entry_at
entry_old tick entry table h = ground (arith, lookup_last tick entry table)

-- How a report of two players ends, by the entry that it makes.
report_waits :
    (seat tick crc : ℕ) (entry : Entry) (table : Table)
    → insert seat crc (entry_at tick table) ≡ entry
    → length entry ≡ 1
    → report 2 seat tick crc table ≡ (evict (insert tick entry table), waiting)
unfolding report
report_waits seat tick crc entry table e h = rw e (ground arith)

report_judges :
    (seat tick crc : ℕ) (entry : Entry) (table : Table)
    → insert seat crc (entry_at tick table) ≡ entry
    → length entry ≡ 2
    → report 2 seat tick crc table ≡ (
      erase tick (evict (insert tick entry table)),
      (if all_equal entry then agreed tick else mismatch tick entry),
    )
unfolding report
report_judges seat tick crc entry table e h = rw e (ground arith)

first_report :
    (seat tick crc : ℕ) (table : Table)
    → lookup tick table ≡ none
    → report 2 seat tick crc table ≡ (evict (table ++ (tick, (seat, crc) ∷ []) ∷ []), waiting)
first_report seat tick crc table h =
    report_waits seat tick crc ((seat, crc) ∷ []) table
      (ap (insert seat crc) (entry_new tick table h)) refl
    ∙ ap (λ (t : Table). (evict t, waiting)) (insert_new tick ((seat, crc) ∷ []) table h)

second_report :
    (seat other tick crc crc' : ℕ) (table : Table)
    → seat ≢ other
    → lookup tick table ≡ none
    → length table ≤ 63
    → report 2 other tick crc' (table ++ (tick, (seat, crc) ∷ []) ∷ []) ≡ (
      table,
      (if crc' == crc then agreed tick else mismatch tick ((seat, crc) ∷ (other, crc') ∷ [])),
    )
second_report seat other tick crc crc' table ne h room =
    report_judges other tick crc' both grown made refl
    ∙ rw
        (
          insert_last tick ((seat, crc) ∷ []) both table h,
          evict_small (table ++ (tick, both) ∷ []) (omega (arith, length-snoc table (tick, both))),
          erase_last tick both table h,
        )
        (unfold all_equal in ground arith)
  where
    grown : Table
    grown = table ++ (tick, (seat, crc) ∷ []) ∷ []

    both : Entry
    both = (seat, crc) ∷ (other, crc') ∷ []

    made : insert other crc' (entry_at tick grown) ≡ both
    made = ap (insert other crc') (entry_old tick ((seat, crc) ∷ []) table h) ∙ ground arith

-- In a match of two, when neither seat has reported a tick and the table has room: the first report
-- waits, and the second judges the round. The round is agreed exactly when both checksums are the
-- same, a mismatch shows both, and the table is as it was before the round.
pub report_round :
    (seat other tick crc crc' : ℕ) (table : Table)
    → seat ≢ other
    → lookup tick table ≡ none
    → length table ≤ 63
    → let first = report 2 seat tick crc table in
      (first.1 ≡ waiting)
      × (report 2 other tick crc' first.0 ≡ (
        table,
        (if crc' == crc then agreed tick else mismatch tick ((seat, crc) ∷ (other, crc') ∷ [])),
      ))
report_round seat other tick crc crc' table ne h room =
    rw
      (
        first_report seat tick crc table h,
        evict_small (table ++ (tick, (seat, crc) ∷ []) ∷ [])
            (omega (arith, length-snoc table (tick, (seat, crc) ∷ []))),
      )
      (refl, second_report seat other tick crc crc' table ne h room)

min_key_last :
    (k tick : ℕ) (entry : Entry) (table : Table)
    → tick < k
    → All (λ e. tick < e.0) table
    → min_key k (table ++ (tick, entry) ∷ []) ≡ tick
min_key_last k tick entry [] h a = ground arith
min_key_last k tick entry (e ∷ table) h a =
    min_key_last (if ltb e.0 k then e.0 else k) tick entry table (ground arith) a.1

later_absent : (tick : ℕ) (table : Table) → All (λ e. tick < e.0) table → lookup tick table ≡ none
later_absent tick [] a = refl
later_absent tick (e ∷ table) a = ground (arith, later_absent tick table a.1)

evict_newest :
    (tick : ℕ) (entry : Entry) (table : Table)
    → length table ≡ 64
    → All (λ e. tick < e.0) table
    → evict (table ++ (tick, entry) ∷ []) ≡ table
unfolding evict
evict_newest tick entry [] h a = absurd (omega arith)
evict_newest tick entry ((k, old) ∷ table) h a = rw full (
    ap (λ m. erase m ((k, old) ∷ table ++ (tick, entry) ∷ []))
      (min_key_last k tick entry table a.0 a.1)
    ∙ erase_last tick entry ((k, old) ∷ table) (later_absent tick ((k, old) ∷ table) a))
  where
    full : ltb 64 (suc (length (table ++ (tick, entry) ∷ []))) ≡ true
    full = ground (arith, length-snoc table (tick, entry))

-- A full table of later ticks, as half-reported rounds leave it behind when the 16-bit tick wraps,
-- evicts each new round at its first report: both seats report the tick, both reports wait, nothing
-- is stored, and the checksums are never compared, whether they agree or not.
pub report_starved :
    (seat other tick crc crc' : ℕ) (table : Table)
    → length table ≡ 64
    → All (λ e. tick < e.0) table
    → let first = report 2 seat tick crc table in
      (first ≡ (table, waiting)) × (report 2 other tick crc' first.0 ≡ (table, waiting))
report_starved seat other tick crc crc' table h a =
    (one seat crc, rw (one seat crc) (one other crc'))
  where
    one : (s x : ℕ) → report 2 s tick x table ≡ (table, waiting)
    one s x = rw (
      first_report s tick x table (later_absent tick table a),
      evict_newest tick ((s, x) ∷ []) table h a,
    )
