-- ===== src/Trace/Passed.antt =====
-- What a passed comparison and an empty list of problems say of the runs.
use fujinet_intv_basketball.Base.{
  ℕ, zero, suc, ◌+◌, inl, inr, ◌≤◌, ◌<◌, ◌≡◌, ◌≢◌, refl, sym, ap, ◌∙◌, if_ind, Bool-cases, ==_iff,
  Bool, true, false, not, ◌&&◌, ◌||◌, Option, none, some, List, [], ◌∷◌, arith, keep, contains,
  ◌==◌, lookup,
}
use fujinet_intv_basketball.Trace.{Memory, join_bytes}
use fujinet_intv_basketball.Trace.Compare.{
  Slot, unseen, torn, seen, Ring, Mismatch, read_slot, add_slot, then_slot, scan_slots, compare,
  compare_parked, Outcome, passed, judge, judge_cells, judge_ring, settled, is_watched, differs,
  place, sorted_keys, park_tick,
}

abbrev found : Option Ring → List Mismatch
found none = []
found (some ring) = ring.mismatches

-- A turn that ends with no mismatch found none, and saw no two different sums.
cons≢nil : {m : Mismatch} {ms : List Mismatch} → m ∷ ms ≢ []
cons≢nil h = cc

then_slot-rest :
    (parked slot : ℕ) (s : Slot) (rest : Option Ring) (ring : Ring)
    → then_slot parked slot s rest ≡ some ring
    → ring.mismatches ≡ []
    → (r : Ring) × (rest ≡ some r) × (r.mismatches ≡ [])
unfolding add_slot
then_slot-rest parked slot s none ring h e = cc
then_slot-rest parked slot unseen (some r) ring h e = (r, refl, ap found h ∙ e)
then_slot-rest parked slot torn (some r) ring h e = cc
then_slot-rest parked slot (seen ca cb) (some r) ring h e = (
  r,
  refl,
  if_ind (λ (o : Option Ring). o ≡ some ring → r.mismatches ≡ []) (ca == cb) (λ _ g. ap found g ∙ e)
      (λ _ g. absurd (cons≢nil (ap found g ∙ e))) h,
)

then_slot-equal :
    (parked slot ca cb : ℕ) (rest : Option Ring) (ring : Ring)
    → then_slot parked slot (seen ca cb) rest ≡ some ring
    → ring.mismatches ≡ []
    → ca ≡ cb
unfolding add_slot
then_slot-equal parked slot ca cb none ring h e = cc
then_slot-equal parked slot ca cb (some r) ring h e =
    if_ind (λ (o : Option Ring). o ≡ some ring → ca ≡ cb) (ca == cb) (λ q _. (==_iff ca cb).0 q)
      (λ _ g. absurd (cons≢nil (ap found g ∙ e))) h

scan_slots-equal :
    (n slot k parked ca cb : ℕ) (a b : Memory) (ring : Ring)
    → scan_slots n slot parked a b ≡ some ring
    → ring.mismatches ≡ []
    → slot ≤ k
    → k < slot + n
    → read_slot k a b ≡ seen ca cb
    → ca ≡ cb
unfolding scan_slots
scan_slots-equal zero slot k parked ca cb a b ring h e lo hi s = absurd (omega arith)
scan_slots-equal (suc n) slot k parked ca cb a b ring h e lo hi s =
    let rest = scan_slots n (slot + 1) parked a b in
    elim (Bool-cases (slot == k)) [
      | inl q ↦
          let here = ap (λ j. read_slot j a b) ((==_iff slot k).0 q) ∙ s in
          then_slot-equal parked slot ca cb rest ring
            (ap (λ (v : Slot). then_slot parked slot v rest) (sym here) ∙ h) e
      | inr q ↦
          let tail = then_slot-rest parked slot (read_slot slot a b) rest ring h e in
          scan_slots-equal n (slot + 1) k parked ca cb a b tail.0 tail.1 tail.2 (ground arith)
            (omega arith) s
    ]

judge_ring-passed : (ms : List Mismatch) → judge_ring ms ≡ passed → ms ≡ []
unfolding judge_ring
judge_ring-passed [] h = refl
judge_ring-passed (m ∷ ms) h = cc

-- A passed comparison, taken apart.
judge-passed :
    (cells : List ℕ) (o : Option Ring)
    → judge cells o ≡ passed
    → (cells ≡ []) × ((ring : Ring) × (o ≡ some ring) × (ring.mismatches ≡ []))
unfolding judge_cells judge_ring
judge-passed cells none h = cc
judge-passed [] (some ring) h = (refl, (ring, refl, judge_ring-passed ring.mismatches h))
judge-passed (x ∷ xs) (some ring) h = cc

park_tick-passed :
    (a b : Memory) (la lb ha hb : Option ℕ)
    → park_tick a la lb ha hb b ≡ passed
    → (parked : ℕ) × (judge (settled a b) (scan_slots 256 0 parked a b) ≡ passed)
unfolding compare_parked
park_tick-passed a b none lb ha hb h = cc
park_tick-passed a b (some la) none ha hb h = cc
park_tick-passed a b (some la) (some lb) none hb h = cc
park_tick-passed a b (some la) (some lb) (some ha) none h = cc
park_tick-passed a b (some la) (some lb) (some ha) (some hb) h = (
  join_bytes la ha,
  if_ind
      (λ (o : Outcome).
        o ≡ passed → judge (settled a b) (scan_slots 256 0 (join_bytes la ha) a b) ≡ passed)
      (join_bytes la ha == join_bytes lb hb) (λ _ g. g) (λ _ g. absurd (cc)) h,
)

-- When the comparison passes, every ring slot that both runs dumped holds the same checksum.
pub compare-passed_ring :
    (a b : Memory) (k ca cb : ℕ)
    → compare a b ≡ passed
    → k < 256
    → read_slot k a b ≡ seen ca cb
    → ca ≡ cb
unfolding compare
compare-passed_ring a b k ca cb h hk s =
    let p =
      park_tick-passed a b (lookup 0x8108 a) (lookup 0x8108 b) (lookup 0x8109 a) (lookup 0x8109 b)
        h in
    let r = (judge-passed (settled a b) (scan_slots 256 0 p.0 a b) p.1).1 in
    scan_slots-equal 256 0 k p.0 ca cb a b r.0 r.1 r.2 (omega arith) (omega arith) s

place-contains : (x y : ℕ) (ys : List ℕ) → contains x (place y ys) ≡ (x == y || contains x ys)
unfolding place
place-contains x y [] = refl
place-contains x y (z ∷ zs) = ground (arith, place-contains x y zs)

sorted_keys-contains :
    (x v : ℕ) (mem : Memory) → lookup x mem ≡ some v → contains x (sorted_keys mem) ≡ true
unfolding sorted_keys
sorted_keys-contains x v [] h = cc
sorted_keys-contains x v ((y, w) ∷ mem) h =
    ground (arith, place-contains x y (sorted_keys mem), sorted_keys-contains x v mem)

keep-nil :
    (p : ℕ → Bool) (x : ℕ) (xs : List ℕ) → keep p xs ≡ [] → contains x xs ≡ true → p x ≡ false
keep-nil p x [] h c = cc
keep-nil p x (y ∷ ys) h c = ground (arith, keep-nil p x ys, (λ (q : x ≡ y). ap p q))

equal_when_told :
    (va vb : ℕ) (d w : Bool) → (d && w) ≡ false → w ≡ true → d ≡ not (va == vb) → va ≡ vb
equal_when_told va vb d w both watched told = ground arith

-- When the comparison passes, every watched cell that both runs dumped holds the same word.
pub compare-passed_cell :
    (a b : Memory) (x va vb : ℕ)
    → compare a b ≡ passed
    → is_watched x ≡ true
    → lookup x a ≡ some va
    → lookup x b ≡ some vb
    → va ≡ vb
unfolding compare settled
compare-passed_cell a b x va vb h w ha hb =
    let p =
      park_tick-passed a b (lookup 0x8108 a) (lookup 0x8108 b) (lookup 0x8109 a) (lookup 0x8109 b)
        h in
    let none_kept = (judge-passed (settled a b) (scan_slots 256 0 p.0 a b) p.1).0 in
    let no =
      keep-nil (λ y. differs a b y && is_watched y) x (sorted_keys a) none_kept
        (sorted_keys-contains x va a ha) in
    let told : differs a b x ≡ not (va == vb) = rw (ha, hb) refl in
    equal_when_told va vb (differs a b x) (is_watched x) no w told
