-- ===== src/Diff/Main.antt =====
-- tools/server_diff.py: `main`. What the two servers leave of a scenario is a parameter.
use fujinet_intv_basketball.Base.{
  ascii, ℕ, zero, suc, ◌≡◌, ◌≢◌, ◌∙◌, sym, ap, get_elem?, refl, subst, Bool, true, false, not, ◌&&◌,
  ◌||◌, Option, none, some, List, [], ◌∷◌, Bytes, bytes_eq, ◌==◌, if◌then◌else◌, arith, is_empty,
}
use fujinet_intv_basketball.Diff.{
  Scenario, limits, framing, other, compare, view, compare_strict, compare_framing_blind,
}
use fujinet_intv_basketball.Diff.Harness.{Act}
use fujinet_intv_basketball.Diff.Scripts.{
  s1_roster_order, s2_rooms, s3_go_start, s4_relay_crc, s5_drop_matrix, s6_framing, s7_limits,
}
use fujinet_intv_basketball.Diff.Legacy.{v1_roster_order, v1_pairing, v1_relay_crc, v1_drops}

-- `SCENARIOS_V2`, for rooms of so many seats
unfoldable pub scenarios_v2 : ℕ → List (Bytes × List Act)
scenarios_v2 seats =
    (ascii "roster", s1_roster_order 2)
    ∷ (ascii "rooms", s2_rooms 2 seats)
    ∷ (ascii "start", s3_go_start 2)
    ∷ (ascii "relay", s4_relay_crc 2)
    ∷ (ascii "drops", s5_drop_matrix 2)
    ∷ (ascii "framing", s6_framing 2)
    ∷ (ascii "limits", s7_limits)
    ∷ []

-- `SCENARIOS_V1`
unfoldable pub scenarios_v1 : List (Bytes × List Act)
scenarios_v1 =
    (ascii "roster", v1_roster_order)
    ∷ (ascii "pairing", v1_pairing)
    ∷ (ascii "relay", v1_relay_crc)
    ∷ (ascii "drops", v1_drops)
    ∷ (ascii "framing", s6_framing 1)
    ∷ (ascii "limits", s7_limits)
    ∷ []

abbrev pub default_order_v2 : List Bytes
default_order_v2 =
    ascii "roster"
    ∷ ascii "rooms"
    ∷ ascii "start"
    ∷ ascii "relay"
    ∷ ascii "drops"
    ∷ ascii "framing"
    ∷ []

abbrev pub default_order_v1 : List Bytes
default_order_v1 =
    ascii "roster" ∷ ascii "pairing" ∷ ascii "relay" ∷ ascii "drops" ∷ ascii "framing" ∷ []

-- The options. `python_server` is whether the path that was given exists.
pub record Options : Type 0 where
  pub seats : ℕ
  pub proto : ℕ
  pub python_server : Option Bool
  pub scenario : List Bytes
  pub strict : Bool
  pub list : Bool

-- How `main` ends: with a list of names, with a message of `sys.exit`, or with a verdict.
pub data Outcome : Type 0 where
  listed : List Bytes → Outcome
  refused : Outcome
  finished : Bool → Outcome

abbrev pub scenarios : Options → List (Bytes × List Act)
scenarios o = if o.proto == 1 then scenarios_v1 else scenarios_v2 o.seats

unfoldable pub keys : List (Bytes × List Act) → List Bytes
keys [] = []
keys ((n, acts) ∷ rest) = n ∷ keys rest

unfoldable pub is_known : Bytes → List (Bytes × List Act) → Bool
is_known n [] = false
is_known n ((k, acts) ∷ rest) = bytes_eq n k || is_known n rest

unfoldable pub all_known : List Bytes → List (Bytes × List Act) → Bool
unfolding is_known
all_known [] known = true
all_known (n ∷ ns) known = is_known n known && all_known ns known

-- `args.scenario or (...)`
abbrev pub chosen : Options → List Bytes
chosen o =
    if is_empty o.scenario
    then (if o.proto == 1 then default_order_v1 else default_order_v2)
    else o.scenario

-- How `compare` treats a name.
unfoldable pub kind_of : Bytes → Scenario
kind_of n =
    if bytes_eq n (ascii "limits")
    then limits
    else (if bytes_eq n (ascii "framing") then framing else other)

-- No reference server: the one that was named is missing, or protocol 1 names none.
unfoldable pub lacks_reference : Options → Bool
lacks_reference o = elim o.python_server [ none ↦ o.proto == 1 | some exists ↦ not exists ]

-- What the reference and the C port leave of the run at a place in the list of names; a name that
-- is listed twice is run twice.
abbrev pub Runs : Type 0
Runs = ℕ → Bytes → List Bytes × List Bytes

-- `ok &= compare(...)` over the names
unfoldable pub compare_all : Options → Runs → List Bytes → Bool
unfolding kind_of
compare_all o runs [] = true
compare_all o runs (n ∷ ns) =
    compare (kind_of n) o.proto o.strict (runs 0 n).0 (runs 0 n).1
    && compare_all o (λ i. runs (suc i)) ns

unfoldable pub main : Options → Bool → Runs → Outcome
unfolding lacks_reference all_known compare_all keys
main o built runs =
    if o.list
    then listed (keys (scenarios o))
    else (if lacks_reference o || not built || not (all_known (chosen o) (scenarios o))
        then refused
        else (if o.proto == 2 && not (o.seats == 2)
            then refused
            else finished (compare_all o runs (chosen o))))

-- Both left the same, up to order for the limits, in the run at each place.
abbrev pub Agree : Runs → List Bytes → Type 0
Agree runs ns =
    (i : ℕ) (n : Bytes)
    → get_elem? ns i ≡ some n
    → view (kind_of n) (runs i n).0 ≡ view (kind_of n) (runs i n).1

Agree-cons :
    (runs : Runs) (n : Bytes) (ns : List Bytes)
    → view (kind_of n) (runs 0 n).0 ≡ view (kind_of n) (runs 0 n).1
    → Agree (λ i. runs (suc i)) ns
    → Agree runs (n ∷ ns)
Agree-cons runs n ns now later zero m e =
    let same : n ≡ m = cc in
    subst (λ k. view (kind_of k) (runs 0 k).0 ≡ view (kind_of k) (runs 0 k).1) same now
Agree-cons runs n ns now later (suc i) m e = later i m e

none≢some : {n : Bytes} → ◌≢◌ {A = Option Bytes} none (some n)
none≢some e = cc

compare_all-strict :
    (o : Options) (runs : Runs) (ns : List Bytes)
    → o.strict ≡ true
    → compare_all o runs ns ≡ true
    → Agree runs ns
unfolding compare_all
compare_all-strict o runs [] strict h = λ i n e. absurd (none≢some e)
compare_all-strict o runs (n ∷ ns) strict h =
    Agree-cons runs n ns
      (compare_strict (kind_of n) o.proto (runs 0 n).0 (runs 0 n).1 (
        subst (λ s. compare (kind_of n) o.proto s (runs 0 n).0 (runs 0 n).1 ≡ true) strict
          (ground arith)))
      (compare_all-strict o (λ i. runs (suc i)) ns strict (ground (arith, h)))

finished_only :
    (names : List Bytes) (a b c d ok : Bool)
    → (if a then listed names else (if b then refused else (if c then refused else finished d)))
      ≡ finished ok
    → (d ≡ ok) × (c ≡ false)
finished_only names true b c d ok h = cc
finished_only names false true c d ok h = cc
finished_only names false false true d ok h = cc
finished_only names false false false d ok h = (cc, refl)

main_finished :
    (o : Options) (built : Bool) (runs : Runs) (ok : Bool)
    → main o built runs ≡ finished ok
    → (compare_all o runs (chosen o) ≡ ok) × ((o.proto == 2 && not (o.seats == 2)) ≡ false)
unfolding main
main_finished o built runs ok h =
    finished_only (keys (scenarios o)) o.list
      (lacks_reference o || not built || not (all_known (chosen o) (scenarios o)))
      (o.proto == 2 && not (o.seats == 2)) (compare_all o runs (chosen o)) ok h

-- A run with `--strict` that ends with success compared every scenario that was asked for, or else
-- each of the default ones, as often as it was asked for, and both servers left the same records each
-- time, up to order for the limits; and under protocol 2 it was a run with two seats.
pub main_strict :
    (o : Options) (built : Bool) (runs : Runs)
    → o.strict ≡ true
    → main o built runs ≡ finished true
    → Agree runs (chosen o) × ((o.proto == 2 && not (o.seats == 2)) ≡ false)
main_strict o built runs strict h =
    let (ok, two) = main_finished o built runs true h in
    (compare_all-strict o runs (chosen o) strict ok, two)

same_verdict :
    (k : Scenario) (py c py' c' : List Bytes)
    → (k ≢ framing → (py ≡ py') × (c ≡ c'))
    → compare k 2 false py c ≡ compare k 2 false py' c'
same_verdict limits py c py' c' h = let (a, b) = h (λ e. cc) in rw (a, b) refl
same_verdict other py c py' c' h = let (a, b) = h (λ e. cc) in rw (a, b) refl
same_verdict framing py c py' c' h = compare_framing_blind py c ∙ sym (compare_framing_blind py' c')

compare_all-framing :
    (o : Options) (runs runs' : Runs) (ns : List Bytes)
    → o.strict ≡ false
    → o.proto ≡ 2
    → ((i : ℕ) (n : Bytes) → kind_of n ≢ framing → runs i n ≡ runs' i n)
    → compare_all o runs ns ≡ compare_all o runs' ns
unfolding compare_all
compare_all-framing o runs runs' [] lax two same = refl
compare_all-framing o runs runs' (n ∷ ns) lax two same =
    rw
      (
        lax,
        two,
        compare_all-framing o (λ i. runs (suc i)) (λ i. runs' (suc i)) ns lax two
            (λ i m other. same (suc i) m other),
      )
      (ap (λ (b : Bool). b && compare_all o (λ i. runs' (suc i)) ns)
        (same_verdict (kind_of n) (runs 0 n).0 (runs 0 n).1 (runs' 0 n).0 (runs' 0 n).1 (λ other. (
          ap (λ (r : List Bytes × List Bytes). r.0) (same 0 n other),
          ap (λ (r : List Bytes × List Bytes). r.1) (same 0 n other),
        ))))

-- Without `--strict`, under protocol 2: two runs of `main` with the same options, in which the servers
-- leave the same of every scenario but the framing one, end alike.
pub main_ignores_framing :
    (o : Options) (built : Bool) (runs runs' : Runs)
    → o.strict ≡ false
    → o.proto ≡ 2
    → ((i : ℕ) (n : Bytes) → kind_of n ≢ framing → runs i n ≡ runs' i n)
    → main o built runs ≡ main o built runs'
unfolding main
main_ignores_framing o built runs runs' lax two same =
    rw (compare_all-framing o runs runs' (chosen o) lax two same)
