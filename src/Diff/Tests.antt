-- ===== src/Diff/Tests.antt =====
-- The comparison on concrete transcripts.
use fujinet_intv_basketball.Base.{
  ◌≢◌, ascii, ℕ, none, not, ◌&&◌, ◌+◌, ◌≡◌, ◌≢◌, get_elem?, refl, true, false, some, List, [], ◌∷◌,
  Bytes, arith, Bool-cases, inl, inr, ◌==◌,
}
use fujinet_intv_basketball.Diff.{
  Scenario, limits, framing, other, compare, sort, place, text_le, same_records,
}
use fujinet_intv_basketball.Wire.{t_start, frame}
use fujinet_intv_basketball.Diff.Harness.{Act, hello, render}
use fujinet_intv_basketball.Diff.Logs.{run}
use fujinet_intv_basketball.Diff.Chunks.{IsSameAll, chunks, heard, compare_any_chunks}
use fujinet_intv_basketball.Diff.Masking.{seed_at, render_hides_seed_only}
use fujinet_intv_basketball.Diff.Main.{
  Options, Runs, Agree, chosen, main, kind_of, scenarios_v2, main_strict, main_ignores_framing,
}

abbrev one_order : List Bytes
one_order = (b'a' ∷ []) ∷ (b'b' ∷ []) ∷ []

abbrev other_order : List Bytes
other_order = (b'b' ∷ []) ∷ (b'a' ∷ []) ∷ []

-- ALICE says hello and gets an empty LOBBY, in two receives or in one.
abbrev greeted : List Act
greeted = hello 2 0 (ascii "ALICE")

abbrev in_two : List (List (ℕ × Bytes))
in_two = ((0, 2 ∷ []) ∷ (0, 3 ∷ 0 ∷ []) ∷ []) ∷ []

abbrev in_one : List (List (ℕ × Bytes))
in_one = ((0, 2 ∷ 3 ∷ 0 ∷ []) ∷ []) ∷ []

abbrev greeting_records : List Bytes × ℕ
greeting_records = (
  ascii "01 hello ALICE | ALICE <- LOBBY 00"
      ∷ ascii "log INFO START ALICE vs BOB (seed $SEED)"
      ∷ [],
  0,
)

abbrev one_line : List Bytes
one_line = ascii "log INFO START ALICE vs BOB (seed $4F0A)" ∷ []

two_receives : run 2 greeted in_two one_line ≡ some greeting_records
unfolding hello run frame
two_receives = refl

one_receive : run 2 greeted in_one one_line ≡ some greeting_records
unfolding hello run frame
one_receive = refl

in_two-IsSame : IsSameAll in_two in_one
unfolding heard chunks
in_two-IsSame = (λ k. elim (Bool-cases (k == 0)) [ inl e ↦ rw e refl | inr e ↦ rw e refl ], tt)

compare_any_chunks_example : compare limits 2 true greeting_records.0 greeting_records.0 ≡ true
compare_any_chunks_example =
    compare_any_chunks limits 2 true greeted in_two in_one one_line greeting_records
      greeting_records in_two-IsSame two_receives one_receive

-- Two STARTs that differ in the seed.
abbrev start_a : Bytes
start_a = 0 ∷ 2 ∷ 0x11 ∷ 0x22 ∷ 3 ∷ []

abbrev start_b : Bytes
start_b = 0 ∷ 2 ∷ 0x33 ∷ 0x44 ∷ 3 ∷ []

render_hides_seed_only_example :
    (◌≡◌ {A = ℕ} 5 5)
    × ((i : ℕ)
        → (t_start ≡ t_start → (i ≢ seed_at 2) × (i ≢ seed_at 2 + 1))
        → get_elem? start_a i ≡ get_elem? start_b i)
unfolding render
render_hides_seed_only_example =
    render_hides_seed_only 2 5 5 start_a start_b (omega arith) (omega arith)
      (omega arith, (omega arith, (omega arith, (omega arith, (omega arith, tt)))))
      (omega arith, (omega arith, (omega arith, (omega arith, (omega arith, tt))))) refl

-- The limits alone, under `--strict`, where the same records come in another order.
abbrev limits_only : Options
limits_only = record {
  seats = 2;
  proto = 2;
  python_server = none;
  scenario = ascii "limits" ∷ [];
  strict = true;
  list = false;
}

main_strict_example :
    Agree (λ i n. (one_order, other_order)) (chosen limits_only)
    × ((limits_only.proto == 2 && not (limits_only.seats == 2)) ≡ false)
unfolding main compare sort place text_le same_records scenarios_v2
main_strict_example = main_strict limits_only true (λ i n. (one_order, other_order)) refl refl

abbrev lax : Options
lax = record limits_only { scenario = ascii "framing" ∷ ascii "rooms" ∷ []; strict = false }

-- A C port that leaves nothing of the framing scenario.
abbrev left_by : Scenario → List Bytes × List Bytes
left_by framing = (one_order, [])
left_by limits = (one_order, one_order)
left_by other = (one_order, one_order)

abbrev mute : Runs
mute i n = left_by (kind_of n)

left_by_rest : (k : Scenario) → k ≢ framing → left_by k ≡ (one_order, one_order)
left_by_rest framing h = absurd (h refl)
left_by_rest limits h = refl
left_by_rest other h = refl

main_ignores_framing_example : main lax true mute ≡ main lax true (λ i n. (one_order, one_order))
main_ignores_framing_example =
    main_ignores_framing lax true mute (λ i n. (one_order, one_order)) refl refl
      (λ i n split. left_by_rest (kind_of n) split)
