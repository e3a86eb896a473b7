-- ===== src/Rom/Tests.antt =====
-- The patched dump and the decoder on concrete words.
use fujinet_intv_basketball.Rom.Files.{words_of, kept, dump_file, IsDumpOf, dump_file-IsDumpOf}
use fujinet_intv_basketball.Base.{
  ℕ, get_elem?, none, ◌+◌, ◌-◌, ◌*◌, ◌/◌, ◌%◌, ◌≡◌, refl, some, List, [], ◌∷◌, Bytes,
}
use fujinet_intv_basketball.Rom.Patches.{
  Symbol, new_timer_tbl, net_start, nb_rand1, nb_rand2, shadow_ctrl, nb_slot5, nb_slot2, nb_slot3,
  nb_sfx_skip, Patch, low_byte, high_byte, jsr_page, jsr_rest, whole, back_from, patches,
}
use fujinet_intv_basketball.Rom.Dump.{Line, row, patch, dump, dump_rows, check_words}
use fujinet_intv_basketball.Rom.Builds.{patched}
use fujinet_intv_basketball.Rom.{words}
use fujinet_intv_basketball.Rom.Checked.{check_files, check_files_sound}

-- Some layout of the symbols.
abbrev address : Symbol → ℕ
address new_timer_tbl = 0x6000
address net_start = 0x6020
address nb_rand1 = 0x6100
address nb_rand2 = 0x6120
address shadow_ctrl = 0x8120
address nb_slot5 = 0x6014
address nb_slot2 = 0x6008
address nb_slot3 = 0x600C
address nb_sfx_skip = 0x6200

abbrev value : Patch → ℕ
value (low_byte s) = address s % 256
value (high_byte s) = address s / 256
value (jsr_page s) = address s / 1024 * 4 + 256
value (jsr_rest s) = address s % 1024
value (whole s) = address s
value (back_from pc s) = (pc + 65536 - address s) % 65536

-- The words from $5313 on, with the first random number call, and the same words built.
abbrev original : List ℕ
original = 0x0004 ∷ 0x0114 ∷ 0x027D ∷ 0x02B8 ∷ []

abbrev built : List ℕ
built = 0x0004 ∷ 0x0160 ∷ 0x0100 ∷ 0x02B8 ∷ []

-- Three words, of which `--stop` keeps two; the second is patched.
abbrev one_patch : List (ℕ × Patch)
one_patch = (0x5314, jsr_page nb_rand1) ∷ []

abbrev three_words : Bytes
three_words = 0x00 ∷ 0x04 ∷ 0x01 ∷ 0x14 ∷ 0x02 ∷ 0x7D ∷ []

abbrev two_lines : List Line
two_lines = row (0x0004 ∷ []) 0x5313 ∷ patch (jsr_page nb_rand1) 0x5314 0x0114 ∷ []

dump_file-IsDumpOf_example :
    (ws : List ℕ) × (words_of three_words ≡ some ws)
    × IsDumpOf value one_patch 0x5313 (kept (some 0x5315) 0x5313 ws) two_lines
unfolding dump_file dump dump_rows
dump_file-IsDumpOf_example =
    dump_file-IsDumpOf value one_patch 0x5313 (some 0x5315) three_words two_lines refl

check_files_sound_example :
    (get_elem? (words (0x12 ∷ 0x34 ∷ [])) 0 ≡ some 0x1234)
    × (get_elem? (words (0x12 ∷ 0x34 ∷ 0x56 ∷ [])) 0 ≡ some 0x1234)
unfolding check_files check_words words
check_files_sound_example =
    check_files_sound patches none (0x12 ∷ 0x34 ∷ []) (0x12 ∷ 0x34 ∷ 0x56 ∷ []) 0 0x1234 refl refl
      refl refl

-- Built is what the assembler makes of the dump.
patched-built : patched value patches 0x5313 original ≡ built
unfolding patched
patched-built = refl
