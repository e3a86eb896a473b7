-- ===== src/Rom/Patches.antt =====
-- tools/patches.py: the words of the cartridge that the port changes, in the shapes that their
-- assembler expressions have. A symbol's address comes from the assembly sources.
use fujinet_intv_basketball.Base.{ℕ, ◌+◌, ◌-◌, ◌*◌, ◌/◌, ◌%◌, ◌<◌, ◌≡◌, List, [], ◌∷◌}

pub data Symbol : Type 0 where
  new_timer_tbl : Symbol
  net_start : Symbol
  nb_rand1 : Symbol
  nb_rand2 : Symbol
  shadow_ctrl : Symbol
  nb_slot5 : Symbol
  nb_slot2 : Symbol
  nb_slot3 : Symbol
  nb_sfx_skip : Symbol

-- `S AND $FF`, `S SHR 8`, `((S SHR 10) SHL 2) OR $0100`, `S AND $3FF`, `S` and `($pc - S) AND $FFFF`.
pub data Patch : Type 0 where
  low_byte : Symbol → Patch
  high_byte : Symbol → Patch
  jsr_page : Symbol → Patch
  jsr_rest : Symbol → Patch
  whole : Symbol → Patch
  back_from : ℕ → Symbol → Patch

-- The map, by address.
abbrev pub patches : List (ℕ × Patch)
patches =
    (0x5002, low_byte new_timer_tbl)
    ∷ (0x5003, high_byte new_timer_tbl)
    ∷ (0x5004, low_byte net_start)
    ∷ (0x5005, high_byte net_start)
    ∷ (0x5314, jsr_page nb_rand1)
    ∷ (0x5315, jsr_rest nb_rand1)
    ∷ (0x56D4, jsr_page nb_rand1)
    ∷ (0x56D5, jsr_rest nb_rand1)
    ∷ (0x5A27, jsr_page nb_rand1)
    ∷ (0x5A28, jsr_rest nb_rand1)
    ∷ (0x52E0, jsr_page nb_rand2)
    ∷ (0x52E1, jsr_rest nb_rand2)
    ∷ (0x5B9A, jsr_page nb_rand2)
    ∷ (0x5B9B, jsr_rest nb_rand2)
    ∷ (0x5BA2, jsr_page nb_rand2)
    ∷ (0x5BA3, jsr_rest nb_rand2)
    ∷ (0x5BD6, jsr_page nb_rand2)
    ∷ (0x5BD7, jsr_rest nb_rand2)
    ∷ (0x5BFD, jsr_page nb_rand2)
    ∷ (0x5BFE, jsr_rest nb_rand2)
    ∷ (0x544D, whole shadow_ctrl)
    ∷ (0x507D, back_from 0x507C nb_slot5)
    ∷ (0x5083, back_from 0x5082 nb_slot5)
    ∷ (0x508A, back_from 0x5089 nb_slot2)
    ∷ (0x5091, back_from 0x5090 nb_slot3)
    ∷ (0x5098, back_from 0x5097 nb_slot2)
    ∷ (0x509E, back_from 0x509D nb_slot3)
    ∷ (0x5861, jsr_page nb_sfx_skip)
    ∷ (0x5862, jsr_rest nb_sfx_skip)
    ∷ (0x5258, jsr_page nb_sfx_skip)
    ∷ (0x5259, jsr_rest nb_sfx_skip)
    ∷ (0x5265, jsr_page nb_sfx_skip)
    ∷ (0x5266, jsr_rest nb_sfx_skip)
    ∷ (0x58E7, jsr_page nb_sfx_skip)
    ∷ (0x58E8, jsr_rest nb_sfx_skip)
    ∷ (0x5BAA, jsr_page nb_sfx_skip)
    ∷ (0x5BAB, jsr_rest nb_sfx_skip)
    ∷ (0x5C4C, jsr_page nb_sfx_skip)
    ∷ (0x5C4D, jsr_rest nb_sfx_skip)
    ∷ []

-- What the assembler documents of these operators, for symbols that are 16-bit addresses; where OR
-- stands, its operands have no bit in common.
pub record IsAssembler (address : Symbol → ℕ) (value : Patch → ℕ) : Type 0 where
  pub is_word : (s : Symbol) → address s < 65536
  pub value_low : (s : Symbol) → value (low_byte s) ≡ address s % 256
  pub value_high : (s : Symbol) → value (high_byte s) ≡ address s / 256
  pub value_page : (s : Symbol) → value (jsr_page s) ≡ address s / 1024 * 4 + 256
  pub value_rest : (s : Symbol) → value (jsr_rest s) ≡ address s % 1024
  pub value_whole : (s : Symbol) → value (whole s) ≡ address s
  pub value_back : (pc : ℕ) (s : Symbol) → value (back_from pc s) ≡ (pc + 65536 - address s) % 65536
