-- ===== src/Rom/Report.antt =====
-- tools/recon.py: `report`, as the values that it prints, and the tables of names that it prints them
-- with. Rates and periods are kept as fractions.
use fujinet_intv_basketball.Base.{
  ℕ, ◌+◌, ◌*◌, ◌||◌, Option, none, some, List, [], ◌∷◌, ◌++◌, Bytes, map, length, take, ltb, leb,
  ◌==◌, if◌then◌else◌, lookup, insert, ascii, is_empty,
}
use fujinet_intv_basketball.Rom.Recon.{
  Rom, has, word_at, ptr, Jsr, jsrs, Ref, Timer, timers, cell_refs, stic_writes, gram_writes,
}

-- `EXEC_NAMES`
abbrev pub exec_names : List (ℕ × Bytes)
exec_names =
    (0x1082, ascii "post-title mainline")
    ∷ (0x108F, ascii "MAIN LOOP")
    ∷ (0x1126, ascii "X_DEF_ISR")
    ∷ (0x11FA, ascii "boot/title hand-off")
    ∷ (0x14F1, ascii "controller scan entry")
    ∷ (0x1523, ascii "controller scan")
    ∷ (0x15F8, ascii "handler-table dispatch (jumps into game code)")
    ∷ (0x167D, ascii "X_RAND1  ** RNG **")
    ∷ (0x169E, ascii "X_RAND2  ** RNG **")
    ∷ (0x17D5, ascii "timer-table dispatch pass")
    ∷ (0x1838, ascii "X_TIMER_STOP")
    ∷ (0x1844, ascii "X_TIMER_START")
    ∷ (0x181E, ascii "set timer countdown := interval  ** relocation hazard **")
    ∷ (0x1831, ascii "set timer countdown := R0 (music)")
    ∷ (0x1A71, ascii "music note timer")
    ∷ (0x1AAD, ascii "sound update")
    ∷ (0x1CCE, ascii "sound engine RNG caller (churns $035E mid-tick)")
    ∷ (0x1F2F, ascii "X_DO_GRAM_INIT")
    ∷ []

abbrev pub rng_calls : List ℕ
rng_calls = 0x167D ∷ 0x169E ∷ []

abbrev pub timer_calls : List ℕ
timer_calls = 0x181E ∷ 0x1831 ∷ 0x1838 ∷ 0x1844 ∷ []

-- `CELLS`
abbrev pub cells : List (ℕ × Bytes)
cells =
    (0x011F, ascii "decoded input, LEFT controller   ** shadow-patch site **")
    ∷ (0x0120, ascii "decoded input, RIGHT controller  ** shadow-patch site **")
    ∷ (0x0121, ascii "keypad/action state, left")
    ∷ (0x0122, ascii "keypad/action state, right")
    ∷ (0x0123, ascii "raw port, left")
    ∷ (0x0124, ascii "raw port, right")
    ∷ (0x035D, ascii "input handler-table pointer      ** phase machine **")
    ∷ (0x035E, ascii "EXEC LFSR state  ** must never be sim state **")
    ∷ (0x035F, ascii "sound frame counter")
    ∷ []

-- `exec_calls.setdefault(tgt, []).append(site)` for a call below the image
unfoldable pub add_call : ℕ → Jsr → List (ℕ × List ℕ) → List (ℕ × List ℕ)
add_call base j calls =
    if ltb j.target base
    then insert j.target
        ((elim (lookup j.target calls) [ none ↦ [] | some sites ↦ sites ]) ++ j.site ∷ []) calls
    else calls

unfoldable pub add_calls : ℕ → List Jsr → List (ℕ × List ℕ) → List (ℕ × List ℕ)
unfolding add_call
add_calls base [] calls = calls
add_calls base (j ∷ js) calls = add_calls base js (add_call base j calls)

-- `exec_calls`
unfoldable pub exec_calls : Rom → List (ℕ × List ℕ)
unfolding add_calls
exec_calls rom = add_calls rom.base (jsrs rom) []

-- `exec_calls.get(tgt, [])`
unfoldable pub sites_of : ℕ → List (ℕ × List ℕ) → List ℕ
sites_of target calls = elim (lookup target calls) [ none ↦ [] | some sites ↦ sites ]

-- A line for each site of each target in turn: the target, its name if it has one, and the site.
unfoldable pub site_lines : List ℕ → List (ℕ × List ℕ) → List (ℕ × ℕ)
unfolding sites_of
site_lines [] calls = []
site_lines (t ∷ ts) calls = map (λ (s : ℕ). (t, s)) (sites_of t calls) ++ site_lines ts calls

-- The stable sort by the number of sites, most first.
unfoldable pub insert_call : ℕ × List ℕ → List (ℕ × List ℕ) → List (ℕ × List ℕ)
insert_call e [] = e ∷ []
insert_call e (f ∷ calls) =
    if leb (length f.1) (length e.1) then e ∷ f ∷ calls else f ∷ insert_call e calls

unfoldable pub most_called : List (ℕ × List ℕ) → List (ℕ × List ℕ)
unfolding insert_call
most_called [] = []
most_called (e ∷ calls) = insert_call e (most_called calls)

-- The words of the header that `disp` lists, with their addresses; none is an `IndexError`.
unfoldable pub display_words : List ℕ → Rom → Option (List (ℕ × ℕ))
display_words [] rom = some []
display_words (off ∷ offs) rom = elim (word_at (rom.base + off) rom) [
  | none ↦ none
  | some v ↦ elim (display_words offs rom) [
    | none ↦ none
    | some rest ↦ some ((rom.base + off, v) ∷ rest)
  ]
]

-- The references to each cell that has any.
unfoldable pub cell_lines : List (ℕ × Bytes) → Rom → List (ℕ × List Ref)
cell_lines [] rom = []
cell_lines ((cell, what) ∷ more) rom =
    let rest = cell_lines more rom in
    if is_empty (cell_refs cell rom) then rest else (cell, cell_refs cell rom) ∷ rest

-- The tick period in milliseconds, `1000 * iv * PASS_FRAMES / FRAME_HZ`, as a fraction: for an entry
-- that runs.
unfoldable pub tick_period : Timer → Option (ℕ × ℕ)
tick_period t =
    if t.stopped || t.interval == 0 then none else some (1000 * t.interval * 3 * 100, 5992)

-- `timer_entries` is none where the table lies outside the image.
pub record Findings : Type 0 where
  pub words : ℕ
  pub first : ℕ
  pub timer_table : ℕ
  pub start_of_game : ℕ
  pub gram_init : ℕ
  pub display : List (ℕ × ℕ)
  pub timer_entries : Option (List Timer)
  pub rng_lines : List (ℕ × ℕ)
  pub timer_lines : List (ℕ × ℕ)
  pub cell_hits : List (ℕ × List Ref)
  pub stic_count : ℕ
  pub stic_first : List Ref
  pub gram_count : ℕ
  pub top : List (ℕ × ℕ)

unfoldable pub report_with : ℕ → ℕ → ℕ → List (ℕ × ℕ) → Rom → Findings
unfolding exec_calls site_lines most_called cell_lines
report_with tbl start gram display rom =
    let calls = exec_calls rom in
    record {
      words = length rom.w;
      first = rom.base;
      timer_table = tbl;
      start_of_game = start;
      gram_init = gram;
      display = display;
      timer_entries = if has tbl rom then some (timers (length rom.w) tbl rom) else none;
      rng_lines = site_lines rng_calls calls;
      timer_lines = site_lines timer_calls calls;
      cell_hits = cell_lines cells rom;
      stic_count = length (stic_writes rom);
      stic_first = take 8 (stic_writes rom);
      gram_count = length (gram_writes rom);
      top = map (λ (e : ℕ × List ℕ). (e.0, length e.1)) (take 8 (most_called calls));
    }

-- The offsets of `disp`.
abbrev pub display_offsets : List ℕ
display_offsets = 0x0D ∷ 0x0E ∷ 0x0F ∷ 0x10 ∷ 0x11 ∷ 0x12 ∷ 0x13 ∷ []

-- None is an `IndexError` on an image too short for a header.
unfoldable pub report_rom : Rom → Option Findings
unfolding ptr display_words report_with
report_rom rom = elim (ptr (rom.base + 2) rom) [
  | none ↦ none
  | some tbl ↦ elim (ptr (rom.base + 4) rom) [
    | none ↦ none
    | some start ↦ elim (ptr (rom.base + 8) rom) [
      | none ↦ none
      | some gram ↦ elim (display_words display_offsets rom) [
        | none ↦ none
        | some display ↦ some (report_with tbl start gram display rom)
      ]
    ]
  ]
]
