-- ===== src/Rom/Recon.antt =====
-- tools/recon.py: the decoders of class `Rom`, and the lists that `report` prints.
use Prim.Native.Nat.{bit_or}
use fujinet_intv_basketball.Base.{
  ℕ, zero, suc, ◌+◌, ◌-◌, ◌*◌, ◌/◌, ◌%◌, Bool, true, false, not, ◌&&◌, Option, none, some, List, [],
  ◌∷◌, ◌++◌, map, keep, length, get_elem?, leb, ltb, ◌==◌, if◌then◌else◌,
}

pub record Rom : Type 0 where
  pub base : ℕ
  pub w : List ℕ

-- `has`
abbrev pub has : ℕ → Rom → Bool
has addr rom = leb rom.base addr && ltb addr (rom.base + length rom.w)

-- `at`; an index below zero counts from the end, and `none` is an `IndexError`.
unfoldable pub word_at : ℕ → Rom → Option ℕ
word_at addr rom =
    if leb rom.base addr
    then get_elem? rom.w (addr - rom.base)
    else (if leb (rom.base - addr) (length rom.w)
        then get_elem? rom.w (length rom.w - (rom.base - addr))
        else none)

abbrev pub join_words : Option ℕ → Option ℕ → Option ℕ
join_words none hi = none
join_words (some lo) none = none
join_words (some lo) (some hi) = some (bit_or lo (hi * 256))

-- `ptr`
unfoldable pub ptr : ℕ → Rom → Option ℕ
unfolding word_at
ptr addr rom = join_words (word_at addr rom) (word_at (addr + 1) rom)

-- A JSR: the site, the register of the return address, the target.
pub record Jsr : Type 0 where
  pub site : ℕ
  pub reg : ℕ
  pub target : ℕ

-- One turn of the loop of `jsrs`, on three words in a row. A word has 16 bits, so `w & 0xFC00` is
-- zero exactly if the word is below 0x400.
unfoldable pub decode_jsr : ℕ → ℕ → ℕ → ℕ → Option Jsr
decode_jsr site w0 w1 w2 =
    if w0 == 0x0004 && ltb w1 0x400 && ltb w2 0x400
    then some
        (record { site = site; reg = 4 + w1 / 256 % 4; target = w1 % 256 / 4 * 1024 + w2 % 1024 })
    else none

abbrev pub head_jsr : ℕ → ℕ → List ℕ → Option Jsr
head_jsr site w0 [] = none
head_jsr site w0 (w1 ∷ []) = none
head_jsr site w0 (w1 ∷ w2 ∷ ws) = decode_jsr site w0 w1 w2

abbrev pub prepend {ℓ} : {A : Type ℓ} → Option A → List A → List A
prepend none xs = xs
prepend (some x) xs = x ∷ xs

unfoldable pub jsrs_from : ℕ → List ℕ → List Jsr
unfolding decode_jsr
jsrs_from site [] = []
jsrs_from site (w0 ∷ ws) = prepend (head_jsr site w0 ws) (jsrs_from (site + 1) ws)

-- `jsrs`
unfoldable pub jsrs : Rom → List Jsr
unfolding jsrs_from
jsrs rom = jsrs_from rom.base rom.w

-- A memory operand: the address of its word, the opcode's number in `OPS`, whether it is immediate,
-- the register and the word.
pub record Ref : Type 0 where
  pub site : ℕ
  pub op : ℕ
  pub immediate : Bool
  pub reg : ℕ
  pub operand : ℕ

unfoldable pub decode_ref : ℕ → ℕ → ℕ → Option Ref
decode_ref site v operand =
    let found : Bool → Option Ref = λ immediate. some (record {
      site = site + 1;
      op = v / 64 % 8;
      immediate = immediate;
      reg = v % 8;
      operand = operand;
    }) in
    if leb 0x0240 v && leb v 0x03FF
    then (if v / 8 % 8 == 0 then found false else (if v / 8 % 8 == 7 then found true else none))
    else none

abbrev pub head_ref : ℕ → ℕ → List ℕ → Option Ref
head_ref site v [] = none
head_ref site v (operand ∷ ws) = decode_ref site v operand

unfoldable pub refs_from : ℕ → List ℕ → List Ref
unfolding decode_ref
refs_from site [] = []
refs_from site (v ∷ ws) = prepend (head_ref site v ws) (refs_from (site + 1) ws)

-- `refs`
unfoldable pub refs : Rom → List Ref
unfolding refs_from
refs rom = refs_from rom.base rom.w

-- An entry of the timer table: the routine, the interval, and whether it starts stopped.
pub record Timer : Type 0 where
  pub routine : ℕ
  pub interval : ℕ
  pub stopped : Bool

abbrev pub on_timer : Option ℕ → Option ℕ → List Timer → List Timer
on_timer none interval rest = []
on_timer (some routine) none rest = []
on_timer (some routine) (some interval) rest =
    if routine == 0
    then []
    else record {
      routine = routine;
      interval = interval % 0x8000;
      stopped = interval / 0x8000 % 2 == 1;
    }
      ∷ rest

-- The walk of `report` from an address in the image; an entry is four words, so the image's length
-- is fuel enough.
unfoldable pub timers : ℕ → ℕ → Rom → List Timer
unfolding ptr
timers zero a rom = []
timers (suc n) a rom =
    if has (a + 3) rom then on_timer (ptr a rom) (ptr (a + 2) rom) (timers n (a + 4) rom) else []

-- The sites that call one EXEC routine below the image.
unfoldable pub calls_of : ℕ → Rom → List ℕ
unfolding jsrs
calls_of target rom =
    map (λ (j : Jsr). j.site)
      (keep (λ (j : Jsr). ltb j.target rom.base && j.target == target) (jsrs rom))

-- The sites that call the random number generator, and those that start or stop a timer.
unfoldable pub rng_sites : Rom → List ℕ
unfolding calls_of
rng_sites rom = calls_of 0x167D rom ++ calls_of 0x169E rom

unfoldable pub timer_sites : Rom → List ℕ
unfolding calls_of
timer_sites rom =
    calls_of 0x181E rom ++ calls_of 0x1831 rom ++ calls_of 0x1838 rom ++ calls_of 0x1844 rom

-- The operands that name one RAM cell.
unfoldable pub cell_refs : ℕ → Rom → List Ref
unfolding refs
cell_refs cell rom = keep (λ (r : Ref). r.operand == cell) (refs rom)

-- Writes to the STIC and to GRAM.
unfoldable pub stic_writes : Rom → List Ref
unfolding refs
stic_writes rom =
    keep (λ (r : Ref). r.op == 1 && not r.immediate && leb r.operand 0x003F) (refs rom)

unfoldable pub gram_writes : Rom → List Ref
unfolding refs
gram_writes rom =
    keep (λ (r : Ref). r.op == 1 && not r.immediate && leb 0x3800 r.operand && leb r.operand 0x39FF)
      (refs rom)
