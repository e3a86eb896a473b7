-- ===== src/Rom/Files.antt =====
-- tools/dump_rom.py: `main`, from the bytes of the ROM and the options to the lines of the dump.
use Prim.Native.Nat.{bit_or}
use mathlib.Core.Option
use fujinet_intv_basketball.Base.{
  ℕ, ◌+◌, ◌*◌, ◌-◌, ◌≤◌, ◌<◌, ◌≡◌, refl, sym, ◌∙◌, ap, Bool, true, false, ◌&&◌, Option, none, some,
  List, [], ◌∷◌, Bytes, length, take, leb, ltb, if◌then◌else◌, arith, All,
}
use fujinet_intv_basketball.Rom.Patches.{Patch}
use fujinet_intv_basketball.Rom.Dump.{Line, dump}
use fujinet_intv_basketball.Rom.Builds.{image, patched, image-dump}

-- `words`, big-endian; an odd byte count fails the assertion.
unfoldable pub words_of : Bytes → Option (List ℕ)
words_of [] = some []
words_of (b ∷ []) = none
words_of (high ∷ low ∷ rest) = Option.map (λ ws. bit_or (high * 256) low ∷ ws) (words_of rest)

abbrev pub kept : Option ℕ → ℕ → List ℕ → List ℕ
kept none base ws = ws
kept (some stop) base ws = take (stop - base) ws

-- `--stop` must be inside the image or at its end.
abbrev pub is_inside : Option ℕ → ℕ → List ℕ → Bool
is_inside none base ws = true
is_inside (some stop) base ws = leb base stop && leb stop (base + length ws)

-- No patch address is unused.
unfoldable pub all_used : List (ℕ × Patch) → ℕ → ℕ → Bool
all_used [] base end = true
all_used ((addr, e) ∷ rest) base end = leb base addr && ltb addr end && all_used rest base end

-- `none` is an assertion that fails.
unfoldable pub dump_words : List (ℕ × Patch) → ℕ → Option ℕ → List ℕ → Option (List Line)
unfolding all_used
dump_words patches base stop ws =
    let left = kept stop base ws in
    if is_inside stop base ws && all_used patches base (base + length left)
    then some (dump patches base left)
    else none

abbrev pub on_words : (List ℕ → Option (List Line)) → Option (List ℕ) → Option (List Line)
on_words continue none = none
on_words continue (some ws) = continue ws

unfoldable pub dump_file : List (ℕ × Patch) → ℕ → Option ℕ → Bytes → Option (List Line)
unfolding words_of dump_words
dump_file patches base stop bytes = on_words (dump_words patches base stop) (words_of bytes)

abbrev pub IsUsed : ℕ → ℕ → List (ℕ × Patch) → Type 0
IsUsed base end patches = All (λ (e : ℕ × Patch). (base ≤ e.0) × (e.0 < end)) patches

all_used-IsUsed :
    (patches : List (ℕ × Patch)) (base end : ℕ)
    → all_used patches base end ≡ true
    → IsUsed base end patches
unfolding all_used
all_used-IsUsed [] base end h = tt
all_used-IsUsed ((addr, e) ∷ rest) base end h =
    ((ground arith, ground arith), all_used-IsUsed rest base end (ground arith))

written_only :
    (b : Bool) (d lines : List Line)
    → (if b then some d else none) ≡ some lines
    → (b ≡ true) × (d ≡ lines)
written_only true d lines h = (refl, cc)
written_only false d lines h = cc

module _ (value : Patch → ℕ) where
  -- What a dump of `ws` says of the lines that it wrote.
  abbrev pub IsDumpOf : List (ℕ × Patch) → ℕ → List ℕ → List Line → Type 0
  IsDumpOf patches base ws lines =
      (image value lines ≡ patched value patches base ws) × IsUsed base (base + length ws) patches

  dump_words-IsDumpOf :
      (patches : List (ℕ × Patch)) (base : ℕ) (stop : Option ℕ) (ws : List ℕ) (lines : List Line)
      → dump_words patches base stop ws ≡ some lines
      → IsDumpOf patches base (kept stop base ws) lines
  unfolding dump_words
  dump_words-IsDumpOf patches base stop ws lines h =
      let left = kept stop base ws in
      let used = all_used patches base (base + length left) in
      let (good, e) =
        written_only (is_inside stop base ws && used) (dump patches base left) lines h in
      (
        ap (image value) (sym e) ∙ image-dump value patches base left,
        all_used-IsUsed patches base (base + length left) (ground arith),
      )

  -- A dump that is written, for whatever values the assembler gives the patch expressions: the ROM
  -- has an even number of bytes, the assembled dump is its words up to `--stop` with exactly the
  -- patched words replaced, in place, and every patch address is one of those words'.
  pub dump_file-IsDumpOf :
      (patches : List (ℕ × Patch)) (base : ℕ) (stop : Option ℕ) (bytes : Bytes) (lines : List Line)
      → dump_file patches base stop bytes ≡ some lines
      → (ws : List ℕ) × (words_of bytes ≡ some ws) × IsDumpOf patches base (kept stop base ws) lines
  unfolding dump_file
  dump_file-IsDumpOf patches base stop bytes lines h = on_words_only (words_of bytes) refl h
    where
      on_words_only :
          (o : Option (List ℕ))
          → words_of bytes ≡ o
          → on_words (dump_words patches base stop) o ≡ some lines
          → (ws : List ℕ) × (words_of bytes ≡ some ws)
            × IsDumpOf patches base (kept stop base ws) lines
      on_words_only none e k = cc
      on_words_only (some ws) e k = (ws, e, dump_words-IsDumpOf patches base stop ws lines k)
