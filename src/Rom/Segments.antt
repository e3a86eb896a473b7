-- ===== src/Rom/Segments.antt =====
-- tools/check_7000.py: no segment of a build's mapping may cover the word at $7000.
use fujinet_intv_basketball.Base.{
  ℕ, ◌+◌, ◌-◌, ◌≤◌, ◌≡◌, ◌↔◌, Bool, true, false, not, ◌&&◌, ◌||◌, Option, none, some, List, [], ◌∷◌,
  ◌++◌, map, arith, is_empty, leb, ◌==◌, if◌then◌else◌, bytes_eq, Bytes, is_blank,
}

-- `line.split(";", 1)[0]`
unfoldable pub before_comment : Bytes → Bytes
before_comment [] = []
before_comment (c ∷ cs) = if c == b';' then [] else c ∷ before_comment cs

abbrev strip_end_cons : ℕ → Bytes → Bytes
strip_end_cons c [] = if is_blank c then [] else c ∷ []
strip_end_cons c (d ∷ r) = c ∷ d ∷ r

unfoldable pub strip_end : Bytes → Bytes
strip_end [] = []
strip_end (c ∷ cs) = strip_end_cons c (strip_end cs)

-- `strip()`
unfoldable pub strip : Bytes → Bytes
unfolding strip_end
strip [] = []
strip (c ∷ cs) = if is_blank c then strip cs else strip_end (c ∷ cs)

-- `lower()` of ASCII text
unfoldable pub lower : Bytes → Bytes
lower = map (λ c. if leb b'A' c && leb c b'Z' then c + 32 else c)

abbrev pub starts_section : Bytes → Bool
starts_section [] = false
starts_section (c ∷ cs) = c == b'['

abbrev pub mapping_header : Bytes
mapping_header = b'[' ∷ b'm' ∷ b'a' ∷ b'p' ∷ b'p' ∷ b'i' ∷ b'n' ∷ b'g' ∷ b']' ∷ []

-- A line of the mapping: the source addresses and the first destination.
pub record Segment : Type 0 where
  pub src_lo : ℕ
  pub src_hi : ℕ
  pub dest_lo : ℕ

-- `dest_lo <= 0x7000 <= dest_hi`, with `dest_hi = dest_lo + (src_hi - src_lo + 1) - 1` brought to the
-- side where nothing is subtracted.
unfoldable pub covers : Segment → Bool
covers s = leb s.dest_lo 0x7000 && leb (0x7000 + s.src_lo) (s.dest_lo + s.src_hi)

-- What a line of the mapping section adds.
unfoldable pub report_line : Option Segment → List Segment → List Segment
unfolding covers
report_line none rest = rest
report_line (some s) rest = if covers s then s ∷ rest else rest

-- `matches` is what `MAP_RE` finds in a line.
module _ (matches : Bytes → Option Segment) where
  unfoldable pub check_lines : Bool → List Bytes → List Segment
  unfolding report_line before_comment strip lower
  check_lines in_mapping [] = []
  check_lines in_mapping (raw ∷ lines) =
      let line = before_comment raw in
      let stripped = strip line in
      if starts_section stripped
      then check_lines (bytes_eq (lower stripped) mapping_header) lines
      else (if not in_mapping || is_empty stripped
          then check_lines in_mapping lines
          else report_line (matches line) (check_lines in_mapping lines))

  -- `main`, on the lines of each file: it exits with 1 exactly if a segment is reported.
  unfoldable pub check_configs : List (List Bytes) → List Segment
  unfolding check_lines
  check_configs [] = []
  check_configs (lines ∷ files) = check_lines false lines ++ check_configs files

-- A segment is reported exactly if one of its source addresses is mapped to $7000.
pub covers_iff :
    (s : Segment)
    → (covers s ≡ true)
      ↔ ((a : ℕ) × (s.src_lo ≤ a) × (a ≤ s.src_hi) × (s.dest_lo + (a - s.src_lo) ≡ 0x7000))
unfolding covers
covers_iff s = (
  λ h. (s.src_lo + (0x7000 - s.dest_lo), ground arith, ground arith, ground arith),
  λ (a, lo, hi, e). ground arith,
)
