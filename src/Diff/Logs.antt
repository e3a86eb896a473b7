-- ===== src/Diff/Logs.antt =====
-- tools/server_diff.py: `normalize_log`, and `run`, which plays a scenario and hands its records on.
use mathlib.Core.Option
use fujinet_intv_basketball.Base.{
  ascii, ℕ, zero, suc, Bool, true, false, ◌&&◌, ◌||◌, Option, none, some, List, [], ◌∷◌, ◌++◌,
  Bytes, length, leb, ◌==◌, if◌then◌else◌,
}
use fujinet_intv_basketball.Diff.Harness.{Ctx, Act, settle, play, fresh}

abbrev is_digit : ℕ → Bool
is_digit c = leb b'0' c && leb c b'9'

abbrev is_capital_hex : ℕ → Bool
is_capital_hex c = is_digit c || leb b'A' c && leb c b'F'

-- What follows a literal, and what follows so many characters of a class.
unfoldable pub past_text : Bytes → Bytes → Option Bytes
past_text [] s = some s
past_text (c ∷ cs) [] = none
past_text (c ∷ cs) (d ∷ s) = if c == d then past_text cs s else none

unfoldable pub past_hex : ℕ → Bytes → Option Bytes
past_hex zero s = some s
past_hex (suc n) [] = none
past_hex (suc n) (c ∷ s) = if is_capital_hex c then past_hex n s else none

-- `\d*`, as far as it goes
unfoldable pub skip_digits : Bytes → Bytes
skip_digits [] = []
skip_digits (c ∷ s) = if is_digit c then skip_digits s else c ∷ s

-- `\d+`
unfoldable pub past_digits : Bytes → Option Bytes
unfolding skip_digits
past_digits [] = none
past_digits (c ∷ s) = if is_digit c then some (skip_digits s) else none

abbrev next : Option Bytes → (Bytes → Option Bytes) → Option Bytes
next none past = none
next (some s) past = past s

-- The three patterns: a match at the head, and what follows it.
unfoldable pub past_seed : Bytes → Option Bytes
unfolding past_text past_hex
past_seed s = next (next (past_text (ascii "(seed $") s) (past_hex 4)) (past_text (ascii ")"))

unfoldable pub past_port : Bytes → Option Bytes
unfolding past_text past_digits
past_port s = next (next (past_text (ascii "('127.0.0.1', ") s) past_digits) (past_text (ascii ")"))

unfoldable pub past_listening : Bytes → Option Bytes
unfolding past_text past_digits
past_listening s = next (past_text (ascii "listening on :") s) past_digits

-- `re.sub`: each match is replaced, from the left; the text's length is fuel enough.
unfoldable pub replace_all : ℕ → (Bytes → Option Bytes) → Bytes → Bytes → Bytes
replace_all zero past new s = s
replace_all (suc n) past new [] = []
replace_all (suc n) past new (c ∷ s) = elim (past (c ∷ s)) [
  | none ↦ c ∷ replace_all n past new s
  | some rest ↦ new ++ replace_all n past new rest
]

abbrev pub sub : (Bytes → Option Bytes) → Bytes → Bytes → Bytes
sub past new s = replace_all (length s) past new s

unfoldable pub normalize : Bytes → Bytes
unfolding replace_all past_seed past_port past_listening
normalize l =
    sub past_listening (ascii "listening on :PORT")
      (sub past_port (ascii "('127.0.0.1', PORT)") (sub past_seed (ascii "(seed $SEED)") l))

-- `C_ONLY_LINES`
unfoldable pub is_c_only : Bytes → Bool
unfolding past_text
is_c_only l = elim (past_text (ascii "log WARNING a protocol v1 console tried to connect") l) [
  | none ↦ false
  | some _ ↦ true
]

-- The lines that stay, and how many were filtered.
unfoldable pub normalize_log : List Bytes → List Bytes × ℕ
unfolding normalize is_c_only
normalize_log [] = ([], 0)
normalize_log (l ∷ ls) =
    let rest = normalize_log ls in
    if is_c_only l then (rest.0, suc rest.1) else (normalize l ∷ rest.0, rest.1)

-- The log is `x.loglines`; the replies have one more `sync`, the final one.
unfoldable pub run : ℕ → List Act → List (List (ℕ × Bytes)) → List Bytes → Option (List Bytes × ℕ)
unfolding play fresh normalize_log
run proto acts replies log =
    Option.map (λ (x : Ctx). normalize_log (x.transcript ++ log))
      (play (acts ++ settle (ascii "final") ∷ []) replies (fresh proto))
