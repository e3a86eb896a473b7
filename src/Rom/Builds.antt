-- ===== src/Rom/Builds.antt =====
-- A build assembled from the dump is the original with the patched words, and check_patch accepts it
-- and refuses any other difference.
use fujinet_intv_basketball.Base.{
  ℕ, zero, suc, ◌+◌, ◌-◌, ◌≡◌, refl, sym, ap, ◌∙◌, if_ind, ==_iff, Option, none, some, List, [],
  ◌∷◌, ◌++◌, append_assoc, arith, length, get_elem?, ◌==◌, if◌then◌else◌, lookup,
}
use fujinet_intv_basketball.Rom.Patches.{Patch}
use fujinet_intv_basketball.Rom.Dump.{
  Line, row, patch, close_row, dump_rows, dump, Report, add_word, check_words,
}

add_word-rest :
    (o : Option Patch) (addr a b : ℕ) (rest : Report)
    → (add_word o addr a b rest).bad ≡ []
    → rest.bad ≡ []
unfolding add_word
add_word-rest (some e) addr a b rest =
    if_ind (λ (r : Report). r.bad ≡ [] → rest.bad ≡ []) (a == b) (λ _ h. h) (λ _ h. h)
add_word-rest none addr a b rest =
    if_ind (λ (r : Report). r.bad ≡ [] → rest.bad ≡ []) (a == b) (λ _ h. h) (λ _ h. absurd (cc))

add_word-same :
    (o : Option Patch) (addr a b : ℕ) (rest : Report)
    → o ≡ none
    → (add_word o addr a b rest).bad ≡ []
    → a ≡ b
unfolding add_word
add_word-same (some e) addr a b rest l = cc
add_word-same none addr a b rest l =
    if_ind (λ (r : Report). r.bad ≡ [] → a ≡ b) (a == b) (λ q _. (==_iff a b).0 q)
      (λ _ h. absurd (cc))

module _ (value : Patch → ℕ) where
  -- The words that the assembler makes of the dump.
  unfoldable pub image : List Line → List ℕ
  image [] = []
  image (row ws addr ∷ ls) = ws ++ image ls
  image (patch e addr orig ∷ ls) = value e ∷ image ls

  -- The original with the patched words, one at a time.
  unfoldable pub patched : List (ℕ × Patch) → ℕ → List ℕ → List ℕ
  patched patches addr [] = []
  patched patches addr (w ∷ ws) =
      elim (lookup addr patches) [ some e ↦ value e | none ↦ w ] ∷ patched patches (addr + 1) ws

  image-close_row :
      (pending : List ℕ) (addr : ℕ) (ls : List Line)
      → image (close_row pending addr ls) ≡ pending ++ image ls
  unfolding image
  image-close_row [] addr ls = refl
  image-close_row (w ∷ ws) addr ls = refl

  image-dump_rows :
      (patches : List (ℕ × Patch)) (addr : ℕ) (pending ws : List ℕ)
      → image (dump_rows patches addr pending ws) ≡ pending ++ patched patches addr ws
  unfolding image patched dump_rows
  image-dump_rows patches addr pending [] = image-close_row pending addr []
  image-dump_rows patches addr pending (w ∷ ws) =
      elim (lookup addr patches)
        as (λ (o : Option Patch).
          image (elim o [
            | some e ↦ close_row pending addr (patch e addr w ∷ dump_rows patches (addr + 1) [] ws)
            | none ↦
                let grown = pending ++ w ∷ [] in
                let flushed = row grown (addr - 7) ∷ dump_rows patches (addr + 1) [] ws in
                if length grown == 8 then flushed else dump_rows patches (addr + 1) grown ws
          ])
          ≡ pending ++ elim o [ some e ↦ value e | none ↦ w ] ∷ patched patches (addr + 1) ws) [
            | some e ↦
                image-close_row pending addr (patch e addr w ∷ dump_rows patches (addr + 1) [] ws)
                ∙ ap (λ r. pending ++ value e ∷ r) (image-dump_rows patches (addr + 1) [] ws)
            | none ↦
                if_ind (λ (ls : List Line). image ls ≡ pending ++ w ∷ patched patches (addr + 1) ws)
                  (length (pending ++ w ∷ []) == 8)
                  (λ _.
                    ap (λ r. (pending ++ w ∷ []) ++ r) (image-dump_rows patches (addr + 1) [] ws)
                    ∙ append_assoc pending (w ∷ []) (patched patches (addr + 1) ws))
                  (λ _.
                    image-dump_rows patches (addr + 1) (pending ++ w ∷ []) ws
                    ∙ append_assoc pending (w ∷ []) (patched patches (addr + 1) ws))
          ]

  -- The assembled dump is the original with exactly the patched words replaced, in place.
  pub image-dump :
      (patches : List (ℕ × Patch)) (base : ℕ) (ws : List ℕ)
      → image (dump patches base ws) ≡ patched patches base ws
  unfolding dump
  image-dump patches base ws = image-dump_rows patches base [] ws

abbrev get_or_zero : Option ℕ → ℕ
get_or_zero none = 0
get_or_zero (some n) = n

-- When the check reports no undeclared difference, an undeclared word that both images have is the
-- same in both.
pub check_words_sound :
    (patches : List (ℕ × Patch)) (base i a b : ℕ) (orig hooked : List ℕ)
    → (check_words patches base orig hooked).bad ≡ []
    → get_elem? orig i ≡ some a
    → get_elem? hooked i ≡ some b
    → lookup (base + i) patches ≡ none
    → a ≡ b
unfolding check_words
check_words_sound patches base i a b [] hooked h ga gb l = cc
check_words_sound patches base i a b (x ∷ xs) [] h ga gb l = cc
check_words_sound patches base zero a b (x ∷ xs) (y ∷ ys) h ga gb l =
    let at_base : lookup base patches ≡ none =
      ap (λ (n : ℕ). lookup n patches) {x = base} {y = base + 0} (omega arith) ∙ l in
    ap (get_or_zero) (sym ga)
    ∙ add_word-same (lookup base patches) base x y (check_words patches (base + 1) xs ys) at_base h
    ∙ ap (get_or_zero) gb
check_words_sound patches base (suc i) a b (x ∷ xs) (y ∷ ys) h ga gb l =
    let shifted : lookup (base + 1 + i) patches ≡ none =
      ap (λ (n : ℕ). lookup n patches) {x = base + 1 + i} {y = base + suc i} (omega arith) ∙ l in
    check_words_sound patches (base + 1) i a b xs ys
      (add_word-rest (lookup base patches) base x y (check_words patches (base + 1) xs ys) h) ga gb
      shifted
