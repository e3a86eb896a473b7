-- ===== src/Rom/Checked.antt =====
-- tools/check_patch.py: `words` and `main`, from the bytes of the two files to the verdict.
use fujinet_intv_basketball.Base.{
  ℕ, zero, suc, ◌+◌, ◌-◌, ◌*◌, ◌<◌, ◌≡◌, refl, true, Option, none, some, List, [], ◌∷◌, Bytes,
  arith, length, get_elem?, ltb, is_empty, if◌then◌else◌, lookup, Option-cases, subst, inl, inr,
}
use Prim.Native.Nat.{bit_or}
use fujinet_intv_basketball.Rom.{words}
use fujinet_intv_basketball.Rom.Patches.{Patch}
use fujinet_intv_basketball.Rom.Dump.{Report, check_words}
use fujinet_intv_basketball.Rom.Builds.{check_words_sound}

-- So many words of a file; none is an `IndexError`.
unfoldable pub words_upto : ℕ → Bytes → Option (List ℕ)
words_upto zero bytes = some []
words_upto (suc n) [] = none
words_upto (suc n) (hi ∷ []) = none
words_upto (suc n) (hi ∷ lo ∷ bytes) = elim (words_upto n bytes) [
  | none ↦ none
  | some ws ↦ some (bit_or (hi * 256) lo ∷ ws)
]

-- Those of the original that are compared: all, or the number given.
unfoldable pub words_compared : Option ℕ → Bytes → Option (List ℕ)
unfolding words_upto
words_compared none bytes = some (words bytes)
words_compared (some n) bytes = words_upto n bytes

-- `passed` has the numbers of declared and of changed sites.
pub data CheckResult : Type 0 where
  passed : ℕ → ℕ → CheckResult
  failed : List (ℕ × ℕ × ℕ) → List ℕ → CheckResult

unfoldable pub conclude : List (ℕ × Patch) → Report → CheckResult
conclude patches found =
    if is_empty found.bad
    then passed (length patches) (length patches - length found.unpatched)
    else failed found.bad found.unpatched

unfoldable pub check_files : List (ℕ × Patch) → Option ℕ → Bytes → Bytes → Option CheckResult
unfolding words_compared conclude
check_files patches compare orig_bytes hook_bytes = elim (words_compared compare orig_bytes) [
  | none ↦ none
  | some orig ↦ elim (words_upto (length orig) hook_bytes) [
    | none ↦ none
    | some hooked ↦ some (conclude patches (check_words patches 0x5000 orig hooked))
  ]
]

-- What is read is the beginning of the file's words.
words_upto-get :
    (n i : ℕ) (bytes : Bytes) {ws : List ℕ}
    → words_upto n bytes ≡ some ws
    → get_elem? ws i ≡ (if ltb i n then get_elem? (words bytes) i else none)
unfolding words_upto words
words_upto-get zero i bytes e = ground arith
words_upto-get (suc n) i [] e = cc
words_upto-get (suc n) i (hi ∷ []) e = cc
words_upto-get (suc n) i (hi ∷ lo ∷ bytes) {ws} e = elim (Option-cases (words_upto n bytes)) [
  | inl f ↦ absurd (ground arith)
  | inr (vs, f) ↦
      let made : bit_or (hi * 256) lo ∷ vs ≡ ws = ground arith in
      subst
        (λ (us : List ℕ).
          get_elem? us i
          ≡ (if ltb i (suc n) then get_elem? (bit_or (hi * 256) lo ∷ words bytes) i else none))
        made (at_index i vs (λ k. words_upto-get n k bytes f))
]
  where
    at_index :
        (i : ℕ) (vs : List ℕ)
        → ((k : ℕ) → get_elem? vs k ≡ (if ltb k n then get_elem? (words bytes) k else none))
        → get_elem? (bit_or (hi * 256) lo ∷ vs) i
          ≡ (if ltb i (suc n) then get_elem? (bit_or (hi * 256) lo ∷ words bytes) i else none)
    at_index zero vs ih = ground arith
    at_index (suc i) vs ih = ground (arith, ih i)

words_compared-get :
    (compare : Option ℕ) (i a : ℕ) (bytes : Bytes) {ws : List ℕ}
    → words_compared compare bytes ≡ some ws
    → get_elem? ws i ≡ some a
    → get_elem? (words bytes) i ≡ some a
unfolding words_compared
words_compared-get none i a bytes e g = ground arith
words_compared-get (some n) i a bytes e g = ground (arith, words_upto-get n i bytes e)

upto_some :
    (n i : ℕ) (bytes : Bytes) {ws : List ℕ}
    → words_upto n bytes ≡ some ws
    → i < n
    → (b : ℕ) × (get_elem? ws i ≡ some b)
unfolding words_upto
upto_some zero i bytes e l = absurd (omega arith)
upto_some (suc n) i [] e l = absurd (ground arith)
upto_some (suc n) i (hi ∷ []) e l = absurd (ground arith)
upto_some (suc n) i (hi ∷ lo ∷ bytes) {ws} e l = elim (Option-cases (words_upto n bytes)) [
  | inl f ↦ absurd (ground arith)
  | inr (vs, f) ↦
      let made : bit_or (hi * 256) lo ∷ vs ≡ ws = ground arith in
      subst (λ (us : List ℕ). (b : ℕ) × (get_elem? us i ≡ some b)) made
        (at_place i vs l (λ k below. upto_some n k bytes f below))
]
  where
    at_place :
        (i : ℕ) (vs : List ℕ)
        → i < suc n
        → ((k : ℕ) → k < n → (b : ℕ) × (get_elem? vs k ≡ some b))
        → (b : ℕ) × (get_elem? (bit_or (hi * 256) lo ∷ vs) i ≡ some b)
    at_place zero vs l ih = (bit_or (hi * 256) lo, refl)
    at_place (suc i) vs l ih = ih i (omega arith)

get_elem?-lt : (xs : List ℕ) (i : ℕ) {a : ℕ} → get_elem? xs i ≡ some a → i < length xs
get_elem?-lt [] i g = absurd (ground arith)
get_elem?-lt (x ∷ xs) zero g = omega arith
get_elem?-lt (x ∷ xs) (suc i) g = omega (arith, get_elem?-lt xs i g)

empty_bad : (xs : List (ℕ × ℕ × ℕ)) → is_empty xs ≡ true → xs ≡ []
empty_bad [] h = refl
empty_bad (x ∷ xs) h = cc

module _ (patches : List (ℕ × Patch)) (compare : Option ℕ) (orig_bytes hook_bytes : Bytes)
    {declared changed : ℕ} where
  clean : (found : Report) → conclude patches found ≡ passed declared changed → found.bad ≡ []
  unfolding conclude
  clean found e = ground (arith, empty_bad found.bad)

  -- A run of check_patch that passes has found the two files equal in every word that is compared and
  -- not declared: such a word of the original is there in the hooked file, and is the same.
  pub check_files_sound :
      (i a : ℕ) {orig : List ℕ}
      → check_files patches compare orig_bytes hook_bytes ≡ some (passed declared changed)
      → words_compared compare orig_bytes ≡ some orig
      → get_elem? orig i ≡ some a
      → lookup (0x5000 + i) patches ≡ none
      → (get_elem? (words orig_bytes) i ≡ some a) × (get_elem? (words hook_bytes) i ≡ some a)
  unfolding check_files
  check_files_sound i a {orig} e read g undeclared =
      elim (Option-cases (words_upto (length orig) hook_bytes)) [
        | inl f ↦ absurd (ground arith)
        | inr (hooked, f) ↦
            let told : conclude patches (check_words patches 0x5000 orig hooked)
                ≡ passed declared changed =
              ground arith in
            let below = get_elem?-lt orig i g in
            let (b, there) = upto_some (length orig) i hook_bytes f below in
            let same : a ≡ b =
              check_words_sound patches 0x5000 i a b orig hooked
                (clean (check_words patches 0x5000 orig hooked) told) g there undeclared in
            (
              words_compared-get compare i a orig_bytes read g,
              ground (arith, words_upto-get (length orig) i hook_bytes f),
            )
      ]
