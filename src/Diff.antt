-- ===== src/Diff.antt =====
-- tools/server_diff.py: `compare`, which decides whether the transcripts of the two servers match. A
-- record is its text.
pub mod Harness
pub mod Scripts
pub mod Legacy
pub mod Chunks
pub mod Logs
pub mod Texts
pub mod Masking
pub mod Main
mod Tests
use fujinet_intv_basketball.Base.{
  ℕ, ◌≡◌, ◌⊎◌, inl, inr, refl, if_ind, Bool, true, false, not, ◌&&◌, List, [], ◌∷◌, Bytes, bytes_eq,
  bytes_eq→eq, bytes_eq_refl, ltb, ◌==◌, if◌then◌else◌, ap, arith,
}

-- `<=` on text.
unfoldable pub text_le : Bytes → Bytes → Bool
text_le [] ys = true
text_le (x ∷ xs) [] = false
text_le (x ∷ xs) (y ∷ ys) = if x == y then text_le xs ys else ltb x y

unfoldable pub place : Bytes → List Bytes → List Bytes
unfolding text_le
place r [] = r ∷ []
place r (s ∷ rs) = if text_le r s then r ∷ s ∷ rs else s ∷ place r rs

-- `sorted`
unfoldable pub sort : List Bytes → List Bytes
unfolding place
sort [] = []
sort (r ∷ rs) = place r (sort rs)

unfoldable pub same_records : List Bytes → List Bytes → Bool
same_records [] [] = true
same_records [] (s ∷ ss) = false
same_records (r ∷ rs) [] = false
same_records (r ∷ rs) (s ∷ ss) = bytes_eq r s && same_records rs ss

-- The scenarios that `compare` treats apart.
pub data Scenario : Type 0 where
  limits : Scenario
  framing : Scenario
  other : Scenario

-- The end of `compare`, where the transcripts differ.
unfoldable pub on_difference : Scenario → ℕ → Bool → Bool
on_difference framing proto strict = if proto == 2 then not strict else false
on_difference limits proto strict = false
on_difference other proto strict = false

unfoldable pub compare : Scenario → ℕ → Bool → List Bytes → List Bytes → Bool
unfolding sort same_records on_difference
compare limits proto strict py c = same_records (sort py) (sort c)
compare framing proto strict py c =
    if same_records py c then true else on_difference framing proto strict
compare other proto strict py c =
    if same_records py c then true else on_difference other proto strict

same_records→eq : (rs ss : List Bytes) → same_records rs ss ≡ true → rs ≡ ss
unfolding same_records
same_records→eq [] [] h = refl
same_records→eq [] (s ∷ ss) h = cc
same_records→eq (r ∷ rs) [] h = cc
same_records→eq (r ∷ rs) (s ∷ ss) h =
    cons_eq r s rs ss (bytes_eq→eq r s (ground (arith, h)))
      (same_records→eq rs ss (ground (arith, h)))
  where
    cons_eq :
        (r s : Bytes) (rs ss : List Bytes)
        → r ≡ s
        → rs ≡ ss
        → ◌≡◌ {A = List Bytes} (r ∷ rs) (s ∷ ss)
    cons_eq r s rs ss a b = cc

same_records_refl : (rs : List Bytes) → same_records rs rs ≡ true
unfolding same_records
same_records_refl [] = refl
same_records_refl (r ∷ rs) = rw (bytes_eq_refl r, same_records_refl rs) refl

-- Equal records pass.
pub compare_refl :
    (k : Scenario) (proto : ℕ) (strict : Bool) (rs : List Bytes)
    → compare k proto strict rs rs ≡ true
unfolding compare
compare_refl limits proto strict rs = same_records_refl (sort rs)
compare_refl framing proto strict rs = rw (same_records_refl rs) refl
compare_refl other proto strict rs = rw (same_records_refl rs) refl

pass_true : (b d : Bool) → d ≡ false → (if b then true else d) ≡ true → b ≡ true
pass_true true d e h = refl
pass_true false d e h = cc

-- What a scenario compares.
abbrev pub view : Scenario → List Bytes → List Bytes
view limits rs = sort rs
view framing rs = rs
view other rs = rs

-- Under `--strict`, a scenario passes only if both servers left the same transcript, up to order for
-- the scenario of the limits.
pub compare_strict :
    (k : Scenario) (proto : ℕ) (py c : List Bytes)
    → compare k proto true py c ≡ true
    → view k py ≡ view k c
unfolding compare on_difference
compare_strict limits proto py c h = same_records→eq (sort py) (sort c) h
compare_strict framing proto py c h = same_records→eq py c (
    pass_true (same_records py c) (if proto == 2 then false else false)
      (if_ind (λ (b : Bool). b ≡ false) (proto == 2) (λ _. refl) (λ _. refl)) h)
compare_strict other proto py c h =
    same_records→eq py c (pass_true (same_records py c) false refl h)

-- Without it, the framing scenario of protocol 2 passes whatever the two servers did.
pub compare_framing_blind : (py c : List Bytes) → compare framing 2 false py c ≡ true
unfolding compare on_difference
compare_framing_blind py c =
    if_ind (λ (b : Bool). b ≡ true) (same_records py c) (λ _. refl) (λ _. refl)
