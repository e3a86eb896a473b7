-- ===== src/Base/Dicts.antt =====
-- Python dicts in insertion order: keyed by byte strings, and keyed by numbers.
use Prim.Native.Nat.{ℕ, ◌+◌, ◌≤◌, ◌<◌}
use mathlib.Core.Path.{◌≡◌, refl}
use mathlib.Core.Bool.{Bool, true, false, ◌&&◌}
use mathlib.Core.List.{List, [], ◌∷◌}
use mathlib.Core.Option.{Option, none, some}
use native.Mathlib.Omega.{arith}
use fujinet_intv_basketball.Base.Tests.{◌==◌, if◌then◌else◌, ltb}
use fujinet_intv_basketball.Base.Lists.{length}

abbrev pub Bytes : Type 0
Bytes = List ℕ

-- A value that fits a byte.
abbrev pub IsByte : ℕ → Type 0
IsByte b = b < 256

abbrev pub bytes_eq : Bytes → Bytes → Bool
bytes_eq [] [] = true
bytes_eq [] (y ∷ ys) = false
bytes_eq (x ∷ xs) [] = false
bytes_eq (x ∷ xs) (y ∷ ys) = x == y && bytes_eq xs ys

pub bytes_eq_refl : (xs : Bytes) → bytes_eq xs xs ≡ true
bytes_eq_refl [] = refl
bytes_eq_refl (x ∷ xs) = ground (arith, bytes_eq_refl xs)

pub bytes_eq→eq : (xs ys : Bytes) → bytes_eq xs ys ≡ true → xs ≡ ys
bytes_eq→eq [] [] h = refl
bytes_eq→eq [] (y ∷ ys) h = cc
bytes_eq→eq (x ∷ xs) [] h = cc
bytes_eq→eq (x ∷ xs) (y ∷ ys) h = ground (arith, bytes_eq→eq xs ys)

module _ {ℓ} {V : Type ℓ} where
  -- `d.get(k)`
  abbrev pub find : Bytes → List (Bytes × V) → Option V
  find k [] = none
  find k ((j, v) ∷ d) = if bytes_eq k j then some v else find k d

  -- `d[k] = v`: a key that is there keeps its place.
  abbrev pub store : Bytes → V → List (Bytes × V) → List (Bytes × V)
  store k v [] = (k, v) ∷ []
  store k v (e ∷ d) = if bytes_eq k e.0 then (e.0, v) ∷ d else e ∷ store k v d

  -- `del d[k]`
  abbrev pub delete : Bytes → List (Bytes × V) → List (Bytes × V)
  delete k [] = []
  delete k (e ∷ d) = if bytes_eq k e.0 then d else e ∷ delete k d

  pub find-store_self : (k : Bytes) (v : V) (d : List (Bytes × V)) → find k (store k v d) ≡ some v
  find-store_self k v [] = ground (arith, bytes_eq_refl k)
  find-store_self k v (e ∷ d) = ground (arith, find-store_self k v d)

module _ {ℓ} {V : Type ℓ} where
  abbrev pub lookup : ℕ → List (ℕ × V) → Option V
  lookup k [] = none
  lookup k ((j, v) ∷ d) = if k == j then some v else lookup k d

  abbrev pub insert : ℕ → V → List (ℕ × V) → List (ℕ × V)
  insert k v [] = (k, v) ∷ []
  insert k v (e ∷ d) = if k == e.0 then (k, v) ∷ d else e ∷ insert k v d

  -- `d.pop(k, None)`
  abbrev pub erase : ℕ → List (ℕ × V) → List (ℕ × V)
  erase k [] = []
  erase k (e ∷ d) = if k == e.0 then d else e ∷ erase k d

  -- `min(d)`, the smallest key; the default stands for the `ValueError` on an empty dict.
  abbrev pub min_key : ℕ → List (ℕ × V) → ℕ
  min_key k [] = k
  min_key k (e ∷ d) = min_key (if ltb e.0 k then e.0 else k) d

  pub lookup-insert :
      (j k : ℕ) (v : V) (d : List (ℕ × V))
      → lookup j (insert k v d) ≡ (if j == k then some v else lookup j d)
  lookup-insert j k v [] = refl
  lookup-insert j k v (e ∷ d) = ground (arith, lookup-insert j k v d)

  pub length-insert-le : (k : ℕ) (v : V) (d : List (ℕ × V)) → length (insert k v d) ≤ length d + 1
  length-insert-le k v [] = omega arith
  length-insert-le k v (e ∷ d) = ground (arith, length-insert-le k v d)

  pub length-erase-le : (k : ℕ) (d : List (ℕ × V)) → length (erase k d) ≤ length d
  length-erase-le k [] = omega arith
  length-erase-le k (e ∷ d) = ground (arith, length-erase-le k d)
