-- ===== src/Base/Keyed.antt =====
-- Dicts keyed by byte strings that list each key once, as an operation at a time changes them.
use Prim.Native.Nat.{ℕ}
use mathlib.Core.Path.{◌≡◌, refl}
use mathlib.Core.Bool.{not}
use mathlib.Core.List.{List, [], ◌∷◌}
use mathlib.Core.Option.{Option, none, some}
use native.Mathlib.Omega.{arith}
use fujinet_intv_basketball.Base.Tests.{◌==◌, if◌then◌else◌, if_ind}
use fujinet_intv_basketball.Base.Lists.{keep}
use fujinet_intv_basketball.Base.Dicts.{
  Bytes, bytes_eq, bytes_eq_refl, bytes_eq→eq, find, store, delete,
}

pub bytes_eq_sym : (xs ys : Bytes) → bytes_eq xs ys ≡ bytes_eq ys xs
bytes_eq_sym [] [] = refl
bytes_eq_sym [] (y ∷ ys) = refl
bytes_eq_sym (x ∷ xs) [] = refl
bytes_eq_sym (x ∷ xs) (y ∷ ys) = ground (arith, bytes_eq_sym xs ys)

module _ {ℓ} {V : Type ℓ} where
  -- No key is listed twice.
  abbrev pub IsKeyed : List (Bytes × V) → Type ℓ
  IsKeyed [] = Unit
  IsKeyed (e ∷ d) = (find e.0 d ≡ none) × IsKeyed d

  pub find-store :
      (j k : Bytes) (v : V) (d : List (Bytes × V))
      → find j (store k v d) ≡ (if bytes_eq j k then some v else find j d)
  find-store j k v [] = refl
  find-store j k v (e ∷ d) = ground (
    arith,
    find-store j k v d,
    bytes_eq→eq k e.0,
    bytes_eq→eq j e.0,
    bytes_eq→eq j k,
    bytes_eq_refl k,
  )

  pub find-delete :
      (j k : Bytes) (d : List (Bytes × V))
      → IsKeyed d
      → find j (delete k d) ≡ (if bytes_eq j k then none else find j d)
  find-delete j k [] h = ground arith
  find-delete j k (e ∷ d) h = ground (
    arith,
    find-delete j k d h.1,
    bytes_eq→eq k e.0,
    bytes_eq→eq j e.0,
    bytes_eq→eq j k,
    bytes_eq_refl k,
  )

  pub store-IsKeyed : (k : Bytes) (v : V) (d : List (Bytes × V)) → IsKeyed d → IsKeyed (store k v d)
  store-IsKeyed k v [] h = (refl, tt)
  store-IsKeyed k v (e ∷ d) h =
      if_ind IsKeyed (bytes_eq k e.0) (λ _. h)
        (λ other.
          (ground (arith, find-store e.0 k v d, bytes_eq_sym e.0 k), store-IsKeyed k v d h.1))

  pub delete-IsKeyed : (k : Bytes) (d : List (Bytes × V)) → IsKeyed d → IsKeyed (delete k d)
  delete-IsKeyed k [] h = tt
  delete-IsKeyed k (e ∷ d) h =
      if_ind IsKeyed (bytes_eq k e.0) (λ _. h.1)
        (λ other.
          (ground (arith, find-delete e.0 k d h.1, bytes_eq_sym e.0 k), delete-IsKeyed k d h.1))

-- What a look-up finds once every entry of client `c` is gone.
abbrev pub unless : ℕ → Option ℕ → Option ℕ
unless c none = none
unless c (some v) = if v == c then none else some v

pub find-keep :
    (k : Bytes) (c : ℕ) (d : List (Bytes × ℕ))
    → IsKeyed d
    → find k (keep (λ e. not (e.1 == c)) d) ≡ unless c (find k d)
find-keep k c [] h = refl
find-keep k c (e ∷ d) h = ground (arith, find-keep k c d h.1, bytes_eq→eq k e.0)

pub keep-IsKeyed :
    (c : ℕ) (d : List (Bytes × ℕ)) → IsKeyed d → IsKeyed (keep (λ e. not (e.1 == c)) d)
keep-IsKeyed c [] h = tt
keep-IsKeyed c (e ∷ d) h =
    if_ind IsKeyed (not (e.1 == c))
      (λ _. (ground (arith, find-keep e.0 c d h.1), keep-IsKeyed c d h.1))
      (λ _. keep-IsKeyed c d h.1)
