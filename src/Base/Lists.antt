-- ===== src/Base/Lists.antt =====
-- Lists measured and indexed by native numbers, under the library's names.
use Prim.Native.Nat.{ℕ, zero, suc, ◌+◌, ◌-◌, ◌≤◌, ◌<◌, min}
use mathlib.Core.Path.{◌≡◌, refl, ap}
use mathlib.Core.Logic.{◌≢◌}
use mathlib.Core.Bool.{Bool, true, false, ◌||◌, ◌&&◌}
use mathlib.Core.List.{List, [], ◌∷◌, ◌++◌}
use mathlib.Core.Option.{Option, none, some}
use native.Mathlib.Omega.{arith}
use fujinet_intv_basketball.Base.Tests.{◌==◌, if◌then◌else◌}

module _ {ℓ} {A : Type ℓ} where
  abbrev pub length : List A → ℕ
  length [] = 0
  length (x ∷ xs) = suc (length xs)

  abbrev pub get_elem? : List A → ℕ → Option A
  get_elem? [] i = none
  get_elem? (x ∷ xs) zero = some x
  get_elem? (x ∷ xs) (suc i) = get_elem? xs i

  abbrev pub get_or : List A → ℕ → A → A
  get_or [] i d = d
  get_or (x ∷ xs) zero d = x
  get_or (x ∷ xs) (suc i) d = get_or xs i d

  abbrev pub take : ℕ → List A → List A
  take zero xs = []
  take (suc n) [] = []
  take (suc n) (x ∷ xs) = x ∷ take n xs

  abbrev pub drop : ℕ → List A → List A
  drop zero xs = xs
  drop (suc n) [] = []
  drop (suc n) (x ∷ xs) = drop n xs

  abbrev pub replicate : ℕ → A → List A
  replicate zero a = []
  replicate (suc n) a = a ∷ replicate n a

  abbrev pub is_empty : List A → Bool
  is_empty [] = true
  is_empty (x ∷ xs) = false

  abbrev pub all : (A → Bool) → List A → Bool
  all p [] = true
  all p (x ∷ xs) = p x && all p xs

  -- `[x for x in xs if p(x)]`
  abbrev pub keep : (A → Bool) → List A → List A
  keep p [] = []
  keep p (x ∷ xs) = if p x then x ∷ keep p xs else keep p xs

  abbrev pub All {κ} : (A → Type κ) → List A → Type κ
  All P [] = Unit
  All P (x ∷ xs) = P x × All P xs

  pub length-append : (xs ys : List A) → length (xs ++ ys) ≡ length xs + length ys
  length-append [] ys = omega arith
  length-append (x ∷ xs) ys = omega (arith, length-append xs ys)

  pub take-append-drop : (n : ℕ) (xs : List A) → take n xs ++ drop n xs ≡ xs
  take-append-drop zero xs = refl
  take-append-drop (suc n) [] = refl
  take-append-drop (suc n) (x ∷ xs) = ap (λ r. x ∷ r) (take-append-drop n xs)

  pub length-take : (n : ℕ) (xs : List A) → length (take n xs) ≡ min n (length xs)
  length-take zero xs = omega arith
  length-take (suc n) [] = omega arith
  length-take (suc n) (x ∷ xs) = omega (arith, length-take n xs)

  pub length-drop : (n : ℕ) (xs : List A) → length (drop n xs) ≡ length xs - n
  length-drop zero xs = omega arith
  length-drop (suc n) [] = omega arith
  length-drop (suc n) (x ∷ xs) = omega (arith, length-drop n xs)

  pub length-replicate : (n : ℕ) (a : A) → length (replicate n a) ≡ n
  length-replicate zero a = refl
  length-replicate (suc n) a = ap suc (length-replicate n a)

  pub length-keep-le : (p : A → Bool) (xs : List A) → length (keep p xs) ≤ length xs
  length-keep-le p [] = omega arith
  length-keep-le p (x ∷ xs) = ground (arith, length-keep-le p xs)

  -- A list cut at a length is split there.
  pub take-length : (xs ys : List A) → take (length xs) (xs ++ ys) ≡ xs
  take-length [] ys = refl
  take-length (x ∷ xs) ys = ap (λ r. x ∷ r) (take-length xs ys)

  pub drop-length : (xs ys : List A) → drop (length xs) (xs ++ ys) ≡ ys
  drop-length [] ys = refl
  drop-length (x ∷ xs) ys = drop-length xs ys

  pub take-append : (n : ℕ) (xs ys : List A) → n ≤ length xs → take n (xs ++ ys) ≡ take n xs
  take-append zero xs ys h = refl
  take-append (suc n) [] ys h = absurd (omega arith)
  take-append (suc n) (x ∷ xs) ys h = ap (λ r. x ∷ r) (take-append n xs ys (omega arith))

  pub drop-append : (n : ℕ) (xs ys : List A) → n ≤ length xs → drop n (xs ++ ys) ≡ drop n xs ++ ys
  drop-append zero xs ys h = refl
  drop-append (suc n) [] ys h = absurd (omega arith)
  drop-append (suc n) (x ∷ xs) ys h = drop-append n xs ys (omega arith)

  pub All-take {κ} : (P : A → Type κ) (n : ℕ) (xs : List A) → All P xs → All P (take n xs)
  All-take P zero xs h = tt
  All-take P (suc n) [] h = tt
  All-take P (suc n) (x ∷ xs) h = (h.0, All-take P n xs h.1)

  pub All-drop {κ} : (P : A → Type κ) (n : ℕ) (xs : List A) → All P xs → All P (drop n xs)
  All-drop P zero xs h = h
  All-drop P (suc n) [] h = tt
  All-drop P (suc n) (x ∷ xs) h = All-drop P n xs h.1

  pub All-replicate {κ} : (P : A → Type κ) (n : ℕ) (x : A) → P x → All P (replicate n x)
  All-replicate P zero x h = tt
  All-replicate P (suc n) x h = (h, All-replicate P n x h)

  pub All-append {κ} : (P : A → Type κ) (xs ys : List A) → All P xs → All P ys → All P (xs ++ ys)
  All-append P [] ys hx hy = hy
  All-append P (x ∷ xs) ys hx hy = (hx.0, All-append P xs ys hx.1 hy)

-- Lists of object identities.
abbrev pub contains : ℕ → List ℕ → Bool
contains c [] = false
contains c (x ∷ xs) = c == x || contains c xs

-- `list.remove(c)`, and `set.discard(c)` on a list without repeats: the first occurrence goes.
abbrev pub remove : ℕ → List ℕ → List ℕ
remove c [] = []
remove c (x ∷ xs) = if c == x then xs else x ∷ remove c xs

-- `list.index(c)`; the length where `c` is absent, which is Python's `ValueError`.
abbrev pub index : ℕ → List ℕ → ℕ
index c [] = 0
index c (x ∷ xs) = if c == x then 0 else suc (index c xs)

pub length-remove-le : (c : ℕ) (xs : List ℕ) → length (remove c xs) ≤ length xs
length-remove-le c [] = omega arith
length-remove-le c (x ∷ xs) = ground (arith, length-remove-le c xs)

pub length-remove :
    (c : ℕ) (xs : List ℕ) → contains c xs ≡ true → suc (length (remove c xs)) ≡ length xs
length-remove c [] h = cc
length-remove c (x ∷ xs) h = ground (arith, length-remove c xs)

pub contains-remove_ne : (c d : ℕ) (xs : List ℕ) → c ≢ d → contains c (remove d xs) ≡ contains c xs
contains-remove_ne c d [] h = refl
contains-remove_ne c d (x ∷ xs) h = ground (arith, contains-remove_ne c d xs h)

pub contains_append :
    (c d : ℕ) (xs : List ℕ) → contains c (xs ++ d ∷ []) ≡ (contains c xs || c == d)
contains_append c d [] = ground arith
contains_append c d (x ∷ xs) = ground (arith, contains_append c d xs)

pub index-le : (c : ℕ) (xs : List ℕ) → index c xs ≤ length xs
index-le c [] = omega arith
index-le c (x ∷ xs) = ground (arith, index-le c xs)

pub index-lt : (c : ℕ) (xs : List ℕ) → contains c xs ≡ true → index c xs < length xs
index-lt c [] h = cc
index-lt c (x ∷ xs) h = ground (arith, index-lt c xs)

pub contains-get : (xs : List ℕ) (i c : ℕ) → get_elem? xs i ≡ some c → contains c xs ≡ true
contains-get [] i c h = cc
contains-get (x ∷ xs) zero c h = ground arith
contains-get (x ∷ xs) (suc i) c h = ground (arith, contains-get xs i c h)

-- No number is listed twice.
abbrev pub IsDistinct : List ℕ → Type 0
IsDistinct [] = Unit {0}
IsDistinct (m ∷ ms) = (contains m ms ≡ false) × IsDistinct ms

pub contains-remove_self : (c : ℕ) (xs : List ℕ) → IsDistinct xs → contains c (remove c xs) ≡ false
contains-remove_self c [] d = refl
contains-remove_self c (x ∷ xs) d = ground (arith, contains-remove_self c xs d.1, d.0)

pub contains-remove-le :
    (c d : ℕ) (xs : List ℕ) → contains c (remove d xs) ≡ true → contains c xs ≡ true
contains-remove-le c d [] h = cc
contains-remove-le c d (x ∷ xs) h = ground (arith, contains-remove-le c d xs, h)

absent-remove : (c d : ℕ) (xs : List ℕ) → contains c xs ≡ false → contains c (remove d xs) ≡ false
absent-remove c d [] h = refl
absent-remove c d (x ∷ xs) h = ground (arith, absent-remove c d xs, h)

if-IsDistinct :
    (b : Bool) (xs ys : List ℕ) → IsDistinct xs → IsDistinct ys → IsDistinct (if b then xs else ys)
if-IsDistinct true xs ys dx dy = dx
if-IsDistinct false xs ys dx dy = dy

pub remove-IsDistinct : (c : ℕ) (xs : List ℕ) → IsDistinct xs → IsDistinct (remove c xs)
remove-IsDistinct c [] d = tt
remove-IsDistinct c (x ∷ xs) d =
    if-IsDistinct (c == x) xs (x ∷ remove c xs) d.1
      (absent-remove x c xs d.0, remove-IsDistinct c xs d.1)

pub append-IsDistinct :
    (c : ℕ) (xs : List ℕ) → contains c xs ≡ false → IsDistinct xs → IsDistinct (xs ++ c ∷ [])
append-IsDistinct c [] h d = (refl, tt)
append-IsDistinct c (x ∷ xs) h d =
    (ground (arith, h, d.0, contains_append x c xs), append-IsDistinct c xs (ground (arith, h)) d.1)
