-- ===== src/Diff/Texts.antt =====
-- The texts that `render` makes: hexadecimal digits and the names of the types.
use fujinet_intv_basketball.Base.{
  IsByte, ℕ, ◌/◌, ◌%◌, ◌<◌, ◌≡◌, ◌≢◌, refl, sym, ◌∙◌, Bool, true, false, not, ◌&&◌, List, [], ◌∷◌,
  ◌++◌, Bytes, ◌==◌, All, if_ind, Bool-cases, inl, inr, arith, contains, bytes_eq, bytes_eq_refl,
}
use fujinet_intv_basketball.Diff.Harness.{digit, capital, hex, type_names, name_in}

digit_eq : (a b : ℕ) → a < 16 → b < 16 → digit a ≡ digit b → a ≡ b
unfolding digit
digit_eq a b h k e = ground arith

capital_eq : (a b : ℕ) → a < 16 → b < 16 → capital a ≡ capital b → a ≡ b
unfolding capital
capital_eq a b h k e = ground arith

nibbles_eq : (a b : ℕ) → a / 16 ≡ b / 16 → a % 16 ≡ b % 16 → a ≡ b
nibbles_eq a b h k = omega arith

pub hex_eq : (xs ys : Bytes) → All IsByte xs → All IsByte ys → hex xs ≡ hex ys → xs ≡ ys
unfolding hex
hex_eq [] [] h k e = refl
hex_eq [] (y ∷ ys) h k e = cc
hex_eq (x ∷ xs) [] h k e = cc
hex_eq (x ∷ xs) (y ∷ ys) h k e =
    let high = digit_eq (x / 16) (y / 16) (omega (arith, h.0)) (omega (arith, k.0)) (cc) in
    let low = digit_eq (x % 16) (y % 16) (omega arith) (omega arith) (cc) in
    let head = nibbles_eq x y high low in let tail = hex_eq xs ys h.1 k.1 (cc) in cc

-- Texts without a space, each followed by a space.
pub split_space :
    (a b r s : Bytes)
    → contains b' ' a ≡ false
    → contains b' ' b ≡ false
    → a ++ b' ' ∷ r ≡ b ++ b' ' ∷ s
    → (a ≡ b) × (r ≡ s)
split_space [] [] r s h k e = (refl, cc)
split_space [] (y ∷ b) r s h k e = let c : b' ' ≡ y = cc in absurd (ground arith)
split_space (x ∷ a) [] r s h k e = let c : x ≡ b' ' = cc in absurd (ground arith)
split_space (x ∷ a) (y ∷ b) r s h k e =
    let (f, g) = split_space a b r s (ground arith) (ground arith) (cc) in
    let c : x ≡ y = cc in (cc, g)

-- `n` is neither a name of the table nor of the form `$XX`.
unlike : Bytes → List (ℕ × Bytes) → Bool
unlike [] [] = false
unlike (c ∷ cs) [] = not (c == b'$')
unlike n ((k, m) ∷ names) = not (bytes_eq n m) && unlike n names

distinct_names : List (ℕ × Bytes) → Bool
distinct_names [] = true
distinct_names ((k, n) ∷ names) = unlike n names && distinct_names names

name_in-here :
    (names : List (ℕ × Bytes)) (k t : ℕ) (m : Bytes)
    → (t == k) ≡ true
    → name_in ((k, m) ∷ names) t ≡ m
unfolding name_in
name_in-here names k t m here = rw here refl

name_in-away :
    (names : List (ℕ × Bytes)) (k t : ℕ) (m : Bytes)
    → (t == k) ≡ false
    → name_in ((k, m) ∷ names) t ≡ name_in names t
unfolding name_in
name_in-away names k t m away = rw away refl

name_in-unlike :
    (names : List (ℕ × Bytes)) (n : Bytes) (t : ℕ) → unlike n names ≡ true → name_in names t ≢ n
unfolding name_in unlike
name_in-unlike [] [] t h e = cc
name_in-unlike [] (c ∷ cs) t h e = let d : b'$' ≡ c = cc in ground arith
name_in-unlike ((k, m) ∷ names) n t h e = elim (Bool-cases (t == k)) [
  | inl here ↦
      let same : m ≡ n = sym (name_in-here names k t m here) ∙ e in
      let alike : bytes_eq n m ≡ true = rw same (bytes_eq_refl n) in ground arith
  | inr away ↦ name_in-unlike names n t (ground arith) (sym (name_in-away names k t m away) ∙ e)
]

name_in_eq :
    (names : List (ℕ × Bytes)) (a b : ℕ)
    → distinct_names names ≡ true
    → a < 256
    → b < 256
    → name_in names a ≡ name_in names b
    → a ≡ b
unfolding distinct_names
name_in_eq [] a b u h k e =
    unfold name_in in
    (let high = capital_eq (a / 16) (b / 16) (omega (arith, h)) (omega (arith, k)) (cc) in
      let low = capital_eq (a % 16) (b % 16) (omega arith) (omega arith) (cc) in
      nibbles_eq a b high low)
name_in_eq ((t, n) ∷ names) a b u h k e = elim (Bool-cases (a == t)) [
  | inl x ↦ elim (Bool-cases (b == t)) [
    | inl y ↦ ground arith
    | inr y ↦ absurd (
        name_in-unlike names n b (ground arith)
          (sym (name_in-away names t b n y) ∙ sym e ∙ name_in-here names t a n x))
  ]
  | inr x ↦ elim (Bool-cases (b == t)) [
    | inl y ↦ absurd (
        name_in-unlike names n a (ground arith)
          (sym (name_in-away names t a n x) ∙ e ∙ name_in-here names t b n y))
    | inr y ↦
        name_in_eq names a b (ground arith) h k
          (sym (name_in-away names t a n x) ∙ e ∙ name_in-away names t b n y)
  ]
]

spaceless : List (ℕ × Bytes) → Bool
spaceless [] = true
spaceless ((k, n) ∷ names) = not (contains b' ' n) && spaceless names

name_in-spaceless :
    (names : List (ℕ × Bytes)) (t : ℕ)
    → spaceless names ≡ true
    → contains b' ' (name_in names t) ≡ false
unfolding name_in spaceless capital
name_in-spaceless [] t h = ground arith
name_in-spaceless ((k, n) ∷ names) t h =
    if_ind (λ m. contains b' ' m ≡ false) (t == k) (λ _. ground arith)
      (λ _. name_in-spaceless names t (ground arith))

pub hex-spaceless : (xs : Bytes) → contains b' ' (hex xs) ≡ false
unfolding hex digit
hex-spaceless [] = refl
hex-spaceless (x ∷ xs) = ground (arith, hex-spaceless xs)

names_distinct : distinct_names type_names ≡ true
unfolding distinct_names unlike
names_distinct = refl

names_spaceless : spaceless type_names ≡ true
unfolding spaceless
names_spaceless = refl

-- The names of the table and the `$XX` are told apart, and hold no space.
pub name_in-type_names_eq :
    (a b : ℕ) → a < 256 → b < 256 → name_in type_names a ≡ name_in type_names b → a ≡ b
name_in-type_names_eq a b h k e = name_in_eq type_names a b names_distinct h k e

pub type_names-spaceless : (t : ℕ) → contains b' ' (name_in type_names t) ≡ false
type_names-spaceless t = name_in-spaceless type_names t names_spaceless
