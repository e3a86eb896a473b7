-- ===== src/Names/RoundTrip.antt =====
-- A name comes back from the eight-byte field that carries it.
use fujinet_intv_basketball.Base.{
  ℕ, zero, suc, ◌-◌, ◌≤◌, ◌≡◌, refl, sym, ap, ◌∙◌, append-nil, true, List, [], ◌∷◌, ◌++◌, arith,
  length, take, replicate, all, ltb,
}
use fujinet_intv_basketball.Wire.{pad_name, ljust}
use fujinet_intv_basketball.Names.{
  decode_ascii, rstrip, strip_cons, read_name, is_name, is_name_char,
}

read-padding : (n : ℕ) → rstrip (decode_ascii (replicate n 0)) ≡ []
unfolding rstrip decode_ascii
read-padding zero = refl
read-padding (suc n) = rw (read-padding n)

keep_char : (c : ℕ) (cs : List ℕ) → is_name_char c ≡ true → strip_cons c cs ≡ c ∷ cs
keep_char c [] h = ground arith
keep_char c (d ∷ cs) h = refl

read-padded :
    (name : List ℕ) (n : ℕ)
    → all is_name_char name ≡ true
    → rstrip (decode_ascii (name ++ replicate n 0)) ≡ name
unfolding rstrip decode_ascii
read-padded [] n h = read-padding n
read-padded (c ∷ cs) n h =
    rw (ascii, read-padded cs n (ground arith)) (keep_char c cs (ground arith))
  where
    ascii : ltb c 128 ≡ true
    ascii = ground arith

pub take-all : (n : ℕ) (xs : List ℕ) → length xs ≤ n → take n xs ≡ xs
take-all zero [] h = refl
take-all zero (x ∷ xs) h = absurd (omega arith)
take-all (suc n) [] h = refl
take-all (suc n) (x ∷ xs) h = ap (λ r. x ∷ r) (take-all n xs (omega arith))

pub read_name-plain : (name : List ℕ) → is_name name ≡ true → read_name name ≡ name
unfolding read_name is_name
read_name-plain name h =
    ap (λ (n : List ℕ). rstrip (decode_ascii n)) (sym (append-nil name))
    ∙ read-padded name 0 (ground arith)

-- Every name that `on_hello` admits is read back from its padded field: so a JOIN that echoes a
-- LOBBY entry names the player of that entry, and no two admitted names share a field.
pub read_name-pad_name : (name : List ℕ) → is_name name ≡ true → read_name (pad_name name) ≡ name
unfolding read_name pad_name ljust is_name
read_name-pad_name name h =
    rw (take-all 8 name (ground arith)) (read-padded name (8 - length name) (ground arith))
