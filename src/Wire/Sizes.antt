-- ===== src/Wire/Sizes.antt =====
-- Widths of what `frame` and `pad_name` make, and streams that are whole frames.
use fujinet_intv_basketball.Base.{
  ℕ, ◌+◌, ◌-◌, ◌≤◌, ◌≡◌, refl, sym, ap, ◌∙◌, List, [], ◌∷◌, ◌++◌, append-nil, append_assoc, Bytes,
  arith, length, take, replicate, All, All-append, length-append, length-take, length-replicate,
}
use fujinet_intv_basketball.Wire.{frame, ljust, pad_name, encode}

pub length-ljust : (w : ℕ) (b : Bytes) → length b ≤ w → length (ljust w b) ≡ w
unfolding ljust
length-ljust w b h = omega (
  arith,
  length-append {A = ℕ} b (replicate (w - length b) 0),
  length-replicate {A = ℕ} (w - length b) 0,
)

-- A name field is eight bytes wide, whatever the name.
pub length-pad_name : (name : Bytes) → length (pad_name name) ≡ 8
unfolding pad_name
length-pad_name name = length-ljust 8 (take 8 name) (omega (arith, length-take 8 name))

-- A frame whose body is at most the 200 bytes that every reader of the protocol accepts.
abbrev pub Fits : ℕ × Bytes → Type 0
Fits (t, p) = length p ≤ 199

-- A stream of bytes that is a sequence of whole frames.
abbrev pub IsFramed : Bytes → Type 0
IsFramed bs = (fs : List (ℕ × Bytes)) × (bs ≡ encode fs) × All Fits fs

pub encode-append : (fs gs : List (ℕ × Bytes)) → encode (fs ++ gs) ≡ encode fs ++ encode gs
unfolding encode
encode-append [] gs = refl
encode-append ((t, p) ∷ fs) gs =
    ap (λ r. frame t p ++ r) (encode-append fs gs)
    ∙ sym (append_assoc (frame t p) (encode fs) (encode gs))

pub IsFramed-nil : IsFramed []
unfolding encode
IsFramed-nil = ([], refl, tt)

pub length-frame : (t : ℕ) (p : Bytes) → length (frame t p) ≡ length p + 2
unfolding frame
length-frame t p = omega arith

pub IsFramed-frame : (t : ℕ) (p : Bytes) → length p ≤ 199 → IsFramed (frame t p)
unfolding encode
IsFramed-frame t p h = ((t, p) ∷ [], sym (append-nil (frame t p)), (h, tt))

pub IsFramed-append : (a b : Bytes) → IsFramed a → IsFramed b → IsFramed (a ++ b)
IsFramed-append a b (fs, ea, ha) (gs, eb, hb) =
    (fs ++ gs, rw (ea, eb) (sym (encode-append fs gs)), All-append Fits fs gs ha hb)
