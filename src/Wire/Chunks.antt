-- ===== src/Wire/Chunks.antt =====
-- Reassembly does not depend on how TCP cuts the stream, and reads back what was framed.
use fujinet_intv_basketball.Base.{
  ℕ, zero, suc, ◌+◌, ◌≤◌, ◌<◌, ◌≡◌, refl, sym, ap, ◌∙◌, inl, inr, false, ◌||◌, List, [], ◌∷◌, ◌++◌,
  append_assoc, Bytes, arith, length, take, drop, All, ltb, if◌then◌else◌, length-append,
  length-take, length-drop, take-append-drop, take-length, drop-length, take-append, drop-append,
  Bool-cases,
}
use fujinet_intv_basketball.Wire.{
  Next, wait, bad_length, next, next_frame, split_body, Batch, scan, split_frames, frame, encode,
  on_next,
}
use fujinet_intv_basketball.Wire.Sizes.{Fits}

-- What is known of the head of a buffer, by the case `next_frame` finds: more bytes do not change
-- a frame or a bad length byte that is there.
abbrev Reads : Next → Bytes → Type 0
Reads wait rx = Unit {0}
Reads (bad_length l) rx = (0 < length rx) × ((ys : Bytes) → next_frame (rx ++ ys) ≡ bad_length l)
Reads (next t p rest) rx =
    (suc (length rest) < length rx) × ((ys : Bytes) → next_frame (rx ++ ys) ≡ next t p (rest ++ ys))

-- A length byte in range with all its bytes there reads the same whatever follows.
whole_frame :
    (l : ℕ) (rx ys : Bytes)
    → (ltb (l + 1) 2 || ltb 200 l) ≡ false
    → l ≤ length rx
    → next_frame (l ∷ (rx ++ ys)) ≡ split_body l (take l rx) (drop l rx ++ ys)
unfolding next_frame
whole_frame l rx ys ok full = rw (ok, shown, take-append l rx ys full, drop-append l rx ys full)
  where
    shown : ltb (length (rx ++ ys)) l ≡ false
    shown = ground (arith, length-append rx ys)

body-Reads :
    (l : ℕ) (rx b : Bytes)
    → take l rx ≡ b
    → (ltb (l + 1) 2 || ltb 200 l) ≡ false
    → ltb (length rx) l ≡ false
    → Reads (split_body l b (drop l rx)) (l ∷ rx)
unfolding next_frame split_body
body-Reads l rx [] e ok full = (omega arith, λ ys. whole_frame l rx ys ok (ground arith) ∙ rw e)
body-Reads l rx (t ∷ p) e ok full = (
  ground (arith, length-drop l rx, length-take l rx, ap length e),
  λ ys. whole_frame l rx ys ok (ground arith) ∙ rw e,
)

next_frame-Reads : (rx : Bytes) → Reads (next_frame rx) rx
unfolding next_frame
next_frame-Reads [] = tt
next_frame-Reads (l ∷ rx) = elim (Bool-cases (ltb (l + 1) 2 || ltb 200 l)) [
  | inl bad ↦ rw bad (omega arith, λ ys. rw bad)
  | inr ok ↦ rw ok (elim (Bool-cases (ltb (length rx) l)) [
    | inl short ↦ rw short tt
    | inr full ↦ rw full (body-Reads l rx (take l rx) refl ok full)
  ])
]

-- More bytes behind a batch: a batch that met a bad length byte stays as it is.
abbrev pub resume : Batch → Bytes → Batch
resume b ys =
    if b.bad
    then record b { left = b.left ++ ys }
    else (let c = split_frames (b.left ++ ys) in record c { frames = b.frames ++ c.frames })

on_next_cong :
    (n : Next) (rx : Bytes) (j k : Bytes → Batch)
    → Reads n rx
    → ((r : Bytes) → suc (length r) < length rx → j r ≡ k r)
    → on_next n j rx ≡ on_next n k rx
on_next_cong wait rx j k r h = refl
on_next_cong (bad_length l) rx j k r h = refl
on_next_cong (next t p rest) rx j k r h =
    ap (λ (b : Batch). record b { frames = (t, p) ∷ b.frames }) (h rest r.0)

-- Fuel beyond the length of the buffer changes nothing.
pub scan_fuel : (f g : ℕ) (rx : Bytes) → length rx ≤ f → length rx ≤ g → scan f rx ≡ scan g rx
unfolding scan next_frame
scan_fuel zero zero rx hf hg = refl
scan_fuel zero (suc g) [] hf hg = refl
scan_fuel zero (suc g) (l ∷ rx) hf hg = absurd (omega arith)
scan_fuel (suc f) zero [] hf hg = refl
scan_fuel (suc f) zero (l ∷ rx) hf hg = absurd (omega arith)
scan_fuel (suc f) (suc g) rx hf hg =
    on_next_cong (next_frame rx) rx (scan f) (scan g) (next_frame-Reads rx)
      (λ r h. scan_fuel f g r (omega arith) (omega arith))

resume_next :
    (n : Next) (f g : ℕ) (rx ys : Bytes)
    → Reads n rx
    → length rx + length ys ≤ suc g
    → ((r : Bytes) → suc (length r) < length rx → scan g (r ++ ys) ≡ resume (scan f r) ys)
    → scan (suc g) (rx ++ ys) ≡ resume (on_next n (scan f) rx) ys
unfolding scan split_frames
resume_next wait f g rx ys r h ih =
    scan_fuel (suc g) (length (rx ++ ys)) (rx ++ ys) (omega (arith, length-append rx ys))
      (omega arith)
resume_next (bad_length l) f g rx ys r h ih = rw (r.1 ys)
resume_next (next t p rest) f g rx ys r h ih = rw (r.1 ys, ih rest r.0) (ground arith)

scan-resume :
    (f g : ℕ) (rx ys : Bytes)
    → length rx ≤ f
    → length rx + length ys ≤ g
    → scan g (rx ++ ys) ≡ resume (scan f rx) ys
unfolding scan split_frames next_frame
scan-resume zero g [] ys hf hg = scan_fuel g (length ys) ys (omega arith) (omega arith)
scan-resume zero g (l ∷ rx) ys hf hg = absurd (omega arith)
scan-resume (suc f) zero [] ys hf hg = scan_fuel 0 (length ys) ys (omega arith) (omega arith)
scan-resume (suc f) zero (l ∷ rx) ys hf hg = absurd (omega arith)
scan-resume (suc f) (suc g) rx ys hf hg =
    resume_next (next_frame rx) f g rx ys (next_frame-Reads rx) hg
      (λ r h. scan-resume f g r ys (omega arith) (omega arith))

-- Splitting a stream does not depend on how it arrives: for every first chunk and every second one,
-- the frames of both together are those of the first, then those of what it left with the second
-- behind. A bad length byte in the first chunk stops the stream there, whatever follows.
pub split_frames-append : (rx ys : Bytes) → split_frames (rx ++ ys) ≡ resume (split_frames rx) ys
unfolding split_frames
split_frames-append rx ys =
    scan-resume (length rx) (length (rx ++ ys)) rx ys (omega arith)
      (omega (arith, length-append rx ys))

next_frame-frame :
    (t : ℕ) (p rest : Bytes) → Fits (t, p) → next_frame (frame t p ++ rest) ≡ next t p rest
unfolding next_frame frame split_body
next_frame-frame t p rest h = rw (in_range, whole, take-length p rest, drop-length p rest)
  where
    in_range : (ltb (suc (length p) + 1) 2 || ltb 200 (suc (length p))) ≡ false
    in_range = ground arith

    whole : ltb (suc (length (p ++ rest))) (suc (length p)) ≡ false
    whole = ground (arith, length-append p rest)

scan-encode :
    (g : ℕ) (fs : List (ℕ × Bytes))
    → All Fits fs
    → length (encode fs) ≤ g
    → scan g (encode fs) ≡ record { frames = fs; left = []; bad = false }
unfolding scan encode next_frame
scan-encode zero [] h k = refl
scan-encode (suc g) [] h k = refl
scan-encode zero ((t, p) ∷ fs) h k = absurd (unfold frame in omega arith)
scan-encode (suc g) ((t, p) ∷ fs) h k =
    rw (next_frame-frame t p (encode fs) h.0, scan-encode g fs h.1 shorter)
  where
    shorter : length (encode fs) ≤ g
    shorter = unfold frame in omega (arith, length-append p (encode fs))

-- The reader inverts the writer: the bytes of any list of frames, each with a body of at most 200
-- bytes, split into exactly that list with nothing left over.
pub split_frames-encode :
    (fs : List (ℕ × Bytes))
    → All Fits fs
    → split_frames (encode fs) ≡ record { frames = fs; left = []; bad = false }
unfolding split_frames
split_frames-encode fs h = scan-encode (length (encode fs)) fs h (omega arith)

length-split_body :
    (l : ℕ) (b r : Bytes) {t : ℕ} {p rest : Bytes}
    → length b ≤ 200
    → split_body l b r ≡ next t p rest
    → length p ≤ 199
unfolding split_body
length-split_body l [] r h e = cc
length-split_body l (x ∷ b) r h e = ground arith

-- A frame that `next_frame` finds has a body of at most 200 bytes.
pub length-next_frame :
    (rx : Bytes) {t : ℕ} {p rest : Bytes} → next_frame rx ≡ next t p rest → length p ≤ 199
unfolding next_frame
length-next_frame [] e = cc
length-next_frame (l ∷ rx) e =
    ground (arith, length-take l rx, length-split_body l (take l rx) (drop l rx))

split_body-bytes :
    (l : ℕ) (b r : Bytes) {t : ℕ} {p rest : Bytes}
    → length b ≡ l
    → split_body l b r ≡ next t p rest
    → l ∷ (b ++ r) ≡ frame t p ++ rest
unfolding split_body frame
split_body-bytes l [] r h e = cc
split_body-bytes l (x ∷ b) r h e = cc

-- A frame that is found is the head of the buffer.
pub next_frame-bytes :
    (rx : Bytes) {t : ℕ} {p rest : Bytes} → next_frame rx ≡ next t p rest → rx ≡ frame t p ++ rest
unfolding next_frame
next_frame-bytes [] e = cc
next_frame-bytes (l ∷ rx) {t} {p} {rest} e = elim (Bool-cases (ltb (l + 1) 2 || ltb 200 l)) [
  | inl bad ↦ let e' : bad_length l ≡ next t p rest = rw bad at e in cc
  | inr ok ↦ elim (Bool-cases (ltb (length rx) l)) [
    | inl short ↦ let e' : wait ≡ next t p rest = rw (ok, short) at e in cc
    | inr full ↦
        let e' : split_body l (take l rx) (drop l rx) ≡ next t p rest = rw (ok, full) at e in
        ap (λ r. l ∷ r) (sym (take-append-drop l rx))
        ∙ split_body-bytes l (take l rx) (drop l rx) (ground (arith, length-take l rx)) e'
  ]
]

scan-bytes : (f : ℕ) (rx : Bytes) → encode (scan f rx).frames ++ (scan f rx).left ≡ rx
unfolding scan encode
scan-bytes zero rx = refl
scan-bytes (suc f) rx = go (next_frame rx) refl (scan-bytes f)
  where
    go :
        (n : Next)
        → next_frame rx ≡ n
        → ((r : Bytes) → encode (scan f r).frames ++ (scan f r).left ≡ r)
        → encode (on_next n (scan f) rx).frames ++ (on_next n (scan f) rx).left ≡ rx
    go wait e ih = refl
    go (bad_length l) e ih = refl
    go (next t p rest) e ih =
        append_assoc (frame t p) (encode (scan f rest).frames) (scan f rest).left
        ∙ ap (λ r. frame t p ++ r) (ih rest)
        ∙ sym (next_frame-bytes rx e)

-- Splitting loses nothing: the frames and what is left are the bytes of the buffer.
pub encode-split_frames :
    (rx : Bytes) → encode (split_frames rx).frames ++ (split_frames rx).left ≡ rx
unfolding split_frames
encode-split_frames rx = scan-bytes (length rx) rx

-- Splitting, one frame at a time.
pub split_frames-step : (rx : Bytes) → split_frames rx ≡ on_next (next_frame rx) split_frames rx
unfolding split_frames scan next_frame
split_frames-step [] = refl
split_frames-step (l ∷ rx) =
    on_next_cong (next_frame (l ∷ rx)) (l ∷ rx) (scan (length rx)) split_frames
      (next_frame-Reads (l ∷ rx))
      (λ r h. scan_fuel (length rx) (length r) r (omega arith) (omega arith))

-- A frame that is found leaves a shorter buffer.
pub length-next_frame_rest :
    (rx : Bytes) {t : ℕ} {p rest : Bytes} → next_frame rx ≡ next t p rest → length rest < length rx
length-next_frame_rest rx {t} {p} {rest} e =
    unfold frame in omega (arith, ap length (next_frame-bytes rx e), length-append (frame t p) rest)
