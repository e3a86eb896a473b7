-- ===== src/Diff/Masking.antt =====
-- What `render` hides of a frame.
use fujinet_intv_basketball.Base.{
  ascii, IsByte, ℕ, zero, suc, ◌+◌, ◌≤◌, ◌<◌, ◌≡◌, ◌≢◌, refl, sym, ap, ◌∙◌, true, false, [], ◌∷◌,
  ◌++◌, Bytes, length, take, drop, ◌==◌, if◌then◌else◌, All, All-append, All-take, All-drop,
  Bool-cases, inl, inr, arith, get_elem?, contains,
}
use fujinet_intv_basketball.Wire.{t_start}
use fujinet_intv_basketball.Diff.Harness.{hex, type_names, name_in, has_seed, mask, render}
use fujinet_intv_basketball.Diff.Texts.{
  hex_eq, split_space, hex-spaceless, name_in-type_names_eq, type_names-spaceless,
}

mask-bytes : (proto : ℕ) (p : Bytes) → All IsByte p → All IsByte (mask proto p)
mask-bytes proto p h =
    let lo : ℕ = if proto == 1 then 1 else 2 in
    All-append IsByte (take lo p) (0xAA ∷ 0xAA ∷ drop (lo + 2) p) (All-take IsByte lo p h)
      (omega arith, (omega arith, All-drop IsByte (lo + 2) p h))

-- What a record shows of a payload.
abbrev shown : ℕ → ℕ → Bytes → Bytes
shown proto t p = if has_seed t p then mask proto p else p

render-seeded :
    (proto t : ℕ) (p : Bytes)
    → has_seed t p ≡ true
    → render proto t p ≡ ascii "START" ++ b' ' ∷ (hex (mask proto p) ++ ascii " (seed masked)")
unfolding render
render-seeded proto t p h = rw h refl

render-plain :
    (proto t : ℕ) (p : Bytes)
    → has_seed t p ≡ false
    → render proto t p ≡ name_in type_names t ++ b' ' ∷ hex p
unfolding render
render-plain proto t p h = rw h refl

no_space_here :
    (xs ys : Bytes) → contains b' ' xs ≡ false → xs ≢ hex ys ++ b' ' ∷ ascii "(seed masked)"
no_space_here xs ys h e =
    let listed : contains b' ' (hex ys ++ b' ' ∷ ascii "(seed masked)") ≡ true =
      contains_suffix (hex ys) (ascii "(seed masked)") in
    cc
  where
    contains_suffix : (a b : Bytes) → contains b' ' (a ++ b' ' ∷ b) ≡ true
    contains_suffix [] b = refl
    contains_suffix (x ∷ a) b = ground (arith, contains_suffix a b)

shown-seeded : (proto t : ℕ) (p : Bytes) → has_seed t p ≡ true → shown proto t p ≡ mask proto p
shown-seeded proto t p h = rw h refl

shown-plain : (proto t : ℕ) (p : Bytes) → has_seed t p ≡ false → shown proto t p ≡ p
shown-plain proto t p h = rw h refl

seeded_start : (t : ℕ) (p : Bytes) → has_seed t p ≡ true → t ≡ t_start
seeded_start t p h = ground arith

-- A record of a seeded frame is that of no other frame.
seeded_apart :
    (proto a b : ℕ) (p q : Bytes)
    → has_seed a p ≡ true
    → has_seed b q ≡ false
    → render proto a p ≢ render proto b q
seeded_apart proto a b p q s n e =
    let (_, tails) =
      split_space (ascii "START") (name_in type_names b) _ (hex q) refl (type_names-spaceless b)
        (sym (render-seeded proto a p s) ∙ e ∙ render-plain proto b q n) in
    no_space_here (hex q) (mask proto p) (hex-spaceless q) (sym tails)

-- Where the seed of a START begins in its payload.
abbrev pub seed_at : ℕ → ℕ
seed_at proto = if proto == 1 then 1 else 2

splice_spares :
    (lo : ℕ) (p : Bytes) (i : ℕ)
    → lo + 2 ≤ length p
    → i ≢ lo
    → i ≢ lo + 1
    → get_elem? (take lo p ++ 0xAA ∷ 0xAA ∷ drop (lo + 2) p) i ≡ get_elem? p i
splice_spares zero [] i h n m = absurd (omega arith)
splice_spares zero (x ∷ []) i h n m = absurd (omega arith)
splice_spares zero (x ∷ y ∷ p) zero h n m = absurd (n refl)
splice_spares zero (x ∷ y ∷ p) (suc zero) h n m = absurd (m (omega arith))
splice_spares zero (x ∷ y ∷ p) (suc (suc i)) h n m = refl
splice_spares (suc lo) [] i h n m = absurd (omega arith)
splice_spares (suc lo) (x ∷ p) zero h n m = refl
splice_spares (suc lo) (x ∷ p) (suc i) h n m =
    let over : suc lo + 2 ≡ suc (lo + 2) = omega arith in
    rw over (splice_spares lo p i (omega arith) (λ e. n (ap suc e)) (λ e. m (omega arith)))

mask_spares :
    (proto t : ℕ) (p : Bytes) (i : ℕ)
    → has_seed t p ≡ true
    → i ≢ seed_at proto
    → i ≢ seed_at proto + 1
    → get_elem? (mask proto p) i ≡ get_elem? p i
mask_spares proto t p i h n m = splice_spares (seed_at proto) p i (ground arith) n m

render-shown :
    (proto a b : ℕ) (p q : Bytes)
    → a < 256
    → b < 256
    → All IsByte p
    → All IsByte q
    → render proto a p ≡ render proto b q
    → (a ≡ b) × (shown proto a p ≡ shown proto b q)
render-shown proto a b p q ha hb hp hq e = elim (Bool-cases (has_seed a p)) [
  | inl s ↦ elim (Bool-cases (has_seed b q)) [
    | inl r ↦
        let (_, tails) =
          split_space (ascii "START") (ascii "START") _ _ refl refl
            (sym (render-seeded proto a p s) ∙ e ∙ render-seeded proto b q r) in
        let (hexes, _) =
          split_space (hex (mask proto p)) (hex (mask proto q)) (ascii "(seed masked)")
            (ascii "(seed masked)") (hex-spaceless (mask proto p)) (hex-spaceless (mask proto q))
            tails in
        (
          seeded_start a p s ∙ sym (seeded_start b q r),
          shown-seeded proto a p s
              ∙ hex_eq (mask proto p) (mask proto q) (mask-bytes proto p hp) (mask-bytes proto q hq)
                  hexes
              ∙ sym (shown-seeded proto b q r),
        )
    | inr r ↦ absurd (seeded_apart proto a b p q s r e)
  ]
  | inr n ↦ elim (Bool-cases (has_seed b q)) [
    | inl r ↦ absurd (seeded_apart proto b a q p r n (sym e))
    | inr r ↦
        let (names, tails) =
          split_space (name_in type_names a) (name_in type_names b) (hex p) (hex q)
            (type_names-spaceless a) (type_names-spaceless b)
            (sym (render-plain proto a p n) ∙ e ∙ render-plain proto b q r) in
        (
          name_in-type_names_eq a b ha hb names,
          shown-plain proto a p n ∙ hex_eq p q hp hq tails ∙ sym (shown-plain proto b q r),
        )
  ]
]

-- For frames of bytes, of either protocol: if two records of one heading read alike, the frames have
-- the same type and the same payloads, byte for byte and to the same length, where for a START the
-- two bytes of the seed are left open.
pub render_hides_seed_only :
    (proto a b : ℕ) (p q : Bytes)
    → a < 256
    → b < 256
    → All IsByte p
    → All IsByte q
    → render proto a p ≡ render proto b q
    → (a ≡ b)
      × ((i : ℕ)
          → (a ≡ t_start → (i ≢ seed_at proto) × (i ≢ seed_at proto + 1))
          → get_elem? p i ≡ get_elem? q i)
render_hides_seed_only proto a b p q ha hb hp hq e =
    let (same, alike) = render-shown proto a b p q ha hb hp hq e in
    (
      same,
      λ i bare. elim (Bool-cases (has_seed a p)) [
        | inl s ↦ elim (Bool-cases (has_seed b q)) [
          | inl r ↦
              let clear = bare (seeded_start a p s) in
              sym (mask_spares proto a p i s clear.0 clear.1)
              ∙ ap (λ l. get_elem? l i)
                  (sym (shown-seeded proto a p s) ∙ alike ∙ shown-seeded proto b q r)
              ∙ mask_spares proto b q i r clear.0 clear.1
          | inr r ↦ absurd (seeded_apart proto a b p q s r e)
        ]
        | inr n ↦ elim (Bool-cases (has_seed b q)) [
          | inl r ↦ absurd (seeded_apart proto b a q p r n (sym e))
          | inr r ↦
              ap (λ l. get_elem? l i)
                (sym (shown-plain proto a p n) ∙ alike ∙ shown-plain proto b q r)
        ]
      ],
    )
