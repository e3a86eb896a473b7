-- ===== src/Ghost/Answers.antt =====
-- The opponent answers every INPUT frame, tick for tick, and counts what it saw.
use Prim.Native.Nat.{max}
use fujinet_intv_basketball.Base.{
  ℕ, zero, suc, ◌+◌, ◌-◌, ◌*◌, ◌≤◌, ◌≡◌, refl, subst, if_ind, true, not, ◌&&◌, Option, none, some,
  List, [], ◌∷◌, ◌++◌, Bytes, arith, length, take, drop, replicate, get_elem?, length-append,
  length-replicate, length-take, length-drop, ltb, ◌==◌, if◌then◌else◌, bytes_eq,
}
use fujinet_intv_basketball.Wire.{frame, t_lobby, t_join, t_start, t_input, t_crc, t_peer_left}
use fujinet_intv_basketball.Client.{strip_zeros}
use fujinet_intv_basketball.Ghost.{
  Options, Peer, say, pair_at, join_first, on_lobby, on_start, answer, cell_at, on_input, on_crc,
  react, react_all,
}

-- Every INPUT of four bytes or more is answered, in either mode, by one INPUT frame with the same tick
-- bytes and of the same length, and the count and the highest tick are brought up to date.
pub react_answers :
    (o : Options) (p : Bytes) (g : Peer)
    → 4 ≤ length p
    → (react o t_input p g
        ≡ some (
            say
              (frame t_input (take 2 p ++ answer o p))
              (record g { inputs = g.inputs + 1; max_tick = max g.max_tick (pair_at 0 p) })))
      × (length (take 2 p ++ answer o p) ≡ length p)
unfolding react on_input answer
react_answers o p g h = (
  if_ind
      (λ (r : Option Peer).
        r
        ≡ some (
            say (frame t_input (take 2 p ++ answer o p))
              (record g { inputs = g.inputs + 1; max_tick = max g.max_tick (pair_at 0 p) })))
      (ltb (length p) 2) (λ q. absurd (ground (arith, h, q))) (λ _. refl),
  if_ind (λ (r : Bytes). length (take 2 p ++ r) ≡ length p) o.mirror
      (λ _. omega (arith, h, length-append (take 2 p) (drop 2 p), length-take 2 p, length-drop 2 p))
      (λ _. omega (
        arith,
        h,
        length-append (take 2 p) (cell_at o (pair_at 0 p) ∷ replicate (max (length p - 3) 1) 0),
        length-take 2 p,
        length-replicate {A = ℕ} (max (length p - 3) 1) 0,
      )),
)

-- How many frames of a type a list has.
unfoldable pub tally : ℕ → List (ℕ × Bytes) → ℕ
tally t [] = 0
tally t ((u, p) ∷ fs) = if u == t then suc (tally t fs) else tally t fs

-- A reaction that does not fail adds so much to the number of inputs.
abbrev Counted : ℕ → Peer → Option Peer → Type 0
Counted n g none = Unit
Counted n g (some h) = h.inputs ≡ g.inputs + n

join_first-Counted :
    (o : Options) (n i : ℕ) (p : Bytes) (g : Peer) → Counted 0 g (join_first o n i p g)
unfolding join_first
join_first-Counted o zero i p g = omega arith
join_first-Counted o (suc n) i p g =
    let name = strip_zeros (take 8 (drop (1 + i * 9) p)) in
    elim (get_elem? p (9 + i * 9))
      as (λ (x : Option ℕ). Counted 0 g (elim x [
        | none ↦ none
        | some status ↦
            if status == 0 && not (bytes_eq name o.name)
            then some (say (frame t_join name) g)
            else join_first o n (i + 1) p g
      ])) [
        | none ↦ tt
        | some status ↦
            if_ind (λ (r : Option Peer). Counted 0 g r) (status == 0 && not (bytes_eq name o.name))
              (λ _. omega arith) (λ _. join_first-Counted o n (i + 1) p g)
      ]

on_lobby-Counted : (o : Options) (p : Bytes) (g : Peer) → Counted 0 g (on_lobby o p g)
unfolding on_lobby
on_lobby-Counted o [] g =
    if_ind (λ (r : Option Peer). Counted 0 g r) g.matched (λ _. omega arith) (λ _. tt)
on_lobby-Counted o (count ∷ p) g =
    if_ind (λ (r : Option Peer). Counted 0 g r) g.matched (λ _. omega arith)
      (λ _. join_first-Counted o count 0 (count ∷ p) g)

on_start-Counted : (p : Bytes) (g : Peer) → Counted 0 g (on_start p g)
unfolding on_start
on_start-Counted p g =
    if_ind (λ (r : Option Peer). Counted 0 g r) (ltb (length p) 4) (λ _. tt) (λ _. omega arith)

on_input-Counted : (o : Options) (p : Bytes) (g : Peer) → Counted 1 g (on_input o p g)
unfolding on_input
on_input-Counted o p g =
    if_ind (λ (r : Option Peer). Counted 1 g r) (ltb (length p) 2) (λ _. tt) (λ _. refl)

on_crc-Counted : (p : Bytes) (g : Peer) → Counted 0 g (on_crc p g)
unfolding on_crc
on_crc-Counted p g =
    if_ind (λ (r : Option Peer). Counted 0 g r) (ltb (length p) 4) (λ _. tt) (λ _. omega arith)

abbrev bump : ℕ → ℕ
bump t = if t == t_input then 1 else 0

recount : (n m : ℕ) (g : Peer) (r : Option Peer) → n ≡ m → Counted n g r → Counted m g r
recount n m g r e = subst (λ (k : ℕ). Counted k g r) e

carry :
    (b : ℕ) (g h : Peer) (r : Option Peer) (n : ℕ) {m : ℕ}
    → h.inputs ≡ g.inputs + b
    → m ≡ b + n
    → Counted n h r
    → Counted m g r
carry b g h none n e k c = tt
carry b g h (some f) n e k c = omega (arith, e, k, c)

react-Counted : (o : Options) (t : ℕ) (p : Bytes) (g : Peer) → Counted (bump t) g (react o t p g)
unfolding react
react-Counted o t p g =
    let C : Option Peer → Type 0 = λ r. Counted (bump t) g r in
    if_ind C (t == t_lobby)
      (λ q. recount 0 (bump t) g (on_lobby o p g) (ground (arith, q)) (on_lobby-Counted o p g))
      (λ _.
        if_ind C (t == t_start)
          (λ q. recount 0 (bump t) g (on_start p g) (ground (arith, q)) (on_start-Counted p g))
          (λ _.
            if_ind C (t == t_input)
              (λ q.
                recount 1 (bump t) g (on_input o p g) (ground (arith, q)) (on_input-Counted o p g))
              (λ z.
                if_ind C (t == t_crc)
                  (λ q. recount 0 (bump t) g (on_crc p g) (ground (arith, q)) (on_crc-Counted p g))
                  (λ _.
                    if_ind C (t == t_peer_left)
                      (λ q.
                        recount 0 (bump t) g (some (record g { leaving = true }))
                          (ground (arith, z)) (omega arith))
                      (λ _. recount 0 (bump t) g (some g) (ground (arith, z)) (omega arith))))))

react_all-Counted :
    (o : Options) (fs : List (ℕ × Bytes)) (g : Peer)
    → Counted (tally t_input fs) g (react_all o fs g)
unfolding react_all tally
react_all-Counted o [] g = omega arith
react_all-Counted o ((t, p) ∷ fs) g =
    elim (react o t p g)
        as (λ (r : Option Peer).
          Counted (bump t) g r
          → Counted (if t == t_input then suc (tally t_input fs) else tally t_input fs) g
              (elim r [ none ↦ none | some h ↦ react_all o fs h ])) [
                | none ↦ λ _. tt
                | some h ↦ λ e.
                    carry (bump t) g h (react_all o fs h) (tally t_input fs) e (ground arith)
                      (react_all-Counted o fs h)
              ]
      (react-Counted o t p g)

-- Over any list of frames, unless one is too short for its type, the number of inputs that the
-- opponent reports grows by exactly the number of INPUT frames among them.
pub react_all_counts :
    (o : Options) (fs : List (ℕ × Bytes)) (g h : Peer)
    → react_all o fs g ≡ some h
    → h.inputs ≡ g.inputs + tally t_input fs
react_all_counts o fs g h e =
    subst (λ (r : Option Peer). Counted (tally t_input fs) g r) e (react_all-Counted o fs g)
