-- ===== src/Idlers/Once.antt =====
-- test/lobby_idlers.py: how often the hunter joins and the host starts.
use fujinet_intv_basketball.Base.{
  ℕ, zero, suc, ◌+◌, ◌≤◌, ◌≡◌, Bool, false, not, ◌&&◌, Option, none, some, List, [], ◌∷◌, ◌++◌,
  Bytes, arith, length, take, drop, leb, ◌==◌, if◌then◌else◌, if_ind, ◌||◌, is_empty, subst,
  Option-cases, inl, inr,
}
use fujinet_intv_basketball.Wire.{t_list, t_lobby, t_join, t_room, t_go}
use fujinet_intv_basketball.Idlers.{hunt}
use fujinet_intv_basketball.Idlers.Main.{
  Options, Sent, Parked, last_of, park, is_hunter, is_goer, note_room, join_found, note_lobby, note,
  parse_from, stored, buf_of, serve, send_go, send_list, passes,
}

-- How many frames of a type were sent.
abbrev pub count : ℕ → List Sent → ℕ
count t [] = 0
count t (e ∷ sent) = if e.1 == t then suc (count t sent) else count t sent

count-append : (t : ℕ) (xs ys : List Sent) → count t (xs ++ ys) ≡ count t xs + count t ys
count-append t [] ys = omega arith
count-append t (e ∷ xs) ys = ground (arith, count-append t xs ys)

abbrev left : Bool → ℕ
left done = if done then 0 else 1

-- The frames sent, and those that may still be.
record Bounded (j g : ℕ) (w : Parked) : Type 0 where
  joins : count t_join w.sent + left w.joined ≤ j
  gos : count t_go w.sent + left w.went ≤ g

abbrev Holds {ℓ κ} : {A : Type ℓ} → (A → Type κ) → Option A → Type κ
Holds P none = Unit
Holds P (some a) = P a

Holds-bind {ℓ κ ℓ' κ'} :
    {A : Type ℓ} {B : Type ℓ'} (P : A → Type κ) (Q : B → Type κ') (x : Option A) (f : A → Option B)
    → Holds P x
    → ((a : A) → P a → Holds Q (f a))
    → Holds Q (elim x [ none ↦ none | some a ↦ f a ])
Holds-bind P Q none f h k = tt
Holds-bind P Q (some a) f h k = k a h

module _ (j g : ℕ) where
  abbrev B : Parked → Type 0
  B = Bounded j g

  note_room-Bounded : (at : ℕ) (body : Bytes) (w : Parked) → B w → Holds B (note_room at body w)
  unfolding note_room
  note_room-Bounded at [] w b = tt
  note_room-Bounded at (t ∷ []) w b = if_ind (Holds B) (t == t_room) (λ _. tt) (λ _. b)
  note_room-Bounded at (t ∷ count ∷ body) w b =
      if_ind (Holds B) (t == t_room && leb 2 count) (λ _. record { joins = b.joins; gos = b.gos })
        (λ _. b)

  join_found-Bounded :
      (name : Bytes) (found : Option (Option Bytes)) (w : Parked)
      → w.joined ≡ false
      → B w
      → Holds B (join_found name found w)
  join_found-Bounded name none w e b = tt
  join_found-Bounded name (some none) w e b = b
  join_found-Bounded name (some (some entry)) w e b = record {
    joins = ground (arith, count-append t_join w.sent ((name, t_join, entry) ∷ []), b.joins);
    gos = ground (arith, count-append t_go w.sent ((name, t_join, entry) ∷ []), b.gos);
  }

  note_lobby-Bounded :
      (prefix name body : Bytes) (w : Parked) → B w → Holds B (note_lobby prefix name body w)
  unfolding note_lobby
  note_lobby-Bounded prefix name [] w b = tt
  note_lobby-Bounded prefix name (t ∷ []) w b =
      if_ind (Holds B) (t == t_lobby && not w.joined) (λ _. tt) (λ _. b)
  note_lobby-Bounded prefix name (t ∷ count ∷ body) w b =
      if_ind (Holds B) (t == t_lobby && not w.joined)
        (λ e. join_found-Bounded name (hunt count 0 prefix (t ∷ count ∷ body)) w (ground arith) b)
        (λ _. b)

  note-Bounded :
      (o : Options) (now : ℕ) (name body : Bytes) (w : Parked)
      → B w
      → Holds B (note o now name body w)
  unfolding note
  note-Bounded o now name body w b =
      Holds-bind B B (if is_goer o name w then note_room (now + o.go_delay) body w else some w)
        (λ v. if is_hunter o name then note_lobby o.join_guest name body v else some v)
        (if_ind (Holds B) (is_goer o name w) (λ _. note_room-Bounded (now + o.go_delay) body w b)
          (λ _. b))
        (λ v h.
          if_ind (Holds B) (is_hunter o name) (λ _. note_lobby-Bounded o.join_guest name body v h)
            (λ _. h))

  abbrev R : Bytes × Parked → Type 0
  R r = B r.1

  parse_from-Bounded :
      (o : Options) (now : ℕ) (name : Bytes) (fuel : ℕ) (buf : Bytes) (w : Parked)
      → B w
      → Holds R (parse_from o now name fuel buf w)
  unfolding parse_from
  parse_from-Bounded o now name zero buf w b = b
  parse_from-Bounded o now name (suc fuel) [] w b = b
  parse_from-Bounded o now name (suc fuel) (n ∷ buf) w b =
      if_ind (Holds R) (leb 1 (length buf) && leb n (length buf))
        (λ _.
          Holds-bind B R (note o now name (take n buf) w)
            (λ v. parse_from o now name fuel (drop n buf) v)
            (note-Bounded o now name (take n buf) w b)
            (λ v h. parse_from-Bounded o now name fuel (drop n buf) v h))
        (λ _. b)

  stored-Bounded :
      (name : Bytes) (r : Option (Bytes × Parked)) → Holds R r → Holds B (stored name r)
  stored-Bounded name none h = tt
  stored-Bounded name (some (buf, w)) h = record { joins = h.joins; gos = h.gos }

  serve-Bounded :
      (o : Options) (now : ℕ) (answers : List (Bytes × Option Bytes)) (w : Parked)
      → B w
      → Holds B (serve o now answers w)
  unfolding serve
  serve-Bounded o now [] w b = b
  serve-Bounded o now ((name, none) ∷ rest) w b = serve-Bounded o now rest w b
  serve-Bounded o now ((name, some bytes) ∷ rest) w b =
      let buf = buf_of name w ++ bytes in
      Holds-bind B B (stored name (parse_from o now name (length buf) buf w))
        (λ v. serve o now rest v)
        (stored-Bounded name (parse_from o now name (length buf) buf w)
          (parse_from-Bounded o now name (length buf) buf w b))
        (λ v h. serve-Bounded o now rest v h)

  send_go-Bounded : (o : Options) (now : ℕ) (w : Parked) → B w → B (send_go o now w)
  unfolding send_go
  send_go-Bounded o now w b = elim (Option-cases w.go_at) [
    | inl e ↦ rw (e, send_go) b
    | inr (at, e) ↦
        rw (e, send_go)
          (if_ind B (leb at now && not w.went)
            (λ due. record {
              joins =
                  ground (arith, count-append t_join w.sent ((o.go_name, t_go, []) ∷ []), b.joins);
              gos = ground (arith, count-append t_go w.sent ((o.go_name, t_go, []) ∷ []), b.gos);
            })
            (λ _. b))
  ]

  send_list-Bounded : (o : Options) (w : Parked) → B w → B (send_list o w)
  unfolding send_list
  send_list-Bounded o w b =
      if_ind B (is_empty o.join_guest || w.joined) (λ _. b)
        (λ _. record {
          joins =
              ground
                (arith, count-append t_join w.sent ((last_of o.names, t_list, []) ∷ []), b.joins);
          gos =
              ground (arith, count-append t_go w.sent ((last_of o.names, t_list, []) ∷ []), b.gos);
        })

  passes-Bounded :
      (o : Options) (ps : List (ℕ × List (Bytes × Option Bytes))) (w : Parked)
      → B w
      → Holds B (passes o ps w)
  unfolding passes
  passes-Bounded o [] w b = b
  passes-Bounded o ((now, answers) ∷ rest) w b =
      Holds-bind B B (serve o now answers w) (λ v. passes o rest (send_list o (send_go o now v)))
        (serve-Bounded o now answers w b)
        (λ v h.
          passes-Bounded o rest (send_list o (send_go o now v))
            (send_list-Bounded o (send_go o now v) (send_go-Bounded o now v h)))

-- Whatever the sockets bring and however long the program runs: beside the frames of `--pair`, it sends
-- one JOIN at most, and one GO at most.
pub passes_once :
    (o : Options) (ps : List (ℕ × List (Bytes × Option Bytes))) {w : Parked}
    → passes o ps (park o) ≡ some w
    → (count t_join w.sent ≤ count t_join (park o).sent + 1)
      × (count t_go w.sent ≤ count t_go (park o).sent + 1)
passes_once o ps {w} e =
    let j = count t_join (park o).sent + 1 in
    let g = count t_go (park o).sent + 1 in
    let start : Bounded j g (park o) =
      unfold park in record { joins = omega arith; gos = omega arith } in
    let last : Bounded j g w =
      subst (Holds (Bounded j g)) e (passes-Bounded j g o ps (park o) start) in
    (ground (arith, last.joins), ground (arith, last.gos))
