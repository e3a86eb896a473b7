-- ===== src/Diff/Chunks.antt =====
-- `sync` and `play` on bytes that come cut in different ways.
use mathlib.Core.Option
use fujinet_intv_basketball.Base.{
  ascii, ℕ, ◌≡◌, refl, sym, ap, ◌∙◌, Bool, true, false, not, subst, ◌||◌, Option, none, some, List,
  [], ◌∷◌, ◌++◌, append-nil, append_assoc, Bytes, ◌==◌, if◌then◌else◌, fun_ext, Bool-cases, inl,
  inr,
}
use fujinet_intv_basketball.Diff.{Scenario, compare, compare_refl}
use fujinet_intv_basketball.Diff.Harness.{
  Peer, Ctx, Act, connect, send, close, settle, take_in, drain, sync, play, first, later, on_synced,
  recorded, connected, shut, fresh,
}
use fujinet_intv_basketball.Diff.Logs.{run}

-- What was received for one client, in order.
unfoldable pub chunks : ℕ → List (ℕ × Bytes) → List Bytes
chunks k [] = []
chunks k ((j, bytes) ∷ r) = if k == j then bytes ∷ chunks k r else chunks k r

-- The bytes up to the end of the stream, and whether that was seen.
unfoldable pub heard : List Bytes → Bytes × Bool
heard [] = ([], false)
heard ([] ∷ cs) = ([], true)
heard ((b ∷ bs) ∷ cs) = ((b ∷ bs) ++ (heard cs).0, (heard cs).1)

-- Each client hears the same in both.
abbrev pub IsSame : List (ℕ × Bytes) → List (ℕ × Bytes) → Type 0
IsSame r t = (k : ℕ) → heard (chunks k r) ≡ heard (chunks k t)

abbrev pub IsSameAll : List (List (ℕ × Bytes)) → List (List (ℕ × Bytes)) → Type 0
IsSameAll [] [] = Unit {0}
IsSameAll [] (t ∷ ts) = ⊥
IsSameAll (r ∷ rs) [] = ⊥
IsSameAll (r ∷ rs) (t ∷ ts) = IsSame r t × IsSameAll rs ts

listened : List Bytes → Peer → Peer
listened [] p = p
listened (bytes ∷ cs) p = listened cs (if not p.closed then take_in bytes p else p)

drain-listened :
    (r : List (ℕ × Bytes)) (peers : ℕ → Peer) (k : ℕ)
    → drain r peers k ≡ listened (chunks k r) (peers k)
unfolding drain listened chunks
drain-listened [] peers k = refl
drain-listened ((j, bytes) ∷ r) peers k =
    drain-listened r _ k
    ∙ elim (Bool-cases (k == j)) [ inl here ↦ rw here refl | inr away ↦ rw away refl ]

abbrev peer : Bytes → Bytes → Bool → Bool → Peer
peer label buf closed seen = record { label = label; buf = buf; closed = closed; eof_seen = seen }

listened-closed :
    (cs : List Bytes) (label buf : Bytes) (seen : Bool)
    → listened cs (peer label buf true seen) ≡ peer label buf true seen
unfolding listened
listened-closed [] label buf seen = refl
listened-closed (bytes ∷ cs) label buf seen = listened-closed cs label buf seen

or_false : (b : Bool) → (b || false) ≡ b
or_false true = refl
or_false false = refl

or_true : (b : Bool) → (b || true) ≡ true
or_true true = refl
or_true false = refl

-- What an open client makes of what it hears.
listened-heard :
    (cs : List Bytes) (label buf : Bytes) (seen : Bool)
    → listened cs (peer label buf false seen)
      ≡ peer label (buf ++ (heard cs).0) (heard cs).1 (seen || (heard cs).1)
unfolding listened heard take_in
listened-heard [] label buf seen = rw (append-nil buf, or_false seen) refl
listened-heard ([] ∷ cs) label buf seen =
    rw (append-nil buf, or_true seen) (listened-closed cs label buf true)
listened-heard ((b ∷ bs) ∷ cs) label buf seen =
    listened-heard cs label (buf ++ b ∷ bs) seen
    ∙ ap (λ l. peer label l (heard cs).1 (seen || (heard cs).1))
        (append_assoc buf (b ∷ bs) (heard cs).0)

listened_same :
    (cs ds : List Bytes) (label buf : Bytes) (closed seen : Bool)
    → heard cs ≡ heard ds
    → listened cs (peer label buf closed seen) ≡ listened ds (peer label buf closed seen)
listened_same cs ds label buf true seen e =
    listened-closed cs label buf seen ∙ sym (listened-closed ds label buf seen)
listened_same cs ds label buf false seen e =
    listened-heard cs label buf seen
    ∙ ap (λ (h : Bytes × Bool). peer label (buf ++ h.0) h.1 (seen || h.1)) e
    ∙ sym (listened-heard ds label buf seen)

drain_same :
    (r t : List (ℕ × Bytes)) (peers : ℕ → Peer) → IsSame r t → drain r peers ≡ drain t peers
drain_same r t peers same = fun_ext λ k.
    let p = peers k in
    drain-listened r peers k
    ∙ listened_same (chunks k r) (chunks k t) p.label p.buf p.closed p.eof_seen (same k)
    ∙ sym (drain-listened t peers k)

sync_same :
    (step : Bytes) (r t : List (ℕ × Bytes)) (x : Ctx) → IsSame r t → sync step r x ≡ sync step t x
unfolding sync
sync_same step r t x same = ap (λ peers. recorded step peers x) (drain_same r t x.peers same)

first-IsSame : (rs ts : List (List (ℕ × Bytes))) → IsSameAll rs ts → IsSame (first rs) (first ts)
first-IsSame [] [] same = λ k. refl
first-IsSame [] (t ∷ ts) same = absurd same
first-IsSame (r ∷ rs) [] same = absurd same
first-IsSame (r ∷ rs) (t ∷ ts) same = same.0

later-IsSameAll :
    (rs ts : List (List (ℕ × Bytes))) → IsSameAll rs ts → IsSameAll (later rs) (later ts)
later-IsSameAll [] [] same = tt
later-IsSameAll [] (t ∷ ts) same = absurd same
later-IsSameAll (r ∷ rs) [] same = absurd same
later-IsSameAll (r ∷ rs) (t ∷ ts) same = same.1

on_synced-cong :
    (o : Option Ctx) (f g : Ctx → Option Ctx)
    → ((y : Ctx) → f y ≡ g y)
    → on_synced f o ≡ on_synced g o
on_synced-cong none f g same = refl
on_synced-cong (some y) f g same = same y

play_same :
    (acts : List Act) (rs ts : List (List (ℕ × Bytes))) (x : Ctx)
    → IsSameAll rs ts
    → play acts rs x ≡ play acts ts x
unfolding play
play_same [] rs ts x same = refl
play_same (connect label ∷ acts) rs ts x same = play_same acts rs ts (connected label x) same
play_same (send c bytes ∷ acts) rs ts x same = play_same acts rs ts x same
play_same (close c ∷ acts) rs ts x same = play_same acts rs ts (shut c x) same
play_same (settle step ∷ acts) rs ts x same =
    ap (on_synced (λ y. play acts (later rs) y))
      (sync_same step (first rs) (first ts) x (first-IsSame rs ts same))
    ∙ on_synced-cong (sync step (first ts) x) (λ y. play acts (later rs) y)
        (λ y. play acts (later ts) y)
        (λ y. play_same acts (later rs) (later ts) y (later-IsSameAll rs ts same))

-- Two servers that send every client the same bytes at each step of a scenario and log the same are
-- never told apart, under any name and any options: `compare` passes, however the bytes of each were
-- cut into `recv`s, and in whatever order the sockets were read.
pub compare_any_chunks :
    (scenario : Scenario) (proto : ℕ) (strict : Bool) (acts : List Act)
    (rs ts : List (List (ℕ × Bytes))) (log : List Bytes) (py c : List Bytes × ℕ)
    → IsSameAll rs ts
    → run proto acts rs log ≡ some py
    → run proto acts ts log ≡ some c
    → compare scenario proto strict py.0 c.0 ≡ true
unfolding run
compare_any_chunks scenario proto strict acts rs ts log py c same d e =
    let acts' = acts ++ settle (ascii "final") ∷ [] in
    let alike = play_same acts' rs ts (fresh proto) same in
    let equal : py ≡ c = some_eq py c (sym d ∙ ap (Option.map _) alike ∙ e) in
    subst (λ (l : List Bytes × ℕ). compare scenario proto strict py.0 l.0 ≡ true) equal
      (compare_refl scenario proto strict py.0)
  where
    some_eq : (a b : List Bytes × ℕ) → some a ≡ some b → a ≡ b
    some_eq a b h = cc
