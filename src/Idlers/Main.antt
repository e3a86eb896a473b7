-- ===== src/Idlers/Main.antt =====
-- test/lobby_idlers.py: the program, on what the clock and each socket answer in each pass of its loop.
-- Idlers are known by their names, as in its dict `socks`. Times are in milliseconds.
use fujinet_intv_basketball.Base.{
  ℕ, zero, suc, ◌+◌, Bool, true, false, not, ◌&&◌, ◌||◌, Option, none, some, List, [], ◌∷◌, ◌++◌,
  Bytes, length, take, drop, leb, ◌==◌, if◌then◌else◌, bytes_eq, find, store, is_empty,
}
use fujinet_intv_basketball.Wire.{ljust, t_hello, t_list, t_lobby, t_join, t_room, t_go}
use fujinet_intv_basketball.Idlers.{hunt}

-- The options; an empty `--go-name` or `--join-guest` counts as absent.
pub record Options : Type 0 where
  pub names : List Bytes
  pub pair : Bool
  pub go_name : Bytes
  pub go_delay : ℕ
  pub join_guest : Bytes

-- A frame that an idler sends: its name, the type and the payload.
abbrev pub Sent : Type 0
Sent = Bytes × ℕ × Bytes

-- `bufs`, `joined`, `go_at`, whether GO has been sent, and what was sent so far.
pub record Parked : Type 0 where
  pub bufs : List (Bytes × Bytes)
  pub joined : Bool
  pub go_at : Option ℕ
  pub went : Bool
  pub sent : List Sent

abbrev pub put : Bytes → ℕ → Bytes → Parked → Parked
put name t payload w = record w { sent = w.sent ++ (name, t, payload) ∷ [] }

-- The greetings, and the frames of `--pair`.
unfoldable pub greetings : List Bytes → List Sent
greetings [] = []
greetings (n ∷ names) = (n, t_hello, 2 ∷ n) ∷ greetings names

unfoldable pub pairing : Bool → List Bytes → List Sent
unfolding ljust
pairing true (joiner ∷ target ∷ names) = (joiner, t_join, ljust 8 target) ∷ (target, t_go, []) ∷ []
pairing true (n ∷ []) = []
pairing true [] = []
pairing false names = []

abbrev pub empty_bufs : List Bytes → List (Bytes × Bytes) → List (Bytes × Bytes)
empty_bufs [] bufs = bufs
empty_bufs (n ∷ names) bufs = empty_bufs names (store n [] bufs)

unfoldable pub park : Options → Parked
unfolding greetings pairing
park o = record {
  bufs = empty_bufs o.names [];
  joined = false;
  go_at = none;
  went = false;
  sent = greetings o.names ++ pairing o.pair o.names;
}

abbrev pub last_of : List Bytes → Bytes
last_of [] = []
last_of (n ∷ []) = n
last_of (n ∷ m ∷ names) = last_of (m ∷ names)

unfoldable pub is_hunter : Options → Bytes → Bool
is_hunter o name = not (is_empty o.join_guest) && bytes_eq name (last_of o.names)

unfoldable pub is_goer : Options → Bytes → Parked → Bool
is_goer o name w = not (is_empty o.go_name) && bytes_eq name o.go_name && not w.went

-- The first test on a body; none is an `IndexError`.
unfoldable pub note_room : ℕ → Bytes → Parked → Option Parked
note_room at [] w = none
note_room at (t ∷ []) w = if t == t_room then none else some w
note_room at (t ∷ count ∷ body) w =
    if t == t_room && leb 2 count
    then some (record w { go_at = elim w.go_at [ none ↦ some at | some early ↦ some early ] })
    else some w

abbrev pub join_found : Bytes → Option (Option Bytes) → Parked → Option Parked
join_found name none w = none
join_found name (some none) w = some w
join_found name (some (some entry)) w = some (put name t_join entry (record w { joined = true }))

-- The second.
unfoldable pub note_lobby : Bytes → Bytes → Bytes → Parked → Option Parked
unfolding hunt
note_lobby prefix name [] w = none
note_lobby prefix name (t ∷ []) w = if t == t_lobby && not w.joined then none else some w
note_lobby prefix name (t ∷ count ∷ body) w =
    if t == t_lobby && not w.joined
    then join_found name (hunt count 0 prefix (t ∷ count ∷ body)) w
    else some w

unfoldable pub note : Options → ℕ → Bytes → Bytes → Parked → Option Parked
unfolding note_room note_lobby is_goer is_hunter
note o now name body w =
    let hunted : Option Parked → Option Parked = λ x. elim x [
      | none ↦ none
      | some v ↦ if is_hunter o name then note_lobby o.join_guest name body v else some v
    ] in
    hunted (if is_goer o name w then note_room (now + o.go_delay) body w else some w)

-- The loop over the frames of one buffer, which takes a byte or more each turn.
unfoldable pub parse_from : Options → ℕ → Bytes → ℕ → Bytes → Parked → Option (Bytes × Parked)
unfolding note
parse_from o now name zero buf w = some (buf, w)
parse_from o now name (suc fuel) [] w = some ([], w)
parse_from o now name (suc fuel) (n ∷ buf) w =
    let next : Option (Bytes × Parked) = elim (note o now name (take n buf) w) [
      | none ↦ none
      | some v ↦ parse_from o now name fuel (drop n buf) v
    ] in
    if leb 1 (length buf) && leb n (length buf) then next else some (n ∷ buf, w)

abbrev pub stored : Bytes → Option (Bytes × Parked) → Option Parked
stored name none = none
stored name (some (buf, w)) = some (record w { bufs = store name buf w.bufs })

abbrev pub buf_of : Bytes → Parked → Bytes
buf_of name w = elim (find name w.bufs) [ none ↦ [] | some buf ↦ buf ]

-- The idlers in turn, each with what its `recv` returns, or none for an exception.
unfoldable pub serve : Options → ℕ → List (Bytes × Option Bytes) → Parked → Option Parked
unfolding parse_from
serve o now [] w = some w
serve o now ((name, none) ∷ rest) w = serve o now rest w
serve o now ((name, some bytes) ∷ rest) w =
    let buf = buf_of name w ++ bytes in
    elim (stored name (parse_from o now name (length buf) buf w)) [
      | none ↦ none
      | some v ↦ serve o now rest v
    ]

-- The end of a pass: GO, once its time has come, and LIST, until the hunter has joined.
unfoldable pub send_go : Options → ℕ → Parked → Parked
send_go o now w = elim w.go_at [
  | none ↦ w
  | some at ↦
      if leb at now && not w.went
      then put o.go_name t_go [] (record w { go_at = none; went = true })
      else w
]

unfoldable pub send_list : Options → Parked → Parked
send_list o w = if is_empty o.join_guest || w.joined then w else put (last_of o.names) t_list [] w

-- The passes of the loop, each with its time.
unfoldable pub passes : Options → List (ℕ × List (Bytes × Option Bytes)) → Parked → Option Parked
unfolding serve send_go send_list
passes o [] w = some w
passes o ((now, answers) ∷ rest) w = elim (serve o now answers w) [
  | none ↦ none
  | some v ↦ passes o rest (send_list o (send_go o now v))
]
