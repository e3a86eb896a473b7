-- ===== src/Client/Lobby.antt =====
-- The simulated console reads out of the server's LOBBY payload what the server put in.
use fujinet_intv_basketball.Base.{
  ℕ, zero, suc, ◌+◌, ◌*◌, ◌-◌, ◌≡◌, refl, sym, ap, ◌∙◌, true, some, List, [], ◌∷◌, ◌++◌,
  append_assoc, Bytes, arith, length, take, drop, replicate, all, All, get_elem?, if◌then◌else◌,
  bytes_eq, drop-length, length-append,
}
use fujinet_intv_basketball.Wire.{pad_name, ljust}
use fujinet_intv_basketball.Wire.Sizes.{length-pad_name}
use fujinet_intv_basketball.Names.{is_name, is_name_char}
use fujinet_intv_basketball.Names.RoundTrip.{take-all}
use fujinet_intv_basketball.Server.Types.{State}
use fujinet_intv_basketball.Server.Conn.{name_of}
use fujinet_intv_basketball.Server.Lobby.{status, others, lobby_entries, lobby_payload}
use fujinet_intv_basketball.Client.{
  strip_zeros, strip_cons, Found, absent, found, search, lobby_status,
}

strip-padding : (n : ℕ) → strip_zeros (replicate n 0) ≡ []
unfolding strip_zeros
strip-padding zero = refl
strip-padding (suc n) = rw (strip-padding n)

keep_char : (c : ℕ) (cs : List ℕ) → is_name_char c ≡ true → strip_cons c cs ≡ c ∷ cs
keep_char c [] h = ground arith
keep_char c (d ∷ cs) h = refl

strip-padded :
    (name : Bytes) (n : ℕ)
    → all is_name_char name ≡ true
    → strip_zeros (name ++ replicate n 0) ≡ name
unfolding strip_zeros
strip-padded [] n h = strip-padding n
strip-padded (c ∷ cs) n h = rw (strip-padded cs n (ground arith)) (keep_char c cs (ground arith))

strip_zeros-pad_name : (name : Bytes) → is_name name ≡ true → strip_zeros (pad_name name) ≡ name
unfolding pad_name ljust is_name
strip_zeros-pad_name name h =
    rw (take-all 8 name (ground arith)) (strip-padded name (8 - length name) (ground arith))

-- What the search ought to find: the status of the first client of that name.
unfoldable pub first_status : Bytes → List ℕ → State → Found
first_status name [] s = absent
first_status name (c ∷ cs) s =
    if bytes_eq (name_of c s) name then found (status c s) else first_status name cs s

take_prefix : (b rest : Bytes) (x : ℕ) → take (length b) (take (suc (length b)) (b ++ x ∷ rest)) ≡ b
take_prefix [] rest x = refl
take_prefix (y ∷ b) rest x = ap (λ r. y ∷ r) (take_prefix b rest x)

get_after :
    (b rest : Bytes) (x : ℕ) → get_elem? (take (suc (length b)) (b ++ x ∷ rest)) (length b) ≡ some x
get_after [] rest x = refl
get_after (y ∷ b) rest x = get_after b rest x

take-8 : (b rest : Bytes) (x : ℕ) → length b ≡ 8 → take 8 (take 9 (b ++ x ∷ rest)) ≡ b
take-8 b rest x h =
    ap (λ (n : ℕ). take n (take (suc n) (b ++ x ∷ rest))) (sym h) ∙ take_prefix b rest x

get-8 : (b rest : Bytes) (x : ℕ) → length b ≡ 8 → get_elem? (take 9 (b ++ x ∷ rest)) 8 ≡ some x
get-8 b rest x h =
    ap (λ (n : ℕ). get_elem? (take (suc n) (b ++ x ∷ rest)) n) (sym h) ∙ get_after b rest x

search-entries :
    (cs : List ℕ) (i : ℕ) (before name : Bytes) (s : State)
    → length before ≡ 1 + 9 * i
    → All (λ c. is_name (name_of c s) ≡ true) cs
    → search (length cs) i (before ++ lobby_entries cs s) name ≡ first_status name cs s
unfolding search first_status lobby_entries
search-entries [] i before name s h admitted = refl
search-entries (c ∷ cs) i before name s h admitted =
    let pad = pad_name (name_of c s) in
    let es = lobby_entries cs s in
    let all_entries = pad ++ status c s ∷ es in
    let here : drop (1 + 9 * i) (before ++ all_entries) ≡ all_entries =
      ap (λ (n : ℕ). drop n (before ++ all_entries)) (sym h) ∙ drop-length before all_entries in
    let wide = length-pad_name (name_of c s) in
    let longer : length ((before ++ pad) ++ status c s ∷ []) ≡ 1 + 9 * (i + 1) =
      omega (
        arith,
        h,
        wide,
        length-append before pad,
        length-append (before ++ pad) (status c s ∷ []),
      ) in
    let moved : before ++ all_entries ≡ ((before ++ pad) ++ status c s ∷ []) ++ es =
      sym (append_assoc before pad (status c s ∷ es))
      ∙ sym (append_assoc (before ++ pad) (status c s ∷ []) es) in
    let later =
      ap (λ (p : Bytes). search (length cs) (i + 1) p name) moved
      ∙ search-entries cs (i + 1) ((before ++ pad) ++ status c s ∷ []) name s longer admitted.1 in
    rw
      (
        here,
        take-8 pad es (status c s) wide,
        get-8 pad es (status c s) wide,
        strip_zeros-pad_name (name_of c s) admitted.0,
        later,
      )
      refl

-- Where every client that the lobby shows has an admitted name, the console finds in the payload the
-- status of the first client shown under a name, and nothing for a name that is not shown.
pub lobby_status-lobby_payload :
    (client : ℕ) (s : State) (name : Bytes)
    → All (λ c. is_name (name_of c s) ≡ true) (take 8 (others client s.by_name s))
    → lobby_status (lobby_payload client s) name
      ≡ first_status name (take 8 (others client s.by_name s)) s
unfolding lobby_status lobby_payload
lobby_status-lobby_payload client s name admitted =
    let cs = take 8 (others client s.by_name s) in
    search-entries cs 0 (length cs ∷ []) name s refl admitted
