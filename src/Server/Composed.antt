-- ===== src/Server/Composed.antt =====
-- The frames that the server composes itself are byte strings: no value of them reaches 256.
use Prim.Native.Nat.{bit_or}
use fujinet_intv_basketball.Base.{
  IsByte, all, ℕ, zero, suc, ◌-◌, ◌*◌, ◌≤◌, ◌<◌, ◌≡◌, refl, Bool, true, false, ◌||◌, Option, none,
  some, List, [], ◌∷◌, Bytes, arith, length, take, leb, replicate, All, All-append, All-take,
  All-replicate, Option-cases, inl, inr, if◌then◌else◌, length-take,
}
use fujinet_intv_basketball.Wire.{frame, pad_name, ljust}
use fujinet_intv_basketball.Names.{is_name, is_name_char}
use fujinet_intv_basketball.Server.Types.{Room, State, max_seats, roster_slots}
use fujinet_intv_basketball.Server.Conn.{name_of, pads, roster}
use fujinet_intv_basketball.Server.Lobby.{room_status, status, others, lobby_entries, lobby_payload}
use fujinet_intv_basketball.Server.Sound.{Sound}

name_char-IsByte : (c : ℕ) → is_name_char c ≡ true → IsByte c
name_char-IsByte c h = ground arith

chars-IsByte : (n : Bytes) → all is_name_char n ≡ true → All IsByte n
chars-IsByte [] h = tt
chars-IsByte (c ∷ n) h = (name_char-IsByte c (ground arith), chars-IsByte n (ground arith))

-- An admitted name is made of bytes.
name-IsByte : (n : Bytes) → is_name n ≡ true → All IsByte n
unfolding is_name
name-IsByte n h = chars-IsByte n (ground arith)

-- A payload of at most 199 bytes in a frame.
pub framed : (t : ℕ) (p : Bytes) → t < 256 → length p ≤ 199 → All IsByte p → All IsByte (frame t p)
unfolding frame
framed t p ht hl h = (omega arith, (ht, h))

padded : (n : Bytes) → All IsByte n → All IsByte (pad_name n)
unfolding pad_name ljust
padded n h =
    All-append IsByte (take 8 n) (replicate (8 - length (take 8 n)) 0) (All-take IsByte 8 n h)
      (All-replicate IsByte (8 - length (take 8 n)) 0 (omega arith))

name_bytes :
    (o : Option Bytes)
    → ((n : Bytes) → o ≡ some n → All IsByte n)
    → All IsByte (elim o as (λ _. Bytes) [ none ↦ [] | some n ↦ n ])
name_bytes none h = tt
name_bytes (some n) h = h n refl

module _ (s : State) (v : Sound s) where
  pub named : (c : ℕ) → All IsByte (pad_name (name_of c s))
  named c =
      padded (name_of c s) (name_bytes (s.heap c).name (λ n e. name-IsByte n (v.admitted c n e)))

  pads_named : (ms : List ℕ) → All IsByte (pads ms s)
  unfolding pads
  pads_named [] = tt
  pads_named (m ∷ ms) =
      All-append IsByte (pad_name (name_of m s)) (pads ms s) (named m) (pads_named ms)

  pub rostered : (room : Room) → All IsByte (roster room s)
  unfolding roster
  rostered room =
      All-append IsByte (pads room.members s)
        (replicate (8 * (roster_slots - length room.members)) 0) (pads_named room.members)
        (All-replicate IsByte (8 * (roster_slots - length room.members)) 0 (omega arith))

  flagged : (full : Bool) (n : ℕ) → n ≤ 2 → bit_or (if full then 0x80 else 0) n < 256
  flagged true zero h = omega arith
  flagged true (suc zero) h = omega arith
  flagged true (suc (suc zero)) h = omega arith
  flagged true (suc (suc (suc n))) h = absurd (omega arith)
  flagged false zero h = omega arith
  flagged false (suc zero) h = omega arith
  flagged false (suc (suc zero)) h = omega arith
  flagged false (suc (suc (suc n))) h = absurd (omega arith)

  status-IsByte : (c : ℕ) → IsByte (status c s)
  unfolding status room_status
  status-IsByte c = elim (Option-cases (s.heap c).room) [
    | inl e ↦ rw (e, status) (omega arith)
    | inr (r, e) ↦
        rw (e, status)
          (flagged ((s.rooms r).started || leb max_seats (length (s.rooms r).members))
            (length (s.rooms r).members) (v.capacity r))
  ]

  entered : (cs : List ℕ) → All IsByte (lobby_entries cs s)
  unfolding lobby_entries
  entered [] = tt
  entered (c ∷ cs) =
      All-append IsByte (pad_name (name_of c s)) (status c s ∷ lobby_entries cs s) (named c)
        (status-IsByte c, entered cs)

  pub listed : (c : ℕ) → All IsByte (lobby_payload c s)
  unfolding lobby_payload
  listed c =
      (omega (arith, length-take 8 (others c s.by_name s)), entered (take 8 (others c s.by_name s)))
