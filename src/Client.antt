-- ===== src/Client.antt =====
-- tools/bbnet_client_sim.py: how a simulated console reads the server's frames, the lobby and the
-- roster. Names are compared as bytes: `decode` does not change ASCII.
pub mod Lobby
pub mod Frames
pub mod Sim
pub mod Scenarios
mod Tests
use Prim.Native.Nat.{bit_or}
use fujinet_intv_basketball.Base.{
  ℕ, zero, suc, ◌+◌, ◌*◌, ◌-◌, Option, none, some, List, [], ◌∷◌, Bytes, length, take, drop,
  get_elem?, leb, ltb, ◌==◌, if◌then◌else◌, bytes_eq,
}

-- `st`, the status expected of a room of `n` where a full room has so many seats.
unfoldable pub st : ℕ → ℕ → ℕ
st seats n = if leb seats n then bit_or 0x80 n else n

-- One turn of the loop of `recv_frame`: it waits for more bytes, fails on an empty body, or takes a
-- frame and keeps the rest.
pub data Taken : Type 0 where
  more : Taken
  empty_body : Taken
  taken : ℕ → Bytes → Bytes → Taken

abbrev pub open_body : Bytes → Bytes → Taken
open_body [] rest = empty_body
open_body (t ∷ p) rest = taken t p rest

unfoldable pub recv_frame : Bytes → Taken
recv_frame [] = more
recv_frame (l ∷ buf) =
    if leb (l + 1) (suc (length buf)) then open_body (take l buf) (drop l buf) else more

abbrev pub strip_cons : ℕ → Bytes → Bytes
strip_cons c [] = if c == 0 then [] else c ∷ []
strip_cons c (d ∷ r) = c ∷ d ∷ r

-- `rstrip(b"\0")`
unfoldable pub strip_zeros : Bytes → Bytes
strip_zeros [] = []
strip_zeros (c ∷ cs) = strip_cons c (strip_zeros cs)

-- How the search in a LOBBY payload ends: `None`, an `IndexError` on a short entry, or a status.
pub data Found : Type 0 where
  absent : Found
  short_entry : Found
  found : ℕ → Found

abbrev pub entry_status : Option ℕ → Found
entry_status none = short_entry
entry_status (some status) = found status

-- The loop of `lobby_status` over `n` entries from entry `i` on.
unfoldable pub search : ℕ → ℕ → Bytes → Bytes → Found
unfolding strip_zeros
search zero i payload name = absent
search (suc n) i payload name =
    let e = take 9 (drop (1 + 9 * i) payload) in
    if bytes_eq (strip_zeros (take 8 e)) name
    then entry_status (get_elem? e 8)
    else search n (i + 1) payload name

-- `lobby_status`; the empty payload is an `IndexError`.
unfoldable pub lobby_status : Bytes → Bytes → Found
unfolding search
lobby_status [] name = short_entry
lobby_status (n ∷ rest) name = search n 0 (n ∷ rest) name

-- `roster_names`
unfoldable pub roster_names : Bytes → List Bytes
unfolding strip_zeros
roster_names raw =
    strip_zeros (take 8 raw)
    ∷ strip_zeros (take 8 (drop 8 raw))
    ∷ strip_zeros (take 8 (drop 16 raw))
    ∷ strip_zeros (take 8 (drop 24 raw))
    ∷ []
