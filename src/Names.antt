-- ===== src/Names.antt =====
-- server/intv_relay_server.py: how `on_hello` and `on_join` read a player's name off the wire.
pub mod RoundTrip
mod Tests
use fujinet_intv_basketball.Base.{
  ℕ, Bool, true, false, ◌&&◌, ◌||◌, List, [], ◌∷◌, map, Bytes, length, all, ltb, leb, ◌==◌,
  if◌then◌else◌,
}

-- `bytes.decode("ascii", "replace")`, to code points: a byte of 128 or more reads as U+FFFD.
unfoldable pub decode_ascii : Bytes → List ℕ
decode_ascii = map (λ b. if ltb b 128 then b else 0xFFFD)

abbrev pub is_padding : ℕ → Bool
is_padding c = c == 0 || c == 32

abbrev strip_cons : ℕ → List ℕ → List ℕ
strip_cons c [] = if is_padding c then [] else c ∷ []
strip_cons c (d ∷ r) = c ∷ d ∷ r

-- `str.rstrip("\0 ")`
unfoldable pub rstrip : List ℕ → List ℕ
rstrip [] = []
rstrip (c ∷ cs) = strip_cons c (rstrip cs)

unfoldable pub read_name : Bytes → List ℕ
unfolding decode_ascii rstrip
read_name b = rstrip (decode_ascii b)

-- Membership of `NAME_CHARS`.
abbrev pub is_name_char : ℕ → Bool
is_name_char c = leb b'A' c && leb c b'Z' || leb b'0' c && leb c b'9'

unfoldable pub is_name : List ℕ → Bool
is_name name = leb 2 (length name) && leb (length name) 8 && all is_name_char name
