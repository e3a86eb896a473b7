-- ===== src/Wire.antt =====
-- server/intv_relay_server.py: the wire format. `frame`, `pad_name`, the message types and the
-- split of a receive buffer into frames that `Server.service` makes.
pub mod Chunks
pub mod Sizes
mod Tests
use fujinet_intv_basketball.Base.{
  ℕ, zero, suc, ◌+◌, ◌-◌, Bool, ◌||◌, List, [], ◌∷◌, ◌++◌, Bytes, length, take, drop, replicate,
  true, false, ltb, if◌then◌else◌,
}

-- The message types.
abbrev pub t_hello : ℕ
t_hello = 0x01

abbrev pub t_list : ℕ
t_list = 0x02

abbrev pub t_lobby : ℕ
t_lobby = 0x03

abbrev pub t_join : ℕ
t_join = 0x04

abbrev pub t_start : ℕ
t_start = 0x05

abbrev pub t_input : ℕ
t_input = 0x06

abbrev pub t_crc : ℕ
t_crc = 0x07

abbrev pub t_state : ℕ
t_state = 0x08

abbrev pub t_resync : ℕ
t_resync = 0x09

abbrev pub t_bye : ℕ
t_bye = 0x0A

abbrev pub t_peer_left : ℕ
t_peer_left = 0x0B

abbrev pub t_ping : ℕ
t_ping = 0x0C

abbrev pub t_pong : ℕ
t_pong = 0x0D

abbrev pub t_room : ℕ
t_room = 0x0E

abbrev pub t_go : ℕ
t_go = 0x0F

-- The assertion `len(body) <= 255` has no counterpart: see Wire/Sizes.antt.
unfoldable pub frame : ℕ → Bytes → Bytes
frame ftype payload = length (ftype ∷ payload) ∷ ftype ∷ payload

-- `bytes.ljust(w, b"\0")`
unfoldable pub ljust : ℕ → Bytes → Bytes
ljust w b = b ++ replicate (w - length b) 0

unfoldable pub pad_name : Bytes → Bytes
unfolding ljust
pad_name name = ljust 8 (take 8 name)

-- What the head of a receive buffer holds: too little, a length byte out of range, or a frame's
-- type and payload before the rest.
pub data Next : Type 0 where
  wait : Next
  bad_length : ℕ → Next
  next : ℕ → Bytes → Bytes → Next

-- `body[0]`, `body[1:]`; the length test above rules the empty body out.
unfoldable pub split_body : ℕ → Bytes → Bytes → Next
split_body l [] rest = bad_length l
split_body l (ftype ∷ payload) rest = next ftype payload rest

unfoldable pub next_frame : Bytes → Next
unfolding split_body
next_frame [] = wait
next_frame (l ∷ rx) =
    if ltb (l + 1) 2 || ltb 200 l
    then bad_length l
    else (if ltb (length rx) l then wait else split_body l (take l rx) (drop l rx))

-- What one pass over the buffer yields: the frames in order, the bytes left, and a bad length byte
-- as the flag.
pub record Batch : Type 0 where
  pub frames : List (ℕ × Bytes)
  pub left : Bytes
  pub bad : Bool

abbrev pub on_next : Next → (Bytes → Batch) → Bytes → Batch
on_next wait k rx = record { frames = []; left = rx; bad = false }
on_next (bad_length l) k rx = record { frames = []; left = rx; bad = true }
on_next (next t p rest) k rx = let b = k rest in record b { frames = (t, p) ∷ b.frames }

-- The loop of `Server.service` with the handler left out: fuel bounds the frames.
unfoldable pub scan : ℕ → Bytes → Batch
scan zero rx = record { frames = []; left = rx; bad = false }
scan (suc fuel) rx = on_next (next_frame rx) (scan fuel) rx

-- Each frame takes two bytes or more, so the buffer's length is fuel enough.
unfoldable pub split_frames : Bytes → Batch
unfolding scan
split_frames rx = scan (length rx) rx

-- The bytes of a list of frames.
unfoldable pub encode : List (ℕ × Bytes) → Bytes
unfolding frame
encode [] = []
encode ((t, p) ∷ fs) = frame t p ++ encode fs
