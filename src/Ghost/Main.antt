-- ===== src/Ghost/Main.antt =====
-- tools/ghost_peer.py: `main`, on what the clock and the socket answer in each pass of its loop. Times
-- are in milliseconds. That a `sendall` fails is left out.
use Prim.Native.Nat.{min}
use fujinet_intv_basketball.Base.{
  ℕ, zero, suc, ◌+◌, ◌-◌, Bool, false, not, ◌&&◌, Option, none, some, List, [], ◌∷◌, ◌++◌, Bytes,
  length, take, drop, leb, ltb, if◌then◌else◌,
}
use fujinet_intv_basketball.Wire.{frame, t_hello, t_list}
use fujinet_intv_basketball.Ghost.{Options, Peer, say, react, has_passed}

-- What it sends first: it speaks version 1.
unfoldable pub ghost_hello : Bytes → Bytes
ghost_hello name = frame t_hello (1 ∷ name)

-- The head of the buffer: an incomplete frame, an `IndexError`, or the type, the payload and the rest. A
-- length byte of zero takes the byte behind it for the type and leaves it there.
pub data Head : Type 0 where
  short : Head
  index_error : Head
  whole : ℕ → Bytes → Bytes → Head

abbrev pub cut : ℕ → Bytes → Head
cut n [] = index_error
cut n (t ∷ p) = whole t (take (n - 1) p) (drop n (t ∷ p))

unfoldable pub head_of : Bytes → Head
head_of [] = short
head_of (n ∷ buf) = if leb n (length buf) then cut n buf else short

-- The loop over the frames of the buffer. Each takes a byte or more, so its length is fuel enough; none
-- is an exception.
abbrev pub take_frame :
    Options → (Bytes → Peer → Option (Bytes × Peer)) → Head → Bytes → Peer → Option (Bytes × Peer)
take_frame o again short buf g = some (buf, g)
take_frame o again index_error buf g = none
take_frame o again (whole t p rest) buf g = elim (react o t p g) [
  | none ↦ none
  | some h ↦ again rest h
]

unfoldable pub drain_from : Options → ℕ → Bytes → Peer → Option (Bytes × Peer)
unfolding head_of
drain_from o zero buf g = some (buf, g)
drain_from o (suc fuel) buf g = take_frame o (drain_from o fuel) (head_of buf) buf g

unfoldable pub drain_buf : Options → Bytes → Peer → Option (Bytes × Peer)
unfolding drain_from
drain_buf o buf = drain_from o (length buf) buf

pub data Answer : Type 0 where
  chunk : Bytes → Answer
  timed_out : Answer

-- What a pass sees: the clock at the head of the loop, at the test of the last LIST and after it, what
-- `recv` does, and the clock when the first PEER_LEFT of the pass is read. The clock does not go back,
-- so a later one does not move the deadline.
pub record Pass : Type 0 where
  pub head : ℕ
  pub polled : ℕ
  pub listed : ℕ
  pub answer : Answer
  pub left : ℕ

pub record Ghost : Type 0 where
  pub peer : Peer
  pub buf : Bytes
  pub last_list : ℕ
  pub deadline : ℕ

-- The loop goes on, has ended, or an exception has ended the program.
pub data Course : Type 0 where
  going : Ghost → Course
  ended : Ghost → Course
  crashed : Course

unfoldable pub poll_lobby : Pass → Ghost → Ghost
poll_lobby p s =
    if not s.peer.matched && ltb (s.last_list + 1000) p.polled
    then record s { peer = say (frame t_list []) s.peer; last_list = p.listed }
    else s

-- The end of a pass that took in a chunk, of an opponent that had or had not been left before.
unfoldable pub settle_pass : ℕ → Pass → Bool → Option (Bytes × Peer) → Ghost → Course
settle_pass want p was_left none s = crashed
settle_pass want p was_left (some (buf, peer)) s =
    let moved = record s {
      peer = peer;
      buf = buf;
      deadline =
          if peer.leaving && not was_left then min s.deadline (p.left + 1000) else s.deadline;
    } in
    if leb want peer.max_tick then ended moved else going moved

unfoldable pub on_answer : Options → ℕ → Pass → Answer → Ghost → Course
unfolding settle_pass drain_buf
on_answer o want p timed_out s = going s
on_answer o want p (chunk []) s = ended s
on_answer o want p (chunk (b ∷ bs)) s =
    settle_pass want p s.peer.leaving (drain_buf o (s.buf ++ b ∷ bs) s.peer) s

unfoldable pub ghost_loop : Options → ℕ → List Pass → Ghost → Course
unfolding poll_lobby on_answer
ghost_loop o want [] s = going s
ghost_loop o want (p ∷ ps) s =
    let next : Course = elim (on_answer o want p p.answer (poll_lobby p s)) [
      | going t ↦ ghost_loop o want ps t
      | ended t ↦ ended t
      | crashed ↦ crashed
    ] in
    if ltb p.head s.deadline then next else ended s

-- The state before the loop, by the clock and `--timeout`.
unfoldable pub start_ghost : Options → ℕ → ℕ → Ghost
unfolding ghost_hello
start_ghost o now timeout = record {
  peer = record {
    matched = false;
    inputs = 0;
    crcs = 0;
    max_tick = 0;
    crc_ticks = [];
    leaving = false;
    sent = ghost_hello o.name;
  };
  buf = [];
  last_list = 0;
  deadline = now + timeout;
}

-- Whether the exit status is 0; a program that has not ended has none.
unfoldable pub exits_ok : ℕ → Course → Bool
exits_ok want (going s) = false
exits_ok want (ended s) = has_passed want s.peer
exits_ok want crashed = false
