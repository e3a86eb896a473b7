-- ===== src/Server/Bytes.antt =====
-- The bytes that the server keeps of a client and for it, through every single write.
use fujinet_intv_basketball.Base.{
  IsByte, ◌∙◌, ℕ, ◌<◌, ◌≤◌, ◌≡◌, refl, ap, subst, if_ind, [], ◌∷◌, ◌++◌, Bytes, arith, length, take,
  get_or, All, All-append, All-take, All-drop, ◌==◌,
}
use fujinet_intv_basketball.Wire.{frame, next, next_frame}
use fujinet_intv_basketball.Wire.Chunks.{next_frame-bytes}
use fujinet_intv_basketball.Crc.{Verdict, waiting, mismatch, agreed, report, word}
use fujinet_intv_basketball.Server.Types.{Client, Room, State}
use fujinet_intv_basketball.Server.State.{modify, unalias, lobby_update, queue, take_tx, retire}
use fujinet_intv_basketball.Server.Handlers.{
  register, drop_old_alias, open_room, begin_match, store_crc, settle, log_crc,
}
use fujinet_intv_basketball.Server.Loop.{admit, new_client, push_rx, set_rx}
use fujinet_intv_basketball.Server.Untouched.{log_crc-SameBut}
use fujinet_intv_basketball.Server.Composed.{framed}

-- Of a client: what has been received and not yet handled, what is queued, and what its socket took.
pub record Bytewise (s : State) : Type 0 where
  pub slow : s.delay < 256
  pub drawn : (r : ℕ) → (s.rooms r).seed < 65536
  pub heard : (c : ℕ) → All IsByte (s.heap c).rx
  pub queued : (c : ℕ) → All IsByte (s.heap c).tx
  pub taken : (c : ℕ) → All IsByte (s.heap c).wire

-- A write that touches none of it.
pub Bytewise-still :
    (s t : State)
    → Bytewise s
    → t.delay ≡ s.delay
    → ((r : ℕ) → (t.rooms r).seed ≡ (s.rooms r).seed)
    → ((c : ℕ) → (t.heap c).rx ≡ (s.heap c).rx)
    → ((c : ℕ) → (t.heap c).tx ≡ (s.heap c).tx)
    → ((c : ℕ) → (t.heap c).wire ≡ (s.heap c).wire)
    → Bytewise t
Bytewise-still s t b delays seeds rxs txs wires = record {
  slow = omega (arith, delays, b.slow);
  drawn = λ r. omega (arith, seeds r, b.drawn r);
  heard = λ c. rw (rxs c) (b.heard c);
  queued = λ c. rw (txs c) (b.queued c);
  taken = λ c. rw (wires c) (b.taken c);
}

All-first {ℓ} : (Q : ℕ → Type ℓ) (xs ys : Bytes) → All Q (xs ++ ys) → All Q xs
All-first Q [] ys h = tt
All-first Q (x ∷ xs) ys h = (h.0, All-first Q xs ys h.1)

All-last {ℓ} : (Q : ℕ → Type ℓ) (xs ys : Bytes) → All Q (xs ++ ys) → All Q ys
All-last Q [] ys h = h
All-last Q (x ∷ xs) ys h = All-last Q xs ys h.1

-- The type and the payload of a frame that is made of bytes.
abbrev pub FitsBytes : ℕ → Bytes → Type 0
FitsBytes t p = (t < 256) × All IsByte p

-- A frame at the head of a buffer of bytes is made of bytes.
pub heard-FitsBytes :
    (t : ℕ) (p rest rx : Bytes) → next_frame rx ≡ next t p rest → All IsByte rx → FitsBytes t p
unfolding frame
heard-FitsBytes t p rest rx e h =
    let whole : All IsByte (frame t p ++ rest) = subst (All IsByte) (next_frame-bytes rx e) h in
    (All-first IsByte (frame t p) rest whole).1

pub queue-Bytewise :
    (c t : ℕ) (p : Bytes) (s : State)
    → length p ≤ 199
    → FitsBytes t p
    → Bytewise s
    → Bytewise (queue c (frame t p) s)
unfolding queue
queue-Bytewise c t p s short fit b = record {
  slow = b.slow;
  drawn = b.drawn;
  heard = λ e. if_ind (λ (k : Client). All IsByte k.rx) (e == c) (λ _. b.heard e) (λ _. b.heard e);
  queued = λ e.
      if_ind (λ (k : Client). All IsByte k.tx) (e == c)
        (λ _.
          All-append IsByte (s.heap e).tx (frame t p) (b.queued e) (framed t p fit.0 short fit.1))
        (λ _. b.queued e);
  taken =
      λ e. if_ind (λ (k : Client). All IsByte k.wire) (e == c) (λ _. b.taken e) (λ _. b.taken e);
}

pub take_tx-Bytewise : (c n : ℕ) (s : State) → Bytewise s → Bytewise (take_tx c n s)
unfolding take_tx
take_tx-Bytewise c n s b = record {
  slow = b.slow;
  drawn = b.drawn;
  heard = λ e. if_ind (λ (k : Client). All IsByte k.rx) (e == c) (λ _. b.heard e) (λ _. b.heard e);
  queued = λ e.
      if_ind (λ (k : Client). All IsByte k.tx) (e == c)
        (λ _. All-drop IsByte n (s.heap e).tx (b.queued e)) (λ _. b.queued e);
  taken = λ e.
      if_ind (λ (k : Client). All IsByte k.wire) (e == c)
        (λ _.
          All-append IsByte (s.heap e).wire (take n (s.heap e).tx) (b.taken e)
            (All-take IsByte n (s.heap e).tx (b.queued e)))
        (λ _. b.taken e);
}

-- The buffer of a client becomes `rx`.
buffer-Bytewise :
    (c : ℕ) (rx : Bytes) (s : State)
    → All IsByte rx
    → Bytewise s
    → Bytewise (modify c (λ k. record k { rx = rx }) s)
buffer-Bytewise c rx s new b = record {
  slow = b.slow;
  drawn = b.drawn;
  heard = λ e. if_ind (λ (k : Client). All IsByte k.rx) (e == c) (λ _. new) (λ _. b.heard e);
  queued =
      λ e. if_ind (λ (k : Client). All IsByte k.tx) (e == c) (λ _. b.queued e) (λ _. b.queued e);
  taken =
      λ e. if_ind (λ (k : Client). All IsByte k.wire) (e == c) (λ _. b.taken e) (λ _. b.taken e);
}

pub push_rx-Bytewise :
    (c : ℕ) (bytes : Bytes) (s : State)
    → All IsByte bytes
    → Bytewise s
    → Bytewise (push_rx c bytes s)
unfolding push_rx
push_rx-Bytewise c bytes s new b = record {
  slow = b.slow;
  drawn = b.drawn;
  heard = λ e.
      if_ind (λ (k : Client). All IsByte k.rx) (e == c)
        (λ _. All-append IsByte (s.heap e).rx bytes (b.heard e) new) (λ _. b.heard e);
  queued =
      λ e. if_ind (λ (k : Client). All IsByte k.tx) (e == c) (λ _. b.queued e) (λ _. b.queued e);
  taken =
      λ e. if_ind (λ (k : Client). All IsByte k.wire) (e == c) (λ _. b.taken e) (λ _. b.taken e);
}

pub set_rx-Bytewise :
    (c t : ℕ) (p rest : Bytes) (s : State)
    → next_frame (s.heap c).rx ≡ next t p rest
    → Bytewise s
    → Bytewise (set_rx c rest s)
unfolding set_rx
set_rx-Bytewise c t p rest s e b =
    buffer-Bytewise c rest s
      (All-last IsByte (frame t p) rest
        (subst (All IsByte) (next_frame-bytes (s.heap c).rx e) (b.heard c)))
      b

pub admit-Bytewise : (host port now : ℕ) (s : State) → Bytewise s → Bytewise (admit host port now s)
unfolding admit new_client
admit-Bytewise host port now s b = record {
  slow = b.slow;
  drawn = b.drawn;
  heard =
      λ e. if_ind (λ (k : Client). All IsByte k.rx) (e == s.next_client) (λ _. tt) (λ _. b.heard e);
  queued = λ e.
      if_ind (λ (k : Client). All IsByte k.tx) (e == s.next_client) (λ _. tt) (λ _. b.queued e);
  taken = λ e.
      if_ind (λ (k : Client). All IsByte k.wire) (e == s.next_client) (λ _. tt) (λ _. b.taken e);
}

-- The writes that touch no bytes and draw no seed.
pub retire-Bytewise : (c : ℕ) (s : State) → Bytewise s → Bytewise (retire c s)
unfolding retire unalias lobby_update
retire-Bytewise c s b =
    Bytewise-still s (retire c s) b (ground arith) (λ r. ground arith) (λ e. ground arith)
      (λ e. ground arith) (λ e. ground arith)

pub rename-Bytewise :
    (c : ℕ) (name : Bytes) (s : State)
    → Bytewise s
    → Bytewise (lobby_update (register c name (drop_old_alias c name s)))
unfolding register drop_old_alias lobby_update
rename-Bytewise c name s b =
    Bytewise-still s (lobby_update (register c name (drop_old_alias c name s))) b (ground arith)
      (λ r. ground arith) (λ e. ground arith) (λ e. ground arith) (λ e. ground arith)

settle-seed :
    (r q : ℕ) (v : Verdict) (s : State)
    → (((settle r v s).rooms q).seed ≡ (s.rooms q).seed) × ((settle r v s).delay ≡ s.delay)
unfolding settle
settle-seed r q waiting s = (refl, refl)
settle-seed r q (mismatch t e) s = (refl, refl)
settle-seed r q (agreed t) s = (ground arith, ground arith)

log_crc-seed :
    (r q : ℕ) (p : Bytes) (s : State)
    → (((log_crc r p s).rooms q).seed ≡ (s.rooms q).seed) × ((log_crc r p s).delay ≡ s.delay)
unfolding log_crc store_crc
log_crc-seed r q p s =
    let result =
      report (length (s.rooms r).members) (get_or p 0 0) (word 1 p) (word 3 p) (s.rooms r).crc in
    let (seeds, delays) = settle-seed r q result.1 (store_crc r result.0 s) in
    (seeds ∙ ground arith, delays)

pub log_crc-Bytewise : (r : ℕ) (p : Bytes) (s : State) → Bytewise s → Bytewise (log_crc r p s)
log_crc-Bytewise r p s b =
    let same = (log_crc-SameBut r p s).same_heap in
    Bytewise-still s (log_crc r p s) b (log_crc-seed r r p s).1 (λ q. (log_crc-seed r q p s).0)
      (λ e. ap (λ (f : ℕ → Client). (f e).rx) same) (λ e. ap (λ (f : ℕ → Client). (f e).tx) same)
      (λ e. ap (λ (f : ℕ → Client). (f e).wire) same)

pub open_room-Bytewise : (target : ℕ) (s : State) → Bytewise s → Bytewise (open_room target s)
unfolding open_room
open_room-Bytewise target s b = record {
  slow = b.slow;
  drawn = λ r.
      if_ind (λ (room : Room). room.seed < 65536) (r == s.next_room) (λ _. omega arith)
        (λ _. b.drawn r);
  heard = λ e. ground (arith, b.heard e);
  queued = λ e. ground (arith, b.queued e);
  taken = λ e. ground (arith, b.taken e);
}

pub begin_match-Bytewise :
    (r seed : ℕ) (s : State) → seed < 65536 → Bytewise s → Bytewise (begin_match r seed s)
unfolding begin_match
begin_match-Bytewise r seed s small b = record {
  slow = b.slow;
  drawn = λ q. if_ind (λ (room : Room). room.seed < 65536) (q == r) (λ _. small) (λ _. b.drawn q);
  heard = b.heard;
  queued = b.queued;
  taken = b.taken;
}
