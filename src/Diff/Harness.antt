-- ===== src/Diff/Harness.antt =====
-- tools/server_diff.py: `class Ctx` and its `Client`, on which the scenarios play. What a server
-- answers is a parameter: for each `sync`, what `recv` returned in its loop, in that order.
use fujinet_intv_basketball.Base.{
  ℕ, zero, suc, ◌+◌, ◌/◌, ◌%◌, Bool, true, false, not, ◌&&◌, Option, none, some, List, [], ◌∷◌,
  ◌++◌, Bytes, length, take, drop, leb, ltb, ◌==◌, if◌then◌else◌, ascii,
}
use fujinet_intv_basketball.Wire.{frame, t_hello, t_start}

-- `class Client`
pub record Peer : Type 0 where
  pub label : Bytes
  pub buf : Bytes
  pub closed : Bool
  pub eof_seen : Bool

-- `class Ctx`: its clients by their place in the order of creation.
pub record Ctx : Type 0 where
  pub proto : ℕ
  pub peers : ℕ → Peer
  pub count : ℕ
  pub transcript : List Bytes
  pub step : ℕ

-- A digit of `hex()`, and one of a `02X` format.
unfoldable pub digit : ℕ → ℕ
digit n = if ltb n 10 then b'0' + n else 87 + n

unfoldable pub capital : ℕ → ℕ
capital n = if ltb n 10 then b'0' + n else 55 + n

unfoldable pub hex : Bytes → Bytes
unfolding digit
hex [] = []
hex (b ∷ bs) = digit (b / 16) ∷ digit (b % 16) ∷ hex bs

-- `TNAME`
abbrev pub type_names : List (ℕ × Bytes)
type_names =
    (0x01, ascii "HELLO")
    ∷ (0x02, ascii "LIST")
    ∷ (0x03, ascii "LOBBY")
    ∷ (0x04, ascii "JOIN")
    ∷ (0x05, ascii "START")
    ∷ (0x06, ascii "INPUT")
    ∷ (0x07, ascii "CRC")
    ∷ (0x08, ascii "STATE")
    ∷ (0x09, ascii "RESYNC")
    ∷ (0x0A, ascii "BYE")
    ∷ (0x0B, ascii "PEER_LEFT")
    ∷ (0x0C, ascii "PING")
    ∷ (0x0D, ascii "PONG")
    ∷ (0x0E, ascii "ROOM")
    ∷ (0x0F, ascii "GO")
    ∷ []

-- `TNAME.get(t, f"${t:02X}")`
unfoldable pub name_in : List (ℕ × Bytes) → ℕ → Bytes
unfolding capital
name_in [] t = b'$' ∷ capital (t / 16) ∷ capital (t % 16) ∷ []
name_in ((k, n) ∷ names) t = if t == k then n else name_in names t

abbrev pub has_seed : ℕ → Bytes → Bool
has_seed t payload = t == t_start && leb 4 (length payload)

-- `p[lo:lo + 2] = b"\xAA\xAA"`
abbrev pub mask : ℕ → Bytes → Bytes
mask proto payload =
    let lo = if proto == 1 then 1 else 2 in take lo payload ++ 0xAA ∷ 0xAA ∷ drop (lo + 2) payload

-- `render` of a frame that has a type.
unfoldable pub render : ℕ → ℕ → Bytes → Bytes
unfolding hex name_in
render proto t payload =
    if has_seed t payload
    then ascii "START " ++ hex (mask proto payload) ++ ascii " (seed masked)"
    else name_in type_names t ++ b' ' ∷ hex payload

-- `f"{self._step:02d} {step}"`; a scenario has fewer than a hundred steps.
unfoldable pub tag_of : ℕ → Bytes → Bytes
tag_of n step = (b'0' + n / 10) ∷ (b'0' + n % 10) ∷ b' ' ∷ step

-- `f"{tag} | {c.label} <- "`
abbrev pub heading : Bytes → Bytes → Bytes
heading tag label = tag ++ ascii " | " ++ label ++ ascii " <- "

-- What the loop over a buffer leaves: its records and the rest of the buffer; `none` is the
-- `IndexError` of `render` on a frame without a type.
abbrev pub Emitted : Type 0
Emitted = Option (List Bytes × Bytes)

abbrev pub before : Bytes → Emitted → Emitted
before r none = none
before r (some (rs, rest)) = some (r ∷ rs, rest)

-- One turn of that loop on a buffer that holds the whole frame `body`.
abbrev pub emit : ℕ → Bytes → Bytes → Emitted → Emitted
emit proto head [] rest = none
emit proto head (t ∷ payload) rest = before (head ++ render proto t payload) rest

-- `while len(c.buf) >= 1 and len(c.buf) >= c.buf[0] + 1`; each turn takes a byte or more, so the
-- buffer's length is fuel enough.
unfoldable pub frames_of : ℕ → ℕ → Bytes → Bytes → Emitted
unfolding render
frames_of zero proto head buf = some ([], buf)
frames_of (suc n) proto head [] = some ([], [])
frames_of (suc n) proto head (l ∷ buf) =
    let later = frames_of n proto head (drop l buf) in
    if leb l (length buf) then emit proto head (take l buf) later else some ([], l ∷ buf)

abbrev pub partial_record : Bytes → Bytes → List Bytes
partial_record head [] = []
partial_record head (b ∷ bs) = (head ++ ascii "PARTIAL " ++ hex (b ∷ bs)) ∷ []

abbrev pub eof_record : Bytes → Bool → List Bytes
eof_record head seen = if seen then (head ++ ascii "EOF") ∷ [] else []

-- What one client adds to the transcript.
unfoldable pub records_of : ℕ → Bytes → Peer → Option (List Bytes)
unfolding frames_of hex
records_of proto tag p =
    let head = heading tag p.label in
    elim (frames_of (length p.buf) proto head p.buf) [
      | none ↦ none
      | some (rs, rest) ↦ some (rs ++ partial_record head rest ++ eof_record head p.eof_seen)
    ]

-- The loop over the clients, of which `n` are left before client `k`.
abbrev pub join_records : Option (List Bytes) → Option (List Bytes) → Option (List Bytes)
join_records none later = none
join_records (some rs) none = none
join_records (some rs) (some ss) = some (rs ++ ss)

unfoldable pub all_records : ℕ → ℕ → ℕ → Bytes → (ℕ → Peer) → Option (List Bytes)
unfolding records_of
all_records zero k proto tag peers = some []
all_records (suc n) k proto tag peers =
    join_records (records_of proto tag (peers k)) (all_records n (suc k) proto tag peers)

-- What one `recv` does: no data, or an `OSError`, closes the socket.
unfoldable pub take_in : Bytes → Peer → Peer
take_in [] p = record p { eof_seen = true; closed = true }
take_in (b ∷ bs) p = record p { buf = p.buf ++ b ∷ bs }

-- The loop of `sync` until it is quiet: what `recv` returned, and for which client. A closed client
-- is not selected.
unfoldable pub drain : List (ℕ × Bytes) → (ℕ → Peer) → ℕ → Peer
unfolding take_in
drain [] peers = peers
drain ((k, bytes) ∷ received) peers =
    drain received λ j. if j == k && not (peers j).closed then take_in bytes (peers j) else peers j

unfoldable pub cleared : Peer → Peer
cleared p = record p { buf = []; eof_seen = false }

-- `sync` from the recording on, with the clients as the drain has left them.
unfoldable pub recorded : Bytes → (ℕ → Peer) → Ctx → Option Ctx
unfolding tag_of all_records cleared
recorded step peers x =
    let n = suc x.step in
    elim (all_records x.count 0 x.proto (tag_of n step) peers) [
      | none ↦ none
      | some rs ↦
          some
            (record x { peers = λ k. cleared (peers k); transcript = x.transcript ++ rs; step = n })
    ]

unfoldable pub sync : Bytes → List (ℕ × Bytes) → Ctx → Option Ctx
unfolding drain recorded
sync step received x = recorded step (drain received x.peers) x

-- What a scenario does with `x` and with its clients, each by its place in the order of creation.
-- `time.sleep` between two sends is left to the server's `recv`.
pub data Act : Type 0 where
  connect : Bytes → Act
  send : ℕ → Bytes → Act
  close : ℕ → Act
  settle : Bytes → Act

-- `Ctx.connect`
unfoldable pub connected : Bytes → Ctx → Ctx
connected label x = record x {
  peers = λ k.
      if k == x.count
      then record { label = label; buf = []; closed = false; eof_seen = false }
      else x.peers k;
  count = suc x.count;
}

-- `Client.close`
unfoldable pub shut : ℕ → Ctx → Ctx
shut c x = record x {
  peers = λ k. if k == c then record (x.peers k) { closed = true } else x.peers k;
}

abbrev pub first : List (List (ℕ × Bytes)) → List (ℕ × Bytes)
first [] = []
first (r ∷ rs) = r

abbrev pub later : List (List (ℕ × Bytes)) → List (List (ℕ × Bytes))
later [] = []
later (r ∷ rs) = rs

abbrev pub on_synced : (Ctx → Option Ctx) → Option Ctx → Option Ctx
on_synced continue none = none
on_synced continue (some x) = continue x

-- A scenario from its start to the transcript, where `replies` has what each `sync` received. What
-- it sends shows in those replies only.
unfoldable pub play : List Act → List (List (ℕ × Bytes)) → Ctx → Option Ctx
unfolding sync connected shut
play [] replies x = some x
play (connect label ∷ acts) replies x = play acts replies (connected label x)
play (send c bytes ∷ acts) replies x = play acts replies x
play (close c ∷ acts) replies x = play acts replies (shut c x)
play (settle step ∷ acts) replies x =
    on_synced (λ y. play acts (later replies) y) (sync step (first replies) x)

-- `Ctx.hello` for the client that is the `k`th.
unfoldable pub hello : ℕ → ℕ → Bytes → List Act
hello proto k label =
    connect label ∷ send k (frame t_hello (proto ∷ label)) ∷ settle (ascii "hello " ++ label) ∷ []

-- `Ctx.__init__` for the harness's own part.
unfoldable pub fresh : ℕ → Ctx
fresh proto = record {
  proto = proto;
  peers = λ _. record { label = []; buf = []; closed = true; eof_seen = false };
  count = 0;
  transcript = [];
  step = 0;
}
