-- ===== src/Soak.antt =====
-- tools/soak.py: the load that it puts on a relay and the summary of its memory samples. The server's
-- process, the sockets and the clock are left out: what they answer in each pass is a parameter.
pub mod Growth
mod Tests
use Prim.Native.Nat.{max}
use fujinet_intv_basketball.Base.{
  ℕ, zero, suc, ◌+◌, ◌-◌, ◌*◌, ◌/◌, ◌%◌, Bool, Option, none, some, List, [], ◌∷◌, ◌++◌, Bytes,
  length, take, drop, get_elem?, get_or, leb, ltb, if◌then◌else◌, ascii, starts_with, split,
  decimal, ℤ, sub_ℕ,
}
use fujinet_intv_basketball.Wire.{frame, ljust, t_hello, t_join, t_input, t_crc, t_go}

-- `pad`
unfoldable pub pad : Bytes → Bytes
unfolding ljust
pad name = ljust 8 (take 8 name)

-- What `hello` sends.
unfoldable pub hello_frame : Bytes → Bytes
unfolding frame
hello_frame name = frame t_hello (2 ∷ name)

-- The decimal digits of a number; it has fewer digits than its successor, which is fuel enough.
unfoldable pub digits_in : ℕ → ℕ → Bytes
digits_in zero i = []
digits_in (suc fuel) i =
    let higher = digits_in fuel (i / 10) in
    if ltb i 10 then (48 + i) ∷ [] else higher ++ (48 + i % 10) ∷ []

-- The names of the idlers: `f"IDLE{i:02d}"`.
unfoldable pub idle_name : ℕ → Bytes
unfolding digits_in
idle_name i = ascii "IDLE" ++ (if ltb i 10 then 48 ∷ [] else []) ++ digits_in (suc i) i

-- What the two players of the match send before it, and the idlers from the first on.
unfoldable pub opening_a : Bytes
unfolding hello_frame frame
opening_a = hello_frame (ascii "MATCHA") ++ frame t_go []

unfoldable pub opening_b : Bytes
unfolding hello_frame frame pad
opening_b = hello_frame (ascii "MATCHB") ++ frame t_join (pad (ascii "MATCHA"))

-- `vm_kb`: the lines of the status file, or none where it cannot be opened. The result is none where
-- the line that has the field raises `IndexError` or `ValueError`.
unfoldable pub vm_lines : Bytes → List Bytes → Option ℕ
unfolding starts_with split decimal
vm_lines field [] = some 0
vm_lines field (line ∷ lines) =
    let later = vm_lines field lines in
    if starts_with field line
    then elim (get_elem? (split line) 1) [ none ↦ none | some word ↦ decimal word ]
    else later

unfoldable pub vm_kb : Bytes → Option (List Bytes) → Option ℕ
unfolding vm_lines
vm_kb field none = some 0
vm_kb field (some lines) = vm_lines field lines

-- The options that the loop depends on. Times are counted in a unit in which the period and the
-- sampling interval are whole.
pub record Options : Type 0 where
  pub secs : ℕ
  pub idle : ℕ
  pub period : ℕ
  pub sample_every : ℕ

-- What one pass of the loop sees: the time at its head and the time in its body since `t0`, whether
-- all four calls of `sendall` return, and the status file of the server at each of the two reads.
pub record Pass : Type 0 where
  pub head : ℕ
  pub now : ℕ
  pub sends : Bool
  pub rss_file : Option (List Bytes)
  pub hwm_file : Option (List Bytes)

-- The variables of the loop, and what each player has sent in it.
pub record Soak : Type 0 where
  pub rss : List ℕ
  pub hwm : ℕ
  pub next_sample : ℕ
  pub next_tick : ℕ
  pub tick : ℕ
  pub sent_a : Bytes
  pub sent_b : Bytes

-- The loop goes on, ends by `break`, or ends by an exception.
pub data Turn : Type 0 where
  more : Soak → Turn
  broke : Soak → Turn
  raised : Turn

unfoldable pub input_payload : ℕ → ℕ → ℕ → Bytes
input_payload seat tick cell = seat ∷ tick % 256 ∷ tick / 256 ∷ cell ∷ 0 ∷ []

unfoldable pub crc_payload : ℕ → ℕ → Bytes
crc_payload seat tick = seat ∷ tick % 256 ∷ tick / 256 ∷ 0x11 ∷ 0x22 ∷ []

unfoldable pub tick_frames : ℕ → ℕ → ℕ → Bytes
unfolding frame input_payload crc_payload
tick_frames seat tick cell =
    frame t_input (input_payload seat tick cell) ++ frame t_crc (crc_payload seat tick)

-- The block of a tick that is due. What a failing call has sent of the four frames is not kept: the
-- loop ends there.
unfoldable pub on_tick : Options → Bool → Soak → Turn
unfolding tick_frames
on_tick o sends s =
    let tick = (s.tick + 1) % 65536 in
    let counted = record s { next_tick = s.next_tick + o.period; tick = tick } in
    if sends
    then more (record counted {
      sent_a = s.sent_a ++ tick_frames 0 tick 0x40;
      sent_b = s.sent_b ++ tick_frames 1 tick 0x20;
    })
    else broke counted

-- The block of a sample that is due.
unfoldable pub on_sample : Options → Option ℕ → Option ℕ → Soak → Turn
on_sample o none hwm s = raised
on_sample o (some r) none s = raised
on_sample o (some r) (some h) s = more (record s {
  next_sample = s.next_sample + o.sample_every;
  rss = if leb 1 r then s.rss ++ r ∷ [] else s.rss;
  hwm = max s.hwm h;
})

unfoldable pub sample : Options → Pass → Turn → Turn
unfolding on_sample vm_kb
sample o p (more s) =
    if leb s.next_sample p.now
    then on_sample o (vm_kb (ascii "VmRSS:") p.rss_file) (vm_kb (ascii "VmHWM:") p.hwm_file) s
    else more s
sample o p (broke s) = broke s
sample o p raised = raised

-- The body of the loop. The drain of the sockets changes nothing here.
unfoldable pub turn : Options → Pass → Soak → Turn
unfolding on_tick sample
turn o p s = sample o p (if leb s.next_tick p.now then on_tick o p.sends s else more s)

-- The loop on the passes that the clock allows.
unfoldable pub loop : Options → List Pass → Soak → Turn
unfolding turn
loop o [] s = more s
loop o (p ∷ ps) s =
    let next : Turn = elim (turn o p s) [
      | more t ↦ loop o ps t
      | broke t ↦ broke t
      | raised ↦ raised
    ] in
    if ltb p.head o.secs then next else more s

unfoldable pub start_soak : Soak
start_soak = record {
  rss = [];
  hwm = 0;
  next_sample = 0;
  next_tick = 0;
  tick = 0;
  sent_a = [];
  sent_b = [];
}

unfoldable pub sum : List ℕ → ℕ
sum [] = 0
sum (x ∷ xs) = x + sum xs

unfoldable pub largest : List ℕ → ℕ
largest [] = 0
largest (x ∷ xs) = max x (largest xs)

-- `growth`, times `third`, of samples of which there is one or more.
unfoldable pub third_of : List ℕ → ℕ
third_of rss = max 1 (length rss / 3)

unfoldable pub growth : List ℕ → ℤ
unfolding sum third_of
growth rss =
    let third = third_of rss in sub_ℕ (sum (drop (length rss - third) rss)) (sum (take third rss))

-- `out`, less the name of the implementation and the duration. `growth_kb` is the growth over
-- `growth_over`.
pub record Summary : Type 0 where
  pub idle : ℕ
  pub samples : ℕ
  pub rss_first_kb : ℕ
  pub rss_last_kb : ℕ
  pub rss_max_kb : ℕ
  pub hwm_kb : ℕ
  pub growth_kb : ℤ
  pub growth_over : ℕ
  pub ticks : ℕ

-- The end of `main`; none is the exit for want of a sample.
unfoldable pub summary : Options → Soak → Option Summary
unfolding growth third_of largest
summary o s = elim s.rss [
  | [] ↦ none
  | r ∷ rs ↦ some (record {
    idle = o.idle;
    samples = length (r ∷ rs);
    rss_first_kb = r;
    rss_last_kb = get_or (r ∷ rs) (length rs) 0;
    rss_max_kb = largest (r ∷ rs);
    hwm_kb = s.hwm;
    growth_kb = growth (r ∷ rs);
    growth_over = third_of (r ∷ rs);
    ticks = s.tick;
  })
]
