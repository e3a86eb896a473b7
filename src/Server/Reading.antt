-- ===== src/Server/Reading.antt =====
-- `service` hands the frames of the buffer to `handle`, in order, and keeps the rest.
use fujinet_intv_basketball.Base.{
  ℕ, zero, suc, ◌≤◌, ◌≡◌, refl, ap, ◌∙◌, Bool, Option, none, some, List, [], ◌∷◌, ◌++◌, Bytes,
  arith, false, length, if◌then◌else◌, Bool-cases, inl, inr,
}
use fujinet_intv_basketball.Wire.{
  Next, wait, bad_length, next, next_frame, split_frames, scan, on_next, encode,
}
use fujinet_intv_basketball.Wire.Chunks.{
  encode-split_frames, length-next_frame, split_frames-step, length-next_frame_rest,
}
use fujinet_intv_basketball.Server.Types.{Client, State, System, received}
use fujinet_intv_basketball.Server.State.{
  advance, lobby_update, queue, take_tx, update_events, retire, detach, clear_members,
  count_backlog_drop,
}
use fujinet_intv_basketball.Server.Conn.{drop_client}
use fujinet_intv_basketball.Server.Handlers.{
  register, drop_old_alias, open_room, seat_in, begin_match, handle,
}
use fujinet_intv_basketball.Server.Loop.{
  push_rx, set_rx, after_handle, on_head, service_loop, drain_rx, service,
}
use fujinet_intv_basketball.Server.Untouched.{log_crc-SameBut}
use fujinet_intv_basketball.Server.Sound.{Sound, Alike-Sound}
use fujinet_intv_basketball.Server.Frames.{any_frames}
use fujinet_intv_basketball.Server.Keeps.{Keeps}
use fujinet_intv_basketball.Server.Serves.{Handles, Ok, Ends, handle-Ok}
use fujinet_intv_basketball.Server.Writes.{set_rx-Alike, push_rx-Alike}

-- The receive buffer of a client.
abbrev Buffers : ℕ → Bytes → State → Type 0
Buffers c rx s = (s.heap c).rx ≡ rx

Buffers-Keeps : (c : ℕ) (rx : Bytes) → Keeps (Buffers c rx)
unfolding advance lobby_update count_backlog_drop queue take_tx update_events retire detach
    clear_members
Buffers-Keeps c rx = record {
  frames = any_frames;
  on_advance = λ s h. h;
  on_lobby_update = λ s h. h;
  on_backlog_drop = λ s h. h;
  on_queue = λ e t p s alive fits short ok h. ground arith;
  on_take = λ e n s alive h. ground arith;
  on_events = λ e s alive h. ground arith;
  on_retire = λ e s alive h. ground arith;
  on_detach = λ e r s h. ground arith;
  on_free = λ e s h. ground arith;
  on_clear = λ r s h. h;
}

-- No handler touches a receive buffer.
Buffers-Handles : {sys : System} (c : ℕ) (rx : Bytes) → Handles sys (Buffers c rx)
unfolding register drop_old_alias open_room seat_in begin_match lobby_update
Buffers-Handles c rx = record {
  keeps = Buffers-Keeps c rx;
  on_rename = λ e name s h. ground arith;
  on_open = λ e s h. ground arith;
  on_seat = λ e r s h. ground arith;
  on_begin = λ r seed s h. h;
  on_log_crc = λ r p s h. ap (λ (f : ℕ → Client). (f c).rx) (log_crc-SameBut r p s).same_heap ∙ h;
}

module _ (sys : System) where
  -- A batch of frames, one after another: each is handled with what follows it in the buffer; a
  -- `ProtocolError`, or a handler that leaves the client dead, ends the batch; a bad length byte
  -- after the last frame drops the client.
  unfoldable pub handle_batch : ℕ → List (ℕ × Bytes) → Bytes → Bool → State → State
  handle_batch c [] left bad s = if bad then drop_client sys c s else s
  handle_batch c ((t, p) ∷ fs) left bad s =
      let shortened = set_rx c (encode fs ++ left) s in
      after_handle sys (handle_batch c fs left bad) c shortened (handle sys c t p shortened)

  after_handle-cong :
      (c : ℕ) (rest : Bytes) (f g : State → State) (before : State) (o : Option State)
      → Ends sys (Buffers-Handles c rest) o
      → ((s : State) → (s.heap c).dead ≡ false → Ok (Buffers c rest) s → f s ≡ g s)
      → after_handle sys f c before o ≡ after_handle sys g c before o
  after_handle-cong c rest f g before none k h = refl
  after_handle-cong c rest f g before (some s) k h = elim (Bool-cases (s.heap c).dead) [
    | inl gone ↦ rw gone
    | inr l ↦ rw l (h s l k)
  ]

  set_rx-Ok : (c : ℕ) (rest : Bytes) (s : State) → Sound s → Ok (Buffers c rest) (set_rx c rest s)
  set_rx-Ok c rest s v = record {
    sound = Alike-Sound s (set_rx c rest s) (set_rx-Alike c rest s) v;
    kept = unfold set_rx in ground arith;
  }

  head-batch :
      (n c : ℕ) (rx : Bytes) (h : Next) (s : State)
      → next_frame rx ≡ h
      → length rx ≤ suc n
      → (s.heap c).dead ≡ false
      → Ok (Buffers c rx) s
      → ((r : Bytes) (t : State)
          → length r ≤ n
          → (t.heap c).dead ≡ false
          → Ok (Buffers c r) t
          → service_loop sys n c t
            ≡ handle_batch c (split_frames r).frames (split_frames r).left (split_frames r).bad t)
      → on_head sys (service_loop sys n c) c h s
        ≡ handle_batch c
            (on_next h split_frames rx).frames
            (on_next h split_frames rx).left
            (on_next h split_frames rx).bad
            s
  unfolding handle_batch Buffers-Handles Buffers-Keeps
  head-batch n c rx wait s e l a k ih = refl
  head-batch n c rx (bad_length b) s e l a k ih = refl
  head-batch n c rx (next t p rest) s e l a k ih = rw (encode-split_frames rest) (
      after_handle-cong c rest (service_loop sys n c) _ (set_rx c rest s)
        (handle sys c t p (set_rx c rest s))
        (handle-Ok sys (Buffers-Handles c rest) c t p (set_rx c rest s)
          ((set_rx-Alike c rest s).same_dead c ∙ a) (length-next_frame rx e) tt
          (set_rx-Ok c rest s k.sound))
        (λ u b w. ih rest u (omega (arith, length-next_frame_rest rx e)) b w))

  service_loop-batch :
      (n c : ℕ) (rx : Bytes) (s : State)
      → length rx ≤ n
      → (s.heap c).dead ≡ false
      → Ok (Buffers c rx) s
      → service_loop sys n c s
        ≡ handle_batch c (split_frames rx).frames (split_frames rx).left (split_frames rx).bad s
  unfolding service_loop
  service_loop-batch zero c [] s h a k = unfold split_frames scan handle_batch in refl
  service_loop-batch zero c (b ∷ rx) s h a k = absurd (omega arith)
  service_loop-batch (suc n) c rx s h a k =
      rw (k.kept, split_frames-step rx)
        (head-batch n c rx (next_frame rx) s refl h a k
          (λ r t l b w. service_loop-batch n c r t l b w))

  -- A receive of some bytes for a client that is not dead, in any sound state: the frames that the old buffer and the new bytes
  -- hold together are handled in order, each once, and what is left waits for the next receive.
  pub service-eq-handle_batch :
      (c b : ℕ) (bs : Bytes) (s : State)
      → Sound s
      → (s.heap c).dead ≡ false
      → let batch = split_frames ((s.heap c).rx ++ b ∷ bs) in
        service sys c (received (b ∷ bs)) s
        ≡ handle_batch c batch.frames batch.left batch.bad (push_rx c (b ∷ bs) s)
  unfolding service drain_rx
  service-eq-handle_batch c b bs s v a =
      let more = push_rx c (b ∷ bs) s in
      let grown : (more.heap c).rx ≡ (s.heap c).rx ++ b ∷ bs = unfold push_rx in ground arith in
      service_loop-batch (length (more.heap c).rx) c ((s.heap c).rx ++ b ∷ bs) more
        (omega (arith, ap length grown)) ((push_rx-Alike c (b ∷ bs) s).same_dead c ∙ a)
        (record { sound = Alike-Sound s more (push_rx-Alike c (b ∷ bs) s) v; kept = grown })
