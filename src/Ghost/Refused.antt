-- ===== src/Ghost/Refused.antt =====
-- The opponent of tools/ghost_peer.py against the present server.
use fujinet_intv_basketball.Base.{
  ℕ, ◌≤◌, ◌≡◌, refl, sym, ap, ◌∙◌, false, none, List, [], ◌∷◌, ◌++◌, Bytes, arith, length, All,
  subst, if_ind, ltb, append-nil, suc, ◌⊎◌, inl, inr,
}
use fujinet_intv_basketball.Wire.{Batch, frame, encode, split_frames, t_hello}
use fujinet_intv_basketball.Wire.Chunks.{split_frames-encode}
use fujinet_intv_basketball.Server.Types.{State, System, received}
use fujinet_intv_basketball.Server.Conn.{drop_client}
use fujinet_intv_basketball.Server.Handlers.{handle, on_hello}
use fujinet_intv_basketball.Server.Loop.{service, push_rx, set_rx}
use fujinet_intv_basketball.Server.Sound.{Sound, Alike-Sound}
use fujinet_intv_basketball.Server.Writes.{push_rx-Alike, set_rx-Alike}
use fujinet_intv_basketball.Server.Drops.{Gone, drop_client-Gone}
use fujinet_intv_basketball.Server.Reading.{handle_batch, service-eq-handle_batch}
use fujinet_intv_basketball.Ghost.{Options, has_passed}
use fujinet_intv_basketball.Ghost.Main.{
  chunk, timed_out, Pass, Ghost, Course, ended, ghost_hello, poll_lobby, on_answer, ghost_loop,
  start_ghost, exits_ok,
}

-- A pass that brings no bytes: a time-out, or the end of a connection that the server closed.
abbrev pub IsSilent : Pass → Type 0
IsSilent p = (p.answer ≡ timed_out) ⊎ (p.answer ≡ chunk [])

hello_refused :
    (sys : System) (c : ℕ) (name : Bytes) (s : State) → handle sys c t_hello (1 ∷ name) s ≡ none
unfolding handle on_hello
hello_refused sys c name s = ground arith

-- A frame that a handler refuses, read into an empty buffer, drops the client.
service_refused :
    (sys : System) (c t : ℕ) (p : Bytes) (s : State)
    → Sound s
    → (s.heap c).dead ≡ false
    → (s.heap c).rx ≡ []
    → length p ≤ 199
    → handle sys c t p (set_rx c [] (push_rx c (frame t p) s)) ≡ none
    → service sys c (received (frame t p)) s
      ≡ drop_client sys c (set_rx c [] (push_rx c (frame t p) s))
unfolding frame encode handle_batch
service_refused sys c t p s v alive empty fits refused =
    let pushed = push_rx c (frame t p) s in
    let one : List (ℕ × Bytes) = (t, p) ∷ [] in
    let same : (s.heap c).rx ++ frame t p ≡ encode one =
      ap (λ (rx : Bytes). rx ++ frame t p) empty ∙ sym (append-nil (frame t p)) in
    let read : split_frames ((s.heap c).rx ++ frame t p)
        ≡ record { frames = one; left = []; bad = false } =
      ap split_frames same ∙ split_frames-encode one (fits, tt) in
    service-eq-handle_batch sys c (suc (length p)) (t ∷ p) s v alive
    ∙ ap (λ (b : Batch). handle_batch sys c b.frames b.left b.bad pushed) read
    ∙ rw refused

poll_lobby-crcs : (p : Pass) (s : Ghost) → (poll_lobby p s).peer.crcs ≡ s.peer.crcs
unfolding poll_lobby
poll_lobby-crcs p s = ground arith

-- An opponent that has seen no CRC frame has not passed.
fails : (want : ℕ) (s : Ghost) → s.peer.crcs ≡ 0 → exits_ok want (ended s) ≡ false
unfolding exits_ok has_passed
fails want s e = ground arith

silent_fails :
    (o : Options) (want : ℕ) (ps : List Pass) (s : Ghost)
    → All IsSilent ps
    → s.peer.crcs ≡ 0
    → exits_ok want (ghost_loop o want ps s) ≡ false
unfolding ghost_loop
silent_fails o want [] s h e = unfold exits_ok in refl
silent_fails o want (p ∷ ps) s h e =
    let polled = poll_lobby p s in
    let none_seen = poll_lobby-crcs p s ∙ e in
    if_ind (λ (r : Course). exits_ok want r ≡ false) (ltb p.head s.deadline)
      (λ _. elim h.0 [
        | inl late ↦ rw (late, on_answer) (silent_fails o want ps polled h.1 none_seen)
        | inr closed ↦ rw (closed, on_answer) (fails want polled none_seen)
      ])
      (λ _. fails want s e)

-- The greeting drops it: when the server reads it for a client that is not dead and from which it holds
-- no bytes, the client is dead, closed, unregistered, under no name and in no room. And the opponent
-- then fails, whatever its options: no run of its loop in which nothing is received exits with 0.
pub ghost_refused :
    (sys : System) (c : ℕ) (o : Options) (s : State)
    → Sound s
    → (s.heap c).dead ≡ false
    → (s.heap c).rx ≡ []
    → length o.name ≤ 198
    → Gone c (service sys c (received (ghost_hello o.name)) s)
      × ((want now timeout : ℕ) (ps : List Pass)
          → All IsSilent ps
          → exits_ok want (ghost_loop o want ps (start_ghost o now timeout)) ≡ false)
unfolding start_ghost
ghost_refused sys c o s v alive empty short =
    (dropped, λ want now timeout ps h. silent_fails o want ps (start_ghost o now timeout) h refl)
  where
    pushed : State
    pushed = push_rx c (ghost_hello o.name) s

    cut : State
    cut = set_rx c [] pushed

    cut-Sound : Sound cut
    cut-Sound =
        Alike-Sound pushed cut (set_rx-Alike c [] pushed)
          (Alike-Sound s pushed (push_rx-Alike c (ghost_hello o.name) s) v)

    cut_alive : (cut.heap c).dead ≡ false
    cut_alive =
        (set_rx-Alike c [] pushed).same_dead c
        ∙ (push_rx-Alike c (ghost_hello o.name) s).same_dead c
        ∙ alive

    dropped : Gone c (service sys c (received (ghost_hello o.name)) s)
    dropped =
        subst (Gone c)
          (sym (
            service_refused sys c t_hello (1 ∷ o.name) s v alive empty (omega arith)
              (hello_refused sys c o.name cut)))
          (drop_client-Gone sys c cut cut-Sound cut_alive)
