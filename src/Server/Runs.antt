-- ===== src/Server/Runs.antt =====
-- An invariant that each single write keeps is kept by every event and by every run of events.
use fujinet_intv_basketball.Base.{
  ℕ, zero, suc, ◌≡◌, refl, ◌∙◌, false, inl, inr, Option, none, some, List, [], ◌∷◌, All, Bytes,
  arith, length, leb, Bool-cases, if_ind, if◌then◌else◌,
}
use fujinet_intv_basketball.Wire.{Next, wait, bad_length, next, next_frame}
use fujinet_intv_basketball.Wire.Chunks.{length-next_frame}
use fujinet_intv_basketball.Server.Types.{
  State, System, RecvResult, received, would_block, broken, max_clients, max_connections_per_ip,
}
use fujinet_intv_basketball.Server.Conn.{drop_client}
use fujinet_intv_basketball.Server.Handlers.{handle}
use fujinet_intv_basketball.Server.Loop.{
  from_host, reject, accept, push_rx, set_rx, count_hello_timeout, log_stats, is_overdue,
  after_handle, on_head, service_loop, drain_rx, service, sweep_each, sweep, Event, connection,
  writable, readable, sweep_due, stats_due, step, run,
}
use fujinet_intv_basketball.Server.Sound.{Alike-Sound}
use fujinet_intv_basketball.Server.Keeps.Dropping.{flush-Out}
use fujinet_intv_basketball.Server.Serves.{Serves, Ok, Out-Ok, Ends, drop_client-Ok, handle-Ok}
use fujinet_intv_basketball.Server.Writes.{
  admit-Sound, reject-Alike, push_rx-Alike, set_rx-Alike, count_hello_timeout-Alike,
  log_stats-Alike,
}

-- What is asked of the bytes that an event brings.
abbrev pub HearsResult : (Bytes → Type 0) → RecvResult → Type 0
HearsResult H (received b) = H b
HearsResult H would_block = Unit {0}
HearsResult H broken = Unit {0}

abbrev pub HearsEvent : (Bytes → Type 0) → Event → Type 0
HearsEvent H (connection host port now) = Unit {0}
HearsEvent H (writable c) = Unit {0}
HearsEvent H (readable c r) = HearsResult H r
HearsEvent H (sweep_due now) = Unit {0}
HearsEvent H stats_due = Unit {0}

any_result : (r : RecvResult) → HearsResult (λ b. Unit {0}) r
any_result (received b) = tt
any_result would_block = tt
any_result broken = tt

any_event : (e : Event) → HearsEvent (λ b. Unit {0}) e
any_event (connection host port now) = tt
any_event (writable c) = tt
any_event (readable c r) = any_result r
any_event (sweep_due now) = tt
any_event stats_due = tt

-- Where nothing is asked.
pub any_events : (es : List Event) → All (HearsEvent (λ b. Unit {0})) es
any_events [] = tt
any_events (e ∷ es) = (any_event e, any_events es)

module _ (sys : System) {Hears : Bytes → Type 0} {P : State → Type 0}
    (serves : Serves sys Hears P) where
  accept-Ok : (host port now : ℕ) (s : State) → Ok P s → Ok P (accept host port now s)
  unfolding accept
  accept-Ok host port now s k =
      if_ind (Ok P) (leb max_clients (length s.clients)) (λ _. rejected)
        (λ below.
          if_ind (Ok P) (leb max_connections_per_ip (from_host host s.clients s)) (λ _. rejected)
            (λ few. record {
              sound = admit-Sound host port now s k.sound;
              kept = serves.on_admit host port now s (ground arith) (ground arith) k.kept;
            }))
    where
      rejected : Ok P (reject s)
      rejected = record {
        sound = Alike-Sound s (reject s) (reject-Alike s) k.sound;
        kept = serves.on_reject s k.kept;
      }

  after_handle-Ok :
      (n : ℕ) (c : ℕ) (before : State) (o : Option State)
      → ((s : State) → (s.heap c).dead ≡ false → Ok P s → Ok P (service_loop sys n c s))
      → Ok P before
      → Ends sys serves.handles o
      → Ok P (after_handle sys (service_loop sys n c) c before o)
  after_handle-Ok n c before none ih k e = drop_client-Ok sys serves.handles c before k
  after_handle-Ok n c before (some s) ih k e =
      if_ind (Ok P) (s.heap c).dead (λ _. e) (λ l. ih s l e)

  on_head-Ok :
      (n c : ℕ) (h : Next) (s : State)
      → ((t : State) → (t.heap c).dead ≡ false → Ok P t → Ok P (service_loop sys n c t))
      → next_frame (s.heap c).rx ≡ h
      → (s.heap c).dead ≡ false
      → Ok P s
      → Ok P (on_head sys (service_loop sys n c) c h s)
  on_head-Ok n c wait s ih e l k = k
  on_head-Ok n c (bad_length m) s ih e l k = drop_client-Ok sys serves.handles c s k
  on_head-Ok n c (next t p rest) s ih e l k =
      let cut = set_rx c rest s in
      let alive = (set_rx-Alike c rest s).same_dead c ∙ l in
      let fit = serves.handles.keeps.frames.on_heard c t p rest s e k.kept in
      let shortened : Ok P cut = record {
        sound = Alike-Sound s cut (set_rx-Alike c rest s) k.sound;
        kept = serves.on_set_rx c t p rest s e k.kept;
      } in
      after_handle-Ok n c cut (handle sys c t p cut) ih shortened (
        handle-Ok sys serves.handles c t p cut alive (length-next_frame (s.heap c).rx e) fit
          shortened)

  service_loop-Ok :
      (n c : ℕ) (s : State) → (s.heap c).dead ≡ false → Ok P s → Ok P (service_loop sys n c s)
  unfolding service_loop
  service_loop-Ok zero c s l k = k
  service_loop-Ok (suc n) c s l k =
      on_head-Ok n c (next_frame (s.heap c).rx) s (service_loop-Ok n c) refl l k

  service-Ok :
      (c : ℕ) (r : RecvResult) (s : State)
      → HearsResult Hears r
      → (s.heap c).dead ≡ false
      → Ok P s
      → Ok P (service sys c r s)
  unfolding service drain_rx
  service-Ok c would_block s heard l k = k
  service-Ok c broken s heard l k = drop_client-Ok sys serves.handles c s k
  service-Ok c (received []) s heard l k = drop_client-Ok sys serves.handles c s k
  service-Ok c (received (b ∷ bs)) s heard l k =
      let more = push_rx c (b ∷ bs) s in
      service_loop-Ok (length (more.heap c).rx) c more
        ((push_rx-Alike c (b ∷ bs) s).same_dead c ∙ l)
        (record {
          sound = Alike-Sound s more (push_rx-Alike c (b ∷ bs) s) k.sound;
          kept = serves.on_push_rx c (b ∷ bs) s heard k.kept;
        })

  sweep_each-Ok : (now : ℕ) (cs : List ℕ) (s : State) → Ok P s → Ok P (sweep_each sys now cs s)
  unfolding sweep_each
  sweep_each-Ok now [] s k = k
  sweep_each-Ok now (c ∷ cs) s k =
      sweep_each-Ok now cs
        (if is_overdue now (s.heap c) then drop_client sys c (count_hello_timeout s) else s)
        (if_ind (Ok P) (is_overdue now (s.heap c))
          (λ _. drop_client-Ok sys serves.handles c (count_hello_timeout s) (record {
            sound = Alike-Sound s (count_hello_timeout s) (count_hello_timeout-Alike s) k.sound;
            kept = serves.on_hello_timeout s k.kept;
          }))
          (λ _. k))

  pub step-Ok : (e : Event) (s : State) → HearsEvent Hears e → Ok P s → Ok P (step sys e s)
  unfolding step sweep
  step-Ok (connection host port now) s heard k = accept-Ok host port now s k
  step-Ok (writable c) s heard k = elim (Bool-cases (s.heap c).dead) [
    | inl gone ↦ rw gone k
    | inr l ↦ rw l (Out-Ok (flush-Out sys serves.handles.keeps c s l k.sound k.kept))
  ]
  step-Ok (readable c r) s heard k =
      if_ind (Ok P) (s.heap c).dead (λ _. k) (λ l. service-Ok c r s heard l k)
  step-Ok (sweep_due now) s heard k = sweep_each-Ok now s.clients s k
  step-Ok stats_due s heard k = record {
    sound = Alike-Sound s (log_stats s) (log_stats-Alike s) k.sound;
    kept = serves.on_log_stats s k.kept;
  }

  pub run-Ok :
      (es : List Event) (s : State) → All (HearsEvent Hears) es → Ok P s → Ok P (run sys es s)
  unfolding run
  run-Ok [] s heard k = k
  run-Ok (e ∷ es) s heard k = run-Ok es (step sys e s) heard.1 (step-Ok e s heard.0 k)
