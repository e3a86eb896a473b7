-- ===== src/Publisher/Offline.antt =====
-- The last thing that the lobby hears is that the server is offline, unless the join times out.
use fujinet_intv_basketball.Base.{
  ℕ, ◌≡◌, ◌≢◌, refl, ap, subst, sym, ◌∙◌, if_ind, Bool, true, false, ◌||◌, List, [], ◌∷◌, ◌++◌, All,
  All-append, if◌then◌else◌,
}
use fujinet_intv_basketball.Publisher.{Payload, Publisher, create, update}
use fujinet_intv_basketball.Publisher.Worker.{
  Worker, idle, sending, pausing, ended, Closing, serving, joining, last_post, closed, World, Event,
  updated, keepalive, wake, worker_posted, resume, shutdown, joined, join_timeout, shutdown_posted,
  settle_post, on_keepalive, on_wake, on_worker_posted, on_resume, on_shutdown, on_joined,
  on_shutdown_posted, step, run, launch,
}

-- No join of the run times out.
abbrev pub is_patient : List Event → Bool
is_patient [] = true
is_patient (join_timeout ∷ es) = false
is_patient (updated n ∷ es) = is_patient es
is_patient (keepalive ∷ es) = is_patient es
is_patient (wake ∷ es) = is_patient es
is_patient (worker_posted ok ∷ es) = is_patient es
is_patient (resume ∷ es) = is_patient es
is_patient (shutdown ∷ es) = is_patient es
is_patient (joined ∷ es) = is_patient es
is_patient (shutdown_posted ok ∷ es) = is_patient es

abbrev pub IsOnline : Payload → Type 0
IsOnline p = p.online ≡ true

-- All requests said online, but for the last.
abbrev pub EndsOffline : List Payload → Type 0
EndsOffline attempts =
    (before : List Payload) × (p : Payload) × (attempts ≡ before ++ p ∷ [])
    × (p.online ≡ false)
    × All IsOnline before

abbrev WorkerOk : Worker → Type 0
WorkerOk idle = Unit
WorkerOk (sending p) = IsOnline p
WorkerOk pausing = Unit
WorkerOk ended = Unit

abbrev Good : Closing → Worker → Publisher → List Payload → Type 0
Good serving k p as_so_far =
    (p.stopping ≡ false) × (p.payload.online ≡ true) × WorkerOk k × All IsOnline as_so_far
Good (joining q) k p as_so_far =
    (p.stopping ≡ true) × (q.online ≡ false) × WorkerOk k × All IsOnline as_so_far
Good (last_post q) k p as_so_far = (q.online ≡ false) × (k ≡ ended) × All IsOnline as_so_far
Good closed k p as_so_far = (k ≡ ended) × EndsOffline as_so_far

-- The update keeps the publisher's flags.
update-online : (n : ℕ) (p : Publisher) → (update n p).payload.online ≡ p.payload.online
unfolding update
update-online n p =
    if_ind (λ (q : Publisher). q.payload.online ≡ p.payload.online) p.stopping (λ _. refl)
      (λ _. refl)

update-stopping : (n : ℕ) (p : Publisher) → (update n p).stopping ≡ p.stopping
unfolding update
update-stopping n p =
    if_ind (λ (q : Publisher). q.stopping ≡ p.stopping) p.stopping (λ _. refl) (λ _. refl)

settle_post-stopping : (ok : Bool) (p : Publisher) → (settle_post ok p).stopping ≡ p.stopping
unfolding settle_post
settle_post-stopping true p = refl
settle_post-stopping false p = refl

settle_post-payload : (ok : Bool) (p : Publisher) → (settle_post ok p).payload ≡ p.payload
unfolding settle_post
settle_post-payload true p = refl
settle_post-payload false p = refl

abbrev Ok : World → Type 0
Ok w = Good w.closing w.worker w.publisher w.attempts

updated-Ok :
    (n : ℕ) (c : Closing) (k : Worker) (p : Publisher) (xs : List Payload)
    → Good c k p xs
    → Good c k (update n p) xs
updated-Ok n serving k p xs g = (update-stopping n p ∙ g.0, update-online n p ∙ g.1, g.2, g.3)
updated-Ok n (joining q) k p xs g = (update-stopping n p ∙ g.0, g.1, g.2, g.3)
updated-Ok n (last_post q) k p xs g = g
updated-Ok n closed k p xs g = g

keepalive-Ok :
    (k : Worker) (c : Closing) (p : Publisher) (xs : List Payload)
    → Good c k p xs
    → Ok (on_keepalive k (record { publisher = p; worker = k; closing = c; attempts = xs }))
unfolding on_keepalive
keepalive-Ok idle serving p xs g = g
keepalive-Ok idle (joining q) p xs g = g
keepalive-Ok idle (last_post q) p xs g = g
keepalive-Ok idle closed p xs g = g
keepalive-Ok (sending q) c p xs g = g
keepalive-Ok pausing c p xs g = g
keepalive-Ok ended c p xs g = g

true≢false : true ≢ false
true≢false h = cc

ended_sending : (q : Payload) → sending q ≢ ended
ended_sending q h = cc

ended_idle : idle ≢ ended
ended_idle h = cc

ended_pausing : pausing ≢ ended
ended_pausing h = cc

woken-Good :
    (c : Closing) (p : Publisher) (xs : List Payload)
    → Good c idle p xs
    → Good c (if p.stopping then ended else sending p.payload) (record p { dirty = false }) xs
woken-Good serving p xs g = (g.0, g.1, if_ind WorkerOk p.stopping (λ _. tt) (λ _. g.1), g.3)
woken-Good (joining q) p xs g =
    (g.0, g.1, if_ind WorkerOk p.stopping (λ _. tt) (λ h. absurd (true≢false (sym g.0 ∙ h))), g.3)
woken-Good (last_post q) p xs g = absurd (ended_idle g.1)
woken-Good closed p xs g = absurd (ended_idle g.0)

wake-Ok :
    (k : Worker) (c : Closing) (p : Publisher) (xs : List Payload)
    → Good c k p xs
    → Ok (on_wake k (record { publisher = p; worker = k; closing = c; attempts = xs }))
unfolding on_wake
wake-Ok idle c p xs g = if_ind Ok (p.dirty || p.stopping) (λ _. woken-Good c p xs g) (λ _. g)
wake-Ok (sending q) c p xs g = g
wake-Ok pausing c p xs g = g
wake-Ok ended c p xs g = g

posted-Ok :
    (ok : Bool) (k : Worker) (c : Closing) (p : Publisher) (xs : List Payload)
    → Good c k p xs
    → Ok (on_worker_posted ok k (record { publisher = p; worker = k; closing = c; attempts = xs }))
unfolding on_worker_posted
posted-Ok ok (sending q) serving p xs g = (
  settle_post-stopping ok p ∙ g.0,
  ap (λ (r : Payload). r.online) (settle_post-payload ok p) ∙ g.1,
  tt,
  All-append IsOnline xs (q ∷ []) g.3 (g.2, tt),
)
posted-Ok ok (sending q) (joining r) p xs g =
    (settle_post-stopping ok p ∙ g.0, g.1, tt, All-append IsOnline xs (q ∷ []) g.3 (g.2, tt))
posted-Ok ok (sending q) (last_post r) p xs g = absurd (ended_sending q g.1)
posted-Ok ok (sending q) closed p xs g = absurd (ended_sending q g.0)
posted-Ok ok idle c p xs g = g
posted-Ok ok pausing c p xs g = g
posted-Ok ok ended c p xs g = g

resume-Ok :
    (k : Worker) (c : Closing) (p : Publisher) (xs : List Payload)
    → Good c k p xs
    → Ok (on_resume k (record { publisher = p; worker = k; closing = c; attempts = xs }))
unfolding on_resume
resume-Ok pausing serving p xs g = g
resume-Ok pausing (joining q) p xs g = g
resume-Ok pausing (last_post q) p xs g = absurd (ended_pausing g.1)
resume-Ok pausing closed p xs g = absurd (ended_pausing g.0)
resume-Ok idle c p xs g = g
resume-Ok (sending q) c p xs g = g
resume-Ok ended c p xs g = g

shutdown-Ok :
    (c : Closing) (k : Worker) (p : Publisher) (xs : List Payload)
    → Good c k p xs
    → Ok (on_shutdown c (record { publisher = p; worker = k; closing = c; attempts = xs }))
unfolding on_shutdown
shutdown-Ok serving k p xs g = (refl, refl, g.2, g.3)
shutdown-Ok (joining q) k p xs g = g
shutdown-Ok (last_post q) k p xs g = g
shutdown-Ok closed k p xs g = g

joined-Ok :
    (c : Closing) (k : Worker) (p : Publisher) (xs : List Payload)
    → Good c k p xs
    → Ok (on_joined c k (record { publisher = p; worker = k; closing = c; attempts = xs }))
unfolding on_joined
joined-Ok (joining q) ended p xs g = (g.1, refl, g.3)
joined-Ok (joining q) idle p xs g = g
joined-Ok (joining q) (sending r) p xs g = g
joined-Ok (joining q) pausing p xs g = g
joined-Ok serving k p xs g = g
joined-Ok (last_post q) k p xs g = g
joined-Ok closed k p xs g = g

shutdown_posted-Ok :
    (ok : Bool) (c : Closing) (k : Worker) (p : Publisher) (xs : List Payload)
    → Good c k p xs
    → Ok
        (on_shutdown_posted ok c (record { publisher = p; worker = k; closing = c; attempts = xs }))
unfolding on_shutdown_posted
shutdown_posted-Ok ok (last_post q) k p xs g = (g.1, (xs, q, refl, g.0, g.2))
shutdown_posted-Ok ok serving k p xs g = g
shutdown_posted-Ok ok (joining q) k p xs g = g
shutdown_posted-Ok ok closed k p xs g = g

run-Ok : (es : List Event) (w : World) → is_patient es ≡ true → Ok w → Ok (run es w)
unfolding run step
run-Ok [] w h g = g
run-Ok (join_timeout ∷ es) w h g = cc
run-Ok (updated n ∷ es) w h g =
    run-Ok es (step (updated n) w) h (updated-Ok n w.closing w.worker w.publisher w.attempts g)
run-Ok (keepalive ∷ es) w h g =
    run-Ok es (step keepalive w) h (keepalive-Ok w.worker w.closing w.publisher w.attempts g)
run-Ok (wake ∷ es) w h g =
    run-Ok es (step wake w) h (wake-Ok w.worker w.closing w.publisher w.attempts g)
run-Ok (worker_posted ok ∷ es) w h g =
    run-Ok es (step (worker_posted ok) w) h
      (posted-Ok ok w.worker w.closing w.publisher w.attempts g)
run-Ok (resume ∷ es) w h g =
    run-Ok es (step resume w) h (resume-Ok w.worker w.closing w.publisher w.attempts g)
run-Ok (shutdown ∷ es) w h g =
    run-Ok es (step shutdown w) h (shutdown-Ok w.closing w.worker w.publisher w.attempts g)
run-Ok (joined ∷ es) w h g =
    run-Ok es (step joined w) h (joined-Ok w.closing w.worker w.publisher w.attempts g)
run-Ok (shutdown_posted ok ∷ es) w h g =
    run-Ok es (step (shutdown_posted ok) w) h
      (shutdown_posted-Ok ok w.closing w.worker w.publisher w.attempts g)

closed-EndsOffline : (w : World) → w.closing ≡ closed → Ok w → EndsOffline w.attempts
closed-EndsOffline w h g = (subst (λ (c : Closing). Good c w.worker w.publisher w.attempts) h g).1

-- However the threads interleave and whichever requests fail, when the shutdown has returned and its
-- join did not time out: every request but the last said online, and the last said offline.
pub run-EndsOffline :
    (es : List Event)
    → is_patient es ≡ true
    → (run es launch).closing ≡ closed
    → EndsOffline (run es launch).attempts
unfolding launch create
run-EndsOffline es h done =
    closed-EndsOffline (run es launch) done (run-Ok es launch h (refl, refl, tt, tt))
