-- ===== src/Publisher/Fresh.antt =====
-- Updates are coalesced but never lost: the worker either knows that it has more to publish, or the
-- last snapshot that it took is what there is to publish.
use fujinet_intv_basketball.Base.{
  ℕ, ◌≡◌, ◌≢◌, ◌⊎◌, inl, inr, refl, subst, sym, ◌∙◌, if_ind, Bool, true, false, ◌||◌, Option, none,
  some, List, [], ◌∷◌, ◌++◌, if◌then◌else◌,
}
use fujinet_intv_basketball.Publisher.{Payload, Publisher, create, update}
use fujinet_intv_basketball.Publisher.Worker.{
  Worker, idle, sending, pausing, ended, Closing, serving, joining, last_post, closed, World, Event,
  updated, keepalive, wake, worker_posted, resume, shutdown, joined, join_timeout, shutdown_posted,
  settle_post, on_keepalive, on_wake, on_worker_posted, on_resume, on_shutdown, on_joined,
  on_join_timeout, on_shutdown_posted, step, run, launch,
}

unfoldable pub last : List Payload → Option Payload
last [] = none
last (p ∷ []) = some p
last (p ∷ q ∷ ps) = last (q ∷ ps)

-- The snapshot that the worker took last.
abbrev pub latest : Worker → List Payload → Option Payload
latest (sending p) xs = some p
latest idle xs = last xs
latest pausing xs = last xs
latest ended xs = last xs

true≢false : true ≢ false
true≢false h = cc

last-append : (xs : List Payload) (q : Payload) → last (xs ++ q ∷ []) ≡ some q
unfolding last
last-append [] q = refl
last-append (x ∷ []) q = refl
last-append (x ∷ y ∷ xs) q = last-append (y ∷ xs) q

abbrev Fresh : Closing → Worker → Publisher → List Payload → Type 0
Fresh serving k p xs = (p.stopping ≡ false) × ((p.dirty ≡ true) ⊎ (latest k xs ≡ some p.payload))
Fresh (joining q) k p xs = Unit
Fresh (last_post q) k p xs = Unit
Fresh closed k p xs = Unit

abbrev Ok : World → Type 0
Ok w = Fresh w.closing w.worker w.publisher w.attempts

updated-Ok :
    (n : ℕ) (c : Closing) (k : Worker) (p : Publisher) (xs : List Payload)
    → Fresh c k p xs
    → Fresh c k (update n p) xs
unfolding update
updated-Ok n serving k p xs g =
    if_ind (λ (q : Publisher). Fresh serving k q xs) p.stopping (λ _. g) (λ h. (h, inl refl))
updated-Ok n (joining q) k p xs g = tt
updated-Ok n (last_post q) k p xs g = tt
updated-Ok n closed k p xs g = tt

keepalive-Ok :
    (k : Worker) (c : Closing) (p : Publisher) (xs : List Payload)
    → Fresh c k p xs
    → Ok (on_keepalive k (record { publisher = p; worker = k; closing = c; attempts = xs }))
unfolding on_keepalive
keepalive-Ok idle serving p xs g = (g.0, inl refl)
keepalive-Ok idle (joining r) p xs g = tt
keepalive-Ok idle (last_post r) p xs g = tt
keepalive-Ok idle closed p xs g = tt
keepalive-Ok (sending q) c p xs g = g
keepalive-Ok pausing c p xs g = g
keepalive-Ok ended c p xs g = g

latest-woken :
    (b : Bool) (p : Payload) (xs : List Payload)
    → b ≡ false
    → latest (if b then ended else sending p) xs ≡ some p
latest-woken true p xs h = cc
latest-woken false p xs h = refl

wake-Ok :
    (k : Worker) (c : Closing) (p : Publisher) (xs : List Payload)
    → Fresh c k p xs
    → Ok (on_wake k (record { publisher = p; worker = k; closing = c; attempts = xs }))
unfolding on_wake
wake-Ok idle serving p xs g =
    if_ind Ok (p.dirty || p.stopping) (λ _. (g.0, inr (latest-woken p.stopping p.payload xs g.0)))
      (λ _. g)
wake-Ok idle (joining r) p xs g = if_ind Ok (p.dirty || p.stopping) (λ _. tt) (λ _. tt)
wake-Ok idle (last_post r) p xs g = if_ind Ok (p.dirty || p.stopping) (λ _. tt) (λ _. tt)
wake-Ok idle closed p xs g = if_ind Ok (p.dirty || p.stopping) (λ _. tt) (λ _. tt)
wake-Ok (sending q) c p xs g = g
wake-Ok pausing c p xs g = g
wake-Ok ended c p xs g = g

sent-Fresh :
    (ok : Bool) (q : Payload) (p : Publisher) (xs : List Payload)
    → Fresh serving (sending q) p xs
    → Fresh serving pausing (settle_post ok p) (xs ++ q ∷ [])
unfolding settle_post
sent-Fresh true q p xs (h, inl d) = (h, inl d)
sent-Fresh true q p xs (h, inr l) = (h, inr (last-append xs q ∙ l))
sent-Fresh false q p xs (h, inl d) = (h, inl d)
sent-Fresh false q p xs (h, inr l) = (h, inr (last-append xs q ∙ l))

posted-Ok :
    (ok : Bool) (k : Worker) (c : Closing) (p : Publisher) (xs : List Payload)
    → Fresh c k p xs
    → Ok (on_worker_posted ok k (record { publisher = p; worker = k; closing = c; attempts = xs }))
unfolding on_worker_posted
posted-Ok ok idle c p xs g = g
posted-Ok ok (sending q) serving p xs g = sent-Fresh ok q p xs g
posted-Ok ok (sending q) (joining r) p xs g = tt
posted-Ok ok (sending q) (last_post r) p xs g = tt
posted-Ok ok (sending q) closed p xs g = tt
posted-Ok ok pausing c p xs g = g
posted-Ok ok ended c p xs g = g

resume-Ok :
    (k : Worker) (c : Closing) (p : Publisher) (xs : List Payload)
    → Fresh c k p xs
    → Ok (on_resume k (record { publisher = p; worker = k; closing = c; attempts = xs }))
unfolding on_resume
resume-Ok idle c p xs g = g
resume-Ok (sending q) c p xs g = g
resume-Ok pausing serving p xs g = g
resume-Ok pausing (joining r) p xs g = tt
resume-Ok pausing (last_post r) p xs g = tt
resume-Ok pausing closed p xs g = tt
resume-Ok ended c p xs g = g

shutdown-Ok :
    (c : Closing) (k : Worker) (p : Publisher) (xs : List Payload)
    → Fresh c k p xs
    → Ok (on_shutdown c (record { publisher = p; worker = k; closing = c; attempts = xs }))
unfolding on_shutdown
shutdown-Ok serving k p xs g = tt
shutdown-Ok (joining q) k p xs g = g
shutdown-Ok (last_post q) k p xs g = g
shutdown-Ok closed k p xs g = g

joined-Ok :
    (c : Closing) (k : Worker) (p : Publisher) (xs : List Payload)
    → Fresh c k p xs
    → Ok (on_joined c k (record { publisher = p; worker = k; closing = c; attempts = xs }))
unfolding on_joined
joined-Ok serving k p xs g = g
joined-Ok (joining q) idle p xs g = tt
joined-Ok (joining q) (sending r) p xs g = tt
joined-Ok (joining q) pausing p xs g = tt
joined-Ok (joining q) ended p xs g = tt
joined-Ok (last_post q) k p xs g = g
joined-Ok closed k p xs g = g

timeout-Ok :
    (c : Closing) (k : Worker) (p : Publisher) (xs : List Payload)
    → Fresh c k p xs
    → Ok (on_join_timeout c (record { publisher = p; worker = k; closing = c; attempts = xs }))
unfolding on_join_timeout
timeout-Ok serving k p xs g = g
timeout-Ok (joining q) k p xs g = tt
timeout-Ok (last_post q) k p xs g = g
timeout-Ok closed k p xs g = g

shutdown_posted-Ok :
    (ok : Bool) (c : Closing) (k : Worker) (p : Publisher) (xs : List Payload)
    → Fresh c k p xs
    → Ok
        (on_shutdown_posted ok c (record { publisher = p; worker = k; closing = c; attempts = xs }))
unfolding on_shutdown_posted
shutdown_posted-Ok ok serving k p xs g = g
shutdown_posted-Ok ok (joining q) k p xs g = g
shutdown_posted-Ok ok (last_post q) k p xs g = tt
shutdown_posted-Ok ok closed k p xs g = g

run-Ok : (es : List Event) (w : World) → Ok w → Ok (run es w)
unfolding run step
run-Ok [] w g = g
run-Ok (updated n ∷ es) w g =
    run-Ok es (step (updated n) w) (updated-Ok n w.closing w.worker w.publisher w.attempts g)
run-Ok (keepalive ∷ es) w g =
    run-Ok es (step keepalive w) (keepalive-Ok w.worker w.closing w.publisher w.attempts g)
run-Ok (wake ∷ es) w g =
    run-Ok es (step wake w) (wake-Ok w.worker w.closing w.publisher w.attempts g)
run-Ok (worker_posted ok ∷ es) w g =
    run-Ok es (step (worker_posted ok) w) (posted-Ok ok w.worker w.closing w.publisher w.attempts g)
run-Ok (resume ∷ es) w g =
    run-Ok es (step resume w) (resume-Ok w.worker w.closing w.publisher w.attempts g)
run-Ok (shutdown ∷ es) w g =
    run-Ok es (step shutdown w) (shutdown-Ok w.closing w.worker w.publisher w.attempts g)
run-Ok (joined ∷ es) w g =
    run-Ok es (step joined w) (joined-Ok w.closing w.worker w.publisher w.attempts g)
run-Ok (join_timeout ∷ es) w g =
    run-Ok es (step join_timeout w) (timeout-Ok w.closing w.worker w.publisher w.attempts g)
run-Ok (shutdown_posted ok ∷ es) w g =
    run-Ok es (step (shutdown_posted ok) w)
      (shutdown_posted-Ok ok w.closing w.worker w.publisher w.attempts g)

fresh-latest :
    (w : World)
    → w.closing ≡ serving
    → w.publisher.dirty ≡ false
    → Ok w
    → latest w.worker w.attempts ≡ some w.publisher.payload
fresh-latest w h clean g =
    elim (subst (λ (c : Closing). Fresh c w.worker w.publisher w.attempts) h g).1 [
      | inl d ↦ absurd (true≢false (sym d ∙ clean))
      | inr l ↦ l
    ]

-- However the threads interleave after the first update, which requests fail, and how often the
-- player count changes: before a shutdown, a publisher that has nothing marked to publish last took a
-- snapshot of exactly the payload as it stands.
pub run_fresh :
    (n : ℕ) (es : List Event)
    → (run (updated n ∷ es) launch).closing ≡ serving
    → (run (updated n ∷ es) launch).publisher.dirty ≡ false
    → latest (run (updated n ∷ es) launch).worker (run (updated n ∷ es) launch).attempts
      ≡ some (run (updated n ∷ es) launch).publisher.payload
unfolding run step launch create update
run_fresh n es h clean =
    fresh-latest (run (updated n ∷ es) launch) h clean
      (run-Ok es (step (updated n) launch) (refl, inl refl))
