-- ===== src/Publisher/Worker.antt =====
-- server/intv_relay_server.py: `LobbyPublisher.shutdown`, `_run` and `_post`, as the steps of the
-- worker thread and of the thread that shuts the server down. A block under the condition variable
-- is one step; which step comes next is the scheduler's choice. What a POST does is its outcome.
use fujinet_intv_basketball.Base.{
  ℕ, suc, Bool, true, false, ◌||◌, List, [], ◌∷◌, ◌++◌, if◌then◌else◌,
}
use fujinet_intv_basketball.Publisher.{Payload, Publisher, create, update}

-- Where `_run` is: in the wait, in `_post` of a snapshot, in the debounce, or returned.
pub data Worker : Type 0 where
  idle : Worker
  sending : Payload → Worker
  pausing : Worker
  ended : Worker

-- Where `shutdown` is: not called, in the join, in the last `_post`, or returned.
pub data Closing : Type 0 where
  serving : Closing
  joining : Payload → Closing
  last_post : Payload → Closing
  closed : Closing

-- `attempts` are the payloads of all requests made so far, oldest first.
pub record World : Type 0 where
  pub publisher : Publisher
  pub worker : Worker
  pub closing : Closing
  pub attempts : List Payload

-- `keepalive` is the wait that times out; `join_timeout` is the join that returns while the worker is
-- still running. The flags say whether a POST succeeds.
pub data Event : Type 0 where
  updated : ℕ → Event
  keepalive : Event
  wake : Event
  worker_posted : Bool → Event
  resume : Event
  shutdown : Event
  joined : Event
  join_timeout : Event
  shutdown_posted : Bool → Event

-- A POST that raises `OSError` is counted.
unfoldable pub settle_post : Bool → Publisher → Publisher
settle_post ok p = if ok then p else record p { failures = suc p.failures }

unfoldable pub on_keepalive : Worker → World → World
on_keepalive idle w = record w { publisher = record (w.publisher) { dirty = true } }
on_keepalive (sending p) w = w
on_keepalive pausing w = w
on_keepalive ended w = w

-- The end of the block under the condition variable, once there is something to do.
unfoldable pub on_wake : Worker → World → World
on_wake idle w =
    if w.publisher.dirty || w.publisher.stopping
    then record w {
      publisher = record (w.publisher) { dirty = false };
      worker = if w.publisher.stopping then ended else sending w.publisher.payload;
    }
    else w
on_wake (sending p) w = w
on_wake pausing w = w
on_wake ended w = w

unfoldable pub on_worker_posted : Bool → Worker → World → World
unfolding settle_post
on_worker_posted ok (sending p) w = record w {
  publisher = settle_post ok w.publisher;
  worker = pausing;
  attempts = w.attempts ++ p ∷ [];
}
on_worker_posted ok idle w = w
on_worker_posted ok pausing w = w
on_worker_posted ok ended w = w

unfoldable pub on_resume : Worker → World → World
on_resume pausing w = record w { worker = idle }
on_resume idle w = w
on_resume (sending p) w = w
on_resume ended w = w

-- The block of `shutdown` under the condition variable.
unfoldable pub on_shutdown : Closing → World → World
on_shutdown serving w =
    let payload = record (w.publisher.payload) { online = false } in
    record w {
      publisher = record (w.publisher) { payload = payload; stopping = true };
      closing = joining payload;
    }
on_shutdown (joining p) w = w
on_shutdown (last_post p) w = w
on_shutdown closed w = w

unfoldable pub on_joined : Closing → Worker → World → World
on_joined (joining p) ended w = record w { closing = last_post p }
on_joined (joining p) idle w = w
on_joined (joining p) (sending q) w = w
on_joined (joining p) pausing w = w
on_joined serving k w = w
on_joined (last_post p) k w = w
on_joined closed k w = w

unfoldable pub on_join_timeout : Closing → World → World
on_join_timeout (joining p) w = record w { closing = last_post p }
on_join_timeout serving w = w
on_join_timeout (last_post p) w = w
on_join_timeout closed w = w

unfoldable pub on_shutdown_posted : Bool → Closing → World → World
unfolding settle_post
on_shutdown_posted ok (last_post p) w = record w {
  publisher = settle_post ok w.publisher;
  closing = closed;
  attempts = w.attempts ++ p ∷ [];
}
on_shutdown_posted ok serving w = w
on_shutdown_posted ok (joining p) w = w
on_shutdown_posted ok closed w = w

unfoldable pub step : Event → World → World
unfolding on_keepalive on_wake on_worker_posted on_resume on_shutdown on_joined on_join_timeout
    on_shutdown_posted
step (updated n) w = record w { publisher = update n w.publisher }
step keepalive w = on_keepalive w.worker w
step wake w = on_wake w.worker w
step (worker_posted ok) w = on_worker_posted ok w.worker w
step resume w = on_resume w.worker w
step shutdown w = on_shutdown w.closing w
step joined w = on_joined w.closing w.worker w
step join_timeout w = on_join_timeout w.closing w
step (shutdown_posted ok) w = on_shutdown_posted ok w.closing w

unfoldable pub run : List Event → World → World
unfolding step
run [] w = w
run (e ∷ es) w = run es (step e w)

-- `LobbyPublisher.__init__`, which starts the worker
unfoldable pub launch : World
unfolding create
launch = record { publisher = create; worker = idle; closing = serving; attempts = [] }
