-- ===== src/Endpoint/Handlers/Tests.antt =====
-- A scheduler with two workers at concrete inputs.
use sgsp.Common.{ℕ, ◌≡◌, refl, arith, [], ◌∷◌, length, true, false, none, ◌⊎◌}
use sgsp.Common.Int.{pos}
use sgsp.Runtime.Queue.{Offer, Queue, try_push, pop}
use sgsp.Endpoint.Handlers.{
  Scheduler, enqueue, accept_item, schedule, enqueue_handler, take_token, run_worker, invoke_next,
}
use sgsp.Endpoint.Handlers.Serial.{occurs, Runs}
use sgsp.Endpoint.Handlers.Runs.{
  enqueues, takes, works, Run, stops, goes, IsFresh, serial, no_message_forgotten,
}

abbrev empty_queue : Queue ℕ
empty_queue = record {
  items = [];
  max_bytes = 100;
  max_items = 50;
  bytes = 0;
  reserved_bytes = 0;
  reserved_items = 0;
  closed = false;
  notify = false;
}

abbrev fresh : Scheduler ℕ
fresh = record {
  handlers = λ i. record { queue = empty_queue; scheduled = false };
  ready = [];
  max_ready = 2;
  accepting = true;
  workers = λ w. none;
  invoked = [];
}

abbrev fresh-IsFresh : IsFresh fresh
fresh-IsFresh = record {
  idle_workers = λ w. refl;
  no_tokens = refl;
  no_messages = λ i. refl;
  unscheduled = λ i. refl;
}

abbrev offer : ℕ → Offer ℕ
offer v = record { value = v; bytes = pos 1; key = 0 }

abbrev one_waits : Scheduler ℕ
one_waits = (enqueue_handler 7 false (offer 70) fresh).0

abbrev two_wait : Scheduler ℕ
two_wait = (enqueue_handler 7 false (offer 71) one_waits).0

abbrev one_runs : Scheduler ℕ
one_runs = take_token 0 two_wait

abbrev one_done : Scheduler ℕ
one_done = run_worker 0 one_runs

-- The other worker finds no token, and the first one takes the messages in their order.
abbrev other_idle : Scheduler ℕ
other_idle = take_token 1 one_done

abbrev both_done : Scheduler ℕ
both_done = run_worker 0 (run_worker 0 other_idle)

runs_in_order : both_done.invoked ≡ (7, 70) ∷ (7, 71) ∷ []
unfolding enqueue_handler accept_item schedule enqueue take_token run_worker invoke_next try_push
    pop
runs_in_order = refl

token_back : (both_done.handlers 7).scheduled ≡ false
unfolding enqueue_handler accept_item schedule enqueue take_token run_worker invoke_next try_push
    pop
token_back = refl

abbrev run : Run fresh other_idle
run = goes fresh one_waits other_idle (enqueues 7 false (offer 70) fresh) (
    goes one_waits two_wait other_idle (enqueues 7 false (offer 71) one_waits) (
      goes two_wait one_runs other_idle (takes 0 two_wait) (
        goes one_runs one_done other_idle (works 0 one_runs)
          (goes one_done other_idle other_idle (takes 1 one_done) (stops other_idle)))))

running : Runs other_idle 0 7 1
unfolding enqueue_handler accept_item schedule enqueue take_token run_worker invoke_next try_push
    pop
running = refl

abbrev first_worker : ℕ
first_worker = 0

serial_example : first_worker ≡ first_worker
serial_example =
    serial fresh other_idle 7 first_worker first_worker 1 1 fresh-IsFresh run running running

one_left : length (other_idle.handlers 7).queue.items ≡ 1
unfolding enqueue_handler accept_item schedule enqueue take_token run_worker invoke_next try_push
    pop
one_left = refl

still_accepting : other_idle.accepting ≡ true
unfolding enqueue_handler accept_item schedule enqueue take_token run_worker invoke_next try_push
    pop
still_accepting = refl

no_message_forgotten_example :
    (occurs 7 other_idle.ready ≡ 1) ⊎ ((w : ℕ) × (n : ℕ) × Runs other_idle w 7 n)
no_message_forgotten_example =
    no_message_forgotten fresh other_idle 7 fresh-IsFresh run still_accepting
      (omega (arith, one_left))
