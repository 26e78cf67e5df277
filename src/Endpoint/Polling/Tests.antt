-- ===== src/Endpoint/Polling/Tests.antt =====
-- A polling queue's life, and its theorem at a concrete input.
use sgsp.Common.{ℕ, ◌≡◌, refl, arith, List, [], ◌∷◌, ◌++◌, false, Option, none, some}
use sgsp.Common.Int.{pos, negsuc}
use sgsp.Runtime.Queue.{
  try_push, pop, remove, close as close_queue, try_reserve, finish, commit as commit_queue,
  cancel as cancel_queue,
}
use sgsp.Runtime.Budget.{acquire as acquire_budget, release as release_budget}
use sgsp.Endpoint.Polling.{
  Incoming, IncomingQueue, event, lifecycle_message, session_ended, acquire, give_back, release,
  attach_charge, push_charged, push, next_pending, next, close, discard_epoch, release_handed,
}
use sgsp.Endpoint.Charges.{acquire?, release?}
use sgsp.Endpoint.Polling.Reservations.{
  begin_reserve, take_turn, give_up, commit_reservation, cancel_reservation, update_reservation,
}
use sgsp.Endpoint.Polling.Accounting.{IsAccounted}
use sgsp.Endpoint.Polling.Runs.{
  Call, pushes, takes, closes, discards, releases, reserves, takes_turn, gives_up, commits, cancels,
  step, run, run-IsAccounted,
}

abbrev empty : IncomingQueue
empty = record {
  queue = record {
    items = [];
    max_bytes = 100;
    max_items = 3;
    bytes = 0;
    reserved_bytes = 0;
    reserved_items = 0;
    closed = false;
    notify = false;
  };
  budget = record { max = 100; used = 0; notify = false };
  application = some (record { max = 90; used = 7; notify = false });
  closed = false;
  terminal = [];
  handed = [];
  reservations = [];
}

abbrev hello : Incoming
hello = record { kind = event; session = 1; epoch = 1; charge = 0; released = false }

abbrev ended : Incoming
ended = record hello { kind = lifecycle_message (some session_ended) }

-- The endpoint's ledger has no room for the second message, whose charge is given back.
abbrev calls : List Call
calls =
    pushes hello (pos 40)
    ∷ pushes hello (pos 50)
    ∷ takes
    ∷ pushes hello (pos 20)
    ∷ pushes ended (pos 10)
    ∷ closes
    ∷ takes
    ∷ releases 0
    ∷ pushes hello (negsuc 0)
    ∷ discards 1 1
    ∷ []

-- A reservation that is committed and its message released, one that is cancelled, one that fails
-- while it waits for a place, and one whose queue closes before its commit.
abbrev reservation_calls : List Call
reservation_calls =
    reserves (pos 30)
    ∷ takes_turn 0
    ∷ reserves (pos 20)
    ∷ takes_turn 1
    ∷ commits 0 hello
    ∷ cancels 1
    ∷ cancels 0
    ∷ takes
    ∷ reserves (pos 5)
    ∷ gives_up 2
    ∷ reserves (pos 25)
    ∷ takes_turn 3
    ∷ []

empty-IsAccounted : IsAccounted empty
empty-IsAccounted = (refl, omega arith, omega arith)

run-IsAccounted_example :
    (t : IncomingQueue) × (run (calls ++ reservation_calls) empty ≡ some t) × IsAccounted t
run-IsAccounted_example = run-IsAccounted (calls ++ reservation_calls) empty empty-IsAccounted

-- Only the end of the session, which the application has not released, is still charged.
used_of : Option IncomingQueue → Option ℕ
used_of none = none
used_of (some q) = some q.budget.used

ends_charged : used_of (run calls empty) ≡ some 10
unfolding used_of run step push acquire acquire? release? acquire_budget release_budget
    attach_charge push_charged try_push next next_pending pop close close_queue release give_back
    release_handed discard_epoch remove
ends_charged = refl

-- The message that was committed, which the application has, and the last reservation, until the queue
-- is closed before its commit.
reservations_charged : used_of (run reservation_calls empty) ≡ some 55
unfolding used_of run step begin_reserve take_turn give_up commit_reservation cancel_reservation
    update_reservation acquire acquire? give_back release? acquire_budget release_budget
    attach_charge try_reserve commit_queue cancel_queue finish next next_pending pop
reservations_charged = refl

late_commit_refunded :
    used_of (run (reservation_calls ++ (closes ∷ commits 3 hello ∷ [])) empty) ≡ some 30
unfolding used_of run step begin_reserve take_turn give_up commit_reservation cancel_reservation
    update_reservation acquire acquire? give_back release? acquire_budget release_budget
    attach_charge try_reserve commit_queue cancel_queue finish next next_pending pop close
    close_queue
late_commit_refunded = refl
