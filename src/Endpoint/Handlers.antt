-- ===== src/Endpoint/Handlers.antt =====
-- handler_scheduler.go and endpoint.go: the scheduler of handlers, which gives the queued messages of an
-- endpoint's connections to its workers. A connection and a worker are named by numbers. A section of
-- handlerMu is one step, with the reading of `accepting` and the send on `ready` that follows it; the
-- send waits while the channel is full. The charges of the messages, the handlers themselves and the
-- waiting pushes of the reliable readers are left out.
pub mod Serial
pub mod Steps
pub mod Workers
pub mod Turns
pub mod Runs
mod Tests
use sgsp.Common.{
  ℕ, ◌+◌, ◌==◌, ltb, List, [], ◌∷◌, ◌++◌, length, if◌then◌else◌, Bool, true, false, not, ◌&&◌,
  Option, none, some,
}
use sgsp.Runtime.Queue.{Offer, Queue, is_empty, try_push, replace_with, pop}

-- A connection's queue, and whether its scheduling token is out.
pub record Handlers (V : Type 0) : Type 0 where
  pub queue : Queue V
  pub scheduled : Bool

-- What a worker runs: a connection, and how many of its messages in this quantum.
pub record Quantum : Type 0 where
  pub connection : ℕ
  pub turn : ℕ

-- `invoked` lists what the workers took from the queues, with its connection.
pub record Scheduler (V : Type 0) : Type 0 where
  pub handlers : ℕ → Handlers V
  pub ready : List ℕ
  pub max_ready : ℕ
  pub accepting : Bool
  pub workers : ℕ → Option Quantum
  pub invoked : List (ℕ × V)

abbrev pub quantum : ℕ
quantum = 32

-- A write at one place.
abbrev pub at_place {ℓ} : {A : Type ℓ} → ℕ → A → (ℕ → A) → ℕ → A
at_place i v f j = if i == j then v else f j

module _ {V : Type 0} where
  abbrev pub put : ℕ → Handlers V → Scheduler V → Scheduler V
  put i h s = record s { handlers = at_place i h s.handlers }

  abbrev pub place_worker : ℕ → Option Quantum → Scheduler V → Scheduler V
  place_worker w q s = record s { workers = at_place w q s.workers }

  -- enqueue: the token goes to the ready queue, if the scheduler accepts and the queue has room.
  unfoldable pub enqueue : ℕ → Scheduler V → Scheduler V × Bool
  enqueue i s =
      if s.accepting && ltb (length s.ready) s.max_ready
      then (record s { ready = s.ready ++ (i ∷ []) }, true)
      else (s, false)

  -- A sequenced message replaces the one of its channel that still waits.
  unfoldable pub accept_item : Bool → Offer V → Queue V → Queue V × Bool
  accept_item sequenced o q =
      if sequenced
      then (let (q', accepted, _, _) = replace_with q o in (q', accepted))
      else try_push q o

  -- Behind the charge and the acceptance: the token, or the message goes back.
  unfoldable pub schedule : ℕ → Queue V → Scheduler V → Scheduler V × Bool
  schedule i queue s =
      let (enqueued, fine) = enqueue i s in
      if fine
      then (put i (record { queue = queue; scheduled = true }) enqueued, true)
      else (put i (record { queue = (pop queue).0; scheduled = false }) s, false)

  unfoldable pub enqueue_handler : ℕ → Bool → Offer V → Scheduler V → Scheduler V × Bool
  enqueue_handler i sequenced o s =
      let (queue, accepted) = accept_item sequenced o (s.handlers i).queue in
      if not accepted
      then (s, false)
      else if (s.handlers i).scheduled
      then (put i (record { queue = queue; scheduled = true }) s, true)
      else schedule i queue s

  -- run: a worker that is idle takes the first token.
  unfoldable pub take_token : ℕ → Scheduler V → Scheduler V
  take_token w s = elim (s.workers w) [
    | some q ↦ s
    | none ↦ elim s.ready [
      | [] ↦ s
      | i ∷ rest ↦
          place_worker w (some (record { connection = i; turn = 0 })) (record s { ready = rest })
    ]
  ]

  -- The end of a token.
  abbrev pub retire : ℕ → ℕ → Queue V → Scheduler V → Scheduler V
  retire w i queue s = place_worker w none (put i (record { queue = queue; scheduled = false }) s)

  -- runHandlerQuantum, one turn of its loop.
  unfoldable pub invoke_next : ℕ → Quantum → Scheduler V → Scheduler V
  invoke_next w q s =
      let i = q.connection in
      let (queue, popped) = pop (s.handlers i).queue in
      elim popped [
        | none ↦ retire w i queue s
        | some item ↦ place_worker w (some (record q { turn = q.turn + 1 })) (
            put i (record (s.handlers i) { queue = queue })
              (record s { invoked = s.invoked ++ ((i, item.value) ∷ []) }))
      ]

  -- And its end, with messages left or not.
  unfoldable pub end_quantum : ℕ → Quantum → Scheduler V → Scheduler V
  end_quantum w q s =
      let i = q.connection in
      let queue = (s.handlers i).queue in
      if is_empty queue.items
      then retire w i queue s
      else if not s.accepting
      then retire w i queue s
      else if ltb (length s.ready) s.max_ready
      then place_worker w none (record s { ready = s.ready ++ (i ∷ []) })
      else s

  unfoldable pub run_worker : ℕ → Scheduler V → Scheduler V
  run_worker w s = elim (s.workers w) [
    | none ↦ s
    | some q ↦ if ltb q.turn quantum then invoke_next w q s else end_quantum w q s
  ]

  -- close, and dropQueuedHandlers, whose loop pops until nothing is left.
  unfoldable pub close_scheduler : Scheduler V → Scheduler V
  close_scheduler s = record s { accepting = false }

  abbrev pub pop_each {ℓ} : {A : Type ℓ} → List A → Queue V → Queue V
  pop_each [] q = q
  pop_each (x ∷ xs) q = pop_each xs (pop q).0

  unfoldable pub drop_queued : ℕ → Scheduler V → Scheduler V
  drop_queued i s =
      let h = s.handlers i in put i (record h { queue = pop_each h.queue.items h.queue }) s
