-- ===== src/Endpoint/Handlers/Runs.antt =====
-- handler_scheduler.go and endpoint.go: the scheduler over any sequence of steps.
use sgsp.Common.{
  ℕ, ◌<◌, ◌≡◌, refl, sym, ◌∙◌, arith, [], length, Bool, true, false, none, some, ◌⊎◌, inl, inr,
}
use sgsp.Runtime.Queue.{Offer}
use sgsp.Endpoint.Handlers.{
  Scheduler, enqueue_handler, take_token, run_worker, close_scheduler, drop_queued,
}
use sgsp.Endpoint.Handlers.Serial.{occurs, Runs, Token, idle, waits, held}
use sgsp.Endpoint.Handlers.Steps.{enqueue_handler-Token}
use sgsp.Endpoint.Handlers.Turns.{
  run_worker-Token, take_token-Token, drop_queued-Token, close_scheduler-Token,
}

module _ {V : Type 0} where
  pub data Step : Scheduler V → Scheduler V → Type 0 where
    enqueues :
        (i : ℕ) (sequenced : Bool) (o : Offer V) (s : Scheduler V)
        → Step s (enqueue_handler i sequenced o s).0
    takes : (w : ℕ) (s : Scheduler V) → Step s (take_token w s)
    works : (w : ℕ) (s : Scheduler V) → Step s (run_worker w s)
    drops : (i : ℕ) (s : Scheduler V) → Step s (drop_queued i s)
    closes : (s : Scheduler V) → Step s (close_scheduler s)

  pub data Run : Scheduler V → Scheduler V → Type 0 where
    stops : (s : Scheduler V) → Run s s
    goes : (s t u : Scheduler V) → Step s t → Run t u → Run s u

  -- newHandlerScheduler, over connections without messages.
  pub record IsFresh (s : Scheduler V) : Type 0 where
    pub idle_workers : (w : ℕ) → s.workers w ≡ none
    pub no_tokens : s.ready ≡ []
    pub no_messages : (i : ℕ) → (s.handlers i).queue.items ≡ []
    pub unscheduled : (i : ℕ) → (s.handlers i).scheduled ≡ false

  fresh-Token : (s : Scheduler V) → IsFresh s → (i : ℕ) → Token s i
  fresh-Token s v i =
      idle (v.unscheduled i) (rw v.no_tokens refl)
        (λ w n r.
          let same : none ≡ some (record { connection = i; turn = n }) =
            sym (v.idle_workers w) ∙ r in
          absurd (cc))
        (λ a. v.no_messages i)

  Step-Token : (s t : Scheduler V) → Step s t → ((i : ℕ) → Token s i) → (j : ℕ) → Token t j
  Step-Token _ _ (enqueues i sequenced o s) all j =
      enqueue_handler-Token i j sequenced o s (all i) (all j)
  Step-Token _ _ (takes w s) all j = take_token-Token w j s all
  Step-Token _ _ (works w s) all j = run_worker-Token w j s all
  Step-Token _ _ (drops i s) all j = drop_queued-Token i j s (all i) (all j)
  Step-Token _ _ (closes s) all j = close_scheduler-Token j s (all j)

  Run-Token : (s t : Scheduler V) → Run s t → ((i : ℕ) → Token s i) → (j : ℕ) → Token t j
  Run-Token _ _ (stops s) all j = all j
  Run-Token _ _ (goes s t u step rest) all j = Run-Token t u rest (Step-Token s t step all) j

  -- Two workers never run handlers of one connection at a time: over any sequence of steps from a fresh
  -- scheduler, if two have tokens of the same connection, they are the same worker.
  pub serial :
      (s t : Scheduler V) (i w w' n n' : ℕ)
      → IsFresh s
      → Run s t
      → Runs t w i n
      → Runs t w' i n'
      → w ≡ w'
  serial s t i w w' n n' fresh run r r' = elim (Run-Token s t run (fresh-Token s fresh) i) [
    | idle f z u e ↦ absurd (u w n r)
    | waits f z u ↦ absurd (u w n r)
    | held v m f z k u ↦ u w n r ∙ sym (u w' n' r')
  ]

  -- No message is forgotten: over any sequence of steps from a fresh scheduler that still accepts, a
  -- connection that has messages has its one token in the ready queue, or a worker runs it.
  pub no_message_forgotten :
      (s t : Scheduler V) (i : ℕ)
      → IsFresh s
      → Run s t
      → t.accepting ≡ true
      → 0 < length (t.handlers i).queue.items
      → (occurs i t.ready ≡ 1) ⊎ ((w : ℕ) × (n : ℕ) × Runs t w i n)
  no_message_forgotten s t i fresh run a h = elim (Run-Token s t run (fresh-Token s fresh) i) [
    | idle f z u e ↦
        absurd
          (let none_left : length (t.handlers i).queue.items ≡ 0 = rw (e a) refl in omega arith)
    | waits f z u ↦ inl z
    | held w n f z r u ↦ inr (w, n, r)
  ]
