-- ===== src/Endpoint/Handlers/Turns.antt =====
-- handler_scheduler.go and endpoint.go: the turns of the workers, the drop of a connection's messages and
-- the close keep each connection's token.
use sgsp.Common.{
  ℕ, ◌+◌, ◌==◌, ltb, ◌≡◌, refl, sym, ap, ◌∙◌, subst, arith, List, [], ◌∷◌, ◌++◌, length, true,
  Option, none, some, inl, inr, Bool-cases, Option-cases,
}
use sgsp.Runtime.Queue.{Item, Queue, is_empty, pop}
use sgsp.Endpoint.Handlers.{
  Handlers, Quantum, Scheduler, put, place_worker, take_token, retire, invoke_next, end_quantum,
  run_worker, close_scheduler, pop_each, drop_queued, quantum,
}
use sgsp.Endpoint.Handlers.Serial.{
  occurs, Token, idle, waits, held, transfer, at_place_here, List-cases, pop-nil, pop-cons,
}
use sgsp.Endpoint.Handlers.Steps.{put_other}
use sgsp.Endpoint.Handlers.Workers.{
  at_place-cases, none-Apart, some-Apart, place_other, ready_other, retire-Token, keeps-Token,
  yields-Token,
}

module _ {V : Type 0} where
  taken :
      (w i : ℕ) (rest : List ℕ) (s : Scheduler V)
      → occurs i s.ready ≡ 1 + occurs i rest
      → Token s i
      → Token
          (place_worker w (some (record { connection = i; turn = 0 })) (record s { ready = rest }))
          i
  taken w i rest s e (idle f z u x) = absurd (ground arith)
  taken w i rest s e (held v n f z r u) = absurd (ground arith)
  taken w i rest s e (waits f z u) =
      held w 0 f (omega arith) (at_place_here w _ s.workers) (λ v k x.
        elim (at_place-cases w v _ _ s.workers x) [
          | inl (same, h) ↦ sym same
          | inr (apart, h) ↦ absurd (u v k h)
        ])

  is_empty-nil : (xs : List (Item V)) → is_empty xs ≡ true → xs ≡ []
  is_empty-nil [] h = refl
  is_empty-nil (x ∷ xs) h = absurd (cc)

  takes-Token :
      (w i j : ℕ) (rest : List ℕ) (s : Scheduler V)
      → s.workers w ≡ none
      → s.ready ≡ i ∷ rest
      → Token s i
      → Token s j
      → Token
          (place_worker w (some (record { connection = i; turn = 0 })) (record s { ready = rest }))
          j
  takes-Token w i j rest s n e t u =
      let q : Option Quantum = some (record { connection = i; turn = 0 }) in
      elim (Bool-cases (i == j)) [
        | inr c ↦
            place_other w j q (record s { ready = rest }) (rw n (none-Apart j)) (some-Apart i j 0 c)
              (ready_other j rest s (rw (e, c) refl) u)
        | inl c ↦
            let here : i ≡ j = ground arith in
            let some_time : occurs i s.ready ≡ 1 + occurs i rest = rw e (ground arith) in
            subst (λ (k : ℕ). Token (place_worker w q (record s { ready = rest })) k) here
              (taken w i rest s some_time t)
      ]

  end_quantum-Token :
      (w j : ℕ) (q : Quantum) (s : Scheduler V)
      → s.workers w ≡ some q
      → ((i : ℕ) → Token s i)
      → Token (end_quantum w q s) j
  unfolding end_quantum
  end_quantum-Token w j q s r all =
      let i = q.connection in
      let queue = (s.handlers i).queue in
      elim (Bool-cases (is_empty queue.items)) [
        | inl e ↦
            rw (e, end_quantum)
              (retire-Token w i j q.turn queue s r (λ a. is_empty-nil queue.items e) (all i)
                (all j))
        | inr e ↦ elim (Bool-cases s.accepting) [
          | inr a ↦
              let ends : end_quantum w q s ≡ retire w i queue s = rw (e, a, end_quantum) refl in
              subst (λ (x : Scheduler V). Token x j) (sym ends)
                (retire-Token w i j q.turn queue s r (λ x. absurd (ground arith)) (all i) (all j))
          | inl a ↦ elim (Bool-cases (ltb (length s.ready) s.max_ready)) [
            | inl m ↦
                let goes : end_quantum w q s
                    ≡ place_worker w none (record s { ready = s.ready ++ (i ∷ []) }) =
                  rw (e, a, m, end_quantum) refl in
                subst (λ (x : Scheduler V). Token x j) (sym goes)
                  (yields-Token w i j q.turn s r (all i) (all j))
            | inr m ↦
                let stays : end_quantum w q s ≡ s = rw (e, a, m, end_quantum) refl in
                subst (λ (x : Scheduler V). Token x j) (sym stays) (all j)
          ]
        ]
      ]

  pub run_worker-Token :
      (w j : ℕ) (s : Scheduler V) → ((i : ℕ) → Token s i) → Token (run_worker w s) j
  unfolding run_worker invoke_next
  run_worker-Token w j s all = elim (Option-cases (s.workers w)) [
    | inl n ↦ rw (n, run_worker) (all j)
    | inr (q, r) ↦
        let i = q.connection in
        let queue = (s.handlers i).queue in
        elim (Bool-cases (ltb q.turn quantum)) [
          | inl l ↦ elim (List-cases queue.items) [
            | inl e ↦
                let (none_left, left) = pop-nil queue e in
                rw (r, l, none_left, run_worker, invoke_next)
                  (retire-Token w i j q.turn (pop queue).0 s r (λ a. left) (all i) (all j))
            | inr (item, rest, e) ↦
                let (taken, left) = pop-cons queue item rest e in
                rw (r, l, taken, run_worker, invoke_next)
                  (keeps-Token w i j q.turn (q.turn + 1) (pop queue).0 _ s r (all i) (all j))
          ]
          | inr l ↦ rw (r, l, run_worker) (end_quantum-Token w j q s r all)
        ]
  ]

  pub take_token-Token :
      (w j : ℕ) (s : Scheduler V) → ((i : ℕ) → Token s i) → Token (take_token w s) j
  unfolding take_token
  take_token-Token w j s all = elim (Option-cases (s.workers w)) [
    | inr (q, r) ↦ rw (r, take_token) (all j)
    | inl n ↦ elim (List-cases s.ready) [
      | inl e ↦ rw (n, e, take_token) (all j)
      | inr (i, rest, e) ↦ rw (n, e, take_token) (takes-Token w i j rest s n e (all i) (all j))
    ]
  ]

  pop_each-nil :
      {A : Type 0} (xs : List A) (q : Queue V) → q.items ≡ [] → (pop_each xs q).items ≡ []
  pop_each-nil [] q e = e
  pop_each-nil (x ∷ xs) q e = pop_each-nil xs (pop q).0 (pop-nil q e).1

  emptied :
      (i : ℕ) (queue : Queue V) (s : Scheduler V)
      → (s.accepting ≡ true → (s.handlers i).queue.items ≡ [] → queue.items ≡ [])
      → Token s i
      → Token (put i (record (s.handlers i) { queue = queue }) s) i
  emptied i queue s e t =
      let same : (put i (record (s.handlers i) { queue = queue }) s).handlers i
          ≡ record (s.handlers i) { queue = queue } =
        at_place_here i _ s.handlers in
      elim t [
        | idle f z u x ↦
            idle (ap (λ (h : Handlers V). h.scheduled) same ∙ f) z u
              (λ a. ap (λ (h : Handlers V). h.queue.items) same ∙ e a (x a))
        | waits f z u ↦ waits (ap (λ (h : Handlers V). h.scheduled) same ∙ f) z u
        | held w n f z r u ↦ held w n (ap (λ (h : Handlers V). h.scheduled) same ∙ f) z r u
      ]

  pub drop_queued-Token :
      (i j : ℕ) (s : Scheduler V) → Token s i → Token s j → Token (drop_queued i s) j
  unfolding drop_queued
  drop_queued-Token i j s t u =
      let queue = (s.handlers i).queue in
      elim (Bool-cases (i == j)) [
        | inr c ↦ put_other i j _ s c u
        | inl c ↦
            let here : i ≡ j = ground arith in
            subst (λ (k : ℕ). Token (drop_queued i s) k) here
              (emptied i (pop_each queue.items queue) s (λ a e. pop_each-nil queue.items queue e) t)
      ]

  pub close_scheduler-Token : (j : ℕ) (s : Scheduler V) → Token s j → Token (close_scheduler s) j
  unfolding close_scheduler
  close_scheduler-Token j s =
      transfer s (close_scheduler s) j refl refl (λ a. absurd (ground arith)) (λ w n r. r)
        (λ w n r. r)
