-- ===== src/Endpoint/Handlers/Serial.antt =====
-- handler_scheduler.go and endpoint.go: each connection has at most one scheduling token, and one while it
-- has messages.
use sgsp.Common.{
  ℕ, ◌+◌, ◌==◌, ltb, ◌≡◌, refl, ap, ◌∙◌, arith, List, [], ◌∷◌, ◌++◌, length, if◌then◌else◌, Bool,
  true, false, ◌&&◌, ◌||◌, none, some, ◌⊎◌, inl, inr, Bool-cases,
}
use sgsp.Common.Int.{is_neg, to_ℕ}
use sgsp.Runtime.Queue.{
  Offer, accept, lacks_room, Item, Queue, try_push, replace_with, find_key, pop,
}
use sgsp.Endpoint.Handlers.{Handlers, Scheduler, at_place, enqueue, accept_item, schedule}

-- How often a token is in the ready queue.
abbrev pub occurs : ℕ → List ℕ → ℕ
occurs i [] = 0
occurs i (j ∷ js) = if j == i then 1 + occurs i js else occurs i js

pub occurs-append :
    (i j : ℕ) (js : List ℕ) → occurs i (js ++ (j ∷ [])) ≡ occurs i js + (if j == i then 1 else 0)
occurs-append i j [] = ground arith
occurs-append i j (k ∷ js) = ground (arith, occurs-append i j js)

pub at_place_here {ℓ} : {A : Type ℓ} (i : ℕ) (v : A) (f : ℕ → A) → at_place i v f i ≡ v
at_place_here i v f = ground arith

pub List-cases {ℓ} :
    {A : Type ℓ} (xs : List A) → (xs ≡ []) ⊎ ((x : A) × (rest : List A) × (xs ≡ x ∷ rest))
List-cases [] = inl refl
List-cases (x ∷ rest) = inr (x, rest, refl)

module _ {V : Type 0} where
  pub pop-nil : (q : Queue V) → q.items ≡ [] → ((pop q).1 ≡ none) × ((pop q).0.items ≡ [])
  unfolding pop
  pop-nil q e = (rw e refl, rw (e, pop) refl)

  pub pop-cons :
      (q : Queue V) (item : Item V) (rest : List (Item V))
      → q.items ≡ item ∷ rest
      → ((pop q).1 ≡ some item) × ((pop q).0.items ≡ rest)
  unfolding pop
  pop-cons q item rest e = (rw e refl, rw e refl)

  abbrev pub Runs : Scheduler V → ℕ → ℕ → ℕ → Type 0
  Runs s w i n = s.workers w ≡ some (record { connection = i; turn = n })

  -- The token of a connection is with it, and while the scheduler accepts there is nothing to do; or it
  -- waits for a worker; or one worker has it.
  pub data Token (s : Scheduler V) (i : ℕ) : Type 0 where
    idle :
        (s.handlers i).scheduled ≡ false
        → occurs i s.ready ≡ 0
        → ((w n : ℕ) → Runs s w i n → ⊥)
        → (s.accepting ≡ true → (s.handlers i).queue.items ≡ [])
        → Token s i
    waits :
        (s.handlers i).scheduled ≡ true
        → occurs i s.ready ≡ 1
        → ((w n : ℕ) → Runs s w i n → ⊥)
        → Token s i
    held :
        (w n : ℕ)
        → (s.handlers i).scheduled ≡ true
        → occurs i s.ready ≡ 0
        → Runs s w i n
        → ((w' n' : ℕ) → Runs s w' i n' → w' ≡ w)
        → Token s i

  -- A step that leaves a connection's queue and tokens alone.
  pub transfer :
      (s t : Scheduler V) (i : ℕ)
      → t.handlers i ≡ s.handlers i
      → occurs i t.ready ≡ occurs i s.ready
      → (t.accepting ≡ true → s.accepting ≡ true)
      → ((w n : ℕ) → Runs t w i n → Runs s w i n)
      → ((w n : ℕ) → Runs s w i n → Runs t w i n)
      → Token s i
      → Token t i
  transfer s t i h o a back on (idle f z u e) =
      idle (rw h f) (o ∙ z) (λ w n r. u w n (back w n r)) (λ x. rw h (e (a x)))
  transfer s t i h o a back on (waits f z u) = waits (rw h f) (o ∙ z) (λ w n r. u w n (back w n r))
  transfer s t i h o a back on (held w n f z r u) =
      held w n (rw h f) (o ∙ z) (on w n r) (λ w' n' r'. u w' n' (back w' n' r'))

  -- What is accepted into an empty queue is alone there.
  pub accept_item-alone :
      (sequenced : Bool) (o : Offer V) (q : Queue V)
      → q.items ≡ []
      → (accept_item sequenced o q).1 ≡ true
      → (accept_item sequenced o q).0.items ≡ accept o ∷ []
  unfolding accept_item try_push replace_with find_key
  accept_item-alone true o q e h = elim (Bool-cases (q.closed || is_neg o.bytes)) [
    | inl c ↦ absurd (ground arith)
    | inr c ↦ elim (Bool-cases (lacks_room q (to_ℕ o.bytes))) [
      | inl l ↦ absurd (ground arith)
      | inr l ↦ rw (c, e, l) (ap (λ (xs : List (Item V)). xs ++ (accept o ∷ [])) e)
    ]
  ]
  accept_item-alone false o q e h =
      elim (Bool-cases (q.closed || is_neg o.bytes || lacks_room q (to_ℕ o.bytes))) [
        | inl c ↦ absurd (ground arith)
        | inr c ↦ rw (c, try_push) (ap (λ (xs : List (Item V)). xs ++ (accept o ∷ [])) e)
      ]

  -- A connection whose token is with it.
  pub schedule-Token :
      (i : ℕ) (queue : Queue V) (s : Scheduler V)
      → (s.handlers i).scheduled ≡ false
      → occurs i s.ready ≡ 0
      → ((w n : ℕ) → Runs s w i n → ⊥)
      → (s.accepting ≡ true → (pop queue).0.items ≡ [])
      → Token (schedule i queue s).0 i
  unfolding schedule enqueue
  schedule-Token i queue s f z u e =
      elim (Bool-cases (s.accepting && ltb (length s.ready) s.max_ready)) [
        | inl c ↦
            rw (c, schedule, enqueue)
              (waits (ap (λ (h : Handlers V). h.scheduled) (at_place_here i _ s.handlers))
                (occurs-append i i s.ready ∙ ground (arith, z)) u)
        | inr c ↦
            rw (c, schedule, enqueue)
              (idle (ap (λ (h : Handlers V). h.scheduled) (at_place_here i _ s.handlers)) z u
                (λ a. ap (λ (h : Handlers V). h.queue.items) (at_place_here i _ s.handlers) ∙ e a))
      ]
