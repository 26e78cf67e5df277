-- ===== src/Endpoint/Handlers/Steps.antt =====
-- handler_scheduler.go and endpoint.go: every step of the scheduler keeps each connection's token.
use sgsp.Common.{
  ℕ, ◌==◌, ltb, ◌≡◌, refl, ap, ◌∙◌, subst, arith, [], ◌∷◌, ◌++◌, length, Bool, true, false, ◌&&◌,
  inl, inr, Bool-cases,
}
use sgsp.Runtime.Queue.{Offer, Queue}
use sgsp.Endpoint.Handlers.{
  Handlers, Scheduler, at_place, put, enqueue, accept_item, schedule, enqueue_handler,
}
use sgsp.Endpoint.Handlers.Serial.{
  occurs-append, Token, idle, waits, held, transfer, at_place_here, pop-cons, accept_item-alone,
  schedule-Token,
}

pub at_place_there {ℓ} :
    {A : Type ℓ} (i j : ℕ) (v : A) (f : ℕ → A) → (i == j) ≡ false → at_place i v f j ≡ f j
at_place_there i j v f h = rw h refl

module _ {V : Type 0} where
  -- Another connection's handlers.
  pub put_other :
      (i j : ℕ) (h : Handlers V) (s : Scheduler V)
      → (i == j) ≡ false
      → Token s j
      → Token (put i h s) j
  put_other i j h s c =
      transfer s (put i h s) j (at_place_there i j h s.handlers c) refl (λ a. a) (λ w n r. r)
        (λ w n r. r)

  -- The connection's own handlers, with the same token, that may have messages left.
  put_scheduled :
      (i : ℕ) (queue : Queue V) (s : Scheduler V)
      → (s.handlers i).scheduled ≡ true
      → Token s i
      → Token (put i (record { queue = queue; scheduled = true }) s) i
  put_scheduled i queue s f (idle g z u e) = absurd (ground arith)
  put_scheduled i queue s f (waits g z u) =
      waits (ap (λ (h : Handlers V). h.scheduled) (at_place_here i _ s.handlers)) z u
  put_scheduled i queue s f (held w n g z r u) =
      held w n (ap (λ (h : Handlers V). h.scheduled) (at_place_here i _ s.handlers)) z r u

  schedule_other :
      (i j : ℕ) (queue : Queue V) (s : Scheduler V)
      → (i == j) ≡ false
      → Token s j
      → Token (schedule i queue s).0 j
  unfolding schedule enqueue
  schedule_other i j queue s c t =
      elim (Bool-cases (s.accepting && ltb (length s.ready) s.max_ready)) [
        | inl a ↦
            rw (a, schedule, enqueue)
              (transfer s
                (put i (record { queue = queue; scheduled = true })
                  (record s { ready = s.ready ++ (i ∷ []) }))
                j (at_place_there i j _ s.handlers c)
                (occurs-append j i s.ready ∙ rw c (omega arith)) (λ x. x) (λ w n r. r) (λ w n r. r)
                t)
        | inr a ↦ rw (a, schedule, enqueue) (put_other i j _ s c t)
      ]

  schedule_own :
      (i : ℕ) (sequenced : Bool) (o : Offer V) (s : Scheduler V)
      → (s.handlers i).scheduled ≡ false
      → (accept_item sequenced o (s.handlers i).queue).1 ≡ true
      → Token s i
      → Token (schedule i (accept_item sequenced o (s.handlers i).queue).0 s).0 i
  schedule_own i sequenced o s f a (waits g z u) = absurd (ground arith)
  schedule_own i sequenced o s f a (held w n g z r u) = absurd (ground arith)
  schedule_own i sequenced o s f a (idle g z u e) =
      schedule-Token i _ s f z u
        (λ x. (pop-cons _ _ [] (accept_item-alone sequenced o (s.handlers i).queue (e x) a)).1)

  pub enqueue_handler-Token :
      (i j : ℕ) (sequenced : Bool) (o : Offer V) (s : Scheduler V)
      → Token s i
      → Token s j
      → Token (enqueue_handler i sequenced o s).0 j
  unfolding enqueue_handler
  enqueue_handler-Token i j sequenced o s t u =
      elim (Bool-cases (accept_item sequenced o (s.handlers i).queue).1) [
        | inr a ↦ rw (a, enqueue_handler) u
        | inl a ↦ elim (Bool-cases (s.handlers i).scheduled) [
          | inl f ↦ elim (Bool-cases (i == j)) [
            | inr c ↦ rw (a, f, enqueue_handler) (put_other i j _ s c u)
            | inl c ↦
                let here : i ≡ j = ground arith in
                rw (a, f, enqueue_handler)
                  (subst
                    (λ (k : ℕ).
                      Token
                        (put i
                          (record {
                            queue = (accept_item sequenced o (s.handlers i).queue).0;
                            scheduled = true;
                          })
                          s)
                        k)
                    here (put_scheduled i (accept_item sequenced o (s.handlers i).queue).0 s f t))
          ]
          | inr f ↦ elim (Bool-cases (i == j)) [
            | inr c ↦ rw (a, f, enqueue_handler) (schedule_other i j _ s c u)
            | inl c ↦
                let here : i ≡ j = ground arith in
                rw (a, f, enqueue_handler)
                  (subst
                    (λ (k : ℕ).
                      Token (schedule i (accept_item sequenced o (s.handlers i).queue).0 s).0 k)
                    here (schedule_own i sequenced o s f a t))
          ]
        ]
      ]
