-- ===== src/Endpoint/Handlers/Workers.antt =====
-- handler_scheduler.go and endpoint.go: the steps of the workers keep each connection's token.
use sgsp.Common.{
  ℕ, ◌==◌, ◌≡◌, refl, sym, ap, ◌∙◌, subst, arith, List, [], ◌∷◌, ◌++◌, true, false, Option, none,
  some, ◌⊎◌, inl, inr, Bool-cases,
}
use mathlib.Core.Option.{some-injective}
use sgsp.Runtime.Queue.{Queue}
use sgsp.Endpoint.Handlers.{Handlers, Quantum, Scheduler, at_place, put, place_worker, retire}
use sgsp.Endpoint.Handlers.Serial.{
  occurs, occurs-append, Runs, Token, idle, waits, held, transfer, at_place_here,
}
use sgsp.Endpoint.Handlers.Steps.{at_place_there, put_other}

pub at_place-cases {ℓ} :
    {A : Type ℓ} (i j : ℕ) (v y : A) (f : ℕ → A)
    → at_place i v f j ≡ y
    → ((i ≡ j) × (v ≡ y)) ⊎ (((i == j) ≡ false) × (f j ≡ y))
at_place-cases i j v y f h = elim (Bool-cases (i == j)) [
  | inl c ↦ inl (ground arith, rw c at h)
  | inr c ↦ inr (c, rw c at h)
]

-- What a worker does is not this connection's.
abbrev pub Apart : ℕ → Option Quantum → Type 0
Apart j x = (n : ℕ) → x ≡ some (record { connection = j; turn = n }) → ⊥

pub none-Apart : (j : ℕ) → Apart j none
none-Apart j n h = absurd (cc)

pub some-Apart :
    (i j n : ℕ) → (i == j) ≡ false → Apart j (some (record { connection = i; turn = n }))
some-Apart i j n c m h =
    let same : i ≡ j = ap (λ (q : Quantum). q.connection) (some-injective _ _ h) in ground arith

module _ {V : Type 0} where
  pub place_other :
      (w j : ℕ) (x : Option Quantum) (s : Scheduler V)
      → Apart j (s.workers w)
      → Apart j x
      → Token s j
      → Token (place_worker w x s) j
  place_other w j x s a b =
      transfer s (place_worker w x s) j refl refl (λ y. y)
        (λ v n r. elim (at_place-cases w v x _ s.workers r) [
          | inl (e, h) ↦ absurd (b n h)
          | inr (e, h) ↦ h
        ])
        (λ v n r. elim (Bool-cases (w == v)) [
          | inl c ↦ let same : w ≡ v = ground arith in absurd (a n (rw same r))
          | inr c ↦ at_place_there w v x s.workers c ∙ r
        ])

  pub ready_other :
      (j : ℕ) (ready : List ℕ) (s : Scheduler V)
      → occurs j ready ≡ occurs j s.ready
      → Token s j
      → Token (record s { ready = ready }) j
  ready_other j ready s o =
      transfer s (record s { ready = ready }) j refl o (λ y. y) (λ w n r. r) (λ w n r. r)

  -- What is known of the token that a worker has.
  held_by :
      (w i n : ℕ) (s : Scheduler V)
      → Runs s w i n
      → Token s i
      → ((s.handlers i).scheduled ≡ true)
        × (occurs i s.ready ≡ 0)
        × ((w' n' : ℕ) → Runs s w' i n' → w' ≡ w)
  held_by w i n s r (idle f z u e) = absurd (u w n r)
  held_by w i n s r (waits f z u) = absurd (u w n r)
  held_by w i n s r (held w' n' f z r' u) = (f, z, λ v m k. u v m k ∙ sym (u w n r))

  pub retire-Token :
      (w i j n : ℕ) (queue : Queue V) (s : Scheduler V)
      → Runs s w i n
      → (s.accepting ≡ true → queue.items ≡ [])
      → Token s i
      → Token s j
      → Token (retire w i queue s) j
  retire-Token w i j n queue s r e t u = elim (Bool-cases (i == j)) [
    | inr c ↦
        place_other w j none (put i (record { queue = queue; scheduled = false }) s)
          (rw r (some-Apart i j n c)) (none-Apart j) (put_other i j _ s c u)
    | inl c ↦
        let here : i ≡ j = ground arith in
        let (f, z, one) = held_by w i n s r t in
        subst (λ (k : ℕ). Token (retire w i queue s) k) here
          (idle (ap (λ (h : Handlers V). h.scheduled) (at_place_here i _ s.handlers)) z
            (λ v m k. elim (at_place-cases w v none _ s.workers k) [
              | inl (same, h) ↦ none-Apart i m h
              | inr (apart, h) ↦ let same : v ≡ w = one v m h in absurd (ground arith)
            ])
            (λ a. ap (λ (h : Handlers V). h.queue.items) (at_place_here i _ s.handlers) ∙ e a))
  ]

  -- A worker goes on with its token.
  pub keeps-Token :
      (w i j n m : ℕ) (queue : Queue V) (invoked : List (ℕ × V)) (s : Scheduler V)
      → Runs s w i n
      → Token s i
      → Token s j
      → Token
          (place_worker w
            (some (record { connection = i; turn = m }))
            (put i (record (s.handlers i) { queue = queue }) (record s { invoked = invoked })))
          j
  keeps-Token w i j n m queue invoked s r t u =
      let s' : Scheduler V = record s { invoked = invoked } in
      let h : Handlers V = record (s.handlers i) { queue = queue } in
      let q : Option Quantum = some (record { connection = i; turn = m }) in
      elim (Bool-cases (i == j)) [
        | inr c ↦
            place_other w j q (put i h s') (rw r (some-Apart i j n c)) (some-Apart i j m c) (
              put_other i j h s' c (transfer s s' j refl refl (λ y. y) (λ v k x. x) (λ v k x. x) u))
        | inl c ↦
            let here : i ≡ j = ground arith in
            let (f, z, one) = held_by w i n s r t in
            subst (λ (k : ℕ). Token (place_worker w q (put i h s')) k) here
              (held w m (ap (λ (x : Handlers V). x.scheduled) (at_place_here i h s.handlers) ∙ f) z
                (at_place_here w q s.workers)
                (λ v k x. elim (at_place-cases w v q _ s.workers x) [
                  | inl (same, e) ↦ sym same
                  | inr (apart, e) ↦ one v k e
                ]))
      ]

  pub yields-Token :
      (w i j n : ℕ) (s : Scheduler V)
      → Runs s w i n
      → Token s i
      → Token s j
      → Token (place_worker w none (record s { ready = s.ready ++ (i ∷ []) })) j
  yields-Token w i j n s r t u = elim (Bool-cases (i == j)) [
    | inr c ↦
        place_other w j none (record s { ready = s.ready ++ (i ∷ []) }) (rw r (some-Apart i j n c))
          (none-Apart j) (ready_other j _ s (occurs-append j i s.ready ∙ rw c (omega arith)) u)
    | inl c ↦
        let here : i ≡ j = ground arith in
        let (f, z, one) = held_by w i n s r t in
        subst (λ (k : ℕ). Token (place_worker w none (record s { ready = s.ready ++ (i ∷ []) })) k)
          here
          (waits f (occurs-append i i s.ready ∙ ground (arith, z)) (λ v m k.
            elim (at_place-cases w v none _ s.workers k) [
              | inl (same, h) ↦ none-Apart i m h
              | inr (apart, h) ↦ let same : v ≡ w = one v m h in absurd (ground arith)
            ]))
  ]
