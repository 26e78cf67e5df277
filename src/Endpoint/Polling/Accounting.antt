-- ===== src/Endpoint/Polling/Accounting.antt =====
-- endpoint.go: the ledgers of an incomingQueue hold what its messages are charged.
use sgsp.Common.{
  ℕ, zero, suc, ◌+◌, ◌-◌, ◌≤◌, ◌≡◌, refl, subst, arith, List, [], ◌∷◌, ◌++◌, get_elem?, set,
  if◌then◌else◌, Bool, true, false, ◌||◌, ◌⊎◌, inl, inr, ltb, Bool-cases, Option, none, some,
}
use sgsp.Common.Int.{is_neg, to_ℕ}
use sgsp.Runtime.Queue.{Offer, Item, Queue, accept, lacks_room, split, try_push, pop, remove}
use sgsp.Runtime.Budget.{Budget, acquire as acquire_budget, release as release_budget}
use sgsp.Endpoint.Charges.{acquire?}
use sgsp.Endpoint.Charges.Ledger.{AtLeast, acquire?-refused, acquire?-AtLeast, release?-AtLeast}
use sgsp.Endpoint.Polling.{
  Incoming, ReliableReservation, IncomingQueue, acquire, give_back, release, release_all,
}

abbrev pub charge_of : Incoming → ℕ
charge_of i = if i.released then 0 else i.charge

abbrev pub owed : List Incoming → ℕ
owed [] = 0
owed (i ∷ is) = charge_of i + owed is

abbrev pub owed_items : List (Item Incoming) → ℕ
owed_items [] = 0
owed_items (item ∷ rest) = charge_of item.value + owed_items rest

-- What a reservation still holds.
abbrev pub due : ReliableReservation → ℕ
due r = if r.done then 0 else r.bytes

abbrev pub due_all : List ReliableReservation → ℕ
due_all [] = 0
due_all (r ∷ rs) = due r + due_all rs

-- The queue's ledger stands at `n`, within its maximum, and the endpoint's at `n` or above.
abbrev pub Backs : Budget → Option Budget → ℕ → Type 0
Backs b a n = (b.used ≡ n) × (n ≤ b.max) × AtLeast a n

abbrev pub owed_all : IncomingQueue → ℕ
owed_all q = owed_items q.queue.items + (owed q.terminal + (owed q.handed + due_all q.reservations))

abbrev pub IsAccounted : IncomingQueue → Type 0
IsAccounted q = Backs q.budget q.application (owed_all q)

-- What an operation returns, when it is no panic, is accounted for.
abbrev pub Accounts : Option IncomingQueue → Type 0
Accounts none = ⊥
Accounts (some q) = IsAccounted q

abbrev pub state_of : Option (IncomingQueue × Bool) → Option IncomingQueue
state_of none = none
state_of (some (q, b)) = some q

pub owed-append : (xs ys : List Incoming) → owed (xs ++ ys) ≡ owed xs + owed ys
owed-append [] ys = omega arith
owed-append (x ∷ xs) ys = omega (arith, owed-append xs ys)

pub owed_items-append :
    (xs ys : List (Item Incoming)) → owed_items (xs ++ ys) ≡ owed_items xs + owed_items ys
owed_items-append [] ys = omega arith
owed_items-append (x ∷ xs) ys = omega (arith, owed_items-append xs ys)

owed_items-split :
    (p : Item Incoming → Bool) (xs : List (Item Incoming))
    → owed_items (split p xs).0 + owed_items (split p xs).2 ≡ owed_items xs
owed_items-split p [] = omega arith
owed_items-split p (x ∷ xs) = ground (arith, owed_items-split p xs)

pub owed-set :
    (xs : List Incoming) (i : ℕ) (x y : Incoming)
    → get_elem? xs i ≡ some x
    → owed (set xs i y) + charge_of x ≡ owed xs + charge_of y
owed-set [] i x y h = cc
owed-set (z ∷ zs) zero x y h = ground arith
owed-set (z ∷ zs) (suc i) x y h = omega (arith, owed-set zs i x y h)

pub due_all-append :
    (xs ys : List ReliableReservation) → due_all (xs ++ ys) ≡ due_all xs + due_all ys
due_all-append [] ys = omega arith
due_all-append (x ∷ xs) ys = omega (arith, due_all-append xs ys)

pub due_all-set :
    (xs : List ReliableReservation) (i : ℕ) (x y : ReliableReservation)
    → get_elem? xs i ≡ some x
    → due_all (set xs i y) + due x ≡ due_all xs + due y
due_all-set [] i x y h = cc
due_all-set (z ∷ zs) zero x y h = ground arith
due_all-set (z ∷ zs) (suc i) x y h = omega (arith, due_all-set zs i x y h)

pub recount : (b : Budget) (a : Option Budget) {n m : ℕ} → Backs b a n → n ≡ m → Backs b a m
recount b a h e = subst (Backs b a) e h

-- A release is no panic, and leaves the ledgers at the rest.
pub give_back-Backs :
    (n k : ℕ) (q : IncomingQueue)
    → Backs q.budget q.application (n + k)
    → (b : Budget) × (a : Option Budget) × (give_back n q
        ≡ some (record q { budget = b; application = a }))
      × Backs b a k
unfolding give_back release_budget
give_back-Backs n k q (u, l, s) =
    let (a, e, s') = release?-AtLeast q.application k n s in
    (
      record q.budget { used = q.budget.used - n; notify = true },
      a,
      rw e (ground arith),
      (ground arith, ground arith, s'),
    )

pub release-Backs :
    (i : Incoming) (k : ℕ) (q : IncomingQueue)
    → Backs q.budget q.application (charge_of i + k)
    → (b : Budget) × (a : Option Budget) × (release i q
        ≡ some (record q { budget = b; application = a }))
      × Backs b a k
unfolding release
release-Backs i k q h = elim (Bool-cases i.released) [
  | inl e ↦
      (q.budget, q.application, rw e refl, recount q.budget q.application (rw e at h) (omega arith))
  | inr e ↦ let (b, a, f, h') = give_back-Backs i.charge k q (rw e at h) in (b, a, rw e f, h')
]

pub release_all-Backs :
    (items : List (Item Incoming)) (k : ℕ) (q : IncomingQueue)
    → Backs q.budget q.application (owed_items items + k)
    → (b : Budget) × (a : Option Budget) × (release_all items q
        ≡ some (record q { budget = b; application = a }))
      × Backs b a k
release_all-Backs [] k q h =
    (q.budget, q.application, refl, recount q.budget q.application h (omega arith))
release_all-Backs (item ∷ rest) k q h =
    let (b, a, e, h') =
      release-Backs item.value (owed_items rest + k) q
        (recount q.budget q.application h (omega arith)) in
    let (b', a', e', h'') =
      release_all-Backs rest k (record q { budget = b; application = a }) h' in
    (b', a', rw e e', h'')

-- The acquisition, and what it leaves when it is refused.
pub acquire-Backs :
    (n k : ℕ) (q : IncomingQueue)
    → Backs q.budget q.application k
    → (b : Budget) × (a : Option Budget) × (acquired : Bool) × (acquire n q
        ≡ some (record q { budget = b; application = a }, acquired))
      × Backs b a (if acquired then n + k else k)
unfolding acquire acquire_budget release_budget
acquire-Backs n k q (u, l, s) = elim (Bool-cases (ltb q.budget.max (n + q.budget.used))) [
  | inl e ↦ (q.budget, q.application, false, rw e refl, (u, l, s))
  | inr e ↦ elim (acquire?-AtLeast q.application k n s) [
    | inl f ↦
        let same = acquire?-refused q.application n f in
        (
          record q.budget { used = q.budget.used + n - n; notify = true },
          (acquire? q.application n).0,
          false,
          rw (e, f) (ground arith),
          (ground arith, ground arith, rw same s),
        )
    | inr (f, s') ↦ (
      record q.budget { used = q.budget.used + n },
      (acquire? q.application n).0,
      true,
      rw (e, f) refl,
      (ground arith, ground arith, s'),
    )
  ]
]

-- The queue's items after each operation.
pub try_push-items :
    (q : Queue Incoming) (o : Offer Incoming)
    → (((try_push q o).1 ≡ false) × ((try_push q o).0 ≡ q))
      ⊎ (((try_push q o).1 ≡ true) × ((try_push q o).0.items ≡ q.items ++ (accept o ∷ [])))
unfolding try_push
try_push-items q o = elim (Bool-cases (q.closed || is_neg o.bytes || lacks_room q (to_ℕ o.bytes))) [
  | inl e ↦ inl (rw e refl, rw e refl)
  | inr e ↦ inr (rw e refl, rw e refl)
]

pub pop-nil : (q : Queue Incoming) → q.items ≡ [] → ((pop q).1 ≡ none) × ((pop q).0.items ≡ q.items)
unfolding pop
pop-nil q e = (rw e refl, rw (e, pop) refl)

pub pop-cons :
    (q : Queue Incoming) (item : Item Incoming) (rest : List (Item Incoming))
    → q.items ≡ item ∷ rest
    → ((pop q).1 ≡ some item) × ((pop q).0.items ≡ rest)
unfolding pop
pop-cons q item rest e = (rw e refl, rw e refl)

pub List-cases {ℓ} :
    {A : Type ℓ} (xs : List A) → (xs ≡ []) ⊎ ((x : A) × (ys : List A) × (xs ≡ x ∷ ys))
List-cases [] = inl refl
List-cases (x ∷ xs) = inr (x, xs, refl)

pub remove-items :
    (p : Item Incoming → Bool) (q : Queue Incoming)
    → owed_items (remove p q).0.items + owed_items (remove p q).1 ≡ owed_items q.items
unfolding remove
remove-items p q = ground (arith, owed_items-split p q.items)
