-- ===== src/Endpoint/Polling/Held.antt =====
-- endpoint.go: what the operations on a reliable reservation leave on the ledgers of its queue.
use sgsp.Common.{
  ℕ, ◌+◌, ◌≡◌, refl, ap, arith, [], ◌∷◌, ◌++◌, Bool, true, false, not, ◌||◌, ◌⊎◌, inl, inr,
  Bool-cases, Option, none, some, ◌==◌,
}
use sgsp.Common.Int.{pos, is_neg, to_ℕ}
use sgsp.Runtime.Queue.{
  Offer, Queue, Reservation, accept, try_reserve, finish, commit as commit_queue,
  cancel as cancel_queue,
}
use sgsp.Runtime.Budget.{Budget}
use sgsp.Endpoint.Polling.{Incoming, ReliableReservation, IncomingQueue, attach_charge}
use sgsp.Endpoint.Polling.Reservations.{
  Outcome, uncharge, keep_reserved, take_turn, give_up, commit_reservation, no_item,
  cancel_reservation,
}
use sgsp.Endpoint.Polling.Accounting.{
  owed_items, due, Backs, owed_items-append, recount, give_back-Backs,
}

-- What an operation on a reservation leaves: the queue's messages and what the reservation still holds
-- add up to what the ledgers have beside the rest.
unfoldable pub IsFair : ReliableReservation → IncomingQueue → ℕ → Outcome → Type 0
IsFair r q n outcome =
    (r' : ReliableReservation) × (queue : Queue Incoming) × (b : Budget) × (a : Option Budget)
    × (outcome ≡ some (r', record q { queue = queue; budget = b; application = a }))
    × Backs b a (due r' + (owed_items queue.items + n))

unfoldable pub Holds : ReliableReservation → IncomingQueue → ℕ → Type 0
Holds r q n = Backs q.budget q.application (due r + (owed_items q.queue.items + n))

kept-IsFair :
    (r : ReliableReservation) (q : IncomingQueue) (n : ℕ) → Holds r q n → IsFair r q n (some (r, q))
unfolding IsFair Holds
kept-IsFair r q n h = (r, q.queue, q.budget, q.application, refl, h)

uncharge-IsFair :
    (r : ReliableReservation) (q : IncomingQueue) (n : ℕ)
    → Holds r q n
    → r.done ≡ false
    → IsFair r q n (uncharge r q)
unfolding IsFair Holds
uncharge-IsFair r q n h d =
    let (b, a, e, back) = give_back-Backs r.bytes (owed_items q.queue.items + n) q (rw d at h) in
    (record r { done = true }, q.queue, b, a, rw e refl, recount b a back (omega arith))

-- The queue's items after its own operations on a reservation.
try_reserve-items : (q : Queue Incoming) (n : ℕ) → (try_reserve q (pos n)).0.items ≡ q.items
unfolding try_reserve
try_reserve-items q n = ground arith

commit-items :
    (held : Reservation) (q : Queue Incoming) (o : Offer Incoming)
    → (((commit_queue held q o).2 ≡ false) × ((commit_queue held q o).1.items ≡ q.items))
      ⊎ (((commit_queue held q o).2 ≡ true)
          × ((commit_queue held q o).1.items ≡ q.items ++ (accept o ∷ [])))
unfolding commit_queue finish
commit-items held q o = elim (Bool-cases (is_neg o.bytes || not (to_ℕ o.bytes == held.bytes))) [
  | inl e ↦ inl (rw e refl, rw e refl)
  | inr e ↦ elim (Bool-cases held.done) [
    | inl d ↦ inl (rw (e, d) refl, rw (e, d) refl)
    | inr d ↦ elim (Bool-cases q.closed) [
      | inl c ↦ inl (rw (e, d, c) refl, rw (e, d, c) refl)
      | inr c ↦ inr (rw (e, d, c) refl, rw (e, d, c) refl)
    ]
  ]
]

cancel-items :
    (held : Reservation) (q : Queue Incoming) → (cancel_queue held q no_item).1.items ≡ q.items
unfolding cancel_queue finish
cancel-items held q = elim (Bool-cases held.done) [ inl d ↦ rw d refl | inr d ↦ rw d refl ]

moved-IsFair :
    (r r' : ReliableReservation) (q : IncomingQueue) (n : ℕ) (queue : Queue Incoming)
    → Holds r q n
    → due r' + owed_items queue.items ≡ due r + owed_items q.queue.items
    → IsFair r q n (some (r', record q { queue = queue }))
unfolding IsFair Holds
moved-IsFair r r' q n queue h e =
    (r', queue, q.budget, q.application, refl, recount q.budget q.application h (omega (arith, e)))

reserved-IsFair :
    (r : ReliableReservation) (q : IncomingQueue) (n : ℕ) (queue : Queue Incoming)
    (reserved : Option Reservation)
    → Holds r q n
    → queue.items ≡ q.queue.items
    → IsFair r q n (keep_reserved r q queue reserved)
reserved-IsFair r q n queue none h e = kept-IsFair r q n h
reserved-IsFair r q n queue (some held) h e =
    moved-IsFair r (record r { queue = some held }) q n queue h
      (ap (λ items. due r + owed_items items) e)

-- A reservation that ends, with the queue that runtime's Commit or Cancel left.
ended-IsFair :
    (r : ReliableReservation) (held : Reservation) (q : IncomingQueue) (n : ℕ)
    (queue : Queue Incoming)
    → Holds r q n
    → r.done ≡ false
    → queue.items ≡ q.queue.items
    → IsFair r q n (uncharge (record r { queue = some held }) (record q { queue = queue }))
unfolding IsFair Holds
ended-IsFair r held q n queue h d e =
    let (b, a, f, back) =
      give_back-Backs r.bytes (owed_items q.queue.items + n) (record q { queue = queue })
        (rw d at h) in
    (
      record { queue = some held; bytes = r.bytes; done = true },
      queue,
      b,
      a,
      rw f refl,
      recount b a back (omega (arith, ap owed_items e)),
    )

abbrev made : Option Reservation → ℕ → Bool → ReliableReservation
made queue bytes done = record { queue = queue; bytes = bytes; done = done }

take_turn-made :
    (queue : Option Reservation) (bytes : ℕ) (done : Bool) (q : IncomingQueue) (n : ℕ)
    → Holds (made queue bytes done) q n
    → IsFair (made queue bytes done) q n (take_turn (made queue bytes done) q)
unfolding take_turn
take_turn-made (some held) bytes done q n h = kept-IsFair _ q n h
take_turn-made none bytes true q n h = kept-IsFair _ q n h
take_turn-made none bytes false q n h =
    let (queue, reserved) = try_reserve q.queue (pos bytes) in
    reserved-IsFair (made none bytes false) q n queue reserved h (try_reserve-items q.queue bytes)

pub take_turn-IsFair :
    (r : ReliableReservation) (q : IncomingQueue) (n : ℕ)
    → Holds r q n
    → IsFair r q n (take_turn r q)
take_turn-IsFair r = take_turn-made r.queue r.bytes r.done

give_up-made :
    (queue : Option Reservation) (bytes : ℕ) (done : Bool) (q : IncomingQueue) (n : ℕ)
    → Holds (made queue bytes done) q n
    → IsFair (made queue bytes done) q n (give_up (made queue bytes done) q)
unfolding give_up
give_up-made (some held) bytes done q n h = kept-IsFair _ q n h
give_up-made none bytes true q n h = kept-IsFair _ q n h
give_up-made none bytes false q n h = uncharge-IsFair (made none bytes false) q n h refl

pub give_up-IsFair :
    (r : ReliableReservation) (q : IncomingQueue) (n : ℕ) → Holds r q n → IsFair r q n (give_up r q)
give_up-IsFair r = give_up-made r.queue r.bytes r.done

commit_reservation-made :
    (incoming : Incoming) (queue : Option Reservation) (bytes : ℕ) (done : Bool) (q : IncomingQueue)
    (n : ℕ)
    → Holds (made queue bytes done) q n
    → IsFair (made queue bytes done) q n (commit_reservation incoming (made queue bytes done) q)
unfolding commit_reservation attach_charge
commit_reservation-made incoming none bytes done q n h = kept-IsFair _ q n h
commit_reservation-made incoming (some held) bytes true q n h = kept-IsFair _ q n h
commit_reservation-made incoming (some held) bytes false q n h =
    let o : Offer Incoming = record {
      value = attach_charge incoming bytes;
      bytes = pos bytes;
      key = 0;
    } in
    let r = made (some held) bytes false in
    let (held', queue, committed) = commit_queue held q.queue o in
    elim (commit-items held q.queue o) [
      | inl (c, items) ↦ rw c (ended-IsFair r held' q n queue h refl items)
      | inr (c, items) ↦ rw c (
          moved-IsFair r (made (some held') bytes true) q n queue h
            (omega (arith, ap owed_items items, owed_items-append q.queue.items (accept o ∷ []))))
    ]

pub commit_reservation-IsFair :
    (incoming : Incoming) (r : ReliableReservation) (q : IncomingQueue) (n : ℕ)
    → Holds r q n
    → IsFair r q n (commit_reservation incoming r q)
commit_reservation-IsFair incoming r = commit_reservation-made incoming r.queue r.bytes r.done

cancel_reservation-made :
    (queue : Option Reservation) (bytes : ℕ) (done : Bool) (q : IncomingQueue) (n : ℕ)
    → Holds (made queue bytes done) q n
    → IsFair (made queue bytes done) q n (cancel_reservation (made queue bytes done) q)
unfolding cancel_reservation
cancel_reservation-made none bytes done q n h = kept-IsFair _ q n h
cancel_reservation-made (some held) bytes true q n h = kept-IsFair _ q n h
cancel_reservation-made (some held) bytes false q n h =
    let (held', queue) = cancel_queue held q.queue no_item in
    ended-IsFair (made (some held) bytes false) held' q n queue h refl (cancel-items held q.queue)

pub cancel_reservation-IsFair :
    (r : ReliableReservation) (q : IncomingQueue) (n : ℕ)
    → Holds r q n
    → IsFair r q n (cancel_reservation r q)
cancel_reservation-IsFair r = cancel_reservation-made r.queue r.bytes r.done
