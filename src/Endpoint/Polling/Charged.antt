-- ===== src/Endpoint/Polling/Charged.antt =====
-- endpoint.go: a queue in which a reservation begins, or one of them changes.
use sgsp.Common.{
  ℕ, ◌+◌, arith, [], ◌∷◌, get_elem?, set, true, false, inl, inr, Bool-cases, Option-cases, none,
}
use sgsp.Common.Int.{ℤ, is_neg, to_ℕ}
use sgsp.Endpoint.Polling.{ReliableReservation, IncomingQueue}
use sgsp.Endpoint.Polling.Reservations.{Outcome, begin_reserve, update_reservation}
use sgsp.Endpoint.Polling.Held.{IsFair, Holds}
use sgsp.Endpoint.Polling.Accounting.{
  due_all, owed, owed_all, IsAccounted, Accounts, state_of, due_all-append, due_all-set, recount,
  acquire-Backs,
}

pub begin_reserve-Accounts :
    (bytes : ℤ) (q : IncomingQueue) → IsAccounted q → Accounts (state_of (begin_reserve bytes q))
unfolding begin_reserve
begin_reserve-Accounts bytes q h = elim (Bool-cases (is_neg bytes)) [
  | inl e ↦ rw e h
  | inr e ↦
      let (b, a, acquired, r, back) = acquire-Backs (to_ℕ bytes) (owed_all q) q h in
      elim (Bool-cases acquired) [
        | inr f ↦ rw (e, r, f) (rw f at back)
        | inl f ↦
            let begun : ReliableReservation = record {
              queue = none;
              bytes = to_ℕ bytes;
              done = false;
            } in
            rw (e, r, f)
              (recount b a (rw f at back)
                (omega (arith, due_all-append q.reservations (begun ∷ []))))
      ]
]

pub update_reservation-Accounts :
    (f : ReliableReservation → IncomingQueue → Outcome)
    → ((r : ReliableReservation) (q : IncomingQueue) (n : ℕ) → Holds r q n → IsFair r q n (f r q))
    → (i : ℕ) (q : IncomingQueue) → IsAccounted q
    → Accounts (update_reservation f i q)
unfolding update_reservation IsFair Holds
update_reservation-Accounts f fair i q h = elim (Option-cases (get_elem? q.reservations i)) [
  | inl e ↦ rw (e, update_reservation) h
  | inr (r, e) ↦
      let ended : ReliableReservation = record r { done = true } in
      let others = owed q.terminal + (owed q.handed + due_all (set q.reservations i ended)) in
      let zeroed = due_all-set q.reservations i r ended e in
      let (r', queue, b, a, g, back) =
        fair r q others (recount q.budget q.application h (omega (arith, zeroed))) in
      rw (e, g, update_reservation)
        (recount b a back (omega (arith, zeroed, due_all-set q.reservations i r r' e)))
]
