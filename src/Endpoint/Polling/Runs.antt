-- ===== src/Endpoint/Polling/Runs.antt =====
-- endpoint.go: an incomingQueue under any calls of its methods.
use sgsp.Common.{
  ℕ, ◌+◌, ◌≡◌, refl, ap, arith, List, [], ◌∷◌, ◌++◌, get_elem?, set, true, not, ◌&&◌, inl, inr,
  Bool-cases, Option-cases, Option, none, some,
}
use sgsp.Common.Int.{ℤ, pos, is_neg, to_ℕ}
use sgsp.Runtime.Queue.{Offer, Item, accept, try_push, pop, remove, close as close_queue}
use sgsp.Endpoint.Polling.{
  Incoming, IncomingQueue, attach_charge, push_charged, push, next_pending, next, ends_session,
  close_items, close, is_stale, discard_epoch, release_handed,
}
use sgsp.Endpoint.Polling.Reservations.{
  begin_reserve, take_turn, give_up, commit_reservation, cancel_reservation, update_reservation,
}
use sgsp.Endpoint.Polling.Held.{
  take_turn-IsFair, give_up-IsFair, commit_reservation-IsFair, cancel_reservation-IsFair,
}
use sgsp.Endpoint.Polling.Charged.{begin_reserve-Accounts, update_reservation-Accounts}
use sgsp.Endpoint.Polling.Accounting.{
  charge_of, owed, owed_items, due_all, Backs, owed_all, IsAccounted, Accounts, state_of,
  owed-append, owed_items-append, owed-set, recount, release-Backs, release_all-Backs,
  acquire-Backs, try_push-items, pop-nil, pop-cons, List-cases, remove-items,
}

push_charged-Accounts :
    (incoming : Incoming) (n : ℕ) (q : IncomingQueue)
    → Backs q.budget q.application (charge_of incoming + owed_all q)
    → Accounts (state_of (push_charged incoming n q))
unfolding push_charged
push_charged-Accounts incoming n q h =
    let offer : Offer Incoming = record { value = incoming; bytes = pos n; key = 0 } in
    let (b, a, r, back) = release-Backs incoming (owed_all q) q h in
    elim (Bool-cases (not q.closed && (try_push q.queue offer).1)) [
      | inr e ↦ rw (e, r) back
      | inl e ↦ elim (try_push-items q.queue offer) [
        | inl (f, _) ↦ absurd (ground arith)
        | inr (f, items) ↦ rw e (
            recount q.budget q.application h (
              omega
                (arith, ap owed_items items, owed_items-append q.queue.items (accept offer ∷ []))))
      ]
    ]

push-Accounts :
    (incoming : Incoming) (bytes : ℤ) (q : IncomingQueue)
    → IsAccounted q
    → Accounts (state_of (push incoming bytes q))
unfolding push attach_charge
push-Accounts incoming bytes q h = elim (Bool-cases (is_neg bytes)) [
  | inl e ↦ rw e h
  | inr e ↦
      let (b, a, acquired, r, back) = acquire-Backs (to_ℕ bytes) (owed_all q) q h in
      elim (Bool-cases acquired) [
        | inr f ↦ rw (e, r, f) (rw f at back)
        | inl f ↦
            rw (e, r, f)
              (push_charged-Accounts (attach_charge incoming (to_ℕ bytes)) (to_ℕ bytes)
                (record q { budget = b; application = a }) (rw f at back))
      ]
]

next_pending-IsAccounted : (q : IncomingQueue) → IsAccounted q → IsAccounted (next_pending q).0
unfolding next_pending
next_pending-IsAccounted q h = elim (Bool-cases q.closed) [
  | inl e ↦ rw e h
  | inr e ↦ elim (List-cases q.queue.items) [
    | inl f ↦
        let (g, same) = pop-nil q.queue f in
        rw (e, g) (recount q.budget q.application h (omega (arith, ap owed_items same)))
    | inr (item, rest, f) ↦
        let (g, items) = pop-cons q.queue item rest f in
        rw (e, g)
          (recount q.budget q.application h (
            omega (
              arith,
              ap owed_items items,
              ap owed_items f,
              owed-append q.handed (item.value ∷ []),
            )))
  ]
]

next-IsAccounted : (q : IncomingQueue) → IsAccounted q → IsAccounted (next q).0
unfolding next
next-IsAccounted q h = elim (List-cases q.terminal) [
  | inl e ↦ rw (e, next) (next_pending-IsAccounted q h)
  | inr (incoming, rest, e) ↦
      rw (e, next)
        (recount q.budget q.application h
          (omega (arith, ap owed e, owed-append q.handed (incoming ∷ []))))
]

-- The loop of Close empties the queue.
close_items-Accounts :
    (items : List (Item Incoming)) (q : IncomingQueue)
    → q.queue.items ≡ items
    → IsAccounted q
    → Accounts (close_items items q)
close_items-Accounts [] q e h = h
close_items-Accounts (item ∷ rest) q e h =
    let (f, items) = pop-cons q.queue item rest e in
    let queue = (pop q.queue).0 in
    elim (Bool-cases (ends_session item.value.kind)) [
      | inl g ↦ rw g (
          close_items-Accounts rest
            (record q { queue = queue; terminal = q.terminal ++ (item.value ∷ []) }) items
            (recount q.budget q.application h (
              omega (
                arith,
                ap owed_items e,
                ap owed_items items,
                owed-append q.terminal (item.value ∷ []),
              ))))
      | inr g ↦
          let popped : IncomingQueue = record q { queue = queue } in
          let (b, a, r, back) = release-Backs item.value (owed_all popped) popped (
            recount q.budget q.application h
              (omega (arith, ap owed_items e, ap owed_items items))) in
          rw (g, r)
            (close_items-Accounts rest (record popped { budget = b; application = a }) items back)
    ]

close-Accounts : (q : IncomingQueue) → IsAccounted q → Accounts (close q)
unfolding close close_queue
close-Accounts q h = elim (Bool-cases q.closed) [
  | inl e ↦ rw e h
  | inr e ↦ rw e (
      close_items-Accounts q.queue.items (record q { closed = true; queue = close_queue q.queue })
        refl h)
]

discard_epoch-Accounts :
    (session epoch : ℕ) (q : IncomingQueue)
    → IsAccounted q
    → Accounts (discard_epoch session epoch q)
unfolding discard_epoch
discard_epoch-Accounts session epoch q h =
    let p = is_stale session epoch in
    let left : IncomingQueue = record q { queue = (remove p q.queue).0 } in
    let (b, a, r, back) =
      release_all-Backs (remove p q.queue).1 (owed_all left) left
        (recount q.budget q.application h (omega (arith, remove-items p q.queue))) in
    rw r back

release_handed-Accounts :
    (i : ℕ) (q : IncomingQueue) → IsAccounted q → Accounts (release_handed i q)
unfolding release_handed
release_handed-Accounts i q h = elim (Option-cases (get_elem? q.handed i)) [
  | inl e ↦ rw (e, release_handed) h
  | inr (incoming, e) ↦
      let after : List Incoming = set q.handed i (record incoming { released = true }) in
      let changed = owed-set q.handed i incoming (record incoming { released = true }) e in
      let (b, a, r, back) =
        release-Backs incoming
          (owed_items q.queue.items + (owed q.terminal + (owed after + due_all q.reservations))) q
          (recount q.budget q.application h (omega (arith, changed))) in
      rw (e, r, release_handed) back
]

-- The methods of the queue, a release of the message that was handed out at a place, and reserveReliable
-- with the turns of its waits, its failure, and the Commit and Cancel of the reservation at a place.
pub data Call : Type 0 where
  pushes : Incoming → ℤ → Call
  takes : Call
  closes : Call
  discards : ℕ → ℕ → Call
  releases : ℕ → Call
  reserves : ℤ → Call
  takes_turn : ℕ → Call
  gives_up : ℕ → Call
  commits : ℕ → Incoming → Call
  cancels : ℕ → Call

unfoldable pub step : Call → IncomingQueue → Option IncomingQueue
step (pushes incoming bytes) q = state_of (push incoming bytes q)
step takes q = some (next q).0
step closes q = close q
step (discards session epoch) q = discard_epoch session epoch q
step (releases i) q = release_handed i q
step (reserves bytes) q = state_of (begin_reserve bytes q)
step (takes_turn i) q = update_reservation take_turn i q
step (gives_up i) q = update_reservation give_up i q
step (commits i incoming) q = update_reservation (commit_reservation incoming) i q
step (cancels i) q = update_reservation cancel_reservation i q

step-Accounts : (c : Call) (q : IncomingQueue) → IsAccounted q → Accounts (step c q)
unfolding step
step-Accounts (pushes incoming bytes) q h = push-Accounts incoming bytes q h
step-Accounts takes q h = next-IsAccounted q h
step-Accounts closes q h = close-Accounts q h
step-Accounts (discards session epoch) q h = discard_epoch-Accounts session epoch q h
step-Accounts (releases i) q h = release_handed-Accounts i q h
step-Accounts (reserves bytes) q h = begin_reserve-Accounts bytes q h
step-Accounts (takes_turn i) q h = update_reservation-Accounts take_turn take_turn-IsFair i q h
step-Accounts (gives_up i) q h = update_reservation-Accounts give_up give_up-IsFair i q h
step-Accounts (commits i incoming) q h =
    update_reservation-Accounts (commit_reservation incoming) (commit_reservation-IsFair incoming) i
      q h
step-Accounts (cancels i) q h =
    update_reservation-Accounts cancel_reservation cancel_reservation-IsFair i q h

unfoldable pub run : List Call → IncomingQueue → Option IncomingQueue
run [] q = some q
run (c ∷ cs) q = elim (step c q) [ none ↦ none | some q' ↦ run cs q' ]

-- In any order of the calls Push, Next, Close and discardEpoch of a polling queue, releases of the
-- messages that Next returned, and calls of reserveReliable with the turns of their waits, their
-- failures, and the Commit or Cancel of what they return: no ledger panics, and the queue's ledger
-- stands at the charges of the messages that are not released (those in the queue, the ends of
-- sessions that a close kept, and those that the application has) and of the reservations that are
-- neither committed, cancelled nor failed; the endpoint's stands at that or above.
pub run-IsAccounted :
    (cs : List Call) (q : IncomingQueue)
    → IsAccounted q
    → (t : IncomingQueue) × (run cs q ≡ some t) × IsAccounted t
unfolding run
run-IsAccounted [] q h = (q, refl, h)
run-IsAccounted (c ∷ cs) q h = elim (Option-cases (step c q)) [
  | inl e ↦ absurd (rw e at (step-Accounts c q h))
  | inr (q', e) ↦ rw (e, run) (run-IsAccounted cs q' (rw e at (step-Accounts c q h)))
]
