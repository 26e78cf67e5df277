-- ===== src/Endpoint/Polling/Reservations.antt =====
-- endpoint.go: reserveReliable, in the turns of its waits, and the Commit and Cancel of what it
-- returns. A message is committed once, so that its release has no other charge of these ledgers.
use sgsp.Common.{
  ℕ, [], ◌∷◌, ◌++◌, get_elem?, set, if◌then◌else◌, Bool, true, false, Option, none, some,
}
use sgsp.Common.Int.{ℤ, pos, is_neg, to_ℕ}
use sgsp.Runtime.Queue.{
  Item, Queue, Reservation, try_reserve, commit as commit_queue, cancel as cancel_queue,
}
use sgsp.Endpoint.Charges.{◌>>=◌}
use sgsp.Endpoint.Polling.{
  Incoming, event, ReliableReservation, IncomingQueue, acquire, give_back, attach_charge,
}

abbrev begun : ℕ → ReliableReservation
begun n = record { queue = none; bytes = n; done = false }

-- reserveReliable up to the turn of acquireWait that finds room in both ledgers.
unfoldable pub begin_reserve : ℤ → IncomingQueue → Option (IncomingQueue × Bool)
begin_reserve bytes q = if is_neg bytes then some (q, false) else do
  (q', acquired) ← acquire (to_ℕ bytes) q
  if acquired
      then some (record q' { reservations = q'.reservations ++ (begun (to_ℕ bytes) ∷ []) }, true)
      else some (q', false)

abbrev pub Outcome : Type 0
Outcome = Option (ReliableReservation × IncomingQueue)

-- releaseCharge, or the releases of a reserveReliable that returns an error.
abbrev pub uncharge : ReliableReservation → IncomingQueue → Outcome
uncharge r q = do q' ← give_back r.bytes q; some (record r { done = true }, q')

abbrev pub keep_reserved :
    ReliableReservation → IncomingQueue → Queue Incoming → Option Reservation → Outcome
keep_reserved r q queue none = some (r, q)
keep_reserved r q queue (some held) =
    some (record r { queue = some held }, record q { queue = queue })

-- A turn of the wait for a place in the queue.
unfoldable pub take_turn : ReliableReservation → IncomingQueue → Outcome
take_turn r q = elim r.queue [
  | some held ↦ some (r, q)
  | none ↦
      if r.done
      then some (r, q)
      else let (queue, reserved) = try_reserve q.queue (pos r.bytes) in
        keep_reserved r q queue reserved
]

-- The end of that wait with an error: the queue was closed, or the context ended.
unfoldable pub give_up : ReliableReservation → IncomingQueue → Outcome
give_up r q = elim r.queue [
  | some held ↦ some (r, q)
  | none ↦ if r.done then some (r, q) else uncharge r q
]

unfoldable pub commit_reservation : Incoming → ReliableReservation → IncomingQueue → Outcome
commit_reservation incoming r q = elim r.queue [
  | none ↦ some (r, q)
  | some held ↦
      let (held', queue, committed) =
        commit_queue held q.queue
          (record { value = attach_charge incoming r.bytes; bytes = pos r.bytes; key = 0 }) in
      if r.done
      then some (r, q)
      else if committed
      then some (record r { queue = some held'; done = true }, record q { queue = queue })
      else uncharge (record r { queue = some held' }) (record q { queue = queue })
]

-- The zero item of Go's Cancel has no message; it is not used.
abbrev pub no_item : Item Incoming
no_item = record {
  value = record { kind = event; session = 0; epoch = 0; charge = 0; released = false };
  bytes = 0;
  key = 0;
}

unfoldable pub cancel_reservation : ReliableReservation → IncomingQueue → Outcome
cancel_reservation r q = elim r.queue [
  | none ↦ some (r, q)
  | some held ↦
      let (held', queue) = cancel_queue held q.queue no_item in
      if r.done
      then some (r, q)
      else uncharge (record r { queue = some held' }) (record q { queue = queue })
]

-- One of these operations on the reservation at a place.
unfoldable pub update_reservation :
    (ReliableReservation → IncomingQueue → Outcome) → ℕ → IncomingQueue → Option IncomingQueue
update_reservation f i q = elim (get_elem? q.reservations i) [
  | none ↦ some q
  | some r ↦ (do (r', q') ← f r q; some (record q' { reservations = set q'.reservations i r' }))
]
