-- ===== src/Endpoint/Polling.antt =====
-- endpoint.go: incomingQueue, which holds the messages of the polling mode. A message is charged to the
-- queue's ledger and to the endpoint's until it is released, also after Next has returned it: the
-- state has those that the application owns in `handed`. A reliable reader has its charge before its
-- message, in `reservations` (Polling.Reservations). A panic of a ledger is `none`. A wait is not
-- modelled, but its turns are: one that finds no room leaves the ledgers as they were. PushWait, which
-- only a test calls, is left out.
pub mod Reservations
pub mod Accounting
pub mod Held
pub mod Charged
pub mod Runs
mod Tests
use sgsp.Common.{
  ℕ, ◌==◌, List, [], ◌∷◌, ◌++◌, get_elem?, set, if◌then◌else◌, Bool, true, false, not, ◌&&◌, Option,
  none, some,
}
use sgsp.Common.Int.{ℤ, pos, is_neg, to_ℕ}
use sgsp.Runtime.Queue.{
  Offer, Item, Queue, Reservation, try_push, pop, remove, close as close_queue,
}
use sgsp.Runtime.Budget.{Budget, acquire as acquire_budget, release as release_budget}
use sgsp.Endpoint.Charges.{◌>>=◌, acquire?, release?}

pub data LifecycleKind : Type 0 where
  opened connection_lost resumed session_ended auth_refreshed : LifecycleKind

pub data IncomingKind : Type 0 where
  event request_message stream_message : IncomingKind
  lifecycle_message : Option LifecycleKind → IncomingKind

-- `charge` is what the release gives back, and `released` its sync.Once. A session is named by a
-- number.
pub record Incoming : Type 0 where
  pub kind : IncomingKind
  pub session : ℕ
  pub epoch : ℕ
  pub charge : ℕ
  pub released : Bool

-- A call of reserveReliable that has its charge: `queue` is what runtime's Reserve returned, and none
-- until then. `done` also ends a call that returned an error. The sync.Once of releaseCharge is not
-- kept: `done` lets one call of it through, or the release of the message that Commit passed it to.
pub record ReliableReservation : Type 0 where
  pub queue : Option Reservation
  pub bytes : ℕ
  pub done : Bool

pub record IncomingQueue : Type 0 where
  pub queue : Queue Incoming
  pub budget : Budget
  pub application : Option Budget
  pub closed : Bool
  pub terminal : List Incoming
  pub handed : List Incoming
  pub reservations : List ReliableReservation

unfoldable pub acquire : ℕ → IncomingQueue → Option (IncomingQueue × Bool)
acquire n q =
    let (budget, admitted) = acquire_budget q.budget (pos n) in
    let (application, shared) = acquire? q.application n in
    if not admitted
    then some (q, false)
    else if shared
    then some (record q { budget = budget; application = application }, true)
    else do
      back ← release_budget budget (pos n)
      some (record q { budget = back; application = application }, false)

-- The closure that attachCharge makes.
unfoldable pub give_back : ℕ → IncomingQueue → Option IncomingQueue
give_back n q = do
  budget ← release_budget q.budget (pos n)
  application ← release? q.application n
  some (record q { budget = budget; application = application })

unfoldable pub release : Incoming → IncomingQueue → Option IncomingQueue
release incoming q = if incoming.released then some q else give_back incoming.charge q

abbrev pub release_all : List (Item Incoming) → IncomingQueue → Option IncomingQueue
release_all [] q = some q
release_all (item ∷ rest) q = do q' ← release item.value q; release_all rest q'

-- A message is pushed once, so that its release has no other charge.
unfoldable pub attach_charge : Incoming → ℕ → Incoming
attach_charge incoming n = record incoming { charge = n; released = false }

-- Push, behind the charge.
unfoldable pub push_charged : Incoming → ℕ → IncomingQueue → Option (IncomingQueue × Bool)
push_charged incoming n q =
    let (queue, accepted) =
      try_push q.queue (record { value = incoming; bytes = pos n; key = 0 }) in
    if not q.closed && accepted
    then some (record q { queue = queue }, true)
    else do q' ← release incoming q; some (q', false)

unfoldable pub push : Incoming → ℤ → IncomingQueue → Option (IncomingQueue × Bool)
push incoming bytes q = if is_neg bytes then some (q, false) else do
  (q', acquired) ← acquire (to_ℕ bytes) q
  if acquired
      then push_charged (attach_charge incoming (to_ℕ bytes)) (to_ℕ bytes) q'
      else some (q', false)

-- What Next finds: a message, the end of the session, or nothing yet, and then it waits.
pub data Found : Type 0 where
  message : Incoming → Found
  session_closed : Found
  waits : Found

abbrev pub hand : Incoming → IncomingQueue → IncomingQueue
hand incoming q = record q { handed = q.handed ++ (incoming ∷ []) }

unfoldable pub next_pending : IncomingQueue → IncomingQueue × Found
next_pending q =
    if q.closed
    then (q, session_closed)
    else let (queue, popped) = pop q.queue in
      elim popped [
        | none ↦ (record q { queue = queue }, waits)
        | some item ↦ (hand item.value (record q { queue = queue }), message item.value)
      ]

unfoldable pub next : IncomingQueue → IncomingQueue × Found
next q = elim q.terminal [
  | incoming ∷ rest ↦ (hand incoming (record q { terminal = rest }), message incoming)
  | [] ↦ next_pending q
]

abbrev pub ends_session : IncomingKind → Bool
ends_session (lifecycle_message (some session_ended)) = true
ends_session _ = false

-- The loop of Close over the items that the queue has.
abbrev pub close_items : List (Item Incoming) → IncomingQueue → Option IncomingQueue
close_items [] q = some q
close_items (item ∷ rest) q =
    let popped : IncomingQueue = record q { queue = (pop q.queue).0 } in
    if ends_session item.value.kind
    then close_items rest (record popped { terminal = popped.terminal ++ (item.value ∷ []) })
    else do q' ← release item.value popped; close_items rest q'

unfoldable pub close : IncomingQueue → Option IncomingQueue
close q =
    if q.closed
    then some q
    else close_items q.queue.items (record q { closed = true; queue = close_queue q.queue })

abbrev pub is_lifecycle : IncomingKind → Bool
is_lifecycle (lifecycle_message l) = true
is_lifecycle _ = false

abbrev pub is_stale : ℕ → ℕ → Item Incoming → Bool
is_stale session epoch item =
    not (is_lifecycle item.value.kind) && item.value.session == session && item.value.epoch == epoch

unfoldable pub discard_epoch : ℕ → ℕ → IncomingQueue → Option IncomingQueue
discard_epoch session epoch q =
    let (queue, removed) = remove (is_stale session epoch) q.queue in
    release_all removed (record q { queue = queue })

-- The application releases a message that Next gave it.
unfoldable pub release_handed : ℕ → IncomingQueue → Option IncomingQueue
release_handed i q = elim (get_elem? q.handed i) [
  | none ↦ some q
  | some incoming ↦ (do
    q' ← release incoming q
    some (record q' { handed = set q'.handed i (record incoming { released = true }) }))
]
