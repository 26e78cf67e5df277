-- ===== src/Endpoint/Slots.antt =====
-- endpoint.go: the slots of a connection for requests and streams, under the slots' mutex. A count is
-- the number of slots held: the closure of a slot that is held takes one off a positive number.
mod Tests
use sgsp.Common.{ℕ, ◌+◌, ◌-◌, ◌≡◌, leb, if◌then◌else◌, Bool, true, false, Option, none, some, ◌⊎◌}
use sgsp.Common.Int.{ℤ, pos, negsuc, exceeds}
use sgsp.Endpoint.Limits.{Limits, minimum_advertised_limit}

pub record Slots : Type 0 where
  pub in_requests : ℕ
  pub out_requests : ℕ
  pub in_streams : ℕ
  pub out_streams : ℕ

-- The closure that gives a slot back, with the state of its sync.Once.
pub record Slot : Type 0 where
  pub inbound : Bool
  pub done : Bool

-- `n >= i`
abbrev pub reaches_limit : ℕ → ℤ → Bool
reaches_limit n (pos m) = leb m n
reaches_limit n (negsuc m) = true

abbrev pub fresh_slot : Bool → Slot
fresh_slot inbound = record { inbound = inbound; done = false }

unfoldable pub request_limit : Limits → Limits → Bool → ℤ
request_limit own peer inbound =
    if inbound then own.requests else minimum_advertised_limit own.requests peer.requests

unfoldable pub acquire_request : Limits → Limits → Slots → Bool → Slots × Option Slot
acquire_request own peer s inbound =
    let limit = request_limit own peer inbound in
    if inbound
    then if reaches_limit s.in_requests limit
      then (s, none)
      else (record s { in_requests = s.in_requests + 1 }, some (fresh_slot inbound))
    else if reaches_limit s.out_requests limit
    then (s, none)
    else (record s { out_requests = s.out_requests + 1 }, some (fresh_slot inbound))

unfoldable pub release_request : Slots → Slot → Slots × Slot
release_request s slot = if slot.done then (s, slot) else (
  if slot.inbound
      then record s { in_requests = s.in_requests - 1 }
      else record s { out_requests = s.out_requests - 1 },
  record slot { done = true },
)

unfoldable pub stream_limit : Limits → Limits → Bool → ℤ
stream_limit own peer inbound =
    if inbound then own.streams else minimum_advertised_limit own.streams peer.streams

unfoldable pub acquire_stream : Limits → Limits → Slots → Bool → Slots × Option Slot
acquire_stream own peer s inbound =
    let limit = stream_limit own peer inbound in
    if inbound
    then if reaches_limit s.in_streams limit
      then (s, none)
      else (record s { in_streams = s.in_streams + 1 }, some (fresh_slot inbound))
    else if reaches_limit s.out_streams limit
    then (s, none)
    else (record s { out_streams = s.out_streams + 1 }, some (fresh_slot inbound))

unfoldable pub release_stream : Slots → Slot → Slots × Slot
release_stream s slot = if slot.done then (s, slot) else (
  if slot.inbound
      then record s { in_streams = s.in_streams - 1 }
      else record s { out_streams = s.out_streams - 1 },
  record slot { done = true },
)

abbrev pub requests_held : Bool → Slots → ℕ
requests_held inbound s = if inbound then s.in_requests else s.out_requests

abbrev pub streams_held : Bool → Slots → ℕ
streams_held inbound s = if inbound then s.in_streams else s.out_streams

-- What an acquired slot is worth: the count is within the limit, the release undoes the acquisition,
-- and a second release does nothing.
abbrev pub Lends : (Slots → Slot → Slots × Slot) → ℤ → ℕ → Slots → Slots × Option Slot → Type 0
Lends release limit count s (t, none) = t ≡ s
Lends release limit count s (t, some slot) =
    (exceeds count limit ≡ false)
    × ((release t slot).0 ≡ s)
    × (release (release t slot).0 (release t slot).1 ≡ release t slot)
