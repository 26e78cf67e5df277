-- ===== src/Endpoint/Session.antt =====
-- session.go: the life of a session, across the connections that serve it. Each method is one critical
-- section of the session's mutex. A connection is named by its place in the list of all that were
-- made for the session; `none` is a session without operations.
pub mod Invariant
pub mod Epochs
pub mod Terminal
mod Tests
use sgsp.Common.{
  ℕ, ◌+◌, ◌-◌, ◌%◌, ◌^◌, ◌==◌, ltb, leb, if◌then◌else◌, Bool, true, false, not, ◌&&◌, ◌||◌, Option,
  none, some,
}
use sgsp.Common.Int.{ℤ, exceeds}
use sgsp.Endpoint.Limits.{Limits, minimum_advertised_limit}

pub data State : Type 0 where
  connecting authenticating active suspended closed : State

pub data Delivery : Type 0 where
  reliable_ordered unreliable unreliable_sequenced : Delivery

-- The codes that the modelled code answers or tests.
pub data Code : Type 0 where
  unauthenticated forbidden session_not_found server_draining internal group_closed : Code
  normal protocol_violation session_expired too_large session_superseded resource_exhausted : Code
  session_closed session_suspended invalid_argument wrong_mode unsupported_capability : Code
  other : ℕ → Code

-- `canceled` is whether the session's context was canceled.
pub record Session (P : Type 0) : Type 0 where
  pub state : State
  pub epoch : ℕ
  pub operations : Option ℕ
  pub principal : P
  pub limits : Limits
  pub peer_limits : Limits
  pub client_side : Bool
  pub terminal : Code
  pub canceled : Bool

-- A connection's epoch, and whether stopEpoch was called on it.
pub record Connection : Type 0 where
  pub epoch : ℕ
  pub stopped : Bool

abbrev pub is_active : State → Bool
is_active connecting = false
is_active authenticating = false
is_active active = true
is_active suspended = false
is_active closed = false

abbrev pub is_closed : State → Bool
is_closed connecting = false
is_closed authenticating = false
is_closed active = false
is_closed suspended = false
is_closed closed = true

abbrev pub is_superseded : Code → Bool
is_superseded session_superseded = true
is_superseded _ = false

-- `current == operations`
abbrev pub names : Option ℕ → ℕ → Bool
names none i = false
names (some j) i = j == i

-- The refusal, or the connection whose operation is called.
unfoldable pub admitted : State → Option ℕ → Code × Option ℕ
admitted suspended operations = (session_suspended, none)
admitted active none = (session_closed, none)
admitted active (some c) = (normal, some c)
admitted connecting operations = (session_closed, none)
admitted authenticating operations = (session_closed, none)
admitted closed operations = (session_closed, none)

module _ {P : Type 0} where
  unfoldable pub outbound_message_limit : Session P → ℤ
  outbound_message_limit s =
      minimum_advertised_limit s.limits.message_bytes s.peer_limits.message_bytes

  unfoldable pub outbound_datagram_limit : Session P → ℤ
  outbound_datagram_limit s =
      minimum_advertised_limit s.limits.datagram_bytes s.peer_limits.datagram_bytes

  unfoldable pub delivery_limit : Session P → Delivery → ℤ
  delivery_limit s reliable_ordered = outbound_message_limit s
  delivery_limit s unreliable = outbound_datagram_limit s
  delivery_limit s unreliable_sequenced = outbound_datagram_limit s

  -- The delivery is one of the three: a larger number is an invalid argument in Go.
  unfoldable pub send : Session P → ℕ → ℕ → Delivery → Code × Option ℕ
  send s type payload_bytes delivery =
      if type == 0
      then (invalid_argument, none)
      else if exceeds payload_bytes (delivery_limit s delivery)
      then (too_large, none)
      else admitted s.state s.operations

  unfoldable pub call : Session P → ℕ → ℕ → Code × Option ℕ
  call s type payload_bytes =
      if type == 0 || exceeds payload_bytes (outbound_message_limit s)
      then (invalid_argument, none)
      else admitted s.state s.operations

  unfoldable pub open_stream : Session P → ℕ → Code × Option ℕ
  open_stream s type = if type == 0 then (invalid_argument, none) else admitted s.state s.operations

  unfoldable pub refresh_auth : Session P → Code × Option ℕ
  refresh_auth s =
      if not s.client_side || not (is_active s.state)
      then (wrong_mode, none)
      else elim s.operations [ none ↦ (wrong_mode, none) | some c ↦ (normal, some c) ]

  -- Close: the answer, and the connection that sends the close.
  unfoldable pub close : Session P → Code → Session P × Code × Option ℕ
  close s code =
      if is_superseded code
      then (s, invalid_argument, none)
      else if is_closed s.state
      then (s, session_closed, none)
      else (record s { state = closed; terminal = code; canceled = true }, normal, s.operations)

  unfoldable pub close_remote : Session P → Code → Session P × Bool
  close_remote s code =
      if is_closed s.state
      then (s, false)
      else (record s { state = closed; terminal = code; canceled = true }, true)

  unfoldable pub set_principal : Session P → P → Session P
  set_principal s principal = record s { principal = principal }

  -- Whether it suspended, and then stopEpoch is called on the connection.
  unfoldable pub suspend_if_current : Session P → ℕ → Session P × Bool
  suspend_if_current s c =
      if not (names s.operations c) || not (is_active s.state)
      then (s, false)
      else (record s { state = suspended }, true)

  unfoldable pub is_current : Session P → ℕ → Connection → Bool
  is_current s c connection =
      names s.operations c && is_active s.state && s.epoch == connection.epoch

  -- A new connection `c` takes over, under the next epoch: the session, the answer and the epoch.
  unfoldable pub replace_connection : Session P → ℕ → P → Session P × Code × ℕ
  replace_connection s c principal =
      if is_closed s.state
      then (s, session_expired, 0)
      else if s.epoch == 2 ^ 64 - 1
      then (s, resource_exhausted, 0)
      else let epoch = (s.epoch + 1) % 2 ^ 64 in
        (
          record s { epoch = epoch; state = active; principal = principal; operations = some c },
          normal,
          epoch,
        )

  -- Or under the epoch that the peer's WELCOME names.
  unfoldable pub replace_connection_at : Session P → ℕ → P → ℕ → Session P × Code
  replace_connection_at s c principal epoch =
      if is_closed s.state
      then (s, session_expired)
      else if leb epoch s.epoch || epoch == 0
      then (s, protocol_violation)
      else (
        record s { epoch = epoch; state = active; principal = principal; operations = some c },
        normal,
      )
