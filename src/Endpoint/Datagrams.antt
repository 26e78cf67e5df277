-- ===== src/Endpoint/Datagrams.antt =====
-- endpoint.go: send for the two unreliable deliveries, and receiveDatagrams. A sender numbers the
-- sequenced datagrams of a channel from one; a receiver drops those that are not newer than the last
-- one it took. Whether the rate admits an arrival is an argument: the arithmetic on floats of
-- allowInboundMessage is not modelled. The checks of send in front of the bindings are those of the
-- session and of the charges.
pub mod Order
pub mod Sent
pub mod Climbing
pub mod Delivered
mod Tests
use sgsp.Common.{
  ℕ, ◌+◌, ◌%◌, ◌^◌, ◌==◌, leb, List, [], ◌∷◌, if◌then◌else◌, Bool, true, false, not, Option, none,
  some,
}
use sgsp.Common.Table.{lookup, assign_key}
use sgsp.Wire.Result.{Error, ok, err, too_large as frame_too_large}
use sgsp.Wire.Events.{Event, unreliable_kind, sequenced_kind, encode_datagram, decode_datagram}
use sgsp.Endpoint.Limits.{Limits, minimum_advertised_limit}
use sgsp.Endpoint.Session.{
  Delivery, unreliable, unreliable_sequenced, Code, normal, too_large, protocol_violation,
}
use sgsp.Endpoint.Channels.{Bindings, bind_outbound, bind_inbound}

-- The last sequence number of each channel.
abbrev pub Sequences : Type 0
Sequences = List (ℕ × ℕ)

abbrev pub same_channel : ℕ → ℕ → Bool
same_channel a b = a == b

-- `sequences[channel]`, which is zero when there is none.
abbrev pub last : ℕ → Sequences → ℕ
last channel t = elim (lookup same_channel channel t) [ none ↦ 0 | some n ↦ n ]

abbrev pub delivery_of : Bool → Delivery
delivery_of sequenced = if sequenced then unreliable_sequenced else unreliable

pub record Sender : Type 0 where
  pub sequences : Sequences
  pub outbound : Bindings

-- A datagram that goes out, with its bytes, or the code of the refusal.
pub data Sending : Type 0 where
  sends : Event → List ℕ → Sending
  refuses : Code → Sending

unfoldable pub next_sequence : ℕ → Sequences → ℕ
next_sequence channel t = (last channel t + 1) % 2 ^ 64

unfoldable pub event_of : Bool → ℕ → ℕ → ℕ → List ℕ → Event
event_of sequenced channel type sequence payload = record {
  kind = if sequenced then sequenced_kind else unreliable_kind;
  channel = channel;
  message_type = type;
  sequence = sequence;
  payload = payload;
}

abbrev pub map_wire_error : Error → Code
map_wire_error frame_too_large = too_large
map_wire_error problem = protocol_violation

unfoldable pub encode_event : Limits → Limits → Event → Sending
encode_event own peer event =
    elim (encode_datagram event (minimum_advertised_limit own.datagram_bytes peer.datagram_bytes)) [
      | ok b ↦ sends event b
      | err problem ↦ refuses (map_wire_error problem)
    ]

unfoldable pub send_bound : Limits → Limits → Bool → ℕ → ℕ → List ℕ → Sender → Sender × Sending
send_bound own peer sequenced channel type payload s =
    if sequenced
    then (
      record s {
        sequences = assign_key same_channel channel (next_sequence channel s.sequences) s.sequences;
      },
      encode_event own peer
          (event_of true channel type (next_sequence channel s.sequences) payload),
    )
    else (s, encode_event own peer (event_of false channel type 0 payload))

-- `if err := bindOutbound(…); err != nil { return err }`
abbrev pub if_bound : Code → Sender × Sending → Sender → Sender × Sending
if_bound normal went s = went
if_bound refusal went s = (s, refuses refusal)

unfoldable pub send_datagram : Limits → Limits → Bool → ℕ → ℕ → List ℕ → Sender → Sender × Sending
send_datagram own peer sequenced channel type payload s =
    let (outbound, code) = bind_outbound own peer s.outbound channel (delivery_of sequenced) in
    if_bound code
      (send_bound own peer sequenced channel type payload (record s { outbound = outbound })) s

pub record Receiver : Type 0 where
  pub received : Sequences
  pub inbound : Bindings

-- An event goes to deliverEvent, or is dropped, or the session is closed and the loop ends.
pub data Fate : Type 0 where
  delivers : Event → Fate
  drops : Fate
  closes : Fate

-- A sequenced event that is stale is dropped.
unfoldable pub take_event : Event → Receiver → Receiver × Fate
take_event event r =
    if event.kind == sequenced_kind
    then if leb event.sequence (last event.channel r.received) then (r, drops) else (
      record r { received = assign_key same_channel event.channel event.sequence r.received },
      delivers event,
    )
    else (r, delivers event)

unfoldable pub receive_datagram : Limits → Bool → List ℕ → Receiver → Receiver × Fate
receive_datagram own allowed bytes r = elim (decode_datagram bytes own.datagram_bytes) [
  | err e ↦ (r, drops)
  | ok event ↦
      let (inbound, fine) =
        bind_inbound own r.inbound event.channel (delivery_of (event.kind == sequenced_kind)) in
      if not allowed
      then (r, drops)
      else if not fine
      then (record r { inbound = inbound }, closes)
      else take_event event (record r { inbound = inbound })
]

-- What the loop delivers, given what its rest does.
abbrev pub handed : Fate → List Event → List Event
handed (delivers event) events = event ∷ events
handed drops events = events
handed closes events = []

-- The loop over the datagrams that arrive, each with what the rate says: those it delivers.
unfoldable pub receive_datagrams : Limits → List (List ℕ × Bool) → Receiver → List Event
receive_datagrams own [] r = []
receive_datagrams own ((bytes, allowed) ∷ rest) r =
    let (r', fate) = receive_datagram own allowed bytes r in
    handed fate (receive_datagrams own rest r')
