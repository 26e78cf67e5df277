-- ===== src/Endpoint/Datagrams/Tests.antt =====
-- Datagrams at concrete inputs.
use sgsp.Common.{ℕ, ◌≡◌, refl, arith, All, List, [], ◌∷◌, Bool, true}
use sgsp.Common.Int.{pos}
use sgsp.Common.Table.{lookup, assign_key}
use mathlib.Core.List.{Sublistᴰ}
use mathlib.Core.List.Memᴰ.{head, tail}
use sgsp.Wire.Varint.{append_varint, decode_varint}
use sgsp.Wire.Cursor.{append_varints}
use sgsp.Wire.Events.{
  Event, sequenced_kind, validate_event, append_event, encode_datagram, decode_event,
  decode_datagram,
}
use sgsp.Endpoint.Limits.{Limits, minimum_advertised_limit, min_int, not_positive}
use sgsp.Endpoint.Channels.{bind_outbound, bind_inbound, count, outbound_limit, inbound_limit}
use sgsp.Endpoint.Datagrams.{
  Sender, Receiver, send_datagram, send_bound, next_sequence, event_of, encode_event,
  receive_datagrams, receive_datagram, take_event,
}
use sgsp.Endpoint.Datagrams.Order.{on, Climbs, receive_datagrams-Climbs}
use sgsp.Endpoint.Datagrams.Sent.{Message, send_all, events_of}
use sgsp.Endpoint.Datagrams.Delivered.{IsFrom, delivered_in_order}

abbrev limits : Limits
limits = record {
  message_bytes = pos 10;
  datagram_bytes = pos 16;
  requests = pos 1;
  streams = pos 1;
  reliable_channels = pos 1;
  datagram_channels = pos 1;
}

abbrev fresh_sender : Sender
fresh_sender = record { sequences = []; outbound = [] }

abbrev fresh_receiver : Receiver
fresh_receiver = record { received = []; inbound = [] }

abbrev position : ℕ → Message
position x = record { sequenced = true; channel = 5; type = 9; payload = x ∷ [] }

abbrev event : ℕ → ℕ → Event
event n x = record {
  kind = sequenced_kind;
  channel = 5;
  message_type = 9;
  sequence = n;
  payload = x ∷ [];
}

abbrev first : List ℕ
first = 3 ∷ 5 ∷ 9 ∷ 1 ∷ 70 ∷ []

abbrev second : List ℕ
second = 3 ∷ 5 ∷ 9 ∷ 2 ∷ 71 ∷ []

abbrev sent : List (Event × List ℕ)
sent = (event 1 70, first) ∷ (event 2 71, second) ∷ []

sends_two : send_all limits limits (position 70 ∷ position 71 ∷ []) fresh_sender ≡ sent
unfolding send_all send_datagram send_bound next_sequence event_of encode_event bind_outbound count
    outbound_limit minimum_advertised_limit min_int not_positive lookup assign_key encode_datagram
    validate_event append_event append_varints append_varint
sends_two = refl

-- The second one overtakes the first, which is stale then, and comes again.
abbrev arrivals : List (List ℕ × Bool)
arrivals = (second, true) ∷ (first, true) ∷ (second, true) ∷ []

takes_newest : receive_datagrams limits arrivals fresh_receiver ≡ event 2 71 ∷ []
unfolding receive_datagrams receive_datagram take_event bind_inbound count inbound_limit lookup
    assign_key decode_datagram validate_event decode_event decode_varint
takes_newest = refl

receive_datagrams-Climbs_example :
    Climbs 0 (on 5 (receive_datagrams limits arrivals fresh_receiver))
unfolding lookup
receive_datagrams-Climbs_example = receive_datagrams-Climbs limits 5 arrivals fresh_receiver

All-sent :
    All (IsFrom (send_all limits limits (position 70 ∷ position 71 ∷ []) fresh_sender)) arrivals
All-sent = rw sends_two (
  (event 2 71, tail (head refl)),
  ((event 1 70, head refl), ((event 2 71, tail (head refl)), tt)),
)

delivered_in_order_example :
    Sublistᴰ
      (on 5 (receive_datagrams limits arrivals fresh_receiver))
      (on 5 (events_of (send_all limits limits (position 70 ∷ position 71 ∷ []) fresh_sender)))
delivered_in_order_example =
    delivered_in_order limits limits limits 5 (position 70 ∷ position 71 ∷ []) fresh_sender arrivals
      fresh_receiver (unfold lookup in omega arith) All-sent
