-- ===== src/Endpoint/Slots/Tests.antt =====
-- The theorem on the slots at a concrete input.
use sgsp.Common.Int.{pos}
use sgsp.Endpoint.Limits.{Limits}
use sgsp.Endpoint.Slots.{Slots}

abbrev limits : Limits
limits = record {
  message_bytes = pos 100;
  datagram_bytes = pos 20;
  requests = pos 4;
  streams = pos 2;
  reliable_channels = pos 1;
  datagram_channels = pos 3;
}

abbrev slots : Slots
slots = record { in_requests = 3; out_requests = 1; in_streams = 2; out_streams = 0 }
