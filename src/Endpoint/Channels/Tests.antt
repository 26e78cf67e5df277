-- ===== src/Endpoint/Channels/Tests.antt =====
-- The theorem on the bindings at a concrete input.
use sgsp.Common.{◌≡◌, refl, [], ◌∷◌}
use sgsp.Common.Int.{pos}
use sgsp.Common.Table.{lookup}
use sgsp.Endpoint.Limits.{Limits, minimum_advertised_limit, min_int, not_positive}
use sgsp.Endpoint.Session.{reliable_ordered, unreliable, resource_exhausted}
use sgsp.Endpoint.Channels.{
  Bindings, count, outbound_limit, bind_outbound, inbound_limit, bind_inbound,
}
use sgsp.Endpoint.Channels.Bindings.{BindsOnce, bound_once}

abbrev limits : Limits
limits = record {
  message_bytes = pos 100;
  datagram_bytes = pos 20;
  requests = pos 4;
  streams = pos 2;
  reliable_channels = pos 1;
  datagram_channels = pos 3;
}

abbrev bindings : Bindings
bindings = (5, reliable_ordered) ∷ (6, unreliable) ∷ []

second_reliable_refused :
    bind_outbound limits limits bindings 7 reliable_ordered ≡ (bindings, resource_exhausted)
unfolding bind_outbound outbound_limit minimum_advertised_limit min_int not_positive count lookup
second_reliable_refused = refl

bound_once_example :
    BindsOnce
      (outbound_limit limits limits unreliable)
      bindings
      7
      unreliable
      5
      (bind_outbound limits limits bindings 7 unreliable).0
    × BindsOnce
        (inbound_limit limits unreliable)
        bindings
        7
        unreliable
        5
        (bind_inbound limits bindings 7 unreliable).0
bound_once_example = bound_once limits limits bindings 7 5 unreliable
