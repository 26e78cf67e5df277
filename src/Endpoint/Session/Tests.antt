-- ===== src/Endpoint/Session/Tests.antt =====
-- The theorems on a session at concrete inputs.
use sgsp.Common.{ℕ, ◌≤◌, ◌≡◌, refl, arith, List, [], ◌∷◌, true, false, some}
use sgsp.Common.Int.{pos}
use sgsp.Endpoint.Limits.{Limits, minimum_advertised_limit, min_int, not_positive}
use sgsp.Endpoint.Session.{
  active, closed, unreliable, normal, Connection, admitted, delivery_limit, outbound_datagram_limit,
  send, suspend_if_current, is_current,
}
use sgsp.Endpoint.Session.Invariant.{System, Call, suspends, resumes, run, IsServed}
use sgsp.Endpoint.Session.Epochs.{superseded}
use sgsp.Endpoint.Session.Terminal.{SameLife, closed-run}

abbrev limits : Limits
limits = record {
  message_bytes = pos 100;
  datagram_bytes = pos 20;
  requests = pos 4;
  streams = pos 2;
  reliable_channels = pos 3;
  datagram_channels = pos 3;
}

-- A session that was resumed once; its principal is a number.
abbrev resumed : System ℕ
resumed = record {
  session = record {
    state = active;
    epoch = 2;
    operations = some 1;
    principal = 9;
    limits = limits;
    peer_limits = record limits { datagram_bytes = pos 10 };
    client_side = true;
    terminal = normal;
    canceled = false;
  };
  connections = record { epoch = 1; stopped = true } ∷ record { epoch = 2; stopped = false } ∷ [];
}

resumed-IsServed : IsServed resumed
resumed-IsServed = record {
  climbs = (omega arith, refl);
  serves = (1, refl, refl);
  bounded = omega arith;
  positive = omega arith;
  canceled = refl;
}

abbrev calls : List (Call ℕ)
calls = suspends 0 ∷ suspends 1 ∷ resumes 9 ∷ suspends 0 ∷ []

abbrev first_connection : Connection
first_connection = record { epoch = 1; stopped = true }

superseded_example :
    let t = (run resumed calls).session in
    (is_current t 0 first_connection ≡ false)
    × (suspend_if_current t 0 ≡ (t, false))
    × (2 ≤ t.epoch)
superseded_example = superseded resumed calls 0 first_connection resumed-IsServed (omega arith)

abbrev ended : System ℕ
ended = record resumed { session = record (resumed.session) { state = closed; canceled = true } }

closed-run_example : SameLife ended.session (run ended calls).session
closed-run_example = closed-run ended calls refl

datagram_sent : send resumed.session 3 10 unreliable ≡ (normal, some 1)
unfolding send admitted delivery_limit outbound_datagram_limit minimum_advertised_limit min_int
    not_positive
datagram_sent = refl
