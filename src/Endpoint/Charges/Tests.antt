-- ===== src/Endpoint/Charges/Tests.antt =====
-- The theorems on the charges at concrete inputs.
use sgsp.Common.{ℕ, ◌+◌, ◌-◌, ◌^◌, ◌≤◌, ◌≡◌, ◌⊎◌, refl, arith, List, [], ◌∷◌, none, some, false}
use sgsp.Common.Int.{pos, negsuc}
use sgsp.Runtime.Budget.{Budget, new_budget}
use sgsp.Endpoint.Charges.{from_ordinary, from_reply, directional_budget_limits}
use sgsp.Endpoint.Charges.Ledger.{AtLeast, held, held_all}
use sgsp.Endpoint.Charges.Sessions.{
  System, IsSound, Call, reserves, reserves_reply, releases, others_hold,
}
use sgsp.Endpoint.Charges.Limits.{fresh_ledgers, start, run, run-within_queue_bytes}

abbrev budget : ℕ → ℕ → Budget
budget max used = record { max = max; used = used; notify = false }

-- A session that holds 5 bytes on each ledger, of an endpoint where another one holds 3.
abbrev holding : System
holding = record {
  ledgers = record {
    ordinary = some (budget 8 5);
    reply = some (budget 40 5);
    application = some (budget 64 13);
  };
  charges =
      record { side = from_ordinary; bytes = 5; done = false }
      ∷ record { side = from_reply; bytes = 5; done = false }
      ∷ [];
}

holding-IsSound : IsSound 8 40 holding
holding-IsSound = record {
  ordinary = (refl, omega arith, refl);
  reply = (refl, omega arith, refl);
  application = (omega arith, omega arith);
}

abbrev calls : List Call
calls = reserves (pos 20) ∷ reserves_reply (pos 30) ∷ others_hold 10 ∷ releases 0 ∷ releases 0 ∷ []

run-within_queue_bytes_example :
    ((2 ^ 62 - 32 ≤ 8) × (start (pos 100) (pos 8) (some (budget 200 0)) ≡ none))
    ⊎ ((s : System) × (run (start (pos 100) (pos 8) (some (budget 200 0))) calls ≡ some s)
        × (held from_ordinary s.charges + held from_reply s.charges ≤ 100)
        × AtLeast s.ledgers.application (held_all s.charges))
run-within_queue_bytes_example =
    run-within_queue_bytes 100 8 (some (budget 200 0)) calls (omega arith) (omega arith)
      (omega arith, omega arith)

-- The doubled size wraps round to a negative int, so that the ordinary capacity is negative too.
wrapped_panics : start (pos 1) (pos (2 ^ 62)) none ≡ none
unfolding start fresh_ledgers directional_budget_limits new_budget
wrapped_panics = refl

-- The capacities when the reserve itself wraps round.
wrapped_reserve :
    directional_budget_limits (pos 100) (pos (2 ^ 63 - 1))
    ≡ (negsuc (2 ^ 63 - 70), negsuc (2 ^ 63 - 32))
unfolding directional_budget_limits
wrapped_reserve = refl
