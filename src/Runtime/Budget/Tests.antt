-- ===== src/Runtime/Budget/Tests.antt =====
-- The ledger at concrete inputs.
use sgsp.Common.{◌≡◌, refl, true, false, none}
use sgsp.Common.Int.{pos, negsuc}
use sgsp.Runtime.Budget.{Budget, acquire, release}

abbrev ledger : Budget
ledger = record { max = 10; used = 4; notify = false }

refuses_above : acquire ledger (pos 7) ≡ (ledger, false)
unfolding acquire
refuses_above = refl

admits_within : acquire ledger (pos 6) ≡ (record ledger { used = 10 }, true)
unfolding acquire
admits_within = refl

panics_below : release ledger (negsuc 0) ≡ none
unfolding release
panics_below = refl
