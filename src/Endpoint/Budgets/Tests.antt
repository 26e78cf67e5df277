-- ===== src/Endpoint/Budgets/Tests.antt =====
-- Limits at concrete inputs.
use sgsp.Common.{◌≡◌, refl, arith, ◌^◌, none, some}
use sgsp.Common.Int.{pos}
use sgsp.Endpoint.Budgets.{Limits, default_limits, is_unset, normalize_limits}
use sgsp.Endpoint.Budgets.Accepted.{IsUsable, normalize_limits-IsUsable}

defaults_accepted : normalize_limits default_limits ≡ some default_limits
unfolding normalize_limits is_unset
defaults_accepted = refl

abbrev too_small : Limits
too_small = record default_limits { queue_bytes = pos 0x20000 }

small_queue_refused : normalize_limits too_small ≡ none
unfolding normalize_limits is_unset
small_queue_refused = refl

-- The sum of two messages wraps round: a queue of one byte is accepted for messages of 2 ^ 62.
abbrev wrapping : Limits
wrapping = record default_limits { message_bytes = pos (2 ^ 62); queue_bytes = pos 1 }

wrapping_accepted : normalize_limits wrapping ≡ some wrapping
unfolding normalize_limits is_unset
wrapping_accepted = refl

-- And so does the number of the streams.
abbrev crowded : Limits
crowded = record default_limits { requests = pos (2 ^ 62); streams = pos (2 ^ 62) }

crowded_accepted : normalize_limits crowded ≡ some crowded
unfolding normalize_limits is_unset
crowded_accepted = refl

normalize_limits-IsUsable_example : IsUsable default_limits
normalize_limits-IsUsable_example =
    normalize_limits-IsUsable default_limits default_limits defaults_accepted (omega arith)
