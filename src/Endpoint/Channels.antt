-- ===== src/Endpoint/Channels.antt =====
-- endpoint.go: the channels of a connection. Each direction binds a channel to the delivery of its
-- first message. bindOutbound runs under the sender's lock, bindInbound under the channels' mutex.
pub mod Bindings
mod Tests
use sgsp.Common.{
  ℕ, ◌+◌, ◌==◌, leb, List, [], ◌∷◌, if◌then◌else◌, Bool, true, false, not, ◌&&◌, Option, none, some,
}
use sgsp.Common.Int.{ℤ, pos, negsuc}
use sgsp.Common.Table.{lookup, assign_key}
use sgsp.Endpoint.Limits.{Limits, minimum_advertised_limit}
use sgsp.Endpoint.Session.{
  Delivery, reliable_ordered, unreliable, unreliable_sequenced, Code, normal, invalid_argument,
  resource_exhausted,
}

abbrev pub Bindings : Type 0
Bindings = List (ℕ × Delivery)

abbrev pub is_reliable : Delivery → Bool
is_reliable reliable_ordered = true
is_reliable unreliable = false
is_reliable unreliable_sequenced = false

-- `bound == delivery`
abbrev pub same_delivery : Delivery → Delivery → Bool
same_delivery reliable_ordered d = is_reliable d
same_delivery unreliable reliable_ordered = false
same_delivery unreliable unreliable = true
same_delivery unreliable unreliable_sequenced = false
same_delivery unreliable_sequenced reliable_ordered = false
same_delivery unreliable_sequenced unreliable = false
same_delivery unreliable_sequenced unreliable_sequenced = true

abbrev pub same_class : Bool → Bool → Bool
same_class true b = b
same_class false b = not b

-- The loop that counts the bindings of a class.
unfoldable pub count : Bool → Bindings → ℕ
count reliable [] = 0
count reliable ((k, d) ∷ t) =
    let rest = count reliable t in if same_class (is_reliable d) reliable then 1 + rest else rest

-- `n >= i`
abbrev pub reaches : ℕ → ℤ → Bool
reaches n (pos m) = leb m n
reaches n (negsuc m) = true

abbrev pub find : Bindings → ℕ → Option Delivery
find t channel = lookup (λ a b. a == b) channel t

abbrev pub put : Bindings → ℕ → Delivery → Bindings
put t channel d = assign_key (λ a b. a == b) channel d t

unfoldable pub outbound_limit : Limits → Limits → Delivery → ℤ
outbound_limit own peer d =
    if is_reliable d
    then minimum_advertised_limit own.reliable_channels peer.reliable_channels
    else minimum_advertised_limit own.datagram_channels peer.datagram_channels

unfoldable pub bind_outbound : Limits → Limits → Bindings → ℕ → Delivery → Bindings × Code
bind_outbound own peer t channel d = elim (find t channel) [
  | some bound ↦ if not (same_delivery bound d) then (t, invalid_argument) else (t, normal)
  | none ↦
      if reaches (count (is_reliable d) t) (outbound_limit own peer d)
      then (t, resource_exhausted)
      else (put t channel d, normal)
]

unfoldable pub inbound_limit : Limits → Delivery → ℤ
inbound_limit own d = if is_reliable d then own.reliable_channels else own.datagram_channels

unfoldable pub bind_inbound : Limits → Bindings → ℕ → Delivery → Bindings × Bool
bind_inbound own t channel d = elim (find t channel) [
  | some bound ↦ (t, same_delivery bound d && not (is_reliable d))
  | none ↦
      if reaches (count (is_reliable d) t) (inbound_limit own d)
      then (t, false)
      else (put t channel d, true)
]
