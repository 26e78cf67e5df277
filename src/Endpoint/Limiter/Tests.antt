-- ===== src/Endpoint/Limiter/Tests.antt =====
-- A limiter at concrete inputs, with natural numbers for its floats.
use sgsp.Common.{
  ℕ, ◌+◌, ◌*◌, ◌-◌, ◌≤◌, ◌≡◌, refl, arith, ltb, leb, if◌then◌else◌, List, [], ◌∷◌, length, false,
}
use sgsp.Common.Table.{lookup, assign_key}
use sgsp.Placement.Types.{String}
use sgsp.Endpoint.Limiter.{
  Floats, max_handshake_sources, HandshakeLimiter, forget_idle, refill, spend, allow,
}
use sgsp.Endpoint.Limiter.Bounded.{allow_all, allow_all-bounded}

abbrev whole : Floats
whole = record {
  Float = ℕ;
  min = λ a b. if leb a b then a else b;
  add = λ a b. a + b;
  multiply = λ a b. a * b;
  minus_one = λ a. a - 1;
  seconds = λ now seen. now - seen;
  above_zero = λ a. ltb 0 a;
  is_below_one = λ a. ltb a 1;
}

abbrev fresh : HandshakeLimiter whole
fresh = record { rate = 1; burst = 2; sources = [] }

abbrev handshakes : List (ℕ × String)
handshakes = (1, "north") ∷ (1, "north") ∷ (1, "north") ∷ (2, "south") ∷ []

third_refused :
    (allow whole 1 "north" (allow whole 1 "north" (allow whole 1 "north" fresh).0).0).1 ≡ false
unfolding allow spend refill forget_idle lookup assign_key
third_refused = refl

allow_all-bounded_example :
    length (allow_all whole handshakes fresh).sources ≤ max_handshake_sources
allow_all-bounded_example = allow_all-bounded whole handshakes fresh (omega arith)
