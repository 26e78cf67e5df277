-- ===== src/Endpoint/Limits.antt =====
-- session.go: the limits of the two sides of a session. Limits are Go ints.
use sgsp.Common.{ℕ, zero, suc, leb, if◌then◌else◌, Bool, true, false, ◌≡◌, arith, ◌⊎◌}
use sgsp.Common.Int.{ℤ, pos, negsuc, exceeds}

-- The fields that the session's counts and guards read.
pub record Limits : Type 0 where
  pub message_bytes : ℤ
  pub datagram_bytes : ℤ
  pub requests : ℤ
  pub streams : ℤ
  pub reliable_channels : ℤ
  pub datagram_channels : ℤ

-- `i <= 0`
unfoldable pub not_positive : ℤ → Bool
not_positive (pos zero) = true
not_positive (pos (suc n)) = false
not_positive (negsuc n) = true

-- `min(a, b)`
unfoldable pub min_int : ℤ → ℤ → ℤ
min_int (pos a) (pos b) = if leb a b then pos a else pos b
min_int (pos a) (negsuc b) = negsuc b
min_int (negsuc a) (pos b) = negsuc a
min_int (negsuc a) (negsuc b) = if leb b a then negsuc a else negsuc b

unfoldable pub minimum_advertised_limit : ℤ → ℤ → ℤ
minimum_advertised_limit local peer = if not_positive peer then local else min_int local peer

-- What stays within the limit of both sides stays within the own limit, and within the peer's where
-- the peer advertised one.
pub within_both :
    (n : ℕ) (local peer : ℤ)
    → exceeds n (minimum_advertised_limit local peer) ≡ false
    → (exceeds n local ≡ false) × ((not_positive peer ≡ true) ⊎ (exceeds n peer ≡ false))
unfolding minimum_advertised_limit min_int not_positive
within_both n (pos a) (pos b) h = ground arith
within_both n (pos a) (negsuc b) h = ground arith
within_both n (negsuc a) (pos b) h = ground arith
within_both n (negsuc a) (negsuc b) h = ground arith
