-- ===== src/Runtime/Queue/Sums.antt =====
-- Sums over the queue's items and over its reservations.
use sgsp.Common.{
  ℕ, zero, suc, ◌+◌, ◌≤◌, ◌≡◌, arith, List, [], ◌∷◌, ◌++◌, length, get_elem?, set, some, Bool,
  if◌then◌else◌,
}
use sgsp.Runtime.Queue.{Item, Reservation, split, find_key, put_key}

module _ {ℓ} {A : Type ℓ} where
  abbrev pub total : List (Item A) → ℕ
  total [] = 0
  total (item ∷ rest) = item.bytes + total rest

-- The reservations that are neither committed nor cancelled, and their bytes.
abbrev pub share : Reservation → ℕ
share r = if r.done then 0 else 1

abbrev pub hold : Reservation → ℕ
hold r = if r.done then 0 else r.bytes

abbrev pub outstanding : List Reservation → ℕ
outstanding [] = 0
outstanding (r ∷ rs) = share r + outstanding rs

abbrev pub held : List Reservation → ℕ
held [] = 0
held (r ∷ rs) = hold r + held rs

pub outstanding-append :
    (rs : List Reservation) (r : Reservation)
    → outstanding (rs ++ (r ∷ [])) ≡ outstanding rs + share r
outstanding-append [] r = omega arith
outstanding-append (x ∷ rs) r = omega (arith, outstanding-append rs r)

pub held-append :
    (rs : List Reservation) (r : Reservation) → held (rs ++ (r ∷ [])) ≡ held rs + hold r
held-append [] r = omega arith
held-append (x ∷ rs) r = omega (arith, held-append rs r)

pub outstanding-set :
    (rs : List Reservation) (i : ℕ) (r r' : Reservation)
    → get_elem? rs i ≡ some r
    → outstanding (set rs i r') + share r ≡ outstanding rs + share r'
outstanding-set [] i r r' h = cc
outstanding-set (x ∷ rs) zero r r' h = ground arith
outstanding-set (x ∷ rs) (suc i) r r' h = omega (arith, outstanding-set rs i r r' h)

pub held-set :
    (rs : List Reservation) (i : ℕ) (r r' : Reservation)
    → get_elem? rs i ≡ some r
    → held (set rs i r') + hold r ≡ held rs + hold r'
held-set [] i r r' h = cc
held-set (x ∷ rs) zero r r' h = ground arith
held-set (x ∷ rs) (suc i) r r' h = omega (arith, held-set rs i r r' h)

module _ {ℓ} {A : Type ℓ} where
  pub total-append : (xs ys : List (Item A)) → total (xs ++ ys) ≡ total xs + total ys
  total-append [] ys = omega arith
  total-append (x ∷ xs) ys = omega (arith, total-append xs ys)

  pub split-total :
      (p : Item A → Bool) (xs : List (Item A))
      → let (kept, bytes, _) = split p xs in
        (bytes ≡ total kept) × (bytes ≤ total xs) × (length kept ≤ length xs)
  split-total p [] = omega arith
  split-total p (x ∷ xs) = ground (arith, split-total p xs)

  pub put_key-total :
      (new old : Item A) (xs : List (Item A))
      → find_key new.key xs ≡ some old
      → (total (put_key new xs) + old.bytes ≡ total xs + new.bytes)
        × (length (put_key new xs) ≡ length xs)
        × (old.bytes ≤ total xs)
  unfolding put_key find_key
  put_key-total new old [] h = cc
  put_key-total new old (x ∷ xs) h = ground (arith, put_key-total new old xs)
