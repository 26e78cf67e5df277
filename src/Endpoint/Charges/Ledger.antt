-- ===== src/Endpoint/Charges/Ledger.antt =====
-- One ledger under a charge and a release, and the sums of the charges held on it.
use sgsp.Common.{
  ℕ, zero, suc, ◌+◌, ◌-◌, ◌≤◌, ◌≡◌, refl, ap, arith, List, [], ◌∷◌, get_elem?, set, ltb,
  if◌then◌else◌, true, false, Option, none, some, ◌⊎◌, inl, inr, Bool-cases,
}
use mathlib.Core.Option.{some-injective}
use sgsp.Runtime.Budget.{Budget, acquire, release}
use sgsp.Endpoint.Charges.{Side, from_ordinary, from_reply, Charge, acquire?, release?}

-- A ledger of capacity `max` that stands at `n`, and one that stands at `n` or above.
abbrev pub Holds : ℕ → Option Budget → ℕ → Type 0
Holds max none n = ⊥
Holds max (some b) n = (b.used ≡ n) × (n ≤ max) × (b.max ≡ max)

abbrev pub AtLeast : Option Budget → ℕ → Type 0
AtLeast none n = Unit
AtLeast (some b) n = (n ≤ b.used) × (b.used ≤ b.max)

abbrev pub charged : Side → Charge → ℕ
charged from_ordinary c = elim c.side [
  | from_ordinary ↦ if c.done then 0 else c.bytes
  | from_reply ↦ 0
]
charged from_reply c = elim c.side [
  | from_ordinary ↦ 0
  | from_reply ↦ if c.done then 0 else c.bytes
]

-- The bytes of the charges that are not yet released, of one ledger and of both.
abbrev pub held : Side → List Charge → ℕ
held s [] = 0
held s (c ∷ cs) = charged s c + held s cs

abbrev pub held_all : List Charge → ℕ
held_all cs = held from_ordinary cs + held from_reply cs

pub held-set :
    (s : Side) (cs : List Charge) (i : ℕ) (c c' : Charge)
    → get_elem? cs i ≡ some c
    → held s (set cs i c') + charged s c ≡ held s cs + charged s c'
held-set s [] i c c' h = cc
held-set s (x ∷ cs) zero c c' h = omega (arith, ap (charged s) (some-injective _ _ h))
held-set s (x ∷ cs) (suc i) c c' h = omega (arith, held-set s cs i c c' h)

pub acquire?-Holds :
    (max : ℕ) (m : Option Budget) (k n : ℕ)
    → Holds max m k
    → ((acquire? m n).1 ≡ false) ⊎ (((acquire? m n).1 ≡ true) × Holds max (acquire? m n).0 (n + k))
unfolding acquire? acquire
acquire?-Holds max none k n h = absurd h
acquire?-Holds max (some b) k n h = elim (Bool-cases (ltb b.max (n + b.used))) [
  | inl e ↦ inl (ground arith)
  | inr e ↦ inr (ground arith, ground arith)
]

pub acquire?-AtLeast :
    (m : Option Budget) (k n : ℕ)
    → AtLeast m k
    → ((acquire? m n).1 ≡ false) ⊎ (((acquire? m n).1 ≡ true) × AtLeast (acquire? m n).0 (n + k))
unfolding acquire? acquire
acquire?-AtLeast none k n h = inr (refl, tt)
acquire?-AtLeast (some b) k n h = elim (Bool-cases (ltb b.max (n + b.used))) [
  | inl e ↦ inl (ground arith)
  | inr e ↦ inr (ground arith, ground arith)
]

pub acquire?-refused : (m : Option Budget) (n : ℕ) → (acquire? m n).1 ≡ false → (acquire? m n).0 ≡ m
unfolding acquire? acquire
acquire?-refused none n h = refl
acquire?-refused (some b) n h = ground arith

pub release?-Holds :
    (max : ℕ) (m : Option Budget) (k n : ℕ)
    → Holds max m (n + k)
    → (m' : Option Budget) × (release? m n ≡ some m') × Holds max m' k
unfolding release? release
release?-Holds max none k n h = absurd h
release?-Holds max (some b) k n h =
    (some (record b { used = b.used - n; notify = true }), ground arith, ground arith)

pub release?-AtLeast :
    (m : Option Budget) (k n : ℕ)
    → AtLeast m (n + k)
    → (m' : Option Budget) × (release? m n ≡ some m') × AtLeast m' k
unfolding release? release
release?-AtLeast none k n h = (none, refl, tt)
release?-AtLeast (some b) k n h =
    (some (record b { used = b.used - n; notify = true }), ground arith, ground arith)

pub Holds-le : (max : ℕ) (m : Option Budget) (n : ℕ) → Holds max m n → n ≤ max
Holds-le max none n h = absurd h
Holds-le max (some b) n h = h.1
