-- ===== src/Runtime/Budget.antt =====
-- internal/runtime/budget.go: a ledger of allocated bytes. Each operation is one critical section; an
-- int64 of a caller may be negative. A panic is `none`.
mod Tests
use sgsp.Common.{
  ℕ, ◌+◌, ◌-◌, ◌≤◌, ◌≡◌, refl, arith, ltb, ◌||◌, if◌then◌else◌, Bool, true, false, Option, none,
  some, ◌⊎◌, inl, inr, Bool-cases,
}
use sgsp.Common.Int.{ℤ, is_neg, to_ℕ}

pub record Budget : Type 0 where
  pub max : ℕ
  pub used : ℕ
  pub notify : Bool

unfoldable pub new_budget : ℤ → Option Budget
new_budget max =
    if is_neg max then none else some (record { max = to_ℕ max; used = 0; notify = false })

-- `bytes < 0 || bytes > b.max-b.used`
unfoldable pub acquire : Budget → ℤ → Budget × Bool
acquire b bytes =
    if is_neg bytes || ltb b.max (to_ℕ bytes + b.used)
    then (b, false)
    else (record b { used = b.used + to_ℕ bytes }, true)

unfoldable pub release : Budget → ℤ → Option Budget
release b bytes =
    if is_neg bytes || ltb b.used (to_ℕ bytes)
    then none
    else some (record b { used = b.used - to_ℕ bytes; notify = true })

-- A charge is refused, and nothing changes, or it is admitted within the maximum, and then its
-- release is no panic and gives the capacity back.
pub acquire-release :
    (b : Budget) (bytes : ℤ)
    → (acquire b bytes ≡ (b, false))
      ⊎ (((acquire b bytes).1 ≡ true)
          × ((acquire b bytes).0.used ≤ b.max)
          × (release (acquire b bytes).0 bytes ≡ some (record b { notify = true })))
unfolding acquire release
acquire-release b bytes = elim (Bool-cases (is_neg bytes || ltb b.max (to_ℕ bytes + b.used))) [
  | inl e ↦ inl (ground arith)
  | inr e ↦ inr (ground arith, ground arith, ground arith)
]
