-- ===== src/Endpoint/Budgets/Accepted.antt =====
-- api.go: what accepted limits give the queues and the ledgers.
use sgsp.Common.{
  ◌+◌, ◌-◌, ◌*◌, ◌≤◌, ◌<◌, ◌^◌, ◌≡◌, refl, sym, subst, arith, inl, inr, Bool-cases, true, false,
  none, some,
}
use sgsp.Common.Int.{ℤ, pos, negsuc, to_ℕ, less}
use mathlib.Core.Option.{some-injective}
use sgsp.Endpoint.Charges.{directional_budget_limits}
use sgsp.Endpoint.Budgets.{
  Limits, default_limits, ints, durations, is_positive, all_of, is_unset, two_messages,
  fails_basics, fails_queue, fails_windows, normalize_limits,
}

-- Two of the largest messages, with their headers, fit the queue of a direction, so that it keeps a
-- reserve for a reply; there are sessions and groups.
pub record IsUsable (l : Limits) : Type 0 where
  pub two_fit : 2 * (to_ℕ l.message_bytes + 32) ≤ to_ℕ l.queue_bytes
  pub two_items : 2 ≤ to_ℕ l.queue_messages
  pub some_session : 0 < to_ℕ l.max_sessions
  pub some_group : 0 < to_ℕ l.max_active_groups
  pub reserves :
      directional_budget_limits l.queue_bytes l.message_bytes
      ≡ (pos (to_ℕ l.queue_bytes - (to_ℕ l.message_bytes + 32)), pos (to_ℕ l.message_bytes + 32))

two_fit_lem :
    (q m : ℤ)
    → is_positive q ≡ true
    → is_positive m ≡ true
    → less q (two_messages m) ≡ false
    → to_ℕ m < 2 ^ 62 - 32
    → 2 * (to_ℕ m + 32) ≤ to_ℕ q
two_fit_lem (pos q) (pos m) p r h l = ground arith
two_fit_lem (pos q) (negsuc m) p r h l = cc
two_fit_lem (negsuc q) m p r h l = cc

at_least_two : (i : ℤ) → less i (pos 2) ≡ false → 2 ≤ to_ℕ i
at_least_two (pos n) h = ground arith
at_least_two (negsuc n) h = cc

above_zero : (i : ℤ) → is_positive i ≡ true → 0 < to_ℕ i
above_zero (pos n) h = ground arith
above_zero (negsuc n) h = cc

reserve_kept :
    (q m : ℤ)
    → is_positive q ≡ true
    → is_positive m ≡ true
    → to_ℕ m < 2 ^ 62 - 32
    → 2 * (to_ℕ m + 32) ≤ to_ℕ q
    → directional_budget_limits q m ≡ (pos (to_ℕ q - (to_ℕ m + 32)), pos (to_ℕ m + 32))
unfolding directional_budget_limits
reserve_kept (pos q) (pos m) p r l h = ground arith
reserve_kept (pos q) (negsuc m) p r l h = cc
reserve_kept (negsuc q) m p r l h = cc

none-some {ℓ} : {A : Type ℓ} {x : A} → none ≡ some x → ⊥
none-some h = cc

checked-IsUsable :
    (l : Limits)
    → all_of is_positive (ints l) ≡ true
    → fails_queue l ≡ false
    → to_ℕ l.message_bytes < 2 ^ 62 - 32
    → IsUsable l
checked-IsUsable l p f m =
    let fit =
      two_fit_lem l.queue_bytes l.message_bytes (ground arith) (ground arith) (ground arith) m in
    record {
      two_fit = fit;
      two_items = at_least_two l.queue_messages (ground arith);
      some_session = above_zero l.max_sessions (ground arith);
      some_group = above_zero l.max_active_groups (ground arith);
      reserves = reserve_kept l.queue_bytes l.message_bytes (ground arith) (ground arith) m fit;
    }

-- Limits that are accepted, with a message size for which the sum does not wrap round, leave room for
-- two of the largest messages in a queue, so that each direction keeps a reserve for a reply, and let
-- in sessions and groups.
pub normalize_limits-IsUsable :
    (given l : Limits)
    → normalize_limits given ≡ some l
    → to_ℕ l.message_bytes < 2 ^ 62 - 32
    → IsUsable l
unfolding normalize_limits
normalize_limits-IsUsable given l h m = elim (Bool-cases (is_unset given)) [
  | inl u ↦
      let same : l ≡ default_limits = some-injective _ _ (rw u at (sym h)) in
      rw same (checked-IsUsable default_limits refl refl (omega arith))
  | inr u ↦ elim (Bool-cases (all_of is_positive (ints given))) [
    | inr p ↦ absurd (none-some (rw (u, p) at h))
    | inl p ↦ elim (Bool-cases (all_of is_positive (durations given))) [
      | inr d ↦ absurd (none-some (rw (u, p, d) at h))
      | inl d ↦ elim (Bool-cases (fails_basics given)) [
        | inl b ↦ absurd (none-some (rw (u, p, d, b) at h))
        | inr b ↦ elim (Bool-cases (fails_queue given)) [
          | inl q ↦ absurd (none-some (rw (u, p, d, b, q) at h))
          | inr q ↦ elim (Bool-cases (fails_windows given)) [
            | inl w ↦ absurd (none-some (rw (u, p, d, b, q, w) at h))
            | inr w ↦
                let same : given ≡ l = some-injective _ _ (rw (u, p, d, b, q, w) at h) in
                subst IsUsable same (
                  checked-IsUsable given p q
                    (subst (λ (x : Limits). to_ℕ x.message_bytes < 2 ^ 62 - 32) (sym same) m))
          ]
        ]
      ]
    ]
  ]
]
