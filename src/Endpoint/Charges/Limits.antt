-- ===== src/Endpoint/Charges/Limits.antt =====
-- The ledgers that a session starts with, and any run from there.
use sgsp.Common.{
  ℕ, ◌+◌, ◌-◌, ◌*◌, ◌^◌, ◌≤◌, ◌<◌, ◌≡◌, refl, arith, List, [], ◌∷◌, ◌||◌, if◌then◌else◌, ◌⊎◌, inl,
  inr, true, Bool-cases, leb, ltb, Option, none, some,
}
use sgsp.Common.Int.{ℤ, pos, negsuc, is_neg, sub_int}
use sgsp.Runtime.Budget.{Budget, new_budget}
use sgsp.Endpoint.Charges.{Ledgers, from_ordinary, from_reply, directional_budget_limits, ◌>>=◌}
use sgsp.Endpoint.Charges.Ledger.{AtLeast, held, held_all, Holds-le}
use sgsp.Endpoint.Charges.Sessions.{System, IsSound, Call, step, IsFine}
use sgsp.Endpoint.Charges.Accounting.{step-IsFine}

-- The ledgers of one direction that newSessionRecord makes from the session's limits: NewBudget panics
-- on a negative capacity.
unfoldable pub fresh_ledgers : ℤ → ℤ → Option Budget → Option Ledgers
fresh_ledgers queue_bytes message_bytes application =
    let (ordinary_bytes, reply_bytes) = directional_budget_limits queue_bytes message_bytes in
    do
      ordinary ← new_budget ordinary_bytes
      reply ← new_budget reply_bytes
      some (record { ordinary = some ordinary; reply = some reply; application = application })

pub run : Option System → List Call → Option System
run s [] = s
run s (c ∷ cs) = run (s >>= λ s'. step s' c) cs

module _ (co cr : ℕ) where
  run-IsFine : (s : Option System) (cs : List Call) → IsFine co cr s → IsFine co cr (run s cs)
  unfolding run
  run-IsFine s [] v = v
  run-IsFine none (c ∷ cs) v = absurd v
  run-IsFine (some s) (c ∷ cs) v = run-IsFine (step s c) cs (step-IsFine co cr s c v)

-- What the capacities of a direction are: the fallback, the queue's bytes without the reserve, or a
-- negative one, which only messages make whose doubled size wraps round.
IsMade : ℕ → ℕ → ℤ × ℤ → Type 0
IsMade q m (ordinary, reply) =
    ((2 ^ 62 - 32 ≤ m) × (is_neg ordinary || is_neg reply ≡ true))
    ⊎ ((co cr : ℕ) × (ordinary ≡ pos co) × (reply ≡ pos cr) × (co + cr ≡ q))

split_between : (q m r : ℕ) → r ≤ q → IsMade q m (pos (q - r), pos r)
unfolding IsMade
split_between q m r h = inr (q - r, r, refl, refl, omega arith)

made_large :
    (q m : ℕ)
    → q < 2 ^ 63
    → m + 32 < 2 ^ 63
    → 2 ^ 62 - 32 ≤ m
    → directional_budget_limits (pos q) (pos m) ≡ (sub_int (pos q) (pos (m + 32)), pos (m + 32))
unfolding directional_budget_limits
made_large q m h k l = ground arith

made_small :
    (q m : ℕ)
    → m < 2 ^ 62 - 32
    → directional_budget_limits (pos q) (pos m)
      ≡ (if leb (2 * (m + 32)) q then (pos (q - (m + 32)), pos (m + 32)) else (pos q, pos 0))
unfolding directional_budget_limits
made_small q m l = ground arith

made_huge :
    (q m : ℕ)
    → m < 2 ^ 63
    → 2 ^ 63 ≤ m + 32
    → ((directional_budget_limits (pos q) (pos m)).1 ≡ negsuc (2 ^ 64 - 1 - (m + 32)))
      ⊎ (directional_budget_limits (pos q) (pos m) ≡ (pos q, pos 0))
unfolding directional_budget_limits
made_huge q m k l = elim (Bool-cases (ltb q (2 * (m + 32) - 2 ^ 64))) [
  | inl e ↦ inr (ground arith)
  | inr e ↦ inl (ground arith)
]

limits-IsMade :
    (q m : ℕ) → q < 2 ^ 63 → m < 2 ^ 63 → IsMade q m (directional_budget_limits (pos q) (pos m))
unfolding IsMade
limits-IsMade q m h k = elim (Bool-cases (ltb m (2 ^ 62 - 32))) [
  | inl small ↦ rw (made_small q m (ground arith)) (elim (Bool-cases (leb (2 * (m + 32)) q)) [
    | inl e ↦ rw e (split_between q m (m + 32) (ground arith))
    | inr e ↦ rw e (inr (q, 0, refl, refl, omega arith))
  ])
  | inr large ↦ elim (Bool-cases (ltb (m + 32) (2 ^ 63))) [
    | inl e ↦
        rw (made_large q m h (ground arith) (ground arith)) (elim (Bool-cases (leb (m + 32) q)) [
          | inl f ↦ rw f (split_between q m (m + 32) (ground arith))
          | inr f ↦ inl (ground arith, rw f refl)
        ])
    | inr e ↦ elim (made_huge q m k (ground arith)) [
      | inl f ↦ inl (
        ground arith,
        elim (Bool-cases (is_neg (directional_budget_limits (pos q) (pos m)).0)) [
          | inl e ↦ rw e refl
          | inr e ↦ rw (e, f) refl
        ],
      )
      | inr f ↦ rw f (inr (q, 0, refl, refl, omega arith))
    ]
  ]
]

IsFine-some :
    (co cr : ℕ) (s : Option System)
    → IsFine co cr s
    → (s' : System) × (s ≡ some s') × IsSound co cr s'
IsFine-some co cr none v = absurd v
IsFine-some co cr (some s) v = (s, refl, v)

-- A new session, which holds no charges.
unfoldable pub start : ℤ → ℤ → Option Budget → Option System
start queue_bytes message_bytes application = do
  ledgers ← fresh_ledgers queue_bytes message_bytes application
  some (record { ledgers = ledgers; charges = [] })

start-cases :
    (q m : ℕ) (application : Option Budget)
    → q < 2 ^ 63
    → m < 2 ^ 63
    → AtLeast application 0
    → ((2 ^ 62 - 32 ≤ m) × (start (pos q) (pos m) application ≡ none))
      ⊎ ((co cr : ℕ) × (co + cr ≡ q) × IsFine co cr (start (pos q) (pos m) application))
unfolding start fresh_ledgers new_budget IsMade
start-cases q m application h k a = elim (limits-IsMade q m h k) [
  | inl (l, neg) ↦ elim (Bool-cases (is_neg (directional_budget_limits (pos q) (pos m)).0)) [
    | inl e ↦ inl (l, rw e refl)
    | inr e ↦ inl (l, rw (e, rw e at neg) refl)
  ]
  | inr (co, cr, e, f, sum) ↦ inr (
    co,
    cr,
    sum,
    rw (e, f)
        (record {
          ordinary = (refl, omega arith, refl);
          reply = (refl, omega arith, refl);
          application = a;
        }),
  )
]

-- Whatever limits that are not negative a session gets: the making of its ledgers panics, and that only
-- if twice its message size, with the 32 bytes of a header, exceeds the largest int; or, whatever it
-- then reserves and releases, no ledger panics, and the charges that it holds on the ordinary ledger
-- and on the reply reserve stay within its limit of queue bytes, and all of them within what the
-- endpoint's ledger counts.
pub run-within_queue_bytes :
    (q m : ℕ) (application : Option Budget) (cs : List Call)
    → q < 2 ^ 63
    → m < 2 ^ 63
    → AtLeast application 0
    → ((2 ^ 62 - 32 ≤ m) × (start (pos q) (pos m) application ≡ none))
      ⊎ ((s : System) × (run (start (pos q) (pos m) application) cs ≡ some s)
          × (held from_ordinary s.charges + held from_reply s.charges ≤ q)
          × AtLeast s.ledgers.application (held_all s.charges))
run-within_queue_bytes q m application cs h k a = elim (start-cases q m application h k a) [
  | inl e ↦ inl e
  | inr (co, cr, sum, v) ↦
      let (s, e, w) = IsFine-some co cr _ (run-IsFine co cr _ cs v) in
      inr (
        s,
        e,
        omega (
          arith,
          sum,
          Holds-le co s.ledgers.ordinary _ w.ordinary,
          Holds-le cr s.ledgers.reply _ w.reply,
        ),
        w.application,
      )
]
