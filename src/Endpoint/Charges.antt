-- ===== src/Endpoint/Charges.antt =====
-- endpoint.go and session.go: the byte charges of one session. A session has a ledger for ordinary
-- traffic and one reserved for replies in each direction; the endpoint has one for all sessions. A
-- ledger may be nil. A panic of a ledger is `none`.
pub mod Ledger
pub mod Sessions
pub mod Accounting
pub mod Limits
mod Tests
use sgsp.Common.{
  ℕ, zero, suc, ◌+◌, ◌-◌, ◌*◌, leb, not, if◌then◌else◌, Bool, true, false, Option, none, some,
}
use sgsp.Common.Int.{ℤ, pos, is_neg, to_ℕ, to_u64, add_int, sub_int, less, wrap_int}
use sgsp.Runtime.Budget.{Budget, acquire, release}

infixl 5 ◌>>=◌
abbrev pub ◌>>=◌ {ℓ κ} : {A : Type ℓ} {B : Type κ} → Option A → (A → Option B) → Option B
none >>= f = none
some a >>= f = f a

-- directionalBudgetLimits: the ordinary and the reply capacity of a direction.
unfoldable pub directional_budget_limits : ℤ → ℤ → ℤ × ℤ
directional_budget_limits queue_bytes message_bytes =
    let reserve = add_int message_bytes 32 in
    if not (less queue_bytes (wrap_int (2 * to_u64 reserve)))
    then (sub_int queue_bytes reserve, reserve)
    else (queue_bytes, pos 0)

pub record Ledgers : Type 0 where
  pub ordinary : Option Budget
  pub reply : Option Budget
  pub application : Option Budget

-- Which of the direction's ledgers was used.
pub data Side : Type 0 where
  from_ordinary from_reply : Side

-- The closure that releases a charge, with the state of its sync.Once.
pub record Charge : Type 0 where
  pub side : Side
  pub bytes : ℕ
  pub done : Bool

-- `budget == nil || budget.Acquire(n)`
unfoldable pub acquire? : Option Budget → ℕ → Option Budget × Bool
acquire? none n = (none, true)
acquire? (some b) n = let (b', admitted) = acquire b (pos n) in (some b', admitted)

-- `if budget != nil { budget.Release(n) }`
unfoldable pub release? : Option Budget → ℕ → Option (Option Budget)
release? none n = some none
release? (some b) n = do b' ← release b (pos n); some (some b')

abbrev pub side_ledger : Side → Ledgers → Option Budget
side_ledger from_ordinary l = l.ordinary
side_ledger from_reply l = l.reply

abbrev pub with_side : Side → Ledgers → Option Budget → Ledgers
with_side from_ordinary l b = record l { ordinary = b }
with_side from_reply l b = record l { reply = b }

-- The part that both reserve functions share, once the direction's ledger was charged: the
-- endpoint's ledger, or the way back.
pub reserve_application : Ledgers → Side → ℕ → Option (Ledgers × Option Charge)
reserve_application l side n =
    let (application, admitted) = acquire? l.application n in
    if admitted
    then some (
      record l { application = application },
      some (record { side = side; bytes = n; done = false }),
    )
    else do direction ← release? (side_ledger side l) n; some (with_side side l direction, none)

-- reserveDirectionalBytes; no charge is ErrBackpressure.
pub reserve_directional_bytes : Ledgers → ℤ → Option (Ledgers × Option Charge)
reserve_directional_bytes l bytes =
    if is_neg bytes
    then some (l, none)
    else let n = to_ℕ bytes in
      let (ordinary, admitted) = acquire? l.ordinary n in
      if admitted
      then reserve_application (record l { ordinary = ordinary }) from_ordinary n
      else some (l, none)

reserve_reply : Ledgers → ℕ → Option (Ledgers × Option Charge)
reserve_reply l n =
    let (reply, admitted) = acquire? l.reply n in
    if admitted
    then reserve_application (record l { reply = reply }) from_reply n
    else some (l, none)

-- A ledger for ordinary traffic that is nil or full sends the charge to the reply reserve.
reserve_ordinary_first : Option Budget → Ledgers → ℕ → Option (Ledgers × Option Charge)
unfolding reserve_reply
reserve_ordinary_first none l n = reserve_reply l n
reserve_ordinary_first (some b) l n =
    let (b', admitted) = acquire b (pos n) in
    if admitted
    then reserve_application (record l { ordinary = some b' }) from_ordinary n
    else reserve_reply l n

-- reserveReplyDirectionalBytes
pub reserve_reply_directional_bytes : Ledgers → ℤ → Option (Ledgers × Option Charge)
unfolding reserve_ordinary_first
reserve_reply_directional_bytes l bytes =
    if is_neg bytes then some (l, none) else reserve_ordinary_first l.ordinary l (to_ℕ bytes)

-- The release closure.
unfoldable pub release_charge : Ledgers → Charge → Option (Ledgers × Charge)
release_charge l c = if c.done then some (l, c) else do
  application ← release? l.application c.bytes
  direction ← release? (side_ledger c.side l) c.bytes
  some (
    with_side c.side (record l { application = application }) direction,
    record c { done = true },
  )
