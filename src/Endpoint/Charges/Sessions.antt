-- ===== src/Endpoint/Charges/Sessions.antt =====
-- The charges of a session beside its ledgers, and the steps that sessions make.
use sgsp.Common.{ℕ, ◌+◌, List, ◌∷◌, get_elem?, set, ltb, if◌then◌else◌, Option, none, some}
use sgsp.Common.Int.{ℤ}
use sgsp.Runtime.Budget.{Budget}
use sgsp.Endpoint.Charges.{
  Ledgers, from_ordinary, from_reply, Charge, reserve_directional_bytes,
  reserve_reply_directional_bytes, release_charge, ◌>>=◌,
}
use sgsp.Endpoint.Charges.Ledger.{Holds, AtLeast, held, held_all}

pub record System : Type 0 where
  pub ledgers : Ledgers
  pub charges : List Charge

-- With the capacities of the two ledgers.
pub record IsSound (co cr : ℕ) (s : System) : Type 0 where
  pub ordinary : Holds co s.ledgers.ordinary (held from_ordinary s.charges)
  pub reply : Holds cr s.ledgers.reply (held from_reply s.charges)
  pub application : AtLeast s.ledgers.application (held_all s.charges)

-- What a session does, and what the others do to the endpoint's ledger: they hold `n` bytes of it
-- from now on, if there is room.
pub data Call : Type 0 where
  reserves : ℤ → Call
  reserves_reply : ℤ → Call
  releases : ℕ → Call
  others_hold : ℕ → Call

abbrev pub keep : List Charge → Ledgers × Option Charge → System
keep cs (l, none) = record { ledgers = l; charges = cs }
keep cs (l, some c) = record { ledgers = l; charges = c ∷ cs }

unfoldable pub others : Option Budget → ℕ → ℕ → Option Budget
others none mine n = none
others (some b) mine n = some (if ltb b.max (mine + n) then b else record b { used = mine + n })

-- A charge that nobody made changes nothing.
unfoldable pub release_at : System → ℕ → Option Charge → Option System
release_at s i none = some s
release_at s i (some c) = do
  (l, c') ← release_charge s.ledgers c
  some (record { ledgers = l; charges = set s.charges i c' })

-- `none` is a panic.
unfoldable pub step : System → Call → Option System
unfolding others release_at
step s (reserves n) = do r ← reserve_directional_bytes s.ledgers n; some (keep s.charges r)
step s (reserves_reply n) = do
  r ← reserve_reply_directional_bytes s.ledgers n
  some (keep s.charges r)
step s (releases i) = release_at s i (get_elem? s.charges i)
step s (others_hold n) = some (record s {
  ledgers = record (s.ledgers) {
    application = others s.ledgers.application (held_all s.charges) n;
  };
})

-- The result of a step: no panic, and sound again.
abbrev pub IsFine : ℕ → ℕ → Option System → Type 0
IsFine co cr none = ⊥
IsFine co cr (some s) = IsSound co cr s
