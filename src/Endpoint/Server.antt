-- ===== src/Endpoint/Server.antt =====
-- endpoint.go: the tables of a server endpoint: its sessions, the cache of the terminal codes of those
-- that were removed, and its groups. A session and a group are shared objects: a session record is
-- named by a number, and a group by its place in the list of all that were made. A section of a mutex
-- is one step. Times and durations are numbers of nanoseconds; a reading of the clock is an argument.
pub mod Admission
pub mod Steps
pub mod Terminals
pub mod Bounds
pub mod Closure
mod Tests
use sgsp.Common.{
  ℕ, ◌+◌, ◌*◌, ◌-◌, ◌/◌, ◌^◌, ◌==◌, ltb, leb, List, [], ◌∷◌, ◌++◌, length, get_elem?, set,
  if◌then◌else◌, Bool, true, false, not, ◌&&◌, ◌||◌, Option, none, some,
}
use sgsp.Common.Int.{ℤ, is_neg, to_ℕ}
use sgsp.Common.Table.{lookup, assign_key, delete_key}
use sgsp.Placement.Types.{String, same_text}
use sgsp.Endpoint.Session.{
  Code, normal, session_expired, session_not_found, invalid_argument, resource_exhausted,
  server_draining, internal, group_closed,
}

-- A SessionID's 16 bytes are read as one number.
abbrev pub same_id : ℕ → ℕ → Bool
same_id a b = a == b

pub record Terminal : Type 0 where
  pub code : Code
  pub expires : ℕ

pub record Group : Type 0 where
  pub closed : Bool
  pub persisted : Bool
  pub sessions : List ℕ

pub record Server : Type 0 where
  pub max_sessions : ℕ
  pub max_active_groups : ℕ
  pub max_group_key_bytes : ℕ
  pub terminal_ttl : ℤ
  pub sessions : List (ℕ × ℕ)
  pub terminals : List (ℕ × Terminal)
  pub terminal_timer : Option ℕ
  pub made : List Group
  pub groups : List (String × ℕ)
  pub draining : Bool

abbrev max_int : ℕ
max_int = 2 ^ 63 - 1

unfoldable pub terminal_cache_capacity : Server → ℕ
terminal_cache_capacity s = if ltb (max_int / 2) s.max_sessions then max_int else 2 * s.max_sessions

-- `!terminal.expires.After(now)` goes.
abbrev pub keep_live : ℕ → List (ℕ × Terminal) → List (ℕ × Terminal)
keep_live now [] = []
keep_live now ((id, t) ∷ ts) =
    let rest = keep_live now ts in if ltb now t.expires then (id, t) ∷ rest else rest

-- `next.IsZero() || terminal.expires.Before(next)`
abbrev pub is_before : ℕ → Option ℕ → Bool
is_before e none = true
is_before e (some next) = ltb e next

abbrev pub next_expiry : Option ℕ → List (ℕ × Terminal) → Option ℕ
next_expiry next [] = next
next_expiry next ((id, t) ∷ ts) =
    next_expiry (if is_before t.expires next then some t.expires else next) ts

-- The timer's due time: a delay below zero counts as none.
unfoldable pub schedule_terminal_expiry : ℕ → Server → Server
schedule_terminal_expiry now s = record s {
  terminal_timer = elim (next_expiry none s.terminals) [
    | none ↦ none
    | some next ↦ some (now + (next - now))
  ];
}

unfoldable pub expire_terminals : ℕ → ℕ → Server → Server
expire_terminals now at s =
    schedule_terminal_expiry at (record s { terminals = keep_live now s.terminals })

-- The oldest entry, in the order of the list, which stands for Go's order of the map.
abbrev pub oldest_entry : Option (ℕ × ℕ) → List (ℕ × Terminal) → Option (ℕ × ℕ)
oldest_entry oldest [] = oldest
oldest_entry none ((id, t) ∷ ts) = oldest_entry (some (id, t.expires)) ts
oldest_entry (some (o, e)) ((id, t) ∷ ts) =
    oldest_entry (if ltb t.expires e then some (id, t.expires) else some (o, e)) ts

unfoldable pub delete_oldest : List (ℕ × Terminal) → List (ℕ × Terminal)
delete_oldest ts = elim (oldest_entry none ts) [
  | none ↦ ts
  | some (id, e) ↦ delete_key same_id id ts
]

abbrev pub default_terminal_ttl : ℕ
default_terminal_ttl = 30_000_000_000

unfoldable pub terminal_lifetime : Server → ℕ
terminal_lifetime s =
    if is_neg s.terminal_ttl || to_ℕ s.terminal_ttl == 0
    then default_terminal_ttl
    else to_ℕ s.terminal_ttl

abbrev pub is_none {ℓ} : {A : Type ℓ} → Option A → Bool
is_none none = true
is_none (some a) = false

-- The entries that stay when the cache takes one in for `id`.
unfoldable pub make_room : ℕ → ℕ → List (ℕ × Terminal) → List (ℕ × Terminal)
make_room capacity id ts =
    if is_none (lookup same_id id ts) && leb capacity (length ts) then delete_oldest ts else ts

-- recordTerminalLocked, given its three readings of the clock.
unfoldable pub record_terminal : ℕ → ℕ → ℕ → ℕ → Code → Server → Server
record_terminal now at at' id code s =
    let expired = expire_terminals now at s in
    let kept = make_room (terminal_cache_capacity s) id expired.terminals in
    let terminal : Terminal = record { code = code; expires = now + terminal_lifetime s } in
    schedule_terminal_expiry at'
      (record expired { terminals = assign_key same_id id terminal kept })

abbrev pub is_session_expired : Code → Bool
is_session_expired session_expired = true
is_session_expired _ = false

-- The session, or the code of the refusal.
unfoldable pub lookup_session : ℕ → ℕ → ℕ → Server → Server × Option ℕ × Code
lookup_session now at id s =
    let expired = expire_terminals now at s in
    elim (lookup same_id id expired.sessions) [
      | some session ↦ (expired, some session, normal)
      | none ↦ elim (lookup same_id id expired.terminals) [
        | none ↦ (expired, none, session_not_found)
        | some terminal ↦
            if is_session_expired terminal.code
            then (expired, none, session_expired)
            else (expired, none, session_not_found)
      ]
    ]
