-- ===== src/Endpoint/Server/Terminals.antt =====
-- endpoint.go: what the cache of terminal codes answers.
pub mod Kept
pub mod Removals
pub mod Answers
use sgsp.Common.{
  ℕ, ◌+◌, ◌<◌, ◌≡◌, refl, ◌∙◌, inl, inr, arith, ltb, List, [], ◌∷◌, if◌then◌else◌, true, Bool-cases,
  Option-cases, none, some,
}
use sgsp.Common.Table.{lookup, assign_key, lookup-assign_key, lookup-delete_key, Decides}
use sgsp.Placement.Types.{String, same_text}
use sgsp.Endpoint.Session.{Code, session_expired, session_not_found}
use sgsp.Endpoint.Server.{
  Server, Terminal, same_id, keep_live, make_room, expire_terminals, schedule_terminal_expiry,
  terminal_lifetime, terminal_cache_capacity, is_session_expired, record_terminal, lookup_session,
}
use sgsp.Endpoint.Server.Admission.{
  Removed, group_at, is_session, leave_group, delete_session, remove_session,
}

pub ids-Decides : Decides same_id
ids-Decides = record { equal = λ a b h. ground arith; reflexive = λ a. ground arith }

-- A live entry that is found stays, since the entries of its key that come first are the ones found.
pub lookup-keep_live :
    (now id : ℕ) (t : Terminal) (ts : List (ℕ × Terminal))
    → lookup same_id id ts ≡ some t
    → now < t.expires
    → lookup same_id id (keep_live now ts) ≡ some t
unfolding lookup
lookup-keep_live now id t [] e l = absurd (ground arith)
lookup-keep_live now id t ((j, u) ∷ ts) e l = elim (Bool-cases (same_id j id)) [
  | inl q ↦
      let same : u ≡ t = ground arith in
      let live : ltb now u.expires ≡ true = rw same (ground arith) in rw (live, q, same) refl
  | inr q ↦
      let rest = lookup-keep_live now id t ts (rw q at e) l in
      elim (Bool-cases (ltb now u.expires)) [ inl v ↦ rw (v, q) rest | inr v ↦ rw v rest ]
]

-- What is answered for a session with that code.
abbrev pub answer_of : Code → Code
answer_of code = if is_session_expired code then session_expired else session_not_found

-- The session is gone and its code is in the cache.
abbrev pub IsCached : ℕ → Terminal → Server → Type 0
IsCached id t s = (lookup same_id id s.sessions ≡ none) × (lookup same_id id s.terminals ≡ some t)

pub lookup_session-IsCached :
    (later at_later id : ℕ) (s : Server) (t : Terminal)
    → IsCached id t s
    → later < t.expires
    → ((lookup_session later at_later id s).1 ≡ none)
      × ((lookup_session later at_later id s).2 ≡ answer_of t.code)
unfolding lookup_session expire_terminals schedule_terminal_expiry
lookup_session-IsCached later at_later id s t (e, f) l =
    let live = lookup-keep_live later id t s.terminals f l in
    elim (Bool-cases (is_session_expired t.code)) [
      | inl c ↦ (ground arith, ground arith)
      | inr c ↦ (ground arith, ground arith)
    ]

pub expire_terminals-IsCached :
    (now at id : ℕ) (s : Server) (t : Terminal)
    → IsCached id t s
    → now < t.expires
    → IsCached id t (expire_terminals now at s)
unfolding expire_terminals schedule_terminal_expiry
expire_terminals-IsCached now at id s t (e, f) l = (e, lookup-keep_live now id t s.terminals f l)

record_terminal-IsCached :
    (now at at' id : ℕ) (code : Code) (s : Server)
    → lookup same_id id s.sessions ≡ none
    → IsCached id
        (record { code = code; expires = now + terminal_lifetime s })
        (record_terminal now at at' id code s)
unfolding record_terminal expire_terminals schedule_terminal_expiry
record_terminal-IsCached now at at' id code s e =
    let terminal : Terminal = record { code = code; expires = now + terminal_lifetime s } in
    let kept = make_room (terminal_cache_capacity s) id (keep_live now s.terminals) in
    (e, lookup-assign_key same_id ids-Decides id id terminal kept ∙ ground arith)

pub leave_group-tables :
    (key : String) (session : ℕ) (s : Server)
    → ((leave_group key session s).sessions ≡ s.sessions)
      × ((leave_group key session s).terminals ≡ s.terminals)
      × (terminal_lifetime (leave_group key session s) ≡ terminal_lifetime s)
      × (terminal_cache_capacity (leave_group key session s) ≡ terminal_cache_capacity s)
unfolding leave_group terminal_lifetime terminal_cache_capacity
leave_group-tables key session s = elim (Bool-cases (same_text key "")) [
  | inl e ↦ rw (e, leave_group) (refl, refl, refl, refl)
  | inr e ↦ elim (Option-cases (group_at s key)) [
    | inl f ↦ rw (e, f, leave_group) (refl, refl, refl, refl)
    | inr (g, f) ↦ rw (e, f, leave_group) (refl, refl, refl, refl)
  ]
]

delete_session-IsCached :
    (now at at' : ℕ) (r : Removed) (s : Server)
    → r.is_closed ≡ true
    → IsCached r.id
        (record { code = r.code; expires = now + terminal_lifetime s })
        (delete_session now at at' r s)
unfolding delete_session terminal_lifetime
delete_session-IsCached now at at' r s c = rw c (
    record_terminal-IsCached now at at' r.id r.code _
      (lookup-delete_key same_id ids-Decides r.id r.id s.sessions ∙ ground arith))

pub remove_session-IsCached :
    (now at at' : ℕ) (r : Removed) (s : Server)
    → lookup same_id r.id s.sessions ≡ some r.session
    → r.is_closed ≡ true
    → IsCached r.id
        (record { code = r.code; expires = now + terminal_lifetime s })
        (remove_session now at at' r s)
unfolding remove_session
remove_session-IsCached now at at' r s e c =
    let left = leave_group r.group_key r.session s in
    let (f, _, t, _) = leave_group-tables r.group_key r.session s in
    let own : is_session r.session (lookup same_id r.id left.sessions) ≡ true =
      rw (f, e) (ground arith) in
    rw own (rw t at (delete_session-IsCached now at at' r left c))
