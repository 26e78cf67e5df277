-- ===== src/Endpoint/Server/Terminals/Answers.antt =====
-- endpoint.go: what is answered for a session that was removed, while its entry is in the terminal cache.
use sgsp.Common.{
  ℕ, ◌+◌, ◌<◌, ◌≡◌, length, if◌then◌else◌, Bool, true, false, Bool-cases, Option-cases, inl, inr,
  Option, none, some,
}
use sgsp.Common.Table.{lookup}
use sgsp.Placement.Types.{String}
use sgsp.Endpoint.Session.{session_expired, session_not_found}
use sgsp.Endpoint.Server.{
  Server, Terminal, same_id, expire_terminals, terminal_lifetime, terminal_cache_capacity,
  is_session_expired, lookup_session,
}
use sgsp.Endpoint.Server.Admission.{
  Removed, is_session, admit, remove_session, begin_close_group, retain_closed_group, forget_group,
}
use sgsp.Endpoint.Server.Terminals.{
  IsCached, lookup_session-IsCached, expire_terminals-IsCached, remove_session-IsCached,
}
use sgsp.Endpoint.Server.Terminals.Kept.{
  admit-IsCached, begin_close_group-IsCached, retain_closed_group-IsCached, forget_group-IsCached,
}
use sgsp.Endpoint.Server.Terminals.Removals.{remove_session-keeps}

-- A section before the clock reads `e`: an admission has drawn another identifier than `id`, and a
-- removal finds the cache below its capacity.
pub data Keeps (id e : ℕ) (s : Server) : Server → Type 0 where
  admits :
      (closes_groups : Bool) (key : String) (random_id : Option ℕ) (session : ℕ)
      → is_session id random_id ≡ false
      → Keeps id e s (admit closes_groups key random_id session s).0
  removes :
      (now at at' : ℕ) (r : Removed)
      → now < e
      → length s.terminals < terminal_cache_capacity s
      → Keeps id e s (remove_session now at at' r s)
  looks_up : (now at i : ℕ) → now < e → Keeps id e s (lookup_session now at i s).0
  expires : (now at : ℕ) → now < e → Keeps id e s (expire_terminals now at s)
  begins_closing :
      (closes_groups : Bool) (key : String) → Keeps id e s (begin_close_group closes_groups key s).0
  retains : (key : String) (g : ℕ) → Keeps id e s (retain_closed_group key g s)
  forgets : (key : String) (g : ℕ) → Keeps id e s (forget_group key g s)
  drains : Keeps id e s (record s { draining = true })

pub data KeepsAll (id e : ℕ) (s : Server) : Server → Type 0 where
  start : KeepsAll id e s s
  later : {t u : Server} → KeepsAll id e s t → Keeps id e t u → KeepsAll id e s u

lookup_session-keeps :
    (now at i id : ℕ) (t : Terminal) (s : Server)
    → IsCached id t s
    → now < t.expires
    → IsCached id t (lookup_session now at i s).0
unfolding lookup_session
lookup_session-keeps now at i id t s c l =
    let expired = expire_terminals-IsCached now at id s t c l in
    elim (Option-cases (lookup same_id i (expire_terminals now at s).sessions)) [
      | inr (session, e) ↦ rw (e, lookup_session) expired
      | inl e ↦ elim (Option-cases (lookup same_id i (expire_terminals now at s).terminals)) [
        | inl f ↦ rw (e, f, lookup_session) expired
        | inr (terminal, f) ↦ elim (Bool-cases (is_session_expired terminal.code)) [
          | inl g ↦ rw (e, f, g, lookup_session) expired
          | inr g ↦ rw (e, f, g, lookup_session) expired
        ]
      ]
    ]

Keeps-IsCached :
    (id : ℕ) (t : Terminal) {s u : Server}
    → Keeps id t.expires s u
    → IsCached id t s
    → IsCached id t u
Keeps-IsCached id t {s} (admits closes_groups key random_id session other) c =
    admit-IsCached closes_groups key random_id session id t s other c
Keeps-IsCached id t {s} (removes now at at' r l room) c =
    remove_session-keeps now at at' id r t s c l room
Keeps-IsCached id t {s} (looks_up now at i l) c = lookup_session-keeps now at i id t s c l
Keeps-IsCached id t {s} (expires now at l) c = expire_terminals-IsCached now at id s t c l
Keeps-IsCached id t {s} (begins_closing closes_groups key) c =
    begin_close_group-IsCached closes_groups key id t s c
Keeps-IsCached id t {s} (retains key g) c = retain_closed_group-IsCached key g id t s c
Keeps-IsCached id t {s} (forgets key g) c = forget_group-IsCached key g id t s c
Keeps-IsCached id t drains c = c

KeepsAll-IsCached :
    (id : ℕ) (t : Terminal) {s u : Server}
    → KeepsAll id t.expires s u
    → IsCached id t s
    → IsCached id t u
KeepsAll-IsCached id t start c = c
KeepsAll-IsCached id t (later r k) c = Keeps-IsCached id t k (KeepsAll-IsCached id t r c)

-- Once a closed session was removed, and after any later sections of the server that read the clock
-- before its lifetime in the cache has passed, of which no admission draws its identifier and each
-- removal finds the cache below its capacity, a lookup before that time answers from the cache: that
-- the session expired when that is its code, and else that it was not found.
pub lookup_session-remove_session :
    (now at at' finally at_finally : ℕ) (r : Removed) (s u : Server)
    → lookup same_id r.id s.sessions ≡ some r.session
    → r.is_closed ≡ true
    → KeepsAll r.id (now + terminal_lifetime s) (remove_session now at at' r s) u
    → finally < now + terminal_lifetime s
    → ((lookup_session finally at_finally r.id u).1 ≡ none)
      × ((lookup_session finally at_finally r.id u).2
          ≡ (if is_session_expired r.code then session_expired else session_not_found))
lookup_session-remove_session now at at' finally at_finally r s u e c run l =
    let terminal : Terminal = record { code = r.code; expires = now + terminal_lifetime s } in
    lookup_session-IsCached finally at_finally r.id u terminal
      (KeepsAll-IsCached r.id terminal run (remove_session-IsCached now at at' r s e c)) l
