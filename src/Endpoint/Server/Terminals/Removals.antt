-- ===== src/Endpoint/Server/Terminals/Removals.antt =====
-- endpoint.go: the removal of another session leaves an entry of the terminal cache in its place, while
-- the cache has room.
use sgsp.Common.{
  ℕ, ◌+◌, ◌<◌, ◌≤◌, ◌≡◌, sym, subst, ◌∙◌, inl, inr, arith, leb, ◌&&◌, List, [], ◌∷◌, length,
  if◌then◌else◌, Bool, true, false, Bool-cases, none, some,
}
use sgsp.Common.Table.{lookup, assign_key, delete_key, lookup-assign_key, lookup-delete_key}
use sgsp.Endpoint.Server.{
  Server, Terminal, same_id, keep_live, make_room, is_none, delete_oldest, expire_terminals,
  schedule_terminal_expiry, terminal_lifetime, terminal_cache_capacity, record_terminal,
}
use sgsp.Endpoint.Server.Admission.{
  Removed, is_session, leave_group, delete_session, remove_session,
}
use sgsp.Endpoint.Server.Terminals.{IsCached, ids-Decides, lookup-keep_live, leave_group-tables}

length-keep_live : (now : ℕ) (ts : List (ℕ × Terminal)) → length (keep_live now ts) ≤ length ts
length-keep_live now [] = omega arith
length-keep_live now ((id, t) ∷ ts) = ground (arith, length-keep_live now ts)

with_room :
    (missing full : Bool) (j id : ℕ) (new t : Terminal) (ts : List (ℕ × Terminal))
    → full ≡ false
    → same_id j id ≡ false
    → lookup same_id id ts ≡ some t
    → lookup same_id id
        (assign_key same_id j new (if missing && full then delete_oldest ts else ts))
      ≡ some t
with_room missing full j id new t ts fits other live =
    let whole : (if missing && full then delete_oldest ts else ts) ≡ ts = ground arith in
    rw whole (lookup-assign_key same_id ids-Decides id j new ts ∙ (rw other live))

-- With room, the code of another session goes in beside the entry.
record_other-IsCached :
    (now at at' id : ℕ) (r : Removed) (s : Server) (t : Terminal)
    → IsCached id t s
    → now < t.expires
    → length s.terminals < terminal_cache_capacity s
    → same_id r.id id ≡ false
    → IsCached id t (record_terminal now at at' r.id r.code s)
unfolding record_terminal expire_terminals schedule_terminal_expiry make_room
record_other-IsCached now at at' id r s t (e, f) l room other =
    let live = lookup-keep_live now id t s.terminals f l in
    let fits : leb (terminal_cache_capacity s) (length (keep_live now s.terminals)) ≡ false =
      ground (arith, length-keep_live now s.terminals) in
    let new : Terminal = record { code = r.code; expires = now + terminal_lifetime s } in
    (
      e,
      with_room (is_none (lookup same_id r.id (keep_live now s.terminals))) _ r.id id new t
          (keep_live now s.terminals) fits other live,
    )

-- A session that is in the table is not the one whose entry it is.
other_id :
    (r : Removed) (id : ℕ) (s : Server)
    → lookup same_id id s.sessions ≡ none
    → is_session r.session (lookup same_id r.id s.sessions) ≡ true
    → same_id r.id id ≡ false
other_id r id s e k = elim (Bool-cases (same_id r.id id)) [
  | inr q ↦ q
  | inl q ↦ absurd (
      let here : lookup same_id r.id s.sessions ≡ none = rw (ids-Decides.equal r.id id q) e in
      cc (rw here at k))
]

delete_session-keeps :
    (now at at' id : ℕ) (r : Removed) (t : Terminal) (s : Server)
    → IsCached id t s
    → now < t.expires
    → length s.terminals < terminal_cache_capacity s
    → same_id r.id id ≡ false
    → IsCached id t (delete_session now at at' r s)
unfolding delete_session terminal_cache_capacity
delete_session-keeps now at at' id r t s (e, f) l room other =
    let gone : lookup same_id id (delete_key same_id r.id s.sessions) ≡ none =
      lookup-delete_key same_id ids-Decides id r.id s.sessions ∙ (rw other e) in
    elim (Bool-cases r.is_closed) [
      | inl c ↦ rw c (
          record_other-IsCached now at at' id r
            (record s { sessions = delete_key same_id r.id s.sessions }) t (gone, f) l room other)
      | inr c ↦ rw c (gone, f)
    ]

pub remove_session-keeps :
    (now at at' id : ℕ) (r : Removed) (t : Terminal) (s : Server)
    → IsCached id t s
    → now < t.expires
    → length s.terminals < terminal_cache_capacity s
    → IsCached id t (remove_session now at at' r s)
unfolding remove_session
remove_session-keeps now at at' id r t s (e, f) l room =
    let left = leave_group r.group_key r.session s in
    let (g, h, _, capacity) = leave_group-tables r.group_key r.session s in
    let same : IsCached id t left = (rw g e, rw h f) in
    elim (Bool-cases (is_session r.session (lookup same_id r.id left.sessions))) [
      | inr k ↦ rw k same
      | inl k ↦ rw k (
          delete_session-keeps now at at' id r t left same l
            (subst (λ (n : ℕ). length left.terminals < n) (sym capacity)
              (subst (λ (ts : List (ℕ × Terminal)). length ts < terminal_cache_capacity s) (sym h)
                room))
            (other_id r id left same.0 k))
    ]
