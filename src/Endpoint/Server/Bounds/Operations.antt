-- ===== src/Endpoint/Server/Bounds/Operations.antt =====
-- endpoint.go: each section of the server endpoint keeps its tables within the limits.
use sgsp.Common.{
  ℕ, ◌<◌, ◌≡◌, refl, sym, subst, ◌⊎◌, inl, inr, arith, leb, List, [], ◌∷◌, ◌++◌, length, Bool,
  Bool-cases, Option-cases, Option, none, some,
}
use sgsp.Common.Table.{lookup, assign_key, delete_key, length-assign_key}
use sgsp.Placement.Types.{String, same_text}
use sgsp.Endpoint.Server.{
  Server, Group, same_id, terminal_cache_capacity, expire_terminals, lookup_session,
}
use sgsp.Endpoint.Server.Admission.{
  new_group, group_at, is_closed_group, is_session, join_group, Removed, admit, admit_session,
  find_group, remove_session, delete_session, leave_group,
}
use sgsp.Endpoint.Server.Bounds.{
  IsBounded, length-delete_key, expire_terminals-IsBounded, record_terminal-IsBounded,
}

pub lookup_session-expire :
    (now at id : ℕ) (s : Server) → (lookup_session now at id s).0 ≡ expire_terminals now at s
unfolding lookup_session
lookup_session-expire now at id s = ground arith

pub lookup_session-IsBounded :
    (now at id : ℕ) (s : Server) → IsBounded s → IsBounded (lookup_session now at id s).0
lookup_session-IsBounded now at id s b =
    subst IsBounded (sym (lookup_session-expire now at id s))
      (expire_terminals-IsBounded now at s b)

-- A group's record does not count.
pub groups_changed :
    (made : List Group) (s : Server) → IsBounded s → IsBounded (record s { made = made })
unfolding terminal_cache_capacity
groups_changed made s b = record {
  some_session = b.some_session;
  few_sessions = b.few_sessions;
  few_terminals = b.few_terminals;
  few_groups = b.few_groups;
}

leave_group-IsBounded :
    (key : String) (session : ℕ) (s : Server) → IsBounded s → IsBounded (leave_group key session s)
unfolding leave_group
leave_group-IsBounded key session s b = elim (Bool-cases (same_text key "")) [
  | inl e ↦ rw e b
  | inr e ↦ elim (Option-cases (group_at s key)) [
    | inl f ↦ rw (e, f) b
    | inr (g, f) ↦ rw (e, f) (groups_changed _ s b)
  ]
]

delete_session-IsBounded :
    (now at at' : ℕ) (r : Removed) (s : Server)
    → IsBounded s
    → IsBounded (delete_session now at at' r s)
unfolding delete_session terminal_cache_capacity
delete_session-IsBounded now at at' r s b =
    let deleted : IsBounded (record s { sessions = delete_key same_id r.id s.sessions }) = record {
      some_session = b.some_session;
      few_sessions = ground (arith, b.few_sessions, length-delete_key same_id r.id s.sessions);
      few_terminals = b.few_terminals;
      few_groups = b.few_groups;
    } in
    elim (Bool-cases r.is_closed) [
      | inr e ↦ rw e deleted
      | inl e ↦ rw e (record_terminal-IsBounded now at at' r.id r.code _ deleted)
    ]

pub remove_session-IsBounded :
    (now at at' : ℕ) (r : Removed) (s : Server)
    → IsBounded s
    → IsBounded (remove_session now at at' r s)
unfolding remove_session
remove_session-IsBounded now at at' r s b =
    let left = leave_group-IsBounded r.group_key r.session s b in
    elim (Bool-cases
      (is_session r.session (lookup same_id r.id (leave_group r.group_key r.session s).sessions))) [
        | inl e ↦ rw e (delete_session-IsBounded now at at' r _ left)
        | inr e ↦ rw e left
      ]

-- The state with a group made for a key.
abbrev pub with_group : String → Server → Server
with_group key s = record s {
  made = s.made ++ (new_group ∷ []);
  groups = assign_key same_text key (length s.made) s.groups;
}

pub find_group-cases :
    (key : String) (s : Server)
    → ((find_group key s).0 ≡ s)
      ⊎ ((group_at s key ≡ none)
          × ((find_group key s).0 ≡ with_group key s)
          × (length s.groups < s.max_active_groups))
unfolding find_group
find_group-cases key s = elim (Option-cases (group_at s key)) [
  | inr (g, e) ↦ inl (ground arith)
  | inl e ↦ ground arith
]

pub find_group-IsBounded :
    (key : String) (s : Server) → IsBounded s → IsBounded (find_group key s).0
unfolding terminal_cache_capacity
find_group-IsBounded key s b = elim (find_group-cases key s) [
  | inl e ↦ subst IsBounded (sym e) b
  | inr (_, e, l) ↦ subst IsBounded (sym e) (record {
    some_session = b.some_session;
    few_sessions = b.few_sessions;
    few_terminals = b.few_terminals;
    few_groups = ground (arith, length-assign_key same_text key (length s.made) s.groups);
  })
]

join_group-IsBounded :
    (group : Option ℕ) (session : ℕ) (s : Server)
    → IsBounded s
    → IsBounded (join_group group session s)
join_group-IsBounded none session s b = b
join_group-IsBounded (some g) session s b = groups_changed _ s b

abbrev pub with_session : ℕ → ℕ → Server → Server
with_session id session s = record s {
  sessions = assign_key same_id id session s.sessions;
  terminals = delete_key same_id id s.terminals;
}

pub admit_session-cases :
    (group random_id : Option ℕ) (session : ℕ) (s : Server)
    → ((admit_session group random_id session s).0 ≡ s)
      ⊎ ((id : ℕ) × ((admit_session group random_id session s).0
            ≡ join_group group session (with_session id session s))
          × (length s.sessions < s.max_sessions))
unfolding admit_session
admit_session-cases group none session s = inl (ground arith)
admit_session-cases group (some id) session s = elim (Bool-cases s.draining) [
  | inl e ↦ inl (ground arith)
  | inr e ↦ elim (Bool-cases (leb s.max_sessions (length s.sessions))) [
    | inl f ↦ inl (ground arith)
    | inr f ↦ inr (id, ground arith, ground arith)
  ]
]

admit_session-IsBounded :
    (group random_id : Option ℕ) (session : ℕ) (s : Server)
    → IsBounded s
    → IsBounded (admit_session group random_id session s).0
unfolding terminal_cache_capacity
admit_session-IsBounded group random_id session s b =
    elim (admit_session-cases group random_id session s) [
      | inl e ↦ subst IsBounded (sym e) b
      | inr (id, e, l) ↦ subst IsBounded (sym e) (
          join_group-IsBounded group session (with_session id session s) (record {
            some_session = b.some_session;
            few_sessions = ground (arith, length-assign_key same_id id session s.sessions);
            few_terminals =
                ground (arith, b.few_terminals, length-delete_key same_id id s.terminals);
            few_groups = b.few_groups;
          }))
    ]

pub admit-cases :
    (closes_groups : Bool) (key : String) (random_id : Option ℕ) (session : ℕ) (s : Server)
    → ((admit closes_groups key random_id session s).0 ≡ s)
      ⊎ (((admit closes_groups key random_id session s).0 ≡ (find_group key s).0)
          ⊎ (((admit closes_groups key random_id session s).0
                ≡ (admit_session none random_id session s).0)
              ⊎ ((g : ℕ) × ((admit closes_groups key random_id session s).0
                    ≡ (admit_session (some g) random_id session (find_group key s).0).0))))
unfolding admit
admit-cases closes_groups key random_id session s = elim (Bool-cases (same_text key "")) [
  | inl e ↦ inr (inr (inl (rw e refl)))
  | inr e ↦ elim (Bool-cases closes_groups) [
    | inr f ↦ inl (rw (e, f) refl)
    | inl f ↦ elim (Option-cases (find_group key s).1) [
      | inl g ↦ inr (inl (rw (e, f, g) refl))
      | inr (p, g) ↦ elim (Bool-cases (is_closed_group p (find_group key s).0)) [
        | inl h ↦ inr (inl (rw (e, f, g, h) refl))
        | inr h ↦ inr (inr (inr (p, rw (e, f, g, h) refl)))
      ]
    ]
  ]
]

pub admit-IsBounded :
    (closes_groups : Bool) (key : String) (random_id : Option ℕ) (session : ℕ) (s : Server)
    → IsBounded s
    → IsBounded (admit closes_groups key random_id session s).0
admit-IsBounded closes_groups key random_id session s b =
    let found = find_group-IsBounded key s b in
    elim (admit-cases closes_groups key random_id session s) [
      | inl e ↦ subst IsBounded (sym e) b
      | inr (inl e) ↦ subst IsBounded (sym e) found
      | inr (inr (inl e)) ↦
          subst IsBounded (sym e) (admit_session-IsBounded none random_id session s b)
      | inr (inr (inr (p, e))) ↦
          subst IsBounded (sym e) (admit_session-IsBounded (some p) random_id session _ found)
    ]
