-- ===== src/Endpoint/Server/Bounds/Runs.antt =====
-- endpoint.go: the tables of a server endpoint stay within the limits in every run of its sections.
use sgsp.Common.{
  ℕ, ◌==◌, ◌≡◌, sym, subst, ◌⊎◌, inl, inr, arith, ltb, ◌||◌, get_elem?, Bool, true, Bool-cases,
  Option-cases, not, ◌&&◌, some,
}
use Prim.Native.String.{len}
use sgsp.Placement.Types.{String, same_text}
use sgsp.Endpoint.Server.{Server, terminal_cache_capacity}
use sgsp.Endpoint.Server.Admission.{
  change_group, group_at, is_session, find_group, begin_close_group, retain_closed_group,
  forget_group,
}
use sgsp.Endpoint.Server.Steps.{
  Step, Run, admits, removes, looks_up, expires, begins_closing, retains, forgets, drains, start,
  later,
}
use sgsp.Endpoint.Server.Bounds.{IsBounded, length-delete_key, expire_terminals-IsBounded}
use sgsp.Endpoint.Server.Bounds.Operations.{
  lookup_session-IsBounded, groups_changed, remove_session-IsBounded, find_group-IsBounded,
  admit-IsBounded,
}

pub begin_close_group-cases :
    (closes_groups : Bool) (key : String) (s : Server)
    → ((begin_close_group closes_groups key s).0 ≡ s)
      ⊎ (((begin_close_group closes_groups key s).0 ≡ (find_group key s).0)
          ⊎ ((g : ℕ) × ((find_group key s).1 ≡ some g)
              × ((begin_close_group closes_groups key s).0
                  ≡ change_group g (λ state. record state { closed = true }) (find_group key s).0)))
unfolding begin_close_group
begin_close_group-cases closes_groups key s =
    elim (Bool-cases (len key == 0 || ltb s.max_group_key_bytes (len key) || not closes_groups)) [
      | inl e ↦ inl (ground arith)
      | inr e ↦ elim (Option-cases (find_group key s).1) [
        | inl f ↦ inr (inl (ground arith))
        | inr (g, f) ↦ inr (inr (g, f, ground arith))
      ]
    ]

begin_close_group-IsBounded :
    (closes_groups : Bool) (key : String) (s : Server)
    → IsBounded s
    → IsBounded (begin_close_group closes_groups key s).0
begin_close_group-IsBounded closes_groups key s b =
    let found = find_group-IsBounded key s b in
    elim (begin_close_group-cases closes_groups key s) [
      | inl e ↦ subst IsBounded (sym e) b
      | inr (inl e) ↦ subst IsBounded (sym e) found
      | inr (inr (g, f, e)) ↦ subst IsBounded (sym e) (groups_changed _ _ found)
    ]

retain_closed_group-IsBounded :
    (key : String) (g : ℕ) (s : Server) → IsBounded s → IsBounded (retain_closed_group key g s)
unfolding retain_closed_group
retain_closed_group-IsBounded key g s b = elim (Option-cases (get_elem? s.made g)) [
  | inl e ↦ rw (e, retain_closed_group) b
  | inr (group, e) ↦
      elim (Bool-cases
        (not (is_session g (group_at s key)) || not group.closed || group.persisted)) [
          | inl f ↦ rw (e, f, retain_closed_group) b
          | inr f ↦ rw (e, f, retain_closed_group) (groups_changed _ s b)
        ]
]

forget_group-IsBounded :
    (key : String) (g : ℕ) (s : Server) → IsBounded s → IsBounded (forget_group key g s)
unfolding forget_group terminal_cache_capacity
forget_group-IsBounded key g s b = elim (Option-cases (get_elem? s.made g)) [
  | inl e ↦ rw (e, forget_group) b
  | inr (group, e) ↦
      elim (Bool-cases (is_session g (group_at s key) && group.closed && group.persisted)) [
        | inr f ↦ rw (e, f, forget_group) b
        | inl f ↦
            rw (e, f, forget_group)
              (record {
                some_session = b.some_session;
                few_sessions = b.few_sessions;
                few_terminals = b.few_terminals;
                few_groups = ground (arith, b.few_groups, length-delete_key same_text key s.groups);
              })
      ]
]

drained : (s : Server) → IsBounded s → IsBounded (record s { draining = true })
unfolding terminal_cache_capacity
drained s b = record {
  some_session = b.some_session;
  few_sessions = b.few_sessions;
  few_terminals = b.few_terminals;
  few_groups = b.few_groups;
}

-- Every section of the server endpoint keeps the sessions, the terminal codes and the groups within
-- their limits.
pub Step-IsBounded : {s t : Server} → Step s t → IsBounded s → IsBounded t
Step-IsBounded (admits closes_groups key random_id session) b =
    admit-IsBounded closes_groups key random_id session _ b
Step-IsBounded (removes now at at' r) b = remove_session-IsBounded now at at' r _ b
Step-IsBounded (looks_up now at id) b = lookup_session-IsBounded now at id _ b
Step-IsBounded (expires now at) b = expire_terminals-IsBounded now at _ b
Step-IsBounded (begins_closing closes_groups key) b =
    begin_close_group-IsBounded closes_groups key _ b
Step-IsBounded (retains key g) b = retain_closed_group-IsBounded key g _ b
Step-IsBounded (forgets key g) b = forget_group-IsBounded key g _ b
Step-IsBounded drains b = drained _ b

-- Whatever sections run, in any order, the tables stay within the limits.
pub Run-IsBounded : {s t : Server} → IsBounded s → Run s t → IsBounded t
Run-IsBounded b start = b
Run-IsBounded b (later r st) = Step-IsBounded st (Run-IsBounded b r)
