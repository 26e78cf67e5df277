-- ===== src/Endpoint/Server/Terminals/Kept.antt =====
-- endpoint.go: admissions and the sections on groups leave the entries of the terminal cache in their
-- places.
use sgsp.Common.{
  ℕ, ◌≡◌, sym, subst, ◌∙◌, inl, inr, leb, not, ◌&&◌, ◌||◌, length, get_elem?, Bool, false,
  Bool-cases, Option-cases, Option, none, some,
}
use sgsp.Common.Table.{lookup-assign_key, lookup-delete_key}
use sgsp.Placement.Types.{String, same_text}
use sgsp.Endpoint.Server.{Server, Terminal, same_id}
use sgsp.Endpoint.Server.Admission.{
  group_at, is_closed_group, is_session, find_group, join_group, admit_session, admit,
  begin_close_group, retain_closed_group, forget_group,
}
use sgsp.Endpoint.Server.Bounds.Runs.{begin_close_group-cases}
use sgsp.Endpoint.Server.Terminals.{IsCached, ids-Decides}

find_group-IsCached :
    (key : String) (id : ℕ) (t : Terminal) (s : Server)
    → IsCached id t s
    → IsCached id t (find_group key s).0
unfolding find_group
find_group-IsCached key id t s c = elim (Option-cases (group_at s key)) [
  | inr (g, e) ↦ rw (e, find_group) c
  | inl e ↦ elim (Bool-cases (leb s.max_active_groups (length s.groups))) [
    | inl f ↦ rw (e, f, find_group) c
    | inr f ↦ rw (e, f, find_group) c
  ]
]

join_group-IsCached :
    (group : Option ℕ) (session id : ℕ) (t : Terminal) (s : Server)
    → IsCached id t s
    → IsCached id t (join_group group session s)
join_group-IsCached none session id t s c = c
join_group-IsCached (some g) session id t s c = c

admit_session-IsCached :
    (group random_id : Option ℕ) (session id : ℕ) (t : Terminal) (s : Server)
    → is_session id random_id ≡ false
    → IsCached id t s
    → IsCached id t (admit_session group random_id session s).0
unfolding admit_session
admit_session-IsCached group random_id session id t s other (e, f) = elim (Bool-cases s.draining) [
  | inl d ↦ rw d (e, f)
  | inr d ↦ elim (Bool-cases (leb s.max_sessions (length s.sessions))) [
    | inl m ↦ rw (d, m) (e, f)
    | inr m ↦ elim (Option-cases random_id) [
      | inl n ↦ rw (d, m, n) (e, f)
      | inr (j, n) ↦
          let apart : same_id j id ≡ false = rw n at other in
          rw (d, m, n)
            (join_group-IsCached group session id t _ (
              lookup-assign_key same_id ids-Decides id j session s.sessions ∙ (rw apart e),
              lookup-delete_key same_id ids-Decides id j s.terminals ∙ (rw apart f),
            ))
    ]
  ]
]

pub admit-IsCached :
    (closes_groups : Bool) (key : String) (random_id : Option ℕ) (session id : ℕ) (t : Terminal)
    (s : Server)
    → is_session id random_id ≡ false
    → IsCached id t s
    → IsCached id t (admit closes_groups key random_id session s).0
unfolding admit
admit-IsCached closes_groups key random_id session id t s other c =
    let found = find_group-IsCached key id t s c in
    elim (Bool-cases (same_text key "")) [
      | inl e ↦ rw e (admit_session-IsCached none random_id session id t s other c)
      | inr e ↦ elim (Bool-cases closes_groups) [
        | inr f ↦ rw (e, f) c
        | inl f ↦ elim (Option-cases (find_group key s).1) [
          | inl g ↦ rw (e, f, g) found
          | inr (g, h) ↦ elim (Bool-cases (is_closed_group g (find_group key s).0)) [
            | inl k ↦ rw (e, f, h, k) found
            | inr k ↦
                rw (e, f, h, k)
                  (admit_session-IsCached (some g) random_id session id t (find_group key s).0 other
                    found)
          ]
        ]
      ]
    ]

pub begin_close_group-IsCached :
    (closes_groups : Bool) (key : String) (id : ℕ) (t : Terminal) (s : Server)
    → IsCached id t s
    → IsCached id t (begin_close_group closes_groups key s).0
unfolding begin_close_group
begin_close_group-IsCached closes_groups key id t s c =
    elim (begin_close_group-cases closes_groups key s) [
      | inl e ↦ subst (IsCached id t) (sym e) c
      | inr (inl e) ↦ subst (IsCached id t) (sym e) (find_group-IsCached key id t s c)
      | inr (inr (g, f, e)) ↦ subst (IsCached id t) (sym e) (find_group-IsCached key id t s c)
    ]

pub retain_closed_group-IsCached :
    (key : String) (g id : ℕ) (t : Terminal) (s : Server)
    → IsCached id t s
    → IsCached id t (retain_closed_group key g s)
unfolding retain_closed_group
retain_closed_group-IsCached key g id t s c = elim (Option-cases (get_elem? s.made g)) [
  | inl e ↦ rw (e, retain_closed_group) c
  | inr (group, e) ↦
      elim (Bool-cases
        (not (is_session g (group_at s key)) || not group.closed || group.persisted)) [
          | inl f ↦ rw (e, f, retain_closed_group) c
          | inr f ↦ rw (e, f, retain_closed_group) c
        ]
]

pub forget_group-IsCached :
    (key : String) (g id : ℕ) (t : Terminal) (s : Server)
    → IsCached id t s
    → IsCached id t (forget_group key g s)
unfolding forget_group
forget_group-IsCached key g id t s c = elim (Option-cases (get_elem? s.made g)) [
  | inl e ↦ rw (e, forget_group) c
  | inr (group, e) ↦
      elim (Bool-cases (is_session g (group_at s key) && group.closed && group.persisted)) [
        | inl f ↦ rw (e, f, forget_group) c
        | inr f ↦ rw (e, f, forget_group) c
      ]
]
