-- ===== src/Endpoint/Server/Closure.antt =====
-- endpoint.go: a group that was closed stays closed until its closure is committed.
pub mod Runs
pub mod Refusal
use sgsp.Common.{
  ℕ, zero, suc, ◌+◌, ◌==◌, ◌≤◌, ◌<◌, ◌≡◌, ◌≢◌, refl, sym, ap, ◌∙◌, subst, ◌⊎◌, inl, inr, arith, ltb,
  leb, List, [], ◌∷◌, ◌++◌, length, get_elem?, get_elem?-set, set, if◌then◌else◌, Bool, true, false,
  Bool-cases, Option-cases, not, ◌&&◌, ◌||◌, Option, none, some,
}
use Prim.Native.String.{len}
use sgsp.Common.Table.{
  lookup, assign_key, delete_key, lookup-assign_key, lookup-delete_key, Decides,
}
use sgsp.Placement.Types.{String, same_text, same_text-eq, same_text_refl}
use sgsp.Endpoint.Session.{Code, normal, group_closed}
use sgsp.Endpoint.Server.{
  Server, Group, same_id, expire_terminals, schedule_terminal_expiry, record_terminal,
  lookup_session,
}
use sgsp.Endpoint.Server.Admission.{
  without, change_group, new_group, group_at, is_closed_group, is_session, join_group, Removed,
  admit, admit_session, find_group, remove_session, delete_session, leave_group, begin_close_group,
  retain_closed_group, forget_group,
}
use sgsp.Endpoint.Server.Steps.{
  Step, Run, admits, removes, looks_up, expires, begins_closing, retains, forgets, drains, start,
  later,
}
use sgsp.Endpoint.Server.Bounds.Operations.{
  lookup_session-expire, find_group-cases, admit_session-cases, admit-cases, with_group,
  with_session,
}
use sgsp.Endpoint.Server.Bounds.Runs.{begin_close_group-cases}

-- The group `g` of a key is closed, and its closure is not committed yet.
pub record IsShut (key : String) (g : ℕ) (made : List Group) (groups : List (String × ℕ))
    : Type 0 where
  pub found : lookup same_text key groups ≡ some g
  pub group : Group
  pub there : get_elem? made g ≡ some group
  pub closed : group.closed ≡ true
  pub uncommitted : group.persisted ≡ false

-- A change of a group that neither opens it again nor commits its closure.
record IsMild (f : Group → Group) : Type 0 where
  pub closes : (group : Group) → group.closed ≡ true → (f group).closed ≡ true
  pub commits : (group : Group) → (f group).persisted ≡ group.persisted

pub texts-Decides : Decides same_text
texts-Decides = record { equal = same_text-eq; reflexive = same_text_refl }

get_elem?-append {ℓ} :
    {A : Type ℓ} (xs ys : List A) (g : ℕ) (x : A)
    → get_elem? xs g ≡ some x
    → get_elem? (xs ++ ys) g ≡ some x
get_elem?-append [] ys g x e = cc
get_elem?-append (z ∷ zs) ys zero x e = e
get_elem?-append (z ∷ zs) ys (suc g) x e = get_elem?-append zs ys g x e

joins-IsMild :
    (session : ℕ) → IsMild (λ group. record group { sessions = session ∷ group.sessions })
joins-IsMild session = record { closes = λ group h. h; commits = λ group. refl }

leaves-IsMild :
    (session : ℕ) → IsMild (λ group. record group { sessions = without session group.sessions })
leaves-IsMild session = record { closes = λ group h. h; commits = λ group. refl }

closes-IsMild : IsMild (λ group. record group { closed = true })
closes-IsMild = record { closes = λ group h. refl; commits = λ group. refl }

-- What a removal does to the groups is done when the session leaves its group.
remove_session-tables :
    (now at at' : ℕ) (r : Removed) (s : Server)
    → ((remove_session now at at' r s).made ≡ (leave_group r.group_key r.session s).made)
      × ((remove_session now at at' r s).groups ≡ (leave_group r.group_key r.session s).groups)
unfolding remove_session delete_session record_terminal expire_terminals schedule_terminal_expiry
remove_session-tables now at at' r s =
    let left = leave_group r.group_key r.session s in
    elim (Bool-cases (is_session r.session (lookup same_id r.id left.sessions))) [
      | inr e ↦ rw e (refl, refl)
      | inl e ↦ elim (Bool-cases r.is_closed) [
        | inl f ↦ rw (e, f) (refl, refl)
        | inr f ↦ rw (e, f) (refl, refl)
      ]
    ]

module _ (key : String) (g : ℕ) where
  abbrev pub Shut : Server → Type 0
  Shut s = IsShut key g s.made s.groups

  change_group-Shut :
      (h : ℕ) (f : Group → Group) (s : Server)
      → IsMild f ⊎ (h ≢ g)
      → Shut s
      → Shut (change_group h f s)
  change_group-Shut h f s m b = elim (Option-cases (get_elem? s.made h)) [
    | inl e ↦ rw (e, change_group) b
    | inr (group, e) ↦ elim (Bool-cases (h == g)) [
      | inl q ↦ elim m [
        | inr n ↦ absurd (n (ground arith))
        | inl m ↦
            let same : group ≡ b.group = ground (arith, e, b.there) in
            rw (e, change_group)
              (record {
                found = b.found;
                group = f b.group;
                there = get_elem?-set s.made h g (f group) b.group b.there ∙ rw (q, same) refl;
                closed = m.closes b.group b.closed;
                uncommitted = m.commits b.group ∙ b.uncommitted;
              })
      ]
      | inr q ↦
          rw (e, change_group)
            (record {
              found = b.found;
              group = b.group;
              there = get_elem?-set s.made h g (f group) b.group b.there ∙ rw q refl;
              closed = b.closed;
              uncommitted = b.uncommitted;
            })
    ]
  ]

  -- Another key's new group.
  with_group-Shut : (k : String) (s : Server) → group_at s k ≡ none → Shut s → Shut (with_group k s)
  with_group-Shut k s e b = record {
    found =
        lookup-assign_key same_text texts-Decides key k (length s.made) s.groups
        ∙ elim (Bool-cases (same_text k key)) [
          | inl q ↦ absurd (
              let same : k ≡ key = same_text-eq k key q in
              let there : group_at s k ≡ some g = rw same b.found in ground (arith, there))
          | inr q ↦ rw q b.found
        ];
    group = b.group;
    there = get_elem?-append s.made (new_group ∷ []) g b.group b.there;
    closed = b.closed;
    uncommitted = b.uncommitted;
  }

  find_group-Shut : (k : String) (s : Server) → Shut s → Shut (find_group k s).0
  find_group-Shut k s b = elim (find_group-cases k s) [
    | inl e ↦ subst Shut (sym e) b
    | inr (n, e, l) ↦ subst Shut (sym e) (with_group-Shut k s n b)
  ]

  join_group-Shut :
      (group : Option ℕ) (session : ℕ) (s : Server) → Shut s → Shut (join_group group session s)
  join_group-Shut none session s b = b
  join_group-Shut (some h) session s b = change_group-Shut h _ s (inl (joins-IsMild session)) b

  admit_session-Shut :
      (group random_id : Option ℕ) (session : ℕ) (s : Server)
      → Shut s
      → Shut (admit_session group random_id session s).0
  admit_session-Shut group random_id session s b =
      elim (admit_session-cases group random_id session s) [
        | inl e ↦ subst Shut (sym e) b
        | inr (id, e, l) ↦
            subst Shut (sym e) (join_group-Shut group session (with_session id session s) b)
      ]

  pub admit-Shut :
      (closes_groups : Bool) (k : String) (random_id : Option ℕ) (session : ℕ) (s : Server)
      → Shut s
      → Shut (admit closes_groups k random_id session s).0
  admit-Shut closes_groups k random_id session s b =
      let found = find_group-Shut k s b in
      elim (admit-cases closes_groups k random_id session s) [
        | inl e ↦ subst Shut (sym e) b
        | inr (inl e) ↦ subst Shut (sym e) found
        | inr (inr (inl e)) ↦ subst Shut (sym e) (admit_session-Shut none random_id session s b)
        | inr (inr (inr (p, e))) ↦
            subst Shut (sym e) (admit_session-Shut (some p) random_id session _ found)
      ]

  leave_group-Shut :
      (k : String) (session : ℕ) (s : Server) → Shut s → Shut (leave_group k session s)
  unfolding leave_group
  leave_group-Shut k session s b = elim (Bool-cases (same_text k "")) [
    | inl e ↦ rw (e, leave_group) b
    | inr e ↦ elim (Option-cases (group_at s k)) [
      | inl f ↦ rw (e, f, leave_group) b
      | inr (h, f) ↦
          rw (e, f, leave_group) (change_group-Shut h _ s (inl (leaves-IsMild session)) b)
    ]
  ]

  pub expire_terminals-Shut : (now at : ℕ) (s : Server) → Shut s → Shut (expire_terminals now at s)
  unfolding expire_terminals schedule_terminal_expiry
  expire_terminals-Shut now at s b = b

  same_tables-Shut : (s t : Server) → t.made ≡ s.made → t.groups ≡ s.groups → Shut s → Shut t
  same_tables-Shut s t e f b = rw (e, f) b

  pub remove_session-Shut :
      (now at at' : ℕ) (r : Removed) (s : Server) → Shut s → Shut (remove_session now at at' r s)
  remove_session-Shut now at at' r s b =
      let left = leave_group-Shut r.group_key r.session s b in
      let (e, f) = remove_session-tables now at at' r s in
      same_tables-Shut (leave_group r.group_key r.session s) (remove_session now at at' r s) e f
        left

  pub begin_close_group-Shut :
      (closes_groups : Bool) (k : String) (s : Server)
      → Shut s
      → Shut (begin_close_group closes_groups k s).0
  begin_close_group-Shut closes_groups k s b =
      let found = find_group-Shut k s b in
      elim (begin_close_group-cases closes_groups k s) [
        | inl e ↦ subst Shut (sym e) b
        | inr (inl e) ↦ subst Shut (sym e) found
        | inr (inr (h, f, e)) ↦
            subst Shut (sym e) (change_group-Shut h _ (find_group k s).0 (inl closes-IsMild) found)
      ]

  pub retain_closed_group-Shut :
      (k : String) (h : ℕ) (s : Server) → h ≢ g → Shut s → Shut (retain_closed_group k h s)
  unfolding retain_closed_group
  retain_closed_group-Shut k h s n b = elim (Option-cases (get_elem? s.made h)) [
    | inl e ↦ rw (e, retain_closed_group) b
    | inr (group, e) ↦
        elim (Bool-cases
          (not (is_session h (group_at s k)) || not group.closed || group.persisted)) [
            | inl f ↦ rw (e, f, retain_closed_group) b
            | inr f ↦ rw (e, f, retain_closed_group) (change_group-Shut h _ s (inr n) b)
          ]
  ]

  -- The timer forgets a group whose closure was committed only.
  pub forget_group-Shut : (k : String) (h : ℕ) (s : Server) → Shut s → Shut (forget_group k h s)
  unfolding forget_group
  forget_group-Shut k h s b = elim (Option-cases (get_elem? s.made h)) [
    | inl e ↦ rw (e, forget_group) b
    | inr (group, e) ↦
        elim (Bool-cases (is_session h (group_at s k) && group.closed && group.persisted)) [
          | inr f ↦ rw (e, f, forget_group) b
          | inl f ↦
              rw (e, f, forget_group)
                (record {
                  found =
                      lookup-delete_key same_text texts-Decides key k s.groups
                      ∙ elim (Bool-cases (same_text k key)) [
                        | inr q ↦ rw q b.found
                        | inl q ↦ absurd (
                            let same : k ≡ key = same_text-eq k key q in
                            let there : group_at s k ≡ some g = rw same b.found in
                            let named : (g == h) ≡ true = ground (arith, there) in
                            let place : g ≡ h = ground arith in
                            let one : some group ≡ some b.group =
                              sym e ∙ ap (get_elem? s.made) (sym place) ∙ b.there in
                            ground (arith, b.uncommitted))
                      ];
                  group = b.group;
                  there = b.there;
                  closed = b.closed;
                  uncommitted = b.uncommitted;
                })
        ]
  ]
